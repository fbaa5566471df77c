-- ===== src/Snapshot/Find.antt =====
-- `find_service` over the slots that `index` filled answers as a search through the services does.
use l4_loadbalancer.Base.{
  ℕ, ◌+◌, ◌%◌, ◌<◌, ◌≡◌, refl, ap, Bool, true, false, arith, inl, inr, ◌⊎◌, Option, none, some,
  List, [], ◌∷◌, ◌++◌, length, length-append, get_elem?, if◌then◌else◌,
}
use l4_loadbalancer.Snapshot.Slots.{Holds, find_in, Answer, insert-Holds, absent-Answer, count-all}
use l4_loadbalancer.Snapshot.{
  Crc, Snapshot, Service, probe, put_slot, addr_slots, svc_hash, is_service, ends_at, is_free,
  find_service, add_service, add_services, index,
}
use native.Mathlib.Nat.{mod-lt}

-- The address, the port and the protocol.
abbrev Key : Type 0
Key = ℕ × ℕ × ℕ

abbrev test_of : Key → Service → Bool
test_of (vip, port_be, proto) s = is_service vip port_be proto s

-- The index of the first service that a key fits.
abbrev pub search : Key → List Service → Option ℕ
search k [] = none
search k (s ∷ ss) = let rest = search k ss in if test_of k s then some s.idx else rest

abbrev key_of : Service → Key
key_of s = (s.vip, s.port_be, s.proto)

test-key : (k : Key) (s : Service) → test_of k s ≡ true → k ≡ key_of s
test-key (vip, port_be, proto) s e = triple (ground arith) (ground arith) (ground arith)
  where
    triple : s.vip ≡ vip → s.port_be ≡ port_be → s.proto ≡ proto → (vip, port_be, proto) ≡ key_of s
    triple a b c = rw (a, b, c) refl

key-test : (s : Service) → test_of (key_of s) s ≡ true
key-test s = ground arith

module _ (services : List Service) where
  abbrev fits : Key → Option ℕ → Bool
  fits k none = false
  fits k (some idx) = elim (get_elem? services idx) [ none ↦ false | some s ↦ test_of k s ]

  abbrev ends : Key → Option ℕ → Bool
  ends k slot = ends_at services (test_of k) slot

  abbrev AnyKey : Key → Type 0
  AnyKey k = Unit

  apart : (k : Key) (a : Option ℕ) → AnyKey k → is_free a ≡ true → fits k a ≡ false
  apart k none v e = refl
  apart k (some idx) v e = cc e

  ends_free : (k : Key) (a : Option ℕ) → is_free a ≡ true → ends k a ≡ true
  ends_free k none e = refl
  ends_free k (some idx) e = cc e

  ends_match : (k : Key) (a : Option ℕ) → fits k a ≡ true → ends k a ≡ true
  ends_match k none e = refl
  ends_match k (some idx) e = e

  ends_either : (k : Key) (a : Option ℕ) → ends k a ≡ true → (fits k a ≡ true) ⊎ (is_free a ≡ true)
  ends_either k none e = inr refl
  ends_either k (some idx) e = inl e

  module _ (crc : Crc) where
    home : Key → ℕ
    home (vip, port_be, proto) = svc_hash crc vip port_be proto % addr_slots

    home_lt : (k : Key) → home k < addr_slots
    unfolding home
    home_lt (vip, port_be, proto) = mod-lt (svc_hash crc vip port_be proto) (omega arith)

    abbrev IsTable : (ℕ → Option ℕ) → List (Option ℕ) → Type 0
    IsTable = Holds is_free AnyKey fits ends home home_lt apart ends_free ends_match ends_either

    abbrev find : Key → List (Option ℕ) → Option (Option ℕ)
    find = find_in is_free AnyKey fits ends home home_lt apart ends_free ends_match ends_either

    empty-IsTable : IsTable (λ i. none) []
    empty-IsTable = record {
      answer = λ k valid.
          absent-Answer is_free AnyKey fits ends home home_lt apart ends_free ends_match ends_either
            (λ i. none) k (λ j. refl) (omega (arith, count-all is_free addr_slots none refl));
      absent = λ k valid e j. refl;
      room = omega (arith, count-all is_free addr_slots none refl);
    }

    add_service-put :
        (slots : ℕ → Option ℕ) (s : Service) (f : ℕ)
        → probe addr_slots slots is_free (home (key_of s)) ≡ some f
        → add_service crc slots s ≡ put_slot slots f (some s.idx)
    unfolding add_service home
    add_service-put slots s f e = rw (add_service, e) refl

    -- The loop of `index` finds a free slot.
    free_slot :
        (slots : ℕ → Option ℕ) (content : List (Option ℕ)) (k : Key)
        → IsTable slots content
        → length content < addr_slots
        → (f : ℕ) × (probe addr_slots slots is_free (home k) ≡ some f)
    free_slot slots content k holds few =
        let (j, q, v) =
          absent-Answer is_free AnyKey (λ (k : Key) (a : Option ℕ). false)
            (λ (k : Key) (a : Option ℕ). is_free a) home home_lt (λ k a valid e. refl) (λ k a e. e)
            (λ k a e. cc e) (λ k a e. inr e) slots k (λ j. refl) (omega (arith, holds.room, few)) in
        (j, q)

    add_service-IsTable :
        (slots : ℕ → Option ℕ) (content : List (Option ℕ)) (s : Service)
        → IsTable slots content
        → length content + 1 < addr_slots
        → get_elem? services s.idx ≡ some s
        → IsTable (add_service crc slots s) (content ++ (some s.idx ∷ []))
    add_service-IsTable slots content s holds few there =
        let (f, e) = free_slot slots content (key_of s) holds (omega (arith, few)) in
        rw (add_service-put slots s f e) (
          insert-Holds is_free AnyKey fits ends home home_lt apart ends_free ends_match ends_either
            slots content (some s.idx) (key_of s) f holds tt own refl only few e)
      where
        own : fits (key_of s) (some s.idx) ≡ true
        own = rw (fits, there) (key-test s)

        only : (k : Key) → fits k (some s.idx) ≡ true → k ≡ key_of s
        only k m = test-key k s (rw (fits, there) at m)

    -- The services that are put in, each at its own index.
    abbrev pub AtHome : List Service → Type 0
    AtHome [] = Unit
    AtHome (s ∷ ss) = (get_elem? services s.idx ≡ some s) × AtHome ss

    abbrev slots_of : List Service → List (Option ℕ)
    slots_of [] = []
    slots_of (s ∷ ss) = some s.idx ∷ slots_of ss

    add_services-IsTable :
        (slots : ℕ → Option ℕ) (content : List (Option ℕ)) (ss : List Service)
        → IsTable slots content
        → length content + length ss < addr_slots
        → AtHome ss
        → IsTable (add_services crc slots ss) (content ++ slots_of ss)
    add_services-IsTable slots content [] holds few home_ss = rw (append_nil content) holds
      where
        append_nil : (xs : List (Option ℕ)) → xs ++ [] ≡ xs
        append_nil [] = refl
        append_nil (x ∷ xs) = ap (λ ys. x ∷ ys) (append_nil xs)
    add_services-IsTable slots content (s ∷ ss) holds few home_ss =
        rw (← (append_assoc content (some s.idx) (slots_of ss))) (
          add_services-IsTable (add_service crc slots s) (content ++ (some s.idx ∷ [])) ss
            (add_service-IsTable slots content s holds (omega (arith, few)) home_ss.0)
            (omega (arith, few, length-append content (some s.idx ∷ []))) home_ss.1)
      where
        append_assoc :
            (xs : List (Option ℕ)) (y : Option ℕ) (ys : List (Option ℕ))
            → (xs ++ (y ∷ [])) ++ ys ≡ xs ++ (y ∷ ys)
        append_assoc [] y ys = refl
        append_assoc (x ∷ xs) y ys = ap (λ zs. x ∷ zs) (append_assoc xs y ys)

    abbrev wrap : Option ℕ → Option (Option ℕ)
    wrap none = none
    wrap (some i) = some (some i)

    choose :
        (b : Bool) (i : ℕ) (rest : Option ℕ)
        → (if b then some (some i) else wrap rest) ≡ wrap (if b then some i else rest)
    choose true i rest = refl
    choose false i rest = refl

    find-search :
        (k : Key) (ss : List Service) → AtHome ss → find k (slots_of ss) ≡ wrap (search k ss)
    find-search k [] h = refl
    find-search k (s ∷ ss) h =
        rw (fits, h.0, find-search k ss h.1) (choose (test_of k s) s.idx (search k ss))

    -- What the loop ends at.
    Answer-search :
        (slots : ℕ → Option ℕ) (content : List (Option ℕ)) (k : Key) (found : Option ℕ)
        → find k content ≡ wrap found
        → Answer is_free AnyKey fits ends home home_lt apart ends_free ends_match ends_either slots
            content k
        → (j : ℕ) × (probe addr_slots slots (ends k) (home k) ≡ some j) × (slots j ≡ found)
    Answer-search slots content k none e (j, q, v) = (j, q, free_none (slots j) (rw e at v))
      where
        free_none : (a : Option ℕ) → is_free a ≡ true → a ≡ none
        free_none none h = refl
        free_none (some i) h = cc h
    Answer-search slots content k (some i) e (j, q, v) = (j, q, rw e at v)

module _ (crc : Crc) where
  -- The index of each service is its place in the list.
  abbrev pub IsPlaced : List Service → Type 0
  IsPlaced services = AtHome services crc services

  -- For every hash function and fewer than 512 services, each with its place as its index: after `index`
  -- the lookup of an address, a port and a protocol gives the first service that has them, and none if
  -- no service has.
  pub find_service-search :
      (snap : Snapshot) (vip port_be proto : ℕ)
      → IsPlaced snap.services
      → length snap.services < addr_slots
      → find_service crc (index crc snap) vip port_be proto
        ≡ search (vip, port_be, proto) snap.services
  unfolding find_service index home
  find_service-search snap vip port_be proto placed few =
      let k : Key = (vip, port_be, proto) in
      let ss = snap.services in
      let slots = add_services crc (λ i. none) ss in
      let holds =
        add_services-IsTable ss crc (λ i. none) [] ss (empty-IsTable ss crc) (omega (arith, few))
          placed in
      let (j, q, v) =
        Answer-search ss crc slots (slots_of ss crc ss) k (search k ss)
          (find-search ss crc k ss placed) (holds.answer k tt) in
      rw (find_service, q) v
