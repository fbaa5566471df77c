-- ===== src/Snapshot/Sets.antt =====
-- The sets of addresses: `set_has` over what `set_add` put in answers as membership does.
use l4_loadbalancer.Base.{
  ℕ, ◌+◌, ◌%◌, ◌≤◌, ◌<◌, ◌≡◌, ◌≢◌, refl, sym, ◌∙◌, ap, Bool, true, false, ◌||◌, arith, Bool-cases,
  inl, inr, ◌⊎◌, ◌==◌, ==_iff, ==-false, Option, none, some, List, [], ◌∷◌, ◌++◌, length,
  length-append,
}
use l4_loadbalancer.Snapshot.Probe.{probe-free, some_inj}
use l4_loadbalancer.Snapshot.Slots.{Holds, find_in, Answer, insert-Holds, absent-Answer, count-all}
use l4_loadbalancer.Snapshot.{Crc, probe, put_slot, addr_slots, addr_hash, set_has, set_add}
use native.Mathlib.Nat.{mod-lt}

abbrev pub mem : ℕ → List ℕ → Bool
mem ip [] = false
mem ip (x ∷ xs) = x == ip || mem ip xs

abbrev pub is_zero : ℕ → Bool
is_zero x = x == 0

abbrev pub is_ip : ℕ → ℕ → Bool
is_ip ip x = x == ip

abbrev pub ends : ℕ → ℕ → Bool
ends ip x = x == ip || x == 0

abbrev pub NotZero : ℕ → Type 0
NotZero ip = ip ≢ 0

pub apart : (k a : ℕ) → NotZero k → is_zero a ≡ true → is_ip k a ≡ false
apart k a h e = ground arith

pub ends_free : (k a : ℕ) → is_zero a ≡ true → ends k a ≡ true
ends_free k a e = ground arith

pub ends_match : (k a : ℕ) → is_ip k a ≡ true → ends k a ≡ true
ends_match k a e = ground arith

pub ends_either : (k a : ℕ) → ends k a ≡ true → (is_ip k a ≡ true) ⊎ (is_zero a ≡ true)
ends_either k a e = ground arith

module _ (crc : Crc) where
  unfoldable pub home : ℕ → ℕ
  home ip = addr_hash crc ip % addr_slots

  pub home_lt : (ip : ℕ) → home ip < addr_slots
  unfolding home
  home_lt ip = mod-lt (addr_hash crc ip) (omega arith)

  abbrev pub IsIpSet : (ℕ → ℕ) → List ℕ → Type 0
  IsIpSet = Holds is_zero NotZero is_ip ends home home_lt apart ends_free ends_match ends_either

  abbrev find : ℕ → List ℕ → Option ℕ
  find = find_in is_zero NotZero is_ip ends home home_lt apart ends_free ends_match ends_either

  mem-none : (ip : ℕ) (xs : List ℕ) → find ip xs ≡ none → mem ip xs ≡ false
  mem-none ip [] e = refl
  mem-none ip (x ∷ xs) e = elim (Bool-cases (x == ip)) [
    | inl h ↦ cc (rw h at e)
    | inr h ↦ rw h (mem-none ip xs (rw h at e))
  ]

  mem-some : (ip b : ℕ) (xs : List ℕ) → find ip xs ≡ some b → (mem ip xs ≡ true) × (b ≡ ip)
  mem-some ip b [] e = cc e
  mem-some ip b (x ∷ xs) e = elim (Bool-cases (x == ip)) [
    | inl h ↦ rw h (refl, some_inj (sym (rw h at e)) ∙ (==_iff x ip).0 h)
    | inr h ↦ rw h (mem-some ip b xs (rw h at e))
  ]

  mem-last : (ip x : ℕ) (xs : List ℕ) → mem x (xs ++ (ip ∷ [])) ≡ (ip == x || mem x xs)
  mem-last ip x [] = refl
  mem-last ip x (y ∷ ys) = rw (mem-last ip x ys) (swap (y == x) (ip == x) (mem x ys))
    where
      swap : (a b c : Bool) → (a || (b || c)) ≡ (b || (a || c))
      swap true true c = refl
      swap true false c = refl
      swap false b c = refl

  pub set_has-mem :
      (s : ℕ → ℕ) (content : List ℕ) (ip : ℕ)
      → IsIpSet s content
      → NotZero ip
      → set_has crc s ip ≡ mem ip content
  unfolding set_has home
  set_has-mem s content ip holds valid = answered (find ip content) refl (holds.answer ip valid)
    where
      answered :
          (o : Option ℕ)
          → find ip content ≡ o
          → Answer is_zero NotZero is_ip ends home home_lt apart ends_free ends_match ends_either s
              content ip
          → set_has crc s ip ≡ mem ip content
      answered none e (j, q, v) =
          rw (set_has, q, mem-none ip content e, (==_iff (s j) 0).0 (rw e at v))
            (==-false 0 ip (λ h. valid (sym h)))
      answered (some b) e (j, q, v) =
          rw (set_has, q, (mem-some ip b content e).0)
            ((==_iff (s j) ip).1 ((rw e at v) ∙ (mem-some ip b content e).1))

  -- What a set contains, as a test on the addresses other than 0; `n` bounds the number of its entries.
  abbrev pub Stores : (ℕ → ℕ) → (ℕ → Bool) → ℕ → Type 0
  Stores s test n =
      (content : List ℕ) × IsIpSet s content
      × (length content ≤ n)
      × ((x : ℕ) → NotZero x → mem x content ≡ test x)

  pub empty-Stores : Stores (λ i. 0) (λ x. false) 0
  empty-Stores = (
    [],
    record {
      answer = λ k valid.
          absent-Answer is_zero NotZero is_ip ends home home_lt apart ends_free ends_match
            ends_either (λ i. 0) k (λ j. ==-false 0 k (λ h. valid (sym h)))
            (omega (arith, count-all is_zero addr_slots 0 refl));
      absent = λ k valid e j. ==-false 0 k (λ h. valid (sym h));
      room = omega (arith, count-all is_zero addr_slots 0 refl);
    },
    omega arith,
    λ x valid. refl,
  )

  add-kept :
      (s : ℕ → ℕ) (ip : ℕ) (test : ℕ → Bool) (n : ℕ)
      → Stores s test n
      → ((x : ℕ) → NotZero x → (ip == x || test x) ≡ test x)
      → Stores s (λ x. ip == x || test x) (n + 1)
  add-kept s ip test n (content, holds, few, same) known =
      (content, holds, omega (arith, few), λ x valid. same x valid ∙ sym (known x valid))

  set_add-known : (s : ℕ → ℕ) (ip : ℕ) → (ip == 0 || set_has crc s ip) ≡ true → set_add crc s ip ≡ s
  unfolding set_add
  set_add-known s ip h = rw h refl

  set_add-new :
      (s : ℕ → ℕ) (ip f : ℕ)
      → (ip == 0 || set_has crc s ip) ≡ false
      → probe addr_slots s is_zero (home ip) ≡ some f
      → set_add crc s ip ≡ put_slot s f ip
  unfolding set_add home
  set_add-new s ip f h e = rw (h, e) refl

  -- The slot that `set_add` takes: one is free, as the set is not full.
  free_slot :
      (s : ℕ → ℕ) (content : List ℕ)
      → IsIpSet s content
      → (ip : ℕ) → NotZero ip
      → find ip content ≡ none
      → (f : ℕ) × (probe addr_slots s is_zero (home ip) ≡ some f)
  free_slot s content holds ip valid e =
      let (j, q, v) = holds.answer ip valid in
      (j, probe-free s (ends ip) is_zero (ends_free ip) addr_slots (home ip) j q (rw e at v))

  find-none : (ip : ℕ) (xs : List ℕ) → mem ip xs ≡ false → find ip xs ≡ none
  find-none ip [] e = refl
  find-none ip (x ∷ xs) e = elim (Bool-cases (x == ip)) [
    | inl h ↦ cc (rw h at e)
    | inr h ↦ rw h (find-none ip xs (rw h at e))
  ]

  pub set_add-Stores :
      (s : ℕ → ℕ) (ip : ℕ) (test : ℕ → Bool) (n : ℕ)
      → Stores s test n
      → n + 1 < addr_slots
      → Stores (set_add crc s ip) (λ x. ip == x || test x) (n + 1)
  set_add-Stores s ip test n (content, holds, few, same) room = elim (Bool-cases (ip == 0)) [
    | inl z ↦
        rw (set_add-known s ip (rw z refl))
          (add-kept s ip test n (content, holds, few, same) (other z))
    | inr z ↦ elim (Bool-cases (set_has crc s ip)) [
      | inl h ↦
          rw (set_add-known s ip (rw (z, h) refl))
            (add-kept s ip test n (content, holds, few, same) (known z h))
      | inr h ↦ added z h
    ]
  ]
    where
      other : (ip == 0) ≡ true → (x : ℕ) → NotZero x → (ip == x || test x) ≡ test x
      other z x valid = rw (==-false ip x (λ q. valid (sym q ∙ (==_iff ip 0).0 z))) refl

      not_zero : (ip == 0) ≡ false → NotZero ip
      not_zero z e = cc (z, (==_iff ip 0).1 e)

      known :
          (ip == 0) ≡ false
          → set_has crc s ip ≡ true
          → (x : ℕ) → NotZero x
          → (ip == x || test x) ≡ test x
      known z h x valid = elim (Bool-cases (ip == x)) [
        | inr e ↦ rw e refl
        | inl e ↦ rw e (
            sym (
              rw (← ((==_iff ip x).0 e)) (
                sym (same ip (not_zero z))
                ∙ sym (set_has-mem s content ip holds (not_zero z))
                ∙ h)))
      ]

      added :
          (ip == 0) ≡ false
          → set_has crc s ip ≡ false
          → Stores (set_add crc s ip) (λ x. ip == x || test x) (n + 1)
      added z h =
          let absent =
            find-none ip content (sym (set_has-mem s content ip holds (not_zero z)) ∙ h) in
          let (f, e) = free_slot s content holds ip (not_zero z) absent in
          rw (set_add-new s ip f (rw (z, h) refl) e) (
            content ++ (ip ∷ []),
            insert-Holds is_zero NotZero is_ip ends home home_lt apart ends_free ends_match
                ends_either s content ip ip f holds (not_zero z) ((==_iff ip ip).1 refl) z
                (λ k m. sym ((==_iff ip k).0 m)) (omega (arith, few, room)) e,
            omega (arith, few, length-append content (ip ∷ [])),
            λ x valid. mem-last ip x content ∙ ap (λ b. ip == x || b) (same x valid),
          )
