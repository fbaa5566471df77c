-- ===== src/Manager/Ids.antt =====
-- The ids of the real servers: distinct, and below the next one.
use l4_loadbalancer.Base.{
  ℕ, zero, suc, ◌+◌, ◌%◌, ◌^◌, ◌≤◌, ◌<◌, ◌≡◌, ◌≢◌, refl, sym, Bool, false, arith, Bool-cases,
  Option-cases, inl, inr, ◌==◌, leb, ltb, some, List, [], ◌∷◌, ◌++◌, length, get_elem?, set,
}
use l4_loadbalancer.Config.{RsConf, max_rs_per_service}
use l4_loadbalancer.Manager.{
  DesiredRs, DesiredService, Manager, find_in, find_rs, change_in, change_rs, set_weight,
  set_enabled, set_health, add_to, add_rs, erase_in, erase_rs, del_rs, new_rs, is_some, max_rs_id,
  put_weight, put_enabled, put_healthy, same_address,
}

abbrev pub rs_ids : List DesiredRs → List ℕ
rs_ids [] = []
rs_ids (r ∷ rs) = r.id ∷ rs_ids rs

abbrev pub ids_of : List DesiredService → List ℕ
ids_of [] = []
ids_of (s ∷ ss) = rs_ids s.rs ++ ids_of ss

abbrev pub NotIn : ℕ → List ℕ → Type 0
NotIn k [] = Unit
NotIn k (i ∷ c) = (k ≢ i) × NotIn k c

abbrev pub IsDistinct : List ℕ → Type 0
IsDistinct [] = Unit
IsDistinct (i ∷ c) = NotIn i c × IsDistinct c

-- Every number is positive and below a bound.
abbrev pub AllBelow : ℕ → List ℕ → Type 0
AllBelow n [] = Unit
AllBelow n (i ∷ c) = (0 < i) × (i < n) × AllBelow n c

leb-false : (a b : ℕ) → leb a b ≡ false → b < a
leb-false a b h = ground arith

-- A list with entries left out, and with one put in.
data Sub : List ℕ → List ℕ → Type 0 where
  nil : Sub [] []
  keep : {i : ℕ} {c d : List ℕ} → Sub c d → Sub (i ∷ c) (i ∷ d)
  skip : {i : ℕ} {c d : List ℕ} → Sub c d → Sub c (i ∷ d)

data Ins (k : ℕ) : List ℕ → List ℕ → Type 0 where
  here : {c : List ℕ} → Ins k (k ∷ c) c
  later : {i : ℕ} {c d : List ℕ} → Ins k c d → Ins k (i ∷ c) (i ∷ d)

Sub-refl : (c : List ℕ) → Sub c c
Sub-refl [] = nil
Sub-refl (i ∷ c) = keep (Sub-refl c)

Sub-append : (a b : List ℕ) {c d : List ℕ} → Sub a b → Sub c d → Sub (a ++ c) (b ++ d)
Sub-append _ _ nil s = s
Sub-append _ _ (keep r) s = keep (Sub-append _ _ r s)
Sub-append _ _ (skip r) s = skip (Sub-append _ _ r s)

Sub-NotIn : (k : ℕ) {c d : List ℕ} → Sub c d → NotIn k d → NotIn k c
Sub-NotIn k nil n = tt
Sub-NotIn k (keep s) n = (n.0, Sub-NotIn k s n.1)
Sub-NotIn k (skip s) n = Sub-NotIn k s n.1

Sub-IsDistinct : {c d : List ℕ} → Sub c d → IsDistinct d → IsDistinct c
Sub-IsDistinct nil h = tt
Sub-IsDistinct (keep s) h = (Sub-NotIn _ s h.0, Sub-IsDistinct s h.1)
Sub-IsDistinct (skip s) h = Sub-IsDistinct s h.1

Sub-AllBelow : (n : ℕ) {c d : List ℕ} → Sub c d → AllBelow n d → AllBelow n c
Sub-AllBelow n nil h = tt
Sub-AllBelow n (keep s) h = (h.0, h.1, Sub-AllBelow n s h.2)
Sub-AllBelow n (skip s) h = Sub-AllBelow n s h.2

Ins-append : (k : ℕ) (a b c : List ℕ) → Ins k a b → Ins k (a ++ c) (b ++ c)
Ins-append k _ _ c here = here
Ins-append k _ _ c (later s) = later (Ins-append k _ _ c s)

Ins-before : (k : ℕ) (a : List ℕ) {c d : List ℕ} → Ins k c d → Ins k (a ++ c) (a ++ d)
Ins-before k [] s = s
Ins-before k (i ∷ a) s = later (Ins-before k a s)

Ins-NotIn : (k j : ℕ) {c d : List ℕ} → Ins k c d → j ≢ k → NotIn j d → NotIn j c
Ins-NotIn k j here h n = (h, n)
Ins-NotIn k j (later s) h n = (n.0, Ins-NotIn k j s h n.1)

Ins-IsDistinct : (k : ℕ) {c d : List ℕ} → Ins k c d → NotIn k d → IsDistinct d → IsDistinct c
Ins-IsDistinct k here n h = (n, h)
Ins-IsDistinct k (later s) n h =
    (Ins-NotIn k _ s (λ e. n.0 (sym e)) h.0, Ins-IsDistinct k s n.1 h.1)

Ins-AllBelow : (k : ℕ) {c d : List ℕ} → Ins k c d → 0 < k → AllBelow k d → AllBelow (k + 1) c
Ins-AllBelow k (here {c = c}) p h = (p, omega arith, grow c h)
  where
    grow : (c : List ℕ) → AllBelow k c → AllBelow (k + 1) c
    grow [] h = tt
    grow (i ∷ c) h = (h.0, omega (arith, h.1), grow c h.2)
Ins-AllBelow k (later s) p h = (h.0, omega (arith, h.1), Ins-AllBelow k s p h.2)

pub AllBelow-NotIn : (n : ℕ) (c : List ℕ) → AllBelow n c → NotIn n c
AllBelow-NotIn n [] h = tt
AllBelow-NotIn n (i ∷ c) h = ((λ e. omega (arith, e, h.1)), AllBelow-NotIn n c h.2)

-- What the operations do to the ids.
change_in-ids :
    (rs : List DesiredRs) (id : ℕ) (f : DesiredRs → DesiredRs)
    → ((r : DesiredRs) → (f r).id ≡ r.id)
    → rs_ids (change_in rs id f) ≡ rs_ids rs
change_in-ids [] id f h = refl
change_in-ids (r ∷ rs) id f h = elim (Bool-cases (r.id == id)) [
  | inl e ↦ rw (e, h r) refl
  | inr e ↦ rw (e, change_in-ids rs id f h) refl
]

change_rs-ids :
    (ss : List DesiredService) (id : ℕ) (f : DesiredRs → DesiredRs)
    → ((r : DesiredRs) → (f r).id ≡ r.id)
    → ids_of (change_rs ss id f) ≡ ids_of ss
unfolding change_rs
change_rs-ids [] id f h = refl
change_rs-ids (s ∷ ss) id f h = elim (Bool-cases (is_some (find_in s.rs id))) [
  | inl e ↦ rw (e, change_in-ids s.rs id f h) refl
  | inr e ↦ rw (e, change_rs-ids ss id f h) refl
]

erase_in-Sub : (rs : List DesiredRs) (id : ℕ) → Sub (rs_ids (erase_in rs id)) (rs_ids rs)
erase_in-Sub [] id = nil
erase_in-Sub (r ∷ rs) id = elim (Bool-cases (r.id == id)) [
  | inl e ↦ rw e (skip (Sub-refl (rs_ids rs)))
  | inr e ↦ rw e (keep (erase_in-Sub rs id))
]

erase_rs-Sub : (ss : List DesiredService) (id : ℕ) → Sub (ids_of (erase_rs ss id)) (ids_of ss)
unfolding erase_rs
erase_rs-Sub [] id = nil
erase_rs-Sub (s ∷ ss) id = elim (Bool-cases (is_some (find_in s.rs id))) [
  | inl e ↦ rw e (Sub-append _ _ (erase_in-Sub s.rs id) (Sub-refl (ids_of ss)))
  | inr e ↦ rw e (Sub-append _ _ (Sub-refl (rs_ids s.rs)) (erase_rs-Sub ss id))
]

last-Ins : (rs : List DesiredRs) (r : DesiredRs) → Ins r.id (rs_ids (rs ++ (r ∷ []))) (rs_ids rs)
last-Ins [] r = here
last-Ins (x ∷ rs) r = later (last-Ins rs r)

add-Ins :
    (ss : List DesiredService) (i : ℕ) (s : DesiredService) (r : DesiredRs)
    → get_elem? ss i ≡ some s
    → Ins r.id (ids_of (set ss i (record s { rs = s.rs ++ (r ∷ []) }))) (ids_of ss)
add-Ins [] i s r e = cc e
add-Ins (x ∷ ss) zero s r e = rw (same (sym e)) (Ins-append r.id _ _ (ids_of ss) (last-Ins s.rs r))
  where
    same : some s ≡ some x → x ≡ s
    same q = cc q
add-Ins (x ∷ ss) (suc i) s r e = Ins-before r.id (rs_ids x.rs) (add-Ins ss i s r e)

-- The ids of the real servers are distinct, positive and below the next id, and each worker has a counter
-- for every id below it.
pub record IsNumbered (m : Manager) : Type 0 where
  pub distinct : IsDistinct (ids_of m.services)
  pub below : AllBelow m.next_rs_id (ids_of m.services)
  pub positive : 0 < m.next_rs_id
  pub counted : m.next_rs_id ≤ max_rs_id

same_ids :
    (m : Manager) (ss : List DesiredService)
    → ids_of ss ≡ ids_of m.services
    → IsNumbered m
    → IsNumbered (record m { services = ss })
same_ids m ss e v = record {
  distinct = rw e v.distinct;
  below = rw e v.below;
  positive = v.positive;
  counted = v.counted;
}

changed-IsNumbered :
    (m : Manager) (id : ℕ) (f : DesiredRs → DesiredRs)
    → ((r : DesiredRs) → (f r).id ≡ r.id)
    → IsNumbered m
    → IsNumbered (record m { services = change_rs m.services id f })
changed-IsNumbered m id f h v =
    same_ids m (change_rs m.services id f) (change_rs-ids m.services id f h) v

pub set_weight-IsNumbered :
    (m : Manager) (id weight : ℕ) → IsNumbered m → IsNumbered (set_weight m id weight).1
unfolding set_weight
set_weight-IsNumbered m id weight v = elim (Option-cases (find_rs m.services id)) [
  | inl e ↦ rw (set_weight, e) v
  | inr (r, e) ↦ elim (Bool-cases (ltb 65535 weight)) [
    | inl h ↦ rw (set_weight, e, h) v
    | inr h ↦ rw (set_weight, e, h) (changed-IsNumbered m id (put_weight weight) (λ r. refl) v)
  ]
]

pub set_enabled-IsNumbered :
    (m : Manager) (id : ℕ) (b : Bool) → IsNumbered m → IsNumbered (set_enabled m id b).1
unfolding set_enabled
set_enabled-IsNumbered m id b v = elim (Option-cases (find_rs m.services id)) [
  | inl e ↦ rw (set_enabled, e) v
  | inr (r, e) ↦ rw (set_enabled, e) (changed-IsNumbered m id (put_enabled b) (λ r. refl) v)
]

pub set_health-IsNumbered :
    (m : Manager) (id : ℕ) (b : Bool) → IsNumbered m → IsNumbered (set_health m id b)
unfolding set_health
set_health-IsNumbered m id b v = elim (Option-cases (find_rs m.services id)) [
  | inl e ↦ rw (set_health, e) v
  | inr (r, e) ↦ rw (set_health, e) (changed-IsNumbered m id (put_healthy b) (λ r. refl) v)
]

pub del_rs-IsNumbered : (m : Manager) (id : ℕ) → IsNumbered m → IsNumbered (del_rs m id).1
unfolding del_rs
del_rs-IsNumbered m id v = elim (Option-cases (find_rs m.services id)) [
  | inl e ↦ rw (del_rs, e) v
  | inr (r, e) ↦
      rw (del_rs, e)
        (record {
          distinct = Sub-IsDistinct (erase_rs-Sub m.services id) v.distinct;
          below = Sub-AllBelow m.next_rs_id (erase_rs-Sub m.services id) v.below;
          positive = v.positive;
          counted = v.counted;
        })
]

next_id : (n : ℕ) → n < max_rs_id → (n + 1) % 2 ^ 32 ≡ n + 1
next_id n h = omega (arith, h)

add_to-IsNumbered :
    (m : Manager) (i : ℕ) (s : DesiredService) (conf : RsConf)
    → get_elem? m.services i ≡ some s
    → IsNumbered m
    → IsNumbered (add_to m i s conf).2
unfolding add_to
add_to-IsNumbered m i s conf e v = elim (Bool-cases (leb max_rs_per_service (length s.rs))) [
  | inl h ↦ rw (add_to, h) v
  | inr h ↦ elim (Option-cases (same_address s.rs conf)) [
    | inr (r, q) ↦ rw (add_to, h, q) v
    | inl q ↦ elim (Bool-cases (leb max_rs_id m.next_rs_id)) [
      | inl k ↦ rw (add_to, h, q, k) v
      | inr k ↦
          let inserted = add-Ins m.services i s (new_rs m.next_rs_id conf) e in
          rw (add_to, h, q, k, next_id m.next_rs_id (leb-false max_rs_id m.next_rs_id k))
            (record {
              distinct =
                  Ins-IsDistinct m.next_rs_id inserted
                    (AllBelow-NotIn m.next_rs_id (ids_of m.services) v.below) v.distinct;
              below = Ins-AllBelow m.next_rs_id inserted v.positive v.below;
              positive = omega arith;
              counted = omega (arith, leb-false max_rs_id m.next_rs_id k);
            })
    ]
  ]
]

pub add_rs-IsNumbered :
    (m : Manager) (i : ℕ) (conf : RsConf) → IsNumbered m → IsNumbered (add_rs m i conf).2
unfolding add_rs
add_rs-IsNumbered m i conf v = elim (Option-cases (get_elem? m.services i)) [
  | inl e ↦ rw (add_rs, e) v
  | inr (s, e) ↦ rw (add_rs, e) (add_to-IsNumbered m i s conf e v)
]
