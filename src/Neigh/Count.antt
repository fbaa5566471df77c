-- ===== src/Neigh/Count.antt =====
-- The counter of the neighbour table counts its valid entries.
use l4_loadbalancer.Base.{
  ℕ, ◌+◌, ◌%◌, ◌^◌, ◌≡◌, refl, ap, Bool, true, false, not, ◌&&◌, ◌||◌, ◌==◌, leb, ltb, ◌/◌,
  if◌then◌else◌, List, [], ◌∷◌, ◌++◌, inl, inr, arith, Bool-cases, Option, none, some,
}
use l4_loadbalancer.Neigh.{
  Meta, Metas, find, put, drop_key, or_new, entry_of, is_stale, without, mark_requested, Neighbours,
  initial, store_in, store, forget, erase, add_static, confirm, learn, hint, want_request,
  erase_all, age, pack, keys_with, is_dead, is_due, same_mac, neigh_lookup, neigh_capacity, since,
  request_gap_sec,
}
use l4_loadbalancer.Rte.{RteHash}
use l4_loadbalancer.Types.{MacAddr}

abbrev one_if : Bool → ℕ
one_if true = 1
one_if false = 0

abbrev pub valid_count : Metas → ℕ
valid_count [] = 0
valid_count ((k, m) ∷ ms) = one_if m.valid + valid_count ms

count-put :
    (ms : Metas) (ip : ℕ) (v : Meta)
    → valid_count (put ms ip v) + one_if (entry_of ms ip).valid ≡ valid_count ms + one_if v.valid
count-put [] ip v = omega arith
count-put ((k, m) ∷ ms) ip v = elim (Bool-cases (k == ip)) [
  | inl e ↦ rw e (omega arith)
  | inr e ↦ rw e (omega (arith, count-put ms ip v))
]

count-drop :
    (ms : Metas) (ip : ℕ)
    → valid_count (drop_key ms ip) + one_if (entry_of ms ip).valid ≡ valid_count ms
count-drop [] ip = omega arith
count-drop ((k, m) ∷ ms) ip = elim (Bool-cases (k == ip)) [
  | inl e ↦ rw e (omega arith)
  | inr e ↦ rw e (omega (arith, count-drop ms ip))
]

count-without : (now : ℕ) (ms : Metas) → valid_count (without (is_stale now) ms) ≡ valid_count ms
count-without now [] = refl
count-without now ((k, m) ∷ ms) = elim (Bool-cases m.valid) [
  | inl e ↦ rw e (omega (arith, count-without now ms))
  | inr e ↦ elim (Bool-cases (is_stale now m)) [
    | inl s ↦ rw (s, e) (omega (arith, count-without now ms))
    | inr s ↦ rw (s, e) (omega (arith, count-without now ms))
  ]
]

count-mark :
    (now : ℕ) (ips : List ℕ) (ms : Metas) → valid_count (mark_requested now ips ms) ≡ valid_count ms
count-mark now [] ms = refl
count-mark now (ip ∷ ips) ms = omega (
  arith,
  count-mark now ips (put ms ip (record (entry_of ms ip) { requested = now })),
  count-put ms ip (record (entry_of ms ip) { requested = now }),
)

module _ (ops : RteHash ℕ) where
  -- One operation of the table.
  pub data Step : Neighbours ops → Neighbours ops → Type 0 where
    static_step : (t : _) (ip : ℕ) (mac : MacAddr) → Step t (add_static ops t ip mac)
    learn_step :
        (t : _) (ip : ℕ) (mac : MacAddr) (solicited : Bool) (now : ℕ)
        → Step t (learn ops t ip mac solicited now)
    hint_step : (t : _) (ip : ℕ) (mac : MacAddr) (now : ℕ) → Step t (hint ops t ip mac now)
    request_step : (t : _) (ip now : ℕ) → Step t (want_request ops t ip now).1
    age_step : (t : _) (now : ℕ) (refresh : List ℕ) → Step t (age ops t now refresh).1

  pub data Reachable (t : Neighbours ops) : Neighbours ops → Type 0 where
    here : Reachable t t
    then_step : {t' t'' : _} → Reachable t t' → Step t' t'' → Reachable t t''

  abbrev pub Counted : Neighbours ops → Type 0
  Counted t = t.count ≡ valid_count t.metas % 2 ^ 32

  -- Writing an entry that is as valid as the one before.
  put-Counted :
      (t : Neighbours ops) (ip : ℕ) (v : Meta)
      → v.valid ≡ (entry_of t.metas ip).valid
      → Counted t
      → Counted (record t { metas = put t.metas ip v })
  put-Counted t ip v same c = omega (arith, c, count-put t.metas ip v, ap one_if same)

  store_in-Counted :
      (t : Neighbours ops) (ip : ℕ) (r : Option ops.Handle)
      → Counted t
      → Counted (store_in ops t ip r)
  store_in-Counted t ip none c = c
  store_in-Counted t ip (some h) c =
      let m = entry_of t.metas ip in
      elim (Bool-cases m.valid) [
        | inl e ↦
            rw e (omega (arith, c, ap one_if e, count-put t.metas ip (record m { valid = true })))
        | inr e ↦
            rw e (omega (arith, c, ap one_if e, count-put t.metas ip (record m { valid = true })))
      ]

  store-Counted :
      (t : Neighbours ops) (ip : ℕ) (mac : MacAddr) → Counted t → Counted (store ops t ip mac)
  unfolding store
  store-Counted t ip mac c = store_in-Counted t ip (ops.add t.hash ip (pack mac)) c

  forget-Counted :
      (t : Neighbours ops) (ip : ℕ) (m : Option Meta)
      → find t.metas ip ≡ m
      → Counted t
      → Counted (forget ops t ip m)
  forget-Counted t ip none q c = c
  forget-Counted t ip (some m) q c = elim (Bool-cases m.valid) [
    | inl e ↦
        rw e (
          omega (arith, c, ap one_if e, ap (λ o. one_if (or_new o).valid) q, count-drop t.metas ip))
    | inr e ↦
        rw e (
          omega (arith, c, ap one_if e, ap (λ o. one_if (or_new o).valid) q, count-drop t.metas ip))
  ]

  erase-Counted : (t : Neighbours ops) (ip : ℕ) → Counted t → Counted (erase ops t ip)
  unfolding erase
  erase-Counted t ip c = forget-Counted t ip (find t.metas ip) refl c

  erase_all-Counted :
      (ips : List ℕ) (t : Neighbours ops) → Counted t → Counted (erase_all ops ips t)
  erase_all-Counted [] t c = c
  erase_all-Counted (ip ∷ ips) t c = erase_all-Counted ips (erase ops t ip) (erase-Counted t ip c)

  confirm-Counted : (t : Neighbours ops) (ip now : ℕ) → Counted t → Counted (confirm ops t ip now)
  confirm-Counted t ip now c = put-Counted t ip _ refl c

  either : {A : Type 0} (P : A → Type 0) (b : Bool) (x y : A) → P x → P y → P (if b then x else y)
  either P true x y p q = p
  either P false x y p q = q

  Step-Counted : (t t' : Neighbours ops) → Step t t' → Counted t → Counted t'
  unfolding add_static learn hint want_request age
  Step-Counted _ _ (static_step t ip mac) c =
      put-Counted (store ops t ip mac) ip _ refl (store-Counted t ip mac c)
  Step-Counted _ _ (learn_step t ip mac solicited now) c =
      let m = entry_of t.metas ip in
      let known = m.valid && same_mac ops (neigh_lookup ops t ip) mac in
      let full = not solicited && (not m.valid && leb (neigh_capacity / 2) t.count) in
      let fresh = if known then t else store ops t ip mac in
      either Counted m.is_static t (if full then t else confirm ops fresh ip now) c (
        either Counted full t (confirm ops fresh ip now) c (
          confirm-Counted fresh ip now
            (either Counted known t (store ops t ip mac) c (store-Counted t ip mac c))))
  Step-Counted _ _ (hint_step t ip mac now) c =
      let full = leb (neigh_capacity / 2) t.count in
      let added = confirm ops (store ops t ip mac) ip now in
      either Counted (entry_of t.metas ip).valid t (if full then t else added) c (
        either Counted full t added c
          (confirm-Counted (store ops t ip mac) ip now (store-Counted t ip mac c)))
  Step-Counted _ _ (request_step t ip now) c =
      let m = entry_of t.metas ip in
      either (λ (r : Bool × Neighbours ops). Counted r.1)
        (m.is_static || ltb (since now m.requested) request_gap_sec)
        (false, record t { metas = put t.metas ip m })
        (true, record t { metas = put t.metas ip (record m { requested = now }) })
        (put-Counted t ip _ refl c) (put-Counted t ip _ refl c)
  Step-Counted _ _ (age_step t now refresh) c =
      let t1 = erase_all ops (keys_with (is_dead now) t.metas) t in
      let due = refresh ++ keys_with (is_due now) t.metas in
      omega (
        arith,
        erase_all-Counted (keys_with (is_dead now) t.metas) t c,
        count-without now (mark_requested now due t1.metas),
        count-mark now due t1.metas,
      )

  -- Whatever operations have run on a new table, in whatever order, its counter is the number of
  -- its valid entries, in 32 bits.
  pub Reachable-Counted :
      (created : ops.Handle) (t : Neighbours ops) → Reachable (initial ops created) t → Counted t
  Reachable-Counted created t here = refl
  Reachable-Counted created t (then_step r s) = Step-Counted _ t s (Reachable-Counted created _ r)
