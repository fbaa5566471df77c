-- ===== src/Neigh/Static.antt =====
-- What the network says does not change a configured MAC address.
use l4_loadbalancer.Base.{
  ℕ, ◌/◌, ◌≡◌, ◌≢◌, refl, sym, ◌∙◌, ap, Bool, true, false, not, ◌&&◌, ◌||◌, ◌==◌, leb, ltb,
  if◌then◌else◌, [], ◌∷◌, inl, inr, Bool-cases, ==-false, ==_iff, Option, none, some,
}
use l4_loadbalancer.Neigh.{
  Meta, Metas, put, entry_of, Neighbours, store_in, store, confirm, learn, hint, want_request, pack,
  same_mac, neigh_lookup, neigh_capacity, since, request_gap_sec,
}
use l4_loadbalancer.Rte.{RteHash, RteHashLaws}
use l4_loadbalancer.Types.{MacAddr}

entry-put_ne :
    (ms : Metas) (k ip : ℕ) (v : Meta) → k ≢ ip → entry_of (put ms k v) ip ≡ entry_of ms ip
entry-put_ne [] k ip v ne = rw (==-false k ip ne) refl
entry-put_ne ((j, m) ∷ ms) k ip v ne = elim (Bool-cases (j == k)) [
  | inl e ↦ rw e (rw (==-false j ip (λ q. ne (sym ((==_iff j k).0 e) ∙ q))) refl)
  | inr e ↦
      rw e (elim (Bool-cases (j == ip)) [
        | inl f ↦ rw f refl
        | inr f ↦ rw f (entry-put_ne ms k ip v ne)
      ])
]

entry-put_self : (ms : Metas) (ip : ℕ) (v : Meta) → entry_of (put ms ip v) ip ≡ v
entry-put_self [] ip v = rw ((==_iff ip ip).1 refl) refl
entry-put_self ((j, m) ∷ ms) ip v = elim (Bool-cases (j == ip)) [
  | inl e ↦ rw e (rw e refl)
  | inr e ↦ rw e (rw e (entry-put_self ms ip v))
]

module _ (ops : RteHash ℕ) (laws : RteHashLaws ops) where
  -- What packets and new sessions make the table do.
  pub data Learnt (t : Neighbours ops) : Neighbours ops → Type 0 where
    nothing : Learnt t t
    then_learn :
        {t' : Neighbours ops} (ip : ℕ) (mac : MacAddr) (solicited : Bool) (now : ℕ)
        → Learnt t t'
        → Learnt t (learn ops t' ip mac solicited now)
    then_hint :
        {t' : Neighbours ops} (ip : ℕ) (mac : MacAddr) (now : ℕ)
        → Learnt t t'
        → Learnt t (hint ops t' ip mac now)
    then_request :
        {t' : Neighbours ops} (ip now : ℕ) → Learnt t t' → Learnt t (want_request ops t' ip now).1

  -- A valid static entry, and the address that the hash has for it.
  pub record IsPinned (ip : ℕ) (found : Option ℕ) (t : Neighbours ops) : Type 0 where
    pub pinned : (entry_of t.metas ip).is_static ≡ true
    pub in_use : (entry_of t.metas ip).valid ≡ true
    pub same : ops.lookup t.hash ip ≡ found

  module _ (ip : ℕ) (found : Option ℕ) where
    put-IsPinned_ne :
        (t : Neighbours ops) (k : ℕ) (v : Meta)
        → k ≢ ip
        → IsPinned ip found t
        → IsPinned ip found (record t { metas = put t.metas k v })
    put-IsPinned_ne t k v ne p = record {
      pinned = ap (λ (m : Meta). m.is_static) (entry-put_ne t.metas k ip v ne) ∙ p.pinned;
      in_use = ap (λ (m : Meta). m.valid) (entry-put_ne t.metas k ip v ne) ∙ p.in_use;
      same = p.same;
    }

    store_in-IsPinned :
        (t : Neighbours ops) (k v : ℕ) (r : Option ops.Handle)
        → k ≢ ip
        → ops.add t.hash k v ≡ r
        → IsPinned ip found t
        → IsPinned ip found (store_in ops t k r)
    store_in-IsPinned t k v none ne e p = p
    store_in-IsPinned t k v (some h) ne e p = record {
      pinned = ap (λ (m : Meta). m.is_static) (entry-put_ne t.metas k ip _ ne) ∙ p.pinned;
      in_use = ap (λ (m : Meta). m.valid) (entry-put_ne t.metas k ip _ ne) ∙ p.in_use;
      same = laws.lookup-add_ne t.hash h k ip v e ne ∙ p.same;
    }

    store-IsPinned :
        (t : Neighbours ops) (k : ℕ) (mac : MacAddr)
        → k ≢ ip
        → IsPinned ip found t
        → IsPinned ip found (store ops t k mac)
    unfolding store
    store-IsPinned t k mac ne p = store_in-IsPinned t k (pack mac) _ ne refl p

    either :
        {A : Type 0} (P : A → Type 0) (b : Bool) (x y : A)
        → (b ≡ true → P x)
        → (b ≡ false → P y)
        → P (if b then x else y)
    either P true x y p q = p refl
    either P false x y p q = q refl

    learn-IsPinned :
        (t : Neighbours ops) (k : ℕ) (mac : MacAddr) (solicited : Bool) (now : ℕ)
        → IsPinned ip found t
        → IsPinned ip found (learn ops t k mac solicited now)
    unfolding learn
    learn-IsPinned t k mac solicited now p =
        let m = entry_of t.metas k in
        let known = m.valid && same_mac ops (neigh_lookup ops t k) mac in
        let full = not solicited && (not m.valid && leb (neigh_capacity / 2) t.count) in
        let fresh = if known then t else store ops t k mac in
        either (IsPinned ip found) m.is_static t (if full then t else confirm ops fresh k now)
          (λ e. p)
          (λ e.
            either (IsPinned ip found) full t (confirm ops fresh k now) (λ f. p)
              (λ f. put-IsPinned_ne fresh k _ (other e) (
                either (IsPinned ip found) known t (store ops t k mac) (λ g. p)
                  (λ g. store-IsPinned t k mac (other e) p))))
      where
        other : (entry_of t.metas k).is_static ≡ false → k ≢ ip
        other e q = cc (e, q, p.pinned)

    hint-IsPinned :
        (t : Neighbours ops) (k : ℕ) (mac : MacAddr) (now : ℕ)
        → IsPinned ip found t
        → IsPinned ip found (hint ops t k mac now)
    unfolding hint
    hint-IsPinned t k mac now p =
        let full = leb (neigh_capacity / 2) t.count in
        let added = confirm ops (store ops t k mac) k now in
        either (IsPinned ip found) (entry_of t.metas k).valid t (if full then t else added) (λ e. p)
          (λ e.
            either (IsPinned ip found) full t added (λ f. p)
              (λ f.
                put-IsPinned_ne (store ops t k mac) k _ (other e)
                  (store-IsPinned t k mac (other e) p)))
      where
        other : (entry_of t.metas k).valid ≡ false → k ≢ ip
        other e q = cc (e, q, p.in_use)

    -- An entry may be written over by one that is as static and as valid.
    put-IsPinned :
        (t : Neighbours ops) (k requested : ℕ)
        → IsPinned ip found t
        → IsPinned ip found (record t {
          metas = put t.metas k (record (entry_of t.metas k) { requested = requested });
        })
    put-IsPinned t k requested p = elim (Bool-cases (k == ip)) [
      | inr e ↦ put-IsPinned_ne t k _ (λ q. cc (e, (==_iff k ip).1 q)) p
      | inl e ↦ rw ((==_iff k ip).0 e) (record {
        pinned = ap (λ (m : Meta). m.is_static) (entry-put_self t.metas ip _) ∙ p.pinned;
        in_use = ap (λ (m : Meta). m.valid) (entry-put_self t.metas ip _) ∙ p.in_use;
        same = p.same;
      })
    ]

    -- Whatever ARP packets, hints and requests come, in whatever order, a valid static entry stays
    -- one, and the hash keeps the address that it has for it.
    pub Learnt-IsPinned :
        (t t' : Neighbours ops) → Learnt t t' → IsPinned ip found t → IsPinned ip found t'
    unfolding want_request
    Learnt-IsPinned t _ nothing p = p
    Learnt-IsPinned t _ (then_learn k mac solicited now l) p =
        learn-IsPinned _ k mac solicited now (Learnt-IsPinned t _ l p)
    Learnt-IsPinned t _ (then_hint k mac now l) p =
        hint-IsPinned _ k mac now (Learnt-IsPinned t _ l p)
    Learnt-IsPinned t _ (then_request {t' = t'} k now l) p =
        let m = entry_of t'.metas k in
        either (λ (r : Bool × Neighbours ops). IsPinned ip found r.1)
          (m.is_static || ltb (since now m.requested) request_gap_sec)
          (false, record t' { metas = put t'.metas k m })
          (true, record t' { metas = put t'.metas k (record m { requested = now }) })
          (λ e. put-IsPinned t' k m.requested (Learnt-IsPinned t t' l p))
          (λ e. put-IsPinned t' k now (Learnt-IsPinned t t' l p))
