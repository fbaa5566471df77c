-- ===== src/Rte/Assoc.antt =====
-- An association list of bounded size meets the promises of rte_hash.
use l4_loadbalancer.Base.{
  ℕ, ◌≡◌, ◌≢◌, ◌↔◌, refl, Bool, true, false, Option, none, some, List, [], ◌∷◌, arith, ltb, length,
  if◌then◌else◌, Bool-cases, inl, inr, sym, ◌∙◌,
}
use l4_loadbalancer.Rte.{RteHash, RteHashLaws}

module _ {K : Type 0} (eq : K → K → Bool) where
  abbrev assoc_lookup : List (K × ℕ) → K → Option ℕ
  assoc_lookup [] k = none
  assoc_lookup ((j, v) ∷ h) k = if eq j k then some v else assoc_lookup h k

  abbrev assoc_del : List (K × ℕ) → K → List (K × ℕ)
  assoc_del [] k = []
  assoc_del ((j, v) ∷ h) k = if eq j k then assoc_del h k else (j, v) ∷ assoc_del h k

  -- Full at `size` entries.
  abbrev pub assoc : ℕ → RteHash K
  assoc size = record {
    Handle = List (K × ℕ);
    lookup = assoc_lookup;
    add = λ h k v. if ltb (length h) size then some ((k, v) ∷ assoc_del h k) else none;
    del = assoc_del;
  }

  module _ (eq_iff : (a b : K) → (eq a b ≡ true) ↔ (a ≡ b)) where
    eq_self : (a : K) → eq a a ≡ true
    eq_self a = (eq_iff a a).1 refl

    eq_ne : (a b : K) → a ≢ b → eq a b ≡ false
    eq_ne a b ne = elim (Bool-cases (eq a b)) [
      | inl same ↦ absurd (ne ((eq_iff a b).0 same))
      | inr other ↦ other
    ]

    lookup-del_same : (h : List (K × ℕ)) (k : K) → assoc_lookup (assoc_del h k) k ≡ none
    lookup-del_same [] k = refl
    lookup-del_same ((j, v) ∷ h) k = ground (arith, lookup-del_same h k)

    lookup-del_other :
        (h : List (K × ℕ)) (k i : K) → k ≢ i → assoc_lookup (assoc_del h k) i ≡ assoc_lookup h i
    lookup-del_other [] k i ne = refl
    lookup-del_other ((j, v) ∷ h) k i ne = elim (Bool-cases (eq j k)) [
      | inl same ↦
          rw (same, eq_ne j i (λ e. ne (sym ((eq_iff j k).0 same) ∙ e))) (lookup-del_other h k i ne)
      | inr other ↦ rw other (ground (arith, lookup-del_other h k i ne))
    ]

    lookup-add_same :
        (size : ℕ) (h h' : List (K × ℕ)) (k : K) (v : ℕ)
        → (assoc size).add h k v ≡ some h'
        → assoc_lookup h' k ≡ some v
    lookup-add_same size h h' k v e = ground (arith, eq_self k)

    lookup-add_other :
        (size : ℕ) (h h' : List (K × ℕ)) (k j : K) (v : ℕ)
        → (assoc size).add h k v ≡ some h'
        → k ≢ j
        → assoc_lookup h' j ≡ assoc_lookup h j
    lookup-add_other size h h' k j v e ne = ground (arith, eq_ne k j ne, lookup-del_other h k j ne)

    pub assoc-laws : (size : ℕ) → RteHashLaws (assoc size)
    assoc-laws size = record {
      lookup-add_self = lookup-add_same size;
      lookup-add_ne = lookup-add_other size;
      lookup-del_self = lookup-del_same;
      lookup-del_ne = lookup-del_other;
    }
