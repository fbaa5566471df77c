-- ===== src/Session/Table/Lists.antt =====
-- The wheel and the free stack of a table, as lists that are apart from each other.
use l4_loadbalancer.Base.{
  ℕ, zero, suc, ◌+◌, ◌≤◌, ◌<◌, ◌≡◌, ◌≢◌, refl, sym, ◌∙◌, ◌==◌, List, [], ◌∷◌, ◌⊎◌, inl, inr, arith,
  ==_iff, Bool-cases, length,
}
use l4_loadbalancer.Rte.{RteHash}
use l4_loadbalancer.Session.Chain.{
  In, IsDistinct, NotIn-In, erase, In-erase, IsDistinct-erase, NotIn-erase_self,
}
use l4_loadbalancer.Session.Push.{NotIn-by}
use l4_loadbalancer.Session.Invariant.Agree.{OnList}
use l4_loadbalancer.Session.Invariant.{IsWheel, IsApart}
use l4_loadbalancer.Session.Table.{Table}
use l4_loadbalancer.Session.{Wheel, nil, update}
use l4_loadbalancer.Types.{FiveTuple}

-- No distinct list of numbers below `n` is longer than `n`.
length-erase : (k : ℕ) (c : List ℕ) → length c ≤ length (erase k c) + 1
length-erase k [] = omega arith
length-erase k (i ∷ c) = elim (Bool-cases (k == i)) [
  | inl e ↦ rw e (omega arith)
  | inr e ↦ rw e (omega (arith, length-erase k c))
]

pub length-le_distinct :
    (n : ℕ) (c : List ℕ) → IsDistinct c → ((j : ℕ) → In j c → j < n) → length c ≤ n
length-le_distinct zero [] d h = omega arith
length-le_distinct zero (i ∷ c) d h = absurd (omega (arith, h i (inl refl)))
length-le_distinct (suc n) c d h =
    omega (arith, length-erase n c, length-le_distinct n (erase n c) (IsDistinct-erase n c d) below)
  where
    below : (j : ℕ) → In j (erase n c) → j < n
    below j m =
        omega (arith, h j (In-erase j n c m), NotIn-In n j (erase n c) (NotIn-erase_self n c d) m)

module _ (ops : RteHash FiveTuple) where
  pub record IsTable (t : Table ops) (chains : ℕ → List ℕ) (waiting : List ℕ) : Type 0 where
    pub on_wheel : IsWheel t.wheel chains waiting
    pub free_distinct : IsDistinct t.free
    pub free_apart : (i : ℕ) → In i t.free → IsApart i chains waiting
    pub free_small : (i : ℕ) → In i t.free → i < t.capacity
    pub used_small : (j : ℕ) → OnList j chains waiting → j < t.capacity

  -- The arrays spell out some such lists. That each session in use is on one of them is not said.
  abbrev pub WellFormed : Table ops → Type 0
  WellFormed t = (chains : ℕ → List ℕ) × (waiting : List ℕ) × IsTable t chains waiting

  pub IsApart-by :
      (i : ℕ) (chains : ℕ → List ℕ) (waiting : List ℕ)
      → i ≢ nil
      → ((j : ℕ) → OnList j chains waiting → i ≢ j)
      → IsApart i chains waiting
  IsApart-by i chains waiting z h = (
    z,
    λ s. NotIn-by i (chains s) (λ j m. h j (inl (s, m))),
    NotIn-by i waiting (λ j m. h j (inr m)),
  )

  pub ne_of_apart :
      (i j : ℕ) (chains : ℕ → List ℕ) (waiting : List ℕ)
      → IsApart i chains waiting
      → OnList j chains waiting
      → i ≢ j
  ne_of_apart i j chains waiting a (inl (s, m)) = NotIn-In i j (chains s) (a.1 s) m
  ne_of_apart i j chains waiting a (inr m) = NotIn-In i j waiting a.2 m

  pub In-push :
      (chains : ℕ → List ℕ) (s t j k : ℕ)
      → In j (update chains t (k ∷ chains t) s)
      → (j ≡ k) ⊎ In j (chains s)
  In-push chains s t j k m = elim (Bool-cases (t == s)) [
    | inl e ↦ head_or ((==_iff t s).0 e) (rw e at m)
    | inr e ↦ inr (rw e at m)
  ]
    where
      head_or : t ≡ s → In j (k ∷ chains t) → (j ≡ k) ⊎ In j (chains s)
      head_or e (inl q) = inl q
      head_or e (inr n) = inr (rw (← e) n)

  pub In-shrink :
      (chains : ℕ → List ℕ) (s t j k : ℕ)
      → In j (update chains t (erase k (chains t)) s)
      → In j (chains s)
  In-shrink chains s t j k m = elim (Bool-cases (t == s)) [
    | inl e ↦ rw (← ((==_iff t s).0 e)) (In-erase j k (chains t) (rw e at m))
    | inr e ↦ rw e at m
  ]

  pub In-clear : (chains : ℕ → List ℕ) (s t j : ℕ) → In j (update chains t [] s) → In j (chains s)
  In-clear chains s t j m = elim (Bool-cases (t == s)) [
    | inl e ↦ absurd (rw e at m)
    | inr e ↦ rw e at m
  ]

  module _ (t : Table ops) (chains : ℕ → List ℕ) (waiting : List ℕ)
      (v : IsTable t chains waiting) where
    -- A new wheel for the same free stack: what is on a list now was on one before.
    pub same_free :
        (w : Wheel) (chains' : ℕ → List ℕ) (waiting' : List ℕ)
        → IsWheel w chains' waiting'
        → ((j : ℕ) → OnList j chains' waiting' → OnList j chains waiting)
        → IsTable (record t { wheel = w }) chains' waiting'
    same_free w chains' waiting' vw old = record {
      on_wheel = vw;
      free_distinct = v.free_distinct;
      free_apart = λ i m.
          IsApart-by i chains' waiting' (v.free_apart i m).0
            (λ j n. ne_of_apart i j chains waiting (v.free_apart i m) (old j n));
      free_small = v.free_small;
      used_small = λ j n. v.used_small j (old j n);
    }

    -- A session that has left every list goes to the free stack.
    pub freed :
        (w : Wheel) (h : ops.Handle) (chains' : ℕ → List ℕ) (waiting' : List ℕ) (k : ℕ)
        → OnList k chains waiting
        → IsWheel w chains' waiting'
        → ((j : ℕ) → OnList j chains' waiting' → OnList j chains waiting)
        → IsApart k chains' waiting'
        → IsTable (record t { hash = h; wheel = w; free = k ∷ t.free }) chains' waiting'
    freed w h chains' waiting' k used vw old apart = record {
      on_wheel = vw;
      free_distinct = (
        apart.0,
        NotIn-by k t.free (λ j m e. ne_of_apart j k chains waiting (v.free_apart j m) used (sym e)),
        v.free_distinct,
      );
      free_apart = apart_of;
      free_small = small_of;
      used_small = λ j n. v.used_small j (old j n);
    }
      where
        apart_of : (i : ℕ) → In i (k ∷ t.free) → IsApart i chains' waiting'
        apart_of i (inl e) = rw e apart
        apart_of i (inr m) =
            IsApart-by i chains' waiting' (v.free_apart i m).0
              (λ j n. ne_of_apart i j chains waiting (v.free_apart i m) (old j n))

        small_of : (i : ℕ) → In i (k ∷ t.free) → i < t.capacity
        small_of i (inl e) = rw e (v.used_small k used)
        small_of i (inr m) = v.free_small i m

    -- The top of the free stack goes onto a list.
    pub taken :
        (w : Wheel) (h : ops.Handle) (chains' : ℕ → List ℕ) (k : ℕ) (rest : List ℕ)
        → t.free ≡ k ∷ rest
        → IsWheel w chains' waiting
        → ((j : ℕ) → OnList j chains' waiting → (j ≡ k) ⊎ OnList j chains waiting)
        → IsTable (record t { hash = h; wheel = w; free = rest }) chains' waiting
    taken w h chains' k rest e vw old = record {
      on_wheel = vw;
      free_distinct = distinct.2;
      free_apart = λ i m.
          IsApart-by i chains' waiting (v.free_apart i (below i m)).0
            (λ j n. ne_of i m j (old j n));
      free_small = λ i m. v.free_small i (below i m);
      used_small = λ j n. small j (old j n);
    }
      where
        distinct : IsDistinct (k ∷ rest)
        distinct = rw e at v.free_distinct

        below : (i : ℕ) → In i rest → In i t.free
        below i m = rw e (inr m)

        ne_of : (i : ℕ) → In i rest → (j : ℕ) → (j ≡ k) ⊎ OnList j chains waiting → i ≢ j
        ne_of i m j (inl q) = λ p. NotIn-In k i rest distinct.1 m (sym (p ∙ q))
        ne_of i m j (inr n) = ne_of_apart i j chains waiting (v.free_apart i (below i m)) n

        small : (j : ℕ) → (j ≡ k) ⊎ OnList j chains waiting → j < t.capacity
        small j (inl q) = rw q (v.free_small k (rw e (inl refl)))
        small j (inr n) = v.used_small j n
