-- ===== src/Session/Chain.antt =====
-- Doubly linked lists through arrays of predecessors and successors, as the wheel keeps them: the
-- chain that the links spell out, and what an insertion and a removal do to it.
use l4_loadbalancer.Base.{
  ℕ, ◌≡◌, ◌≢◌, refl, sym, ◌∙◌, ap, ◌==◌, if◌then◌else◌, List, [], ◌∷◌, ◌⊎◌, inl, inr, ==-false,
  ==_iff, Bool-cases,
}
use l4_loadbalancer.Session.{nil}

abbrev pub first : List ℕ → ℕ
first [] = nil
first (i ∷ c) = i

-- Going forward from `p`, the links visit the chain's entries and end at `nil`.
abbrev pub Linked : (ℕ → ℕ) → (ℕ → ℕ) → ℕ → List ℕ → Type 0
Linked prev next p [] = Unit {0}
Linked prev next p (i ∷ c) = (prev i ≡ p) × (next i ≡ first c) × Linked prev next i c

abbrev pub NotIn : ℕ → List ℕ → Type 0
NotIn k [] = Unit {0}
NotIn k (i ∷ c) = (k ≢ i) × NotIn k c

abbrev pub In : ℕ → List ℕ → Type 0
In k [] = ⊥
In k (i ∷ c) = (k ≡ i) ⊎ In k c

-- No entry twice, and none is the end mark.
abbrev pub IsDistinct : List ℕ → Type 0
IsDistinct [] = Unit {0}
IsDistinct (i ∷ c) = (i ≢ nil) × NotIn i c × IsDistinct c

abbrev pub erase : ℕ → List ℕ → List ℕ
erase k [] = []
erase k (i ∷ c) = if k == i then c else i ∷ erase k c

pub NotIn-In : (k j : ℕ) (c : List ℕ) → NotIn k c → In j c → k ≢ j
NotIn-In k j [] n m = absurd m
NotIn-In k j (i ∷ c) n (inl e) = λ d. n.0 (d ∙ e)
NotIn-In k j (i ∷ c) n (inr m) = NotIn-In k j c n.1 m

pub In-ne-nil : (k : ℕ) (c : List ℕ) → IsDistinct c → In k c → k ≢ nil
In-ne-nil k [] d m = absurd m
In-ne-nil k (i ∷ c) d (inl e) = λ z. d.0 (sym e ∙ z)
In-ne-nil k (i ∷ c) d (inr m) = In-ne-nil k c d.2 m

pub NotIn-erase : (k j : ℕ) (c : List ℕ) → NotIn k c → NotIn k (erase j c)
NotIn-erase k j [] n = tt
NotIn-erase k j (i ∷ c) n = elim (Bool-cases (j == i)) [
  | inl e ↦ rw e n.1
  | inr e ↦ rw e (n.0, NotIn-erase k j c n.1)
]

pub IsDistinct-erase : (j : ℕ) (c : List ℕ) → IsDistinct c → IsDistinct (erase j c)
IsDistinct-erase j [] d = tt
IsDistinct-erase j (i ∷ c) d = elim (Bool-cases (j == i)) [
  | inl e ↦ rw e d.2
  | inr e ↦ rw e (d.0, NotIn-erase i j c d.1, IsDistinct-erase j c d.2)
]

pub NotIn-erase_self : (j : ℕ) (c : List ℕ) → IsDistinct c → NotIn j (erase j c)
NotIn-erase_self j [] d = tt
NotIn-erase_self j (i ∷ c) d = elim (Bool-cases (j == i)) [
  | inl e ↦ rw (e, (==_iff j i).0 e) d.1
  | inr e ↦ rw e ((λ p. cc ((==_iff j i).1 p)), NotIn-erase_self j c d.2)
]

-- Links agree on every entry of the chain.
abbrev pub Agree : (ℕ → ℕ) → (ℕ → ℕ) → (ℕ → ℕ) → (ℕ → ℕ) → List ℕ → Type 0
Agree prev next prev' next' [] = Unit {0}
Agree prev next prev' next' (i ∷ c) =
    (prev' i ≡ prev i) × (next' i ≡ next i) × Agree prev next prev' next' c

module _ (prev next prev' next' : ℕ → ℕ) where
  pub Linked-Agree :
      (p : ℕ) (c : List ℕ)
      → Agree prev next prev' next' c
      → Linked prev next p c
      → Linked prev' next' p c
  Linked-Agree p [] a l = tt
  Linked-Agree p (i ∷ c) a l = (a.0 ∙ l.0, a.1 ∙ l.1, Linked-Agree i c a.2 l.2)

  pub Agree-by :
      (c : List ℕ)
      → ((j : ℕ) → In j c → (prev' j ≡ prev j) × (next' j ≡ next j))
      → Agree prev next prev' next' c
  Agree-by [] h = tt
  Agree-by (i ∷ c) h = ((h i (inl refl)).0, (h i (inl refl)).1, Agree-by c (λ j m. h j (inr m)))

-- The predecessor of an entry that is not the first is an entry.
pub prev-In :
    (prev next : ℕ → ℕ) (p k i : ℕ) (c : List ℕ)
    → Linked prev next p (i ∷ c)
    → In k c
    → In (prev k) (i ∷ c)
prev-In prev next p k i [] l m = absurd m
prev-In prev next p k i (j ∷ c) l (inl e) = inl (ap prev e ∙ l.2.0)
prev-In prev next p k i (j ∷ c) l (inr m) = inr (prev-In prev next i k j c l.2 m)

pub next-In :
    (prev next : ℕ → ℕ) (p k : ℕ) (c : List ℕ)
    → Linked prev next p c
    → In k c
    → (next k ≡ nil) ⊎ In (next k) c
next-In prev next p k [] l m = absurd m
next-In prev next p k (i ∷ []) l (inl e) = inl (ap next e ∙ l.1)
next-In prev next p k (i ∷ j ∷ c) l (inl e) = inr (inr (inl (ap next e ∙ l.1)))
next-In prev next p k (i ∷ c) l (inr m) = elim (next-In prev next i k c l.2 m) [
  | inl e ↦ inl e
  | inr n ↦ inr (inr n)
]

pub prev-cases :
    (prev next : ℕ → ℕ) (k : ℕ) (c : List ℕ)
    → Linked prev next nil c
    → In k c
    → (prev k ≡ nil) ⊎ In (prev k) c
prev-cases prev next k [] l m = absurd m
prev-cases prev next k (i ∷ c) l (inl e) = inl (ap prev e ∙ l.0)
prev-cases prev next k (i ∷ c) l (inr m) = inr (prev-In prev next nil k i c l m)

In-cons : (j i : ℕ) (c d : List ℕ) → (In j c → In j d) → In j (i ∷ c) → In j (i ∷ d)
In-cons j i c d h (inl q) = inl q
In-cons j i c d h (inr n) = inr (h n)

pub In-erase : (j k : ℕ) (c : List ℕ) → In j (erase k c) → In j c
In-erase j k [] m = m
In-erase j k (i ∷ c) m = elim (Bool-cases (k == i)) [
  | inl e ↦ inr (rw e at m)
  | inr e ↦ In-cons j i (erase k c) c (In-erase j k c) (rw e at m)
]

-- What comes first after an entry is taken out.
pub first-erase :
    (prev next : ℕ → ℕ) (k : ℕ) (c : List ℕ)
    → IsDistinct c
    → Linked prev next nil c
    → In k c
    → first (erase k c) ≡ (if prev k == nil then next k else first c)
first-erase prev next k [] d l m = absurd m
first-erase prev next k (i ∷ c) d l (inl e) = rw ((==_iff k i).1 e, e, l.0) (sym l.1)
first-erase prev next k (i ∷ c) d l (inr m) = rw (
  ==-false k i (λ e. NotIn-In i k c d.1 m (sym e)),
  ==-false (prev k) nil (In-ne-nil (prev k) (i ∷ c) d (prev-In prev next nil k i c l m)),
)
