-- ===== src/Session/Unlink.antt =====
-- Taking an entry out of a doubly linked chain.
use l4_loadbalancer.Base.{
  ℕ, ◌≡◌, ◌≢◌, refl, sym, ◌∙◌, ap, true, false, ◌==◌, if◌then◌else◌, List, [], ◌∷◌, ◌⊎◌, inl, inr,
  ==-false, ==_iff, Bool-cases,
}
use l4_loadbalancer.Session.Chain.{
  first, Linked, NotIn, In, IsDistinct, erase, NotIn-In, In-ne-nil, Linked-Agree, Agree-by, prev-In,
  next-In,
}
use l4_loadbalancer.Session.{nil}

-- The links after `k` is taken out: its successor and predecessor are joined.
abbrev pub UnlinkedPrev : (ℕ → ℕ) → (ℕ → ℕ) → (ℕ → ℕ) → ℕ → Type 0
UnlinkedPrev prev next prev' k =
    (j : ℕ) → j ≢ nil → j ≢ k → prev' j ≡ (if j == next k then prev k else prev j)

abbrev pub UnlinkedNext : (ℕ → ℕ) → (ℕ → ℕ) → (ℕ → ℕ) → ℕ → Type 0
UnlinkedNext prev next next' k =
    (j : ℕ) → j ≢ nil → j ≢ k → next' j ≡ (if j == prev k then next k else next j)

module _ (prev next prev' next' : ℕ → ℕ) (k : ℕ) (hp : UnlinkedPrev prev next prev' k)
    (hn : UnlinkedNext prev next next' k) where
  -- An entry beside neither end of `k` keeps its links.
  kept_prev : (j : ℕ) → j ≢ nil → j ≢ k → j ≢ next k → prev' j ≡ prev j
  kept_prev j z d n = rw (hp j z d, ==-false j (next k) n)

  kept_next : (j : ℕ) → j ≢ nil → j ≢ k → j ≢ prev k → next' j ≡ next j
  kept_next j z d n = rw (hn j z d, ==-false j (prev k) n)

  -- A chain that `k` and its neighbours are not on is left as it is.
  pub Linked-apart :
      (p : ℕ) (c : List ℕ)
      → IsDistinct c
      → NotIn k c
      → (next k ≡ nil) ⊎ NotIn (next k) c
      → (prev k ≡ nil) ⊎ NotIn (prev k) c
      → Linked prev next p c
      → Linked prev' next' p c
  Linked-apart p c d nk nn np = Linked-Agree prev next prev' next' p c (
      Agree-by prev next prev' next' c λ j m. (
        kept_prev j (In-ne-nil j c d m) (λ e. NotIn-In k j c nk m (sym e)) (ne_of j m (next k) nn),
        kept_next j (In-ne-nil j c d m) (λ e. NotIn-In k j c nk m (sym e)) (ne_of j m (prev k) np),
      ))
    where
      ne_of : (j : ℕ) → In j c → (x : ℕ) → (x ≡ nil) ⊎ NotIn x c → j ≢ x
      ne_of j m x (inl e) = λ q. In-ne-nil j c d m (q ∙ e)
      ne_of j m x (inr n) = λ q. NotIn-In x j c n m (sym q)

  -- `k` is the first entry: its successor becomes the first, behind the same predecessor.
  unlink_first :
      (p : ℕ) (c : List ℕ)
      → IsDistinct (k ∷ c)
      → NotIn p c
      → Linked prev next p (k ∷ c)
      → Linked prev' next' p c
  unlink_first p [] d np l = tt
  unlink_first p (m ∷ c) d np l = (
    hp m d.2.0 (λ e. d.1.0 (sym e)) ∙ rw (l.1, ==_self m) l.0,
    kept_next m d.2.0 (λ e. d.1.0 (sym e)) (λ e. np.0 (sym (e ∙ l.0))) ∙ l.2.1,
    Linked-apart m c d.2.2 d.1.1 (inr (rw l.1 d.2.1)) (inr (rw l.0 np.1)) l.2.2,
  )
    where
      ==_self : (x : ℕ) → (x == x) ≡ true
      ==_self x = (==_iff x x).1 refl

  -- The entry before the rest of the chain points to what is left of the rest.
  next_first :
      (p i : ℕ) (c : List ℕ)
      → IsDistinct (i ∷ c)
      → k ≢ i
      → In k c
      → Linked prev next p (i ∷ c)
      → next' i ≡ first (erase k c)
  next_first p i [] d ne m l = absurd m
  next_first p i (j ∷ c) d ne m l = elim (Bool-cases (k == j)) [
    | inl e ↦ rw e (
        hn i d.0 (λ q. ne (sym q))
        ∙ rw (==_true i (prev k) (sym (ap prev ((==_iff k j).0 e) ∙ l.2.0)))
            (ap next ((==_iff k j).0 e) ∙ l.2.1))
    | inr e ↦ rw e (
        kept_next i d.0 (λ q. ne (sym q)) (λ q. NotIn-In i (prev k) (j ∷ c) d.1 (before e m) q)
        ∙ l.1)
  ]
    where
      ==_true : (a b : ℕ) → a ≡ b → (a == b) ≡ true
      ==_true a b = (==_iff a b).1

      before : (k == j) ≡ false → In k (j ∷ c) → In (prev k) (j ∷ c)
      before e (inl q) = cc ((==_iff k j).1 q)
      before e (inr q) = prev-In prev next i k j c l.2 q

  -- Taking out any entry leaves a chain of the others.
  pub Linked-unlink :
      (p : ℕ) (c : List ℕ)
      → IsDistinct c
      → NotIn p c
      → In k c
      → Linked prev next p c
      → Linked prev' next' p (erase k c)
  Linked-unlink p [] d np m l = absurd m
  Linked-unlink p (i ∷ c) d np (inl q) l =
      rw ((==_iff k i).1 q) (unlink_first p c (rw q d) np.1 (rw q l))
  Linked-unlink p (i ∷ c) d np (inr m) l = rw (==-false k i ne) (
    kept_prev i d.0 (λ q. ne (sym q)) next_ne ∙ l.0,
    next_first p i c d ne m l,
    Linked-unlink i c d.2 d.1 m l.2,
  )
    where
      ne : k ≢ i
      ne q = NotIn-In i k c d.1 m (sym q)

      next_ne : i ≢ next k
      next_ne q = elim (next-In prev next i k c l.2 m) [
        | inl z ↦ d.0 (q ∙ z)
        | inr n ↦ NotIn-In i (next k) c d.1 n q
      ]
