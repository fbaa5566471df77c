-- ===== src/Session/Push.antt =====
-- Putting an entry in front of a doubly linked chain.
use l4_loadbalancer.Base.{
  ℕ, ◌≡◌, ◌≢◌, refl, sym, ◌∙◌, ◌==◌, if◌then◌else◌, List, [], ◌∷◌, ◌⊎◌, inl, inr, ==-false, ==_iff,
}
use l4_loadbalancer.Session.Chain.{
  first, Linked, NotIn, In, IsDistinct, NotIn-In, In-ne-nil, Linked-Agree, Agree-by,
}
use l4_loadbalancer.Session.{nil}

-- The links of a session put in front of the entry `head`.
module _ (prev next prev' next' : ℕ → ℕ) (k head : ℕ) (hk : (prev' k ≡ nil) × (next' k ≡ head))
    (hp : (j : ℕ) → j ≢ nil → j ≢ k → prev' j ≡ (if j == head then k else prev j))
    (hn : (j : ℕ) → j ≢ k → next' j ≡ next j) where
  pub Linked-other :
      (p : ℕ) (c : List ℕ)
      → IsDistinct c
      → NotIn k c
      → (head ≡ nil) ⊎ NotIn head c
      → Linked prev next p c
      → Linked prev' next' p c
  Linked-other p c d n h l =
      Linked-Agree prev next prev' next' p c
        (Agree-by prev next prev' next' c λ j m. (
          hp j (In-ne-nil j c d m) (λ e. NotIn-In k j c n m (sym e))
              ∙ rw (==-false j head (ne_of j m h)),
          hn j (λ e. NotIn-In k j c n m (sym e)),
        ))
        l
    where
      ne_of : (j : ℕ) → In j c → (head ≡ nil) ⊎ NotIn head c → j ≢ head
      ne_of j m (inl e) = λ q. In-ne-nil j c d m (q ∙ e)
      ne_of j m (inr n) = λ q. NotIn-In head j c n m (sym q)

  pub Linked-push :
      (c : List ℕ)
      → IsDistinct c
      → NotIn k c
      → head ≡ first c
      → Linked prev next nil c
      → Linked prev' next' nil (k ∷ c)
  Linked-push [] d n e l = (hk.0, hk.1 ∙ e, tt)
  Linked-push (i ∷ c) d n e l = (
    hk.0,
    hk.1 ∙ e,
    (
      hp i d.0 (λ q. n.0 (sym q)) ∙ rw ((==_iff i head).1 (sym e)),
      hn i (λ q. n.0 (sym q)) ∙ l.1,
      Linked-other i c d.2 n.1 (inr (rw e d.1)) l.2,
    ),
  )

pub first-out : (k : ℕ) (c : List ℕ) → k ≢ nil → NotIn k c → k ≢ first c
first-out k [] z n = z
first-out k (i ∷ c) z n = n.0

pub head-apart :
    (i : ℕ) (c d : List ℕ) → i ≡ first c → ((j : ℕ) → In j c → NotIn j d) → (i ≡ nil) ⊎ NotIn i d
head-apart i [] d e h = inl e
head-apart i (j ∷ c) d e h = inr (rw e (h j (inl refl)))

pub NotIn-by : (k : ℕ) (c : List ℕ) → ((j : ℕ) → In j c → k ≢ j) → NotIn k c
NotIn-by k [] h = tt
NotIn-by k (i ∷ c) h = (h i (inl refl), NotIn-by k c (λ j m. h j (inr m)))
