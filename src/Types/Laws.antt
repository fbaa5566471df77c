-- ===== src/Types/Laws.antt =====
-- Equality and reversal of five-tuples.
use l4_loadbalancer.Base.{◌≡◌, ◌≢◌, ◌↔◌, ◌⊎◌, inl, inr, refl, true, false, arith, Bool-cases}
use l4_loadbalancer.Types.{FiveTuple, tuple_eq, reverse_tuple}

pub tuple_eq_iff : (a b : FiveTuple) → (tuple_eq a b ≡ true) ↔ (a ≡ b)
unfolding tuple_eq
tuple_eq_iff a b = (λ e. ground arith, λ e. ground arith)

pub tuple_eq_refl : (a : FiveTuple) → tuple_eq a a ≡ true
tuple_eq_refl a = (tuple_eq_iff a a).1 refl

-- Two tuples are the same or are not, with what the test then computes to.
pub tuple-cases :
    (a b : FiveTuple) → ((a ≡ b) × (tuple_eq a b ≡ true)) ⊎ ((a ≢ b) × (tuple_eq a b ≡ false))
tuple-cases a b = elim (Bool-cases (tuple_eq a b)) [
  | inl e ↦ inl ((tuple_eq_iff a b).0 e, e)
  | inr e ↦ inr (λ p. cc ((tuple_eq_iff a b).1 p), e)
]

pub reverse-reverse_tuple : (t : FiveTuple) → reverse_tuple (reverse_tuple t) ≡ t
unfolding reverse_tuple
reverse-reverse_tuple t = refl
