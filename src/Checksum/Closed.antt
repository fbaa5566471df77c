-- ===== src/Checksum/Closed.antt =====
-- The checksum as a function of the plain sum of the 16-bit words.
use l4_loadbalancer.Base.{
  ℕ, suc, ◌+◌, ◌-◌, ◌*◌, ◌/◌, ◌%◌, ◌^◌, ◌≤◌, ◌<◌, ◌≡◌, List, [], ◌∷◌, arith, ◌==◌, if◌then◌else◌,
  length, ◌∙◌, sym, ap, ◌≢◌, inl, inr, ==-false, ℕ-cases,
}
use l4_loadbalancer.Checksum.{fold_carries, carry_fuel, not16, sum_words, calculate}

-- The one's complement sum of words with the plain sum `s`: congruent to `s` modulo 0xFFFF, and 0
-- only for 0.
abbrev pub ones : ℕ → ℕ
ones s = if s == 0 then 0 else (s - 1) % 65535 + 1

ones_step : (s : ℕ) → ones (s % 2 ^ 16 + s / 2 ^ 16) ≡ ones s
ones_step s = ground arith

ones_small : (s : ℕ) → s / 2 ^ 16 ≡ 0 → ones s ≡ s
ones_small s h = ground arith

fold_step :
    (fuel bound s : ℕ)
    → ((t : ℕ) → t < bound → fold_carries fuel t ≡ ones t)
    → (s / 2 ^ 16 ≢ 0 → s % 2 ^ 16 + s / 2 ^ 16 < bound)
    → fold_carries (suc fuel) s ≡ ones s
unfolding fold_carries
fold_step fuel bound s ih h = elim (ℕ-cases (s / 2 ^ 16)) [
  | inl z ↦ rw z (sym (ones_small s z))
  | inr nz ↦ rw (==-false (s / 2 ^ 16) 0 nz) (ih (s % 2 ^ 16 + s / 2 ^ 16) (h nz) ∙ ones_step s)
]

fold_one : (s : ℕ) → s < 2 ^ 16 → fold_carries 1 s ≡ ones s
fold_one s h = fold_step 0 0 s (λ t p. absurd (omega arith)) (λ nz. absurd (nz (omega arith)))

fold_two : (s : ℕ) → s < 2 ^ 17 - 1 → fold_carries 2 s ≡ ones s
fold_two s h = fold_step 1 (2 ^ 16) s fold_one (λ nz. omega arith)

-- The loop ends within its fuel from every 32-bit sum, in the closed form.
pub fold_carries_lem : (s : ℕ) → s < 2 ^ 32 → fold_carries carry_fuel s ≡ ones s
fold_carries_lem s h = fold_step 2 (2 ^ 17 - 1) s fold_two (λ nz. omega arith)

-- The plain sum of the 16-bit words of a run of bytes, with no machine arithmetic.
abbrev pub total : List ℕ → ℕ
total [] = 0
total (a ∷ []) = a
total (a ∷ b ∷ rest) = a + 256 * b + total rest

abbrev pub IsBytes : List ℕ → Type 0
IsBytes [] = Unit {0}
IsBytes (a ∷ bs) = (a < 256) × IsBytes bs

pub total-le : (bs : List ℕ) → IsBytes bs → 2 * total bs ≤ 65535 * (length bs + 1)
total-le [] v = omega arith
total-le (a ∷ []) v = omega arith
total-le (a ∷ b ∷ rest) v = omega (arith, total-le rest v.1.1)

-- The 32-bit sum of the loop does not wrap while the plain sum fits.
pub sum_words-total :
    (bs : List ℕ) (sum : ℕ) → sum + total bs < 2 ^ 32 → sum_words bs sum ≡ sum + total bs
unfolding sum_words
sum_words-total [] sum h = omega arith
sum_words-total (a ∷ []) sum h = omega arith
sum_words-total (a ∷ b ∷ rest) sum h =
    omega (arith, sum_words-total rest ((sum + (a + 256 * b)) % 2 ^ 32) (omega arith))

-- The complement of the one's complement sum.
abbrev pub checksum_of : ℕ → ℕ
checksum_of s = 65535 - ones s

ones-lt : (s : ℕ) → ones s < 2 ^ 16
ones-lt s = ground arith

pub not16-fold : (s : ℕ) → s < 2 ^ 32 → not16 (fold_carries carry_fuel s) ≡ checksum_of s
not16-fold s h = omega (arith, fold_carries_lem s h, ones-lt s)

-- The full computation over at most 65536 bytes is the complement of the one's complement sum of
-- its words: the 32-bit accumulator does not overflow, and the carry loop ends.
pub calculate-checksum_of :
    (bs : List ℕ) → IsBytes bs → length bs ≤ 65536 → calculate bs ≡ checksum_of (total bs)
unfolding calculate
calculate-checksum_of bs v h =
    rw (sum_words-total bs 0 (omega (arith, total-le bs v)))
      (not16-fold (0 + total bs) (omega (arith, total-le bs v)) ∙ ap checksum_of (omega arith))
