-- ===== src/Checksum/Update/Step.antt =====
-- One incremental update, RFC 1624.
use l4_loadbalancer.Base.{
  ℕ, ◌+◌, ◌-◌, ◌*◌, ◌/◌, ◌%◌, ◌^◌, ◌≤◌, ◌<◌, ◌≡◌, List, [], ◌∷◌, ◌++◌, arith, length, ◌∙◌, ap,
  length-append,
}
use l4_loadbalancer.Checksum.{calculate, incremental_update, avoid_zero}
use l4_loadbalancer.Checksum.Closed.{
  ones, checksum_of, total, IsBytes, not16-fold, calculate-checksum_of,
}

-- The plain sum after a word `m` is replaced by `m'`.
abbrev pub replaced : ℕ → ℕ → ℕ → ℕ
replaced s m m' = s - m + m'

incremental_update-sum :
    (c m m' : ℕ)
    → c < 2 ^ 16
    → m < 2 ^ 16
    → m' < 2 ^ 16
    → incremental_update c m m' ≡ checksum_of ((65535 - c) + (65535 - m) + m')
unfolding incremental_update
incremental_update-sum c m m' hc hm hm' =
    not16-fold ((2 ^ 16 - 1 - c) + (2 ^ 16 - 1 - m) + m') (omega arith)

ones_congr : (s t k : ℕ) → s ≡ t + 65535 * k → 0 < t → ones s ≡ ones t
ones_congr s t k e h = ground arith

-- `checksum_of` of the sum that an update forms is that of the replaced sum.
sum_replaced :
    (s m m' : ℕ)
    → m < 2 ^ 16
    → m' < 2 ^ 16
    → m ≤ s
    → 0 < replaced s m m'
    → ones ((65535 - checksum_of s) + (65535 - m) + m') ≡ ones (replaced s m m')
sum_replaced s m m' hm hm' le pos = ground arith

-- An update of a correct checksum is the correct checksum of the new words, unless they are all 0.
pub incremental_update_lem :
    (s m m' : ℕ)
    → m < 2 ^ 16
    → m' < 2 ^ 16
    → m ≤ s
    → 0 < replaced s m m'
    → incremental_update (checksum_of s) m m' ≡ checksum_of (replaced s m m')
incremental_update_lem s m m' hm hm' le pos =
    incremental_update-sum (checksum_of s) m m' (omega arith) hm hm'
    ∙ ap (λ (o : ℕ). 65535 - o) (sum_replaced s m m' hm hm' le pos)

-- A UDP checksum field `c` that stands for the plain sum `s`.
abbrev pub StandsFor : ℕ → ℕ → Type 0
StandsFor c s = (c < 2 ^ 16) × (avoid_zero c ≡ avoid_zero (checksum_of s))

-- The same update keeps the field right up to the two forms of zero.
pub incremental_update-StandsFor :
    (c s m m' : ℕ)
    → StandsFor c s
    → 0 < s
    → m < 2 ^ 16
    → m' < 2 ^ 16
    → m ≤ s
    → 0 < replaced s m m'
    → StandsFor (incremental_update c m m') (replaced s m m')
unfolding avoid_zero
incremental_update-StandsFor c s m m' (hc, e) hs hm hm' le pos =
    rw (incremental_update-sum c m m' hc hm hm') (ground arith)

-- Replacing a 16-bit word at an even offset changes the plain sum by the difference.
pub total-append_even :
    (xs ys : List ℕ) (k : ℕ) → length xs ≡ 2 * k → total (xs ++ ys) ≡ total xs + total ys
total-append_even [] ys k e = omega arith
total-append_even (a ∷ []) ys k e = absurd (omega arith)
total-append_even (a ∷ b ∷ xs) ys k e = omega (arith, total-append_even xs ys (k - 1) (omega arith))

-- The two bytes of a 16-bit word in memory.
abbrev pub word_bytes : ℕ → List ℕ
word_bytes w = (w % 256) ∷ (w / 256) ∷ []

pub IsBytes-append : (xs ys : List ℕ) → IsBytes xs → IsBytes ys → IsBytes (xs ++ ys)
IsBytes-append [] ys hx hy = hy
IsBytes-append (x ∷ xs) ys hx hy = (hx.0, IsBytes-append xs ys hx.1 hy)

checksum_of_self : (s : ℕ) → checksum_of (s + checksum_of s) ≡ 0
checksum_of_self s = ground arith

module _ (xs ys : List ℕ) (k : ℕ) (even : length xs ≡ 2 * k)
    (short : length xs + length ys + 2 ≤ 65536) (bytes_xs : IsBytes xs)
    (bytes_ys : IsBytes ys) where
  -- A packet with the word `w` at the even offset.
  abbrev pub with_word : ℕ → List ℕ
  with_word w = xs ++ (word_bytes w ++ ys)

  total-with_word : (w : ℕ) → w < 2 ^ 16 → total (with_word w) ≡ total xs + w + total ys
  total-with_word w h = omega (arith, total-append_even xs (word_bytes w ++ ys) k even)

  calculate-with_word :
      (w : ℕ) → w < 2 ^ 16 → calculate (with_word w) ≡ checksum_of (total xs + w + total ys)
  calculate-with_word w h =
      calculate-checksum_of (with_word w)
        (IsBytes-append xs (word_bytes w ++ ys) bytes_xs (omega arith, (omega arith, bytes_ys)))
        (omega (arith, length-append xs (word_bytes w ++ ys)))
      ∙ ap checksum_of (total-with_word w h)

  -- Updating the checksum for the replaced word gives what a full computation over the changed
  -- bytes gives, where those bytes are not all zero.
  pub incremental_update-calculate :
      (m m' : ℕ)
      → m < 2 ^ 16
      → m' < 2 ^ 16
      → 0 < total (with_word m')
      → incremental_update (calculate (with_word m)) m m' ≡ calculate (with_word m')
  incremental_update-calculate m m' hm hm' pos =
      rw (calculate-with_word m hm, calculate-with_word m' hm')
        (incremental_update_lem (total xs + m + total ys) m m' hm hm' (omega arith)
            (omega (arith, total-with_word m' hm'))
          ∙ ap checksum_of (omega arith))

  -- A header whose checksum field, at an even offset, was computed over a zero field, passes the
  -- receiver's test: the checksum of the whole is 0.
  pub calculate_verifies : calculate (with_word (calculate (with_word 0))) ≡ 0
  calculate_verifies =
      calculate-with_word c (omega (arith, stored))
      ∙ (ap checksum_of (omega (arith, stored)) ∙ checksum_of_self (total xs + 0 + total ys))
    where
      c : ℕ
      c = calculate (with_word 0)

      stored : c ≡ checksum_of (total xs + 0 + total ys)
      stored = calculate-with_word 0 (omega arith)
