-- ===== src/Base/Bits.antt =====
-- Masks on machine words: the tests that the source writes `flags & MASK`.
use Prim.Native.Nat.{min, digits, bit_and-bitwise}
use l4_loadbalancer.Base.{
  ℕ, zero, suc, ◌+◌, ◌%◌, ◌/◌, ◌≤◌, ◌≡◌, refl, sym, ◌∙◌, arith, Bool, not, ◌==◌, bit_and,
}

-- `flags & mask`, read as a condition.
abbrev pub has : ℕ → ℕ → Bool
has flags mask = not (bit_and flags mask == 0)

-- Every digit of the first mask is one of the other two's.
abbrev pub Covers : ℕ → ℕ → ℕ → ℕ → Type 0
Covers zero m a b = Unit
Covers (suc n) m a b = (m % 2 ≤ a % 2 + b % 2) × Covers n (m / 2) (a / 2) (b / 2)

digits-Covers :
    (n x m a b : ℕ)
    → Covers n m a b
    → digits (λ d. zero) min n x a ≡ 0
    → digits (λ d. zero) min n x b ≡ 0
    → digits (λ d. zero) min n x m ≡ 0
digits-Covers zero x m a b c h k = refl
digits-Covers (suc n) zero m a b c h k = refl
digits-Covers (suc n) (suc x) m a b (bit, c) h k =
    let rest =
      digits-Covers n (suc x / 2) (m / 2) (a / 2) (b / 2) c (omega (arith, h)) (omega (arith, k)) in
    omega (arith, rest, bit, h, k)

pub bit_and-Covers :
    (x m a b : ℕ) → ((n : ℕ) → Covers n m a b) → bit_and x a ≡ 0 → bit_and x b ≡ 0 → bit_and x m ≡ 0
bit_and-Covers x m a b c h k =
    let at_a : bit_and x a ≡ digits (λ d. zero) min x x a = bit_and-bitwise x a in
    let at_b : bit_and x b ≡ digits (λ d. zero) min x x b = bit_and-bitwise x b in
    let at_m : bit_and x m ≡ digits (λ d. zero) min x x m = bit_and-bitwise x m in
    at_m ∙ digits-Covers x x m a b (c x) (sym at_a ∙ h) (sym at_b ∙ k)

Covers-zero : (n : ℕ) → Covers n 0 0 0
Covers-zero zero = tt
Covers-zero (suc n) = (omega arith, Covers-zero n)

Covers-step :
    (m a b : ℕ)
    → m % 2 ≤ a % 2 + b % 2
    → ((n : ℕ) → Covers n (m / 2) (a / 2) (b / 2))
    → (n : ℕ) → Covers n m a b
Covers-step m a b bit c zero = tt
Covers-step m a b bit c (suc n) = (bit, c n)

-- The fragment mask 0x3FFF is the flag MF with the offset.
pub fragment_mask : (n : ℕ) → Covers n 0x3FFF 0x2000 0x1FFF
fragment_mask = Covers-step 16383 8192 8191 (omega arith) (
    Covers-step 8191 4096 4095 (omega arith) (
      Covers-step 4095 2048 2047 (omega arith) (
        Covers-step 2047 1024 1023 (omega arith) (
          Covers-step 1023 512 511 (omega arith) (
            Covers-step 511 256 255 (omega arith) (
              Covers-step 255 128 127 (omega arith) (
                Covers-step 127 64 63 (omega arith) (
                  Covers-step 63 32 31 (omega arith) (
                    Covers-step 31 16 15 (omega arith) (
                      Covers-step 15 8 7 (omega arith) (
                        Covers-step 7 4 3 (omega arith) (
                          Covers-step 3 2 1 (omega arith)
                            (Covers-step 1 1 0 (omega arith) Covers-zero)))))))))))))
