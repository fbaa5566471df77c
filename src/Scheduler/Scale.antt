-- ===== src/Scheduler/Scale.antt =====
-- The weights that the round-robin sequence is made of, and the sequence that `build` leaves.
use l4_loadbalancer.Base.{
  ℕ, zero, suc, ◌+◌, ◌*◌, ◌/◌, ◌^◌, ◌≤◌, ◌<◌, ◌≡◌, refl, sym, ◌∙◌, ap, inl, inr, false, List, [],
  ◌∷◌, arith, ltb, Bool-cases, map, length, length-map, replicate, ltb-false, ltb→lt,
}
use l4_loadbalancer.Scheduler.Fair.{wrr_loop-tally}
use l4_loadbalancer.Scheduler.Gcd.{gcd_all-dvd, divided-times, sum-times, gcd_all-pos}
use l4_loadbalancer.Scheduler.{gcd_all, sum, scale, shrink, build_wrr, tally, wrr_max_seq}
use native.Mathlib.Nat.{mul-div-le, le_of_mul-le-mul_left, mul-div_left, mul-le-mul_left}

-- Weights of which exactly the same are 0.
abbrev pub SameAlive : List ℕ → List ℕ → Type 0
SameAlive [] [] = Unit {0}
SameAlive [] (v ∷ vs) = ⊥
SameAlive (w ∷ ws) [] = ⊥
SameAlive (w ∷ ws) (v ∷ vs) = (((0 < w) → (0 < v)) × ((w ≡ 0) → (v ≡ 0))) × SameAlive ws vs

SameAlive-map :
    (f : ℕ → ℕ) → f 0 ≡ 0 → (ws : List ℕ) → ((w : ℕ) → 0 < w → 0 < f w) → SameAlive ws (map f ws)
SameAlive-map f z [] p = tt
SameAlive-map f z (w ∷ ws) p = ((p w, λ e. ap f e ∙ z), SameAlive-map f z ws p)

SameAlive-trans : (us ws vs : List ℕ) → SameAlive us ws → SameAlive ws vs → SameAlive us vs
SameAlive-trans [] [] [] a b = tt
SameAlive-trans [] [] (v ∷ vs) a b = b
SameAlive-trans [] (w ∷ ws) vs a b = absurd a
SameAlive-trans (u ∷ us) [] vs a b = absurd a
SameAlive-trans (u ∷ us) (w ∷ ws) [] a b = absurd b
SameAlive-trans (u ∷ us) (w ∷ ws) (v ∷ vs) a b =
    (((λ h. b.0.0 (a.0.0 h)), (λ e. b.0.1 (a.0.1 e))), SameAlive-trans us ws vs a.1 b.1)

-- Dividing by a positive common divisor keeps who has a weight.
SameAlive-times : (d : ℕ) (vs : List ℕ) → 0 < d → SameAlive (map (λ w. w * d) vs) vs
SameAlive-times d [] h = tt
SameAlive-times d (zero ∷ vs) h = (((λ p. omega arith), λ e. refl), SameAlive-times d vs h)
SameAlive-times d (suc v ∷ vs) h =
    (((λ p. omega arith), λ e. absurd (omega arith)), SameAlive-times d vs h)

shrink-pos : (total w : ℕ) → 0 < w → 0 < shrink total w
shrink-pos total w h = ground arith

-- A reduced weight is more than its share of the bound by 1 at most.
shrink-le : (total w : ℕ) → shrink total w ≤ w * wrr_max_seq / total + 1
shrink-le total w = ground arith

sum-shrink :
    (total : ℕ) (ws : List ℕ)
    → total * sum (map (shrink total) ws) ≤ sum ws * wrr_max_seq + total * length ws
sum-shrink total [] = omega arith
sum-shrink total (w ∷ ws) = omega (
  arith,
  mul-le-mul_left total (shrink-le total w),
  mul-div-le (w * wrr_max_seq) total,
  sum-shrink total ws,
)

not_ltb : (a b : ℕ) → b ≤ a → ltb a b ≡ false
not_ltb a b h = ground arith

within :
    (total s : ℕ)
    → total ≡ s
    → wrr_max_seq < total
    → (l n : ℕ) → l ≡ n
    → (shrunk : ℕ) → total * shrunk ≤ s * wrr_max_seq + total * l
    → shrunk ≤ wrr_max_seq + n
within total s es lt l n el shrunk h =
    le_of_mul-le-mul_left {k = total}
      (omega (arith, h, ap (λ x. total * x) el, ap (λ x. x * wrr_max_seq) es)) (omega arith)

module _ (ws : List ℕ) (h : 0 < sum ws) where
  abbrev g : ℕ
  g = gcd_all 0 ws

  abbrev divided : List ℕ
  divided = map (λ x. x / g) ws

  g-pos : 0 < g
  g-pos = gcd_all-pos ws 0 g h (gcd_all-dvd 0 ws).1

  back : map (λ w. w * g) divided ≡ ws
  back = divided-times g ws (gcd_all-dvd 0 ws).1

  total-divided : sum ws / g ≡ sum divided
  total-divided =
      ap (λ x. x / g) (ap sum (sym back) ∙ sum-times g divided) ∙ mul-div_left (sum divided) g-pos

  -- The total that `scale` returns is the sum of its weights.
  pub scale-sum : (scale ws).1 ≡ sum (scale ws).0
  unfolding scale
  scale-sum = elim (Bool-cases (ltb wrr_max_seq (sum ws / g))) [
    | inl e ↦ rw e refl
    | inr e ↦ rw e total-divided
  ]

  divided-SameAlive : SameAlive ws divided
  divided-SameAlive = rw back at (SameAlive-times g divided g-pos)

  -- The scaled weights are positive exactly for the backends whose weight is.
  pub scale-SameAlive : SameAlive ws (scale ws).0
  unfolding scale
  scale-SameAlive = elim (Bool-cases (ltb wrr_max_seq (sum ws / g))) [
    | inl e ↦ rw e (
        SameAlive-trans ws divided _ divided-SameAlive
          (SameAlive-map (shrink (sum ws / g)) refl divided (shrink-pos (sum ws / g))))
    | inr e ↦ rw e divided-SameAlive
  ]

  -- The sequence is no longer than its bound and one more for each backend.
  pub scale-bound : (scale ws).1 ≤ wrr_max_seq + length ws
  unfolding scale
  scale-bound = elim (Bool-cases (ltb wrr_max_seq (sum ws / g))) [
    | inl e ↦ rw e (
        within (sum ws / g) (sum divided) total-divided (ltb→lt wrr_max_seq (sum ws / g) e)
          (length divided) (length ws) (length-map ws (λ x. x / g)) _
          (sum-shrink (sum ws / g) divided))
    | inr e ↦ rw e (omega (arith, ltb-false wrr_max_seq (sum ws / g) e))
  ]

  pub length-scale : length (scale ws).0 ≡ length ws
  unfolding scale
  length-scale = elim (Bool-cases (ltb wrr_max_seq (sum ws / g))) [
    | inl e ↦ rw e (length-map divided (shrink (sum ws / g)) ∙ length-map ws (λ x. x / g))
    | inr e ↦ rw e (length-map ws (λ x. x / g))
  ]

  -- Where the total divided by the gcd of the weights is within the bound, each scaled weight times
  -- the gcd is the weight.
  scale-exact : sum ws / gcd_all 0 ws ≤ wrr_max_seq → map (λ w. w * gcd_all 0 ws) (scale ws).0 ≡ ws
  unfolding scale
  scale-exact le = rw (not_ltb wrr_max_seq (sum ws / g) le) back

  pub scale-pos : 0 < sum (scale ws).0
  scale-pos = alive-sum ws (scale ws).0 h scale-SameAlive
    where
      alive-sum : (us vs : List ℕ) → 0 < sum us → SameAlive us vs → 0 < sum vs
      alive-sum [] vs p a = absurd (omega arith)
      alive-sum (u ∷ us) [] p a = absurd a
      alive-sum (zero ∷ us) (v ∷ vs) p a = omega (arith, alive-sum us vs (omega arith) a.1)
      alive-sum (suc u ∷ us) (v ∷ vs) p a = omega (arith, a.0.0 (omega arith))

  -- In the sequence of `build_wrr` every backend stands exactly as often as its scaled weight says.
  pub build_wrr-tally :
      length ws ≤ 2 ^ 16 → tally (build_wrr ws) (replicate (length ws) 0) ≡ (scale ws).0
  unfolding build_wrr
  build_wrr-tally small =
      rw (scale-sum, ← length-scale)
        (wrr_loop-tally (scale ws).0 scale-pos (omega (arith, length-scale)))

  -- If no reduction is needed, that is its weight divided by the gcd of all weights.
  pub build_wrr-exact :
      length ws ≤ 2 ^ 16
      → sum ws / gcd_all 0 ws ≤ wrr_max_seq
      → map (λ n. n * gcd_all 0 ws) (tally (build_wrr ws) (replicate (length ws) 0)) ≡ ws
  build_wrr-exact small le = rw (build_wrr-tally small) (scale-exact le)
