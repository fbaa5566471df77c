-- ===== src/Scheduler/Gcd.antt =====
-- The greatest common divisor of the weights divides each of them.
use l4_loadbalancer.Base.{
  false, ℕ, zero, suc, ◌+◌, ◌*◌, ◌/◌, ◌%◌, ◌<◌, ◌≡◌, refl, List, [], ◌∷◌, arith, ◌==◌, map,
}
use l4_loadbalancer.Scheduler.{gcd_fuel, gcd, gcd_all, sum}
use Prim.Native.Nat.{◌∣◌}
use native.Mathlib.Nat.{
  mod-lt, dvd_refl, dvd-zero, dvd_trans, dvd-mod_iff, div-mul_cancel, pos_of_dvd_of_pos,
}

abbrev pub AllDivide : ℕ → List ℕ → Type 0
AllDivide d [] = Unit {0}
AllDivide d (x ∷ xs) = (d ∣ x) × AllDivide d xs

-- The fuel of Euclid's algorithm is enough, and its result divides both numbers.
gcd_fuel-dvd : (fuel a b : ℕ) → b < fuel → (gcd_fuel fuel a b ∣ a) × (gcd_fuel fuel a b ∣ b)
unfolding gcd_fuel
gcd_fuel-dvd zero a b h = absurd (omega arith)
gcd_fuel-dvd (suc fuel) a zero h = (dvd_refl a, dvd-zero a)
gcd_fuel-dvd (suc fuel) a (suc b) h =
    let (left, right) =
      gcd_fuel-dvd fuel (suc b) (a % suc b) (omega (arith, mod-lt a {m = suc b} (omega arith))) in
    rw (ne b) ((dvd-mod_iff (gcd_fuel fuel (suc b) (a % suc b)) {m = a} left).0 right, left)
  where
    ne : (b : ℕ) → (suc b == 0) ≡ false
    ne b = ground arith

pub gcd_all-dvd : (g : ℕ) (ws : List ℕ) → (gcd_all g ws ∣ g) × AllDivide (gcd_all g ws) ws
gcd_all-dvd g [] = (dvd_refl g, tt)
gcd_all-dvd g (x ∷ xs) =
    let (here, rest) = gcd_all-dvd (gcd g x) xs in
    let (left, right) = gcd_fuel-dvd (x + 1) g x (omega arith) in
    (dvd_trans _ here left, (dvd_trans _ here right, rest))

-- Dividing by a common divisor and multiplying by it again gives the weights back.
pub divided-times :
    (d : ℕ) (ws : List ℕ) → AllDivide d ws → map (λ w. w * d) (map (λ x. x / d) ws) ≡ ws
divided-times d [] v = refl
divided-times d (w ∷ ws) v = rw (div-mul_cancel d v.0, divided-times d ws v.1) refl

pub sum-times : (d : ℕ) (ws : List ℕ) → sum (map (λ w. w * d) ws) ≡ sum ws * d
sum-times d [] = omega arith
sum-times d (w ∷ ws) = omega (arith, sum-times d ws)

pub gcd_all-pos : (ws : List ℕ) (g d : ℕ) → 0 < sum ws → AllDivide d ws → 0 < d
gcd_all-pos [] g d h v = absurd (omega arith)
gcd_all-pos (zero ∷ ws) g d h v = gcd_all-pos ws g d (omega arith) v.1
gcd_all-pos (suc w ∷ ws) g d h v = pos_of_dvd_of_pos v.0 (omega arith)
