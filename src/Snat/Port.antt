-- ===== src/Snat/Port.antt =====
-- The candidate ports of a worker: within the range, and its own by the port rule of `ret_owner`.
use l4_loadbalancer.Base.{
  ℕ, suc, ◌+◌, ◌-◌, ◌*◌, ◌/◌, ◌%◌, ◌^◌, ◌≤◌, ◌<◌, ◌≡◌, ◌∙◌, ap, inl, inr, ◌⊎◌, ltb, if◌then◌else◌,
  arith, Bool-cases, lt→ltb,
}
use l4_loadbalancer.Config.{nat_port_min, nat_port_max}
use l4_loadbalancer.Snat.{candidate, range}
use native.Mathlib.Nat.{
  mod-lt, mod-eq_of_lt, add-mul-mod_self_right, div-add-mod', mul-le-mul_right,
}

-- The part of a candidate that selects the worker.
shift-lt :
    (idx step : ℕ)
    → 0 < step
    → (if ltb 1 step then (idx + step - nat_port_min % step) % step else 0) < step
shift-lt idx step h = elim (Bool-cases (ltb 1 step)) [
  | inl e ↦ rw e (mod-lt (idx + step - nat_port_min % step) h)
  | inr e ↦ rw e h
]

plain-lt : (k step : ℕ) → k < range / step → k * step + step ≤ range
plain-lt k step h = omega (arith, mul-le-mul_right {m = suc k} step h, div-add-mod' range step)

-- No candidate wraps: it is within the range of the SNAT ports.
pub candidate-range :
    (idx step k : ℕ)
    → 0 < step
    → k < range / step
    → (nat_port_min ≤ candidate idx step k) × (candidate idx step k ≤ nat_port_max)
unfolding candidate
candidate-range idx step k h lt = (
  omega (arith, plain-lt k step lt, shift-lt idx step h),
  omega (arith, plain-lt k step lt, shift-lt idx step h),
)

-- Among several workers the rest of a candidate, divided by their number, is its worker.
pub candidate-mod :
    (idx step k : ℕ) → 1 < step → idx < step → k < range / step → candidate idx step k % step ≡ idx
unfolding candidate
candidate-mod idx step k h own lt = rw (lt→ltb 1 step h) (
    ap (λ x. x % step)
      (mod-eq_of_lt {n = _} {m = 2 ^ 16} (
        omega (
          arith,
          plain-lt k step lt,
          mod-lt (idx + step - nat_port_min % step) {m = step} (omega arith),
        )))
    ∙ (ap (λ x. x % step) (sum_lem (≤_or (nat_port_min % step) idx)).1
        ∙ (add-mul-mod_self_right idx (sum_lem (≤_or (nat_port_min % step) idx)).0 step
            ∙ mod-eq_of_lt own)))
  where
    ≤_or : (r i : ℕ) → (r ≤ i) ⊎ (i < r)
    ≤_or r i = omega arith

    up :
        nat_port_min % step ≤ idx
        → idx + step - nat_port_min % step ≡ idx - nat_port_min % step + 1 * step
    up le = omega arith

    sum_lem :
        (nat_port_min % step ≤ idx) ⊎ (idx < nat_port_min % step)
        → (n : ℕ) × (nat_port_min + k * step + (idx + step - nat_port_min % step) % step
            ≡ idx + n * step)
    sum_lem (inl le) = (
      nat_port_min / step + k,
      omega (
        arith,
        div-add-mod' nat_port_min step,
        ap (λ x. x % step) (up le)
            ∙ (add-mul-mod_self_right (idx - nat_port_min % step) 1 step
                ∙ mod-eq_of_lt {n = idx - nat_port_min % step} {m = step} (omega arith)),
      ),
    )
    sum_lem (inr below) = (
      nat_port_min / step + k + 1,
      omega (
        arith,
        div-add-mod' nat_port_min step,
        mod-lt nat_port_min {m = step} (omega arith),
        mod-eq_of_lt {n = idx + step - nat_port_min % step} {m = step}
            (omega (arith, mod-lt nat_port_min {m = step} (omega arith))),
      ),
    )
