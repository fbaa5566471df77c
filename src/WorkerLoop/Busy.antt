-- ===== src/WorkerLoop/Busy.antt =====
-- `BusyMeter` of include/common/stats.h against the clock that it reads.
use l4_loadbalancer.Base.{
  ℕ, ◌+◌, ◌-◌, ◌%◌, ◌^◌, ◌≤◌, ◌<◌, ◌≡◌, Bool, true, false, ◌==◌, ltb, if◌then◌else◌, List, [], ◌∷◌,
  arith, Bool-cases, inl, inr,
}
use l4_loadbalancer.Processor.{stat_add}
use l4_loadbalancer.WorkerLoop.{BusyMeter, window, credit, busy_loop}

-- The rounds of a loop: whether there was work, and what `rte_rdtsc` returned.
unfoldable pub busy_rounds : BusyMeter → ℕ → List (Bool × ℕ) → BusyMeter × ℕ
unfolding busy_loop
busy_rounds b busy [] = (b, busy)
busy_rounds b busy (r ∷ rs) = let next = busy_loop b busy r.0 r.1 in busy_rounds next.0 next.1 rs

-- A 64-bit clock that never goes back, from a value on.
abbrev pub Rises : ℕ → List (Bool × ℕ) → Type 0
Rises now [] = now < 2 ^ 64
Rises now (r ∷ rs) = (now ≤ r.1) × Rises r.1 rs

-- The last value of the clock.
abbrev pub latest : ℕ → List (Bool × ℕ) → ℕ
latest now [] = now
latest now (r ∷ rs) = latest r.1 rs

Rises-latest : (now : ℕ) (rs : List (Bool × ℕ)) → Rises now rs → now ≤ latest now rs
Rises-latest now [] h = omega arith
Rises-latest now (r ∷ rs) (h, k) = omega (arith, h, Rises-latest r.1 rs k)

Rises-small : (now : ℕ) (rs : List (Bool × ℕ)) → Rises now rs → latest now rs < 2 ^ 64
Rises-small now [] h = h
Rises-small now (r ∷ rs) (h, k) = Rises-small r.1 rs k

spared_le : (t el : ℕ) → (if ltb t el then el - t else 0) ≤ el
spared_le t el = elim (Bool-cases (ltb t el)) [
  | inl e ↦ rw e (omega arith)
  | inr e ↦ rw e (omega arith)
]

credit_le : (b : BusyMeter) (el : ℕ) → credit b el ≤ el
unfolding credit
credit_le b el = spared_le _ el

-- The counter is not above the last reading, nor is that above the clock.
abbrev IsBelow : BusyMeter × ℕ → ℕ → Type 0
IsBelow r now = (r.1 ≤ r.0.last) × (r.0.last ≤ now)

IsBelow-if :
    (now : ℕ) (t : Bool) (x y : BusyMeter × ℕ)
    → IsBelow x now
    → IsBelow y now
    → IsBelow (if t then x else y) now
IsBelow-if now true x y h k = h
IsBelow-if now false x y h k = k

busy_loop-IsBelow :
    (b : BusyMeter) (busy : ℕ) (work : Bool) (now : ℕ)
    → IsBelow (b, busy) now
    → now < 2 ^ 64
    → IsBelow (busy_loop b busy work now) now
unfolding busy_loop
busy_loop-IsBelow meter busy work now (h, k) small =
    let b : BusyMeter = record meter {
      idle = (meter.idle + (if work then 0 else 1)) % 2 ^ 32;
      n = (meter.n + 1) % 2 ^ 32;
    } in
    let el : ℕ = (now + 2 ^ 64 - meter.last) % 2 ^ 64 in
    let elapsed : el ≡ now - meter.last = omega (arith, k, small) in
    let most : credit b el ≤ now - meter.last = omega (arith, elapsed, credit_le b el) in
    let added : stat_add busy (credit b el) ≤ now = omega (arith, most, h, k, small) in
    IsBelow-if now (ltb b.n window) _ _ (h, k)
      (IsBelow-if now (meter.last == 0) _ _ (omega (arith, h, k), omega arith)
        (IsBelow-if now (b.idle == b.n) _ _ (omega (arith, h, k), omega arith)
          (added, omega arith)))

-- Whatever the rounds, while the 64-bit clock does not go back: a counter of busy time that is not above
-- the last reading of the meter, such as those of a new worker, never gets above the clock, also where
-- the estimate of the idle polls exceeds the time that has passed.
pub busy_rounds-le :
    (b : BusyMeter) (busy now : ℕ) (rs : List (Bool × ℕ))
    → busy ≤ b.last
    → b.last ≤ now
    → Rises now rs
    → (busy_rounds b busy rs).1 ≤ latest now rs
unfolding busy_rounds
busy_rounds-le b busy now [] h k rises = omega (arith, h, k)
busy_rounds-le b busy now (r ∷ rs) h k (le, rises) =
    let small : r.1 < 2 ^ 64 = omega (arith, Rises-latest r.1 rs rises, Rises-small r.1 rs rises) in
    let next = busy_loop-IsBelow b busy r.0 r.1 (h, omega (arith, k, le)) small in
    let after = busy_loop b busy r.0 r.1 in
    busy_rounds-le after.0 after.1 r.1 rs next.0 next.1 rises
