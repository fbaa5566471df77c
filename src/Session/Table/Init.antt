-- ===== src/Session/Table/Init.antt =====
-- The table that `init` sets up.
use l4_loadbalancer.Base.{ℕ, zero, suc, ◌+◌, ◌≤◌, ◌<◌, refl, [], inl, inr, arith}
use l4_loadbalancer.Rte.{RteHash}
use l4_loadbalancer.Session.Chain.{In, IsDistinct}
use l4_loadbalancer.Session.Invariant.Agree.{OnList}
use l4_loadbalancer.Session.Push.{NotIn-by}
use l4_loadbalancer.Session.Table.Lists.{IsTable, WellFormed}
use l4_loadbalancer.Session.Table.{init, indices_from}
use l4_loadbalancer.Session.{nil}
use l4_loadbalancer.Types.{FiveTuple}

In-indices : (i n k : ℕ) → In i (indices_from n k) → (k ≤ i) × (i < k + n)
In-indices i zero k m = absurd m
In-indices i (suc n) k (inl e) = (omega arith, omega arith)
In-indices i (suc n) k (inr m) =
    (omega (arith, In-indices i n (k + 1) m), omega (arith, In-indices i n (k + 1) m))

IsDistinct-indices : (n k : ℕ) → k + n ≤ nil → IsDistinct (indices_from n k)
IsDistinct-indices zero k h = tt
IsDistinct-indices (suc n) k h = (
  (λ e. omega arith),
  NotIn-by k (indices_from n (k + 1)) (λ j m e. omega (arith, In-indices j n (k + 1) m)),
  IsDistinct-indices n (k + 1) (omega arith),
)

module _ (ops : RteHash FiveTuple) where
  pub init-IsTable :
      (created : ops.Handle) (capacity now : ℕ)
      → capacity ≤ nil
      → IsTable ops (init ops created capacity now) (λ s. []) []
  unfolding init
  init-IsTable created capacity now h = record {
    on_wheel = record {
      slot_head = λ s q. refl;
      slot_linked = λ s. tt;
      slot_distinct = λ s. tt;
      slot_home = λ s j m. absurd m;
      pending_head = refl;
      pending_linked = tt;
      pending_distinct = tt;
      pending_home = λ j m. absurd m;
    };
    free_distinct = IsDistinct-indices capacity 0 (omega arith);
    free_apart = λ i m. ((λ e. omega (arith, In-indices i capacity 0 m)), (λ s. tt), tt);
    free_small = λ i m. omega (arith, In-indices i capacity 0 m);
    used_small = λ j m. absurd (nowhere j m);
  }
    where
      nowhere : (j : ℕ) → OnList j (λ s. []) [] → ⊥
      nowhere j (inl (s, m)) = m
      nowhere j (inr m) = m

  -- A new table is well formed, for any capacity that 32-bit indices can name.
  pub init-WellFormed :
      (created : ops.Handle) (capacity now : ℕ)
      → capacity ≤ nil
      → WellFormed ops (init ops created capacity now)
  init-WellFormed created capacity now h = ((λ s. []), [], init-IsTable created capacity now h)
