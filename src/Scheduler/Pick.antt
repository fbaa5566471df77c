-- ===== src/Scheduler/Pick.antt =====
-- What `build` and `pick` promise under weighted round-robin.
use l4_loadbalancer.Base.{
  ℕ, zero, suc, ◌+◌, ◌*◌, ◌/◌, ◌%◌, ◌^◌, ◌≤◌, ◌<◌, ◌≡◌, refl, ap, true, List, [], ◌∷◌, arith,
  length, get_or, map, some, ==-false, length-map,
}
use l4_loadbalancer.Config.{wrr}
use l4_loadbalancer.Scheduler.Alive.{AllAlive, wrr_loop-AllAlive}
use l4_loadbalancer.Scheduler.Scale.{
  SameAlive, scale-SameAlive, scale-bound, scale-pos, scale-sum, length-scale, build_wrr-tally,
  build_wrr-exact,
}
use l4_loadbalancer.Scheduler.{
  SchedBackend, Scheduler, build, build_wrr, pick, distribution, weights, sum, scale, wrr_loop,
  wrr_max_seq, gcd_all, any_positive,
}
use l4_loadbalancer.Types.{FiveTuple}
use native.Mathlib.Nat.{mod-lt}

positive-sum : (ws : List ℕ) → 0 < sum ws → any_positive ws ≡ true
positive-sum [] h = absurd (omega arith)
positive-sum (zero ∷ ws) h = positive-sum ws (omega arith)
positive-sum (suc w ∷ ws) h = ground arith

length-loop : (n total : ℕ) (es : _) → length (wrr_loop n total es) ≡ n
unfolding wrr_loop
length-loop zero total es = refl
length-loop (suc n) total es = ap suc (length-loop n total _)

AllAlive-get :
    (ws table : List ℕ) (j : ℕ)
    → AllAlive ws table
    → j < length table
    → 0 < get_or ws (get_or table j 0) 0
AllAlive-get ws [] j v h = absurd (omega arith)
AllAlive-get ws (i ∷ table) zero v h = v.0
AllAlive-get ws (i ∷ table) (suc j) v h = AllAlive-get ws table j v.1 (omega arith)

SameAlive-get : (ws vs : List ℕ) (i : ℕ) → SameAlive ws vs → 0 < get_or vs i 0 → 0 < get_or ws i 0
SameAlive-get [] [] i a h = absurd (omega arith)
SameAlive-get [] (v ∷ vs) i a h = absurd a
SameAlive-get (w ∷ ws) [] i a h = absurd a
SameAlive-get (zero ∷ ws) (v ∷ vs) zero a h = absurd (omega (arith, a.0.1 refl))
SameAlive-get (suc w ∷ ws) (v ∷ vs) zero a h = omega arith
SameAlive-get (w ∷ ws) (v ∷ vs) (suc i) a h = SameAlive-get ws vs i a.1 h

module _ (max_lcore : ℕ) (maglev : List SchedBackend → List ℕ) (s : Scheduler)
    (bs : List SchedBackend) (h : 0 < sum (weights bs)) (small : length bs ≤ 2 ^ 16) where
  abbrev built : Scheduler
  built = build max_lcore maglev s wrr bs

  small_weights : length (weights bs) ≤ 2 ^ 16
  small_weights = omega (arith, length-map bs (λ (b : SchedBackend). b.weight))

  table_lem : built.table ≡ build_wrr (weights bs)
  unfolding build
  table_lem = rw (positive-sum (weights bs) h) refl

  type_lem : built.type ≡ wrr
  unfolding build
  type_lem = rw (positive-sum (weights bs) h) refl

  length-table : length (build_wrr (weights bs)) ≡ (scale (weights bs)).1
  unfolding build_wrr
  length-table = length-loop _ _ _

  distribution_lem : distribution built (length bs) ≡ (scale (weights bs)).0
  unfolding distribution
  distribution_lem =
      rw (table_lem, ← (length-map bs (λ (b : SchedBackend). b.weight)))
        (build_wrr-tally (weights bs) h small_weights)

  -- The weighted round-robin table of at most 2^16 backends, not all of weight 0, has entries for
  -- exactly the backends with a weight, and no more than 4096 entries and one for each backend.
  pub build-distribution :
      SameAlive (weights bs) (distribution built (length bs))
      × (length built.table ≤ wrr_max_seq + length bs)
  build-distribution = (
    rw distribution_lem (scale-SameAlive (weights bs) h),
    omega (
      arith,
      ap length table_lem,
      length-table,
      scale-bound (weights bs) h,
      length-map bs (λ (b : SchedBackend). b.weight),
    ),
  )

  -- In the weighted round-robin table of at most 2^16 backends, not all of weight 0: if the sum of the
  -- weights divided by their gcd is at most 4096, each backend has its weight, divided by the gcd, as
  -- its number of entries.
  pub build-exact :
      sum (weights bs) / gcd_all 0 (weights bs) ≤ wrr_max_seq
      → map (λ n. n * gcd_all 0 (weights bs)) (distribution built (length bs)) ≡ weights bs
  unfolding distribution
  build-exact le =
      rw (table_lem, ← (length-map bs (λ (b : SchedBackend). b.weight)))
        (build_wrr-exact (weights bs) h small_weights le)

  table-AllAlive : AllAlive (scale (weights bs)).0 built.table
  unfolding build_wrr
  table-AllAlive =
      rw (table_lem, scale-sum (weights bs) h)
        (wrr_loop-AllAlive _ (scale (weights bs)).0 (scale-pos (weights bs) h)
          (omega (arith, length-scale (weights bs) h, small_weights)))

  table-nonempty : 0 < length built.table
  table-nonempty =
      omega (
        arith,
        ap length table_lem,
        length-table,
        scale-sum (weights bs) h,
        scale-pos (weights bs) h,
      )

  -- Whatever the tuple, the worker and the state of the cursors, `pick` on that table returns a
  -- backend that has a weight.
  pub pick-alive :
      (jhash : ℕ → ℕ → ℕ → ℕ → ℕ) (cursors : List ℕ) (tuple : FiveTuple) (worker : ℕ)
      → (i : ℕ) × ((pick jhash (record built { cursors = cursors }) tuple worker).0 ≡ some i)
        × (0 < get_or (weights bs) i 0)
  unfolding pick
  pick-alive jhash cursors tuple worker =
      let c = get_or cursors (worker % length cursors) 0 in
      (
        get_or built.table (c % length built.table) 0,
        rw (==-false (length built.table) 0 (λ e. omega (arith, table-nonempty)), type_lem) refl,
        SameAlive-get (weights bs) (scale (weights bs)).0 _ (scale-SameAlive (weights bs) h)
            (AllAlive-get _ built.table _ table-AllAlive (mod-lt c table-nonempty)),
      )
