-- ===== src/Manager/Commands.antt =====
-- Sequences of commands and health changes on the manager that `init` set up.
use l4_loadbalancer.Base.{
  ℕ, suc, ◌+◌, ◌%◌, ◌^◌, ◌≤◌, ◌<◌, ◌≡◌, refl, Bool, arith, Option, none, List, [], ◌∷◌, ◌++◌,
  length,
}
use l4_loadbalancer.Config.{RsConf, ServiceConf, LbConfig}
use l4_loadbalancer.Manager.Ids.{
  rs_ids, ids_of, NotIn, IsDistinct, AllBelow, IsNumbered, set_weight-IsNumbered,
  set_enabled-IsNumbered, set_health-IsNumbered, add_rs-IsNumbered, del_rs-IsNumbered,
}
use l4_loadbalancer.Manager.{
  Manager, initial, CommandError, set_weight, set_enabled, set_health, add_rs, del_rs, max_rs_id,
  init, publish, number_rs, after_rs, number_services, after_services,
}
use l4_loadbalancer.Scheduler.{SchedBackend}
use l4_loadbalancer.Snapshot.{Crc}

-- The calls of the control thread.
pub data Command : Type 0 where
  weigh : ℕ → ℕ → Command
  enable health : ℕ → Bool → Command
  add : ℕ → RsConf → Command
  delete : ℕ → Command

-- The error, and the state after it.
abbrev pub exec : Manager → Command → Option CommandError × Manager
exec m (weigh id weight) = set_weight m id weight
exec m (enable id b) = set_enabled m id b
exec m (health id b) = (none, set_health m id b)
exec m (add i conf) = let (error, id, m') = add_rs m i conf in (error, m')
exec m (delete id) = del_rs m id

exec-IsNumbered : (m : Manager) (c : Command) → IsNumbered m → IsNumbered (exec m c).1
exec-IsNumbered m (weigh id weight) v = set_weight-IsNumbered m id weight v
exec-IsNumbered m (enable id b) v = set_enabled-IsNumbered m id b v
exec-IsNumbered m (health id b) v = set_health-IsNumbered m id b v
exec-IsNumbered m (add i conf) v = add_rs-IsNumbered m i conf v
exec-IsNumbered m (delete id) v = del_rs-IsNumbered m id v

-- The numbers from `n` up to `m`, in order.
abbrev Run : ℕ → List ℕ → ℕ → Type 0
Run n [] m = n ≡ m
Run n (i ∷ c) m = (i ≡ n) × Run (n + 1) c m

Run-append : (n k m : ℕ) (a b : List ℕ) → Run n a k → Run k b m → Run n (a ++ b) m
Run-append n k m [] b r s = rw r s
Run-append n k m (i ∷ a) b r s = (r.0, Run-append (n + 1) k m a b r.1 s)

Run-le : (n m : ℕ) (c : List ℕ) → Run n c m → n ≤ m
Run-le n m [] r = omega (arith, r)
Run-le n m (i ∷ c) r = omega (arith, Run-le (n + 1) m c r.1)

Run-NotIn : (j n m : ℕ) (c : List ℕ) → j < n → Run n c m → NotIn j c
Run-NotIn j n m [] h r = tt
Run-NotIn j n m (i ∷ c) h r =
    ((λ e. omega (arith, e, h, r.0)), Run-NotIn j (n + 1) m c (omega (arith, h)) r.1)

Run-IsDistinct : (n m : ℕ) (c : List ℕ) → Run n c m → IsDistinct c
Run-IsDistinct n m [] r = tt
Run-IsDistinct n m (i ∷ c) r =
    (Run-NotIn i (n + 1) m c (omega (arith, r.0)) r.1, Run-IsDistinct (n + 1) m c r.1)

Run-AllBelow : (n m : ℕ) (c : List ℕ) → 0 < n → Run n c m → AllBelow m c
Run-AllBelow n m [] p r = tt
Run-AllBelow n m (i ∷ c) p r = (
  omega (arith, p, r.0),
  omega (arith, r.0, Run-le (n + 1) m c r.1),
  Run-AllBelow (n + 1) m c (omega arith) r.1,
)

-- Real servers in a configuration.
abbrev pub rs_total : List ServiceConf → ℕ
rs_total [] = 0
rs_total (c ∷ cs) = length c.rs + rs_total cs

next_id : (n : ℕ) → n + 1 < 2 ^ 32 → (n + 1) % 2 ^ 32 ≡ n + 1
next_id n h = omega (arith, h)

number_rs-Run :
    (n : ℕ) (cs : List RsConf)
    → n + length cs < 2 ^ 32
    → Run n (rs_ids (number_rs n cs)) (n + length cs) × (after_rs n cs ≡ n + length cs)
number_rs-Run n [] h = (omega arith, omega arith)
number_rs-Run n (c ∷ cs) h =
    rw (next_id n (omega (arith, h)), plus_suc n (length cs))
      (let (r, e) = number_rs-Run (n + 1) cs (omega (arith, h)) in ((refl, r), e))
  where
    plus_suc : (a b : ℕ) → a + suc b ≡ a + 1 + b
    plus_suc a b = omega arith

number_services-Run :
    (n : ℕ) (cs : List ServiceConf)
    → n + rs_total cs < 2 ^ 32
    → Run n (ids_of (number_services n cs)) (n + rs_total cs)
      × (after_services n cs ≡ n + rs_total cs)
number_services-Run n [] h = (omega arith, omega arith)
number_services-Run n (c ∷ cs) h =
    let (r, e) = number_rs-Run n c.rs (omega (arith, h)) in
    let (s, g) = number_services-Run (n + length c.rs) cs (omega (arith, h)) in
    rw (e, ← (sum_assoc n (length c.rs) (rs_total cs)))
      (
        Run-append n (n + length c.rs) (n + length c.rs + rs_total cs) (rs_ids (number_rs n c.rs))
            (ids_of (number_services (n + length c.rs) cs)) r s,
        g,
      )
  where
    sum_assoc : (a b d : ℕ) → a + b + d ≡ a + (b + d)
    sum_assoc a b d = omega arith

module _ (max_lcore : ℕ) (crc : Crc) (build_maglev : List SchedBackend → List ℕ) where
  abbrev pub started : LbConfig → Manager
  started cfg = init max_lcore crc build_maglev initial cfg

  init-IsNumbered : (cfg : LbConfig) → rs_total cfg.services < max_rs_id → IsNumbered (started cfg)
  unfolding init publish
  init-IsNumbered cfg h =
      let (r, e) = number_services-Run 1 cfg.services (omega (arith, h)) in
      record {
        distinct = Run-IsDistinct 1 _ (ids_of (number_services 1 cfg.services)) r;
        below = rw e (Run-AllBelow 1 _ (ids_of (number_services 1 cfg.services)) (omega arith) r);
        positive = rw e (omega arith);
        counted = rw e (omega (arith, h));
      }

  -- Commands one after the other, with `publish` after each that succeeds or not.
  abbrev pub run : Manager → List Command → Manager
  run m [] = m
  run m (c ∷ cs) = run (publish max_lcore crc build_maglev (exec m c).1) cs

  publish-IsNumbered :
      (m : Manager) → IsNumbered m → IsNumbered (publish max_lcore crc build_maglev m)
  unfolding publish
  publish-IsNumbered m v = record {
    distinct = v.distinct;
    below = v.below;
    positive = v.positive;
    counted = v.counted;
  }

  run-kept : (cs : List Command) (m : Manager) → IsNumbered m → IsNumbered (run m cs)
  run-kept [] m v = v
  run-kept (c ∷ cs) m v =
      run-kept cs (publish max_lcore crc build_maglev (exec m c).1)
        (publish-IsNumbered (exec m c).1 (exec-IsNumbered m c v))

  -- For a configuration of fewer than 16384 real servers: after `init` and any commands and health
  -- changes, failed ones included, with a `publish` after each, the ids of the real servers are distinct,
  -- not 0, and small enough for the array of counters that each worker has.
  pub run-IsNumbered :
      (cfg : LbConfig) (cs : List Command)
      → rs_total cfg.services < max_rs_id
      → IsNumbered (run (started cfg) cs)
  run-IsNumbered cfg cs h = run-kept cs (started cfg) (init-IsNumbered cfg h)
