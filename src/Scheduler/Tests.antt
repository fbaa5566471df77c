-- ===== src/Scheduler/Tests.antt =====
-- Three backends of weights 4, 2 and 0, and the theorems at them.
use l4_loadbalancer.Base.{
  ℕ, ◌+◌, ◌*◌, ◌/◌, ◌≤◌, ◌<◌, ◌≡◌, refl, List, [], ◌∷◌, map, length, get_or, some, arith,
}
use l4_loadbalancer.Base.Int.{◌+ℤ◌, ◌-ℤ◌}
use l4_loadbalancer.Config.{wrr}
use l4_loadbalancer.Scheduler.Pick.{build-distribution, build-exact, pick-alive}
use l4_loadbalancer.Scheduler.Scale.{SameAlive}
use l4_loadbalancer.Scheduler.{
  SchedBackend, Scheduler, build, build_wrr, pick, distribution, weights, sum, gcd_fuel, gcd_all,
  wrr_max_seq,
}
use l4_loadbalancer.Types.{no_tuple}

abbrev backends : List SchedBackend
backends =
    record { ip = 1; port = 80; weight = 4 }
    ∷ record { ip = 2; port = 80; weight = 2 }
    ∷ record { ip = 3; port = 80; weight = 0 }
    ∷ []

abbrev fresh : Scheduler
fresh = record { type = wrr; table = []; cursors = 0 ∷ 0 ∷ [] }

abbrev no_maglev : List SchedBackend → List ℕ
no_maglev bs = []

abbrev sum_hash : ℕ → ℕ → ℕ → ℕ → ℕ
sum_hash a b c seed = a + b + c + seed

abbrev built : Scheduler
built = build 2 no_maglev fresh wrr backends

-- Smooth: the two selections of the first backend are not consecutive.
sequence : built.table ≡ 0 ∷ 1 ∷ 0 ∷ []
unfolding build ◌+ℤ◌ ◌-ℤ◌
sequence = refl

smooth : build_wrr (5 ∷ 1 ∷ 1 ∷ []) ≡ 0 ∷ 0 ∷ 1 ∷ 0 ∷ 2 ∷ 0 ∷ 0 ∷ []
unfolding build_wrr ◌+ℤ◌ ◌-ℤ◌
smooth = refl

build-distribution_example :
    SameAlive (weights backends) (distribution built 3) × (length built.table ≤ wrr_max_seq + 3)
build-distribution_example =
    build-distribution 2 no_maglev fresh backends (omega arith) (omega arith)

gcd_lem : gcd_all 0 (weights backends) ≡ 2
unfolding gcd_fuel
gcd_lem = refl

small_total : sum (weights backends) / gcd_all 0 (weights backends) ≤ wrr_max_seq
small_total = rw gcd_lem (omega arith)

build-exact_example :
    map (λ n. n * gcd_all 0 (weights backends)) (distribution built 3) ≡ weights backends
build-exact_example = build-exact 2 no_maglev fresh backends (omega arith) (omega arith) small_total

pick-alive_example :
    (i : ℕ) × ((pick sum_hash (record built { cursors = 7 ∷ 9 ∷ [] }) no_tuple 1).0 ≡ some i)
    × (0 < get_or (weights backends) i 0)
pick-alive_example =
    pick-alive 2 no_maglev fresh backends (omega arith) (omega arith) sum_hash (7 ∷ 9 ∷ []) no_tuple
      1
