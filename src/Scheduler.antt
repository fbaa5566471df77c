-- ===== src/Scheduler.antt =====
-- include/lb/scheduler.h and src/lb/scheduler.cpp: the scheduler of a service. `build` makes the
-- weighted round-robin sequence; the Maglev table, which is computed with doubles, and rte_jhash are
-- parameters. The vectors `w` and `cur` of `build_wrr` are one list of pairs, and `cur` is exact.
pub mod Gcd
pub mod Round
pub mod Fair
pub mod Alive
pub mod Pick
pub mod Scale
mod Tests
use l4_loadbalancer.Base.{
  ℕ, zero, suc, ◌+◌, ◌*◌, ◌/◌, ◌%◌, ◌^◌, Bool, true, false, ◌&&◌, ◌||◌, not, ◌==◌, ltb,
  if◌then◌else◌, List, [], ◌∷◌, ◌++◌, map, Option, none, some, length, get_or, set, replicate,
}
use l4_loadbalancer.Base.Int.{ℤ, pos, ◌+ℤ◌, ◌-ℤ◌, ltb_ℤ}
use l4_loadbalancer.Config.{SchedulerType, wrr, maglev}
use l4_loadbalancer.Types.{FiveTuple, words}

pub record SchedBackend : Type 0 where
  pub ip : ℕ
  pub port : ℕ
  pub weight : ℕ

abbrev pub wrr_max_seq : ℕ
wrr_max_seq = 4096

-- std::gcd. The second number is fuel enough: it shrinks in each step.
unfoldable pub gcd_fuel : ℕ → ℕ → ℕ → ℕ
gcd_fuel zero a b = a
gcd_fuel (suc fuel) a b = let rest = gcd_fuel fuel b (a % b) in if b == 0 then a else rest

abbrev pub gcd : ℕ → ℕ → ℕ
gcd a b = gcd_fuel (b + 1) a b

abbrev pub sum : List ℕ → ℕ
sum [] = 0
sum (x ∷ xs) = x + sum xs

-- `g = std::gcd(g, w[i])`.
abbrev pub gcd_all : ℕ → List ℕ → ℕ
gcd_all g [] = g
gcd_all g (x ∷ xs) = gcd_all (gcd g x) xs

-- A weight that is reduced in proportion, and kept at 1 at least.
abbrev pub shrink : ℕ → ℕ → ℕ
shrink total x =
    if x == 0 then 0 else (if ltb 1 (x * wrr_max_seq / total) then x * wrr_max_seq / total else 1)

-- The weights that the sequence is made of, and their total: divided by their gcd, and reduced
-- where the total is more than the bound.
unfoldable pub scale : List ℕ → List ℕ × ℕ
unfolding gcd_fuel
scale ws =
    let g = gcd_all 0 ws in
    let divided = map (λ x. x / g) ws in
    let total = sum ws / g in
    let shrunk = map (shrink total) divided in
    if ltb wrr_max_seq total then (shrunk, sum shrunk) else (divided, total)

-- `cur[i] += w[i]` for every backend.
unfoldable pub add_weights : List (ℕ × ℤ) → List (ℕ × ℤ)
add_weights [] = []
add_weights ((w, c) ∷ es) = (w, c +ℤ pos w) ∷ add_weights es

-- `w[i] && (w[best] == 0 || cur[i] > cur[best])`.
abbrev pub better : ℕ × ℤ → ℕ × ℤ → Bool
better (w, c) (best_w, best_c) = not (w == 0) && (best_w == 0 || ltb_ℤ best_c c)

-- The scan from index `i` on: the best index so far, and its weight and value.
unfoldable pub best_from : List (ℕ × ℤ) → ℕ → ℕ → ℕ × ℤ → ℕ
best_from [] i best top = best
best_from (e ∷ es) i best top =
    let moved = best_from es (i + 1) i e in
    let kept = best_from es (i + 1) best top in if better e top then moved else kept

unfoldable pub select : List (ℕ × ℤ) → ℕ
unfolding best_from
select [] = 0
select (e ∷ es) = best_from (e ∷ es) 0 0 e

-- `cur[best] -= total`.
unfoldable pub charge : ℕ → ℕ → List (ℕ × ℤ) → List (ℕ × ℤ)
charge total best [] = []
charge total zero ((w, c) ∷ es) = (w, c -ℤ pos total) ∷ es
charge total (suc best) (e ∷ es) = e ∷ charge total best es

-- The sequence: `n` rounds of smooth weighted round-robin.
unfoldable pub wrr_loop : ℕ → ℕ → List (ℕ × ℤ) → List ℕ
unfolding select add_weights charge
wrr_loop zero total es = []
wrr_loop (suc n) total es =
    let added = add_weights es in
    let best = select added in (best % 2 ^ 16) ∷ wrr_loop n total (charge total best added)

abbrev pub start : List ℕ → List (ℕ × ℤ)
start ws = map (λ w. (w, pos 0)) ws

unfoldable pub build_wrr : List ℕ → List ℕ
unfolding scale wrr_loop
build_wrr ws = let (w, total) = scale ws in wrr_loop total total (start w)

-- `++d[i]`, where `i` is a backend.
abbrev pub bump : ℕ → List ℕ → List ℕ
bump i [] = []
bump zero (d ∷ ds) = suc d ∷ ds
bump (suc i) (d ∷ ds) = d ∷ bump i ds

abbrev pub tally : List ℕ → List ℕ → List ℕ
tally [] d = d
tally (i ∷ table) d = tally table (bump i d)

abbrev pub weights : List SchedBackend → List ℕ
weights bs = map (λ (b : SchedBackend). b.weight) bs

abbrev pub any_positive : List ℕ → Bool
any_positive [] = false
any_positive (w ∷ ws) = not (w == 0) || any_positive ws

pub record Scheduler : Type 0 where
  pub type : SchedulerType
  pub table : List ℕ
  pub cursors : List ℕ

-- The start of the cursor of each worker.
abbrev pub first_cursors : ℕ → ℕ → List ℕ
first_cursors zero i = []
first_cursors (suc n) i = i * 7919 % 2 ^ 32 ∷ first_cursors n (i + 1)

unfoldable pub distribution : Scheduler → ℕ → List ℕ
distribution s n_backends = tally s.table (replicate n_backends 0)

-- RTE_MAX_LCORE and `build_maglev`.
module _ (max_lcore : ℕ) (build_maglev : List SchedBackend → List ℕ) where
  -- Where no backend has a weight, the cursors stay as they are.
  unfoldable pub build : Scheduler → SchedulerType → List SchedBackend → Scheduler
  unfolding build_wrr
  build s type backends =
      if any_positive (weights backends)
      then record {
        type = type;
        table = elim type [ wrr ↦ build_wrr (weights backends) | maglev ↦ build_maglev backends ];
        cursors = first_cursors max_lcore 0;
      }
      else record s { type = type; table = [] }

-- rte_jhash_3words.
module _ (jhash : ℕ → ℕ → ℕ → ℕ → ℕ) where
  -- The table's entry for a number.
  abbrev pub entry : List ℕ → ℕ → ℕ
  entry table i = get_or table (i % length table) 0

  abbrev pub hash_of : FiveTuple → ℕ
  hash_of tuple = let (a, b, c) = words tuple in jhash a b c 0x9e3779b9

  -- The backend, and the scheduler with the worker's cursor moved on.
  unfoldable pub pick : Scheduler → FiveTuple → ℕ → Option ℕ × Scheduler
  pick s tuple worker =
      let i = worker % length s.cursors in
      let c = get_or s.cursors i 0 in
      if length s.table == 0 then (none, s) else elim s.type [
        | maglev ↦ (some (entry s.table (hash_of tuple)), s)
        | wrr ↦ (some (entry s.table c), record s { cursors = set s.cursors i ((c + 1) % 2 ^ 32) })
      ]
