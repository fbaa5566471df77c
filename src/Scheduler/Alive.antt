-- ===== src/Scheduler/Alive.antt =====
-- Every entry of the weighted round-robin sequence is a backend with a weight.
use l4_loadbalancer.Base.{
  ℕ, zero, suc, ◌+◌, ◌%◌, ◌^◌, ◌≤◌, ◌<◌, ◌≡◌, ◌∙◌, ap, List, [], ◌∷◌, arith, length, get_or,
  replicate,
}
use l4_loadbalancer.Base.Int.{ℤ}
use l4_loadbalancer.Scheduler.Fair.{
  weights_of, select-good, weights-add, weights-charge, GoodAt-lt, sum-bump, start-AllTrack,
  start-weights, sum-zeros,
}
use l4_loadbalancer.Scheduler.Round.{AllTrack, GoodAt, AllTrack-add, AllTrack-charge}
use l4_loadbalancer.Scheduler.{add_weights, select, charge, bump, sum, wrr_loop, start}

abbrev pub AllAlive : List ℕ → List ℕ → Type 0
AllAlive ws [] = Unit {0}
AllAlive ws (i ∷ table) = (0 < get_or ws i 0) × AllAlive ws table

GoodAt-weight : (es : List (ℕ × ℤ)) (b : ℕ) → GoodAt es b → 0 < get_or (weights_of es) b 0
GoodAt-weight [] b g = absurd g
GoodAt-weight (e ∷ es) zero g = g.0
GoodAt-weight (e ∷ es) (suc b) g = GoodAt-weight es b g

loop-AllAlive :
    (m n total : ℕ) (es : List (ℕ × ℤ)) (ks : List ℕ)
    → AllTrack total n es ks
    → sum (weights_of es) ≡ total
    → sum ks ≡ n
    → 0 < total
    → length (weights_of es) ≤ 2 ^ 16
    → AllAlive (weights_of es) (wrr_loop m total es)
unfolding wrr_loop
loop-AllAlive zero n total es ks v hw hk pos_total small = tt
loop-AllAlive (suc m) n total es ks v hw hk pos_total small = rw fits (
  rw (weights-add es) at (GoodAt-weight added best good),
  rw same_weights at (
      loop-AllAlive m (n + 1) total (charge total best added) (bump best ks)
        (AllTrack-charge total (n + 1) best added ks good added_track) (ap sum same_weights ∙ hw)
        (omega (arith, sum-bump best added total (n + 1) ks added_track good)) pos_total
        (rw same_weights small)),
)
  where
    added : List (ℕ × ℤ)
    added = add_weights es

    best : ℕ
    best = select added

    added_track : AllTrack total (n + 1) added ks
    added_track = AllTrack-add total n es ks v

    good : GoodAt added best
    good = select-good n total es ks v hw hk pos_total

    same_weights : weights_of (charge total best added) ≡ weights_of es
    same_weights = weights-charge total best added ∙ weights-add es

    fits : best % 2 ^ 16 ≡ best
    fits = omega (arith, GoodAt-lt added best good, ap length (weights-add es))

pub wrr_loop-AllAlive :
    (m : ℕ) (ws : List ℕ)
    → 0 < sum ws
    → length ws ≤ 2 ^ 16
    → AllAlive ws (wrr_loop m (sum ws) (start ws))
wrr_loop-AllAlive m ws h small = rw (start-weights ws) at (
    loop-AllAlive m 0 (sum ws) (start ws) (replicate (length ws) 0) (start-AllTrack (sum ws) ws h)
      (ap sum (start-weights ws)) (sum-zeros (length ws)) h (rw (start-weights ws) small))
