-- ===== src/Scheduler/Fair.antt =====
-- The weighted round-robin sequence gives every backend exactly its weight.
use l4_loadbalancer.Base.{
  ℕ, zero, suc, ◌+◌, ◌*◌, ◌%◌, ◌^◌, ◌≤◌, ◌<◌, ◌≡◌, refl, ◌∙◌, ap, ◌⊎◌, inl, inr, List, [], ◌∷◌,
  arith, length, replicate, map,
}
use l4_loadbalancer.Base.Int.{ℤ, pos, negsuc, pos_part, neg_part}
use l4_loadbalancer.Scheduler.Round.{
  AllTrack, Tracks, AnyGood, GoodAt, select-GoodAt, AllTrack-add, AllTrack-charge,
}
use l4_loadbalancer.Scheduler.{add_weights, select, charge, bump, sum, tally, wrr_loop, start}
use native.Mathlib.Nat.{mul-le-mul_left}

-- The weights of a run's backends.
abbrev pub weights_of : List (ℕ × ℤ) → List ℕ
weights_of es = map (λ (e : ℕ × ℤ). e.0) es

abbrev gains : List (ℕ × ℤ) → ℕ
gains [] = 0
gains (e ∷ es) = pos_part e.1 + gains es

abbrev debts : List (ℕ × ℤ) → ℕ
debts [] = 0
debts (e ∷ es) = neg_part e.1 + debts es

AllTrack-sum :
    (total n : ℕ) (es : List (ℕ × ℤ)) (ks : List ℕ)
    → AllTrack total n es ks
    → gains es + total * sum ks ≡ debts es + n * sum (weights_of es)
AllTrack-sum total n [] [] v = omega arith
AllTrack-sum total n [] (k ∷ ks) v = absurd v
AllTrack-sum total n (e ∷ es) [] v = absurd v
AllTrack-sum total n (e ∷ es) (k ∷ ks) v = omega (arith, v.0.value, AllTrack-sum total n es ks v.1)

-- Someone has a positive value when the values' sum is positive.
AnyGood-gains :
    (total n : ℕ) (es : List (ℕ × ℤ)) (ks : List ℕ)
    → AllTrack total n es ks
    → 0 < gains es
    → AnyGood es
AnyGood-gains total n [] ks v h = absurd (omega arith)
AnyGood-gains total n (e ∷ es) [] v h = absurd v
AnyGood-gains total n ((zero, c) ∷ es) (k ∷ ks) v h =
    inr (AnyGood-gains total n es ks v.1 (omega (arith, v.0.idle refl)))
AnyGood-gains total n ((suc w, negsuc c) ∷ es) (k ∷ ks) v h =
    inr (AnyGood-gains total n es ks v.1 (omega arith))
AnyGood-gains total n ((suc w, pos zero) ∷ es) (k ∷ ks) v h =
    inr (AnyGood-gains total n es ks v.1 (omega arith))
AnyGood-gains total n ((suc w, pos (suc c)) ∷ es) (k ∷ ks) v h = inl (omega arith, omega arith)

pub weights-add : (es : List (ℕ × ℤ)) → weights_of (add_weights es) ≡ weights_of es
unfolding add_weights
weights-add [] = refl
weights-add (e ∷ es) = rw (weights-add es)

pub weights-charge :
    (total b : ℕ) (es : List (ℕ × ℤ)) → weights_of (charge total b es) ≡ weights_of es
unfolding charge
weights-charge total b [] = refl
weights-charge total zero (e ∷ es) = refl
weights-charge total (suc b) (e ∷ es) = rw (weights-charge total b es)

pub GoodAt-lt : (es : List (ℕ × ℤ)) (b : ℕ) → GoodAt es b → b < length (weights_of es)
GoodAt-lt [] b g = absurd g
GoodAt-lt (e ∷ es) zero g = omega arith
GoodAt-lt (e ∷ es) (suc b) g = omega (arith, GoodAt-lt es b g)

pub sum-bump :
    (b : ℕ) (es : List (ℕ × ℤ)) (total n : ℕ) (ks : List ℕ)
    → AllTrack total n es ks
    → GoodAt es b
    → sum (bump b ks) ≡ sum ks + 1
sum-bump b [] total n ks v g = absurd g
sum-bump b (e ∷ es) total n [] v g = absurd v
sum-bump zero (e ∷ es) total n (k ∷ ks) v g = omega arith
sum-bump (suc b) (e ∷ es) total n (k ∷ ks) v g = omega (arith, sum-bump b es total n ks v.1 g)

gained :
    (total n s k d g : ℕ) → g + total * k ≡ d + (n + 1) * s → s ≡ total → k ≡ n → 0 < total → 0 < g
gained total n s k d g e es ek p = omega (arith, ap (λ x. total * x) ek, ap (λ x. (n + 1) * x) es)

-- A round selects a backend that has a weight and a positive value.
pub select-good :
    (n total : ℕ) (es : List (ℕ × ℤ)) (ks : List ℕ)
    → AllTrack total n es ks
    → sum (weights_of es) ≡ total
    → sum ks ≡ n
    → 0 < total
    → GoodAt (add_weights es) (select (add_weights es))
select-good n total es ks v hw hk pos_total =
    let added_track = AllTrack-add total n es ks v in
    select-GoodAt (add_weights es) (
      AnyGood-gains total (n + 1) (add_weights es) ks added_track (
        gained total n _ (sum ks) _ _ (AllTrack-sum total (n + 1) (add_weights es) ks added_track)
          (ap sum (weights-add es) ∙ hw) hk pos_total))

-- What `m` rounds do: each backend's value keeps track of its selections.
loop-AllTrack :
    (m n total : ℕ) (es : List (ℕ × ℤ)) (ks : List ℕ)
    → AllTrack total n es ks
    → sum (weights_of es) ≡ total
    → sum ks ≡ n
    → 0 < total
    → length (weights_of es) ≤ 2 ^ 16
    → (es' : List (ℕ × ℤ)) × AllTrack total (n + m) es' (tally (wrr_loop m total es) ks)
      × (weights_of es' ≡ weights_of es)
      × (sum (tally (wrr_loop m total es) ks) ≡ n + m)
unfolding wrr_loop
loop-AllTrack zero n total es ks v hw hk pos_total small =
    (es, rw (plus_zero n) v, refl, omega arith)
  where
    plus_zero : (n : ℕ) → n + 0 ≡ n
    plus_zero n = omega arith
loop-AllTrack (suc m) n total es ks v hw hk pos_total small =
    let (es', track, same, count) =
      loop-AllTrack m (n + 1) total (charge total best added) (bump best ks)
        (AllTrack-charge total (n + 1) best added ks good added_track) (ap sum same_weights ∙ hw)
        (omega (arith, sum-bump best added total (n + 1) ks added_track good)) pos_total
        (rw same_weights small) in
    rw fits (es', rw (shift n m) track, same ∙ same_weights, omega arith)
  where
    added : List (ℕ × ℤ)
    added = add_weights es

    best : ℕ
    best = select added

    added_track : AllTrack total (n + 1) added ks
    added_track = AllTrack-add total n es ks v

    good : GoodAt added best
    good = select-good n total es ks v hw hk pos_total

    same_weights : weights_of (charge total best added) ≡ weights_of es
    same_weights = weights-charge total best added ∙ weights-add es

    fits : best % 2 ^ 16 ≡ best
    fits = omega (arith, GoodAt-lt added best good, ap length (weights-add es))

    shift : (n m : ℕ) → n + suc m ≡ n + 1 + m
    shift n m = omega arith

-- After as many rounds as the total, no backend was selected more often than its weight says.
le-weight : (total w k : ℕ) (c : ℤ) → Tracks total total (w, c) k → k ≤ w
le-weight total w k c t = elim (≤_or k w) [
  | inl h ↦ h
  | inr h ↦ absurd (omega (arith, t.value, t.above, mul-le-mul_left total h))
]
  where
    ≤_or : (k w : ℕ) → (k ≤ w) ⊎ (w + 1 ≤ k)
    ≤_or k w = omega arith

all-exact :
    (total : ℕ) (es : List (ℕ × ℤ)) (ks : List ℕ)
    → AllTrack total total es ks
    → (sum ks ≤ sum (weights_of es)) × (sum (weights_of es) ≤ sum ks → ks ≡ weights_of es)
all-exact total [] [] v = (omega arith, λ h. refl)
all-exact total [] (k ∷ ks) v = absurd v
all-exact total (e ∷ es) [] v = absurd v
all-exact total (e ∷ es) (k ∷ ks) v =
    let le = le-weight total e.0 k e.1 v.0 in
    let (low, same) = all-exact total es ks v.1 in
    (omega arith, λ h. rw (k_eq le low h, same (omega arith)) refl)
  where
    k_eq : k ≤ e.0 → sum ks ≤ sum (weights_of es) → e.0 + sum (weights_of es) ≤ k + sum ks → k ≡ e.0
    k_eq le low h = omega arith

pub start-AllTrack :
    (total : ℕ) (ws : List ℕ) → 0 < total → AllTrack total 0 (start ws) (replicate (length ws) 0)
start-AllTrack total [] h = tt
start-AllTrack total (w ∷ ws) h =
    (record { value = omega arith; above = h; idle = λ z. refl }, start-AllTrack total ws h)

pub start-weights : (ws : List ℕ) → weights_of (start ws) ≡ ws
start-weights [] = refl
start-weights (w ∷ ws) = rw (start-weights ws)

pub sum-zeros : (n : ℕ) → sum (replicate n 0) ≡ 0
sum-zeros zero = refl
sum-zeros (suc n) = omega (arith, sum-zeros n)

zero_plus : (n : ℕ) → 0 + n ≡ n
zero_plus n = omega arith

-- As many rounds as the weights' sum select every backend exactly as often as its weight says, for
-- at most 2^16 backends, not all of weight 0.
pub wrr_loop-tally :
    (ws : List ℕ)
    → 0 < sum ws
    → length ws ≤ 2 ^ 16
    → tally (wrr_loop (sum ws) (sum ws) (start ws)) (replicate (length ws) 0) ≡ ws
wrr_loop-tally ws h small =
    let (es', track, same, count) =
      loop-AllTrack (sum ws) 0 (sum ws) (start ws) (replicate (length ws) 0)
        (start-AllTrack (sum ws) ws h) (ap sum (start-weights ws)) (sum-zeros (length ws)) h
        (rw (start-weights ws) small) in
    let same' = same ∙ start-weights ws in
    (all-exact (sum ws) es' _ (rw (zero_plus (sum ws)) at track)).1
      (omega (arith, ap sum same', count))
    ∙ same'
