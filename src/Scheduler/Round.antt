-- ===== src/Scheduler/Round.antt =====
-- One round of smooth weighted round-robin: whom it selects, and what it does to the values.
use l4_loadbalancer.Base.{
  ℕ, zero, suc, ◌+◌, ◌*◌, ◌≤◌, ◌<◌, ◌≡◌, refl, ◌⊎◌, inl, inr, true, false, List, [], ◌∷◌, arith,
  Bool-cases,
}
use l4_loadbalancer.Base.Int.{ℤ, pos, pos_part, neg_part, ◌+ℤ◌, ◌-ℤ◌, int_laws}
use l4_loadbalancer.Scheduler.{add_weights, best_from, better, select, charge, bump}

-- A backend that may be selected with gain: it has a weight, and its value is positive.
abbrev pub IsGood : ℕ × ℤ → Type 0
IsGood (w, c) = (0 < w) × (0 < pos_part c)

abbrev pub AnyGood : List (ℕ × ℤ) → Type 0
AnyGood [] = ⊥
AnyGood (e ∷ es) = IsGood e ⊎ AnyGood es

abbrev pub GoodAt : List (ℕ × ℤ) → ℕ → Type 0
GoodAt [] k = ⊥
GoodAt (e ∷ es) zero = IsGood e
GoodAt (e ∷ es) (suc k) = GoodAt es k

better-IsGood : (e top : ℕ × ℤ) → better e top ≡ true → IsGood top → IsGood e
better-IsGood (w, pos c) (v, pos d) h g = ground arith
better-IsGood (w, pos c) (v, ℤ.negsuc d) h g = ground arith
better-IsGood (w, ℤ.negsuc c) (v, pos d) h g = ground arith
better-IsGood (w, ℤ.negsuc c) (v, ℤ.negsuc d) h g = ground arith

worse-IsGood : (e top : ℕ × ℤ) → better e top ≡ false → IsGood e → IsGood top
worse-IsGood (w, pos c) (v, pos d) h g = ground arith
worse-IsGood (w, pos c) (v, ℤ.negsuc d) h g = ground arith
worse-IsGood (w, ℤ.negsuc c) (v, pos d) h g = ground arith
worse-IsGood (w, ℤ.negsuc c) (v, ℤ.negsuc d) h g = ground arith

-- The scan ends at a good backend if it started with one or meets one.
best_from-GoodAt :
    (es : List (ℕ × ℤ)) (i best : ℕ) (top : ℕ × ℤ)
    → IsGood top ⊎ AnyGood es
    → ((best_from es i best top ≡ best) × IsGood top)
      ⊎ ((k : ℕ) × (best_from es i best top ≡ i + k) × GoodAt es k)
unfolding best_from
best_from-GoodAt [] i best top (inl g) = inl (refl, g)
best_from-GoodAt [] i best top (inr z) = absurd z
best_from-GoodAt (e ∷ es) i best top h = elim (Bool-cases (better e top)) [
  | inl b ↦ rw b (moved (best_from-GoodAt es (i + 1) i e (to_e b h)))
  | inr b ↦ rw b (kept (best_from-GoodAt es (i + 1) best top (to_top b h)))
]
  where
    to_e : better e top ≡ true → IsGood top ⊎ AnyGood (e ∷ es) → IsGood e ⊎ AnyGood es
    to_e b (inl g) = inl (better-IsGood e top b g)
    to_e b (inr m) = m

    to_top : better e top ≡ false → IsGood top ⊎ AnyGood (e ∷ es) → IsGood top ⊎ AnyGood es
    to_top b (inl g) = inl g
    to_top b (inr (inl g)) = inl (worse-IsGood e top b g)
    to_top b (inr (inr m)) = inr m

    moved :
        ((best_from es (i + 1) i e ≡ i) × IsGood e)
          ⊎ ((k : ℕ) × (best_from es (i + 1) i e ≡ i + 1 + k) × GoodAt es k)
        → ((best_from es (i + 1) i e ≡ best) × IsGood top)
          ⊎ ((k : ℕ) × (best_from es (i + 1) i e ≡ i + k) × GoodAt (e ∷ es) k)
    moved (inl (q, g)) = inr (0, omega arith, g)
    moved (inr (k, q, g)) = inr (suc k, omega arith, g)

    kept :
        ((best_from es (i + 1) best top ≡ best) × IsGood top)
          ⊎ ((k : ℕ) × (best_from es (i + 1) best top ≡ i + 1 + k) × GoodAt es k)
        → ((best_from es (i + 1) best top ≡ best) × IsGood top)
          ⊎ ((k : ℕ) × (best_from es (i + 1) best top ≡ i + k) × GoodAt (e ∷ es) k)
    kept (inl m) = inl m
    kept (inr (k, q, g)) = inr (suc k, omega arith, g)

pub select-GoodAt : (es : List (ℕ × ℤ)) → AnyGood es → GoodAt es (select es)
unfolding select
select-GoodAt [] h = h
select-GoodAt (e ∷ es) h = found (best_from-GoodAt (e ∷ es) 0 0 e (inr h))
  where
    at_k : (k : ℕ) → best_from (e ∷ es) 0 0 e ≡ 0 + k → best_from (e ∷ es) 0 0 e ≡ k
    at_k k q = omega arith

    found :
        ((best_from (e ∷ es) 0 0 e ≡ 0) × IsGood e)
          ⊎ ((k : ℕ) × (best_from (e ∷ es) 0 0 e ≡ 0 + k) × GoodAt (e ∷ es) k)
        → GoodAt (e ∷ es) (best_from (e ∷ es) 0 0 e)
    found (inl (q, g)) = rw q g
    found (inr (k, q, g)) = rw (at_k k q) g

-- After `n` rounds a backend's value is `n` times its weight, less the total for each selection; it
-- stays above -total, and at 0 for a backend with no weight.
pub record Tracks (total n : ℕ) (e : ℕ × ℤ) (k : ℕ) : Type 0 where
  pub value : pos_part e.1 + total * k ≡ neg_part e.1 + n * e.0
  pub above : neg_part e.1 < total
  pub idle : e.0 ≡ 0 → pos_part e.1 ≡ 0

abbrev pub AllTrack : ℕ → ℕ → List (ℕ × ℤ) → List ℕ → Type 0
AllTrack total n [] [] = Unit {0}
AllTrack total n [] (k ∷ ks) = ⊥
AllTrack total n (e ∷ es) [] = ⊥
AllTrack total n (e ∷ es) (k ∷ ks) = Tracks total n e k × AllTrack total n es ks

add-low :
    (w : ℕ) (c : ℤ)
    → (neg_part (c +ℤ pos w) ≤ neg_part c) × (pos_part (c +ℤ pos w) ≤ pos_part c + w)
unfolding ◌+ℤ◌
add-low w c = ground arith

charge-low : (total : ℕ) (c : ℤ) → 0 < pos_part c → 0 < total → neg_part (c -ℤ pos total) < total
unfolding ◌-ℤ◌
charge-low total c h p = ground arith

Tracks-add :
    (total n w : ℕ) (c : ℤ) (k : ℕ)
    → Tracks total n (w, c) k
    → Tracks total (n + 1) (w, c +ℤ pos w) k
Tracks-add total n w c k t = record {
  value = omega (int_laws, t.value);
  above = omega (int_laws, t.above, add-low w c);
  idle = λ z. omega (int_laws, t.idle z, add-low w c);
}

pub AllTrack-add :
    (total n : ℕ) (es : List (ℕ × ℤ)) (ks : List ℕ)
    → AllTrack total n es ks
    → AllTrack total (n + 1) (add_weights es) ks
unfolding add_weights
AllTrack-add total n [] [] v = tt
AllTrack-add total n [] (k ∷ ks) v = absurd v
AllTrack-add total n (e ∷ es) [] v = absurd v
AllTrack-add total n ((w, c) ∷ es) (k ∷ ks) v =
    (Tracks-add total n w c k v.0, AllTrack-add total n es ks v.1)

Tracks-charge :
    (total n w : ℕ) (c : ℤ) (k : ℕ)
    → IsGood (w, c)
    → Tracks total n (w, c) k
    → Tracks total n (w, c -ℤ pos total) (suc k)
Tracks-charge total n w c k g t = record {
  value = omega (int_laws, t.value);
  above = omega (arith, charge-low total c g.1 (omega (arith, g.0, t.above)));
  idle = λ z. absurd (omega (arith, g.0));
}

pub AllTrack-charge :
    (total n b : ℕ) (es : List (ℕ × ℤ)) (ks : List ℕ)
    → GoodAt es b
    → AllTrack total n es ks
    → AllTrack total n (charge total b es) (bump b ks)
unfolding charge
AllTrack-charge total n b [] ks g v = absurd g
AllTrack-charge total n b (e ∷ es) [] g v = absurd v
AllTrack-charge total n zero (e ∷ es) (k ∷ ks) g v = (Tracks-charge total n e.0 e.1 k g v.0, v.1)
AllTrack-charge total n (suc b) (e ∷ es) (k ∷ ks) g v = (v.0, AllTrack-charge total n b es ks g v.1)
