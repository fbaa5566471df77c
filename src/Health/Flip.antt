-- ===== src/Health/Flip.antt =====
-- When the verdict on a real server changes.
use l4_loadbalancer.Base.{
  ℕ, ◌+◌, ◌^◌, ◌≤◌, ◌<◌, ◌≡◌, ◌≢◌, refl, Bool, true, false, not, ◌&&◌, leb, if◌then◌else◌, List, [],
  ◌∷◌, inl, inr, arith, Bool-cases, length, leb→le,
}
use l4_loadbalancer.Config.{HealthConf}
use l4_loadbalancer.Health.{Probe, result}

-- The probe after a list of outcomes, the last one first.
abbrev pub after : HealthConf → Probe → List Bool → Probe
after conf p [] = p
after conf p (r ∷ earlier) = result conf (after conf p earlier) r

-- How many of the last outcomes are all `r`.
abbrev pub streak : Bool → List Bool → ℕ
streak r [] = 0
streak true (true ∷ earlier) = streak true earlier + 1
streak true (false ∷ earlier) = 0
streak false (true ∷ earlier) = 0
streak false (false ∷ earlier) = streak false earlier + 1

streak-le : (r : Bool) (rs : List Bool) → streak r rs ≤ length rs
streak-le r [] = omega arith
streak-le true (true ∷ rs) = omega (arith, streak-le true rs)
streak-le true (false ∷ rs) = omega arith
streak-le false (true ∷ rs) = omega arith
streak-le false (false ∷ rs) = omega (arith, streak-le false rs)

rises :
    (healthy : Bool) (rise n m : ℕ)
    → n ≡ m
    → ((if leb rise n && not healthy then true else healthy) ≢ healthy
        → (healthy ≡ false) × (rise ≤ m))
      × (healthy ≡ false → rise ≤ m → (if leb rise n && not healthy then true else healthy) ≡ true)
rises true rise n m e = ((λ ne. absurd (ne (ground arith))), λ z le. cc z)
rises false rise n m e = elim (Bool-cases (leb rise n)) [
  | inl l ↦ rw l ((λ ne. (refl, omega (arith, leb→le rise n l))), λ z le. refl)
  | inr l ↦ rw l ((λ ne. absurd (ne refl)), λ z le. absurd (ground (arith, l, le, e)))
]

falls :
    (healthy : Bool) (fall n m : ℕ)
    → n ≡ m
    → ((if leb fall n && healthy then false else healthy) ≢ healthy → (healthy ≡ true) × (fall ≤ m))
      × (healthy ≡ true → fall ≤ m → (if leb fall n && healthy then false else healthy) ≡ false)
falls false fall n m e = ((λ ne. absurd (ne (ground arith))), λ z le. cc z)
falls true fall n m e = elim (Bool-cases (leb fall n)) [
  | inl l ↦ rw l ((λ ne. (refl, omega (arith, leb→le fall n l))), λ z le. refl)
  | inr l ↦ rw l ((λ ne. absurd (ne refl)), λ z le. absurd (ground (arith, l, le, e)))
]

module _ (conf : HealthConf) (p : Probe) (ok0 : p.ok ≡ 0) (fail0 : p.fail ≡ 0) where
  -- The counters are the streaks.
  counters :
      (rs : List Bool)
      → length rs < 2 ^ 32
      → ((after conf p rs).ok ≡ streak true rs) × ((after conf p rs).fail ≡ streak false rs)
  unfolding result
  counters [] h = (ok0, fail0)
  counters (true ∷ rs) h = (omega (arith, counters rs (omega arith), streak-le true rs), refl)
  counters (false ∷ rs) h = (refl, omega (arith, counters rs (omega arith), streak-le false rs))

  -- The streak that makes a verdict.
  abbrev pub threshold : Bool → ℕ
  threshold true = conf.rise
  threshold false = conf.fall

  -- An outcome changes the verdict on a server exactly if it contradicts the verdict, and it is at
  -- least the `rise`-th success or the `fall`-th failure in a row: from a probe with no outcomes
  -- counted yet, for any sequence of fewer than 2^32 outcomes.
  pub result_flips :
      (r : Bool) (rs : List Bool)
      → length (r ∷ rs) < 2 ^ 32
      → ((after conf p (r ∷ rs)).healthy ≢ (after conf p rs).healthy
          → ((after conf p rs).healthy ≡ not r) × (threshold r ≤ streak r (r ∷ rs)))
        × ((after conf p rs).healthy ≡ not r
            → threshold r ≤ streak r (r ∷ rs)
            → (after conf p (r ∷ rs)).healthy ≡ r)
  unfolding result
  result_flips true rs h =
      rises (after conf p rs).healthy conf.rise _ (streak true rs + 1)
        (omega (arith, counters rs (omega arith), streak-le true rs))
  result_flips false rs h =
      falls (after conf p rs).healthy conf.fall _ (streak false rs + 1)
        (omega (arith, counters rs (omega arith), streak-le false rs))
