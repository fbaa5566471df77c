-- ===== src/Neigh/Tests.antt =====
-- A table over an association list, and the theorems at it.
use l4_loadbalancer.Base.{ℕ, ◌==◌, ◌≡◌, refl, true, ==_iff, none, some, [], ◌∷◌}
use l4_loadbalancer.Neigh.Count.{
  here, then_step, static_step, learn_step, age_step, Counted, Reachable-Counted,
}
use l4_loadbalancer.Neigh.Static.{nothing, then_learn, IsPinned, Learnt-IsPinned}
use l4_loadbalancer.Neigh.{
  Neighbours, initial, add_static, learn, hint, want_request, age, neigh_lookup, pack, erase,
}
use l4_loadbalancer.Rte.Assoc.{assoc, assoc-laws}
use l4_loadbalancer.Rte.{RteHash, RteHashLaws}
use l4_loadbalancer.Types.{MacAddr, mac_eq}

abbrev ops : RteHash ℕ
ops = assoc ◌==◌ 16

laws : RteHashLaws ops
laws = assoc-laws ◌==◌ ==_iff 16

abbrev mac : MacAddr
mac = 2 ∷ 0 ∷ 0 ∷ 0 ∷ 0 ∷ 7 ∷ []

abbrev other : MacAddr
other = 2 ∷ 0 ∷ 0 ∷ 0 ∷ 0 ∷ 9 ∷ []

abbrev fixed : Neighbours ops
fixed = add_static ops (initial ops []) 1 mac

abbrev busy : Neighbours ops
busy = learn ops (learn ops fixed 1 other true 5) 2 other true 5

program : Unit {0}
unfolding add_static learn hint want_request age erase neigh_lookup mac_eq
program = tt

kept : neigh_lookup ops busy 1 ≡ some mac
unfolding program
kept = refl

learnt : neigh_lookup ops busy 2 ≡ some other
unfolding program
learnt = refl

-- 300 seconds later the learnt entry is gone, and the static one is not.
aged : neigh_lookup ops (age ops busy 305 []).1 2 ≡ none
unfolding program
aged = refl

aged_static : neigh_lookup ops (age ops busy 305 []).1 1 ≡ some mac
unfolding program
aged_static = refl

Reachable-Counted_example : Counted ops (age ops busy 305 []).1
Reachable-Counted_example = Reachable-Counted ops [] _ (
    then_step
      (then_step (then_step (then_step here (static_step _ 1 mac)) (learn_step _ 1 other true 5))
        (learn_step _ 2 other true 5))
      (age_step _ 305 []))

pinned : IsPinned ops laws 1 (some (pack mac)) fixed
unfolding program
pinned = record { pinned = refl; in_use = refl; same = refl }

Learnt-IsPinned_example : IsPinned ops laws 1 (some (pack mac)) busy
Learnt-IsPinned_example =
    Learnt-IsPinned ops laws 1 (some (pack mac)) fixed busy
      (then_learn 2 other true 5 (then_learn 1 other true 5 nothing)) pinned
