-- ===== src/Session/Invariant/Agree.antt =====
-- The invariant reads the links, the slot and the flag of the sessions that are on a list, and
-- nothing else.
use l4_loadbalancer.Base.{
  ℕ, ◌≡◌, ◌≢◌, refl, ◌∙◌, ap, ◌==◌, List, ◌⊎◌, inl, inr, ==-false, ==_iff, Bool-cases,
}
use l4_loadbalancer.Session.Chain.{In, NotIn-In, Linked-Agree, Agree-by}
use l4_loadbalancer.Session.Invariant.{IsWheel, IsApart, prev_of, next_of}
use l4_loadbalancer.Session.{Wheel, Session, nil, slot_of, set_session}

abbrev pub OnList : ℕ → (ℕ → List ℕ) → List ℕ → Type 0
OnList j chains waiting = ((s : ℕ) × In j (chains s)) ⊎ In j waiting

-- The same place on the wheel.
pub record SamePlace (s s' : Session) : Type 0 where
  pub same_prev : s'.wheel_prev ≡ s.wheel_prev
  pub same_next : s'.wheel_next ≡ s.wheel_next
  pub same_tick : s'.slot_tick ≡ s.slot_tick
  pub same_pending : s'.in_pending ≡ s.in_pending

module _ (w : Wheel) (chains : ℕ → List ℕ) (waiting : List ℕ) (v : IsWheel w chains waiting) where
  pub IsWheel-agree :
      (w' : Wheel)
      → w'.slots ≡ w.slots
      → w'.pending ≡ w.pending
      → ((j : ℕ) → OnList j chains waiting → SamePlace (w.sessions j) (w'.sessions j))
      → IsWheel w' chains waiting
  IsWheel-agree w' es ep same = record {
    slot_head = λ s h. ap (λ (f : ℕ → ℕ). f s) es ∙ v.slot_head s h;
    slot_linked = λ s.
        Linked-Agree (prev_of w) (next_of w) (prev_of w') (next_of w') nil (chains s)
          (Agree-by (prev_of w) (next_of w) (prev_of w') (next_of w') (chains s)
            λ j m. let p = same j (inl (s, m)) in (p.same_prev, p.same_next))
          (v.slot_linked s);
    slot_distinct = v.slot_distinct;
    slot_home = λ s j m.
        let p = same j (inl (s, m)) in
        (ap slot_of p.same_tick ∙ (v.slot_home s j m).0, p.same_pending ∙ (v.slot_home s j m).1);
    pending_head = ep ∙ v.pending_head;
    pending_linked =
        Linked-Agree (prev_of w) (next_of w) (prev_of w') (next_of w') nil waiting
          (Agree-by (prev_of w) (next_of w) (prev_of w') (next_of w') waiting
            λ j m. let p = same j (inr m) in (p.same_prev, p.same_next))
          v.pending_linked;
    pending_distinct = v.pending_distinct;
    pending_home = λ j m. (same j (inr m)).same_pending ∙ v.pending_home j m;
  }

  OnList-ne : (k j : ℕ) → IsApart k chains waiting → OnList j chains waiting → k ≢ j
  OnList-ne k j a (inl (s, m)) = NotIn-In k j (chains s) (a.1 s) m
  OnList-ne k j a (inr m) = NotIn-In k j waiting a.2 m

  -- A session that is on no list may be overwritten.
  pub set_apart :
      (k : ℕ) (s : Session) → IsApart k chains waiting → IsWheel (set_session w k s) chains waiting
  set_apart k s a = IsWheel-agree (set_session w k s) refl refl λ j m.
      rw (==-false k j (OnList-ne k j a m))
        (record { same_prev = refl; same_next = refl; same_tick = refl; same_pending = refl })

  -- Any session may be overwritten by one in the same place.
  pub set_same :
      (k : ℕ) (s : Session)
      → SamePlace (w.sessions k) s
      → IsWheel (set_session w k s) chains waiting
  set_same k s same = IsWheel-agree (set_session w k s) refl refl λ j m.
      elim (Bool-cases (k == j)) [
        | inl e ↦ rw (e, ← ((==_iff k j).0 e)) same
        | inr e ↦
            rw e
              (record { same_prev = refl; same_next = refl; same_tick = refl; same_pending = refl })
      ]
