-- ===== src/Session/Invariant/Settle.antt =====
-- One pending session: popped, and either freed or linked again.
use l4_loadbalancer.Base.{ℕ, ◌≡◌, refl, false, List, ◌∷◌, inl, arith, ==_iff, fun_ext}
use l4_loadbalancer.Session.Invariant.Agree.{IsWheel-agree, SamePlace, set_apart}
use l4_loadbalancer.Session.Invariant.Apart.{waiting_slot}
use l4_loadbalancer.Session.Invariant.Drain.{cleared, clear_slot-IsWheel}
use l4_loadbalancer.Session.Invariant.Remove.{wheel_unlink-pending}
use l4_loadbalancer.Session.Invariant.{IsWheel, IsApart}
use l4_loadbalancer.Session.{
  Wheel, Session, nil, slot_of, update, set_session, wheel_unlink, pending_pop,
}

-- A session that was just unlinked, and says that it hangs on a slot.
pub record IsLoose (s : Session) : Type 0 where
  pub no_prev : s.wheel_prev ≡ nil
  pub no_next : s.wheel_next ≡ nil
  pub not_pending : s.in_pending ≡ false

module _ (w : Wheel) (chains : ℕ → List ℕ) (k : ℕ) (rest : List ℕ)
    (v : IsWheel w chains (k ∷ rest)) where
  pop_index : (pending_pop w).0 ≡ k
  unfolding pending_pop
  pop_index = v.pending_head

  pub popped : Wheel
  popped =
      set_session (wheel_unlink w k) k
        (record ((wheel_unlink w k).sessions k) { in_pending = false })

  pop_wheel : (pending_pop w).1 ≡ popped
  unfolding pending_pop popped
  pop_wheel = rw v.pending_head

  pub pop_lem : pending_pop w ≡ (k, popped)
  pop_lem i = (pop_index i, pop_wheel i)

  pub pop-IsApart : IsApart k chains rest
  pop-IsApart = (
    v.pending_distinct.0,
    λ s. waiting_slot w chains (k ∷ rest) v s k (inl refl),
    v.pending_distinct.1,
  )

  unlinked-IsWheel : IsWheel (wheel_unlink w k) chains rest
  unlinked-IsWheel =
      rw ((==_iff k k).1 refl) at (wheel_unlink-pending w chains (k ∷ rest) v k (inl refl))

  pub popped-IsWheel : IsWheel popped chains rest
  unfolding popped
  popped-IsWheel = set_apart (wheel_unlink w k) chains rest unlinked-IsWheel k _ pop-IsApart

  pub popped-IsLoose : IsLoose (popped.sessions k)
  unfolding popped wheel_unlink
  popped-IsLoose = ground arith

  pub popped_fields :
      ((popped.sessions k).slot_tick ≡ (w.sessions k).slot_tick)
      × ((popped.sessions k).expire_tick ≡ (w.sessions k).expire_tick)
  unfolding popped wheel_unlink
  popped_fields = ground arith

-- A session that is on no list is unlinked again: what hung on the slot that it names is lost.
module _ (w : Wheel) (chains : ℕ → List ℕ) (waiting : List ℕ) (v : IsWheel w chains waiting) (k : ℕ)
    (loose : IsLoose (w.sessions k)) where
  unlink_loose_slots :
      (wheel_unlink w k).slots ≡ update w.slots (slot_of (w.sessions k).slot_tick) nil
  unfolding wheel_unlink
  unlink_loose_slots = fun_ext λ s. rw (loose.no_prev, loose.no_next, loose.not_pending) refl

  unlink_loose_pending : (wheel_unlink w k).pending ≡ w.pending
  unfolding wheel_unlink
  unlink_loose_pending = rw (loose.no_prev, loose.no_next, loose.not_pending) refl

  unlink_loose_session : (j : ℕ) → SamePlace (w.sessions j) ((wheel_unlink w k).sessions j)
  unfolding wheel_unlink
  unlink_loose_session j =
      let np = loose.no_prev in
      let nn = loose.no_next in
      record {
        same_prev = ground arith;
        same_next = ground arith;
        same_tick = ground arith;
        same_pending = ground arith;
      }

  -- The second unlinking empties the slot that the session names; every other list stays.
  pub unlink_loose-IsWheel :
      IsWheel
        (wheel_unlink w k)
        (cleared w chains waiting v (slot_of (w.sessions k).slot_tick))
        waiting
  unlink_loose-IsWheel =
      IsWheel-agree _ _ waiting
        (clear_slot-IsWheel w chains waiting v (slot_of (w.sessions k).slot_tick))
        (wheel_unlink w k) unlink_loose_slots unlink_loose_pending (λ j m. unlink_loose_session j)
