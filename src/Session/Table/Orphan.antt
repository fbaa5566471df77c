-- ===== src/Session/Table/Orphan.antt =====
-- A defect of `expire`: the session that it removes was already taken off the pending list, and
-- `remove` unlinks it once more, now as the only entry of the slot that it came from.
use l4_loadbalancer.Base.{ℕ, ◌≤◌, ◌≡◌, refl, List, ◌∷◌, ==_iff, le→leb}
use l4_loadbalancer.Rte.{RteHash}
use l4_loadbalancer.Session.Invariant.Settle.{popped, popped-IsLoose, popped_fields, IsLoose}
use l4_loadbalancer.Session.Table.Expire.{settle_lem}
use l4_loadbalancer.Session.Table.Lists.{IsTable}
use l4_loadbalancer.Session.Table.{Table, settle, settle_popped, remove}
use l4_loadbalancer.Session.{nil, slot_of, wheel_unlink}
use l4_loadbalancer.Types.{FiveTuple}

module _ (ops : RteHash FiveTuple) where
  loose_removed :
      (t : Table ops) (k : ℕ)
      → IsLoose (t.wheel.sessions k)
      → (remove ops t k).wheel.slots (slot_of (t.wheel.sessions k).slot_tick) ≡ nil
  unfolding remove wheel_unlink
  loose_removed t k loose =
      rw (loose.no_prev, loose.no_next, loose.not_pending)
        (rw ((==_iff (slot_of (t.wheel.sessions k).slot_tick) _).1 refl) refl)

  -- When the first pending session of a well-formed table has expired, settling it overwrites the
  -- slot that it came from with `kNil`, whatever hangs on that slot.
  pub settle_clears_slot :
      (t : Table ops) (chains : ℕ → List ℕ) (k : ℕ) (rest : List ℕ) (now : ℕ)
      → IsTable ops t chains (k ∷ rest)
      → (t.wheel.sessions k).expire_tick ≤ now
      → (settle ops t now).0.wheel.slots (slot_of (t.wheel.sessions k).slot_tick) ≡ nil
  unfolding settle_popped
  settle_clears_slot t chains k rest now v expired =
      let fields = popped_fields t.wheel chains k rest v.on_wheel in
      rw (settle_lem ops t chains k rest v now) (
        rw
          (
            le→leb ((popped t.wheel chains k rest v.on_wheel).sessions k).expire_tick now
                (rw fields.1 expired),
            ← fields.0,
          )
          (loose_removed (record t { wheel = popped t.wheel chains k rest v.on_wheel }) k
            (popped-IsLoose t.wheel chains k rest v.on_wheel)))
