-- ===== src/Session/Table/Preserve.antt =====
-- `create`, `remove` and `touch` keep the lists of the table apart from each other.
use l4_loadbalancer.Base.{
  ℕ, ◌≡◌, refl, Bool, true, false, ◌==◌, if◌then◌else◌, List, [], ◌∷◌, ◌⊎◌, inl, inr, ==_iff,
  Bool-cases, Option, ltb,
}
use l4_loadbalancer.Rte.{RteHash}
use l4_loadbalancer.Session.Chain.{In, NotIn, In-ne-nil, erase, In-erase, NotIn-erase_self}
use l4_loadbalancer.Session.Invariant.Agree.{OnList, set_apart, set_same}
use l4_loadbalancer.Session.Invariant.Apart.{slots_apart, slot_waiting, waiting_slot}
use l4_loadbalancer.Session.Invariant.Link.{wheel_link-IsWheel, linked_chains}
use l4_loadbalancer.Session.Invariant.Remove.{
  wheel_unlink-pending, wheel_unlink-slot, unlinked_chains,
}
use l4_loadbalancer.Session.Invariant.{IsWheel, IsApart}
use l4_loadbalancer.Session.Table.Lists.{
  IsTable, WellFormed, same_free, freed, taken, In-push, In-shrink,
}
use l4_loadbalancer.Session.Table.{
  Table, create, create_from, create_at, remove, touch, deadline, add_keys, fresh_session,
}
use l4_loadbalancer.Session.{
  Wheel, Session, slot_of, set_session, wheel_link, wheel_unlink, link_tick,
}
use l4_loadbalancer.Types.{FiveTuple}

module _ (ops : RteHash FiveTuple) where
  module _ (t : Table ops) (chains : ℕ → List ℕ) (waiting : List ℕ)
      (v : IsTable ops t chains waiting) where
    create_at-WellFormed :
        (client : FiveTuple) (server : Option FiveTuple) (now timeout idx : ℕ) (rest : List ℕ)
        (r : Bool × ops.Handle)
        → t.free ≡ idx ∷ rest
        → WellFormed ops (create_at ops t client server now timeout idx rest r).1
    unfolding create_at
    create_at-WellFormed client server now timeout idx rest (false, h) e = (
      chains,
      waiting,
      record {
        on_wheel = v.on_wheel;
        free_distinct = v.free_distinct;
        free_apart = v.free_apart;
        free_small = v.free_small;
        used_small = v.used_small;
      },
    )
    create_at-WellFormed client server now timeout idx rest (true, h) e = (
      linked_chains w idx s.expire_tick chains waiting vw apart,
      waiting,
      taken ops t chains waiting v (wheel_link w idx s.expire_tick) h
          (linked_chains w idx s.expire_tick chains waiting vw apart) idx rest e
          (wheel_link-IsWheel w idx s.expire_tick chains waiting vw apart) old,
    )
      where
        s : Session
        s = fresh_session ops client server now timeout

        w : Wheel
        w = set_session t.wheel idx s

        apart : IsApart idx chains waiting
        apart = v.free_apart idx (rw e (inl refl))

        vw : IsWheel w chains waiting
        vw = set_apart t.wheel chains waiting v.on_wheel idx s apart

        old :
            (j : ℕ)
            → OnList j (linked_chains w idx s.expire_tick chains waiting vw apart) waiting
            → (j ≡ idx) ⊎ OnList j chains waiting
        old j (inr m) = inr (inr m)
        old j (inl (c, m)) =
            old_slot (In-push ops chains c (slot_of (link_tick w s.expire_tick)) j idx m)
          where
            old_slot : (j ≡ idx) ⊎ In j (chains c) → (j ≡ idx) ⊎ OnList j chains waiting
            old_slot (inl q) = inl q
            old_slot (inr n) = inr (inl (c, n))

    create_from-WellFormed :
        (client : FiveTuple) (server : Option FiveTuple) (now timeout : ℕ) (free : List ℕ)
        → t.free ≡ free
        → WellFormed ops (create_from ops t client server now timeout free).1
    unfolding create_from
    create_from-WellFormed client server now timeout [] e = (chains, waiting, v)
    create_from-WellFormed client server now timeout (idx ∷ rest) e =
        create_at-WellFormed client server now timeout idx rest
          (add_keys ops t.hash client server idx) e

  -- What is left after a session on a list is unlinked.
  abbrev Detached : Wheel → (ℕ → List ℕ) → List ℕ → ℕ → Type 0
  Detached w chains waiting k =
      (chains' : ℕ → List ℕ) × (waiting' : List ℕ) × IsWheel (wheel_unlink w k) chains' waiting'
      × ((j : ℕ) → OnList j chains' waiting' → OnList j chains waiting)
      × IsApart k chains' waiting'

  detach :
      (w : Wheel) (chains : ℕ → List ℕ) (waiting : List ℕ) (k : ℕ)
      → IsWheel w chains waiting
      → OnList k chains waiting
      → Detached w chains waiting k
  detach w chains waiting k v (inr m) = (
    chains,
    erase k waiting,
    wheel_unlink-pending w chains waiting v k m,
    old,
    (
      In-ne-nil k waiting v.pending_distinct m,
      (λ s. waiting_slot w chains waiting v s k m),
      NotIn-erase_self k waiting v.pending_distinct,
    ),
  )
    where
      old : (j : ℕ) → OnList j chains (erase k waiting) → OnList j chains waiting
      old j (inl n) = inl n
      old j (inr n) = inr (In-erase j k waiting n)
  detach w chains waiting k v (inl (s, m)) = (
    unlinked_chains w chains waiting v k s,
    waiting,
    wheel_unlink-slot w chains waiting v k s m,
    old,
    (In-ne-nil k (chains s) (v.slot_distinct s) m, other, slot_waiting w chains waiting v s k m),
  )
    where
      old :
          (j : ℕ)
          → OnList j (unlinked_chains w chains waiting v k s) waiting
          → OnList j chains waiting
      old j (inl (c, n)) = inl (c, In-shrink ops chains c s j k n)
      old j (inr n) = inr n

      other : (c : ℕ) → NotIn k (unlinked_chains w chains waiting v k s c)
      other c = elim (Bool-cases (s == c)) [
        | inl e ↦ rw e (NotIn-erase_self k (chains s) (v.slot_distinct s))
        | inr e ↦ rw e (slots_apart w chains waiting v s c k (λ q. cc ((==_iff s c).1 q)) m)
      ]

  -- `remove` of a session that is on a list keeps the table well formed: the arrays spell out
  -- the slots' chains, the pending list and the free stack, apart from each other.
  pub remove-WellFormed :
      (t : Table ops) (chains : ℕ → List ℕ) (waiting : List ℕ) (idx : ℕ)
      → IsTable ops t chains waiting
      → OnList idx chains waiting
      → WellFormed ops (remove ops t idx)
  unfolding remove
  remove-WellFormed t chains waiting idx v used =
      let (chains', waiting', vw, old, apart) = detach t.wheel chains waiting idx v.on_wheel used in
      (
        chains',
        waiting',
        freed ops t chains waiting v _ _ chains' waiting' idx used
            (set_apart (wheel_unlink t.wheel idx) chains' waiting' vw idx _ apart) old apart,
      )

  -- The wheel after `touch` has moved the session, if it does.
  touch_moved :
      (w : Wheel) (chains : ℕ → List ℕ) (waiting : List ℕ) (idx exp : ℕ) (sooner pending : Bool)
      → IsWheel w chains waiting
      → OnList idx chains waiting
      → let moved_wheel =
          if sooner then (if pending then w else wheel_link (wheel_unlink w idx) idx exp) else w in
        (chains' : ℕ → List ℕ) × (waiting' : List ℕ) × IsWheel moved_wheel chains' waiting'
        × ((j : ℕ) → OnList j chains' waiting' → OnList j chains waiting)
  touch_moved w chains waiting idx exp false pending v used = (chains, waiting, v, λ j n. n)
  touch_moved w chains waiting idx exp true true v used = (chains, waiting, v, λ j n. n)
  touch_moved w chains waiting idx exp true false v used =
      let (chains', waiting', vw, old, apart) = detach w chains waiting idx v used in
      (
        linked_chains (wheel_unlink w idx) idx exp chains' waiting' vw apart,
        waiting',
        wheel_link-IsWheel (wheel_unlink w idx) idx exp chains' waiting' vw apart,
        relinked chains' waiting' vw apart old,
      )
    where
      relinked :
          (chains' : ℕ → List ℕ) (waiting' : List ℕ)
          (vw : IsWheel (wheel_unlink w idx) chains' waiting')
          (apart : IsApart idx chains' waiting')
          → ((j : ℕ) → OnList j chains' waiting' → OnList j chains waiting)
          → (j : ℕ)
          → OnList j (linked_chains (wheel_unlink w idx) idx exp chains' waiting' vw apart) waiting'
          → OnList j chains waiting
      relinked chains' waiting' vw apart old j (inr n) = old j (inr n)
      relinked chains' waiting' vw apart old j (inl (c, n)) =
          back (In-push ops chains' c (slot_of (link_tick (wheel_unlink w idx) exp)) j idx n)
        where
          back : (j ≡ idx) ⊎ In j (chains' c) → OnList j chains waiting
          back (inl q) = rw q used
          back (inr p) = old j (inl (c, p))

  -- `touch` of a session that is on a list keeps the table well formed, whatever the new timeout.
  pub touch-WellFormed :
      (t : Table ops) (chains : ℕ → List ℕ) (waiting : List ℕ) (idx now timeout : ℕ)
      → IsTable ops t chains waiting
      → OnList idx chains waiting
      → WellFormed ops (touch ops t idx now timeout)
  unfolding touch
  touch-WellFormed t chains waiting idx now timeout v used =
      let (chains', waiting', vw, old) =
        touch_moved t.wheel chains waiting idx (deadline now timeout)
          (ltb (deadline now timeout) (t.wheel.sessions idx).slot_tick)
          (t.wheel.sessions idx).in_pending v.on_wheel used in
      (
        chains',
        waiting',
        same_free ops t chains waiting v _ chains' waiting'
            (set_same _ chains' waiting' vw idx _ (record {
              same_prev = refl;
              same_next = refl;
              same_tick = refl;
              same_pending = refl;
            }))
            old,
      )

  -- `create` keeps the table well formed, whether it succeeds or not.
  pub create-WellFormed :
      (t : Table ops) (client : FiveTuple) (server : Option FiveTuple) (now timeout : ℕ)
      → WellFormed ops t
      → WellFormed ops (create ops t client server now timeout).1
  unfolding create
  create-WellFormed t client server now timeout (chains, waiting, v) =
      create_from-WellFormed t chains waiting v client server now timeout t.free refl
