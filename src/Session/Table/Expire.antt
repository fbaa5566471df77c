-- ===== src/Session/Table/Expire.antt =====
-- `expire`: the lists of the table stay lists apart from each other, and the loop ends in its fuel.
use l4_loadbalancer.Base.{
  ℕ, zero, suc, ◌+◌, ◌-◌, ◌%◌, ◌^◌, ◌<◌, ◌≡◌, refl, sym, ◌∙◌, ap, false, ◌==◌, List, [], ◌∷◌, ◌⊎◌,
  inl, inr, arith, ==-false, ==_iff, Bool-cases, ltb, leb, ltb-false,
}
use l4_loadbalancer.Rte.{RteHash}
use l4_loadbalancer.Session.Chain.{In}
use l4_loadbalancer.Session.Invariant.Agree.{OnList, set_apart}
use l4_loadbalancer.Session.Invariant.Drain.{cleared, moved, take_slot-IsWheel}
use l4_loadbalancer.Session.Invariant.Link.{wheel_link-IsWheel, linked_chains}
use l4_loadbalancer.Session.Invariant.Settle.{
  pop_lem, popped, popped-IsWheel, popped-IsLoose, pop-IsApart, unlink_loose-IsWheel, IsLoose,
}
use l4_loadbalancer.Session.Invariant.{IsWheel, IsApart}
use l4_loadbalancer.Session.Table.Lists.{
  IsTable, WellFormed, same_free, freed, In-push, In-clear, length-le_distinct,
}
use l4_loadbalancer.Session.Table.{
  Table, remove, settle, settle_popped, expire_loop, expire, take_slot, drain_slot,
}
use l4_loadbalancer.Session.{
  Wheel, nil, slot_of, wheel_link, wheel_unlink, link_tick, pending_push, pending_pop,
  expire_budget,
}
use l4_loadbalancer.Types.{FiveTuple}

module _ (ops : RteHash FiveTuple) where
  module _ (t : Table ops) (chains : ℕ → List ℕ) (k : ℕ) (rest : List ℕ)
      (v : IsTable ops t chains (k ∷ rest)) (now : ℕ) where
    abbrev w : Wheel
    w = popped t.wheel chains k rest v.on_wheel

    vw : IsWheel w chains rest
    vw = popped-IsWheel t.wheel chains k rest v.on_wheel

    apart : IsApart k chains rest
    apart = pop-IsApart t.wheel chains k rest v.on_wheel

    loose : IsLoose (w.sessions k)
    loose = popped-IsLoose t.wheel chains k rest v.on_wheel

    pub settle_lem : settle ops t now ≡ settle_popped ops t now (k, w)
    unfolding settle
    settle_lem = ap (settle_popped ops t now) (pop_lem t.wheel chains k rest v.on_wheel)

    settle-removed : WellFormed ops (remove ops (record t { wheel = w }) k)
    unfolding remove
    settle-removed = (
      emptied,
      rest,
      freed ops t chains (k ∷ rest) v _ _ emptied rest k (inr (inl refl))
          (set_apart (wheel_unlink w k) emptied rest (unlink_loose-IsWheel w chains rest vw k loose)
            k _ apart')
          old apart',
    )
      where
        emptied : ℕ → List ℕ
        emptied = cleared w chains rest vw (slot_of (w.sessions k).slot_tick)

        apart' : IsApart k emptied rest
        apart' = (
          apart.0,
          λ c. elim (Bool-cases (slot_of (w.sessions k).slot_tick == c)) [
            | inl e ↦ rw e tt
            | inr e ↦ rw e (apart.1 c)
          ],
          apart.2,
        )

        old : (j : ℕ) → OnList j emptied rest → OnList j chains (k ∷ rest)
        old j (inl (c, n)) = inl (c, In-clear ops chains c (slot_of (w.sessions k).slot_tick) j n)
        old j (inr n) = inr (inr n)

    settle-linked : WellFormed ops (record t { wheel = wheel_link w k (w.sessions k).expire_tick })
    settle-linked = (
      linked_chains w k (w.sessions k).expire_tick chains rest vw apart,
      rest,
      same_free ops t chains (k ∷ rest) v _ _ rest
          (wheel_link-IsWheel w k (w.sessions k).expire_tick chains rest vw apart) old,
    )
      where
        old :
            (j : ℕ)
            → OnList j (linked_chains w k (w.sessions k).expire_tick chains rest vw apart) rest
            → OnList j chains (k ∷ rest)
        old j (inr n) = inr (inr n)
        old j (inl (c, n)) =
            back (In-push ops chains c (slot_of (link_tick w (w.sessions k).expire_tick)) j k n)
          where
            back : (j ≡ k) ⊎ In j (chains c) → OnList j chains (k ∷ rest)
            back (inl q) = inr (inl q)
            back (inr p) = inl (c, p)

    settle-WellFormed : WellFormed ops (settle ops t now).0
    unfolding settle_popped
    settle-WellFormed = rw settle_lem (elim (Bool-cases (leb (w.sessions k).expire_tick now)) [
      | inl e ↦ rw (settle_popped, e) settle-removed
      | inr e ↦ rw (settle_popped, e) settle-linked
    ])

  In-moved : (j : ℕ) (c waiting : List ℕ) → In j (moved c waiting) → In j c ⊎ In j waiting
  In-moved j [] waiting m = inr m
  In-moved j (i ∷ c) waiting m = sorted (In-moved j c (i ∷ waiting) m)
    where
      sorted : In j c ⊎ In j (i ∷ waiting) → In j (i ∷ c) ⊎ In j waiting
      sorted (inl n) = inl (inr n)
      sorted (inr (inl q)) = inl (inl q)
      sorted (inr (inr n)) = inr n

  take-WellFormed :
      (t : Table ops)
      → WellFormed ops t
      → WellFormed ops (record t { wheel = take_slot t.capacity t.wheel })
  take-WellFormed t (chains, waiting, v) = (
    cleared t.wheel chains waiting v.on_wheel here,
    moved (chains here) waiting,
    same_free ops t chains waiting v _ _ _
        (take_slot-IsWheel t.wheel chains waiting v.on_wheel t.capacity (
          length-le_distinct t.capacity (chains here) (v.on_wheel.slot_distinct here)
            (λ j m. v.used_small j (inl (here, m)))))
        old,
  )
    where
      here : ℕ
      here = slot_of t.wheel.cur_tick

      old :
          (j : ℕ)
          → OnList j (cleared t.wheel chains waiting v.on_wheel here) (moved (chains here) waiting)
          → OnList j chains waiting
      old j (inl (c, n)) = inl (c, In-clear ops chains c here j n)
      old j (inr n) = split (In-moved j (chains here) waiting n)
        where
          split : In j (chains here) ⊎ In j waiting → OnList j chains waiting
          split (inl m) = inl (here, m)
          split (inr m) = inr m

  expire_loop-WellFormed :
      (fuel : ℕ) (t : Table ops) (now budget removed : ℕ)
      → WellFormed ops t
      → WellFormed ops (expire_loop ops fuel t now budget removed).0
  unfolding expire_loop
  expire_loop-WellFormed zero t now budget removed v = v
  expire_loop-WellFormed (suc fuel) t now zero removed v = v
  expire_loop-WellFormed (suc fuel) t now (suc budget) removed (chains, [], v) =
      rw ((==_iff t.wheel.pending nil).1 v.on_wheel.pending_head)
        (elim (Bool-cases (ltb now t.wheel.cur_tick)) [
          | inl e ↦ rw e (chains, [], v)
          | inr e ↦ rw e (
              expire_loop-WellFormed fuel (record t { wheel = take_slot t.capacity t.wheel }) now
                (suc budget) removed (take-WellFormed t (chains, [], v)))
        ])
  expire_loop-WellFormed (suc fuel) t now (suc budget) removed (chains, k ∷ rest, v) =
      rw
        (==-false t.wheel.pending nil
          (λ e. v.on_wheel.pending_distinct.0 (sym v.on_wheel.pending_head ∙ e)))
        (expire_loop-WellFormed fuel (settle ops t now).0 now budget
          (removed + (settle ops t now).1) (settle-WellFormed t chains k rest v now))

  -- `expire` keeps a well-formed table well formed at every tick, whatever is pending, expired or
  -- still alive: the arrays again spell out doubly linked chains for the slots and a pending list,
  -- without repetition and apart from each other and from the free stack.
  pub expire-WellFormed :
      (t : Table ops) (now : ℕ) → WellFormed ops t → WellFormed ops (expire ops t now).0
  unfolding expire
  expire-WellFormed t now v = expire_loop-WellFormed _ t now _ 0 v

  -- The wheel's clock stands still while a session is settled, and advances with a slot.
  settle-cur_tick :
      (t : Table ops) (now : ℕ) → (settle ops t now).0.wheel.cur_tick ≡ t.wheel.cur_tick
  unfolding settle settle_popped remove wheel_unlink wheel_link pending_pop
  settle-cur_tick t now = ground arith

  drain_slot-cur_tick :
      (fuel : ℕ) (w : Wheel) (head : ℕ) → (drain_slot fuel w head).cur_tick ≡ w.cur_tick
  unfolding drain_slot pending_push
  drain_slot-cur_tick zero w head = refl
  drain_slot-cur_tick (suc fuel) w head =
      ground (arith, drain_slot-cur_tick fuel (pending_push w head) (w.sessions head).wheel_next)

  take_slot-cur_tick :
      (fuel : ℕ) (w : Wheel) → (take_slot fuel w).cur_tick ≡ (w.cur_tick + 1) % 2 ^ 64
  unfolding take_slot
  take_slot-cur_tick fuel w = ap (λ (x : ℕ). (x + 1) % 2 ^ 64) (drain_slot-cur_tick fuel _ _)

  -- The rounds that the loop has left at most.
  abbrev rounds : Table ops → ℕ → ℕ → ℕ
  rounds t now budget = now + 1 - t.wheel.cur_tick + budget

  -- With more fuel than the rounds that are left the result does not depend on the fuel: the loop
  -- ends by its own tests.
  pub expire_loop-fuel :
      (f g : ℕ) (t : Table ops) (now budget removed : ℕ)
      → now < 2 ^ 64 - 1
      → rounds t now budget < f
      → rounds t now budget < g
      → expire_loop ops f t now budget removed ≡ expire_loop ops g t now budget removed
  unfolding expire_loop
  expire_loop-fuel zero g t now budget removed small hf hg = absurd (omega arith)
  expire_loop-fuel (suc f) zero t now budget removed small hf hg = absurd (omega arith)
  expire_loop-fuel (suc f) (suc g) t now zero removed small hf hg = refl
  expire_loop-fuel (suc f) (suc g) t now (suc budget) removed small hf hg =
      elim (Bool-cases (t.wheel.pending == nil)) [
        | inr e ↦ rw e (
            expire_loop-fuel f g (settle ops t now).0 now budget (removed + (settle ops t now).1)
              small (omega (arith, settle-cur_tick t now)) (omega (arith, settle-cur_tick t now)))
        | inl e ↦ elim (Bool-cases (ltb now t.wheel.cur_tick)) [
          | inl past ↦ rw (e, past) refl
          | inr due ↦
              rw (e, due)
                (expire_loop-fuel f g (record t { wheel = take_slot t.capacity t.wheel }) now
                  (suc budget) removed small (fewer due f hf) (fewer due g hg))
        ]
      ]
    where
      fewer :
          ltb now t.wheel.cur_tick ≡ false
          → (n : ℕ) → rounds t now (suc budget) < suc n
          → rounds (record t { wheel = take_slot t.capacity t.wheel }) now (suc budget) < n
      fewer due n h =
          omega (arith, take_slot-cur_tick t.capacity t.wheel, ltb-false now t.wheel.cur_tick due)

  -- The fuel of `expire` is enough, at every tick below 2^64 - 1: more fuel gives the same table and
  -- the same count.
  pub expire-fuel :
      (t : Table ops) (now extra : ℕ)
      → now < 2 ^ 64 - 1
      → expire_loop ops
          (now + 1 - t.wheel.cur_tick + expire_budget + 1 + extra)
          t
          now
          expire_budget
          0
        ≡ expire ops t now
  unfolding expire
  expire-fuel t now extra small =
      expire_loop-fuel _ _ t now expire_budget 0 small (omega arith) (omega arith)
