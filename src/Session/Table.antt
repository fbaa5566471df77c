-- ===== src/Session/Table.antt =====
-- The operations of `SessionTable` (src/lb/session.cpp) over the wheel and rte_hash.
pub mod Index
pub mod Lists
pub mod Init
pub mod Preserve
pub mod Expire
pub mod Orphan
use l4_loadbalancer.Base.{
  ℕ, zero, suc, ◌+◌, ◌-◌, ◌%◌, ◌^◌, ◌≤◌, Bool, true, false, ◌==◌, ltb, leb, if◌then◌else◌, List, [],
  ◌∷◌, Option, none, some, bit_or, length,
}
use l4_loadbalancer.Base.Bits.{has}
use l4_loadbalancer.Rte.{RteHash}
use l4_loadbalancer.Session.{
  Session, Wheel, blank, nil, free_mark, sf_fullnat, slot_of, update, set_session, wheel_link,
  wheel_unlink, pending_push, pending_pop, expire_budget,
}
use l4_loadbalancer.Types.{FiveTuple}

-- At least `timeout` whole seconds after `now_tick`, in 64-bit arithmetic.
unfoldable pub deadline : ℕ → ℕ → ℕ
deadline now_tick timeout = (now_tick + (if timeout == 0 then 1 else timeout) + 1) % 2 ^ 64

pub record SessionTable (Handle : Type 0) : Type 0 where
  pub hash : Handle
  pub wheel : Wheel
  pub free : List ℕ
  pub capacity : ℕ

-- `free_stack_` after `init`: the index 0 on top.
abbrev pub indices_from : ℕ → ℕ → List ℕ
indices_from zero i = []
indices_from (suc n) i = i ∷ indices_from n (i + 1)

-- The chain of a slot, moved to the pending list session by session. Fuel bounds its length.
unfoldable pub drain_slot : ℕ → Wheel → ℕ → Wheel
drain_slot zero w head = w
drain_slot (suc fuel) w head =
    let rest = drain_slot fuel (pending_push w head) (w.sessions head).wheel_next in
    if head == nil then w else rest

-- The branch of `expire` that takes the chain of the current slot and moves on to the next tick.
unfoldable pub take_slot : ℕ → Wheel → Wheel
unfolding drain_slot
take_slot fuel w =
    let slot = slot_of w.cur_tick in
    let head = w.slots slot in
    let drained = drain_slot fuel (record w { slots = update w.slots slot nil }) head in
    record drained { cur_tick = (drained.cur_tick + 1) % 2 ^ 64 }

module _ (ops : RteHash FiveTuple) where
  open ops use {Handle, lookup as hash_lookup, add as hash_add, del as hash_del}

  abbrev pub Table : Type 0
  Table = SessionTable Handle

  -- `init`, with the handle that rte_hash_create returned.
  unfoldable pub init : Handle → ℕ → ℕ → Table
  init created capacity now_tick = record {
    hash = created;
    wheel = record {
      sessions = λ i. record blank { wheel_prev = free_mark };
      slots = λ s. nil;
      pending = nil;
      cur_tick = now_tick;
    };
    free = indices_from capacity 0;
    capacity = capacity;
  }

  unfoldable pub lookup : Table → FiveTuple → Option ℕ
  lookup t key = hash_lookup t.hash key

  unfoldable pub key_in_use : Table → FiveTuple → Bool
  unfolding lookup
  key_in_use t key = elim (lookup t key) [ none ↦ false | some i ↦ true ]

  -- The new session before it is linked.
  unfoldable pub fresh_session : FiveTuple → Option FiveTuple → ℕ → ℕ → Session
  unfolding deadline
  fresh_session client none now_tick timeout = record blank {
    client = client;
    created_tick = now_tick;
    expire_tick = deadline now_tick timeout;
  }
  fresh_session client (some server) now_tick timeout = record blank {
    client = client;
    server = server;
    flags = bit_or 0 sf_fullnat;
    created_tick = now_tick;
    expire_tick = deadline now_tick timeout;
  }

  -- The keys of a session in the index; a failed second insertion takes the first one back.
  unfoldable pub add_keys : Handle → FiveTuple → Option FiveTuple → ℕ → Bool × Handle
  add_keys h client server idx = elim (hash_add h client idx) [
    | none ↦ (false, h)
    | some h' ↦ elim server [
      | none ↦ (true, h')
      | some key ↦ elim (hash_add h' key idx) [
        | none ↦ (false, hash_del h' client)
        | some h'' ↦ (true, h'')
      ]
    ]
  ]

  -- The index of the new session, or `none` where the table is full or a key cannot be inserted.
  unfoldable pub create_at :
      Table → FiveTuple → Option FiveTuple → ℕ → ℕ → ℕ → List ℕ → Bool × Handle → Option ℕ × Table
  unfolding fresh_session
  create_at t client server now_tick timeout idx rest (false, h) = (none, record t { hash = h })
  create_at t client server now_tick timeout idx rest (true, h) =
      let s = fresh_session client server now_tick timeout in
      (
        some idx,
        record t {
          hash = h;
          wheel = wheel_link (set_session t.wheel idx s) idx s.expire_tick;
          free = rest;
        },
      )

  unfoldable pub create_from :
      Table → FiveTuple → Option FiveTuple → ℕ → ℕ → List ℕ → Option ℕ × Table
  unfolding create_at add_keys
  create_from t client server now_tick timeout [] = (none, t)
  create_from t client server now_tick timeout (idx ∷ rest) =
      create_at t client server now_tick timeout idx rest (add_keys t.hash client server idx)

  unfoldable pub create : Table → FiveTuple → Option FiveTuple → ℕ → ℕ → Option ℕ × Table
  unfolding create_from
  create t client server now_tick timeout = create_from t client server now_tick timeout t.free

  unfoldable pub remove : Table → ℕ → Table
  remove t idx =
      let s = t.wheel.sessions idx in
      let h = hash_del t.hash s.client in
      let h' = if has s.flags sf_fullnat then hash_del h s.server else h in
      let unlinked = wheel_unlink t.wheel idx in
      record t {
        hash = h';
        wheel =
            set_session unlinked idx (record (unlinked.sessions idx) { wheel_prev = free_mark });
        free = idx ∷ t.free;
      }

  unfoldable pub touch : Table → ℕ → ℕ → ℕ → Table
  unfolding deadline
  touch t idx now_tick timeout =
      let exp = deadline now_tick timeout in
      let s = t.wheel.sessions idx in
      let moved =
        if ltb exp s.slot_tick
        then (if s.in_pending then t.wheel else wheel_link (wheel_unlink t.wheel idx) idx exp)
        else t.wheel in
      record t { wheel = set_session moved idx (record (moved.sessions idx) { expire_tick = exp }) }

  -- One pending session, already popped: removed if it has expired, else linked at its new tick.
  unfoldable pub settle_popped : Table → ℕ → ℕ × Wheel → Table × ℕ
  settle_popped t now_tick (idx, w) =
      if leb (w.sessions idx).expire_tick now_tick
      then (remove (record t { wheel = w }) idx, 1)
      else (record t { wheel = wheel_link w idx (w.sessions idx).expire_tick }, 0)

  unfoldable pub settle : Table → ℕ → Table × ℕ
  unfolding settle_popped
  settle t now_tick = settle_popped t now_tick (pending_pop t.wheel)

  -- The loop of `expire`: each round takes a slot or settles a session. The chain of a slot is no
  -- longer than the table's capacity.
  unfoldable pub expire_loop : ℕ → Table → ℕ → ℕ → ℕ → Table × ℕ
  unfolding settle take_slot
  expire_loop zero t now_tick budget removed = (t, removed)
  expire_loop (suc fuel) t now_tick zero removed = (t, removed)
  expire_loop (suc fuel) t now_tick (suc budget) removed =
      let taken =
        expire_loop fuel (record t { wheel = take_slot t.capacity t.wheel }) now_tick (suc budget)
          removed in
      let settled = settle t now_tick in
      let next = expire_loop fuel settled.0 now_tick budget (removed + settled.1) in
      if t.wheel.pending == nil
      then (if ltb now_tick t.wheel.cur_tick then (t, removed) else taken)
      else next

  -- Enough fuel for the slots up to `now_tick` and the budget of sessions.
  unfoldable pub expire : Table → ℕ → Table × ℕ
  unfolding expire_loop
  expire t now_tick =
      expire_loop (now_tick + 1 - t.wheel.cur_tick + expire_budget + 1) t now_tick expire_budget 0

  -- Sessions in use: `capacity_ - free_top_`.
  unfoldable pub active : Table → ℕ
  active t = t.capacity - length t.free
