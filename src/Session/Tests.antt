-- ===== src/Session/Tests.antt =====
-- A small session table over an association list, and the theorems at it.
use l4_loadbalancer.Base.{
  ℕ, ◌<◌, ◌+◌, ◌-◌, ◌≤◌, ◌≡◌, ◌≢◌, refl, none, some, List, [], ◌∷◌, Bool-cases, ◌==◌, inl, inr,
  arith,
}
use l4_loadbalancer.Rte.Assoc.{assoc, assoc-laws}
use l4_loadbalancer.Rte.{RteHash}
use l4_loadbalancer.Session.Chain.{In, NotIn}
use l4_loadbalancer.Session.Invariant.Agree.{OnList}
use l4_loadbalancer.Session.Invariant.Link.{wheel_link-IsWheel}
use l4_loadbalancer.Session.Invariant.Pending.{pending_push-IsWheel}
use l4_loadbalancer.Session.Invariant.{IsWheel, IsApart}
use l4_loadbalancer.Session.Table.Expire.{expire-WellFormed, expire-fuel}
use l4_loadbalancer.Session.Table.Index.{Created, create-Created, lookup-remove, IsKey, server_key}
use l4_loadbalancer.Session.Table.Init.{init-IsTable, init-WellFormed}
use l4_loadbalancer.Session.Table.Lists.{IsTable, WellFormed}
use l4_loadbalancer.Session.Table.Orphan.{settle_clears_slot}
use l4_loadbalancer.Session.Table.Preserve.{create-WellFormed, remove-WellFormed, touch-WellFormed}
use l4_loadbalancer.Session.Table.{
  Table, init, create, lookup, remove, touch, settle, expire, expire_loop,
}
use l4_loadbalancer.Session.{
  Wheel, nil, pending_push, pending_pop, wheel_link, link_tick, update, expire_budget,
}
use l4_loadbalancer.Types.Laws.{tuple_eq_iff}
use l4_loadbalancer.Types.{FiveTuple, tuple_eq}

abbrev ops : RteHash FiveTuple
ops = assoc tuple_eq 16

abbrev client : FiveTuple
client = record { src_ip = 1; dst_ip = 2; src_port = 3; dst_port = 4; protocol = 6 }

abbrev server : FiveTuple
server = record { src_ip = 5; dst_ip = 6; src_port = 7; dst_port = 8; protocol = 6 }

abbrev empty : Table ops
empty = init ops [] 4 1

abbrev one : Table ops
one = (create ops empty client (some server) 1 5).1

program : Unit {0}
unfolding init create lookup remove touch settle expire tuple_eq wheel_link pending_push pending_pop
program = tt

-- Timeout 5 from tick 1: alive at tick 6, gone at tick 7.
one_found : lookup ops one server ≡ some 0
unfolding program
one_found = refl

one_alive : (expire ops one 6).1 ≡ 0
unfolding program
one_alive = refl

one_expires : (expire ops one 7).1 ≡ 1
unfolding program
one_expires = refl

-- Session 1 hangs on slot 0 for tick 4096, and session 0, from the same slot, is pending.
abbrev no_chains : ℕ → List ℕ
no_chains s = []

empty_wheel : IsWheel empty.wheel no_chains []
empty_wheel = (init-IsTable ops [] 4 1 (omega arith)).on_wheel

abbrev two_chains : ℕ → List ℕ
two_chains = update no_chains 0 (1 ∷ [])

two_apart : (k : ℕ) → k ≢ 1 → (s : ℕ) → NotIn k (two_chains s)
two_apart k ne s = elim (Bool-cases (0 == s)) [ inl e ↦ rw e (ne, tt) | inr e ↦ rw e tt ]

two_In : (j s : ℕ) → In j (two_chains s) → j ≡ 1
two_In j s m = elim (Bool-cases (0 == s)) [
  | inl e ↦ elim (rw e at m) [ inl q ↦ q | inr z ↦ absurd z ]
  | inr e ↦ absurd (rw e at m)
]

two_free-In : (i : ℕ) → In i (2 ∷ 3 ∷ []) → (2 ≤ i) × (i < 4)
two_free-In i (inl e) = (omega arith, omega arith)
two_free-In i (inr (inl e)) = (omega arith, omega arith)
two_free-In i (inr (inr z)) = absurd z

linked_wheel : IsWheel (wheel_link empty.wheel 1 4096) two_chains []
unfolding program link_tick
linked_wheel =
    wheel_link-IsWheel empty.wheel 1 4096 no_chains [] empty_wheel
      ((λ e. omega arith), (λ s. tt), tt)

abbrev two_wheel : Wheel
two_wheel = pending_push (wheel_link empty.wheel 1 4096) 0

two_IsWheel : IsWheel two_wheel two_chains (0 ∷ [])
two_IsWheel =
    pending_push-IsWheel (wheel_link empty.wheel 1 4096) 0 two_chains [] linked_wheel
      ((λ e. omega arith), two_apart 0 (λ e. omega arith), tt)

abbrev two : Table ops
two = record { hash = []; wheel = two_wheel; free = 2 ∷ 3 ∷ []; capacity = 4 }

two_used : (j : ℕ) → OnList j two_chains (0 ∷ []) → j < 2
two_used j (inl (s, m)) = omega (arith, two_In j s m)
two_used j (inr (inl e)) = omega arith
two_used j (inr (inr z)) = absurd z

two-IsTable : IsTable ops two two_chains (0 ∷ [])
two-IsTable = record {
  on_wheel = two_IsWheel;
  free_distinct = ((λ e. omega arith), ((λ e. omega arith), tt), ((λ e. omega arith), tt, tt));
  free_apart = two_free;
  free_small = λ i m. omega (arith, two_free-In i m);
  used_small = λ j m. omega (arith, two_used j m);
}
  where
    two_free : (i : ℕ) → In i (2 ∷ 3 ∷ []) → IsApart i two_chains (0 ∷ [])
    two_free i m = (
      (λ e. omega (arith, two_free-In i m)),
      two_apart i (λ e. omega (arith, two_free-In i m)),
      ((λ e. omega (arith, two_free-In i m)), tt),
    )

two-WellFormed : WellFormed ops two
two-WellFormed = (two_chains, 0 ∷ [], two-IsTable)

init-WellFormed_example : WellFormed ops (init ops [] 4 1)
init-WellFormed_example = init-WellFormed ops [] 4 1 (omega arith)

create-WellFormed_example : WellFormed ops (create ops two client (some server) 1 5).1
create-WellFormed_example = create-WellFormed ops two client (some server) 1 5 two-WellFormed

remove-WellFormed_example : WellFormed ops (remove ops two 0)
remove-WellFormed_example =
    remove-WellFormed ops two two_chains (0 ∷ []) 0 two-IsTable (inr (inl refl))

touch-WellFormed_example : WellFormed ops (touch ops two 1 1 5)
touch-WellFormed_example =
    touch-WellFormed ops two two_chains (0 ∷ []) 1 1 5 two-IsTable (inl (0, inl refl))

expire-WellFormed_example : WellFormed ops (expire ops two 4096).0
expire-WellFormed_example = expire-WellFormed ops two 4096 two-WellFormed

expire-fuel_example :
    expire_loop ops (9 + 1 - two.wheel.cur_tick + expire_budget + 1 + 7) two 9 expire_budget 0
    ≡ expire ops two 9
expire-fuel_example = expire-fuel ops two 9 7 (omega arith)

settle_clears_slot_example : (settle ops two 4000).0.wheel.slots 0 ≡ nil
unfolding program
settle_clears_slot_example =
    settle_clears_slot ops two two_chains 0 [] 4000 two-IsTable (omega arith)

create-Created_example :
    Created ops
      (assoc-laws tuple_eq tuple_eq_iff 16)
      empty
      client
      (some server)
      empty.free
      (create ops empty client (some server) 1 5)
unfolding program
create-Created_example =
    create-Created ops (assoc-laws tuple_eq tuple_eq_iff 16) empty client (some server) 1 5 refl

lookup-remove_example :
    (¬ IsKey ops
        (assoc-laws tuple_eq tuple_eq_iff 16)
        (one.wheel.sessions 0).client
        (server_key ops (assoc-laws tuple_eq tuple_eq_iff 16) (one.wheel.sessions 0))
        server
      → lookup ops (remove ops one 0) server ≡ lookup ops one server)
    × (IsKey ops
          (assoc-laws tuple_eq tuple_eq_iff 16)
          (one.wheel.sessions 0).client
          (server_key ops (assoc-laws tuple_eq tuple_eq_iff 16) (one.wheel.sessions 0))
          server
        → lookup ops (remove ops one 0) server ≡ none)
lookup-remove_example = lookup-remove ops (assoc-laws tuple_eq tuple_eq_iff 16) one 0 server
