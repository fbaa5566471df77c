-- ===== src/Session.antt =====
-- include/lb/session.h and src/lb/session.cpp: the session table of a worker. An array is a
-- function of its index; the free stack is the list of its entries from the top; a `Session *` is
-- the session's index. The allocations of `init` are taken to succeed, and rte_hash is a parameter.

pub mod Table
pub mod Chain
pub mod Invariant
pub mod Unlink
pub mod Push
mod Tests
use l4_loadbalancer.Base.{
  ℕ, zero, suc, ◌+◌, ◌-◌, ◌%◌, ◌^◌, Bool, true, false, ◌&&◌, not, ◌==◌, ltb, leb, if◌then◌else◌,
  List, [], ◌∷◌, Option, none, some, bit_or, length,
}
use l4_loadbalancer.Base.Bits.{has}
use l4_loadbalancer.Rte.{RteHash}
use l4_loadbalancer.TcpState.{TcpState}
use l4_loadbalancer.Types.{FiveTuple, no_tuple, MacAddr, zero_mac}

abbrev pub nil : ℕ
nil = 2 ^ 32 - 1

-- `wheel_prev` of a session that is not in use.
abbrev pub free_mark : ℕ
free_mark = 2 ^ 32 - 2

abbrev pub wheel_slots : ℕ
wheel_slots = 4096

abbrev pub expire_budget : ℕ
expire_budget = 4096

abbrev pub sf_toa_pending : ℕ
sf_toa_pending = 0x01

abbrev pub sf_fullnat : ℕ
sf_fullnat = 0x02

pub record Session : Type 0 where
  pub client : FiveTuple
  pub server : FiveTuple
  pub rs_id : ℕ
  pub svc_idx : ℕ
  pub state : TcpState
  pub fin_seen : ℕ
  pub flags : ℕ
  pub rs_mac : MacAddr
  pub cli_mac : MacAddr
  pub cli_src_mac : MacAddr
  pub rs_mac_gen : ℕ
  pub cli_mac_gen : ℕ
  pub created_tick : ℕ
  pub expire_tick : ℕ
  pub pkts_in : ℕ
  pub bytes_in : ℕ
  pub pkts_out : ℕ
  pub bytes_out : ℕ
  pub slot_tick : ℕ
  pub wheel_prev : ℕ
  pub wheel_next : ℕ
  pub in_pending : Bool

-- `Session{}`.
abbrev pub blank : Session
blank = record {
  client = no_tuple;
  server = no_tuple;
  rs_id = 0;
  svc_idx = 0;
  state = TcpState.none;
  fin_seen = 0;
  flags = 0;
  rs_mac = zero_mac;
  cli_mac = zero_mac;
  cli_src_mac = zero_mac;
  rs_mac_gen = 0;
  cli_mac_gen = 0;
  created_tick = 0;
  expire_tick = 0;
  pkts_in = 0;
  bytes_in = 0;
  pkts_out = 0;
  bytes_out = 0;
  slot_tick = 0;
  wheel_prev = 0;
  wheel_next = 0;
  in_pending = false;
}

-- The lists of the timing wheel: the part of the table that the wheel functions work on.
pub record Wheel : Type 0 where
  pub sessions : ℕ → Session
  pub slots : ℕ → ℕ
  pub pending : ℕ
  pub cur_tick : ℕ

-- A write to an array.
abbrev pub update {ℓ} : {A : Type ℓ} → (ℕ → A) → ℕ → A → ℕ → A
update f i v j = if i == j then v else f j

abbrev pub set_session : Wheel → ℕ → Session → Wheel
set_session w i s = record w { sessions = update w.sessions i s }

-- `tick & (kWheelSlots - 1)`.
abbrev pub slot_of : ℕ → ℕ
slot_of tick = tick % wheel_slots

abbrev pub set_prev : Wheel → ℕ → ℕ → Wheel
set_prev w i p = set_session w i (record (w.sessions i) { wheel_prev = p })

abbrev pub set_next : Wheel → ℕ → ℕ → Wheel
set_next w i n = set_session w i (record (w.sessions i) { wheel_next = n })

-- The tick is not before the one that is processed next.
unfoldable pub link_tick : Wheel → ℕ → ℕ
link_tick w tick = if ltb tick w.cur_tick then w.cur_tick else tick

unfoldable pub wheel_link : Wheel → ℕ → ℕ → Wheel
unfolding link_tick
wheel_link w idx tick =
    let t = link_tick w tick in
    let head = w.slots (slot_of t) in
    let linked = set_session w idx (record (w.sessions idx) {
      slot_tick = t;
      in_pending = false;
      wheel_prev = nil;
      wheel_next = head;
    }) in
    let backed = if head == nil then linked else set_prev linked head idx in
    record backed { slots = update backed.slots (slot_of t) idx }

-- `head = s.wheel_next` for the list that the session is on.
unfoldable pub set_head : Wheel → ℕ → ℕ → Wheel
set_head w idx next =
    if (w.sessions idx).in_pending
    then record w { pending = next }
    else record w { slots = update w.slots (slot_of (w.sessions idx).slot_tick) next }

unfoldable pub wheel_unlink : Wheel → ℕ → Wheel
unfolding set_head
wheel_unlink w idx =
    let p = (w.sessions idx).wheel_prev in
    let n = (w.sessions idx).wheel_next in
    let forward = if p == nil then set_head w idx n else set_next w p n in
    let both = if n == nil then forward else set_prev forward n p in
    set_session both idx (record (both.sessions idx) { wheel_prev = nil; wheel_next = nil })

unfoldable pub pending_push : Wheel → ℕ → Wheel
pending_push w idx =
    let pushed =
      set_session w idx
        (record (w.sessions idx) { in_pending = true; wheel_prev = nil; wheel_next = w.pending }) in
    let backed = if w.pending == nil then pushed else set_prev pushed w.pending idx in
    record backed { pending = idx }

-- The index, and the wheel without it.
unfoldable pub pending_pop : Wheel → ℕ × Wheel
unfolding wheel_unlink
pending_pop w =
    let idx = w.pending in
    let unlinked = wheel_unlink w idx in
    (idx, set_session unlinked idx (record (unlinked.sessions idx) { in_pending = false }))
