-- ===== src/TcpState.antt =====
-- lb/tcp_state.h and lb/tcp_state.cpp (under include/ and src/): the simplified connection state
-- machine of a session. The flag masks are those of include/protocol/ip.h.
pub mod Rank
pub mod Fin
mod Tests
use l4_loadbalancer.Base.{
  ℕ, ◌≡◌, refl, Bool, true, false, not, ◌&&◌, ◌==◌, if◌then◌else◌, List, [], ◌∷◌, bit_or,
}
use l4_loadbalancer.Base.Bits.{has}
use l4_loadbalancer.Config.{TimeoutConf}
use Prim.Native.String.{String}

abbrev pub tcp_flag_fin : ℕ
tcp_flag_fin = 0x01

abbrev pub tcp_flag_syn : ℕ
tcp_flag_syn = 0x02

abbrev pub tcp_flag_rst : ℕ
tcp_flag_rst = 0x04

abbrev pub tcp_flag_ack : ℕ
tcp_flag_ack = 0x10

-- `count` is the enumeration's last value, which no session has.
pub data TcpState : Type 0 where
  none syn_recv established fin_wait time_wait close udp count : TcpState

pub data Dir : Type 0 where
  client_to_rs rs_to_client : Dir

pub tcp_state_name : TcpState → String
tcp_state_name none = "NONE"
tcp_state_name syn_recv = "SYN_RECV"
tcp_state_name established = "ESTABLISHED"
tcp_state_name fin_wait = "FIN_WAIT"
tcp_state_name time_wait = "TIME_WAIT"
tcp_state_name close = "CLOSE"
tcp_state_name udp = "UDP"
tcp_state_name count = "?"

-- The bit of `fin_seen` that belongs to the sender of the packet.
abbrev pub self_bit : Dir → ℕ
self_bit client_to_rs = 1
self_bit rs_to_client = 2

abbrev from_client : Dir → Bool
from_client client_to_rs = true
from_client rs_to_client = false

-- The `switch` of `tcp_next_state`, over the updated `fin_seen`.
pub transition : TcpState → ℕ → Dir → ℕ → TcpState
transition none flags dir fin_seen = if has flags tcp_flag_syn then syn_recv else none
transition syn_recv flags dir fin_seen =
    if from_client dir && (has flags tcp_flag_ack && not (has flags tcp_flag_syn))
    then (if fin_seen == 0 then established else fin_wait)
    else syn_recv
transition established flags dir fin_seen = if fin_seen == 0 then established else fin_wait
transition fin_wait flags dir fin_seen = if fin_seen == 3 then time_wait else fin_wait
transition cur flags dir fin_seen = cur

-- The new state, and `fin_seen` as it is left.
unfoldable pub tcp_next_state : TcpState → ℕ → Dir → ℕ → TcpState × ℕ
unfolding transition
tcp_next_state udp flags dir fin_seen = (udp, fin_seen)
tcp_next_state cur flags dir fin_seen =
    if has flags tcp_flag_rst
    then (close, fin_seen)
    else (let seen = if has flags tcp_flag_fin then bit_or fin_seen (self_bit dir) else fin_seen in
        (transition cur flags dir seen, seen))

unfoldable pub state_timeout : TcpState → TimeoutConf → ℕ
state_timeout none t = t.tcp_syn
state_timeout syn_recv t = t.tcp_syn
state_timeout established t = t.tcp_established
state_timeout fin_wait t = t.tcp_fin
state_timeout time_wait t = t.tcp_timewait
state_timeout close t = t.tcp_close
state_timeout udp t = t.udp
state_timeout count t = t.udp

-- A new SYN in such a state starts a new connection.
unfoldable pub tcp_state_reusable : TcpState → Bool
tcp_state_reusable time_wait = true
tcp_state_reusable close = true
tcp_state_reusable _ = false

-- The packets of one session, each with its flags and direction, from a state and `fin_seen`.
pub run : TcpState × ℕ → List (ℕ × Dir) → TcpState × ℕ
run s [] = s
run s ((flags, dir) ∷ ps) = run (tcp_next_state s.0 flags dir s.1) ps
