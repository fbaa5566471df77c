-- ===== src/TcpState/Rank.antt =====
-- The order in which a TCP session goes through its states.
use l4_loadbalancer.Base.{ℕ, ◌≤◌, arith, List, [], ◌∷◌}
use l4_loadbalancer.TcpState.{
  TcpState, none, syn_recv, established, fin_wait, time_wait, close, udp, count, Dir,
  tcp_next_state, run,
}

-- The position of a state on the way from the handshake to the end.
abbrev pub rank : TcpState → ℕ
rank none = 0
rank syn_recv = 1
rank established = 2
rank fin_wait = 3
rank time_wait = 4
rank close = 5
rank udp = 0
rank count = 0

rank-tcp_next_state :
    (s : TcpState) (flags : ℕ) (dir : Dir) (fin : ℕ)
    → rank s ≤ rank (tcp_next_state s flags dir fin).0
unfolding tcp_next_state
rank-tcp_next_state udp flags dir fin = ground arith
rank-tcp_next_state s flags dir fin = ground arith

-- Whatever packets arrive, in whatever order and direction, a session never goes back to an
-- earlier state of NONE, SYN_RECV, ESTABLISHED, FIN_WAIT, TIME_WAIT, CLOSE.
pub rank-run : (s : TcpState × ℕ) (ps : List (ℕ × Dir)) → rank s.0 ≤ rank (run s ps).0
unfolding run
rank-run s [] = omega arith
rank-run s ((flags, dir) ∷ ps) =
    omega
      (arith, rank-tcp_next_state s.0 flags dir s.1, rank-run (tcp_next_state s.0 flags dir s.1) ps)
