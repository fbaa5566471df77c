-- ===== src/TcpState/Tests.antt =====
-- Runs of the connection state machine, and its theorems at concrete packets.
use l4_loadbalancer.Base.{ℕ, ◌≤◌, ◌≡◌, refl, true, List, [], ◌∷◌, arith}
use l4_loadbalancer.TcpState.Fin.{
  IsConsistent, run-IsConsistent, seen_fin, time_wait_needs_both_fins,
}
use l4_loadbalancer.TcpState.Rank.{rank, rank-run}
use l4_loadbalancer.TcpState.{
  none, fin_wait, time_wait, Dir, client_to_rs, rs_to_client, run, tcp_next_state,
}

-- A handshake, data, and a close from both sides; the peer's last ACK comes after.
abbrev session : List (ℕ × Dir)
session =
    (0x02, client_to_rs)
    ∷ (0x12, rs_to_client)
    ∷ (0x10, client_to_rs)
    ∷ (0x18, client_to_rs)
    ∷ (0x11, client_to_rs)
    ∷ (0x11, rs_to_client)
    ∷ []

session_ends : run (none, 0) session ≡ (time_wait, 3)
unfolding run tcp_next_state
session_ends = refl

-- The peer acknowledges the FIN and sends none: the session stays in FIN_WAIT.
acked_fin :
    run
      (none, 0)
      ((0x02, client_to_rs)
        ∷ (0x10, client_to_rs)
        ∷ (0x11, client_to_rs)
        ∷ (0x10, rs_to_client)
        ∷ [])
    ≡ (fin_wait, 1)
unfolding run tcp_next_state
acked_fin = refl

rank-run_example : rank none ≤ rank (run (none, 0) session).0
rank-run_example = rank-run (none, 0) session

run-IsConsistent_example : IsConsistent (run (none, 0) session)
run-IsConsistent_example = run-IsConsistent (none, 0) session (ground arith)

time_wait_needs_both_fins_example :
    (seen_fin client_to_rs session ≡ true) × (seen_fin rs_to_client session ≡ true)
time_wait_needs_both_fins_example = time_wait_needs_both_fins session 3 session_ends
