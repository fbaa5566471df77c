-- ===== src/TcpState/Fin.antt =====
-- What `fin_seen` says of the packets that a session has seen.
use l4_loadbalancer.Base.{
  ℕ, zero, suc, ◌+◌, ◌*◌, ◌/◌, ◌%◌, ◌<◌, ◌≡◌, refl, ◌≢◌, ◌⊎◌, inl, inr, Bool, true, false, not,
  ◌&&◌, ◌||◌, sym, ap, arith, List, [], ◌∷◌, bit_or,
}
use l4_loadbalancer.Base.Bits.{has}
use l4_loadbalancer.TcpState.{
  TcpState, none, established, fin_wait, time_wait, udp, Dir, client_to_rs, rs_to_client,
  tcp_next_state, tcp_flag_fin, tcp_flag_rst, run,
}

-- The bit of a direction in `fin_seen`.
abbrev bit_of : Dir → ℕ → ℕ
bit_of client_to_rs fin = fin % 2
bit_of rs_to_client fin = fin / 2

-- The table of `fin_seen |= self` over the two bits.
bit_or-one : (f : ℕ) → f < 4 → bit_or f 1 ≡ f / 2 * 2 + 1
bit_or-one zero h = refl
bit_or-one (suc zero) h = refl
bit_or-one (suc (suc zero)) h = refl
bit_or-one (suc (suc (suc zero))) h = refl
bit_or-one (suc (suc (suc (suc f)))) h = absurd (omega arith)

bit_or-two : (f : ℕ) → f < 4 → bit_or f 2 ≡ 2 + f % 2
bit_or-two zero h = refl
bit_or-two (suc zero) h = refl
bit_or-two (suc (suc zero)) h = refl
bit_or-two (suc (suc (suc zero))) h = refl
bit_or-two (suc (suc (suc (suc f)))) h = absurd (omega arith)

-- What the states promise about `fin_seen`.
pub record IsConsistent (s : TcpState × ℕ) : Type 0 where
  pub two_bits : s.1 < 4
  pub open_established : s.0 ≡ established → s.1 ≡ 0
  pub closing_fin_wait : s.0 ≡ fin_wait → 0 < s.1
  pub both_time_wait : s.0 ≡ time_wait → s.1 ≡ 3

tcp_next_state-IsConsistent :
    (s : TcpState) (fin flags : ℕ) (dir : Dir)
    → IsConsistent (s, fin)
    → IsConsistent (tcp_next_state s flags dir fin)
unfolding tcp_next_state
tcp_next_state-IsConsistent udp fin flags client_to_rs v = ground (arith, bit_or-one fin v.two_bits)
tcp_next_state-IsConsistent s fin flags client_to_rs v = ground (arith, bit_or-one fin v.two_bits)
tcp_next_state-IsConsistent s fin flags rs_to_client v = ground (arith, bit_or-two fin v.two_bits)

-- Starting from a state that keeps these promises, every sequence of packets keeps them.
pub run-IsConsistent :
    (s : TcpState × ℕ) (ps : List (ℕ × Dir)) → IsConsistent s → IsConsistent (run s ps)
unfolding run
run-IsConsistent s [] v = v
run-IsConsistent s ((flags, dir) ∷ ps) v =
    run-IsConsistent (tcp_next_state s.0 flags dir s.1) ps
      (tcp_next_state-IsConsistent s.0 s.1 flags dir v)

abbrev same_dir : Dir → Dir → Bool
same_dir client_to_rs client_to_rs = true
same_dir rs_to_client rs_to_client = true
same_dir _ _ = false

-- The sender of the direction has sent a FIN, in a packet that was no RST.
abbrev pub seen_fin : Dir → List (ℕ × Dir) → Bool
seen_fin d [] = false
seen_fin d ((flags, dir) ∷ ps) =
    (same_dir d dir && (has flags tcp_flag_fin && not (has flags tcp_flag_rst))) || seen_fin d ps

-- A packet sets the bit of its sender only, and only with a FIN.
bit_of-step :
    (d : Dir) (s : TcpState) (fin flags : ℕ) (dir : Dir)
    → fin < 4
    → bit_of d (tcp_next_state s flags dir fin).1 ≡ 1
    → (bit_of d fin ≡ 1)
      ⊎ ((same_dir d dir && (has flags tcp_flag_fin && not (has flags tcp_flag_rst))) ≡ true)
unfolding tcp_next_state
bit_of-step client_to_rs udp fin flags dir h e = ground arith
bit_of-step client_to_rs s fin flags client_to_rs h e = ground (arith, bit_or-one fin h)
bit_of-step client_to_rs s fin flags rs_to_client h e = ground (arith, bit_or-two fin h)
bit_of-step rs_to_client udp fin flags dir h e = ground arith
bit_of-step rs_to_client s fin flags client_to_rs h e = ground (arith, bit_or-one fin h)
bit_of-step rs_to_client s fin flags rs_to_client h e = ground (arith, bit_or-two fin h)

bit_of-run :
    (d : Dir) (s : TcpState × ℕ) (ps : List (ℕ × Dir))
    → IsConsistent s
    → bit_of d (run s ps).1 ≡ 1
    → (bit_of d s.1 ≡ 1) ⊎ (seen_fin d ps ≡ true)
unfolding run
bit_of-run d s [] v e = inl e
bit_of-run d s ((flags, dir) ∷ ps) v e =
    elim (bit_of-run d (tcp_next_state s.0 flags dir s.1) ps
      (tcp_next_state-IsConsistent s.0 s.1 flags dir v) e) [
        | inr later ↦ inr (rw later (ground arith))
        | inl now ↦ elim (bit_of-step d s.0 s.1 flags dir v.two_bits now) [
          | inl before ↦ inl before
          | inr here ↦ inr (rw here refl)
        ]
      ]

-- A session that starts at the first SYN and ends in TIME_WAIT has seen a FIN from the client and
-- a FIN from the real server.
pub time_wait_needs_both_fins :
    (ps : List (ℕ × Dir)) (fin : ℕ)
    → run (none, 0) ps ≡ (time_wait, fin)
    → (seen_fin client_to_rs ps ≡ true) × (seen_fin rs_to_client ps ≡ true)
time_wait_needs_both_fins ps fin e = (
  needed client_to_rs (rw (← full) refl) (λ z. omega arith),
  needed rs_to_client (rw (← full) refl) (λ z. omega arith),
)
  where
    start : IsConsistent (none, 0)
    start = ground arith

    full : 3 ≡ (run (none, 0) ps).1
    full =
        sym
          ((run-IsConsistent (none, 0) ps start).both_time_wait (ap (λ (s : TcpState × ℕ). s.0) e))

    needed : (d : Dir) → bit_of d (run (none, 0) ps).1 ≡ 1 → bit_of d 0 ≢ 1 → seen_fin d ps ≡ true
    needed d b z = elim (bit_of-run d (none, 0) ps start b) [ inl h ↦ absurd (z h) | inr h ↦ h ]

abbrev all_client : List (ℕ × Dir) → Bool
all_client [] = true
all_client ((flags, dir) ∷ ps) = same_dir client_to_rs dir && all_client ps

all_client-seen_fin :
    (ps : List (ℕ × Dir)) → all_client ps ≡ true → seen_fin rs_to_client ps ≡ false
all_client-seen_fin [] h = refl
all_client-seen_fin ((flags, client_to_rs) ∷ ps) h = all_client-seen_fin ps h
all_client-seen_fin ((flags, rs_to_client) ∷ ps) h = cc

-- Where only the client's packets are seen, as in direct routing, no session reaches TIME_WAIT: a
-- closed connection stays in FIN_WAIT until its timeout, or goes to CLOSE by a RST.
pub client_only-never_time_wait :
    (ps : List (ℕ × Dir)) → all_client ps ≡ true → (run (none, 0) ps).0 ≢ time_wait
client_only-never_time_wait ps h e = cc (
  all_client-seen_fin ps h,
  (time_wait_needs_both_fins ps (run (none, 0) ps).1 (λ i. (e i, (run (none, 0) ps).1))).1,
)
