-- ===== src/Snat/Ends.antt =====
-- How `create_fullnat` ends: with a session, without a place for it in the table, or without a port.
use l4_loadbalancer.Base.{
  ℕ, ◌-◌, ◌*◌, ◌≤◌, ◌<◌, ◌≡◌, refl, inl, inr, false, ◌==◌, if◌then◌else◌, List, arith, Bool-cases,
  none, length, get_or, replicate, ◌++◌, length-append, length-replicate, ==_iff,
}
use l4_loadbalancer.Rte.{RteHash, RteHashLaws}
use l4_loadbalancer.Session.Table.{Table, lookup}
use l4_loadbalancer.Snat.Owned.{Owned}
use l4_loadbalancer.Snat.Refused.{Same}
use l4_loadbalancer.Snat.Search.{create_fullnat-Owned}
use l4_loadbalancer.Snat.{Worker, Target, Outcome, made, drop_no_port, create_fullnat, range}
use l4_loadbalancer.Steering.{Hashes, Steering, ret_by_rss}
use l4_loadbalancer.Types.{FiveTuple}
use l4_loadbalancer.Snat.Turns.{turn_of, UsedUp, lip_loop-full, lip_loop-no_port}

module _ (dpdk : Hashes) (ops : RteHash FiveTuple) (laws : RteHashLaws ops) (st : Steering)
    (client : FiveTuple) (rs : Target) (timeout : ℕ) where
  -- How many candidates are tried on an address.
  abbrev pub probes_of : ℕ
  probes_of = if ret_by_rss st client.protocol then 64 * st.workers else 64

  -- The outcome for a worker and its session table afterwards: with a session, it is one of `Owned`;
  -- with a full table, every key is answered as before; without a port, the table is the same, and on
  -- every address 64 candidates in a row were refused, or 64 for each worker where the card's hash
  -- decides.
  abbrev pub Ends : Worker ops.Handle → List ℕ → Outcome → Table ops → Type 0
  Ends w lips (made i) after =
      (li : ℕ) × (li < length lips)
      × Owned dpdk ops laws st client rs timeout w.idx w.sessions (get_or lips li 0) i after
  Ends w lips Outcome.drop_table_full after =
      Same dpdk ops laws st client rs timeout w.sessions after
  Ends w lips drop_no_port after =
      (after ≡ w.sessions)
      × ((li : ℕ)
          → li < length lips
          → UsedUp dpdk ops laws st client rs timeout w.idx w.sessions (get_or lips li 0) probes_of)

  create_fullnat-full :
      (w : Worker ops.Handle) (lips : List ℕ)
      → lookup ops w.sessions client ≡ none
      → (create_fullnat dpdk ops st w lips client rs timeout).0 ≡ Outcome.drop_table_full
      → Ends w lips Outcome.drop_table_full
          (create_fullnat dpdk ops st w lips client rs timeout).1.sessions
  unfolding create_fullnat
  create_fullnat-full w lips free e = elim (Bool-cases (length lips == 0)) [
    | inl z ↦ cc (rw z at e)
    | inr nz ↦ rw nz (
        lip_loop-full dpdk ops laws st client rs timeout (length lips) 0 _ lips probes_of free
          (rw nz at e))
  ]

  create_fullnat-no_port :
      (w : Worker ops.Handle) (lips : List ℕ)
      → (create_fullnat dpdk ops st w lips client rs timeout).0 ≡ drop_no_port
      → Ends w lips drop_no_port (create_fullnat dpdk ops st w lips client rs timeout).1.sessions
  unfolding create_fullnat
  create_fullnat-no_port w lips e = elim (Bool-cases (length lips == 0)) [
    | inl z ↦ rw z (refl, λ li h. absurd (omega (arith, h, (==_iff (length lips) 0).0 z)))
    | inr nz ↦
        let missing = length lips - length w.lip_cursor in
        let cursors = length-append w.lip_cursor (replicate missing 0) in
        let (same, used) =
          lip_loop-no_port dpdk ops laws st client rs timeout (length lips) 0
            (record w { lip_cursor = w.lip_cursor ++ replicate missing 0 }) lips probes_of
            (some_lip nz) (omega (arith, cursors, length-replicate {A = ℕ} missing 0))
            (rw nz at e) in
        rw nz (
          same,
          λ li h.
              let (n, lt, turn) = turn_of w.lip_rr (length lips) li h in
              rw turn at (used n (omega arith) (omega (arith, lt))),
        )
  ]
    where
      some_lip : (length lips == 0) ≡ false → 0 < length lips
      some_lip nz = ground arith

  -- A worker that is one of the workers of the steering, no more than there are SNAT ports, is asked for
  -- a session for a client that has none. If it makes one, then on one of the local addresses, with a
  -- port of the SNAT range whose return tuple was not in use; the packets of the real server belong to
  -- this very worker, and they and those of the client find the session. If it reports a full table, every
  -- key is answered as before and the wheel and the free stack are the same. If it reports no port, the
  -- table is the same, and on every local address 64 candidates in a row (64 for each worker where the
  -- card's hash decides) are above the range, belong to another worker or have a return tuple in use.
  pub create_fullnat-Ends :
      (w : Worker ops.Handle) (lips : List ℕ)
      → w.idx < st.workers
      → st.workers ≤ range
      → lookup ops w.sessions client ≡ none
      → Ends w lips
          (create_fullnat dpdk ops st w lips client rs timeout).0
          (create_fullnat dpdk ops st w lips client rs timeout).1.sessions
  create_fullnat-Ends w lips own few free =
      by_outcome (create_fullnat dpdk ops st w lips client rs timeout).0 refl
    where
      by_outcome :
          (o : Outcome)
          → (create_fullnat dpdk ops st w lips client rs timeout).0 ≡ o
          → Ends w lips o (create_fullnat dpdk ops st w lips client rs timeout).1.sessions
      by_outcome (made i) e =
          create_fullnat-Owned dpdk ops laws st client rs timeout w lips i own few free e
      by_outcome Outcome.drop_table_full e = create_fullnat-full w lips free e
      by_outcome drop_no_port e = create_fullnat-no_port w lips e
