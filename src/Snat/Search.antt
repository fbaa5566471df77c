-- ===== src/Snat/Search.antt =====
-- The session that `create_fullnat` makes comes back to the worker that made it.
use l4_loadbalancer.Base.{
  ℕ, zero, suc, ◌+◌, ◌*◌, ◌/◌, ◌%◌, ◌^◌, ◌≤◌, ◌<◌, ◌≡◌, refl, sym, ◌∙◌, ap, inl, inr, ◌⊎◌, false,
  ◌==◌, if◌then◌else◌, List, arith, Bool-cases, ==_iff, Option, none, some, length, get_or, set,
}
use l4_loadbalancer.Checksum.{htons}
use l4_loadbalancer.Config.{nat_port_min}
use l4_loadbalancer.Rte.{RteHash, RteHashLaws}
use l4_loadbalancer.Session.Table.{Table, lookup}
use l4_loadbalancer.Snat.Port.{candidate-range, candidate-mod}
use l4_loadbalancer.Snat.{
  Worker, Target, Outcome, made, candidate, server_tuple, try_port, probe_loop, lip_loop, after_try,
  end_or, create_fullnat, range,
}
use l4_loadbalancer.Steering.{Hashes, Steering, port_step, ret_by_rss, ret_owner}
use l4_loadbalancer.Types.{FiveTuple}
use native.Mathlib.Nat.{mod-lt, div-add-mod'}
use l4_loadbalancer.Snat.Owned.{Owned, try_port-Owned}

swap_twice : (p : ℕ) → p < 2 ^ 16 → htons (htons p) ≡ p
unfolding htons
swap_twice p h = omega arith

div_pos : (n d : ℕ) → d ≤ n → 0 < d → 0 < n / d
div_pos n d le h = elim (zero_or (n / d)) [
  | inr p ↦ p
  | inl z ↦ absurd (omega (arith, div-add-mod' n d, ap (λ x. x * d) z, mod-lt n h))
]
  where
    zero_or : (q : ℕ) → (q ≡ 0) ⊎ (0 < q)
    zero_or q = omega arith

module _ (dpdk : Hashes) (ops : RteHash FiveTuple) (laws : RteHashLaws ops) (st : Steering)
    (client : FiveTuple) (rs : Target) (timeout : ℕ) where
  pub after-made :
      (tried : Option (Outcome × Worker ops.Handle)) (w : Worker ops.Handle)
      (rest : Option (Outcome × Worker ops.Handle) × Worker ops.Handle)
      (r : Outcome × Worker ops.Handle)
      → (after_try dpdk ops st tried w rest).0 ≡ some r
      → (tried ≡ some r) ⊎ (rest.0 ≡ some r)
  after-made none w rest r e = inr e
  after-made (some end) w rest r e = inl e

  module _ (idx : ℕ) (own : idx < st.workers) (few : st.workers ≤ range) where
    step : ℕ
    step = port_step st client.protocol

    step_bounds : (0 < step) × (step ≤ range)
    unfolding step port_step
    step_bounds = ground (arith, own, few)

    probe_lt : (cur : ℕ) → cur % (range / step) < range / step
    probe_lt cur = mod-lt cur (div_pos range step step_bounds.1 step_bounds.0)

    step_plain : ret_by_rss st client.protocol ≡ false → step ≡ st.workers
    unfolding step port_step
    step_plain rss = rw rss refl

    ret_plain :
        (lip port : ℕ)
        → ret_by_rss st client.protocol ≡ false
        → ret_owner dpdk st (server_tuple rs lip port client.protocol)
          ≡ (if st.workers == 1 then 0 else htons (htons port) % st.workers)
    unfolding ret_owner server_tuple
    ret_plain lip port rss = simp rss

    own_port :
        (lip k : ℕ)
        → k < range / step
        → ret_by_rss st client.protocol ≡ false
        → ret_owner dpdk st (server_tuple rs lip (candidate idx step k) client.protocol) ≡ idx
    own_port lip k lt rss =
        ret_plain lip (candidate idx step k) rss ∙ elim (Bool-cases (st.workers == 1)) [
          | inl e ↦ rw e (omega (arith, (==_iff st.workers 1).0 e, own))
          | inr e ↦
              rw
                (
                  e,
                  swap_twice (candidate idx step k)
                      (omega (arith, (candidate-range idx step k step_bounds.0 lt).1)),
                )
                (ap (λ n. candidate idx step k % n) (sym (step_plain rss))
                  ∙ candidate-mod idx step k (many e) (rw (step_plain rss) own) lt)
        ]
      where
        many : (st.workers == 1) ≡ false → 1 < step
        many e = rw (step_plain rss) (ground (arith, own))

    probe_loop-Owned :
        (probes : ℕ) (w w2 : Worker ops.Handle) (li lip i : ℕ)
        → w.idx ≡ idx
        → lookup ops w.sessions client ≡ none
        → (probe_loop dpdk ops st probes w client rs timeout li lip).0 ≡ some (made i, w2)
        → Owned dpdk ops laws st client rs timeout idx w.sessions lip i w2.sessions
    unfolding probe_loop step
    probe_loop-Owned zero w w2 li lip i same free e = cc e
    probe_loop-Owned (suc probes) w w2 li lip i same free e =
        elim (after-made (try_port dpdk ops st w' client rs timeout li lip port) w' _ (made i, w2)
          e) [
            | inl tried ↦ rw same at (
                try_port-Owned dpdk ops laws st client rs timeout w' w2 li lip port i low rule free
                  tried)
            | inr later ↦ probe_loop-Owned probes w' w2 li lip i same free later
          ]
      where
        k : ℕ
        k = get_or w.lip_cursor li 0 % (range / step)

        port : ℕ
        port = candidate w.idx step k

        w' : Worker ops.Handle
        w' = record w { lip_cursor = set w.lip_cursor li ((get_or w.lip_cursor li 0 + 1) % 2 ^ 32) }

        low : nat_port_min ≤ port
        low = (candidate-range w.idx step k step_bounds.0 (probe_lt _)).0

        rule :
            ret_by_rss st client.protocol ≡ false
            → ret_owner dpdk st (server_tuple rs lip port client.protocol) ≡ w.idx
        rule rss = rw same (own_port lip k (probe_lt _) rss)

    -- Probes change no session and no field of the worker but the cursors.
    probe_loop-keeps :
        (probes : ℕ) (w : Worker ops.Handle) (li lip : ℕ)
        → ((probe_loop dpdk ops st probes w client rs timeout li lip).1.sessions ≡ w.sessions)
          × ((probe_loop dpdk ops st probes w client rs timeout li lip).1.idx ≡ w.idx)
    unfolding probe_loop
    probe_loop-keeps zero w li lip = (refl, refl)
    probe_loop-keeps (suc probes) w li lip =
        kept (try_port dpdk ops st _ client rs timeout li lip _) _ _
          (probe_loop-keeps probes _ li lip)
      where
        kept :
            (tried : Option (Outcome × Worker ops.Handle)) (w' : Worker ops.Handle)
            (rest : Option (Outcome × Worker ops.Handle) × Worker ops.Handle)
            → (rest.1.sessions ≡ w'.sessions) × (rest.1.idx ≡ w'.idx)
            → ((after_try dpdk ops st tried w' rest).1.sessions ≡ w'.sessions)
              × ((after_try dpdk ops st tried w' rest).1.idx ≡ w'.idx)
        kept none w' rest h = h
        kept (some end) w' rest h = (refl, refl)

    abbrev Found : List ℕ → ℕ → Table ops → Outcome × Worker ops.Handle → Type 0
    Found lips i before end =
        (li : ℕ) × (li < length lips)
        × Owned dpdk ops laws st client rs timeout idx before (get_or lips li 0) i end.1.sessions

    lip_loop-Owned :
        (left n : ℕ) (w : Worker ops.Handle) (lips : List ℕ) (probes i : ℕ)
        → 0 < length lips
        → w.idx ≡ idx
        → lookup ops w.sessions client ≡ none
        → (lip_loop dpdk ops st left n w client rs timeout lips probes).0 ≡ made i
        → Found lips i w.sessions (lip_loop dpdk ops st left n w client rs timeout lips probes)
    unfolding lip_loop
    lip_loop-Owned zero n w lips probes i some_lip same free e = cc e
    lip_loop-Owned (suc left) n w lips probes i some_lip same free e =
        split
          (λ same' free' f.
            lip_loop-Owned left (n + 1) searched.1 lips probes i some_lip same' free' f)
          searched.0 refl e
      where
        li : ℕ
        li = (w.lip_rr + n) % length lips

        searched : Option (Outcome × Worker ops.Handle) × Worker ops.Handle
        searched = probe_loop dpdk ops st probes w client rs timeout li (get_or lips li 0)

        rest : Outcome × Worker ops.Handle
        rest = lip_loop dpdk ops st left (n + 1) searched.1 client rs timeout lips probes

        split :
            (searched.1.idx ≡ idx
              → lookup ops searched.1.sessions client ≡ none
              → rest.0 ≡ made i
              → Found lips i searched.1.sessions rest)
            → (ended : Option (Outcome × Worker ops.Handle)) → searched.0 ≡ ended
            → (end_or dpdk ops st ended rest).0 ≡ made i
            → Found lips i w.sessions (end_or dpdk ops st ended rest)
        split later none q f =
            let (kept, kept_idx) = probe_loop-keeps probes w li (get_or lips li 0) in
            rw kept at (later (kept_idx ∙ same) (rw kept free) f)
        split later (some (o, w2)) q f = (
          li,
          mod-lt (w.lip_rr + n) some_lip,
          probe_loop-Owned probes w w2 li (get_or lips li 0) i same free
              (q ∙ ap (λ (x : Outcome). some (x, w2)) f),
        )

  -- A worker that is one of the workers of the steering (no more than there are SNAT ports), asked
  -- for a session for a client that has none: if it makes one, then on one of the local addresses,
  -- with a port of the SNAT range that the return tuple was not in use with; the packets of the
  -- real server belong to this very worker, and they and the client's find the session.
  pub create_fullnat-Owned :
      (w : Worker ops.Handle) (lips : List ℕ) (i : ℕ)
      → w.idx < st.workers
      → st.workers ≤ range
      → lookup ops w.sessions client ≡ none
      → (create_fullnat dpdk ops st w lips client rs timeout).0 ≡ made i
      → (li : ℕ) × (li < length lips)
        × Owned dpdk ops laws st client rs timeout w.idx w.sessions
            (get_or lips li 0)
            i
            (create_fullnat dpdk ops st w lips client rs timeout).1.sessions
  unfolding create_fullnat
  create_fullnat-Owned w lips i own few free e = elim (Bool-cases (length lips == 0)) [
    | inl z ↦ cc (rw z at e)
    | inr nz ↦ rw nz (
        lip_loop-Owned w.idx own few (length lips) 0 _ lips _ i (some_lip nz) refl free
          (rw nz at e))
  ]
    where
      some_lip : (length lips == 0) ≡ false → 0 < length lips
      some_lip nz = ground arith
