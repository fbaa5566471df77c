-- ===== src/Snat.antt =====
-- `create_fullnat` of src/core/processor.cpp: a worker takes a source port of a local address for a
-- new session, so that the packets of the real server come back to this worker. The cursors have
-- been resized to the number of local addresses where the loops start.
pub mod Port
pub mod Owned
pub mod Search
pub mod Refused
pub mod Turns
pub mod Ends
mod Tests
use l4_loadbalancer.Base.{
  ℕ, zero, suc, ◌+◌, ◌-◌, ◌*◌, ◌/◌, ◌%◌, ◌^◌, Bool, true, false, ◌&&◌, not, ◌==◌, ltb,
  if◌then◌else◌, List, [], ◌∷◌, ◌++◌, Option, none, some, length, get_or, set, replicate,
}
use l4_loadbalancer.Checksum.{htons}
use l4_loadbalancer.Config.{nat_port_min, nat_port_max}
use l4_loadbalancer.Rte.{RteHash}
use l4_loadbalancer.Session.Table.{SessionTable, create, key_in_use}
use l4_loadbalancer.Steering.{Hashes, Steering, port_step, ret_by_rss, ret_owner}
use l4_loadbalancer.Types.{FiveTuple}

-- The real server's address and port, as the new session uses them.
pub record Target : Type 0 where
  pub ip : ℕ
  pub port_be : ℕ

-- The fields of `WorkerCtx` that `create_fullnat` reads and writes.
pub record Worker (Handle : Type 0) : Type 0 where
  pub idx : ℕ
  pub sessions : SessionTable Handle
  pub lip_cursor : List ℕ
  pub lip_rr : ℕ
  pub now_tick : ℕ

-- The index of the session, or the reason why there is none.
pub data Outcome : Type 0 where
  made : ℕ → Outcome
  drop_no_port drop_table_full : Outcome

abbrev pub range : ℕ
range = nat_port_max - nat_port_min + 1

-- The `k`-th candidate of the worker `idx`.
unfoldable pub candidate : ℕ → ℕ → ℕ → ℕ
candidate idx step k =
    (nat_port_min
      + k * step
      + (if ltb 1 step then (idx + step - nat_port_min % step) % step else 0))
    % 2 ^ 16

unfoldable pub server_tuple : Target → ℕ → ℕ → ℕ → FiveTuple
unfolding htons
server_tuple rs lip port proto = record {
  src_ip = rs.ip;
  dst_ip = lip;
  src_port = rs.port_be;
  dst_port = htons port;
  protocol = proto;
}

module _ (dpdk : Hashes) (ops : RteHash FiveTuple) (st : Steering) where
  -- What a probe does with a port: nothing, or the end of the search.
  unfoldable pub try_port :
      Worker ops.Handle → FiveTuple → Target → ℕ → ℕ → ℕ → ℕ → Option (Outcome × Worker ops.Handle)
  unfolding server_tuple
  try_port w client rs timeout li lip port =
      let server = server_tuple rs lip port client.protocol in
      let (session, sessions) = create ops w.sessions client (some server) w.now_tick timeout in
      if ltb nat_port_max port
      then none
      else (if ret_by_rss st client.protocol && not (ret_owner dpdk st server == w.idx)
          then none
          else (if key_in_use ops w.sessions server then none else elim session [
            | none ↦ some (Outcome.drop_table_full, record w { sessions = sessions })
            | some i ↦ some (made i, record w { sessions = sessions; lip_rr = (li + 1) % 2 ^ 32 })
          ]))

  -- The search ends with a session or a full table, and goes on otherwise.
  abbrev pub after_try :
      Option (Outcome × Worker ops.Handle)
      → Worker ops.Handle
      → Option (Outcome × Worker ops.Handle) × Worker ops.Handle
      → Option (Outcome × Worker ops.Handle) × Worker ops.Handle
  after_try none w rest = rest
  after_try (some end) w rest = (some end, w)

  abbrev pub end_or :
      Option (Outcome × Worker ops.Handle)
      → Outcome × Worker ops.Handle
      → Outcome × Worker ops.Handle
  end_or none rest = rest
  end_or (some end) rest = end

  -- The probes on one local address, `probes` at most.
  unfoldable pub probe_loop :
      ℕ
      → Worker ops.Handle
      → FiveTuple
      → Target
      → ℕ
      → ℕ
      → ℕ
      → Option (Outcome × Worker ops.Handle) × Worker ops.Handle
  unfolding try_port candidate
  probe_loop zero w client rs timeout li lip = (none, w)
  probe_loop (suc probes) w client rs timeout li lip =
      let step = port_step st client.protocol in
      let cur = get_or w.lip_cursor li 0 in
      let k = cur % (range / step) in
      let w' = record w { lip_cursor = set w.lip_cursor li ((cur + 1) % 2 ^ 32) } in
      let rest = probe_loop probes w' client rs timeout li lip in
      let tried = try_port w' client rs timeout li lip (candidate w.idx step k) in
      after_try tried w' rest

  -- The local addresses from the `n`-th after `lip_rr` on.
  unfoldable pub lip_loop :
      ℕ → ℕ → Worker ops.Handle → FiveTuple → Target → ℕ → List ℕ → ℕ → Outcome × Worker ops.Handle
  unfolding probe_loop
  lip_loop zero n w client rs timeout lips probes = (drop_no_port, w)
  lip_loop (suc left) n w client rs timeout lips probes =
      let li = (w.lip_rr + n) % length lips in
      let (ended, w') = probe_loop probes w client rs timeout li (get_or lips li 0) in
      let rest = lip_loop left (n + 1) w' client rs timeout lips probes in end_or ended rest

  unfoldable pub create_fullnat :
      Worker ops.Handle → List ℕ → FiveTuple → Target → ℕ → Outcome × Worker ops.Handle
  unfolding lip_loop
  create_fullnat w lips client rs timeout =
      let missing = length lips - length w.lip_cursor in
      let w' = record w { lip_cursor = w.lip_cursor ++ replicate missing 0 } in
      let probes = if ret_by_rss st client.protocol then 64 * st.workers else 64 in
      if length lips == 0
      then (drop_no_port, w)
      else lip_loop (length lips) 0 w' client rs timeout lips probes
