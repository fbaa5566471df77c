-- ===== src/Processor/Resolve.antt =====
-- The helpers at the top of src/core/processor.cpp: port ranges, next hops, counters, and the steps
-- that end a session or move it to its next state.
use l4_loadbalancer.Base.{
  ℕ, Bool, true, false, ◌||◌, ◌&&◌, ◌==◌, leb, if◌then◌else◌, bit_and, Option, none, some,
}
use l4_loadbalancer.Checksum.{htons}
use l4_loadbalancer.Config.{nat_port_min, nat_port_max, hc_port_min, hc_port_max}
use l4_loadbalancer.Mbuf.{Mbuf}
use l4_loadbalancer.Neigh.{neigh_lookup, next_hop, on_link}
use l4_loadbalancer.Processor.{
  Platform, Dataplane, WorkerCtx, Stat, ByteStat, MasterEventType, MasterEvent, stat_add, add_stat,
  add_bytes, Result, drop, redirect, State, post_master_event, set_rs_stats, set_worker,
}
use l4_loadbalancer.Session.Table.{remove, touch}
use l4_loadbalancer.Session.{Session, set_session}
use l4_loadbalancer.Snapshot.{RsState}
use l4_loadbalancer.TcpState.{TcpState, Dir, tcp_next_state, state_timeout}
use l4_loadbalancer.Types.{MacAddr, zero_mac, mac_is_zero}

unfoldable pub in_nat_range : ℕ → Bool
unfolding htons
in_nat_range port_be = let p = htons port_be in leb nat_port_min p && leb p nat_port_max

unfoldable pub in_hc_range : ℕ → Bool
unfolding htons
in_hc_range port_be = let p = htons port_be in leb hc_port_min p && leb p hc_port_max

-- `EV_NEIGH_MISS`.
abbrev pub miss_event : ℕ → MasterEvent
miss_event ip = record {
  type = MasterEventType.neigh_miss;
  tcp_flags = 0;
  port = 0;
  ip = ip;
  seq = 0;
  ack = 0;
  mac = zero_mac;
  aux = 0;
}

abbrev pub is_udp_state : TcpState → Bool
is_udp_state TcpState.udp = true
is_udp_state _ = false

module _ (p : Platform) (dp : Dataplane p.neigh_hash.Handle) where
  abbrev pub Ctx : Type 0
  Ctx = WorkerCtx p.session_hash.Handle

  abbrev pub St : Type 0
  St = State p.session_hash.Handle

  abbrev pub add_if : Bool → Ctx → Stat → Ctx
  add_if b w id = if b then add_stat w id else w

  -- The packet of a worker that does not own it.
  abbrev pub not_owned : Bool → ℕ → St → Result × St
  not_owned redirected owner st = (if redirected then drop Stat.drop_other else redirect owner, st)

  unfoldable pub cksum_bad : Mbuf → Bool
  cksum_bad m =
      bit_and m.ol_flags p.dpdk.rx_ip_cksum_mask == p.dpdk.rx_ip_cksum_bad
      || bit_and m.ol_flags p.dpdk.rx_l4_cksum_mask == p.dpdk.rx_l4_cksum_bad

  unfoldable pub request_neigh : Ctx → ℕ → Ctx
  unfolding post_master_event
  request_neigh w ip = post_master_event w (miss_event ip)

  -- `*s` for the session at an index, and an assignment to its fields.
  abbrev pub session_of : Ctx → ℕ → Session
  session_of w i = w.worker.sessions.wheel.sessions i

  abbrev pub put_session : Ctx → ℕ → Session → Ctx
  put_session w i s =
      let t = w.worker.sessions in
      set_worker w (record w.worker { sessions = record t { wheel = set_session t.wheel i s } })

  -- The address if there is one, and the cache as it is left.
  unfoldable pub resolve_mac : Ctx → ℕ → MacAddr → ℕ → MacAddr → Option MacAddr × MacAddr × ℕ × Ctx
  unfolding request_neigh
  resolve_mac w hop cache cache_gen fallback =
      let gen = dp.neigh.gen in
      let missed = if hop == 0 then w else request_neigh w hop in
      let spare = if mac_is_zero fallback then none else some fallback in
      if cache_gen == gen
      then (some cache, cache, cache_gen, w)
      else elim (if hop == 0 then none else neigh_lookup p.neigh_hash dp.neigh hop) [
        | some mac ↦ (some mac, mac, gen, w)
        | none ↦ (spare, cache, cache_gen, missed)
      ]

  unfoldable pub resolve_rs_mac : Ctx → ℕ → RsState → Option MacAddr × Ctx
  unfolding resolve_mac next_hop
  resolve_rs_mac w i rs =
      let s = session_of w i in
      let (out, cache, gen, w') =
        resolve_mac w (next_hop dp.route rs.ip) s.rs_mac s.rs_mac_gen zero_mac in
      if mac_is_zero rs.mac
      then (out, put_session w' i (record s { rs_mac = cache; rs_mac_gen = gen }))
      else (some rs.mac, w)

  -- A client on the same network can be answered at the address that its first packet came from.
  unfoldable pub resolve_client_mac : Ctx → ℕ → Option MacAddr × Ctx
  unfolding resolve_mac next_hop on_link
  resolve_client_mac w i =
      let s = session_of w i in
      let cip = s.client.src_ip in
      let fallback = if on_link dp.route cip then s.cli_src_mac else zero_mac in
      let (out, cache, gen, w') =
        resolve_mac w (next_hop dp.route cip) s.cli_mac s.cli_mac_gen fallback in
      (out, put_session w' i (record s { cli_mac = cache; cli_mac_gen = gen }))

  unfoldable pub count_fwd_in : Ctx → ℕ → Mbuf → Ctx
  unfolding add_stat add_bytes
  count_fwd_in w i m =
      let id = (session_of w i).rs_id in
      let w' = add_bytes (add_stat w Stat.fwd_in) ByteStat.bytes_fwd_in m.pkt_len in
      let c = w'.rs_stats id in
      set_rs_stats w' id
        (record c { pkts_in = stat_add c.pkts_in 1; bytes_in = stat_add c.bytes_in m.pkt_len })

  unfoldable pub count_fwd_out : Ctx → ℕ → Mbuf → Ctx
  unfolding add_stat add_bytes
  count_fwd_out w i m =
      let id = (session_of w i).rs_id in
      let w' = add_bytes (add_stat w Stat.fwd_out) ByteStat.bytes_fwd_out m.pkt_len in
      let c = w'.rs_stats id in
      set_rs_stats w' id
        (record c { pkts_out = stat_add c.pkts_out 1; bytes_out = stat_add c.bytes_out m.pkt_len })

  unfoldable pub close_session : Ctx → ℕ → Ctx
  unfolding remove add_stat
  close_session w i =
      let closed = remove p.session_hash w.worker.sessions i in
      add_stat (set_worker w (record w.worker { sessions = closed })) Stat.sess_closed

  -- The session with its next state, and its new deadline.
  abbrev pub next_session : Session → ℕ → Dir → Session
  next_session s flags dir =
      let (state, fin_seen) = tcp_next_state s.state flags dir s.fin_seen in
      if is_udp_state s.state then s else record s { state = state; fin_seen = fin_seen }

  unfoldable pub update_state : Ctx → ℕ → ℕ → Dir → Ctx
  unfolding tcp_next_state touch state_timeout
  update_state w i flags dir =
      let s = next_session (session_of w i) flags dir in
      let w' = put_session w i s in
      let touched =
        touch p.session_hash w'.worker.sessions i w.now_tick (state_timeout s.state dp.timeouts) in
      set_worker w' (record w'.worker { sessions = touched })
