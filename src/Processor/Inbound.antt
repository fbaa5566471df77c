-- ===== src/Processor/Inbound.antt =====
-- `handle_inbound` of src/core/processor.cpp: the packets of a client.
use l4_loadbalancer.Base.{
  ℕ, Bool, true, false, not, ◌||◌, ◌&&◌, ◌==◌, if◌then◌else◌, bit_or, bit_and, Option, none, some,
}
use l4_loadbalancer.Base.Bits.{has}
use l4_loadbalancer.Header.{mac_at}
use l4_loadbalancer.Mbuf.{Mbuf}
use l4_loadbalancer.Parser.{PacketMeta, to_five_tuple}
use l4_loadbalancer.Processor.Create.{Opened, opened, refused, new_session, is_nat, or_no_rs}
use l4_loadbalancer.Processor.Resolve.{
  Ctx, St, add_if, not_owned, session_of, put_session, resolve_rs_mac, count_fwd_in, close_session,
  update_state,
}
use l4_loadbalancer.Processor.{
  Platform, Dataplane, Stat, Result, send, drop, stat_add, add_stat, set_ctx,
}
use l4_loadbalancer.Rewrite.Nat.{
  NatRewrite, NatOptions, RewriteResult, RewriteOutcome, no_outcome, nat_rewrite, dr_rewrite,
}
use l4_loadbalancer.Session.Table.{lookup}
use l4_loadbalancer.Session.{Session, sf_toa_pending}
use l4_loadbalancer.Snapshot.{RsState, Service, Snapshot, rs_of, usable}
use l4_loadbalancer.Steering.{fwd_owner, rss_hash, l4_hashed}
use l4_loadbalancer.TcpState.{
  TcpState, Dir, tcp_flag_syn, tcp_flag_ack, tcp_flag_rst, tcp_state_reusable,
}
use l4_loadbalancer.Types.{FiveTuple, MacAddr}

-- A SYN that is neither an answer nor a reset.
unfoldable pub is_syn : PacketMeta → Bool
is_syn meta =
    meta.ip_protocol == 6
    && bit_and meta.tcp_flags (bit_or (bit_or tcp_flag_syn tcp_flag_ack) tcp_flag_rst)
      == tcp_flag_syn

abbrev pub reusable_by : Bool → TcpState → Bool
reusable_by syn state = syn && tcp_state_reusable state

abbrev pub count_in : Session → ℕ → Session
count_in s len = record s { pkts_in = stat_add s.pkts_in 1; bytes_in = stat_add s.bytes_in len }

-- Client -> VIP becomes LIP -> RS.
unfoldable pub inbound_rewrite : Session → MacAddr → MacAddr → NatRewrite
inbound_rewrite s src_mac dst_mac = record {
  src_ip = s.server.dst_ip;
  dst_ip = s.server.src_ip;
  src_port = s.server.dst_port;
  dst_port = s.server.src_port;
  src_mac = src_mac;
  dst_mac = dst_mac;
}

module _ (p : Platform) (dp : Dataplane p.neigh_hash.Handle) where
  -- A check of the card's hash, on SYNs only.
  unfoldable pub check_rss : Ctx p dp → Mbuf → FiveTuple → Bool → Ctx p dp
  unfolding add_stat l4_hashed rss_hash
  check_rss w m tuple checked =
      let computed = rss_hash p.hashes dp.steering tuple (l4_hashed dp.steering 6) in
      let mismatch = add_if p dp (not (m.rss == computed)) w Stat.rss_mismatch in
      if checked && dp.steering.hw
      then (if has m.ol_flags p.dpdk.rx_rss_hash then mismatch else add_stat w Stat.rss_no_hash)
      else w

  unfoldable pub inbound_options : Session → PacketMeta → NatOptions
  inbound_options s meta = record {
    strip_ts = meta.ip_protocol == 6 && dp.strip_tcp_timestamp;
    add_toa =
        has s.flags sf_toa_pending && not (has meta.tcp_flags (bit_or tcp_flag_syn tcp_flag_rst));
    toa_ip = s.client.src_ip;
    toa_port = s.client.src_port;
    tx_offloads = dp.tx_offloads;
    mtu = dp.mtu;
  }

  abbrev pub count_outcome : Ctx p dp → RewriteOutcome → Ctx p dp
  count_outcome w out =
      add_if p dp out.toa_no_room
        (add_if p dp out.toa_added (add_if p dp out.ts_stripped w Stat.ts_stripped) Stat.toa_added)
        Stat.toa_no_room

  abbrev pub close_if : Bool → Ctx p dp → ℕ → Ctx p dp
  close_if is_new w i = if is_new then close_session p dp w i else w

  -- What `nat_rewrite` made of an inbound packet.
  abbrev pub finish_inbound :
      St p dp → ℕ → Bool → RewriteResult × Mbuf × PacketMeta × RewriteOutcome → Result × St p dp
  finish_inbound st i is_new (RewriteResult.ttl_exceeded, m, meta, out) =
      (drop Stat.drop_ttl, record st { ctx = close_if is_new st.ctx i; mbuf = m })
  finish_inbound st i is_new (RewriteResult.ok, m, meta, out) =
      (send, record st { ctx = count_fwd_in p dp (count_outcome st.ctx out) i m; mbuf = m })

  unfoldable pub send_inbound :
      St p dp → PacketMeta → ℕ → Bool → Option MacAddr × Ctx p dp → Result × St p dp
  unfolding nat_rewrite dr_rewrite count_fwd_in close_session inbound_rewrite inbound_options
  send_inbound st meta i is_new (none, w) =
      (drop Stat.drop_no_neigh, set_ctx st (close_if is_new w i))
  send_inbound st meta i is_new (some rs_mac, w) =
      let s = session_of p dp w i in
      let direct = dr_rewrite st.mbuf dp.local_mac rs_mac in
      let rewritten =
        nat_rewrite p.dpdk st.mbuf meta (inbound_rewrite s dp.local_mac rs_mac)
          (inbound_options s meta) no_outcome in
      if is_nat st.snap.mode
      then finish_inbound (set_ctx st w) i is_new rewritten
      else (send, record st { ctx = count_fwd_in p dp w i direct; mbuf = direct })

  -- From the session on, old or new.
  unfoldable pub forward_inbound : St p dp → PacketMeta → ℕ → RsState → Bool → Result × St p dp
  unfolding update_state resolve_rs_mac send_inbound
  forward_inbound st meta i rs is_new =
      let w = update_state p dp st.ctx i meta.tcp_flags Dir.client_to_rs in
      let w' = put_session p dp w i (count_in (session_of p dp w i) st.mbuf.pkt_len) in
      send_inbound st meta i is_new (resolve_rs_mac p dp w' i rs)

  abbrev pub after_new : St p dp → PacketMeta → Opened × Ctx p dp × Snapshot → Result × St p dp
  after_new st meta (refused fail, w, snap) = (drop fail, record st { ctx = w; snap = snap })
  after_new st meta (opened i, w, snap) =
      forward_inbound (record st { ctx = w; snap = snap }) meta i
        (or_no_rs (rs_of snap (session_of p dp w i).rs_id)) true

  -- Only a SYN opens a TCP connection.
  unfoldable pub open_inbound : St p dp → Service → PacketMeta → Result × St p dp
  unfolding is_syn new_session forward_inbound rs_of to_five_tuple
  open_inbound st svc meta =
      let made = new_session p dp st.ctx st.snap svc (to_five_tuple meta) (mac_at st.mbuf.mem 6) in
      if meta.ip_protocol == 6 && not (is_syn meta)
      then (drop Stat.drop_no_session, st)
      else after_new st meta made

  -- The old session is closed where its real server is gone or its ports are used again.
  unfoldable pub replace_inbound : St p dp → Service → PacketMeta → ℕ → Bool → Result × St p dp
  unfolding close_session open_inbound is_syn
  replace_inbound st svc meta i rs_down =
      let st' = set_ctx st (close_session p dp st.ctx i) in
      if not (is_syn meta) && meta.ip_protocol == 6
      then (drop (if rs_down then Stat.drop_rs_down else Stat.drop_no_session), st')
      else open_inbound st' svc meta

  unfoldable pub inbound_found :
      St p dp → Service → PacketMeta → ℕ → Option RsState → Result × St p dp
  unfolding replace_inbound forward_inbound usable tcp_state_reusable
  inbound_found st svc meta i none = replace_inbound st svc meta i false
  inbound_found st svc meta i (some rs) =
      let reuse = reusable_by (is_syn meta) (session_of p dp st.ctx i).state in
      if not (usable rs) || reuse
      then replace_inbound st svc meta i (not reuse)
      else forward_inbound st meta i rs false

  abbrev pub inbound_lookup : St p dp → Service → PacketMeta → Option ℕ → Result × St p dp
  inbound_lookup st svc meta none = open_inbound st svc meta
  inbound_lookup st svc meta (some i) =
      inbound_found st svc meta i (rs_of st.snap (session_of p dp st.ctx i).rs_id)

  unfoldable pub handle_inbound : St p dp → Service → PacketMeta → Bool → Result × St p dp
  unfolding check_rss inbound_found open_inbound lookup fwd_owner to_five_tuple rs_of is_syn
  handle_inbound st svc meta redirected =
      let tuple = to_five_tuple meta in
      let owner = fwd_owner p.hashes dp.steering tuple in
      let checked = check_rss st.ctx st.mbuf tuple (is_syn meta && not redirected) in
      let st' = set_ctx st checked in
      if owner == st.ctx.idx
      then inbound_lookup st' svc meta (lookup p.session_hash st'.ctx.sessions tuple)
      else not_owned p dp redirected owner st
