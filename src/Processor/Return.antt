-- ===== src/Processor/Return.antt =====
-- `handle_return` of src/core/processor.cpp: the packets of a real server under FULLNAT.
use l4_loadbalancer.Base.{
  ℕ, ◌-◌, ◌^◌, Bool, false, not, ◌||◌, ◌&&◌, ◌==◌, if◌then◌else◌, bit_and, Option, none, some,
}
use l4_loadbalancer.Base.Bits.{has}
use l4_loadbalancer.Mbuf.{Mbuf}
use l4_loadbalancer.Parser.{PacketMeta, to_five_tuple}
use l4_loadbalancer.Processor.Resolve.{
  Ctx, St, not_owned, session_of, put_session, resolve_client_mac, count_fwd_out, close_session,
  update_state,
}
use l4_loadbalancer.Processor.{Platform, Dataplane, Stat, Result, send, drop, stat_add, set_ctx}
use l4_loadbalancer.Rewrite.Nat.{
  NatRewrite, NatOptions, RewriteResult, RewriteOutcome, no_outcome, nat_rewrite,
}
use l4_loadbalancer.Session.Table.{lookup}
use l4_loadbalancer.Session.{Session, sf_toa_pending, sf_fullnat}
use l4_loadbalancer.Snapshot.{RsState, rs_of, usable}
use l4_loadbalancer.Steering.{ret_owner}
use l4_loadbalancer.TcpState.{Dir, tcp_flag_syn}
use l4_loadbalancer.Types.{FiveTuple, MacAddr, tuple_eq}

-- `s->flags &= ~SF_TOA_PENDING`, on a `uint8_t`.
abbrev pub clear_toa : Session → ℕ → Session
clear_toa s tcp_flags = record s {
  flags =
      if has s.flags sf_toa_pending && not (has tcp_flags tcp_flag_syn)
      then bit_and s.flags (2 ^ 8 - 1 - sf_toa_pending)
      else s.flags;
}

abbrev pub count_out : Session → ℕ → Session
count_out s len = record s {
  pkts_out = stat_add s.pkts_out 1;
  bytes_out = stat_add s.bytes_out len;
}

-- RS -> LIP becomes VIP -> client.
unfoldable pub return_rewrite : Session → MacAddr → MacAddr → NatRewrite
return_rewrite s src_mac dst_mac = record {
  src_ip = s.client.dst_ip;
  dst_ip = s.client.src_ip;
  src_port = s.client.dst_port;
  dst_port = s.client.src_port;
  src_mac = src_mac;
  dst_mac = dst_mac;
}

module _ (p : Platform) (dp : Dataplane p.neigh_hash.Handle) where
  -- `NatOptions` with the defaults of its other fields.
  unfoldable pub return_options : NatOptions
  return_options = record {
    strip_ts = false;
    add_toa = false;
    toa_ip = 0;
    toa_port = 0;
    tx_offloads = dp.tx_offloads;
    mtu = dp.mtu;
  }

  abbrev pub finish_return :
      St p dp → ℕ → RewriteResult × Mbuf × PacketMeta × RewriteOutcome → Result × St p dp
  finish_return st i (RewriteResult.ttl_exceeded, m, meta, out) =
      (drop Stat.drop_ttl, record st { mbuf = m })
  finish_return st i (RewriteResult.ok, m, meta, out) =
      (send, record st { ctx = count_fwd_out p dp st.ctx i m; mbuf = m })

  unfoldable pub send_return :
      St p dp → PacketMeta → ℕ → Option MacAddr × Ctx p dp → Result × St p dp
  unfolding nat_rewrite count_fwd_out return_rewrite return_options
  send_return st meta i (none, w) = (drop Stat.drop_no_neigh, set_ctx st w)
  send_return st meta i (some cli_mac, w) =
      let rw_to = return_rewrite (session_of p dp w i) dp.local_mac cli_mac in
      finish_return (set_ctx st w) i
        (nat_rewrite p.dpdk st.mbuf meta rw_to return_options no_outcome)

  unfoldable pub forward_return : St p dp → PacketMeta → ℕ → Result × St p dp
  unfolding update_state resolve_client_mac send_return
  forward_return st meta i =
      let w = update_state p dp st.ctx i meta.tcp_flags Dir.rs_to_client in
      let s = clear_toa (session_of p dp w i) meta.tcp_flags in
      let w' = put_session p dp w i (count_out s st.mbuf.pkt_len) in
      send_return st meta i (resolve_client_mac p dp w' i)

  unfoldable pub return_found : St p dp → PacketMeta → ℕ → Option RsState → Result × St p dp
  unfolding forward_return close_session usable
  return_found st meta i none = (drop Stat.drop_rs_down, set_ctx st (close_session p dp st.ctx i))
  return_found st meta i (some rs) =
      if usable rs
      then forward_return st meta i
      else (drop Stat.drop_rs_down, set_ctx st (close_session p dp st.ctx i))

  -- The session is one of FULLNAT, and the packet has its server tuple.
  abbrev pub return_lookup : St p dp → PacketMeta → FiveTuple → Option ℕ → Result × St p dp
  return_lookup st meta tuple none = (drop Stat.drop_no_session, st)
  return_lookup st meta tuple (some i) =
      let s = session_of p dp st.ctx i in
      if not (has s.flags sf_fullnat) || not (tuple_eq s.server tuple)
      then (drop Stat.drop_no_session, st)
      else return_found st meta i (rs_of st.snap s.rs_id)

  unfoldable pub handle_return : St p dp → PacketMeta → Bool → Result × St p dp
  unfolding return_found lookup ret_owner to_five_tuple tuple_eq rs_of
  handle_return st meta redirected =
      let tuple = to_five_tuple meta in
      let owner = ret_owner p.hashes dp.steering tuple in
      if owner == st.ctx.idx
      then return_lookup st meta tuple (lookup p.session_hash st.ctx.sessions tuple)
      else not_owned p dp redirected owner st
