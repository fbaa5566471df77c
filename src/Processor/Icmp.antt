-- ===== src/Processor/Icmp.antt =====
-- The ICMP handlers of src/core/processor.cpp: errors about packets that the balancer has forwarded, and
-- echo requests for an address of its own.
use l4_loadbalancer.Base.{
  ℕ, ◌+◌, ◌-◌, Bool, ◌&&◌, ◌==◌, if◌then◌else◌, List, [], ◌∷◌, Option, none, some,
}
use l4_loadbalancer.Header.{Memory, le32, icmp_is_error, mac_at}
use l4_loadbalancer.Mbuf.{Mbuf, bytes_at, write, put32, set_mem}
use l4_loadbalancer.Parser.{PacketMeta, IcmpErrorInfo, parse_icmp_error}
use l4_loadbalancer.Processor.Create.{is_nat}
use l4_loadbalancer.Processor.Resolve.{
  Ctx, St, not_owned, session_of, in_nat_range, resolve_rs_mac, resolve_client_mac,
}
use l4_loadbalancer.Processor.{Platform, Dataplane, Stat, Result, send, drop, add_stat, set_ctx}
use l4_loadbalancer.Reply.{handle_echo_request}
use l4_loadbalancer.Rewrite.Nat.{
  RewriteResult, nat_rewrite_icmp_error, dr_rewrite, clear_tx_offload, ip_checksum, set_macs,
}
use l4_loadbalancer.Session.Table.{lookup}
use l4_loadbalancer.Snapshot.{RsState, Snapshot, rs_of, is_vip, is_lip}
use l4_loadbalancer.Steering.{fwd_owner, ret_owner}
use l4_loadbalancer.Types.{FiveTuple, MacAddr, reverse_tuple, tuple_eq}

module _ (p : Platform) (dp : Dataplane p.neigh_hash.Handle) where
  abbrev pub finish_error : St p dp → RewriteResult × Mbuf → Result × St p dp
  finish_error st (RewriteResult.ttl_exceeded, m) = (drop Stat.drop_ttl, record st { mbuf = m })
  finish_error st (RewriteResult.ok, m) =
      (send, record st { ctx = add_stat st.ctx Stat.icmp_err_fwd; mbuf = m })

  -- To the client: outside VIP -> client, inside client -> VIP.
  unfoldable pub send_to_client :
      St p dp → PacketMeta → IcmpErrorInfo → ℕ → Option MacAddr × Ctx p dp → Result × St p dp
  unfolding nat_rewrite_icmp_error add_stat
  send_to_client st meta info i (none, w) = (drop Stat.drop_no_neigh, set_ctx st w)
  send_to_client st meta info i (some mac, w) =
      let s = session_of p dp w i in
      finish_error (set_ctx st w) (
        nat_rewrite_icmp_error st.mbuf meta info s.client.dst_ip s.client.src_ip s.client
          dp.local_mac mac)

  unfoldable pub error_of_rs_side :
      St p dp → PacketMeta → IcmpErrorInfo → FiveTuple → Option ℕ → Result × St p dp
  unfolding send_to_client resolve_client_mac tuple_eq
  error_of_rs_side st meta info key none = (drop Stat.drop_no_session, st)
  error_of_rs_side st meta info key (some i) =
      if tuple_eq (session_of p dp st.ctx i).server key
      then send_to_client st meta info i (resolve_client_mac p dp st.ctx i)
      else (drop Stat.drop_no_session, st)

  -- To the real server: outside LIP -> RS, inside RS -> LIP; under direct routing as it is.
  unfoldable pub send_to_rs :
      St p dp → PacketMeta → IcmpErrorInfo → ℕ → Option MacAddr × Ctx p dp → Result × St p dp
  unfolding nat_rewrite_icmp_error dr_rewrite add_stat
  send_to_rs st meta info i (none, w) = (drop Stat.drop_no_neigh, set_ctx st w)
  send_to_rs st meta info i (some mac, w) =
      let s = session_of p dp w i in
      let rewritten =
        nat_rewrite_icmp_error st.mbuf meta info s.server.dst_ip s.server.src_ip s.server
          dp.local_mac mac in
      if is_nat st.snap.mode then finish_error (set_ctx st w) rewritten else (
        send,
        record st {
          ctx = add_stat w Stat.icmp_err_fwd;
          mbuf = dr_rewrite st.mbuf dp.local_mac mac;
        },
      )

  abbrev pub error_with_rs :
      St p dp → PacketMeta → IcmpErrorInfo → ℕ → Option RsState → Result × St p dp
  error_with_rs st meta info i none = (drop Stat.drop_no_neigh, st)
  error_with_rs st meta info i (some rs) =
      send_to_rs st meta info i (resolve_rs_mac p dp st.ctx i rs)

  unfoldable pub error_of_client_side :
      St p dp → PacketMeta → IcmpErrorInfo → FiveTuple → Option ℕ → Result × St p dp
  unfolding send_to_rs resolve_rs_mac rs_of tuple_eq
  error_of_client_side st meta info key none = (drop Stat.drop_no_session, st)
  error_of_client_side st meta info key (some i) =
      let s = session_of p dp st.ctx i in
      if tuple_eq s.client key
      then error_with_rs st meta info i (rs_of st.snap s.rs_id)
      else (drop Stat.drop_no_session, st)

  -- The two cases: an error about a packet to a real server, and one about a packet to a client.
  abbrev pub is_rs_side : Snapshot → PacketMeta → FiveTuple → Bool
  is_rs_side snap meta inner =
      is_nat snap.mode
      && (is_lip p.crc snap meta.dst_ip
          && (is_lip p.crc snap inner.src_ip && in_nat_range inner.src_port))

  abbrev pub is_client_side : Snapshot → PacketMeta → FiveTuple → Bool
  is_client_side snap meta inner = is_vip p.crc snap meta.dst_ip && is_vip p.crc snap inner.src_ip

  abbrev pub icmp_error_parsed :
      St p dp → PacketMeta → Bool → Option IcmpErrorInfo → Result × St p dp
  icmp_error_parsed st meta redirected none = (drop Stat.drop_malformed, st)
  icmp_error_parsed st meta redirected (some info) =
      let key = reverse_tuple info.inner in
      let found = lookup p.session_hash st.ctx.sessions key in
      let ret = ret_owner p.hashes dp.steering key in
      let fwd = fwd_owner p.hashes dp.steering key in
      if is_rs_side st.snap meta info.inner
      then (if ret == st.ctx.idx
          then error_of_rs_side st meta info key found
          else not_owned p dp redirected ret st)
      else (if is_client_side st.snap meta info.inner
          then (if fwd == st.ctx.idx
              then error_of_client_side st meta info key found
              else not_owned p dp redirected fwd st)
          else (drop Stat.drop_no_session, st))

  unfoldable pub handle_icmp_error : St p dp → PacketMeta → Bool → Result × St p dp
  unfolding parse_icmp_error error_of_rs_side error_of_client_side lookup fwd_owner ret_owner
      reverse_tuple is_lip is_vip in_nat_range
  handle_icmp_error st meta redirected =
      icmp_error_parsed st meta redirected (parse_icmp_error st.mbuf.mem meta)

  -- The frame of an echo reply, whose ICMP message is given.
  unfoldable pub echo_memory : Memory → PacketMeta → List ℕ → Memory
  unfolding write put32 ip_checksum set_macs
  echo_memory mem meta message =
      let ip = meta.l3_offset in
      let answered = write mem meta.l4_offset message in
      let swapped = set_macs answered (mac_at answered 6) dp.local_mac in
      let readdressed =
        put32 (put32 swapped (ip + 12) (le32 swapped (ip + 16))) (ip + 16)
          (le32 swapped (ip + 12)) in
      ip_checksum (write readdressed (ip + 8) (64 ∷ [])) ip

  abbrev pub echo_reply : St p dp → PacketMeta → Option (List ℕ) → Result × St p dp
  echo_reply st meta none = (drop Stat.drop_other, st)
  echo_reply st meta (some message) = (
    send,
    record st { mbuf = clear_tx_offload (set_mem st.mbuf (echo_memory st.mbuf.mem meta message)) },
  )

  unfoldable pub handle_icmp : St p dp → PacketMeta → Bool → Result × St p dp
  unfolding handle_icmp_error handle_echo_request echo_memory clear_tx_offload icmp_is_error
  handle_icmp st meta redirected =
      let message = bytes_at st.mbuf.mem (meta.total_len - meta.l4_offset) meta.l4_offset in
      if icmp_is_error (st.mbuf.mem meta.l4_offset)
      then handle_icmp_error st meta redirected
      else echo_reply st meta (handle_echo_request message)
