-- ===== src/Processor/Dispatch.antt =====
-- `process_packet` of src/core/processor.cpp: the classification of a packet.
use l4_loadbalancer.Base.{
  ℕ, Bool, not, ◌||◌, ◌&&◌, ◌==◌, ltb, if◌then◌else◌, Option, none, some, get_elem?,
}
use l4_loadbalancer.Header.{Memory, ethernet_size, get_ether_type, is_ipv4}
use l4_loadbalancer.Parser.{ParseResult, PacketMeta, parse}
use l4_loadbalancer.Processor.Arp.{handle_arp, handle_hc_response}
use l4_loadbalancer.Processor.Create.{is_nat}
use l4_loadbalancer.Processor.Icmp.{handle_icmp}
use l4_loadbalancer.Processor.Inbound.{handle_inbound}
use l4_loadbalancer.Processor.Resolve.{St, add_if, cksum_bad, in_nat_range, in_hc_range}
use l4_loadbalancer.Processor.Return.{handle_return}
use l4_loadbalancer.Processor.{Platform, Dataplane, Stat, Result, drop, consumed, add_stat, set_ctx}
use l4_loadbalancer.Snapshot.{Service, find_service, is_lip, is_local}
use l4_loadbalancer.Types.{mac_eq}

-- `is_arp` of the frame's EthernetHeader.
unfoldable pub is_arp_frame : Memory → Bool
unfolding get_ether_type
is_arp_frame mem = get_ether_type mem == 0x0806

module _ (p : Platform) (dp : Dataplane p.neigh_hash.Handle) where
  -- Nobody else's packet is ours.
  abbrev pub unclaimed : St p dp → ℕ → Result × St p dp
  unclaimed st dst =
      (drop (if is_local p.crc st.snap dst then Stat.drop_no_service else Stat.drop_not_local), st)

  abbrev pub service_at : St p dp → Option ℕ → Option Service
  service_at st none = none
  service_at st (some k) = get_elem? st.snap.services k

  abbrev pub inbound_or : St p dp → PacketMeta → Bool → Option Service → Result × St p dp
  inbound_or st meta redirected none = unclaimed st meta.dst_ip
  inbound_or st meta redirected (some svc) = handle_inbound p dp st svc meta redirected

  -- TCP and UDP, by the destination.
  unfoldable pub classify_l4 : St p dp → PacketMeta → Bool → Result × St p dp
  unfolding handle_inbound handle_return handle_hc_response find_service is_lip in_nat_range
      in_hc_range is_local
  classify_l4 st meta redirected =
      let dst = meta.dst_ip in
      let svc = service_at st (find_service p.crc st.snap dst meta.dst_port meta.ip_protocol) in
      if is_nat st.snap.mode && (is_lip p.crc st.snap dst && in_nat_range meta.dst_port)
      then handle_return p dp st meta redirected
      else (if dst == st.snap.hc_src && in_hc_range meta.dst_port
          then handle_hc_response p dp st meta
          else inbound_or st meta redirected svc)

  -- A packet of IP, by the protocol; redirected packets have been counted before.
  unfoldable pub classify_ip : St p dp → PacketMeta → Bool → Result × St p dp
  unfolding classify_l4 handle_icmp is_local add_stat
  classify_ip st meta redirected =
      let proto = meta.ip_protocol in
      let id = if proto == 6 then Stat.tcp else Stat.udp in
      if proto == 1
      then (if is_local p.crc st.snap meta.dst_ip
          then handle_icmp p dp (set_ctx st (add_if p dp (not redirected) st.ctx Stat.icmp)) meta
              redirected
          else (drop Stat.drop_not_local, st))
      else (if proto == 6 || proto == 17
          then classify_l4 (set_ctx st (add_if p dp (not redirected) st.ctx id)) meta redirected
          else unclaimed st meta.dst_ip)

  abbrev pub process_parsed : St p dp → Bool → ParseResult × PacketMeta → Result × St p dp
  process_parsed st redirected (ParseResult.fragment, meta) = (drop Stat.drop_fragment, st)
  process_parsed st redirected (ParseResult.malformed, meta) = (drop Stat.drop_malformed, st)
  process_parsed st redirected (ParseResult.ok, meta) =
      if cksum_bad p dp st.mbuf
      then (drop Stat.drop_cksum, st)
      else (if mac_eq meta.src_mac dp.local_mac
          then (consumed, st)
          else classify_ip st meta redirected)

  -- `blank_meta` is what the uninitialised `PacketMeta` holds.
  unfoldable pub process_packet : PacketMeta → St p dp → Bool → Result × St p dp
  unfolding classify_ip handle_arp parse is_ipv4 is_arp_frame cksum_bad mac_eq
  process_packet blank_meta st redirected =
      let mem = st.mbuf.mem in
      if ltb st.mbuf.data_len ethernet_size
      then (drop Stat.drop_malformed, st)
      else (if is_arp_frame mem
          then handle_arp p dp st
          else (if is_ipv4 mem
              then process_parsed st redirected (parse mem st.mbuf.data_len blank_meta)
              else (drop Stat.drop_other, st)))
