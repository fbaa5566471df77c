-- ===== src/Processor/Arp.antt =====
-- `handle_arp` and `handle_hc_response` of src/core/processor.cpp: what goes to the master thread.
use l4_loadbalancer.Base.{
  ℕ, ◌+◌, ◌*◌, ◌^◌, Bool, not, ◌||◌, ◌&&◌, ◌==◌, ltb, if◌then◌else◌, List, ◌∷◌, ◌++◌,
}
use l4_loadbalancer.Checksum.{htons}
use l4_loadbalancer.Header.{Memory, le16, le32, be16, mac_at, ethernet_size}
use l4_loadbalancer.Mbuf.{write, le16_bytes, le32_bytes, set_mem}
use l4_loadbalancer.Neigh.{on_link}
use l4_loadbalancer.Parser.{PacketMeta}
use l4_loadbalancer.Processor.Resolve.{Ctx, St}
use l4_loadbalancer.Processor.{
  Platform, Dataplane, Stat, Result, send, drop, consumed, add_stat, set_ctx, MasterEventType,
  MasterEvent, post_master_event,
}
use l4_loadbalancer.Reply.{EthernetHeader, ArpHeader, is_request, is_reply, is_eth_ipv4, make_reply}
use l4_loadbalancer.Rewrite.Nat.{clear_tx_offload}
use l4_loadbalancer.Snapshot.{is_local}
use l4_loadbalancer.Types.{zero_mac}

-- sizeof(ArpHeader).
abbrev pub arp_size : ℕ
arp_size = 28

abbrev pub ethernet_at : Memory → EthernetHeader
ethernet_at mem = record {
  dst_mac = mac_at mem 0;
  src_mac = mac_at mem 6;
  ether_type = le16 mem 12;
}

abbrev pub arp_at : Memory → ℕ → ArpHeader
arp_at mem at = record {
  hw_type = le16 mem at;
  proto_type = le16 mem (at + 2);
  hw_len = mem (at + 4);
  proto_len = mem (at + 5);
  operation = le16 mem (at + 6);
  sender_mac = mac_at mem (at + 8);
  sender_ip = le32 mem (at + 14);
  target_mac = mac_at mem (at + 18);
  target_ip = le32 mem (at + 24);
}

-- The 42 bytes of the two headers.
abbrev pub header_bytes : EthernetHeader × ArpHeader → List ℕ
header_bytes (eth, arp) =
    eth.dst_mac
    ++ (eth.src_mac
        ++ (le16_bytes eth.ether_type
            ++ (le16_bytes arp.hw_type
                ++ (le16_bytes arp.proto_type
                    ++ (arp.hw_len
                        ∷ arp.proto_len
                        ∷ (le16_bytes arp.operation
                            ++ (arp.sender_mac
                                ++ (le32_bytes arp.sender_ip
                                    ++ (arp.target_mac ++ le32_bytes arp.target_ip)))))))))

abbrev pub arp_event : MasterEventType → ArpHeader → MasterEvent
arp_event type arp = record {
  type = type;
  tcp_flags = 0;
  port = 0;
  ip = arp.sender_ip;
  seq = 0;
  ack = 0;
  mac = arp.sender_mac;
  aux = 0;
}

-- `ntohl` of a field.
abbrev pub be32 : Memory → ℕ → ℕ
be32 mem at = be16 mem at * 2 ^ 16 + be16 mem (at + 2)

abbrev pub hc_event : Memory → PacketMeta → MasterEvent
hc_event mem meta = record {
  type = MasterEventType.hc_response;
  tcp_flags = meta.tcp_flags;
  port = htons meta.dst_port;
  ip = meta.src_ip;
  seq = be32 mem (meta.l4_offset + 4);
  ack = be32 mem (meta.l4_offset + 8);
  mac = zero_mac;
  aux = htons meta.src_port;
}

module _ (p : Platform) (dp : Dataplane p.neigh_hash.Handle) where
  abbrev pub post_if : Bool → Ctx p dp → MasterEvent → Ctx p dp
  post_if b w ev = if b then post_master_event w ev else w

  -- A request for an address of the balancer is answered; the sender is learnt, if it is on the link.
  unfoldable pub arp_for_us : St p dp → ArpHeader → Result × St p dp
  unfolding make_reply is_request is_reply post_master_event clear_tx_offload on_link write
  arp_for_us st arp =
      let mem = st.mbuf.mem in
      let known = not (arp.sender_ip == 0) && on_link dp.route arp.sender_ip in
      let reply = header_bytes (make_reply (ethernet_at mem) arp dp.local_mac) in
      if is_request arp
      then (
        send,
        record st {
          ctx = post_if known st.ctx (arp_event MasterEventType.arp_for_us arp);
          mbuf = clear_tx_offload (set_mem st.mbuf (write mem 0 reply));
        },
      )
      else (
        consumed,
        set_ctx st (post_if (is_reply arp) st.ctx (arp_event MasterEventType.arp_reply arp)),
      )

  unfoldable pub handle_arp : St p dp → Result × St p dp
  unfolding arp_for_us is_eth_ipv4 is_local add_stat
  handle_arp st =
      let arp = arp_at st.mbuf.mem ethernet_size in
      let st' = set_ctx st (add_stat st.ctx Stat.arp) in
      if ltb st.mbuf.data_len (ethernet_size + arp_size)
      then (drop Stat.drop_malformed, st)
      else (if not (is_eth_ipv4 arp)
            || (is_local p.crc st.snap arp.sender_ip || not (is_local p.crc st.snap arp.target_ip))
          then (consumed, st')
          else arp_for_us st' arp)

  unfoldable pub handle_hc_response : St p dp → PacketMeta → Result × St p dp
  unfolding post_master_event add_stat htons
  handle_hc_response st meta =
      let posted = post_master_event st.ctx (hc_event st.mbuf.mem meta) in
      if meta.ip_protocol == 6
      then (consumed, set_ctx st (add_stat posted Stat.hc_resp))
      else (drop Stat.drop_other, st)
