-- ===== src/Parser.antt =====
-- include/protocol/parser.h and src/protocol/parser.cpp: the parser of Ethernet frames. `PacketMeta` is
-- an output parameter: a field that is not written keeps its value.
pub mod Bounds
pub mod Icmp
mod Tests
use l4_loadbalancer.Base.{
  ℕ, zero, suc, ◌+◌, ◌-◌, ◌*◌, ◌%◌, ◌^◌, Bool, true, false, not, ◌||◌, ◌&&◌, ◌==◌, ltb,
  if◌then◌else◌, Option, none, some,
}
use l4_loadbalancer.Base.Bits.{has}
use l4_loadbalancer.Header.{
  Memory, le16, be16, le32, mac_at, ethernet_size, ipv4_size, tcp_size, udp_size, icmp_size,
  get_ether_type, is_ipv4, get_version, get_header_len, get_total_length, get_fragment,
  get_protocol, is_tcp, is_udp, is_icmp, get_data_offset, icmp_is_error,
}
use l4_loadbalancer.Types.{FiveTuple, MacAddr}

pub data ParseResult : Type 0 where
  ok malformed fragment : ParseResult

pub record PacketMeta : Type 0 where
  pub src_mac : MacAddr
  pub dst_mac : MacAddr
  pub ether_type : ℕ
  pub src_ip : ℕ
  pub dst_ip : ℕ
  pub ip_protocol : ℕ
  pub ip_ttl : ℕ
  pub src_port : ℕ
  pub dst_port : ℕ
  pub tcp_flags : ℕ
  pub l2_offset : ℕ
  pub l3_offset : ℕ
  pub l4_offset : ℕ
  pub payload_offset : ℕ
  pub total_len : ℕ
  pub payload_len : ℕ

unfoldable pub to_five_tuple : PacketMeta → FiveTuple
to_five_tuple meta = record {
  src_ip = meta.src_ip;
  dst_ip = meta.dst_ip;
  src_port = meta.src_port;
  dst_port = meta.dst_port;
  protocol = meta.ip_protocol;
}

-- `meta.payload_len = end - meta.payload_offset`, in 16 bits, and success.
abbrev pub finish : ℕ → PacketMeta → ParseResult × PacketMeta
finish end meta = (ok, record meta { payload_len = (end - meta.payload_offset) % 2 ^ 16 })

-- What a header leaves in `meta`.
abbrev pub tcp_meta : Memory → PacketMeta → PacketMeta
tcp_meta mem meta =
    let tcp = meta.l4_offset in
    record meta {
      src_port = le16 mem tcp;
      dst_port = le16 mem (tcp + 2);
      tcp_flags = mem (tcp + 13);
      payload_offset = (tcp + get_data_offset mem tcp) % 2 ^ 16;
    }

abbrev pub udp_meta : Memory → PacketMeta → PacketMeta
udp_meta mem meta =
    let udp = meta.l4_offset in
    record meta {
      src_port = le16 mem udp;
      dst_port = le16 mem (udp + 2);
      payload_offset = (udp + udp_size) % 2 ^ 16;
    }

abbrev pub ip_meta : Memory → PacketMeta → PacketMeta
ip_meta mem meta =
    let ip = meta.l3_offset in
    record meta {
      src_ip = le32 mem (ip + 12);
      dst_ip = le32 mem (ip + 16);
      ip_protocol = get_protocol mem ip;
      ip_ttl = mem (ip + 8);
      l4_offset = (ip + get_header_len mem ip) % 2 ^ 16;
      total_len = (ip + get_total_length mem ip) % 2 ^ 16;
      payload_offset = (ip + get_header_len mem ip) % 2 ^ 16;
    }

unfoldable pub parse_tcp : Memory → ℕ → PacketMeta → ParseResult × PacketMeta
unfolding get_data_offset
parse_tcp mem end meta =
    let tcp = meta.l4_offset in
    let doff = get_data_offset mem tcp in
    if ltb end (tcp + tcp_size)
    then (malformed, meta)
    else (if ltb doff tcp_size || ltb end (tcp + doff)
        then (malformed, meta)
        else finish end (tcp_meta mem meta))

unfoldable pub parse_udp : Memory → ℕ → PacketMeta → ParseResult × PacketMeta
parse_udp mem end meta =
    let udp = meta.l4_offset in
    let udp_len = be16 mem (udp + 4) in
    if ltb end (udp + udp_size)
    then (malformed, meta)
    else (if ltb udp_len udp_size || ltb end (udp + udp_len)
        then (malformed, meta)
        else finish end (udp_meta mem meta))

-- The header of the transport layer.
unfoldable pub parse_l4 : Memory → ℕ → PacketMeta → ParseResult × PacketMeta
unfolding parse_tcp parse_udp is_tcp is_udp is_icmp
parse_l4 mem end meta =
    if is_tcp mem meta.l3_offset
    then parse_tcp mem end meta
    else (if is_udp mem meta.l3_offset
        then parse_udp mem end meta
        else (if is_icmp mem meta.l3_offset && ltb end (meta.l4_offset + icmp_size)
            then (malformed, meta)
            else finish end meta))

unfoldable pub parse_ip : Memory → ℕ → PacketMeta → ParseResult × PacketMeta
unfolding parse_l4 get_header_len get_total_length get_version get_fragment
parse_ip mem len meta =
    let ip = meta.l3_offset in
    let ihl = get_header_len mem ip in
    let ip_total = get_total_length mem ip in
    let end = ip + ip_total in
    if ltb len (ip + ipv4_size)
    then (malformed, meta)
    else (if not (get_version mem ip == 4)
          || (ltb ihl ipv4_size || (ltb ip_total ihl || ltb len end))
        then (malformed, meta)
        else (if has (get_fragment mem ip) 0x2000 || has (get_fragment mem ip) 0x1FFF
            then (fragment, ip_meta mem meta)
            else parse_l4 mem end (ip_meta mem meta)))

unfoldable pub parse : Memory → ℕ → PacketMeta → ParseResult × PacketMeta
unfolding parse_ip is_ipv4
parse mem len meta =
    let meta' = record meta {
      dst_mac = mac_at mem 0;
      src_mac = mac_at mem 6;
      ether_type = get_ether_type mem;
      l2_offset = 0;
      l3_offset = ethernet_size;
      src_port = 0;
      dst_port = 0;
      tcp_flags = 0;
    } in
    if ltb len ethernet_size
    then (malformed, meta)
    else (if is_ipv4 mem then parse_ip mem len meta' else (ok, meta'))

pub record IcmpErrorInfo : Type 0 where
  pub inner_l3_offset : ℕ
  pub inner_l4_offset : ℕ
  pub inner : FiveTuple

-- The tuple of the quoted packet.
abbrev pub quoted_tuple : Memory → ℕ → FiveTuple
quoted_tuple mem inner_l3 =
    let inner_l4 = inner_l3 + get_header_len mem inner_l3 in
    record {
      src_ip = le32 mem (inner_l3 + 12);
      dst_ip = le32 mem (inner_l3 + 16);
      src_port = le16 mem inner_l4;
      dst_port = le16 mem (inner_l4 + 2);
      protocol = get_protocol mem inner_l3;
    }

unfoldable pub parse_icmp_error : Memory → PacketMeta → Option IcmpErrorInfo
unfolding icmp_is_error get_header_len get_version is_tcp is_udp get_fragment
parse_icmp_error mem meta =
    let inner_l3 = meta.l4_offset + icmp_size in
    let ihl = get_header_len mem inner_l3 in
    let inner_l4 = inner_l3 + ihl in
    if not (icmp_is_error (mem meta.l4_offset))
    then none
    else (if ltb meta.total_len (inner_l3 + ipv4_size)
        then none
        else (if not (get_version mem inner_l3 == 4) || ltb ihl ipv4_size
            then none
            else (if not (is_tcp mem inner_l3) && not (is_udp mem inner_l3)
                then none
                else (if has (get_fragment mem inner_l3) 0x1FFF
                    then none
                    else (if ltb meta.total_len (inner_l4 + 8)
                        then none
                        else some (record {
                          inner_l3_offset = inner_l3 % 2 ^ 16;
                          inner_l4_offset = inner_l4 % 2 ^ 16;
                          inner = quoted_tuple mem inner_l3;
                        }))))))
