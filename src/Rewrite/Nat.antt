-- ===== src/Rewrite/Nat.antt =====
-- src/forward/nat_forwarder.cpp with the writers of include/protocol/ip.h: the rewriting of a frame for
-- FULLNAT and for direct routing, for the default build, which has L4LB_HW_CKSUM. What the parser has
-- checked, such as the order of the offsets, is not checked again here.
use l4_loadbalancer.Base.{
  ℕ, ◌+◌, ◌-◌, ◌*◌, ◌%◌, ◌/◌, ◌^◌, Bool, true, false, not, ◌||◌, ◌&&◌, ◌==◌, ltb, leb,
  if◌then◌else◌, bit_and, bit_or, [], ◌∷◌, ◌++◌, none, some,
}
use l4_loadbalancer.Base.Bits.{has}
use l4_loadbalancer.Checksum.{
  calculate, update_tcp_checksum_ip, update_tcp_checksum_port, update_udp_checksum_ip,
  update_udp_checksum_port, recalculate_tcp_checksum, recalculate_udp_checksum, htons,
}
use l4_loadbalancer.Header.{
  Memory, le16, be16, le32, tcp_size, udp_size, get_header_len, get_total_length, get_protocol,
  is_tcp, is_udp, get_data_offset,
}
use l4_loadbalancer.Mbuf.{
  Mbuf, Dpdk, bytes_at, write, move_up, put16, put32, le16_bytes, le32_bytes, set_mem,
}
use l4_loadbalancer.Parser.{PacketMeta, IcmpErrorInfo}
use l4_loadbalancer.Reply.{calculate_checksum}
use l4_loadbalancer.Rewrite.{strip_timestamp}
use l4_loadbalancer.TcpState.{tcp_flag_syn}
use l4_loadbalancer.Types.{MacAddr, FiveTuple}

pub record NatRewrite : Type 0 where
  pub src_ip : ℕ
  pub dst_ip : ℕ
  pub src_port : ℕ
  pub dst_port : ℕ
  pub src_mac : MacAddr
  pub dst_mac : MacAddr

pub record NatOptions : Type 0 where
  pub strip_ts : Bool
  pub add_toa : Bool
  pub toa_ip : ℕ
  pub toa_port : ℕ
  pub tx_offloads : ℕ
  pub mtu : ℕ

pub data RewriteResult : Type 0 where
  ok ttl_exceeded : RewriteResult

pub record RewriteOutcome : Type 0 where
  pub ts_stripped : Bool
  pub toa_added : Bool
  pub toa_no_room : Bool

-- `RewriteOutcome{}`.
abbrev pub no_outcome : RewriteOutcome
no_outcome = record { ts_stripped = false; toa_added = false; toa_no_room = false }

abbrev pub tcpopt_toa : ℕ
tcpopt_toa = 254

abbrev pub tcpolen_toa : ℕ
tcpolen_toa = 8

unfoldable pub ip_checksum : Memory → ℕ → Memory
unfolding put16 calculate get_header_len
ip_checksum mem ip =
    let zeroed = put16 mem (ip + 10) 0 in
    put16 zeroed (ip + 10) (calculate (bytes_at zeroed (get_header_len zeroed ip) ip))

-- `TcpHeader::set_header_len` of the header at an offset.
unfoldable pub set_header_len : Memory → ℕ → ℕ → Memory
unfolding write
set_header_len mem tcp len =
    write mem (tcp + 12) (bit_or (len / 4 * 2 ^ 4) (bit_and (mem (tcp + 12)) 0x0F) % 2 ^ 8 ∷ [])

unfoldable pub set_total_length : Memory → ℕ → ℕ → Memory
unfolding put16 htons
set_total_length mem ip len = put16 mem (ip + 2) (htons len)

unfoldable pub set_macs : Memory → MacAddr → MacAddr → Memory
unfolding write
set_macs mem dst_mac src_mac = write (write mem 0 dst_mac) 6 src_mac

unfoldable pub clear_tx_offload : Mbuf → Mbuf
clear_tx_offload m = record m { ol_flags = 0 }

unfoldable pub dr_rewrite : Mbuf → MacAddr → MacAddr → Mbuf
unfolding set_macs
dr_rewrite m src_mac dst_mac = record m { mem = set_macs m.mem dst_mac src_mac; ol_flags = 0 }

-- The addresses, the TTL and the checksum of the IP header at an offset.
unfoldable pub rewrite_ip : Memory → ℕ → ℕ → ℕ → Memory
unfolding put32 write ip_checksum
rewrite_ip mem ip src_ip dst_ip =
    let addressed = put32 (put32 mem (ip + 12) src_ip) (ip + 16) dst_ip in
    ip_checksum (write addressed (ip + 8) ((addressed (ip + 8) - 1) ∷ [])) ip

-- The bytes of a TCP header with the option that carries the client's address inserted.
unfoldable pub toa_memory : Memory → PacketMeta → ℕ → ℕ → Memory
unfolding move_up write set_header_len set_total_length get_data_offset get_total_length
toa_memory mem meta client_ip client_port =
    let tcp = meta.l4_offset in
    let opt = tcp + tcp_size in
    let ip_len = get_total_length mem meta.l3_offset in
    let frame_len = meta.l3_offset + ip_len in
    let moved = move_up mem opt (frame_len - opt) tcpolen_toa in
    let toa = tcpopt_toa ∷ tcpolen_toa ∷ (le16_bytes client_port ++ le32_bytes client_ip) in
    let lengthened =
      set_header_len (write moved opt toa) tcp (get_data_offset mem tcp + tcpolen_toa) in
    set_total_length lengthened meta.l3_offset ((ip_len + tcpolen_toa) % 2 ^ 16)

-- What the rewriting of the TCP options leaves, and whether the checksum has to be computed in full.
pub record TcpEdit : Type 0 where
  pub mbuf : Mbuf
  pub meta : PacketMeta
  pub out : RewriteOutcome
  pub l4_full : Bool

unfoldable pub edit_strip : NatOptions → TcpEdit → TcpEdit
unfolding strip_timestamp get_data_offset
edit_strip opt e =
    let mem = e.mbuf.mem in
    let tcp = e.meta.l4_offset in
    let options = bytes_at mem (get_data_offset mem tcp - tcp_size) (tcp + tcp_size) in
    let (stripped, changed) = strip_timestamp options in
    if opt.strip_ts && (has (mem (tcp + 13)) tcp_flag_syn && changed)
    then record e {
      mbuf = set_mem e.mbuf (write mem (tcp + tcp_size) stripped);
      out = record e.out { ts_stripped = true };
      l4_full = true;
    }
    else e

module _ (dpdk : Dpdk) where
  -- A failed insertion may have trimmed the padding.
  unfoldable pub insert_toa : Mbuf → PacketMeta → ℕ → ℕ → ℕ → Bool × Mbuf × PacketMeta
  unfolding toa_memory
  insert_toa m meta client_ip client_port mtu =
      let doff = get_data_offset m.mem meta.l4_offset in
      let ip_len = get_total_length m.mem meta.l3_offset in
      let frame_len = meta.l3_offset + ip_len in
      let trimmed = if ltb frame_len m.data_len then dpdk.trim m (m.data_len - frame_len) else m in
      if ltb 60 (doff + tcpolen_toa)
        || (ltb mtu (ip_len + tcpolen_toa) || not (dpdk.is_contiguous m))
      then (false, m, meta)
      else elim (dpdk.append trimmed tcpolen_toa) [
        | none ↦ (false, trimmed, meta)
        | some longer ↦ (
          true,
          set_mem longer (toa_memory longer.mem meta client_ip client_port),
          record meta {
            total_len = (meta.total_len + tcpolen_toa) % 2 ^ 16;
            payload_offset = (meta.payload_offset + tcpolen_toa) % 2 ^ 16;
          },
        )
      ]

  unfoldable pub edit_toa : NatOptions → TcpEdit → TcpEdit
  unfolding insert_toa
  edit_toa opt e =
      let (added, m, meta) = insert_toa e.mbuf e.meta opt.toa_ip opt.toa_port opt.mtu in
      if opt.add_toa
      then (if added
          then record {
            mbuf = m;
            meta = meta;
            out = record e.out { toa_added = true };
            l4_full = true;
          }
          else record e { mbuf = m; meta = meta; out = record e.out { toa_no_room = true } })
      else e

  unfoldable pub edit_options : NatOptions → TcpEdit → TcpEdit
  unfolding edit_strip edit_toa
  edit_options opt e =
      if is_tcp e.mbuf.mem e.meta.l3_offset then edit_toa opt (edit_strip opt e) else e

  -- By the card where it can, and then the field holds the sum of the pseudo header; else in full.
  unfoldable pub l4_checksum_full : Mbuf → ℕ → ℕ → PacketMeta → ℕ → Mbuf
  unfolding recalculate_tcp_checksum recalculate_udp_checksum put16
  l4_checksum_full m ip l4 meta offloads =
      let tcp = is_tcp m.mem ip in
      let want = if tcp then dpdk.offload_tcp_cksum else dpdk.offload_udp_cksum in
      let flags = bit_or dpdk.tx_ipv4 (if tcp then dpdk.tx_tcp_cksum else dpdk.tx_udp_cksum) in
      let pseudo = dpdk.ipv4_phdr_cksum m.mem ip flags in
      let offloaded = record m {
        l2_len = meta.l3_offset;
        l3_len = get_header_len m.mem ip;
        ol_flags = flags;
        l4_len = if tcp then get_data_offset m.mem l4 else udp_size;
        mem = put16 m.mem (if tcp then l4 + 16 else l4 + 6) pseudo;
      } in
      let tcp_len = get_total_length m.mem ip - get_header_len m.mem ip in
      let udp_len = be16 m.mem (l4 + 4) in
      let src = le32 m.mem (ip + 12) in
      let dst = le32 m.mem (ip + 16) in
      let proto = get_protocol m.mem ip in
      let tcp_zeroed = put16 m.mem (l4 + 16) 0 in
      let udp_zeroed = put16 m.mem (l4 + 6) 0 in
      let tcp_sum =
        recalculate_tcp_checksum src dst proto (bytes_at tcp_zeroed tcp_len l4) tcp_len in
      let udp_sum =
        recalculate_udp_checksum src dst proto (bytes_at udp_zeroed udp_len l4) udp_len in
      if has offloads want
      then offloaded
      else (if tcp
          then record m { ol_flags = 0; mem = put16 tcp_zeroed (l4 + 16) tcp_sum }
          else record m { ol_flags = 0; mem = put16 udp_zeroed (l4 + 6) udp_sum })

  -- Ports and checksum of a TCP header; the old addresses are those before the rewriting.
  unfoldable pub rewrite_tcp : Mbuf → PacketMeta → NatRewrite → ℕ → ℕ → ℕ → Bool → ℕ → Mbuf
  unfolding put16 l4_checksum_full
  rewrite_tcp m meta rw ip old_src old_dst full offloads =
      let l4 = meta.l4_offset in
      let ported = put16 (put16 m.mem l4 rw.src_port) (l4 + 2) rw.dst_port in
      let s0 = le16 ported (l4 + 16) in
      let s1 = update_tcp_checksum_ip s0 old_src rw.src_ip in
      let s2 = update_tcp_checksum_ip s1 old_dst rw.dst_ip in
      let s3 = update_tcp_checksum_port s2 (le16 m.mem l4) rw.src_port in
      let s4 = update_tcp_checksum_port s3 (le16 m.mem (l4 + 2)) rw.dst_port in
      if full
      then l4_checksum_full (set_mem m ported) ip l4 meta offloads
      else record m { mem = put16 ported (l4 + 16) s4; ol_flags = 0 }

  -- A checksum of 0 says that there is none, and stays.
  unfoldable pub rewrite_udp : Mbuf → PacketMeta → NatRewrite → ℕ → ℕ → ℕ → Bool → ℕ → Mbuf
  unfolding put16 l4_checksum_full
  rewrite_udp m meta rw ip old_src old_dst hw offloads =
      let l4 = meta.l4_offset in
      let ported = put16 (put16 m.mem l4 rw.src_port) (l4 + 2) rw.dst_port in
      let s0 = le16 ported (l4 + 6) in
      let s1 = update_udp_checksum_ip s0 old_src rw.src_ip in
      let s2 = update_udp_checksum_ip s1 old_dst rw.dst_ip in
      let s3 = update_udp_checksum_port s2 (le16 m.mem l4) rw.src_port in
      let s4 = update_udp_checksum_port s3 (le16 m.mem (l4 + 2)) rw.dst_port in
      if hw
      then l4_checksum_full (set_mem m ported) ip l4 meta offloads
      else (if le16 m.mem (l4 + 6) == 0
          then record m { mem = ported; ol_flags = 0 }
          else record m { mem = put16 ported (l4 + 6) s4; ol_flags = 0 })

  -- The ports and checksum of the transport header, if it is TCP or UDP.
  unfoldable pub rewrite_l4 : TcpEdit → NatRewrite → ℕ → ℕ → ℕ → NatOptions → Mbuf
  unfolding rewrite_tcp rewrite_udp
  rewrite_l4 e rw ip old_src old_dst opt =
      let mem = e.mbuf.mem in
      let want = if is_tcp mem ip then dpdk.offload_tcp_cksum else dpdk.offload_udp_cksum in
      let hw = has opt.tx_offloads want in
      if is_tcp mem ip
      then rewrite_tcp e.mbuf e.meta rw ip old_src old_dst (e.l4_full || hw) opt.tx_offloads
      else (if is_udp mem ip
          then rewrite_udp e.mbuf e.meta rw ip old_src old_dst hw opt.tx_offloads
          else e.mbuf)

  -- Steps 2 to 4, after the options.
  unfoldable pub rewrite_edited : TcpEdit → NatRewrite → NatOptions → Mbuf
  unfolding rewrite_ip rewrite_l4 set_macs
  rewrite_edited e rw opt =
      let ip = e.meta.l3_offset in
      let mem = e.mbuf.mem in
      let readdressed = set_mem e.mbuf (rewrite_ip mem ip rw.src_ip rw.dst_ip) in
      let m =
        rewrite_l4 (record e { mbuf = readdressed }) rw ip (le32 mem (ip + 12)) (le32 mem (ip + 16))
          opt in
      set_mem m (set_macs m.mem rw.dst_mac rw.src_mac)

  unfoldable pub nat_rewrite :
      Mbuf
      → PacketMeta
      → NatRewrite
      → NatOptions
      → RewriteOutcome
      → RewriteResult × Mbuf × PacketMeta × RewriteOutcome
  unfolding edit_options rewrite_edited
  nat_rewrite m meta rw opt out =
      let e = edit_options opt (record { mbuf = m; meta = meta; out = out; l4_full = false }) in
      if leb (m.mem (meta.l3_offset + 8)) 1
      then (ttl_exceeded, m, meta, out)
      else (ok, rewrite_edited e rw opt, e.meta, e.out)

unfoldable pub nat_rewrite_icmp_error :
    Mbuf → PacketMeta → IcmpErrorInfo → ℕ → ℕ → FiveTuple → MacAddr → MacAddr → RewriteResult × Mbuf
unfolding put16 put32 ip_checksum rewrite_ip set_macs calculate_checksum
nat_rewrite_icmp_error m meta info outer_src outer_dst inner src_mac dst_mac =
    let ip = meta.l3_offset in
    let iip = info.inner_l3_offset in
    let ports = info.inner_l4_offset in
    let icmp = meta.l4_offset in
    let inner_ip =
      ip_checksum (put32 (put32 m.mem (iip + 12) inner.src_ip) (iip + 16) inner.dst_ip) iip in
    let quoted = put16 (put16 inner_ip ports inner.src_port) (ports + 2) inner.dst_port in
    let outer = rewrite_ip quoted ip outer_src outer_dst in
    let zeroed = put16 outer (icmp + 2) 0 in
    let sum = calculate_checksum (bytes_at zeroed (meta.total_len - icmp) icmp) in
    let mem = set_macs (put16 zeroed (icmp + 2) sum) dst_mac src_mac in
    if leb (m.mem (ip + 8)) 1 then (ttl_exceeded, m) else (ok, record m { mem = mem; ol_flags = 0 })
