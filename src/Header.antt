-- ===== src/Header.antt =====
-- The header structs of include/protocol/ethernet.h, ip.h and icmp.h, read from memory: `mem i` is the
-- byte at offset `i` of the frame. A field of 16 or 32 bits is read as the little-endian host reads
-- it, and `be16` is `ntohs` of such a field.
use l4_loadbalancer.Base.{ℕ, ◌+◌, ◌*◌, ◌/◌, ◌^◌, Bool, ◌||◌, ◌==◌, bit_and, [], ◌∷◌}
use l4_loadbalancer.Types.{MacAddr}

abbrev pub Memory : Type 0
Memory = ℕ → ℕ

abbrev pub le16 : Memory → ℕ → ℕ
le16 mem i = mem i + 256 * mem (i + 1)

abbrev pub be16 : Memory → ℕ → ℕ
be16 mem i = 256 * mem i + mem (i + 1)

abbrev pub le32 : Memory → ℕ → ℕ
le32 mem i = le16 mem i + 2 ^ 16 * le16 mem (i + 2)

abbrev pub mac_at : Memory → ℕ → MacAddr
mac_at mem i = mem i ∷ mem (i + 1) ∷ mem (i + 2) ∷ mem (i + 3) ∷ mem (i + 4) ∷ mem (i + 5) ∷ []

-- sizeof(EthernetHeader), sizeof(IPv4Header), sizeof(TcpHeader), sizeof(UdpHeader), sizeof(IcmpHeader).
abbrev pub ethernet_size : ℕ
ethernet_size = 14

abbrev pub ipv4_size : ℕ
ipv4_size = 20

abbrev pub tcp_size : ℕ
tcp_size = 20

abbrev pub udp_size : ℕ
udp_size = 8

abbrev pub icmp_size : ℕ
icmp_size = 8

unfoldable pub get_ether_type : Memory → ℕ
get_ether_type mem = be16 mem 12

unfoldable pub is_ipv4 : Memory → Bool
unfolding get_ether_type
is_ipv4 mem = get_ether_type mem == 0x0800

-- The fields of an IPv4 header at offset `ip`.
unfoldable pub get_version : Memory → ℕ → ℕ
get_version mem ip = bit_and (mem ip / 2 ^ 4) 0x0F

unfoldable pub get_header_len : Memory → ℕ → ℕ
get_header_len mem ip = bit_and (mem ip) 0x0F * 4

unfoldable pub get_total_length : Memory → ℕ → ℕ
get_total_length mem ip = be16 mem (ip + 2)

unfoldable pub get_fragment : Memory → ℕ → ℕ
get_fragment mem ip = be16 mem (ip + 6)

unfoldable pub get_protocol : Memory → ℕ → ℕ
get_protocol mem ip = mem (ip + 9)

unfoldable pub is_tcp : Memory → ℕ → Bool
unfolding get_protocol
is_tcp mem ip = get_protocol mem ip == 6

unfoldable pub is_udp : Memory → ℕ → Bool
unfolding get_protocol
is_udp mem ip = get_protocol mem ip == 17

unfoldable pub is_icmp : Memory → ℕ → Bool
unfolding get_protocol
is_icmp mem ip = get_protocol mem ip == 1

-- `TcpHeader::get_header_len` of a header at offset `tcp`.
unfoldable pub get_data_offset : Memory → ℕ → ℕ
get_data_offset mem tcp = bit_and (mem (tcp + 12) / 2 ^ 4) 0x0F * 4

unfoldable pub icmp_is_error : ℕ → Bool
icmp_is_error type = type == 3 || (type == 11 || type == 12)
