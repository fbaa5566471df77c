-- ===== src/Parser/Tests.antt =====
-- A SYN to port 80 in a frame with padding, an ICMP error, and the theorems at them.
use l4_loadbalancer.Base.{
  ℕ, ◌+◌, ◌≤◌, ◌≡◌, refl, true, List, [], ◌∷◌, ◌++◌, get_or, replicate, some, arith,
}
use l4_loadbalancer.Header.{Memory, is_ipv4, icmp_size, ipv4_size}
use l4_loadbalancer.Parser.Bounds.{IsWithin, parse-IsWithin}
use l4_loadbalancer.Parser.Icmp.{parse_icmp_error-inner}
use l4_loadbalancer.Parser.{PacketMeta, ok, malformed, parse, parse_icmp_error, IcmpErrorInfo}
use l4_loadbalancer.Types.{zero_mac}

abbrev frame_of : List ℕ → Memory
frame_of bytes = λ i. get_or bytes i 0

abbrev no_meta : PacketMeta
no_meta = record {
  src_mac = zero_mac;
  dst_mac = zero_mac;
  ether_type = 0;
  src_ip = 0;
  dst_ip = 0;
  ip_protocol = 0;
  ip_ttl = 0;
  src_port = 0;
  dst_port = 0;
  tcp_flags = 0;
  l2_offset = 0;
  l3_offset = 0;
  l4_offset = 0;
  payload_offset = 0;
  total_len = 0;
  payload_len = 0;
}

abbrev ethernet : List ℕ
ethernet = replicate 12 1 ++ (8 ∷ 0 ∷ [])

abbrev ip_header : ℕ → ℕ → List ℕ
ip_header length protocol =
    0x45 ∷ 0 ∷ 0 ∷ length ∷ 0 ∷ 0 ∷ 0x40 ∷ 0 ∷ 64 ∷ protocol ∷ 0 ∷ 0 ∷ 10 ∷ 0 ∷ 0 ∷ 1 ∷ 10 ∷ 0 ∷ 0
    ∷ 2 ∷ []

abbrev tcp_header : List ℕ
tcp_header = 0x30 ∷ 0x39 ∷ 0 ∷ 80 ∷ replicate 8 0 ++ (0x50 ∷ 0x02 ∷ replicate 6 0)

abbrev syn : Memory
syn = frame_of (ethernet ++ (ip_header 40 6 ++ tcp_header))

abbrev error : Memory
error =
    frame_of (
      ethernet ++ (ip_header 56 1 ++ (3 ∷ 1 ∷ replicate 6 0 ++ (ip_header 40 17 ++ replicate 8 5))))

program : Unit {0}
unfolding parse parse_icmp_error is_ipv4
program = tt

syn_parsed : (parse syn 60 no_meta).0 ≡ ok
unfolding program
syn_parsed = refl

syn_flags : (parse syn 60 no_meta).1.tcp_flags ≡ 2
unfolding program
syn_flags = refl

-- The padding behind the 54 bytes of the datagram is not payload.
syn_payload : (parse syn 60 no_meta).1.payload_len ≡ 0
unfolding program
syn_payload = refl

syn_cut : (parse syn 53 no_meta).0 ≡ malformed
unfolding program
syn_cut = refl

ipv4 : is_ipv4 syn ≡ true
unfolding program
ipv4 = refl

parse-IsWithin_example : IsWithin 60 (parse syn 60 no_meta).1
parse-IsWithin_example = parse-IsWithin syn 60 no_meta (omega arith) ipv4 syn_parsed

abbrev error_meta : PacketMeta
error_meta = (parse error 70 no_meta).1

abbrev quoted : IcmpErrorInfo
quoted = record {
  inner_l3_offset = 42;
  inner_l4_offset = 62;
  inner = record {
    src_ip = 0x100000a;
    dst_ip = 0x200000a;
    src_port = 0x505;
    dst_port = 0x505;
    protocol = 17;
  };
}

error_parsed : parse_icmp_error error error_meta ≡ some quoted
unfolding program
error_parsed = refl

error_total : error_meta.total_len ≡ 70
unfolding program
error_total = refl

parse_icmp_error-inner_example :
    (error_meta.l4_offset + icmp_size ≡ 42)
    × (42 + ipv4_size ≤ 62)
    × (62 + 8 ≤ error_meta.total_len)
parse_icmp_error-inner_example =
    parse_icmp_error-inner error error_meta quoted (omega (arith, error_total)) error_parsed
