-- ===== src/Checksum/Tests.antt =====
-- Checksums of small packets, and the theorems at them.
use l4_loadbalancer.Base.{ℕ, ◌≡◌, refl, ◌∷◌, [], ◌++◌, List, arith}
use l4_loadbalancer.Checksum.Update.Tcp.{with_ports, tcp_nat_checksum, udp_nat_checksum}
use l4_loadbalancer.Checksum.{
  calculate, recalculate_tcp_checksum, recalculate_udp_checksum, update_tcp_checksum_ip,
  update_tcp_checksum_port, update_udp_checksum_ip, update_udp_checksum_port,
}

-- An IPv4 header of a 40-byte TCP packet from 10.0.0.1 to 10.0.0.2, as RFC 1071 sums it.
abbrev before_checksum : List ℕ
before_checksum = 0x45 ∷ 0x00 ∷ 0x00 ∷ 0x28 ∷ 0x00 ∷ 0x00 ∷ 0x40 ∷ 0x00 ∷ 0x40 ∷ 0x06 ∷ []

abbrev addresses : List ℕ
addresses = 10 ∷ 0 ∷ 0 ∷ 1 ∷ 10 ∷ 0 ∷ 0 ∷ 2 ∷ []

header_checksum : calculate (before_checksum ++ (0 ∷ 0 ∷ addresses)) ≡ 0xce26
unfolding calculate
header_checksum = refl

-- The rest of a TCP header with a zero checksum field, and three bytes of payload.
abbrev rest : List ℕ
rest = 0 ∷ 0 ∷ 0 ∷ 1 ∷ 0 ∷ 0 ∷ 0 ∷ 2 ∷ 0x50 ∷ 0x18 ∷ 4 ∷ 0 ∷ 0 ∷ 0 ∷ 0 ∷ 0 ∷ 65 ∷ 66 ∷ 67 ∷ []

-- 10.0.0.1:1025 -> 10.0.0.2:80 becomes 10.0.0.3:10000 -> 10.0.0.4:8080.
tcp_nat_checksum_example :
    update_tcp_checksum_port
      (update_tcp_checksum_port
        (update_tcp_checksum_ip
          (update_tcp_checksum_ip
            (recalculate_tcp_checksum 0x0100000a 0x0200000a 6 (with_ports 0x0104 0x5000 rest) 23)
            0x0100000a
            0x0300000a)
          0x0200000a
          0x0400000a)
        0x0104
        0x1027)
      0x5000
      0x901f
    ≡ recalculate_tcp_checksum 0x0300000a 0x0400000a 6 (with_ports 0x1027 0x901f rest) 23
tcp_nat_checksum_example =
    tcp_nat_checksum rest (omega arith) 6 23 (omega arith) (omega arith) (omega arith) (omega arith)
      0x0100000a 0x0200000a 0x0104 0x5000 0x0300000a 0x0400000a 0x1027 0x901f (omega arith)
      (omega arith) (omega arith) (omega arith) (omega arith) (omega arith) (omega arith)
      (omega arith)

udp_nat_checksum_example :
    update_udp_checksum_port
      (update_udp_checksum_port
        (update_udp_checksum_ip
          (update_udp_checksum_ip
            (recalculate_udp_checksum 0x0100000a 0x0200000a 17 (with_ports 0x0104 0x5000 rest) 23)
            0x0100000a
            0x0300000a)
          0x0200000a
          0x0400000a)
        0x0104
        0x1027)
      0x5000
      0x901f
    ≡ recalculate_udp_checksum 0x0300000a 0x0400000a 17 (with_ports 0x1027 0x901f rest) 23
udp_nat_checksum_example =
    udp_nat_checksum rest (omega arith) 17 23 (omega arith) (omega arith) (omega arith)
      (omega arith) 0x0100000a 0x0200000a 0x0104 0x5000 0x0300000a 0x0400000a 0x1027 0x901f
      (omega arith) (omega arith) (omega arith) (omega arith) (omega arith) (omega arith)
      (omega arith) (omega arith)
