-- ===== src/Receiver/Ports.antt =====
-- `Dispatcher::target` of src/dataplane/receiver.cpp reads the five-tuple that `parse` of
-- src/protocol/parser.cpp stores.
use l4_loadbalancer.Base.Bits.{has, bit_and-Covers, fragment_mask}
use l4_loadbalancer.Base.{
  ℕ, ◌+◌, ◌^◌, ◌≤◌, ◌<◌, ◌≡◌, refl, Bool, true, false, not, ◌||◌, ◌&&◌, ◌==◌, ltb, if◌then◌else◌,
  arith, Bool-cases, inl, inr, ==_iff, ltb-false, bit_and, le→leb,
}
use l4_loadbalancer.Header.{
  Memory, be16, ethernet_size, ipv4_size, tcp_size, udp_size, icmp_size, is_ipv4, is_tcp, is_udp,
  is_icmp, get_header_len, get_total_length, get_version, get_fragment, get_protocol,
  get_data_offset, mac_at, get_ether_type,
}
use l4_loadbalancer.Parser.Bounds.{neither}
use l4_loadbalancer.Parser.{
  ParseResult, PacketMeta, to_five_tuple, ip_meta, parse_tcp, parse_udp, parse_l4, parse_ip, parse,
}
use l4_loadbalancer.Receiver.{ip_at, has_ports, frame_tuple}

-- Of an accepted frame with TCP or UDP, the receiver can read the ports, and it reads the tuple of `meta`.
abbrev pub Ports : Memory → ℕ → ParseResult × PacketMeta → Type 0
Ports mem len (ParseResult.ok, meta) =
    (meta.ip_protocol ≡ get_protocol mem ip_at)
    × ((meta.ip_protocol == 6 || meta.ip_protocol == 17) ≡ true
        → (has_ports mem len ≡ true)
          × (to_five_tuple meta ≡ frame_tuple mem)
          × (ethernet_size + ipv4_size ≤ len))
Ports mem len (_, meta) = Unit

Ports-if :
    (mem : Memory) (len : ℕ) (b : Bool) (x y : ParseResult × PacketMeta)
    → (b ≡ true → Ports mem len x)
    → (b ≡ false → Ports mem len y)
    → Ports mem len (if b then x else y)
Ports-if mem len true x y h k = h refl
Ports-if mem len false x y h k = k refl

mask_clear : (x m : ℕ) → has x m ≡ false → bit_and x m ≡ 0
mask_clear x m e = elim (Bool-cases (bit_and x m == 0)) [
  | inl z ↦ (==_iff (bit_and x m) 0).0 z
  | inr z ↦ cc (rw z at e)
]

module _ (mem : Memory) (len end : ℕ) (m : PacketMeta) (small : len < 2 ^ 16) (le : end ≤ len)
    (fragment : bit_and (get_fragment mem ip_at) 0x3FFF ≡ 0)
    (header : ipv4_size ≤ get_header_len mem ip_at)
    (fits : ethernet_size + get_header_len mem ip_at ≤ end) where
  abbrev meta : PacketMeta
  meta = ip_meta mem (record m { l3_offset = ethernet_size })

  at_l4 : meta.l4_offset ≡ ethernet_size + get_header_len mem ip_at
  at_l4 = omega (arith, small, le, fits)

  can_read :
      (get_protocol mem ip_at == 6 || get_protocol mem ip_at == 17) ≡ true
      → ethernet_size + get_header_len mem ip_at + 4 ≤ len
      → has_ports mem len ≡ true
  unfolding has_ports
  can_read l4 room =
      rw
        (
          l4,
          (==_iff (bit_and (get_fragment mem ip_at) 0x3FFF) 0).1 fragment,
          le→leb ipv4_size (get_header_len mem ip_at) header,
          le→leb (ethernet_size + get_header_len mem ip_at + 4) len room,
        )
        refl

  parse_tcp-Ports : Ports mem len (parse_tcp mem end meta)
  unfolding parse_tcp to_five_tuple frame_tuple
  parse_tcp-Ports =
      let tcp = meta.l4_offset in
      let doff = get_data_offset mem tcp in
      Ports-if mem len (ltb end (tcp + tcp_size)) _ _ (λ a. tt)
        (λ a.
          Ports-if mem len (ltb doff tcp_size || ltb end (tcp + doff)) _ _ (λ b. tt)
            (λ b. (
              refl,
              λ l4. (
                can_read l4 (omega (arith, at_l4, ltb-false end (tcp + tcp_size) a, le)),
                rw at_l4 refl,
                omega (arith, fits, le, header),
              ),
            )))

  parse_udp-Ports : Ports mem len (parse_udp mem end meta)
  unfolding parse_udp to_five_tuple frame_tuple
  parse_udp-Ports =
      let udp = meta.l4_offset in
      let udp_len = be16 mem (udp + 4) in
      Ports-if mem len (ltb end (udp + udp_size)) _ _ (λ a. tt)
        (λ a.
          Ports-if mem len (ltb udp_len udp_size || ltb end (udp + udp_len)) _ _ (λ b. tt)
            (λ b. (
              refl,
              λ l4. (
                can_read l4 (omega (arith, at_l4, ltb-false end (udp + udp_size) a, le)),
                rw at_l4 refl,
                omega (arith, fits, le, header),
              ),
            )))

  parse_l4-Ports : Ports mem len (parse_l4 mem end meta)
  unfolding parse_l4 is_tcp is_udp
  parse_l4-Ports =
      Ports-if mem len (is_tcp mem ip_at) _ _ (λ t. parse_tcp-Ports)
        (λ t.
          Ports-if mem len (is_udp mem ip_at) _ _ (λ u. parse_udp-Ports)
            (λ u.
              Ports-if mem len (is_icmp mem ip_at && ltb end (meta.l4_offset + icmp_size)) _ _
                (λ i. tt) (λ i. (refl, λ l4. cc (rw (t, u) at l4)))))

-- What `parse` has stored before it looks at the IP header.
abbrev begun : Memory → PacketMeta → PacketMeta
begun mem blank = record blank {
  dst_mac = mac_at mem 0;
  src_mac = mac_at mem 6;
  ether_type = get_ether_type mem;
  l2_offset = 0;
  l3_offset = ethernet_size;
  src_port = 0;
  dst_port = 0;
  tcp_flags = 0;
}

-- For a frame of fewer than 65536 bytes with an IPv4 header.
pub parse-Ports :
    (mem : Memory) (len : ℕ) (blank : PacketMeta)
    → len < 2 ^ 16
    → is_ipv4 mem ≡ true
    → Ports mem len (parse mem len blank)
unfolding parse parse_ip
parse-Ports mem len blank small v4 =
    let ihl = get_header_len mem ip_at in
    let total = get_total_length mem ip_at in
    Ports-if mem len (ltb len ethernet_size) _ _ (λ a. tt)
      (λ a.
        Ports-if mem len (is_ipv4 mem) _ _
          (λ v.
            Ports-if mem len (ltb len (ip_at + ipv4_size)) _ _ (λ b. tt)
              (λ b.
                Ports-if mem len
                  (not (get_version mem ip_at == 4)
                    || (ltb ihl ipv4_size || (ltb total ihl || ltb len (ip_at + total))))
                  _ _ (λ c. tt)
                  (λ c.
                    let (_, d) = neither (not (get_version mem ip_at == 4)) _ c in
                    let (h, e) = neither (ltb ihl ipv4_size) _ d in
                    let (t, f) = neither (ltb total ihl) (ltb len (ip_at + total)) e in
                    let header = ltb-false ihl ipv4_size h in
                    let within = ltb-false total ihl t in
                    let le = ltb-false len (ip_at + total) f in
                    Ports-if mem len
                      (has (get_fragment mem ip_at) 0x2000 || has (get_fragment mem ip_at) 0x1FFF) _
                      _ (λ g. tt)
                      (λ g.
                        let (more, offset) = neither (has (get_fragment mem ip_at) 0x2000) _ g in
                        let whole =
                          bit_and-Covers (get_fragment mem ip_at) 0x3FFF 0x2000 0x1FFF fragment_mask
                            (mask_clear _ _ more) (mask_clear _ _ offset) in
                        parse_l4-Ports mem len (ip_at + total) (begun mem blank) small le whole
                          header (omega (arith, within))))))
          (λ v. cc (v4, v)))
