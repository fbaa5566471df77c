-- ===== src/Parser/Icmp.antt =====
-- The offsets that `parse_icmp_error` stores, within the message.
use l4_loadbalancer.Base.{
  ℕ, ◌+◌, ◌%◌, ◌^◌, ◌≤◌, ◌<◌, ◌≡◌, refl, ap, Bool, true, false, not, ◌||◌, ◌&&◌, ◌==◌, ltb,
  if◌then◌else◌, arith, ltb-false, Option, none, some,
}
use l4_loadbalancer.Base.Bits.{has}
use l4_loadbalancer.Header.{
  Memory, icmp_size, ipv4_size, is_tcp, is_udp, get_version, get_fragment, get_header_len,
  icmp_is_error,
}
use l4_loadbalancer.Parser.Bounds.{neither}
use l4_loadbalancer.Parser.{PacketMeta, parse_icmp_error, quoted_tuple, IcmpErrorInfo}
use l4_loadbalancer.Types.{FiveTuple}

-- A test that did not give up.
peel :
    {A : Type 0} (b : Bool) (x : Option A) (y : A)
    → (if b then none else x) ≡ some y
    → (b ≡ false) × (x ≡ some y)
peel true x y e = cc e
peel false x y e = (refl, e)

-- Whatever error message `parse_icmp_error` accepts, the quoted IP header and the 8 bytes after it
-- lie behind the outer ICMP header and within the message, for messages of fewer than 65536 bytes.
pub parse_icmp_error-inner :
    (mem : Memory) (meta : PacketMeta) (info : IcmpErrorInfo)
    → meta.total_len < 2 ^ 16
    → parse_icmp_error mem meta ≡ some info
    → (meta.l4_offset + icmp_size ≡ info.inner_l3_offset)
      × (info.inner_l3_offset + ipv4_size ≤ info.inner_l4_offset)
      × (info.inner_l4_offset + 8 ≤ meta.total_len)
unfolding parse_icmp_error
parse_icmp_error-inner mem meta info small e =
    let inner_l3 = meta.l4_offset + icmp_size in
    let ihl = get_header_len mem inner_l3 in
    let bad_header = not (get_version mem inner_l3 == 4) || ltb ihl ipv4_size in
    let (a, e1) = peel (not (icmp_is_error (mem meta.l4_offset))) _ _ e in
    let (b, e2) = peel (ltb meta.total_len (inner_l3 + ipv4_size)) _ _ e1 in
    let (c, e3) = peel bad_header _ _ e2 in
    let (d, e4) = peel (not (is_tcp mem inner_l3) && not (is_udp mem inner_l3)) _ _ e3 in
    let (f, e5) = peel (has (get_fragment mem inner_l3) 0x1FFF) _ _ e4 in
    let (g, e6) = peel (ltb meta.total_len (inner_l3 + ihl + 8)) _ _ e5 in
    let (v, h) = neither (not (get_version mem inner_l3 == 4)) (ltb ihl ipv4_size) c in
    placed inner_l3 ihl meta.total_len (quoted_tuple mem inner_l3) info small
      (ltb-false meta.total_len (inner_l3 + get_header_len mem inner_l3 + 8) g)
      (ltb-false (get_header_len mem inner_l3) ipv4_size h) e6
  where
    offsets : Option IcmpErrorInfo → ℕ × ℕ
    offsets none = (0, 0)
    offsets (some i) = (i.inner_l3_offset, i.inner_l4_offset)

    placed :
        (l3 ihl total : ℕ) (inner : FiveTuple) (info : IcmpErrorInfo)
        → total < 2 ^ 16
        → l3 + ihl + 8 ≤ total
        → ipv4_size ≤ ihl
        → some (record {
          inner_l3_offset = l3 % 2 ^ 16;
          inner_l4_offset = (l3 + ihl) % 2 ^ 16;
          inner = inner;
        })
          ≡ some info
        → (l3 ≡ info.inner_l3_offset)
          × (info.inner_l3_offset + ipv4_size ≤ info.inner_l4_offset)
          × (info.inner_l4_offset + 8 ≤ total)
    placed l3 ihl total inner info small fit low e =
        let e3 = ap (λ o. (offsets o).0) e in
        let e4 = ap (λ o. (offsets o).1) e in (omega arith, omega arith, omega arith)
