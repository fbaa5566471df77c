-- ===== src/Parser/Bounds.antt =====
-- The offsets that `parse` stores, within the frame.
use l4_loadbalancer.Base.{
  ℕ, ◌+◌, ◌%◌, ◌^◌, ◌≤◌, ◌<◌, ◌≡◌, refl, ◌∙◌, Bool, true, false, not, ◌||◌, ◌&&◌, ◌==◌, ltb, arith,
  ltb-false, inl, inr, Bool-cases,
}
use l4_loadbalancer.Base.Bits.{has}
use l4_loadbalancer.Header.{
  Memory, ethernet_size, tcp_size, udp_size, icmp_size, ipv4_size, be16, is_tcp, is_udp, is_icmp,
  get_version, get_fragment, is_ipv4, get_header_len, get_total_length, get_data_offset,
}
use l4_loadbalancer.Parser.{
  ok, malformed, fragment, PacketMeta, finish, tcp_meta, udp_meta, ip_meta, parse_tcp, parse_udp,
  parse_l4, parse_ip, parse,
}

pub neither : (a b : Bool) → (a || b) ≡ false → (a ≡ false) × (b ≡ false)
neither true b e = cc e
neither false b e = (refl, e)

not_ok : malformed ≡ ok → ⊥
not_ok e = cc e

not_ok_fragment : fragment ≡ ok → ⊥
not_ok_fragment e = cc e

-- The layers follow one another within the frame of length `len`, and the payload is the rest.
pub record IsWithin (len : ℕ) (meta : PacketMeta) : Type 0 where
  pub l3 : meta.l3_offset ≡ ethernet_size
  pub l4 : ethernet_size + 20 ≤ meta.l4_offset
  pub payload : meta.l4_offset ≤ meta.payload_offset
  pub total : meta.payload_offset + meta.payload_len ≡ meta.total_len
  pub frame : meta.total_len ≤ len

-- Where the transport layer starts.
record IsAt (end : ℕ) (meta : PacketMeta) : Type 0 where
  l3 : meta.l3_offset ≡ ethernet_size
  l4 : ethernet_size + 20 ≤ meta.l4_offset
  payload : meta.payload_offset ≡ meta.l4_offset
  total : meta.total_len ≡ end
  fits : meta.l4_offset ≤ end

module _ (mem : Memory) (end len : ℕ) (meta : PacketMeta) (at : IsAt end meta) (le : end ≤ len)
    (small : len < 2 ^ 16) where
  finish-IsWithin :
      (m : PacketMeta)
      → m.l3_offset ≡ meta.l3_offset
      → m.l4_offset ≡ meta.l4_offset
      → m.total_len ≡ meta.total_len
      → meta.l4_offset ≤ m.payload_offset
      → m.payload_offset ≤ end
      → IsWithin len (finish end m).1
  finish-IsWithin m e3 e4 et low high = record {
    l3 = e3 ∙ at.l3;
    l4 = omega (arith, at.l4);
    payload = omega arith;
    total = omega (arith, at.total);
    frame = omega (arith, at.total);
  }

  parse_tcp-IsWithin : (parse_tcp mem end meta).0 ≡ ok → IsWithin len (parse_tcp mem end meta).1
  unfolding parse_tcp
  parse_tcp-IsWithin e =
      let tcp = meta.l4_offset in
      let doff = get_data_offset mem tcp in
      elim (Bool-cases (ltb end (tcp + tcp_size))) [
        | inl a ↦ absurd (not_ok (rw (parse_tcp, a) at e))
        | inr a ↦ elim (Bool-cases (ltb doff tcp_size || ltb end (tcp + doff))) [
          | inl b ↦ absurd (not_ok (rw (parse_tcp, a, b) at e))
          | inr b ↦
              rw (a, b)
                (finish-IsWithin (tcp_meta mem meta) refl refl refl (fits doff (neither _ _ b).1).0
                  (fits doff (neither _ _ b).1).1)
        ]
      ]
    where
      fits :
          (d : ℕ)
          → ltb end (meta.l4_offset + d) ≡ false
          → (meta.l4_offset ≤ (meta.l4_offset + d) % 2 ^ 16) × ((meta.l4_offset + d) % 2 ^ 16 ≤ end)
      fits d h = (
        omega (arith, ltb-false end (meta.l4_offset + d) h),
        omega (arith, ltb-false end (meta.l4_offset + d) h),
      )

  parse_udp-IsWithin : (parse_udp mem end meta).0 ≡ ok → IsWithin len (parse_udp mem end meta).1
  unfolding parse_udp
  parse_udp-IsWithin e =
      let udp = meta.l4_offset in
      let udp_len = be16 mem (udp + 4) in
      elim (Bool-cases (ltb end (udp + udp_size))) [
        | inl a ↦ absurd (not_ok (rw (parse_udp, a) at e))
        | inr a ↦ elim (Bool-cases (ltb udp_len udp_size || ltb end (udp + udp_len))) [
          | inl b ↦ absurd (not_ok (rw (parse_udp, a, b) at e))
          | inr b ↦
              rw (a, b)
                (finish-IsWithin (udp_meta mem meta) refl refl refl
                  (omega (arith, ltb-false end (udp + udp_size) a))
                  (omega (arith, ltb-false end (udp + udp_size) a)))
        ]
      ]

  parse_l4-IsWithin : (parse_l4 mem end meta).0 ≡ ok → IsWithin len (parse_l4 mem end meta).1
  unfolding parse_l4
  parse_l4-IsWithin e = elim (Bool-cases (is_tcp mem meta.l3_offset)) [
    | inl t ↦ rw t (parse_tcp-IsWithin (rw (parse_l4, t) at e))
    | inr t ↦ elim (Bool-cases (is_udp mem meta.l3_offset)) [
      | inl u ↦ rw (t, u) (parse_udp-IsWithin (rw (parse_l4, t, u) at e))
      | inr u ↦
          elim (Bool-cases (is_icmp mem meta.l3_offset && ltb end (meta.l4_offset + icmp_size))) [
            | inl i ↦ absurd (not_ok (rw (parse_l4, t, u, i) at e))
            | inr i ↦
                rw (t, u, i)
                  (finish-IsWithin meta refl refl refl (omega (arith, at.payload))
                    (omega (arith, at.payload, at.fits)))
          ]
    ]
  ]

module _ (mem : Memory) (len : ℕ) (meta : PacketMeta) (small : len < 2 ^ 16) where
  parse_ip-IsWithin :
      meta.l3_offset ≡ ethernet_size
      → (parse_ip mem len meta).0 ≡ ok
      → IsWithin len (parse_ip mem len meta).1
  unfolding parse_ip
  parse_ip-IsWithin e3 e =
      let ip = meta.l3_offset in
      let ihl = get_header_len mem ip in
      let ip_total = get_total_length mem ip in
      elim (Bool-cases (ltb len (ip + ipv4_size))) [
        | inl a ↦ absurd (not_ok (rw (parse_ip, a) at e))
        | inr a ↦
            elim (Bool-cases (
              not (get_version mem ip == 4)
              || (ltb ihl ipv4_size || (ltb ip_total ihl || ltb len (ip + ip_total))))) [
                | inl b ↦ absurd (not_ok (rw (parse_ip, a, b) at e))
                | inr b ↦
                    elim (Bool-cases
                      (has (get_fragment mem ip) 0x2000 || has (get_fragment mem ip) 0x1FFF)) [
                        | inl f ↦ absurd (not_ok_fragment (rw (parse_ip, a, b, f) at e))
                        | inr f ↦
                            rw (a, b, f)
                              (parse_l4-IsWithin mem (ip + ip_total) len (ip_meta mem meta)
                                (started b)
                                (omega (arith, ltb-false len (ip + ip_total) (tests b).2)) small
                                (rw (parse_ip, a, b, f) at e))
                      ]
              ]
      ]
    where
      ip : ℕ
      ip = meta.l3_offset

      ihl : ℕ
      ihl = get_header_len mem ip

      ip_total : ℕ
      ip_total = get_total_length mem ip

      tests :
          (not (get_version mem ip == 4)
              || (ltb ihl ipv4_size || (ltb ip_total ihl || ltb len (ip + ip_total))))
            ≡ false
          → (ltb ihl ipv4_size ≡ false)
            × (ltb ip_total ihl ≡ false)
            × (ltb len (ip + ip_total) ≡ false)
      tests b =
          let (v, c) = neither (not (get_version mem ip == 4)) _ b in
          let (h, d) = neither (ltb ihl ipv4_size) _ c in
          let (t, f) = neither (ltb ip_total ihl) (ltb len (ip + ip_total)) d in (h, t, f)

      started :
          (not (get_version mem ip == 4)
              || (ltb ihl ipv4_size || (ltb ip_total ihl || ltb len (ip + ip_total))))
            ≡ false
          → IsAt (ip + ip_total) (ip_meta mem meta)
      started b =
          let (h, t, f) = tests b in
          record {
            l3 = e3;
            l4 = omega (
              arith,
              ltb-false ihl ipv4_size h,
              ltb-false ip_total ihl t,
              ltb-false len (ip + ip_total) f,
              e3,
            );
            payload = refl;
            total = omega (arith, ltb-false len (ip + ip_total) f);
            fits = omega (arith, ltb-false ip_total ihl t, ltb-false len (ip + ip_total) f);
          }

-- If `parse` accepts an IPv4 frame of fewer than 65536 bytes, the IP header has its 20 bytes at
-- least, the transport header follows it, then the payload, which is the rest of the IP datagram;
-- and this ends within the frame. No offset has lost bits.
pub parse-IsWithin :
    (mem : Memory) (len : ℕ) (meta : PacketMeta)
    → len < 2 ^ 16
    → is_ipv4 mem ≡ true
    → (parse mem len meta).0 ≡ ok
    → IsWithin len (parse mem len meta).1
unfolding parse
parse-IsWithin mem len meta small v4 e = elim (Bool-cases (ltb len ethernet_size)) [
  | inl a ↦ absurd (not_ok (rw (parse, a) at e))
  | inr a ↦ rw (a, v4) (parse_ip-IsWithin mem len _ small refl (rw (parse, a, v4) at e))
]
