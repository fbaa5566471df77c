-- ===== src/Rewrite/Frame.antt =====
-- The frame that `nat_rewrite` leaves: its addresses, its ports, its TTL and its MAC addresses.
use l4_loadbalancer.Base.{
  ℕ, ◌+◌, ◌-◌, ◌^◌, ◌≤◌, ◌<◌, ◌≡◌, refl, ◌∙◌, ap, false, ◌&&◌, arith, leb, le→leb, Bool-cases, inl,
  inr, List, [], ◌∷◌, length,
}
use l4_loadbalancer.Base.Bits.{has}
use l4_loadbalancer.Header.{
  mac_at, tcp_size, get_data_offset, Memory, le16, le32, is_tcp, is_udp, get_protocol,
}
use l4_loadbalancer.Mbuf.Bytes.{
  write-before, write-after, write-at, put16-before, le16-put16, le16-same, le32-same,
}
use l4_loadbalancer.Mbuf.{bytes_at, Mbuf, Dpdk, write, put16, set_mem}
use l4_loadbalancer.Parser.{PacketMeta}
use l4_loadbalancer.Rewrite.{strip_timestamp}
use l4_loadbalancer.TcpState.{tcp_flag_syn}
use l4_loadbalancer.Types.{MacAddr}
use l4_loadbalancer.Rewrite.Nat.{
  NatRewrite, NatOptions, RewriteResult, RewriteOutcome, TcpEdit, rewrite_ip, set_macs, rewrite_l4,
  rewrite_edited, edit_options, edit_toa, edit_strip, nat_rewrite,
}
use l4_loadbalancer.Rewrite.Fields.{
  rewrite_ip-low, rewrite_ip-ttl, rewrite_ip-src, rewrite_ip-dst, rewrite_l4-before, ported, HasL4,
}

-- The fields of a frame that `mem` became: `ip` and `l4` are the offsets of its headers.
pub record IsRewritten (mem mem' : Memory) (ip l4 : ℕ) (rw_to : NatRewrite) : Type 0 where
  pub src_ip : le32 mem' (ip + 12) ≡ rw_to.src_ip
  pub dst_ip : le32 mem' (ip + 16) ≡ rw_to.dst_ip
  pub src_port : le16 mem' l4 ≡ rw_to.src_port
  pub dst_port : le16 mem' (l4 + 2) ≡ rw_to.dst_port
  pub ttl : mem' (ip + 8) ≡ mem (ip + 8) - 1
  pub protocol : get_protocol mem' ip ≡ get_protocol mem ip
  pub dst_mac : mac_at mem' 0 ≡ rw_to.dst_mac
  pub src_mac : mac_at mem' 6 ≡ rw_to.src_mac

six : (mac : MacAddr) (mem : Memory) (at : ℕ) → length mac ≡ 6 → mac_at (write mem at mac) at ≡ mac
six [] mem at h = absurd (omega (arith, h))
six (a ∷ []) mem at h = absurd (omega (arith, h))
six (a ∷ b ∷ []) mem at h = absurd (omega (arith, h))
six (a ∷ b ∷ c ∷ []) mem at h = absurd (omega (arith, h))
six (a ∷ b ∷ c ∷ d ∷ []) mem at h = absurd (omega (arith, h))
six (a ∷ b ∷ c ∷ d ∷ e ∷ []) mem at h = absurd (omega (arith, h))
six (a ∷ b ∷ c ∷ d ∷ e ∷ f ∷ g ∷ rest) mem at h = absurd (omega (arith, h))
six (a ∷ b ∷ c ∷ d ∷ e ∷ f ∷ []) mem at h =
    let mac = a ∷ b ∷ c ∷ d ∷ e ∷ f ∷ [] in
    rw
      (
        write-at mem at mac at 0 (omega arith) (omega arith),
        write-at mem at mac (at + 1) 1 (omega arith) (omega arith),
        write-at mem at mac (at + 2) 2 (omega arith) (omega arith),
        write-at mem at mac (at + 3) 3 (omega arith) (omega arith),
        write-at mem at mac (at + 4) 4 (omega arith) (omega arith),
        write-at mem at mac (at + 5) 5 (omega arith) (omega arith),
      )
      refl

mac_at-before : (mem : Memory) (bs : List ℕ) → mac_at (write mem 6 bs) 0 ≡ mac_at mem 0
mac_at-before mem bs =
    rw
      (
        write-before mem 6 bs 0 (omega arith),
        write-before mem 6 bs 1 (omega arith),
        write-before mem 6 bs 2 (omega arith),
        write-before mem 6 bs 3 (omega arith),
        write-before mem 6 bs 4 (omega arith),
        write-before mem 6 bs 5 (omega arith),
      )
      refl

module _ (dpdk : Dpdk) where
  module _ (e : TcpEdit) (rw_to : NatRewrite) (opt : NatOptions)
      (has_l4 : HasL4 e.mbuf.mem e.meta.l3_offset) (after_eth : 14 ≤ e.meta.l3_offset)
      (after_ip : e.meta.l3_offset + 20 ≤ e.meta.l4_offset) (src_small : rw_to.src_ip < 2 ^ 32)
      (dst_small : rw_to.dst_ip < 2 ^ 32) (sport_small : rw_to.src_port < 2 ^ 16)
      (dport_small : rw_to.dst_port < 2 ^ 16) (dst_six : length rw_to.dst_mac ≡ 6)
      (src_six : length rw_to.src_mac ≡ 6) where
    abbrev ip : ℕ
    ip = e.meta.l3_offset

    abbrev l4 : ℕ
    l4 = e.meta.l4_offset

    abbrev before : Memory
    before = e.mbuf.mem

    abbrev headed : Memory
    headed = rewrite_ip before ip rw_to.src_ip rw_to.dst_ip

    abbrev with_ports : Memory
    with_ports = ported headed l4 rw_to.src_port rw_to.dst_port

    -- Before the MAC addresses are written, and between the two.
    abbrev unaddressed : Memory
    unaddressed =
        (rewrite_l4 dpdk (record e { mbuf = set_mem e.mbuf headed }) rw_to ip
          (le32 before (ip + 12)) (le32 before (ip + 16)) opt).mem

    abbrev half : Memory
    half = write unaddressed 0 rw_to.dst_mac

    abbrev after : Memory
    after = (rewrite_edited dpdk e rw_to opt).mem

    headed-protocol : get_protocol headed ip ≡ get_protocol before ip
    unfolding get_protocol
    headed-protocol =
        rewrite_ip-low before ip rw_to.src_ip rw_to.dst_ip (ip + 9) (omega arith) (omega arith)

    same_l4 : HasL4 before ip → HasL4 headed ip
    unfolding is_tcp is_udp
    same_l4 (inl t) = inl (rw headed-protocol t)
    same_l4 (inr (t, u)) = inr (rw headed-protocol t, rw headed-protocol u)

    -- Past the MAC addresses and up to the ports.
    after-mid : (i : ℕ) → 12 ≤ i → i < l4 + 4 → after i ≡ with_ports i
    unfolding rewrite_edited set_macs
    after-mid i low high =
        write-after half 6 rw_to.src_mac i (omega (arith, low, src_six))
        ∙ write-after unaddressed 0 rw_to.dst_mac i (omega (arith, low, dst_six))
        ∙ rewrite_l4-before dpdk (record e { mbuf = set_mem e.mbuf headed }) rw_to ip
            (le32 before (ip + 12)) (le32 before (ip + 16)) opt i (same_l4 has_l4) high

    ports-out : (i : ℕ) → i < l4 → with_ports i ≡ headed i
    ports-out i h =
        put16-before (put16 headed l4 rw_to.src_port) (l4 + 2) rw_to.dst_port i (omega (arith, h))
        ∙ put16-before headed l4 rw_to.src_port i h

    after-head : (i : ℕ) → 12 ≤ i → i < l4 → after i ≡ headed i
    after-head i low high = after-mid i low (omega (arith, high)) ∙ ports-out i high

    after-macs : (mac_at after 0 ≡ rw_to.dst_mac) × (mac_at after 6 ≡ rw_to.src_mac)
    unfolding rewrite_edited set_macs
    after-macs = (
      mac_at-before half rw_to.src_mac ∙ six rw_to.dst_mac unaddressed 0 dst_six,
      six rw_to.src_mac half 6 src_six,
    )

    rewrite_edited-IsRewritten : IsRewritten before after ip l4 rw_to
    unfolding get_protocol
    rewrite_edited-IsRewritten = record {
      src_ip =
          le32-same headed after (ip + 12)
            (λ k a b. after-head k (omega (arith, a)) (omega (arith, b, after_ip)))
          ∙ rewrite_ip-src before ip rw_to.src_ip rw_to.dst_ip src_small;
      dst_ip =
          le32-same headed after (ip + 16)
            (λ k a b. after-head k (omega (arith, a)) (omega (arith, b, after_ip)))
          ∙ rewrite_ip-dst before ip rw_to.src_ip rw_to.dst_ip dst_small;
      src_port =
          le16-same (put16 headed l4 rw_to.src_port) after l4
            (after-mid l4 (omega (arith, after_eth, after_ip)) (omega arith)
              ∙ put16-before (put16 headed l4 rw_to.src_port) (l4 + 2) rw_to.dst_port l4
                  (omega arith))
            (after-mid (l4 + 1) (omega (arith, after_eth, after_ip)) (omega arith)
              ∙ put16-before (put16 headed l4 rw_to.src_port) (l4 + 2) rw_to.dst_port (l4 + 1)
                  (omega arith))
          ∙ le16-put16 headed l4 rw_to.src_port sport_small;
      dst_port =
          le16-same with_ports after (l4 + 2)
            (after-mid (l4 + 2) (omega (arith, after_eth, after_ip)) (omega arith))
            (after-mid (l4 + 2 + 1) (omega (arith, after_eth, after_ip)) (omega arith))
          ∙ le16-put16 (put16 headed l4 rw_to.src_port) (l4 + 2) rw_to.dst_port dport_small;
      ttl =
          after-head (ip + 8) (omega (arith, after_eth)) (omega (arith, after_ip))
          ∙ rewrite_ip-ttl before ip rw_to.src_ip rw_to.dst_ip;
      protocol =
          after-head (ip + 9) (omega (arith, after_eth)) (omega (arith, after_ip))
          ∙ headed-protocol;
      dst_mac = after-macs.0;
      src_mac = after-macs.1;
    }

-- `strip_timestamp` writes to the options only.
edit_strip-kept :
    (opt : NatOptions) (e : TcpEdit)
    → ((edit_strip opt e).meta ≡ e.meta)
      × ((i : ℕ) → i < e.meta.l4_offset + 20 → (edit_strip opt e).mbuf.mem i ≡ e.mbuf.mem i)
unfolding edit_strip
edit_strip-kept opt e =
    let mem = e.mbuf.mem in
    let tcp = e.meta.l4_offset in
    let options = bytes_at mem (get_data_offset mem tcp - tcp_size) (tcp + tcp_size) in
    elim (Bool-cases
      (opt.strip_ts && (has (mem (tcp + 13)) tcp_flag_syn && (strip_timestamp options).1))) [
        | inl q ↦
            rw (edit_strip, q)
              (refl, λ i h. write-before mem (tcp + tcp_size) (strip_timestamp options).0 i h)
        | inr q ↦ rw (edit_strip, q) (refl, λ i h. refl)
      ]

-- Without the option of the client's address the offsets and the IP header are not touched before.
edit-kept :
    (dpdk : Dpdk) (opt : NatOptions) (e : TcpEdit)
    → opt.add_toa ≡ false
    → ((edit_options dpdk opt e).meta ≡ e.meta)
      × ((i : ℕ) → i < e.meta.l4_offset + 20 → (edit_options dpdk opt e).mbuf.mem i ≡ e.mbuf.mem i)
unfolding edit_options edit_toa
edit-kept dpdk opt e h = elim (Bool-cases (is_tcp e.mbuf.mem e.meta.l3_offset)) [
  | inl t ↦ rw (edit_options, t, edit_toa, h) (edit_strip-kept opt e)
  | inr t ↦ rw (edit_options, t) (refl, λ i b. refl)
]

module _ (dpdk : Dpdk) (m : Mbuf) (meta : PacketMeta) (rw_to : NatRewrite) (opt : NatOptions)
    (out : RewriteOutcome) (no_toa : opt.add_toa ≡ false) where
  -- A packet whose TTL ends here is left as it is.
  expired :
      m.mem (meta.l3_offset + 8) ≤ 1
      → nat_rewrite dpdk m meta rw_to opt out ≡ (RewriteResult.ttl_exceeded, m, meta, out)
  unfolding nat_rewrite
  expired h = rw (le→leb _ 1 h) refl

  abbrev edited : TcpEdit
  edited = edit_options dpdk opt (record { mbuf = m; meta = meta; out = out; l4_full = false })

  kept-HasL4 :
      14 ≤ meta.l3_offset
      → meta.l3_offset + 20 ≤ meta.l4_offset
      → HasL4 m.mem meta.l3_offset
      → HasL4 edited.mbuf.mem meta.l3_offset
  unfolding is_tcp is_udp get_protocol
  kept-HasL4 low high has_l4 = moved has_l4
    where
      same : edited.mbuf.mem (meta.l3_offset + 9) ≡ m.mem (meta.l3_offset + 9)
      same =
          (edit-kept dpdk opt (record { mbuf = m; meta = meta; out = out; l4_full = false })
              no_toa).1
            (meta.l3_offset + 9) (omega (arith, high))

      moved : HasL4 m.mem meta.l3_offset → HasL4 edited.mbuf.mem meta.l3_offset
      moved (inl t) = inl (rw same t)
      moved (inr (t, u)) = inr (rw same t, rw same u)

  at_old_ttl :
      (mem mem' old : Memory) (at tp : ℕ)
      → mem (at + 8) ≡ old (at + 8)
      → mem (at + 9) ≡ old (at + 9)
      → IsRewritten mem mem' at tp rw_to
      → IsRewritten old mem' at tp rw_to
  unfolding get_protocol
  at_old_ttl mem mem' old at tp a b v = record {
    src_ip = v.src_ip;
    dst_ip = v.dst_ip;
    src_port = v.src_port;
    dst_port = v.dst_port;
    ttl = v.ttl ∙ ap (λ x. x - 1) a;
    protocol = v.protocol ∙ b;
    dst_mac = v.dst_mac;
    src_mac = v.src_mac;
  }

  at_offsets :
      (mem mem' : Memory) (a b : PacketMeta)
      → a ≡ b
      → IsRewritten mem mem' a.l3_offset a.l4_offset rw_to
      → IsRewritten mem mem' b.l3_offset b.l4_offset rw_to
  at_offsets mem mem' a b e v = rw (← e) v

  -- A TCP or UDP packet behind an Ethernet header, with addresses and ports of the width of their fields,
  -- that needs no option for the client's address: if its TTL is 1 at most, nothing is changed. Else the
  -- frame that is sent has the addresses, the ports and the MAC addresses that were asked for, the same
  -- protocol, and a TTL lower by one, however its checksums are computed.
  pub nat_rewrite-IsRewritten :
      14 ≤ meta.l3_offset
      → meta.l3_offset + 20 ≤ meta.l4_offset
      → HasL4 m.mem meta.l3_offset
      → rw_to.src_ip < 2 ^ 32
      → rw_to.dst_ip < 2 ^ 32
      → rw_to.src_port < 2 ^ 16
      → rw_to.dst_port < 2 ^ 16
      → length rw_to.dst_mac ≡ 6
      → length rw_to.src_mac ≡ 6
      → (m.mem (meta.l3_offset + 8) ≤ 1
          → nat_rewrite dpdk m meta rw_to opt out ≡ (RewriteResult.ttl_exceeded, m, meta, out))
        × (1 < m.mem (meta.l3_offset + 8)
            → ((nat_rewrite dpdk m meta rw_to opt out).0 ≡ RewriteResult.ok)
              × IsRewritten m.mem
                  (nat_rewrite dpdk m meta rw_to opt out).1.mem
                  meta.l3_offset
                  meta.l4_offset
                  rw_to)
  unfolding nat_rewrite
  nat_rewrite-IsRewritten low high has_l4 src dst sport dport dst_mac src_mac = (
    expired,
    λ alive.
        let old : TcpEdit = record { mbuf = m; meta = meta; out = out; l4_full = false } in
        let (same_meta, same) = edit-kept dpdk opt old no_toa in
        rw (lt→leb-false (m.mem (meta.l3_offset + 8)) alive) (
          refl,
          at_old_ttl edited.mbuf.mem (rewrite_edited dpdk edited rw_to opt).mem m.mem meta.l3_offset
              meta.l4_offset (same (meta.l3_offset + 8) (omega (arith, high)))
              (same (meta.l3_offset + 9) (omega (arith, high)))
              (at_offsets edited.mbuf.mem (rewrite_edited dpdk edited rw_to opt).mem edited.meta
                meta same_meta
                (rewrite_edited-IsRewritten dpdk edited rw_to opt
                  (rw same_meta (kept-HasL4 low high has_l4)) (rw same_meta low) (rw same_meta high)
                  src dst sport dport dst_mac src_mac)),
        ),
  )
    where
      lt→leb-false : (t : ℕ) → 1 < t → leb t 1 ≡ false
      lt→leb-false t h = ground arith
