-- ===== src/Rewrite/Fields.antt =====
-- What the steps of `nat_rewrite` write to a frame: the IP header, the ports, the checksums.
use l4_loadbalancer.Base.{
  ℕ, ◌+◌, ◌-◌, ◌^◌, ◌≤◌, ◌<◌, ◌≡◌, refl, ◌∙◌, ap, Bool, true, false, ◌==◌, arith, Bool-cases, inl,
  inr, ◌⊎◌, List, [], ◌∷◌,
}
use l4_loadbalancer.Base.Bits.{has}
use l4_loadbalancer.Header.{Memory, le16, le32, is_tcp, is_udp}
use l4_loadbalancer.Mbuf.Bytes.{
  write-after, write-at, put16-before, put16-after, put32-before, put32-after, le32-put32,
  le32-same,
}
use l4_loadbalancer.Mbuf.{Mbuf, Dpdk, write, put16, put32, set_mem}
use l4_loadbalancer.Parser.{PacketMeta}
use l4_loadbalancer.Rewrite.Nat.{
  NatRewrite, NatOptions, TcpEdit, ip_checksum, rewrite_ip, l4_checksum_full, rewrite_tcp,
  rewrite_udp, rewrite_l4,
}

-- The checksum of the IP header is all that `ip_checksum` writes.
ip_checksum-out-before : (mem : Memory) (ip i : ℕ) → i < ip + 10 → ip_checksum mem ip i ≡ mem i
unfolding ip_checksum
ip_checksum-out-before mem ip i h =
    put16-before (put16 mem (ip + 10) 0) (ip + 10) _ i h ∙ put16-before mem (ip + 10) 0 i h

ip_checksum-out-after : (mem : Memory) (ip i : ℕ) → ip + 12 ≤ i → ip_checksum mem ip i ≡ mem i
unfolding ip_checksum
ip_checksum-out-after mem ip i h =
    put16-after (put16 mem (ip + 10) 0) (ip + 10) _ i (omega (arith, h))
    ∙ put16-after mem (ip + 10) 0 i (omega (arith, h))

module _ (mem : Memory) (ip src dst : ℕ) where
  abbrev addressed : Memory
  addressed = put32 (put32 mem (ip + 12) src) (ip + 16) dst

  abbrev ttl_bytes : List ℕ
  ttl_bytes = (addressed (ip + 8) - 1) ∷ []

  abbrev lowered : Memory
  lowered = write addressed (ip + 8) ttl_bytes

  rewrite_ip-out : (i : ℕ) → ip + 20 ≤ i → rewrite_ip mem ip src dst i ≡ mem i
  unfolding rewrite_ip
  rewrite_ip-out i h =
      ip_checksum-out-after lowered ip i (omega (arith, h))
      ∙ write-after addressed (ip + 8) ttl_bytes i (omega (arith, h))
      ∙ put32-after (put32 mem (ip + 12) src) (ip + 16) dst i (omega (arith, h))
      ∙ put32-after mem (ip + 12) src i (omega (arith, h))

  pub rewrite_ip-low : (i : ℕ) → ip + 9 ≤ i → i < ip + 10 → rewrite_ip mem ip src dst i ≡ mem i
  unfolding rewrite_ip
  rewrite_ip-low i h k =
      ip_checksum-out-before lowered ip i k
      ∙ write-after addressed (ip + 8) ttl_bytes i (omega (arith, h))
      ∙ put32-before (put32 mem (ip + 12) src) (ip + 16) dst i (omega (arith, k))
      ∙ put32-before mem (ip + 12) src i (omega (arith, k))

  pub rewrite_ip-ttl : rewrite_ip mem ip src dst (ip + 8) ≡ mem (ip + 8) - 1
  unfolding rewrite_ip
  rewrite_ip-ttl =
      ip_checksum-out-before lowered ip (ip + 8) (omega arith)
      ∙ write-at addressed (ip + 8) ttl_bytes (ip + 8) 0 (omega arith) (omega arith)
      ∙ ap (λ x. x - 1)
          (put32-before (put32 mem (ip + 12) src) (ip + 16) dst (ip + 8) (omega arith)
            ∙ put32-before mem (ip + 12) src (ip + 8) (omega arith))

  rewrite_ip-mid : (i : ℕ) → ip + 12 ≤ i → rewrite_ip mem ip src dst i ≡ addressed i
  unfolding rewrite_ip
  rewrite_ip-mid i h =
      ip_checksum-out-after lowered ip i h
      ∙ write-after addressed (ip + 8) ttl_bytes i (omega (arith, h))

  pub rewrite_ip-src : src < 2 ^ 32 → le32 (rewrite_ip mem ip src dst) (ip + 12) ≡ src
  rewrite_ip-src h =
      le32-same (put32 mem (ip + 12) src) (rewrite_ip mem ip src dst) (ip + 12) (λ k a b.
        rewrite_ip-mid k a
        ∙ put32-before (put32 mem (ip + 12) src) (ip + 16) dst k (omega (arith, b)))
      ∙ le32-put32 mem (ip + 12) src h

  pub rewrite_ip-dst : dst < 2 ^ 32 → le32 (rewrite_ip mem ip src dst) (ip + 16) ≡ dst
  rewrite_ip-dst h =
      le32-same addressed (rewrite_ip mem ip src dst) (ip + 16)
        (λ k a b. rewrite_ip-mid k (omega (arith, a)))
      ∙ le32-put32 (put32 mem (ip + 12) src) (ip + 16) dst h

abbrev pub ported : Memory → ℕ → ℕ → ℕ → Memory
ported mem l4 src_port dst_port = put16 (put16 mem l4 src_port) (l4 + 2) dst_port

abbrev pub HasL4 : Memory → ℕ → Type 0
HasL4 mem ip = (is_tcp mem ip ≡ true) ⊎ ((is_tcp mem ip ≡ false) × (is_udp mem ip ≡ true))

module _ (dpdk : Dpdk) where
  -- Below the checksum of the transport header there are only the ports.
  full-before :
      (m : Mbuf) (ip l4 : ℕ) (meta : PacketMeta) (offloads i : ℕ)
      → i < l4 + 4
      → (l4_checksum_full dpdk m ip l4 meta offloads).mem i ≡ m.mem i
  unfolding l4_checksum_full
  full-before m ip l4 meta offloads i h = elim (Bool-cases (is_tcp m.mem ip)) [
    | inl t ↦ elim (Bool-cases (has offloads dpdk.offload_tcp_cksum)) [
      | inl q ↦ rw (l4_checksum_full, t, q) (put16-before m.mem (l4 + 16) _ i (omega (arith, h)))
      | inr q ↦
          rw (l4_checksum_full, t, q)
            (put16-before (put16 m.mem (l4 + 16) 0) (l4 + 16) _ i (omega (arith, h))
              ∙ put16-before m.mem (l4 + 16) 0 i (omega (arith, h)))
    ]
    | inr t ↦ elim (Bool-cases (has offloads dpdk.offload_udp_cksum)) [
      | inl q ↦ rw (l4_checksum_full, t, q) (put16-before m.mem (l4 + 6) _ i (omega (arith, h)))
      | inr q ↦
          rw (l4_checksum_full, t, q)
            (put16-before (put16 m.mem (l4 + 6) 0) (l4 + 6) _ i (omega (arith, h))
              ∙ put16-before m.mem (l4 + 6) 0 i (omega (arith, h)))
    ]
  ]

  rewrite_tcp-before :
      (m : Mbuf) (meta : PacketMeta) (rw_to : NatRewrite) (ip old_src old_dst : ℕ) (full : Bool)
      (offloads i : ℕ)
      → i < meta.l4_offset + 4
      → (rewrite_tcp dpdk m meta rw_to ip old_src old_dst full offloads).mem i
        ≡ ported m.mem meta.l4_offset rw_to.src_port rw_to.dst_port i
  unfolding rewrite_tcp
  rewrite_tcp-before m meta rw_to ip old_src old_dst true offloads i h =
      full-before (set_mem m (ported m.mem meta.l4_offset rw_to.src_port rw_to.dst_port)) ip
        meta.l4_offset meta offloads i h
  rewrite_tcp-before m meta rw_to ip old_src old_dst false offloads i h =
      put16-before (ported m.mem meta.l4_offset rw_to.src_port rw_to.dst_port) (meta.l4_offset + 16)
        _ i (omega (arith, h))

  rewrite_udp-before :
      (m : Mbuf) (meta : PacketMeta) (rw_to : NatRewrite) (ip old_src old_dst : ℕ) (hw : Bool)
      (offloads i : ℕ)
      → i < meta.l4_offset + 4
      → (rewrite_udp dpdk m meta rw_to ip old_src old_dst hw offloads).mem i
        ≡ ported m.mem meta.l4_offset rw_to.src_port rw_to.dst_port i
  unfolding rewrite_udp
  rewrite_udp-before m meta rw_to ip old_src old_dst true offloads i h =
      full-before (set_mem m (ported m.mem meta.l4_offset rw_to.src_port rw_to.dst_port)) ip
        meta.l4_offset meta offloads i h
  rewrite_udp-before m meta rw_to ip old_src old_dst false offloads i h =
      elim (Bool-cases (le16 m.mem (meta.l4_offset + 6) == 0)) [
        | inl q ↦ rw (rewrite_udp, q) refl
        | inr q ↦
            rw (rewrite_udp, q)
              (put16-before (ported m.mem meta.l4_offset rw_to.src_port rw_to.dst_port)
                (meta.l4_offset + 6) _ i (omega (arith, h)))
      ]

  pub rewrite_l4-before :
      (e : TcpEdit) (rw_to : NatRewrite) (ip old_src old_dst : ℕ) (opt : NatOptions) (i : ℕ)
      → HasL4 e.mbuf.mem ip
      → i < e.meta.l4_offset + 4
      → (rewrite_l4 dpdk e rw_to ip old_src old_dst opt).mem i
        ≡ ported e.mbuf.mem e.meta.l4_offset rw_to.src_port rw_to.dst_port i
  unfolding rewrite_l4
  rewrite_l4-before e rw_to ip old_src old_dst opt i (inl t) h =
      rw (rewrite_l4, t) (rewrite_tcp-before e.mbuf e.meta rw_to ip old_src old_dst _ _ i h)
  rewrite_l4-before e rw_to ip old_src old_dst opt i (inr (t, u)) h =
      rw (rewrite_l4, t, u)
        (rewrite_udp-before e.mbuf e.meta rw_to ip old_src old_dst
          (has opt.tx_offloads dpdk.offload_udp_cksum) opt.tx_offloads i h)
