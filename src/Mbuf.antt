-- ===== src/Mbuf.antt =====
-- DPDK's packet buffers as the program uses them: the fields of `rte_mbuf` that it reads and writes, the
-- bytes of the frame, and the functions of rte_mbuf.h and rte_ip.h that it calls, as parameters.
pub mod Bytes
use l4_loadbalancer.Base.{
  ℕ, zero, suc, ◌+◌, ◌-◌, ◌%◌, ◌/◌, ◌^◌, ◌<◌, ◌≡◌, Bool, ◌&&◌, ltb, leb, if◌then◌else◌, List, [],
  ◌∷◌, Option, none, some, length, get_or,
}
use l4_loadbalancer.Header.{Memory}

pub record Mbuf : Type 0 where
  pub mem : Memory
  pub data_len : ℕ
  pub pkt_len : ℕ
  pub ol_flags : ℕ
  pub rss : ℕ
  pub l2_len : ℕ
  pub l3_len : ℕ
  pub l4_len : ℕ

-- rte_pktmbuf_is_contiguous, rte_pktmbuf_trim, rte_pktmbuf_append, rte_ipv4_phdr_cksum of the IP header
-- at an offset, and the flags of rte_mbuf_core.h and rte_ethdev.h.
pub record Dpdk : Type 0 where
  pub is_contiguous : Mbuf → Bool
  pub trim : Mbuf → ℕ → Mbuf
  pub append : Mbuf → ℕ → Option Mbuf
  pub ipv4_phdr_cksum : Memory → ℕ → ℕ → ℕ
  pub rx_ip_cksum_mask : ℕ
  pub rx_ip_cksum_bad : ℕ
  pub rx_l4_cksum_mask : ℕ
  pub rx_l4_cksum_bad : ℕ
  pub rx_rss_hash : ℕ
  pub tx_ipv4 : ℕ
  pub tx_tcp_cksum : ℕ
  pub tx_udp_cksum : ℕ
  pub offload_tcp_cksum : ℕ
  pub offload_udp_cksum : ℕ

-- The `n` bytes from an offset on.
abbrev pub bytes_at : Memory → ℕ → ℕ → List ℕ
bytes_at mem zero i = []
bytes_at mem (suc n) i = mem i ∷ bytes_at mem n (i + 1)

-- `memcpy` to an offset.
unfoldable pub write : Memory → ℕ → List ℕ → Memory
write mem at bs i = if leb at i && ltb i (at + length bs) then get_or bs (i - at) 0 else mem i

-- `memmove` of `n` bytes, up by `by` bytes.
unfoldable pub move_up : Memory → ℕ → ℕ → ℕ → Memory
move_up mem at n by i = if leb (at + by) i && ltb i (at + by + n) then mem (i - by) else mem i

abbrev pub le16_bytes : ℕ → List ℕ
le16_bytes v = v % 256 ∷ v / 256 % 256 ∷ []

abbrev pub le32_bytes : ℕ → List ℕ
le32_bytes v = v % 256 ∷ v / 256 % 256 ∷ v / 2 ^ 16 % 256 ∷ v / 2 ^ 24 % 256 ∷ []

-- An assignment to a field of 16 or 32 bits.
unfoldable pub put16 : Memory → ℕ → ℕ → Memory
unfolding write
put16 mem at v = write mem at (le16_bytes v)

unfoldable pub put32 : Memory → ℕ → ℕ → Memory
unfolding write
put32 mem at v = write mem at (le32_bytes v)

abbrev pub set_mem : Mbuf → Memory → Mbuf
set_mem m mem = record m { mem = mem }
