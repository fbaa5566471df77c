-- ===== src/Steering.antt =====
-- include/dataplane/steering.h and src/dataplane/steering.cpp: which worker owns a packet. The hashes
-- of DPDK are parameters; `key_be_` is the key that rte_convert_rss_key made.
pub mod Owner
use l4_loadbalancer.Base.{
  ℕ, zero, suc, ◌+◌, ◌*◌, ◌%◌, ◌/◌, ◌^◌, Bool, true, false, ◌&&◌, not, ◌==◌, ltb, if◌then◌else◌,
  List, [], ◌∷◌, bit_or,
}
use l4_loadbalancer.Checksum.{htons}
use l4_loadbalancer.Types.{FiveTuple, words}

abbrev pub max_reta : ℕ
max_reta = 512

-- rte_jhash_3words, rte_softrss_be on a list of words, and rte_convert_rss_key.
pub record Hashes : Type 0 where
  pub jhash_3words : ℕ → ℕ → ℕ → ℕ → ℕ
  pub softrss_be : List ℕ → List ℕ → ℕ
  pub convert_rss_key : List ℕ → List ℕ

-- `reta_owner_` is a function of the index.
pub record Steering : Type 0 where
  pub hw : Bool
  pub tcp_l4 : Bool
  pub udp_l4 : Bool
  pub workers : ℕ
  pub reta_size : ℕ
  pub reta_owner : ℕ → ℕ
  pub key_be : List ℕ

-- A new object.
abbrev pub initial : Steering
initial = record {
  hw = false;
  tcp_l4 = false;
  udp_l4 = false;
  workers = 1;
  reta_size = 0;
  reta_owner = λ i. 0;
  key_be = [];
}

unfoldable pub init_sw : Steering → ℕ → Steering
init_sw s num_workers = record s {
  hw = false;
  tcp_l4 = false;
  udp_l4 = false;
  workers = if num_workers == 0 then 1 else num_workers;
}

-- `rte_be_to_cpu_32` on a little-endian host.
unfoldable pub swap32 : ℕ → ℕ
unfolding htons
swap32 x = htons (x % 2 ^ 16) * 2 ^ 16 + htons (x / 2 ^ 16)

unfoldable pub l4_hashed : Steering → ℕ → Bool
l4_hashed s proto = if proto == 6 then s.tcp_l4 else s.udp_l4

unfoldable pub ret_by_rss : Steering → ℕ → Bool
unfolding l4_hashed
ret_by_rss s proto = s.hw && l4_hashed s proto

-- The step between the candidates for a SNAT port.
unfoldable pub port_step : Steering → ℕ → ℕ
unfolding ret_by_rss
port_step s proto = if ret_by_rss s proto then 1 else s.workers

module _ (dpdk : Hashes) where
  unfoldable pub init_hw : Steering → ℕ → List ℕ → (ℕ → ℕ) → ℕ → Bool → Bool → Steering
  init_hw s num_workers rss_key reta reta_size tcp_l4 udp_l4 = record {
    hw = true;
    tcp_l4 = tcp_l4;
    udp_l4 = udp_l4;
    workers = num_workers;
    reta_size = reta_size;
    reta_owner =
        λ i. if ltb i reta_size && ltb i max_reta then reta i % num_workers else s.reta_owner i;
    key_be = dpdk.convert_rss_key rss_key;
  }

  unfoldable pub rss_hash : Steering → FiveTuple → Bool → ℕ
  unfolding swap32
  rss_hash s t l4 =
      let ports = bit_or (htons t.src_port * 2 ^ 16) (htons t.dst_port) in
      dpdk.softrss_be (swap32 t.src_ip ∷ swap32 t.dst_ip ∷ (if l4 then ports ∷ [] else [])) s.key_be

  -- The worker for a hash that the network card computes.
  unfoldable pub reta_lookup : Steering → ℕ → ℕ
  reta_lookup s h =
      if s.reta_size == 0 then h % s.workers % 2 ^ 16 else s.reta_owner (h % s.reta_size)

  unfoldable pub fwd_owner : Steering → FiveTuple → ℕ
  unfolding l4_hashed rss_hash reta_lookup
  fwd_owner s t =
      let (a, b, c) = words t in
      if s.workers == 1
      then 0
      else (if s.hw
          then reta_lookup s (rss_hash s t (l4_hashed s t.protocol))
          else dpdk.jhash_3words a b c 0x1234567 % s.workers % 2 ^ 16)

  unfoldable pub ret_owner : Steering → FiveTuple → ℕ
  unfolding ret_by_rss rss_hash reta_lookup
  ret_owner s t =
      if s.workers == 1
      then 0
      else (if ret_by_rss s t.protocol
          then reta_lookup s (rss_hash s t true)
          else htons t.dst_port % s.workers)
