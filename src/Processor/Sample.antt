-- ===== src/Processor/Sample.antt =====
-- A load balancer with one service and one real server, two workers, and a SYN of a client, for tests.
use l4_loadbalancer.Base.{
  ℕ, ◌+◌, ◌-◌, ◌*◌, ◌^◌, true, false, ◌==◌, List, [], ◌∷◌, ◌++◌, get_or, replicate, length, some,
}
use l4_loadbalancer.Config.{ForwardMode, SchedulerType, LbConfig, default_timeouts}
use l4_loadbalancer.Header.{Memory}
use l4_loadbalancer.Manager.Commands.{started}
use l4_loadbalancer.Manager.{build}
use l4_loadbalancer.Mbuf.{Mbuf, Dpdk}
use l4_loadbalancer.Neigh.{route_init, initial}
use l4_loadbalancer.Parser.{PacketMeta}
use l4_loadbalancer.Processor.Resolve.{St}
use l4_loadbalancer.Processor.{Platform, Dataplane, WorkerCtx}
use l4_loadbalancer.Rte.Assoc.{assoc}
use l4_loadbalancer.Session.Table.{init as init_sessions}
use l4_loadbalancer.Snapshot.{Snapshot}
use l4_loadbalancer.Steering.{init_sw, initial as new_steering}
use l4_loadbalancer.Types.{tuple_eq, zero_mac, MacAddr}

abbrev pub dpdk : Dpdk
dpdk = record {
  is_contiguous = λ m. true;
  trim = λ m n. record m { data_len = m.data_len - n; pkt_len = m.pkt_len - n };
  append = λ m n. some (record m { data_len = m.data_len + n; pkt_len = m.pkt_len + n });
  ipv4_phdr_cksum = λ mem ip flags. 0;
  rx_ip_cksum_mask = 0x90;
  rx_ip_cksum_bad = 0x10;
  rx_l4_cksum_mask = 0x108;
  rx_l4_cksum_bad = 0x8;
  rx_rss_hash = 2;
  tx_ipv4 = 1;
  tx_tcp_cksum = 2;
  tx_udp_cksum = 4;
  offload_tcp_cksum = 8;
  offload_udp_cksum = 4;
}

abbrev pub platform : Platform
platform = record {
  dpdk = dpdk;
  hashes = record {
    jhash_3words = λ a b c seed. a + b + c + seed;
    softrss_be = λ words key. get_or words 0 0;
    convert_rss_key = λ key. key;
  };
  crc = record { crc_8byte = λ k seed. k; crc_4byte = λ k seed. k };
  jhash = λ a b c seed. a + b + c + seed;
  session_hash = assoc tuple_eq 16;
  neigh_hash = assoc ◌==◌ 16;
}

abbrev pub own_mac : MacAddr
own_mac = 2 ∷ 0 ∷ 0 ∷ 0 ∷ 0 ∷ 1 ∷ []

abbrev pub rs_mac : MacAddr
rs_mac = 2 ∷ 0 ∷ 0 ∷ 0 ∷ 0 ∷ 9 ∷ []

-- 10.0.0.x, in network byte order.
abbrev pub addr : ℕ → ℕ
addr x = 10 + 2 ^ 24 * x

abbrev pub config : LbConfig
config = record {
  mode = ForwardMode.nat;
  netmask = 0;
  gateway = 0;
  local_ips = addr 4 ∷ [];
  hc_src = addr 4;
  health = record { enabled = false; interval_ms = 5000; timeout_ms = 3000; fall = 3; rise = 2 };
  services =
      record {
        name = "web";
        vip = addr 2;
        port = 80;
        proto = 6;
        sched = SchedulerType.wrr;
        rs = record { ip = addr 3; port = 8080; weight = 1; mac = rs_mac } ∷ [];
      }
      ∷ [];
}

abbrev pub snapshot : Snapshot
snapshot = build 2 platform.crc (λ bs. []) (started 2 platform.crc (λ bs. []) config)

abbrev pub plane : Dataplane platform.neigh_hash.Handle
plane = record {
  local_mac = own_mac;
  tx_offloads = 0;
  mtu = 1500;
  timeouts = default_timeouts;
  toa = false;
  strip_tcp_timestamp = true;
  steering = init_sw new_steering 2;
  route = route_init 0 0 0;
  neigh = initial platform.neigh_hash [];
}

-- Worker `i` of two, without sessions.
abbrev pub worker : ℕ → WorkerCtx platform.session_hash.Handle
worker i = record {
  worker = record {
    idx = i;
    sessions = init_sessions platform.session_hash [] 4 1;
    lip_cursor = [];
    lip_rr = 0;
    now_tick = 1;
  };
  stats = λ s. 0;
  byte_stats = λ s. 0;
  rs_stats = λ s. record { conns = 0; pkts_in = 0; bytes_in = 0; pkts_out = 0; bytes_out = 0 };
  events = [];
}

abbrev pub frame_of : List ℕ → Memory
frame_of bytes = λ i. get_or bytes i 0

abbrev pub received : List ℕ → Mbuf
received bytes = record {
  mem = frame_of bytes;
  data_len = length bytes;
  pkt_len = length bytes;
  ol_flags = 0;
  rss = 0;
  l2_len = 0;
  l3_len = 0;
  l4_len = 0;
}

abbrev pub no_meta : PacketMeta
no_meta = record {
  src_mac = zero_mac;
  dst_mac = zero_mac;
  ether_type = 0;
  src_ip = 0;
  dst_ip = 0;
  ip_protocol = 0;
  ip_ttl = 0;
  src_port = 0;
  dst_port = 0;
  tcp_flags = 0;
  l2_offset = 0;
  l3_offset = 0;
  l4_offset = 0;
  payload_offset = 0;
  total_len = 0;
  payload_len = 0;
}

-- A SYN from 10.0.0.1, port 12345, to the service.
abbrev pub syn_bytes : List ℕ
syn_bytes =
    own_mac
    ++ (replicate 6 1
        ++ (8
              ∷ 0
              ∷ 0x45
              ∷ 0
              ∷ 0
              ∷ 40
              ∷ 0
              ∷ 0
              ∷ 0x40
              ∷ 0
              ∷ 64
              ∷ 6
              ∷ 0
              ∷ 0
              ∷ 10
              ∷ 0
              ∷ 0
              ∷ 1
              ∷ 10
              ∷ 0
              ∷ 0
              ∷ 2
              ∷ 0x30
              ∷ 0x39
              ∷ 0
              ∷ 80
              ∷ replicate 8 0
            ++ (0x50 ∷ 0x02 ∷ replicate 6 0)))

abbrev pub state : ℕ → List ℕ → St platform plane
state i bytes = record { ctx = worker i; snap = snapshot; mbuf = received bytes }
