-- ===== src/Processor.antt =====
-- src/core/processor.cpp and include/core/processor.h with the counters of include/common/stats.h and
-- the events of include/dataplane/context.h: what a worker does with a packet. The neighbour table and
-- the route are read only here. A worker's WRR cursor is part of the snapshot, so that is returned, too.
pub mod Resolve
pub mod Create
pub mod Inbound
pub mod Return
pub mod Icmp
pub mod Arp
pub mod Dispatch
pub mod Stays
pub mod Redirect
pub mod ArpProbe
pub mod Sample
mod Tests
use l4_loadbalancer.Base.{
  ℕ, ◌+◌, ◌%◌, ◌^◌, Bool, true, false, ◌==◌, if◌then◌else◌, List, [], ◌∷◌, ◌++◌,
}
use l4_loadbalancer.Config.{TimeoutConf}
use l4_loadbalancer.Mbuf.{Dpdk, Mbuf}
use l4_loadbalancer.Neigh.{NeighTable, Route}
use l4_loadbalancer.Rte.{RteHash}
use l4_loadbalancer.Session.{update}
use l4_loadbalancer.Snapshot.{Crc, Snapshot}
use l4_loadbalancer.Snat.{Worker}
use l4_loadbalancer.Steering.{Hashes, Steering}
use l4_loadbalancer.Types.{FiveTuple, MacAddr}

-- The counters of a worker. `count` is the enumeration's last value.
pub data Stat : Type 0 where
  rx tx tx_full arp icmp tcp udp fwd_in fwd_out icmp_err_fwd : Stat
  drop_malformed drop_fragment drop_cksum drop_not_local drop_no_service drop_no_session : Stat
  drop_no_rs drop_rs_down drop_table_full drop_no_port drop_no_neigh drop_ttl : Stat
  drop_redirect drop_other sess_new sess_expired sess_closed redirect_out redirect_in : Stat
  ring_in drop_rx_ring rss_mismatch rss_no_hash toa_added toa_no_room ts_stripped : Stat
  hc_resp count : Stat

abbrev pub stat_index : Stat → ℕ
stat_index rx = 0
stat_index tx = 1
stat_index tx_full = 2
stat_index arp = 3
stat_index icmp = 4
stat_index tcp = 5
stat_index udp = 6
stat_index fwd_in = 7
stat_index fwd_out = 8
stat_index icmp_err_fwd = 9
stat_index drop_malformed = 10
stat_index drop_fragment = 11
stat_index drop_cksum = 12
stat_index drop_not_local = 13
stat_index drop_no_service = 14
stat_index drop_no_session = 15
stat_index drop_no_rs = 16
stat_index drop_rs_down = 17
stat_index drop_table_full = 18
stat_index drop_no_port = 19
stat_index drop_no_neigh = 20
stat_index drop_ttl = 21
stat_index drop_redirect = 22
stat_index drop_other = 23
stat_index sess_new = 24
stat_index sess_expired = 25
stat_index sess_closed = 26
stat_index redirect_out = 27
stat_index redirect_in = 28
stat_index ring_in = 29
stat_index drop_rx_ring = 30
stat_index rss_mismatch = 31
stat_index rss_no_hash = 32
stat_index toa_added = 33
stat_index toa_no_room = 34
stat_index ts_stripped = 35
stat_index hc_resp = 36
stat_index count = 37

pub data ByteStat : Type 0 where
  bytes_rx bytes_tx bytes_fwd_in bytes_fwd_out bytes_count : ByteStat

abbrev pub byte_stat_index : ByteStat → ℕ
byte_stat_index bytes_rx = 0
byte_stat_index bytes_tx = 1
byte_stat_index bytes_fwd_in = 2
byte_stat_index bytes_fwd_out = 3
byte_stat_index bytes_count = 4

pub record RsCounters : Type 0 where
  pub conns : ℕ
  pub pkts_in : ℕ
  pub bytes_in : ℕ
  pub pkts_out : ℕ
  pub bytes_out : ℕ

-- `stat_add` in 64-bit arithmetic.
abbrev pub stat_add : ℕ → ℕ → ℕ
stat_add c n = (c + n) % 2 ^ 64

pub data MasterEventType : Type 0 where
  arp_for_us arp_reply neigh_hint neigh_miss hc_response : MasterEventType

-- The fields that an event does not use are 0.
pub record MasterEvent : Type 0 where
  pub type : MasterEventType
  pub tcp_flags : ℕ
  pub port : ℕ
  pub ip : ℕ
  pub seq : ℕ
  pub ack : ℕ
  pub mac : MacAddr
  pub aux : ℕ

-- The worker, with its counters and the events that it has posted, the oldest first. Whether the ring of
-- the master has room for them is not the worker's concern.
pub record WorkerCtx (Handle : Type 0) : Type 0 where
  pub worker : Worker Handle
  pub open worker use *
  pub stats : ℕ → ℕ
  pub byte_stats : ℕ → ℕ
  pub rs_stats : ℕ → RsCounters
  pub events : List MasterEvent

-- The part of `g_dp` that a worker reads.
pub record Dataplane (Handle : Type 0) : Type 0 where
  pub local_mac : MacAddr
  pub tx_offloads : ℕ
  pub mtu : ℕ
  pub timeouts : TimeoutConf
  pub toa : Bool
  pub strip_tcp_timestamp : Bool
  pub steering : Steering
  pub route : Route
  pub neigh : NeighTable Handle

-- `Result` with its verdict; `reason` and `target` only where the verdict has one.
pub data Result : Type 0 where
  send : Result
  drop : Stat → Result
  redirect : ℕ → Result
  consumed : Result

-- What is called and not part of the program.
pub record Platform : Type 1 where
  pub dpdk : Dpdk
  pub hashes : Hashes
  pub crc : Crc
  pub jhash : ℕ → ℕ → ℕ → ℕ → ℕ
  pub session_hash : RteHash FiveTuple
  pub neigh_hash : RteHash ℕ

module _ {Handle : Type 0} where
  -- `w.stats.add(id)`.
  unfoldable pub add_stat : WorkerCtx Handle → Stat → WorkerCtx Handle
  add_stat w id =
      let i = stat_index id in record w { stats = update w.stats i (stat_add (w.stats i) 1) }

  unfoldable pub add_bytes : WorkerCtx Handle → ByteStat → ℕ → WorkerCtx Handle
  add_bytes w id n =
      let i = byte_stat_index id in
      record w { byte_stats = update w.byte_stats i (stat_add (w.byte_stats i) n) }

  unfoldable pub post_master_event : WorkerCtx Handle → MasterEvent → WorkerCtx Handle
  post_master_event w ev = record w { events = w.events ++ (ev ∷ []) }

  abbrev pub set_rs_stats : WorkerCtx Handle → ℕ → RsCounters → WorkerCtx Handle
  set_rs_stats w id c = record w { rs_stats = update w.rs_stats id c }

  -- The fields of `Worker`, which the session functions work on.
  abbrev pub set_worker : WorkerCtx Handle → Worker Handle → WorkerCtx Handle
  set_worker w v = record w { worker = v }

-- What the handlers take and return by reference: the worker, the snapshot and the packet.
pub record State (Handle : Type 0) : Type 0 where
  pub ctx : WorkerCtx Handle
  pub snap : Snapshot
  pub mbuf : Mbuf

abbrev pub set_ctx : {Handle : Type 0} → State Handle → WorkerCtx Handle → State Handle
set_ctx s w = record s { ctx = w }
