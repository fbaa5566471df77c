-- ===== src/WorkerLoop.antt =====
-- src/dataplane/worker.cpp with the TX buffer of include/dataplane/context.h and `BusyMeter` of
-- include/common/stats.h: the loop of a worker and what becomes of every packet buffer it fetches.
pub mod Rounds
pub mod Buffer
pub mod Delivery
pub mod Busy
mod Tests
use l4_loadbalancer.Base.{
  ℕ, zero, suc, ◌+◌, ◌-◌, ◌*◌, ◌/◌, ◌%◌, ◌^◌, Bool, true, false, not, ◌&&◌, ◌==◌, ltb, leb,
  if◌then◌else◌, List, [], ◌∷◌, ◌++◌, length,
}
use l4_loadbalancer.Mbuf.{Mbuf}
use l4_loadbalancer.Parser.{PacketMeta}
use l4_loadbalancer.Processor.Dispatch.{process_packet}
use l4_loadbalancer.Processor.{
  Platform, Dataplane, WorkerCtx, Stat, ByteStat, stat_index, stat_add, add_stat, add_bytes, Result,
  send, drop, redirect, consumed, set_worker,
}
use l4_loadbalancer.Session.Table.{expire}
use l4_loadbalancer.Session.{update}
use l4_loadbalancer.Snapshot.{Snapshot}

abbrev pub burst_size : ℕ
burst_size = 64

-- A `struct rte_mbuf *`: the pointer, and what it points to.
pub record Packet : Type 0 where
  pub ptr : ℕ
  pub mbuf : Mbuf

pub record TxBuffer : Type 0 where
  pub pkts : ℕ → Packet
  pub count : ℕ

-- The `n` packets of an array from an index on.
abbrev pub slice : (ℕ → Packet) → ℕ → ℕ → List Packet
slice f i zero = []
slice f i (suc n) = f i ∷ slice f (i + 1) n

abbrev pub total_len : List Packet → ℕ
total_len [] = 0
total_len (m ∷ ms) = m.mbuf.pkt_len + total_len ms

-- The network card and the other workers: how many of the packets offered rte_eth_tx_burst takes after
-- those that it has taken, whether `g_dp.workers` has a worker, and whether its ring has room for a
-- packet after those that this worker has put into the rings.
pub record Devices : Type 0 where
  pub tx_burst : List Packet → List Packet → ℕ
  pub has_worker : ℕ → Bool
  pub mp_enqueue : List (ℕ × Packet) → ℕ → Packet → Bool

pub record BusyMeter : Type 0 where
  pub last : ℕ
  pub idle_cost : ℕ
  pub n : ℕ
  pub idle : ℕ

abbrev pub window : ℕ
window = 256

-- What `loop` adds to `busy_tsc` at the end of a window with work, `el` cycles after the last one.
unfoldable pub credit : BusyMeter → ℕ → ℕ
credit b el =
    let idle_t =
      if b.idle_cost == 0 then el * b.idle % 2 ^ 64 / b.n else b.idle * b.idle_cost % 2 ^ 64 in
    if ltb idle_t el then el - idle_t else 0

-- The estimate of the cost of an idle poll, after a window of idle polls only.
unfoldable pub calibrate : BusyMeter → ℕ → ℕ
calibrate b el =
    let c = el / b.n in if b.idle_cost == 0 then c else (b.idle_cost * 7 + c) % 2 ^ 64 / 8

-- `loop` with the counter `busy_tsc`; `now` is what `rte_rdtsc` returns.
unfoldable pub busy_loop : BusyMeter → ℕ → Bool → ℕ → BusyMeter × ℕ
unfolding credit calibrate
busy_loop meter busy had_work now =
    let b = record meter {
      idle = (meter.idle + (if had_work then 0 else 1)) % 2 ^ 32;
      n = (meter.n + 1) % 2 ^ 32;
    } in
    let el = (now + 2 ^ 64 - b.last) % 2 ^ 64 in
    let reset = record b { last = now; n = 0; idle = 0 } in
    if ltb b.n window
    then (b, busy)
    else (if b.last == 0
        then (reset, busy)
        else (if b.idle == b.n
            then (record reset { idle_cost = calibrate b el }, busy)
            else (reset, stat_add busy (credit b el))))

-- A worker in its loop. `sent` are the packets that the network card has taken, `freed` those that went
-- back to the pool and `handed` those put into the ring of another worker, all the oldest first.
pub record Loop (Handle : Type 0) : Type 0 where
  pub ctx : WorkerCtx Handle
  pub snap : Snapshot
  pub tx : TxBuffer
  pub now_ms : ℕ
  pub meter : BusyMeter
  pub busy_tsc : ℕ
  pub loops : ℕ
  pub sent : List Packet
  pub freed : List Packet
  pub handed : List (ℕ × Packet)

-- Where the packets of a round come from: the ring of the receiver, or the RX queues of the worker.
pub data Source : Type 0 where
  from_ring : List Packet → Source
  from_queues : List (List Packet) → Source

-- What a round of the loop reads: the snapshot, the packets, those of the redirection ring, and the
-- clock, for `BusyMeter` and for the wheel.
pub record Round : Type 0 where
  pub current : Snapshot
  pub source : Source
  pub redirected : List Packet
  pub rdtsc : ℕ
  pub cycles : ℕ

-- `w.stats.add(id, n)`.
unfoldable pub add_stats : {Handle : Type 0} → WorkerCtx Handle → Stat → ℕ → WorkerCtx Handle
add_stats w id n =
    let i = stat_index id in record w { stats = update w.stats i (stat_add (w.stats i) n) }

module _ (p : Platform) (dp : Dataplane p.neigh_hash.Handle) (dev : Devices) where
  abbrev pub Wk : Type 0
  Wk = Loop p.session_hash.Handle

  -- rte_pktmbuf_free.
  abbrev pub release : Wk → List Packet → Wk
  release w ms = record w { freed = w.freed ++ ms }

  unfoldable pub tx_flush : Wk → Wk
  unfolding add_stats add_bytes
  tx_flush w =
      let b = w.tx in
      let nb = dev.tx_burst w.sent (slice b.pkts 0 b.count) in
      let out = slice b.pkts 0 nb in
      let ctx = add_bytes (add_stats w.ctx Stat.tx nb) ByteStat.bytes_tx (total_len out) in
      let gone = record w { tx = record b { count = 0 }; ctx = ctx; sent = w.sent ++ out } in
      if b.count == 0
      then w
      else (if ltb nb b.count
          then release (record gone { ctx = add_stats ctx Stat.tx_full (b.count - nb) })
              (slice b.pkts nb (b.count - nb))
          else gone)

  unfoldable pub tx_buffer_add : Wk → Packet → Wk
  unfolding tx_flush
  tx_buffer_add w m =
      let count = (w.tx.count + 1) % 2 ^ 16 in
      let added = record w {
        tx = record { pkts = update w.tx.pkts w.tx.count m; count = count };
      } in
      if leb burst_size count then tx_flush added else added

  -- The switch of `handle`.
  unfoldable pub settle : Wk → Packet → Result → Wk
  unfolding tx_buffer_add add_stat
  settle w m send = tx_buffer_add w m
  settle w m (redirect to) =
      if dev.has_worker to && dev.mp_enqueue w.handed to m
      then record w { handed = w.handed ++ ((to, m) ∷ []); ctx = add_stat w.ctx Stat.redirect_out }
      else release (record w { ctx = add_stat w.ctx Stat.drop_redirect }) (m ∷ [])
  settle w m (drop reason) = release (record w { ctx = add_stat w.ctx reason }) (m ∷ [])
  settle w m consumed = release w (m ∷ [])

  unfoldable pub handle : PacketMeta → Wk → Packet → Bool → Wk
  unfolding settle process_packet
  handle blank_meta w m redirected =
      let r =
        process_packet p dp blank_meta (record { ctx = w.ctx; snap = w.snap; mbuf = m.mbuf })
          redirected in
      settle (record w { ctx = r.1.ctx; snap = r.1.snap }) (record m { mbuf = r.1.mbuf }) r.0

  unfoldable pub handle_all : PacketMeta → Wk → List Packet → Bool → Wk
  unfolding handle
  handle_all blank_meta w [] redirected = w
  handle_all blank_meta w (m ∷ ms) redirected =
      handle_all blank_meta (handle blank_meta w m redirected) ms redirected

  -- Packets of the receiver's ring, of one RX queue, and of the redirection ring.
  unfoldable pub take_ring : PacketMeta → Wk → List Packet → Wk
  unfolding handle_all add_stats
  take_ring blank_meta w ms =
      let counted = record w { ctx = add_stats w.ctx Stat.ring_in (length ms) } in
      if length ms == 0 then w else handle_all blank_meta counted ms false

  unfoldable pub take_queue : PacketMeta → Wk → List Packet → Wk
  unfolding handle_all add_stats add_bytes
  take_queue blank_meta w ms =
      let ctx = add_stats w.ctx Stat.rx (length ms) in
      let counted = record w { ctx = add_bytes ctx ByteStat.bytes_rx (total_len ms) } in
      if length ms == 0 then w else handle_all blank_meta counted ms false

  unfoldable pub take_queues : PacketMeta → Wk → List (List Packet) → Wk
  unfolding take_queue
  take_queues blank_meta w [] = w
  take_queues blank_meta w (ms ∷ queues) =
      take_queues blank_meta (take_queue blank_meta w ms) queues

  unfoldable pub take_redirected : PacketMeta → Wk → List Packet → Wk
  unfolding handle_all add_stats
  take_redirected blank_meta w ms =
      let counted = record w { ctx = add_stats w.ctx Stat.redirect_in (length ms) } in
      if length ms == 0 then w else handle_all blank_meta counted ms true

  unfoldable pub take_source : PacketMeta → Wk → Source → Wk
  unfolding take_ring take_queues
  take_source blank_meta w (from_ring ms) = take_ring blank_meta w ms
  take_source blank_meta w (from_queues queues) = take_queues blank_meta w queues
