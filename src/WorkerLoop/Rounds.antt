-- ===== src/WorkerLoop/Rounds.antt =====
-- `worker_loop` of src/dataplane/worker.cpp: a round after the packets are fetched, and all rounds. The
-- registration with RCU and the reports of a quiescent state change nothing that the model keeps.
use l4_loadbalancer.Base.{
  ℕ, ◌+◌, ◌-◌, ◌*◌, ◌/◌, ◌%◌, ◌^◌, not, ◌==◌, if◌then◌else◌, List, [], ◌∷◌, ◌++◌, length,
}
use l4_loadbalancer.Parser.{PacketMeta}
use l4_loadbalancer.Processor.{Platform, Dataplane, Stat, set_worker}
use l4_loadbalancer.Session.Table.{expire}
use l4_loadbalancer.WorkerLoop.{
  Packet, Devices, Round, Source, from_ring, from_queues, Wk, add_stats, busy_loop, take_source,
  take_redirected, tx_flush,
}

-- `g_dp.start_tsc` and `g_dp.tsc_hz`.
pub record Clock : Type 0 where
  pub start_tsc : ℕ
  pub tsc_hz : ℕ

abbrev pub all_of : List (List Packet) → List Packet
all_of [] = []
all_of (ms ∷ queues) = ms ++ all_of queues

abbrev pub packets : Source → List Packet
packets (from_ring ms) = ms
packets (from_queues queues) = all_of queues

abbrev pub fetched : Round → List Packet
fetched r = packets r.source ++ r.redirected

abbrev pub all_fetched : List Round → List Packet
all_fetched [] = []
all_fetched (r ∷ rs) = fetched r ++ all_fetched rs

module _ (p : Platform) (dp : Dataplane p.neigh_hash.Handle) (dev : Devices) (clock : Clock) where
  -- Every 1024 rounds.
  unfoldable pub advance_wheel : Wk p dp dev → ℕ → Wk p dp dev
  unfolding expire add_stats
  advance_wheel w cycles =
      let ms = (cycles + 2 ^ 64 - clock.start_tsc) % 2 ^ 64 * 1000 % 2 ^ 64 / clock.tsc_hz in
      let tick = (1 + ms / 1000) % 2 ^ 64 in
      let r = expire p.session_hash w.ctx.worker.sessions tick in
      let ctx = set_worker w.ctx (record w.ctx.worker { now_tick = tick; sessions = r.0 }) in
      record w { now_ms = ms; ctx = if r.1 == 0 then ctx else add_stats ctx Stat.sess_expired r.1 }

  unfoldable pub end_round : Wk p dp dev → Round → Wk p dp dev
  unfolding advance_wheel busy_loop
  end_round w r =
      let b = busy_loop w.meter w.busy_tsc (not (length (fetched r) == 0)) r.rdtsc in
      let loops = (w.loops + 1) % 2 ^ 64 in
      let next = record w { meter = b.0; busy_tsc = b.1; loops = loops } in
      if loops % 1024 == 0 then advance_wheel next r.cycles else next

  unfoldable pub round : PacketMeta → Wk p dp dev → Round → Wk p dp dev
  unfolding take_source take_redirected tx_flush end_round
  round blank_meta w r =
      let taken = take_source p dp dev blank_meta (record w { snap = r.current }) r.source in
      end_round (tx_flush p dp dev (take_redirected p dp dev blank_meta taken r.redirected)) r

  -- The rounds until `g_running` is false.
  unfoldable pub worker_loop : PacketMeta → Wk p dp dev → List Round → Wk p dp dev
  unfolding round tx_flush
  worker_loop blank_meta w [] = tx_flush p dp dev w
  worker_loop blank_meta w (r ∷ rs) = worker_loop blank_meta (round blank_meta w r) rs
