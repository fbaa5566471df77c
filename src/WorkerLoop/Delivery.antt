-- ===== src/WorkerLoop/Delivery.antt =====
-- The loop of src/dataplane/worker.cpp: every packet buffer that a round fetches leaves the worker once.
use l4_loadbalancer.Base.{
  ℕ, suc, ◌+◌, ◌%◌, ◌^◌, ◌<◌, ◌≡◌, refl, ◌∙◌, Bool, true, false, ◌==◌, if◌then◌else◌, List, [], ◌∷◌,
  length, arith, Bool-cases, inl, inr, ==-false,
}
use l4_loadbalancer.Parser.{PacketMeta}
use l4_loadbalancer.Processor.Dispatch.{process_packet}
use l4_loadbalancer.Processor.{Platform, Dataplane}
use l4_loadbalancer.WorkerLoop.Rounds.{
  Clock, packets, all_of, fetched, all_fetched, end_round, round, worker_loop, advance_wheel,
}
use l4_loadbalancer.WorkerLoop.{
  Packet, Devices, Round, Source, from_ring, from_queues, Wk, burst_size, tx_flush, handle,
  handle_all, take_ring, take_queue, take_queues, take_redirected, take_source,
}
use l4_loadbalancer.WorkerLoop.Buffer.{
  occ, occ-append, Takes, gone, held, Moves, Moves-append, tx_flush-count, tx_flush-held,
  settle-Moves,
}

module _ (p : Platform) (dp : Dataplane p.neigh_hash.Handle) (dev : Devices) where
  handle-Moves :
      Takes dev
      → (blank_meta : PacketMeta) (w : Wk p dp dev) (m : Packet) (redirected : Bool)
      → w.tx.count < burst_size
      → Moves p dp dev w (handle p dp dev blank_meta w m redirected) (m ∷ [])
  unfolding handle
  handle-Moves takes blank_meta w m redirected room =
      let r =
        process_packet p dp blank_meta (record { ctx = w.ctx; snap = w.snap; mbuf = m.mbuf })
          redirected in
      settle-Moves p dp dev takes (record w { ctx = r.1.ctx; snap = r.1.snap })
        (record m { mbuf = r.1.mbuf }) r.0 room

  handle_all-Moves :
      Takes dev
      → (blank_meta : PacketMeta) (w : Wk p dp dev) (ms : List Packet) (redirected : Bool)
      → w.tx.count < burst_size
      → Moves p dp dev w (handle_all p dp dev blank_meta w ms redirected) ms
  unfolding handle_all
  handle_all-Moves takes blank_meta w [] redirected room = (room, λ q. omega arith)
  handle_all-Moves takes blank_meta w (m ∷ ms) redirected room =
      let first = handle-Moves takes blank_meta w m redirected room in
      let next = handle p dp dev blank_meta w m redirected in
      Moves-append p dp dev w next (handle_all p dp dev blank_meta next ms redirected) (m ∷ []) ms
        first (handle_all-Moves takes blank_meta next ms redirected first.0)

  -- A batch is counted first, and skipped if it is empty.
  batch-Moves :
      Takes dev
      → (blank_meta : PacketMeta) (v w : Wk p dp dev) (ms : List Packet) (redirected : Bool)
      → w.tx.count < burst_size
      → v.tx.count < burst_size
      → ((q : ℕ) → held p dp dev q w ≡ held p dp dev q v)
      → Moves p dp dev v
          (if length ms == 0 then v else handle_all p dp dev blank_meta w ms redirected)
          ms
  batch-Moves takes blank_meta v w [] redirected room rv same = (rv, λ q. omega arith)
  batch-Moves takes blank_meta v w (m ∷ ms) redirected room rv same =
      let r = handle_all-Moves takes blank_meta w (m ∷ ms) redirected room in
      let some_packets : (length (m ∷ ms) == 0) ≡ false =
        ==-false (suc (length ms)) 0 (λ e. omega arith) in
      rw some_packets (r.0, λ q. omega (arith, same q, r.1 q))

  take_queue-Moves :
      Takes dev
      → (blank_meta : PacketMeta) (w : Wk p dp dev) (ms : List Packet) → w.tx.count < burst_size
      → Moves p dp dev w (take_queue p dp dev blank_meta w ms) ms
  unfolding take_queue
  take_queue-Moves takes blank_meta w ms room =
      batch-Moves takes blank_meta w (record w { ctx = _ }) ms false room room (λ q. refl)

  take_queues-Moves :
      Takes dev
      → (blank_meta : PacketMeta) (w : Wk p dp dev) (queues : List (List Packet))
      → w.tx.count < burst_size
      → Moves p dp dev w (take_queues p dp dev blank_meta w queues) (all_of queues)
  unfolding take_queues
  take_queues-Moves takes blank_meta w [] room = (room, λ q. omega arith)
  take_queues-Moves takes blank_meta w (ms ∷ queues) room =
      let first = take_queue-Moves takes blank_meta w ms room in
      let next = take_queue p dp dev blank_meta w ms in
      Moves-append p dp dev w next (take_queues p dp dev blank_meta next queues) ms (all_of queues)
        first (take_queues-Moves takes blank_meta next queues first.0)

  take_source-Moves :
      Takes dev
      → (blank_meta : PacketMeta) (w : Wk p dp dev) (source : Source) → w.tx.count < burst_size
      → Moves p dp dev w (take_source p dp dev blank_meta w source) (packets source)
  unfolding take_source take_ring
  take_source-Moves takes blank_meta w (from_ring ms) room =
      batch-Moves takes blank_meta w (record w { ctx = _ }) ms false room room (λ q. refl)
  take_source-Moves takes blank_meta w (from_queues queues) room =
      take_queues-Moves takes blank_meta w queues room

  take_redirected-Moves :
      Takes dev
      → (blank_meta : PacketMeta) (w : Wk p dp dev) (ms : List Packet) → w.tx.count < burst_size
      → Moves p dp dev w (take_redirected p dp dev blank_meta w ms) ms
  unfolding take_redirected
  take_redirected-Moves takes blank_meta w ms room =
      batch-Moves takes blank_meta w (record w { ctx = _ }) ms true room room (λ q. refl)

  end_round-held :
      (clock : Clock) (w : Wk p dp dev) (r : Round) (q : ℕ)
      → (held p dp dev q (end_round p dp dev clock w r) ≡ held p dp dev q w)
        × ((end_round p dp dev clock w r).tx.count ≡ w.tx.count)
  unfolding end_round advance_wheel
  end_round-held clock w r q = elim (Bool-cases ((w.loops + 1) % 2 ^ 64 % 1024 == 0)) [
    | inl e ↦ rw e (refl, refl)
    | inr e ↦ rw e (refl, refl)
  ]

  -- At the end of a round the TX buffer is empty, and every pointer is with the network card, in the pool
  -- or in a ring as often as it was before the round anywhere plus as often as it was fetched.
  pub round-delivers :
      Takes dev
      → (clock : Clock) (blank_meta : PacketMeta) (w : Wk p dp dev) (r : Round)
      → w.tx.count < burst_size
      → (q : ℕ)
      → ((round p dp dev clock blank_meta w r).tx.count ≡ 0)
        × (gone p dp dev q (round p dp dev clock blank_meta w r)
            ≡ held p dp dev q w + occ q (fetched r))
  unfolding round
  round-delivers takes clock blank_meta w r room q =
      let start : Wk p dp dev = record w { snap = r.current } in
      let taken = take_source p dp dev blank_meta start r.source in
      let first = take_source-Moves takes blank_meta start r.source room in
      let all = take_redirected p dp dev blank_meta taken r.redirected in
      let second = take_redirected-Moves takes blank_meta taken r.redirected first.0 in
      let flushed = tx_flush p dp dev all in
      let moved =
        Moves-append p dp dev start taken all (packets r.source) r.redirected first second in
      let ended = end_round-held clock flushed r q in
      let empty : (end_round p dp dev clock flushed r).tx.count ≡ 0 =
        ended.1 ∙ tx_flush-count p dp dev all in
      let total = ended.0 ∙ tx_flush-held p dp dev takes all q ∙ moved.1 q in
      (empty, omega (arith, rw empty at total))

  -- Where rte_eth_tx_burst takes at most what it is offered and the TX buffer has room, after the loop the
  -- buffer is empty, and every pointer is with the network card, in the pool or in a ring as often as it
  -- was before anywhere plus as often as it was fetched: no packet buffer is lost or given back twice.
  pub worker_loop-delivers :
      Takes dev
      → (clock : Clock) (blank_meta : PacketMeta) (w : Wk p dp dev) (rounds : List Round)
      → w.tx.count < burst_size
      → (q : ℕ)
      → ((worker_loop p dp dev clock blank_meta w rounds).tx.count ≡ 0)
        × (gone p dp dev q (worker_loop p dp dev clock blank_meta w rounds)
            ≡ held p dp dev q w + occ q (all_fetched rounds))
  unfolding worker_loop
  worker_loop-delivers takes clock blank_meta w [] room q =
      let empty = tx_flush-count p dp dev w in
      (empty, omega (arith, rw empty at (tx_flush-held p dp dev takes w q)))
  worker_loop-delivers takes clock blank_meta w (r ∷ rounds) room q =
      let next = round p dp dev clock blank_meta w r in
      let first = round-delivers takes clock blank_meta w r room q in
      let rest =
        worker_loop-delivers takes clock blank_meta next rounds (rw first.0 (omega arith)) q in
      (
        rest.0,
        omega (arith, first.1, rw first.0 at rest.1, occ-append q (fetched r) (all_fetched rounds)),
      )
