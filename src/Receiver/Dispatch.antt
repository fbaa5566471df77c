-- ===== src/Receiver/Dispatch.antt =====
-- src/dataplane/receiver.cpp: every frame of a burst goes to the ring of one of the workers, or back to
-- the pool.
use l4_loadbalancer.Base.{
  ℕ, zero, suc, ◌+◌, ◌%◌, ◌^◌, ◌≤◌, ◌<◌, ◌≡◌, refl, ap, Bool, true, false, not, ◌==◌, ltb,
  if◌then◌else◌, List, [], ◌∷◌, ◌++◌, length, take, drop, arith, Bool-cases, inl, inr, ==_iff,
  ==-false, ltb-false,
}
use l4_loadbalancer.Header.{Memory, ethernet_size, ipv4_size, is_ipv4}
use l4_loadbalancer.Receiver.{
  Dispatcher, Receiver, EnqueueBurst, target, has_ports, frame_tuple, is_return, sort_into, tagged,
  enqueue_group, enqueue_groups, dispatch_rx_queue, dispatch_queues, receiver_round, count_stat,
  count_bytes,
}
use l4_loadbalancer.Session.{update}
use l4_loadbalancer.Steering.Owner.{IsReady, fwd_owner-lt, ret_owner-lt}
use l4_loadbalancer.Steering.{Hashes, Steering}
use l4_loadbalancer.WorkerLoop.Buffer.{occ, occ-append, occ_handed, occ_handed-append}
use l4_loadbalancer.WorkerLoop.Rounds.{all_of}
use l4_loadbalancer.WorkerLoop.{Packet}
use native.Mathlib.Nat.{mod-lt}

-- The documented bound of rte_ring_sp_enqueue_burst.
abbrev pub Enqueues : EnqueueBurst → Type 0
Enqueues enqueue =
    (past : List (ℕ × Packet)) (w : ℕ) (ms : List Packet) → enqueue past w ms ≤ length ms

-- How often a pointer is in the first groups.
abbrev occ_groups : ℕ → (ℕ → List Packet) → ℕ → ℕ
occ_groups q groups zero = 0
occ_groups q groups (suc n) = occ_groups q groups n + occ q (groups n)

occ_groups-above :
    (q : ℕ) (groups : ℕ → List Packet) (to n : ℕ) (ms : List Packet)
    → n ≤ to
    → occ_groups q (update groups to ms) n ≡ occ_groups q groups n
occ_groups-above q groups to zero ms h = refl
occ_groups-above q groups to (suc n) ms h =
    rw (occ_groups-above q groups to n ms (omega (arith, h)), ==-false to n (omega (arith, h))) refl

occ_groups-put :
    (q : ℕ) (groups : ℕ → List Packet) (to n : ℕ) (m : Packet)
    → to < n
    → occ_groups q (update groups to (groups to ++ (m ∷ []))) n
      ≡ occ_groups q groups n + occ q (m ∷ [])
occ_groups-put q groups to zero m h = absurd (omega (arith, h))
occ_groups-put q groups to (suc n) m h = elim (Bool-cases (to == n)) [
  | inl e ↦
      let same : to ≡ n = (==_iff to n).0 e in
      let here = occ-append q (groups to) (m ∷ []) in
      rw (e, occ_groups-above q groups to n (groups to ++ (m ∷ [])) (omega (arith, same)))
        (omega (arith, here, ap (λ w. occ q (groups w)) same))
  | inr e ↦ rw e (omega (arith, occ_groups-put q groups to n m (omega (arith, h, not_last e))))
]
  where
    not_last : (to == n) ≡ false → to ≡ n → ⊥
    not_last e same = cc (e, (==_iff to n).1 same)

occ-take : (q k : ℕ) (ms : List Packet) → occ q ms ≡ occ q (take k ms) + occ q (drop k ms)
occ-take q zero [] = refl
occ-take q zero (m ∷ ms) = omega arith
occ-take q (suc k) [] = refl
occ-take q (suc k) (m ∷ ms) = omega (arith, occ-take q k ms)

occ_handed-tagged : (q w : ℕ) (ms : List Packet) → occ_handed q (tagged w ms) ≡ occ q ms
occ_handed-tagged q w [] = refl
occ_handed-tagged q w (m ∷ ms) = rw (occ_handed-tagged q w ms) refl

take-all : (k : ℕ) (ms : List Packet) → length ms ≤ k → take k ms ≡ ms
take-all zero [] h = refl
take-all zero (m ∷ ms) h = absurd (omega (arith, h))
take-all (suc k) [] h = refl
take-all (suc k) (m ∷ ms) h = ap (λ rest. m ∷ rest) (take-all k ms (omega (arith, h)))

-- With a ring, or back in the pool.
abbrev pub passed : ℕ → Receiver → ℕ
passed q r = occ_handed q r.queued + occ q r.freed

module _ (enqueue : EnqueueBurst) (bounded : Enqueues enqueue) where
  enqueue_group-passes :
      (r : Receiver) (w : ℕ) (group : List Packet) (q : ℕ)
      → passed q (enqueue_group enqueue r w group) ≡ passed q r + occ q group
  unfolding enqueue_group
  enqueue_group-passes r w [] q = omega arith
  enqueue_group-passes r w (m ∷ ms) q =
      let group : List Packet = m ∷ ms in
      let done : ℕ = enqueue r.queued w group in
      let some_packets : (length group == 0) ≡ false =
        ==-false (suc (length ms)) 0 (λ e. omega arith) in
      let put = occ_handed-append q r.queued (tagged w (take done group)) in
      let tags = occ_handed-tagged q w (take done group) in
      elim (Bool-cases (ltb done (length group))) [
        | inl e ↦
            rw (some_packets, e)
              (omega
                (arith, put, tags, occ-take q done group, occ-append q r.freed (drop done group)))
        | inr e ↦
            rw (some_packets, e)
              (omega (
                arith,
                put,
                tags,
                ap (occ q) (take-all done group (ltb-false done (length group) e)),
              ))
      ]

  enqueue_groups-passes :
      (r : Receiver) (groups : ℕ → List Packet) (n q : ℕ)
      → passed q (enqueue_groups enqueue r groups n) ≡ passed q r + occ_groups q groups n
  unfolding enqueue_groups
  enqueue_groups-passes r groups zero q = omega arith
  enqueue_groups-passes r groups (suc n) q = omega (
    arith,
    enqueue_groups-passes r groups n q,
    enqueue_group-passes (enqueue_groups enqueue r groups n) n (groups n) q,
  )

module _ (hashes : Hashes) (jhash_2words : ℕ → ℕ → ℕ → ℕ) (s : Steering) (ready : IsReady s) where
  -- The worker is one of the array `groups`.
  pub target-lt :
      (d : Dispatcher) (mem : Memory) (len : ℕ) → target hashes jhash_2words s d mem len < s.workers
  unfolding target
  target-lt d mem len =
      let t = frame_tuple mem in
      let h : ℕ = jhash_2words t.src_ip t.dst_ip 0 in
      let low : h % s.workers % 2 ^ 16 < s.workers =
        omega (arith, mod-lt h ready.some_worker, ready.few_workers) in
      any_of (s.workers == 1) 0 _ ready.some_worker (
        any_of (ltb len (ethernet_size + ipv4_size)) 0 _ ready.some_worker (
          any_of (not (is_ipv4 mem)) 0 _ ready.some_worker (
            any_of (not (has_ports mem len)) _ _ low (
              any_of (is_return d t) _ _ (ret_owner-lt hashes s ready t)
                (fwd_owner-lt hashes s ready t)))))
    where
      any_of :
          (b : Bool) (x y : ℕ) → x < s.workers → y < s.workers → (if b then x else y) < s.workers
      any_of true x y h k = h
      any_of false x y h k = k

  sort_into-puts :
      (d : Dispatcher) (groups : ℕ → List Packet) (ms : List Packet) (q : ℕ)
      → occ_groups q (sort_into hashes jhash_2words s d groups ms) s.workers
        ≡ occ_groups q groups s.workers + occ q ms
  unfolding sort_into
  sort_into-puts d groups [] q = omega arith
  sort_into-puts d groups (m ∷ ms) q =
      let to = target hashes jhash_2words s d m.mbuf.mem m.mbuf.data_len in
      let next : ℕ → List Packet = update groups to (groups to ++ (m ∷ [])) in
      omega (
        arith,
        sort_into-puts d next ms q,
        occ_groups-put q groups to s.workers m (target-lt d m.mbuf.mem m.mbuf.data_len),
      )

  occ_groups-none : (q n : ℕ) → occ_groups q (λ w. []) n ≡ 0
  occ_groups-none q zero = refl
  occ_groups-none q (suc n) = omega (arith, occ_groups-none q n)

  module _ (enqueue : EnqueueBurst) (bounded : Enqueues enqueue) where
    pub dispatch_rx_queue-passes :
        (d : Dispatcher) (r : Receiver) (bufs : List Packet) (q : ℕ)
        → passed q (dispatch_rx_queue hashes jhash_2words s enqueue s.workers d r bufs)
          ≡ passed q r + occ q bufs
    unfolding dispatch_rx_queue count_stat count_bytes
    dispatch_rx_queue-passes d r [] q = omega arith
    dispatch_rx_queue-passes d r (m ∷ ms) q =
        let groups = sort_into hashes jhash_2words s d (λ w. []) (m ∷ ms) in
        let some_packets : (length (m ∷ ms) == 0) ≡ false =
          ==-false (suc (length ms)) 0 (λ e. omega arith) in
        rw some_packets (
          omega (
            arith,
            enqueue_groups-passes enqueue bounded _ groups s.workers q,
            sort_into-puts d (λ w. []) (m ∷ ms) q,
            occ_groups-none q s.workers,
          ))

    dispatch_queues-passes :
        (d : Dispatcher) (r : Receiver) (queues : List (List Packet)) (q : ℕ)
        → passed q (dispatch_queues hashes jhash_2words s enqueue s.workers d r queues)
          ≡ passed q r + occ q (all_of queues)
    unfolding dispatch_queues
    dispatch_queues-passes d r [] q = omega arith
    dispatch_queues-passes d r (bufs ∷ queues) q =
        let next = dispatch_rx_queue hashes jhash_2words s enqueue s.workers d r bufs in
        omega (
          arith,
          dispatch_queues-passes d next queues q,
          dispatch_rx_queue-passes d r bufs q,
          occ-append q bufs (all_of queues),
        )

    -- For a steering that is initialised, with as many workers as it has, and rings that take at most
    -- what they are offered: after a round of the receiver every pointer is in a ring or in the pool as
    -- often as before plus as often as the queues gave it.
    pub receiver_round-passes :
        (d : Dispatcher) (r : Receiver) (queues : List (List Packet)) (now q : ℕ)
        → passed q (receiver_round hashes jhash_2words s enqueue s.workers d r queues now)
          ≡ passed q r + occ q (all_of queues)
    unfolding receiver_round
    receiver_round-passes d r queues now q = dispatch_queues-passes d r queues q
