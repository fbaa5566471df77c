-- ===== src/WorkerLoop/Tests.antt =====
-- Rounds of the second of two workers, and the theorems at them.
use l4_loadbalancer.Base.{ℕ, ◌≡◌, refl, true, List, [], ◌∷◌, arith}
use l4_loadbalancer.Processor.Sample.{
  platform, plane, worker, snapshot, received, syn_bytes, no_meta,
}
use l4_loadbalancer.WorkerLoop.Buffer.{Takes, gone}
use l4_loadbalancer.WorkerLoop.Busy.{busy_rounds}
use l4_loadbalancer.WorkerLoop.Delivery.{worker_loop-delivers}
use l4_loadbalancer.WorkerLoop.Rounds.{Clock, worker_loop}
use l4_loadbalancer.WorkerLoop.{Packet, Devices, Round, from_ring, from_queues, Wk, BusyMeter}

-- A card that takes one packet of each burst.
abbrev one_of : List Packet → ℕ
one_of [] = 0
one_of (m ∷ ms) = 1

abbrev devices : Devices
devices = record {
  tx_burst = λ past ms. one_of ms;
  has_worker = λ w. true;
  mp_enqueue = λ past w m. true;
}

devices-Takes : Takes devices
devices-Takes past [] = omega arith
devices-Takes past (m ∷ ms) = omega arith

abbrev clock : Clock
clock = record { start_tsc = 0; tsc_hz = 1000 }

abbrev packet : ℕ → Packet
packet ptr = record { ptr = ptr; mbuf = received syn_bytes }

abbrev new_meter : BusyMeter
new_meter = record { last = 0; idle_cost = 0; n = 0; idle = 0 }

abbrev start : Wk platform plane devices
start = record {
  ctx = worker 1;
  snap = snapshot;
  tx = record { pkts = packet; count = 0 };
  now_ms = 0;
  meter = new_meter;
  busy_tsc = 0;
  loops = 0;
  sent = [];
  freed = [];
  handed = [];
}

-- Two SYNs of the card's queue, and one that the other worker handed on.
abbrev rounds : List Round
rounds =
    record {
      current = snapshot;
      source = from_queues ((packet 1 ∷ packet 2 ∷ []) ∷ []);
      redirected = packet 3 ∷ [];
      rdtsc = 7;
      cycles = 7;
    }
    ∷ record { current = snapshot; source = from_ring []; redirected = []; rdtsc = 8; cycles = 8 }
    ∷ []

worker_loop-delivers_example :
    ((worker_loop platform plane devices clock no_meta start rounds).tx.count ≡ 0)
    × (gone platform plane devices 3 (worker_loop platform plane devices clock no_meta start rounds)
        ≡ 1)
worker_loop-delivers_example =
    worker_loop-delivers platform plane devices devices-Takes clock no_meta start rounds
      (omega arith) 3

-- At the end of a window with work.
abbrev busy_meter : BusyMeter
busy_meter = record { last = 100; idle_cost = 9; n = 255; idle = 3 }

credited : (busy_rounds busy_meter 40 ((true, 500) ∷ [])).1 ≡ 413
unfolding busy_rounds
credited = refl
