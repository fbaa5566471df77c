-- ===== src/Receiver/Tests.antt =====
-- A burst through the receiver, and its theorems at it.
use l4_loadbalancer.Base.{ℕ, ◌+◌, ◌≡◌, refl, false, [], ◌∷◌, arith}
use l4_loadbalancer.Header.{get_protocol}
use l4_loadbalancer.Manager.Commands.{started}
use l4_loadbalancer.Manager.{unindexed, build, init as start_manager}
use l4_loadbalancer.Processor.Dispatch.{process_packet}
use l4_loadbalancer.Processor.Sample.{platform, plane, state, received, syn_bytes, no_meta, config}
use l4_loadbalancer.Processor.Stays.{is_redirect}
use l4_loadbalancer.Receiver.Agree.{target-stays}
use l4_loadbalancer.Receiver.Dispatch.{Enqueues, passed, receiver_round-passes}
use l4_loadbalancer.Receiver.{Dispatcher, Receiver, EnqueueBurst, init, target, receiver_round}
use l4_loadbalancer.Snapshot.{Snapshot, index}
use l4_loadbalancer.Steering.Owner.{init_sw-IsReady}
use l4_loadbalancer.Steering.{init_sw, initial as new_steering}
use l4_loadbalancer.Types.{words}
use l4_loadbalancer.WorkerLoop.{Packet}

-- Rings that take one packet of each burst.
abbrev one_each : EnqueueBurst
one_each past w [] = 0
one_each past w (m ∷ ms) = 1

one_each-Enqueues : Enqueues one_each
one_each-Enqueues past w [] = omega arith
one_each-Enqueues past w (m ∷ ms) = omega arith

abbrev jhash_2words : ℕ → ℕ → ℕ → ℕ
jhash_2words a b seed = a + b + seed

abbrev conf : Snapshot
conf = unindexed 2 platform.crc (λ bs. []) (started 2 platform.crc (λ bs. []) config)

abbrev dispatcher : Dispatcher
dispatcher = init conf.mode conf.local_ips

abbrev packet : ℕ → Packet
packet ptr = record { ptr = ptr; mbuf = received syn_bytes }

abbrev empty : Receiver
empty = record {
  stats = λ i. 0;
  byte_stats = λ i. 0;
  meter = record { last = 0; idle_cost = 0; n = 0; idle = 0 };
  busy_tsc = 0;
  queued = [];
  freed = [];
}

-- Both SYNs are for the same worker, whose ring takes one.
receiver_round-passes_example :
    passed 2 (
      receiver_round platform.hashes jhash_2words plane.steering one_each 2 dispatcher empty
        ((packet 1 ∷ packet 2 ∷ []) ∷ [])
        9)
    ≡ 1
unfolding init_sw
receiver_round-passes_example =
    receiver_round-passes platform.hashes jhash_2words plane.steering
      (init_sw-IsReady new_steering 2 (omega arith)) one_each one_each-Enqueues dispatcher empty
      ((packet 1 ∷ packet 2 ∷ []) ∷ []) 9 2

target-stays_example :
    is_redirect (process_packet platform plane no_meta (state 1 syn_bytes) false).0 ≡ false
unfolding build start_manager index init_sw get_protocol target init words
target-stays_example =
    target-stays platform plane jhash_2words conf no_meta (state 1 syn_bytes) refl (omega arith)
      (omega arith) (λ v4 e. omega arith) (λ v4 e. omega arith) refl
