-- ===== src/Snapshot/Tests.antt =====
-- Two services, a local address, and the theorems at them.
use l4_loadbalancer.Base.{ℕ, ◌≡◌, refl, true, false, ◌||◌, ◌==◌, [], ◌∷◌, none, some, arith}
use l4_loadbalancer.Config.{ForwardMode, SchedulerType}
use l4_loadbalancer.Scheduler.{Scheduler}
use l4_loadbalancer.Snapshot.Find.{search, find_service-search}
use l4_loadbalancer.Snapshot.Local.{index-sets, zero_is_local}
use l4_loadbalancer.Snapshot.Sets.{mem}
use l4_loadbalancer.Snapshot.{Crc, Service, Snapshot, index, is_vip, is_lip, is_local, find_service}

-- All services have one home, and so have all addresses: collisions.
abbrev crc : Crc
crc = record { crc_8byte = λ k seed. 511; crc_4byte = λ k seed. 511 }

abbrev no_sched : Scheduler
no_sched = record { type = SchedulerType.wrr; table = []; cursors = [] }

abbrev service : ℕ → ℕ → Service
service idx port = record {
  idx = idx;
  name = "web";
  vip = 7;
  port_be = port;
  port = port;
  proto = 6;
  rs = [];
  sched = no_sched;
}

abbrev plain : Snapshot
plain = record {
  version = 1;
  mode = ForwardMode.nat;
  services = service 0 80 ∷ service 1 443 ∷ [];
  rs_pool = [];
  rs_by_id = [];
  local_ips = 9 ∷ [];
  hc_src = 11;
  svc_slots = λ i. none;
  vips = λ i. 0;
  lips = λ i. 0;
  locals = λ i. 0;
}

program : Unit {0}
unfolding index is_vip is_lip is_local find_service
program = tt

second_found : find_service crc (index crc plain) 7 443 6 ≡ some 1
unfolding program
second_found = refl

other_protocol : find_service crc (index crc plain) 7 443 17 ≡ none
unfolding program
other_protocol = refl

all_local :
    (is_local crc (index crc plain) 7 ≡ true)
    × (is_local crc (index crc plain) 9 ≡ true)
    × (is_local crc (index crc plain) 11 ≡ true)
    × (is_local crc (index crc plain) 8 ≡ false)
unfolding program
all_local = (refl, refl, refl, refl)

zero_too : is_local crc (index crc plain) 0 ≡ true
zero_too = zero_is_local crc plain (omega arith)

index-sets_example :
    (is_vip crc (index crc plain) 9 ≡ mem 9 (7 ∷ 7 ∷ []))
    × (is_lip crc (index crc plain) 9 ≡ mem 9 (9 ∷ []))
    × (is_local crc (index crc plain) 9 ≡ (11 == 9 || (mem 9 (7 ∷ 7 ∷ []) || mem 9 (9 ∷ []))))
index-sets_example = index-sets crc plain 9 (omega arith) (λ e. omega (arith, e))

find_service-search_example :
    find_service crc (index crc plain) 7 443 6 ≡ search (7, 443, 6) plain.services
find_service-search_example = find_service-search crc plain 7 443 6 (refl, (refl, tt)) (omega arith)
