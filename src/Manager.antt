-- ===== src/Manager.antt =====
-- `SnapshotManager` of include/ctrl/snapshot.h and src/ctrl/snapshot.cpp: the desired state, which the
-- commands change, and the snapshot that is built from it. The lock is not modelled: each operation
-- runs alone. An old snapshot is not freed here.
pub mod Ids
pub mod Build
pub mod Commands
pub mod Placed
pub mod Accepted
pub mod Change
mod Tests
use l4_loadbalancer.Base.{
  ℕ, zero, suc, ◌+◌, ◌-◌, ◌%◌, ◌^◌, Bool, true, false, ◌&&◌, ◌||◌, not, ◌==◌, ltb, leb,
  if◌then◌else◌, List, [], ◌∷◌, ◌++◌, Option, none, some, length, get_elem?, set, replicate, map,
}
use l4_loadbalancer.Checksum.{htons}
use l4_loadbalancer.Config.{
  ForwardMode, SchedulerType, max_rs_per_service, RsConf, ServiceConf, LbConfig,
}
use l4_loadbalancer.Scheduler.{SchedBackend, Scheduler, build as build_scheduler}
use Prim.Native.String.{String}
use l4_loadbalancer.Snapshot.{Crc, RsState, Service, Snapshot, schedulable, index}

-- The number of counters for real servers in each worker.
abbrev pub max_rs_id : ℕ
max_rs_id = 16384

pub record DesiredRs : Type 0 where
  pub id : ℕ
  pub conf : RsConf
  pub enabled : Bool
  pub healthy : Bool

pub record DesiredService : Type 0 where
  pub conf : ServiceConf
  pub rs : List DesiredRs

pub record Manager : Type 0 where
  pub mode : ForwardMode
  pub local_ips : List ℕ
  pub hc_src : ℕ
  pub services : List DesiredService
  pub next_rs_id : ℕ
  pub version : ℕ
  pub cur : Option Snapshot

-- A new object.
abbrev pub initial : Manager
initial = record {
  mode = ForwardMode.nat;
  local_ips = [];
  hc_src = 0;
  services = [];
  next_rs_id = 1;
  version = 0;
  cur = none;
}

-- The texts that the commands return, with the numbers in them.
pub data CommandError : Type 0 where
  no_such_rs no_such_service rs_exists : ℕ → CommandError
  weight_out_of_range too_many_rs ids_exhausted : CommandError

-- `find_rs`.
abbrev pub find_in : List DesiredRs → ℕ → Option DesiredRs
find_in [] id = none
find_in (r ∷ rs) id = let rest = find_in rs id in if r.id == id then some r else rest

abbrev pub or_else {ℓ} : {A : Type ℓ} → Option A → Option A → Option A
or_else none y = y
or_else (some a) y = some a

unfoldable pub find_rs : List DesiredService → ℕ → Option DesiredRs
find_rs [] id = none
find_rs (s ∷ ss) id = or_else (find_in s.rs id) (find_rs ss id)

-- An assignment through the pointer that `find_rs` returns.
abbrev pub change_in : List DesiredRs → ℕ → (DesiredRs → DesiredRs) → List DesiredRs
change_in [] id f = []
change_in (r ∷ rs) id f = let rest = change_in rs id f in if r.id == id then f r ∷ rs else r ∷ rest

abbrev pub is_some {ℓ} : {A : Type ℓ} → Option A → Bool
is_some none = false
is_some (some a) = true

unfoldable pub change_rs : List DesiredService → ℕ → (DesiredRs → DesiredRs) → List DesiredService
change_rs [] id f = []
change_rs (s ∷ ss) id f =
    let rest = change_rs ss id f in
    if is_some (find_in s.rs id) then record s { rs = change_in s.rs id f } ∷ ss else s ∷ rest

abbrev pub put_weight : ℕ → DesiredRs → DesiredRs
put_weight weight r = record r { conf = record r.conf { weight = weight } }

abbrev pub put_enabled : Bool → DesiredRs → DesiredRs
put_enabled enabled r = record r { enabled = enabled }

abbrev pub put_healthy : Bool → DesiredRs → DesiredRs
put_healthy healthy r = record r { healthy = healthy }

unfoldable pub set_weight : Manager → ℕ → ℕ → Option CommandError × Manager
unfolding find_rs change_rs
set_weight m id weight = elim (find_rs m.services id) [
  | none ↦ (some (no_such_rs id), m)
  | some r ↦
      if ltb 65535 weight
      then (some weight_out_of_range, m)
      else (none, record m { services = change_rs m.services id (put_weight weight) })
]

unfoldable pub set_enabled : Manager → ℕ → Bool → Option CommandError × Manager
unfolding find_rs change_rs
set_enabled m id enabled = elim (find_rs m.services id) [
  | none ↦ (some (no_such_rs id), m)
  | some r ↦ (none, record m { services = change_rs m.services id (put_enabled enabled) })
]

unfoldable pub set_health : Manager → ℕ → Bool → Manager
unfolding find_rs change_rs
set_health m id healthy = elim (find_rs m.services id) [
  | none ↦ m
  | some r ↦ record m { services = change_rs m.services id (put_healthy healthy) }
]

abbrev pub new_rs : ℕ → RsConf → DesiredRs
new_rs id conf = record { id = id; conf = conf; enabled = true; healthy = true }

-- The first real server of a service with an address and a port.
abbrev pub same_address : List DesiredRs → RsConf → Option DesiredRs
same_address [] conf = none
same_address (r ∷ rs) conf =
    let rest = same_address rs conf in
    if r.conf.ip == conf.ip && r.conf.port == conf.port then some r else rest

-- `add_rs` of a service that there is.
unfoldable pub add_to :
    Manager → ℕ → DesiredService → RsConf → Option CommandError × Option ℕ × Manager
add_to m svc_idx svc conf =
    let added = record svc { rs = svc.rs ++ (new_rs m.next_rs_id conf ∷ []) } in
    let room = if leb max_rs_id m.next_rs_id then (some ids_exhausted, none, m) else (
      none,
      some m.next_rs_id,
      record m {
        services = set m.services svc_idx added;
        next_rs_id = (m.next_rs_id + 1) % 2 ^ 32;
      },
    ) in
    if leb max_rs_per_service (length svc.rs)
    then (some too_many_rs, none, m)
    else elim (same_address svc.rs conf) [ some r ↦ (some (rs_exists r.id), none, m) | none ↦ room ]

-- The error, and the new id where there is none.
unfoldable pub add_rs : Manager → ℕ → RsConf → Option CommandError × Option ℕ × Manager
unfolding add_to
add_rs m svc_idx conf = elim (get_elem? m.services svc_idx) [
  | none ↦ (some (no_such_service svc_idx), none, m)
  | some svc ↦ add_to m svc_idx svc conf
]

abbrev pub erase_in : List DesiredRs → ℕ → List DesiredRs
erase_in [] id = []
erase_in (r ∷ rs) id = let rest = erase_in rs id in if r.id == id then rs else r ∷ rest

unfoldable pub erase_rs : List DesiredService → ℕ → List DesiredService
erase_rs [] id = []
erase_rs (s ∷ ss) id =
    let rest = erase_rs ss id in
    if is_some (find_in s.rs id) then record s { rs = erase_in s.rs id } ∷ ss else s ∷ rest

unfoldable pub del_rs : Manager → ℕ → Option CommandError × Manager
unfolding find_rs erase_rs
del_rs m id = elim (find_rs m.services id) [
  | none ↦ (some (no_such_rs id), m)
  | some r ↦ (none, record m { services = erase_rs m.services id })
]

unfoldable pub rs_state : ℕ → DesiredRs → RsState
unfolding htons
rs_state svc_idx r = record {
  id = r.id;
  svc_idx = svc_idx;
  ip = r.conf.ip;
  port = r.conf.port;
  port_be = htons r.conf.port;
  mac = r.conf.mac;
  weight = r.conf.weight;
  enabled = r.enabled;
  healthy = r.healthy;
}

abbrev pub rs_states : ℕ → List DesiredRs → List RsState
rs_states svc_idx [] = []
rs_states svc_idx (r ∷ rs) = rs_state svc_idx r ∷ rs_states svc_idx rs

unfoldable pub backend : RsState → SchedBackend
unfolding schedulable
backend rs = record { ip = rs.ip; port = rs.port; weight = if schedulable rs then rs.weight else 0 }

-- The real servers of a service, with the ids from `next` on.
abbrev pub number_rs : ℕ → List RsConf → List DesiredRs
number_rs next [] = []
number_rs next (c ∷ cs) = new_rs next c ∷ number_rs ((next + 1) % 2 ^ 32) cs

abbrev pub after_rs : ℕ → List RsConf → ℕ
after_rs next [] = next
after_rs next (c ∷ cs) = after_rs ((next + 1) % 2 ^ 32) cs

abbrev pub number_services : ℕ → List ServiceConf → List DesiredService
number_services next [] = []
number_services next (c ∷ cs) =
    record { conf = record c { rs = [] }; rs = number_rs next c.rs }
    ∷ number_services (after_rs next c.rs) cs

abbrev pub after_services : ℕ → List ServiceConf → ℕ
after_services next [] = next
after_services next (c ∷ cs) = after_services (after_rs next c.rs) cs

abbrev pub pool_of : List Service → List RsState
pool_of [] = []
pool_of (s ∷ ss) = s.rs ++ pool_of ss

-- `rs_by_id[rs.id] = p`, for each.
abbrev pub by_id : List RsState → List (Option RsState) → List (Option RsState)
by_id [] table = table
by_id (rs ∷ rest) table = by_id rest (set table rs.id (some rs))

-- RTE_MAX_LCORE, the hash functions and `build_maglev`.
module _ (max_lcore : ℕ) (crc : Crc) (build_maglev : List SchedBackend → List ℕ) where
  -- `Scheduler()`.
  abbrev pub new_scheduler : Scheduler
  new_scheduler = record { type = SchedulerType.wrr; table = []; cursors = replicate max_lcore 0 }

  unfoldable pub build_service : ℕ → DesiredService → Service
  unfolding rs_state backend build_scheduler htons
  build_service i ds =
      let svc_idx = i % 2 ^ 16 in
      let states = rs_states svc_idx ds.rs in
      record {
        idx = svc_idx;
        name = ds.conf.name;
        vip = ds.conf.vip;
        port = ds.conf.port;
        port_be = htons ds.conf.port;
        proto = ds.conf.proto;
        rs = states;
        sched =
            build_scheduler max_lcore build_maglev new_scheduler ds.conf.sched (map backend states);
      }

  abbrev pub build_services : ℕ → List DesiredService → List Service
  build_services i [] = []
  build_services i (ds ∷ dss) = build_service i ds ∷ build_services (i + 1) dss

  -- The snapshot before `index`.
  unfoldable pub unindexed : Manager → Snapshot
  unfolding build_service
  unindexed m =
      let services = build_services 0 m.services in
      let pool = pool_of services in
      record {
        version = m.version;
        mode = m.mode;
        services = services;
        rs_pool = pool;
        rs_by_id = by_id pool (replicate m.next_rs_id none);
        local_ips = m.local_ips;
        hc_src = m.hc_src;
        svc_slots = λ i. none;
        vips = λ i. 0;
        lips = λ i. 0;
        locals = λ i. 0;
      }

  unfoldable pub build : Manager → Snapshot
  unfolding unindexed index
  build m = index crc (unindexed m)

  unfoldable pub publish : Manager → Manager
  unfolding build
  publish m =
      let m' = record m { version = (m.version + 1) % 2 ^ 64 } in
      record m' { cur = some (build m') }

  unfoldable pub init : Manager → LbConfig → Manager
  unfolding publish
  init m cfg = publish (record m {
    mode = cfg.mode;
    local_ips = elim cfg.mode [ ForwardMode.nat ↦ cfg.local_ips | ForwardMode.dr ↦ [] ];
    hc_src = cfg.hc_src;
    services = m.services ++ number_services m.next_rs_id cfg.services;
    next_rs_id = after_services m.next_rs_id cfg.services;
  })

-- `ServiceInfo`, and `list`.
pub record ServiceInfo : Type 0 where
  pub idx : ℕ
  pub name : String
  pub vip : ℕ
  pub port : ℕ
  pub proto : ℕ
  pub rs : List (ℕ × ℕ × ℕ)

abbrev pub rs_info : DesiredRs → ℕ × ℕ × ℕ
rs_info r = (r.id, r.conf.ip, r.conf.port)

unfoldable pub list_from : ℕ → List DesiredService → List ServiceInfo
list_from i [] = []
list_from i (ds ∷ dss) =
    record {
      idx = i % 2 ^ 16;
      name = ds.conf.name;
      vip = ds.conf.vip;
      port = ds.conf.port;
      proto = ds.conf.proto;
      rs = map rs_info ds.rs;
    }
    ∷ list_from (i + 1) dss

unfoldable pub list : Manager → List ServiceInfo
unfolding list_from
list m = list_from 0 m.services
