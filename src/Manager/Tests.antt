-- ===== src/Manager/Tests.antt =====
-- One service with two real servers, some commands, and the theorems at them.
use l4_loadbalancer.Base.{ℕ, ◌≡◌, refl, false, List, [], ◌∷◌, ◌++◌, none, some, arith}
use l4_loadbalancer.Config.{ForwardMode, SchedulerType, RsConf, ServiceConf, LbConfig}
use l4_loadbalancer.Checksum.{htons}
use l4_loadbalancer.Config.Validate.{duplicate_service, validate}
use l4_loadbalancer.Manager.Accepted.{validate-find_service}
use l4_loadbalancer.Manager.Build.{state_from, build-rs_of}
use l4_loadbalancer.Manager.Change.{exec-failed}
use l4_loadbalancer.Manager.Commands.{
  Command, weigh, add, delete, exec, run, started, run-IsNumbered,
}
use l4_loadbalancer.Manager.Ids.{IsNumbered, ids_of}
use l4_loadbalancer.Manager.{
  Manager, weight_out_of_range, rs_exists, set_weight, set_enabled, set_health, add_rs, del_rs,
  init, build, list,
}
use l4_loadbalancer.Scheduler.{SchedBackend}
use l4_loadbalancer.Snapshot.{Crc, rs_of, find_service}
use l4_loadbalancer.Types.{zero_mac}

abbrev crc : Crc
crc = record { crc_8byte = λ k seed. k; crc_4byte = λ k seed. k }

abbrev no_maglev : List SchedBackend → List ℕ
no_maglev bs = []

abbrev rs_conf : ℕ → RsConf
rs_conf ip = record { ip = ip; port = 8080; weight = 1; mac = zero_mac }

abbrev config : LbConfig
config = record {
  mode = ForwardMode.nat;
  netmask = 0;
  gateway = 0;
  local_ips = 9 ∷ [];
  hc_src = 9;
  health = record { enabled = false; interval_ms = 5000; timeout_ms = 3000; fall = 3; rise = 2 };
  services =
      record {
        name = "web";
        vip = 7;
        port = 80;
        proto = 6;
        sched = SchedulerType.wrr;
        rs = rs_conf 21 ∷ rs_conf 22 ∷ [];
      }
      ∷ [];
}

abbrev commands : List Command
commands = delete 1 ∷ add 0 (rs_conf 23) ∷ weigh 2 70000 ∷ add 0 (rs_conf 22) ∷ []

abbrev first : Manager
first = started 2 crc no_maglev config

program : Unit {0}
unfolding set_weight set_enabled set_health add_rs del_rs init build list rs_of
program = tt

-- The id of a deleted real server is not used again.
fresh_ids : ids_of (run 2 crc no_maglev first commands).services ≡ 2 ∷ 3 ∷ []
unfolding program
fresh_ids = refl

too_heavy : (exec first (weigh 2 70000)).0 ≡ some weight_out_of_range
unfolding program
too_heavy = refl

exists : (exec first (add 0 (rs_conf 22))).0 ≡ some (rs_exists 2)
unfolding program
exists = refl

run-IsNumbered_example : IsNumbered (run 2 crc no_maglev first commands)
run-IsNumbered_example = run-IsNumbered 2 crc no_maglev config commands (omega arith)

exec-failed_example :
    ((exec first (add 0 (rs_conf 22))).1 ≡ first)
    × ((i : ℕ) (conf : RsConf) → add 0 (rs_conf 22) ≡ add i conf → (add_rs first i conf).1 ≡ none)
exec-failed_example = exec-failed first (add 0 (rs_conf 22)) (rs_exists 2) exists

build-rs_of_example :
    rs_of (build 2 crc no_maglev (run 2 crc no_maglev first commands)) 3
    ≡ state_from 0 (run 2 crc no_maglev first commands).services 3
build-rs_of_example =
    build-rs_of 2 crc no_maglev (run 2 crc no_maglev first commands) 3
      (run-IsNumbered 2 crc no_maglev config commands (omega arith))

abbrev other : ServiceConf
other = record {
  name = "dns";
  vip = 7;
  port = 53;
  proto = 17;
  sched = SchedulerType.wrr;
  rs = rs_conf 23 ∷ [];
}

-- A second service, and no local address.
abbrev two_services : LbConfig
two_services = record config {
  local_ips = [];
  hc_src = 0;
  services = config.services ++ (other ∷ []);
}

accepted : (validate two_services).0 ≡ none
unfolding validate
accepted = refl

twice :
    (validate (record config { services = config.services ++ config.services })).0
    ≡ some duplicate_service
unfolding validate
twice = refl

validate-find_service_example :
    find_service crc
      (build 2 crc no_maglev (started 2 crc no_maglev (validate two_services).1))
      7
      (htons 53)
      17
    ≡ some 1
unfolding init
validate-find_service_example =
    validate-find_service 2 crc no_maglev two_services
      (build 2 crc no_maglev (started 2 crc no_maglev (validate two_services).1)) 1 other accepted
      (omega arith, (omega arith, tt)) refl refl
