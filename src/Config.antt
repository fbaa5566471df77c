-- ===== src/Config.antt =====
-- include/common/config.h and the enumerations of include/common/types.h that it uses: the
-- constants of the port ranges and capacities, and the parts of the configuration that the data
-- plane reads.
pub mod Validate
use l4_loadbalancer.Base.{ℕ, Bool, List}
use l4_loadbalancer.Types.{MacAddr}
use Prim.Native.String.{String}

-- SNAT source ports of a local address, and the source ports of health probes.
abbrev pub nat_port_min : ℕ
nat_port_min = 10000

abbrev pub nat_port_max : ℕ
nat_port_max = 60000

abbrev pub hc_port_min : ℕ
hc_port_min = 61000

abbrev pub hc_port_max : ℕ
hc_port_max = 61999

abbrev pub max_rs_per_service : ℕ
max_rs_per_service = 256

pub data ForwardMode : Type 0 where
  nat dr : ForwardMode

pub data SchedulerType : Type 0 where
  wrr maglev : SchedulerType

-- Timeouts of the session states, in seconds.
pub record TimeoutConf : Type 0 where
  pub tcp_syn : ℕ
  pub tcp_established : ℕ
  pub tcp_fin : ℕ
  pub tcp_timewait : ℕ
  pub tcp_close : ℕ
  pub udp : ℕ

-- The defaults of the struct.
abbrev pub default_timeouts : TimeoutConf
default_timeouts = record {
  tcp_syn = 10;
  tcp_established = 900;
  tcp_fin = 10;
  tcp_timewait = 10;
  tcp_close = 5;
  udp = 60;
}

pub record HealthConf : Type 0 where
  pub enabled : Bool
  pub interval_ms : ℕ
  pub timeout_ms : ℕ
  pub fall : ℕ
  pub rise : ℕ

abbrev pub max_services : ℕ
max_services = 64

abbrev pub max_local_ips : ℕ
max_local_ips = 64

pub record RsConf : Type 0 where
  pub ip : ℕ
  pub port : ℕ
  pub weight : ℕ
  pub mac : MacAddr

pub record ServiceConf : Type 0 where
  pub name : String
  pub vip : ℕ
  pub port : ℕ
  pub proto : ℕ
  pub sched : SchedulerType
  pub rs : List RsConf

-- The fields that the snapshots and the check of the configuration read.
pub record LbConfig : Type 0 where
  pub mode : ForwardMode
  pub netmask : ℕ
  pub gateway : ℕ
  pub local_ips : List ℕ
  pub hc_src : ℕ
  pub health : HealthConf
  pub services : List ServiceConf
