-- ===== src/Health.antt =====
-- include/ctrl/healthcheck.h and src/ctrl/healthcheck.cpp: the health checks of the real servers. The
-- two maps are association lists in their order of iteration, and the log lines are left out. What
-- the checker does to its surroundings is a list of effects: whether a packet that `build_tcp` is
-- asked for leaves, and whether the ring takes a report, is decided there.
pub mod Flip
mod Tests
use l4_loadbalancer.Base.{
  ℕ, zero, suc, ◌+◌, ◌-◌, ◌*◌, ◌%◌, ◌^◌, Bool, true, false, not, ◌&&◌, ◌||◌, ◌==◌, ltb, leb,
  if◌then◌else◌, List, [], ◌∷◌, ◌++◌, Option, none, some, bit_and, map,
}
use l4_loadbalancer.Base.Bits.{has}
use l4_loadbalancer.Config.{HealthConf, hc_port_min, hc_port_max}
use l4_loadbalancer.TcpState.{tcp_flag_syn, tcp_flag_rst, tcp_flag_ack}
use l4_loadbalancer.Types.{MacAddr}

pub record Probe : Type 0 where
  pub rs_id : ℕ
  pub ip : ℕ
  pub port : ℕ
  pub mac : MacAddr
  pub snap_healthy : Bool
  pub healthy : Bool
  pub in_flight : Bool
  pub src_port : ℕ
  pub isn : ℕ
  pub sent_ms : ℕ
  pub next_ms : ℕ
  pub reported_ms : ℕ
  pub ok : ℕ
  pub fail : ℕ

-- `build_tcp` with its flags, sequence and acknowledgment number, and a `HealthEvent` on the ring.
pub data Effect : Type 0 where
  tcp_out : Probe → ℕ → ℕ → ℕ → Effect
  health_event : ℕ → Bool → Effect

abbrev pub Ports : Type 0
Ports = List (ℕ × ℕ)

pub record HealthChecker : Type 0 where
  pub conf : HealthConf
  pub src_ip : ℕ
  pub next_port : ℕ
  pub isn_seed : ℕ
  pub probes : List Probe
  pub by_port : Ports

abbrev pub port_owner : Ports → ℕ → Option ℕ
port_owner [] port = none
port_owner ((k, id) ∷ ps) port = if k == port then some id else port_owner ps port

abbrev pub port_erase : Ports → ℕ → Ports
port_erase [] port = []
port_erase ((k, id) ∷ ps) port = if k == port then ps else (k, id) ∷ port_erase ps port

-- `by_port_[port] = id`.
abbrev pub port_put : Ports → ℕ → ℕ → Ports
port_put [] port id = (port, id) ∷ []
port_put ((k, j) ∷ ps) port id = if k == port then (k, id) ∷ ps else (k, j) ∷ port_put ps port id

unfoldable pub hc_init : HealthChecker → HealthConf → ℕ → HealthChecker
hc_init c conf src_ip = record c { conf = conf; src_ip = src_ip }

-- The outcome of a probe.
unfoldable pub result : HealthConf → Probe → Bool → Probe
result conf p true =
    let n = (p.ok + 1) % 2 ^ 32 in
    record p {
      fail = 0;
      ok = n;
      healthy = if leb conf.rise n && not p.healthy then true else p.healthy;
    }
result conf p false =
    let n = (p.fail + 1) % 2 ^ 32 in
    record p {
      ok = 0;
      fail = n;
      healthy = if leb conf.fall n && p.healthy then false else p.healthy;
    }

-- The search for a free source port, with the port that the next search starts at.
unfoldable pub pick_port : ℕ → Ports → ℕ → ℕ → ℕ × ℕ
pick_port zero taken next_port src_port = (src_port, next_port)
pick_port (suc left) taken next_port src_port =
    let after = if leb hc_port_max next_port then hc_port_min else next_port + 1 in
    let rest = pick_port left taken after src_port in
    elim (port_owner taken next_port) [ none ↦ (next_port, after) | some id ↦ rest ]

unfoldable pub send_probe : HealthChecker → Probe → ℕ → HealthChecker × Probe × Effect
unfolding pick_port
send_probe c p now_ms =
    let (port, next_port) =
      pick_port (hc_port_max - hc_port_min + 1) c.by_port c.next_port p.src_port in
    let isn = (c.isn_seed * 1103515245 + 12345) % 2 ^ 32 in
    let p' = record p { src_port = port; isn = isn; sent_ms = now_ms; in_flight = true } in
    (
      record c { next_port = next_port; isn_seed = isn; by_port = port_put c.by_port port p.rs_id },
      p',
      tcp_out p' tcp_flag_syn isn 0,
    )

-- The difference of two 64-bit times.
abbrev pub elapsed : ℕ → ℕ → ℕ
elapsed now past = (now + 2 ^ 64 - past) % 2 ^ 64

-- What `tick` does with a probe that has waited too long.
unfoldable pub time_out : HealthChecker → Probe → ℕ → HealthChecker × Probe
unfolding result
time_out c p now_ms =
    if p.in_flight && leb c.conf.timeout_ms (elapsed now_ms p.sent_ms)
    then (
      record c { by_port = port_erase c.by_port p.src_port },
      result c.conf (record p { in_flight = false }) false,
    )
    else (c, p)

unfoldable pub next_probe : HealthChecker → Probe → ℕ → HealthChecker × Probe × List Effect
unfolding send_probe
next_probe c p now_ms =
    let (c', p', sent) = send_probe c p now_ms in
    if not p.in_flight && leb p.next_ms now_ms
    then (c', record p' { next_ms = (now_ms + c.conf.interval_ms) % 2 ^ 64 }, sent ∷ [])
    else (c, p, [])

-- `taken` says that the ring takes the report.
unfoldable pub report : Bool → Probe → ℕ → Probe × List Effect
report taken p now_ms =
    if (if p.healthy then not p.snap_healthy else p.snap_healthy)
      && (leb 1000 (elapsed now_ms p.reported_ms) && taken)
    then (record p { reported_ms = now_ms }, health_event p.rs_id p.healthy ∷ [])
    else (p, [])

-- The loop of `tick` over the probes.
unfoldable pub tick_probes :
    (ℕ → Bool) → HealthChecker → List Probe → ℕ → HealthChecker × List Probe × List Effect
unfolding time_out next_probe report
tick_probes ring c [] now_ms = (c, [], [])
tick_probes ring c (p ∷ ps) now_ms =
    let (c1, p1) = time_out c p now_ms in
    let (c2, p2, sent) = next_probe c1 p1 now_ms in
    let (p3, told) = report (ring p2.rs_id) p2 now_ms in
    let (c3, ps', effects) = tick_probes ring c2 ps now_ms in
    (c3, p3 ∷ ps', sent ++ told ++ effects)

-- A real server of the snapshot, with the protocol of its service.
pub record RsView : Type 0 where
  pub id : ℕ
  pub ip : ℕ
  pub port : ℕ
  pub mac : MacAddr
  pub healthy : Bool
  pub proto : ℕ

-- `probes_.find`, or a new probe for the server.
abbrev pub probe_of : List Probe → RsView → HealthConf → ℕ → Probe
probe_of [] rs conf now_ms = record {
  rs_id = rs.id;
  ip = 0;
  port = 0;
  mac = [];
  snap_healthy = true;
  healthy = rs.healthy;
  in_flight = false;
  src_port = 0;
  isn = 0;
  sent_ms = 0;
  next_ms = (now_ms + rs.id * 37 % 2 ^ 32 % conf.interval_ms) % 2 ^ 64;
  reported_ms = 0;
  ok = 0;
  fail = 0;
}
probe_of (p ∷ ps) rs conf now_ms = if p.rs_id == rs.id then p else probe_of ps rs conf now_ms

abbrev pub probe_put : List Probe → Probe → List Probe
probe_put [] v = v ∷ []
probe_put (p ∷ ps) v = if p.rs_id == v.rs_id then v ∷ ps else p ∷ probe_put ps v

-- The servers of TCP services are probed, with what the snapshot says of them.
abbrev pub sync : HealthConf → ℕ → List RsView → List Probe → List Probe
sync conf now_ms [] probes = probes
sync conf now_ms (rs ∷ pool) probes =
    let p = probe_of probes rs conf now_ms in
    let p' = record p { ip = rs.ip; port = rs.port; mac = rs.mac; snap_healthy = rs.healthy } in
    let skipped = sync conf now_ms pool probes in
    let synced = sync conf now_ms pool (probe_put probes p') in
    if rs.proto == 6 then synced else skipped

abbrev pub is_seen : List RsView → ℕ → Bool
is_seen [] id = false
is_seen (rs ∷ pool) id = rs.proto == 6 && rs.id == id || is_seen pool id

-- Probes of servers that are gone, and the ports that they hold.
abbrev pub drop_gone : List RsView → List Probe → Ports → List Probe × Ports
drop_gone pool [] ports = ([], ports)
drop_gone pool (p ∷ ps) ports =
    let (kept, left) = drop_gone pool ps ports in
    let (kept', left') =
      drop_gone pool ps (if p.in_flight then port_erase ports p.src_port else ports) in
    if is_seen pool p.rs_id then (p ∷ kept, left) else (kept', left')

unfoldable pub tick : (ℕ → Bool) → HealthChecker → List RsView → ℕ → HealthChecker × List Effect
unfolding tick_probes
tick ring c pool now_ms =
    let (probes, ports) = drop_gone pool (sync c.conf now_ms pool c.probes) c.by_port in
    let (c', probes', effects) = tick_probes ring (record c { by_port = ports }) probes now_ms in
    if c.conf.enabled then (record c' { probes = probes' }, effects) else (c, [])

-- The fields of a `MasterEvent` that the checker reads.
pub record Response : Type 0 where
  pub tcp_flags : ℕ
  pub port : ℕ
  pub ip : ℕ
  pub ack : ℕ
  pub aux : ℕ

abbrev pub probe_by_id : List Probe → ℕ → Option Probe
probe_by_id [] id = none
probe_by_id (p ∷ ps) id = if p.rs_id == id then some p else probe_by_id ps id

-- The answer to a probe.
unfoldable pub respond : HealthChecker → Probe → Response → HealthChecker × List Effect
unfolding result
respond c p ev =
    let both = tcp_flag_syn + tcp_flag_ack in
    let synack = bit_and ev.tcp_flags both == both in
    let landed = record p { in_flight = false } in
    let freed = record c { by_port = port_erase c.by_port ev.port } in
    if not p.in_flight || (not (ev.ip == p.ip) || not (ev.aux == p.port))
    then (c, [])
    else (if synack && not (ev.ack == (p.isn + 1) % 2 ^ 32)
        then (c, [])
        else (if synack
            then (
              record freed { probes = probe_put c.probes (result c.conf landed true) },
              tcp_out landed tcp_flag_rst ev.ack 0 ∷ [],
            )
            else (if has ev.tcp_flags tcp_flag_rst
                then (record freed { probes = probe_put c.probes (result c.conf landed false) }, [])
                else (record freed { probes = probe_put c.probes landed }, []))))

unfoldable pub on_response : HealthChecker → Response → HealthChecker × List Effect
unfolding respond
on_response c ev = elim (port_owner c.by_port ev.port) [
  | none ↦ (c, [])
  | some id ↦ elim (probe_by_id c.probes id) [ none ↦ (c, []) | some p ↦ respond c p ev ]
]
