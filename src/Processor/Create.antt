-- ===== src/Processor/Create.antt =====
-- `new_session` of src/core/processor.cpp.
use l4_loadbalancer.Base.{
  ℕ, Bool, true, false, ◌&&◌, ◌==◌, if◌then◌else◌, bit_or, List, [], ◌∷◌, Option, none, some,
  get_or,
}
use l4_loadbalancer.Config.{ForwardMode}
use l4_loadbalancer.Neigh.{on_link}
use l4_loadbalancer.Processor.Resolve.{Ctx, session_of, put_session}
use l4_loadbalancer.Processor.{
  Platform, Dataplane, Stat, MasterEventType, MasterEvent, stat_add, add_stat, post_master_event,
  set_rs_stats, set_worker,
}
use l4_loadbalancer.Scheduler.{Scheduler, pick}
use l4_loadbalancer.Session.Table.{create}
use l4_loadbalancer.Session.{Session, sf_toa_pending}
use l4_loadbalancer.Snapshot.{RsState, Service, Snapshot}
use l4_loadbalancer.Snat.{Worker, Target, Outcome, made, create_fullnat}
use l4_loadbalancer.TcpState.{TcpState}
use l4_loadbalancer.Types.{FiveTuple, MacAddr, zero_mac}

-- What a pointer that the program does not check is read as where there is no real server.
abbrev pub no_rs : RsState
no_rs = record {
  id = 0;
  svc_idx = 0;
  ip = 0;
  port_be = 0;
  port = 0;
  mac = zero_mac;
  weight = 0;
  enabled = false;
  healthy = false;
}

abbrev pub or_no_rs : Option RsState → RsState
or_no_rs none = no_rs
or_no_rs (some rs) = rs

abbrev pub is_nat : ForwardMode → Bool
is_nat ForwardMode.nat = true
is_nat ForwardMode.dr = false

-- The session, or the reason why there is none.
pub data Opened : Type 0 where
  opened : ℕ → Opened
  refused : Stat → Opened

abbrev pub set_sched : List Service → ℕ → Scheduler → List Service
set_sched [] i sched = []
set_sched (s ∷ ss) i sched =
    if s.idx == i then record s { sched = sched } ∷ ss else s ∷ set_sched ss i sched

-- The fields that `new_session` gives a session.
abbrev pub opened_session : Session → RsState → ℕ → Bool → MacAddr → Bool → Session
opened_session s rs svc_idx tcp src_mac toa = record s {
  rs_id = rs.id;
  svc_idx = svc_idx;
  state = if tcp then TcpState.none else TcpState.udp;
  cli_src_mac = src_mac;
  flags = if toa then bit_or s.flags sf_toa_pending else s.flags;
}

abbrev pub target_of : RsState → Target
target_of rs = record { ip = rs.ip; port_be = rs.port_be }

abbrev pub hint_event : ℕ → MacAddr → MasterEvent
hint_event ip mac = record {
  type = MasterEventType.neigh_hint;
  tcp_flags = 0;
  port = 0;
  ip = ip;
  seq = 0;
  ack = 0;
  mac = mac;
  aux = 0;
}

module _ (p : Platform) (dp : Dataplane p.neigh_hash.Handle) where
  -- A session without a server tuple, for direct routing.
  unfoldable pub create_dr :
      Worker p.session_hash.Handle → FiveTuple → ℕ → Outcome × Worker p.session_hash.Handle
  unfolding create
  create_dr w client timeout =
      let (session, sessions) = create p.session_hash w.sessions client none w.now_tick timeout in
      elim session [
        | none ↦ (Outcome.drop_table_full, record w { sessions = sessions })
        | some i ↦ (made i, record w { sessions = sessions })
      ]

  unfoldable pub finish_session :
      Ctx p dp → ForwardMode → ℕ → FiveTuple → RsState → MacAddr → Outcome → Opened × Ctx p dp
  unfolding add_stat post_master_event on_link
  finish_session w mode svc_idx tuple rs src_mac Outcome.drop_no_port =
      (refused Stat.drop_no_port, w)
  finish_session w mode svc_idx tuple rs src_mac Outcome.drop_table_full =
      (refused Stat.drop_table_full, w)
  finish_session w mode svc_idx tuple rs src_mac (made i) =
      let tcp = tuple.protocol == 6 in
      let s =
        opened_session (session_of p dp w i) rs svc_idx tcp src_mac
          (is_nat mode && (tcp && dp.toa)) in
      let w1 = add_stat (put_session p dp w i s) Stat.sess_new in
      let c = w1.rs_stats rs.id in
      let w2 = set_rs_stats w1 rs.id (record c { conns = stat_add c.conns 1 }) in
      let hinted = post_master_event w2 (hint_event tuple.src_ip src_mac) in
      (opened i, if is_nat mode && on_link dp.route tuple.src_ip then hinted else w2)

  -- The worker, and the snapshot with the worker's cursor of the service moved on.
  unfoldable pub new_session :
      Ctx p dp → Snapshot → Service → FiveTuple → MacAddr → Opened × Ctx p dp × Snapshot
  unfolding pick create_fullnat create_dr finish_session
  new_session w snap svc tuple src_mac =
      let (choice, sched) = pick p.jhash svc.sched tuple w.idx in
      let snap' = record snap { services = set_sched snap.services svc.idx sched } in
      let timeout = if tuple.protocol == 6 then dp.timeouts.tcp_syn else dp.timeouts.udp in
      elim choice [
        | none ↦ (refused Stat.drop_no_rs, w, snap')
        | some k ↦
            let rs = get_or svc.rs k no_rs in
            let (outcome, worker) =
              if is_nat snap.mode
              then create_fullnat p.hashes p.session_hash dp.steering w.worker snap.local_ips tuple
                  (target_of rs) timeout
              else create_dr w.worker tuple timeout in
            let (result, w') =
              finish_session (set_worker w worker) snap.mode svc.idx tuple rs src_mac outcome in
            (result, w', snap')
      ]
