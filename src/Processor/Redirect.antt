-- ===== src/Processor/Redirect.antt =====
-- A packet that is handed to another worker: `not_owned` is the only place where `process_packet` says so.
use l4_loadbalancer.Base.{
  ℕ, ◌-◌, ◌≡◌, ◌≢◌, refl, Bool, true, false, not, ◌&&◌, ◌||◌, ◌==◌, ltb, ap, ◌∙◌, if◌then◌else◌,
  Bool-cases, inl, inr, Option, none, some, ==_iff,
}
use l4_loadbalancer.Header.{ethernet_size, is_ipv4, icmp_is_error}
use l4_loadbalancer.Mbuf.{bytes_at}
use l4_loadbalancer.Parser.{
  ParseResult, PacketMeta, IcmpErrorInfo, parse, parse_icmp_error, to_five_tuple,
}
use l4_loadbalancer.Processor.Arp.{handle_arp, handle_hc_response}
use l4_loadbalancer.Processor.Create.{is_nat}
use l4_loadbalancer.Processor.Dispatch.{
  classify_l4, classify_ip, process_parsed, process_packet, unclaimed, inbound_or, service_at,
  is_arp_frame,
}
use l4_loadbalancer.Processor.Icmp.{
  handle_icmp, handle_icmp_error, icmp_error_parsed, error_of_rs_side, error_of_client_side,
  echo_reply, is_rs_side, is_client_side,
}
use l4_loadbalancer.Processor.Inbound.{handle_inbound, inbound_lookup, is_syn, check_rss}
use l4_loadbalancer.Processor.Resolve.{
  Ctx, St, not_owned, add_if, in_nat_range, in_hc_range, cksum_bad,
}
use l4_loadbalancer.Processor.Return.{handle_return, return_lookup}
use l4_loadbalancer.Processor.{
  Platform, Dataplane, Stat, Result, drop, redirect, consumed, set_ctx, add_stat,
}
use l4_loadbalancer.Reply.{handle_echo_request}
use l4_loadbalancer.Session.Table.{lookup}
use l4_loadbalancer.Snapshot.{find_service, Service, is_lip, is_local}
use l4_loadbalancer.Steering.{fwd_owner, ret_owner}
use l4_loadbalancer.Types.{mac_eq, reverse_tuple}
use l4_loadbalancer.Processor.Stays.{
  is_redirect, Stays, inbound_lookup-Stays, return_lookup-Stays, error_of_rs_side-Stays,
  error_of_client_side-Stays, echo_reply-Stays, handle_arp-Stays, handle_hc_response-Stays,
}

module _ (p : Platform) (dp : Dataplane p.neigh_hash.Handle) where
  abbrev dropped : St p dp → Stat → Result × St p dp
  dropped st reason = (drop reason, st)

  abbrev ignored : St p dp → Result × St p dp
  ignored st = (consumed, st)

  -- What is as it was when a packet goes to the worker `to`: all but the counters of the worker.
  pub record Handed (redirected : Bool) (st : St p dp) (to : ℕ) (st' : St p dp) : Type 0 where
    pub first_time : redirected ≡ false
    pub elsewhere : to ≢ st.ctx.idx
    pub same_packet : st'.mbuf ≡ st.mbuf
    pub same_snapshot : st'.snap ≡ st.snap
    pub same_worker : st'.ctx.worker ≡ st.ctx.worker
    pub same_events : st'.ctx.events ≡ st.ctx.events
    pub same_rs_stats : st'.ctx.rs_stats ≡ st.ctx.rs_stats

  abbrev Hands : Bool → St p dp → Result × St p dp → Type 0
  Hands redirected st r = (to : ℕ) → r.0 ≡ redirect to → Handed redirected st to r.1

  Hands-Stays :
      (redirected : Bool) (st : St p dp) (r : Result × St p dp) → Stays r → Hands redirected st r
  Hands-Stays redirected st r h to e = absurd (cc (ap is_redirect e, h))

  not_owned-Hands :
      (redirected : Bool) (owner : ℕ) (st : St p dp)
      → owner ≢ st.ctx.idx
      → Hands redirected st (not_owned p dp redirected owner st)
  not_owned-Hands true owner st other to e = cc e
  not_owned-Hands false owner st other to e = record {
    first_time = refl;
    elsewhere = λ q. other (owner_of (ap redirect_of e) ∙ q);
    same_packet = refl;
    same_snapshot = refl;
    same_worker = refl;
    same_events = refl;
    same_rs_stats = refl;
  }
    where
      redirect_of : Result → ℕ
      redirect_of (redirect to) = to
      redirect_of _ = owner

      owner_of : owner ≡ to → owner ≡ to
      owner_of q = q

  -- A test of the owner.
  owned_or :
      (redirected : Bool) (owner : ℕ) (st : St p dp) (r : Result × St p dp)
      → Stays r
      → Hands redirected st (if owner == st.ctx.idx then r else not_owned p dp redirected owner st)
  owned_or redirected owner st r h = elim (Bool-cases (owner == st.ctx.idx)) [
    | inl e ↦ rw e (Hands-Stays redirected st r h)
    | inr e ↦
        rw e (not_owned-Hands redirected owner st (λ q. cc (e, (==_iff owner st.ctx.idx).1 q)))
  ]

  abbrev checked : St p dp → PacketMeta → Bool → Ctx p dp
  checked st meta redirected =
      check_rss p dp st.ctx st.mbuf (to_five_tuple meta) (is_syn meta && not redirected)

  handle_inbound-Hands :
      (st : St p dp) (svc : Service) (meta : PacketMeta) (redirected : Bool)
      → Hands redirected st (handle_inbound p dp st svc meta redirected)
  unfolding handle_inbound
  handle_inbound-Hands st svc meta redirected =
      owned_or redirected (fwd_owner p.hashes dp.steering (to_five_tuple meta)) st
        (inbound_lookup p dp (set_ctx st (checked st meta redirected)) svc meta
          (lookup p.session_hash (checked st meta redirected).sessions (to_five_tuple meta)))
        (inbound_lookup-Stays p dp (set_ctx st (checked st meta redirected)) svc meta
          (lookup p.session_hash (checked st meta redirected).sessions (to_five_tuple meta)))

  handle_return-Hands :
      (st : St p dp) (meta : PacketMeta) (redirected : Bool)
      → Hands redirected st (handle_return p dp st meta redirected)
  unfolding handle_return
  handle_return-Hands st meta redirected =
      owned_or redirected (ret_owner p.hashes dp.steering (to_five_tuple meta)) st
        (return_lookup p dp st meta (to_five_tuple meta)
          (lookup p.session_hash st.ctx.sessions (to_five_tuple meta)))
        (return_lookup-Stays p dp st meta (to_five_tuple meta)
          (lookup p.session_hash st.ctx.sessions (to_five_tuple meta)))

  both-Hands :
      (redirected : Bool) (st : St p dp) (b : Bool) (x y : Result × St p dp)
      → Hands redirected st x
      → Hands redirected st y
      → Hands redirected st (if b then x else y)
  both-Hands redirected st true x y h k = h
  both-Hands redirected st false x y h k = k

  icmp_error_parsed-Hands :
      (st : St p dp) (meta : PacketMeta) (redirected : Bool) (info : Option IcmpErrorInfo)
      → Hands redirected st (icmp_error_parsed p dp st meta redirected info)
  icmp_error_parsed-Hands st meta redirected none =
      Hands-Stays redirected st (dropped st Stat.drop_malformed) refl
  icmp_error_parsed-Hands st meta redirected (some info) =
      let key = reverse_tuple info.inner in
      let found = lookup p.session_hash st.ctx.sessions key in
      let ret = ret_owner p.hashes dp.steering key in
      let fwd = fwd_owner p.hashes dp.steering key in
      let nobody = dropped st Stat.drop_no_session in
      let at_client = error_of_client_side p dp st meta info key found in
      let at_rs = error_of_rs_side p dp st meta info key found in
      both-Hands redirected st (is_rs_side p dp st.snap meta info.inner)
        (if ret == st.ctx.idx then at_rs else not_owned p dp redirected ret st)
        (if is_client_side p dp st.snap meta info.inner
          then (if fwd == st.ctx.idx then at_client else not_owned p dp redirected fwd st)
          else nobody)
        (owned_or redirected ret st at_rs (error_of_rs_side-Stays p dp st meta info key found))
        (both-Hands redirected st (is_client_side p dp st.snap meta info.inner)
          (if fwd == st.ctx.idx then at_client else not_owned p dp redirected fwd st) nobody
          (owned_or redirected fwd st at_client
            (error_of_client_side-Stays p dp st meta info key found))
          (Hands-Stays redirected st nobody refl))

  handle_icmp-Hands :
      (st : St p dp) (meta : PacketMeta) (redirected : Bool)
      → Hands redirected st (handle_icmp p dp st meta redirected)
  unfolding handle_icmp handle_icmp_error
  handle_icmp-Hands st meta redirected =
      let message =
        handle_echo_request
          (bytes_at st.mbuf.mem (meta.total_len - meta.l4_offset) meta.l4_offset) in
      let error = handle_icmp_error p dp st meta redirected in
      both-Hands redirected st (icmp_is_error (st.mbuf.mem meta.l4_offset)) error
        (echo_reply p dp st meta message)
        (icmp_error_parsed-Hands st meta redirected (parse_icmp_error st.mbuf.mem meta))
        (Hands-Stays redirected st (echo_reply p dp st meta message)
          (echo_reply-Stays p dp st meta message))

  inbound_or-Hands :
      (st : St p dp) (meta : PacketMeta) (redirected : Bool) (svc : Option Service)
      → Hands redirected st (inbound_or p dp st meta redirected svc)
  inbound_or-Hands st meta redirected none =
      Hands-Stays redirected st (unclaimed p dp st meta.dst_ip) refl
  inbound_or-Hands st meta redirected (some svc) = handle_inbound-Hands st svc meta redirected

  classify_l4-Hands :
      (st : St p dp) (meta : PacketMeta) (redirected : Bool)
      → Hands redirected st (classify_l4 p dp st meta redirected)
  unfolding classify_l4
  classify_l4-Hands st meta redirected =
      let dst = meta.dst_ip in
      let probe = dst == st.snap.hc_src && in_hc_range meta.dst_port in
      let svc =
        service_at p dp st (find_service p.crc st.snap dst meta.dst_port meta.ip_protocol) in
      let rest =
        if probe then handle_hc_response p dp st meta else inbound_or p dp st meta redirected svc in
      both-Hands redirected st
        (is_nat st.snap.mode && (is_lip p.crc st.snap dst && in_nat_range meta.dst_port))
        (handle_return p dp st meta redirected) rest (handle_return-Hands st meta redirected)
        (both-Hands redirected st probe (handle_hc_response p dp st meta)
          (inbound_or p dp st meta redirected svc)
          (Hands-Stays redirected st (handle_hc_response p dp st meta)
            (handle_hc_response-Stays p dp st meta))
          (inbound_or-Hands st meta redirected svc))

  -- A packet counter is no part of what `Handed` compares.
  counted :
      (redirected b : Bool) (st : St p dp) (id : Stat) (r : Result × St p dp)
      → Hands redirected (set_ctx st (add_if p dp b st.ctx id)) r
      → Hands redirected st r
  unfolding add_stat
  counted redirected true st id r h to e =
      let v = h to e in
      record {
        first_time = v.first_time;
        elsewhere = v.elsewhere;
        same_packet = v.same_packet;
        same_snapshot = v.same_snapshot;
        same_worker = v.same_worker;
        same_events = v.same_events;
        same_rs_stats = v.same_rs_stats;
      }
  counted redirected false st id r h to e =
      let v = h to e in
      record {
        first_time = v.first_time;
        elsewhere = v.elsewhere;
        same_packet = v.same_packet;
        same_snapshot = v.same_snapshot;
        same_worker = v.same_worker;
        same_events = v.same_events;
        same_rs_stats = v.same_rs_stats;
      }

  classify_ip-Hands :
      (st : St p dp) (meta : PacketMeta) (redirected : Bool)
      → Hands redirected st (classify_ip p dp st meta redirected)
  unfolding classify_ip
  classify_ip-Hands st meta redirected =
      let proto = meta.ip_protocol in
      let id = if proto == 6 then Stat.tcp else Stat.udp in
      let st_icmp = set_ctx st (add_if p dp (not redirected) st.ctx Stat.icmp) in
      let st_l4 = set_ctx st (add_if p dp (not redirected) st.ctx id) in
      let icmp_result = handle_icmp p dp st_icmp meta redirected in
      let l4_result = classify_l4 p dp st_l4 meta redirected in
      let foreign = dropped st Stat.drop_not_local in
      both-Hands redirected st (proto == 1)
        (if is_local p.crc st.snap meta.dst_ip then icmp_result else foreign)
        (if proto == 6 || proto == 17 then l4_result else unclaimed p dp st meta.dst_ip)
        (both-Hands redirected st (is_local p.crc st.snap meta.dst_ip) icmp_result foreign
          (counted redirected (not redirected) st Stat.icmp icmp_result
            (handle_icmp-Hands st_icmp meta redirected))
          (Hands-Stays redirected st foreign refl))
        (both-Hands redirected st (proto == 6 || proto == 17) l4_result
          (unclaimed p dp st meta.dst_ip)
          (counted redirected (not redirected) st id l4_result
            (classify_l4-Hands st_l4 meta redirected))
          (Hands-Stays redirected st (unclaimed p dp st meta.dst_ip) refl))

  process_parsed-Hands :
      (st : St p dp) (redirected : Bool) (r : ParseResult × PacketMeta)
      → Hands redirected st (process_parsed p dp st redirected r)
  process_parsed-Hands st redirected (ParseResult.fragment, meta) =
      Hands-Stays redirected st (dropped st Stat.drop_fragment) refl
  process_parsed-Hands st redirected (ParseResult.malformed, meta) =
      Hands-Stays redirected st (dropped st Stat.drop_malformed) refl
  process_parsed-Hands st redirected (ParseResult.ok, meta) =
      let bad = dropped st Stat.drop_cksum in
      let own = ignored st in
      let rest = classify_ip p dp st meta redirected in
      both-Hands redirected st (cksum_bad p dp st.mbuf) bad
        (if mac_eq meta.src_mac dp.local_mac then own else rest)
        (Hands-Stays redirected st bad refl)
        (both-Hands redirected st (mac_eq meta.src_mac dp.local_mac) own rest
          (Hands-Stays redirected st own refl) (classify_ip-Hands st meta redirected))

  -- Whatever the frame, the sessions and the configuration: if a worker hands a packet on, the packet was
  -- not handed to it by another worker, the new owner is not the worker itself, and the packet, the
  -- snapshot, the sessions, cursors and clock of the worker, its events and its counters of real servers
  -- are as they were.
  pub process_packet-Handed :
      (blank_meta : PacketMeta) (st : St p dp) (redirected : Bool) (to : ℕ)
      → (process_packet p dp blank_meta st redirected).0 ≡ redirect to
      → Handed redirected st to (process_packet p dp blank_meta st redirected).1
  unfolding process_packet
  process_packet-Handed blank_meta st redirected to e =
      let short = dropped st Stat.drop_malformed in
      let other = dropped st Stat.drop_other in
      let parsed =
        process_parsed p dp st redirected (parse st.mbuf.mem st.mbuf.data_len blank_meta) in
      let ip_or = if is_ipv4 st.mbuf.mem then parsed else other in
      both-Hands redirected st (ltb st.mbuf.data_len ethernet_size) short
        (if is_arp_frame st.mbuf.mem then handle_arp p dp st else ip_or)
        (Hands-Stays redirected st short refl)
        (both-Hands redirected st (is_arp_frame st.mbuf.mem) (handle_arp p dp st) ip_or
          (Hands-Stays redirected st (handle_arp p dp st) (handle_arp-Stays p dp st))
          (both-Hands redirected st (is_ipv4 st.mbuf.mem) parsed other
            (process_parsed-Hands st redirected (parse st.mbuf.mem st.mbuf.data_len blank_meta))
            (Hands-Stays redirected st other refl)))
        to e
