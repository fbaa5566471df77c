-- ===== src/Receiver/Agree.antt =====
-- src/dataplane/receiver.cpp against src/core/processor.cpp: the worker that the receiver chooses owns the
-- packet.
use l4_loadbalancer.Base.{
  ℕ, ◌+◌, ◌^◌, ◌≤◌, ◌<◌, ◌≡◌, ◌≢◌, refl, sym, ◌∙◌, ap, Bool, true, false, ◌||◌, ◌&&◌, ◌==◌, ltb,
  leb, if◌then◌else◌, Option, none, some, List, [], ◌∷◌, length, arith, Bool-cases, inl, inr,
  ==_iff, ==-false,
}
use l4_loadbalancer.Checksum.{htons}
use l4_loadbalancer.Config.{nat_port_min, nat_port_max}
use l4_loadbalancer.Header.{Memory, le32, ethernet_size, ipv4_size, is_ipv4, get_protocol}
use l4_loadbalancer.Parser.{ParseResult, PacketMeta, to_five_tuple}
use l4_loadbalancer.Processor.Create.{is_nat}
use l4_loadbalancer.Processor.Dispatch.{
  classify_l4, classify_ip, process_parsed, process_packet, inbound_or, is_arp_frame,
}
use l4_loadbalancer.Processor.Inbound.{handle_inbound, is_syn, check_rss}
use l4_loadbalancer.Processor.Resolve.{St, not_owned, in_nat_range, in_hc_range, cksum_bad}
use l4_loadbalancer.Processor.Return.{handle_return}
use l4_loadbalancer.Processor.Stays.{
  Stays, is_redirect, both, inbound_lookup-Stays, return_lookup-Stays, handle_arp-Stays,
  handle_hc_response-Stays,
}
use l4_loadbalancer.Processor.{Platform, Dataplane, Stat, Result, set_ctx, add_stat}
use l4_loadbalancer.Receiver.Ports.{Ports, parse-Ports}
use l4_loadbalancer.Receiver.{
  Dispatcher, insert, sort, init, any_equal, has_lip, ip_at, has_ports, frame_tuple, is_return,
  target,
}
use l4_loadbalancer.Session.Table.{lookup}
use l4_loadbalancer.Snapshot.Local.{index-sets}
use l4_loadbalancer.Snapshot.Sets.{mem}
use l4_loadbalancer.Snapshot.{Snapshot, Service, index, is_lip, vips_of, addr_slots}
use l4_loadbalancer.Steering.{fwd_owner, ret_owner}
use l4_loadbalancer.Types.{FiveTuple, mac_eq}

any_equal-insert :
    (ip x : ℕ) (ys : List ℕ) → any_equal (insert x ys) ip ≡ (x == ip || any_equal ys ip)
any_equal-insert ip x [] = refl
any_equal-insert ip x (y ∷ ys) = elim (Bool-cases (leb x y)) [
  | inl e ↦ rw e refl
  | inr e ↦ rw (e, any_equal-insert ip x ys) (swap (y == ip) (x == ip) (any_equal ys ip))
]
  where
    swap : (a b c : Bool) → (a || (b || c)) ≡ (b || (a || c))
    swap true true c = refl
    swap true false c = refl
    swap false b c = refl

-- Sorting does not change which addresses there are.
any_equal-sort : (ip : ℕ) (xs : List ℕ) → any_equal (sort xs) ip ≡ mem ip xs
any_equal-sort ip [] = refl
any_equal-sort ip (x ∷ xs) =
    any_equal-insert ip x (sort xs) ∙ ap (λ b. x == ip || b) (any_equal-sort ip xs)

module _ (p : Platform) (dp : Dataplane p.neigh_hash.Handle) (jhash_2words : ℕ → ℕ → ℕ → ℕ) where
  -- Where the ports can be read, the choice is the owner of the tuple.
  target-owner :
      (d : Dispatcher) (bytes : Memory) (len : ℕ)
      → is_ipv4 bytes ≡ true
      → has_ports bytes len ≡ true
      → ethernet_size + ipv4_size ≤ len
      → target p.hashes jhash_2words dp.steering d bytes len ≡ (
          if is_return d (frame_tuple bytes)
          then ret_owner p.hashes dp.steering (frame_tuple bytes)
          else fwd_owner p.hashes dp.steering (frame_tuple bytes))
  unfolding target ret_owner fwd_owner
  target-owner d bytes len v4 ports room =
      let enough : ltb len (ethernet_size + ipv4_size) ≡ false = ltb-ge room in
      elim (Bool-cases (dp.steering.workers == 1)) [
        | inl e ↦ elim (Bool-cases (is_return d (frame_tuple bytes))) [
          | inl b ↦ rw (e, b) refl
          | inr b ↦ rw (e, b) refl
        ]
        | inr e ↦ rw (e, enough, v4, ports) refl
      ]
    where
      ltb-ge : ethernet_size + ipv4_size ≤ len → ltb len (ethernet_size + ipv4_size) ≡ false
      ltb-ge h = ground arith

  owned-Stays :
      (owner : ℕ) (st : St p dp) (r : Result × St p dp)
      → owner ≡ st.ctx.idx
      → Stays r
      → Stays (if owner == st.ctx.idx then r else not_owned p dp false owner st)
  owned-Stays owner st r e h = rw ((==_iff owner st.ctx.idx).1 e) h

  handle_return-Stays :
      (st : St p dp) (meta : PacketMeta)
      → ret_owner p.hashes dp.steering (to_five_tuple meta) ≡ st.ctx.idx
      → Stays (handle_return p dp st meta false)
  unfolding handle_return
  handle_return-Stays st meta e = owned-Stays _ st _ e (
      return_lookup-Stays p dp st meta (to_five_tuple meta)
        (lookup p.session_hash st.ctx.sessions (to_five_tuple meta)))

  inbound_or-Stays :
      (st : St p dp) (meta : PacketMeta) (svc : Option Service)
      → fwd_owner p.hashes dp.steering (to_five_tuple meta) ≡ st.ctx.idx
      → Stays (inbound_or p dp st meta false svc)
  unfolding handle_inbound
  inbound_or-Stays st meta none e = refl
  inbound_or-Stays st meta (some svc) e =
      let checked = check_rss p dp st.ctx st.mbuf (to_five_tuple meta) (is_syn meta && true) in
      owned-Stays _ st _ e (
        inbound_lookup-Stays p dp (set_ctx st checked) svc meta
          (lookup p.session_hash checked.sessions (to_five_tuple meta)))

  -- The two tests for a packet of a real server.
  returns-agree :
      (conf : Snapshot) (t : FiveTuple)
      → length (vips_of conf.services) + length conf.local_ips + 1 < addr_slots
      → t.dst_ip ≢ 0
      → is_return (init conf.mode conf.local_ips) t ≡ (
          is_nat (index p.crc conf).mode
          && (is_lip p.crc (index p.crc conf) t.dst_ip && in_nat_range t.dst_port))
  unfolding is_return init has_lip in_nat_range index
  returns-agree conf t room valid =
      let lips =
        any_equal-sort t.dst_ip conf.local_ips
        ∙ sym (index-sets p.crc conf t.dst_ip room valid).1 in
      let port = htons t.dst_port in
      rw lips (
        turn (is_nat conf.mode) (leb nat_port_min port) (leb port nat_port_max)
          (is_lip p.crc (index p.crc conf) t.dst_ip))
    where
      turn : (n a b l : Bool) → (n && (a && (b && l))) ≡ (n && (l && (a && b)))
      turn false a b l = refl
      turn true false b true = refl
      turn true false b false = refl
      turn true true false true = refl
      turn true true false false = refl
      turn true true true true = refl
      turn true true true false = refl

  -- A worker that owns the packet by the test of the receiver.
  classify_l4-Stays :
      (st : St p dp) (meta : PacketMeta) (returns : Bool)
      → (is_nat st.snap.mode && (is_lip p.crc st.snap meta.dst_ip && in_nat_range meta.dst_port))
        ≡ returns
      → (if returns
          then ret_owner p.hashes dp.steering (to_five_tuple meta)
          else fwd_owner p.hashes dp.steering (to_five_tuple meta))
        ≡ st.ctx.idx
      → Stays (classify_l4 p dp st meta false)
  unfolding classify_l4
  classify_l4-Stays st meta true c e = rw c (handle_return-Stays st meta e)
  classify_l4-Stays st meta false c e = rw c (
      both (meta.dst_ip == st.snap.hc_src && in_hc_range meta.dst_port) _ _
        (handle_hc_response-Stays p dp st meta) (inbound_or-Stays st meta _ e))

  classify_ip-Stays :
      (st : St p dp) (meta : PacketMeta)
      → meta.ip_protocol ≢ 1
      → ((id : Stat)
          → (meta.ip_protocol == 6 || meta.ip_protocol == 17) ≡ true
          → Stays (classify_l4 p dp (set_ctx st (add_stat st.ctx id)) meta false))
      → Stays (classify_ip p dp st meta false)
  unfolding classify_ip
  classify_ip-Stays st meta other l4 =
      rw (==-false meta.ip_protocol 1 other)
        (elim (Bool-cases (meta.ip_protocol == 6 || meta.ip_protocol == 17)) [
          | inl e ↦ rw e (l4 _ e)
          | inr e ↦ rw e refl
        ])

  process_parsed-Stays :
      (conf : Snapshot) (st : St p dp) (r : ParseResult × PacketMeta)
      → st.snap ≡ index p.crc conf
      → length (vips_of conf.services) + length conf.local_ips + 1 < addr_slots
      → is_ipv4 st.mbuf.mem ≡ true
      → get_protocol st.mbuf.mem ip_at ≢ 1
      → le32 st.mbuf.mem (ip_at + 16) ≢ 0
      → target p.hashes jhash_2words dp.steering
          (init conf.mode conf.local_ips)
          st.mbuf.mem
          st.mbuf.data_len
        ≡ st.ctx.idx
      → Ports st.mbuf.mem st.mbuf.data_len r
      → Stays (process_parsed p dp st false r)
  unfolding add_stat to_five_tuple frame_tuple
  process_parsed-Stays conf st (ParseResult.malformed, meta) snap room v4 other dst owner ports =
      refl
  process_parsed-Stays conf st (ParseResult.fragment, meta) snap room v4 other dst owner ports =
      refl
  process_parsed-Stays conf st (ParseResult.ok, meta) snap room v4 other dst owner (proto, ports) =
      both (cksum_bad p dp st.mbuf) _ _ refl (
        both (mac_eq meta.src_mac dp.local_mac) _ _ refl (
          classify_ip-Stays st meta (λ e. other (sym proto ∙ e))
            (λ id l4.
              let (can_read, tuple, enough) = ports l4 in
              let d = init conf.mode conf.local_ips in
              let chosen = target-owner d st.mbuf.mem st.mbuf.data_len v4 can_read enough in
              let agree = returns-agree conf (frame_tuple st.mbuf.mem) room dst in
              let same : (is_nat st.snap.mode
                    && (is_lip p.crc st.snap meta.dst_ip && in_nat_range meta.dst_port))
                  ≡ is_return d (frame_tuple st.mbuf.mem) =
                rw (snap, ap (λ t. t.dst_ip) tuple, ap (λ t. t.dst_port) tuple) (sym agree) in
              classify_l4-Stays (set_ctx st (add_stat st.ctx id)) meta
                (is_return d (frame_tuple st.mbuf.mem)) same (rw tuple (sym chosen ∙ owner)))))

  -- The configuration of the receiver is that of the worker's snapshot, whose addresses fit the tables.
  -- The frame has fewer than 65536 bytes, and if it is one of IPv4, then neither ICMP nor with the
  -- destination 0. The worker that the receiver chooses for it does not hand it on.
  pub target-stays :
      (conf : Snapshot) (blank_meta : PacketMeta) (st : St p dp)
      → st.snap ≡ index p.crc conf
      → length (vips_of conf.services) + length conf.local_ips + 1 < addr_slots
      → st.mbuf.data_len < 2 ^ 16
      → (is_ipv4 st.mbuf.mem ≡ true → get_protocol st.mbuf.mem ip_at ≢ 1)
      → (is_ipv4 st.mbuf.mem ≡ true → le32 st.mbuf.mem (ip_at + 16) ≢ 0)
      → target p.hashes jhash_2words dp.steering
          (init conf.mode conf.local_ips)
          st.mbuf.mem
          st.mbuf.data_len
        ≡ st.ctx.idx
      → is_redirect (process_packet p dp blank_meta st false).0 ≡ false
  unfolding process_packet
  target-stays conf blank_meta st snap room small other dst owner =
      both (ltb st.mbuf.data_len ethernet_size) _ _ refl (
        both (is_arp_frame st.mbuf.mem) _ _ (handle_arp-Stays p dp st) (
          Stays-if (is_ipv4 st.mbuf.mem) _ _
            (λ v4.
              process_parsed-Stays conf st _ snap room v4 (other v4) (dst v4) owner
                (parse-Ports st.mbuf.mem st.mbuf.data_len blank_meta small v4))
            refl))
    where
      Stays-if :
          (b : Bool) (x y : Result × St p dp)
          → (b ≡ true → Stays x)
          → Stays y
          → Stays (if b then x else y)
      Stays-if true x y h k = h refl
      Stays-if false x y h k = k
