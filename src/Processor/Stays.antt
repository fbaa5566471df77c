-- ===== src/Processor/Stays.antt =====
-- The handlers of the packet processor, past the test of the owner, keep the packet.
use l4_loadbalancer.Base.{
  ℕ, ◌+◌, ◌≡◌, refl, Bool, true, false, not, ◌&&◌, ◌||◌, ◌==◌, ltb, if◌then◌else◌, List, Option,
  none, some,
}
use l4_loadbalancer.Header.{ethernet_size}
use l4_loadbalancer.Mbuf.{Mbuf}
use l4_loadbalancer.Parser.{PacketMeta, IcmpErrorInfo}
use l4_loadbalancer.Processor.Arp.{arp_at, arp_size, handle_arp, arp_for_us, handle_hc_response}
use l4_loadbalancer.Processor.Create.{Opened, opened, refused, is_nat}
use l4_loadbalancer.Processor.Icmp.{
  error_of_rs_side, error_of_client_side, send_to_client, send_to_rs, error_with_rs, finish_error,
  echo_reply,
}
use l4_loadbalancer.Processor.Inbound.{
  inbound_lookup, inbound_found, open_inbound, replace_inbound, forward_inbound, send_inbound,
  finish_inbound, is_syn, reusable_by, after_new,
}
use l4_loadbalancer.Processor.Resolve.{Ctx, St, session_of}
use l4_loadbalancer.Processor.Return.{
  return_lookup, return_found, forward_return, send_return, finish_return,
}
use l4_loadbalancer.Processor.{
  Platform, Dataplane, Stat, Result, drop, redirect, consumed, State, set_ctx, add_stat,
}
use l4_loadbalancer.Reply.{ArpHeader, is_request, is_eth_ipv4}
use l4_loadbalancer.Session.{sf_fullnat}
use l4_loadbalancer.Base.Bits.{has}
use l4_loadbalancer.Rewrite.Nat.{RewriteResult, RewriteOutcome}
use l4_loadbalancer.Snapshot.{usable, RsState, Service, Snapshot, is_local}
use l4_loadbalancer.Types.{tuple_eq, FiveTuple, MacAddr}

abbrev pub is_redirect : Result → Bool
is_redirect (redirect to) = true
is_redirect _ = false

-- The packet stays with this worker.
abbrev pub Stays : {Handle : Type 0} → Result × State Handle → Type 0
Stays r = is_redirect r.0 ≡ false

pub both :
    {Handle : Type 0} (b : Bool) (x y : Result × State Handle)
    → Stays x
    → Stays y
    → Stays (if b then x else y)
both true x y h k = h
both false x y h k = k

module _ (p : Platform) (dp : Dataplane p.neigh_hash.Handle) where
  pub finish_inbound-Stays :
      (st : St p dp) (i : ℕ) (is_new : Bool)
      (r : RewriteResult × Mbuf × PacketMeta × RewriteOutcome)
      → Stays (finish_inbound p dp st i is_new r)
  finish_inbound-Stays st i is_new (RewriteResult.ttl_exceeded, m, meta, out) = refl
  finish_inbound-Stays st i is_new (RewriteResult.ok, m, meta, out) = refl

  pub send_inbound-Stays :
      (st : St p dp) (meta : PacketMeta) (i : ℕ) (is_new : Bool) (r : Option MacAddr × Ctx p dp)
      → Stays (send_inbound p dp st meta i is_new r)
  unfolding send_inbound
  send_inbound-Stays st meta i is_new (none, w) = refl
  send_inbound-Stays st meta i is_new (some mac, w) =
      both (is_nat st.snap.mode) _ _ (finish_inbound-Stays (set_ctx st w) i is_new _) refl

  pub forward_inbound-Stays :
      (st : St p dp) (meta : PacketMeta) (i : ℕ) (rs : RsState) (is_new : Bool)
      → Stays (forward_inbound p dp st meta i rs is_new)
  unfolding forward_inbound
  forward_inbound-Stays st meta i rs is_new = send_inbound-Stays st meta i is_new _

  pub after_new-Stays :
      (st : St p dp) (meta : PacketMeta) (r : Opened × Ctx p dp × Snapshot)
      → Stays (after_new p dp st meta r)
  after_new-Stays st meta (refused fail, w, snap) = refl
  after_new-Stays st meta (opened i, w, snap) = forward_inbound-Stays _ meta i _ true

  pub open_inbound-Stays :
      (st : St p dp) (svc : Service) (meta : PacketMeta) → Stays (open_inbound p dp st svc meta)
  unfolding open_inbound
  open_inbound-Stays st svc meta =
      both (meta.ip_protocol == 6 && not (is_syn meta)) _ _ refl (after_new-Stays st meta _)

  pub replace_inbound-Stays :
      (st : St p dp) (svc : Service) (meta : PacketMeta) (i : ℕ) (down : Bool)
      → Stays (replace_inbound p dp st svc meta i down)
  unfolding replace_inbound
  replace_inbound-Stays st svc meta i down =
      both (not (is_syn meta) && meta.ip_protocol == 6) _ _ refl (open_inbound-Stays _ svc meta)

  pub inbound_found-Stays :
      (st : St p dp) (svc : Service) (meta : PacketMeta) (i : ℕ) (rs : Option RsState)
      → Stays (inbound_found p dp st svc meta i rs)
  unfolding inbound_found
  inbound_found-Stays st svc meta i none = replace_inbound-Stays st svc meta i false
  inbound_found-Stays st svc meta i (some rs) =
      both (not (usable rs) || reusable_by (is_syn meta) (session_of p dp st.ctx i).state) _ _
        (replace_inbound-Stays st svc meta i _) (forward_inbound-Stays st meta i rs false)

  pub inbound_lookup-Stays :
      (st : St p dp) (svc : Service) (meta : PacketMeta) (found : Option ℕ)
      → Stays (inbound_lookup p dp st svc meta found)
  inbound_lookup-Stays st svc meta none = open_inbound-Stays st svc meta
  inbound_lookup-Stays st svc meta (some i) = inbound_found-Stays st svc meta i _

  pub finish_return-Stays :
      (st : St p dp) (i : ℕ) (r : RewriteResult × Mbuf × PacketMeta × RewriteOutcome)
      → Stays (finish_return p dp st i r)
  finish_return-Stays st i (RewriteResult.ttl_exceeded, m, meta, out) = refl
  finish_return-Stays st i (RewriteResult.ok, m, meta, out) = refl

  pub send_return-Stays :
      (st : St p dp) (meta : PacketMeta) (i : ℕ) (r : Option MacAddr × Ctx p dp)
      → Stays (send_return p dp st meta i r)
  unfolding send_return
  send_return-Stays st meta i (none, w) = refl
  send_return-Stays st meta i (some mac, w) = finish_return-Stays (set_ctx st w) i _

  pub return_found-Stays :
      (st : St p dp) (meta : PacketMeta) (i : ℕ) (rs : Option RsState)
      → Stays (return_found p dp st meta i rs)
  unfolding return_found forward_return
  return_found-Stays st meta i none = refl
  return_found-Stays st meta i (some rs) = both (usable rs) _ _ (send_return-Stays st meta i _) refl

  pub return_lookup-Stays :
      (st : St p dp) (meta : PacketMeta) (tuple : FiveTuple) (found : Option ℕ)
      → Stays (return_lookup p dp st meta tuple found)
  return_lookup-Stays st meta tuple none = refl
  return_lookup-Stays st meta tuple (some i) =
      let s = session_of p dp st.ctx i in
      both (not (has s.flags sf_fullnat) || not (tuple_eq s.server tuple)) _ _ refl
        (return_found-Stays st meta i _)

  pub finish_error-Stays :
      (st : St p dp) (r : RewriteResult × Mbuf) → Stays (finish_error p dp st r)
  finish_error-Stays st (RewriteResult.ttl_exceeded, m) = refl
  finish_error-Stays st (RewriteResult.ok, m) = refl

  pub send_to_client-Stays :
      (st : St p dp) (meta : PacketMeta) (info : IcmpErrorInfo) (i : ℕ)
      (r : Option MacAddr × Ctx p dp)
      → Stays (send_to_client p dp st meta info i r)
  unfolding send_to_client
  send_to_client-Stays st meta info i (none, w) = refl
  send_to_client-Stays st meta info i (some mac, w) = finish_error-Stays (set_ctx st w) _

  pub error_of_rs_side-Stays :
      (st : St p dp) (meta : PacketMeta) (info : IcmpErrorInfo) (key : FiveTuple) (found : Option ℕ)
      → Stays (error_of_rs_side p dp st meta info key found)
  unfolding error_of_rs_side
  error_of_rs_side-Stays st meta info key none = refl
  error_of_rs_side-Stays st meta info key (some i) =
      both (tuple_eq (session_of p dp st.ctx i).server key) _ _
        (send_to_client-Stays st meta info i _) refl

  pub send_to_rs-Stays :
      (st : St p dp) (meta : PacketMeta) (info : IcmpErrorInfo) (i : ℕ)
      (r : Option MacAddr × Ctx p dp)
      → Stays (send_to_rs p dp st meta info i r)
  unfolding send_to_rs
  send_to_rs-Stays st meta info i (none, w) = refl
  send_to_rs-Stays st meta info i (some mac, w) =
      both (is_nat st.snap.mode) _ _ (finish_error-Stays (set_ctx st w) _) refl

  pub error_with_rs-Stays :
      (st : St p dp) (meta : PacketMeta) (info : IcmpErrorInfo) (i : ℕ) (rs : Option RsState)
      → Stays (error_with_rs p dp st meta info i rs)
  error_with_rs-Stays st meta info i none = refl
  error_with_rs-Stays st meta info i (some rs) = send_to_rs-Stays st meta info i _

  pub error_of_client_side-Stays :
      (st : St p dp) (meta : PacketMeta) (info : IcmpErrorInfo) (key : FiveTuple) (found : Option ℕ)
      → Stays (error_of_client_side p dp st meta info key found)
  unfolding error_of_client_side
  error_of_client_side-Stays st meta info key none = refl
  error_of_client_side-Stays st meta info key (some i) =
      both (tuple_eq (session_of p dp st.ctx i).client key) _ _
        (error_with_rs-Stays st meta info i _) refl

  pub echo_reply-Stays :
      (st : St p dp) (meta : PacketMeta) (message : Option (List ℕ))
      → Stays (echo_reply p dp st meta message)
  echo_reply-Stays st meta none = refl
  echo_reply-Stays st meta (some message) = refl

  pub arp_for_us-Stays : (st : St p dp) (arp : ArpHeader) → Stays (arp_for_us p dp st arp)
  unfolding arp_for_us
  arp_for_us-Stays st arp = both (is_request arp) _ _ refl refl

  pub handle_arp-Stays : (st : St p dp) → Stays (handle_arp p dp st)
  unfolding handle_arp
  handle_arp-Stays st =
      let arp = arp_at st.mbuf.mem ethernet_size in
      let st' = set_ctx st (add_stat st.ctx Stat.arp) in
      let ignored =
        not (is_eth_ipv4 arp)
        || (is_local p.crc st.snap arp.sender_ip || not (is_local p.crc st.snap arp.target_ip)) in
      both (ltb st.mbuf.data_len (ethernet_size + arp_size)) (drop Stat.drop_malformed, st)
        (if ignored then (consumed, st') else arp_for_us p dp st' arp) refl
        (both ignored (consumed, st') (arp_for_us p dp st' arp) refl (arp_for_us-Stays st' arp))

  pub handle_hc_response-Stays :
      (st : St p dp) (meta : PacketMeta) → Stays (handle_hc_response p dp st meta)
  unfolding handle_hc_response
  handle_hc_response-Stays st meta = both (meta.ip_protocol == 6) _ _ refl refl
