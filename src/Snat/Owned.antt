-- ===== src/Snat/Owned.antt =====
-- One probe of `create_fullnat`: what holds of the session that it makes.
use l4_loadbalancer.Base.{
  ℕ, ◌+◌, ◌%◌, ◌^◌, ◌≤◌, ◌≡◌, refl, sym, ◌∙◌, ap, inl, inr, Bool, true, false, not, ◌&&◌, ◌==◌,
  if◌then◌else◌, List, Option-cases, ltb-false, ==_iff, Option, none, some,
}
use l4_loadbalancer.Config.{nat_port_min, nat_port_max}
use l4_loadbalancer.Rte.{RteHash, RteHashLaws}
use l4_loadbalancer.Session.Table.Index.{Created, create-Created}
use l4_loadbalancer.Session.Table.{Table, create, key_in_use, lookup}
use l4_loadbalancer.Snat.{Worker, Target, Outcome, made, server_tuple, try_port}
use l4_loadbalancer.Steering.{Hashes, Steering, ret_by_rss, ret_owner}
use l4_loadbalancer.Types.{FiveTuple}

-- A test that did not end the search.
pub peel :
    {A : Type 0} (b : Bool) (x : Option A) (y : A)
    → (if b then none else x) ≡ some y
    → (b ≡ false) × (x ≡ some y)
peel true x y e = cc e
peel false x y e = (refl, e)

module _ (dpdk : Hashes) (ops : RteHash FiveTuple) (laws : RteHashLaws ops) (st : Steering)
    (client : FiveTuple) (rs : Target) (timeout : ℕ) where
  -- The session `i` that the worker `idx` made, from the address `lip` and a port of the range: its
  -- return tuple was not in use before, the packets that carry it belong to the worker, and it is
  -- found by them and by those of the client.
  pub record Owned (idx : ℕ) (before : Table ops) (lip i : ℕ) (after : Table ops) : Type 0 where
    pub port : ℕ
    pub port_low : nat_port_min ≤ port
    pub port_high : port ≤ nat_port_max
    pub own : ret_owner dpdk st (server_tuple rs lip port client.protocol) ≡ idx
    pub unused : lookup ops before (server_tuple rs lip port client.protocol) ≡ none
    pub by_server : lookup ops after (server_tuple rs lip port client.protocol) ≡ some i
    pub by_client : lookup ops after client ≡ some i

  Created-some :
      (t : Table ops) (server : FiveTuple) (free : List ℕ) (i : ℕ) (r : Option ℕ × Table ops)
      → r.0 ≡ some i
      → Created ops laws t client (some server) free r
      → (lookup ops r.1 server ≡ some i) × (lookup ops r.1 client ≡ some i)
  Created-some t server free i (none, t') e c = cc e
  Created-some t server free i (some j, t') e c =
      (c.0 server (inr refl) ∙ e, c.0 client (inl refl) ∙ e)

  not_in_use :
      (t : Table ops) (key : FiveTuple) → key_in_use ops t key ≡ false → lookup ops t key ≡ none
  unfolding key_in_use
  not_in_use t key e = elim (Option-cases (lookup ops t key)) [ inl q ↦ q | inr (i, q) ↦ cc (e, q) ]

  -- What is left of a probe after its tests.
  abbrev pub ended :
      Worker ops.Handle → ℕ → Option ℕ → Table ops → Option (Outcome × Worker ops.Handle)
  ended w li session sessions = elim session [
    | none ↦ some (Outcome.drop_table_full, record w { sessions = sessions })
    | some i ↦ some (made i, record w { sessions = sessions; lip_rr = (li + 1) % 2 ^ 32 })
  ]

  ended-made :
      (w w' : Worker ops.Handle) (li i : ℕ) (session : Option ℕ) (sessions : Table ops)
      → ended w li session sessions ≡ some (made i, w')
      → (session ≡ some i) × (w'.sessions ≡ sessions)
  ended-made w w' li i none sessions e = cc e
  ended-made w w' li i (some j) sessions e = (cc e, ap sessions_of (sym e))
    where
      sessions_of : Option (Outcome × Worker ops.Handle) → Table ops
      sessions_of none = sessions
      sessions_of (some (o, v)) = v.sessions

  own_by :
      (rss same : Bool) (a b : ℕ)
      → (rss ≡ false → a ≡ b)
      → (a == b) ≡ same
      → (rss && not same) ≡ false
      → a ≡ b
  own_by false same a b rule e h = rule refl
  own_by true true a b rule e h = (==_iff a b).0 e
  own_by true false a b rule e h = cc h

  pub try_port-Owned :
      (w w' : Worker ops.Handle) (li lip port i : ℕ)
      → nat_port_min ≤ port
      → (ret_by_rss st client.protocol ≡ false
          → ret_owner dpdk st (server_tuple rs lip port client.protocol) ≡ w.idx)
      → lookup ops w.sessions client ≡ none
      → try_port dpdk ops st w client rs timeout li lip port ≡ some (made i, w')
      → Owned w.idx w.sessions lip i w'.sessions
  unfolding try_port
  try_port-Owned w w' li lip port i low rule free e =
      let server = server_tuple rs lip port client.protocol in
      let created = create ops w.sessions client (some server) w.now_tick timeout in
      let (in_range, e1) = peel _ _ _ e in
      let (owned, e2) = peel _ _ _ e1 in
      let (fresh, e3) = peel _ _ _ e2 in
      let (found, table) = ended-made w w' li i created.0 created.1 e3 in
      let (by_server, by_client) =
        Created-some w.sessions server w.sessions.free i created found
          (create-Created ops laws w.sessions client (some server) w.now_tick timeout free) in
      record {
        port = port;
        port_low = low;
        port_high = ltb-false nat_port_max port in_range;
        own = own_by (ret_by_rss st client.protocol) _ _ w.idx rule refl owned;
        unused = not_in_use w.sessions server fresh;
        by_server = rw table by_server;
        by_client = rw table by_client;
      }
