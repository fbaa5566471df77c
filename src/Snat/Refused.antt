-- ===== src/Snat/Refused.antt =====
-- A probe of `create_fullnat` that makes no session, and the probes on one address.
use l4_loadbalancer.Base.{
  ℕ, zero, suc, ◌+◌, ◌/◌, ◌%◌, ◌^◌, ◌<◌, ◌≡◌, ◌≢◌, refl, sym, ap, inl, inr, ◌⊎◌, Bool, true, false,
  not, ◌&&◌, ◌==◌, ltb, List, [], ◌∷◌, arith, Bool-cases, ==_iff, Option, none, some, length,
  get_or, set, length-set, ltb→lt,
}
use l4_loadbalancer.Config.{nat_port_max}
use l4_loadbalancer.Rte.{RteHash, RteHashLaws}
use l4_loadbalancer.Session.Table.Index.{Created, create-Created}
use l4_loadbalancer.Session.Table.{Table, create, key_in_use, lookup}
use l4_loadbalancer.Snat.Owned.{peel, ended}
use l4_loadbalancer.Snat.{
  Worker, Target, Outcome, made, drop_no_port, candidate, server_tuple, try_port, probe_loop,
  after_try, range,
}
use l4_loadbalancer.Steering.{Hashes, Steering, port_step, ret_by_rss, ret_owner}
use l4_loadbalancer.Types.{FiveTuple}

get_or-set_self : (xs : List ℕ) (i v d : ℕ) → i < length xs → get_or (set xs i v) i d ≡ v
get_or-set_self [] i v d h = absurd (omega (arith, h))
get_or-set_self (x ∷ xs) zero v d h = refl
get_or-set_self (x ∷ xs) (suc i) v d h = get_or-set_self xs i v d (omega (arith, h))

-- `cur` after `j` probes.
abbrev pub cursor_after : ℕ → ℕ → ℕ
cursor_after cur zero = cur
cursor_after cur (suc j) = cursor_after ((cur + 1) % 2 ^ 32) j

module _ (dpdk : Hashes) (ops : RteHash FiveTuple) (laws : RteHashLaws ops) (st : Steering)
    (client : FiveTuple) (rs : Target) (timeout : ℕ) where
  -- Why the worker `idx` does not take a port of the address `lip`: it is above the range, the network
  -- card brings its packets to another worker, or a session has the return tuple.
  abbrev pub Refused : ℕ → Table ops → ℕ → ℕ → Type 0
  Refused idx t lip port =
      let server = server_tuple rs lip port client.protocol in
      (nat_port_max < port)
      ⊎ (((ret_by_rss st client.protocol ≡ true) × (ret_owner dpdk st server ≢ idx))
          ⊎ (lookup ops t server ≢ none))

  key_in_use-some :
      (t : Table ops) (key : FiveTuple) → key_in_use ops t key ≡ true → lookup ops t key ≢ none
  unfolding key_in_use
  key_in_use-some t key e q = cc (rw (key_in_use, q) at e)

  try_port-Refused :
      (w : Worker ops.Handle) (li lip port : ℕ)
      → try_port dpdk ops st w client rs timeout li lip port ≡ none
      → Refused w.idx w.sessions lip port
  unfolding try_port
  try_port-Refused w li lip port e =
      let server = server_tuple rs lip port client.protocol in
      let foreign = ret_by_rss st client.protocol && not (ret_owner dpdk st server == w.idx) in
      elim (Bool-cases (ltb nat_port_max port)) [
        | inl a ↦ inl (ltb→lt nat_port_max port a)
        | inr a ↦ elim (Bool-cases foreign) [
          | inl b ↦ inr (inl (other (ret_by_rss st client.protocol) (ret_owner dpdk st server) b))
          | inr b ↦ elim (Bool-cases (key_in_use ops w.sessions server)) [
            | inl c ↦ inr (inr (key_in_use-some w.sessions server c))
            | inr c ↦ absurd (ends _ _ (rw (try_port, a, b, c) at e))
          ]
        ]
      ]
    where
      other :
          (rss : Bool) (owner : ℕ)
          → (rss && not (owner == w.idx)) ≡ true
          → (rss ≡ true) × (owner ≢ w.idx)
      other false owner b = cc b
      other true owner b = (refl, λ q. cc (rw ((==_iff owner w.idx).1 q) at b))

      ends :
          (session : Option ℕ) (sessions : Table ops)
          → (elim session as (λ _. Option (Outcome × Worker ops.Handle)) [
            | none ↦ some (Outcome.drop_table_full, record w { sessions = sessions })
            | some i ↦ some (made i, record w { sessions = sessions; lip_rr = (li + 1) % 2 ^ 32 })
          ])
            ≢ none
      ends none sessions q = cc q
      ends (some i) sessions q = cc q

  -- Every key is answered as before, and the wheel and the free stack are the same.
  abbrev pub Same : Table ops → Table ops → Type 0
  Same before after =
      ((key : FiveTuple) → lookup ops after key ≡ lookup ops before key)
      × (after.wheel ≡ before.wheel)
      × (after.free ≡ before.free)

  Created-none :
      (t : Table ops) (server : FiveTuple) (r : Option ℕ × Table ops)
      → r.0 ≡ none
      → Created ops laws t client (some server) t.free r
      → Same t r.1
  Created-none t server (none, t') e c = c
  Created-none t server (some j, t') e c = cc e

  ended-full :
      (w w' : Worker ops.Handle) (li : ℕ) (session : Option ℕ) (sessions : Table ops)
      → ended dpdk ops laws st client rs timeout w li session sessions
        ≡ some (Outcome.drop_table_full, w')
      → (session ≡ none) × (w'.sessions ≡ sessions)
  ended-full w w' li none sessions e = (
    refl,
    ap (λ o. elim o as (λ _. Table ops) [ none ↦ sessions | some r ↦ r.1.sessions ]) (sym e),
  )
  ended-full w w' li (some j) sessions e = cc e

  -- A probe that ends the search has tried to create the session.
  try_port-ended :
      (w : Worker ops.Handle) (li lip port : ℕ) (r : Outcome × Worker ops.Handle)
      → try_port dpdk ops st w client rs timeout li lip port ≡ some r
      → (let server = server_tuple rs lip port client.protocol in
          let created = create ops w.sessions client (some server) w.now_tick timeout in
          ended dpdk ops laws st client rs timeout w li created.0 created.1 ≡ some r)
  unfolding try_port
  try_port-ended w li lip port r e =
      let server = server_tuple rs lip port client.protocol in
      let foreign = ret_by_rss st client.protocol && not (ret_owner dpdk st server == w.idx) in
      let (_, e1) = peel (ltb nat_port_max port) _ _ e in
      let (_, e2) = peel foreign _ _ e1 in (peel (key_in_use ops w.sessions server) _ _ e2).1

  -- A probe that ends with a full table changes no answer.
  pub try_port-full :
      (w w' : Worker ops.Handle) (li lip port : ℕ)
      → lookup ops w.sessions client ≡ none
      → try_port dpdk ops st w client rs timeout li lip port ≡ some (Outcome.drop_table_full, w')
      → Same w.sessions w'.sessions
  try_port-full w w' li lip port free e =
      let server = server_tuple rs lip port client.protocol in
      let created = create ops w.sessions client (some server) w.now_tick timeout in
      let (failed, table) =
        ended-full w w' li created.0 created.1 (try_port-ended w li lip port _ e) in
      rw table (
        Created-none w.sessions server created failed
          (create-Created ops laws w.sessions client (some server) w.now_tick timeout free))

  ended-no_port :
      (w w' : Worker ops.Handle) (li : ℕ) (session : Option ℕ) (sessions : Table ops)
      → ended dpdk ops laws st client rs timeout w li session sessions ≢ some (drop_no_port, w')
  ended-no_port w w' li none sessions q = cc q
  ended-no_port w w' li (some i) sessions q = cc q

  -- No probe ends the search for want of a port.
  pub try_port-no_port :
      (w w' : Worker ops.Handle) (li lip port : ℕ)
      → try_port dpdk ops st w client rs timeout li lip port ≢ some (drop_no_port, w')
  try_port-no_port w w' li lip port e =
      ended-no_port w w' li _ _ (try_port-ended w li lip port (drop_no_port, w') e)

  -- The port of the next probe on an address, and the worker after it.
  abbrev pub next_port : Worker ops.Handle → ℕ → ℕ
  next_port w li =
      let step = port_step st client.protocol in
      candidate w.idx step (get_or w.lip_cursor li 0 % (range / step))

  abbrev pub moved : Worker ops.Handle → ℕ → Worker ops.Handle
  moved w li = record w {
    lip_cursor = set w.lip_cursor li ((get_or w.lip_cursor li 0 + 1) % 2 ^ 32);
  }

  after_try-none :
      (tried : Option (Outcome × Worker ops.Handle)) (w : Worker ops.Handle)
      (rest : Option (Outcome × Worker ops.Handle) × Worker ops.Handle)
      → (after_try dpdk ops st tried w rest).0 ≡ none
      → (tried ≡ none) × (rest.0 ≡ none)
  after_try-none none w rest e = (refl, e)
  after_try-none (some end) w rest e = cc e

  -- The candidates of `probes` probes from a cursor on are refused.
  abbrev pub AllRefused : ℕ → Table ops → ℕ → ℕ → ℕ → Type 0
  AllRefused idx t lip probes cur =
      let step = port_step st client.protocol in
      (j : ℕ)
      → j < probes
      → Refused idx t lip (candidate idx step (cursor_after cur j % (range / step)))

  pub probe_loop-AllRefused :
      (probes : ℕ) (w : Worker ops.Handle) (li lip : ℕ)
      → li < length w.lip_cursor
      → (probe_loop dpdk ops st probes w client rs timeout li lip).0 ≡ none
      → AllRefused w.idx w.sessions lip probes (get_or w.lip_cursor li 0)
  unfolding probe_loop
  probe_loop-AllRefused zero w li lip has e j lt = absurd (omega (arith, lt))
  probe_loop-AllRefused (suc probes) w li lip has e zero lt =
      let tried = try_port dpdk ops st (moved w li) client rs timeout li lip (next_port w li) in
      try_port-Refused (moved w li) li lip (next_port w li)
        (after_try-none tried (moved w li)
          (probe_loop dpdk ops st probes (moved w li) client rs timeout li lip) e).0
  probe_loop-AllRefused (suc probes) w li lip has e (suc j) lt =
      let cur = get_or w.lip_cursor li 0 in
      let tried = try_port dpdk ops st (moved w li) client rs timeout li lip (next_port w li) in
      let rest =
        (after_try-none tried (moved w li)
          (probe_loop dpdk ops st probes (moved w li) client rs timeout li lip) e).1 in
      let kept : get_or (moved w li).lip_cursor li 0 ≡ (cur + 1) % 2 ^ 32 =
        get_or-set_self w.lip_cursor li ((cur + 1) % 2 ^ 32) 0 has in
      let later =
        probe_loop-AllRefused probes (moved w li) li lip
          (rw (length-set w.lip_cursor li ((cur + 1) % 2 ^ 32)) has) rest j (omega (arith, lt)) in
      rw kept at later
