-- ===== src/Snat/Turns.antt =====
-- The loop of `create_fullnat` over the addresses, where it makes no session.
use l4_loadbalancer.Base.{
  ℕ, zero, suc, ◌+◌, ◌-◌, ◌*◌, ◌/◌, ◌%◌, ◌^◌, ◌≤◌, ◌<◌, ◌≡◌, ◌≢◌, refl, sym, ◌∙◌, ap, inl, inr, ◌⊎◌,
  List, arith, Option, none, some, length, get_or, length-set, ℕ_discrete,
}
use l4_loadbalancer.Rte.{RteHash, RteHashLaws}
use l4_loadbalancer.Session.Table.{Table, lookup}
use l4_loadbalancer.Snat.Refused.{
  AllRefused, Same, try_port-full, try_port-no_port, probe_loop-AllRefused, next_port, moved,
}
use l4_loadbalancer.Snat.Search.{after-made}
use l4_loadbalancer.Snat.{
  Worker, Target, Outcome, drop_no_port, try_port, probe_loop, lip_loop, after_try, end_or,
}
use l4_loadbalancer.Steering.{Hashes, Steering}
use l4_loadbalancer.Types.{FiveTuple}
use native.Mathlib.Nat.{mod-lt, div-add-mod', mul-add-mod_self_right, mod-eq_of_lt, add-mod_left}

-- Every address has its turn, whatever the first is.
pub turn_of : (rr len li : ℕ) → li < len → (n : ℕ) × (n < len) × ((rr + n) % len ≡ li)
turn_of rr len li h =
    let some_len : 0 < len = omega (arith, h) in
    let low : rr % len < len = mod-lt rr some_len in
    elim (le_or (rr % len) li) [
      | inl le ↦
          let shift : rr + (li - rr % len) ≡ rr / len * len + li =
            omega (arith, div-add-mod' rr len, le) in
          (
            li - rr % len,
            omega (arith, h),
            ap (λ x. x % len) shift ∙ mul-add-mod_self_right (rr / len) len li ∙ mod-eq_of_lt h,
          )
      | inr lt ↦
          let shift : rr + (li + len - rr % len) ≡ rr / len * len + (len + li) =
            omega (arith, div-add-mod' rr len, lt, low) in
          (
            li + len - rr % len,
            omega (arith, h, lt, low),
            ap (λ x. x % len) shift
                ∙ mul-add-mod_self_right (rr / len) len (len + li)
                ∙ add-mod_left len li
                ∙ mod-eq_of_lt h,
          )
    ]
  where
    le_or : (a b : ℕ) → (a ≤ b) ⊎ (b < a)
    le_or a b = omega arith

module _ (dpdk : Hashes) (ops : RteHash FiveTuple) (laws : RteHashLaws ops) (st : Steering)
    (client : FiveTuple) (rs : Target) (timeout : ℕ) where
  -- What the probes on an address leave of the worker.
  abbrev Keeps : Worker ops.Handle → Worker ops.Handle → Type 0
  Keeps w v =
      (v.sessions ≡ w.sessions)
      × (v.idx ≡ w.idx)
      × (v.lip_rr ≡ w.lip_rr)
      × (length v.lip_cursor ≡ length w.lip_cursor)

  after_try-Keeps :
      (tried : Option (Outcome × Worker ops.Handle)) (u w : Worker ops.Handle)
      (rest : Option (Outcome × Worker ops.Handle) × Worker ops.Handle)
      → Keeps u w
      → Keeps u rest.1
      → Keeps u (after_try dpdk ops st tried w rest).1
  after_try-Keeps none u w rest h k = k
  after_try-Keeps (some end) u w rest h k = h

  probe_loop-Keeps :
      (probes : ℕ) (w : Worker ops.Handle) (li lip : ℕ)
      → Keeps w (probe_loop dpdk ops st probes w client rs timeout li lip).1
  unfolding probe_loop
  probe_loop-Keeps zero w li lip = (refl, refl, refl, refl)
  probe_loop-Keeps (suc probes) w li lip =
      let next : Worker ops.Handle = moved dpdk ops laws st client rs timeout w li in
      let (s, i, r, c) = probe_loop-Keeps probes next li lip in
      let cursors = length-set w.lip_cursor li ((get_or w.lip_cursor li 0 + 1) % 2 ^ 32) in
      after_try-Keeps
        (try_port dpdk ops st next client rs timeout li lip
          (next_port dpdk ops laws st client rs timeout w li))
        w next (probe_loop dpdk ops st probes next client rs timeout li lip)
        (refl, refl, refl, cursors) (s, i, r, c ∙ cursors)

  probe_loop-full :
      (probes : ℕ) (w w2 : Worker ops.Handle) (li lip : ℕ)
      → lookup ops w.sessions client ≡ none
      → (probe_loop dpdk ops st probes w client rs timeout li lip).0
        ≡ some (Outcome.drop_table_full, w2)
      → Same dpdk ops laws st client rs timeout w.sessions w2.sessions
  unfolding probe_loop
  probe_loop-full zero w w2 li lip free e = cc e
  probe_loop-full (suc probes) w w2 li lip free e =
      let next : Worker ops.Handle = moved dpdk ops laws st client rs timeout w li in
      let port = next_port dpdk ops laws st client rs timeout w li in
      elim (after-made dpdk ops laws st client rs timeout
        (try_port dpdk ops st next client rs timeout li lip port) next
        (probe_loop dpdk ops st probes next client rs timeout li lip) (Outcome.drop_table_full, w2)
        e) [
          | inl tried ↦
              try_port-full dpdk ops laws st client rs timeout next w2 li lip port free tried
          | inr later ↦ probe_loop-full probes next w2 li lip free later
        ]

  probe_loop-no_port :
      (probes : ℕ) (w w2 : Worker ops.Handle) (li lip : ℕ)
      → (probe_loop dpdk ops st probes w client rs timeout li lip).0 ≢ some (drop_no_port, w2)
  unfolding probe_loop
  probe_loop-no_port zero w w2 li lip e = cc e
  probe_loop-no_port (suc probes) w w2 li lip e =
      let next : Worker ops.Handle = moved dpdk ops laws st client rs timeout w li in
      let port = next_port dpdk ops laws st client rs timeout w li in
      elim (after-made dpdk ops laws st client rs timeout
        (try_port dpdk ops st next client rs timeout li lip port) next
        (probe_loop dpdk ops st probes next client rs timeout li lip) (drop_no_port, w2) e) [
          | inl tried ↦
              try_port-no_port dpdk ops laws st client rs timeout next w2 li lip port tried
          | inr later ↦ probe_loop-no_port probes next w2 li lip later
        ]

  -- An address whose next candidates, from some place of its cursor on, are refused.
  abbrev pub UsedUp : ℕ → Table ops → ℕ → ℕ → Type 0
  UsedUp idx t lip probes =
      (cur : ℕ) × AllRefused dpdk ops laws st client rs timeout idx t lip probes cur

  -- The end of the loop over the addresses comes from this address, or from the rest.
  end_or-cases :
      (ended : Option (Outcome × Worker ops.Handle)) (rest : Outcome × Worker ops.Handle)
      (o : Outcome)
      → (end_or dpdk ops st ended rest).0 ≡ o
      → ((ended ≡ none) × (end_or dpdk ops st ended rest ≡ rest))
        ⊎ ((v : Worker ops.Handle) × (ended ≡ some (o, v))
            × ((end_or dpdk ops st ended rest).1.sessions ≡ v.sessions))
  end_or-cases none rest o e = inl (refl, refl)
  end_or-cases (some (x, v)) rest o e = inr (v, ap (λ y. some (y, v)) e, refl)

  pub lip_loop-full :
      (left n : ℕ) (w : Worker ops.Handle) (lips : List ℕ) (probes : ℕ)
      → lookup ops w.sessions client ≡ none
      → (lip_loop dpdk ops st left n w client rs timeout lips probes).0 ≡ Outcome.drop_table_full
      → Same dpdk ops laws st client rs timeout w.sessions
          (lip_loop dpdk ops st left n w client rs timeout lips probes).1.sessions
  unfolding lip_loop
  lip_loop-full zero n w lips probes free e = cc e
  lip_loop-full (suc left) n w lips probes free e =
      let li = (w.lip_rr + n) % length lips in
      let searched = probe_loop dpdk ops st probes w client rs timeout li (get_or lips li 0) in
      let rest = lip_loop dpdk ops st left (n + 1) searched.1 client rs timeout lips probes in
      let (sessions, _, _, _) = probe_loop-Keeps probes w li (get_or lips li 0) in
      elim (end_or-cases searched.0 rest Outcome.drop_table_full e) [
        | inl (_, later) ↦ rw later (
            rw sessions at (
              lip_loop-full left (n + 1) searched.1 lips probes (rw sessions free)
                (ap (λ r. r.0) (sym later) ∙ e)))
        | inr (v, here, same) ↦ rw same (probe_loop-full probes w v li (get_or lips li 0) free here)
      ]

  pub lip_loop-no_port :
      (left n : ℕ) (w : Worker ops.Handle) (lips : List ℕ) (probes : ℕ)
      → 0 < length lips
      → length lips ≤ length w.lip_cursor
      → (lip_loop dpdk ops st left n w client rs timeout lips probes).0 ≡ drop_no_port
      → ((lip_loop dpdk ops st left n w client rs timeout lips probes).1.sessions ≡ w.sessions)
        × ((m : ℕ)
            → n ≤ m
            → m < n + left
            → UsedUp w.idx w.sessions (get_or lips ((w.lip_rr + m) % length lips) 0) probes)
  unfolding lip_loop
  lip_loop-no_port zero n w lips probes some_lip long e =
      (refl, λ m low high. absurd (omega (arith, low, high)))
  lip_loop-no_port (suc left) n w lips probes some_lip long e =
      let li = (w.lip_rr + n) % length lips in
      let searched = probe_loop dpdk ops st probes w client rs timeout li (get_or lips li 0) in
      let rest = lip_loop dpdk ops st left (n + 1) searched.1 client rs timeout lips probes in
      let (sessions, idx, rr, cursors) = probe_loop-Keeps probes w li (get_or lips li 0) in
      elim (end_or-cases searched.0 rest drop_no_port e) [
        | inl (none_here, later) ↦
            let (kept, others) =
              lip_loop-no_port left (n + 1) searched.1 lips probes some_lip (rw cursors long)
                (ap (λ r. r.0) (sym later) ∙ e) in
            let here =
              probe_loop-AllRefused dpdk ops laws st client rs timeout probes w li
                (get_or lips li 0) (omega (arith, mod-lt (w.lip_rr + n) some_lip, long))
                none_here in
            (
              ap (λ r. r.1.sessions) later ∙ kept ∙ sessions,
              λ m low high. elim (ℕ_discrete n m) [
                | yes same ↦ rw (← same) (get_or w.lip_cursor li 0, here)
                | no other ↦
                    rw (idx, sessions, rr) at
                      (others m (omega (arith, low, other)) (omega (arith, high)))
              ],
            )
        | inr (v, here, same) ↦ absurd (probe_loop-no_port probes w v li (get_or lips li 0) here)
      ]
