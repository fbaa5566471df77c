-- ===== src/Manager/Build.antt =====
-- The table `rs_by_id` of a snapshot: what it says of an id is what the desired state says.
use l4_loadbalancer.Base.{
  ℕ, zero, suc, ◌+◌, ◌%◌, ◌^◌, ◌<◌, ◌≡◌, ◌≢◌, refl, sym, ◌∙◌, ap, arith, Bool-cases, inl, inr, ◌==◌,
  ==_iff, ==-false, Option, none, some, List, [], ◌∷◌, ◌++◌, length, get_or, set, replicate,
  length-set, length-replicate, if◌then◌else◌,
}
use l4_loadbalancer.Manager.Ids.{rs_ids, ids_of, NotIn, IsDistinct, AllBelow, IsNumbered}
use l4_loadbalancer.Manager.{
  DesiredRs, DesiredService, Manager, find_in, or_else, rs_state, rs_states, by_id, pool_of,
  build_services, build_service, build,
}
use l4_loadbalancer.Scheduler.{SchedBackend}
use l4_loadbalancer.Snapshot.{Crc, RsState, rs_of, index}

get_or-set_self {ℓ} :
    {A : Type ℓ} (xs : List A) (i : ℕ) (v d : A) → i < length xs → get_or (set xs i v) i d ≡ v
get_or-set_self [] i v d h = absurd (omega (arith, h))
get_or-set_self (x ∷ xs) zero v d h = refl
get_or-set_self (x ∷ xs) (suc i) v d h = get_or-set_self xs i v d (omega (arith, h))

get_or-set_ne {ℓ} :
    {A : Type ℓ} (xs : List A) (i j : ℕ) (v d : A) → i ≢ j → get_or (set xs i v) j d ≡ get_or xs j d
get_or-set_ne [] i j v d h = refl
get_or-set_ne (x ∷ xs) zero zero v d h = absurd (h refl)
get_or-set_ne (x ∷ xs) zero (suc j) v d h = refl
get_or-set_ne (x ∷ xs) (suc i) zero v d h = refl
get_or-set_ne (x ∷ xs) (suc i) (suc j) v d h = get_or-set_ne xs i j v d (λ e. h (ap suc e))

get_or-replicate {ℓ} : {A : Type ℓ} (n i : ℕ) (d : A) → get_or (replicate n d) i d ≡ d
get_or-replicate zero i d = refl
get_or-replicate (suc n) zero d = refl
get_or-replicate (suc n) (suc i) d = get_or-replicate n i d

abbrev no_state : Option RsState
no_state = none

abbrev state_ids : List RsState → List ℕ
state_ids [] = []
state_ids (rs ∷ rest) = rs.id ∷ state_ids rest

abbrev find_state : List RsState → ℕ → Option RsState
find_state [] id = none
find_state (rs ∷ rest) id = let found = find_state rest id in if rs.id == id then some rs else found

find_state-none :
    (pool : List RsState) (id : ℕ) → NotIn id (state_ids pool) → find_state pool id ≡ none
find_state-none [] id h = refl
find_state-none (rs ∷ rest) id h =
    rw (==-false rs.id id (λ e. h.0 (sym e)), find_state-none rest id h.1) refl

by_id-get :
    (pool : List RsState) (table : List (Option RsState)) (id : ℕ)
    → IsDistinct (state_ids pool)
    → AllBelow (length table) (state_ids pool)
    → get_or (by_id pool table) id none ≡ or_else (find_state pool id) (get_or table id none)
by_id-get [] table id d b = refl
by_id-get (rs ∷ rest) table id d b =
    let kept = length-set table rs.id (some rs) in
    by_id-get rest (set table rs.id (some rs)) id d.1 (rw kept b.2)
    ∙ elim (Bool-cases (rs.id == id)) [
      | inl e ↦
          let same = (==_iff rs.id id).0 e in
          rw
            (
              e,
              find_state-none rest id (rw (← same) d.0),
              ← same,
              get_or-set_self table rs.id (some rs) none b.1,
            )
            refl
      | inr e ↦
          rw (e, get_or-set_ne table rs.id id (some rs) none (λ q. cc (e, (==_iff rs.id id).1 q)))
            refl
    ]

-- The state of the real server with an id in the `i`-th and later services.
abbrev state_or : ℕ → Option DesiredRs → Option RsState → Option RsState
state_or svc_idx none rest = rest
state_or svc_idx (some r) rest = some (rs_state svc_idx r)

abbrev pub state_from : ℕ → List DesiredService → ℕ → Option RsState
state_from i [] id = none
state_from i (s ∷ ss) id = state_or (i % 2 ^ 16) (find_in s.rs id) (state_from (i + 1) ss id)

find_state-states :
    (svc_idx : ℕ) (rs : List DesiredRs) (pool : List RsState) (id : ℕ)
    → find_state (rs_states svc_idx rs ++ pool) id
      ≡ state_or svc_idx (find_in rs id) (find_state pool id)
unfolding rs_state
find_state-states svc_idx [] pool id = refl
find_state-states svc_idx (r ∷ rs) pool id = elim (Bool-cases (r.id == id)) [
  | inl e ↦ rw e refl
  | inr e ↦ rw (e, find_state-states svc_idx rs pool id) refl
]

states-ids :
    (svc_idx : ℕ) (rs : List DesiredRs) (pool : List RsState)
    → state_ids (rs_states svc_idx rs ++ pool) ≡ rs_ids rs ++ state_ids pool
unfolding rs_state
states-ids svc_idx [] pool = refl
states-ids svc_idx (r ∷ rs) pool = ap (λ c. r.id ∷ c) (states-ids svc_idx rs pool)

module _ (max_lcore : ℕ) (crc : Crc) (build_maglev : List SchedBackend → List ℕ) where
  pool : ℕ → List DesiredService → List RsState
  pool i ss = pool_of (build_services max_lcore crc build_maglev i ss)

  pool-ids : (i : ℕ) (ss : List DesiredService) → state_ids (pool i ss) ≡ ids_of ss
  unfolding pool build_service
  pool-ids i [] = refl
  pool-ids i (s ∷ ss) =
      states-ids (i % 2 ^ 16) s.rs (pool (i + 1) ss)
      ∙ ap (λ c. rs_ids s.rs ++ c) (pool-ids (i + 1) ss)

  pool-find :
      (i : ℕ) (ss : List DesiredService) (id : ℕ) → find_state (pool i ss) id ≡ state_from i ss id
  unfolding pool build_service
  pool-find i [] id = refl
  pool-find i (s ∷ ss) id =
      find_state-states (i % 2 ^ 16) s.rs (pool (i + 1) ss) id
      ∙ ap (state_or (i % 2 ^ 16) (find_in s.rs id)) (pool-find (i + 1) ss id)

  -- Where the ids are as `init` and the commands leave them: a snapshot that is built answers every id,
  -- as the data plane asks for it, with the desired state of the real server that has the id, and with
  -- nothing where none has it.
  pub build-rs_of :
      (m : Manager) (id : ℕ)
      → IsNumbered m
      → rs_of (build max_lcore crc build_maglev m) id ≡ state_from 0 m.services id
  unfolding build rs_of index pool
  build-rs_of m id v =
      by_id-get (pool 0 m.services) (replicate m.next_rs_id none) id
        (rw (pool-ids 0 m.services) v.distinct)
        (rw (pool-ids 0 m.services, length-replicate m.next_rs_id no_state) v.below)
      ∙ answer (find_state (pool 0 m.services) id) (get_or-replicate m.next_rs_id id no_state)
      ∙ pool-find 0 m.services id
    where
      answer : (o : Option RsState) {d : Option RsState} → d ≡ none → or_else o d ≡ o
      answer none e = e
      answer (some r) e = refl
