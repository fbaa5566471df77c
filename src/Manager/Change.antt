-- ===== src/Manager/Change.antt =====
-- What a command changes: one real server if it succeeds, nothing if it fails.
use l4_loadbalancer.Base.{
  ℕ, ◌≡◌, ◌≢◌, refl, sym, ◌∙◌, Bool, true, false, Bool-cases, Option-cases, inl, inr, ◌==◌, ==_iff,
  leb, ltb, Option, none, some, List, [], ◌∷◌, length, get_elem?,
}
use l4_loadbalancer.Config.{RsConf, max_rs_per_service}
use l4_loadbalancer.Manager.Commands.{Command, exec, weigh, enable, health, add, delete}
use l4_loadbalancer.Manager.{
  DesiredRs, DesiredService, Manager, CommandError, find_in, find_rs, change_in, change_rs, is_some,
  set_weight, set_enabled, add_to, add_rs, del_rs, max_rs_id, same_address, put_weight, put_enabled,
}

-- The real server of an id after the one of another id has changed.
change_in-find :
    (rs : List DesiredRs) (id : ℕ) (f : DesiredRs → DesiredRs) (j : ℕ)
    → ((r : DesiredRs) → (f r).id ≡ r.id)
    → id ≢ j
    → find_in (change_in rs id f) j ≡ find_in rs j
change_in-find [] id f j h d = refl
change_in-find (r ∷ rs) id f j h d = elim (Bool-cases (r.id == id)) [
  | inl e ↦ elim (Bool-cases (r.id == j)) [
    | inl g ↦ absurd (d (sym ((==_iff r.id id).0 e) ∙ (==_iff r.id j).0 g))
    | inr g ↦ rw (e, h r, g) refl
  ]
  | inr e ↦ rw (e, change_in-find rs id f j h d) refl
]

abbrev pub changed : Bool → (DesiredRs → DesiredRs) → Option DesiredRs → Option DesiredRs
changed true f none = none
changed true f (some r) = some (f r)
changed false f r = r

change_in-found :
    (rs : List DesiredRs) (id : ℕ) (f : DesiredRs → DesiredRs)
    → ((r : DesiredRs) → (f r).id ≡ r.id)
    → find_in (change_in rs id f) id ≡ changed true f (find_in rs id)
change_in-found [] id f h = refl
change_in-found (r ∷ rs) id f h = elim (Bool-cases (r.id == id)) [
  | inl e ↦ rw (e, h r, e) refl
  | inr e ↦ rw (e, e, change_in-found rs id f h) refl
]

is_some-cases : (o : Option DesiredRs) → is_some o ≡ true → (r : DesiredRs) × (o ≡ some r)
is_some-cases none e = cc e
is_some-cases (some r) e = (r, refl)

is_none : (o : Option DesiredRs) → is_some o ≡ false → o ≡ none
is_none none e = refl
is_none (some r) e = cc e

change_rs-find_other :
    (ss : List DesiredService) (id : ℕ) (f : DesiredRs → DesiredRs) (j : ℕ)
    → ((r : DesiredRs) → (f r).id ≡ r.id)
    → id ≢ j
    → find_rs (change_rs ss id f) j ≡ find_rs ss j
unfolding find_rs change_rs
change_rs-find_other [] id f j h d = refl
change_rs-find_other (s ∷ ss) id f j h d = elim (Bool-cases (is_some (find_in s.rs id))) [
  | inl e ↦ rw (e, change_in-find s.rs id f j h d) refl
  | inr e ↦ rw (e, change_rs-find_other ss id f j h d) refl
]

change_rs-found :
    (ss : List DesiredService) (id : ℕ) (f : DesiredRs → DesiredRs)
    → ((r : DesiredRs) → (f r).id ≡ r.id)
    → find_rs (change_rs ss id f) id ≡ changed true f (find_rs ss id)
unfolding find_rs change_rs
change_rs-found [] id f h = refl
change_rs-found (s ∷ ss) id f h = elim (Bool-cases (is_some (find_in s.rs id))) [
  | inl e ↦
      let (r, q) = is_some-cases (find_in s.rs id) e in rw (e, change_in-found s.rs id f h, q) refl
  | inr e ↦ rw (e, is_none (find_in s.rs id) e) (change_rs-found ss id f h)
]

change_rs-find :
    (ss : List DesiredService) (id : ℕ) (f : DesiredRs → DesiredRs) (j : ℕ)
    → ((r : DesiredRs) → (f r).id ≡ r.id)
    → find_rs (change_rs ss id f) j ≡ changed (id == j) f (find_rs ss j)
change_rs-find ss id f j h = elim (Bool-cases (id == j)) [
  | inl e ↦ rw (e, ← ((==_iff id j).0 e)) (change_rs-found ss id f h)
  | inr e ↦ rw e (change_rs-find_other ss id f j h (λ q. cc (e, (==_iff id j).1 q)))
]

-- `set_weight` without an error changes the weight of the real server with the id, and no other real
-- server; so does `set_enabled` with the administrative state.
pub set_weight-find :
    (m : Manager) (id weight : ℕ) (enabled : Bool) (j : ℕ)
    → ((set_weight m id weight).0 ≡ none
        → find_rs (set_weight m id weight).1.services j
          ≡ changed (id == j) (put_weight weight) (find_rs m.services j))
      × ((set_enabled m id enabled).0 ≡ none
          → find_rs (set_enabled m id enabled).1.services j
            ≡ changed (id == j) (put_enabled enabled) (find_rs m.services j))
unfolding set_weight set_enabled
set_weight-find m id weight enabled j = (weight_lem, enabled_lem)
  where
    weight_lem :
        (set_weight m id weight).0 ≡ none
        → find_rs (set_weight m id weight).1.services j
          ≡ changed (id == j) (put_weight weight) (find_rs m.services j)
    weight_lem done = elim (Option-cases (find_rs m.services id)) [
      | inl e ↦ cc (rw (set_weight, e) at done)
      | inr (r, e) ↦ elim (Bool-cases (ltb 65535 weight)) [
        | inl h ↦ cc (rw (set_weight, e, h) at done)
        | inr h ↦
            rw (set_weight, e, h) (change_rs-find m.services id (put_weight weight) j (λ r. refl))
      ]
    ]

    enabled_lem :
        (set_enabled m id enabled).0 ≡ none
        → find_rs (set_enabled m id enabled).1.services j
          ≡ changed (id == j) (put_enabled enabled) (find_rs m.services j)
    enabled_lem done = elim (Option-cases (find_rs m.services id)) [
      | inl e ↦ cc (rw (set_enabled, e) at done)
      | inr (r, e) ↦
          rw (set_enabled, e) (change_rs-find m.services id (put_enabled enabled) j (λ r. refl))
    ]

weigh-failed :
    (m : Manager) (id weight : ℕ) (error : CommandError)
    → (set_weight m id weight).0 ≡ some error
    → (set_weight m id weight).1 ≡ m
unfolding set_weight
weigh-failed m id weight error failed = elim (Option-cases (find_rs m.services id)) [
  | inl e ↦ rw (set_weight, e) refl
  | inr (r, e) ↦ elim (Bool-cases (ltb 65535 weight)) [
    | inl h ↦ rw (set_weight, e, h) refl
    | inr h ↦ cc (rw (set_weight, e, h) at failed)
  ]
]

enable-failed :
    (m : Manager) (id : ℕ) (b : Bool) (error : CommandError)
    → (set_enabled m id b).0 ≡ some error
    → (set_enabled m id b).1 ≡ m
unfolding set_enabled
enable-failed m id b error failed = elim (Option-cases (find_rs m.services id)) [
  | inl e ↦ rw (set_enabled, e) refl
  | inr (r, e) ↦ cc (rw (set_enabled, e) at failed)
]

delete-failed :
    (m : Manager) (id : ℕ) (error : CommandError)
    → (del_rs m id).0 ≡ some error
    → (del_rs m id).1 ≡ m
unfolding del_rs
delete-failed m id error failed = elim (Option-cases (find_rs m.services id)) [
  | inl e ↦ rw (del_rs, e) refl
  | inr (r, e) ↦ cc (rw (del_rs, e) at failed)
]

add_to-failed :
    (m : Manager) (i : ℕ) (s : DesiredService) (conf : RsConf) (error : CommandError)
    → (add_to m i s conf).0 ≡ some error
    → ((add_to m i s conf).1 ≡ none) × ((add_to m i s conf).2 ≡ m)
unfolding add_to
add_to-failed m i s conf error failed = elim (Bool-cases (leb max_rs_per_service (length s.rs))) [
  | inl h ↦ rw (add_to, h) (refl, refl)
  | inr h ↦ elim (Option-cases (same_address s.rs conf)) [
    | inr (r, q) ↦ rw (add_to, h, q) (refl, refl)
    | inl q ↦ elim (Bool-cases (leb max_rs_id m.next_rs_id)) [
      | inl k ↦ rw (add_to, h, q, k) (refl, refl)
      | inr k ↦ cc (rw (add_to, h, q, k) at failed)
    ]
  ]
]

add-failed :
    (m : Manager) (i : ℕ) (conf : RsConf) (error : CommandError)
    → (add_rs m i conf).0 ≡ some error
    → ((add_rs m i conf).1 ≡ none) × ((add_rs m i conf).2 ≡ m)
unfolding add_rs
add-failed m i conf error failed = elim (Option-cases (get_elem? m.services i)) [
  | inl e ↦ rw (add_rs, e) (refl, refl)
  | inr (s, e) ↦ rw (add_rs, e) (add_to-failed m i s conf error (rw (add_rs, e) at failed))
]

-- A command that returns an error has changed nothing: no real server, no id and no version. `add_rs`
-- then returns no id either.
pub exec-failed :
    (m : Manager) (c : Command) (error : CommandError)
    → (exec m c).0 ≡ some error
    → ((exec m c).1 ≡ m) × ((i : ℕ) (conf : RsConf) → c ≡ add i conf → (add_rs m i conf).1 ≡ none)
exec-failed m (weigh id weight) error failed =
    (weigh-failed m id weight error failed, λ i conf e. cc e)
exec-failed m (enable id b) error failed = (enable-failed m id b error failed, λ i conf e. cc e)
exec-failed m (health id b) error failed = cc failed
exec-failed m (add i conf) error failed =
    let (none_made, same) = add-failed m i conf error failed in (same, other)
  where
    index_eq : {j : ℕ} {conf' : RsConf} → add i conf ≡ add j conf' → i ≡ j
    index_eq e = cc e

    conf_eq : {j : ℕ} {conf' : RsConf} → add i conf ≡ add j conf' → conf ≡ conf'
    conf_eq e = cc e

    other : (j : ℕ) (conf' : RsConf) → add i conf ≡ add j conf' → (add_rs m j conf').1 ≡ none
    other j conf' e = rw (← (index_eq e), ← (conf_eq e)) (add-failed m i conf error failed).0
exec-failed m (delete id) error failed = (delete-failed m id error failed, λ i conf e. cc e)
