-- ===== src/Session/Table/Index.antt =====
-- The keys of a session in the index: what `create` and `remove` do to `lookup`.
use l4_loadbalancer.Base.{
  ℕ, ◌≡◌, ◌≢◌, refl, sym, ◌∙◌, Bool, true, false, Option, none, some, List, [], ◌∷◌, ◌⊎◌, inl, inr,
  if◌then◌else◌, Option-cases,
}
use l4_loadbalancer.Base.Bits.{has}
use l4_loadbalancer.Rte.{RteHash, RteHashLaws}
use l4_loadbalancer.Session.{Session, sf_fullnat}
use l4_loadbalancer.Session.Table.{Table, lookup, add_keys, create, create_from, create_at, remove}
use l4_loadbalancer.Types.Laws.{tuple-cases}
use l4_loadbalancer.Types.{FiveTuple}

module _ (ops : RteHash FiveTuple) (laws : RteHashLaws ops) where
  -- The keys that belong to the session: its client tuple, and its server tuple under FULLNAT.
  abbrev pub IsKey : FiveTuple → Option FiveTuple → FiveTuple → Type 0
  IsKey client none key = client ≡ key
  IsKey client (some server) key = (client ≡ key) ⊎ (server ≡ key)

  -- After a successful insertion every key of the session finds it, and no other key's answer
  -- changes; after a failed one no answer changes.
  abbrev pub AddResult : ops.Handle → FiveTuple → Option FiveTuple → ℕ → Bool × ops.Handle → Type 0
  AddResult h client server idx (true, h') =
      ((key : FiveTuple) → IsKey client server key → ops.lookup h' key ≡ some idx)
      × ((key : FiveTuple) → ¬ IsKey client server key → ops.lookup h' key ≡ ops.lookup h key)
  AddResult h client server idx (false, h') =
      (key : FiveTuple) → ops.lookup h' key ≡ ops.lookup h key

  undo_lem :
      (h h' : ops.Handle) (client key : FiveTuple) (idx : ℕ)
      → ops.add h client idx ≡ some h'
      → ops.lookup h client ≡ none
      → ops.lookup (ops.del h' client) key ≡ ops.lookup h key
  undo_lem h h' client key idx e free = elim (tuple-cases client key) [
    | inl (same, _) ↦ rw (← same, laws.lookup-del_self h' client) (sym free)
    | inr (other, _) ↦
        laws.lookup-del_ne h' client key other ∙ laws.lookup-add_ne h h' client key idx e other
  ]

  second_key :
      (h h' h'' : ops.Handle) (client server key : FiveTuple) (idx : ℕ)
      → ops.add h client idx ≡ some h'
      → ops.add h' server idx ≡ some h''
      → IsKey client (some server) key
      → ops.lookup h'' key ≡ some idx
  second_key h h' h'' client server key idx e f m = elim (tuple-cases server key) [
    | inl (same, _) ↦ rw (← same) (laws.lookup-add_self h' h'' server idx f)
    | inr (other, _) ↦ laws.lookup-add_ne h' h'' server key idx f other ∙ first_key m other
  ]
    where
      first_key : IsKey client (some server) key → server ≢ key → ops.lookup h' key ≡ some idx
      first_key (inl same) other = rw (← same) (laws.lookup-add_self h h' client idx e)
      first_key (inr same) other = absurd (other same)

  add_keys_lem :
      (h : ops.Handle) (client : FiveTuple) (server : Option FiveTuple) (idx : ℕ)
      → ops.lookup h client ≡ none
      → AddResult h client server idx (add_keys ops h client server idx)
  unfolding add_keys
  add_keys_lem h client none idx free = elim (Option-cases (ops.add h client idx)) [
    | inl e ↦ rw (e, add_keys) (λ key. refl)
    | inr (h', e) ↦
        rw (e, add_keys)
          (
            λ key same. rw (← same) (laws.lookup-add_self h h' client idx e),
            λ key other. laws.lookup-add_ne h h' client key idx e other,
          )
  ]
  add_keys_lem h client (some server) idx free = elim (Option-cases (ops.add h client idx)) [
    | inl e ↦ rw (e, add_keys) (λ key. refl)
    | inr (h', e) ↦ elim (Option-cases (ops.add h' server idx)) [
      | inl f ↦ rw (e, add_keys, f, add_keys) (λ key. undo_lem h h' client key idx e free)
      | inr (h'', f) ↦
          rw (e, add_keys, f, add_keys)
            (
              λ key m. second_key h h' h'' client server key idx e f m,
              λ key other.
                  laws.lookup-add_ne h' h'' server key idx f (λ q. other (inr q))
                  ∙ laws.lookup-add_ne h h' client key idx e (λ q. other (inl q)),
            )
    ]
  ]

  -- What `create` promises of the index and of the free stack.
  abbrev pub Created :
      Table ops → FiveTuple → Option FiveTuple → List ℕ → Option ℕ × Table ops → Type 0
  Created t client server free (none, t') =
      ((key : FiveTuple) → lookup ops t' key ≡ lookup ops t key)
      × (t'.wheel ≡ t.wheel)
      × (t'.free ≡ t.free)
  Created t client server free (some idx, t') =
      ((key : FiveTuple) → IsKey client server key → lookup ops t' key ≡ some idx)
      × ((key : FiveTuple) → ¬ IsKey client server key → lookup ops t' key ≡ lookup ops t key)
      × (free ≡ idx ∷ t'.free)

  create_at-Created :
      (t : Table ops) (client : FiveTuple) (server : Option FiveTuple) (now timeout idx : ℕ)
      (rest : List ℕ) (r : Bool × ops.Handle)
      → AddResult t.hash client server idx r
      → Created t client server (idx ∷ rest) (create_at ops t client server now timeout idx rest r)
  unfolding create_at lookup
  create_at-Created t client server now timeout idx rest (false, h) a = (a, refl, refl)
  create_at-Created t client server now timeout idx rest (true, h) a = (a.0, a.1, refl)

  create_from-Created :
      (t : Table ops) (client : FiveTuple) (server : Option FiveTuple) (now timeout : ℕ)
      (free : List ℕ)
      → lookup ops t client ≡ none
      → Created t client server free (create_from ops t client server now timeout free)
  unfolding create_from lookup
  create_from-Created t client server now timeout [] f = (λ key. refl, refl, refl)
  create_from-Created t client server now timeout (idx ∷ rest) f =
      create_at-Created t client server now timeout idx rest (add_keys ops t.hash client server idx)
        (add_keys_lem t.hash client server idx f)

  -- For a client that has no session: if `create` returns a session, both its keys find it, every
  -- other key is answered as before, and its index was taken from the top of the free stack; if it
  -- returns none, no key is answered otherwise, and the wheel and the free stack are as before.
  pub create-Created :
      (t : Table ops) (client : FiveTuple) (server : Option FiveTuple) (now timeout : ℕ)
      → lookup ops t client ≡ none
      → Created t client server t.free (create ops t client server now timeout)
  unfolding create
  create-Created t client server now timeout f =
      create_from-Created t client server now timeout t.free f

  -- The tuples under which a session in use was inserted.
  abbrev pub server_key : Session → Option FiveTuple
  server_key s = if has s.flags sf_fullnat then some s.server else none

  remove_server :
      (h : ops.Handle) (s : Session) (fullnat : Bool) (key : FiveTuple)
      → (¬ IsKey s.client (if fullnat then some s.server else none) key
          → ops.lookup
              (if fullnat then ops.del (ops.del h s.client) s.server else ops.del h s.client)
              key
            ≡ ops.lookup h key)
        × (IsKey s.client (if fullnat then some s.server else none) key
            → ops.lookup
                (if fullnat then ops.del (ops.del h s.client) s.server else ops.del h s.client)
                key
              ≡ none)
  remove_server h s false key = (
    λ other. laws.lookup-del_ne h s.client key other,
    λ same. rw (← same) (laws.lookup-del_self h s.client),
  )
  remove_server h s true key = (
    λ other.
        laws.lookup-del_ne (ops.del h s.client) s.server key (λ q. other (inr q))
        ∙ laws.lookup-del_ne h s.client key (λ q. other (inl q)),
    λ m. elim (tuple-cases s.server key) [
      | inl (same, _) ↦ rw (← same) (laws.lookup-del_self (ops.del h s.client) s.server)
      | inr (other, _) ↦ laws.lookup-del_ne (ops.del h s.client) s.server key other ∙ gone m other
    ],
  )
    where
      gone :
          IsKey s.client (some s.server) key
          → s.server ≢ key
          → ops.lookup (ops.del h s.client) key ≡ none
      gone (inl same) other = rw (← same) (laws.lookup-del_self h s.client)
      gone (inr same) other = absurd (other same)

  -- `remove` makes both keys of the session unknown, and leaves the answer for every other key.
  pub lookup-remove :
      (t : Table ops) (idx : ℕ) (key : FiveTuple)
      → (¬ IsKey (t.wheel.sessions idx).client (server_key (t.wheel.sessions idx)) key
          → lookup ops (remove ops t idx) key ≡ lookup ops t key)
        × (IsKey (t.wheel.sessions idx).client (server_key (t.wheel.sessions idx)) key
            → lookup ops (remove ops t idx) key ≡ none)
  unfolding remove lookup
  lookup-remove t idx key =
      remove_server t.hash (t.wheel.sessions idx) (has (t.wheel.sessions idx).flags sf_fullnat) key
