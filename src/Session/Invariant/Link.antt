-- ===== src/Session/Invariant/Link.antt =====
-- `wheel_link` and `pending_push` put a session in front of a chain.
use l4_loadbalancer.Base.{
  ℕ, ◌<◌, ◌≡◌, ◌≢◌, refl, sym, ◌∙◌, ap, false, ◌==◌, if◌then◌else◌, List, ◌∷◌, inl, inr, arith,
  ==-false, ==_iff, Bool-cases,
}
use l4_loadbalancer.Session.Chain.{first, Linked, NotIn, In, IsDistinct, NotIn-In}
use l4_loadbalancer.Session.Push.{Linked-other, Linked-push, first-out, head-apart}
use l4_loadbalancer.Session.Invariant.Apart.{slots_apart, slot_waiting}
use l4_loadbalancer.Session.Invariant.{IsWheel, IsApart, prev_of, next_of}
use l4_loadbalancer.Session.{Wheel, nil, slot_of, wheel_slots, update, wheel_link, link_tick}

module _ (w : Wheel) (idx tick : ℕ) where
  abbrev target : ℕ
  target = slot_of (link_tick w tick)

  link_prev_self : idx ≢ w.slots target → idx ≢ nil → prev_of (wheel_link w idx tick) idx ≡ nil
  unfolding wheel_link
  link_prev_self h z = ground arith

  link_prev :
      (j : ℕ)
      → j ≢ nil
      → j ≢ idx
      → prev_of (wheel_link w idx tick) j ≡ (if j == w.slots target then idx else prev_of w j)
  unfolding wheel_link
  link_prev j z d = ground arith

  link_next :
      (j : ℕ)
      → next_of (wheel_link w idx tick) j ≡ (if j == idx then w.slots target else next_of w j)
  unfolding wheel_link
  link_next j = ground arith

  link_home :
      (j : ℕ)
      → (((wheel_link w idx tick).sessions j).slot_tick
          ≡ (if j == idx then link_tick w tick else (w.sessions j).slot_tick))
        × (((wheel_link w idx tick).sessions j).in_pending
            ≡ (if j == idx then false else (w.sessions j).in_pending))
  unfolding wheel_link
  link_home j = ground arith

  link_slots : (s : ℕ) → (wheel_link w idx tick).slots s ≡ (if target == s then idx else w.slots s)
  unfolding wheel_link
  link_slots s = ground arith

  link_pending : (wheel_link w idx tick).pending ≡ w.pending
  unfolding wheel_link
  link_pending = ground arith

module _ (w : Wheel) (idx tick : ℕ) (chains : ℕ → List ℕ) (waiting : List ℕ)
    (v : IsWheel w chains waiting) (apart : IsApart idx chains waiting) where
  abbrev pub linked_chains : ℕ → List ℕ
  linked_chains = update chains (target w idx tick) (idx ∷ chains (target w idx tick))

  slot_lt : target w idx tick < wheel_slots
  slot_lt = omega arith

  head_lem : w.slots (target w idx tick) ≡ first (chains (target w idx tick))
  head_lem = v.slot_head (target w idx tick) slot_lt

  linked : Wheel
  linked = wheel_link w idx tick

  head : ℕ
  head = w.slots (target w idx tick)

  own_links : (prev_of linked idx ≡ nil) × (next_of linked idx ≡ head)
  unfolding linked head
  own_links = (
    link_prev_self w idx tick
        (rw head_lem
          (first-out idx (chains (target w idx tick)) apart.0 (apart.1 (target w idx tick))))
        apart.0,
    link_next w idx tick idx ∙ rw ((==_iff idx idx).1 refl),
  )

  next_kept : (j : ℕ) → j ≢ idx → next_of linked j ≡ next_of w j
  unfolding linked head
  next_kept j d = link_next w idx tick j ∙ rw (==-false j idx d)

  prev_kept :
      (j : ℕ) → j ≢ nil → j ≢ idx → prev_of linked j ≡ (if j == head then idx else prev_of w j)
  unfolding linked head
  prev_kept j z d = link_prev w idx tick j z d

  other_chain :
      (c : List ℕ)
      → IsDistinct c
      → NotIn idx c
      → ((j : ℕ) → In j (chains (target w idx tick)) → NotIn j c)
      → Linked (prev_of w) (next_of w) nil c
      → Linked (prev_of linked) (next_of linked) nil c
  unfolding head
  other_chain c d n h l =
      Linked-other (prev_of w) (next_of w) (prev_of linked) (next_of linked) idx head own_links
        prev_kept next_kept nil c d n (head-apart head (chains (target w idx tick)) c head_lem h) l

  own_chain : Linked (prev_of linked) (next_of linked) nil (idx ∷ chains (target w idx tick))
  unfolding head
  own_chain =
      Linked-push (prev_of w) (next_of w) (prev_of linked) (next_of linked) idx head own_links
        prev_kept next_kept (chains (target w idx tick)) (v.slot_distinct (target w idx tick))
        (apart.1 (target w idx tick)) head_lem (v.slot_linked (target w idx tick))

  home_kept :
      (j : ℕ)
      → idx ≢ j
      → ((linked.sessions j).slot_tick ≡ (w.sessions j).slot_tick)
        × ((linked.sessions j).in_pending ≡ (w.sessions j).in_pending)
  unfolding linked
  home_kept j d = (
    (link_home w idx tick j).0 ∙ rw (==-false j idx (λ e. d (sym e))),
    (link_home w idx tick j).1 ∙ rw (==-false j idx (λ e. d (sym e))),
  )

  home_self :
      (slot_of (linked.sessions idx).slot_tick ≡ target w idx tick)
      × ((linked.sessions idx).in_pending ≡ false)
  unfolding linked
  home_self = (
    ap slot_of ((link_home w idx tick idx).0 ∙ rw ((==_iff idx idx).1 refl)),
    (link_home w idx tick idx).1 ∙ rw ((==_iff idx idx).1 refl),
  )

  home_old :
      (s j : ℕ)
      → In j (chains s)
      → (slot_of (linked.sessions j).slot_tick ≡ s) × ((linked.sessions j).in_pending ≡ false)
  home_old s j m =
      let kept = home_kept j (NotIn-In idx j (chains s) (apart.1 s) m) in
      (ap slot_of kept.0 ∙ (v.slot_home s j m).0, kept.1 ∙ (v.slot_home s j m).1)

  home_own :
      (s j : ℕ)
      → target w idx tick ≡ s
      → In j (idx ∷ chains (target w idx tick))
      → (slot_of (linked.sessions j).slot_tick ≡ s) × ((linked.sessions j).in_pending ≡ false)
  home_own s j e (inl q) = rw q (home_self.0 ∙ e, home_self.1)
  home_own s j e (inr m) =
      ((home_old (target w idx tick) j m).0 ∙ e, (home_old (target w idx tick) j m).1)

  Linked-slot : (s : ℕ) → Linked (prev_of linked) (next_of linked) nil (linked_chains s)
  Linked-slot s = elim (Bool-cases (target w idx tick == s)) [
    | inl e ↦ rw e own_chain
    | inr e ↦ rw e (
        other_chain (chains s) (v.slot_distinct s) (apart.1 s)
          (λ j m.
            slots_apart w chains waiting v (target w idx tick) s j (λ q. cc ((==_iff _ _).1 q)) m)
          (v.slot_linked s))
  ]

  IsDistinct-slot : (s : ℕ) → IsDistinct (linked_chains s)
  IsDistinct-slot s = elim (Bool-cases (target w idx tick == s)) [
    | inl e ↦ rw e (apart.0, apart.1 (target w idx tick), v.slot_distinct (target w idx tick))
    | inr e ↦ rw e (v.slot_distinct s)
  ]

  home-slot :
      (s j : ℕ)
      → In j (linked_chains s)
      → (slot_of (linked.sessions j).slot_tick ≡ s) × ((linked.sessions j).in_pending ≡ false)
  home-slot s j m = elim (Bool-cases (target w idx tick == s)) [
    | inl e ↦ home_own s j ((==_iff _ _).0 e) (rw e at m)
    | inr e ↦ home_old s j (rw e at m)
  ]

  head-slot : (s : ℕ) → s < wheel_slots → linked.slots s ≡ first (linked_chains s)
  unfolding linked
  head-slot s h = link_slots w idx tick s ∙ elim (Bool-cases (target w idx tick == s)) [
    | inl e ↦ rw e refl
    | inr e ↦ rw e (v.slot_head s h)
  ]

  -- `wheel_link` puts a session that is on no list in front of the chain of the slot of its tick,
  -- and leaves every other chain and the pending list as they are.
  pub wheel_link-IsWheel : IsWheel (wheel_link w idx tick) linked_chains waiting
  unfolding linked
  wheel_link-IsWheel = record {
    slot_head = head-slot;
    slot_linked = Linked-slot;
    slot_distinct = IsDistinct-slot;
    slot_home = home-slot;
    pending_head = link_pending w idx tick ∙ v.pending_head;
    pending_linked =
        other_chain waiting v.pending_distinct apart.2
          (slot_waiting w chains waiting v (target w idx tick)) v.pending_linked;
    pending_distinct = v.pending_distinct;
    pending_home = λ j m. (home_kept j (NotIn-In idx j waiting apart.2 m)).1 ∙ v.pending_home j m;
  }
