-- ===== src/Session/Invariant/Pending.antt =====
-- `pending_push` puts a session in front of the pending list; `pending_pop` takes the first off.
use l4_loadbalancer.Base.{
  ℕ, ◌≡◌, ◌≢◌, refl, sym, ◌∙◌, ap, true, ◌==◌, if◌then◌else◌, List, ◌∷◌, inl, inr, arith, ==-false,
  ==_iff,
}
use l4_loadbalancer.Session.Chain.{In, NotIn-In}
use l4_loadbalancer.Session.Push.{Linked-other, Linked-push, first-out, head-apart}
use l4_loadbalancer.Session.Invariant.Apart.{waiting_slot}
use l4_loadbalancer.Session.Invariant.{IsWheel, IsApart, prev_of, next_of}
use l4_loadbalancer.Session.{Wheel, nil, slot_of, pending_push}

module _ (w : Wheel) (idx : ℕ) where
  push_prev_self : idx ≢ w.pending → prev_of (pending_push w idx) idx ≡ nil
  unfolding pending_push
  push_prev_self h = ground arith

  push_prev :
      (j : ℕ)
      → j ≢ nil
      → j ≢ idx
      → prev_of (pending_push w idx) j ≡ (if j == w.pending then idx else prev_of w j)
  unfolding pending_push
  push_prev j z d = ground arith

  pub push_next :
      (j : ℕ) → next_of (pending_push w idx) j ≡ (if j == idx then w.pending else next_of w j)
  unfolding pending_push
  push_next j = ground arith

  push_home :
      (j : ℕ)
      → (((pending_push w idx).sessions j).slot_tick ≡ (w.sessions j).slot_tick)
        × (((pending_push w idx).sessions j).in_pending
            ≡ (if j == idx then true else (w.sessions j).in_pending))
  unfolding pending_push
  push_home j = ground arith

  push_rest : ((pending_push w idx).slots ≡ w.slots) × ((pending_push w idx).pending ≡ idx)
  unfolding pending_push
  push_rest = ground arith

module _ (w : Wheel) (idx : ℕ) (chains : ℕ → List ℕ) (waiting : List ℕ)
    (v : IsWheel w chains waiting) (apart : IsApart idx chains waiting) where
  pushed : Wheel
  pushed = pending_push w idx

  own_links : (prev_of pushed idx ≡ nil) × (next_of pushed idx ≡ w.pending)
  unfolding pushed
  own_links = (
    push_prev_self w idx (rw v.pending_head (first-out idx waiting apart.0 apart.2)),
    push_next w idx idx ∙ rw ((==_iff idx idx).1 refl),
  )

  next_kept : (j : ℕ) → j ≢ idx → next_of pushed j ≡ next_of w j
  unfolding pushed
  next_kept j d = push_next w idx j ∙ rw (==-false j idx d)

  prev_kept :
      (j : ℕ) → j ≢ nil → j ≢ idx → prev_of pushed j ≡ (if j == w.pending then idx else prev_of w j)
  unfolding pushed
  prev_kept j z d = push_prev w idx j z d

  flag_kept : (j : ℕ) → idx ≢ j → (pushed.sessions j).in_pending ≡ (w.sessions j).in_pending
  unfolding pushed
  flag_kept j d = (push_home w idx j).1 ∙ rw (==-false j idx (λ e. d (sym e)))

  pending_own : (j : ℕ) → In j (idx ∷ waiting) → (pushed.sessions j).in_pending ≡ true
  unfolding pushed
  pending_own j (inl q) = (push_home w idx j).1 ∙ rw ((==_iff j idx).1 q)
  pending_own j (inr m) = flag_kept j (NotIn-In idx j waiting apart.2 m) ∙ v.pending_home j m

  -- A session that is on no list becomes the first pending one; the slots keep their chains.
  pub pending_push-IsWheel : IsWheel (pending_push w idx) chains (idx ∷ waiting)
  unfolding pushed
  pending_push-IsWheel = record {
    slot_head = λ s h. ap (λ (f : ℕ → ℕ). f s) (push_rest w idx).0 ∙ v.slot_head s h;
    slot_linked = λ s.
        Linked-other (prev_of w) (next_of w) (prev_of pushed) (next_of pushed) idx w.pending
          own_links prev_kept next_kept nil (chains s) (v.slot_distinct s) (apart.1 s)
          (head-apart w.pending waiting (chains s) v.pending_head
            (waiting_slot w chains waiting v s))
          (v.slot_linked s);
    slot_distinct = v.slot_distinct;
    slot_home = λ s j m. (
      ap slot_of (push_home w idx j).0 ∙ (v.slot_home s j m).0,
      flag_kept j (NotIn-In idx j (chains s) (apart.1 s) m) ∙ (v.slot_home s j m).1,
    );
    pending_head = (push_rest w idx).1;
    pending_linked =
        Linked-push (prev_of w) (next_of w) (prev_of pushed) (next_of pushed) idx w.pending
          own_links prev_kept next_kept waiting v.pending_distinct apart.2 v.pending_head
          v.pending_linked;
    pending_distinct = (apart.0, apart.2, v.pending_distinct);
    pending_home = pending_own;
  }
