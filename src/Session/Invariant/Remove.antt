-- ===== src/Session/Invariant/Remove.antt =====
-- `wheel_unlink` takes a session off the list that it is on.
use l4_loadbalancer.Base.{
  ℕ, ◌<◌, ◌≡◌, sym, ◌∙◌, ap, ◌==◌, if◌then◌else◌, List, ◌⊎◌, inl, inr, arith, ==_iff, Bool-cases,
}
use l4_loadbalancer.Session.Chain.{
  first, Linked, NotIn, In, IsDistinct, In-ne-nil, erase, IsDistinct-erase, next-In, prev-cases,
  first-erase, In-erase,
}
use l4_loadbalancer.Session.Unlink.{Linked-unlink, Linked-apart, UnlinkedPrev, UnlinkedNext}
use l4_loadbalancer.Session.Push.{NotIn-by}
use l4_loadbalancer.Session.Invariant.Apart.{slots_apart, slot_waiting, waiting_slot}
use l4_loadbalancer.Session.Invariant.{IsWheel, prev_of, next_of}
use l4_loadbalancer.Session.{Wheel, nil, slot_of, wheel_slots, update, wheel_unlink}

module _ (w : Wheel) (k : ℕ) where
  unlinked : Wheel
  unlinked = wheel_unlink w k

  prev_lem : UnlinkedPrev (prev_of w) (next_of w) (prev_of unlinked) k
  unfolding unlinked wheel_unlink
  prev_lem j z d = ground arith

  next_lem : UnlinkedNext (prev_of w) (next_of w) (next_of unlinked) k
  unfolding unlinked wheel_unlink
  next_lem j z d = ground arith

  home_lem :
      (j : ℕ)
      → ((unlinked.sessions j).slot_tick ≡ (w.sessions j).slot_tick)
        × ((unlinked.sessions j).in_pending ≡ (w.sessions j).in_pending)
  unfolding unlinked wheel_unlink
  home_lem j = ground arith

  pending_lem : unlinked.pending ≡ (
      if prev_of w k == nil
      then (if (w.sessions k).in_pending then next_of w k else w.pending)
      else w.pending)
  unfolding unlinked wheel_unlink
  pending_lem = ground arith

  slots_lem :
      (s : ℕ)
      → unlinked.slots s ≡ (
          if prev_of w k == nil
          then (if (w.sessions k).in_pending
              then w.slots s
              else (if slot_of (w.sessions k).slot_tick == s then next_of w k else w.slots s))
          else w.slots s)
  unfolding unlinked wheel_unlink
  slots_lem s = ground arith

  -- A list that has no entry of the list of `k`.
  other_list :
      (own c : List ℕ)
      → In k own
      → IsDistinct own
      → Linked (prev_of w) (next_of w) nil own
      → ((j : ℕ) → In j own → NotIn j c)
      → IsDistinct c
      → Linked (prev_of w) (next_of w) nil c
      → Linked (prev_of unlinked) (next_of unlinked) nil c
  other_list own c m d l h dc lc =
      Linked-apart (prev_of w) (next_of w) (prev_of unlinked) (next_of unlinked) k prev_lem next_lem
        nil c dc (h k m) next_apart prev_apart lc
    where
      next_apart : (next_of w k ≡ nil) ⊎ NotIn (next_of w k) c
      next_apart = elim (next-In (prev_of w) (next_of w) nil k own l m) [
        | inl e ↦ inl e
        | inr n ↦ inr (h (next_of w k) n)
      ]

      prev_apart : (prev_of w k ≡ nil) ⊎ NotIn (prev_of w k) c
      prev_apart = elim (prev-cases (prev_of w) (next_of w) k own l m) [
        | inl e ↦ inl e
        | inr n ↦ inr (h (prev_of w k) n)
      ]

  own_list :
      (own : List ℕ)
      → In k own
      → IsDistinct own
      → Linked (prev_of w) (next_of w) nil own
      → Linked (prev_of unlinked) (next_of unlinked) nil (erase k own)
  own_list own m d l =
      Linked-unlink (prev_of w) (next_of w) (prev_of unlinked) (next_of unlinked) k prev_lem
        next_lem nil own d (NotIn-by nil own (λ j n e. In-ne-nil j own d n (sym e))) m l

module _ (w : Wheel) (chains : ℕ → List ℕ) (waiting : List ℕ) (v : IsWheel w chains waiting)
    (k : ℕ) where
  -- A pending session goes off the pending list, and the slots keep theirs.
  pub wheel_unlink-pending : In k waiting → IsWheel (wheel_unlink w k) chains (erase k waiting)
  unfolding unlinked
  wheel_unlink-pending m = record {
    slot_head = λ s h. slots_lem w k s ∙ rw (v.pending_home k m) (ground arith) ∙ v.slot_head s h;
    slot_linked = λ s.
        other_list w k waiting (chains s) m v.pending_distinct v.pending_linked
          (λ j n. waiting_slot w chains waiting v s j n) (v.slot_distinct s) (v.slot_linked s);
    slot_distinct = v.slot_distinct;
    slot_home = λ s j n. (
      ap slot_of (home_lem w k j).0 ∙ (v.slot_home s j n).0,
      (home_lem w k j).1 ∙ (v.slot_home s j n).1,
    );
    pending_head =
        pending_lem w k
        ∙ rw (v.pending_home k m, v.pending_head)
            (sym (
              first-erase (prev_of w) (next_of w) k waiting v.pending_distinct v.pending_linked m));
    pending_linked = own_list w k waiting m v.pending_distinct v.pending_linked;
    pending_distinct = IsDistinct-erase k waiting v.pending_distinct;
    pending_home = λ j n. (home_lem w k j).1 ∙ v.pending_home j (In-erase j k waiting n);
  }

  abbrev pub unlinked_chains : ℕ → ℕ → List ℕ
  unlinked_chains t = update chains t (erase k (chains t))

  module _ (t : ℕ) (m : In k (chains t)) where
    Linked-slot :
        (s : ℕ)
        → Linked (prev_of (wheel_unlink w k)) (next_of (wheel_unlink w k)) nil (unlinked_chains t s)
    unfolding unlinked
    Linked-slot s = elim (Bool-cases (t == s)) [
      | inl e ↦ rw e (own_list w k (chains t) m (v.slot_distinct t) (v.slot_linked t))
      | inr e ↦ rw e (
          other_list w k (chains t) (chains s) m (v.slot_distinct t) (v.slot_linked t)
            (λ j n. slots_apart w chains waiting v t s j (λ q. cc ((==_iff _ _).1 q)) n)
            (v.slot_distinct s) (v.slot_linked s))
    ]

    In-chains : (s j : ℕ) → In j (unlinked_chains t s) → In j (chains s)
    In-chains s j n = elim (Bool-cases (t == s)) [
      | inl e ↦ rw (← ((==_iff t s).0 e)) (In-erase j k (chains t) (rw e at n))
      | inr e ↦ rw e at n
    ]

    head-slot : (s : ℕ) → s < wheel_slots → (wheel_unlink w k).slots s ≡ first (unlinked_chains t s)
    unfolding unlinked
    head-slot s h =
        slots_lem w k s
        ∙ rw ((v.slot_home t k m).1, (v.slot_home t k m).0, v.slot_head s h)
            (elim (Bool-cases (t == s)) [
              | inl e ↦ rw e (
                  rw (← ((==_iff t s).0 e)) (
                    sym (
                      first-erase (prev_of w) (next_of w) k (chains t) (v.slot_distinct t)
                        (v.slot_linked t) m)))
              | inr e ↦ rw e (ground arith)
            ])

    -- A session on a slot's chain goes off it, and every other list stays.
    pub wheel_unlink-slot : IsWheel (wheel_unlink w k) (unlinked_chains t) waiting
    unfolding unlinked
    wheel_unlink-slot = record {
      slot_head = head-slot;
      slot_linked = Linked-slot;
      slot_distinct = λ s. elim (Bool-cases (t == s)) [
        | inl e ↦ rw e (IsDistinct-erase k (chains t) (v.slot_distinct t))
        | inr e ↦ rw e (v.slot_distinct s)
      ];
      slot_home = λ s j n. (
        ap slot_of (home_lem w k j).0 ∙ (v.slot_home s j (In-chains s j n)).0,
        (home_lem w k j).1 ∙ (v.slot_home s j (In-chains s j n)).1,
      );
      pending_head = pending_lem w k ∙ rw ((v.slot_home t k m).1) (ground arith) ∙ v.pending_head;
      pending_linked =
          other_list w k (chains t) waiting m (v.slot_distinct t) (v.slot_linked t)
            (slot_waiting w chains waiting v t) v.pending_distinct v.pending_linked;
      pending_distinct = v.pending_distinct;
      pending_home = λ j n. (home_lem w k j).1 ∙ v.pending_home j n;
    }
