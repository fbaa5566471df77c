-- ===== src/Session/Invariant/Drain.antt =====
-- `take_slot` moves the whole chain of the current slot to the pending list.
use l4_loadbalancer.Base.{
  ℕ, zero, suc, ◌≤◌, ◌≡◌, ◌≢◌, refl, sym, ◌∙◌, ◌==◌, List, [], ◌∷◌, inl, inr, arith, ==-false,
  ==_iff, Bool-cases, length,
}
use l4_loadbalancer.Session.Chain.{first, Linked, NotIn, In, IsDistinct, In-ne-nil}
use l4_loadbalancer.Session.Invariant.Agree.{IsWheel-agree}
use l4_loadbalancer.Session.Invariant.Apart.{slots_apart, slot_waiting}
use l4_loadbalancer.Session.Invariant.Pending.{pending_push-IsWheel, push_next}
use l4_loadbalancer.Session.Invariant.{IsWheel, IsApart, prev_of, next_of}
use l4_loadbalancer.Session.Table.{drain_slot, take_slot}
use l4_loadbalancer.Session.{Wheel, nil, slot_of, update, pending_push}

-- Only the forward links of the chain that is being moved are still read.
abbrev Forward : (ℕ → ℕ) → List ℕ → Type 0
Forward next [] = Unit {0}
Forward next (i ∷ c) = (next i ≡ first c) × Forward next c

Forward-of : (prev next : ℕ → ℕ) (p : ℕ) (c : List ℕ) → Linked prev next p c → Forward next c
Forward-of prev next p [] l = tt
Forward-of prev next p (i ∷ c) l = (l.1, Forward-of prev next i c l.2)

Forward-kept :
    (next next' : ℕ → ℕ) (k : ℕ) (c : List ℕ)
    → ((j : ℕ) → j ≢ k → next' j ≡ next j)
    → NotIn k c
    → Forward next c
    → Forward next' c
Forward-kept next next' k [] h n f = tt
Forward-kept next next' k (i ∷ c) h n f =
    (h i (λ e. n.0 (sym e)) ∙ f.0, Forward-kept next next' k c h n.1 f.1)

-- Entries that are on no list.
abbrev AllApart : (ℕ → List ℕ) → List ℕ → List ℕ → Type 0
AllApart chains waiting [] = Unit {0}
AllApart chains waiting (i ∷ c) = IsApart i chains waiting × AllApart chains waiting c

AllApart-push :
    (chains : ℕ → List ℕ) (waiting : List ℕ) (k : ℕ) (c : List ℕ)
    → NotIn k c
    → AllApart chains waiting c
    → AllApart chains (k ∷ waiting) c
AllApart-push chains waiting k [] n a = tt
AllApart-push chains waiting k (i ∷ c) n a =
    ((a.0.0, a.0.1, ((λ e. n.0 (sym e)), a.0.2)), AllApart-push chains waiting k c n.1 a.1)

-- The moved entries stand in front, the last moved one first.
abbrev pub moved : List ℕ → List ℕ → List ℕ
moved [] waiting = waiting
moved (i ∷ c) waiting = moved c (i ∷ waiting)

drain_slot-IsWheel :
    (fuel : ℕ) (w : Wheel) (chains : ℕ → List ℕ) (waiting c : List ℕ)
    → IsWheel w chains waiting
    → Forward (next_of w) c
    → IsDistinct c
    → AllApart chains waiting c
    → length c ≤ fuel
    → IsWheel (drain_slot fuel w (first c)) chains (moved c waiting)
unfolding drain_slot
drain_slot-IsWheel zero w chains waiting [] v f d a h = v
drain_slot-IsWheel zero w chains waiting (i ∷ c) v f d a h = absurd (omega arith)
drain_slot-IsWheel (suc fuel) w chains waiting [] v f d a h = v
drain_slot-IsWheel (suc fuel) w chains waiting (i ∷ c) v f d a h =
    rw (==-false i nil d.0, f.0)
      (drain_slot-IsWheel fuel (pending_push w i) chains (i ∷ waiting) c
        (pending_push-IsWheel w i chains waiting v a.0)
        (Forward-kept (next_of w) (next_of (pending_push w i)) i c
          (λ j n. push_next w i j ∙ rw (==-false j i n)) d.1 f.1)
        d.2 (AllApart-push chains waiting i c d.1 a.1) (omega arith))

module _ (w : Wheel) (chains : ℕ → List ℕ) (waiting : List ℕ) (v : IsWheel w chains waiting) where
  abbrev pub cleared : ℕ → ℕ → List ℕ
  cleared s = update chains s []

  abbrev clear_slot : ℕ → Wheel
  clear_slot s = record w { slots = update w.slots s nil }

  -- A slot whose head is overwritten with `kNil` has no chain any more.
  pub clear_slot-IsWheel : (s : ℕ) → IsWheel (clear_slot s) (cleared s) waiting
  clear_slot-IsWheel s = record {
    slot_head =
        λ t h. elim (Bool-cases (s == t)) [ inl e ↦ rw e refl | inr e ↦ rw e (v.slot_head t h) ];
    slot_linked =
        λ t. elim (Bool-cases (s == t)) [ inl e ↦ rw e tt | inr e ↦ rw e (v.slot_linked t) ];
    slot_distinct =
        λ t. elim (Bool-cases (s == t)) [ inl e ↦ rw e tt | inr e ↦ rw e (v.slot_distinct t) ];
    slot_home = λ t j m. v.slot_home t j (In-cleared t j m);
    pending_head = v.pending_head;
    pending_linked = v.pending_linked;
    pending_distinct = v.pending_distinct;
    pending_home = v.pending_home;
  }
    where
      In-cleared : (t j : ℕ) → In j (cleared s t) → In j (chains t)
      In-cleared t j m = elim (Bool-cases (s == t)) [
        | inl e ↦ absurd (rw e at m)
        | inr e ↦ rw e at m
      ]

  IsApart-cleared : (s j : ℕ) → In j (chains s) → IsApart j (cleared s) waiting
  IsApart-cleared s j m = (
    In-ne-nil j (chains s) (v.slot_distinct s) m,
    λ t. elim (Bool-cases (s == t)) [
      | inl e ↦ rw e tt
      | inr e ↦ rw e (slots_apart w chains waiting v s t j (λ q. cc ((==_iff s t).1 q)) m)
    ],
    slot_waiting w chains waiting v s j m,
  )

  all_apart :
      (s : ℕ) (c : List ℕ) → ((j : ℕ) → In j c → In j (chains s)) → AllApart (cleared s) waiting c
  all_apart s [] h = tt
  all_apart s (i ∷ c) h = (IsApart-cleared s i (h i (inl refl)), all_apart s c (λ j m. h j (inr m)))

  -- With fuel for the length of its chain, the current slot is emptied, and all that hung on it is
  -- pending.
  pub take_slot-IsWheel :
      (fuel : ℕ)
      → length (chains (slot_of w.cur_tick)) ≤ fuel
      → IsWheel
          (take_slot fuel w)
          (cleared (slot_of w.cur_tick))
          (moved (chains (slot_of w.cur_tick)) waiting)
  unfolding take_slot
  take_slot-IsWheel fuel h =
      IsWheel-agree drained (cleared (slot_of w.cur_tick))
        (moved (chains (slot_of w.cur_tick)) waiting) drained-IsWheel (take_slot fuel w) refl refl
        λ j m. record { same_prev = refl; same_next = refl; same_tick = refl; same_pending = refl }
    where
      drained : Wheel
      drained = drain_slot fuel (clear_slot (slot_of w.cur_tick)) (w.slots (slot_of w.cur_tick))

      drained-IsWheel :
          IsWheel drained
            (cleared (slot_of w.cur_tick))
            (moved (chains (slot_of w.cur_tick)) waiting)
      drained-IsWheel = rw (v.slot_head (slot_of w.cur_tick) (omega arith)) (
          drain_slot-IsWheel fuel (clear_slot (slot_of w.cur_tick)) (cleared (slot_of w.cur_tick))
            waiting (chains (slot_of w.cur_tick)) (clear_slot-IsWheel (slot_of w.cur_tick))
            (Forward-of (prev_of w) (next_of w) nil (chains (slot_of w.cur_tick))
              (v.slot_linked (slot_of w.cur_tick)))
            (v.slot_distinct (slot_of w.cur_tick))
            (all_apart (slot_of w.cur_tick) (chains (slot_of w.cur_tick)) (λ j m. m)) h)
