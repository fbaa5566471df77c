-- ===== src/Session/Invariant.antt =====
-- The invariant of the timing wheel: the arrays spell out one chain for each slot and one of the
-- pending sessions.
pub mod Apart
pub mod Drain
pub mod Settle
pub mod Agree
pub mod Link
pub mod Remove
pub mod Pending
use l4_loadbalancer.Base.{ℕ, ◌<◌, ◌≡◌, Bool, true, false, List, ◌≢◌}
use l4_loadbalancer.Session.{Wheel, nil, slot_of, wheel_slots}
use l4_loadbalancer.Session.Chain.{first, Linked, In, IsDistinct, NotIn}

abbrev pub prev_of : Wheel → ℕ → ℕ
prev_of w j = (w.sessions j).wheel_prev

abbrev pub next_of : Wheel → ℕ → ℕ
next_of w j = (w.sessions j).wheel_next

-- `chains s` is what hangs on slot `s`, `waiting` what hangs on `pending_`. A session says itself
-- on which list it is.
pub record IsWheel (w : Wheel) (chains : ℕ → List ℕ) (waiting : List ℕ) : Type 0 where
  pub slot_head : (s : ℕ) → s < wheel_slots → w.slots s ≡ first (chains s)
  pub slot_linked : (s : ℕ) → Linked (prev_of w) (next_of w) nil (chains s)
  pub slot_distinct : (s : ℕ) → IsDistinct (chains s)
  pub slot_home :
      (s j : ℕ)
      → In j (chains s)
      → (slot_of (w.sessions j).slot_tick ≡ s) × ((w.sessions j).in_pending ≡ false)
  pub pending_head : w.pending ≡ first waiting
  pub pending_linked : Linked (prev_of w) (next_of w) nil waiting
  pub pending_distinct : IsDistinct waiting
  pub pending_home : (j : ℕ) → In j waiting → (w.sessions j).in_pending ≡ true

-- On no list at all.
abbrev pub IsApart : ℕ → (ℕ → List ℕ) → List ℕ → Type 0
IsApart k chains waiting = (k ≢ nil) × ((s : ℕ) → NotIn k (chains s)) × NotIn k waiting
