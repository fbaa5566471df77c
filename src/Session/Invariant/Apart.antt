-- ===== src/Session/Invariant/Apart.antt =====
-- The lists of the wheel have no entry in common, since each session says where it hangs.
use l4_loadbalancer.Base.{ℕ, ◌≢◌, sym, ◌∙◌, ap, List}
use l4_loadbalancer.Session.Chain.{In, NotIn, NotIn-In}
use l4_loadbalancer.Session.Push.{NotIn-by}
use l4_loadbalancer.Session.Invariant.{IsWheel}
use l4_loadbalancer.Session.{Wheel, slot_of}

module _ (w : Wheel) (chains : ℕ → List ℕ) (waiting : List ℕ) (v : IsWheel w chains waiting) where
  -- Two lists of the wheel have no entry in common.
  pub slots_apart : (s t j : ℕ) → s ≢ t → In j (chains s) → NotIn j (chains t)
  slots_apart s t j d m = NotIn-by j (chains t) λ i n e. d (
      sym ((v.slot_home s j m).0)
      ∙ (ap (λ (x : ℕ). slot_of (w.sessions x).slot_tick) e ∙ (v.slot_home t i n).0))

  pub slot_waiting : (s j : ℕ) → In j (chains s) → NotIn j waiting
  slot_waiting s j m = NotIn-by j waiting λ i n e.
      cc ((v.slot_home s j m).1, v.pending_home i n, ap (λ (x : ℕ). (w.sessions x).in_pending) e)

  pub waiting_slot : (s j : ℕ) → In j waiting → NotIn j (chains s)
  waiting_slot s j m =
      NotIn-by j (chains s) λ i n e. NotIn-In i j waiting (slot_waiting s i n) m (sym e)
