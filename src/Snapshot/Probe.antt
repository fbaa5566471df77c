-- ===== src/Snapshot/Probe.antt =====
-- The probe loop of the lookup tables: where it ends, and what a write to a free slot changes.
use l4_loadbalancer.Base.{
  ℕ, zero, suc, ◌+◌, ◌%◌, ◌<◌, ◌≡◌, ◌≢◌, refl, sym, ◌∙◌, ap, Bool, true, false, arith, Bool-cases,
  inl, inr, ==_iff, ==-false, none, some,
}
use l4_loadbalancer.Snapshot.{probe, put_slot, addr_slots}
use native.Mathlib.Nat.{mod-lt}

pub put_self {ℓ} : {A : Type ℓ} (s : ℕ → A) (f : ℕ) (v : A) → put_slot s f v f ≡ v
put_self s f v = rw ((==_iff f f).1 refl) refl

pub put_other {ℓ} : {A : Type ℓ} (s : ℕ → A) (f j : ℕ) (v : A) → f ≢ j → put_slot s f v j ≡ s j
put_other s f j v h = rw (==-false f j h) refl

module _ {ℓ} {A : Type ℓ} (s : ℕ → A) (stop : A → Bool) where
  here : (fuel i : ℕ) → stop (s i) ≡ true → probe (suc fuel) s stop i ≡ some i
  unfolding probe
  here fuel i e = rw e refl

  later :
      (fuel i : ℕ)
      → stop (s i) ≡ false
      → probe (suc fuel) s stop i ≡ probe fuel s stop ((i + 1) % addr_slots)
  unfolding probe
  later fuel i e = rw e refl

  out : (i : ℕ) → probe 0 s stop i ≡ none
  unfolding probe
  out i = refl

pub some_inj : {a b : ℕ} → some a ≡ some b → a ≡ b
some_inj e = cc e

module _ {ℓ} {A : Type ℓ} (s : ℕ → A) (stop : A → Bool) where
  -- The loop ends where the test says so.
  pub probe-stop : (fuel i j : ℕ) → probe fuel s stop i ≡ some j → stop (s j) ≡ true
  probe-stop zero i j e = absurd (cc (out s stop i, e))
  probe-stop (suc fuel) i j e = elim (Bool-cases (stop (s i))) [
    | inl h ↦ rw (← (some_inj (sym (here s stop fuel i h) ∙ e))) h
    | inr h ↦ probe-stop fuel ((i + 1) % addr_slots) j (sym (later s stop fuel i h) ∙ e)
  ]

  pub probe-lt : (fuel i j : ℕ) → i < addr_slots → probe fuel s stop i ≡ some j → j < addr_slots
  probe-lt zero i j b e = absurd (cc (out s stop i, e))
  probe-lt (suc fuel) i j b e = elim (Bool-cases (stop (s i))) [
    | inl h ↦ rw (← (some_inj (sym (here s stop fuel i h) ∙ e))) b
    | inr h ↦
        probe-lt fuel ((i + 1) % addr_slots) j (mod-lt (i + 1) (omega arith))
          (sym (later s stop fuel i h) ∙ e)
  ]

  -- A slot that would end the loop, and does not, is not on its way.
  pub probe-put :
      (f : ℕ) (v : A)
      → stop (s f) ≡ true
      → (fuel i j : ℕ) → f ≢ j
      → probe fuel s stop i ≡ some j
      → probe fuel (put_slot s f v) stop i ≡ some j
  probe-put f v g zero i j other e = absurd (cc (out s stop i, e))
  probe-put f v g (suc fuel) i j other e = elim (Bool-cases (stop (s i))) [
    | inl h ↦
        let same = some_inj (sym (here s stop fuel i h) ∙ e) in
        here (put_slot s f v) stop fuel i (ap stop (put_other s f i v (λ q. other (q ∙ same))) ∙ h)
        ∙ ap some same
    | inr h ↦
        later (put_slot s f v) stop fuel i
          (ap stop (put_other s f i v (λ q. cc (ap s q, g, h))) ∙ h)
        ∙ probe-put f v g fuel ((i + 1) % addr_slots) j other (sym (later s stop fuel i h) ∙ e)
  ]

  -- The loop for a key that ends at a free slot ends where the loop for a free slot does.
  pub probe-free :
      (free : A → Bool)
      → ((x : A) → free x ≡ true → stop x ≡ true)
      → (fuel i j : ℕ) → probe fuel s stop i ≡ some j
      → free (s j) ≡ true
      → probe fuel s free i ≡ some j
  probe-free free wide zero i j e g = absurd (cc (out s stop i, e))
  probe-free free wide (suc fuel) i j e g = elim (Bool-cases (stop (s i))) [
    | inl h ↦
        let same = some_inj (sym (here s stop fuel i h) ∙ e) in
        here s free fuel i (rw same g) ∙ ap some same
    | inr h ↦ elim (Bool-cases (free (s i))) [
      | inl k ↦ absurd (cc (wide (s i) k, h))
      | inr k ↦
          later s free fuel i k
          ∙ probe-free free wide fuel ((i + 1) % addr_slots) j (sym (later s stop fuel i h) ∙ e) g
    ]
  ]

  -- What is written where the loop ended is found there.
  pub probe-new :
      (v : A)
      → stop v ≡ true
      → (fuel i j : ℕ) → probe fuel s stop i ≡ some j
      → probe fuel (put_slot s j v) stop i ≡ some j
  probe-new v g zero i j e = absurd (cc (out s stop i, e))
  probe-new v g (suc fuel) i j e = elim (Bool-cases (stop (s i))) [
    | inl h ↦
        let same = some_inj (sym (here s stop fuel i h) ∙ e) in
        rw same (here (put_slot s j v) stop fuel j (ap stop (put_self s j v) ∙ g))
    | inr h ↦
        later (put_slot s j v) stop fuel i
          (ap stop (put_other s j i v (λ q. cc (ap s q, probe-stop (suc fuel) i j e, h))) ∙ h)
        ∙ probe-new v g fuel ((i + 1) % addr_slots) j (sym (later s stop fuel i h) ∙ e)
  ]

  -- A slot within reach that ends the loop ends it.
  pub probe-total :
      (fuel i k : ℕ)
      → i < addr_slots
      → k < fuel
      → stop (s ((i + k) % addr_slots)) ≡ true
      → (j : ℕ) × (probe fuel s stop i ≡ some j)
  probe-total zero i k b h g = absurd (omega (arith, h))
  probe-total (suc fuel) i zero b h g = (i, here s stop fuel i (rw (small i b) at g))
    where
      small : (i : ℕ) → i < addr_slots → (i + 0) % addr_slots ≡ i
      small i b = omega (arith, b)
  probe-total (suc fuel) i (suc k) b h g = elim (Bool-cases (stop (s i))) [
    | inl e ↦ (i, here s stop fuel i e)
    | inr e ↦
        let (j, q) =
          probe-total fuel ((i + 1) % addr_slots) k (mod-lt (i + 1) (omega arith))
            (omega (arith, h)) (rw (step i k) at g) in
        (j, later s stop fuel i e ∙ q)
  ]
    where
      step : (i k : ℕ) → (i + suc k) % addr_slots ≡ ((i + 1) % addr_slots + k) % addr_slots
      step i k = omega arith
