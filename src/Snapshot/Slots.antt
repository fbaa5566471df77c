-- ===== src/Snapshot/Slots.antt =====
-- Open addressing over 512 slots, for any kind of key: the table answers every key as a search through
-- the list of what was put in does.
use l4_loadbalancer.Base.{
  ℕ, zero, suc, ◌+◌, ◌-◌, ◌%◌, ◌≤◌, ◌<◌, ◌≡◌, ◌≢◌, refl, sym, ◌∙◌, ap, Bool, true, false, arith,
  Bool-cases, Option-cases, inl, inr, ◌⊎◌, Option, none, some, List, [], ◌∷◌, ◌++◌, length,
  length-append, if◌then◌else◌, ℕ_discrete,
}
use l4_loadbalancer.Snapshot.Probe.{
  probe-stop, probe-put, probe-free, probe-new, probe-total, put_self, put_other, some_inj,
}
use l4_loadbalancer.Snapshot.{probe, put_slot, addr_slots}

module _ {A : Type 0} (free : A → Bool) where
  -- Free slots below a bound.
  abbrev pub count_free : ℕ → (ℕ → A) → ℕ
  count_free zero s = 0
  count_free (suc n) s = let rest = count_free n s in if free (s n) then suc rest else rest

  count-above :
      (n : ℕ) (s : ℕ → A) (f : ℕ) (v : A) → n ≤ f → count_free n (put_slot s f v) ≡ count_free n s
  count-above zero s f v h = refl
  count-above (suc n) s f v h =
      rw (count-above n s f v (omega (arith, h)), put_other s f n v (omega (arith, h))) refl

  step_le :
      (b c : Bool) (x y : ℕ)
      → x ≤ y + 1
      → (b ≡ c)
      → (if b then suc x else x) ≤ (if c then suc y else y) + 1
  step_le true true x y h e = omega (arith, h)
  step_le false false x y h e = h
  step_le true false x y h e = cc e
  step_le false true x y h e = cc e

  step_any : (b c : Bool) (x : ℕ) → (if b then suc x else x) ≤ (if c then suc x else x) + 1
  step_any true true x = omega arith
  step_any false false x = omega arith
  step_any true false x = omega arith
  step_any false true x = omega arith

  -- A write takes one free slot at most.
  count-put :
      (n : ℕ) (s : ℕ → A) (f : ℕ) (v : A) → count_free n s ≤ count_free n (put_slot s f v) + 1
  count-put zero s f v = omega arith
  count-put (suc n) s f v = elim (ℕ_discrete f n) [
    | yes e ↦
        rw (count-above n s f v (omega (arith, e)))
          (step_any (free (s n)) (free (put_slot s f v n)) (count_free n s))
    | no h ↦
        step_le (free (s n)) (free (put_slot s f v n)) (count_free n s)
          (count_free n (put_slot s f v)) (count-put n s f v) (ap free (sym (put_other s f n v h)))
  ]

  count-some : (n : ℕ) (s : ℕ → A) → 0 < count_free n s → (z : ℕ) × (z < n) × (free (s z) ≡ true)
  count-some zero s h = absurd (omega (arith, h))
  count-some (suc n) s h = elim (Bool-cases (free (s n))) [
    | inl e ↦ (n, omega arith, e)
    | inr e ↦ let (z, b, g) = count-some n s (rw e at h) in (z, omega (arith, b), g)
  ]

  pub count-all : (n : ℕ) (v : A) → free v ≡ true → count_free n (λ i. v) ≡ n
  count-all zero v e = refl
  count-all (suc n) v e = rw (e, count-all n v e) refl

module _ {A K : Type 0} (free : A → Bool) (Valid : K → Type 0) (matches stop : K → A → Bool)
    (home : K → ℕ) (home_lt : (k : K) → home k < addr_slots)
    (apart : (k : K) (a : A) → Valid k → free a ≡ true → matches k a ≡ false)
    (stop_free : (k : K) (a : A) → free a ≡ true → stop k a ≡ true)
    (stop_match : (k : K) (a : A) → matches k a ≡ true → stop k a ≡ true)
    (stop_either : (k : K) (a : A) → stop k a ≡ true → (matches k a ≡ true) ⊎ (free a ≡ true)) where
  abbrev pub find_in : K → List A → Option A
  find_in k [] = none
  find_in k (a ∷ rest) = let later = find_in k rest in if matches k a then some a else later

  abbrev pub Verdict : Option A → A → Type 0
  Verdict none a = free a ≡ true
  Verdict (some b) a = a ≡ b

  -- The loop for a key ends at its entry, or at a free slot where there is none.
  abbrev pub Answer : (ℕ → A) → List A → K → Type 0
  Answer s content k =
      (j : ℕ) × (probe addr_slots s (stop k) (home k) ≡ some j) × Verdict (find_in k content) (s j)

  pub record Holds (s : ℕ → A) (content : List A) : Type 0 where
    pub answer : (k : K) → Valid k → Answer s content k
    pub absent : (k : K) → Valid k → find_in k content ≡ none → (j : ℕ) → matches k (s j) ≡ false
    pub room : addr_slots ≤ length content + count_free free addr_slots s

  find-matches : (k : K) (rest : List A) (a : A) → find_in k rest ≡ some a → matches k a ≡ true
  find-matches k [] a e = cc e
  find-matches k (b ∷ rest) a e = elim (Bool-cases (matches k b)) [
    | inl h ↦ cc (rw h at e, h)
    | inr h ↦ find-matches k rest a (rw h at e)
  ]

  find-last_other :
      (k : K) (rest : List A) (v : A)
      → matches k v ≡ false
      → find_in k (rest ++ (v ∷ [])) ≡ find_in k rest
  find-last_other k [] v h = rw h refl
  find-last_other k (a ∷ rest) v h = rw (find-last_other k rest v h) refl

  find-last_none :
      (k : K) (rest : List A) (v : A)
      → matches k v ≡ true
      → find_in k rest ≡ none
      → find_in k (rest ++ (v ∷ [])) ≡ some v
  find-last_none k [] v h e = rw h refl
  find-last_none k (a ∷ rest) v h e = elim (Bool-cases (matches k a)) [
    | inl g ↦ cc (rw g at e)
    | inr g ↦ rw g (find-last_none k rest v h (rw g at e))
  ]

  find-last_some :
      (k : K) (rest : List A) (v b : A)
      → find_in k rest ≡ some b
      → find_in k (rest ++ (v ∷ [])) ≡ some b
  find-last_some k [] v b e = cc e
  find-last_some k (a ∷ rest) v b e = elim (Bool-cases (matches k a)) [
    | inl g ↦ rw g (rw g at e)
    | inr g ↦ rw g (find-last_some k rest v b (rw g at e))
  ]

  -- Where no slot has the key and one is free, the loop ends at a free one.
  pub absent-Answer :
      (s : ℕ → A) (k : K)
      → ((j : ℕ) → matches k (s j) ≡ false)
      → 0 < count_free free addr_slots s
      → (j : ℕ) × (probe addr_slots s (stop k) (home k) ≡ some j) × (free (s j) ≡ true)
  absent-Answer s k none_of c =
      let (z, b, g) = count-some free addr_slots s c in
      let (j, e) =
        probe-total s (stop k) addr_slots (home k) ((z + addr_slots - home k) % addr_slots)
          (home_lt k) (omega arith) (rw (reach z (home k) b (home_lt k)) (stop_free k (s z) g)) in
      (
        j,
        e,
        free_of (s j) (none_of j)
            (stop_either k (s j) (probe-stop s (stop k) addr_slots (home k) j e)),
      )
    where
      reach :
          (z h : ℕ)
          → z < addr_slots
          → h < addr_slots
          → (h + (z + addr_slots - h) % addr_slots) % addr_slots ≡ z
      reach z h b c = omega arith

      free_of :
          (a : A) → matches k a ≡ false → (matches k a ≡ true) ⊎ (free a ≡ true) → free a ≡ true
      free_of a h (inl g) = cc (h, g)
      free_of a h (inr g) = g

  module _ (s : ℕ → A) (content : List A) (v : A) (k0 : K) (f : ℕ) (holds : Holds s content)
      (valid0 : Valid k0) (own : matches k0 v ≡ true) (used : free v ≡ false)
      (only : (k : K) → matches k v ≡ true → k ≡ k0) (few : length content + 1 < addr_slots)
      (found : probe addr_slots s free (home k0) ≡ some f) where
    s' : ℕ → A
    s' = put_slot s f v

    f_free : free (s f) ≡ true
    f_free = probe-stop s free addr_slots (home k0) f found

    room' : addr_slots ≤ length (content ++ (v ∷ [])) + count_free free addr_slots s'
    unfolding s'
    room' =
        omega (arith, holds.room, count-put free addr_slots s f v, length-append content (v ∷ []))

    open_left : 0 < count_free free addr_slots s'
    unfolding s'
    open_left = omega (arith, holds.room, count-put free addr_slots s f v, few)

    absent' :
        (k : K)
        → Valid k
        → matches k v ≡ false
        → find_in k content ≡ none
        → (j : ℕ) → matches k (s' j) ≡ false
    unfolding s'
    absent' k valid other e j = elim (ℕ_discrete f j) [
      | yes q ↦ rw (← q, put_self s f v) other
      | no q ↦ rw (put_other s f j v q) (holds.absent k valid e j)
    ]

    entry_apart : (k : K) (j : ℕ) (b : A) → Valid k → find_in k content ≡ some b → s j ≡ b → f ≢ j
    entry_apart k j b valid e same h =
        cc (apart k (s f) valid f_free, find-matches k content b e, ap (matches k) (ap s h ∙ same))

    -- An entry stays where it is.
    stays :
        (k : K) (j : ℕ) (b : A)
        → Valid k
        → find_in k content ≡ some b
        → probe addr_slots s (stop k) (home k) ≡ some j
        → s j ≡ b
        → (probe addr_slots s' (stop k) (home k) ≡ some j) × (s' j ≡ b)
    unfolding s'
    stays k j b valid e q same =
        let other = entry_apart k j b valid e same in
        (
          probe-put s (stop k) f v (stop_free k (s f) f_free) addr_slots (home k) j other q,
          put_other s f j v other ∙ same,
        )

    Answer-some :
        (k : K) (b : A)
        → Valid k
        → find_in k content ≡ some b
        → Answer s content k
        → Answer s' (content ++ (v ∷ [])) k
    Answer-some k b valid e (j, q, verdict) =
        let (q', same) = stays k j b valid e q (rw e at verdict) in
        (j, q', rw (find-last_some k content v b e) same)

    Answer-other :
        (k : K)
        → Valid k
        → matches k v ≡ false
        → find_in k content ≡ none
        → Answer s' (content ++ (v ∷ [])) k
    Answer-other k valid other e =
        let (j, q, g) = absent-Answer s' k (absent' k valid other e) open_left in
        (j, q, rw (find-last_other k content v other, e) g)

    -- The new entry is where its search ends, which found nothing before.
    Answer-own :
        find_in k0 content ≡ none → Answer s content k0 → Answer s' (content ++ (v ∷ [])) k0
    unfolding s'
    Answer-own e (j, q, verdict) =
        let same = some_inj (
          sym
            (probe-free s (stop k0) free (stop_free k0) addr_slots (home k0) j q (rw e at verdict))
          ∙ found) in
        (
          f,
          probe-new s (stop k0) v (stop_match k0 v own) addr_slots (home k0) f (rw (← same) q),
          rw (find-last_none k0 content v own e) (put_self s f v),
        )

    pub insert-Holds : Holds (put_slot s f v) (content ++ (v ∷ []))
    unfolding s'
    insert-Holds = record {
      answer = λ k valid. elim (Option-cases (find_in k content)) [
        | inr (b, e) ↦ Answer-some k b valid e (holds.answer k valid)
        | inl e ↦ elim (Bool-cases (matches k v)) [
          | inl m ↦ rw (only k m) (Answer-own (rw (only k m) at e) (holds.answer k0 valid0))
          | inr m ↦ Answer-other k valid m e
        ]
      ];
      absent = λ k valid e j. absent' k valid (not_last k e) (not_before k e) j;
      room = room';
    }
      where
        not_last : (k : K) → find_in k (content ++ (v ∷ [])) ≡ none → matches k v ≡ false
        not_last k e = elim (Bool-cases (matches k v)) [
          | inr m ↦ m
          | inl m ↦ elim (Option-cases (find_in k content)) [
            | inl q ↦ cc (find-last_none k content v m q, e)
            | inr (b, q) ↦ cc (find-last_some k content v b q, e)
          ]
        ]

        not_before : (k : K) → find_in k (content ++ (v ∷ [])) ≡ none → find_in k content ≡ none
        not_before k e = elim (Option-cases (find_in k content)) [
          | inl q ↦ q
          | inr (b, q) ↦ cc (find-last_some k content v b q, e)
        ]
