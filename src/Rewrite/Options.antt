-- ===== src/Rewrite/Options.antt =====
-- What a receiver finds among the options that `strip_timestamp` leaves.
use l4_loadbalancer.Base.{
  ℕ, zero, suc, ◌+◌, ◌-◌, ◌≤◌, ◌≡◌, refl, ◌∙◌, ap, Bool, true, false, ◌||◌, ◌==◌, ltb,
  if◌then◌else◌, List, [], ◌∷◌, ◌++◌, length, take, drop, replicate, arith, Bool-cases, inl, inr,
  ltb-false, length-append, length-replicate, length-take, length-drop,
}
use l4_loadbalancer.Rewrite.{strip_from, strip_timestamp, tcpopt_eol, tcpopt_nop, tcpopt_timestamp}

-- A receiver's walk over the options: is there a timestamp?
abbrev pub walk : ℕ → List ℕ → Bool
walk zero opts = false
walk (suc fuel) [] = false
walk (suc fuel) (kind ∷ []) =
    let rest = walk fuel [] in if kind == 0 then false else (if kind == 1 then rest else false)
walk (suc fuel) (kind ∷ len ∷ opts) =
    let after_nop = walk fuel (len ∷ opts) in
    let rest = walk fuel (drop len (kind ∷ len ∷ opts)) in
    if kind == 0
    then false
    else (if kind == 1
        then after_nop
        else (if ltb len 2 || ltb (length (kind ∷ len ∷ opts)) len
            then false
            else (if kind == 8 then true else rest)))

abbrev pub has_timestamp : List ℕ → Bool
has_timestamp opts = walk (length opts) opts

not_more : (a b : Bool) → (a || b) ≡ false → b ≡ false
not_more true b e = cc e
not_more false b e = e

part : (len n : ℕ) → len ≤ n → len + (n - len) ≡ n
part len n h = omega arith

length-strip : (fuel : ℕ) (opts : List ℕ) → length (strip_from fuel opts).0 ≡ length opts
unfolding strip_from
length-strip zero opts = refl
length-strip (suc fuel) [] = refl
length-strip (suc fuel) (kind ∷ []) = elim (Bool-cases (kind == tcpopt_eol)) [
  | inl e ↦ rw e refl
  | inr e ↦ elim (Bool-cases (kind == tcpopt_nop)) [
    | inl n ↦ rw (e, n) (ap suc (length-strip fuel []))
    | inr n ↦ rw (e, n) refl
  ]
]
length-strip (suc fuel) (kind ∷ len ∷ opts) = elim (Bool-cases (kind == tcpopt_eol)) [
  | inl e ↦ rw e refl
  | inr e ↦ elim (Bool-cases (kind == tcpopt_nop)) [
    | inl n ↦ rw (e, n) (ap suc (length-strip fuel (len ∷ opts)))
    | inr n ↦ elim (Bool-cases (ltb len 2 || ltb (length (kind ∷ len ∷ opts)) len)) [
      | inl b ↦ rw (e, n, b) refl
      | inr b ↦
          let here = kind ∷ len ∷ opts in
          let le = ltb-false (length here) len (not_more (ltb len 2) _ b) in
          elim (Bool-cases (kind == tcpopt_timestamp)) [
            | inl t ↦
                rw (e, n, b, t)
                  (omega (
                    arith,
                    length-append (replicate len tcpopt_nop) (strip_from fuel (drop len here)).0,
                    length-replicate len tcpopt_nop,
                    length-strip fuel (drop len here),
                    length-drop len here,
                  ))
            | inr t ↦
                rw (e, n, b, t)
                  (omega (
                    arith,
                    length-append (take len here) (strip_from fuel (drop len here)).0,
                    length-take len here,
                    length-strip fuel (drop len here),
                    length-drop len here,
                  ))
          ]
    ]
  ]
]

walk-none : (fuel : ℕ) → walk fuel [] ≡ false
walk-none zero = refl
walk-none (suc fuel) = refl

walk-nop :
    (fuel kind : ℕ) (xs : List ℕ)
    → (kind == 0) ≡ false
    → (kind == 1) ≡ true
    → walk (suc fuel) (kind ∷ xs) ≡ walk fuel xs
walk-nop fuel kind [] e n = rw (e, n) refl
walk-nop fuel kind (len ∷ xs) e n = rw (e, n) refl

walk-nops :
    (n m fuel : ℕ) (xs : List ℕ) → m ≡ n + fuel → walk m (replicate n 1 ++ xs) ≡ walk fuel xs
walk-nops zero m fuel xs e = ap (λ k. walk k xs) (plain fuel e)
  where
    plain : (fuel : ℕ) → m ≡ 0 + fuel → m ≡ fuel
    plain fuel e = omega arith
walk-nops (suc n) zero fuel xs e = absurd (omega arith)
walk-nops (suc n) (suc m) fuel xs e =
    walk-nop m 1 (replicate n 1 ++ xs) refl refl ∙ walk-nops n m fuel xs (omega arith)

drop-take : (l : ℕ) (xs ys : List ℕ) → l ≤ length xs → drop l (take l xs ++ ys) ≡ ys
drop-take zero xs ys h = refl
drop-take (suc l) [] ys h = absurd (omega arith)
drop-take (suc l) (x ∷ xs) ys h = drop-take l xs ys (omega arith)

-- The walk steps over an option of another kind.
walk-kept :
    (fuel kind len : ℕ) (opts rest : List ℕ)
    → (kind == 0) ≡ false
    → (kind == 1) ≡ false
    → (kind == 8) ≡ false
    → (ltb len 2 || ltb (length (kind ∷ len ∷ opts)) len) ≡ false
    → length rest ≡ length (drop len (kind ∷ len ∷ opts))
    → walk (suc fuel) (take len (kind ∷ len ∷ opts) ++ rest) ≡ walk fuel rest
walk-kept fuel kind zero opts rest e n t b q = cc b
walk-kept fuel kind (suc zero) opts rest e n t b q = cc b
walk-kept fuel kind (suc (suc l)) opts rest e n t b q =
    rw (e, n, long, t) (ap (walk fuel) (drop-take l opts rest fits))
  where
    fits : l ≤ length opts
    fits =
        omega (arith, ltb-false (length (kind ∷ suc (suc l) ∷ opts)) (suc (suc l)) (not_more _ _ b))

    long :
        (ltb (suc (suc l)) 2
          || ltb (length (kind ∷ suc (suc l) ∷ (take l opts ++ rest))) (suc (suc l)))
        ≡ false
    long =
        ap (λ k. ltb (suc (suc l)) 2 || ltb k (suc (suc l)))
          (omega (
            arith,
            q,
            length-append (take l opts) rest,
            length-take l opts,
            length-drop l opts,
            fits,
          ))
        ∙ b

walk-strip :
    (fuel f : ℕ) (opts : List ℕ)
    → length opts ≤ fuel
    → length opts ≤ f
    → walk f (strip_from fuel opts).0 ≡ false
unfolding strip_from
walk-strip zero f [] h g = walk-none f
walk-strip zero f (kind ∷ opts) h g = absurd (omega arith)
walk-strip (suc fuel) f [] h g = walk-none f
walk-strip (suc fuel) zero (kind ∷ opts) h g = absurd (omega arith)
walk-strip (suc fuel) (suc f) (kind ∷ []) h g = elim (Bool-cases (kind == tcpopt_eol)) [
  | inl e ↦ rw (e, e) refl
  | inr e ↦ elim (Bool-cases (kind == tcpopt_nop)) [
    | inl n ↦
        rw (e, n)
          (walk-nop f kind (strip_from fuel []).0 e n
            ∙ walk-strip fuel f [] (omega arith) (omega arith))
    | inr n ↦ rw (e, n) (rw (e, n) refl)
  ]
]
walk-strip (suc fuel) (suc f) (kind ∷ len ∷ opts) h g = elim (Bool-cases (kind == tcpopt_eol)) [
  | inl e ↦ rw (e, e) refl
  | inr e ↦ elim (Bool-cases (kind == tcpopt_nop)) [
    | inl n ↦
        rw (e, n)
          (walk-nop f kind (strip_from fuel (len ∷ opts)).0 e n
            ∙ walk-strip fuel f (len ∷ opts) (omega arith) (omega arith))
    | inr n ↦ elim (Bool-cases (ltb len 2 || ltb (length (kind ∷ len ∷ opts)) len)) [
      | inl b ↦ rw (e, n, b) (rw (e, n, b) refl)
      | inr b ↦
          let here = kind ∷ len ∷ opts in
          let le = ltb-false (length here) len (not_more (ltb len 2) _ b) in
          let two = at_least (ltb len 2) _ b in
          elim (Bool-cases (kind == tcpopt_timestamp)) [
            | inl t ↦
                rw (e, n, b, t)
                  (walk-nops len (suc f) (suc f - len) (strip_from fuel (drop len here)).0
                      (omega arith)
                    ∙ walk-strip fuel (suc f - len) (drop len here)
                        (omega (arith, length-drop len here, ltb-false len 2 two))
                        (omega (arith, length-drop len here)))
            | inr t ↦
                rw (e, n, b, t)
                  (walk-kept f kind len opts (strip_from fuel (drop len here)).0 e n t b
                      (length-strip fuel (drop len here))
                    ∙ walk-strip fuel f (drop len here)
                        (omega (arith, length-drop len here, ltb-false len 2 two))
                        (omega (arith, length-drop len here, ltb-false len 2 two)))
          ]
    ]
  ]
]
  where
    at_least : (a b : Bool) → (a || b) ≡ false → a ≡ false
    at_least true b e = cc e
    at_least false b e = refl

-- `strip_timestamp` keeps the length of the options, for any bytes, and a receiver that walks over
-- the options that it leaves finds no timestamp.
pub strip_timestamp_lem :
    (opts : List ℕ)
    → (length (strip_timestamp opts).0 ≡ length opts)
      × (has_timestamp (strip_timestamp opts).0 ≡ false)
unfolding strip_timestamp
strip_timestamp_lem opts = (
  length-strip (length opts) opts,
  rw (length-strip (length opts) opts)
      (walk-strip (length opts) (length opts) opts (omega arith) (omega arith)),
)
