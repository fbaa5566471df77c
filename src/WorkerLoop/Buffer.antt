-- ===== src/WorkerLoop/Buffer.antt =====
-- `tx_flush`, `tx_buffer_add` and `handle`'s switch of src/dataplane/worker.cpp: where a packet buffer is.
-- A pointer is counted wherever the worker has put it: with the network card, back in the pool, in the
-- ring of another worker, or in its own TX buffer.
use l4_loadbalancer.Base.{
  ℕ, zero, suc, ◌+◌, ◌-◌, ◌%◌, ◌^◌, ◌≤◌, ◌<◌, ◌≡◌, refl, ◌∙◌, ap, false, ◌&&◌, ◌==◌, ltb, leb,
  if◌then◌else◌, List, [], ◌∷◌, ◌++◌, length, arith, Bool-cases, inl, inr, ==_iff, ==-false,
  ltb-false, leb-false,
}
use l4_loadbalancer.Processor.{Platform, Dataplane, Result, send, drop, redirect, consumed}
use l4_loadbalancer.Session.{update}
use l4_loadbalancer.WorkerLoop.{
  Packet, Devices, Wk, burst_size, slice, tx_flush, tx_buffer_add, settle,
}

-- How often a pointer is in a list.
abbrev pub occ : ℕ → List Packet → ℕ
occ q [] = 0
occ q (m ∷ ms) = (if m.ptr == q then 1 else 0) + occ q ms

abbrev pub occ_handed : ℕ → List (ℕ × Packet) → ℕ
occ_handed q [] = 0
occ_handed q (h ∷ hs) = (if h.1.ptr == q then 1 else 0) + occ_handed q hs

pub occ-append : (q : ℕ) (xs ys : List Packet) → occ q (xs ++ ys) ≡ occ q xs + occ q ys
occ-append q [] ys = omega arith
occ-append q (x ∷ xs) ys = omega (arith, occ-append q xs ys)

pub occ_handed-append :
    (q : ℕ) (xs ys : List (ℕ × Packet))
    → occ_handed q (xs ++ ys) ≡ occ_handed q xs + occ_handed q ys
occ_handed-append q [] ys = omega arith
occ_handed-append q (x ∷ xs) ys = omega (arith, occ_handed-append q xs ys)

slice-split :
    (q : ℕ) (f : ℕ → Packet) (i n k : ℕ)
    → occ q (slice f i (n + k)) ≡ occ q (slice f i n) + occ q (slice f (i + n) k)
slice-split q f i zero k =
    let total : 0 + k ≡ k = omega arith in
    let start : i + 0 ≡ i = omega arith in rw (total, start) (omega arith)
slice-split q f i (suc n) k =
    let total : suc n + k ≡ suc (n + k) = omega arith in
    let start : i + suc n ≡ i + 1 + n = omega arith in
    rw (total, start) (omega (arith, slice-split q f (i + 1) n k))

slice-length : (f : ℕ → Packet) (i n : ℕ) → length (slice f i n) ≡ n
slice-length f i zero = refl
slice-length f i (suc n) = ap suc (slice-length f (i + 1) n)

-- A write above the slice is not seen.
slice-update :
    (q : ℕ) (f : ℕ → Packet) (at : ℕ) (m : Packet) (i n : ℕ)
    → i + n ≤ at
    → slice (update f at m) i n ≡ slice f i n
slice-update q f at m i zero h = refl
slice-update q f at m i (suc n) h =
    let below : (at == i) ≡ false = ==-false at i (omega (arith, h)) in
    rw (below, slice-update q f at m (i + 1) n (omega (arith, h))) refl

-- The documented bound of rte_eth_tx_burst.
abbrev pub Takes : Devices → Type 0
Takes dev = (past offered : List Packet) → dev.tx_burst past offered ≤ length offered

module _ (p : Platform) (dp : Dataplane p.neigh_hash.Handle) (dev : Devices) where
  abbrev pub gone : ℕ → Wk p dp dev → ℕ
  gone q w = occ q w.sent + occ q w.freed + occ_handed q w.handed

  abbrev pub held : ℕ → Wk p dp dev → ℕ
  held q w = gone q w + occ q (slice w.tx.pkts 0 w.tx.count)

  -- From the first state to the second exactly these packets have come in, and the buffer has room.
  abbrev pub Moves : Wk p dp dev → Wk p dp dev → List Packet → Type 0
  Moves v w ms = (w.tx.count < burst_size) × ((q : ℕ) → held q w ≡ held q v + occ q ms)

  pub Moves-append :
      (u v w : Wk p dp dev) (xs ys : List Packet)
      → Moves u v xs
      → Moves v w ys
      → Moves u w (xs ++ ys)
  Moves-append u v w xs ys (a, f) (b, g) = (b, λ q. omega (arith, f q, g q, occ-append q xs ys))

  pub tx_flush-count : (w : Wk p dp dev) → (tx_flush p dp dev w).tx.count ≡ 0
  unfolding tx_flush
  tx_flush-count w = elim (Bool-cases (w.tx.count == 0)) [
    | inl e ↦ rw e ((==_iff w.tx.count 0).0 e)
    | inr e ↦
        let nb = dev.tx_burst w.sent (slice w.tx.pkts 0 w.tx.count) in
        elim (Bool-cases (ltb nb w.tx.count)) [ inl l ↦ rw (e, l) refl | inr l ↦ rw (e, l) refl ]
  ]

  pub tx_flush-held :
      Takes dev → (w : Wk p dp dev) (q : ℕ) → held q (tx_flush p dp dev w) ≡ held q w
  unfolding tx_flush
  tx_flush-held takes w q = elim (Bool-cases (w.tx.count == 0)) [
    | inl e ↦ rw e refl
    | inr e ↦
        let f : ℕ → Packet = w.tx.pkts in
        let n : ℕ = w.tx.count in
        let nb : ℕ = dev.tx_burst w.sent (slice f 0 n) in
        let most : nb ≤ n = rw (slice-length f 0 n) at (takes w.sent (slice f 0 n)) in
        let split : occ q (slice f 0 n) ≡ occ q (slice f 0 nb) + occ q (slice f nb (n - nb)) =
          ap (λ k. occ q (slice f 0 k)) (omega (arith, most))
          ∙ slice-split q f 0 nb (n - nb)
          ∙ ap (λ k. occ q (slice f 0 nb) + occ q (slice f k (n - nb))) (omega arith) in
        let out = occ-append q w.sent (slice f 0 nb) in
        elim (Bool-cases (ltb nb n)) [
          | inl l ↦
              rw (e, l) (omega (arith, split, out, occ-append q w.freed (slice f nb (n - nb))))
          | inr l ↦
              let all : nb ≡ n = omega (arith, most, ltb-false nb n l) in
              rw (e, l) (omega (arith, out, ap (λ k. occ q (slice f 0 k)) all))
        ]
  ]

  tx_buffer_add-Moves :
      Takes dev
      → (w : Wk p dp dev) (m : Packet) → w.tx.count < burst_size
      → Moves w (tx_buffer_add p dp dev w m) (m ∷ [])
  unfolding tx_buffer_add
  tx_buffer_add-Moves takes w m room =
      let n : ℕ = w.tx.count in
      let f : ℕ → Packet = w.tx.pkts in
      let next : (n + 1) % 2 ^ 16 ≡ n + 1 = omega (arith, room) in
      let added : Wk p dp dev = record w {
        tx = record { pkts = update f n m; count = (n + 1) % 2 ^ 16 };
      } in
      let grown : (q : ℕ) → held q added ≡ held q w + occ q (m ∷ []) = λ q.
        let last : occ q (slice (update f n m) (0 + n) 1) ≡ occ q (m ∷ []) =
          let start : 0 + n ≡ n = omega arith in rw (start, (==_iff n n).1 refl) refl in
        let all =
          ap (λ k. occ q (slice (update f n m) 0 k)) next ∙ slice-split q (update f n m) 0 n 1 in
        let kept : slice (update f n m) 0 n ≡ slice f 0 n =
          slice-update q f n m 0 n (omega arith) in
        omega (arith, rw kept at all, last) in
      elim (Bool-cases (leb burst_size ((n + 1) % 2 ^ 16))) [
        | inl e ↦
            rw e
              (rw (tx_flush-count added) (omega arith), λ q. tx_flush-held takes added q ∙ grown q)
        | inr e ↦ rw e (omega (arith, leb-false burst_size ((n + 1) % 2 ^ 16) e), grown)
      ]

  pub settle-Moves :
      Takes dev
      → (w : Wk p dp dev) (m : Packet) (r : Result) → w.tx.count < burst_size
      → Moves w (settle p dp dev w m r) (m ∷ [])
  unfolding settle
  settle-Moves takes w m send room = tx_buffer_add-Moves takes w m room
  settle-Moves takes w m (redirect to) room =
      elim (Bool-cases (dev.has_worker to && dev.mp_enqueue w.handed to m)) [
        | inl e ↦ rw e (room, λ q. omega (arith, occ_handed-append q w.handed ((to, m) ∷ [])))
        | inr e ↦ rw e (room, λ q. omega (arith, occ-append q w.freed (m ∷ [])))
      ]
  settle-Moves takes w m (drop reason) room =
      (room, λ q. omega (arith, occ-append q w.freed (m ∷ [])))
  settle-Moves takes w m consumed room = (room, λ q. omega (arith, occ-append q w.freed (m ∷ [])))
