-- ===== src/Steering/Owner.antt =====
-- Every packet has an owner among the workers.
use l4_loadbalancer.Base.{
  ℕ, ◌%◌, ◌^◌, ◌≤◌, ◌<◌, ◌≡◌, inl, inr, Bool, true, false, ◌==◌, List, arith, Bool-cases, lt→ltb,
}
use l4_loadbalancer.Checksum.{htons}
use l4_loadbalancer.Steering.{
  Steering, Hashes, init_sw, init_hw, fwd_owner, ret_owner, reta_lookup, ret_by_rss, max_reta,
}
use l4_loadbalancer.Types.{FiveTuple}
use native.Mathlib.Nat.{mod-lt}

-- What the initialisation promises: at least one worker, no more than 16 bits name, and in the part
-- of the table that is looked at no owner that is not a worker.
pub record IsReady (s : Steering) : Type 0 where
  pub some_worker : 0 < s.workers
  pub few_workers : s.workers ≤ 2 ^ 16
  pub owners : s.hw ≡ true → (i : ℕ) → i < s.reta_size → s.reta_owner i < s.workers

-- `init_hw` from a table of the network card of at most 512 entries.
pub init_hw-IsReady :
    (dpdk : Hashes) (s : Steering) (num_workers : ℕ) (key : List ℕ) (reta : ℕ → ℕ) (reta_size : ℕ)
    (tcp udp : Bool)
    → 0 < num_workers
    → num_workers ≤ 2 ^ 16
    → reta_size ≤ max_reta
    → IsReady (init_hw dpdk s num_workers key reta reta_size tcp udp)
unfolding init_hw
init_hw-IsReady dpdk s num_workers key reta reta_size tcp udp h few le = record {
  some_worker = h;
  few_workers = few;
  owners =
      λ q i lt. rw (lt→ltb i reta_size lt, lt→ltb i max_reta (omega arith)) (mod-lt (reta i) h);
}

module _ (dpdk : Hashes) (s : Steering) (ready : IsReady s) where
  reta_lookup-lt : s.hw ≡ true → (h : ℕ) → reta_lookup dpdk s h < s.workers
  unfolding reta_lookup
  reta_lookup-lt q h = elim (Bool-cases (s.reta_size == 0)) [
    | inl e ↦ rw e (omega (arith, mod-lt h ready.some_worker, ready.few_workers))
    | inr e ↦ rw e (ready.owners q (h % s.reta_size) (mod-lt h (pos_size e)))
  ]
    where
      pos_size : (s.reta_size == 0) ≡ false → 0 < s.reta_size
      pos_size e = ground arith

  low-lt : (h : ℕ) → h % s.workers % 2 ^ 16 < s.workers
  low-lt h = omega (arith, mod-lt h ready.some_worker, ready.few_workers)

  pub fwd_owner-lt : (t : FiveTuple) → fwd_owner dpdk s t < s.workers
  unfolding fwd_owner
  fwd_owner-lt t = elim (Bool-cases (s.workers == 1)) [
    | inl e ↦ rw e ready.some_worker
    | inr e ↦ elim (Bool-cases s.hw) [
      | inl h ↦ simp (e, h) (reta_lookup-lt h _)
      | inr h ↦ simp (e, h) (low-lt _)
    ]
  ]

  pub ret_owner-lt : (t : FiveTuple) → ret_owner dpdk s t < s.workers
  unfolding ret_owner ret_by_rss
  ret_owner-lt t = elim (Bool-cases (s.workers == 1)) [
    | inl e ↦ rw e ready.some_worker
    | inr e ↦ elim (Bool-cases (ret_by_rss s t.protocol)) [
      | inl h ↦ simp (e, h) (reta_lookup-lt (by_rss h) _)
      | inr h ↦ simp (e, h) (mod-lt (htons t.dst_port) ready.some_worker)
    ]
  ]
    where
      by_rss : ret_by_rss s t.protocol ≡ true → s.hw ≡ true
      by_rss h = ground arith

pub init_sw-IsReady :
    (s : Steering) (num_workers : ℕ) → num_workers < 2 ^ 16 → IsReady (init_sw s num_workers)
unfolding init_sw
init_sw-IsReady s num_workers few = record {
  some_worker = ground arith;
  few_workers = ground arith;
  owners = λ q. absurd (true_ne q);
}
  where
    true_ne : false ≡ true → ⊥
    true_ne q = cc q

-- After `init_sw` with any number of workers below 2^16, forward and return packets have an owner
-- that is one of the workers.
pub init_sw-owners :
    (dpdk : Hashes) (s : Steering) (num_workers : ℕ) (t : FiveTuple)
    → num_workers < 2 ^ 16
    → (fwd_owner dpdk (init_sw s num_workers) t < (init_sw s num_workers).workers)
      × (ret_owner dpdk (init_sw s num_workers) t < (init_sw s num_workers).workers)
init_sw-owners dpdk s num_workers t few =
    let ready = init_sw-IsReady s num_workers few in
    (fwd_owner-lt dpdk _ ready t, ret_owner-lt dpdk _ ready t)

-- After `init_hw` with at least one worker, fewer than 2^16, and a redirection table of at most 512
-- entries, forward and return packets have an owner that is one of the workers.
pub init_hw-owners :
    (dpdk : Hashes) (s : Steering) (num_workers : ℕ) (key : List ℕ) (reta : ℕ → ℕ) (reta_size : ℕ)
    (tcp udp : Bool) (t : FiveTuple)
    → 0 < num_workers
    → num_workers < 2 ^ 16
    → reta_size ≤ max_reta
    → (fwd_owner dpdk (init_hw dpdk s num_workers key reta reta_size tcp udp) t < num_workers)
      × (ret_owner dpdk (init_hw dpdk s num_workers key reta reta_size tcp udp) t < num_workers)
unfolding init_hw
init_hw-owners dpdk s num_workers key reta reta_size tcp udp t h few le =
    let ready = init_hw-IsReady dpdk s num_workers key reta reta_size tcp udp h (omega arith) le in
    (fwd_owner-lt dpdk _ ready t, ret_owner-lt dpdk _ ready t)
