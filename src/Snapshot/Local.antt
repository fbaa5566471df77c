-- ===== src/Snapshot/Local.antt =====
-- `index`: which addresses the lookups of a snapshot find.
use l4_loadbalancer.Base.{
  ℕ, suc, ◌+◌, ◌<◌, ◌≡◌, ◌≢◌, refl, ◌∙◌, Bool, true, false, ◌||◌, arith, inr, ◌==◌, List, [], ◌∷◌,
  length,
}
use l4_loadbalancer.Snapshot.Slots.{absent-Answer}
use l4_loadbalancer.Snapshot.{
  Crc, Snapshot, addr_slots, set_has, set_add, add_all, index, is_vip, is_lip, is_local, vips_of,
}
use l4_loadbalancer.Snapshot.Sets.{
  mem, is_zero, ends, NotZero, Stores, empty-Stores, set_add-Stores, home, home_lt, ends_free,
  set_has-mem,
}

module _ (crc : Crc) where
  both_tests :
      (s : ℕ → ℕ) (f g : ℕ → Bool) (n : ℕ)
      → ((x : ℕ) → NotZero x → f x ≡ g x)
      → Stores crc s f n
      → Stores crc s g n
  both_tests s f g n h (content, holds, few, same) =
      (content, holds, few, λ x valid. same x valid ∙ h x valid)

  add_all-Stores :
      (s : ℕ → ℕ) (ips : List ℕ) (test : ℕ → Bool) (n : ℕ)
      → Stores crc s test n
      → n + length ips < addr_slots
      → Stores crc (add_all crc s ips) (λ x. test x || mem x ips) (n + length ips)
  add_all-Stores s [] test n h room =
      rw (plus_zero n) (both_tests s test (λ x. test x || false) n (λ x valid. or_false (test x)) h)
    where
      or_false : (b : Bool) → b ≡ (b || false)
      or_false true = refl
      or_false false = refl

      plus_zero : (n : ℕ) → n + 0 ≡ n
      plus_zero n = omega arith
  add_all-Stores s (ip ∷ ips) test n h room = rw (plus_suc n (length ips)) (
      both_tests (add_all crc (set_add crc s ip) ips) (λ x. (ip == x || test x) || mem x ips)
        (λ x. test x || (ip == x || mem x ips)) (n + 1 + length ips)
        (λ x valid. regroup (ip == x) (test x) (mem x ips))
        (add_all-Stores (set_add crc s ip) ips (λ x. ip == x || test x) (n + 1)
          (set_add-Stores crc s ip test n h (omega (arith, room))) (omega (arith, room))))
    where
      plus_suc : (n m : ℕ) → n + suc m ≡ n + 1 + m
      plus_suc n m = omega arith

      regroup : (a b c : Bool) → ((a || b) || c) ≡ (b || (a || c))
      regroup true true c = refl
      regroup true false c = refl
      regroup false b c = refl

  first-Stores :
      (ips : List ℕ)
      → length ips < addr_slots
      → Stores crc (add_all crc (λ i. 0) ips) (λ x. mem x ips) (length ips)
  first-Stores ips room =
      rw (← (zero_plus (length ips)))
        (add_all-Stores (λ i. 0) ips (λ x. false) 0 (empty-Stores crc) (omega (arith, room)))
    where
      zero_plus : (n : ℕ) → 0 + n ≡ n
      zero_plus n = omega arith

  has-Stores :
      (s : ℕ → ℕ) (test : ℕ → Bool) (n ip : ℕ)
      → Stores crc s test n
      → NotZero ip
      → set_has crc s ip ≡ test ip
  has-Stores s test n ip (content, holds, few, same) valid =
      set_has-mem crc s content ip holds valid ∙ same ip valid

  -- 0 is the mark of a free slot, so a set with a free slot has it.
  zero-has :
      (s : ℕ → ℕ) (test : ℕ → Bool) (n : ℕ)
      → Stores crc s test n
      → n < addr_slots
      → set_has crc s 0 ≡ true
  unfolding set_has home
  zero-has s test n (content, holds, few, same) room =
      let (j, q, v) =
        absent-Answer is_zero NotZero (λ (k : ℕ) (a : ℕ). false) (λ (k : ℕ). ends 0) (home crc)
          (home_lt crc) (λ k a valid e. refl) (λ k a e. ends_free 0 a e) (λ k a e. cc e)
          (λ k a e. inr (zero_only a e)) s 0 (λ j. refl) (omega (arith, holds.room, few, room)) in
      rw (set_has, q) v
    where
      zero_only : (a : ℕ) → ends 0 a ≡ true → is_zero a ≡ true
      zero_only a e = ground arith

  abbrev locals_set : Snapshot → ℕ → ℕ
  locals_set snap = add_all crc (add_all crc (λ i. 0) (vips_of snap.services)) snap.local_ips

  locals-Stores :
      (snap : Snapshot)
      → length (vips_of snap.services) + length snap.local_ips + 1 < addr_slots
      → Stores crc
          (set_add crc (locals_set snap) snap.hc_src)
          (λ x. snap.hc_src == x || (mem x (vips_of snap.services) || mem x snap.local_ips))
          (length (vips_of snap.services) + length snap.local_ips + 1)
  locals-Stores snap room =
      set_add-Stores crc (locals_set snap) snap.hc_src
        (λ x. mem x (vips_of snap.services) || mem x snap.local_ips)
        (length (vips_of snap.services) + length snap.local_ips)
        (add_all-Stores (add_all crc (λ i. 0) (vips_of snap.services)) snap.local_ips
          (λ x. mem x (vips_of snap.services)) (length (vips_of snap.services))
          (first-Stores (vips_of snap.services) (omega (arith, room))) (omega (arith, room)))
        room

  -- For every hash function, and for as many services and local addresses as fit: after `index`, a lookup
  -- of an address other than 0 says whether it is the address of a service, a local address, or one of
  -- these or the source address of health checks.
  pub index-sets :
      (snap : Snapshot) (ip : ℕ)
      → length (vips_of snap.services) + length snap.local_ips + 1 < addr_slots
      → ip ≢ 0
      → (is_vip crc (index crc snap) ip ≡ mem ip (vips_of snap.services))
        × (is_lip crc (index crc snap) ip ≡ mem ip snap.local_ips)
        × (is_local crc (index crc snap) ip
            ≡ (snap.hc_src == ip || (mem ip (vips_of snap.services) || mem ip snap.local_ips)))
  unfolding index is_vip is_lip is_local
  index-sets snap ip room valid = (
    has-Stores (add_all crc (λ i. 0) (vips_of snap.services)) (λ x. mem x (vips_of snap.services))
        (length (vips_of snap.services)) ip
        (first-Stores (vips_of snap.services) (omega (arith, room))) valid,
    has-Stores (add_all crc (λ i. 0) snap.local_ips) (λ x. mem x snap.local_ips)
        (length snap.local_ips) ip (first-Stores snap.local_ips (omega (arith, room))) valid,
    has-Stores (set_add crc (locals_set snap) snap.hc_src)
        (λ x. snap.hc_src == x || (mem x (vips_of snap.services) || mem x snap.local_ips))
        (length (vips_of snap.services) + length snap.local_ips + 1) ip (locals-Stores snap room)
        valid,
  )

  -- The address 0 is taken for one of the balancer's own, whatever the configuration.
  pub zero_is_local :
      (snap : Snapshot)
      → length (vips_of snap.services) + length snap.local_ips + 1 < addr_slots
      → is_local crc (index crc snap) 0 ≡ true
  unfolding index is_local
  zero_is_local snap room =
      zero-has (set_add crc (locals_set snap) snap.hc_src)
        (λ x. snap.hc_src == x || (mem x (vips_of snap.services) || mem x snap.local_ips))
        (length (vips_of snap.services) + length snap.local_ips + 1) (locals-Stores snap room) room
