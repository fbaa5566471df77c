-- ===== src/Manager/Placed.antt =====
-- The services that `SnapshotManager::build` makes of a configuration whose keys `Config::validate` has
-- found distinct: each has its place as its index, and is the first with its key.
use l4_loadbalancer.Base.{
  ℕ, zero, suc, ◌+◌, ◌%◌, ◌^◌, ◌<◌, ◌≡◌, refl, sym, ◌∙◌, ap, Bool, true, false, ◌&&◌, ◌||◌, ◌==◌,
  ltb, arith, Bool-cases, inl, inr, none, some, List, [], ◌∷◌, length, get_elem?, ==_iff, ==-false,
}
use l4_loadbalancer.Checksum.{htons}
use l4_loadbalancer.Config.Validate.{ConfKey, conf_key, same_key, has_key, check_services}
use l4_loadbalancer.Config.{ServiceConf, max_rs_per_service}
use l4_loadbalancer.Manager.{build_service, build_services, number_services, after_rs}
use l4_loadbalancer.Scheduler.{SchedBackend}
use l4_loadbalancer.Snapshot.Find.{search, AtHome}
use l4_loadbalancer.Snapshot.{Crc, Service}

htons_inj : (x y : ℕ) → x < 2 ^ 16 → y < 2 ^ 16 → htons x ≡ htons y → x ≡ y
unfolding htons
htons_inj x y h k e = omega (arith, h, k, e)

htons-test : (x y : ℕ) → x < 2 ^ 16 → y < 2 ^ 16 → (htons x == htons y) ≡ (x == y)
htons-test x y h k = elim (Bool-cases (x == y)) [
  | inl e ↦ (==_iff (htons x) (htons y)).1 (ap htons ((==_iff x y).0 e)) ∙ sym e
  | inr e ↦ ==-false (htons x) (htons y) (λ q. cc (e, (==_iff x y).1 (htons_inj x y h k q))) ∙ sym e
]

conf_inj : {a b : ServiceConf} → some a ≡ some b → a ≡ b
conf_inj {a} e = ap (λ o. elim o [ none ↦ a | some x ↦ x ]) e

-- The fields of `uint16_t` of a configuration.
abbrev pub PortsFit : List ServiceConf → Type 0
PortsFit [] = Unit
PortsFit (c ∷ cs) = (c.port < 2 ^ 16) × PortsFit cs

PortsFit-get :
    (cs : List ServiceConf) (k : ℕ) (c : ServiceConf)
    → PortsFit cs
    → get_elem? cs k ≡ some c
    → c.port < 2 ^ 16
PortsFit-get [] k c h e = cc e
PortsFit-get (x ∷ xs) zero c (p, h) e = rw (sym (conf_inj e)) p
PortsFit-get (x ∷ xs) (suc k) c (p, h) e = PortsFit-get xs k c h e

or_false : (a b : Bool) → (a || b) ≡ false → (a ≡ false) × (b ≡ false)
or_false true b e = cc e
or_false false b e = (refl, e)

-- The tests of the loop for its first service.
checked_first :
    (seen : List ConfKey) (c : ServiceConf) (cs : List ServiceConf)
    → check_services seen (c ∷ cs) ≡ none
    → (has_key (conf_key c) seen ≡ false) × (check_services (conf_key c ∷ seen) cs ≡ none)
unfolding check_services
checked_first seen c cs e = elim (Bool-cases (length c.rs == 0)) [
  | inl a ↦ cc (rw (check_services, a) at e)
  | inr a ↦ elim (Bool-cases (ltb max_rs_per_service (length c.rs))) [
    | inl b ↦ cc (rw (check_services, a, b) at e)
    | inr b ↦ elim (Bool-cases (has_key (conf_key c) seen)) [
      | inl d ↦ cc (rw (check_services, a, b, d) at e)
      | inr d ↦ (d, rw (check_services, a, b, d) at e)
    ]
  ]
]

-- No key was seen before.
checked-new :
    (seen : List ConfKey) (cs : List ServiceConf) (k : ℕ) (c : ServiceConf)
    → check_services seen cs ≡ none
    → get_elem? cs k ≡ some c
    → has_key (conf_key c) seen ≡ false
checked-new seen [] k c h e = cc e
checked-new seen (x ∷ xs) zero c h e = rw (sym (conf_inj e)) (checked_first seen x xs h).0
checked-new seen (x ∷ xs) (suc k) c h e =
    (or_false (same_key (conf_key x) (conf_key c)) _
      (checked-new (conf_key x ∷ seen) xs k c (checked_first seen x xs h).1 e)).1

key-test : (a b c : ℕ) → (a == a && (b == b && c == c)) ≡ true
key-test a b c = rw ((==_iff a a).1 refl, (==_iff b b).1 refl, (==_iff c c).1 refl) refl

module _ (max_lcore : ℕ) (crc : Crc) (build_maglev : List SchedBackend → List ℕ) where
  abbrev pub services_of : ℕ → ℕ → List ServiceConf → List Service
  services_of i next cs = build_services max_lcore crc build_maglev i (number_services next cs)

  pub length-services_of :
      (i next : ℕ) (cs : List ServiceConf) → length (services_of i next cs) ≡ length cs
  length-services_of i next [] = refl
  length-services_of i next (c ∷ cs) = ap suc (length-services_of (i + 1) (after_rs next c.rs) cs)

  -- The first service with the key of an accepted one is this.
  pub search-found :
      (seen : List ConfKey) (i next : ℕ) (cs : List ServiceConf) (k : ℕ) (c : ServiceConf)
      → check_services seen cs ≡ none
      → PortsFit cs
      → get_elem? cs k ≡ some c
      → i + length cs < 2 ^ 16
      → search (c.vip, htons c.port, c.proto) (services_of i next cs) ≡ some (i + k)
  unfolding build_service
  search-found seen i next [] k c h fit e small = cc e
  search-found seen i next (x ∷ xs) zero c h fit e small =
      let same : x ≡ c = conf_inj e in
      let idx : i % 2 ^ 16 ≡ i + 0 = omega (arith, small) in
      rw (sym same, key-test x.vip (htons x.port) x.proto, idx) refl
  search-found seen i next (x ∷ xs) (suc k) c h (p, fit) e small =
      let xs_of = checked_first seen x xs h in
      let new = checked-new (conf_key x ∷ seen) xs k c xs_of.1 e in
      let other = (or_false (same_key (conf_key x) (conf_key c)) _ new).0 in
      let ports = htons-test x.port c.port p (PortsFit-get xs k c fit e) in
      let step : i + suc k ≡ i + 1 + k = omega arith in
      let rest =
        search-found (conf_key x ∷ seen) (i + 1) (after_rs next x.rs) xs k c xs_of.1 fit e
          (omega (arith, small)) in
      rw (ports, other, step) rest

  -- Every service has its place as its index.
  pub AtHome-services_of :
      (all : List Service) (i next : ℕ) (cs : List ServiceConf)
      → i + length cs < 2 ^ 16
      → ((k : ℕ) (s : Service)
          → get_elem? (services_of i next cs) k ≡ some s
          → get_elem? all (i + k) ≡ some s)
      → AtHome all crc (services_of i next cs)
  unfolding build_service
  AtHome-services_of all i next [] small f = tt
  AtHome-services_of all i next (c ∷ cs) small f =
      let place : i % 2 ^ 16 ≡ i + 0 = omega (arith, small) in
      let here = f 0 _ refl in
      (
        ap (get_elem? all) place ∙ here,
        AtHome-services_of all (i + 1) (after_rs next c.rs) cs (omega (arith, small)) (λ k s e.
            let step : i + 1 + k ≡ i + suc k = omega arith in
            ap (get_elem? all) step ∙ f (suc k) s e),
      )
