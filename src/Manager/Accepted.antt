-- ===== src/Manager/Accepted.antt =====
-- A configuration that `Config::validate` accepts, in the snapshot that `SnapshotManager::init` publishes.
use l4_loadbalancer.Base.{
  ℕ, suc, ◌+◌, ◌^◌, ◌≤◌, ◌<◌, ◌≡◌, refl, sym, ◌∙◌, ap, ◌&&◌, ◌==◌, ltb, leb, arith, Bool-cases,
  Option-cases, inl, inr, none, some, List, [], ◌∷◌, length, get_elem?, ltb-false,
}
use l4_loadbalancer.Checksum.{htons}
use l4_loadbalancer.Config.Validate.{
  check_services, default_local_ip, default_hc_src, check_network, check_locals, validate,
  conf_vips, first_vip_for, has_ip, is_dr,
}
use l4_loadbalancer.Config.{ForwardMode, ServiceConf, LbConfig, max_services, max_local_ips}
use l4_loadbalancer.Manager.{Manager, initial, init, publish, build, unindexed}
use l4_loadbalancer.Scheduler.{SchedBackend}
use l4_loadbalancer.Snapshot.Find.{IsPlaced, find_service-search}
use l4_loadbalancer.Snapshot.{Crc, Snapshot, Service, vips_of, find_service, addr_slots}
use l4_loadbalancer.Manager.Placed.{
  PortsFit, services_of, length-services_of, search-found, AtHome-services_of,
}

-- What the later steps of `validate` keep.
default_local_ip-services : (c : LbConfig) → (default_local_ip c).services ≡ c.services
unfolding default_local_ip
default_local_ip-services c = elim (Bool-cases (length c.local_ips == 0)) [
  | inl e ↦ rw e (by_mode c.mode)
  | inr e ↦ rw e refl
]
  where
    by_mode : (mode : ForwardMode) → (first_vip_for mode c).services ≡ c.services
    by_mode ForwardMode.nat = refl
    by_mode ForwardMode.dr = refl

default_hc_src-keeps :
    (c : LbConfig)
    → ((default_hc_src c).services ≡ c.services) × ((default_hc_src c).local_ips ≡ c.local_ips)
unfolding default_hc_src
default_hc_src-keeps c = elim (Bool-cases (c.hc_src == 0 && leb 1 (length c.local_ips))) [
  | inl e ↦ rw e (refl, refl)
  | inr e ↦ rw e (refl, refl)
]

check_network-keeps : (c : LbConfig) → (check_network c).1 ≡ c
unfolding check_network
check_network-keeps c = elim (Bool-cases (c.health.enabled && c.hc_src == 0)) [
  | inl e ↦ rw e refl
  | inr e ↦ elim (Bool-cases (is_dr c.mode && has_ip c.hc_src (conf_vips c.services))) [
    | inl f ↦ rw (e, f) refl
    | inr f ↦ rw (e, f) refl
  ]
]

check_locals-accepted :
    (c : LbConfig)
    → (check_locals c).0 ≡ none
    → ((check_locals c).1.services ≡ c.services)
      × (length (check_locals c).1.local_ips ≤ max_local_ips)
unfolding check_locals
check_locals-accepted c h = elim (Bool-cases (ltb max_local_ips (length c.local_ips))) [
  | inl e ↦ cc (rw (check_locals, e) at h)
  | inr e ↦
      let (services, ips) = default_hc_src-keeps c in
      rw (e, check_network-keeps (default_hc_src c), services, ips)
        (refl, ltb-false max_local_ips (length c.local_ips) e)
]

-- What `validate` has checked, and what it leaves of the services.
record IsAccepted (before after : LbConfig) : Type 0 where
  unique : check_services [] before.services ≡ none
  few_services : length before.services ≤ max_services
  few_local_ips : length after.local_ips ≤ max_local_ips
  same_services : after.services ≡ before.services

validate-IsAccepted : (c : LbConfig) → (validate c).0 ≡ none → IsAccepted c (validate c).1
unfolding validate
validate-IsAccepted c h = elim (Bool-cases (length c.services == 0)) [
  | inl a ↦ cc (rw (validate, a) at h)
  | inr a ↦ elim (Bool-cases (ltb max_services (length c.services))) [
    | inl b ↦ cc (rw (validate, a, b) at h)
    | inr b ↦ elim (Option-cases (check_services [] c.services)) [
      | inr (e, d) ↦ cc (rw (validate, a, b, d) at h)
      | inl d ↦
          let (services, ips) =
            check_locals-accepted (default_local_ip c) (rw (validate, a, b, d) at h) in
          rw (a, b, d)
            (record {
              unique = d;
              few_services = ltb-false max_services (length c.services) b;
              few_local_ips = ips;
              same_services = services ∙ default_local_ip-services c;
            })
    ]
  ]
]

module _ (max_lcore : ℕ) (crc : Crc) (build_maglev : List SchedBackend → List ℕ) where
  -- The configuration has ports of 16 bits and `validate` accepts it. In the snapshot that `init`
  -- publishes, `find_service` gives for the address, the port and the protocol of every service of the
  -- configuration the index of this service, for every hash function.
  pub validate-find_service :
      (cfg : LbConfig) (snap : Snapshot) (k : ℕ) (c : ServiceConf)
      → (validate cfg).0 ≡ none
      → PortsFit cfg.services
      → (init max_lcore crc build_maglev initial (validate cfg).1).cur ≡ some snap
      → get_elem? cfg.services k ≡ some c
      → find_service crc snap c.vip (htons c.port) c.proto ≡ some k
  unfolding init publish build unindexed
  validate-find_service cfg snap k c accepted fit current at =
      let after : LbConfig = (validate cfg).1 in
      let v = validate-IsAccepted cfg accepted in
      let m : Manager = init max_lcore crc build_maglev initial after in
      let made : build max_lcore crc build_maglev m ≡ snap =
        ap (λ o. elim o [ none ↦ snap | some x ↦ x ]) current in
      let same : length after.services ≡ length cfg.services = ap length v.same_services in
      let small : 0 + length after.services < 2 ^ 16 = omega (arith, v.few_services, same) in
      let ss : List Service = services_of max_lcore crc build_maglev 0 1 after.services in
      let placed : IsPlaced crc ss =
        AtHome-services_of max_lcore crc build_maglev ss 0 1 after.services small
          (λ j s e. let start : 0 + j ≡ j = omega arith in ap (get_elem? ss) start ∙ e) in
      let few : length ss < addr_slots = omega (
        arith,
        length-services_of max_lcore crc build_maglev 0 1 after.services,
        small,
        same,
        v.few_services,
      ) in
      let searched =
        find_service-search crc (unindexed max_lcore crc build_maglev m) c.vip (htons c.port)
          c.proto placed few in
      let found =
        search-found max_lcore crc build_maglev [] 0 1 after.services k c
          (ap (check_services []) v.same_services ∙ v.unique) (rw v.same_services fit)
          (ap (λ cs. get_elem? cs k) v.same_services ∙ at) small in
      rw (sym made) (searched ∙ found ∙ ap some (omega arith))

  length-vips_of : (ss : List Service) → length (vips_of ss) ≡ length ss
  length-vips_of [] = refl
  length-vips_of (s ∷ ss) = ap suc (length-vips_of ss)

  -- What `validate` accepts fits the tables of addresses of the snapshot that `init` builds.
  pub validate-fits :
      (cfg : LbConfig)
      → (validate cfg).0 ≡ none
      → (let m = init max_lcore crc build_maglev initial (validate cfg).1 in
          let snap = unindexed max_lcore crc build_maglev m in
          length (vips_of snap.services) + length snap.local_ips + 1 < addr_slots)
  unfolding init publish unindexed
  validate-fits cfg accepted =
      let after : LbConfig = (validate cfg).1 in
      let v = validate-IsAccepted cfg accepted in
      let ss : List Service = services_of max_lcore crc build_maglev 0 1 after.services in
      let ips = at_most after.mode after.local_ips (omega (arith, v.few_local_ips)) in
      let few = length-services_of max_lcore crc build_maglev 0 1 after.services in
      omega (
        arith,
        length-vips_of ss,
        few,
        ap length v.same_services,
        v.few_services,
        v.few_local_ips,
        ips,
      )
    where
      at_most :
          (mode : ForwardMode) (ips : List ℕ)
          → length ips ≤ 64
          → length (elim mode as (λ _. List ℕ) [ ForwardMode.nat ↦ ips | ForwardMode.dr ↦ [] ]) ≤ 64
      at_most ForwardMode.nat ips h = h
      at_most ForwardMode.dr ips h = omega arith
