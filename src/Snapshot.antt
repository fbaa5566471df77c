-- ===== src/Snapshot.antt =====
-- include/ctrl/snapshot.h and src/ctrl/snapshot.cpp: the configuration that the workers read, with its
-- lookup tables. A table of slots is a function of the index; `RsState *` is the state itself, since a
-- snapshot does not change once it is built; the hash functions of DPDK are a parameter.
pub mod Probe
pub mod Slots
pub mod Sets
pub mod Local
pub mod Find
mod Tests
use l4_loadbalancer.Base.{
  ℕ, zero, suc, ◌+◌, ◌*◌, ◌%◌, ◌^◌, Bool, true, false, ◌&&◌, ◌||◌, not, ◌==◌, ltb, if◌then◌else◌,
  List, [], ◌∷◌, Option, none, some, get_elem?, get_or, bit_or,
}
use l4_loadbalancer.Config.{ForwardMode}
use l4_loadbalancer.Scheduler.{Scheduler}
use l4_loadbalancer.Types.{MacAddr}
use Prim.Native.String.{String}

pub record RsState : Type 0 where
  pub id : ℕ
  pub svc_idx : ℕ
  pub ip : ℕ
  pub port_be : ℕ
  pub port : ℕ
  pub mac : MacAddr
  pub weight : ℕ
  pub enabled : Bool
  pub healthy : Bool

unfoldable pub usable : RsState → Bool
usable rs = rs.enabled && rs.healthy

unfoldable pub schedulable : RsState → Bool
unfolding usable
schedulable rs = usable rs && ltb 0 rs.weight

pub record Service : Type 0 where
  pub idx : ℕ
  pub name : String
  pub vip : ℕ
  pub port_be : ℕ
  pub port : ℕ
  pub proto : ℕ
  pub rs : List RsState
  pub sched : Scheduler

-- A free slot of `svc_slots` is `none` here and a negative number there.
pub record Snapshot : Type 0 where
  pub version : ℕ
  pub mode : ForwardMode
  pub services : List Service
  pub rs_pool : List RsState
  pub rs_by_id : List (Option RsState)
  pub local_ips : List ℕ
  pub hc_src : ℕ
  pub svc_slots : ℕ → Option ℕ
  pub vips : ℕ → ℕ
  pub lips : ℕ → ℕ
  pub locals : ℕ → ℕ

-- kSvcSlots and kAddrSlots.
abbrev pub svc_slots_count : ℕ
svc_slots_count = 512

abbrev pub addr_slots : ℕ
addr_slots = 512

-- rte_hash_crc_8byte and rte_hash_crc_4byte.
pub record Crc : Type 0 where
  pub crc_8byte : ℕ → ℕ → ℕ
  pub crc_4byte : ℕ → ℕ → ℕ

-- The loops `for (i = hash & mask;; i = (i + 1) & mask)`: the slot at which a test ends one, if it
-- ends within `fuel` rounds. Both tables have 512 slots.
unfoldable pub probe {ℓ} : {A : Type ℓ} → ℕ → (ℕ → A) → (A → Bool) → ℕ → Option ℕ
probe zero slots stop i = none
probe (suc fuel) slots stop i =
    let later = probe fuel slots stop ((i + 1) % addr_slots) in
    if stop (slots i) then some i else later

abbrev pub put_slot {ℓ} : {A : Type ℓ} → (ℕ → A) → ℕ → A → ℕ → A
put_slot slots i v j = if i == j then v else slots j

-- `snap.rs(id)`.
unfoldable pub rs_of : Snapshot → ℕ → Option RsState
rs_of snap id = get_or snap.rs_by_id id none

abbrev pub is_service : ℕ → ℕ → ℕ → Service → Bool
is_service vip port_be proto s = s.vip == vip && (s.port_be == port_be && s.proto == proto)

-- The loop ends at a free slot or at the service.
abbrev pub ends_at : List Service → (Service → Bool) → Option ℕ → Bool
ends_at services test none = true
ends_at services test (some idx) = elim (get_elem? services idx) [ none ↦ false | some s ↦ test s ]

abbrev pub is_free : Option ℕ → Bool
is_free none = true
is_free (some idx) = false

abbrev pub vips_of : List Service → List ℕ
vips_of [] = []
vips_of (s ∷ ss) = s.vip ∷ vips_of ss

module _ (crc : Crc) where
  unfoldable pub svc_hash : ℕ → ℕ → ℕ → ℕ
  svc_hash vip port_be proto =
      crc.crc_8byte (bit_or (bit_or (vip * 2 ^ 24) (port_be * 2 ^ 8)) proto) 0

  unfoldable pub addr_hash : ℕ → ℕ
  addr_hash ip = crc.crc_4byte ip 0

  -- The loop ends at the address or at a free slot, whichever comes first.
  unfoldable pub set_has : (ℕ → ℕ) → ℕ → Bool
  unfolding probe addr_hash
  set_has set ip =
      elim (probe addr_slots set (λ x. x == ip || x == 0) (addr_hash ip % addr_slots)) [
        | none ↦ false
        | some i ↦ set i == ip
      ]

  unfoldable pub set_add : (ℕ → ℕ) → ℕ → ℕ → ℕ
  unfolding set_has
  set_add set ip =
      let slot = probe addr_slots set (λ x. x == 0) (addr_hash ip % addr_slots) in
      if ip == 0 || set_has set ip
      then set
      else elim slot [ none ↦ set | some i ↦ put_slot set i ip ]

  abbrev pub add_all : (ℕ → ℕ) → List ℕ → ℕ → ℕ
  add_all set [] = set
  add_all set (ip ∷ ips) = add_all (set_add set ip) ips

  unfoldable pub find_service : Snapshot → ℕ → ℕ → ℕ → Option ℕ
  unfolding probe svc_hash
  find_service snap vip port_be proto =
      let start = svc_hash vip port_be proto % svc_slots_count in
      let test = ends_at snap.services (is_service vip port_be proto) in
      elim (probe svc_slots_count snap.svc_slots test start) [
        | none ↦ none
        | some i ↦ snap.svc_slots i
      ]

  unfoldable pub add_service : (ℕ → Option ℕ) → Service → ℕ → Option ℕ
  unfolding probe svc_hash
  add_service slots s =
      let start = svc_hash s.vip s.port_be s.proto % svc_slots_count in
      elim (probe svc_slots_count slots is_free start) [
        | none ↦ slots
        | some i ↦ put_slot slots i (some s.idx)
      ]

  abbrev pub add_services : (ℕ → Option ℕ) → List Service → ℕ → Option ℕ
  add_services slots [] = slots
  add_services slots (s ∷ ss) = add_services (add_service slots s) ss

  unfoldable pub index : Snapshot → Snapshot
  unfolding set_add add_service
  index snap = record snap {
    svc_slots = add_services (λ i. none) snap.services;
    vips = add_all (λ i. 0) (vips_of snap.services);
    lips = add_all (λ i. 0) snap.local_ips;
    locals =
        set_add (add_all (add_all (λ i. 0) (vips_of snap.services)) snap.local_ips) snap.hc_src;
  }

  unfoldable pub is_vip : Snapshot → ℕ → Bool
  unfolding set_has
  is_vip snap ip = set_has snap.vips ip

  unfoldable pub is_lip : Snapshot → ℕ → Bool
  unfolding set_has
  is_lip snap ip = set_has snap.lips ip

  -- The addresses that ARP and ICMP answer for.
  unfoldable pub is_local : Snapshot → ℕ → Bool
  unfolding set_has
  is_local snap ip = set_has snap.locals ip
