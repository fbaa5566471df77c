-- ===== src/Neigh.antt =====
-- include/net/route.h, include/net/neigh.h and src/net/neigh.cpp: the next hop, and the table of MAC
-- addresses. rte_hash is a parameter; `meta_` is an association list in its order of iteration, where
-- a new key comes last. `count_` and `gen_` are only written by one thread.
pub mod Count
pub mod Static
mod Tests
use l4_loadbalancer.Base.{
  ℕ, zero, suc, ◌+◌, ◌-◌, ◌*◌, ◌/◌, ◌%◌, ◌^◌, Bool, true, false, not, ◌&&◌, ◌||◌, ◌==◌, ltb, leb,
  if◌then◌else◌, bit_and, List, [], ◌∷◌, ◌++◌, Option, none, some,
}
use l4_loadbalancer.Base.Bits.{has}
use l4_loadbalancer.Rte.{RteHash}
use l4_loadbalancer.Types.{MacAddr, mac_eq}

pub record Route : Type 0 where
  pub netmask : ℕ
  pub network : ℕ
  pub gateway : ℕ

unfoldable pub route_init : ℕ → ℕ → ℕ → Route
route_init local_ip mask gw = record {
  netmask = mask;
  network = bit_and local_ip mask;
  gateway = gw;
}

unfoldable pub on_link : Route → ℕ → Bool
on_link r ip = r.netmask == 0 || bit_and ip r.netmask == r.network

unfoldable pub next_hop : Route → ℕ → ℕ
unfolding on_link
next_hop r dst = if on_link r dst then dst else r.gateway

abbrev pub neigh_capacity : ℕ
neigh_capacity = 65536

abbrev pub reachable_sec : ℕ
reachable_sec = 300

abbrev pub refresh_sec : ℕ
refresh_sec = 240

abbrev pub request_gap_sec : ℕ
request_gap_sec = 1

pub record Meta : Type 0 where
  pub confirmed : ℕ
  pub requested : ℕ
  pub is_static : Bool
  pub valid : Bool

abbrev pub no_entry : Meta
no_entry = record { confirmed = 0; requested = 0; is_static = false; valid = false }

abbrev pub Metas : Type 0
Metas = List (ℕ × Meta)

abbrev pub find : Metas → ℕ → Option Meta
find [] ip = none
find ((k, m) ∷ ms) ip = if k == ip then some m else find ms ip

abbrev pub put : Metas → ℕ → Meta → Metas
put [] ip v = (ip, v) ∷ []
put ((k, m) ∷ ms) ip v = if k == ip then (k, v) ∷ ms else (k, m) ∷ put ms ip v

abbrev pub drop_key : Metas → ℕ → Metas
drop_key [] ip = []
drop_key ((k, m) ∷ ms) ip = if k == ip then ms else (k, m) ∷ drop_key ms ip

abbrev pub or_new : Option Meta → Meta
or_new none = no_entry
or_new (some m) = m

-- `meta_[ip]`.
abbrev pub entry_of : Metas → ℕ → Meta
entry_of ms ip = or_new (find ms ip)

-- The difference of two 64-bit numbers.
abbrev pub since : ℕ → ℕ → ℕ
since now past = (now + 2 ^ 64 - past) % 2 ^ 64

abbrev valid_bit : ℕ
valid_bit = 2 ^ 63

abbrev mac_number : MacAddr → ℕ
mac_number [] = 0
mac_number (b ∷ bs) = b + 256 * mac_number bs

-- Six bytes in memory order, and the bit that says that there is an entry.
unfoldable pub pack : MacAddr → ℕ
pack mac = mac_number mac + valid_bit

abbrev byte_list : ℕ → ℕ → MacAddr
byte_list zero v = []
byte_list (suc n) v = v % 256 ∷ byte_list n (v / 256)

unfoldable pub unpack : ℕ → MacAddr
unpack v = byte_list 6 v

pub record NeighTable (Handle : Type 0) : Type 0 where
  pub hash : Handle
  pub metas : Metas
  pub gen : ℕ
  pub count : ℕ

-- The tests of `age` on an entry: too old, or to be asked for again.
abbrev pub is_dead : ℕ → Meta → Bool
is_dead now m = not (m.is_static || not m.valid) && leb reachable_sec (since now m.confirmed)

abbrev pub is_due : ℕ → Meta → Bool
is_due now m =
    not (m.is_static || not m.valid)
    && (not (leb reachable_sec (since now m.confirmed))
        && (leb refresh_sec (since now m.confirmed)
            && leb (request_gap_sec * 5) (since now m.requested)))

abbrev pub is_stale : ℕ → Meta → Bool
is_stale now m = not m.valid && (not m.is_static && ltb reachable_sec (since now m.requested))

-- The keys whose entry passes a test, in order.
abbrev pub keys_with : (Meta → Bool) → Metas → List ℕ
keys_with p [] = []
keys_with p ((k, m) ∷ ms) = let rest = keys_with p ms in if p m then k ∷ rest else rest

abbrev pub without : (Meta → Bool) → Metas → Metas
without p [] = []
without p ((k, m) ∷ ms) = let rest = without p ms in if p m then rest else (k, m) ∷ rest

-- `meta_[ip].requested = now` for each address.
abbrev pub mark_requested : ℕ → List ℕ → Metas → Metas
mark_requested now [] ms = ms
mark_requested now (ip ∷ ips) ms =
    mark_requested now ips (put ms ip (record (entry_of ms ip) { requested = now }))

module _ (ops : RteHash ℕ) where
  abbrev pub Neighbours : Type 0
  Neighbours = NeighTable ops.Handle

  abbrev pub initial : ops.Handle → Neighbours
  initial created = record { hash = created; metas = []; gen = 1; count = 0 }

  unfoldable pub neigh_lookup : Neighbours → ℕ → Option MacAddr
  unfolding unpack
  neigh_lookup t ip = elim (ops.lookup t.hash ip) [
    | none ↦ none
    | some v ↦ if has v valid_bit then some (unpack v) else none
  ]

  abbrev pub store_in : Neighbours → ℕ → Option ops.Handle → Neighbours
  store_in t ip none = t
  store_in t ip (some h) =
      let m = entry_of t.metas ip in
      record {
        hash = h;
        metas = put t.metas ip (record m { valid = true });
        gen = (t.gen + 1) % 2 ^ 32;
        count = if m.valid then t.count else (t.count + 1) % 2 ^ 32;
      }

  unfoldable pub store : Neighbours → ℕ → MacAddr → Neighbours
  unfolding pack
  store t ip mac = store_in t ip (ops.add t.hash ip (pack mac))

  abbrev pub forget : Neighbours → ℕ → Option Meta → Neighbours
  forget t ip none = t
  forget t ip (some m) = record t {
    metas = drop_key t.metas ip;
    count = if m.valid then (t.count + 2 ^ 32 - 1) % 2 ^ 32 else t.count;
  }

  unfoldable pub erase : Neighbours → ℕ → Neighbours
  erase t ip =
      let t' = forget t ip (find t.metas ip) in
      record t' { hash = ops.del t.hash ip; gen = (t.gen + 1) % 2 ^ 32 }

  unfoldable pub add_static : Neighbours → ℕ → MacAddr → Neighbours
  unfolding store
  add_static t ip mac =
      let t' = store t ip mac in
      record t' { metas = put t'.metas ip (record (entry_of t'.metas ip) { is_static = true }) }

  -- `meta_[ip].confirmed = now`.
  abbrev pub confirm : Neighbours → ℕ → ℕ → Neighbours
  confirm t ip now = record t {
    metas = put t.metas ip (record (entry_of t.metas ip) { confirmed = now });
  }

  -- The entry has this address already.
  abbrev pub same_mac : Option MacAddr → MacAddr → Bool
  same_mac none mac = false
  same_mac (some old) mac = mac_eq old mac

  unfoldable pub learn : Neighbours → ℕ → MacAddr → Bool → ℕ → Neighbours
  unfolding neigh_lookup store
  learn t ip mac solicited now =
      let m = entry_of t.metas ip in
      let fresh = if m.valid && same_mac (neigh_lookup t ip) mac then t else store t ip mac in
      if m.is_static
      then t
      else (if not solicited && (not m.valid && leb (neigh_capacity / 2) t.count)
          then t
          else confirm fresh ip now)

  unfoldable pub hint : Neighbours → ℕ → MacAddr → ℕ → Neighbours
  unfolding store
  hint t ip mac now =
      if (entry_of t.metas ip).valid
      then t
      else (if leb (neigh_capacity / 2) t.count then t else confirm (store t ip mac) ip now)

  -- Reading `meta_[ip]` makes an entry.
  unfoldable pub want_request : Neighbours → ℕ → ℕ → Bool × Neighbours
  want_request t ip now =
      let m = entry_of t.metas ip in
      if m.is_static || ltb (since now m.requested) request_gap_sec
      then (false, record t { metas = put t.metas ip m })
      else (true, record t { metas = put t.metas ip (record m { requested = now }) })

  abbrev pub erase_all : List ℕ → Neighbours → Neighbours
  erase_all [] t = t
  erase_all (ip ∷ ips) t = erase_all ips (erase t ip)

  -- The addresses to ask for are added to those of the caller.
  unfoldable pub age : Neighbours → ℕ → List ℕ → List ℕ × Neighbours
  unfolding erase
  age t now refresh =
      let dead = keys_with (is_dead now) t.metas in
      let due = refresh ++ keys_with (is_due now) t.metas in
      let t' = erase_all dead t in
      (due, record t' { metas = without (is_stale now) (mark_requested now due t'.metas) })
