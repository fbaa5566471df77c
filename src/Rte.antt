-- ===== src/Rte.antt =====
-- DPDK's rte_hash, which the program calls and does not implement: the functions that its tables
-- use, and what the documentation of rte_hash_add_key_data, rte_hash_lookup_data and
-- rte_hash_del_key promises of them.
pub mod Assoc
use l4_loadbalancer.Base.{ℕ, ◌≡◌, ◌≢◌, Option, none, some}

-- `add` is `none` where the call returns a negative number. Values are indices or packed words.
pub record RteHash (K : Type 0) : Type 1 where
  pub Handle : Type 0
  pub lookup : Handle → K → Option ℕ
  pub add : Handle → K → ℕ → Option Handle
  pub del : Handle → K → Handle

-- A successful `add` stores the value under its key, and replaces an older one; `del` removes one
-- key; no other key is touched.
pub record RteHashLaws {K : Type 0} (hash : RteHash K) : Type 0 where
  pub lookup-add_self :
      (h h' : hash.Handle) (k : K) (v : ℕ) → hash.add h k v ≡ some h' → hash.lookup h' k ≡ some v
  pub lookup-add_ne :
      (h h' : hash.Handle) (k j : K) (v : ℕ)
      → hash.add h k v ≡ some h'
      → k ≢ j
      → hash.lookup h' j ≡ hash.lookup h j
  pub lookup-del_self : (h : hash.Handle) (k : K) → hash.lookup (hash.del h k) k ≡ none
  pub lookup-del_ne :
      (h : hash.Handle) (k j : K) → k ≢ j → hash.lookup (hash.del h k) j ≡ hash.lookup h j
