-- ===== src/Snat/Tests.antt =====
-- The second of four workers takes a port, and the theorems of the steering at it.
use l4_loadbalancer.Base.{ℕ, ◌+◌, ◌<◌, ◌≡◌, refl, true, false, [], ◌∷◌, get_or, arith}
use l4_loadbalancer.Checksum.{htons}
use l4_loadbalancer.Rte.Assoc.{assoc, assoc-laws}
use l4_loadbalancer.Rte.{RteHash}
use l4_loadbalancer.Session.Table.{init, create, lookup, key_in_use}
use l4_loadbalancer.Snat.Owned.{Owned}
use l4_loadbalancer.Snat.Ends.{create_fullnat-Ends}
use l4_loadbalancer.Snat.{Worker, Target, made, drop_no_port, create_fullnat, candidate}
use l4_loadbalancer.Steering.Owner.{init_sw-owners, init_hw-owners}
use l4_loadbalancer.Steering.{
  Hashes, Steering, initial, init_sw, init_hw, fwd_owner, ret_owner, port_step,
}
use l4_loadbalancer.Types.Laws.{tuple_eq_iff}
use l4_loadbalancer.Types.{FiveTuple, tuple_eq}

abbrev ops : RteHash FiveTuple
ops = assoc tuple_eq 16

abbrev dpdk : Hashes
dpdk = record {
  jhash_3words = λ a b c seed. a + b + c + seed;
  softrss_be = λ words key. get_or words 0 0;
  convert_rss_key = λ key. key;
}

abbrev client : FiveTuple
client = record { src_ip = 1; dst_ip = 2; src_port = 3; dst_port = 4; protocol = 6 }

abbrev rs : Target
rs = record { ip = 5; port_be = 6 }

abbrev four : Steering
four = init_sw initial 4

abbrev second : Worker ops.Handle
second = record { idx = 1; sessions = init ops [] 4 1; lip_cursor = []; lip_rr = 0; now_tick = 1 }

program : Unit {0}
unfolding create_fullnat init_sw init create lookup key_in_use tuple_eq ret_owner port_step htons
program = tt

-- 10001 is the first port that belongs to worker 1.
first_port : candidate 1 4 0 ≡ 10001
unfolding candidate
first_port = refl

makes_one : (create_fullnat dpdk ops four second (9 ∷ []) client rs 10).0 ≡ made 0
unfolding program
makes_one = refl

no_address : (create_fullnat dpdk ops four second [] client rs 10).0 ≡ drop_no_port
unfolding program
no_address = refl

few : four.workers ≡ 4
unfolding program
few = refl

create_fullnat-Ends_example :
    (li : ℕ) × (li < 1)
    × Owned dpdk ops
        (assoc-laws tuple_eq tuple_eq_iff 16)
        four
        client
        rs
        10
        1
        second.sessions
        (get_or (9 ∷ []) li 0)
        0
        (create_fullnat dpdk ops four second (9 ∷ []) client rs 10).1.sessions
unfolding program
create_fullnat-Ends_example =
    create_fullnat-Ends dpdk ops (assoc-laws tuple_eq tuple_eq_iff 16) four client rs 10 second
      (9 ∷ []) (omega arith) (omega arith) refl

init_sw-owners_example :
    (fwd_owner dpdk (init_sw initial 4) client < (init_sw initial 4).workers)
    × (ret_owner dpdk (init_sw initial 4) client < (init_sw initial 4).workers)
init_sw-owners_example = init_sw-owners dpdk initial 4 client (omega arith)

init_hw-owners_example :
    (fwd_owner dpdk (init_hw dpdk initial 4 [] (λ i. i) 128 true false) client < 4)
    × (ret_owner dpdk (init_hw dpdk initial 4 [] (λ i. i) 128 true false) client < 4)
init_hw-owners_example =
    init_hw-owners dpdk initial 4 [] (λ i. i) 128 true false client (omega arith) (omega arith)
      (omega arith)
