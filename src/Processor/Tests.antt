-- ===== src/Processor/Tests.antt =====
-- Frames through `process_packet`, and the theorems at them.
use l4_loadbalancer.Base.{
  ℕ, ◌≤◌, ◌<◌, ◌≡◌, refl, true, false, List, [], ◌∷◌, ◌++◌, replicate, arith, inl,
}
use l4_loadbalancer.Header.{le16, le32, is_ipv4, is_tcp}
use l4_loadbalancer.Manager.Commands.{started}
use l4_loadbalancer.Manager.{Manager, init, build, unindexed}
use l4_loadbalancer.Neigh.{route_init}
use l4_loadbalancer.Parser.{PacketMeta}
use l4_loadbalancer.Processor.Arp.{handle_arp}
use l4_loadbalancer.Processor.ArpProbe.{handle_arp-zero_sender}
use l4_loadbalancer.Processor.Dispatch.{process_packet}
use l4_loadbalancer.Processor.Redirect.{Handed, process_packet-Handed}
use l4_loadbalancer.Processor.{Stat, send, drop, redirect, consumed, set_ctx, add_stat}
use l4_loadbalancer.Rewrite.Frame.{IsRewritten, nat_rewrite-IsRewritten}
use l4_loadbalancer.Rewrite.Nat.{NatRewrite, NatOptions, RewriteResult, no_outcome, nat_rewrite}
use l4_loadbalancer.Session.Table.{init as init_sessions, lookup, key_in_use}
use l4_loadbalancer.Snapshot.{index}
use l4_loadbalancer.Session.{wheel_link}
use l4_loadbalancer.Base.Int.{◌+ℤ◌}
use l4_loadbalancer.Steering.{port_step, init_sw}
use l4_loadbalancer.Types.{words, mac_is_zero}
use l4_loadbalancer.Processor.Sample.{
  dpdk, platform, own_mac, rs_mac, addr, config, plane, worker, received, no_meta, syn_bytes, state,
}

program : Unit {0}
unfolding process_packet init build index init_sessions init_sw route_init lookup is_ipv4 handle_arp
    nat_rewrite add_stat words port_step key_in_use mac_is_zero wheel_link ◌+ℤ◌
program = tt

-- The first worker hands the SYN on, the second opens a session and sends it to the real server.
handed_on : (process_packet platform plane no_meta (state 0 syn_bytes) false).0 ≡ redirect 1
unfolding program
handed_on = refl

not_twice :
    (process_packet platform plane no_meta (state 0 syn_bytes) true).0 ≡ drop Stat.drop_other
unfolding program
not_twice = refl

sent : (process_packet platform plane no_meta (state 1 syn_bytes) true).0 ≡ send
unfolding program
sent = refl

to_rs :
    (le32 (process_packet platform plane no_meta (state 1 syn_bytes) true).1.mbuf.mem 26 ≡ addr 4)
    × (le32 (process_packet platform plane no_meta (state 1 syn_bytes) true).1.mbuf.mem 30 ≡ addr 3)
    × (le16 (process_packet platform plane no_meta (state 1 syn_bytes) true).1.mbuf.mem 36 ≡ 36895)
unfolding program
to_rs = (refl, refl, refl)

process_packet-Handed_example :
    Handed platform plane false
      (state 0 syn_bytes)
      1
      (process_packet platform plane no_meta (state 0 syn_bytes) false).1
process_packet-Handed_example =
    process_packet-Handed platform plane no_meta (state 0 syn_bytes) false 1 handed_on

-- An ARP probe for the address of the service.
abbrev probe_bytes : List ℕ
probe_bytes =
    replicate 6 255
    ++ (replicate 6 1
        ++ (8 ∷ 6 ∷ 0 ∷ 1 ∷ 8 ∷ 0 ∷ 6 ∷ 4 ∷ 0 ∷ 1 ∷ replicate 6 1
            ++ (replicate 10 0 ++ (10 ∷ 0 ∷ 0 ∷ 2 ∷ []))))

abbrev manager : Manager
manager = started 2 platform.crc (λ bs. []) config

handle_arp-zero_sender_example :
    handle_arp platform plane (state 0 probe_bytes)
    ≡ (consumed, set_ctx (state 0 probe_bytes) (add_stat (worker 0) Stat.arp))
unfolding program
handle_arp-zero_sender_example =
    handle_arp-zero_sender platform plane (unindexed 2 platform.crc (λ bs. []) manager)
      (state 0 probe_bytes) (omega arith) refl (omega arith) refl

abbrev rewrite : NatRewrite
rewrite = record {
  src_ip = addr 4;
  dst_ip = addr 3;
  src_port = 4135;
  dst_port = 36895;
  src_mac = own_mac;
  dst_mac = rs_mac;
}

abbrev options : NatOptions
options = record {
  strip_ts = true;
  add_toa = false;
  toa_ip = 0;
  toa_port = 0;
  tx_offloads = 0;
  mtu = 1500;
}

abbrev syn_meta : PacketMeta
syn_meta = record no_meta { l3_offset = 14; l4_offset = 34 }

nat_rewrite-IsRewritten_example :
    ((received syn_bytes).mem 22 ≤ 1
      → nat_rewrite dpdk (received syn_bytes) syn_meta rewrite options no_outcome
        ≡ (RewriteResult.ttl_exceeded, received syn_bytes, syn_meta, no_outcome))
    × (1 < (received syn_bytes).mem 22
        → ((nat_rewrite dpdk (received syn_bytes) syn_meta rewrite options no_outcome).0
            ≡ RewriteResult.ok)
          × IsRewritten
              (received syn_bytes).mem
              (nat_rewrite dpdk (received syn_bytes) syn_meta rewrite options no_outcome).1.mem
              14
              34
              rewrite)
unfolding is_tcp
nat_rewrite-IsRewritten_example =
    nat_rewrite-IsRewritten dpdk (received syn_bytes) syn_meta rewrite options no_outcome refl
      (omega arith) (omega arith) (inl refl) (omega arith) (omega arith) (omega arith) (omega arith)
      refl refl
