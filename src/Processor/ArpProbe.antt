-- ===== src/Processor/ArpProbe.antt =====
-- A defect of `handle_arp`: an ARP probe, whose sender has no address yet, is taken for a packet of the
-- balancer's own, since the lookup of local addresses finds the address 0.
use l4_loadbalancer.Base.{
  ℕ, ◌+◌, ◌≤◌, ◌<◌, ◌≡◌, refl, true, false, ltb, arith, Bool-cases, inl, inr, length,
}
use l4_loadbalancer.Header.{ethernet_size}
use l4_loadbalancer.Processor.Arp.{arp_at, arp_size, handle_arp}
use l4_loadbalancer.Processor.Resolve.{St}
use l4_loadbalancer.Processor.{Platform, Dataplane, Stat, consumed, add_stat, set_ctx}
use l4_loadbalancer.Reply.{is_eth_ipv4}
use l4_loadbalancer.Snapshot.Local.{zero_is_local}
use l4_loadbalancer.Snapshot.{Snapshot, addr_slots, index, is_local, vips_of}

ltb_of_le : (a b : ℕ) → b ≤ a → ltb a b ≡ false
ltb_of_le a b h = ground arith

module _ (p : Platform) (dp : Dataplane p.neigh_hash.Handle) where
  -- With any configuration that fits the tables: an ARP frame whose sender address is 0 is dropped without
  -- an answer, whatever address it asks for, and all that changes is the counter of ARP frames.
  pub handle_arp-zero_sender :
      (snap : Snapshot) (st : St p dp)
      → length (vips_of snap.services) + length snap.local_ips + 1 < addr_slots
      → st.snap ≡ index p.crc snap
      → ethernet_size + arp_size ≤ st.mbuf.data_len
      → (arp_at st.mbuf.mem ethernet_size).sender_ip ≡ 0
      → handle_arp p dp st ≡ (consumed, set_ctx st (add_stat st.ctx Stat.arp))
  unfolding handle_arp
  handle_arp-zero_sender snap st room built long zero =
      elim (Bool-cases (is_eth_ipv4 (arp_at st.mbuf.mem ethernet_size))) [
        | inl e ↦ rw (handle_arp, short, e, local) refl
        | inr e ↦ rw (handle_arp, short, e) refl
      ]
    where
      short : ltb st.mbuf.data_len (ethernet_size + arp_size) ≡ false
      short = ltb_of_le st.mbuf.data_len (ethernet_size + arp_size) long

      local : is_local p.crc st.snap (arp_at st.mbuf.mem ethernet_size).sender_ip ≡ true
      local = rw (zero, built) (zero_is_local p.crc snap room)
