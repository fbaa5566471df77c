-- ===== src/Reply/Answers.antt =====
-- What the receivers of these packets find in them.
use l4_loadbalancer.Base.{
  ℕ, ◌+◌, ◌%◌, ◌/◌, ◌≤◌, ◌≡◌, refl, true, List, [], ◌∷◌, arith, length, some,
}
use l4_loadbalancer.Checksum.Closed.{IsBytes}
use l4_loadbalancer.Checksum.Update.Step.{calculate_verifies}
use l4_loadbalancer.Checksum.{calculate}
use l4_loadbalancer.Reply.{
  EthernetHeader, ArpHeader, is_reply, is_eth_ipv4, is_arp, make_reply, build_request,
  calculate_checksum, handle_echo_request,
}
use l4_loadbalancer.Types.{MacAddr}

-- A reply that tells the host `asker` with the address `asker_ip` that `ip` is at `mac`.
pub record IsAnswer (asker : MacAddr) (asker_ip ip : ℕ) (mac : MacAddr)
    (frame : EthernetHeader × ArpHeader) : Type 0 where
  pub to_asker : frame.0.dst_mac ≡ asker
  pub from_owner : frame.0.src_mac ≡ mac
  pub arp_frame : is_arp frame.0 ≡ true
  pub known_kind : is_eth_ipv4 frame.1 ≡ true
  pub reply : is_reply frame.1 ≡ true
  pub owner : (frame.1.sender_ip ≡ ip) × (frame.1.sender_mac ≡ mac)
  pub target : (frame.1.target_ip ≡ asker_ip) × (frame.1.target_mac ≡ asker)

-- The reply to a request of `build_request` answers it: it goes to the sender's MAC address from the
-- given one, is an ARP reply for Ethernet and IPv4, and says that the requested address is at the
-- given MAC address, to the sender's address.
pub make_reply-IsAnswer :
    (target_ip asker_ip : ℕ) (asker mac : MacAddr)
    → IsAnswer asker asker_ip target_ip mac (
        make_reply
          (build_request target_ip asker_ip asker).0
          (build_request target_ip asker_ip asker).1
          mac)
unfolding make_reply build_request is_reply is_eth_ipv4 is_arp
make_reply-IsAnswer target_ip asker_ip asker mac = record {
  to_asker = refl;
  from_owner = refl;
  arp_frame = refl;
  known_kind = refl;
  reply = refl;
  owner = (refl, refl);
  target = (refl, refl);
}

-- The answer to an echo request of at most 65536 bytes is an echo reply with the same identifier,
-- sequence number and data, and its checksum is right: the checksum of the whole message is 0.
pub handle_echo_request-verifies :
    (code sum_low sum_high : ℕ) (rest : List ℕ)
    → length rest + 4 ≤ 65536
    → IsBytes rest
    → (c : ℕ) × (handle_echo_request (8 ∷ code ∷ sum_low ∷ sum_high ∷ rest)
        ≡ some (0 ∷ 0 ∷ c % 256 ∷ c / 256 ∷ rest))
      × (calculate (0 ∷ 0 ∷ c % 256 ∷ c / 256 ∷ rest) ≡ 0)
unfolding handle_echo_request calculate
handle_echo_request-verifies code sum_low sum_high rest short bytes = (
  calculate_checksum (0 ∷ 0 ∷ 0 ∷ 0 ∷ rest),
  refl,
  calculate_verifies (0 ∷ 0 ∷ []) rest 1 refl (omega arith) (omega arith) bytes,
)
