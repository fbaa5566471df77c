-- ===== src/Reply.antt =====
-- The packets that the balancer answers or sends in its own name: src/protocol/arp.cpp and
-- src/protocol/icmp.cpp, with include/protocol/arp.h and the writers of include/protocol/ethernet.h.
-- An ARP frame is the record of its fields; an ICMP message is the list of its bytes.
pub mod Answers
mod Tests
use l4_loadbalancer.Base.{
  ℕ, ◌+◌, ◌%◌, ◌/◌, ◌^◌, Bool, true, false, ◌&&◌, ◌==◌, if◌then◌else◌, List, [], ◌∷◌, ◌++◌, Option,
  none, some,
}
use l4_loadbalancer.Checksum.{htons, fold_carries, sum_words, not16, carry_fuel}
use l4_loadbalancer.Types.{MacAddr, zero_mac}

pub record EthernetHeader : Type 0 where
  pub dst_mac : MacAddr
  pub src_mac : MacAddr
  pub ether_type : ℕ

pub record ArpHeader : Type 0 where
  pub hw_type : ℕ
  pub proto_type : ℕ
  pub hw_len : ℕ
  pub proto_len : ℕ
  pub operation : ℕ
  pub sender_mac : MacAddr
  pub sender_ip : ℕ
  pub target_mac : MacAddr
  pub target_ip : ℕ

abbrev pub op_request : ℕ
op_request = 1

abbrev pub op_reply : ℕ
op_reply = 2

unfoldable pub is_request : ArpHeader → Bool
unfolding htons
is_request arp = htons arp.operation == op_request

unfoldable pub is_reply : ArpHeader → Bool
unfolding htons
is_reply arp = htons arp.operation == op_reply

unfoldable pub is_eth_ipv4 : ArpHeader → Bool
unfolding htons
is_eth_ipv4 arp =
    htons arp.hw_type == 1
    && (htons arp.proto_type == 0x0800 && (arp.hw_len == 6 && arp.proto_len == 4))

unfoldable pub is_arp : EthernetHeader → Bool
unfolding htons
is_arp eth = htons eth.ether_type == 0x0806

unfoldable pub swap_mac : EthernetHeader → EthernetHeader
swap_mac eth = record eth { dst_mac = eth.src_mac; src_mac = eth.dst_mac }

unfoldable pub make_reply : EthernetHeader → ArpHeader → MacAddr → EthernetHeader × ArpHeader
unfolding htons
make_reply eth arp local_mac = (
  record eth { dst_mac = arp.sender_mac; src_mac = local_mac },
  record arp {
    operation = htons op_reply;
    target_mac = arp.sender_mac;
    target_ip = arp.sender_ip;
    sender_mac = local_mac;
    sender_ip = arp.target_ip;
  },
)

abbrev pub broadcast : MacAddr
broadcast = 0xFF ∷ 0xFF ∷ 0xFF ∷ 0xFF ∷ 0xFF ∷ 0xFF ∷ []

unfoldable pub build_request : ℕ → ℕ → MacAddr → EthernetHeader × ArpHeader
unfolding htons
build_request target_ip local_ip local_mac = (
  record { dst_mac = broadcast; src_mac = local_mac; ether_type = htons 0x0806 },
  record {
    hw_type = htons 1;
    proto_type = htons 0x0800;
    hw_len = 6;
    proto_len = 4;
    operation = htons op_request;
    sender_mac = local_mac;
    sender_ip = local_ip;
    target_mac = zero_mac;
    target_ip = target_ip;
  },
)

unfoldable pub build_gratuitous : ℕ → MacAddr → EthernetHeader × ArpHeader
unfolding build_request
build_gratuitous local_ip local_mac = build_request local_ip local_ip local_mac

-- `IcmpHandler::calculate_checksum`.
unfoldable pub calculate_checksum : List ℕ → ℕ
unfolding fold_carries sum_words
calculate_checksum bytes = not16 (fold_carries carry_fuel (sum_words bytes 0))

-- The answer to an echo request: the message with its type, code and checksum changed.
unfoldable pub handle_echo_request : List ℕ → Option (List ℕ)
unfolding calculate_checksum
handle_echo_request (type ∷ code ∷ sum_low ∷ sum_high ∷ rest) =
    let checksum = calculate_checksum (0 ∷ 0 ∷ 0 ∷ 0 ∷ rest) in
    if type == 8 then some (0 ∷ 0 ∷ checksum % 256 ∷ checksum / 256 ∷ rest) else none
handle_echo_request _ = none
