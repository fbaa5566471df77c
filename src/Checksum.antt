-- ===== src/Checksum.antt =====
-- include/protocol/checksum.h and src/protocol/checksum.cpp: the Internet checksum in full and
-- by increments. Memory is a list of bytes; a 16-bit load takes the low byte first, as on the
-- little-endian hosts that the program is built for. `IcmpHandler::calculate_checksum` of
-- src/protocol/icmp.cpp is the same code as `IpChecksum::calculate`.
pub mod Closed
pub mod Update
mod Tests
use l4_loadbalancer.Base.{
  ℕ, zero, suc, ◌+◌, ◌-◌, ◌*◌, ◌/◌, ◌%◌, ◌^◌, List, [], ◌∷◌, ◌==◌, if◌then◌else◌,
}

-- `while (sum >> 16) sum = (sum & 0xFFFF) + (sum >> 16);` on fuel.
unfoldable pub fold_carries : ℕ → ℕ → ℕ
fold_carries zero sum = sum
fold_carries (suc fuel) sum =
    let folded = fold_carries fuel (sum % 2 ^ 16 + sum / 2 ^ 16) in
    if sum / 2 ^ 16 == 0 then sum else folded

-- Three rounds end the loop from any 32-bit sum.
abbrev pub carry_fuel : ℕ
carry_fuel = 3

-- `static_cast<uint16_t>(~sum)`.
abbrev pub not16 : ℕ → ℕ
not16 sum = (2 ^ 32 - 1 - sum) % 2 ^ 16

-- The loop over 16-bit words and the odd byte at the end; `sum` is a `uint32_t`.
unfoldable pub sum_words : List ℕ → ℕ → ℕ
sum_words [] sum = sum
sum_words (a ∷ []) sum = (sum + a) % 2 ^ 32
sum_words (a ∷ b ∷ rest) sum = sum_words rest ((sum + (a + 256 * b)) % 2 ^ 32)

-- `IpChecksum::calculate`.
unfoldable pub calculate : List ℕ → ℕ
unfolding fold_carries sum_words
calculate bytes = not16 (fold_carries carry_fuel (sum_words bytes 0))

-- `IpChecksum::incremental_update` and `L4Checksum::incremental_update`, which are the same code.
unfoldable pub incremental_update : ℕ → ℕ → ℕ → ℕ
unfolding fold_carries
incremental_update old_sum old_val new_val =
    not16 (fold_carries carry_fuel ((2 ^ 16 - 1 - old_sum) + (2 ^ 16 - 1 - old_val) + new_val))

-- The body of `update_tcp_checksum_ip`, on the header's checksum field.
unfoldable pub update_tcp_checksum_ip : ℕ → ℕ → ℕ → ℕ
update_tcp_checksum_ip sum old_ip new_ip =
    incremental_update (incremental_update sum (old_ip / 2 ^ 16) (new_ip / 2 ^ 16))
      (old_ip % 2 ^ 16) (new_ip % 2 ^ 16)

unfoldable pub update_tcp_checksum_port : ℕ → ℕ → ℕ → ℕ
update_tcp_checksum_port sum old_port new_port = incremental_update sum old_port new_port

-- A UDP checksum of 0 means that there is none, so a computed 0 is sent as 0xFFFF.
unfoldable pub avoid_zero : ℕ → ℕ
avoid_zero sum = if sum == 0 then 0xFFFF else sum

unfoldable pub update_udp_checksum_ip : ℕ → ℕ → ℕ → ℕ
unfolding avoid_zero
update_udp_checksum_ip sum old_ip new_ip =
    if sum == 0
    then sum
    else avoid_zero (
        incremental_update (incremental_update sum (old_ip / 2 ^ 16) (new_ip / 2 ^ 16))
          (old_ip % 2 ^ 16) (new_ip % 2 ^ 16))

unfoldable pub update_udp_checksum_port : ℕ → ℕ → ℕ → ℕ
unfolding avoid_zero
update_udp_checksum_port sum old_port new_port =
    if sum == 0 then sum else avoid_zero (incremental_update sum old_port new_port)

-- `htons` of a 16-bit value on a little-endian host.
unfoldable pub htons : ℕ → ℕ
htons x = x % 256 * 256 + x / 256 % 256

-- `L4Checksum::calculate_pseudo_header_sum`, in `uint32_t` arithmetic.
unfoldable pub calculate_pseudo_header_sum : ℕ → ℕ → ℕ → ℕ → ℕ
unfolding htons
calculate_pseudo_header_sum src_ip dst_ip protocol length =
    (src_ip / 2 ^ 16
      + src_ip % 2 ^ 16
      + (dst_ip / 2 ^ 16 + dst_ip % 2 ^ 16)
      + htons protocol
      + htons length)
    % 2 ^ 32

-- The sum that `recalculate_tcp_checksum` stores, over the segment's bytes with a zero checksum.
unfoldable pub recalculate_tcp_checksum : ℕ → ℕ → ℕ → List ℕ → ℕ → ℕ
unfolding fold_carries sum_words calculate_pseudo_header_sum
recalculate_tcp_checksum src_ip dst_ip protocol segment tcp_len = not16 (
    fold_carries carry_fuel
      (sum_words segment (calculate_pseudo_header_sum src_ip dst_ip protocol (tcp_len % 2 ^ 16))))

-- The sum that `recalculate_udp_checksum` stores.
unfoldable pub recalculate_udp_checksum : ℕ → ℕ → ℕ → List ℕ → ℕ → ℕ
unfolding fold_carries sum_words calculate_pseudo_header_sum avoid_zero
recalculate_udp_checksum src_ip dst_ip protocol datagram udp_len = avoid_zero (
    not16 (
      fold_carries carry_fuel
        (sum_words datagram (calculate_pseudo_header_sum src_ip dst_ip protocol udp_len))))
