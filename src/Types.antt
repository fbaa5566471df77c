-- ===== src/Types.antt =====
-- include/common/types.h: five-tuples and MAC addresses. Addresses and ports are kept as the
-- program keeps them, as numbers in network byte order; a MAC address is the list of its 6 bytes.
pub mod Laws
use l4_loadbalancer.Base.{
  ℕ, ◌+◌, ◌*◌, ◌%◌, ◌^◌, bit_xor, Bool, true, false, ◌&&◌, ◌==◌, List, [], ◌∷◌, if◌then◌else◌,
}

-- The packed struct; its `operator==` compares the 13 bytes, which are those of the fields.
pub record FiveTuple : Type 0 where
  pub src_ip : ℕ
  pub dst_ip : ℕ
  pub src_port : ℕ
  pub dst_port : ℕ
  pub protocol : ℕ

abbrev pub no_tuple : FiveTuple
no_tuple = record { src_ip = 0; dst_ip = 0; src_port = 0; dst_port = 0; protocol = 0 }

unfoldable pub tuple_eq : FiveTuple → FiveTuple → Bool
tuple_eq a b =
    a.src_ip == b.src_ip
    && (a.dst_ip == b.dst_ip
        && (a.src_port == b.src_port && (a.dst_port == b.dst_port && a.protocol == b.protocol)))

unfoldable pub words : FiveTuple → ℕ × ℕ × ℕ
words t = (
  t.src_ip,
  t.dst_ip,
  bit_xor (bit_xor (t.src_port * 2 ^ 16 % 2 ^ 32) t.dst_port) (t.protocol * 2 ^ 8 % 2 ^ 32),
)

unfoldable pub reverse_tuple : FiveTuple → FiveTuple
reverse_tuple t = record {
  src_ip = t.dst_ip;
  dst_ip = t.src_ip;
  src_port = t.dst_port;
  dst_port = t.src_port;
  protocol = t.protocol;
}

-- `FiveTupleHash`, in 64-bit arithmetic.
pub mix : ℕ → ℕ → ℕ
mix h x = bit_xor h x * 1099511628211 % 2 ^ 64

pub tuple_hash : FiveTuple → ℕ
unfolding mix
tuple_hash t =
    mix (mix (mix (mix (mix 14695981039346656037 t.src_ip) t.dst_ip) t.src_port) t.dst_port)
      t.protocol

abbrev pub MacAddr : Type 0
MacAddr = List ℕ

abbrev pub zero_mac : MacAddr
zero_mac = 0 ∷ 0 ∷ 0 ∷ 0 ∷ 0 ∷ 0 ∷ []

unfoldable pub mac_is_zero : MacAddr → Bool
mac_is_zero [] = true
mac_is_zero (b ∷ bs) = if b == 0 then mac_is_zero bs else false

unfoldable pub mac_eq : MacAddr → MacAddr → Bool
mac_eq [] [] = true
mac_eq (a ∷ xs) (b ∷ ys) = a == b && mac_eq xs ys
mac_eq _ _ = false
