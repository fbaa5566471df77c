-- ===== src/Mbuf/Bytes.antt =====
-- Reading what was written: bytes and fields of a frame.
use l4_loadbalancer.Base.{
  ℕ, ◌+◌, ◌-◌, ◌^◌, ◌≤◌, ◌<◌, ◌≡◌, refl, true, ◌&&◌, arith, ltb, leb, List, length, get_or,
}
use l4_loadbalancer.Header.{Memory, le16, le32}
use l4_loadbalancer.Mbuf.{write, put16, put32, le16_bytes, le32_bytes}

pub write-before :
    (mem : Memory) (at : ℕ) (bs : List ℕ) (i : ℕ) → i < at → write mem at bs i ≡ mem i
unfolding write
write-before mem at bs i h = ground (arith, h)

pub write-after :
    (mem : Memory) (at : ℕ) (bs : List ℕ) (i : ℕ) → at + length bs ≤ i → write mem at bs i ≡ mem i
unfolding write
write-after mem at bs i h = ground (arith, h)

pub write-in :
    (mem : Memory) (at : ℕ) (bs : List ℕ) (k : ℕ)
    → k < length bs
    → write mem at bs (at + k) ≡ get_or bs k 0
unfolding write
write-in mem at bs k h = rw (inside at k (length bs) h, offset at k) refl
  where
    inside : (at k n : ℕ) → k < n → (leb at (at + k) && ltb (at + k) (at + n)) ≡ true
    inside at k n h = ground arith

    offset : (at k : ℕ) → at + k - at ≡ k
    offset at k = omega arith

pub put16-before : (mem : Memory) (at v i : ℕ) → i < at → put16 mem at v i ≡ mem i
unfolding put16
put16-before mem at v i h = write-before mem at (le16_bytes v) i h

pub put16-after : (mem : Memory) (at v i : ℕ) → at + 2 ≤ i → put16 mem at v i ≡ mem i
unfolding put16
put16-after mem at v i h = write-after mem at (le16_bytes v) i h

pub put32-before : (mem : Memory) (at v i : ℕ) → i < at → put32 mem at v i ≡ mem i
unfolding put32
put32-before mem at v i h = write-before mem at (le32_bytes v) i h

pub put32-after : (mem : Memory) (at v i : ℕ) → at + 4 ≤ i → put32 mem at v i ≡ mem i
unfolding put32
put32-after mem at v i h = write-after mem at (le32_bytes v) i h

-- The byte at `i`, which is the `k`-th of those written.
pub write-at :
    (mem : Memory) (at : ℕ) (bs : List ℕ) (i k : ℕ)
    → i ≡ at + k
    → k < length bs
    → write mem at bs i ≡ get_or bs k 0
write-at mem at bs i k e h = rw e (write-in mem at bs k h)

pub le16-put16 : (mem : Memory) (at v : ℕ) → v < 2 ^ 16 → le16 (put16 mem at v) at ≡ v
unfolding put16
le16-put16 mem at v h =
    rw
      (
        write-at mem at (le16_bytes v) at 0 (omega arith) (omega arith),
        write-at mem at (le16_bytes v) (at + 1) 1 (omega arith) (omega arith),
      )
      (omega (arith, h))

pub le32-put32 : (mem : Memory) (at v : ℕ) → v < 2 ^ 32 → le32 (put32 mem at v) at ≡ v
unfolding put32
le32-put32 mem at v h =
    rw
      (
        write-at mem at (le32_bytes v) at 0 (omega arith) (omega arith),
        write-at mem at (le32_bytes v) (at + 1) 1 (omega arith) (omega arith),
        write-at mem at (le32_bytes v) (at + 2) 2 (omega arith) (omega arith),
        write-at mem at (le32_bytes v) (at + 2 + 1) 3 (omega arith) (omega arith),
      )
      (omega (arith, h))

-- A field whose bytes are those of another memory.
pub le16-same :
    (mem mem' : Memory) (i : ℕ)
    → mem' i ≡ mem i
    → mem' (i + 1) ≡ mem (i + 1)
    → le16 mem' i ≡ le16 mem i
le16-same mem mem' i a b = rw (a, b) refl

pub le32-same :
    (mem mem' : Memory) (i : ℕ)
    → ((k : ℕ) → i ≤ k → k < i + 4 → mem' k ≡ mem k)
    → le32 mem' i ≡ le32 mem i
le32-same mem mem' i h =
    rw
      (
        h i (omega arith) (omega arith),
        h (i + 1) (omega arith) (omega arith),
        h (i + 2) (omega arith) (omega arith),
        h (i + 2 + 1) (omega arith) (omega arith),
      )
      refl
