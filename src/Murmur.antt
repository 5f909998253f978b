-- ===== src/Murmur.antt =====
-- utils/hash.go: the Murmur3 hash functions over the bytes of a key.
-- A pointer to `bytes` bytes is the list of those bytes; a machine word is a number below its
-- modulus, and a wide load reads little-endian, as the supported hosts do.
pub mod Bounds
use Prim.Native.Nat.{bit_or, bit_xor}
use aresdb.Prelude.{
  ℕ, zero, suc, ◌+◌, ◌-◌, ◌*◌, ◌/◌, ◌%◌, ◌^◌, ◌≡◌, refl, List, [], ◌∷◌, ltb, leb, if◌then◌else◌,
  get_or, drop,
}

abbrev pub u32 : ℕ → ℕ
u32 x = x % 2 ^ 32

abbrev pub u64 : ℕ → ℕ
u64 x = x % 2 ^ 64

-- `(x << r) | (x >> (w - r))` at width 32
rotl32 : ℕ → ℕ → ℕ
rotl32 x r = bit_or (u32 (x * 2 ^ r)) (x / 2 ^ (32 - r))

rotl64 : ℕ → ℕ → ℕ
rotl64 x r = bit_or (u64 (x * 2 ^ r)) (x / 2 ^ (64 - r))

-- The little-endian number in the first `n` bytes of a list.
unfoldable pub load : ℕ → List ℕ → ℕ
load zero bs = 0
load (suc n) bs = get_or bs 0 0 + 256 * load n (drop 1 bs)

-- `k1 *= c1; k1 = rotl(k1, 15); k1 *= c2`
mix_k1 : ℕ → ℕ
unfolding rotl32
mix_k1 k1 = u32 (rotl32 (u32 (k1 * 0xcc9e2d51)) 15 * 0x1b873593)

-- The loop over the 4-byte blocks: the hash so far and the blocks left.
blocks32 : ℕ → List ℕ → ℕ → ℕ
unfolding rotl32 mix_k1 load
blocks32 zero bs h1 = h1
blocks32 (suc n) bs h1 =
    blocks32 n (drop 4 bs) (u32 (rotl32 (bit_xor h1 (mix_k1 (load 4 bs))) 13 * 5 + 0xe6546b64))

-- The `switch tailBytes & 3`, whose cases fall through.
tail32 : ℕ → List ℕ → ℕ → ℕ
unfolding mix_k1
tail32 zero tail h1 = h1
tail32 (suc zero) tail h1 = bit_xor h1 (mix_k1 (get_or tail 0 0))
tail32 (suc (suc zero)) tail h1 =
    bit_xor h1 (mix_k1 (bit_xor (get_or tail 1 0 * 2 ^ 8) (get_or tail 0 0)))
tail32 _ tail h1 = bit_xor h1 (
    mix_k1
      (bit_xor (bit_xor (get_or tail 2 0 * 2 ^ 16) (get_or tail 1 0 * 2 ^ 8)) (get_or tail 0 0)))

final32 : ℕ → ℕ
final32 h =
    let a = u32 (bit_xor h (h / 2 ^ 16) * 0x85ebca6b) in
    let b = u32 (bit_xor a (a / 2 ^ 13) * 0xc2b2ae35) in bit_xor b (b / 2 ^ 16)

unfoldable pub murmur3_sum32 : List ℕ → ℕ → ℕ → ℕ
unfolding blocks32 tail32 final32
murmur3_sum32 key bytes seed =
    let nblocks = bytes / 4 in
    let h1 = blocks32 nblocks key seed in
    let h2 = tail32 (bytes % 4) (drop (4 * nblocks) key) h1 in final32 (bit_xor h2 (u32 bytes))

fmix64 : ℕ → ℕ
fmix64 k =
    let a = u64 (bit_xor k (k / 2 ^ 33) * 0xff51afd7ed558ccd) in
    let b = u64 (bit_xor a (a / 2 ^ 33) * 0xc4ceb9fe1a85ec53) in bit_xor b (b / 2 ^ 33)

pub record Lanes : Type 0 where
  pub h1 : ℕ
  pub h2 : ℕ

abbrev c1 : ℕ
c1 = 0x87c37b91114253d5

abbrev c2 : ℕ
c2 = 0x4cf5ad432745937f

mix_lane1 : ℕ → ℕ
unfolding rotl64
mix_lane1 k1 = u64 (rotl64 (u64 (k1 * c1)) 31 * c2)

mix_lane2 : ℕ → ℕ
unfolding rotl64
mix_lane2 k2 = u64 (rotl64 (u64 (k2 * c2)) 33 * c1)

-- One round over a 16-byte block.
round128 : List ℕ → Lanes → Lanes
unfolding rotl64 mix_lane1 mix_lane2 load
round128 block s =
    let a = bit_xor s.h1 (mix_lane1 (load 8 block)) in
    let h1 = u64 (u64 (rotl64 a 27 + s.h2) * 5 + 0x52dce729) in
    let b = bit_xor s.h2 (mix_lane2 (load 8 (drop 8 block))) in
    let h2 = u64 (u64 (rotl64 b 31 + h1) * 5 + 0x38495ab5) in record { h1 = h1; h2 = h2 }

blocks128 : ℕ → List ℕ → Lanes → Lanes
unfolding round128
blocks128 zero bs s = s
blocks128 (suc n) bs s = blocks128 n (drop 16 bs) (round128 bs s)

-- The `switch bytes & 15`, whose cases fall through: each adds one byte of the tail at its place,
-- so that `k1` is the little-endian number of the first 8 bytes of it and `k2` that of the others.
tail128 : ℕ → List ℕ → Lanes → Lanes
unfolding mix_lane1 mix_lane2 load
tail128 n tail s =
    let k2 = load (n - 8) (drop 8 tail) in
    let h2 = if ltb 8 n then bit_xor s.h2 (mix_lane2 k2) else s.h2 in
    let k1 = load (if ltb n 8 then n else 8) tail in
    let h1 = if leb 1 n then bit_xor s.h1 (mix_lane1 k1) else s.h1 in record { h1 = h1; h2 = h2 }

unfoldable pub murmur3_sum128 : List ℕ → ℕ → ℕ → Lanes
unfolding blocks128 tail128 fmix64
murmur3_sum128 key bytes seed =
    let nblocks = bytes / 16 in
    let s = blocks128 nblocks key (record { h1 = seed; h2 = seed }) in
    let t = tail128 (bytes % 16) (drop (16 * nblocks) key) s in
    let a1 = bit_xor t.h1 (u64 bytes) in
    let a2 = bit_xor t.h2 (u64 bytes) in
    let b1 = u64 (a1 + a2) in
    let b2 = u64 (a2 + b1) in
    let d1 = fmix64 b1 in
    let d2 = fmix64 b2 in let e1 = u64 (d1 + d2) in record { h1 = e1; h2 = u64 (d2 + e1) }

unfoldable pub murmur3_sum64 : List ℕ → ℕ → ℕ → ℕ
unfolding murmur3_sum128
murmur3_sum64 key bytes seed = (murmur3_sum128 key bytes seed).h1

-- The published test vectors: the empty key under seed 1, and "test" under seed 0.
murmur3_sum32_empty : murmur3_sum32 [] 0 1 ≡ 0x514e28b7
unfolding murmur3_sum32
murmur3_sum32_empty = refl

murmur3_sum32_test : murmur3_sum32 (0x74 ∷ 0x65 ∷ 0x73 ∷ 0x74 ∷ []) 4 0 ≡ 0xba6bd213
unfolding murmur3_sum32
murmur3_sum32_test = refl
