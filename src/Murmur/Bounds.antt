-- ===== src/Murmur/Bounds.antt =====
-- The hashes of utils/hash.go fit their machine words.
use Prim.Native.Nat.{bit_xor, bit_xor-bitwise, digits, differ}
use native.Mathlib.Nat.{pow-suc}
use aresdb.Prelude.{ℕ, zero, suc, ◌*◌, ◌/◌, ◌%◌, ◌^◌, ◌<◌, arith, List}
use aresdb.Murmur.{u32, final32, murmur3_sum32, murmur3_sum128, murmur3_sum64}

differ-lt : (x y : ℕ) → x < 2 → y < 2 → differ x y < 2
differ-lt zero y h k = k
differ-lt (suc x) zero h k = h
differ-lt (suc zero) (suc zero) h k = omega arith
differ-lt (suc (suc x)) (suc y) h k = absurd (omega arith)
differ-lt (suc zero) (suc (suc y)) h k = absurd (omega arith)

half_lt : (a p : ℕ) → a < p * 2 → a / 2 < p
half_lt a p h = omega arith

digits-lt : (w n a b : ℕ) → a < 2 ^ w → b < 2 ^ w → digits (λ b. b) differ n a b < 2 ^ w
digits-lt w zero a b h k = k
digits-lt w (suc n) zero b h k = k
digits-lt zero (suc n) (suc a) b h k = absurd (omega arith)
digits-lt (suc w) (suc n) (suc a) b h k =
    let rest =
      digits-lt w n (suc a / 2) (b / 2) (half_lt (suc a) (2 ^ w) (rw (pow-suc 2 w) at h))
        (half_lt b (2 ^ w) (rw (pow-suc 2 w) at k)) in
    let last = differ-lt (suc a % 2) (b % 2) (omega arith) (omega arith) in
    rw (pow-suc 2 w) (omega (arith, rest, last))

pub bit_xor-lt : (w a b : ℕ) → a < 2 ^ w → b < 2 ^ w → bit_xor a b < 2 ^ w
bit_xor-lt w a b h k = rw (bit_xor-bitwise a b) (digits-lt w a a b h k)

final32-lt : (h : ℕ) → final32 h < 2 ^ 32
unfolding final32
final32-lt h =
    let b = u32 (
      bit_xor (u32 (bit_xor h (h / 2 ^ 16) * 0x85ebca6b))
        (u32 (bit_xor h (h / 2 ^ 16) * 0x85ebca6b) / 2 ^ 13)
      * 0xc2b2ae35) in
    let small : b < 2 ^ 32 = omega arith in bit_xor-lt 32 b (b / 2 ^ 16) small (omega arith)

-- Murmur3Sum32 yields a uint32, and both words of Murmur3Sum128 and the word of Murmur3Sum64 are
-- uint64, for any list of bytes, any length and any seed.
pub murmur3_sum-lt :
    (key : List ℕ) (bytes seed : ℕ)
    → (murmur3_sum32 key bytes seed < 2 ^ 32)
      × ((murmur3_sum128 key bytes seed).h1 < 2 ^ 64)
      × ((murmur3_sum128 key bytes seed).h2 < 2 ^ 64)
      × (murmur3_sum64 key bytes seed < 2 ^ 64)
unfolding murmur3_sum32 murmur3_sum128 murmur3_sum64
murmur3_sum-lt key bytes seed = (final32-lt _, omega arith, omega arith, omega arith)
