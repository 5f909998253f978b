-- ===== src/Cuckoo/Hash.antt =====
-- The hash results of memstore/cuckoo_index.go: hash and extractSignatureByte.
use native.Mathlib.Nat.{mod-lt}
use aresdb.Prelude.{ℕ, ◌+◌, ◌%◌, ◌^◌, ◌<◌, ◌≤◌, ◌≡◌, arith, get_or}
use aresdb.Record.{Key}
use aresdb.Murmur.{murmur3_sum32}
use aresdb.Murmur.Bounds.{murmur3_sum-lt}
use aresdb.Cuckoo.{CuckooIndex, hash, extract_signature_byte, stash}

byte_of : (v : ℕ) → v < 2 ^ 32 → (0 < extract_signature_byte v) × (extract_signature_byte v < 2 ^ 8)
unfolding extract_signature_byte
byte_of v h = (ground arith, ground arith)

-- In an index that has buckets each hash of a key yields a whole bucket in front of the stash, and a
-- signature that is a byte and not the mark of an empty slot.
pub hash-fits :
    {R : Type 0} (c : CuckooIndex R) (key : Key) (i : ℕ)
    → 0 < c.num_buckets
    → let h = hash c key i in
      (h.bucket % 8 ≡ 0) × (h.bucket + 8 ≤ stash c) × (0 < h.signature) × (h.signature < 2 ^ 8)
unfolding hash
hash-fits c key i some_bucket =
    let v = murmur3_sum32 key c.key_bytes (get_or c.seeds i 0) in
    let byte = byte_of v (murmur3_sum-lt key c.key_bytes (get_or c.seeds i 0)).0 in
    let in_range : v % c.num_buckets < c.num_buckets = mod-lt v some_bucket in
    (omega arith, omega arith, byte.0, byte.1)
