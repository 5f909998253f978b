-- ===== src/Cuckoo.antt =====
-- memstore/cuckoo_index.go: the state of the primary key index and the access to its cells.
-- The byte array that the index allocates in C is a list of cells, eight to a bucket, with the
-- stash as the bucket behind the last. A bucket pointer is the number of its first cell; a key
-- pointer is the list of the `keyBytes` bytes that it points to.
pub mod Lookup
pub mod Insert
pub mod Resize
pub mod Hash
pub mod Search
pub mod Find
pub mod Update
pub mod Cells
pub mod Delete
pub mod Place
pub mod Evict
pub mod Stash
pub mod Scan
pub mod FindOrAdd
pub mod Fresh
pub mod Reload
pub mod Rehash
pub mod FindOrInsert
use aresdb.Prelude.{
  ℕ, zero, suc, ◌+◌, ◌-◌, ◌*◌, ◌/◌, ◌%◌, ◌^◌, Bool, true, false, ◌&&◌, Option, none, some, List, [],
  ◌∷◌, ltb, ◌==◌, if◌then◌else◌, get_or,
}
use aresdb.Prelude.Int.{pos}
use aresdb.Record.{RecordId, bucket_size, Key}
use aresdb.Murmur.{murmur3_sum32}

abbrev pub stash_size : ℕ
stash_size = 4

-- Signature 0 marks an empty slot.
abbrev pub empty_signature : ℕ
empty_signature = 0

abbrev pub min_signature : ℕ
min_signature = 1

-- One slot of a bucket: what its four accessors point to.
pub record Cell : Type 0 where
  pub signature : ℕ
  pub record_id : RecordId
  pub event_time : ℕ
  pub key : Key

pub record StagingEntry : Type 0 where
  pub event_time : ℕ
  pub key : Key
  pub value : RecordId

-- `R` is the state of the random source, of Go's package math/rand.
pub record CuckooIndex (R : Type 0) : Type 0 where
  pub key_bytes : ℕ
  pub bucket_bytes : ℕ
  pub num_buckets : ℕ
  pub num_bucket_entries : ℕ
  pub num_stash_entries : ℕ
  pub max_trials : ℕ
  pub has_event_time : Bool
  pub cells : List Cell
  pub staging : Option StagingEntry
  pub seeds : List ℕ
  pub event_time_cutoff : ℕ
  pub rand : R

pub record HashResult : Type 0 where
  pub bucket : ℕ
  pub signature : ℕ

abbrev pub zero_id : RecordId
zero_id = record { batch_id = pos 0; index = 0 }

-- A slot of zeroed memory.
abbrev pub empty_cell : Cell
empty_cell = record { signature = 0; record_id = zero_id; event_time = 0; key = [] }

-- `utils.MemEqual` on two keys of the index, which have one length.
unfoldable pub mem_equal : Key → Key → Bool
mem_equal [] [] = true
mem_equal (x ∷ xs) (y ∷ ys) = x == y && mem_equal xs ys
mem_equal _ _ = false

-- The most significant byte of the hash, never the empty mark.
unfoldable pub extract_signature_byte : ℕ → ℕ
extract_signature_byte hash_value =
    let signature = hash_value / 2 ^ 24 in
    if ltb signature min_signature then min_signature else signature

module _ {R : Type 0} where
  abbrev pub cell_at : CuckooIndex R → ℕ → Cell
  cell_at c p = get_or c.cells p empty_cell

  abbrev pub stash : CuckooIndex R → ℕ
  stash c = c.num_buckets * bucket_size

  unfoldable pub hash : CuckooIndex R → Key → ℕ → HashResult
  unfolding extract_signature_byte
  hash c key index =
      let hash_value = murmur3_sum32 key c.key_bytes (get_or c.seeds index 0) in
      record {
        bucket = (hash_value % c.num_buckets) * bucket_size;
        signature = extract_signature_byte hash_value;
      }

  -- The results of the loop `for hashIndex := 0; hashIndex < NumHashes; hashIndex++`.
  unfoldable pub hashes : CuckooIndex R → Key → List HashResult
  hashes c key = hash c key 0 ∷ hash c key 1 ∷ hash c key 2 ∷ hash c key 3 ∷ []

  abbrev pub is_empty : CuckooIndex R → ℕ → Bool
  is_empty c p = (cell_at c p).signature == empty_signature

  abbrev pub event_time_expired : CuckooIndex R → ℕ → Bool
  event_time_expired c event_time = ltb event_time c.event_time_cutoff

  abbrev pub record_expired : CuckooIndex R → ℕ → Bool
  record_expired c p = c.has_event_time && event_time_expired c (cell_at c p).event_time

  unfoldable pub size : CuckooIndex R → ℕ
  size c = c.num_bucket_entries + c.num_stash_entries

  unfoldable pub capacity : CuckooIndex R → ℕ
  capacity c = c.num_buckets * bucket_size

  unfoldable pub allocated_bytes : CuckooIndex R → ℕ
  allocated_bytes c = c.num_buckets * c.bucket_bytes

  unfoldable pub update_event_time_cutoff : CuckooIndex R → ℕ → CuckooIndex R
  update_event_time_cutoff c cutoff = record c { event_time_cutoff = cutoff }

-- `for i := 0; i < n; i++` that returns at the first slot which passes the test.
unfoldable pub first : ℕ → ℕ → (ℕ → Bool) → Option ℕ
first zero i test = none
first (suc n) i test = let rest = first n (suc i) test in if test i then some i else rest

-- The two nested loops over the buckets of a key: where they stop, and for which hash.
unfoldable pub search_buckets : List HashResult → (HashResult → ℕ → Bool) → Option (HashResult × ℕ)
unfolding first
search_buckets [] test = none
search_buckets (h ∷ hs) test = elim (first bucket_size h.bucket (test h)) [
  | some p ↦ some (h, p)
  | none ↦ search_buckets hs test
]

-- `n--` on a Go uint of 64 bits.
abbrev pub dec_uint : ℕ → ℕ
dec_uint n = if n == 0 then 2 ^ 64 - 1 else n - 1
