-- ===== src/Cuckoo/Lookup.antt =====
-- memstore/cuckoo_index.go: Find, Update and Delete.
use aresdb.Prelude.{ℕ, Bool, true, false, not, ◌&&◌, Option, none, some, ◌==◌, set}
use aresdb.Record.{RecordId, Key}
use aresdb.Cuckoo.{
  CuckooIndex, HashResult, zero_id, stash_size, empty_signature, mem_equal, cell_at, stash, hashes,
  is_empty, record_expired, first, search_buckets, dec_uint,
}

module _ {R : Type 0} (c : CuckooIndex R) (key : Key) where
  -- The condition of the loop over the buckets, in Find and Update.
  abbrev pub bucket_hit : HashResult → ℕ → Bool
  bucket_hit h p =
      not (record_expired c p)
      && (cell_at c p).signature == h.signature
      && mem_equal (cell_at c p).key key

  -- The condition of the loop over the stash, in Find and Update.
  abbrev pub stash_hit : ℕ → Bool
  stash_hit p = not (is_empty c p) && not (record_expired c p) && mem_equal (cell_at c p).key key

  -- The slot at which Find and Update stop.
  unfoldable pub locate : Option ℕ
  unfolding search_buckets first
  locate = elim (search_buckets (hashes c key) bucket_hit) [
    | some (h, p) ↦ some p
    | none ↦ first stash_size (stash c) stash_hit
  ]

  unfoldable pub find : RecordId × Bool
  unfolding locate
  find = elim locate [ some p ↦ ((cell_at c p).record_id, true) | none ↦ (zero_id, false) ]

  unfoldable pub update : RecordId → CuckooIndex R × Bool
  unfolding locate
  update value = elim locate [
    | some p ↦
        (record c { cells = set c.cells p (record (cell_at c p) { record_id = value }) }, true)
    | none ↦ (c, false)
  ]

  -- The conditions of Delete, which does not look at the event time.
  abbrev pub bucket_match : HashResult → ℕ → Bool
  bucket_match h p = (cell_at c p).signature == h.signature && mem_equal (cell_at c p).key key

  abbrev pub stash_match : ℕ → Bool
  stash_match p = not (is_empty c p) && mem_equal (cell_at c p).key key

  unfoldable pub delete : CuckooIndex R
  unfolding search_buckets first
  delete =
      let clear = λ (p : ℕ). set c.cells p (record (cell_at c p) { signature = empty_signature }) in
      elim (search_buckets (hashes c key) bucket_match) [
        | some (h, p) ↦ record c {
          num_bucket_entries = dec_uint c.num_bucket_entries;
          cells = clear p;
        }
        | none ↦ elim (first stash_size (stash c) stash_match) [
          | some p ↦ record c { num_stash_entries = dec_uint c.num_stash_entries; cells = clear p }
          | none ↦ c
        ]
      ]
