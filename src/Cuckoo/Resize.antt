-- ===== src/Cuckoo/Resize.antt =====
-- memstore/cuckoo_index.go: newCuckooIndex, resize and FindOrInsert.
use aresdb.Prelude.{
  ℕ, zero, suc, ◌+◌, ◌*◌, Bool, true, false, ◌||◌, Option, none, some, List, [], ◌∷◌, ◌==◌,
  if◌then◌else◌, replicate,
}
use aresdb.Record.{RecordId, Key, bucket_size}
use aresdb.Cuckoo.{CuckooIndex, empty_cell, stash_size, cell_at, hashes, event_time_expired}
use aresdb.Cuckoo.Insert.{GoRuntime, Item, insert, vacant, find_or_add_new, cuckoo_add}

-- `getDefaultInitNumBuckets`, which asks whether the process is a test.
unfoldable pub get_default_init_num_buckets : Bool → ℕ
get_default_init_num_buckets is_test = if is_test then 1000 else 1000000

-- The results of FindOrInsert: the error for a stale value, or the two values.
pub data Outcome : Type 0 where
  stale : Outcome
  entry : Bool → RecordId → Outcome

module _ {R : Type 0} (go : GoRuntime R) where
  -- Four draws for the seeds.
  unfoldable pub generate_random_seeds : ℕ → R → List ℕ × R
  generate_random_seeds zero r = ([], r)
  generate_random_seeds (suc n) r =
      let (seed, r') = go.uint32 r in
      let (seeds, r'') = generate_random_seeds n r' in (seed ∷ seeds, r'')

  unfoldable pub get_max_trials : ℕ → ℕ
  get_max_trials num_buckets = go.log2_plus_one num_buckets * 2

  -- `now` is the time in seconds; no buckets asked for means the default; the allocated memory is zero.
  unfoldable pub new_cuckoo_index : ℕ → ℕ → Bool → ℕ → CuckooIndex R
  unfolding generate_random_seeds get_max_trials get_default_init_num_buckets
  new_cuckoo_index now key_bytes has_event_time init_num_buckets =
      let num_buckets =
        if init_num_buckets == 0
        then get_default_init_num_buckets go.is_test
        else init_num_buckets in
      let (seeds, r) = generate_random_seeds 4 (go.new_source now) in
      record {
        key_bytes = key_bytes;
        bucket_bytes = bucket_size * (8 + key_bytes + 1 + (if has_event_time then 4 else 0));
        num_buckets = num_buckets;
        num_bucket_entries = 0;
        num_stash_entries = 0;
        max_trials = get_max_trials num_buckets;
        has_event_time = has_event_time;
        cells = replicate ((num_buckets + 1) * bucket_size) empty_cell;
        staging = none;
        seeds = seeds;
        event_time_cutoff = 0;
        rand = r;
      }

  unfoldable pub new_primary_key : ℕ → ℕ → Bool → ℕ → CuckooIndex R
  unfolding new_cuckoo_index
  new_primary_key = new_cuckoo_index

  -- The loop over the slots of the old index from `p`, `n` of them: `none` if an insertion fails.
  unfoldable pub reinsert : CuckooIndex R → ℕ → ℕ → CuckooIndex R → Option (CuckooIndex R)
  reinsert c zero p new_index = some new_index
  reinsert c (suc n) p new_index =
      let cell = cell_at c p in
      let (inserted, ok) =
        insert go new_index
          (record { key = cell.key; record_id = cell.record_id; event_time = cell.event_time }) in
      let next = if vacant c p then new_index else inserted in
      let rest = reinsert c n (suc p) next in if vacant c p || ok then rest else none

  -- The entry of the staging area goes in last.
  unfoldable pub reinsert_staging : CuckooIndex R → CuckooIndex R → Option (CuckooIndex R)
  reinsert_staging c new_index = elim c.staging [
    | none ↦ some new_index
    | some s ↦
        let (inserted, ok) =
          insert go new_index
            (record { key = s.key; record_id = s.value; event_time = s.event_time }) in
        if ok then some (record inserted { staging = none }) else none
  ]

  -- The buckets and the stash are adjacent, so the loop over them is one loop over the slots.
  unfoldable pub resize : ℕ → ℕ → CuckooIndex R → CuckooIndex R × Bool
  resize now i c =
      let n = go.grown c.num_buckets i in
      let fresh = new_cuckoo_index now c.key_bytes c.has_event_time n in
      elim (reinsert c (c.num_buckets * bucket_size + stash_size) 0 fresh) [
        | none ↦ (c, false)
        | some filled ↦ elim (reinsert_staging c filled) [
          | none ↦ (c, false)
          | some t ↦ (
            record c {
              num_buckets = t.num_buckets;
              rand = t.rand;
              seeds = t.seeds;
              cells = t.cells;
              staging = t.staging;
              num_bucket_entries = t.num_bucket_entries;
              num_stash_entries = t.num_stash_entries;
              max_trials = t.max_trials;
            },
            true,
          )
        ]
      ]

  -- `for i := 1; ; i++ { if c.resize(...) { return } }`, on fuel; `now i` is the time of a round.
  unfoldable pub resize_loop : ℕ → (ℕ → ℕ) → ℕ → CuckooIndex R → Option (CuckooIndex R)
  resize_loop zero now i c = none
  resize_loop (suc fuel) now i c =
      let (c', done) = resize (now i) i c in
      let rest = resize_loop fuel now (suc i) c' in if done then some c' else rest

  -- `none` means that the fuel of the resize loop ran out.
  unfoldable pub find_or_insert :
      ℕ → (ℕ → ℕ) → CuckooIndex R → Key → RecordId → ℕ → Option (CuckooIndex R × Outcome)
  find_or_insert fuel now c key value event_time =
      let item : Item = record { key = key; record_id = value; event_time = event_time } in
      let r = find_or_add_new c key value event_time in
      let (c', added) = cuckoo_add go r.index item (hashes c key) in
      let resized = resize_loop fuel now 1 c' in
      if event_time_expired c event_time
      then some (c, stale)
      else if r.existing_found || r.added
      then some (r.index, entry r.existing_found r.record_id)
      else if added
      then some (c', entry false value)
      else elim resized [ none ↦ none | some c'' ↦ some (c'', entry false value) ]
