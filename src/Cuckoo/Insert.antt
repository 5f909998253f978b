-- ===== src/Cuckoo/Insert.antt =====
-- memstore/cuckoo_index.go: the additions that do not resize: addNew, findOrAddNew, randomSwap,
-- cuckooAdd and insert.
use aresdb.Prelude.{
  ℕ, zero, suc, Bool, true, false, ◌&&◌, ◌||◌, Option, none, some, List, [], ◌∷◌, ◌+◌, ◌==◌, ◌<◌,
  if◌then◌else◌, get_or, set,
}
use aresdb.Record.{RecordId, Key, bucket_size, num_hashes}
use aresdb.Cuckoo.{
  CuckooIndex, HashResult, StagingEntry, zero_id, stash_size, min_signature, mem_equal, cell_at,
  stash, hashes, is_empty, record_expired, first, search_buckets,
}
use aresdb.Cuckoo.Lookup.{stash_hit}

-- What the loops of findOrAddNew have seen: the slot of the key, or the first vacant slot.
pub data Scan : Type 0 where
  existing : ℕ → Scan
  absent : Option (HashResult × ℕ) → Scan

abbrev pub mark : Option (HashResult × ℕ) → HashResult → ℕ → Option (HashResult × ℕ)
mark (some f) h p = some f
mark none h p = some (h, p)

-- The named results of findOrAddNew, and the index after it.
pub record Found (R : Type 0) : Type 0 where
  pub existing_found : Bool
  pub added : Bool
  pub record_id : RecordId
  pub index : CuckooIndex R

-- An item on its way to a slot: the arguments that randomSwap exchanges with the slot.
pub record Item : Type 0 where
  pub key : Key
  pub record_id : RecordId
  pub event_time : ℕ

-- What the index takes of Go: the random source of math/rand, and its two calculations with
-- floating-point numbers.
pub record GoRuntime (R : Type 0) : Type 0 where
  -- `rand.New(rand.NewSource(t))`
  pub new_source : ℕ → R
  pub uint32 : R → ℕ × R
  pub intn : ℕ → R → ℕ × R
  -- `int(1 + math.Log2(float64(n)))`
  pub log2_plus_one : ℕ → ℕ
  -- `int(float32(n) * float32(1 + float32(i) * resizeFactor))`
  pub grown : ℕ → ℕ → ℕ
  -- `utils.IsTest()`, which looks at the environment
  pub is_test : Bool
  -- `Intn` draws below its bound.
  pub intn-lt : (n : ℕ) (r : R) → 0 < n → (intn n r).0 < n

module _ {R : Type 0} where
  unfoldable pub insert_bucket : CuckooIndex R → Key → RecordId → ℕ → ℕ → ℕ → CuckooIndex R
  insert_bucket c key record_id signature event_time p =
      let event = if c.has_event_time then event_time else (cell_at c p).event_time in
      let cell = record (cell_at c p) {
        key = key;
        signature = signature;
        record_id = record_id;
        event_time = event;
      } in
      record c { cells = set c.cells p cell }

  -- A slot that addNew takes.
  abbrev pub vacant : CuckooIndex R → ℕ → Bool
  vacant c p = is_empty c p || record_expired c p

  -- The body of the loops of addNew and of the stash loop, at the slot where they stop.
  unfoldable pub fill : CuckooIndex R → Key → RecordId → ℕ → ℕ → ℕ → CuckooIndex R
  unfolding insert_bucket
  fill c key record_id signature event_time p =
      let c' = insert_bucket c key record_id signature event_time p in
      if is_empty c p then record c' { num_bucket_entries = c.num_bucket_entries + 1 } else c'

  unfoldable pub add_new : CuckooIndex R → Key → RecordId → ℕ → CuckooIndex R × Bool
  unfolding search_buckets fill
  add_new c key record_id event_time = elim (search_buckets (hashes c key) (λ h p. vacant c p)) [
    | some (h, p) ↦ (fill c key record_id h.signature event_time p, true)
    | none ↦ (c, false)
  ]

  -- `*c.getSignature(...) == hashResult.signature && utils.MemEqual(...)`
  abbrev pub same_key : CuckooIndex R → Key → HashResult → ℕ → Bool
  same_key c key h p = (cell_at c p).signature == h.signature && mem_equal (cell_at c p).key key

  unfoldable pub scan_bucket :
      CuckooIndex R → Key → HashResult → ℕ → ℕ → Option (HashResult × ℕ) → Scan
  scan_bucket c key h zero p free = absent free
  scan_bucket c key h (suc n) p free =
      let rest = scan_bucket c key h n (suc p) (if vacant c p then mark free h p else free) in
      if vacant c p then rest else if same_key c key h p then existing p else rest

  unfoldable pub scan_buckets :
      CuckooIndex R → Key → List HashResult → Option (HashResult × ℕ) → Scan
  unfolding scan_bucket
  scan_buckets c key [] free = absent free
  scan_buckets c key (h ∷ hs) free = elim (scan_bucket c key h bucket_size h.bucket free) [
    | existing p ↦ existing p
    | absent free' ↦ scan_buckets c key hs free'
  ]

  abbrev hit : CuckooIndex R → ℕ → Found R
  hit c p = record {
    existing_found = true;
    added = false;
    record_id = (cell_at c p).record_id;
    index = c;
  }

  unfoldable pub find_or_add_new : CuckooIndex R → Key → RecordId → ℕ → Found R
  unfolding scan_buckets first fill
  find_or_add_new c key value event_time = elim (scan_buckets c key (hashes c key) none) [
    | existing p ↦ hit c p
    | absent free ↦ elim (first stash_size (stash c) (stash_hit c key)) [
      | some p ↦ hit c p
      | none ↦ elim free [
        | some (h, p) ↦ record {
          existing_found = false;
          added = true;
          record_id = value;
          index = fill c key value h.signature event_time p;
        }
        | none ↦ record { existing_found = false; added = false; record_id = zero_id; index = c }
      ]
    ]
  ]

  -- The slot (and its signature) that randomSwap draws, and the random source after it.
  unfoldable pub draw : GoRuntime R → List HashResult → R → (HashResult × ℕ) × R
  draw go hs r =
      let (j, r') = go.intn num_hashes r in
      let (slot, r'') = go.intn bucket_size r' in
      let h = get_or hs j (record { bucket = 0; signature = 0 }) in ((h, h.bucket + slot), r'')

  -- The exchange with the slot at `p`.
  unfoldable pub swap_at : CuckooIndex R → Item → ℕ → ℕ → CuckooIndex R × Item
  unfolding insert_bucket
  swap_at c item signature p =
      let old = cell_at c p in
      (
        insert_bucket c item.key item.record_id signature item.event_time p,
        record {
          key = old.key;
          record_id = old.record_id;
          event_time = if c.has_event_time then old.event_time else item.event_time;
        },
      )

  unfoldable pub random_swap :
      GoRuntime R → CuckooIndex R → Item → List HashResult → CuckooIndex R × Item
  unfolding draw swap_at
  random_swap go c item hs =
      let ((h, p), r) = draw go hs c.rand in
      let (c', item') = swap_at c item h.signature p in (record c' { rand = r }, item')

  -- The loop over the trials: the index, the item in hand, and whether it was added.
  unfoldable pub evict :
      GoRuntime R → ℕ → CuckooIndex R → Item → List HashResult → CuckooIndex R × Item × Bool
  evict go zero c item hs = (c, item, false)
  evict go (suc n) c item hs =
      let (c', item') = random_swap go c item hs in
      let (c'', added) = add_new c' item'.key item'.record_id item'.event_time in
      let rest = evict go n c'' item' (hashes c'' item'.key) in
      if added then (c'', item', true) else rest

  -- The loop over the stash, and the staging of what did not fit.
  unfoldable pub add_to_stash : CuckooIndex R → Item → CuckooIndex R × Bool
  unfolding first insert_bucket
  add_to_stash c item = elim (first stash_size (stash c) (vacant c)) [
    | some p ↦
        let c' = insert_bucket c item.key item.record_id min_signature item.event_time p in
        (
          if is_empty c p then record c' { num_stash_entries = c.num_stash_entries + 1 } else c',
          true,
        )
    | none ↦
        let entry : StagingEntry = record {
          event_time = if c.has_event_time then item.event_time else 0;
          key = item.key;
          value = item.record_id;
        } in
        (elim c.staging [ some s ↦ c | none ↦ record c { staging = some entry } ], false)
  ]

  unfoldable pub cuckoo_add :
      GoRuntime R → CuckooIndex R → Item → List HashResult → CuckooIndex R × Bool
  cuckoo_add go c item hs =
      let (c', item', added) = evict go c.max_trials c item hs in
      if added then (c', true) else add_to_stash c' item'

  unfoldable pub insert : GoRuntime R → CuckooIndex R → Item → CuckooIndex R × Bool
  insert go c item =
      let (c', added) = add_new c item.key item.record_id item.event_time in
      if added then (c', true) else cuckoo_add go c' item (hashes c' item.key)
