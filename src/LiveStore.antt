-- ===== src/LiveStore.antt =====
-- memstore/live_store.go: the live batches of a shard and the positions of the next record to write
-- and of the last one to read. Batch ids are int32 and count from BaseBatchID, the least of them;
-- `b` stands for the id BaseBatchID + b. Locks, column data and memory reports are left out.
use aresdb.Prelude.{
  ℕ, ◌+◌, ◌%◌, ◌^◌, Bool, true, false, not, ◌&&◌, ◌||◌, Option, none, some, List, [], ◌∷◌, ◌++◌,
  ltb, ◌==◌, if◌then◌else◌,
}
pub mod Advance
pub mod Read

-- A RecordID of the live store.
pub record LiveRecord : Type 0 where
  pub batch_id : ℕ
  pub index : ℕ

pub record LiveBatch : Type 0 where
  pub capacity : ℕ

-- The map of batches is a list of its entries.
pub record LiveStore : Type 0 where
  pub batches : List (ℕ × LiveBatch)
  pub batch_size : ℕ
  pub last_read_record : LiveRecord
  pub next_write_record : LiveRecord

abbrev pub base_batch_id : ℕ
base_batch_id = 0

unfoldable pub new_live_store : ℕ → LiveStore
new_live_store batch_size = record {
  batches = [];
  batch_size = batch_size;
  last_read_record = record { batch_id = base_batch_id; index = 0 };
  next_write_record = record { batch_id = base_batch_id; index = 0 };
}

-- A read of the map.
unfoldable pub lookup : List (ℕ × LiveBatch) → ℕ → Option LiveBatch
lookup [] id = none
lookup ((i, b) ∷ bs) id = if i == id then some b else lookup bs id

-- `delete` on the map.
unfoldable pub delete : List (ℕ × LiveBatch) → ℕ → List (ℕ × LiveBatch)
delete [] id = []
delete ((i, b) ∷ bs) id = let rest = delete bs id in if i == id then rest else (i, b) ∷ rest

-- GetBatchForRead and GetBatchForWrite.
unfoldable pub get_batch : LiveStore → ℕ → Option LiveBatch
unfolding lookup
get_batch s id = lookup s.batches id

-- The store and the batch that is returned, nil if there is one already.
unfoldable pub append_batch : LiveStore → ℕ → LiveStore × Option LiveBatch
unfolding lookup
append_batch s id =
    let batch : LiveBatch = record { capacity = s.batch_size } in
    elim (lookup s.batches id) [
      | some b ↦ (s, none)
      | none ↦ (record s { batches = (id, batch) ∷ s.batches }, some batch)
    ]

unfoldable pub get_or_create_batch : LiveStore → ℕ → LiveStore × Option LiveBatch
unfolding get_batch append_batch
get_or_create_batch s id = elim (get_batch s id) [ some b ↦ (s, some b) | none ↦ append_batch s id ]

-- The position after `r` in a batch of the capacity; an int32 id wraps around.
unfoldable pub next_record : ℕ → LiveRecord → LiveRecord
next_record capacity r =
    if r.index + 1 == capacity
    then record { batch_id = (r.batch_id + 1) % 2 ^ 32; index = 0 }
    else record { batch_id = r.batch_id; index = (r.index + 1) % 2 ^ 32 }

-- The rest of AdvanceNextWriteRecord, for the position `r` and the store with the batch there. The
-- batch is there after append_batch, so that the last clause is never taken.
unfoldable pub move_on : LiveRecord → LiveStore × Option LiveBatch → LiveStore × LiveRecord
unfolding next_record
move_on r (s, some b) =
    let next = next_record b.capacity r in (record s { next_write_record = next }, next)
move_on r (s, none) = (s, r)

unfoldable pub advance_next_write_record : LiveStore → LiveStore × LiveRecord
unfolding get_or_create_batch move_on
advance_next_write_record s =
    move_on s.next_write_record (get_or_create_batch s s.next_write_record.batch_id)

unfoldable pub advance_last_read_record : LiveStore → LiveStore
advance_last_read_record s = record s { last_read_record = s.next_write_record }

unfoldable pub purge_batch : LiveStore → ℕ → LiveStore
unfolding delete
purge_batch s id = record s { batches = delete s.batches id }

unfoldable pub purge_batches : LiveStore → List ℕ → LiveStore
unfolding purge_batch
purge_batches s [] = s
purge_batches s (id ∷ ids) = purge_batches (purge_batch s id) ids

-- The loop of GetBatchIDs over the map, in the order of the list.
unfoldable pub full_batches : ℕ → List (ℕ × LiveBatch) → List ℕ × ℕ → List ℕ × ℕ
full_batches bound [] acc = acc
full_batches bound ((i, b) ∷ bs) (ids, n) =
    full_batches bound bs (if ltb i bound then (ids ++ (i ∷ []), b.capacity) else (ids, n))

unfoldable pub get_batch_ids : LiveStore → List ℕ × ℕ
unfolding full_batches
get_batch_ids s =
    let (ids, n) = full_batches s.last_read_record.batch_id s.batches ([], 0) in
    if ltb 0 s.last_read_record.index
    then (ids ++ (s.last_read_record.batch_id ∷ []), s.last_read_record.index)
    else (ids, n)
