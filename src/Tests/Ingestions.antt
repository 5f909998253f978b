-- ===== src/Tests/Ingestions.antt =====
-- A shard of a fact table that takes in batches, and the theorem on memstore/ingestion.go applied to it.
use aresdb.Prelude.{
  length, ◌+◌, ◌++◌, ℕ, ◌*◌, ◌/◌, ◌≡◌, refl, Bool, true, false, Option, none, some, List, [], ◌∷◌,
  map, ltb, arith,
}
use aresdb.Prelude.Int.{pos, negsuc, ◌+ℤ◌, ◌-ℤ◌}
use aresdb.Cuckoo.{hashes, hash, mem_equal}
use aresdb.Record.{RecordId}
use aresdb.Cuckoo.Insert.{find_or_add_new}
use aresdb.Cuckoo.Resize.{new_cuckoo_index}
use aresdb.Schema.DataType.{DataType, data_type_from_string}
use aresdb.LiveStore.{new_live_store, advance_next_write_record}
use aresdb.RedoLog.{new_file_redo_log_manager}
use aresdb.Progress.Backfill.{new_backfill_manager}
use aresdb.Progress.Snapshot.{new_snapshot_manager}
use aresdb.Ingestion.{Loop, Row, UpsertBatch, RecordInfo, TableShard, Result, ok, failed, diverged}
use aresdb.Ingestion.Apply.{save_upsert_batch}
use aresdb.Ingestion.Apply.{has_columns, insert_primary_keys}
use aresdb.Ingestion.Rows.{start_loop, take_row, take_rows}
use aresdb.Ingestion.Positions.{Consecutive, AllOwned}
use aresdb.Ingestion.Refused.{loop, insert_primary_keys-leaves_keys}
use aresdb.LiveStore.Advance.{row as live_row}
use aresdb.Ingestion.Start.{new-IsKeyed}
use aresdb.Tests.CuckooIndex.{counter}
use aresdb.Tests.Schemas.{trips}

abbrev row : ℕ → Option ℕ → Row
row key event_time = record { key = some (key ∷ []); event_time = event_time }

abbrev columns : List (ℕ × DataType)
columns = (0, data_type_from_string "Uint32") ∷ (1, data_type_from_string "UUID") ∷ []

-- Two rows of one key, a row for backfill and a row of another key.
abbrev batch : UpsertBatch
batch = record {
  buffer = 1 ∷ 2 ∷ [];
  alternative_bytes = 0;
  arrival_time = 86400 * 100;
  columns = columns;
  rows =
      row 7 (some (86400 * 100))
      ∷ row 7 (some (86400 * 100))
      ∷ row 9 (some (86400 * 20))
      ∷ row 8 (some (86400 * 100))
      ∷ [];
}

-- A shard as it is made, with an archiving cutoff.
abbrev shard : TableShard ℕ
shard = record {
  schema = trips;
  live_store = new_live_store 4;
  archiving_cutoff = 86400 * 50;
  last_modified_time_per_column = [];
  primary_key = new_cuckoo_index counter 3 1 true 2;
  redo_log = ([], new_file_redo_log_manager 1 1000);
  backfill_manager = new_backfill_manager "trips" 0 1000 10;
  snapshot_manager = new_snapshot_manager (pos 0) trips 0;
  written = [];
}

abbrev extract : List ℕ → UpsertBatch → Option UpsertBatch
extract [] b = none
extract (i ∷ rows) b = some b

abbrev exceeds : ℕ → ℕ → Bool
exceeds a b = ltb b (a * 20)

abbrev saved : Result ℕ (Bool × TableShard ℕ)
saved =
    save_upsert_batch counter 1 (λ i. i) (86400 * 101) extract (λ n. n * 95 / 100) exceeds batch 0 0
      false false shard

abbrev written_of : Result ℕ (Bool × TableShard ℕ) → List (ℕ × RecordId)
written_of (ok r) = map (λ (i : RecordInfo). (i.row, i.record_id)) r.1.written
written_of (failed s) = []
written_of diverged = []

abbrev at : ℕ → RecordId
at i = record { batch_id = negsuc 2147483647; index = i }

-- The first row of a key is inserted, the second updates it, and the row for backfill is not written.
saved_rows : written_of saved ≡ (0, at 0) ∷ (3, at 1) ∷ (1, at 0) ∷ []
unfolding save_upsert_batch data_type_from_string ◌-ℤ◌ new_cuckoo_index find_or_add_new hashes hash
    aresdb.Murmur.murmur3_sum32 mem_equal ◌+ℤ◌ new_live_store advance_next_write_record
saved_rows = refl

-- Two rows of new keys, and one without an event time.
abbrev front : List Row
front = row 7 (some (86400 * 100)) ∷ row 8 (some (86400 * 100)) ∷ []

abbrev refused_batch : UpsertBatch
refused_batch = record batch { rows = front ++ (row 9 none ∷ []) }

abbrev taken_rows : Result ℕ (Loop ℕ)
taken_rows =
    loop counter 1 (λ i. i) (86400 * 101) refused_batch true 5 false 0 front (start_loop shard)

abbrev result_of : Result ℕ (Loop ℕ) → Loop ℕ
result_of (ok x) = x
result_of (failed s) = start_loop s
result_of diverged = start_loop shard

abbrev result : Loop ℕ
result = result_of taken_rows

-- The rows in front are taken.
rows_taken : taken_rows ≡ ok result
unfolding take_rows start_loop ◌-ℤ◌ new_cuckoo_index find_or_add_new hashes hash
    aresdb.Murmur.murmur3_sum32 mem_equal ◌+ℤ◌ new_live_store advance_next_write_record
rows_taken = refl

row_refused :
    take_row counter 1 (λ i. i) (86400 * 101) refused_batch true 5 false 2 (row 9 none) result
    ≡ failed result.shard
unfolding take_rows start_loop ◌-ℤ◌ new_cuckoo_index find_or_add_new hashes hash
    aresdb.Murmur.murmur3_sum32 mem_equal ◌+ℤ◌ new_live_store advance_next_write_record
row_refused = refl

insert_primary_keys-leaves_keys_example :
    (insert_primary_keys counter 1 (λ i. i) (86400 * 101) refused_batch true 5 false shard
      ≡ failed result.shard)
    × (result.shard.written ≡ [])
    × Consecutive 4 (live_row 4 shard.live_store.next_write_record) result.insert_records
    × AllOwned refused_batch.rows result.shard.primary_key result.insert_records
    × (live_row 4 result.shard.live_store.next_write_record
        ≡ live_row 4 shard.live_store.next_write_record + length result.insert_records)
unfolding new_live_store has_columns
insert_primary_keys-leaves_keys_example =
    insert_primary_keys-leaves_keys counter 1 (λ i. i) (86400 * 101) refused_batch true 5 false
      shard front [] (row 9 none) result
      (new-IsKeyed counter 3 1 true 2 4 (omega arith) (omega arith)) (omega arith) refl refl
      rows_taken row_refused
