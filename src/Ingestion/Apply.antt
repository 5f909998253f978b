-- ===== src/Ingestion/Apply.antt =====
-- memstore/ingestion.go: insertPrimaryKeys around its loop, ApplyUpsertBatch, saveUpsertBatch and
-- HandleIngestion.
use aresdb.Prelude.{
  ℕ, suc, ◌+◌, Bool, true, false, not, ◌&&◌, ◌||◌, Option, none, some, List, [], ◌∷◌, ◌++◌, ltb,
  ◌==◌, if◌then◌else◌, length, get_elem?, get_or, set, replicate, ◌-◌,
}
use aresdb.Prelude.Int.{ℤ, pos, ltb_ℤ}
use aresdb.Cuckoo.Insert.{GoRuntime}
use aresdb.Schema.DataType.{DataType}
use aresdb.Schema.Table.{Column, data_type_for_column}
use aresdb.LiveStore.{advance_last_read_record}
use aresdb.RedoLog.{Disk, FileRedoLogManager, append_to_redo_log, update_max_event_time}
use aresdb.Progress.Backfill.{Sizes, append}
use aresdb.Progress.Snapshot.{apply_upsert_batch}
use aresdb.Ingestion.{
  UpsertBatch, RecordInfo, TableShard, record_id_of, Loop, Result, ok, failed, diverged,
}
use aresdb.Ingestion.Rows.{start_loop, take_rows}

-- The latest event time of a column, in a slice that grows to it.
unfoldable pub raise_column : ℕ → ℕ → List ℕ → List ℕ
raise_column t id times =
    let grown = times ++ replicate (suc id - length times) 0 in
    if ltb (get_or grown id 0) t then set grown id t else grown

unfoldable pub raise_columns : ℕ → List (ℕ × DataType) → List ℕ → List ℕ
unfolding raise_column
raise_columns t [] times = times
raise_columns t ((id, type) ∷ columns) times = raise_columns t columns (raise_column t id times)

unfoldable pub has_column : List (ℕ × DataType) → ℕ → Bool
has_column [] id = false
has_column ((i, type) ∷ columns) id = let rest = has_column columns id in i == id || rest

-- GetPrimaryKeyCols finds all columns of the primary key.
unfoldable pub has_columns : List (ℕ × DataType) → List ℕ → Bool
unfolding has_column
has_columns columns [] = true
has_columns columns (id ∷ ids) = let rest = has_columns columns ids in has_column columns id && rest

-- The columns are those of the schema, with their types, which are DataTypeForColumn of each.
unfoldable pub are_valid : List Column → List (ℕ × DataType) → Bool
unfolding data_type_for_column
are_valid schema [] = true
are_valid schema ((id, type) ∷ columns) =
    let rest = are_valid schema columns in
    elim (get_elem? schema id) [ none ↦ false | some c ↦ data_type_for_column c == type && rest ]

unfoldable pub is_same : ℤ → ℤ → Bool
is_same a b = not (ltb_ℤ a b) && not (ltb_ℤ b a)

unfoldable pub has_batch : List RecordInfo → ℤ → Bool
unfolding is_same
has_batch [] id = false
has_batch (r ∷ records) id =
    let rest = has_batch records id in is_same r.record_id.batch_id id || rest

-- The number of live batches among the records, which are the keys of a map.
unfoldable pub num_batches : List RecordInfo → ℕ
unfolding has_batch
num_batches [] = 0
num_batches (r ∷ records) =
    let rest = num_batches records in
    if has_batch records r.record_id.batch_id then rest else suc rest

module _ {R : Type 0} where
  -- The latest event time of the columns of a batch.
  unfoldable pub raise_times : UpsertBatch → Loop R → Loop R
  unfolding raise_columns
  raise_times batch x = if x.max_event_time == 0 then x else record x {
    shard = record x.shard {
      last_modified_time_per_column =
          raise_columns x.max_event_time batch.columns x.shard.last_modified_time_per_column;
    };
  }

  -- The writes of insertions come first; then the records can be read.
  unfoldable pub write_records : Loop R → TableShard R
  unfolding advance_last_read_record
  write_records x = record x.shard {
    written = x.shard.written ++ (x.insert_records ++ x.update_records);
    live_store = advance_last_read_record x.shard.live_store;
  }

-- `almost` is 95 percent of a buffer size.
abbrev pub sizes : (ℕ → ℕ) → Sizes UpsertBatch
sizes almost = record {
  num_rows = λ b. length b.rows;
  bytes = λ b. length b.buffer + b.alternative_bytes;
  almost = almost;
}

-- `extract` is ExtractBackfillBatch.
unfoldable pub backfill_batch_of :
    (List ℕ → UpsertBatch → Option UpsertBatch) → UpsertBatch → List ℕ → Option UpsertBatch
backfill_batch_of extract batch rows =
    if length rows == length batch.rows then some batch else extract rows batch

-- Many rows, or a large part, are for backfill; `exceeds` says that they are over 5 percent.
unfoldable pub is_much : (ℕ → ℕ → Bool) → UpsertBatch → Option UpsertBatch → Bool
is_much exceeds batch none = false
is_much exceeds batch (some b) =
    ltb 10 (length b.rows) || exceeds (length b.rows) (length batch.rows)

-- Whether the caller has to wait for the backfill buffer, with the shard.
unfoldable pub post_upsert_batch_application :
    {R : Type 0}
    → (ℕ → ℕ)
    → (ℕ → ℕ → Bool)
    → UpsertBatch
    → Option UpsertBatch
    → ℕ
    → ℕ
    → ℕ
    → TableShard R
    → Bool × TableShard R
unfolding append is_much apply_upsert_batch record_id_of
post_upsert_batch_application almost exceeds batch backfill redo_file offset mutations s =
    let (manager, full) =
      append (sizes almost) backfill (pos redo_file) offset s.backfill_manager in
    if s.schema.is_fact_table
    then (full && is_much exceeds batch backfill, record s { backfill_manager = manager })
    else (
      false,
      record s {
        snapshot_manager =
            apply_upsert_batch (pos redo_file) offset (pos mutations)
              (record_id_of s.live_store.last_read_record) s.snapshot_manager;
      },
    )

-- A recovery does not wait.
unfoldable pub without_wait :
    {R : Type 0} → Result R (Bool × TableShard R) → Result R (Bool × TableShard R)
without_wait (ok (wait, s)) = ok (false, s)
without_wait (failed s) = failed s
without_wait diverged = diverged

module _ {R : Type 0} (go : GoRuntime R) (fuel : ℕ) (seconds : ℕ → ℕ) (now : ℕ) where
  -- The loop of insertPrimaryKeys and the times of the columns.
  unfoldable pub insert_primary_keys :
      UpsertBatch → Bool → ℕ → Bool → TableShard R → Result R (Loop R)
  unfolding has_columns take_rows raise_times start_loop
  insert_primary_keys batch timed redo_file skip s =
      if not (has_columns batch.columns s.schema.primary_key_columns)
      then failed s
      else elim (take_rows go fuel seconds now batch timed redo_file skip 0 batch.rows
          (start_loop s)) [
            | failed s' ↦ failed s'
            | diverged ↦ diverged
            | ok x ↦ ok (raise_times batch x)
          ]

  -- `extract` is ExtractBackfillBatch, `almost` 95 percent of a buffer size and `exceeds` the test that
  -- the rows for backfill are over 5 percent of the rows.
  module _ (extract : List ℕ → UpsertBatch → Option UpsertBatch) (almost : ℕ → ℕ)
      (exceeds : ℕ → ℕ → Bool) where
    unfoldable pub apply_upsert_batch_to :
        UpsertBatch → ℕ → ℕ → Bool → TableShard R → Result R (Bool × TableShard R)
    unfolding are_valid has_column insert_primary_keys write_records num_batches
        post_upsert_batch_application backfill_batch_of
    apply_upsert_batch_to batch redo_file offset skip s =
        let timed = s.schema.is_fact_table && has_column batch.columns 0 in
        if not (are_valid s.schema.columns batch.columns)
        then failed s
        else if s.schema.is_fact_table && not timed && not s.schema.config.allow_missing_event_time
        then failed s
        else elim (insert_primary_keys batch timed redo_file skip s) [
          | failed s' ↦ failed s'
          | diverged ↦ diverged
          | ok x ↦ ok (
              post_upsert_batch_application almost exceeds batch
                (backfill_batch_of extract batch x.backfill_rows) redo_file offset
                (num_batches x.insert_records + num_batches x.update_records) (write_records x))
        ]

    -- Whether it waits for the backfill buffer at the end, with the shard. Outside of a recovery the
    -- batch goes to the redo log first, and has its place there.
    unfoldable pub save_upsert_batch :
        UpsertBatch → ℕ → ℕ → Bool → Bool → TableShard R → Result R (Bool × TableShard R)
    unfolding append_to_redo_log apply_upsert_batch_to without_wait
    save_upsert_batch batch redo_file offset recovery skip s =
        let (disk, manager) = s.redo_log in
        let ((file, place), logged) = append_to_redo_log now batch.buffer s.redo_log in
        let restored : Disk × FileRedoLogManager =
          (disk, update_max_event_time 0 redo_file manager) in
        if recovery
        then without_wait
            (apply_upsert_batch_to batch redo_file offset skip (record s { redo_log = restored }))
        else apply_upsert_batch_to batch file place skip (record s { redo_log = logged })

    -- HandleIngestion of a shard that is there; the file redo log can always be appended to.
    unfoldable pub handle_ingestion : UpsertBatch → TableShard R → Result R (Bool × TableShard R)
    unfolding save_upsert_batch
    handle_ingestion batch s = save_upsert_batch batch 0 0 false false s
