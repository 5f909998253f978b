-- ===== src/Ingestion/Rows.antt =====
-- memstore/ingestion.go: the loop of insertPrimaryKeys over the rows of a batch.
use aresdb.Prelude.{ℕ, suc, Bool, none, some, List, [], ◌∷◌, ◌++◌, if◌then◌else◌}
use aresdb.Record.{Key, RecordId}
use aresdb.Cuckoo.{CuckooIndex}
use aresdb.Cuckoo.Insert.{GoRuntime}
use aresdb.Cuckoo.Resize.{stale, entry, find_or_insert}
use aresdb.LiveStore.{advance_next_write_record}
use aresdb.RedoLog.{update_max_event_time}
use aresdb.Ingestion.{
  Row, UpsertBatch, RecordInfo, TableShard, record_id_of, rejected, ignored, untimed, backfilled,
  ingested, fate_of, Loop, Result, ok, failed, diverged, max,
}

module _ {R : Type 0} where
  -- An event time is handed to the redo log.
  unfoldable pub record_event_time : ℕ → ℕ → Loop R → Loop R
  unfolding max
  record_event_time redo_file t x =
      let (disk, manager) = x.shard.redo_log in
      record x {
        max_event_time = max t x.max_event_time;
        shard = record x.shard { redo_log = (disk, update_max_event_time t redo_file manager) };
      }

  -- A key that is new takes the next position.
  unfoldable pub add_record : ℕ → CuckooIndex R → Bool → RecordId → Loop R → Loop R
  add_record row index existing id x =
      let info : RecordInfo = record { row = row; record_id = id } in
      if existing
      then record x {
        shard = record x.shard { primary_key = index };
        update_records = x.update_records ++ (info ∷ []);
      }
      else let (live_store, next) = advance_next_write_record x.shard.live_store in
        record x {
          shard = record x.shard { primary_key = index; live_store = live_store };
          next_write_record = next;
          insert_records = x.insert_records ++ (info ∷ []);
        }

  unfoldable pub add_backfill_row : Bool → ℕ → Loop R → Loop R
  add_backfill_row skip row x =
      if skip then x else record x { backfill_rows = x.backfill_rows ++ (row ∷ []) }

  unfoldable pub start_loop : TableShard R → Loop R
  start_loop s = record {
    shard = s;
    next_write_record = s.live_store.next_write_record;
    insert_records = [];
    update_records = [];
    backfill_rows = [];
    max_event_time = 0;
  }

module _ {R : Type 0} (go : GoRuntime R) (fuel : ℕ) (seconds : ℕ → ℕ) (now : ℕ) where
  unfoldable pub ingest_row : ℕ → Key → ℕ → Loop R → Result R (Loop R)
  unfolding find_or_insert record_id_of add_record
  ingest_row row key event_time x =
      elim (find_or_insert go fuel seconds x.shard.primary_key key
        (record_id_of x.next_write_record) event_time) [
          | none ↦ diverged
          | some (index, stale) ↦ failed (record x.shard { primary_key = index })
          | some (index, entry existing id) ↦ ok (add_record row index existing id x)
        ]

  -- One row; `timed` says that the batch has the event time of a fact table.
  unfoldable pub take_row : UpsertBatch → Bool → ℕ → Bool → ℕ → Row → Loop R → Result R (Loop R)
  unfolding fate_of ingest_row record_event_time add_backfill_row
  take_row batch timed redo_file skip row r x = elim r.key [
    | none ↦ failed x.shard
    | some key ↦
        elim (fate_of x.shard.schema x.shard.archiving_cutoff now batch.arrival_time
          (if timed then r.event_time else none)) [
            | rejected ↦ failed x.shard
            | ignored ↦ ok x
            | untimed t ↦ ingest_row row key t x
            | backfilled t ↦ ok (add_backfill_row skip row (record_event_time redo_file t x))
            | ingested t ↦ ingest_row row key t (record_event_time redo_file t x)
          ]
  ]

  unfoldable pub take_rows :
      UpsertBatch → Bool → ℕ → Bool → ℕ → List Row → Loop R → Result R (Loop R)
  unfolding take_row
  take_rows batch timed redo_file skip row [] x = ok x
  take_rows batch timed redo_file skip row (r ∷ rows) x =
      elim (take_row batch timed redo_file skip row r x) [
        | ok x' ↦ take_rows batch timed redo_file skip (suc row) rows x'
        | failed s ↦ failed s
        | diverged ↦ diverged
      ]
