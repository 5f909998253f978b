-- ===== src/Ingestion.antt =====
-- memstore/ingestion.go: HandleIngestion, saveUpsertBatch, ApplyUpsertBatch and insertPrimaryKeys, on
-- the primary key (memstore/cuckoo_index.go), the live store, the redo log on disk and the backfill
-- and snapshot managers. An upsert batch is what its accessors return. Of writeBatchRecords only the
-- order of the writes is kept, which succeed, and of ExtractBackfillBatch only that it depends on the
-- rows: both are about the data of columns. One call follows another, as the writer lock makes them.
use aresdb.Prelude.{
  ℕ, zero, suc, ◌+◌, ◌*◌, ◌/◌, Bool, true, false, not, ◌&&◌, ◌||◌, Option, none, some, List, [],
  ◌∷◌, ◌++◌, map, ltb, leb, ◌==◌, if◌then◌else◌, length, get_elem?, get_or, set, replicate, ◌-◌,
}
use aresdb.Prelude.Int.{ℤ, pos, negsuc, ◌+ℤ◌, ◌-ℤ◌, ltb_ℤ}
use aresdb.Record.{Key, RecordId}
use aresdb.Cuckoo.{CuckooIndex}
use aresdb.Cuckoo.Insert.{GoRuntime}
use aresdb.Cuckoo.Resize.{Outcome, stale, entry, find_or_insert}
use aresdb.Schema.DataType.{DataType, data_type_from_string}
use aresdb.Schema.Table.{Table, Column}
use aresdb.LiveStore.{LiveStore, LiveRecord, advance_next_write_record, advance_last_read_record}
use aresdb.RedoLog.{Disk, FileRedoLogManager, append_to_redo_log, update_max_event_time}
use aresdb.Progress.Backfill.{BackfillManager, Sizes, append}
use aresdb.Progress.Snapshot.{SnapshotManager, apply_upsert_batch}
pub mod Rows
pub mod Apply
pub mod Keys
pub mod Positions
pub mod Records
pub mod Covered
pub mod Taken
pub mod Selected
pub mod Promised
pub mod Batch
pub mod Start
pub mod Saved
pub mod Refused

-- A row as GetPrimaryKeyBytes and GetValue at the event time return it: none for an error of the
-- first and for a null of the second, which has no error at the rows and columns of a batch.
pub record Row : Type 0 where
  pub key : Option Key
  pub event_time : Option ℕ

-- The columns are pairs of an id and a type; `buffer` has the bytes of the batch.
pub record UpsertBatch : Type 0 where
  pub buffer : List ℕ
  pub alternative_bytes : ℕ
  pub arrival_time : ℕ
  pub columns : List (ℕ × DataType)
  pub rows : List Row

-- recordInfo, with the batch of the record.
pub record RecordInfo : Type 0 where
  pub row : ℕ
  pub record_id : RecordId

-- `written` are the rows written, with their records, one after another.
pub record TableShard (R : Type 0) : Type 0 where
  pub schema : Table
  pub live_store : LiveStore
  pub archiving_cutoff : ℕ
  pub last_modified_time_per_column : List ℕ
  pub primary_key : CuckooIndex R
  pub redo_log : Disk × FileRedoLogManager
  pub backfill_manager : BackfillManager UpsertBatch
  pub snapshot_manager : SnapshotManager
  pub written : List RecordInfo

-- BaseBatchID is math.MinInt32.
unfoldable pub record_id_of : LiveRecord → RecordId
record_id_of r = record { batch_id = negsuc 2147483647 +ℤ pos r.batch_id; index = r.index }

-- What insertPrimaryKeys does with a row, by its event time: the row is an error, is passed over, or
-- has the time for the redo log and is for backfill or not.
pub data Fate : Type 0 where
  rejected ignored : Fate
  untimed backfilled ingested : ℕ → Fate

-- int(nowInSeconds/86400) - recordRetentionDays.
unfoldable pub oldest_record_day : ℕ → ℤ → ℤ
oldest_record_day now days = if ltb_ℤ (pos 0) days then pos (now / 86400) -ℤ days else pos 0

unfoldable pub fate_of : Table → ℕ → ℕ → ℕ → Option ℕ → Fate
unfolding oldest_record_day
fate_of schema cutoff now arrival_time none =
    if schema.is_fact_table && not schema.config.allow_missing_event_time
    then rejected
    else if ltb arrival_time cutoff
    then ignored
    else untimed arrival_time
fate_of schema cutoff now arrival_time (some t) =
    if ltb_ℤ (pos (t / 86400)) (oldest_record_day now schema.config.record_retention_in_days)
    then ignored
    else if ltb now t
    then ignored
    else if ltb t cutoff
    then backfilled t
    else ingested t

-- The variables of the loop: the shard, the position that the next new record gets, the records to
-- insert and to update and the rows for backfill in the order of the rows, and the latest event time.
pub record Loop (R : Type 0) : Type 0 where
  pub shard : TableShard R
  pub next_write_record : LiveRecord
  pub insert_records : List RecordInfo
  pub update_records : List RecordInfo
  pub backfill_rows : List ℕ
  pub max_event_time : ℕ

-- The outcome of a part of the ingestion: an error leaves what was done up to it. `diverged` means
-- that the fuel of a resize ran out.
pub data Result (R : Type 0) (A : Type 0) : Type 0 where
  ok : A → Result R A
  failed : TableShard R → Result R A
  diverged : Result R A

unfoldable pub max : ℕ → ℕ → ℕ
max a b = if ltb b a then a else b
