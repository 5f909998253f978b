-- ===== src/Progress/Snapshot.antt =====
-- memstore/snapshot_manager.go: the SnapshotManager of a shard. Its fields of the shard are the name
-- of the table and the shard's number; a time is a number of nanoseconds.
use Prim.Native.String.{String}
use aresdb.Prelude.{ℕ, Bool, not, ◌&&◌, ◌||◌, Option, none, some, if◌then◌else◌}
use aresdb.Prelude.Int.{ℤ, pos, ◌+ℤ◌, ◌-ℤ◌, ◌*ℤ◌, ltb_ℤ}
use aresdb.Record.{RecordId}
use aresdb.Cuckoo.{zero_id}
use aresdb.Schema.Table.{Table}
use aresdb.Progress.{MetaStore, is_newer}

pub record SnapshotManager : Type 0 where
  pub num_mutations : ℤ
  pub last_snapshot_time : ℤ
  pub last_redo_file : ℤ
  pub last_batch_offset : ℕ
  pub last_record : RecordId
  pub current_redo_file : ℤ
  pub current_batch_offset : ℕ
  pub current_record : RecordId
  pub snapshot_interval : ℤ
  pub snapshot_threshold : ℤ
  pub table_name : String
  pub shard_id : ℕ

unfoldable pub new_snapshot_manager : ℤ → Table → ℕ → SnapshotManager
new_snapshot_manager now schema shard_id = record {
  num_mutations = pos 0;
  last_snapshot_time = now;
  last_redo_file = pos 0;
  last_batch_offset = 0;
  last_record = zero_id;
  current_redo_file = pos 0;
  current_batch_offset = 0;
  current_record = zero_id;
  snapshot_interval = schema.config.snapshot_interval_minutes *ℤ pos 60000000000;
  snapshot_threshold = schema.config.snapshot_threshold;
  table_name = schema.name;
  shard_id = shard_id;
}

-- The four results of StartSnapshot, which a job keeps until it calls Done.
pub record Job : Type 0 where
  pub redo_file : ℤ
  pub batch_offset : ℕ
  pub mutations : ℤ
  pub record_id : RecordId

unfoldable pub start_snapshot : SnapshotManager → Job
start_snapshot s = record {
  redo_file = s.current_redo_file;
  batch_offset = s.current_batch_offset;
  mutations = s.num_mutations;
  record_id = s.current_record;
}

unfoldable pub apply_upsert_batch : ℤ → ℕ → ℤ → RecordId → SnapshotManager → SnapshotManager
apply_upsert_batch redo_file offset mutations current s = record s {
  current_redo_file = redo_file;
  current_batch_offset = offset;
  num_mutations = s.num_mutations +ℤ mutations;
  current_record = current;
}

abbrev at_least : ℤ → ℤ → Bool
at_least a b = not (ltb_ℤ a b)

unfoldable pub qualify_for_snapshot : ℤ → SnapshotManager → Bool
qualify_for_snapshot now s =
    at_least s.num_mutations s.snapshot_threshold
    || at_least (now -ℤ s.last_snapshot_time) s.snapshot_interval && ltb_ℤ (pos 0) s.num_mutations

unfoldable pub update_snapshot_progress : ℤ → ℕ → ℤ → RecordId → SnapshotManager → SnapshotManager
update_snapshot_progress redo_file offset mutations last s = record s {
  last_redo_file = redo_file;
  last_batch_offset = offset;
  num_mutations = s.num_mutations -ℤ mutations;
  last_record = last;
}

-- The meta store and the manager after Done, and its error.
unfoldable pub done :
    {M E : Type 0}
    → MetaStore M E
    → ℤ
    → Job
    → M
    → SnapshotManager
    → (M × SnapshotManager) × Option E
unfolding update_snapshot_progress is_newer
done store now job meta s =
    let timed = record s { last_snapshot_time = now } in
    let (meta', error) =
      store.update_snapshot_progress s.table_name s.shard_id job.redo_file job.batch_offset
        job.record_id.batch_id job.record_id.index meta in
    if is_newer job.redo_file job.batch_offset s.last_redo_file s.last_batch_offset
    then elim error [
      | some e ↦ ((meta', timed), some e)
      | none ↦ (
        (
          meta',
          update_snapshot_progress job.redo_file job.batch_offset job.mutations job.record_id timed,
        ),
        none,
      )
    ]
    else ((meta, timed), none)

unfoldable pub get_last_snapshot_info : SnapshotManager → ℤ × ℕ × ℤ × RecordId
get_last_snapshot_info s =
    (s.last_redo_file, s.last_batch_offset, s.last_snapshot_time, s.last_record)

unfoldable pub set_last_snapshot_info : ℤ → ℕ → RecordId → SnapshotManager → SnapshotManager
set_last_snapshot_info redo_file offset last s = record s {
  last_redo_file = redo_file;
  last_batch_offset = offset;
  last_record = last;
}
