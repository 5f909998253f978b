-- ===== src/RedoLog/Kafka/Starts.antt =====
-- redolog/kafka_redolog_manager.go: where a manager that recovers starts to consume.
use Prim.Native.String.{String}
use aresdb.Prelude.{ℕ, ◌≡◌, refl, Bool, true, false, some, ◌==◌, if◌then◌else◌}
use aresdb.Prelude.Int.{ℤ, pos}
use aresdb.Prelude.Dict.{find_or}
use aresdb.MetaStore.{
  DiskMetaStore, Access, File, ok, read, dir_of, shard_file, commit_offset, checkpoint_offset,
  access,
}
use aresdb.MetaStore.Shards.{get_redo_log_commit_offset, get_redo_log_checkpoint_offset}
use aresdb.RedoLog.Kafka.{
  KafkaRedoLogManager, new_kafka_redo_log_manager, get_kafka_offsets, adjust, start_iterator,
}
use aresdb.RedoLog.Kafka.Checkpoint.{stored_offset}

-- A new manager that recovers starts to consume at the offset.
abbrev pub StartsAt : (Access → File → Bool) → String → ℕ → DiskMetaStore → ℤ → ℤ → Type 0
StartsAt later table shard m offset_newest from =
    (to : ℤ) × (y : DiskMetaStore × KafkaRedoLogManager) × (start_iterator later offset_newest
        (m, new_kafka_redo_log_manager table shard true)
      ≡ some ((from, to), y))

-- Where a new manager that recovers, and can read its offsets, starts to consume.
module _ (later : Access → File → Bool) (table : String) (shard : ℕ) (m : DiskMetaStore)
    (readable : (file : File) → later read file ≡ false) where
  read_stored :
      (get_redo_log_checkpoint_offset later table shard m).0 ≡ ok (stored_offset table shard m)
  unfolding get_redo_log_checkpoint_offset access
  read_stored = rw (readable (shard_file table shard checkpoint_offset)) refl

  read_committed :
      (get_redo_log_commit_offset later table shard m).0
      ≡ ok (find_or 0 shard (dir_of table m).commit_offsets)
  unfolding get_redo_log_commit_offset access
  read_committed = rw (readable (shard_file table shard commit_offset)) refl

  get_kafka_offsets-both :
      get_kafka_offsets later m (new_kafka_redo_log_manager table shard true)
      ≡ some (stored_offset table shard m, find_or 0 shard (dir_of table m).commit_offsets)
  unfolding get_kafka_offsets new_kafka_redo_log_manager
  get_kafka_offsets-both =
      rw (read_stored, get_kafka_offsets) (rw (read_committed, get_kafka_offsets) refl)

  pub start_iterator-stored :
      (offset_newest : ℤ)
      → let o = stored_offset table shard m in
        StartsAt later table shard m offset_newest (if o == 0 then offset_newest else pos o)
  unfolding start_iterator adjust
  start_iterator-stored offset_newest =
      let offsets : ℕ × ℕ =
        (stored_offset table shard m, find_or 0 shard (dir_of table m).commit_offsets) in
      (
        (adjust offset_newest offsets).1,
        (m, record (new_kafka_redo_log_manager table shard true) { consuming = true }),
        rw (get_kafka_offsets-both, start_iterator) refl,
      )
