-- ===== src/MetaStore/Shards.antt =====
-- metastore/disk_metastore.go: the progress of the shards of a table: cutoffs, snapshots, backfills
-- and the offsets of the ingestion. A file is kept as the numbers that it is read as: fmt prints a number
-- as the decimal text that strconv reads it from.
use Prim.Native.String.{String}
use aresdb.Prelude.{ℕ, Bool, not}
use aresdb.Prelude.Int.{ℤ, pos}
use aresdb.Prelude.Dict.{find_or, insert}
use aresdb.MetaStore.{
  Action, Access, File, ok, raise_if, ◌>>=◌, ◌>>◌, read, write, make_dir_all, shard_file, version,
  redolog_offset, snapshot, commit_offset, checkpoint_offset, not_fact_table, not_dimension_table,
  dir_of, update_dir, access, table_exists, read_schema_file,
}

module _ (fails : Access → File → Bool) where
  unfoldable pub get_archiving_cutoff : String → ℕ → Action ℕ
  unfolding table_exists access
  get_archiving_cutoff table shard = do
    table_exists fails table
    access fails read (shard_file table shard version)
    (λ s. (ok (find_or 0 shard (dir_of table s).versions), s))

  unfoldable pub update_archiving_cutoff : String → ℕ → ℕ → Action (Unit {0})
  unfolding table_exists read_schema_file access make_dir_all update_dir
  update_archiving_cutoff table shard cutoff = do
    table_exists fails table
    schema ← read_schema_file fails table
    raise_if (not schema.is_fact_table) not_fact_table
    make_dir_all fails table (shard_file table shard version)
    access fails write (shard_file table shard version)
    update_dir table (λ d. record d { versions = insert shard cutoff d.versions })

  unfoldable pub get_snapshot_progress : String → ℕ → Action (ℤ × ℕ × ℤ × ℕ)
  unfolding table_exists access
  get_snapshot_progress table shard = do
    table_exists fails table
    access fails read (shard_file table shard snapshot)
    (λ s. (ok (find_or (pos 0, 0, pos 0, 0) shard (dir_of table s).snapshots), s))

  unfoldable pub update_snapshot_progress : String → ℕ → ℤ × ℕ × ℤ × ℕ → Action (Unit {0})
  unfolding table_exists read_schema_file access make_dir_all update_dir
  update_snapshot_progress table shard progress = do
    table_exists fails table
    schema ← read_schema_file fails table
    raise_if schema.is_fact_table not_dimension_table
    make_dir_all fails table (shard_file table shard snapshot)
    access fails write (shard_file table shard snapshot)
    update_dir table (λ d. record d { snapshots = insert shard progress d.snapshots })

  unfoldable pub get_backfill_progress_info : String → ℕ → Action (ℤ × ℕ)
  unfolding table_exists access
  get_backfill_progress_info table shard = do
    table_exists fails table
    access fails read (shard_file table shard redolog_offset)
    (λ s. (ok (find_or (pos 0, 0) shard (dir_of table s).redolog_offsets), s))

  unfoldable pub update_backfill_progress : String → ℕ → ℤ × ℕ → Action (Unit {0})
  unfolding table_exists read_schema_file access make_dir_all update_dir
  update_backfill_progress table shard progress = do
    table_exists fails table
    schema ← read_schema_file fails table
    raise_if (not schema.is_fact_table) not_fact_table
    make_dir_all fails table (shard_file table shard redolog_offset)
    access fails write (shard_file table shard redolog_offset)
    update_dir table (λ d. record d { redolog_offsets = insert shard progress d.redolog_offsets })

  unfoldable pub get_redo_log_commit_offset : String → ℕ → Action ℕ
  unfolding access
  get_redo_log_commit_offset table shard = do
    access fails read (shard_file table shard commit_offset)
    (λ s. (ok (find_or 0 shard (dir_of table s).commit_offsets), s))

  unfoldable pub update_redo_log_commit_offset : String → ℕ → ℕ → Action (Unit {0})
  unfolding access make_dir_all update_dir
  update_redo_log_commit_offset table shard offset = do
    make_dir_all fails table (shard_file table shard commit_offset)
    access fails write (shard_file table shard commit_offset)
    update_dir table (λ d. record d { commit_offsets = insert shard offset d.commit_offsets })

  unfoldable pub get_redo_log_checkpoint_offset : String → ℕ → Action ℕ
  unfolding access
  get_redo_log_checkpoint_offset table shard = do
    access fails read (shard_file table shard checkpoint_offset)
    (λ s. (ok (find_or 0 shard (dir_of table s).checkpoint_offsets), s))

  unfoldable pub update_redo_log_checkpoint_offset : String → ℕ → ℕ → Action (Unit {0})
  unfolding access make_dir_all update_dir
  update_redo_log_checkpoint_offset table shard offset = do
    make_dir_all fails table (shard_file table shard checkpoint_offset)
    access fails write (shard_file table shard checkpoint_offset)
    update_dir table
        (λ d. record d { checkpoint_offsets = insert shard offset d.checkpoint_offsets })
