-- ===== src/RedoLog/Purge.antt =====
-- The purge of redo logs: getRedoLogFilesToPurge, evictRedoLogData and CheckpointRedolog.
use aresdb.Prelude.{
  ℕ, ◌+◌, ◌-◌, ◌%◌, ◌^◌, Bool, true, false, ◌&&◌, ◌||◌, none, some, List, [], ◌∷◌, ltb, ◌==◌,
  if◌then◌else◌,
}
use aresdb.Prelude.Dict.{Dict, find_or, erase}
use aresdb.RedoLog.{Disk, FileRedoLogManager, delete_log_file}
pub mod Listed
pub mod Checkpoint

unfoldable pub may_purge : ℕ → ℕ → ℕ → FileRedoLogManager → ℕ → ℕ → Bool
may_purge cutoff checkpointed batch_offset m time max_event_time =
    ((ltb time m.current_file_creation_time || m.current_file_creation_time == 0)
      && ltb max_event_time cutoff)
    && (ltb time checkpointed
        || (time == checkpointed
            && find_or 0 checkpointed m.batch_count_per_file == (batch_offset + 1) % 2 ^ 32))

-- The loop over the map.
unfoldable pub files_to_purge : ℕ → ℕ → ℕ → FileRedoLogManager → Dict ℕ → List ℕ
unfolding may_purge
files_to_purge cutoff checkpointed batch_offset m [] = []
files_to_purge cutoff checkpointed batch_offset m ((time, max_event_time) ∷ entries) =
    let rest = files_to_purge cutoff checkpointed batch_offset m entries in
    if may_purge cutoff checkpointed batch_offset m time max_event_time then time ∷ rest else rest

unfoldable pub get_redo_log_files_to_purge : ℕ → ℕ → ℕ → FileRedoLogManager → List ℕ
unfolding files_to_purge
get_redo_log_files_to_purge cutoff checkpointed batch_offset m =
    files_to_purge cutoff checkpointed batch_offset m m.max_event_time_per_file

unfoldable pub evict_redo_log_data : ℕ → FileRedoLogManager → FileRedoLogManager
evict_redo_log_data time m = record m {
  max_event_time_per_file = erase time m.max_event_time_per_file;
  batch_count_per_file = erase time m.batch_count_per_file;
  total_redo_log_size = (m.total_redo_log_size + 2 ^ 64 - find_or 0 time m.size_per_file) % 2 ^ 64;
  size_per_file = erase time m.size_per_file;
}

-- The loop of CheckpointRedolog, with the files that could not be deleted: it stops at the first.
unfoldable pub purge_files :
    (ℕ → Bool) → List ℕ → Disk × FileRedoLogManager → Bool × (Disk × FileRedoLogManager)
unfolding delete_log_file evict_redo_log_data
purge_files fails [] s = (true, s)
purge_files fails (time ∷ times) (disk, m) =
    if fails time then (false, (disk, m)) else elim (delete_log_file time disk) [
      | none ↦ (false, (disk, m))
      | some disk' ↦ purge_files fails times (disk', evict_redo_log_data time m)
    ]

-- Whether it succeeded, with the new state. `fails` are the files whose deletion the file system
-- refuses.
unfoldable pub checkpoint_redolog :
    (ℕ → Bool) → ℕ → ℕ → ℕ → Disk × FileRedoLogManager → Bool × (Disk × FileRedoLogManager)
unfolding purge_files get_redo_log_files_to_purge
checkpoint_redolog fails cutoff checkpointed batch_offset (disk, m) =
    purge_files fails (get_redo_log_files_to_purge cutoff checkpointed batch_offset m) (disk, m)
