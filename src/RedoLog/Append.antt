-- ===== src/RedoLog/Append.antt =====
-- FileRedoLogManager.AppendToRedoLog (redolog/file_redolog_manager.go): the bytes, the counts and
-- the open file after an append.
use aresdb.Prelude.{
  ℕ, suc, ◌%◌, ◌^◌, ◌≡◌, ◌≢◌, refl, ap, ◌∙◌, Bool, true, false, some, List, [], ◌++◌, arith, length,
  ◌&&◌,
}
use aresdb.Prelude.Dict.{find, insert, find_or, find-insert, insert-insert}
use aresdb.RedoLog.{
  Disk, FileRedoLogManager, record_bytes, header_bytes, append_to_redo_log, append_to_current,
  open_file_for_write, keeps_file, is_open, update_batch_count, add_size, write_log_file,
  open_log_file_for_append,
}
use aresdb.RedoLog.Replay.Files.{HasCount, update_batch_count-counts}

-- An append of `b` to the file `time`, which holds `base` so far.
pub record Appends (time : ℕ) (base b : List ℕ) (s : Disk × FileRedoLogManager)
    (r : (ℕ × ℕ) × (Disk × FileRedoLogManager)) : Type 0 where
  pub file : r.0.0 ≡ time
  pub disk : r.1.0 ≡ insert time (base ++ record_bytes b) s.0
  pub current : r.1.1.current_file_creation_time ≡ time
  pub opened : is_open r.1.1.current_log_file ≡ true
  pub counts :
      (k : ℕ)
      → HasCount k (find time s.1.batch_count_per_file)
      → (r.0.1 ≡ k % 2 ^ 32)
        × HasCount (suc k) (find time r.1.1.batch_count_per_file)
        × ((j : ℕ) → time ≢ j → find j r.1.1.batch_count_per_file ≡ find j s.1.batch_count_per_file)

find_or-insert : (t : ℕ) (v : List ℕ) (disk : Disk) → find_or [] t (insert t v disk) ≡ v
find_or-insert t v disk = ground (arith, find-insert t t v disk)

write_log_file-insert :
    (t : ℕ) (bs : List ℕ) (disk : Disk)
    → write_log_file t bs disk ≡ insert t (find_or [] t disk ++ bs) disk
unfolding write_log_file
write_log_file-insert t bs disk = refl

open-header :
    (now : ℕ) (disk : Disk)
    → write_log_file now header_bytes (open_log_file_for_append now disk)
      ≡ insert now (find_or [] now disk ++ header_bytes) disk
unfolding write_log_file open_log_file_for_append
open-header now disk =
    ap (λ (base : List ℕ). insert now (base ++ header_bytes) (open_log_file_for_append now disk))
      (find_or-insert now (find_or [] now disk) disk)
    ∙ insert-insert now (find_or [] now disk ++ header_bytes) (find_or [] now disk) disk

and_left : (a b : Bool) → (a && b) ≡ true → a ≡ true
and_left true b h = refl
and_left false b h = h

module _ (b : List ℕ) (disk : Disk) (m : FileRedoLogManager) where
  -- The writes, whatever has been written before.
  append_to_current-Appends :
      (base : List ℕ) (s : Disk × FileRedoLogManager)
      → write_log_file m.current_file_creation_time (record_bytes b) disk
        ≡ insert m.current_file_creation_time (base ++ record_bytes b) s.0
      → is_open m.current_log_file ≡ true
      → m.batch_count_per_file ≡ s.1.batch_count_per_file
      → Appends m.current_file_creation_time base b s (append_to_current b (disk, m))
  unfolding append_to_current add_size update_batch_count
  append_to_current-Appends base s written opened same = record {
    file = refl;
    disk = written;
    current = refl;
    opened = opened;
    counts =
        rw (← same) (λ k c.
          update_batch_count-counts k m.current_file_creation_time (add_size (length b) m) c);
  }

append-append_to_current :
    (now : ℕ) (b : List ℕ) (s s' : Disk × FileRedoLogManager)
    → open_file_for_write now (length b % 2 ^ 32) s ≡ s'
    → append_to_redo_log now b s ≡ append_to_current b s'
unfolding append_to_redo_log
append-append_to_current now b s s' e = ap (append_to_current b) e

module _ (now : ℕ) (b : List ℕ) (disk : Disk) (m : FileRedoLogManager) where
  open_file-kept :
      keeps_file now (length b % 2 ^ 32) m ≡ true
      → open_file_for_write now (length b % 2 ^ 32) (disk, m) ≡ (disk, m)
  unfolding open_file_for_write
  open_file-kept h = rw h refl

  -- The manager with a new file open.
  abbrev with_new_file : FileRedoLogManager
  with_new_file = record m {
    current_log_file = some now;
    current_file_creation_time = now;
    max_event_time_per_file = insert now 0 m.max_event_time_per_file;
    size_per_file = insert now 0 m.size_per_file;
    current_redo_log_size = 4;
  }

  open_file-new :
      keeps_file now (length b % 2 ^ 32) m ≡ false
      → open_file_for_write now (length b % 2 ^ 32) (disk, m)
        ≡ (insert now (find_or [] now disk ++ header_bytes) disk, with_new_file)
  unfolding open_file_for_write
  open_file-new h = rw h (ap (λ (d : Disk). (d, with_new_file)) (open-header now disk))

  pub keeps_file-is_open :
      keeps_file now (length b % 2 ^ 32) m ≡ true → is_open m.current_log_file ≡ true
  unfolding keeps_file
  keeps_file-is_open h = and_left _ _ h

  rewrite-insert :
      write_log_file now (record_bytes b) (insert now (find_or [] now disk ++ header_bytes) disk)
      ≡ insert now ((find_or [] now disk ++ header_bytes) ++ record_bytes b) disk
  unfolding write_log_file
  rewrite-insert =
      let whole = find_or [] now disk ++ header_bytes in
      ap (λ (base : List ℕ). insert now (base ++ record_bytes b) (insert now whole disk))
        (find_or-insert now whole disk)
      ∙ insert-insert now (whole ++ record_bytes b) whole disk

  -- The open file takes the batch.
  pub append-Appends_open :
      keeps_file now (length b % 2 ^ 32) m ≡ true
      → Appends m.current_file_creation_time
          (find_or [] m.current_file_creation_time disk)
          b
          (disk, m)
          (append_to_redo_log now b (disk, m))
  append-Appends_open h =
      rw (append-append_to_current now b (disk, m) (disk, m) (open_file-kept h)) (
        append_to_current-Appends b disk m (find_or [] m.current_file_creation_time disk) (disk, m)
          (write_log_file-insert _ _ _) (keeps_file-is_open h) refl)

  -- A new file takes the batch.
  pub append-Appends_new :
      keeps_file now (length b % 2 ^ 32) m ≡ false
      → Appends now
          (find_or [] now disk ++ header_bytes)
          b
          (disk, m)
          (append_to_redo_log now b (disk, m))
  unfolding is_open
  append-Appends_new h =
      let whole = find_or [] now disk ++ header_bytes in
      rw
        (append-append_to_current now b (disk, m) (insert now whole disk, with_new_file)
          (open_file-new h))
        (append_to_current-Appends b (insert now whole disk) with_new_file whole (disk, m)
          rewrite-insert refl refl)
