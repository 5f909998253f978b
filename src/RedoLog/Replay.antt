-- ===== src/RedoLog/Replay.antt =====
-- FileRedoLogManager.Iterator, and the loop of TableShard.PlayRedoLog (memstore/recovery.go) that
-- takes its batches. `parse` is NewUpsertBatch.
use aresdb.Prelude.{
  ℕ, zero, suc, ◌+◌, ◌-◌, ◌%◌, ◌^◌, Bool, true, ◌&&◌, ◌||◌, Option, none, some, List, [], ◌∷◌, ltb,
  leb, ◌==◌, if◌then◌else◌,
}
use aresdb.Prelude.Dict.{find_or, insert}
use aresdb.Stream.{
  FileSource, StreamDataReader, end_of_file, ok, err, new_stream_data_reader, read, read_uint,
}
use aresdb.RedoLog.{
  Disk, FileRedoLogManager, upsert_header, open_log_file_for_replay, truncate_log_file,
  update_batch_count,
}
pub mod Records
pub mod Files
pub mod Whole
pub mod Recovery

pub record NextUpsertBatchInfo (B : Type 0) : Type 0 where
  pub batch : B
  pub redo_log_file : ℕ
  pub batch_offset : ℕ
  pub recovery : Bool

-- What the closure keeps between two calls: the files from the current one on, the reader of the
-- current file if it is open, and the offset in it.
pub record Cursor (R : Type 0) : Type 0 where
  pub files : List ℕ
  pub current_reader : Option (StreamDataReader R)
  pub offset : ℕ

-- What one round of the loop finds in the open file.
pub data Attempt (R : Type 0) (B : Type 0) : Type 0 where
  at_end : Attempt R B
  corrupted : ℕ → Attempt R B
  found : B → ℕ → StreamDataReader R → ℕ → Attempt R B

pub data Next (R : Type 0) (B : Type 0) : Type 0 where
  finished : Disk → FileRedoLogManager → Next R B
  panicked : Next R B
  returned : NextUpsertBatchInfo B → Cursor R → Disk → FileRedoLogManager → Next R B

-- The sizes and counts after a batch of the file `time` has been read.
unfoldable pub count_recovered : ℕ → ℕ → FileRedoLogManager → ℕ × FileRedoLogManager
unfolding update_batch_count
count_recovered time size m =
    let (count, m') = update_batch_count time (record m {
      total_redo_log_size = (m.total_redo_log_size + (size + 4) % 2 ^ 32) % 2 ^ 64;
      size_per_file =
          insert time ((find_or 0 time m.size_per_file + (size + 4) % 2 ^ 32) % 2 ^ 32)
            m.size_per_file;
      batch_recovered = m.batch_recovered + 1;
    }) in
    ((count + 2 ^ 32 - 1) % 2 ^ 32, m')

unfoldable pub set_recovery_done : FileRedoLogManager → FileRedoLogManager
set_recovery_done m = record m { recovery_done = true }

module _ {R B : Type 0} (source : FileSource R) (parse : List ℕ → Option B) where
  -- The reader after the header, or none for a panic.
  unfoldable pub open_file : ℕ → Disk → Option (StreamDataReader R)
  unfolding open_log_file_for_replay new_stream_data_reader read_uint upsert_header
  open_file time disk = elim (open_log_file_for_replay time disk) [
    | none ↦ none
    | some bytes ↦ elim (read_uint source 4 (new_stream_data_reader (source.opened bytes))) [
      | err e ↦ none
      | ok (header, s) ↦ if header == upsert_header then some s else none
    ]
  ]

  unfoldable pub read_batch : ℕ → StreamDataReader R → Attempt R B
  unfolding read_uint read
  read_batch offset s = elim (read_uint source 4 s) [
    | err end_of_file ↦ at_end
    | err _ ↦ corrupted offset
    | ok (size, s') ↦
        let offset' = (offset + 4) % 2 ^ 32 in
        elim (read source size s') [
          | err _ ↦ corrupted ((offset' + 2 ^ 32 - 4) % 2 ^ 32)
          | ok (buffer, s'') ↦
              let offset'' = (offset' + size) % 2 ^ 32 in
              elim (parse buffer) [
                | none ↦ corrupted ((offset'' + 2 ^ 32 - 4 + 2 ^ 32 - size) % 2 ^ 32)
                | some batch ↦ found batch size s'' offset''
              ]
        ]
  ]

  -- The open file, which is opened first where none is.
  unfoldable pub current_file :
      ℕ → Option (StreamDataReader R) → ℕ → Disk → Option (StreamDataReader R × ℕ)
  unfolding open_file
  current_file time (some s) offset disk = some (s, offset)
  current_file time none offset disk = elim (open_file time disk) [
    | none ↦ none
    | some s ↦ some (s, 4)
  ]

  -- The loop of the closure, over the files from the current one on.
  unfoldable pub next_from :
      List ℕ → Option (StreamDataReader R) → ℕ → Disk → FileRedoLogManager → Next R B
  unfolding current_file read_batch truncate_log_file count_recovered set_recovery_done
  next_from [] reader offset disk m = finished disk (set_recovery_done m)
  next_from (time ∷ files) reader offset disk m = elim (current_file time reader offset disk) [
    | none ↦ panicked
    | some (s, o) ↦ elim (read_batch o s) [
      | at_end ↦ next_from files none o disk m
      | corrupted start ↦ next_from files none o (truncate_log_file time start disk) m
      | found batch size s' o' ↦
          let (offset', m') = count_recovered time size m in
          returned
            (record {
              batch = batch;
              redo_log_file = time;
              batch_offset = offset';
              recovery = true;
            })
            (record { files = time ∷ files; current_reader = some s'; offset = o' }) disk m'
    ]
  ]

  unfoldable pub next : Cursor R → Disk → FileRedoLogManager → Next R B
  unfolding next_from
  next c disk m = next_from c.files c.current_reader c.offset disk m

  -- The loop of PlayRedoLog, which takes the batches in turn: those taken, and the state in which
  -- the iterator ended, or none for a panic or if the fuel ran out.
  unfoldable pub replay :
      ℕ
      → Cursor R
      → Disk
      → FileRedoLogManager
      → List (NextUpsertBatchInfo B) × Option (Disk × FileRedoLogManager)
  unfolding next
  replay zero c disk m = ([], none)
  replay (suc fuel) c disk m = elim (next c disk m) [
    | finished disk' m' ↦ ([], some (disk', m'))
    | panicked ↦ ([], none)
    | returned info c' disk' m' ↦
        let (infos, last) = replay fuel c' disk' m' in (info ∷ infos, last)
  ]

-- The cursor of a new iterator.
unfoldable pub iterator : {R : Type 0} → List ℕ → Cursor R
iterator files = record { files = files; current_reader = none; offset = 0 }

-- Whether PlayRedoLog skips the rows of a batch for the backfill, given the persisted checkpoint.
unfoldable pub skip_backfill_rows : {B : Type 0} → ℕ → ℕ → NextUpsertBatchInfo B → Bool
skip_backfill_rows file offset info =
    info.recovery
    && (ltb info.redo_log_file file || (info.redo_log_file == file && leb info.batch_offset offset))
