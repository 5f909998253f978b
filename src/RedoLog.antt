-- ===== src/RedoLog.antt =====
-- redolog/file_redolog_manager.go, and the log files of diskstore/local_diskstore.go. A failure of
-- the file system panics, so that the operations below are those of a process that goes on; only
-- the deletion of a file hands its error back. Times are Unix seconds, and a time and the rotation
-- interval add up to less than 2^63.
use aresdb.Prelude.{
  ℕ, zero, suc, ◌+◌, ◌-◌, ◌%◌, ◌^◌, Bool, true, false, ◌&&◌, ◌||◌, Option, none, some, List, [],
  ◌∷◌, ◌++◌, ltb, leb, ◌==◌, if◌then◌else◌, length, take, replicate,
}
use aresdb.Prelude.Dict.{Dict, find, find_or, insert, erase, keys}
use aresdb.Stream.{StreamDataWriter, write_uint}
pub mod Replay
pub mod Purge
pub mod Log
pub mod Append
pub mod Logged
pub mod Run
pub mod RoundTrip
pub mod SameSecond
pub mod Kafka
pub mod Composite

-- The log files of one shard by their creation times, each with its bytes.
abbrev pub Disk : Type 0
Disk = Dict (List ℕ)

unfoldable pub insert_sorted : ℕ → List ℕ → List ℕ
insert_sorted x [] = x ∷ []
insert_sorted x (y ∷ ys) = let rest = insert_sorted x ys in if ltb y x then y ∷ rest else x ∷ y ∷ ys

unfoldable pub sort : List ℕ → List ℕ
unfolding insert_sorted
sort [] = []
sort (x ∷ xs) = insert_sorted x (sort xs)

unfoldable pub list_log_files : Disk → List ℕ
unfolding sort
list_log_files disk = sort (keys disk)

unfoldable pub open_log_file_for_replay : ℕ → Disk → Option (List ℕ)
open_log_file_for_replay time disk = find time disk

-- The flags O_APPEND and O_CREATE: a file that exists keeps its bytes.
unfoldable pub open_log_file_for_append : ℕ → Disk → Disk
open_log_file_for_append time disk = insert time (find_or [] time disk) disk

-- A write to a file that is open for append.
unfoldable pub write_log_file : ℕ → List ℕ → Disk → Disk
write_log_file time bytes disk = insert time (find_or [] time disk ++ bytes) disk

-- A missing file is an error.
unfoldable pub delete_log_file : ℕ → Disk → Option Disk
delete_log_file time disk = elim (find time disk) [ none ↦ none | some _ ↦ some (erase time disk) ]

-- os.Truncate, which fills a shorter file with zeros.
unfoldable pub truncate_log_file : ℕ → ℕ → Disk → Disk
truncate_log_file time offset disk =
    let bytes = find_or [] time disk in
    insert time (take offset bytes ++ replicate (offset - length bytes) 0) disk

unfoldable pub upsert_header : ℕ
upsert_header = 0xADDAFEED

-- `current_log_file` is the time of the file that is open.
pub record FileRedoLogManager : Type 0 where
  pub rotation_interval : ℕ
  pub max_redo_log_size : ℕ
  pub current_redo_log_size : ℕ
  pub total_redo_log_size : ℕ
  pub max_event_time_per_file : Dict ℕ
  pub batch_count_per_file : Dict ℕ
  pub size_per_file : Dict ℕ
  pub current_log_file : Option ℕ
  pub current_file_creation_time : ℕ
  pub recovery_done : Bool
  pub batch_recovered : ℕ

unfoldable pub new_file_redo_log_manager : ℕ → ℕ → FileRedoLogManager
new_file_redo_log_manager interval size = record {
  rotation_interval = interval;
  max_redo_log_size = size;
  current_redo_log_size = 0;
  total_redo_log_size = 0;
  max_event_time_per_file = [];
  batch_count_per_file = [];
  size_per_file = [];
  current_log_file = none;
  current_file_creation_time = 0;
  recovery_done = false;
  batch_recovered = 0;
}

unfoldable pub is_open : Option ℕ → Bool
is_open none = false
is_open (some _) = true

-- The file that is open takes the batch.
unfoldable pub keeps_file : ℕ → ℕ → FileRedoLogManager → Bool
unfolding is_open
keeps_file now batch_size m =
    is_open m.current_log_file
    && (ltb now (m.current_file_creation_time + m.rotation_interval)
        && ltb ((m.current_redo_log_size + batch_size + 4) % 2 ^ 32) m.max_redo_log_size)

unfoldable pub header_bytes : List ℕ
unfolding upsert_header write_uint
header_bytes = (write_uint 4 upsert_header (record { written = []; bytes_written = 0 })).written

unfoldable pub open_file_for_write : ℕ → ℕ → Disk × FileRedoLogManager → Disk × FileRedoLogManager
unfolding keeps_file open_log_file_for_append write_log_file header_bytes
open_file_for_write now batch_size (disk, m) = if keeps_file now batch_size m then (disk, m) else (
  write_log_file now header_bytes (open_log_file_for_append now disk),
  record m {
    current_log_file = some now;
    current_file_creation_time = now;
    max_event_time_per_file = insert now 0 m.max_event_time_per_file;
    size_per_file = insert now 0 m.size_per_file;
    current_redo_log_size = 4;
  },
)

-- The new count, with the manager.
unfoldable pub update_batch_count : ℕ → FileRedoLogManager → ℕ × FileRedoLogManager
update_batch_count time m =
    let count : ℕ = elim (find time m.batch_count_per_file) [
      | none ↦ 1
      | some count ↦ (count + 1) % 2 ^ 32
    ] in
    (count, record m { batch_count_per_file = insert time count m.batch_count_per_file })

-- The size and the bytes of a batch, as they stand in a file.
unfoldable pub record_bytes : List ℕ → List ℕ
unfolding write_uint
record_bytes buffer =
    (write_uint 4 (length buffer % 2 ^ 32) (record { written = []; bytes_written = 0 })).written
    ++ buffer

-- The sizes after a batch has been written to the open file.
unfoldable pub add_size : ℕ → FileRedoLogManager → FileRedoLogManager
add_size n m =
    let time = m.current_file_creation_time in
    record m {
      current_redo_log_size = (m.current_redo_log_size + (n % 2 ^ 32 + 4) % 2 ^ 32) % 2 ^ 32;
      size_per_file =
          insert time ((find_or 0 time m.size_per_file + (n % 2 ^ 32 + 4) % 2 ^ 32) % 2 ^ 32)
            m.size_per_file;
      total_redo_log_size = (m.total_redo_log_size + n + 4) % 2 ^ 64;
    }

-- The writes to the file that is open: its time and the offset of the batch, with the new state.
unfoldable pub append_to_current :
    List ℕ → Disk × FileRedoLogManager → (ℕ × ℕ) × (Disk × FileRedoLogManager)
unfolding update_batch_count record_bytes add_size write_log_file
append_to_current buffer (disk, m) =
    let time = m.current_file_creation_time in
    let (count, m') = update_batch_count time (add_size (length buffer) m) in
    ((time, (count + 2 ^ 32 - 1) % 2 ^ 32), (write_log_file time (record_bytes buffer) disk, m'))

-- AppendToRedoLog at the time `now`.
unfoldable pub append_to_redo_log :
    ℕ → List ℕ → Disk × FileRedoLogManager → (ℕ × ℕ) × (Disk × FileRedoLogManager)
unfolding open_file_for_write append_to_current
append_to_redo_log now buffer s =
    append_to_current buffer (open_file_for_write now (length buffer % 2 ^ 32) s)

unfoldable pub update_max_event_time : ℕ → ℕ → FileRedoLogManager → FileRedoLogManager
update_max_event_time event_time time m =
    let raised = record m {
      max_event_time_per_file = insert time event_time m.max_event_time_per_file;
    } in
    elim (find time m.max_event_time_per_file) [
      | none ↦ raised
      | some old ↦ if leb event_time old then m else raised
    ]

unfoldable pub get_total_size : FileRedoLogManager → ℕ
get_total_size m = m.total_redo_log_size

unfoldable pub get_num_files : FileRedoLogManager → ℕ
get_num_files m = length m.size_per_file
