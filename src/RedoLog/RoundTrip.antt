-- ===== src/RedoLog/RoundTrip.antt =====
-- What AppendToRedoLog writes, the iterator reads back (redolog/file_redolog_manager.go).
use aresdb.Prelude.{
  ℕ, ◌^◌, ◌<◌, ◌≡◌, refl, ap, ◌∙◌, Option, none, some, List, [], ◌∷◌, arith, length,
}
use aresdb.Prelude.Dict.{find}
use aresdb.Stream.{FileSource}
use mathlib.Core.Bool.{false≢true}
use aresdb.RedoLog.{
  Disk, is_open, FileRedoLogManager, sort, insert_sorted, list_log_files, new_file_redo_log_manager,
}
use aresdb.RedoLog.Replay.{NextUpsertBatchInfo, replay, iterator}
use aresdb.RedoLog.Replay.Files.{
  LogFile, cursor, count_all, file_bytes, all_infos, mend_all, Apart, Distinct, LogFiles, Replays,
}
use aresdb.RedoLog.Replay.Records.{short}
use aresdb.RedoLog.Replay.Whole.{files-Replays}
use aresdb.RedoLog.Log.{times, Above, Ascending}
use aresdb.RedoLog.Logged.{Shard, AllLogged}
use aresdb.RedoLog.Run.{append_all, Timely, Parses, Logs, append_all-Logs}

-- The listing sorts the times, which are in order.
insert_sorted-Above :
    {B : Type 0} (t : ℕ) (fs : List (LogFile B))
    → Above t fs
    → insert_sorted t (times fs) ≡ t ∷ times fs
unfolding insert_sorted
insert_sorted-Above t [] a = refl
insert_sorted-Above t (f ∷ fs) a = ground arith

sort-times : {B : Type 0} (fs : List (LogFile B)) → Ascending fs → sort (times fs) ≡ times fs
unfolding sort
sort-times [] a = refl
sort-times (f ∷ fs) a =
    ap (insert_sorted f.time) (sort-times fs a.1) ∙ insert_sorted-Above f.time fs a.0

Apart-Above : {B : Type 0} (t : ℕ) (fs : List (LogFile B)) → Above t fs → Apart t fs
Apart-Above t [] a = tt
Apart-Above t (f ∷ fs) a = (ground arith, Apart-Above t fs a.1)

Distinct-Ascending : {B : Type 0} (fs : List (LogFile B)) → Ascending fs → Distinct fs
Distinct-Ascending [] a = tt
Distinct-Ascending (f ∷ fs) a = (Apart-Above f.time fs a.0, Distinct-Ascending fs a.1)

-- Every file has fewer than 2^32 bytes, which the offset of the iterator can count.
abbrev pub IsBounded : Disk → Type 0
IsBounded disk = (time : ℕ) (bytes : List ℕ) → find time disk ≡ some bytes → length bytes < 2 ^ 32

module _ {B : Type 0} (parse : List ℕ → Option B) where
  LogFiles-AllLogged :
      (s : Shard) (m : FileRedoLogManager) (fs : List (LogFile B))
      → IsBounded s.0
      → m.batch_count_per_file ≡ []
      → AllLogged parse s fs
      → LogFiles parse s.0 m fs
  LogFiles-AllLogged s m [] b n l = tt
  LogFiles-AllLogged s m (f ∷ fs) b n l = (
    record {
      stored = l.0.stored;
      readable = l.0.readable;
      rest = rw l.0.uncut (short (omega (arith, ap length l.0.whole)));
      bounded = b f.time (file_bytes f) l.0.stored;
    },
    rw n refl,
    LogFiles-AllLogged s m fs b n l.1,
  )

  mend_all-AllLogged :
      (s : Shard) (disk : Disk) (fs : List (LogFile B))
      → AllLogged parse s fs
      → mend_all fs disk ≡ disk
  unfolding mend_all
  mend_all-AllLogged s disk [] l = refl
  mend_all-AllLogged s disk (f ∷ fs) l = rw l.0.uncut (mend_all-AllLogged s disk fs l.1)

module _ {R B : Type 0} (source : FileSource R) (parse : List ℕ → Option B) where
  -- Take a new shard without log files and append batches of fewer than 2^32 bytes that
  -- NewUpsertBatch accepts, where each append that opens a new file does so in a later second than
  -- the file before. If every file of the disk then has fewer than 2^32 bytes, a new manager, of
  -- whatever settings, replays exactly these batches, in their order, each under the file and the
  -- offset that its append returned; it then ends with recovery done and leaves the disk as it
  -- was, however the file system delivers the bytes. The loop that takes the batches needs one
  -- round more than there are batches.
  pub append_all-replay :
      (interval size interval' size' fuel : ℕ) (es : List (ℕ × List ℕ × B))
      → let start : Shard = ([], new_file_redo_log_manager interval size) in
        let (told, (disk, m)) = append_all es start in
        Parses parse es
        → Timely es start
        → IsBounded disk
        → length es < fuel
        → Replays
            (replay source parse fuel
              (iterator (list_log_files disk))
              disk
              (new_file_redo_log_manager interval' size'))
            told
            disk
  unfolding new_file_redo_log_manager iterator list_log_files is_open count_all all_infos
  append_all-replay interval size interval' size' fuel es p t b h =
      let start : Shard = ([], new_file_redo_log_manager interval size) in
      let empty : Logs parse [] start = record {
        listed = refl;
        ascending = tt;
        newest = tt;
        opened = λ o. absurd (false≢true o);
        logged = tt;
        uncounted = λ j lt. refl;
      } in
      let run = append_all-Logs parse es [] start p t empty in
      let disk = (append_all es start).1.0 in
      let m = new_file_redo_log_manager interval' size' in
      let listed = ap sort run.1.listed ∙ sort-times run.0 run.1.ascending in
      let r =
        files-Replays source parse fuel run.0 0 disk m (Distinct-Ascending run.0 run.1.ascending)
          (LogFiles-AllLogged parse (append_all es start).1 m run.0 b refl run.1.logged)
          (omega (arith, run.3)) in
      (
        r.0,
        ap (λ (ts : List ℕ). replay source parse fuel (cursor ts none 0) disk m) listed
            ∙ r.1
            ∙ ap (λ (is : List (NextUpsertBatchInfo B)). (is, some (mend_all run.0 disk, r.0)))
                run.2
            ∙ ap (λ (d : Disk). ((append_all es start).0, some (d, r.0)))
                (mend_all-AllLogged parse (append_all es start).1 disk run.0 run.1.logged),
        r.2,
      )
