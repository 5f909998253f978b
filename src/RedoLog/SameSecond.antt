-- ===== src/RedoLog/SameSecond.antt =====
-- A rotation of the redo log in the second in which its file was created
-- (FileRedoLogManager.openFileForWrite, redolog/file_redolog_manager.go).
use mathlib.Core.List.{append_assoc, append-nil}
use aresdb.Prelude.{
  ℕ, ◌+◌, ◌%◌, ◌^◌, ◌<◌, ◌≡◌, refl, ap, ◌∙◌, true, false, Option, some, List, [], ◌∷◌, ◌++◌, arith,
  length, length-append,
}
use aresdb.Prelude.Dict.{find, find_or, insert}
use aresdb.Stream.{FileSource}
use aresdb.RedoLog.{
  Disk, FileRedoLogManager, append_to_redo_log, keeps_file, header_bytes, upsert_header,
  record_bytes, list_log_files, new_file_redo_log_manager,
}
use aresdb.RedoLog.Replay.{replay, iterator}
use aresdb.RedoLog.Replay.Records.{torn, length-record_bytes}
use aresdb.RedoLog.Replay.Files.{
  LogFile, Readable, records, infos, all_infos, count_all, Replays, file_bytes,
}
use aresdb.RedoLog.Replay.Recovery.{replay-Recovers}
use aresdb.RedoLog.Append.{append-Appends_new}
use aresdb.RedoLog.Replay.Whole.{length-file_bytes}

find-single : (t : ℕ) (bs : List ℕ) → find t ((t, bs) ∷ []) ≡ some bs
find-single t bs = ground arith

find_or-single : (t : ℕ) (bs : List ℕ) → find_or [] t ((t, bs) ∷ []) ≡ bs
find_or-single t bs = ground arith

insert-single : (t : ℕ) (bs cs : List ℕ) → insert t cs ((t, bs) ∷ []) ≡ (t, cs) ∷ []
insert-single t bs cs = ground arith

-- The file gets a second header in the middle.
append-second_header :
    {B : Type 0} (now : ℕ) (bs : List (List ℕ × B)) (b : List ℕ) (m : FileRedoLogManager)
    → keeps_file now (length b % 2 ^ 32) m ≡ false
    → (append_to_redo_log now b ((now, header_bytes ++ records bs) ∷ [], m)).1.0
      ≡ (
        now,
        file_bytes (record {
          time = now;
          buffers = bs;
          tail = header_bytes ++ record_bytes b;
          cut = true;
        }),
      )
        ∷ []
unfolding file_bytes
append-second_header now bs b m full =
    let whole = header_bytes ++ records bs in
    let e = append-Appends_new now b ((now, whole) ∷ []) m full in
    e.disk
    ∙ insert-single now whole _
    ∙ ap (λ (base : List ℕ). (now, (base ++ header_bytes) ++ record_bytes b) ∷ [])
        (find_or-single now whole)
    ∙ ap (λ (bytes : List ℕ). (now, bytes) ∷ []) (simp append_assoc)

module _ {R B : Type 0} (source : FileSource R) (parse : List ℕ → Option B) where
  -- A log file that the manager no longer keeps for a batch is opened anew by an append in the
  -- second of its creation. The file gets a second header before the batch. Where the batch with
  -- its size is shorter than the number that this header reads as, and the file has fewer than
  -- 2^32 bytes, a replay of the disk returns the batches from before and not the appended one, and
  -- cuts the appended one off the file.
  pub append-replay_loses :
      (now fuel interval size : ℕ) (bs : List (List ℕ × B)) (b : List ℕ) (m : FileRedoLogManager)
      → let disk : Disk = (now, header_bytes ++ records bs) ∷ [] in
        let disk' = (append_to_redo_log now b (disk, m)).1.0 in
        Readable parse bs
        → keeps_file now (length b % 2 ^ 32) m ≡ false
        → length b + 4 < upsert_header
        → length (records bs) + length b + 12 < 2 ^ 32
        → length bs < fuel
        → (left : Disk) × Replays
            (replay source parse fuel
              (iterator (list_log_files disk'))
              disk'
              (new_file_redo_log_manager interval size))
            (infos now 0 bs)
            left
          × (find now left ≡ some (header_bytes ++ records bs))
  unfolding upsert_header header_bytes list_log_files new_file_redo_log_manager all_infos count_all
  append-replay_loses now fuel interval size bs b m r full short bound h =
      let file : LogFile B = record {
        time = now;
        buffers = bs;
        tail = header_bytes ++ record_bytes b;
        cut = true;
      } in
      let written = append-second_header now bs b m full in
      let size_left = length-record_bytes b (omega arith) in
      let x =
        replay-Recovers source parse fuel (file ∷ []) ((now, file_bytes file) ∷ [])
          (new_file_redo_log_manager interval size) refl (tt, tt)
          (
            record {
              stored = find-single now (file_bytes file);
              readable = r;
              rest = torn upsert_header (record_bytes b) refl (omega arith) (omega arith);
              bounded = omega (
                arith,
                length-file_bytes file,
                length-append header_bytes (record_bytes b),
                size_left,
              );
            },
            refl,
            tt,
          )
          (omega arith) in
      rw written (
        x.0,
        (x.1.0, rw (← append-nil (infos now 0 bs)) x.1.1, x.1.2),
        x.2.0 ∙ ap (λ (rs : List ℕ). some (header_bytes ++ rs)) (append-nil (records bs)),
      )
