-- ===== src/RedoLog/Replay/Whole.antt =====
-- FileRedoLogManager.Iterator (redolog/file_redolog_manager.go): a whole replay of a disk.
use mathlib.Core.List.{append_assoc}
use aresdb.Prelude.{
  ℕ, zero, suc, ◌+◌, ◌%◌, ◌^◌, ◌<◌, ◌≡◌, ◌≢◌, refl, ap, ◌∙◌, Bool, true, false, Option, none, some,
  List, [], ◌∷◌, ◌++◌, map, arith, length, length-append, if◌then◌else◌,
}
use aresdb.Prelude.Dict.{find, find-insert}
use aresdb.Stream.{FileSource, StreamDataReader}
use aresdb.RedoLog.{Disk, FileRedoLogManager, record_bytes, header_bytes, truncate_log_file}
use aresdb.RedoLog.Replay.{
  NextUpsertBatchInfo, replay, count_recovered, set_recovery_done, Records.Tail,
  Records.length-record_bytes,
}
use aresdb.RedoLog.Replay.Files.{
  LogFile, records, file_bytes, infos, all_infos, count_all, mend, mend_all, Apart, Distinct,
  Readable, LogFiles, HasCount, count_recovered-counts, Replays, Replays-prepend, Replays-next,
  cursor, next-found, next-Tail, next-open,
}

module _ {B : Type 0} (parse : List ℕ → Option B) where
  -- The other files are as they were after one has been read.
  LogFiles-count :
      (time : ℕ) (disk : Disk) (m m' : FileRedoLogManager) (fs : List (LogFile B))
      → Apart time fs
      → ((j : ℕ) → time ≢ j → find j m'.batch_count_per_file ≡ find j m.batch_count_per_file)
      → LogFiles parse disk m fs
      → LogFiles parse disk m' fs
  LogFiles-count time disk m m' [] a h l = tt
  LogFiles-count time disk m m' (f ∷ fs) a h l =
      (l.0, h f.time a.0 ∙ l.1, LogFiles-count time disk m m' fs a.1 h l.2)

  LogFiles-truncate :
      (time n : ℕ) (disk : Disk) (m : FileRedoLogManager) (fs : List (LogFile B))
      → Apart time fs
      → LogFiles parse disk m fs
      → LogFiles parse (truncate_log_file time n disk) m fs
  unfolding truncate_log_file
  LogFiles-truncate time n disk m [] a l = tt
  LogFiles-truncate time n disk m (f ∷ fs) a l = (
    record {
      stored = find-insert f.time time _ disk ∙ ground (arith, l.0.stored);
      readable = l.0.readable;
      rest = l.0.rest;
      bounded = l.0.bounded;
    },
    l.1,
    LogFiles-truncate time n disk m fs a.1 l.2,
  )

  pub LogFiles-mend :
      (f : LogFile B) (disk : Disk) (m : FileRedoLogManager) (fs : List (LogFile B))
      → Apart f.time fs
      → LogFiles parse disk m fs
      → LogFiles parse (mend f disk) m fs
  LogFiles-mend f disk m fs a l = mend-cases f.cut
    where
      mend-cases :
          (cut : Bool)
          → LogFiles parse
              (if cut then truncate_log_file f.time (4 + length (records f.buffers)) disk else disk)
              m
              fs
      mend-cases true = LogFiles-truncate f.time _ disk m fs a l
      mend-cases false = l

pub length-file_bytes :
    {B : Type 0} (f : LogFile B)
    → length (file_bytes f) ≡ 4 + (length (records f.buffers) + length f.tail)
unfolding file_bytes header_bytes
length-file_bytes f =
    length-append header_bytes (records f.buffers ++ f.tail)
    ∙ ap (λ (n : ℕ). 4 + n) (length-append (records f.buffers) f.tail)

module _ {R B : Type 0} (source : FileSource R) (parse : List ℕ → Option B) where
  -- The batches of an open file, given how the replay goes on after it.
  buffers-Replays :
      (fuel n k time : ℕ) (files : List ℕ) (bs : List (List ℕ × B)) (tail : List ℕ) (cut : Bool)
      (s : StreamDataReader R) (o : ℕ) (disk final : Disk) (m : FileRedoLogManager)
      (rest : List (NextUpsertBatchInfo B))
      → Readable parse bs
      → Tail parse tail cut
      → source.left s.reader ≡ records bs ++ tail
      → o + length (records bs) < 2 ^ 32
      → HasCount k (find time m.batch_count_per_file)
      → length bs + n < fuel
      → ((fuel' : ℕ) (m' : FileRedoLogManager)
          → n < fuel'
          → ((j : ℕ) → time ≢ j → find j m'.batch_count_per_file ≡ find j m.batch_count_per_file)
          → Replays
              (replay source parse fuel'
                (cursor files none (o + length (records bs)))
                (if cut then truncate_log_file time (o + length (records bs)) disk else disk)
                m')
              rest
              final)
      → Replays
          (replay source parse fuel (cursor (time ∷ files) (some s) o) disk m)
          (infos time k bs ++ rest)
          final
  unfolding records infos
  buffers-Replays zero n k time files bs tail cut s o disk final m rest r t e b c lt go =
      absurd (omega arith)
  buffers-Replays (suc fuel) n k time files [] tail cut s o disk final m rest r t e b c lt go =
      let at_end : o ≡ o + 0 = omega arith in
      Replays-next source parse (suc fuel) (cursor (time ∷ files) (some s) o) (cursor files none o)
        disk (if cut then truncate_log_file time o disk else disk) final m rest
        (next-Tail source parse time files s o disk m tail cut t (omega arith) e)
        (rw at_end (go (suc fuel) m (omega arith) (λ j d. refl)))
  buffers-Replays (suc fuel) n k time files ((b, x) ∷ bs) tail cut s o disk final m rest r t e bd c
        lt go =
      let l = length-append (record_bytes b) (records bs) in
      let l' = length-record_bytes b r.0 in
      let f =
        next-found source parse time files s o disk m b x (records bs ++ tail) r.0 r.1
          (e ∙ append_assoc (record_bytes b) (records bs) tail) in
      let counts = count_recovered-counts k time (length b) m c in
      let o' = ((o + 4) % 2 ^ 32 + length b) % 2 ^ 32 in
      let moved : o' + length (records bs) ≡ o + length (record_bytes b ++ records bs) =
        omega arith in
      let m' = (count_recovered time (length b) m).1 in
      let ih =
        buffers-Replays fuel n (suc k) time files bs tail cut f.0 o' disk final m' rest r.2 t f.2
          (omega arith) counts.1 (omega arith)
          (rw moved (λ fuel' m'' lt' same. go fuel' m'' lt' (λ j d. same j d ∙ counts.2 j d))) in
      rw (← counts.0) (
        Replays-prepend source parse fuel (cursor (time ∷ files) (some s) o)
          (cursor (time ∷ files) (some f.0) o') disk disk final m m' _
          (infos time (suc k) bs ++ rest) f.1 ih)

  no_files-Replays :
      (fuel o : ℕ) (disk : Disk) (m : FileRedoLogManager)
      → Replays (replay source parse (suc fuel) (cursor [] none o) disk m) [] disk
  unfolding replay set_recovery_done
  no_files-Replays fuel o disk m = (set_recovery_done m, refl, refl)

  pub files-Replays :
      (fuel : ℕ) (fs : List (LogFile B)) (o : ℕ) (disk : Disk) (m : FileRedoLogManager)
      → Distinct fs
      → LogFiles parse disk m fs
      → count_all fs < fuel
      → Replays
          (replay source parse fuel (cursor (map (λ f. f.time) fs) none o) disk m)
          (all_infos fs)
          (mend_all fs disk)
  unfolding all_infos count_all mend_all file_bytes
  files-Replays zero fs o disk m d l h = absurd (omega arith)
  files-Replays (suc fuel) [] o disk m d l h = no_files-Replays fuel o disk m
  files-Replays (suc fuel) (f ∷ fs) o disk m d l h =
      let times = map (λ (g : LogFile B). g.time) fs in
      let opened =
        next-open source parse f.time times o disk m (records f.buffers ++ f.tail) l.0.stored in
      Replays-next source parse (suc fuel) (cursor (f.time ∷ times) none o)
        (cursor (f.time ∷ times) (some opened.0) 4) disk disk (mend_all fs (mend f disk)) m
        (infos f.time 0 f.buffers ++ all_infos fs) opened.1
        (buffers-Replays (suc fuel) (count_all fs) 0 f.time times f.buffers f.tail f.cut opened.0 4
          disk (mend_all fs (mend f disk)) m (all_infos fs) l.0.readable l.0.rest opened.2
          (omega (arith, length-file_bytes f, l.0.bounded)) l.1 h
          (λ fuel' m' lt same.
            files-Replays fuel' fs (4 + length (records f.buffers)) (mend f disk) m' d.1
              (LogFiles-count parse f.time (mend f disk) m m' fs d.0 same
                (LogFiles-mend parse f disk m fs d.0 l.2))
              lt))
