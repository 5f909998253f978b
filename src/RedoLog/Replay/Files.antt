-- ===== src/RedoLog/Replay/Files.antt =====
-- FileRedoLogManager.Iterator (redolog/file_redolog_manager.go) over whole files: the batches that
-- a replay returns, and what it leaves on disk.
use aresdb.Prelude.{
  ℕ, zero, suc, ◌+◌, ◌-◌, ◌%◌, ◌^◌, ◌<◌, ◌≡◌, ◌≢◌, refl, Bool, true, false, Option, none, some,
  List, [], ◌∷◌, ◌++◌, arith, length, if◌then◌else◌,
}
use aresdb.Prelude.Dict.{find, insert, find_or, find-insert}
use aresdb.Stream.{FileSource, StreamDataReader}
use aresdb.RedoLog.{
  Disk, FileRedoLogManager, record_bytes, header_bytes, truncate_log_file, update_batch_count,
}
use aresdb.RedoLog.Replay.{
  NextUpsertBatchInfo, Cursor, returned, next, next_from, replay, current_file, count_recovered,
  Records.Tail, Records.open_file-header, Records.read_batch-found, Records.read_batch-Tail,
}

-- A file as it stands on disk: its batches, with what they parse to, and the bytes after them,
-- which a replay cuts off if `cut`.
pub record LogFile (B : Type 0) : Type 0 where
  pub time : ℕ
  pub buffers : List (List ℕ × B)
  pub tail : List ℕ
  pub cut : Bool

module _ {B : Type 0} where
  unfoldable pub records : List (List ℕ × B) → List ℕ
  records [] = []
  records ((b, x) ∷ bs) = record_bytes b ++ records bs

  unfoldable pub file_bytes : LogFile B → List ℕ
  file_bytes f = header_bytes ++ (records f.buffers ++ f.tail)

  -- The infos of the batches of one file, the first of which has the offset `k`.
  unfoldable pub infos : ℕ → ℕ → List (List ℕ × B) → List (NextUpsertBatchInfo B)
  infos time k [] = []
  infos time k ((b, x) ∷ bs) =
      record { batch = x; redo_log_file = time; batch_offset = k % 2 ^ 32; recovery = true }
      ∷ infos time (suc k) bs

  unfoldable pub all_infos : List (LogFile B) → List (NextUpsertBatchInfo B)
  unfolding infos
  all_infos [] = []
  all_infos (f ∷ fs) = infos f.time 0 f.buffers ++ all_infos fs

  unfoldable pub count_all : List (LogFile B) → ℕ
  count_all [] = 0
  count_all (f ∷ fs) = length f.buffers + count_all fs

  abbrev pub mend : LogFile B → Disk → Disk
  mend f disk =
      if f.cut then truncate_log_file f.time (4 + length (records f.buffers)) disk else disk

  -- The disk after the corrupted tails have been cut off.
  unfoldable pub mend_all : List (LogFile B) → Disk → Disk
  mend_all [] disk = disk
  mend_all (f ∷ fs) disk = mend_all fs (mend f disk)

  abbrev pub Apart : ℕ → List (LogFile B) → Type 0
  Apart time [] = Unit
  Apart time (f ∷ fs) = (time ≢ f.time) × Apart time fs

  abbrev pub Distinct : List (LogFile B) → Type 0
  Distinct [] = Unit
  Distinct (f ∷ fs) = Apart f.time fs × Distinct fs

module _ {B : Type 0} (parse : List ℕ → Option B) where
  abbrev pub Readable : List (List ℕ × B) → Type 0
  Readable [] = Unit
  Readable ((b, x) ∷ bs) = (length b < 2 ^ 32) × (parse b ≡ some x) × Readable bs

  pub record IsLogFile (disk : Disk) (f : LogFile B) : Type 0 where
    pub stored : find f.time disk ≡ some (file_bytes f)
    pub readable : Readable f.buffers
    pub rest : Tail parse f.tail f.cut
    pub bounded : length (file_bytes f) < 2 ^ 32

  -- The files of a disk, none of which the manager has counted.
  abbrev pub LogFiles : Disk → FileRedoLogManager → List (LogFile B) → Type 0
  LogFiles disk m [] = Unit
  LogFiles disk m (f ∷ fs) =
      IsLogFile disk f × (find f.time m.batch_count_per_file ≡ none) × LogFiles disk m fs

-- The count of a file of which `k` batches have been read.
abbrev pub HasCount : ℕ → Option ℕ → Type 0
HasCount zero c = c ≡ none
HasCount (suc k) c = c ≡ some (suc k % 2 ^ 32)

pub update_batch_count-counts :
    (k time : ℕ) (m : FileRedoLogManager)
    → HasCount k (find time m.batch_count_per_file)
    → let (count, m') = update_batch_count time m in
      ((count + 2 ^ 32 - 1) % 2 ^ 32 ≡ k % 2 ^ 32)
      × HasCount (suc k) (find time m'.batch_count_per_file)
      × ((j : ℕ) → time ≢ j → find j m'.batch_count_per_file ≡ find j m.batch_count_per_file)
unfolding update_batch_count
update_batch_count-counts zero time m h = (
  ground arith,
  ground (arith, find-insert time time 1 m.batch_count_per_file),
  λ j d. ground (arith, find-insert j time 1 m.batch_count_per_file),
)
update_batch_count-counts (suc k) time m h =
    let c : ℕ = (suc k % 2 ^ 32 + 1) % 2 ^ 32 in
    (
      ground arith,
      ground (arith, find-insert time time c m.batch_count_per_file),
      λ j d. ground (arith, find-insert j time c m.batch_count_per_file),
    )

pub count_recovered-counts :
    (k time size : ℕ) (m : FileRedoLogManager)
    → HasCount k (find time m.batch_count_per_file)
    → let (offset, m') = count_recovered time size m in
      (offset ≡ k % 2 ^ 32)
      × HasCount (suc k) (find time m'.batch_count_per_file)
      × ((j : ℕ) → time ≢ j → find j m'.batch_count_per_file ≡ find j m.batch_count_per_file)
unfolding count_recovered
count_recovered-counts k time size m h =
    update_batch_count-counts k time
      (record m {
        total_redo_log_size = (m.total_redo_log_size + (size + 4) % 2 ^ 32) % 2 ^ 64;
        size_per_file =
            insert time ((find_or 0 time m.size_per_file + (size + 4) % 2 ^ 32) % 2 ^ 32)
              m.size_per_file;
        batch_recovered = m.batch_recovered + 1;
      })
      h

-- A replay that returns these infos and ends with this disk.
abbrev pub Replays :
    {B : Type 0}
    → List (NextUpsertBatchInfo B) × Option (Disk × FileRedoLogManager)
    → List (NextUpsertBatchInfo B)
    → Disk
    → Type 0
Replays {B} r expected disk =
    (m : FileRedoLogManager) × (r ≡ (expected, some (disk, m))) × (m.recovery_done ≡ true)

abbrev pub cursor : {R : Type 0} → List ℕ → Option (StreamDataReader R) → ℕ → Cursor R
cursor files reader offset = record { files = files; current_reader = reader; offset = offset }

module _ {R B : Type 0} (source : FileSource R) (parse : List ℕ → Option B) where
  pub Replays-prepend :
      (fuel : ℕ) (c c' : Cursor R) (disk disk' final : Disk) (m m' : FileRedoLogManager)
      (info : NextUpsertBatchInfo B) (is : List (NextUpsertBatchInfo B))
      → next source parse c disk m ≡ returned info c' disk' m'
      → Replays (replay source parse fuel c' disk' m') is final
      → Replays (replay source parse (suc fuel) c disk m) (info ∷ is) final
  unfolding replay
  Replays-prepend fuel c c' disk disk' final m m' info is e r = (r.0, rw (e, r.1, replay) refl, r.2)

  pub Replays-next :
      (fuel : ℕ) (c c' : Cursor R) (disk disk' final : Disk) (m : FileRedoLogManager)
      (is : List (NextUpsertBatchInfo B))
      → next source parse c disk m ≡ next source parse c' disk' m
      → Replays (replay source parse fuel c' disk' m) is final
      → Replays (replay source parse fuel c disk m) is final
  unfolding replay
  Replays-next zero c c' disk disk' final m is e r = r
  Replays-next (suc fuel) c c' disk disk' final m is e r = (r.0, rw (e, replay) r.1, r.2)

  pub next-found :
      (time : ℕ) (files : List ℕ) (s : StreamDataReader R) (o : ℕ) (disk : Disk)
      (m : FileRedoLogManager) (b : List ℕ) (x : B) (rest : List ℕ)
      → length b < 2 ^ 32
      → parse b ≡ some x
      → source.left s.reader ≡ record_bytes b ++ rest
      → (s' : StreamDataReader R) × (next source parse (cursor (time ∷ files) (some s) o) disk m
          ≡ returned
              (record {
                batch = x;
                redo_log_file = time;
                batch_offset = (count_recovered time (length b) m).0;
                recovery = true;
              })
              (cursor (time ∷ files) (some s') (((o + 4) % 2 ^ 32 + length b) % 2 ^ 32))
              disk
              (count_recovered time (length b) m).1)
        × (source.left s'.reader ≡ rest)
  unfolding next count_recovered
  next-found time files s o disk m b x rest h parsed e =
      let f = read_batch-found source parse o b rest x s h parsed e in
      (f.0, rw (f.1, next, next_from, current_file) refl, f.2)

  pub next-Tail :
      (time : ℕ) (files : List ℕ) (s : StreamDataReader R) (o : ℕ) (disk : Disk)
      (m : FileRedoLogManager) (tail : List ℕ) (cut : Bool)
      → Tail parse tail cut
      → o < 2 ^ 32
      → source.left s.reader ≡ tail
      → next source parse (cursor (time ∷ files) (some s) o) disk m
        ≡ next source parse
            (cursor files none o)
            (if cut then truncate_log_file time o disk else disk)
            m
  unfolding next
  next-Tail time files s o disk m tail true t h e =
      rw (read_batch-Tail source parse o tail s t h e, next, next_from, current_file) refl
  next-Tail time files s o disk m tail false t h e =
      rw (read_batch-Tail source parse o tail s t h e, next, next_from, current_file) refl

  pub next-open :
      (time : ℕ) (files : List ℕ) (o : ℕ) (disk : Disk) (m : FileRedoLogManager) (rest : List ℕ)
      → find time disk ≡ some (header_bytes ++ rest)
      → (s : StreamDataReader R) × (next source parse (cursor (time ∷ files) none o) disk m
          ≡ next source parse (cursor (time ∷ files) (some s) 4) disk m)
        × (source.left s.reader ≡ rest)
  unfolding next
  next-open time files o disk m rest e =
      let f = open_file-header source parse time disk rest e in
      (f.0, rw (f.1, next, next_from, current_file) refl, f.2)
