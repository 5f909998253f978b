-- ===== src/RedoLog/Replay/Recovery.antt =====
-- Recovery from the redo logs (FileRedoLogManager.Iterator, redolog/file_redolog_manager.go): what a
-- replay returns of the files of a disk, and the bytes that it leaves in them.
use mathlib.Core.List.{append_assoc, append-nil}
use aresdb.Prelude.{
  ℕ, ◌+◌, ◌-◌, ◌<◌, ◌≡◌, ◌≢◌, refl, sym, ap, inl, inr, Bool-cases, ◌∙◌, Option, some, List, [], ◌∷◌,
  ◌++◌, map, arith, length, length-append, take, ◌==◌, if◌then◌else◌,
}
use aresdb.Prelude.Dict.{find, find_or, find-insert}
use aresdb.Stream.{FileSource}
use aresdb.RedoLog.{Disk, FileRedoLogManager, header_bytes, truncate_log_file, list_log_files}
use aresdb.RedoLog.Replay.{replay, iterator}
use aresdb.RedoLog.Replay.Files.{
  LogFile, records, file_bytes, all_infos, count_all, mend, mend_all, Apart, Distinct, LogFiles,
  Replays,
}
use aresdb.RedoLog.Replay.Whole.{LogFiles-mend, files-Replays, length-file_bytes}

take-append : {A : Type 0} (xs ys : List A) → take (length xs) (xs ++ ys) ≡ xs
take-append [] ys = refl
take-append (x ∷ xs) ys = ap (λ (zs : List _). x ∷ zs) (take-append xs ys)

module _ {B : Type 0} where
  -- What is left of a file after a replay.
  abbrev pub mended_bytes : LogFile B → List ℕ
  mended_bytes f = header_bytes ++ (records f.buffers ++ (if f.cut then [] else f.tail))

  take-file_bytes :
      (f : LogFile B)
      → take (4 + length (records f.buffers)) (file_bytes f)
        ≡ header_bytes ++ (records f.buffers ++ [])
  unfolding file_bytes header_bytes
  take-file_bytes f =
      let whole = header_bytes ++ records f.buffers in
      ap (λ (n : ℕ). take n (file_bytes f)) (sym (length-append header_bytes (records f.buffers)))
      ∙ ap (λ (bs : List ℕ). take (length whole) bs)
          (sym (append_assoc header_bytes (records f.buffers) f.tail))
      ∙ take-append whole f.tail
      ∙ ap (λ (bs : List ℕ). header_bytes ++ bs) (sym (append-nil (records f.buffers)))

  find-truncate :
      (f : LogFile B) (j : ℕ) (disk : Disk)
      → find f.time disk ≡ some (file_bytes f)
      → find j (truncate_log_file f.time (4 + length (records f.buffers)) disk)
        ≡ (if f.time == j then some (header_bytes ++ (records f.buffers ++ [])) else find j disk)
  unfolding truncate_log_file
  find-truncate f j disk h =
      let fits : 4 + length (records f.buffers) - length (file_bytes f) ≡ 0 =
        omega (arith, length-file_bytes f) in
      let stored : find_or [] f.time disk ≡ file_bytes f = ground arith in
      find-insert j f.time _ disk
      ∙ rw (stored, fits, take-file_bytes f, append-nil (header_bytes ++ (records f.buffers ++ [])))
          refl

  find-mend_self :
      (f : LogFile B) (disk : Disk)
      → find f.time disk ≡ some (file_bytes f)
      → find f.time (mend f disk) ≡ some (mended_bytes f)
  unfolding file_bytes
  find-mend_self f disk h = elim (Bool-cases f.cut) [
    | inl cut ↦ rw cut (find-truncate f f.time disk h ∙ ground arith)
    | inr kept ↦ rw kept h
  ]

  find-mend_ne :
      (f : LogFile B) (j : ℕ) (disk : Disk)
      → j ≢ f.time
      → find f.time disk ≡ some (file_bytes f)
      → find j (mend f disk) ≡ find j disk
  find-mend_ne f j disk d h = elim (Bool-cases f.cut) [
    | inl cut ↦ rw cut (find-truncate f j disk h ∙ ground arith)
    | inr kept ↦ rw kept refl
  ]

  -- Each file is left with its mended bytes.
  abbrev pub Mended : List (LogFile B) → Disk → Type 0
  Mended [] disk = Unit
  Mended (f ∷ fs) disk = (find f.time disk ≡ some (mended_bytes f)) × Mended fs disk

module _ {B : Type 0} (parse : List ℕ → Option B) (m : FileRedoLogManager) where
  find-mend_all-Apart :
      (j : ℕ) (disk : Disk) (fs : List (LogFile B))
      → Apart j fs
      → Distinct fs
      → LogFiles parse disk m fs
      → find j (mend_all fs disk) ≡ find j disk
  unfolding mend_all
  find-mend_all-Apart j disk [] a d l = refl
  find-mend_all-Apart j disk (f ∷ fs) a d l =
      find-mend_all-Apart j (mend f disk) fs a.1 d.1 (LogFiles-mend parse f disk m fs d.0 l.2)
      ∙ find-mend_ne f j disk a.0 l.0.stored

  mend_all-Mended :
      (disk : Disk) (fs : List (LogFile B))
      → Distinct fs
      → LogFiles parse disk m fs
      → Mended fs (mend_all fs disk)
  unfolding mend_all
  mend_all-Mended disk [] d l = tt
  mend_all-Mended disk (f ∷ fs) d l =
      let others = LogFiles-mend parse f disk m fs d.0 l.2 in
      (
        find-mend_all-Apart f.time (mend f disk) fs d.0 d.1 others
            ∙ find-mend_self f disk l.0.stored,
        mend_all-Mended (mend f disk) fs d.1 others,
      )

module _ {R B : Type 0} (source : FileSource R) (parse : List ℕ → Option B) where
  -- The files of a disk, whose times differ and are listed in this order, each consist of the
  -- header, of records whose batches NewUpsertBatch accepts, and of a tail: fewer than four bytes,
  -- or a record of which a part is missing, or a whole record whose batch is refused, with
  -- anything behind it. Each has fewer than 2^32 bytes and the manager has counted none of their
  -- batches. Then a replay returns the batches of the files, in order, under their files and
  -- numbers in them, and ends with recovery done. It leaves each file with the header and its
  -- records; a tail of fewer than four bytes stays behind them, any other tail is cut off.
  pub replay-Recovers :
      (fuel : ℕ) (fs : List (LogFile B)) (disk : Disk) (m : FileRedoLogManager)
      → list_log_files disk ≡ map (λ f. f.time) fs
      → Distinct fs
      → LogFiles parse disk m fs
      → count_all fs < fuel
      → (disk' : Disk) × Replays
          (replay source parse fuel (iterator (list_log_files disk)) disk m)
          (all_infos fs)
          disk'
        × Mended fs disk'
  unfolding iterator
  replay-Recovers fuel fs disk m listed d l h = (
    mend_all fs disk,
    rw listed (files-Replays source parse fuel fs 0 disk m d l h),
    mend_all-Mended parse m disk fs d l,
  )
