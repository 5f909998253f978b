-- ===== src/Tests/RedoLogs.antt =====
-- A file read byte by byte, redo logs of two files, and the theorems on utils/stream_serialization.go
-- and redolog/file_redolog_manager.go applied to them.
use aresdb.Prelude.{
  ℕ, zero, suc, ◌+◌, ◌%◌, ◌^◌, ◌<◌, ◌≤◌, ◌≡◌, ◌⊎◌, inl, inr, refl, ap, Bool-cases, true, false,
  Option, none, some, List, [], ◌∷◌, ◌++◌, arith, length, ◌==◌,
}
use mathlib.Core.Option.{some_inj, none-ne-some}
use aresdb.Prelude.Dict.{find, find_or}
use aresdb.Stream.{FileSource, IoError, eof, StreamDataReader, ok, err, end_of_file, read, le_bytes}
use aresdb.Stream.Read.{read-exact}
use aresdb.RedoLog.{
  Disk, FileRedoLogManager, append_to_redo_log, keeps_file, header_bytes, record_bytes,
  upsert_header, list_log_files, new_file_redo_log_manager,
}
use aresdb.RedoLog.Replay.{replay, iterator}
use aresdb.RedoLog.Replay.Records.{torn, short}
use aresdb.RedoLog.Replay.Files.{LogFile, count_all, all_infos, file_bytes, infos, records, Replays}
use aresdb.RedoLog.Replay.Recovery.{replay-Recovers, Mended}
use aresdb.RedoLog.Logged.{Shard}
use aresdb.RedoLog.Run.{append_all}
use aresdb.RedoLog.RoundTrip.{IsBounded, append_all-replay}
use aresdb.RedoLog.SameSecond.{append-replay_loses}
use aresdb.RedoLog.Purge.{checkpoint_redolog}
use aresdb.RedoLog.Purge.Listed.{IsPurgeable, IsKept}
use aresdb.RedoLog.Purge.Checkpoint.{IsGone, checkpoint_redolog-cases}

abbrev pub next_byte : ℕ → List ℕ → (List ℕ × Option IoError) × List ℕ
next_byte n [] = (([], some eof), [])
next_byte zero (x ∷ xs) = (([], none), x ∷ xs)
next_byte (suc n) (x ∷ xs) = ((x ∷ [], none), xs)

pub next_byte-at_end : (n : ℕ) (r : List ℕ) → r ≡ [] → (next_byte n r).0 ≡ ([], some eof)
next_byte-at_end n [] h = refl
next_byte-at_end n (x ∷ xs) h = cc

pub next_byte-delivers :
    (n : ℕ) (r : List ℕ)
    → 0 < n
    → 0 < length r
    → let ((bs, e), r') = next_byte n r in
      (e ≡ none) × (0 < length bs) × (length bs ≤ n) × (r ≡ bs ++ r')
next_byte-delivers n [] h k = absurd (omega arith)
next_byte-delivers zero (x ∷ xs) h k = absurd (omega arith)
next_byte-delivers (suc n) (x ∷ xs) h k = (refl, omega arith, omega arith, refl)

abbrev pub byte_by_byte : FileSource (List ℕ)
byte_by_byte = record {
  next = next_byte;
  left = λ r. r;
  opened = λ bs. bs;
  left-opened = λ bs. refl;
  at_end = next_byte-at_end;
  delivers = next_byte-delivers;
}

abbrev reader : StreamDataReader (List ℕ)
reader = record { reader = 1 ∷ 2 ∷ 3 ∷ []; bytes_read = 0 }

read-exact_example :
    ((xs rest : List ℕ)
      → reader.reader ≡ xs ++ rest
      → length xs ≡ 2
      → (s' : StreamDataReader (List ℕ)) × (read byte_by_byte 2 reader ≡ ok (xs, s'))
        × (s'.reader ≡ rest)
        × (s'.bytes_read ≡ (0 + 2) % 2 ^ 32))
    × (length reader.reader < 2 → read byte_by_byte 2 reader ≡ err end_of_file)
read-exact_example = read-exact byte_by_byte 2 reader

-- A batch is its bytes here.
abbrev parse : List ℕ → Option (List ℕ)
parse b = some b

abbrev batches : List (ℕ × List ℕ × List ℕ)
batches = (5, 1 ∷ 2 ∷ [], 1 ∷ 2 ∷ []) ∷ (6, 3 ∷ [], 3 ∷ []) ∷ (6, 4 ∷ [], 4 ∷ []) ∷ []

abbrev start : Shard
start = ([], new_file_redo_log_manager 1 1000)

abbrev written : Disk
written = (append_all batches start).1.0

one_of :
    (n i j t : ℕ) (a b bytes : List ℕ)
    → length a < n
    → length b < n
    → find t ((i, a) ∷ (j, b) ∷ []) ≡ some bytes
    → length bytes < n
one_of n i j t a b bytes h k e = elim (Bool-cases (i == t)) [
  | inl first ↦ omega (arith, ap length (some_inj.0 (rw first at e)))
  | inr later ↦ elim (Bool-cases (j == t)) [
    | inl second ↦ omega (arith, ap length (some_inj.0 (rw (later, second) at e)))
    | inr missing ↦ absurd (none-ne-some _ (rw (later, missing) at e))
  ]
]

written-IsBounded : IsBounded written
unfolding append_all append_to_redo_log new_file_redo_log_manager
written-IsBounded time bytes h =
    one_of (2 ^ 32) 5 6 time (find_or [] 5 written) (find_or [] 6 written) bytes (omega arith)
      (omega arith) h

append_all-replay_example :
    Replays
      (replay byte_by_byte parse 9
        (iterator (list_log_files written))
        written
        (new_file_redo_log_manager 2 50))
      (append_all batches start).0
      written
unfolding append_all append_to_redo_log new_file_redo_log_manager
append_all-replay_example =
    append_all-replay byte_by_byte parse 1 1000 2 50 9 batches
      (omega arith, refl, (omega arith, refl, (omega arith, refl, tt)))
      (inr (omega arith), (inr (omega arith), (inl refl, tt))) written-IsBounded (omega arith)

-- The second file lost its last byte.
abbrev whole_file : LogFile (List ℕ)
whole_file = record { time = 5; buffers = (1 ∷ 2 ∷ [], 1 ∷ 2 ∷ []) ∷ []; tail = []; cut = false }

abbrev torn_file : LogFile (List ℕ)
torn_file = record {
  time = 6;
  buffers = (3 ∷ [], 3 ∷ []) ∷ [];
  tail = le_bytes 4 2 ++ 4 ∷ [];
  cut = true;
}

abbrev torn_disk : Disk
torn_disk = (5, file_bytes whole_file) ∷ (6, file_bytes torn_file) ∷ []

replay-Recovers_example :
    (disk' : Disk) × Replays
      (replay byte_by_byte parse 9
        (iterator (list_log_files torn_disk))
        torn_disk
        (new_file_redo_log_manager 1 1000))
      (all_infos (whole_file ∷ torn_file ∷ []))
      disk'
    × Mended (whole_file ∷ torn_file ∷ []) disk'
unfolding list_log_files new_file_redo_log_manager file_bytes records header_bytes record_bytes
    le_bytes count_all
replay-Recovers_example =
    replay-Recovers byte_by_byte parse 9 (whole_file ∷ torn_file ∷ []) torn_disk
      (new_file_redo_log_manager 1 1000) refl ((λ e. absurd (omega arith), tt), (tt, tt))
      (
        record {
          stored = refl;
          readable = (omega arith, refl, tt);
          rest = short (omega arith);
          bounded = omega arith;
        },
        refl,
        (
          record {
            stored = refl;
            readable = (omega arith, refl, tt);
            rest = torn 2 (4 ∷ []) refl (omega arith) (omega arith);
            bounded = omega arith;
          },
          refl,
          tt,
        ),
      )
      (omega arith)

-- A manager whose file takes no more bytes.
abbrev full : FileRedoLogManager
full = new_file_redo_log_manager 10 0

abbrev one_batch : Disk
one_batch = (5, header_bytes ++ records {B = List ℕ} ((1 ∷ [], 1 ∷ []) ∷ [])) ∷ []

abbrev after : Disk
after = (append_to_redo_log 5 (2 ∷ []) (one_batch, full)).1.0

append-replay_loses_example :
    (left : Disk) × Replays
      (replay byte_by_byte parse 9
        (iterator (list_log_files after))
        after
        (new_file_redo_log_manager 1 1000))
      (infos 5 0 ((1 ∷ [], 1 ∷ []) ∷ []))
      left
    × (find 5 left ≡ some (header_bytes ++ records {B = List ℕ} ((1 ∷ [], 1 ∷ []) ∷ [])))
unfolding keeps_file new_file_redo_log_manager upsert_header records record_bytes
append-replay_loses_example =
    append-replay_loses byte_by_byte parse 5 9 1 1000 ((1 ∷ [], 1 ∷ []) ∷ []) (2 ∷ []) full
      (omega arith, refl, tt) refl (omega arith) (omega arith) (omega arith)

checkpoint_redolog-cases_example :
    let (succeeded, s) =
      checkpoint_redolog (λ t. t == 6) 100 6 0 (written, (append_all batches start).1.1) in
    (IsKept 5 (written, (append_all batches start).1.1) s
      ⊎ (IsPurgeable 100 6 0 (append_all batches start).1.1 5 × IsGone 5 s))
    × (succeeded ≡ true → IsPurgeable 100 6 0 (append_all batches start).1.1 5 → IsGone 5 s)
checkpoint_redolog-cases_example =
    checkpoint_redolog-cases (λ t. t == 6) 100 6 0 5 written (append_all batches start).1.1
