-- ===== src/RedoLog/Replay/Records.antt =====
-- FileRedoLogManager.Iterator (redolog/file_redolog_manager.go): one round of its loop on an open
-- file, by what the file has left.
use mathlib.Core.List.{append-nil, append_assoc}
use aresdb.Prelude.{
  ℕ, zero, suc, ◌+◌, ◌/◌, ◌%◌, ◌^◌, ◌<◌, ◌≡◌, refl, sym, ap, ◌∙◌, Bool, true, false, Option, none,
  some, List, [], ◌++◌, arith, length, length-append,
}
use aresdb.Stream.{
  FileSource, StreamDataReader, ok, err, end_of_file, read_uint, le_bytes, new_stream_data_reader,
}
use aresdb.Stream.Read.{read-exact, load-le_bytes}
use aresdb.Murmur.{load}
use aresdb.Prelude.Dict.{find}
use aresdb.RedoLog.{Disk, open_log_file_for_replay, record_bytes, header_bytes, upsert_header}
use aresdb.RedoLog.Replay.{Attempt, at_end, corrupted, found, read_batch, open_file}

pub length-le_bytes : (n v : ℕ) → length (le_bytes n v) ≡ n
unfolding le_bytes
length-le_bytes zero v = refl
length-le_bytes (suc n) v = ap suc (length-le_bytes n (v / 256))

pub record_bytes-split :
    (b : List ℕ) → length b < 2 ^ 32 → record_bytes b ≡ le_bytes 4 (length b) ++ b
unfolding record_bytes
record_bytes-split b h = ap (λ (n : ℕ). le_bytes 4 n ++ b) (omega arith)

pub length-record_bytes : (b : List ℕ) → length b < 2 ^ 32 → length (record_bytes b) ≡ 4 + length b
length-record_bytes b h =
    ap length (record_bytes-split b h)
    ∙ length-append (le_bytes 4 (length b)) b
    ∙ omega (arith, length-le_bytes 4 (length b))

pub data Tail {B : Type 0} (parse : List ℕ → Option B) (tail : List ℕ) : Bool → Type 0 where
  short : length tail < 4 → Tail parse tail false
  torn :
      (size : ℕ) (rest : List ℕ)
      → tail ≡ le_bytes 4 size ++ rest
      → size < 2 ^ 32
      → length rest < size
      → Tail parse tail true
  unparsable :
      (b rest : List ℕ)
      → tail ≡ record_bytes b ++ rest
      → length b < 2 ^ 32
      → parse b ≡ none
      → Tail parse tail true

module _ {R B : Type 0} (source : FileSource R) (parse : List ℕ → Option B) where
  -- An integer is read back, and the rest of the file is left.
  pub read_uint-le_bytes :
      (n v : ℕ) (rest : List ℕ) (s : StreamDataReader R)
      → v < 256 ^ n
      → source.left s.reader ≡ le_bytes n v ++ rest
      → (s' : StreamDataReader R) × (read_uint source n s ≡ ok (v, s'))
        × (source.left s'.reader ≡ rest)
  unfolding read_uint
  read_uint-le_bytes n v rest s h e =
      let x = (read-exact source n s).0 (le_bytes n v) rest e (length-le_bytes n v) in
      let loaded : load n (le_bytes n v) ≡ v =
        ap (load n) (sym (append-nil (le_bytes n v))) ∙ load-le_bytes n v [] h in
      (x.0, rw (x.1, read_uint) (ap (λ (k : ℕ). ok (k, x.0)) loaded), x.2)

  read_uint-short :
      (n : ℕ) (s : StreamDataReader R)
      → length (source.left s.reader) < n
      → read_uint source n s ≡ err end_of_file
  unfolding read_uint
  read_uint-short n s h = rw ((read-exact source n s).1 h, read_uint)

  -- The header of a file is read, and the rest is left.
  pub open_file-header :
      (time : ℕ) (disk : Disk) (rest : List ℕ)
      → find time disk ≡ some (header_bytes ++ rest)
      → (s : StreamDataReader R) × (open_file source parse time disk ≡ some s)
        × (source.left s.reader ≡ rest)
  unfolding open_file header_bytes
  open_file-header time disk rest e =
      let r = new_stream_data_reader (source.opened (header_bytes ++ rest)) in
      let x = read_uint-le_bytes 4 upsert_header rest r (omega arith) (source.left-opened _) in
      (x.0, rw (e, open_file, open_log_file_for_replay) (rw (x.1, open_file)), x.2)

  pub read_batch-found :
      (offset : ℕ) (b rest : List ℕ) (batch : B) (s : StreamDataReader R)
      → length b < 2 ^ 32
      → parse b ≡ some batch
      → source.left s.reader ≡ record_bytes b ++ rest
      → (s' : StreamDataReader R) × (read_batch source parse offset s
          ≡ found batch (length b) s' (((offset + 4) % 2 ^ 32 + length b) % 2 ^ 32))
        × (source.left s'.reader ≡ rest)
  unfolding read_batch
  read_batch-found offset b rest batch s h parsed e =
      let split =
        e
        ∙ ap (λ (bs : List ℕ). bs ++ rest) (record_bytes-split b h)
        ∙ append_assoc (le_bytes 4 (length b)) b rest in
      let x = read_uint-le_bytes 4 (length b) (b ++ rest) s (omega arith) split in
      let y = (read-exact source (length b) x.0).0 b rest x.2 refl in
      (y.0, rw (x.1, y.1, parsed, read_batch), y.2)

  read_batch-unread :
      (offset size : ℕ) (rest : List ℕ) (s : StreamDataReader R)
      → offset < 2 ^ 32
      → size < 2 ^ 32
      → source.left s.reader ≡ le_bytes 4 size ++ rest
      → length rest < size
      → read_batch source parse offset s ≡ corrupted offset
  unfolding read_batch
  read_batch-unread offset size rest s o h e k =
      let x = read_uint-le_bytes 4 size rest s (omega arith) e in
      let y = (read-exact source size x.0).1 (omega (arith, ap length x.2)) in
      rw (x.1, y, read_batch) (ap corrupted (omega arith))

  read_batch-unparsable :
      (offset : ℕ) (b rest : List ℕ) (s : StreamDataReader R)
      → offset < 2 ^ 32
      → length b < 2 ^ 32
      → parse b ≡ none
      → source.left s.reader ≡ record_bytes b ++ rest
      → read_batch source parse offset s ≡ corrupted offset
  unfolding read_batch
  read_batch-unparsable offset b rest s o h unparsed e =
      let split =
        e
        ∙ ap (λ (bs : List ℕ). bs ++ rest) (record_bytes-split b h)
        ∙ append_assoc (le_bytes 4 (length b)) b rest in
      let x = read_uint-le_bytes 4 (length b) (b ++ rest) s (omega arith) split in
      let y = (read-exact source (length b) x.0).0 b rest x.2 refl in
      rw (x.1, y.1, unparsed, read_batch) (ap corrupted (omega arith))

  -- What a round makes of a tail.
  abbrev pub tail_attempt : Bool → ℕ → Attempt R B
  tail_attempt true offset = corrupted offset
  tail_attempt false offset = at_end

  pub read_batch-Tail :
      (offset : ℕ) (tail : List ℕ) {cut : Bool} (s : StreamDataReader R)
      → Tail parse tail cut
      → offset < 2 ^ 32
      → source.left s.reader ≡ tail
      → read_batch source parse offset s ≡ tail_attempt cut offset
  unfolding read_batch
  read_batch-Tail offset tail s (short h) o e =
      rw (read_uint-short 4 s (omega (arith, ap length e)), read_batch)
  read_batch-Tail offset tail s (torn size rest split h k) o e =
      read_batch-unread offset size rest s o h (e ∙ split) k
  read_batch-Tail offset tail s (unparsable b rest split h unparsed) o e =
      read_batch-unparsable offset b rest s o h unparsed (e ∙ split)
