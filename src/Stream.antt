-- ===== src/Stream.antt =====
-- utils/stream_serialization.go: StreamDataReader and StreamDataWriter. Bytes are numbers below 256;
-- an integer is stored little-endian, as the supported hosts do, and a signed one by its bit pattern.
use aresdb.Prelude.{
  ℕ, zero, suc, ◌+◌, ◌-◌, ◌*◌, ◌/◌, ◌%◌, ◌^◌, ◌<◌, ◌≤◌, ◌≡◌, Bool, true, false, Option, none, some,
  List, [], ◌∷◌, ◌++◌, ltb, ◌==◌, if◌then◌else◌, length, take, drop, replicate,
}
use aresdb.Murmur.{load}
pub mod Read

-- What io.Reader.Read may fail with: io.EOF, or another error.
pub data IoError : Type 0 where
  eof other : IoError

-- `left` is what is still to read of a file. A call of Read delivers a first part of it, not
-- empty, of the length asked for at most; at the end it delivers nothing, with io.EOF.
pub record FileSource (R : Type 0) : Type 0 where
  pub next : ℕ → R → (List ℕ × Option IoError) × R
  pub left : R → List ℕ
  pub opened : List ℕ → R
  pub left-opened : (bytes : List ℕ) → left (opened bytes) ≡ bytes
  pub at_end : (n : ℕ) (r : R) → left r ≡ [] → (next n r).0 ≡ ([], some eof)
  pub delivers :
      (n : ℕ) (r : R)
      → 0 < n
      → 0 < length (left r)
      → let ((bs, e), r') = next n r in
        (e ≡ none) × (0 < length bs) × (length bs ≤ n) × (left r ≡ bs ++ left r')

pub data ReadError : Type 0 where
  end_of_file failed too_short : ReadError

pub data Result (A : Type 0) : Type 0 where
  ok : A → Result A
  err : ReadError → Result A

pub record StreamDataReader (R : Type 0) : Type 0 where
  pub reader : R
  pub bytes_read : ℕ

pub record StreamDataWriter : Type 0 where
  pub written : List ℕ
  pub bytes_written : ℕ

unfoldable pub new_stream_data_reader : {R : Type 0} → R → StreamDataReader R
new_stream_data_reader r = record { reader = r; bytes_read = 0 }

module _ {R : Type 0} (source : FileSource R) where
  -- The loop of Read, for `want` more bytes: the bytes, and the error at which it ended. Each round
  -- that goes on has read a byte, so that `want` rounds are enough.
  unfoldable pub fill : ℕ → ℕ → R → (List ℕ × Option IoError) × R
  fill zero want r = (([], none), r)
  fill (suc fuel) zero r = (([], none), r)
  fill (suc fuel) (suc want) r =
      let ((bs, e), r') = source.next (suc want) r in
      let ((rest, e'), r'') = fill fuel (suc want - length bs) r' in
      elim e [
        | some x ↦ ((bs, some x), r')
        | none ↦ if length bs == 0 then (([], none), r') else ((bs ++ rest, e'), r'')
      ]

  -- What Read makes of the end of the loop.
  unfoldable pub checked :
      ℕ → ℕ → (List ℕ × Option IoError) × R → Result (List ℕ × StreamDataReader R)
  checked n before ((bs, some eof), r) = err end_of_file
  checked n before ((bs, some other), r) = err failed
  checked n before ((bs, none), r) =
      if length bs == n
      then ok (bs, record { reader = r; bytes_read = (before + n) % 2 ^ 32 })
      else err too_short

  unfoldable pub read : ℕ → StreamDataReader R → Result (List ℕ × StreamDataReader R)
  unfolding fill checked
  read n s = checked n s.bytes_read (fill n n s.reader)

  -- ReadUint8, ReadUint16, ReadUint32 and ReadUint64, for `n` bytes; also ReadInt8, ReadInt16,
  -- ReadInt32 and ReadFloat32, whose result is the value with that bit pattern.
  unfoldable pub read_uint : ℕ → StreamDataReader R → Result (ℕ × StreamDataReader R)
  unfolding read load
  read_uint n s = elim (read n s) [ ok (bs, s') ↦ ok (load n bs, s') | err e ↦ err e ]

  unfoldable pub skip_bytes : ℕ → StreamDataReader R → Result (StreamDataReader R)
  unfolding read
  skip_bytes n s = elim (read n s) [ ok (bs, s') ↦ ok s' | err e ↦ err e ]

  unfoldable pub read_padding : ℕ → ℕ → StreamDataReader R → Result (StreamDataReader R)
  unfolding skip_bytes
  read_padding nbytes alignment s =
      let skipped = skip_bytes (alignment - nbytes % alignment) s in
      if ltb 1 alignment then (if ltb 0 (nbytes % alignment) then skipped else ok s) else ok s

-- The `n` bytes of an integer.
unfoldable pub le_bytes : ℕ → ℕ → List ℕ
le_bytes zero v = []
le_bytes (suc n) v = (v % 256) ∷ le_bytes n (v / 256)

-- The writer below takes all bytes.
unfoldable pub write : List ℕ → StreamDataWriter → StreamDataWriter
write bs w = record {
  written = w.written ++ bs;
  bytes_written = (w.bytes_written + length bs) % 2 ^ 32;
}

-- WriteUint8, WriteUint16, WriteUint32 and WriteUint64, for `n` bytes, and the signed ones.
unfoldable pub write_uint : ℕ → ℕ → StreamDataWriter → StreamDataWriter
unfolding write le_bytes
write_uint n v w = write (le_bytes n v) w

unfoldable pub write_skip_bytes : ℕ → StreamDataWriter → StreamDataWriter
unfolding write
write_skip_bytes n w = if ltb 0 n then write (replicate n 0) w else w

unfoldable pub write_padding : ℕ → ℕ → StreamDataWriter → StreamDataWriter
unfolding write_skip_bytes
write_padding nbytes alignment w =
    if ltb 1 alignment
    then (if ltb 0 (nbytes % alignment)
        then write_skip_bytes (alignment - nbytes % alignment) w
        else w)
    else w
