-- ===== src/Progress/Backfill.antt =====
-- memstore/backfill_manager.go: the BackfillManager of a shard. Of an upsert batch (a value of `B`)
-- it reads the number of rows and of bytes; sizes are numbers of bytes.
use Prim.Native.String.{String}
use aresdb.Prelude.{
  ℕ, ◌+◌, Bool, false, Option, none, some, List, [], ◌∷◌, ◌++◌, leb, ◌==◌, if◌then◌else◌,
}
use aresdb.Prelude.Int.{ℤ, pos}
use aresdb.Progress.{MetaStore, is_newer}

pub record BackfillManager (B : Type 0) : Type 0 where
  pub max_buffer_size : ℕ
  pub backfill_threshold_in_bytes : ℕ
  pub table_name : String
  pub shard : ℕ
  pub upsert_batches : List B
  pub num_records : ℕ
  pub current_buffer_size : ℕ
  pub backfilling_buffer_size : ℕ
  pub last_redo_file : ℤ
  pub last_batch_offset : ℕ
  pub current_redo_file : ℤ
  pub current_batch_offset : ℕ

unfoldable pub new_backfill_manager : {B : Type 0} → String → ℕ → ℕ → ℕ → BackfillManager B
new_backfill_manager table_name shard max_buffer_size threshold = record {
  max_buffer_size = max_buffer_size;
  backfill_threshold_in_bytes = threshold;
  table_name = table_name;
  shard = shard;
  upsert_batches = [];
  num_records = 0;
  current_buffer_size = 0;
  backfilling_buffer_size = 0;
  last_redo_file = pos 0;
  last_batch_offset = 0;
  current_redo_file = pos 0;
  current_batch_offset = 0;
}

-- What the manager reads of a batch, and `int64(float64(size) * 0.95)`.
pub record Sizes (B : Type 0) : Type 0 where
  pub num_rows : B → ℕ
  -- `len(GetBuffer()) + GetAlternativeBytes()`
  pub bytes : B → ℕ
  pub almost : ℕ → ℕ

module _ {B : Type 0} where
  -- WaitForBackfillBufferAvailability waits while this holds.
  unfoldable pub buffer_is_full : BackfillManager B → Bool
  buffer_is_full r = leb r.max_buffer_size (r.current_buffer_size + r.backfilling_buffer_size)

  -- `append`, on nil: the position moves on.
  unfoldable pub append : Sizes B → Option B → ℤ → ℕ → BackfillManager B → BackfillManager B × Bool
  append sizes none redo_file offset r =
      (record r { current_redo_file = redo_file; current_batch_offset = offset }, false)
  append sizes (some batch) redo_file offset r =
      let size = r.current_buffer_size + sizes.bytes batch in
      (
        record r {
          current_redo_file = redo_file;
          current_batch_offset = offset;
          upsert_batches = r.upsert_batches ++ (batch ∷ []);
          num_records = r.num_records + sizes.num_rows batch;
          current_buffer_size = size;
        },
        leb (sizes.almost r.max_buffer_size) (size + r.backfilling_buffer_size),
      )

  -- The batches (none for nil) with the position that they reach, and the manager.
  unfoldable pub start_backfill : BackfillManager B → (List B × ℤ × ℕ) × BackfillManager B
  start_backfill r =
      if r.current_buffer_size == 0
      then (([], r.current_redo_file, r.current_batch_offset), r)
      else (
        (r.upsert_batches, r.current_redo_file, r.current_batch_offset),
        record r {
          backfilling_buffer_size = r.current_buffer_size;
          current_buffer_size = 0;
          num_records = 0;
          upsert_batches = [];
        },
      )

  unfoldable pub qualify_to_trigger_backfill : BackfillManager B → Bool
  qualify_to_trigger_backfill r = leb r.backfill_threshold_in_bytes r.current_buffer_size

  unfoldable pub advance_offset : ℤ → ℕ → BackfillManager B → BackfillManager B
  advance_offset redo_file offset r = record r {
    backfilling_buffer_size = 0;
    last_redo_file = redo_file;
    last_batch_offset = offset;
  }

  unfoldable pub get_latest_redo_file_and_offset : BackfillManager B → ℤ × ℕ
  get_latest_redo_file_and_offset r = (r.last_redo_file, r.last_batch_offset)

  unfoldable pub destruct : BackfillManager B → BackfillManager B
  destruct r = record r { upsert_batches = [] }

  -- The meta store and the manager after Done, and its error.
  unfoldable pub done :
      {M E : Type 0}
      → MetaStore M E
      → ℤ
      → ℕ
      → M
      → BackfillManager B
      → (M × BackfillManager B) × Option E
  unfolding advance_offset is_newer
  done store redo_file offset meta r =
      let (meta', error) =
        store.update_backfill_progress r.table_name r.shard redo_file offset meta in
      if is_newer redo_file offset r.last_redo_file r.last_batch_offset
      then elim error [
        | some e ↦ ((meta', r), some e)
        | none ↦ ((meta', advance_offset redo_file offset r), none)
      ]
      else ((meta, r), none)
