-- ===== src/Progress.antt =====
-- How far the redo log is covered: memstore/snapshot_manager.go for dimension tables,
-- memstore/backfill_manager.go for fact tables. Locks are left out: each method holds the manager's
-- lock for its whole body, so that calls are steps one after the other.
use Prim.Native.String.{String}
use aresdb.Prelude.{ℕ, ◌+◌, Bool, true, false, ◌&&◌, ◌||◌, Option, ltb, leb, ◌==◌}
use aresdb.Prelude.Int.{ℤ, pos_part, neg_part, ltb_ℤ}
pub mod Snapshot
pub mod SnapshotRun
pub mod Backfill
pub mod BackfillRun
pub mod Order

-- What the managers take of the meta store, whose state is `M`; an error is `some`.
pub record MetaStore (M E : Type 0) : Type 0 where
  pub update_snapshot_progress : String → ℕ → ℤ → ℕ → ℤ → ℕ → M → M × Option E
  pub update_backfill_progress : String → ℕ → ℤ → ℕ → M → M × Option E

abbrev pub eq_ℤ : ℤ → ℤ → Bool
eq_ℤ a b = pos_part a + neg_part b == pos_part b + neg_part a

-- `file > last_file || file == last_file && offset > last_offset`, the guard of both Done methods.
unfoldable pub is_newer : ℤ → ℕ → ℤ → ℕ → Bool
is_newer file offset last_file last_offset =
    ltb_ℤ last_file file || eq_ℤ file last_file && ltb last_offset offset
