-- ===== src/Ingestion/Refused.antt =====
-- memstore/ingestion.go: a batch of which a row is refused after others have been taken.
use mathlib.Core.Path.{subst}
use aresdb.Prelude.{
  ℕ, zero, suc, length-append, get_elem?, ◌+◌, ◌^◌, ◌<◌, ◌≡◌, ◌∙◌, ap, refl, Bool, true, List, [],
  ◌∷◌, ◌++◌, arith, length,
}
use aresdb.Cuckoo.Insert.{GoRuntime}
use aresdb.LiveStore.Advance.{row}
use aresdb.Ingestion.{Row, UpsertBatch, TableShard, Loop, Result, ok, failed, diverged}
use aresdb.Ingestion.Rows.{start_loop, take_row, take_rows}
use aresdb.Ingestion.Apply.{has_columns, insert_primary_keys}
use aresdb.Ingestion.Keys.{IsKeyed}
use aresdb.Ingestion.Positions.{Consecutive, AllOwned}
use aresdb.Ingestion.Records.{Ingests, Leaves, Ends}
use aresdb.Ingestion.Batch.{take_rows-Ingests, start_loop-Ingests}

get_elem?-append :
    {A : Type 0} (xs ys : List A) (m : ℕ) → m < length xs → get_elem? (xs ++ ys) m ≡ get_elem? xs m
get_elem?-append [] ys m h = absurd (omega arith)
get_elem?-append (x ∷ xs) ys zero h = refl
get_elem?-append (x ∷ xs) ys (suc m) h = get_elem?-append xs ys m (omega arith)

module _ {R : Type 0} (go : GoRuntime R) (fuel : ℕ) (seconds : ℕ → ℕ) (now : ℕ)
    (batch : UpsertBatch) (has_time : Bool) (redo_file : ℕ) (skip : Bool) where
  -- The loop over the rows from the number `n` on.
  abbrev pub loop : ℕ → List Row → Loop R → Result R (Loop R)
  loop n rows x = take_rows go fuel seconds now batch has_time redo_file skip n rows x

  -- The loop goes on behind a part of the rows.
  abbrev go_on : ℕ → List Row → Result R (Loop R) → Result R (Loop R)
  go_on n rest (ok x) = loop n rest x
  go_on n rest (failed s) = failed s
  go_on n rest diverged = diverged

  join :
      (rows rest : List Row) (n : ℕ) (y : Result R (Loop R))
      → ((x : Loop R)
          → loop (suc n) (rows ++ rest) x ≡ go_on (suc n + length rows) rest (loop (suc n) rows x))
      → elim y as (λ _. Result R (Loop R)) [
        | ok x ↦ loop (suc n) (rows ++ rest) x
        | failed s ↦ failed s
        | diverged ↦ diverged
      ]
        ≡ go_on (n + suc (length rows)) rest (elim y as (λ _. Result R (Loop R)) [
          | ok x ↦ loop (suc n) rows x
          | failed s ↦ failed s
          | diverged ↦ diverged
        ])
  join rows rest n (ok x) ih =
      ih x ∙ ap (λ (m : ℕ). go_on m rest (loop (suc n) rows x)) (omega arith)
  join rows rest n (failed s) ih = refl
  join rows rest n diverged ih = refl

  take_rows-append :
      (rows rest : List Row) (n : ℕ) (x : Loop R)
      → loop n (rows ++ rest) x ≡ go_on (n + length rows) rest (loop n rows x)
  unfolding take_rows
  take_rows-append [] rest n x = ap (λ (m : ℕ). loop m rest x) (omega arith)
  take_rows-append (r ∷ rows) rest n x =
      join rows rest n (take_row go fuel seconds now batch has_time redo_file skip n r x)
        (take_rows-append rows rest (suc n))

  -- A row is refused after those in front of it.
  take_rows-refused :
      (rows rest : List Row) (bad : Row) (x y : Loop R)
      → loop 0 rows x ≡ ok y
      → take_row go fuel seconds now batch has_time redo_file skip (length rows) bad y
        ≡ failed y.shard
      → loop 0 (rows ++ (bad ∷ rest)) x ≡ failed y.shard
  unfolding take_rows
  take_rows-refused rows rest bad x y taken refused =
      take_rows-append rows (bad ∷ rest) 0 x
      ∙ ap (λ (m : ℕ). go_on m (bad ∷ rest) (loop 0 rows x)) (omega arith)
      ∙ ap (go_on (length rows) (bad ∷ rest)) taken
      ∙ ap
          (λ (z : Result R (Loop R)). elim z as (λ _. Result R (Loop R)) [
            | ok x' ↦ loop (suc (length rows)) rest x'
            | failed s ↦ failed s
            | diverged ↦ diverged
          ])
          refused

  -- Let the keys of a shard have records of their own in front of the next one, and let a batch have
  -- its primary key columns. The rows `front` of the batch have been taken, with `x` as the result,
  -- and the row behind them is refused with no change of the shard. Then insertPrimaryKeys returns an
  -- error and leaves the shard of `x`, in which nothing has been written; but the keys that the rows
  -- in front have inserted are in the primary key, with the next positions, one after another, and
  -- the next position is behind them.
  pub insert_primary_keys-leaves_keys :
      (s : TableShard R) (front rest : List Row) (bad : Row) (x : Loop R)
      → IsKeyed s.primary_key s.live_store
      → row s.live_store.batch_size s.live_store.next_write_record + length batch.rows < 2 ^ 32
      → batch.rows ≡ front ++ (bad ∷ rest)
      → has_columns batch.columns s.schema.primary_key_columns ≡ true
      → loop 0 front (start_loop s) ≡ ok x
      → take_row go fuel seconds now batch has_time redo_file skip (length front) bad x
        ≡ failed x.shard
      → let size = s.live_store.batch_size in
        let next = row size s.live_store.next_write_record in
        (insert_primary_keys go fuel seconds now batch has_time redo_file skip s ≡ failed x.shard)
        × (x.shard.written ≡ s.written)
        × Consecutive size next x.insert_records
        × AllOwned batch.rows x.shard.primary_key x.insert_records
        × (row size x.shard.live_store.next_write_record ≡ next + length x.insert_records)
  unfolding insert_primary_keys
  insert_primary_keys-leaves_keys s front rest bad x k room parts there taken refused =
      let whole : loop 0 batch.rows (start_loop s) ≡ failed x.shard =
        ap (λ (rows : List Row). loop 0 rows (start_loop s)) parts
        ∙ take_rows-refused front rest bad (start_loop s) x taken refused in
      let i : Ingests batch.rows s x = subst (Ends (Ingests batch.rows s) (Leaves s)) taken (
        take_rows-Ingests go fuel seconds now s batch has_time redo_file skip front 0 (start_loop s)
          (start_loop-Ingests s k)
          (omega (arith, room, ap length parts, length-append front (bad ∷ rest)))
          (λ m h.
            ap (get_elem? batch.rows) (omega arith)
            ∙ ap (λ (rows : List Row). get_elem? rows m) parts
            ∙ get_elem?-append front (bad ∷ rest) m h)) in
      (rw (there, whole) refl, i.written, i.inserted, i.inserts_own, i.count)
