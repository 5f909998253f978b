-- ===== src/Ingestion/Selected.antt =====
-- memstore/ingestion.go: which rows insertPrimaryKeys hands on, over its whole loop.
use mathlib.Core.Path.{subst}
use mathlib.Core.Option.{some_inj}
use aresdb.Prelude.{
  ℕ, suc, ◌+◌, ◌<◌, ◌≡◌, ◌∙◌, ◌⊎◌, inl, inr, refl, sym, ap, Bool, true, false, Option, none, some,
  List, [], ◌∷◌, arith, length, get_elem?, if◌then◌else◌, Bool-cases, Option-cases,
}
use aresdb.Record.{Key}
use aresdb.Cuckoo.{CuckooIndex}
use aresdb.Cuckoo.Insert.{GoRuntime}
use aresdb.Cuckoo.Resize.{Outcome, stale, entry, find_or_insert}
use aresdb.Ingestion.{
  Row, UpsertBatch, TableShard, record_id_of, Fate, rejected, ignored, untimed, backfilled,
  ingested, fate_of, Loop, Result, ok, failed, diverged,
}
use aresdb.Ingestion.Rows.{
  record_event_time, add_record, add_backfill_row, start_loop, ingest_row, take_row, take_rows,
}
use aresdb.Ingestion.Apply.{has_columns, raise_times, insert_primary_keys}
use aresdb.Ingestion.Records.{Ends}
use aresdb.Ingestion.Covered.{
  IsDue, is_taken, fate_of-IsDue, IsDue-fate_of, HasBadRow, rejected_lem, Due, Covers, passed,
}
use aresdb.Ingestion.Taken.{updated, inserted, timed, raised, put_off, start_loop-Covers}

module _ {R : Type 0} (go : GoRuntime R) (fuel : ℕ) (seconds : ℕ → ℕ) (now : ℕ) (s : TableShard R)
    (batch : UpsertBatch) (has_time : Bool) (redo_file : ℕ) (skip : Bool) where
  answered :
      (n : ℕ) (x : Loop R)
      → Covers now batch has_time s n x
      → Due now batch has_time s.schema s.archiving_cutoff n
      → (index : CuckooIndex R) (out : Outcome)
      → (out ≡ stale → HasBadRow go fuel seconds batch has_time s.schema)
      → Ends
          (Covers now batch has_time s (suc n))
          (λ _. HasBadRow go fuel seconds batch has_time s.schema)
          (elim out as (λ _. Result R (Loop R)) [
            | stale ↦ failed (record x.shard { primary_key = index })
            | entry existing id ↦ ok (add_record n index existing id x)
          ])
  answered n x c due index stale bad = bad refl
  answered n x c due index (entry true id) bad = updated now batch has_time s n id index x c due
  answered n x c due index (entry false id) bad = inserted now batch has_time s n id index x c due

  ingest_row-Covers :
      (n : ℕ) (r : Row) (key : Key) (t : ℕ) (x : Loop R)
      → get_elem? batch.rows n ≡ some r
      → r.key ≡ some key
      → Covers now batch has_time s n x
      → Due now batch has_time s.schema s.archiving_cutoff n
      → Ends
          (Covers now batch has_time s (suc n))
          (λ _. HasBadRow go fuel seconds batch has_time s.schema)
          (ingest_row go fuel seconds now n key t x)
  unfolding ingest_row
  ingest_row-Covers n r key t x at has c due =
      let call =
        find_or_insert go fuel seconds x.shard.primary_key key (record_id_of x.next_write_record)
          t in
      elim (Option-cases call) [
        | inl e ↦ rw (e, ingest_row) tt
        | inr ((index, out), e) ↦
            rw (e, ingest_row)
              (answered n x c due index out (λ o. (
                n,
                r,
                at,
                inr (
                    inr (
                      key,
                      has,
                      x.shard.primary_key,
                      index,
                      record_id_of x.next_write_record,
                      t,
                      subst (λ out. call ≡ some (index, out)) o e,
                    )),
              )))
      ]

  -- The fate of the row decides whether it is handed on, and it is due when it has to be.
  by_fate :
      (n : ℕ) (r : Row) (key : Key) (x : Loop R)
      → get_elem? batch.rows n ≡ some r
      → r.key ≡ some key
      → Covers now batch has_time s n x
      → (fate : Fate) → (fate ≡ rejected → HasBadRow go fuel seconds batch has_time s.schema)
      → (is_taken fate ≡ true → Due now batch has_time s.schema s.archiving_cutoff n)
      → (Due now batch has_time s.schema s.archiving_cutoff n
          → (is_taken fate ≡ true) ⊎ (fate ≡ rejected))
      → Ends
          (Covers now batch has_time s (suc n))
          (λ _. HasBadRow go fuel seconds batch has_time s.schema)
          (elim fate as (λ _. Result R (Loop R)) [
            | rejected ↦ failed x.shard
            | ignored ↦ ok x
            | untimed t ↦ ingest_row go fuel seconds now n key t x
            | backfilled t ↦ ok (add_backfill_row skip n (record_event_time redo_file t x))
            | ingested t ↦ ingest_row go fuel seconds now n key t (record_event_time redo_file t x)
          ])
  by_fate n r key x at has c rejected bad due taken = bad refl
  by_fate n r key x at has c ignored bad due taken =
      passed now batch has_time s n x x c (λ d. ground (arith, taken d)) refl refl refl refl
  by_fate n r key x at has c (untimed t) bad due taken =
      ingest_row-Covers n r key t x at has c (due refl)
  by_fate n r key x at has c (backfilled t) bad due taken =
      put_off now batch has_time s skip n redo_file t x c (λ d. ground (arith, taken d))
  by_fate n r key x at has c (ingested t) bad due taken =
      ingest_row-Covers n r key t (record_event_time redo_file t x) at has
        (timed now batch has_time s n redo_file t x c) (due refl)

  take_row-Covers :
      (n : ℕ) (r : Row) (x : Loop R)
      → Covers now batch has_time s n x
      → get_elem? batch.rows n ≡ some r
      → Ends
          (Covers now batch has_time s (suc n))
          (λ _. HasBadRow go fuel seconds batch has_time s.schema)
          (take_row go fuel seconds now batch has_time redo_file skip n r x)
  unfolding take_row
  take_row-Covers n r x c at = elim (Option-cases r.key) [
    | inl e ↦ rw (e, take_row) (n, r, at, inl e)
    | inr (key, e) ↦
        let event_time : Option ℕ = if has_time then r.event_time else none in
        rw (e, take_row)
          (by_fate n r key x at e c
            (fate_of x.shard.schema x.shard.archiving_cutoff now batch.arrival_time event_time)
            (λ h. (
              n,
              r,
              at,
              inr (
                  inl (
                    rejected_lem s.schema s.archiving_cutoff now batch.arrival_time event_time
                      (rw (c.schema, c.cutoff) at h))),
            ))
            (λ taken. (
              r,
              at,
              fate_of-IsDue s.schema s.archiving_cutoff now batch.arrival_time event_time
                  (rw (c.schema, c.cutoff) at taken),
            ))
            (λ (r', at', due).
              rw (c.schema, c.cutoff)
                (IsDue-fate_of s.schema s.archiving_cutoff now batch.arrival_time event_time (
                  subst
                    (λ (r' : Row).
                      IsDue s.schema s.archiving_cutoff now batch.arrival_time
                        (if has_time then r'.event_time else none))
                    (some_inj.0 (sym at' ∙ at)) due))))
  ]

  after :
      (rows : List Row) (n : ℕ) (y : Result R (Loop R))
      → Ends
          (Covers now batch has_time s (suc n))
          (λ _. HasBadRow go fuel seconds batch has_time s.schema)
          y
      → ((x : Loop R)
          → Covers now batch has_time s (suc n) x
          → Ends
              (Covers now batch has_time s (suc n + length rows))
              (λ _. HasBadRow go fuel seconds batch has_time s.schema)
              (take_rows go fuel seconds now batch has_time redo_file skip (suc n) rows x))
      → Ends
          (Covers now batch has_time s (suc n + length rows))
          (λ _. HasBadRow go fuel seconds batch has_time s.schema)
          (elim y as (λ _. Result R (Loop R)) [
            | ok x ↦ take_rows go fuel seconds now batch has_time redo_file skip (suc n) rows x
            | failed s' ↦ failed s'
            | diverged ↦ diverged
          ])
  after rows n (ok x) h rest = rest x h
  after rows n (failed s') h rest = h
  after rows n diverged h rest = tt

  take_rows-Covers :
      (rows : List Row) (n : ℕ) (x : Loop R)
      → Covers now batch has_time s n x
      → ((m : ℕ) → m < length rows → get_elem? batch.rows (n + m) ≡ get_elem? rows m)
      → Ends
          (Covers now batch has_time s (n + length rows))
          (λ _. HasBadRow go fuel seconds batch has_time s.schema)
          (take_rows go fuel seconds now batch has_time redo_file skip n rows x)
  unfolding take_rows
  take_rows-Covers [] n x c left = subst (λ m. Covers now batch has_time s m x) (omega arith) c
  take_rows-Covers (r ∷ rows) n x c left =
      let y = take_row go fuel seconds now batch has_time redo_file skip n r x in
      subst
        (λ m.
          Ends (Covers now batch has_time s m)
            (λ _. HasBadRow go fuel seconds batch has_time s.schema)
            (take_rows go fuel seconds now batch has_time redo_file skip n (r ∷ rows) x))
        (omega arith)
        (after rows n y
          (take_row-Covers n r x c (ap (get_elem? batch.rows) (omega arith) ∙ left 0 (omega arith)))
          (λ x' c'.
            take_rows-Covers rows (suc n) x' c'
              (λ m h. ap (get_elem? batch.rows) (omega arith) ∙ left (suc m) (omega arith))))

module _ {R : Type 0} where
  finished :
      (M : Type 0) (go : GoRuntime R) (fuel : ℕ) (seconds : ℕ → ℕ) (now : ℕ) (batch : UpsertBatch)
      (has_time : Bool) (s : TableShard R) (n : ℕ) (y : Result R (Loop R))
      → Ends
          (Covers now batch has_time s n)
          (λ _. HasBadRow go fuel seconds batch has_time s.schema)
          y
      → Ends
          (Covers now batch has_time s n)
          (λ _. M ⊎ HasBadRow go fuel seconds batch has_time s.schema)
          (elim y as (λ _. Result R (Loop R)) [
            | failed s' ↦ failed s'
            | diverged ↦ diverged
            | ok x ↦ ok (raise_times batch x)
          ])
  finished M go fuel seconds now batch has_time s n (ok x) c = raised now batch has_time s n x c
  finished M go fuel seconds now batch has_time s n (failed s') h = inr h
  finished M go fuel seconds now batch has_time s n diverged h = tt

  pub insert_primary_keys-Covers :
      (go : GoRuntime R) (fuel : ℕ) (seconds : ℕ → ℕ) (now : ℕ) (batch : UpsertBatch)
      (has_time : Bool) (redo_file : ℕ) (skip : Bool) (s : TableShard R)
      → Ends
          (Covers now batch has_time s (length batch.rows))
          (λ _.
            (has_columns batch.columns s.schema.primary_key_columns ≡ false)
            ⊎ HasBadRow go fuel seconds batch has_time s.schema)
          (insert_primary_keys go fuel seconds now batch has_time redo_file skip s)
  unfolding insert_primary_keys
  insert_primary_keys-Covers go fuel seconds now batch has_time redo_file skip s =
      elim (Bool-cases (has_columns batch.columns s.schema.primary_key_columns)) [
        | inr missing ↦ rw missing (inl refl)
        | inl there ↦ rw there (
            finished _ go fuel seconds now batch has_time s (length batch.rows)
              (take_rows go fuel seconds now batch has_time redo_file skip 0 batch.rows
                (start_loop s))
              (subst
                (λ m.
                  Ends (Covers now batch has_time s m)
                    (λ _. HasBadRow go fuel seconds batch has_time s.schema)
                    (take_rows go fuel seconds now batch has_time redo_file skip 0 batch.rows
                      (start_loop s)))
                (omega arith)
                (take_rows-Covers go fuel seconds now s batch has_time redo_file skip batch.rows 0
                  (start_loop s) (start_loop-Covers now batch has_time s)
                  (λ m _. ap (get_elem? batch.rows) (omega arith)))))
      ]
