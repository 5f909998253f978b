-- ===== src/Ingestion/Batch.antt =====
-- memstore/ingestion.go: what the ingestion of a whole batch leaves.
use aresdb.Prelude.{
  get_elem?, some, ◌≡◌, ◌∙◌, ap, ℕ, suc, ◌+◌, ◌^◌, ◌<◌, refl, inl, inr, Bool, true, false, none,
  List, [], ◌∷◌, arith, length, ◌==◌, if◌then◌else◌, Bool-cases, Option-cases,
}
use aresdb.Record.{Key}
use aresdb.Cuckoo.Insert.{GoRuntime}
use aresdb.LiveStore.Advance.{row}
use aresdb.Ingestion.{
  Row, UpsertBatch, TableShard, Fate, rejected, ignored, untimed, backfilled, ingested, fate_of,
  Loop, Result, ok, failed, diverged,
}
use aresdb.Ingestion.Rows.{
  record_event_time, add_backfill_row, start_loop, ingest_row, take_row, take_rows,
}
use aresdb.Ingestion.Apply.{has_columns, raise_times, insert_primary_keys}
use aresdb.Ingestion.Keys.{IsKeyed}
use aresdb.Ingestion.Positions.{HasKey}
use aresdb.Ingestion.Records.{
  Ingests, Leaves, Ingests-Leaves, Steps, Ends, RoomFor, stays, timed, ingest_row-Steps,
}

module _ {R : Type 0} where
  -- Rows for backfill take no record.
  put_off :
      {rows : List Row} (s : TableShard R) (skip : Bool) (n redo_file t : ℕ) (x : Loop R)
      → Ingests rows s x
      → Steps rows s x (add_backfill_row skip n (record_event_time redo_file t x))
  unfolding add_backfill_row record_event_time
  put_off s true n redo_file t x i = record { ingests = timed s redo_file t x i; one = omega arith }
  put_off s false n redo_file t x i =
      let j = timed s redo_file t x i in
      record {
        ingests = record {
          keyed = j.keyed;
          next = j.next;
          size = j.size;
          inserted = j.inserted;
          count = j.count;
          inserts_own = j.inserts_own;
          updates_own = j.updates_own;
          updated = j.updated;
          written = j.written;
          unread = j.unread;
        };
        one = omega arith;
      }

module _ {R : Type 0} (go : GoRuntime R) (fuel : ℕ) (seconds : ℕ → ℕ) (now : ℕ) (s : TableShard R)
    (batch : UpsertBatch) (has_time : Bool) (redo_file : ℕ) (skip : Bool) where
  by_fate :
      (n : ℕ) (key : Key) (x : Loop R)
      → Ingests batch.rows s x
      → RoomFor 1 s x
      → HasKey batch.rows n key
      → (fate : Fate)
      → Ends (Steps batch.rows s x) (Leaves s) (elim fate as (λ _. Result R (Loop R)) [
        | rejected ↦ failed x.shard
        | ignored ↦ ok x
        | untimed t ↦ ingest_row go fuel seconds now n key t x
        | backfilled t ↦ ok (add_backfill_row skip n (record_event_time redo_file t x))
        | ingested t ↦ ingest_row go fuel seconds now n key t (record_event_time redo_file t x)
      ])
  unfolding record_event_time
  by_fate n key x i room has rejected = Ingests-Leaves s x i
  by_fate n key x i room has ignored = stays s x i
  by_fate n key x i room has (untimed t) =
      ingest_row-Steps go fuel seconds now s n key t x i room has
  by_fate n key x i room has (backfilled t) = put_off s skip n redo_file t x i
  by_fate n key x i room has (ingested t) =
      same_step (ingest_row go fuel seconds now n key t (record_event_time redo_file t x)) (
        ingest_row-Steps go fuel seconds now s n key t (record_event_time redo_file t x)
          (timed s redo_file t x i) room has)
    where
      same_step :
          (y : Result R (Loop R))
          → Ends (Steps batch.rows s (record_event_time redo_file t x)) (Leaves s) y
          → Ends (Steps batch.rows s x) (Leaves s) y
      same_step (ok x') h = record { ingests = h.ingests; one = h.one }
      same_step (failed s') h = h
      same_step diverged h = tt

  take_row-Steps :
      (n : ℕ) (r : Row) (x : Loop R)
      → Ingests batch.rows s x
      → RoomFor 1 s x
      → get_elem? batch.rows n ≡ some r
      → Ends
          (Steps batch.rows s x)
          (Leaves s)
          (take_row go fuel seconds now batch has_time redo_file skip n r x)
  unfolding take_row
  take_row-Steps n r x i room at = elim (Option-cases r.key) [
    | inl e ↦ rw (e, take_row) (Ingests-Leaves s x i)
    | inr (key, e) ↦
        rw (e, take_row)
          (by_fate n key x i room (r, at, e)
            (fate_of x.shard.schema x.shard.archiving_cutoff now batch.arrival_time
              (if has_time then r.event_time else none)))
  ]

  -- The rest of the loop after a row.
  after :
      (rows : List Row) (n : ℕ) (y : Result R (Loop R)) (x : Loop R)
      → Ends (Steps batch.rows s x) (Leaves s) y
      → RoomFor (suc (length rows)) s x
      → ((x' : Loop R)
          → Ingests batch.rows s x'
          → RoomFor (length rows) s x'
          → Ends
              (Ingests batch.rows s)
              (Leaves s)
              (take_rows go fuel seconds now batch has_time redo_file skip (suc n) rows x'))
      → Ends (Ingests batch.rows s) (Leaves s) (elim y as (λ _. Result R (Loop R)) [
        | ok x' ↦ take_rows go fuel seconds now batch has_time redo_file skip (suc n) rows x'
        | failed s' ↦ failed s'
        | diverged ↦ diverged
      ])
  after rows n (ok x') x h room rest = rest x' h.ingests (omega (arith, h.one))
  after rows n (failed s') x h room rest = h
  after rows n diverged x h room rest = tt

  pub take_rows-Ingests :
      (rows : List Row) (n : ℕ) (x : Loop R)
      → Ingests batch.rows s x
      → RoomFor (length rows) s x
      → ((m : ℕ) → m < length rows → get_elem? batch.rows (n + m) ≡ get_elem? rows m)
      → Ends
          (Ingests batch.rows s)
          (Leaves s)
          (take_rows go fuel seconds now batch has_time redo_file skip n rows x)
  unfolding take_rows
  take_rows-Ingests [] n x i room left = i
  take_rows-Ingests (r ∷ rows) n x i room left =
      after rows n (take_row go fuel seconds now batch has_time redo_file skip n r x) x
        (take_row-Steps n r x i (omega (arith, room))
          (ap (get_elem? batch.rows) (omega arith) ∙ left 0 (omega arith)))
        room
        (λ x' i' room'.
          take_rows-Ingests rows (suc n) x' i' room'
            (λ m h. ap (get_elem? batch.rows) (omega arith) ∙ left (suc m) (omega arith)))

module _ {R : Type 0} where
  pub start_loop-Ingests :
      {rows : List Row} (s : TableShard R)
      → IsKeyed s.primary_key s.live_store
      → Ingests rows s (start_loop s)
  unfolding start_loop
  start_loop-Ingests s k = record {
    keyed = k;
    next = refl;
    size = refl;
    inserted = tt;
    count = omega arith;
    inserts_own = tt;
    updates_own = tt;
    updated = tt;
    written = refl;
    unread = refl;
  }

  raise_times-Ingests :
      {rows : List Row} (s : TableShard R) (batch : UpsertBatch) (x : Loop R)
      → Ingests rows s x
      → Ingests rows s (raise_times batch x)
  unfolding raise_times
  raise_times-Ingests s batch x i = elim (Bool-cases (x.max_event_time == 0)) [
    | inl e ↦ rw e i
    | inr e ↦ rw e (record {
      keyed = i.keyed;
      next = i.next;
      size = i.size;
      inserted = i.inserted;
      count = i.count;
      inserts_own = i.inserts_own;
      updates_own = i.updates_own;
      updated = i.updated;
      written = i.written;
      unread = i.unread;
    })
  ]

  raised :
      (rows : List Row) (s : TableShard R) (batch : UpsertBatch) (y : Result R (Loop R))
      → Ends (Ingests rows s) (Leaves s) y
      → Ends (Ingests rows s) (Leaves s) (elim y as (λ _. Result R (Loop R)) [
        | failed s' ↦ failed s'
        | diverged ↦ diverged
        | ok x ↦ ok (raise_times batch x)
      ])
  raised rows s batch (ok x) i = raise_times-Ingests s batch x i
  raised rows s batch (failed s') h = h
  raised rows s batch diverged h = tt

module _ {R : Type 0} (go : GoRuntime R) (fuel : ℕ) (seconds : ℕ → ℕ) (now : ℕ) where
  pub insert_primary_keys-Ingests :
      (batch : UpsertBatch) (has_time : Bool) (redo_file : ℕ) (skip : Bool) (s : TableShard R)
      → IsKeyed s.primary_key s.live_store
      → row s.live_store.batch_size s.live_store.next_write_record + length batch.rows < 2 ^ 32
      → Ends
          (Ingests batch.rows s)
          (Leaves s)
          (insert_primary_keys go fuel seconds now batch has_time redo_file skip s)
  unfolding insert_primary_keys start_loop
  insert_primary_keys-Ingests batch has_time redo_file skip s k room =
      elim (Bool-cases (has_columns batch.columns s.schema.primary_key_columns)) [
        | inr missing ↦ rw missing (record { keyed = k; written = refl; unread = refl })
        | inl there ↦ rw there (
            raised batch.rows s batch
              (take_rows go fuel seconds now batch has_time redo_file skip 0 batch.rows
                (start_loop s))
              (take_rows-Ingests go fuel seconds now s batch has_time redo_file skip batch.rows 0
                (start_loop s) (start_loop-Ingests s k) room
                (λ m _. ap (get_elem? batch.rows) (omega arith))))
      ]
