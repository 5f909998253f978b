-- ===== src/Ingestion/Promised.antt =====
-- memstore/ingestion.go: what ApplyUpsertBatch promises of a batch.
use aresdb.Prelude.{
  lt-get_elem?, ℕ, ◌+◌, ◌≡◌, ◌⊎◌, inl, inr, refl, ap, Bool, true, false, Option, List, arith,
  length, Bool-cases, not, ◌&&◌, ◌++◌,
}
use aresdb.Cuckoo.Insert.{GoRuntime}
use aresdb.Schema.Table.{Table}
use aresdb.Ingestion.{RecordInfo, UpsertBatch, TableShard, Loop, Result, ok, failed, diverged}
use aresdb.Ingestion.Apply.{
  has_columns, write_records, post_upsert_batch_application, are_valid, has_column,
}
use aresdb.Ingestion.Records.{Ends, Ingests, Leaves}
use aresdb.Ingestion.Covered.{HasBadRow, Occurs, Ascending, Due, Covers}
use aresdb.LiveStore.{LiveStore, advance_last_read_record}
use aresdb.LiveStore.Advance.{row}
use aresdb.LiveStore.Advance
use aresdb.Ingestion.Positions.{AllOwned, Consecutive, AllBefore}
use aresdb.Ingestion.Keys.{IsKeyed}

read_on : (l : LiveStore) → Advance.IsValid l → Advance.IsValid (advance_last_read_record l)
unfolding advance_last_read_record
read_on l v = record {
  some_rows = v.some_rows;
  few_rows = v.few_rows;
  sized = v.sized;
  inside = v.inside;
  read = omega arith;
  read_inside = v.inside;
}

-- The rows of a batch that are due are those of the two lists of records, which have the order of
-- the rows.
pub record Selects (now : ℕ) (batch : UpsertBatch) (has_time : Bool) (schema : Table) (cutoff : ℕ)
    (inserts updates : List RecordInfo) : Type 0 where
  pub all_due :
      (n : ℕ) → Due now batch has_time schema cutoff n → Occurs n inserts ⊎ Occurs n updates
  pub only_due :
      (n : ℕ) → Occurs n inserts ⊎ Occurs n updates → Due now batch has_time schema cutoff n
  pub inserts_ascend : Ascending inserts
  pub updates_ascend : Ascending updates

module _ {R : Type 0} where
  pub Covers-Selects :
      (now : ℕ) (batch : UpsertBatch) (has_time : Bool) (s : TableShard R) (x : Loop R)
      → Covers now batch has_time s (length batch.rows) x
      → Selects now batch has_time s.schema s.archiving_cutoff x.insert_records x.update_records
  Covers-Selects now batch has_time s x c = record {
    all_due = λ n due. c.all_due n (lt-get_elem? batch.rows n due.0 due.1) due;
    only_due = λ n o. let (_, due) = c.only_due n o in due;
    inserts_ascend = c.inserts_ascend;
    updates_ascend = c.updates_ascend;
  }

  -- Two facts on one outcome.
  pub Ends-both :
      {A : Type 0} (P P' : A → Type 0) (Q Q' : TableShard R → Type 0) (y : Result R A)
      → Ends P Q y
      → Ends P' Q' y
      → Ends (λ a. P a × P' a) (λ s. Q s × Q' s) y
  Ends-both P P' Q Q' (ok a) p p' = (p, p')
  Ends-both P P' Q Q' (failed s) q q' = (q, q')
  Ends-both P P' Q Q' diverged _ _ = tt

-- ApplyUpsertBatch has turned the shard `s` into `s'`.
module _ {R : Type 0} where
  pub record Applied (now : ℕ) (batch : UpsertBatch) (s s' : TableShard R) : Type 0 where
    pub keyed : IsKeyed s'.primary_key s'.live_store
    pub inserts : List RecordInfo
    pub updates : List RecordInfo
    pub written : s'.written ≡ s.written ++ (inserts ++ updates)
    pub new :
        Consecutive s.live_store.batch_size
          (row s.live_store.batch_size s.live_store.next_write_record)
          inserts
    pub old :
        AllBefore s.live_store.batch_size
          (row s.live_store.batch_size s'.live_store.next_write_record)
          updates
    pub new_own : AllOwned batch.rows s'.primary_key inserts
    pub old_own : AllOwned batch.rows s'.primary_key updates
    pub moved :
        row s.live_store.batch_size s'.live_store.next_write_record
        ≡ row s.live_store.batch_size s.live_store.next_write_record + length inserts
    pub selects :
        Selects now batch
          (s.schema.is_fact_table && has_column batch.columns 0)
          s.schema
          s.archiving_cutoff
          inserts
          updates
    pub readable : s'.live_store.last_read_record ≡ s'.live_store.next_write_record

  pub write_records-Applied :
      (now : ℕ) (batch : UpsertBatch) (s : TableShard R) (x : Loop R)
      → Ingests batch.rows s x
      → Covers now batch
          (s.schema.is_fact_table && has_column batch.columns 0)
          s
          (length batch.rows)
          x
      → Applied now batch s (write_records x)
  unfolding write_records advance_last_read_record
  write_records-Applied now batch s x i c = record {
    keyed = record {
      idle = i.keyed.idle;
      store = read_on x.shard.live_store i.keyed.store;
      before = i.keyed.before;
      apart = i.keyed.apart;
    };
    inserts = x.insert_records;
    updates = x.update_records;
    written = ap (λ (w : List RecordInfo). w ++ (x.insert_records ++ x.update_records)) i.written;
    new = i.inserted;
    old = i.updated;
    new_own = i.inserts_own;
    old_own = i.updates_own;
    moved = i.count;
    selects = Covers-Selects now batch _ s x c;
    readable = refl;
  }

module _ {R : Type 0} where
  -- The managers of backfill and snapshots do not touch the records.
  pub post-Applied :
      (now : ℕ) (almost : ℕ → ℕ) (exceeds : ℕ → ℕ → Bool) (batch : UpsertBatch)
      (backfill : Option UpsertBatch) (redo_file offset mutations : ℕ) (s s' : TableShard R)
      → Applied now batch s s'
      → Applied now batch s
          (post_upsert_batch_application almost exceeds batch backfill redo_file offset mutations
            s').1
  unfolding post_upsert_batch_application
  post-Applied now almost exceeds batch backfill redo_file offset mutations s s' a =
      elim (Bool-cases s'.schema.is_fact_table) [
        | inl fact ↦ rw fact record {
          keyed = a.keyed;
          inserts = a.inserts;
          updates = a.updates;
          written = a.written;
          new = a.new;
          old = a.old;
          new_own = a.new_own;
          old_own = a.old_own;
          moved = a.moved;
          selects = a.selects;
          readable = a.readable;
        }
        | inr dim ↦ rw dim record {
          keyed = a.keyed;
          inserts = a.inserts;
          updates = a.updates;
          written = a.written;
          new = a.new;
          old = a.old;
          new_own = a.new_own;
          old_own = a.old_own;
          moved = a.moved;
          selects = a.selects;
          readable = a.readable;
        }
      ]

-- Some check of ApplyUpsertBatch, of insertPrimaryKeys or of a row fails.
abbrev pub IsRefusable : {R : Type 0} → GoRuntime R → ℕ → (ℕ → ℕ) → UpsertBatch → Table → Type 0
IsRefusable go fuel seconds batch schema =
    let has_time = schema.is_fact_table && has_column batch.columns 0 in
    (are_valid schema.columns batch.columns ≡ false)
    ⊎ ((schema.is_fact_table && not has_time && not schema.config.allow_missing_event_time) ≡ true)
    ⊎ (has_columns batch.columns schema.primary_key_columns ≡ false)
    ⊎ HasBadRow go fuel seconds batch has_time schema

-- ApplyUpsertBatch has returned an error for a reason, and leaves the keys.
abbrev pub Refuses :
    {R : Type 0} → GoRuntime R → ℕ → (ℕ → ℕ) → UpsertBatch → TableShard R → TableShard R → Type 0
Refuses go fuel seconds batch s s' = Leaves s s' × IsRefusable go fuel seconds batch s.schema
