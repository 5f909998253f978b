-- ===== src/Ingestion/Records.antt =====
-- memstore/ingestion.go: the records that insertPrimaryKeys hands out to the rows of a batch.
use aresdb.Prelude.{
  ℕ, ◌+◌, ◌^◌, ◌<◌, ◌≤◌, ◌≡◌, refl, sym, ap, ◌∙◌, inl, inr, true, false, List, [], ◌∷◌, ◌++◌, arith,
  length, length-append, Option-cases,
}
use mathlib.Core.Path.{subst}
use aresdb.Record.{Key, RecordId}
use aresdb.Cuckoo.{CuckooIndex}
use aresdb.Cuckoo.Insert.{GoRuntime}
use aresdb.Cuckoo.Lookup.{find}
use aresdb.Cuckoo.Resize.{Outcome, stale, entry, find_or_insert}
use aresdb.Cuckoo.FindOrInsert.{Inserts, Answers, find_or_insert-Answers}
use aresdb.LiveStore.{advance_next_write_record}
use aresdb.LiveStore.Advance.{row, few_ids, advance_next_write_record-Advances}
use aresdb.Ingestion.{Row, TableShard, record_id_of, Loop, Result, ok, failed, diverged}
use aresdb.Ingestion.Rows.{record_event_time, add_record, ingest_row}
use aresdb.Ingestion.Keys.{IsKeyed, Room, grown-IsKeyed}
use aresdb.Ingestion.Positions.{
  Consecutive, AllBefore, HasKey, AllOwned, Consecutive-append, AllBefore-le, AllBefore-append,
  AllOwned-append, AllOwned-Inserts,
}

module _ {R : Type 0} where
  -- What insertPrimaryKeys has done to the shard `s` so far: each key that was inserted has a
  -- position of its own behind those that were taken, each key that was found has one that was taken
  -- before, and nothing has been written or made readable. The records are
  -- those of the keys of their rows.
  pub record Ingests (rows : List Row) (s : TableShard R) (x : Loop R) : Type 0 where
    pub keyed : IsKeyed x.shard.primary_key x.shard.live_store
    pub next : x.next_write_record ≡ x.shard.live_store.next_write_record
    pub size : x.shard.live_store.batch_size ≡ s.live_store.batch_size
    pub inserted :
        Consecutive s.live_store.batch_size
          (row s.live_store.batch_size s.live_store.next_write_record)
          x.insert_records
    pub count :
        row s.live_store.batch_size x.shard.live_store.next_write_record
        ≡ row s.live_store.batch_size s.live_store.next_write_record + length x.insert_records
    pub inserts_own : AllOwned rows x.shard.primary_key x.insert_records
    pub updates_own : AllOwned rows x.shard.primary_key x.update_records
    pub updated :
        AllBefore s.live_store.batch_size
          (row s.live_store.batch_size x.shard.live_store.next_write_record)
          x.update_records
    pub written : x.shard.written ≡ s.written
    pub unread : x.shard.live_store.last_read_record ≡ s.live_store.last_read_record

  -- An error leaves the keys that were inserted before it.
  pub record Leaves (s s' : TableShard R) : Type 0 where
    pub keyed : IsKeyed s'.primary_key s'.live_store
    pub written : s'.written ≡ s.written
    pub unread : s'.live_store.last_read_record ≡ s.live_store.last_read_record

  pub Ingests-Leaves :
      {rows : List Row} (s : TableShard R) (x : Loop R) → Ingests rows s x → Leaves s x.shard
  Ingests-Leaves s x i = record { keyed = i.keyed; written = i.written; unread = i.unread }

  -- The next row moves on by one at most.
  pub record Steps (rows : List Row) (s : TableShard R) (x x' : Loop R) : Type 0 where
    pub ingests : Ingests rows s x'
    pub one :
        row s.live_store.batch_size x'.shard.live_store.next_write_record
        ≤ row s.live_store.batch_size x.shard.live_store.next_write_record + 1

  abbrev pub Ends : {A : Type 0} → (A → Type 0) → (TableShard R → Type 0) → Result R A → Type 0
  Ends P Q (ok a) = P a
  Ends P Q (failed s) = Q s
  Ends P Q diverged = Unit {0}

  abbrev pub RoomFor : ℕ → TableShard R → Loop R → Type 0
  RoomFor n s x = row s.live_store.batch_size x.shard.live_store.next_write_record + n < 2 ^ 32

  pub stays :
      {rows : List Row} (s : TableShard R) (x : Loop R) → Ingests rows s x → Steps rows s x x
  stays s x i = record { ingests = i; one = omega arith }

  -- An event time changes only the redo log.
  pub timed :
      {rows : List Row} (s : TableShard R) (redo_file t : ℕ) (x : Loop R)
      → Ingests rows s x
      → Ingests rows s (record_event_time redo_file t x)
  unfolding record_event_time
  timed s redo_file t x i = record {
    keyed = i.keyed;
    next = i.next;
    size = i.size;
    inserted = i.inserted;
    count = i.count;
    inserts_own = i.inserts_own;
    updates_own = i.updates_own;
    updated = i.updated;
    written = i.written;
    unread = i.unread;
  }

  -- A row whose key has a record is to update it.
  add_existing :
      {rows : List Row} (s : TableShard R) (n : ℕ) (key : Key) (id : RecordId)
      (index : CuckooIndex R) (x : Loop R)
      → Ingests rows s x
      → HasKey rows n key
      → (find x.shard.primary_key key ≡ (id, true)) × (index ≡ x.shard.primary_key)
      → Steps rows s x (add_record n index true id x)
  unfolding add_record
  add_existing {rows} s n key id index x i has (found, same) =
      let (q, at_q, less) = i.keyed.before key id found in
      record {
        ingests = record {
          keyed = subst (λ c. IsKeyed c x.shard.live_store) (sym same) i.keyed;
          next = i.next;
          size = i.size;
          inserted = i.inserted;
          count = i.count;
          inserts_own = subst (λ c. AllOwned rows c x.insert_records) (sym same) i.inserts_own;
          updates_own =
              subst
                (λ c.
                  AllOwned rows c (x.update_records ++ (record { row = n; record_id = id } ∷ [])))
                (sym same)
                (AllOwned-append rows x.shard.primary_key x.update_records n id key i.updates_own
                  has found);
          updated =
              AllBefore-append s.live_store.batch_size
                (row s.live_store.batch_size x.shard.live_store.next_write_record) x.update_records
                (record { row = n; record_id = id }) i.updated
                (row s.live_store.batch_size q, (q, at_q, refl), rw i.size at less);
          written = i.written;
          unread = i.unread;
        };
        one = omega arith;
      }

  -- A row whose key is new takes the next position.
  add_new :
      {rows : List Row} (s : TableShard R) (n : ℕ) (key : Key) (id : RecordId)
      (index : CuckooIndex R) (x : Loop R)
      → Ingests rows s x
      → RoomFor 1 s x
      → HasKey rows n key
      → (id ≡ record_id_of x.next_write_record)
        × Inserts x.shard.primary_key key (record_id_of x.next_write_record) index
      → Steps rows s x (add_record n index false id x)
  unfolding add_record
  add_new {rows} s n key id index x i room has (at_next, inserts) =
      let l = x.shard.live_store in
      let size = s.live_store.batch_size in
      let room' : Room 1 l = rw i.size room in
      let a =
        advance_next_write_record-Advances l i.keyed.store (few_ids l i.keyed.store 0 room') in
      let inserts' =
        subst (λ p. Inserts x.shard.primary_key key (record_id_of p) index) i.next inserts in
      let moved : row size (advance_next_write_record l).0.next_write_record
          ≡ row size l.next_write_record + 1 =
        subst
          (λ m.
            row m (advance_next_write_record l).0.next_write_record ≡ row m l.next_write_record + 1)
          i.size a.one_row in
      record {
        ingests = record {
          keyed = grown-IsKeyed x.shard.primary_key l i.keyed key index inserts' room';
          next = a.returned;
          size = a.size ∙ i.size;
          inserted =
              Consecutive-append size (row size s.live_store.next_write_record) x.insert_records
                (record { row = n; record_id = id }) i.inserted
                (l.next_write_record, at_next ∙ ap record_id_of i.next, i.count);
          count = omega (
            arith,
            moved,
            i.count,
            length-append {0} x.insert_records (record { row = n; record_id = id } ∷ []),
          );
          inserts_own =
              AllOwned-append rows index x.insert_records n id key
                (AllOwned-Inserts rows x.shard.primary_key index key _ inserts x.insert_records
                  i.inserts_own)
                has (subst (λ r. find index key ≡ (r, true)) (sym at_next) inserts.reads);
          updates_own =
              AllOwned-Inserts rows x.shard.primary_key index key _ inserts x.update_records
                i.updates_own;
          updated =
              AllBefore-le size (row size l.next_write_record)
                (row size (advance_next_write_record l).0.next_write_record) x.update_records
                (omega (arith, moved)) i.updated;
          written = i.written;
          unread = a.unread ∙ i.unread;
        };
        one = omega (arith, moved);
      }

module _ {R : Type 0} (go : GoRuntime R) (fuel : ℕ) (seconds : ℕ → ℕ) (now : ℕ) {rows : List Row}
    (s : TableShard R) where
  answered :
      (n : ℕ) (key : Key) (event_time : ℕ) (x : Loop R)
      → Ingests rows s x
      → RoomFor 1 s x
      → HasKey rows n key
      → (index : CuckooIndex R) (out : Outcome)
      → Answers x.shard.primary_key key (record_id_of x.next_write_record) event_time index out
      → Ends (Steps rows s x) (Leaves s) (elim out as (λ _. Result R (Loop R)) [
        | stale ↦ failed (record x.shard { primary_key = index })
        | entry existing id ↦ ok (add_record n index existing id x)
      ])
  answered n key event_time x i room has index stale (_, same) = record {
    keyed = subst (λ c. IsKeyed c x.shard.live_store) (sym same) i.keyed;
    written = i.written;
    unread = i.unread;
  }
  answered n key event_time x i room has index (entry true id) a =
      add_existing s n key id index x i has (a.0, a.1)
  answered n key event_time x i room has index (entry false id) a =
      add_new s n key id index x i room has (a.0, a.1)

  pub ingest_row-Steps :
      (n : ℕ) (key : Key) (event_time : ℕ) (x : Loop R)
      → Ingests rows s x
      → RoomFor 1 s x
      → HasKey rows n key
      → Ends (Steps rows s x) (Leaves s) (ingest_row go fuel seconds now n key event_time x)
  unfolding ingest_row
  ingest_row-Steps n key event_time x i room has =
      let call =
        find_or_insert go fuel seconds x.shard.primary_key key (record_id_of x.next_write_record)
          event_time in
      elim (Option-cases call) [
        | inl e ↦ rw (e, ingest_row) tt
        | inr ((index, out), e) ↦
            let answers =
              find_or_insert-Answers go fuel seconds x.shard.primary_key key
                (record_id_of x.next_write_record) event_time index out i.keyed.idle e in
            rw (e, ingest_row) (answered n key event_time x i room has index out answers)
      ]
