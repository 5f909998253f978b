-- ===== src/Ingestion/Taken.antt =====
-- memstore/ingestion.go: the records of insertPrimaryKeys after one more row.
use mathlib.Core.Path.{subst}
use aresdb.Prelude.{
  ℕ, suc, inl, inr, refl, sym, Bool, true, false, [], ◌∷◌, ◌++◌, arith, ◌==◌, ==_iff, Bool-cases,
}
use aresdb.Record.{RecordId}
use aresdb.Cuckoo.{CuckooIndex}
use aresdb.Ingestion.{UpsertBatch, RecordInfo, TableShard, Loop}
use aresdb.Ingestion.Rows.{record_event_time, add_record, add_backfill_row, start_loop}
use aresdb.Ingestion.Apply.{raise_times}
use aresdb.Ingestion.Covered.{
  Occurs, Occurs-old, Occurs-new, Occurs-cases, Ascending-append, Due, Covers, passed,
}

module _ {R : Type 0} (now : ℕ) (batch : UpsertBatch) (has_time : Bool) (s : TableShard R) where
  -- A row that is due updates a record or takes a new one.
  pub updated :
      (n : ℕ) (id : RecordId) (index : CuckooIndex R) (x : Loop R)
      → Covers now batch has_time s n x
      → Due now batch has_time s.schema s.archiving_cutoff n
      → Covers now batch has_time s (suc n) (add_record n index true id x)
  unfolding add_record
  updated n id index x c due =
      let info : RecordInfo = record { row = n; record_id = id } in
      record {
        schema = c.schema;
        cutoff = c.cutoff;
        all_due = λ m below due'. elim (Bool-cases (m == n)) [
          | inl last ↦ inr (
              subst (λ k. Occurs k (x.update_records ++ (info ∷ []))) (sym ((==_iff m n).0 last))
                (Occurs-new x.update_records info))
          | inr other ↦ elim (c.all_due m (ground arith) due') [
            | inl o ↦ inl o
            | inr o ↦ inr (Occurs-old m x.update_records info o)
          ]
        ];
        only_due = λ m o. elim o [
          | inl o' ↦ let (below, due') = c.only_due m (inl o') in (omega (arith, below), due')
          | inr o' ↦ elim (Occurs-cases m x.update_records info o') [
            | inl old ↦ let (below, due') = c.only_due m (inr old) in (omega (arith, below), due')
            | inr new ↦ (
              omega (arith, new),
              subst (Due now batch has_time s.schema s.archiving_cutoff) new due,
            )
          ]
        ];
        inserts_ascend = c.inserts_ascend;
        updates_ascend =
            Ascending-append x.update_records info c.updates_ascend
              (λ m o. (c.only_due m (inr o)).0);
      }

  pub inserted :
      (n : ℕ) (id : RecordId) (index : CuckooIndex R) (x : Loop R)
      → Covers now batch has_time s n x
      → Due now batch has_time s.schema s.archiving_cutoff n
      → Covers now batch has_time s (suc n) (add_record n index false id x)
  unfolding add_record
  inserted n id index x c due =
      let info : RecordInfo = record { row = n; record_id = id } in
      record {
        schema = c.schema;
        cutoff = c.cutoff;
        all_due = λ m below due'. elim (Bool-cases (m == n)) [
          | inl last ↦ inl (
              subst (λ k. Occurs k (x.insert_records ++ (info ∷ []))) (sym ((==_iff m n).0 last))
                (Occurs-new x.insert_records info))
          | inr other ↦ elim (c.all_due m (ground arith) due') [
            | inl o ↦ inl (Occurs-old m x.insert_records info o)
            | inr o ↦ inr o
          ]
        ];
        only_due = λ m o. elim o [
          | inr o' ↦ let (below, due') = c.only_due m (inr o') in (omega (arith, below), due')
          | inl o' ↦ elim (Occurs-cases m x.insert_records info o') [
            | inl old ↦ let (below, due') = c.only_due m (inl old) in (omega (arith, below), due')
            | inr new ↦ (
              omega (arith, new),
              subst (Due now batch has_time s.schema s.archiving_cutoff) new due,
            )
          ]
        ];
        inserts_ascend =
            Ascending-append x.insert_records info c.inserts_ascend
              (λ m o. (c.only_due m (inl o)).0);
        updates_ascend = c.updates_ascend;
      }

  pub timed :
      (n redo_file t : ℕ) (x : Loop R)
      → Covers now batch has_time s n x
      → Covers now batch has_time s n (record_event_time redo_file t x)
  unfolding record_event_time
  timed n redo_file t x c = record {
    schema = c.schema;
    cutoff = c.cutoff;
    all_due = c.all_due;
    only_due = c.only_due;
    inserts_ascend = c.inserts_ascend;
    updates_ascend = c.updates_ascend;
  }

  pub raised :
      (n : ℕ) (x : Loop R)
      → Covers now batch has_time s n x
      → Covers now batch has_time s n (raise_times batch x)
  unfolding raise_times
  raised n x c = elim (Bool-cases (x.max_event_time == 0)) [
    | inl e ↦ rw e c
    | inr e ↦ rw e (record {
      schema = c.schema;
      cutoff = c.cutoff;
      all_due = c.all_due;
      only_due = c.only_due;
      inserts_ascend = c.inserts_ascend;
      updates_ascend = c.updates_ascend;
    })
  ]

  pub put_off :
      (skip : Bool) (n redo_file t : ℕ) (x : Loop R)
      → Covers now batch has_time s n x
      → (Due now batch has_time s.schema s.archiving_cutoff n → ⊥)
      → Covers now batch has_time s
          (suc n)
          (add_backfill_row skip n (record_event_time redo_file t x))
  unfolding add_backfill_row record_event_time
  put_off true n redo_file t x c undue =
      passed now batch has_time s n x _ c undue refl refl refl refl
  put_off false n redo_file t x c undue =
      passed now batch has_time s n x _ c undue refl refl refl refl

  pub start_loop-Covers : Covers now batch has_time s 0 (start_loop s)
  unfolding start_loop
  start_loop-Covers = record {
    schema = refl;
    cutoff = refl;
    all_due = λ m below due. absurd (omega (arith, below));
    only_due = λ m o. elim o [ inl o' ↦ absurd o' | inr o' ↦ absurd o' ];
    inserts_ascend = tt;
    updates_ascend = tt;
  }
