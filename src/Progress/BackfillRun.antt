-- ===== src/Progress/BackfillRun.antt =====
-- The queue of memstore/backfill_manager.go over a run of calls.
use mathlib.Core.List.{append_assoc, append-nil}
use aresdb.Prelude.{
  ℕ, ◌+◌, ◌≡◌, refl, sym, ap, ◌∙◌, inl, inr, Option, none, some, List, [], ◌∷◌, ◌++◌, arith, ◌==◌,
  Bool-cases, Option-cases,
}
use aresdb.Prelude.Int.{ℤ}
use aresdb.Progress.{MetaStore, is_newer}
use aresdb.Progress.Backfill.{BackfillManager, Sizes, append, start_backfill, done, advance_offset}

abbrev pub total : {B : Type 0} → (B → ℕ) → List B → ℕ
total f [] = 0
total f (b ∷ bs) = f b + total f bs

-- The manager with its meta store, and two lists that the code does not keep: all batches that were
-- appended, and all that StartBackfill has handed out.
pub record Queue (M B : Type 0) : Type 0 where
  pub meta : M
  pub manager : BackfillManager B
  pub appended : List B
  pub handed : List B

pub data Call (B : Type 0) : Type 0 where
  appends : Option B → ℤ → ℕ → Call B
  starts : Call B
  finishes : ℤ → ℕ → Call B

abbrev pub listed : {B : Type 0} → Option B → List B
listed none = []
listed (some b) = b ∷ []

module _ {M E B : Type 0} (store : MetaStore M E) (sizes : Sizes B) where
  unfoldable pub call : Queue M B → Call B → Queue M B
  unfolding append start_backfill done
  call q (appends b file offset) = record q {
    manager = (append sizes b file offset q.manager).0;
    appended = q.appended ++ listed b;
  }
  call q starts =
      let ((batches, _, _), manager) = start_backfill q.manager in
      record q { manager = manager; handed = q.handed ++ batches }
  call q (finishes file offset) =
      let ((meta, manager), _) = done store file offset q.meta q.manager in
      record q { meta = meta; manager = manager }

  unfoldable pub calls : Queue M B → List (Call B) → Queue M B
  unfolding call
  calls q [] = q
  calls q (c ∷ cs) = calls (call q c) cs

  -- No batch is lost, doubled or moved before another, and the two counts are those of the queue.
  pub record IsConserved (q : Queue M B) : Type 0 where
    pub order : q.appended ≡ q.handed ++ q.manager.upsert_batches
    pub size : q.manager.current_buffer_size ≡ total sizes.bytes q.manager.upsert_batches
    pub rows : q.manager.num_records ≡ total sizes.num_rows q.manager.upsert_batches

  total-snoc : (f : B → ℕ) (bs : List B) (b : B) → total f (bs ++ (b ∷ [])) ≡ total f bs + f b
  total-snoc f [] b = omega arith
  total-snoc f (x ∷ bs) b = omega (arith, total-snoc f bs b)

  call-IsConserved : (q : Queue M B) (c : Call B) → IsConserved q → IsConserved (call q c)
  unfolding call append start_backfill done advance_offset
  call-IsConserved q (appends none file offset) x = record {
    order = append-nil q.appended ∙ x.order;
    size = x.size;
    rows = x.rows;
  }
  call-IsConserved q (appends (some b) file offset) x = record {
    order =
        ap (λ (bs : List B). bs ++ (b ∷ [])) x.order
        ∙ append_assoc q.handed q.manager.upsert_batches (b ∷ []);
    size = rw x.size (sym (total-snoc sizes.bytes q.manager.upsert_batches b));
    rows = rw x.rows (sym (total-snoc sizes.num_rows q.manager.upsert_batches b));
  }
  call-IsConserved q starts x = elim (Bool-cases (q.manager.current_buffer_size == 0)) [
    | inl nothing ↦
        rw (nothing, call, start_backfill)
          (record {
            order =
                x.order
                ∙ ap (λ (bs : List B). bs ++ q.manager.upsert_batches) (sym (append-nil q.handed));
            size = x.size;
            rows = x.rows;
          })
    | inr some_bytes ↦
        rw (some_bytes, call, start_backfill)
          (record {
            order = x.order ∙ sym (append-nil (q.handed ++ q.manager.upsert_batches));
            size = refl;
            rows = refl;
          })
  ]
  call-IsConserved q (finishes file offset) x =
      elim (Bool-cases
        (is_newer file offset q.manager.last_redo_file q.manager.last_batch_offset)) [
          | inr old ↦
              rw (old, call, done) (record { order = x.order; size = x.size; rows = x.rows })
          | inl newer ↦
              elim (Option-cases
                (store.update_backfill_progress q.manager.table_name q.manager.shard file offset
                  q.meta).1) [
                    | inl recorded ↦
                        rw (newer, recorded, call, done)
                          (record { order = x.order; size = x.size; rows = x.rows })
                    | inr (e, failed) ↦
                        rw (newer, failed, call, done)
                          (record { order = x.order; size = x.size; rows = x.rows })
                  ]
        ]

  -- Over any sequence of calls the batches that were appended are those handed out by
  -- StartBackfill followed by those in the queue, in order, and CurrentBufferSize and NumRecords
  -- are the bytes and the rows in the queue, if this holds at the start.
  pub calls-IsConserved :
      (q : Queue M B) (cs : List (Call B)) → IsConserved q → IsConserved (calls q cs)
  unfolding calls
  calls-IsConserved q [] x = x
  calls-IsConserved q (c ∷ cs) x = calls-IsConserved (call q c) cs (call-IsConserved q c x)
