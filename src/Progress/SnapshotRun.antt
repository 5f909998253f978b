-- ===== src/Progress/SnapshotRun.antt =====
-- The snapshot manager of memstore/snapshot_manager.go over a run: batches are applied while one
-- snapshot job at a time starts, works and reports.
use mathlib.Core.Option.{none-ne-some, some_inj}
use aresdb.Prelude.{
  ℕ, ◌≡◌, inl, inr, false, Option, none, some, List, [], ◌∷◌, if◌then◌else◌, Bool-cases,
  Option-cases,
}
use aresdb.Prelude.Int.{ℤ, ◌+ℤ◌, ◌-ℤ◌, int_laws}
use aresdb.Record.{RecordId}
use aresdb.Progress.{MetaStore, is_newer}
use aresdb.Progress.Order.{is_newer_asym, is_newer_trans}
use aresdb.Progress.Snapshot.{
  SnapshotManager, Job, start_snapshot, apply_upsert_batch, update_snapshot_progress, done,
}

-- The manager with its meta store and the job that runs, and three counts that the code does not
-- keep: the mutations applied so far, those before the job started, and those before the start of
-- the last job that was recorded.
pub record World (M : Type 0) : Type 0 where
  pub meta : M
  pub manager : SnapshotManager
  pub job : Option Job
  pub applied : ℤ
  pub at_start : ℤ
  pub covered : ℤ

pub data Event : Type 0 where
  ingest : ℤ → ℕ → ℤ → RecordId → Event
  start : Event
  finish : ℤ → Event

module _ {M E : Type 0} (store : MetaStore M E) where
  -- A job reports; what it covers counts once its progress is recorded.
  unfoldable report : World M → ℤ → Job → World M
  unfolding done
  report w now job =
      let ((meta, manager), error) = done store now job w.meta w.manager in
      let newer =
        is_newer job.redo_file job.batch_offset w.manager.last_redo_file
          w.manager.last_batch_offset in
      record w {
        meta = meta;
        manager = manager;
        job = none;
        covered =
            if newer then (elim error [ none ↦ w.at_start | some e ↦ w.covered ]) else w.covered;
      }

  unfoldable pub step : World M → Event → World M
  unfolding apply_upsert_batch start_snapshot report
  step w (ingest file offset n r) = record w {
    manager = apply_upsert_batch file offset n r w.manager;
    applied = w.applied +ℤ n;
  }
  step w start = elim w.job [
    | some j ↦ w
    | none ↦ record w { job = some (start_snapshot w.manager); at_start = w.applied }
  ]
  step w (finish now) = elim w.job [ some j ↦ report w now j | none ↦ w ]

  unfoldable pub run : World M → List Event → World M
  unfolding step
  run w [] = w
  run w (e ∷ es) = run (step w e) es

  -- The manager counts the mutations after the last recorded job, and the job in progress carries
  -- the count of its start.
  pub record IsExact (w : World M) : Type 0 where
    pub counted : w.manager.num_mutations ≡ w.applied -ℤ w.covered
    pub carried : (j : Job) → w.job ≡ some j → j.mutations ≡ w.at_start -ℤ w.covered

  -- The call to the meta store of a report.
  abbrev reply : World M → Job → M × Option E
  reply w job =
      store.update_snapshot_progress w.manager.table_name w.manager.shard_id job.redo_file
        job.batch_offset job.record_id.batch_id job.record_id.index w.meta

  report-IsExact :
      (w : World M) (now : ℤ) (j : Job) → w.job ≡ some j → IsExact w → IsExact (report w now j)
  unfolding report done update_snapshot_progress
  report-IsExact w now j e x =
      elim (Bool-cases (
        is_newer j.redo_file j.batch_offset w.manager.last_redo_file w.manager.last_batch_offset)) [
          | inr old ↦
              rw (old, report, done)
                (record { counted = x.counted; carried = λ k h. absurd (none-ne-some _ h) })
          | inl newer ↦ elim (Option-cases (reply w j).1) [
            | inr (err, failed) ↦
                rw (newer, failed, report, done)
                  (record { counted = x.counted; carried = λ k h. absurd (none-ne-some _ h) })
            | inl recorded ↦
                rw (newer, recorded, report, done)
                  (record {
                    counted = rw (x.counted, x.carried j e) (omega int_laws);
                    carried = λ k h. absurd (none-ne-some _ h);
                  })
          ]
        ]

  step-IsExact : (w : World M) (e : Event) → IsExact w → IsExact (step w e)
  unfolding step apply_upsert_batch start_snapshot
  step-IsExact w (ingest file offset n r) x = record {
    counted = rw x.counted (omega int_laws);
    carried = x.carried;
  }
  step-IsExact w start x = elim (Option-cases w.job) [
    | inr (j, e) ↦ rw (e, step) x
    | inl e ↦
        rw (e, step)
          (record { counted = x.counted; carried = λ j h. rw (← some_inj.0 h) x.counted })
  ]
  step-IsExact w (finish now) x = elim (Option-cases w.job) [
    | inr (j, e) ↦ rw (e, step) (report-IsExact w now j e x)
    | inl e ↦ rw (e, step) x
  ]

  -- Over any run of ingestions and of snapshot jobs one at a time, whatever the meta store answers,
  -- NumMutations stays the number of mutations applied since the start of the last job whose
  -- progress was recorded, if it is that at the start of the run.
  pub run-IsExact : (w : World M) (es : List Event) → IsExact w → IsExact (run w es)
  unfolding run
  run-IsExact w [] x = x
  run-IsExact w (e ∷ es) x = run-IsExact (step w e) es (step-IsExact w e x)

  -- The last recorded position is the given one or beyond it.
  abbrev pub Reaches : World M → ℤ → ℕ → Type 0
  Reaches w f o = is_newer f o w.manager.last_redo_file w.manager.last_batch_offset ≡ false

  report-Reaches :
      (w : World M) (now : ℤ) (j : Job) (f : ℤ) (o : ℕ)
      → Reaches w f o
      → Reaches (report w now j) f o
  unfolding report done update_snapshot_progress
  report-Reaches w now j f o x =
      elim (Bool-cases (
        is_newer j.redo_file j.batch_offset w.manager.last_redo_file w.manager.last_batch_offset)) [
          | inr old ↦ rw (old, report, done) x
          | inl newer ↦ elim (Option-cases (reply w j).1) [
            | inr (err, failed) ↦ rw (newer, failed, report, done) x
            | inl recorded ↦
                rw (newer, recorded, report, done)
                  (is_newer_trans f w.manager.last_redo_file j.redo_file o
                    w.manager.last_batch_offset j.batch_offset x
                    (is_newer_asym j.redo_file w.manager.last_redo_file j.batch_offset
                      w.manager.last_batch_offset newer))
          ]
        ]

  -- The recorded position never moves back: if it has reached a position, it has reached it after
  -- any further run, whatever the meta store answers.
  pub run-Reaches :
      (w : World M) (es : List Event) (f : ℤ) (o : ℕ) → Reaches w f o → Reaches (run w es) f o
  unfolding run step apply_upsert_batch start_snapshot
  run-Reaches w [] f o x = x
  run-Reaches w (ingest file offset n r ∷ es) f o x =
      run-Reaches (step w (ingest file offset n r)) es f o x
  run-Reaches w (start ∷ es) f o x =
      run-Reaches (step w start) es f o
        (elim (Option-cases w.job) [ inr (j, e) ↦ rw (e, step) x | inl e ↦ rw (e, step) x ])
  run-Reaches w (finish now ∷ es) f o x =
      run-Reaches (step w (finish now)) es f o (elim (Option-cases w.job) [
        | inr (j, e) ↦ rw (e, step) (report-Reaches w now j f o x)
        | inl e ↦ rw (e, step) x
      ])
