-- ===== src/RedoLog/Kafka/Run.antt =====
-- redolog/kafka_redolog_manager.go: runs of a manager, on the meta store of metastore/disk_metastore.go.
use Prim.Native.String.{String}
use mathlib.Core.Option.{none-ne-some, some_inj}
use aresdb.Prelude.{
  ℕ, ◌/◌, ◌≤◌, ◌≡◌, ◌⊎◌, inl, inr, refl, sym, ap, ◌∙◌, Bool, false, if◌then◌else◌, ◌&&◌, none, some,
  List, [], ◌∷◌, ltb, leb, ◌==◌, ==_iff, Bool-cases, Option-cases,
}
use aresdb.Prelude.Int.{ℤ, pos}
use aresdb.MetaStore.{read}
use aresdb.RedoLog.Kafka.Starts.{StartsAt, start_iterator-stored}
use aresdb.Prelude.Dict.{find, find_or, insert, find-insert}
use aresdb.MetaStore.{DiskMetaStore, Access, File}
use aresdb.RedoLog.Kafka.{
  KafkaRedoLogManager, max_batches_per_file, new_kafka_redo_log_manager, get_file_offset,
  update_max_event_time, count_message, add_message, first_needed, forget_before,
  checkpoint_redolog,
}
use aresdb.RedoLog.Kafka.Checkpoint.{
  IsConsistent, Needed, stored_offset, forget_before-find, checkpoint_redolog-keeps_file, saved,
  has,
}
use aresdb.RedoLog.Kafka.Delivery.{add_message-manager}
use mathlib.Core.Path.{subst}

-- What is called for a message that is applied, whose rows have the event times, and for a job that
-- has archived its events.
pub data Call : Type 0 where
  applied : ℕ → ℕ → List ℕ → Call
  checkpoint : ℕ → ℕ → ℕ → Call

unfoldable pub update_all : ℕ → List ℕ → KafkaRedoLogManager → KafkaRedoLogManager
unfolding update_max_event_time
update_all file [] k = k
update_all file (t ∷ ts) k = update_all file ts (update_max_event_time t file k)

module _ (fails : Access → File → Bool) where
  unfoldable pub step :
      Call → DiskMetaStore × KafkaRedoLogManager → DiskMetaStore × KafkaRedoLogManager
  unfolding add_message update_all checkpoint_redolog
  step (applied offset size times) x =
      let (s, k) = add_message fails (get_file_offset offset).0 offset size x in
      (s, update_all (get_file_offset offset).0 times k)
  step (checkpoint cutoff checkpointed batch_offset) x =
      (checkpoint_redolog fails cutoff checkpointed batch_offset x).1

  unfoldable pub run :
      List Call → DiskMetaStore × KafkaRedoLogManager → DiskMetaStore × KafkaRedoLogManager
  unfolding step
  run [] x = x
  run (c ∷ cs) x = run cs (step c x)

-- The file has a first offset.
abbrev IsKnown : ℕ → KafkaRedoLogManager → Type 0
IsKnown file k = (o : ℕ) × (find file k.first_kafka_offset_per_file ≡ some o)

update_max_event_time-IsConsistent :
    (t file : ℕ) (k : KafkaRedoLogManager)
    → IsConsistent k
    → IsKnown file k
    → IsConsistent (update_max_event_time t file k) × IsKnown file (update_max_event_time t file k)
unfolding update_max_event_time
update_max_event_time-IsConsistent t file k c known =
    let raised : IsConsistent
        (record k { max_event_time_per_file = insert file t k.max_event_time_per_file }) =
      record {
        known = λ f u h.
            let h' = sym (find-insert f file t k.max_event_time_per_file) ∙ h in
            elim (Bool-cases (file == f)) [
              | inl same ↦ rw (← ((==_iff file f).0 same)) known
              | inr other ↦ c.known f u (rw other at h')
            ];
        placed = c.placed;
      } in
    elim (Option-cases (find file k.max_event_time_per_file)) [
      | inl e ↦ rw (e, update_max_event_time) (raised, known)
      | inr (old, e) ↦ elim (Bool-cases (leb t old)) [
        | inl low ↦ rw (e, update_max_event_time) (rw low (c, known))
        | inr high ↦ rw (e, update_max_event_time) (rw high (raised, known))
      ]
    ]

update_all-IsConsistent :
    (ts : List ℕ) (file : ℕ) (k : KafkaRedoLogManager)
    → IsConsistent k
    → IsKnown file k
    → IsConsistent (update_all file ts k)
unfolding update_all
update_all-IsConsistent [] file k c known = c
update_all-IsConsistent (t ∷ ts) file k c known =
    let (c', known') = update_max_event_time-IsConsistent t file k c known in
    update_all-IsConsistent ts file (update_max_event_time t file k) c' known'

module _ (offset : ℕ) (k : KafkaRedoLogManager) (c : IsConsistent k) where
  abbrev at_file : ℕ
  at_file = offset / max_batches_per_file

  -- The maps with the offset as the first one of its file.
  abbrev opened : KafkaRedoLogManager
  opened = record k {
    first_kafka_offset_per_file = insert at_file offset k.first_kafka_offset_per_file;
  }

  opened-IsConsistent : IsConsistent opened × IsKnown at_file opened
  opened-IsConsistent =
      let firsts = k.first_kafka_offset_per_file in
      (
        record {
          known = λ f t h. elim (Bool-cases (at_file == f)) [
            | inl same ↦ (offset, find-insert f at_file offset firsts ∙ rw same refl)
            | inr other ↦
                let (o, e) = c.known f t h in (o, find-insert f at_file offset firsts ∙ rw other e)
          ];
          placed = λ f o h.
              let h' = sym (find-insert f at_file offset firsts) ∙ h in
              elim (Bool-cases (at_file == f)) [
                | inl same ↦
                    ap (λ (x : ℕ). x / max_batches_per_file) (sym (some_inj.0 (rw same at h')))
                    ∙ (==_iff at_file f).0 same
                | inr other ↦ c.placed f o (rw other at h')
              ];
        },
        (
          offset,
          find-insert at_file at_file offset firsts ∙ rw ((==_iff at_file at_file).1 refl) refl,
        ),
      )

  count_message-IsConsistent :
      (size : ℕ)
      → let k' = count_message at_file offset size k in IsConsistent k' × IsKnown at_file k'
  unfolding count_message
  count_message-IsConsistent size =
      let (c', known') = opened-IsConsistent in
      elim (Option-cases (find at_file k.first_kafka_offset_per_file)) [
        | inl e ↦ rw (e, count_message) (record { known = c'.known; placed = c'.placed }, known')
        | inr (o, e) ↦ elim (Bool-cases (ltb offset o)) [
          | inl less ↦
              rw (e, count_message)
                (rw less (record { known = c'.known; placed = c'.placed }, known'))
          | inr more ↦
              rw (e, count_message)
                (rw more (record { known = c.known; placed = c.placed }, (o, e)))
        ]
      ]

forget_before-IsConsistent :
    (first : ℕ) (k : KafkaRedoLogManager)
    → IsConsistent k
    → IsConsistent (forget_before first k.max_event_time_per_file k)
forget_before-IsConsistent first k c =
    let files = k.max_event_time_per_file in
    record {
      known = λ f t h.
          let maps = forget_before-find first files k f in
          elim (Bool-cases (ltb f first && has first f files)) [
            | inl gone ↦ absurd (none-ne-some _ (sym (maps.0 ∙ rw gone refl) ∙ h))
            | inr stays ↦
                let (o, e) = c.known f t (sym (maps.0 ∙ rw stays refl) ∙ h) in
                (o, maps.1 ∙ rw stays e)
          ];
      placed = λ f o h.
          let maps = forget_before-find first files k f in
          elim (Bool-cases (ltb f first && has first f files)) [
            | inl gone ↦ absurd (none-ne-some _ (sym (maps.1 ∙ rw gone refl) ∙ h))
            | inr stays ↦ c.placed f o (sym (maps.1 ∙ rw stays refl) ∙ h)
          ];
    }

module _ (fails : Access → File → Bool) where
  checkpoint_redolog-IsConsistent :
      (cutoff checkpointed batch_offset : ℕ) (s : DiskMetaStore) (k : KafkaRedoLogManager)
      → IsConsistent k
      → IsConsistent (checkpoint_redolog fails cutoff checkpointed batch_offset (s, k)).1.1
  unfolding checkpoint_redolog
  checkpoint_redolog-IsConsistent cutoff checkpointed batch_offset s k c =
      elim (Option-cases
        (first_needed cutoff checkpointed batch_offset k.max_event_time_per_file none)) [
          | inl e ↦ rw (e, checkpoint_redolog) c
          | inr (g, e) ↦
              let offset = find_or 0 g k.first_kafka_offset_per_file in
              elim (saved fails k.table_name k.shard offset s) [
                | inl x ↦ rw (e, checkpoint_redolog) (rw (x, checkpoint_redolog) c)
                | inr (x, _) ↦
                    rw (e, checkpoint_redolog)
                      (rw (x, checkpoint_redolog) (forget_before-IsConsistent g k c))
              ]
        ]

  step-IsConsistent :
      (call : Call) (s : DiskMetaStore) (k : KafkaRedoLogManager)
      → IsConsistent k
      → IsConsistent (step fails call (s, k)).1
  unfolding step get_file_offset
  step-IsConsistent (checkpoint cutoff checkpointed batch_offset) s k c =
      checkpoint_redolog-IsConsistent cutoff checkpointed batch_offset s k c
  step-IsConsistent (applied offset size times) s k c =
      let (c', known) = count_message-IsConsistent offset k c size in
      let file = offset / max_batches_per_file in
      subst (λ m. IsConsistent (update_all file times m))
        (sym (add_message-manager fails file offset size s k))
        (update_all-IsConsistent times file (count_message file offset size k) c' known)

  run-IsConsistent :
      (calls : List Call) (s : DiskMetaStore) (k : KafkaRedoLogManager)
      → IsConsistent k
      → IsConsistent (run fails calls (s, k)).1
  unfolding run
  run-IsConsistent [] s k c = c
  run-IsConsistent (call ∷ calls) s k c =
      let x = step fails call (s, k) in
      run-IsConsistent calls x.0 x.1 (step-IsConsistent call s k c)

new-IsConsistent :
    (table : String) (shard : ℕ) (recovers : Bool)
    → IsConsistent (new_kafka_redo_log_manager table shard recovers)
unfolding new_kafka_redo_log_manager
new-IsConsistent table shard recovers = record {
  known = λ f t h. absurd (none-ne-some _ h);
  placed = λ f o h. absurd (none-ne-some _ h);
}

-- After any run of a new manager, in which messages are applied and checkpoints are made, take a
-- virtual file that the manager knows, and that has events from the cutoff on or is not checkpointed
-- to its end. CheckpointRedolog keeps the file, with its event time and its first offset, and if it
-- succeeds, then the stored checkpoint offset is not beyond the first offset of the file, and after
-- a restart a manager that recovers and can read its offsets starts to consume at the stored offset,
-- unless that is 0: then it starts at the newest message.
pub checkpoint_redolog-keeps :
    (fails : Access → File → Bool) (table : String) (shard : ℕ) (recovers : Bool)
    (calls : List Call) (s0 : DiskMetaStore) (cutoff checkpointed batch_offset f t : ℕ)
    (later : Access → File → Bool) (offset_newest : ℤ)
    → ((file : File) → later read file ≡ false)
    → find f
        (run fails calls
          (s0, new_kafka_redo_log_manager table shard recovers)).1.max_event_time_per_file
      ≡ some t
    → Needed cutoff checkpointed batch_offset f t
    → let (s, k) = run fails calls (s0, new_kafka_redo_log_manager table shard recovers) in
      let (done, (s', k')) = checkpoint_redolog fails cutoff checkpointed batch_offset (s, k) in
      (find f k'.max_event_time_per_file ≡ some t)
      × (find f k'.first_kafka_offset_per_file ≡ find f k.first_kafka_offset_per_file)
      × ((done ≡ false)
          ⊎ (o : ℕ) × (find f k.first_kafka_offset_per_file ≡ some o)
            × (stored_offset k.table_name k.shard s' ≤ o)
            × (let from = stored_offset k.table_name k.shard s' in
                StartsAt later k.table_name k.shard s' offset_newest
                  (if from == 0 then offset_newest else pos from)))
checkpoint_redolog-keeps fails table shard recovers calls s0 cutoff checkpointed batch_offset f t
      later offset_newest readable there needed =
    let x = run fails calls (s0, new_kafka_redo_log_manager table shard recovers) in
    let kept =
      checkpoint_redolog-keeps_file fails cutoff checkpointed batch_offset x.0 x.1
        (run-IsConsistent fails calls s0 (new_kafka_redo_log_manager table shard recovers)
          (new-IsConsistent table shard recovers))
        f t there needed in
    let after = (checkpoint_redolog fails cutoff checkpointed batch_offset x).1.0 in
    (
      kept.0,
      kept.1,
      elim kept.2 [
        | inl failed ↦ inl failed
        | inr (o, first, le) ↦ inr (
          o,
          first,
          le,
          start_iterator-stored later x.1.table_name x.1.shard after readable offset_newest,
        )
      ],
    )
