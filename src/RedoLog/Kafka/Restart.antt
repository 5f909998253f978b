-- ===== src/RedoLog/Kafka/Restart.antt =====
-- redolog/kafka_redolog_manager.go: a restart before the first checkpoint.
use Prim.Native.String.{String}
use text.Mathlib.Text.{◌==◌ as str_eq}
use text.Mathlib.TextEquality.{eq_iff}
use mathlib.Core.Path.{subst}
use aresdb.Prelude.{
  ℕ, ◌≡◌, ◌⊎◌, inl, inr, refl, ap, ◌∙◌, Bool, true, Option, none, some, List, [], ◌∷◌, map, ◌==◌,
  ◌%◌, Bool-cases,
}
use aresdb.Prelude.Int.{ℤ}
use aresdb.MetaStore.{
  DiskMetaStore, TableDir, Access, File, MetaError, io_failure, ok, err, find, insert, empty_dir,
  dir_of, make_dir, read, write, shard_file, commit_offset, checkpoint_offset, access, make_dir_all,
  update_dir,
}
use aresdb.Prelude.Dict.{find_or}
use aresdb.Prelude.Dict.{insert as insert_key}
use aresdb.MetaStore.Actions.{find-insert, dir_of-insert}
use aresdb.MetaStore.Shards.{
  get_redo_log_commit_offset, update_redo_log_commit_offset, get_redo_log_checkpoint_offset,
}
use aresdb.RedoLog.Kafka.{
  KafkaRedoLogManager, commit_interval, new_kafka_redo_log_manager, count_message, add_message,
  get_file_offset, get_kafka_offsets, adjust, start_iterator,
}
use aresdb.RedoLog.Kafka.Checkpoint.{stored_offset}
use aresdb.RedoLog.Kafka.Run.{Call, applied, step, run}

module _ (table : String) (shard : ℕ) where
  -- A change of the files of some table that leaves its checkpoint offsets alone.
  update_dir-stored :
      (name : String) (d : TableDir) (s : DiskMetaStore)
      → d.checkpoint_offsets ≡ (dir_of name s).checkpoint_offsets
      → stored_offset table shard (record s { tables = insert name d s.tables })
        ≡ stored_offset table shard s
  update_dir-stored name d s same = elim (Bool-cases (str_eq name table)) [
    | inl e ↦
        let named : name ≡ table = (eq_iff name table).0 e in
        let s' = record s { tables = insert name d s.tables } in
        let there : dir_of table s' ≡ d =
          subst (λ n. dir_of n s' ≡ d) named (dir_of-insert name d s) in
        ap (λ (x : TableDir). find_or 0 shard x.checkpoint_offsets) there
        ∙ ap (find_or 0 shard) same
        ∙ ap (λ (n : String). stored_offset n shard s) named
    | inr e ↦
        let unchanged : find table (insert name d s.tables) ≡ find table s.tables =
          find-insert table name d s.tables ∙ rw e refl in
        ap
          (λ (o : Option TableDir).
            let files : TableDir = elim o [ none ↦ empty_dir | some x ↦ x ] in
            find_or 0 shard files.checkpoint_offsets)
          unchanged
  ]

  commit-stored :
      (fails : Access → File → Bool) (name : String) (at offset : ℕ) (s : DiskMetaStore)
      → stored_offset table shard (update_redo_log_commit_offset fails name at offset s).1
        ≡ stored_offset table shard s
  unfolding update_redo_log_commit_offset make_dir_all access update_dir
  commit-stored fails name at offset s =
      let file = shard_file name at commit_offset in
      elim (Bool-cases (fails make_dir file)) [
        | inl refused ↦ rw refused refl
        | inr made ↦ elim (Bool-cases (fails write file)) [
          | inl refused ↦ rw made (rw refused (update_dir-stored name (dir_of name s) s refl))
          | inr written ↦
              let s1 = record s { tables = insert name (dir_of name s) s.tables } in
              let d = dir_of name s1 in
              rw made (
                rw written (
                  update_dir-stored name
                    (record d { commit_offsets = insert_key at offset d.commit_offsets }) s1 refl
                  ∙ update_dir-stored name (dir_of name s) s refl))
        ]
      ]

  step-stored :
      (fails : Access → File → Bool) (offset size : ℕ) (times : List ℕ)
      (x : DiskMetaStore × KafkaRedoLogManager)
      → stored_offset table shard (step fails (applied offset size times) x).0
        ≡ stored_offset table shard x.0
  unfolding step add_message
  step-stored fails offset size times (s, k) =
      let k' = count_message (get_file_offset offset).0 offset size k in
      elim (Bool-cases (k'.batch_received % commit_interval == 99)) [
        | inl due ↦ rw due (commit-stored fails k.table_name k.shard offset s)
        | inr early ↦ rw early refl
      ]

  abbrev pub apply_call : ℕ × ℕ × List ℕ → Call
  apply_call (offset, size, times) = applied offset size times

  run-stored :
      (fails : Access → File → Bool) (messages : List (ℕ × ℕ × List ℕ))
      (x : DiskMetaStore × KafkaRedoLogManager)
      → stored_offset table shard (run fails (map apply_call messages) x).0
        ≡ stored_offset table shard x.0
  unfolding run
  run-stored fails [] x = refl
  run-stored fails ((offset, size, times) ∷ messages) x =
      run-stored fails messages (step fails (applied offset size times) x)
      ∙ step-stored fails offset size times x

  module _ (fails : Access → File → Bool) (s : DiskMetaStore) where
    read_checkpoint :
        ((e : MetaError) × ((get_redo_log_checkpoint_offset fails table shard s).0 ≡ err e))
        ⊎ ((get_redo_log_checkpoint_offset fails table shard s).0
            ≡ ok (stored_offset table shard s))
    unfolding get_redo_log_checkpoint_offset access
    read_checkpoint = elim (Bool-cases (fails read (shard_file table shard checkpoint_offset))) [
      | inl refused ↦ inl (io_failure, rw refused refl)
      | inr fine ↦ inr (rw fine refl)
    ]

    read_commit :
        ((e : MetaError) × ((get_redo_log_commit_offset fails table shard s).0 ≡ err e))
        ⊎ ((o : ℕ) × ((get_redo_log_commit_offset fails table shard s).0 ≡ ok o))
    unfolding get_redo_log_commit_offset access
    read_commit = elim (Bool-cases (fails read (shard_file table shard commit_offset))) [
      | inl refused ↦ inl (io_failure, rw refused refl)
      | inr fine ↦ inr (find_or 0 shard (dir_of table s).commit_offsets, rw fine refl)
    ]

    abbrev recovering : KafkaRedoLogManager
    recovering = new_kafka_redo_log_manager table shard true

    -- Both offsets are read, or the process exits.
    get_kafka_offsets-stored :
        (get_kafka_offsets fails s recovering ≡ none)
        ⊎ (o : ℕ) × (get_kafka_offsets fails s recovering ≡ some (stored_offset table shard s, o))
    unfolding get_kafka_offsets new_kafka_redo_log_manager
    get_kafka_offsets-stored = elim read_checkpoint [
      | inl (x, e) ↦ inl (rw (e, get_kafka_offsets) refl)
      | inr e ↦ elim read_commit [
        | inl (x, e') ↦ inl (rw (e, get_kafka_offsets) (rw (e', get_kafka_offsets) refl))
        | inr (o, e') ↦ inr (o, rw (e, get_kafka_offsets) (rw (e', get_kafka_offsets) refl))
      ]
    ]

    -- Without a checkpoint offset a manager that recovers starts at the newest message.
    start_iterator-newest :
        (offset_newest : ℤ)
        → stored_offset table shard s ≡ 0
        → let start = start_iterator fails offset_newest (s, recovering) in
          (start ≡ none)
          ⊎ (offset_to : ℤ) × (x : DiskMetaStore × KafkaRedoLogManager) × (start
              ≡ some ((offset_newest, offset_to), x))
    unfolding start_iterator adjust
    start_iterator-newest offset_newest none_yet = elim get_kafka_offsets-stored [
      | inl e ↦ inl (rw (e, start_iterator) refl)
      | inr (o, e) ↦
          let e' : get_kafka_offsets fails s recovering ≡ some (0, o) =
            e ∙ ap (λ (n : ℕ). some (n, o)) none_yet in
          inr (
            (adjust offset_newest (0, o)).1,
            (s, record recovering { consuming = true }),
            rw (e', start_iterator) refl,
          )
    ]

-- A new manager applies any messages of a shard for which no checkpoint offset is stored, and no
-- checkpoint is made. After a restart a manager that recovers from Kafka fails to read its offsets,
-- or starts at the newest message, so that none of the messages applied before is replayed, whatever
-- offset has been committed.
pub restart-starts_newest :
    (fails later : Access → File → Bool) (offset_newest : ℤ) (table : String) (shard : ℕ)
    (messages : List (ℕ × ℕ × List ℕ)) (s : DiskMetaStore)
    → stored_offset table shard s ≡ 0
    → let x =
        run fails
          (map (apply_call table shard) messages)
          (s, new_kafka_redo_log_manager table shard true) in
      let start =
        start_iterator later offset_newest (x.0, new_kafka_redo_log_manager table shard true) in
      (start ≡ none)
      ⊎ (offset_to : ℤ) × (y : DiskMetaStore × KafkaRedoLogManager) × (start
          ≡ some ((offset_newest, offset_to), y))
restart-starts_newest fails later offset_newest table shard messages s none_yet =
    let x : DiskMetaStore × KafkaRedoLogManager =
      (s, new_kafka_redo_log_manager table shard true) in
    start_iterator-newest table shard later (run fails (map (apply_call table shard) messages) x).0
      offset_newest (run-stored table shard fails messages x ∙ none_yet)
