-- ===== src/RedoLog/Composite/Steps.antt =====
-- redolog/composite_redolog_manager.go: what a batch does to the files, the event
-- times of the manager apart, and to the committed offset.
use Prim.Native.String.{String}
use aresdb.Prelude.{
  ℕ, ◌%◌, ◌^◌, ◌≡◌, ◌∙◌, ◌⊎◌, inl, inr, refl, ap, Bool, true, false, some, List, [], ◌∷◌, length,
  ◌==◌, if◌then◌else◌, leb, Bool-cases, Option-cases,
}
use aresdb.Prelude.Int.{ℤ, pos}
use aresdb.Prelude.Dict.{Dict, find, find_or, insert}
use aresdb.MetaStore.{
  DiskMetaStore, TableDir, Access, File, dir_of, make_dir, read, write, shard_file, commit_offset,
  access, make_dir_all, update_dir, ok,
}
use aresdb.MetaStore.{insert as insert_dir}
use aresdb.MetaStore.Actions.{dir_of-insert}
use aresdb.MetaStore.Shards.{get_redo_log_commit_offset, update_redo_log_commit_offset}
use aresdb.RedoLog.{
  Disk, FileRedoLogManager, append_to_redo_log, append_to_current, open_file_for_write, keeps_file,
  update_max_event_time,
}
use aresdb.RedoLog.Kafka.{
  KafkaRedoLogManager, get_kafka_offsets, adjust, new_kafka_redo_log_manager, start_iterator,
}
use aresdb.RedoLog.Kafka.Checkpoint.{find_or-insert_self}
use aresdb.RedoLog.Composite.{
  CompositeRedoLogManager, update_file_event_time, update_file_event_times,
}

-- A manager whose event times are `e`.
abbrev pub with_times : Dict ℕ → Disk × FileRedoLogManager → Disk × FileRedoLogManager
with_times e (d, m) = (d, record m { max_event_time_per_file = e })

-- The event times have no effect on an append.
append_to_current-times :
    (b : List ℕ) (e : Dict ℕ) (s : Disk × FileRedoLogManager)
    → append_to_current b (with_times e s)
      ≡ ((append_to_current b s).0, with_times e (append_to_current b s).1)
unfolding append_to_current
append_to_current-times b e s = refl

open_file_for_write-times :
    (now n : ℕ) (e : Dict ℕ) (s : Disk × FileRedoLogManager)
    → (e' : Dict ℕ) × (open_file_for_write now n (with_times e s)
        ≡ with_times e' (open_file_for_write now n s))
      × ((open_file_for_write now n s).1.recovery_done ≡ s.1.recovery_done)
unfolding open_file_for_write keeps_file
open_file_for_write-times now n e (d, m) = elim (Bool-cases (keeps_file now n m)) [
  | inl keeps ↦ (e, rw (keeps, open_file_for_write) refl, rw (keeps, open_file_for_write) refl)
  | inr opens ↦
      (insert now 0 e, rw (opens, open_file_for_write) refl, rw (opens, open_file_for_write) refl)
]

pub append_to_redo_log-times :
    (now : ℕ) (b : List ℕ) (e : Dict ℕ) (s : Disk × FileRedoLogManager)
    → (e' : Dict ℕ) × (append_to_redo_log now b (with_times e s)
        ≡ ((append_to_redo_log now b s).0, with_times e' (append_to_redo_log now b s).1))
      × ((append_to_redo_log now b s).1.1.recovery_done ≡ s.1.recovery_done)
unfolding append_to_redo_log append_to_current
append_to_redo_log-times now b e s =
    let n = length b % 2 ^ 32 in
    let (e', opened, done) = open_file_for_write-times now n e s in
    (
      e',
      ap (append_to_current b) opened ∙ append_to_current-times b e' (open_file_for_write now n s),
      done,
    )

update_max_event_time-times :
    (t file : ℕ) (m : FileRedoLogManager)
    → (e : Dict ℕ) × (update_max_event_time t file m ≡ record m { max_event_time_per_file = e })
unfolding update_max_event_time
update_max_event_time-times t file m = elim (Option-cases (find file m.max_event_time_per_file)) [
  | inl e ↦ (insert file t m.max_event_time_per_file, rw (e, update_max_event_time) refl)
  | inr (old, e) ↦ elim (Bool-cases (leb t old)) [
    | inl low ↦ (m.max_event_time_per_file, rw (e, update_max_event_time) (rw low refl))
    | inr high ↦
        (insert file t m.max_event_time_per_file, rw (e, update_max_event_time) (rw high refl))
  ]
]

pub update_file_event_times-times :
    (times : List ℕ) (file : ℕ) (c : CompositeRedoLogManager)
    → (e : Dict ℕ) × (update_file_event_times times file c
        ≡ record c { files = with_times e c.files })
unfolding update_file_event_times update_file_event_time
update_file_event_times-times [] file c = (c.files.1.max_event_time_per_file, refl)
update_file_event_times-times (t ∷ times) file c =
    let (e, same) = update_max_event_time-times t file c.files.1 in
    let (e', later) = update_file_event_times-times times file (update_file_event_time t file c) in
    (
      e',
      later
          ∙ ap (λ (m : FileRedoLogManager). record c { files = with_times e' (c.files.0, m) }) same,
    )

abbrev pub committed : String → ℕ → DiskMetaStore → ℕ
committed table shard s = find_or 0 shard (dir_of table s).commit_offsets

pub update_redo_log_commit_offset-committed :
    (fails : Access → File → Bool) (table : String) (shard offset : ℕ) (s : DiskMetaStore)
    → let s' = (update_redo_log_commit_offset fails table shard offset s).1 in
      (committed table shard s' ≡ committed table shard s) ⊎ (committed table shard s' ≡ offset)
unfolding update_redo_log_commit_offset make_dir_all access update_dir
update_redo_log_commit_offset-committed fails table shard offset s =
    let file = shard_file table shard commit_offset in
    elim (Bool-cases (fails make_dir file)) [
      | inl refused ↦ rw refused (inl refl)
      | inr made ↦
          let d = dir_of table s in
          let s1 = record s { tables = insert_dir table d s.tables } in
          let same =
            ap (λ (x : TableDir). find_or 0 shard x.commit_offsets) (dir_of-insert table d s) in
          elim (Bool-cases (fails write file)) [
            | inl refused ↦ rw made (rw refused (inl same))
            | inr written ↦
                let d1 = dir_of table s1 in
                rw made (
                  rw written (
                    inr (
                      ap (λ (x : TableDir). find_or 0 shard x.commit_offsets)
                        (dir_of-insert table
                          (record d1 { commit_offsets = insert shard offset d1.commit_offsets }) s1)
                      ∙ find_or-insert_self shard offset d1.commit_offsets)))
          ]
    ]

-- The offset at which a new manager starts to consume.
module _ (later : Access → File → Bool) (table : String) (shard : ℕ) (m : DiskMetaStore)
    (readable : later read (shard_file table shard commit_offset) ≡ false) where
  read_committed : (get_redo_log_commit_offset later table shard m).0 ≡ ok (committed table shard m)
  unfolding get_redo_log_commit_offset access
  read_committed = rw readable refl

  get_kafka_offsets-committed :
      get_kafka_offsets later m (new_kafka_redo_log_manager table shard false)
      ≡ some (committed table shard m, committed table shard m)
  unfolding get_kafka_offsets new_kafka_redo_log_manager
  get_kafka_offsets-committed = rw (read_committed, get_kafka_offsets) refl

  pub start_iterator-committed :
      (offset_newest : ℤ)
      → let from = committed table shard m in
        (to : ℤ) × (y : DiskMetaStore × KafkaRedoLogManager) × (start_iterator later offset_newest
            (m, new_kafka_redo_log_manager table shard false)
          ≡ some ((if from == 0 then offset_newest else pos from, to), y))
  unfolding start_iterator adjust
  start_iterator-committed offset_newest =
      let from = committed table shard m in
      (
        (adjust offset_newest (from, from)).1,
        (m, record (new_kafka_redo_log_manager table shard false) { consuming = true }),
        rw (get_kafka_offsets-committed, start_iterator) refl,
      )
