-- ===== src/RedoLog/Kafka.antt =====
-- redolog/kafka_redolog_manager.go, over the offsets that metastore/disk_metastore.go keeps. The
-- partition consumer of sarama is the sequence of what the `select` of the iterator receives; sizes
-- add up to less than 2^63. `offset_newest` is sarama.OffsetNewest, `parse` is NewUpsertBatch, and a
-- batch has the bytes of its message.
use Prim.Native.String.{String}
use aresdb.Prelude.{
  ℕ, zero, ◌+◌, ◌-◌, ◌/◌, ◌%◌, Bool, true, false, not, ◌&&◌, ◌||◌, Option, none, some, List, [],
  ◌∷◌, ltb, leb, ◌==◌, if◌then◌else◌, length,
}
use aresdb.Prelude.Int.{ℤ, pos, ◌+ℤ◌, ◌-ℤ◌, ltb_ℤ}
use aresdb.Prelude.Dict.{Dict, find, find_or, insert, erase}
use mathlib.Core.Option
use aresdb.RedoLog.Replay.{NextUpsertBatchInfo}
use aresdb.MetaStore.{DiskMetaStore, Access, File, ok, err}
use aresdb.MetaStore.Shards.{
  get_redo_log_commit_offset, update_redo_log_commit_offset, get_redo_log_checkpoint_offset,
  update_redo_log_checkpoint_offset,
}
pub mod Delivery
pub mod Checkpoint
pub mod Starts
pub mod Run
pub mod Restart

abbrev pub max_batches_per_file : ℕ
max_batches_per_file = 5000

abbrev pub commit_interval : ℕ
commit_interval = 100

-- The maps are from virtual files of `max_batches_per_file` offsets each. `consuming` says that
-- there is a partition consumer.
pub record KafkaRedoLogManager : Type 0 where
  pub table_name : String
  pub shard : ℕ
  pub max_event_time_per_file : Dict ℕ
  pub first_kafka_offset_per_file : Dict ℕ
  pub size_per_file : Dict ℕ
  pub total_redo_log_size : ℤ
  pub include_recovery : Bool
  pub consuming : Bool
  pub recovery_done : Bool
  pub batch_recovered : ℕ
  pub batch_received : ℕ

unfoldable pub new_kafka_redo_log_manager : String → ℕ → Bool → KafkaRedoLogManager
new_kafka_redo_log_manager table shard include_recovery = record {
  table_name = table;
  shard = shard;
  max_event_time_per_file = [];
  first_kafka_offset_per_file = [];
  size_per_file = [];
  total_redo_log_size = pos 0;
  include_recovery = include_recovery;
  consuming = false;
  recovery_done = not include_recovery;
  batch_recovered = 0;
  batch_received = 0;
}

unfoldable pub update_max_event_time : ℕ → ℕ → KafkaRedoLogManager → KafkaRedoLogManager
update_max_event_time event_time file k =
    let raised = record k {
      max_event_time_per_file = insert file event_time k.max_event_time_per_file;
    } in
    elim (find file k.max_event_time_per_file) [
      | none ↦ raised
      | some old ↦ if leb event_time old then k else raised
    ]

unfoldable pub get_file_offset : ℕ → ℕ × ℕ
get_file_offset kafka_offset =
    (kafka_offset / max_batches_per_file, kafka_offset % max_batches_per_file)

-- The test of CheckpointRedolog for a file that has to stay.
unfoldable pub is_needed : ℕ → ℕ → ℕ → ℕ → ℕ → Bool
is_needed cutoff checkpointed batch_offset file max_event_time =
    leb cutoff max_event_time
    || (ltb checkpointed file
        || (file == checkpointed && not (batch_offset == max_batches_per_file - 1)))

unfoldable pub is_before : ℕ → Option ℕ → Bool
is_before file none = true
is_before file (some best) = ltb file best

-- The first loop: the least file that has to stay, none for math.MaxInt64.
unfoldable pub first_needed : ℕ → ℕ → ℕ → Dict ℕ → Option ℕ → Option ℕ
unfolding is_needed is_before
first_needed cutoff checkpointed batch_offset [] best = best
first_needed cutoff checkpointed batch_offset ((file, t) ∷ files) best =
    first_needed cutoff checkpointed batch_offset files (
      if is_needed cutoff checkpointed batch_offset file t && is_before file best
      then some file
      else best)

unfoldable pub forget : ℕ → KafkaRedoLogManager → KafkaRedoLogManager
forget file k = record k {
  max_event_time_per_file = erase file k.max_event_time_per_file;
  first_kafka_offset_per_file = erase file k.first_kafka_offset_per_file;
  total_redo_log_size = k.total_redo_log_size -ℤ pos (find_or 0 file k.size_per_file);
  size_per_file = erase file k.size_per_file;
}

-- The second loop, over the files of the map as it was.
unfoldable pub forget_before : ℕ → Dict ℕ → KafkaRedoLogManager → KafkaRedoLogManager
unfolding forget
forget_before first [] k = k
forget_before first ((file, t) ∷ files) k =
    forget_before first files (if ltb file first then forget file k else k)

-- What a call of the iterator receives.
pub data Event : Type 0 where
  message : ℕ → List ℕ → Event
  nil_message consumer_error messages_closed errors_closed done_closed : Event

pub data Next (B : Type 0) : Type 0 where
  finished panicked waiting : Next B
  returned : NextUpsertBatchInfo B → Next B

unfoldable pub set_recovery_done : KafkaRedoLogManager → KafkaRedoLogManager
set_recovery_done k = record k { recovery_done = true }

-- The last two tests of getKafkaOffsets.
unfoldable pub adjust : ℤ → ℕ × ℕ → ℤ × ℤ
adjust offset_newest (from, to) =
    let start = if from == 0 then offset_newest else pos from in
    (start, if ltb_ℤ (pos to) start then start else pos to)

-- There is nothing to recover.
unfoldable pub ends_at_once : ℤ → ℤ → Bool
ends_at_once offset_from (pos zero) = true
ends_at_once offset_from offset_to = not (ltb_ℤ offset_from offset_to)

-- The maps and the counters after a message.
unfoldable pub count_message : ℕ → ℕ → ℕ → KafkaRedoLogManager → KafkaRedoLogManager
count_message file offset size k = record k {
  first_kafka_offset_per_file = elim (find file k.first_kafka_offset_per_file) [
    | none ↦ insert file offset k.first_kafka_offset_per_file
    | some first ↦
        if ltb offset first
        then insert file offset k.first_kafka_offset_per_file
        else k.first_kafka_offset_per_file
  ];
  size_per_file = elim (find file k.size_per_file) [
    | none ↦ insert file 0 k.size_per_file
    | some old ↦ insert file (old + size) k.size_per_file
  ];
  total_redo_log_size = k.total_redo_log_size +ℤ pos size;
  batch_received = if k.recovery_done then k.batch_received + 1 else k.batch_received;
  batch_recovered = if k.recovery_done then k.batch_recovered else k.batch_recovered + 1;
}

module _ (fails : Access → File → Bool) where
  -- Whether it succeeded, with the new state.
  unfoldable pub checkpoint_redolog :
      ℕ → ℕ → ℕ → DiskMetaStore × KafkaRedoLogManager → Bool × (DiskMetaStore × KafkaRedoLogManager)
  unfolding first_needed forget_before
  checkpoint_redolog cutoff checkpointed batch_offset (s, k) =
      elim (first_needed cutoff checkpointed batch_offset k.max_event_time_per_file none) [
        | none ↦ (true, (s, k))
        | some first ↦
            let offset = find_or 0 first k.first_kafka_offset_per_file in
            let (r, s') = update_redo_log_checkpoint_offset fails k.table_name k.shard offset s in
            elim r [
              | err _ ↦ (false, (s', k))
              | ok _ ↦ (true, (s', forget_before first k.max_event_time_per_file k))
            ]
      ]

  -- An error of the commit is passed over.
  unfoldable pub add_message :
      ℕ → ℕ → ℕ → DiskMetaStore × KafkaRedoLogManager → DiskMetaStore × KafkaRedoLogManager
  unfolding count_message
  add_message file offset size (s, k) =
      let k' = count_message file offset size k in
      if k'.batch_received % commit_interval == 99
      then ((update_redo_log_commit_offset fails k.table_name k.shard offset s).1, k')
      else (s, k')

  -- getKafkaOffsets, none where it exits the process; an error is passed over by a manager that does
  -- not recover.
  unfoldable pub get_kafka_offsets : DiskMetaStore → KafkaRedoLogManager → Option (ℕ × ℕ)
  get_kafka_offsets s k =
      let committed = (get_redo_log_commit_offset fails k.table_name k.shard s).0 in
      if k.include_recovery
      then elim (get_redo_log_checkpoint_offset fails k.table_name k.shard s).0 [
        | err _ ↦ none
        | ok from ↦ elim committed [ err _ ↦ none | ok to ↦ some (from, to) ]
      ]
      else elim committed [ err _ ↦ some (0, 0) | ok from ↦ some (from, from) ]

  -- Iterator: the offsets at which consuming starts and recovery ends.
  unfoldable pub start_iterator :
      ℤ
      → DiskMetaStore × KafkaRedoLogManager
      → Option ((ℤ × ℤ) × (DiskMetaStore × KafkaRedoLogManager))
  unfolding get_kafka_offsets adjust
  start_iterator offset_newest (s, k) =
      Option.map (λ (o : ℕ × ℕ). (adjust offset_newest o, (s, record k { consuming = true })))
        (get_kafka_offsets s k)

  module _ {B : Type 0} (parse : List ℕ → Option B) (offset_from offset_to : ℤ) where
    -- A message that is no batch leads to a nil dereference.
    unfoldable pub take_message :
        ℕ
        → List ℕ
        → DiskMetaStore × KafkaRedoLogManager
        → Next B × (DiskMetaStore × KafkaRedoLogManager)
    unfolding set_recovery_done get_file_offset add_message
    take_message offset value (s, k) = elim (parse value) [
      | none ↦ (panicked, (s, k))
      | some batch ↦
          let k' =
            if not k.recovery_done && ltb_ℤ offset_to (pos offset)
            then set_recovery_done k
            else k in
          let (file, batch_offset) = get_file_offset offset in
          (
            returned (record {
              batch = batch;
              redo_log_file = file;
              batch_offset = batch_offset;
              recovery = not k'.recovery_done;
            }),
            add_message file offset (length value) (s, k'),
          )
    ]

    -- The loop of the iterator, on what the `select` receives one after another, with what is left.
    unfoldable pub receive :
        List Event
        → DiskMetaStore × KafkaRedoLogManager
        → Next B × List Event × (DiskMetaStore × KafkaRedoLogManager)
    unfolding take_message
    receive [] x = (waiting, [], x)
    receive (message offset value ∷ events) x =
        let (r, x') = take_message offset value x in (r, events, x')
    receive (nil_message ∷ events) x = receive events x
    receive (consumer_error ∷ events) x = receive events x
    receive (messages_closed ∷ events) x = (finished, events, x)
    receive (errors_closed ∷ events) x = (finished, events, x)
    receive (done_closed ∷ events) x = (finished, events, x)

    -- A call of the function that Iterator returns.
    unfoldable pub next :
        List Event
        → DiskMetaStore × KafkaRedoLogManager
        → Next B × List Event × (DiskMetaStore × KafkaRedoLogManager)
    unfolding set_recovery_done receive ends_at_once
    next events (s, k) =
        if not k.consuming
        then (finished, events, (s, k))
        else receive events (
          s,
          if not k.recovery_done && ends_at_once offset_from offset_to
              then set_recovery_done k
              else k,
        )

unfoldable pub close : KafkaRedoLogManager → KafkaRedoLogManager
close k = record k { consuming = false }
