-- ===== src/RedoLog/Composite.antt =====
-- redolog/composite_redolog_manager.go: the log files of a shard and its messages from Kafka, and what
-- the loop of PlayRedoLog (memstore/recovery.go) and saveUpsertBatch (memstore/ingestion.go) make of
-- them. The disk stands beside the file manager and the metastore beside the one over Kafka.
use Prim.Native.String.{String}
use aresdb.Prelude.{ℕ, Bool, true, false, Option, none, some, List, [], ◌∷◌, if◌then◌else◌}
use aresdb.Prelude.Int.{ℤ}
use mathlib.Core.Option
use aresdb.Stream.{FileSource}
use aresdb.MetaStore.{DiskMetaStore, Access, File}
use aresdb.RedoLog.{
  Disk, FileRedoLogManager, new_file_redo_log_manager, append_to_redo_log, update_max_event_time,
  list_log_files,
}
use aresdb.RedoLog.Purge
use aresdb.RedoLog.Replay.{NextUpsertBatchInfo, Cursor, iterator}
use aresdb.RedoLog.Replay
use aresdb.RedoLog.Kafka.{
  KafkaRedoLogManager, Event, message, Next, finished, panicked, waiting, returned,
  new_kafka_redo_log_manager, start_iterator,
}
use aresdb.RedoLog.Kafka
pub mod Steps
pub mod Rounds
pub mod Restart

pub record CompositeRedoLogManager : Type 0 where
  pub files : Disk × FileRedoLogManager
  pub kafka : DiskMetaStore × KafkaRedoLogManager

-- The manager over Kafka takes no part in the recovery.
unfoldable pub new_composite_redo_log_manager :
    ℕ → ℕ → String → ℕ → Disk → DiskMetaStore → CompositeRedoLogManager
new_composite_redo_log_manager rotation_interval max_size table shard disk meta = record {
  files = (disk, new_file_redo_log_manager rotation_interval max_size);
  kafka = (meta, new_kafka_redo_log_manager table shard false);
}

-- What the closure keeps.
pub record Feed (R : Type 0) : Type 0 where
  pub cursor : Cursor R
  pub offset_from : ℤ
  pub offset_to : ℤ

-- AppendToRedoLog, UpdateMaxEventTime and CheckpointRedolog are those of the files.
unfoldable pub append_to_files :
    ℕ → List ℕ → CompositeRedoLogManager → (ℕ × ℕ) × CompositeRedoLogManager
unfolding append_to_redo_log
append_to_files now buffer c =
    let (place, files) = append_to_redo_log now buffer c.files in
    (place, record c { files = files })

unfoldable pub update_file_event_time : ℕ → ℕ → CompositeRedoLogManager → CompositeRedoLogManager
unfolding update_max_event_time
update_file_event_time event_time file c = record c {
  files = (c.files.0, update_max_event_time event_time file c.files.1);
}

-- `refused` are the files whose deletion the file system refuses.
unfoldable pub checkpoint_files :
    (ℕ → Bool) → ℕ → ℕ → ℕ → CompositeRedoLogManager → Bool × CompositeRedoLogManager
unfolding Purge.checkpoint_redolog
checkpoint_files refused cutoff checkpointed batch_offset c =
    let (done, files) = Purge.checkpoint_redolog refused cutoff checkpointed batch_offset c.files in
    (done, record c { files = files })

unfoldable pub update_file_event_times :
    List ℕ → ℕ → CompositeRedoLogManager → CompositeRedoLogManager
unfolding update_file_event_time
update_file_event_times [] file c = c
update_file_event_times (t ∷ times) file c =
    update_file_event_times times file (update_file_event_time t file c)

-- A message at a time, with its offset, its batch and the event times of the rows.
pub record Arrival (B : Type 0) : Type 0 where
  pub now : ℕ
  pub offset : ℕ
  pub batch : B
  pub event_times : List ℕ

module _ {B : Type 0} (encode : B → List ℕ) where
  -- What saveUpsertBatch does to the redo log with a batch of the iterator whose rows have the event
  -- times.
  unfoldable pub log_batch : ℕ → List ℕ → Next B → CompositeRedoLogManager → CompositeRedoLogManager
  unfolding append_to_files update_file_event_time update_file_event_times
  log_batch now times (returned info) c =
      let ((file, offset), c') = append_to_files now (encode info.batch) c in
      if info.recovery
      then update_file_event_times (0 ∷ times) info.redo_log_file c
      else update_file_event_times times file c'
  log_batch now times finished c = c
  log_batch now times panicked c = c
  log_batch now times waiting c = c

module _ {R B : Type 0} (source : FileSource R) (parse : List ℕ → Option B)
    (fails : Access → File → Bool) where
  -- Iterator; a manager that does not recover from Kafka always gets its offsets.
  unfoldable pub start : ℤ → CompositeRedoLogManager → Option (Feed R × CompositeRedoLogManager)
  unfolding start_iterator iterator list_log_files
  start offset_newest c = elim (start_iterator fails offset_newest c.kafka) [
    | none ↦ none
    | some ((from, to), kafka) ↦ some (
      record { cursor = iterator (list_log_files c.files.0); offset_from = from; offset_to = to },
      record c { kafka = kafka },
    )
  ]

  unfoldable pub next_message :
      Feed R
      → List Event
      → CompositeRedoLogManager
      → Next B × List Event × (Feed R × CompositeRedoLogManager)
  unfolding Kafka.next
  next_message feed events c =
      let (r, events', kafka) =
        Kafka.next fails parse feed.offset_from feed.offset_to events c.kafka in
      (r, events', (feed, record c { kafka = kafka }))

  -- The function that Iterator returns: the batches of the files, then those of Kafka.
  unfoldable pub next_batch :
      Feed R
      → List Event
      → CompositeRedoLogManager
      → Next B × List Event × (Feed R × CompositeRedoLogManager)
  unfolding next_message Replay.next
  next_batch feed events c =
      if c.files.1.recovery_done
      then next_message feed events c
      else elim (Replay.next source parse feed.cursor c.files.0 c.files.1) [
        | Replay.panicked ↦ (panicked, events, (feed, c))
        | Replay.finished disk m ↦ next_message feed events (record c { files = (disk, m) })
        | Replay.returned info cursor disk m ↦ (
          returned info,
          events,
          (record feed { cursor = cursor }, record c { files = (disk, m) }),
        )
      ]

  module _ (encode : B → List ℕ) where
    -- The rounds of the loop of PlayRedoLog that take a message each.
    unfoldable pub play :
        List (Arrival B) → Feed R × CompositeRedoLogManager → Feed R × CompositeRedoLogManager
    unfolding next_batch log_batch
    play [] x = x
    play (a ∷ arrivals) (feed, c) =
        let (r, _, (feed', c')) = next_batch feed (message a.offset (encode a.batch) ∷ []) c in
        play arrivals (feed', log_batch encode a.now a.event_times r c')
