-- ===== src/Tests/Kafkas.antt =====
-- A shard whose batches come from Kafka, and the theorems on redolog/kafka_redolog_manager.go applied
-- to it.
use aresdb.Prelude.{
  ◌==◌, if◌then◌else◌, ℕ, ◌≡◌, ◌≤◌, ◌⊎◌, refl, inl, true, false, Option, none, some, List, [], ◌∷◌,
  arith,
}
use aresdb.Prelude.Int.{ℤ, pos, negsuc}
use aresdb.Prelude.Dict.{find}
use aresdb.MetaStore.{DiskMetaStore}
use aresdb.RedoLog.Kafka.{
  KafkaRedoLogManager, new_kafka_redo_log_manager, start_iterator, checkpoint_redolog,
  get_file_offset, ends_at_once, message,
}
use aresdb.MetaStore.Shards.{get_redo_log_checkpoint_offset, get_redo_log_commit_offset}
use aresdb.RedoLog.Kafka.Delivery.{deliver, deliveries, any_past, deliver-recovers}
use aresdb.RedoLog.Kafka.Checkpoint.{stored_offset}
use aresdb.RedoLog.Kafka.Run.{Call, applied, run, checkpoint_redolog-keeps}
use aresdb.RedoLog.Kafka.Starts.{StartsAt}
use aresdb.RedoLog.Kafka.Restart.{restart-starts_newest}
use aresdb.RedoLog.{new_file_redo_log_manager}
use aresdb.RedoLog.Replay.{iterator}
use aresdb.RedoLog.Run.{append_all}
use aresdb.RedoLog.Composite.{CompositeRedoLogManager, Feed, Arrival, next_batch, play}
use aresdb.RedoLog.Composite.Steps.{committed as committed_offset}
use aresdb.RedoLog.Composite.Rounds.{IsLive}
use aresdb.RedoLog.Composite.Restart.{logged, play-loses_none}
use aresdb.Tests.RedoLogs.{byte_by_byte}
use aresdb.Tests.MetaStores.{store, fine, trips_dir}

-- Checkpointed up to the offset 5 and committed up to 7.
abbrev committed : DiskMetaStore
committed = record store {
  tables =
      ("trips", record trips_dir { commit_offsets = (0, 7) ∷ []; checkpoint_offsets = (0, 5) ∷ [] })
      ∷ [];
}

abbrev fresh : KafkaRedoLogManager
fresh = new_kafka_redo_log_manager "trips" 0 true

-- A batch is its bytes here.
abbrev parse : List ℕ → Option (List ℕ)
parse b = some b

abbrev messages : List (ℕ × List ℕ)
messages = (5, 1 ∷ []) ∷ (6, 2 ∷ []) ∷ (8, 3 ∷ 4 ∷ []) ∷ []

started :
    start_iterator fine (negsuc 0) (committed, fresh)
    ≡ some ((pos 5, pos 7), (committed, record fresh { consuming = true }))
unfolding start_iterator new_kafka_redo_log_manager get_redo_log_checkpoint_offset
    get_redo_log_commit_offset
started = refl

deliver-recovers_example :
    let (rs, (s', k')) =
      deliver fine parse
        (λ b. b)
        (pos 5)
        (pos 7)
        messages
        (committed, record fresh { consuming = true }) in
    (rs ≡ deliveries (pos 7) false messages) × (k'.recovery_done ≡ any_past (pos 7) messages)
unfolding ends_at_once
deliver-recovers_example =
    deliver-recovers fine parse (λ b. b) (negsuc 0) (pos 5) (pos 7) "trips" 0 committed
      (committed, record fresh { consuming = true }) messages (λ b. refl) started refl

-- Three virtual files; the first two are checkpointed, and the second has a late event.
abbrev calls : List Call
calls =
    applied 4999 10 (100 ∷ []) ∷ applied 5000 10 (200 ∷ 90 ∷ []) ∷ applied 10000 10 (80 ∷ []) ∷ []

known : find 1 (run fine calls (store, fresh)).1.max_event_time_per_file ≡ some 200
unfolding run new_kafka_redo_log_manager get_file_offset
known = refl

checkpoint_redolog-keeps_example :
    let (s, k) = run fine calls (store, fresh) in
    let (done, (s', k')) = checkpoint_redolog fine 150 1 4999 (s, k) in
    (find 1 k'.max_event_time_per_file ≡ some 200)
    × (find 1 k'.first_kafka_offset_per_file ≡ find 1 k.first_kafka_offset_per_file)
    × ((done ≡ false)
        ⊎ (o : ℕ) × (find 1 k.first_kafka_offset_per_file ≡ some o)
          × (stored_offset k.table_name k.shard s' ≤ o)
          × (let from = stored_offset k.table_name k.shard s' in
              StartsAt fine k.table_name k.shard s'
                (negsuc 0)
                (if from == 0 then negsuc 0 else pos from)))
checkpoint_redolog-keeps_example =
    checkpoint_redolog-keeps fine "trips" 0 true calls store 150 1 4999 1 200 fine (negsuc 0)
      (λ f. refl) known (inl (omega arith))

restart-starts_newest_example :
    let x =
      run fine (applied 4999 10 (100 ∷ []) ∷ applied 5000 10 (200 ∷ []) ∷ []) (store, fresh) in
    let start = start_iterator fine (negsuc 0) (x.0, fresh) in
    (start ≡ none)
    ⊎ (offset_to : ℤ) × (y : DiskMetaStore × KafkaRedoLogManager) × (start
        ≡ some ((negsuc 0, offset_to), y))
restart-starts_newest_example =
    restart-starts_newest fine fine (negsuc 0) "trips" 0
      ((4999, 10, 100 ∷ []) ∷ (5000, 10, 200 ∷ []) ∷ []) store refl

-- The same shard with log files, which hold nothing yet.
abbrev live : CompositeRedoLogManager
live = record {
  files = ([], record (new_file_redo_log_manager 1 1000) { recovery_done = true });
  kafka = (committed, record (new_kafka_redo_log_manager "trips" 0 false) { consuming = true });
}

live-IsLive : IsLive "trips" 0 live
unfolding new_kafka_redo_log_manager
live-IsLive = record {
  replayed = refl;
  consuming = refl;
  recovered = refl;
  named = refl;
  numbered = refl;
}

abbrev feed : Feed (List ℕ)
feed = record { cursor = iterator []; offset_from = pos 7; offset_to = pos 7 }

abbrev arrival : ℕ → ℕ → Arrival (List ℕ)
arrival now offset = record {
  now = now;
  offset = offset;
  batch = offset ∷ [];
  event_times = now ∷ [];
}

abbrev arrivals : List (Arrival (List ℕ))
arrivals = arrival 50 7 ∷ arrival 50 8 ∷ arrival 52 9 ∷ []

play-loses_none_example :
    let (feed', played) = play byte_by_byte parse fine (λ b. b) arrivals (feed, live) in
    let (r, _, (_, crashed)) =
      next_batch byte_by_byte parse fine feed' (message 10 (10 ∷ []) ∷ []) played in
    let from = committed_offset "trips" 0 crashed.kafka.0 in
    (crashed.files.0 ≡ (append_all (logged (λ b. b) arrivals) live.files).1.0)
    × (from ≤ 10)
    × (to : ℤ) × (y : DiskMetaStore × KafkaRedoLogManager) × (start_iterator fine
          (negsuc 0)
          (crashed.kafka.0, new_kafka_redo_log_manager "trips" 0 false)
        ≡ some ((if from == 0 then negsuc 0 else pos from, to), y))
play-loses_none_example =
    play-loses_none byte_by_byte parse fine (λ b. b) (λ b. refl) "trips" 0 fine (negsuc 0) arrivals
      (arrival 53 10) feed live live-IsLive (omega arith, (omega arith, (omega arith, tt)))
      (omega arith) refl
