-- ===== src/RedoLog/Composite/Rounds.antt =====
-- redolog/composite_redolog_manager.go: one message, received and logged.
use Prim.Native.String.{String}
use mathlib.Core.Path.{subst}
use aresdb.Prelude.{
  ℕ, ◌%◌, ◌≡◌, ◌∙◌, ◌⊎◌, inl, inr, refl, sym, ap, Bool, true, false, Option, some, List, [], ◌∷◌,
  length, ◌==◌, Bool-cases,
}
use aresdb.Prelude.Int.{ℤ}
use aresdb.Prelude.Dict.{Dict}
use aresdb.Stream.{FileSource}
use aresdb.MetaStore.{DiskMetaStore, Access, File}
use aresdb.RedoLog.{Disk, FileRedoLogManager, append_to_redo_log}
use aresdb.RedoLog.Replay.{NextUpsertBatchInfo}
use aresdb.RedoLog.Kafka.{
  KafkaRedoLogManager, Event, message, Next, returned, commit_interval, count_message, add_message,
  take_message, receive, get_file_offset, get_kafka_offsets, adjust, new_kafka_redo_log_manager,
  start_iterator,
}
use aresdb.RedoLog.Kafka
use aresdb.RedoLog.Composite.{
  CompositeRedoLogManager, Feed, append_to_files, next_message, next_batch, log_batch,
}
use aresdb.RedoLog.Composite.Steps.{
  with_times, append_to_redo_log-times, update_file_event_times-times, committed,
  update_redo_log_commit_offset-committed,
}

-- The files have been replayed and the messages of the shard are consumed.
pub record IsLive (table : String) (shard : ℕ) (c : CompositeRedoLogManager) : Type 0 where
  pub replayed : c.files.1.recovery_done ≡ true
  pub consuming : c.kafka.1.consuming ≡ true
  pub recovered : c.kafka.1.recovery_done ≡ true
  pub named : c.kafka.1.table_name ≡ table
  pub numbered : c.kafka.1.shard ≡ shard

-- The metastore and the manager over Kafka after a message.
pub record Counts (offset : ℕ) (s : DiskMetaStore) (k : KafkaRedoLogManager)
    (x : DiskMetaStore × KafkaRedoLogManager) : Type 0 where
  pub consuming : x.1.consuming ≡ k.consuming
  pub recovered : x.1.recovery_done ≡ k.recovery_done
  pub named : x.1.table_name ≡ k.table_name
  pub numbered : x.1.shard ≡ k.shard
  pub commits :
      (committed k.table_name k.shard x.0 ≡ committed k.table_name k.shard s)
      ⊎ (committed k.table_name k.shard x.0 ≡ offset)

pub add_message-Counts :
    (fails : Access → File → Bool) (file offset size : ℕ) (s : DiskMetaStore)
    (k : KafkaRedoLogManager)
    → Counts offset s k (add_message fails file offset size (s, k))
unfolding add_message count_message
add_message-Counts fails file offset size s k =
    elim (Bool-cases ((count_message file offset size k).batch_received % commit_interval == 99)) [
      | inl due ↦
          rw (due, add_message)
            (record {
              consuming = refl;
              recovered = refl;
              named = refl;
              numbered = refl;
              commits = update_redo_log_commit_offset-committed fails k.table_name k.shard offset s;
            })
      | inr early ↦
          rw (early, add_message)
            (record {
              consuming = refl;
              recovered = refl;
              named = refl;
              numbered = refl;
              commits = inl refl;
            })
    ]

module _ {B : Type 0} (parse : List ℕ → Option B) (fails : Access → File → Bool)
    (encode : B → List ℕ) (parsed : (b : B) → parse (encode b) ≡ some b) where
  Kafka-next-message :
      (from to : ℤ) (offset : ℕ) (b : B) (s : DiskMetaStore) (k : KafkaRedoLogManager)
      → k.consuming ≡ true
      → k.recovery_done ≡ true
      → let (file, place) = get_file_offset offset in
        Kafka.next fails parse from to (message offset (encode b) ∷ []) (s, k) ≡ (
          returned
              (record { batch = b; redo_log_file = file; batch_offset = place; recovery = false }),
          [],
          add_message fails file offset (length (encode b)) (s, k),
        )
  unfolding Kafka.next receive take_message
  Kafka-next-message from to offset b s k consuming recovered =
      let (file, place) = get_file_offset offset in
      let live = λ (k : KafkaRedoLogManager). record k { consuming = true; recovery_done = true } in
      subst
        (λ (k : KafkaRedoLogManager).
          Kafka.next fails parse from to (message offset (encode b) ∷ []) (s, k) ≡ (
            returned (record {
              batch = b;
              redo_log_file = file;
              batch_offset = place;
              recovery = false;
            }),
            [],
            add_message fails file offset (length (encode b)) (s, k),
          ))
        (λ i. record k { consuming = sym consuming i; recovery_done = sym recovered i })
        (rw (parsed b, take_message) refl)

-- The files are those of `s`, up to the event times of the manager.
abbrev pub Follows : Disk × FileRedoLogManager → CompositeRedoLogManager → Type 0
Follows s c = (e : Dict ℕ) × (c.files ≡ with_times e s)

module _ {B : Type 0} (encode : B → List ℕ) where
  -- A batch of a message is appended.
  pub log_batch-Follows :
      (now : ℕ) (times : List ℕ) (info : NextUpsertBatchInfo B) (s : Disk × FileRedoLogManager)
      (c : CompositeRedoLogManager)
      → info.recovery ≡ false
      → Follows s c
      → let c' = log_batch encode now times (returned info) c in
        Follows (append_to_redo_log now (encode info.batch) s).1 c'
        × (c'.kafka ≡ c.kafka)
        × (c'.files.1.recovery_done ≡ c.files.1.recovery_done)
  unfolding log_batch append_to_files
  log_batch-Follows now times info s c fresh (e, same) =
      let b = encode info.batch in
      let place = (append_to_redo_log now b c.files).0 in
      let c1 = (append_to_files now b c).1 in
      let (e', appended, done) = append_to_redo_log-times now b e s in
      let (e'', timed) = update_file_event_times-times times place.0 c1 in
      let moved : append_to_redo_log now b c.files
          ≡ ((append_to_redo_log now b s).0, with_times e' (append_to_redo_log now b s).1) =
        ap (append_to_redo_log now b) same ∙ appended in
      rw fresh (
        (
          e'',
          ap (λ (x : CompositeRedoLogManager). x.files) timed
              ∙ ap (λ (x : (ℕ × ℕ) × (Disk × FileRedoLogManager)). with_times e'' x.1) moved,
        ),
        ap (λ (x : CompositeRedoLogManager). x.kafka) timed,
        ap (λ (x : CompositeRedoLogManager). x.files.1.recovery_done) timed
            ∙ ap (λ (x : (ℕ × ℕ) × (Disk × FileRedoLogManager)). x.1.1.recovery_done) moved
            ∙ done
            ∙ ap (λ (x : Disk × FileRedoLogManager). x.1.recovery_done) (sym same),
      )

module _ {R B : Type 0} (source : FileSource R) (parse : List ℕ → Option B)
    (fails : Access → File → Bool) (encode : B → List ℕ)
    (parsed : (b : B) → parse (encode b) ≡ some b) (table : String) (shard : ℕ) where
  pub next_batch-message :
      (feed : Feed R) (offset : ℕ) (b : B) (c : CompositeRedoLogManager)
      → IsLive table shard c
      → let (file, place) = get_file_offset offset in
        next_batch source parse fails feed (message offset (encode b) ∷ []) c ≡ (
          returned
              (record { batch = b; redo_log_file = file; batch_offset = place; recovery = false }),
          [],
          (feed, record c { kafka = add_message fails file offset (length (encode b)) c.kafka }),
        )
  unfolding next_batch next_message
  next_batch-message feed offset b c live =
      let (file, place) = get_file_offset offset in
      subst
        (λ (c : CompositeRedoLogManager).
          next_batch source parse fails feed (message offset (encode b) ∷ []) c ≡ (
            returned (record {
              batch = b;
              redo_log_file = file;
              batch_offset = place;
              recovery = false;
            }),
            [],
            (feed, record c { kafka = add_message fails file offset (length (encode b)) c.kafka }),
          ))
        (λ i. record c {
          files = (c.files.0, record c.files.1 { recovery_done = sym live.replayed i });
        })
        (ap
          (λ (x : Next B × List Event × (DiskMetaStore × KafkaRedoLogManager)). (
            x.0,
            x.1,
            (
              feed,
              record c {
                files = (c.files.0, record c.files.1 { recovery_done = true });
                kafka = x.2;
              },
            ),
          ))
          (Kafka-next-message parse fails encode parsed feed.offset_from feed.offset_to offset b
            c.kafka.0 c.kafka.1 live.consuming live.recovered))
