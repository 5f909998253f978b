-- ===== src/RedoLog/Composite/Restart.antt =====
-- redolog/composite_redolog_manager.go: what is left of the messages after a crash.
use Prim.Native.String.{String}
use mathlib.Core.Path.{subst}
use aresdb.Prelude.{
  ℕ, ◌≤◌, ◌≡◌, ◌∙◌, inl, inr, refl, sym, ap, Bool, false, Option, some, List, [], ◌∷◌, map, arith,
  length, ◌==◌, if◌then◌else◌,
}
use aresdb.Prelude.Int.{ℤ, pos}
use aresdb.Stream.{FileSource}
use aresdb.MetaStore.{DiskMetaStore, Access, File, read, shard_file, commit_offset}
use aresdb.RedoLog.{Disk, FileRedoLogManager, append_to_redo_log}
use aresdb.RedoLog.Run.{append_all}
use aresdb.RedoLog.Replay.{NextUpsertBatchInfo}
use aresdb.RedoLog.Kafka.{
  KafkaRedoLogManager, Event, message, Next, returned, add_message, get_file_offset,
  new_kafka_redo_log_manager, start_iterator,
}
use aresdb.RedoLog.Composite.{CompositeRedoLogManager, Feed, Arrival, next_batch, log_batch, play}
use aresdb.RedoLog.Composite.Steps.{committed, start_iterator-committed}
use aresdb.RedoLog.Composite.Rounds.{
  IsLive, add_message-Counts, Follows, log_batch-Follows, next_batch-message,
}

-- The batches with their bytes, as they are to be appended.
abbrev pub logged : {B : Type 0} → (B → List ℕ) → List (Arrival B) → List (ℕ × List ℕ × B)
logged encode arrivals = map (λ (a : Arrival _). (a.now, encode a.batch, a.batch)) arrivals

-- No message is beyond the offset.
abbrev pub UpTo : {B : Type 0} → ℕ → List (Arrival B) → Type 0
UpTo offset [] = Unit {0}
UpTo offset (a ∷ arrivals) = (a.offset ≤ offset) × UpTo offset arrivals

module _ {R B : Type 0} (source : FileSource R) (parse : List ℕ → Option B)
    (fails : Access → File → Bool) (encode : B → List ℕ)
    (parsed : (b : B) → parse (encode b) ≡ some b) (table : String) (shard : ℕ) where
  -- The state between two messages: the shard is live, the files are those of `s` and no offset beyond
  -- `bound` is committed.
  record Ready (s : Disk × FileRedoLogManager) (bound : ℕ) (c : CompositeRedoLogManager)
      : Type 0 where
    pub live : IsLive table shard c
    pub follows : Follows s c
    pub before : committed table shard c.kafka.0 ≤ bound

  receive-Ready :
      (s : Disk × FileRedoLogManager) (bound offset size : ℕ) (c : CompositeRedoLogManager)
      → Ready s bound c
      → offset ≤ bound
      → Ready s bound
          (record c { kafka = add_message fails (get_file_offset offset).0 offset size c.kafka })
  receive-Ready s bound offset size c r near =
      let x = add_message fails (get_file_offset offset).0 offset size c.kafka in
      let counts =
        add_message-Counts fails (get_file_offset offset).0 offset size c.kafka.0 c.kafka.1 in
      let at : (m : DiskMetaStore)
          → committed c.kafka.1.table_name c.kafka.1.shard m ≡ committed table shard m =
        λ m i. committed (r.live.named i) (r.live.numbered i) m in
      record {
        live = record {
          replayed = r.live.replayed;
          consuming = counts.consuming ∙ r.live.consuming;
          recovered = counts.recovered ∙ r.live.recovered;
          named = counts.named ∙ r.live.named;
          numbered = counts.numbered ∙ r.live.numbered;
        };
        follows = r.follows;
        before = elim counts.commits [
          | inl same ↦ subst (λ n. n ≤ bound) (sym (sym (at x.0) ∙ same ∙ at c.kafka.0)) r.before
          | inr now ↦ subst (λ n. n ≤ bound) (sym (sym (at x.0) ∙ now)) near
        ];
      }

  log_batch-Ready :
      (s : Disk × FileRedoLogManager) (bound now : ℕ) (times : List ℕ)
      (info : NextUpsertBatchInfo B) (c : CompositeRedoLogManager)
      → info.recovery ≡ false
      → Ready s bound c
      → Ready
          (append_to_redo_log now (encode info.batch) s).1
          bound
          (log_batch encode now times (returned info) c)
  log_batch-Ready s bound now times info c fresh r =
      let (follows, same, done) = log_batch-Follows encode now times info s c fresh r.follows in
      record {
        live = record {
          replayed = done ∙ r.live.replayed;
          consuming = rw same r.live.consuming;
          recovered = rw same r.live.recovered;
          named = rw same r.live.named;
          numbered = rw same r.live.numbered;
        };
        follows = follows;
        before = rw same r.before;
      }

  play-Ready :
      (arrivals : List (Arrival B)) (bound : ℕ) (feed : Feed R) (s : Disk × FileRedoLogManager)
      (c : CompositeRedoLogManager)
      → UpTo bound arrivals
      → Ready s bound c
      → let (feed', c') = play source parse fails encode arrivals (feed, c) in
        Ready (append_all (logged encode arrivals) s).1 bound c'
  unfolding play append_all
  play-Ready [] bound feed s c up r = r
  play-Ready (a ∷ arrivals) bound feed s c up r =
      let (file, place) = get_file_offset a.offset in
      let info : NextUpsertBatchInfo B = record {
        batch = a.batch;
        redo_log_file = file;
        batch_offset = place;
        recovery = false;
      } in
      let c1 = record c {
        kafka = add_message fails file a.offset (length (encode a.batch)) c.kafka;
      } in
      subst
        (λ (x : Next B × List Event × (Feed R × CompositeRedoLogManager)).
          Ready
            (append_all (logged encode arrivals) (append_to_redo_log a.now (encode a.batch) s).1).1
            bound
            (play source parse fails encode arrivals
              (x.2.0, log_batch encode a.now a.event_times x.0 x.2.1)).1)
        (sym (
          next_batch-message source parse fails encode parsed table shard feed a.offset a.batch c
            r.live))
        (play-Ready arrivals bound feed (append_to_redo_log a.now (encode a.batch) s).1
          (log_batch encode a.now a.event_times (returned info) c1) up.1
          (log_batch-Ready s bound a.now a.event_times info c1 refl
            (receive-Ready s bound a.offset (length (encode a.batch)) c r up.0)))

  -- Let the files of a shard be replayed and its messages be consumed, with no offset committed beyond
  -- that of the last message, in front of which no other message is beyond it. The messages are taken
  -- in turn by PlayRedoLog, and the last is received but not applied when the process ends. Then the
  -- files on disk are those of appending the batches of all other messages in order, no offset beyond
  -- the last message is committed, and a new manager that can read the committed offset starts to
  -- consume there, or at the newest message if the offset is 0, as it is before the first commit.
  pub play-loses_none :
      (later : Access → File → Bool) (offset_newest : ℤ) (arrivals : List (Arrival B))
      (last : Arrival B) (feed : Feed R) (c : CompositeRedoLogManager)
      → IsLive table shard c
      → UpTo last.offset arrivals
      → committed table shard c.kafka.0 ≤ last.offset
      → later read (shard_file table shard commit_offset) ≡ false
      → let (feed', played) = play source parse fails encode arrivals (feed, c) in
        let (r, _, (_, crashed)) =
          next_batch source parse fails feed'
            (message last.offset (encode last.batch) ∷ [])
            played in
        let from = committed table shard crashed.kafka.0 in
        (crashed.files.0 ≡ (append_all (logged encode arrivals) c.files).1.0)
        × (from ≤ last.offset)
        × (to : ℤ) × (y : DiskMetaStore × KafkaRedoLogManager) × (start_iterator later offset_newest
              (crashed.kafka.0, new_kafka_redo_log_manager table shard false)
            ≡ some ((if from == 0 then offset_newest else pos from, to), y))
  play-loses_none later offset_newest arrivals last feed c live up near readable =
      let x = play source parse fails encode arrivals (feed, c) in
      let (file, place) = get_file_offset last.offset in
      let played = play-Ready arrivals last.offset feed c.files c up (record {
        live = live;
        follows = (c.files.1.max_event_time_per_file, refl);
        before = near;
      }) in
      let received =
        receive-Ready _ last.offset last.offset (length (encode last.batch)) x.1 played
          (omega arith) in
      let start =
        start_iterator-committed later table shard
          (next_batch source parse fails x.0 (message last.offset (encode last.batch) ∷ [])
            x.1).2.1.kafka.0
          readable offset_newest in
      let crashed : (next_batch source parse fails x.0
            (message last.offset (encode last.batch) ∷ []) x.1).2.1
          ≡ record x.1 {
            kafka = add_message fails file last.offset (length (encode last.batch)) x.1.kafka;
          } =
        ap (λ (y : Next B × List Event × (Feed R × CompositeRedoLogManager)). y.2.1)
          (next_batch-message source parse fails encode parsed table shard x.0 last.offset
            last.batch x.1 played.live) in
      (
        ap (λ (y : CompositeRedoLogManager). y.files.0) crashed
            ∙ ap (λ (y : Disk × FileRedoLogManager). y.0) received.follows.1,
        subst (λ (y : CompositeRedoLogManager). committed table shard y.kafka.0 ≤ last.offset)
            (sym crashed) received.before,
        start.0,
        start.1,
        start.2,
      )
