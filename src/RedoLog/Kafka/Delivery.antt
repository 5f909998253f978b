-- ===== src/RedoLog/Kafka/Delivery.antt =====
-- redolog/kafka_redolog_manager.go: what the iterator returns of the messages of a partition, and
-- when recovery ends.
use Prim.Native.String.{String}
use mathlib.Core.Option.{none-ne-some, some_inj}
use aresdb.Prelude.{
  ℕ, ◌≡◌, refl, sym, ap, ◌∙◌, Bool, true, false, not, ◌&&◌, ◌||◌, Option, some, inl, inr, List, [],
  ◌∷◌, arith, if◌then◌else◌, length, Option-cases,
}
use aresdb.Prelude.Int.{ℤ, pos, ltb_ℤ}
use aresdb.MetaStore.{DiskMetaStore, Access, File}
use aresdb.RedoLog.Kafka.{
  KafkaRedoLogManager, new_kafka_redo_log_manager, Event, message, Next, returned, get_file_offset,
  set_recovery_done, count_message, add_message, get_kafka_offsets, ends_at_once, start_iterator,
  take_message, receive, next,
}

-- A message of the offset is beyond the end of recovery.
abbrev pub past : ℤ → ℕ → Bool
past offset_to offset = ltb_ℤ offset_to (pos offset)

module _ {B : Type 0} where
  abbrev pub delivery : ℤ → Bool → ℕ → B → Next B
  delivery offset_to done offset batch = returned (record {
    batch = batch;
    redo_log_file = (get_file_offset offset).0;
    batch_offset = (get_file_offset offset).1;
    recovery = not (done || past offset_to offset);
  })

  -- What the iterator has to return of the messages: each batch under its virtual file and its place
  -- there, as recovered up to the first message that is past the end of recovery.
  abbrev pub deliveries : ℤ → Bool → List (ℕ × B) → List (Next B)
  deliveries offset_to done [] = []
  deliveries offset_to done ((offset, batch) ∷ ms) =
      delivery offset_to done offset batch ∷ deliveries offset_to (done || past offset_to offset) ms

  -- Some message is past the end of recovery.
  abbrev pub any_past : ℤ → List (ℕ × B) → Bool
  any_past offset_to [] = false
  any_past offset_to ((offset, batch) ∷ ms) = past offset_to offset || any_past offset_to ms

pub add_message-manager :
    (fails : Access → File → Bool) (file offset size : ℕ) (s : DiskMetaStore)
    (k : KafkaRedoLogManager)
    → (add_message fails file offset size (s, k)).1 ≡ count_message file offset size k
unfolding add_message
add_message-manager fails file offset size s k = ground arith

module _ {B : Type 0} (fails : Access → File → Bool) (parse : List ℕ → Option B)
    (encode : B → List ℕ) (offset_from offset_to : ℤ) where
  -- One call of the iterator for each message.
  unfoldable pub deliver :
      List (ℕ × B)
      → DiskMetaStore × KafkaRedoLogManager
      → List (Next B) × (DiskMetaStore × KafkaRedoLogManager)
  unfolding next
  deliver [] x = ([], x)
  deliver ((offset, batch) ∷ ms) x =
      let (r, _, x') =
        next fails parse offset_from offset_to (message offset (encode batch) ∷ []) x in
      let (rs, x'') = deliver ms x' in (r ∷ rs, x'')

-- The manager after the test for the end of recovery.
abbrev marked : Bool → KafkaRedoLogManager → KafkaRedoLogManager
marked p k = if not k.recovery_done && p then set_recovery_done k else k

marked-recovery_done :
    (p : Bool) (k : KafkaRedoLogManager) → (marked p k).recovery_done ≡ (k.recovery_done || p)
unfolding set_recovery_done
marked-recovery_done p k = ground arith

marked-consuming : (p : Bool) (k : KafkaRedoLogManager) → (marked p k).consuming ≡ k.consuming
unfolding set_recovery_done
marked-consuming p k = ground arith

and_false : (b : Bool) → (not b && false) ≡ false
and_false b = ground arith

or_false : (b : Bool) → b ≡ (b || false)
or_false b = ground arith

or_assoc : (a b c : Bool) → ((a || b) || c) ≡ (a || (b || c))
or_assoc a b c = ground arith

module _ (file offset size : ℕ) (p : Bool) (k : KafkaRedoLogManager) where
  still_consuming : (count_message file offset size (marked p k)).consuming ≡ k.consuming
  unfolding count_message
  still_consuming = marked-consuming p k

  still_marked :
      (count_message file offset size (marked p k)).recovery_done ≡ (k.recovery_done || p)
  unfolding count_message
  still_marked = marked-recovery_done p k

module _ {B : Type 0} (fails : Access → File → Bool) (parse : List ℕ → Option B)
    (encode : B → List ℕ) (parsed : (b : B) → parse (encode b) ≡ some b)
    (offset_from offset_to : ℤ) where
  -- One message that is received.
  take_message-returned :
      (offset : ℕ) (b : B) (s : DiskMetaStore) (k : KafkaRedoLogManager)
      → let k' = marked (past offset_to offset) k in
        let (file, batch_offset) = get_file_offset offset in
        take_message fails parse offset_from offset_to offset (encode b) (s, k) ≡ (
          returned (record {
            batch = b;
            redo_log_file = file;
            batch_offset = batch_offset;
            recovery = not k'.recovery_done;
          }),
          add_message fails file offset (length (encode b)) (s, k'),
        )
  unfolding take_message
  take_message-returned offset b s k = rw (parsed b, take_message) refl

  module _ (lasts : ends_at_once offset_from offset_to ≡ false) where
    -- One call of the iterator while it consumes.
    next-message :
        (offset : ℕ) (b : B) (s : DiskMetaStore) (k : KafkaRedoLogManager)
        → k.consuming ≡ true
        → next fails parse offset_from offset_to (message offset (encode b) ∷ []) (s, k) ≡ (
            let (r, x') = take_message fails parse offset_from offset_to offset (encode b) (s, k) in
            (r, [], x'))
    unfolding next receive
    next-message offset b s k open' = rw (open', lasts, and_false k.recovery_done) refl

    -- The first of several messages.
    deliver-message :
        (offset : ℕ) (b : B) (ms : List (ℕ × B)) (s : DiskMetaStore) (k : KafkaRedoLogManager)
        → k.consuming ≡ true
        → let x =
            add_message fails
              (get_file_offset offset).0
              offset
              (length (encode b))
              (s, marked (past offset_to offset) k) in
          deliver fails parse encode offset_from offset_to ((offset, b) ∷ ms) (s, k) ≡ (
            let (rs, x') = deliver fails parse encode offset_from offset_to ms x in
            (delivery offset_to k.recovery_done offset b ∷ rs, x'))
    unfolding deliver
    deliver-message offset b ms s k open' =
        let p = past offset_to offset in
        let (file, batch_offset) = get_file_offset offset in
        let x = add_message fails file offset (length (encode b)) (s, marked p k) in
        let taken =
          take_message-returned offset b s k
          ∙ ap
              (λ (d : Bool). (
                returned (record {
                  batch = b;
                  redo_log_file = file;
                  batch_offset = batch_offset;
                  recovery = not d;
                }),
                x,
              ))
              (marked-recovery_done p k) in
        ap
          (λ (n : Next B × List Event × (DiskMetaStore × KafkaRedoLogManager)).
            let (rs, x') = deliver fails parse encode offset_from offset_to ms n.2 in
            (n.0 ∷ rs, x'))
          (next-message offset b s k open'
            ∙ ap (λ (r : Next B × (DiskMetaStore × KafkaRedoLogManager)). (r.0, [], r.1)) taken)

    -- Every message is returned, and recovery ends with the first that is past its end.
    deliver-deliveries :
        (ms : List (ℕ × B)) (s : DiskMetaStore) (k : KafkaRedoLogManager)
        → k.consuming ≡ true
        → let (rs, (s', k')) = deliver fails parse encode offset_from offset_to ms (s, k) in
          (rs ≡ deliveries offset_to k.recovery_done ms)
          × (k'.recovery_done ≡ (k.recovery_done || any_past offset_to ms))
    unfolding deliver
    deliver-deliveries [] s k open' = (refl, or_false k.recovery_done)
    deliver-deliveries ((offset, b) ∷ ms) s k open' =
        let p = past offset_to offset in
        let (file, batch_offset) = get_file_offset offset in
        let x = add_message fails file offset (length (encode b)) (s, marked p k) in
        let counted = add_message-manager fails file offset (length (encode b)) s (marked p k) in
        let ih = deliver-deliveries ms x.0 x.1 (
          ap (λ (m : KafkaRedoLogManager). m.consuming) counted
          ∙ still_consuming file offset (length (encode b)) p k
          ∙ open') in
        let flag : x.1.recovery_done ≡ (k.recovery_done || p) =
          ap (λ (m : KafkaRedoLogManager). m.recovery_done) counted
          ∙ still_marked file offset (length (encode b)) p k in
        let step = deliver-message offset b ms s k open' in
        (
          ap (λ (y : List (Next B) × (DiskMetaStore × KafkaRedoLogManager)). y.0) step
              ∙ ap (λ (rs : List (Next B)). delivery offset_to k.recovery_done offset b ∷ rs)
                  (ih.0 ∙ ap (λ (d : Bool). deliveries offset_to d ms) flag),
          ap (λ (y : List (Next B) × (DiskMetaStore × KafkaRedoLogManager)). y.1.1.recovery_done)
                step
              ∙ ih.1
              ∙ ap (λ (d : Bool). d || any_past offset_to ms) flag
              ∙ or_assoc k.recovery_done p (any_past offset_to ms),
        )

start_iterator-new :
    (fails : Access → File → Bool) (offset_newest : ℤ) (table : String) (shard : ℕ)
    (s : DiskMetaStore) (offsets : ℤ × ℤ) (x : DiskMetaStore × KafkaRedoLogManager)
    → start_iterator fails offset_newest (s, new_kafka_redo_log_manager table shard true)
      ≡ some (offsets, x)
    → (x.1.consuming ≡ true) × (x.1.recovery_done ≡ false)
unfolding start_iterator new_kafka_redo_log_manager
start_iterator-new fails offset_newest table shard s offsets x h =
    let k = new_kafka_redo_log_manager table shard true in
    elim (Option-cases (get_kafka_offsets fails s k)) [
      | inl e ↦ absurd (none-ne-some _ (rw e at h))
      | inr (o, e) ↦
          let same = some_inj.0 (rw e at h) in
          (
            sym (
                ap (λ (y : (ℤ × ℤ) × (DiskMetaStore × KafkaRedoLogManager)). y.1.1.consuming) same),
            sym (
                ap (λ (y : (ℤ × ℤ) × (DiskMetaStore × KafkaRedoLogManager)). y.1.1.recovery_done)
                  same),
          )
    ]

-- The iterator of a new manager that recovers from Kafka, where there is something to recover,
-- returns every message that is a batch, in order, under its virtual file and its place there. The
-- batches are marked as recovered up to the first message beyond the end of recovery, and recovery
-- has ended after some messages exactly if one of them is beyond that offset.
pub deliver-recovers :
    {B : Type 0} (fails : Access → File → Bool) (parse : List ℕ → Option B) (encode : B → List ℕ)
    (offset_newest offset_from offset_to : ℤ) (table : String) (shard : ℕ) (s : DiskMetaStore)
    (x : DiskMetaStore × KafkaRedoLogManager) (ms : List (ℕ × B))
    → ((b : B) → parse (encode b) ≡ some b)
    → start_iterator fails offset_newest (s, new_kafka_redo_log_manager table shard true)
      ≡ some ((offset_from, offset_to), x)
    → ends_at_once offset_from offset_to ≡ false
    → let (rs, (s', k')) = deliver fails parse encode offset_from offset_to ms x in
      (rs ≡ deliveries offset_to false ms) × (k'.recovery_done ≡ any_past offset_to ms)
deliver-recovers fails parse encode offset_newest offset_from offset_to table shard s x ms parsed
      started lasts =
    let (open', recovering) =
      start_iterator-new fails offset_newest table shard s (offset_from, offset_to) x started in
    let all =
      deliver-deliveries fails parse encode parsed offset_from offset_to lasts ms x.0 x.1 open' in
    (
      all.0 ∙ ap (λ (d : Bool). deliveries offset_to d ms) recovering,
      all.1 ∙ ap (λ (d : Bool). d || any_past offset_to ms) recovering,
    )
