-- ===== src/RedoLog/Kafka/Checkpoint.antt =====
-- redolog/kafka_redolog_manager.go: what CheckpointRedolog keeps, and the offset that it stores.
use Prim.Native.String.{String}
use mathlib.Core.Option.{none-ne-some, some_inj}
use aresdb.Prelude.{
  ℕ, ◌/◌, ◌<◌, ◌≤◌, ◌≡◌, ◌≢◌, ==_iff, ◌⊎◌, inl, inr, refl, sym, ap, ◌∙◌, Bool, true, false, ◌&&◌,
  Option, none, some, [], ◌∷◌, arith, ltb, ◌==◌, if◌then◌else◌, Bool-cases, Option-cases,
}
use aresdb.Prelude.Dict.{Dict, find, find_or, insert, find_or-insert, find-erase}
use aresdb.MetaStore.{
  DiskMetaStore, TableDir, Access, File, ok, err, io_failure, make_dir, write, dir_of, shard_file,
  checkpoint_offset, access, make_dir_all, update_dir,
}
use aresdb.MetaStore.{insert as insert_dir}
use aresdb.MetaStore.Actions.{dir_of-insert}
use aresdb.MetaStore.Shards.{update_redo_log_checkpoint_offset}
use aresdb.RedoLog.Kafka.{
  KafkaRedoLogManager, max_batches_per_file, is_needed, is_before, first_needed, forget,
  forget_before, checkpoint_redolog,
}

module _ (cutoff checkpointed batch_offset : ℕ) where
  -- A file that has been found so far bounds the result.
  first_needed-le :
      (files : Dict ℕ) (best : ℕ)
      → (g : ℕ) × (first_needed cutoff checkpointed batch_offset files (some best) ≡ some g)
        × (g ≤ best)
  unfolding first_needed is_before
  first_needed-le [] best = (best, refl, omega arith)
  first_needed-le ((file, t) ∷ files) best =
      elim (Bool-cases (is_needed cutoff checkpointed batch_offset file t)) [
        | inr free ↦ rw free (first_needed-le files best)
        | inl needed ↦ elim (Bool-cases (ltb file best)) [
          | inl less ↦
              let (g, e, b) = first_needed-le files file in rw needed (rw less (g, e, ground arith))
          | inr more ↦ rw needed (rw more (first_needed-le files best))
        ]
      ]

  picked :
      (file : ℕ) (best : Option ℕ)
      → (b : ℕ) × ((if true && is_before file best then some file else best) ≡ some b) × (b ≤ file)
  unfolding is_before
  picked file none = (file, refl, omega arith)
  picked file (some best) = elim (Bool-cases (ltb file best)) [
    | inl less ↦ (file, rw less refl, omega arith)
    | inr more ↦ (best, rw more refl, ground arith)
  ]

  -- The result is at most each file that has to stay.
  first_needed-bound :
      (files : Dict ℕ) (best : Option ℕ) (f t : ℕ)
      → find f files ≡ some t
      → is_needed cutoff checkpointed batch_offset f t ≡ true
      → (g : ℕ) × (first_needed cutoff checkpointed batch_offset files best ≡ some g) × (g ≤ f)
  unfolding first_needed
  first_needed-bound [] best f t h needed = absurd (none-ne-some _ h)
  first_needed-bound ((file, u) ∷ files) best f t h needed = elim (Bool-cases (file == f)) [
    | inr other ↦ first_needed-bound files _ f t (rw other at h) needed
    | inl same ↦
        let at_f : file ≡ f = ground arith in
        let at_t : u ≡ t = some_inj.0 (rw same at h) in
        let (b, e, le) = picked file best in
        let (g, e', le') = first_needed-le files b in
        rw (at_f, at_t, needed) (rw (← at_f) (rw e (g, e', omega arith)))
  ]

-- The maps of a manager without the files before `first`.
module _ (first : ℕ) where
  abbrev pub has : ℕ → Dict ℕ → Bool
  has f files = elim (find f files) [ none ↦ false | some _ ↦ true ]

  pub forget_before-find :
      (files : Dict ℕ) (k : KafkaRedoLogManager) (f : ℕ)
      → let k' = forget_before first files k in
        let gone = ltb f first && has f files in
        (find f k'.max_event_time_per_file
          ≡ (if gone then none else find f k.max_event_time_per_file))
        × (find f k'.first_kafka_offset_per_file
            ≡ (if gone then none else find f k.first_kafka_offset_per_file))
  unfolding forget_before forget
  forget_before-find [] k f = ground arith
  forget_before-find ((file, t) ∷ files) k f =
      let m = find-erase f file k.max_event_time_per_file in
      let o = find-erase f file k.first_kafka_offset_per_file in
      elim (Bool-cases (ltb file first)) [
        | inr stays ↦
            let ih = forget_before-find files k f in
            rw (stays, forget_before) (ground arith, ground arith)
        | inl goes ↦
            let ih = forget_before-find files (forget file k) f in
            rw (goes, forget_before) (ground arith, ground arith)
      ]

-- The checkpoint offset that the meta store keeps of a shard.
abbrev pub stored_offset : String → ℕ → DiskMetaStore → ℕ
stored_offset table shard s = find_or 0 shard (dir_of table s).checkpoint_offsets

pub find_or-insert_self : (k v : ℕ) (d : Dict ℕ) → find_or 0 k (insert k v d) ≡ v
find_or-insert_self k v d = find_or-insert 0 v k k d ∙ rw ((==_iff k k).1 refl) refl

-- The update fails, or the offset is stored.
pub saved :
    (fails : Access → File → Bool) (table : String) (shard offset : ℕ) (s : DiskMetaStore)
    → let (r, s') = update_redo_log_checkpoint_offset fails table shard offset s in
      (r ≡ err io_failure) ⊎ (r ≡ ok tt) × (stored_offset table shard s' ≡ offset)
unfolding update_redo_log_checkpoint_offset make_dir_all access update_dir
saved fails table shard offset s =
    let file = shard_file table shard checkpoint_offset in
    elim (Bool-cases (fails make_dir file)) [
      | inl refused ↦ rw refused (inl refl)
      | inr made ↦ elim (Bool-cases (fails write file)) [
        | inl refused ↦ rw made (rw refused (inl refl))
        | inr written ↦
            let d = dir_of table s in
            let s1 = record s { tables = insert_dir table d s.tables } in
            let d1 = dir_of table s1 in
            rw made (
              rw written (
                inr (
                  refl,
                  ap (λ (x : TableDir). find_or 0 shard x.checkpoint_offsets)
                        (dir_of-insert table
                          (record d1 {
                            checkpoint_offsets = insert shard offset d1.checkpoint_offsets;
                          })
                          s1)
                      ∙ find_or-insert_self shard offset d1.checkpoint_offsets,
                )))
      ]
    ]

-- Each file with an event time has a first offset, and the first offset of a file lies in it.
pub record IsConsistent (k : KafkaRedoLogManager) : Type 0 where
  pub known :
      (f t : ℕ)
      → find f k.max_event_time_per_file ≡ some t
      → (o : ℕ) × (find f k.first_kafka_offset_per_file ≡ some o)
  pub placed :
      (f o : ℕ) → find f k.first_kafka_offset_per_file ≡ some o → o / max_batches_per_file ≡ f

-- A file that has to stay: it has events from the cutoff on, or is not checkpointed to its end.
abbrev pub Needed : ℕ → ℕ → ℕ → ℕ → ℕ → Type 0
Needed cutoff checkpointed batch_offset f t =
    (cutoff ≤ t) ⊎ (checkpointed < f) ⊎ (f ≡ checkpointed) × (batch_offset ≢ 4999)

is_needed-Needed :
    (cutoff checkpointed batch_offset f t : ℕ)
    → Needed cutoff checkpointed batch_offset f t
    → is_needed cutoff checkpointed batch_offset f t ≡ true
unfolding is_needed
is_needed-Needed cutoff checkpointed batch_offset f t (inl h) = ground arith
is_needed-Needed cutoff checkpointed batch_offset f t (inr (inl h)) = ground arith
is_needed-Needed cutoff checkpointed batch_offset f t (inr (inr h)) = ground arith

first-le : (g f og of : ℕ) → g ≤ f → og / 5000 ≡ g → of / 5000 ≡ f → (g ≡ f → og ≡ of) → og ≤ of
first-le g f og of le hg hf same = elim (Bool-cases (g == f)) [
  | inl e ↦ let h : og ≡ of = same (ground arith) in omega arith
  | inr e ↦ let h : g < f = ground arith in omega arith
]

not_before : (g f : ℕ) → g ≤ f → ltb f g ≡ false
not_before g f h = ground arith

-- The first offset of a file is at most that of a later one.
least_offset :
    (k : KafkaRedoLogManager)
    → IsConsistent k
    → (g f o : ℕ) → g ≤ f
    → find f k.first_kafka_offset_per_file ≡ some o
    → find_or 0 g k.first_kafka_offset_per_file ≤ o
least_offset k c g f o le at_f = elim (Option-cases (find g k.first_kafka_offset_per_file)) [
  | inl e ↦ rw (e, find_or) (omega arith)
  | inr (og, e) ↦
      rw (e, find_or)
        (first-le g f og o le (c.placed g og e) (c.placed f o at_f)
          (λ same. some_inj.0 (sym e ∙ rw same at_f)))
]

module _ (fails : Access → File → Bool) (cutoff checkpointed batch_offset : ℕ) where
  -- CheckpointRedolog of a consistent manager, for a file that has to stay.
  pub checkpoint_redolog-keeps_file :
      (s : DiskMetaStore) (k : KafkaRedoLogManager)
      → IsConsistent k
      → (f t : ℕ) → find f k.max_event_time_per_file ≡ some t
      → Needed cutoff checkpointed batch_offset f t
      → let (done, (s', k')) = checkpoint_redolog fails cutoff checkpointed batch_offset (s, k) in
        (find f k'.max_event_time_per_file ≡ some t)
        × (find f k'.first_kafka_offset_per_file ≡ find f k.first_kafka_offset_per_file)
        × ((done ≡ false)
            ⊎ (o : ℕ) × (find f k.first_kafka_offset_per_file ≡ some o)
              × (stored_offset k.table_name k.shard s' ≤ o))
  unfolding checkpoint_redolog
  checkpoint_redolog-keeps_file s k c f t there needed =
      let (g, least, le) =
        first_needed-bound cutoff checkpointed batch_offset k.max_event_time_per_file none f t there
          (is_needed-Needed cutoff checkpointed batch_offset f t needed) in
      let (o, at_f) = c.known f t there in
      let offset = find_or 0 g k.first_kafka_offset_per_file in
      let kept = forget_before-find g k.max_event_time_per_file k f in
      elim (saved fails k.table_name k.shard offset s) [
        | inl e ↦
            rw (least, checkpoint_redolog) (rw (e, checkpoint_redolog) (there, refl, inl refl))
        | inr (e, st) ↦
            rw (least, checkpoint_redolog)
              (rw (e, checkpoint_redolog)
                (
                  kept.0 ∙ rw (not_before g f le) there,
                  kept.1 ∙ rw (not_before g f le) refl,
                  inr (o, at_f, rw st (least_offset k c g f o le at_f)),
                ))
      ]
