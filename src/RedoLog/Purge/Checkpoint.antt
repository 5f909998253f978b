-- ===== src/RedoLog/Purge/Checkpoint.antt =====
-- CheckpointRedolog (redolog/file_redolog_manager.go): which files it deletes, and which it keeps.
use mathlib.Core.Bool.{false≢true}
use native.Mathlib.Decide.{ℕ_discrete}
use aresdb.Prelude.{
  Option-cases, ℕ, ◌≡◌, ◌≢◌, ◌⊎◌, inl, inr, refl, sym, ap, ◌∙◌, Bool, true, false, none, List, [],
  ◌∷◌, arith, Bool-cases,
}
use aresdb.Prelude.Dict.{Dict, find, find-erase, erase}
use aresdb.RedoLog.{Disk, FileRedoLogManager, delete_log_file}
use aresdb.RedoLog.Purge.{
  files_to_purge, get_redo_log_files_to_purge, evict_redo_log_data, purge_files, checkpoint_redolog,
}
use aresdb.RedoLog.Purge.Listed.{
  Contains, IsPurgeable, IsKept, map_both, map_right, Contains-Purged, Purged-Contains, purgeable,
  IsPurgeable-may_purge,
}

-- Neither the disk nor the manager knows the file.
abbrev pub IsGone : ℕ → Disk × FileRedoLogManager → Type 0
IsGone time (disk, m) =
    (find time disk ≡ none)
    × (find time m.max_event_time_per_file ≡ none)
    × (find time m.batch_count_per_file ≡ none)
    × (find time m.size_per_file ≡ none)

find-erase-none :
    {V : Type 0} (j t : ℕ) (d : Dict V) → (t ≡ j) ⊎ (find j d ≡ none) → find j (erase t d) ≡ none
find-erase-none j t d (inl same) = find-erase j t d ∙ ground arith
find-erase-none j t d (inr gone) = find-erase j t d ∙ ground arith

find-erase_ne : {V : Type 0} (j t : ℕ) (d : Dict V) → t ≢ j → find j (erase t d) ≡ find j d
find-erase_ne j t d h = find-erase j t d ∙ ground arith

module _ (fails : ℕ → Bool) where
  purged_one : ℕ → Disk × FileRedoLogManager → Disk × FileRedoLogManager
  purged_one t (disk, m) = (erase t disk, evict_redo_log_data t m)

  -- A round stops with an error, or goes on without the file.
  purge_files-step :
      (t : ℕ) (ts : List ℕ) (s : Disk × FileRedoLogManager)
      → (purge_files fails (t ∷ ts) s ≡ (false, s))
        ⊎ (purge_files fails (t ∷ ts) s ≡ purge_files fails ts (purged_one t s))
  unfolding purge_files delete_log_file purged_one
  purge_files-step t ts (disk, m) = elim (Bool-cases (fails t)) [
    | inl fail ↦ inl (rw fail refl)
    | inr deleted ↦ elim (Option-cases (find t disk)) [
      | inl missing ↦ inl (rw (deleted, missing) refl)
      | inr (bytes, there) ↦ inr (rw (deleted, there) refl)
    ]
  ]

  purged_one-IsGone :
      (j t : ℕ) (s : Disk × FileRedoLogManager) → (t ≡ j) ⊎ IsGone j s → IsGone j (purged_one t s)
  unfolding purged_one evict_redo_log_data
  purged_one-IsGone j t (disk, m) (inl same) = (
    find-erase-none j t disk (inl same),
    find-erase-none j t m.max_event_time_per_file (inl same),
    find-erase-none j t m.batch_count_per_file (inl same),
    find-erase-none j t m.size_per_file (inl same),
  )
  purged_one-IsGone j t (disk, m) (inr gone) = (
    find-erase-none j t disk (inr gone.0),
    find-erase-none j t m.max_event_time_per_file (inr gone.1),
    find-erase-none j t m.batch_count_per_file (inr gone.2),
    find-erase-none j t m.size_per_file (inr gone.3),
  )

  purged_one-IsKept :
      (j t : ℕ) (s : Disk × FileRedoLogManager) → t ≢ j → IsKept j s (purged_one t s)
  unfolding purged_one evict_redo_log_data
  purged_one-IsKept j t (disk, m) h = (
    find-erase_ne j t disk h,
    find-erase_ne j t m.max_event_time_per_file h,
    find-erase_ne j t m.batch_count_per_file h,
    find-erase_ne j t m.size_per_file h,
  )

  IsKept-trans :
      (j : ℕ) (s t u : Disk × FileRedoLogManager) → IsKept j s t → IsKept j t u → IsKept j s u
  IsKept-trans j (d, m) (d', m') (d'', m'') k l = (l.0 ∙ k.0, l.1 ∙ k.1, l.2 ∙ k.2, l.3 ∙ k.3)

  IsKept-refl : (j : ℕ) (s : Disk × FileRedoLogManager) → IsKept j s s
  IsKept-refl j (d, m) = (refl, refl, refl, refl)

  IsGone-purge_files :
      (j : ℕ) (ts : List ℕ) (s : Disk × FileRedoLogManager)
      → IsGone j s
      → IsGone j (purge_files fails ts s).1
  unfolding purge_files
  IsGone-purge_files j [] s h = h
  IsGone-purge_files j (t ∷ ts) s h = elim (purge_files-step t ts s) [
    | inl stop ↦ rw stop h
    | inr go ↦ rw go (IsGone-purge_files j ts (purged_one t s) (purged_one-IsGone j t s (inr h)))
  ]

  -- A file is left as it was, or is of the list and has been purged.
  purge_files-cases :
      (j : ℕ) (ts : List ℕ) (s : Disk × FileRedoLogManager)
      → IsKept j s (purge_files fails ts s).1
        ⊎ (Contains j ts × IsGone j (purge_files fails ts s).1)
  unfolding purge_files
  purge_files-cases j [] s = inl (IsKept-refl j s)
  purge_files-cases j (t ∷ ts) s = elim (purge_files-step t ts s) [
    | inl stop ↦ rw stop (inl (IsKept-refl j s))
    | inr go ↦ rw go (elim (ℕ_discrete t j) [
      | yes same ↦
          inr (
            inl same,
            IsGone-purge_files j ts (purged_one t s) (purged_one-IsGone j t s (inl same)),
          )
      | no other ↦
          map_both
            (IsKept-trans j s (purged_one t s) (purge_files fails ts (purged_one t s)).1
              (purged_one-IsKept j t s other))
            (λ rest. (inr rest.0, rest.1)) (purge_files-cases j ts (purged_one t s))
    ])
  ]

  -- A run without an error purges all of the list.
  purge_files-purges :
      (j : ℕ) (ts : List ℕ) (s : Disk × FileRedoLogManager)
      → (purge_files fails ts s).0 ≡ true
      → Contains j ts
      → IsGone j (purge_files fails ts s).1
  purge_files-purges j [] s ok c = absurd c
  purge_files-purges j (t ∷ ts) s ok (inl same) = elim (purge_files-step t ts s) [
    | inl stop ↦
        absurd (false≢true (ap (λ (r : Bool × (Disk × FileRedoLogManager)). r.0) (sym stop) ∙ ok))
    | inr go ↦ rw go (IsGone-purge_files j ts (purged_one t s) (purged_one-IsGone j t s (inl same)))
  ]
  purge_files-purges j (t ∷ ts) s ok (inr c) = elim (purge_files-step t ts s) [
    | inl stop ↦
        absurd (false≢true (ap (λ (r : Bool × (Disk × FileRedoLogManager)). r.0) (sym stop) ∙ ok))
    | inr go ↦ rw go (purge_files-purges j ts (purged_one t s) (rw go at ok) c)
  ]

-- CheckpointRedolog leaves a file and what the manager knows of it as they were, or the file may
-- be purged, and then neither the disk nor the manager has it any more. A file may be purged if it
-- is older than the current one, or none is current, its events are before the cutoff, and its
-- batches are checkpointed: it is older than the checkpointed file, or it is that file and its
-- count is one more than the offset. If the call succeeds, it has purged every such file.
pub checkpoint_redolog-cases :
    (fails : ℕ → Bool) (cutoff checkpointed batch_offset time : ℕ) (disk : Disk)
    (m : FileRedoLogManager)
    → let (succeeded, s) = checkpoint_redolog fails cutoff checkpointed batch_offset (disk, m) in
      (IsKept time (disk, m) s
        ⊎ (IsPurgeable cutoff checkpointed batch_offset m time × IsGone time s))
      × (succeeded ≡ true → IsPurgeable cutoff checkpointed batch_offset m time → IsGone time s)
unfolding checkpoint_redolog get_redo_log_files_to_purge
checkpoint_redolog-cases fails cutoff checkpointed batch_offset time disk m =
    let ts = files_to_purge cutoff checkpointed batch_offset m m.max_event_time_per_file in
    (
      map_right
          (λ rest. (
            purgeable cutoff checkpointed batch_offset m time (
                Contains-Purged cutoff checkpointed batch_offset m time m.max_event_time_per_file
                  rest.0),
            rest.1,
          ))
          (purge_files-cases fails time ts (disk, m)),
      λ ok p.
          purge_files-purges fails time ts (disk, m) ok
            (Purged-Contains cutoff checkpointed batch_offset m time p.max_event_time
              m.max_event_time_per_file p.entry
              (IsPurgeable-may_purge cutoff checkpointed batch_offset m time p)),
    )
