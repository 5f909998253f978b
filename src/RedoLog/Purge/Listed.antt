-- ===== src/RedoLog/Purge/Listed.antt =====
-- getRedoLogFilesToPurge (redolog/file_redolog_manager.go): the files of the list are those that
-- may be purged.
use mathlib.Core.Bool.{false≢true}
use aresdb.Prelude.{
  ltb→lt, ◌&&◌, ℕ, ◌+◌, ◌%◌, ◌^◌, ◌<◌, ◌≡◌, ◌⊎◌, inl, inr, refl, sym, ap, ◌∙◌, Bool, true, false,
  ◌||◌, List, [], ◌∷◌, ◌==◌, ==_iff, arith, Bool-cases,
}
use aresdb.Prelude.Dict.{Dict, find, find_or}
use aresdb.RedoLog.{Disk, FileRedoLogManager}
use aresdb.RedoLog.Purge.{may_purge, files_to_purge}

abbrev pub Contains : ℕ → List ℕ → Type 0
Contains j [] = ⊥
Contains j (k ∷ ks) = (k ≡ j) ⊎ Contains j ks

-- The map has this entry.
abbrev pub Entry : {V : Type 0} → ℕ → V → Dict V → Type 0
Entry j v [] = ⊥
Entry j v ((k, w) ∷ d) = ((k ≡ j) × (w ≡ v)) ⊎ Entry j v d

-- A file that is not the current one, all of whose events are before the cutoff, and all of whose
-- batches have been checkpointed.
pub record IsPurgeable (cutoff checkpointed batch_offset : ℕ) (m : FileRedoLogManager) (time : ℕ)
    : Type 0 where
  pub max_event_time : ℕ
  pub entry : Entry time max_event_time m.max_event_time_per_file
  pub old : (time < m.current_file_creation_time) ⊎ (m.current_file_creation_time ≡ 0)
  pub archived : max_event_time < cutoff
  pub done :
      (time < checkpointed)
      ⊎ ((time ≡ checkpointed)
          × (find_or 0 checkpointed m.batch_count_per_file ≡ (batch_offset + 1) % 2 ^ 32))

-- The file and what the manager knows of it are as before.
abbrev pub IsKept : ℕ → Disk × FileRedoLogManager → Disk × FileRedoLogManager → Type 0
IsKept time (disk, m) (disk', m') =
    (find time disk' ≡ find time disk)
    × (find time m'.max_event_time_per_file ≡ find time m.max_event_time_per_file)
    × (find time m'.batch_count_per_file ≡ find time m.batch_count_per_file)
    × (find time m'.size_per_file ≡ find time m.size_per_file)

and_split : (p q : Bool) → (p && q) ≡ true → (p ≡ true) × (q ≡ true)
and_split true q h = (refl, h)
and_split false q h = absurd (false≢true h)

or_split : (p q : Bool) → (p || q) ≡ true → (p ≡ true) ⊎ (q ≡ true)
or_split true q h = inl refl
or_split false q h = inr h

pub map_both : {A B P Q : Type 0} → (A → B) → (P → Q) → A ⊎ P → B ⊎ Q
map_both f g (inl a) = inl (f a)
map_both f g (inr p) = inr (g p)

pub map_right : {A P Q : Type 0} → (P → Q) → A ⊎ P → A ⊎ Q
map_right f = map_both (λ a. a) f

both_equal : {a b c d : ℕ} → (a == b && c == d) ≡ true → (a ≡ b) × (c ≡ d)
both_equal h = let s = and_split _ _ h in ((==_iff _ _).0 s.0, (==_iff _ _).0 s.1)

module _ (cutoff checkpointed batch_offset : ℕ) (m : FileRedoLogManager) where
  abbrev pub Purged : ℕ → Dict ℕ → Type 0
  Purged j entries =
      (e : ℕ) × Entry j e entries × (may_purge cutoff checkpointed batch_offset m j e ≡ true)

  Purged-skip : (j k e : ℕ) (entries : Dict ℕ) → Purged j entries → Purged j ((k, e) ∷ entries)
  Purged-skip j k e entries (x, entry, purged) = (x, inr entry, purged)

  Purged-entry :
      (j k e : ℕ) (entries : Dict ℕ)
      → may_purge cutoff checkpointed batch_offset m k e ≡ true
      → (k ≡ j) ⊎ Purged j entries
      → Purged j ((k, e) ∷ entries)
  Purged-entry j k e entries purged (inl same) = (
    e,
    inl (same, refl),
    ap (λ (t : ℕ). may_purge cutoff checkpointed batch_offset m t e) (sym same) ∙ purged,
  )
  Purged-entry j k e entries purged (inr p) = Purged-skip j k e entries p

  Contains-head : (j k : ℕ) (ks : List ℕ) → Contains j (k ∷ ks) → (k ≡ j) ⊎ Contains j ks
  Contains-head j k ks c = c

  -- A file of the list is one of the map that may be purged, and the other way round.
  pub Contains-Purged :
      (j : ℕ) (entries : Dict ℕ)
      → Contains j (files_to_purge cutoff checkpointed batch_offset m entries)
      → Purged j entries
  unfolding files_to_purge
  Contains-Purged j [] c = absurd c
  Contains-Purged j ((k, e) ∷ entries) c =
      elim (Bool-cases (may_purge cutoff checkpointed batch_offset m k e)) [
        | inl purged ↦
            Purged-entry j k e entries purged
              (map_right (Contains-Purged j entries) (rw purged at c))
        | inr kept ↦ Purged-skip j k e entries (Contains-Purged j entries (rw kept at c))
      ]

  pub Purged-Contains :
      (j e : ℕ) (entries : Dict ℕ)
      → Entry j e entries
      → may_purge cutoff checkpointed batch_offset m j e ≡ true
      → Contains j (files_to_purge cutoff checkpointed batch_offset m entries)
  unfolding files_to_purge
  Purged-Contains j e [] h p = absurd h
  Purged-Contains j e ((k, w) ∷ entries) (inl same) p =
      rw
        (ap (λ (t : ℕ). may_purge cutoff checkpointed batch_offset m t w) same.0
          ∙ ap (may_purge cutoff checkpointed batch_offset m j) same.1
          ∙ p)
        (inl same.0)
  Purged-Contains j e ((k, w) ∷ entries) (inr h) p =
      elim (Bool-cases (may_purge cutoff checkpointed batch_offset m k w)) [
        | inl purged ↦ rw purged (inr (Purged-Contains j e entries h p))
        | inr kept ↦ rw kept (Purged-Contains j e entries h p)
      ]

  pub purgeable :
      (j : ℕ)
      → Purged j m.max_event_time_per_file
      → IsPurgeable cutoff checkpointed batch_offset m j
  unfolding may_purge
  purgeable j (e, entry, purged) = record {
    max_event_time = e;
    entry = entry;
    old =
        map_both (ltb→lt _ _) ((==_iff _ _).0)
          (or_split _ _ (and_split _ _ (and_split _ _ purged).0).0);
    archived = ltb→lt _ _ (and_split _ _ (and_split _ _ purged).0).1;
    done = map_both (ltb→lt _ _) both_equal (or_split _ _ (and_split _ _ purged).1);
  }

pub IsPurgeable-may_purge :
    (cutoff checkpointed batch_offset : ℕ) (m : FileRedoLogManager) (time : ℕ)
    (p : IsPurgeable cutoff checkpointed batch_offset m time)
    → may_purge cutoff checkpointed batch_offset m time p.max_event_time ≡ true
unfolding may_purge
IsPurgeable-may_purge cutoff checkpointed batch_offset m time p = by-cases p.old p.done p.archived
  where
    by-cases :
        (time < m.current_file_creation_time) ⊎ (m.current_file_creation_time ≡ 0)
        → (time < checkpointed)
          ⊎ ((time ≡ checkpointed)
              × (find_or 0 checkpointed m.batch_count_per_file ≡ (batch_offset + 1) % 2 ^ 32))
        → p.max_event_time < cutoff
        → may_purge cutoff checkpointed batch_offset m time p.max_event_time ≡ true
    by-cases (inl a) (inl b) h = ground arith
    by-cases (inl a) (inr b) h = ground arith
    by-cases (inr a) (inl b) h = ground arith
    by-cases (inr a) (inr b) h = ground arith
