-- ===== src/RedoLog/Run.antt =====
-- A run of AppendToRedoLog (redolog/file_redolog_manager.go): the files of the disk are those of the
-- log of its batches.
use aresdb.Prelude.{
  ℕ, suc, ◌+◌, ◌%◌, ◌^◌, ◌<◌, ◌≤◌, ◌≡◌, refl, sym, ap, ◌∙◌, ◌⊎◌, inl, inr, Bool-cases, true, false,
  Option, none, some, List, [], ◌∷◌, ◌++◌, arith, length, ◌==◌, ==_iff,
}
use mathlib.Core.Bool.{false≢true}
use mathlib.Core.List.{append_assoc, append-nil, head-eq_of_cons-eq, tail-eq_of_cons-eq}
use aresdb.Prelude.Dict.{find, find_or, keys}
use aresdb.RedoLog.{Disk, header_bytes, is_open, append_to_redo_log, keeps_file}
use aresdb.RedoLog.Replay.{NextUpsertBatchInfo}
use aresdb.RedoLog.Replay.Files.{LogFile, all_infos, count_all, HasCount}
use aresdb.RedoLog.Log.{
  add_batch, times, AtMost, Ascending, count_in, keys-insert, Ascending-add_batch, AtMost-add_batch,
  AtMost-trans, all_infos-add_batch, count_all-add_batch,
}
use aresdb.RedoLog.Append.{Appends, append-Appends_open, append-Appends_new, keeps_file-is_open}
use aresdb.RedoLog.Logged.{
  Shard, Occurs, Below, AllLogged, AllLogged-new, AllLogged-open, Occurs-tail, Occurs-add_batch,
}

-- The appends at the given times, each with what the batch parses to: what the ingestion knows of
-- the batches, and the state.
unfoldable pub append_all :
    {B : Type 0} → List (ℕ × List ℕ × B) → Shard → List (NextUpsertBatchInfo B) × Shard
append_all [] s = ([], s)
append_all ((now, b, x) ∷ es) s =
    let ((file, offset), s') = append_to_redo_log now b s in
    let (is, s'') = append_all es s' in
    (record { batch = x; redo_log_file = file; batch_offset = offset; recovery = true } ∷ is, s'')

-- A new file is opened only in a later second than the one before.
abbrev pub Timely : {B : Type 0} → List (ℕ × List ℕ × B) → Shard → Type 0
Timely [] s = Unit
Timely ((now, b, x) ∷ es) s =
    ((keeps_file now (length b % 2 ^ 32) s.1 ≡ true) ⊎ (s.1.current_file_creation_time < now))
    × Timely es (append_to_redo_log now b s).1

abbrev pub Parses : {B : Type 0} → (List ℕ → Option B) → List (ℕ × List ℕ × B) → Type 0
Parses parse [] = Unit
Parses parse ((now, b, x) ∷ es) = (length b < 2 ^ 32) × (parse b ≡ some x) × Parses parse es

find_or-none : (t : ℕ) (d : Disk) → find t d ≡ none → find_or [] t d ≡ []
find_or-none t d h = ground arith

module _ {B : Type 0} (parse : List ℕ → Option B) where
  -- The state of a shard whose log is `fs`.
  pub record Logs (fs : List (LogFile B)) (s : Shard) : Type 0 where
    pub listed : keys s.0 ≡ times fs
    pub ascending : Ascending fs
    pub newest : AtMost s.1.current_file_creation_time fs
    pub opened : is_open s.1.current_log_file ≡ true → Occurs s.1.current_file_creation_time fs
    pub logged : AllLogged parse s fs
    pub uncounted :
        (j : ℕ) → s.1.current_file_creation_time < j → find j s.1.batch_count_per_file ≡ none

  Below-AtMost : (t u : ℕ) (fs : List (LogFile B)) → t < u → AtMost t fs → Below u fs
  Below-AtMost t u [] h a = tt
  Below-AtMost t u (f ∷ fs) h a = (omega arith, Below-AtMost t u fs h a.1)

  find-none :
      (t : ℕ) (d : Disk) (fs : List (LogFile B)) → keys d ≡ times fs → Below t fs → find t d ≡ none
  find-none t [] fs e b = refl
  find-none t ((k, v) ∷ d) [] e b = cc
  find-none t ((k, v) ∷ d) (f ∷ fs) e b =
      let later : (k == t) ≡ false = ground (arith, head-eq_of_cons-eq e) in
      rw later (find-none t d fs (tail-eq_of_cons-eq e) b.1)

  count_in-HasCount :
      (t : ℕ) (fs : List (LogFile B)) (s : Shard)
      → Occurs t fs
      → AllLogged parse s fs
      → HasCount (count_in t fs) (find t s.1.batch_count_per_file)
  count_in-HasCount t [] s o l = absurd o
  count_in-HasCount t (f ∷ fs) s o l = elim (Bool-cases (f.time == t)) [
    | inl same ↦ rw same (rw (← (==_iff _ _).0 same) l.0.counted)
    | inr other ↦ rw other (count_in-HasCount t fs s (Occurs-tail t f fs (ground arith) o) l.1)
  ]

  count_in-zero : (t : ℕ) (fs : List (LogFile B)) → Below t fs → count_in t fs ≡ 0
  count_in-zero t [] b = refl
  count_in-zero t (f ∷ fs) b = ground (arith, count_in-zero t fs b.1)

  -- The step of a batch into a file `t`, given that the files are those of the new log.
  Appends-Logs :
      (t : ℕ) (base b : List ℕ) (x : B) (k : ℕ) (fs : List (LogFile B)) (s : Shard)
      (r : (ℕ × ℕ) × Shard)
      → Appends t base b s r
      → s.1.current_file_creation_time ≤ t
      → HasCount k (find t s.1.batch_count_per_file)
      → Logs fs s
      → AllLogged parse r.1 (add_batch t (b, x) fs)
      → Logs (add_batch t (b, x) fs) r.1
  Appends-Logs t base b x k fs s r e le c l files = record {
    listed = rw e.disk (keys-insert t _ (b, x) s.0 fs l.listed);
    ascending = Ascending-add_batch t (b, x) fs l.ascending (AtMost-trans _ t fs le l.newest);
    newest = rw e.current (AtMost-add_batch t (b, x) fs (AtMost-trans _ t fs le l.newest));
    opened = rw e.current (λ _. Occurs-add_batch t (b, x) fs);
    logged = files;
    uncounted =
        rw e.current (λ j h. (e.counts k c).2 j (omega arith) ∙ l.uncounted j (omega arith));
  }

  -- What the caller knows of a batch.
  abbrev told : ℕ × ℕ → B → NextUpsertBatchInfo B
  told (file, offset) x = record {
    batch = x;
    redo_log_file = file;
    batch_offset = offset;
    recovery = true;
  }

  -- One append: the log gets the batch, under the file and the offset that the caller is told.
  record Step (b : List ℕ) (x : B) (fs : List (LogFile B)) (r : (ℕ × ℕ) × Shard) : Type 0 where
    next : List (LogFile B)
    logs : Logs next r.1
    more : all_infos next ≡ all_infos fs ++ told r.0 x ∷ []
    count : count_all next ≡ suc (count_all fs)

  Appends-Step :
      (t : ℕ) (base b : List ℕ) (x : B) (fs : List (LogFile B)) (s : Shard) (r : (ℕ × ℕ) × Shard)
      → Appends t base b s r
      → s.1.current_file_creation_time ≤ t
      → HasCount (count_in t fs) (find t s.1.batch_count_per_file)
      → Logs fs s
      → AllLogged parse r.1 (add_batch t (b, x) fs)
      → Step b x fs r
  Appends-Step t base b x fs s r e le c l files = record {
    next = add_batch t (b, x) fs;
    logs = Appends-Logs t base b x (count_in t fs) fs s r e le c l files;
    more =
        all_infos-add_batch t b x fs l.ascending (AtMost-trans _ t fs le l.newest)
        ∙ rw (e.file, (e.counts (count_in t fs) c).0) refl;
    count = count_all-add_batch t (b, x) fs;
  }

  append-Step :
      (now : ℕ) (b : List ℕ) (x : B) (fs : List (LogFile B)) (s : Shard)
      → length b < 2 ^ 32
      → parse b ≡ some x
      → (keeps_file now (length b % 2 ^ 32) s.1 ≡ true) ⊎ (s.1.current_file_creation_time < now)
      → Logs fs s
      → Step b x fs (append_to_redo_log now b s)
  append-Step now b x fs (disk, m) h p timely l =
      by-cases (Bool-cases (keeps_file now (length b % 2 ^ 32) m)) timely
    where
      by-cases :
          (keeps_file now (length b % 2 ^ 32) m ≡ true)
            ⊎ (keeps_file now (length b % 2 ^ 32) m ≡ false)
          → (keeps_file now (length b % 2 ^ 32) m ≡ true) ⊎ (m.current_file_creation_time < now)
          → Step b x fs (append_to_redo_log now b (disk, m))
      by-cases (inl kept) _ =
          let t = m.current_file_creation_time in
          let o = l.opened (keeps_file-is_open now b disk m kept) in
          let e = append-Appends_open now b disk m kept in
          Appends-Step t (find_or [] t disk) b x fs (disk, m) _ e (omega arith)
            (count_in-HasCount t fs (disk, m) o l.logged) l
            (AllLogged-open parse t x fs _ e h p l.ascending o l.logged)
      by-cases (inr full) (inl kept) = absurd (false≢true (sym full ∙ kept))
      by-cases (inr full) (inr later) =
          let below = Below-AtMost m.current_file_creation_time now fs later l.newest in
          let e = append-Appends_new now b disk m full in
          let fresh = l.uncounted now later in
          let missing = find-none now disk fs l.listed below in
          Appends-Step now (find_or [] now disk ++ header_bytes) b x fs (disk, m) _ e (omega arith)
            (rw (count_in-zero now fs below) fresh) l
            (AllLogged-new parse x fs e
              (ap (λ (bs : List ℕ). bs ++ header_bytes) (find_or-none now disk missing)) h p fresh
              below l.logged)

  pub append_all-Logs :
      (es : List (ℕ × List ℕ × B)) (fs : List (LogFile B)) (s : Shard)
      → Parses parse es
      → Timely es s
      → Logs fs s
      → (fs' : List (LogFile B)) × Logs fs' (append_all es s).1
        × (all_infos fs' ≡ all_infos fs ++ (append_all es s).0)
        × (count_all fs' ≡ count_all fs + length es)
  unfolding append_all
  append_all-Logs [] fs s p t l = (fs, l, sym (append-nil (all_infos fs)), omega arith)
  append_all-Logs ((now, b, x) ∷ es) fs s p t l =
      let st = append-Step now b x fs s p.0 p.1 t.0 l in
      let ih = append_all-Logs es st.next (append_to_redo_log now b s).1 p.2 t.1 st.logs in
      let told_all = (append_all es (append_to_redo_log now b s).1).0 in
      let first = told (append_to_redo_log now b s).0 x in
      (
        ih.0,
        ih.1,
        ih.2
            ∙ ap (λ (is : List (NextUpsertBatchInfo B)). is ++ told_all) st.more
            ∙ append_assoc (all_infos fs) (first ∷ []) told_all,
        omega (arith, ih.3, st.count),
      )
