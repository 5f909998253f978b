-- ===== src/RedoLog/Logged.antt =====
-- AppendToRedoLog (redolog/file_redolog_manager.go) keeps the files of the disk those of the log.
use mathlib.Core.List.{append_assoc, append-nil}
use mathlib.Core.Path.{subst}
use aresdb.Prelude.{
  ℕ, suc, ◌^◌, ◌<◌, ◌≡◌, ◌≢◌, refl, sym, ap, ◌∙◌, ◌⊎◌, inl, inr, Bool-cases, false, Option, some,
  List, [], ◌∷◌, ◌++◌, arith, length, length-append, ◌==◌, ==_iff,
}
use aresdb.Prelude.Dict.{find, find_or, find-insert}
use aresdb.RedoLog.{Disk, FileRedoLogManager, record_bytes, header_bytes}
use aresdb.RedoLog.Replay.Files.{LogFile, records, file_bytes, Readable, HasCount}
use aresdb.RedoLog.Log.{add_batch, Above, Ascending}
use aresdb.RedoLog.Append.{Appends}

module _ {B : Type 0} where
  abbrev pub Occurs : ℕ → List (LogFile B) → Type 0
  Occurs time [] = ⊥
  Occurs time (f ∷ fs) = (f.time ≡ time) ⊎ Occurs time fs

  abbrev pub Below : ℕ → List (LogFile B) → Type 0
  Below time [] = Unit
  Below time (f ∷ fs) = (f.time < time) × Below time fs

  records-append :
      (bs : List (List ℕ × B)) (b : List ℕ) (x : B)
      → records (bs ++ (b, x) ∷ []) ≡ records bs ++ record_bytes b
  unfolding records
  records-append [] b x = append-nil (record_bytes b)
  records-append ((c, y) ∷ bs) b x =
      ap (λ (rs : List ℕ). record_bytes c ++ rs) (records-append bs b x)
      ∙ sym (append_assoc (record_bytes c) (records bs) (record_bytes b))

  pub Occurs-add_batch :
      (t : ℕ) (b : List ℕ × B) (fs : List (LogFile B)) → Occurs t (add_batch t b fs)
  unfolding add_batch
  Occurs-add_batch t b [] = inl refl
  Occurs-add_batch t b (f ∷ fs) = elim (Bool-cases (f.time == t)) [
    | inl same ↦ rw same (inl ((==_iff _ _).0 same))
    | inr other ↦ rw other (inr (Occurs-add_batch t b fs))
  ]

module _ {B : Type 0} (parse : List ℕ → Option B) where
  Readable-append :
      (bs : List (List ℕ × B)) (b : List ℕ) (x : B)
      → Readable parse bs
      → length b < 2 ^ 32
      → parse b ≡ some x
      → Readable parse (bs ++ (b, x) ∷ [])
  Readable-append [] b x r h p = (h, p, tt)
  Readable-append ((c, y) ∷ bs) b x r h p = (r.0, r.1, Readable-append bs b x r.2 h p)

  -- A file of the log as it stands on disk, with its count.
  pub record Logged (s : Disk × FileRedoLogManager) (f : LogFile B) : Type 0 where
    pub stored : find f.time s.0 ≡ some (file_bytes f)
    pub readable : Readable parse f.buffers
    pub whole : f.tail ≡ []
    pub uncut : f.cut ≡ false
    pub counted : HasCount (length f.buffers) (find f.time s.1.batch_count_per_file)

  abbrev pub AllLogged : Disk × FileRedoLogManager → List (LogFile B) → Type 0
  AllLogged s [] = Unit
  AllLogged s (f ∷ fs) = Logged s f × AllLogged s fs

-- The disk and the manager, and what AppendToRedoLog returns with them.
abbrev pub Shard : Type 0
Shard = Disk × FileRedoLogManager

abbrev pub Outcome : Type 0
Outcome = (ℕ × ℕ) × Shard

appended-bytes :
    {B : Type 0} (b : List ℕ) (x : B) (f : LogFile B) (base : List ℕ)
    → base ≡ file_bytes f
    → f.tail ≡ []
    → base ++ record_bytes b ≡ file_bytes (record f { buffers = f.buffers ++ (b, x) ∷ [] })
unfolding file_bytes
appended-bytes b x f base e w = simp (e, w, records-append f.buffers b x, append_assoc, append-nil)

pub Appends-find :
    (t : ℕ) (base b : List ℕ) (s : Shard) (r : Outcome)
    → Appends t base b s r
    → find t r.1.0 ≡ some (base ++ record_bytes b)
Appends-find t base b s r e =
    ap (find t) e.disk ∙ find-insert t t (base ++ record_bytes b) s.0 ∙ ground arith

module _ {B : Type 0} (parse : List ℕ → Option B) {t : ℕ} {base b : List ℕ} {s : Shard} where
  -- The counts of the other files stay.
  Logged-other :
      (k : ℕ) (f : LogFile B) {r : Outcome}
      → Appends t base b s r
      → HasCount k (find t s.1.batch_count_per_file)
      → t ≢ f.time
      → Logged parse s f
      → Logged parse r.1 f
  Logged-other k f e c d l = record {
    stored = ap (find f.time) e.disk ∙ find-insert f.time t _ s.0 ∙ ground (arith, l.stored);
    readable = l.readable;
    whole = l.whole;
    uncut = l.uncut;
    counted = rw ((e.counts k c).2 f.time d) l.counted;
  }

  AllLogged-Above :
      (k : ℕ) (fs : List (LogFile B)) {r : Outcome}
      → Appends t base b s r
      → HasCount k (find t s.1.batch_count_per_file)
      → Above t fs
      → AllLogged parse s fs
      → AllLogged parse r.1 fs
  AllLogged-Above k [] e c a l = tt
  AllLogged-Above k (f ∷ fs) e c a l =
      (Logged-other k f e c (ground arith) l.0, AllLogged-Above k fs e c a.1 l.1)

  -- A new file, which comes after all others.
  pub AllLogged-new :
      (x : B) (fs : List (LogFile B)) {r : Outcome}
      → Appends t base b s r
      → base ≡ header_bytes
      → length b < 2 ^ 32
      → parse b ≡ some x
      → HasCount 0 (find t s.1.batch_count_per_file)
      → Below t fs
      → AllLogged parse s fs
      → AllLogged parse r.1 (add_batch t (b, x) fs)
  unfolding add_batch file_bytes records
  AllLogged-new x [] e empty h p c a l = (
    record {
      stored =
          Appends-find t base b s _ e
          ∙ rw (empty, append-nil (record_bytes b), append-nil (record_bytes b)) refl;
      readable = (h, p, tt);
      whole = refl;
      uncut = refl;
      counted = (e.counts 0 c).1;
    },
    tt,
  )
  AllLogged-new x (f ∷ fs) e empty h p c a l =
      let other : (f.time == t) ≡ false = ground arith in
      rw other (Logged-other 0 f e c (ground arith) l.0, AllLogged-new x fs e empty h p c a.1 l.1)

module _ {B : Type 0} where
  pub Occurs-tail :
      (t : ℕ) (f : LogFile B) (fs : List (LogFile B)) → f.time ≢ t → Occurs t (f ∷ fs) → Occurs t fs
  Occurs-tail t f fs ne (inl u) = absurd (ne u)
  Occurs-tail t f fs ne (inr o) = o

module _ {B : Type 0} (parse : List ℕ → Option B) where
  AllLogged-count :
      (s : Shard) (t : ℕ) (fs : List (LogFile B))
      → Occurs t fs
      → AllLogged parse s fs
      → (k : ℕ) × HasCount k (find t s.1.batch_count_per_file)
  AllLogged-count s t [] o l = absurd o
  AllLogged-count s t (f ∷ fs) (inl u) l = (length f.buffers, rw (← u) l.0.counted)
  AllLogged-count s t (f ∷ fs) (inr o) l = AllLogged-count s t fs o l.1

module _ {B : Type 0} (parse : List ℕ → Option B) {b : List ℕ} {s : Shard} where
  -- The file that takes the batch.
  Logged-batch :
      (x : B) (f : LogFile B) (r : Outcome)
      → Appends f.time (find_or [] f.time s.0) b s r
      → length b < 2 ^ 32
      → parse b ≡ some x
      → Logged parse s f
      → Logged parse r.1 (record f { buffers = f.buffers ++ (b, x) ∷ [] })
  unfolding file_bytes
  Logged-batch x f r e h p l = record {
    stored =
        Appends-find f.time (find_or [] f.time s.0) b s r e
        ∙ ap some (appended-bytes b x f (find_or [] f.time s.0) (ground (arith, l.stored)) l.whole);
    readable = Readable-append parse f.buffers b x l.readable h p;
    whole = l.whole;
    uncut = l.uncut;
    counted =
        subst (λ (n : ℕ). HasCount n (find f.time r.1.1.batch_count_per_file))
          {x = suc (length f.buffers)} {y = length (f.buffers ++ (b, x) ∷ [])}
          (omega (arith, length-append f.buffers ((b, x) ∷ [])))
          (e.counts (length f.buffers) l.counted).1;
  }

  pub AllLogged-open :
      (t : ℕ) (x : B) (fs : List (LogFile B)) (r : Outcome)
      → Appends t (find_or [] t s.0) b s r
      → length b < 2 ^ 32
      → parse b ≡ some x
      → Ascending fs
      → Occurs t fs
      → AllLogged parse s fs
      → AllLogged parse r.1 (add_batch t (b, x) fs)
  unfolding add_batch
  AllLogged-open t x [] r e h p a o l = absurd o
  AllLogged-open t x (f ∷ fs) r e h p a o l = elim (Bool-cases (f.time == t)) [
    | inl same ↦
        let at : f.time ≡ t = (==_iff _ _).0 same in
        rw same (
          Logged-batch x f r (rw at e) h p l.0,
          AllLogged-Above parse (length f.buffers) fs e (rw at at l.0.counted) (rw at at a.0) l.1,
        )
    | inr other ↦
        let ne : f.time ≢ t = ground arith in
        let later = Occurs-tail t f fs ne o in
        let known = AllLogged-count parse s t fs later l.1 in
        rw other (
          Logged-other parse known.0 f e known.1 (λ u. ne (sym u)) l.0,
          AllLogged-open t x fs r e h p a.1 later l.1,
        )
  ]
