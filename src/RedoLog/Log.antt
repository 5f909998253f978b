-- ===== src/RedoLog/Log.antt =====
-- What the redo log (redolog/file_redolog_manager.go) stands for: files in the order of their times,
-- each with its batches, to the newest of which AppendToRedoLog adds a batch.
use mathlib.Core.List.{head-eq_of_cons-eq, tail-eq_of_cons-eq, append_assoc, append-nil}
use aresdb.Prelude.{
  ℕ, suc, ◌+◌, ◌%◌, ◌^◌, ◌<◌, ◌≤◌, ◌≡◌, refl, sym, ap, ◌∙◌, inl, inr, Bool-cases, true, false, List,
  [], ◌∷◌, ◌++◌, map, arith, length, length-append, ◌==◌, ==_iff, if◌then◌else◌,
}
use aresdb.Prelude.Dict.{Dict, insert, keys}
use aresdb.RedoLog.Replay.{NextUpsertBatchInfo}
use aresdb.RedoLog.Replay.Files.{LogFile, infos, all_infos, count_all}

module _ {B : Type 0} where
  unfoldable pub add_batch : ℕ → List ℕ × B → List (LogFile B) → List (LogFile B)
  add_batch time b [] = record { time = time; buffers = b ∷ []; tail = []; cut = false } ∷ []
  add_batch time b (f ∷ fs) =
      let rest = add_batch time b fs in
      if f.time == time then record f { buffers = f.buffers ++ b ∷ [] } ∷ fs else f ∷ rest

  abbrev pub times : List (LogFile B) → List ℕ
  times fs = map (λ f. f.time) fs

  abbrev pub AtMost : ℕ → List (LogFile B) → Type 0
  AtMost time [] = Unit
  AtMost time (f ∷ fs) = (f.time ≤ time) × AtMost time fs

  abbrev pub Above : ℕ → List (LogFile B) → Type 0
  Above time [] = Unit
  Above time (f ∷ fs) = (time < f.time) × Above time fs

  abbrev pub Ascending : List (LogFile B) → Type 0
  Ascending [] = Unit
  Ascending (f ∷ fs) = Above f.time fs × Ascending fs

  -- The number of batches of a file.
  abbrev pub count_in : ℕ → List (LogFile B) → ℕ
  count_in time [] = 0
  count_in time (f ∷ fs) =
      let rest = count_in time fs in if f.time == time then length f.buffers else rest

  pub AtMost-trans : (t u : ℕ) (fs : List (LogFile B)) → t ≤ u → AtMost t fs → AtMost u fs
  AtMost-trans t u [] h a = tt
  AtMost-trans t u (f ∷ fs) h a = (omega arith, AtMost-trans t u fs h a.1)

  -- The newest file is the last.
  no_newer : (t : ℕ) (fs : List (LogFile B)) → Above t fs → AtMost t fs → fs ≡ []
  no_newer t [] a b = refl
  no_newer t (f ∷ fs) a b = absurd (omega arith)

  -- The info of the batch number `n` of a file.
  abbrev pub info : ℕ → ℕ → B → NextUpsertBatchInfo B
  info t n x = record { batch = x; redo_log_file = t; batch_offset = n % 2 ^ 32; recovery = true }

  infos-append :
      (t k : ℕ) (bs : List (List ℕ × B)) (b : List ℕ) (x : B)
      → infos t k (bs ++ (b, x) ∷ []) ≡ infos t k bs ++ info t (k + length bs) x ∷ []
  unfolding infos
  infos-append t k [] b x = ap (λ (n : ℕ). info t n x ∷ []) (omega arith)
  infos-append t k ((c, y) ∷ bs) b x =
      ap (λ (is : List _). info t k y ∷ is) (infos-append t (suc k) bs b x)
      ∙ ap (λ (n : ℕ). info t k y ∷ (infos t (suc k) bs ++ info t n x ∷ [])) (omega arith)

  -- A batch for the newest file, or for a newer one, comes after all others.
  pub all_infos-add_batch :
      (t : ℕ) (b : List ℕ) (x : B) (fs : List (LogFile B))
      → Ascending fs
      → AtMost t fs
      → all_infos (add_batch t (b, x) fs) ≡ all_infos fs ++ info t (count_in t fs) x ∷ []
  unfolding add_batch all_infos infos
  all_infos-add_batch t b x [] a m = refl
  all_infos-add_batch t b x (f ∷ fs) a m = elim (Bool-cases (f.time == t)) [
    | inl same ↦
        let e : f.time ≡ t = ground arith in
        let last = no_newer t fs (rw e at a.0) m.1 in
        rw same (
          rw last (
            append-nil (infos f.time 0 (f.buffers ++ (b, x) ∷ []))
            ∙ infos-append f.time 0 f.buffers b x
            ∙ ap (λ (u : ℕ). infos f.time 0 f.buffers ++ info u (0 + length f.buffers) x ∷ []) e
            ∙ ap (λ (n : ℕ). infos f.time 0 f.buffers ++ info t n x ∷ []) (omega arith)
            ∙ ap (λ (is : List (NextUpsertBatchInfo B)). is ++ info t (length f.buffers) x ∷ [])
                (sym (append-nil (infos f.time 0 f.buffers)))))
    | inr other ↦ rw other (
        ap (λ (is : List _). infos f.time 0 f.buffers ++ is) (all_infos-add_batch t b x fs a.1 m.1)
        ∙ sym (
            append_assoc (infos f.time 0 f.buffers) (all_infos fs) (info t (count_in t fs) x ∷ [])))
  ]

  pub count_all-add_batch :
      (t : ℕ) (b : List ℕ × B) (fs : List (LogFile B))
      → count_all (add_batch t b fs) ≡ suc (count_all fs)
  unfolding add_batch count_all
  count_all-add_batch t b [] = refl
  count_all-add_batch t b (f ∷ fs) = elim (Bool-cases (f.time == t)) [
    | inl same ↦ rw same (omega (arith, length-append f.buffers (b ∷ [])))
    | inr other ↦ rw other (omega (arith, count_all-add_batch t b fs))
  ]

  Above-add_batch :
      (u t : ℕ) (b : List ℕ × B) (fs : List (LogFile B))
      → u < t
      → Above u fs
      → Above u (add_batch t b fs)
  unfolding add_batch
  Above-add_batch u t b [] h a = (h, tt)
  Above-add_batch u t b (f ∷ fs) h a = elim (Bool-cases (f.time == t)) [
    | inl same ↦ rw same a
    | inr other ↦ rw other (a.0, Above-add_batch u t b fs h a.1)
  ]

  pub Ascending-add_batch :
      (t : ℕ) (b : List ℕ × B) (fs : List (LogFile B))
      → Ascending fs
      → AtMost t fs
      → Ascending (add_batch t b fs)
  unfolding add_batch
  Ascending-add_batch t b [] a m = (tt, tt)
  Ascending-add_batch t b (f ∷ fs) a m = elim (Bool-cases (f.time == t)) [
    | inl same ↦ rw same a
    | inr other ↦
        rw other
          (Above-add_batch f.time t b fs (ground arith) a.0, Ascending-add_batch t b fs a.1 m.1)
  ]

  pub AtMost-add_batch :
      (t : ℕ) (b : List ℕ × B) (fs : List (LogFile B)) → AtMost t fs → AtMost t (add_batch t b fs)
  unfolding add_batch
  AtMost-add_batch t b [] m = (omega arith, tt)
  AtMost-add_batch t b (f ∷ fs) m = elim (Bool-cases (f.time == t)) [
    | inl same ↦ rw same m
    | inr other ↦ rw other (m.0, AtMost-add_batch t b fs m.1)
  ]

  pub keys-insert :
      {V : Type 0} (t : ℕ) (v : V) (b : List ℕ × B) (d : Dict V) (fs : List (LogFile B))
      → keys d ≡ times fs
      → keys (insert t v d) ≡ times (add_batch t b fs)
  unfolding add_batch
  keys-insert t v b [] [] e = refl
  keys-insert t v b [] (f ∷ fs) e = cc
  keys-insert t v b (kv ∷ d) [] e = cc
  keys-insert t v b ((k, w) ∷ d) (f ∷ fs) e =
      let same = head-eq_of_cons-eq e in
      elim (Bool-cases (f.time == t)) [
        | inl s ↦
            let s' : (k == t) ≡ true = ap (λ (u : ℕ). u == t) same ∙ s in
            rw (s, s')
              (ap (λ (ks : List ℕ). t ∷ ks) (tail-eq_of_cons-eq e)
                ∙ ap (λ (u : ℕ). u ∷ times fs) (sym ((==_iff _ _).0 s)))
        | inr o ↦
            let o' : (k == t) ≡ false = ap (λ (u : ℕ). u == t) same ∙ o in
            rw (o, o')
              (ap (λ (u : ℕ). u ∷ keys (insert t v d)) same
                ∙ ap (λ (ks : List ℕ). f.time ∷ ks) (keys-insert t v b d fs (tail-eq_of_cons-eq e)))
      ]
