-- ===== src/MetaStore/Enums/Watch.antt =====
-- WatchEnumDictEvents and ExtendEnumDict (metastore/disk_metastore.go): a watcher is sent the
-- dictionary of its column from its start on.
use Prim.Native.String.{String}
use aresdb.Prelude.{
  ℕ, zero, suc, ◌≤◌, ◌≡◌, ◌⊎◌, inl, inr, refl, sym, ap, ◌∙◌, Bool, not, some, List, [], ◌∷◌, ◌++◌,
  arith, length, length-append, drop, Option-cases,
}
use aresdb.Schema.Table.{is_enum_column}
use aresdb.MetaStore.{
  DiskMetaStore, Action, Access, File, MetaError, io_failure, Result, ok, err, raise_if, ◌>>=◌,
  ◌>>◌, not_enum_column, watcher_already_exist,
}
use aresdb.MetaStore.Enums.{
  cases_of, sent_in, sent_to, get_column_by_name, enum_column_exists, check_unwatched,
  read_enum_file, start_watch, watch_enum_dict_events, extend_enum_dict,
}
use aresdb.MetaStore.Failures.{err-ne-ok}
use aresdb.MetaStore.Actions.{
  find-insert_self, Steady, Steady-bind, Steady-raise_if, bind-ok, bind-err,
}
use aresdb.MetaStore.Enums.Extend.{
  Outcome, Steady-get_column_by_name, read_enum_file-cases, sent_in-found,
}
use aresdb.MetaStore.Enums.Outcomes.{extend_enum_dict-Outcome}

drop-append :
    {A : Type 0} (n : ℕ) (xs ys : List A) → n ≤ length xs → drop n (xs ++ ys) ≡ drop n xs ++ ys
drop-append zero xs ys h = refl
drop-append (suc n) [] ys h = absurd (omega arith)
drop-append (suc n) (x ∷ xs) ys h = drop-append n xs ys (omega arith)

module _ (fails : Access → File → Bool) (table column : String) where
  -- The extensions of the dictionary, one after another.
  unfoldable pub extend_all : List (List String) → DiskMetaStore → DiskMetaStore
  extend_all [] s = s
  extend_all (cases ∷ more) s = extend_all more (extend_enum_dict fails table column cases s).1

  -- The watcher has been sent all cases from `start` on.
  pub record WatchedFrom (start : ℕ) (s : DiskMetaStore) : Type 0 where
    pub sent : sent_to table column s ≡ some (drop start (cases_of table column s))
    pub within : start ≤ length (cases_of table column s)

  extend-WatchedFrom :
      (start : ℕ) (cases : List String) (s : DiskMetaStore)
      → WatchedFrom start s
      → Outcome fails table column cases s (extend_enum_dict fails table column cases s)
      → WatchedFrom start (extend_enum_dict fails table column cases s).1
  extend-WatchedFrom start cases s w (inl (ids, r, x)) = record {
    sent =
        x.sent
        ∙ rw w.sent (
            ap some (
              sym (drop-append start (cases_of table column s) x.new w.within)
              ∙ ap (drop start) (sym x.stored)));
    within =
        omega (arith, ap length x.stored, length-append (cases_of table column s) x.new, w.within);
  }
  extend-WatchedFrom start cases s w (inr (e, r, same, watchers)) = record {
    sent =
        ap (sent_in table column) watchers
        ∙ w.sent
        ∙ ap (λ (cs : List String). some (drop start cs)) (sym same);
    within = omega (arith, ap length same, w.within);
  }

  extend_all-WatchedFrom :
      (start : ℕ) (more : List (List String)) (s : DiskMetaStore)
      → WatchedFrom start s
      → WatchedFrom start (extend_all more s)
  unfolding extend_all
  extend_all-WatchedFrom start [] s w = w
  extend_all-WatchedFrom start (cases ∷ more) s w =
      extend_all-WatchedFrom start more (extend_enum_dict fails table column cases s).1
        (extend-WatchedFrom start cases s w (extend_enum_dict-Outcome fails table column cases s).0)

  Steady-enum_column_exists : (s : DiskMetaStore) → Steady (enum_column_exists fails table column) s
  unfolding enum_column_exists
  Steady-enum_column_exists s =
      Steady-bind (get_column_by_name fails table column)
        (λ c. raise_if (not (is_enum_column c)) not_enum_column) s
        (Steady-get_column_by_name fails table column s)
        (λ c. Steady-raise_if (not (is_enum_column c)) not_enum_column s)

  Steady-check_unwatched : (s : DiskMetaStore) → Steady (check_unwatched table column) s
  unfolding check_unwatched
  Steady-check_unwatched s = elim (Option-cases (sent_to table column s)) [
    | inl none_yet ↦ inl (tt, rw (none_yet, check_unwatched) refl)
    | inr (cases, there) ↦ inr (watcher_already_exist, rw (there, check_unwatched) refl)
  ]

  Steady-read_enum_file : (s : DiskMetaStore) → Steady (read_enum_file fails table column) s
  Steady-read_enum_file s = elim (read_enum_file-cases fails table column s) [
    | inl fine ↦ inl (cases_of table column s, fine)
    | inr refused ↦ inr (io_failure, refused)
  ]

  start_watch-WatchedFrom :
      (start : ℕ) (s : DiskMetaStore)
      → start ≤ length (cases_of table column s)
      → WatchedFrom start (start_watch table column start (cases_of table column s) s).1
  unfolding start_watch
  start_watch-WatchedFrom start s h = record {
    sent =
        sent_in-found fails table column _ _ (find-insert_self table _ s.enum_watchers)
        ∙ find-insert_self column (drop start (cases_of table column s)) _;
    within = h;
  }

  abbrev reading : ℕ → Action (Unit {0})
  reading start = read_enum_file fails table column >>= start_watch table column start

  watch-bind :
      (start : ℕ) (s : DiskMetaStore)
      → watch_enum_dict_events fails table column start s
        ≡ (enum_column_exists fails table column >> (check_unwatched table column >> reading start))
            s
  unfolding watch_enum_dict_events
  watch-bind start s = refl

  -- A watcher is refused, or is sent the cases of the dictionary.
  watch-cases :
      (start : ℕ) (s : DiskMetaStore)
      → ((e : MetaError) × (watch_enum_dict_events fails table column start s ≡ (err e, s)))
        ⊎ (watch_enum_dict_events fails table column start s
            ≡ start_watch table column start (cases_of table column s) s)
  watch-cases start s =
      let check = check_unwatched table column in
      elim (Steady-enum_column_exists s) [
        | inr (x, e) ↦ inl (
          x,
          watch-bind start s
              ∙ bind-err (enum_column_exists fails table column) (λ _. check >> reading start) s s x
                  e,
        )
        | inl (u, e) ↦
            let first =
              watch-bind start s
              ∙ bind-ok (enum_column_exists fails table column) (λ _. check >> reading start) s s u
                  e in
            elim (Steady-check_unwatched s) [
              | inr (x, e') ↦ inl (x, first ∙ bind-err check (λ _. reading start) s s x e')
              | inl (u', e') ↦
                  let second = first ∙ bind-ok check (λ _. reading start) s s u' e' in
                  let start_with = start_watch table column start in
                  elim (read_enum_file-cases fails table column s) [
                    | inr e'' ↦ inl (
                      io_failure,
                      second
                          ∙ bind-err (read_enum_file fails table column) start_with s s io_failure
                              e'',
                    )
                    | inl e'' ↦ inr (
                        second
                        ∙ bind-ok (read_enum_file fails table column) start_with s s
                            (cases_of table column s) e'')
                  ]
            ]
      ]

  -- After WatchEnumDictEvents succeeds with a start within the dictionary, and after any number of
  -- calls of ExtendEnumDict for the column, whether they succeed or fail, the watcher has been
  -- sent exactly the cases of the dictionary from the start on, in order.
  pub watch-extend_all :
      (start : ℕ) (more : List (List String)) (s : DiskMetaStore)
      → start ≤ length (cases_of table column s)
      → let (r, s') = watch_enum_dict_events fails table column start s in
        r ≡ ok tt → WatchedFrom start (extend_all more s')
  watch-extend_all start more s h w = elim (watch-cases start s) [
    | inl (e, refused) ↦
        absurd
          (err-ne-ok e tt (sym w ∙ ap (λ (x : Result (Unit {0}) × DiskMetaStore). x.0) refused))
    | inr started ↦
        extend_all-WatchedFrom start more (watch_enum_dict_events fails table column start s).1
          (rw started (start_watch-WatchedFrom start s h))
  ]
