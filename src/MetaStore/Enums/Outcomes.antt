-- ===== src/MetaStore/Enums/Outcomes.antt =====
-- ExtendEnumDict (metastore/disk_metastore.go): its outcomes, and the overflow of the cardinality.
use Prim.Native.String.{String}
use aresdb.Prelude.{
  ℕ, ◌+◌, ◌<◌, ◌≤◌, ◌≡◌, inl, inr, refl, ap, ◌∙◌, Bool, true, false, List, [], ◌∷◌, arith, length,
  Bool-cases, ltb,
}
use aresdb.Schema.Table.{Column, is_enum_column}
use aresdb.MetaStore.{
  DiskMetaStore, Access, File, io_failure, Result, ok, err, ◌>>=◌, access, make_dir_all, write,
  make_dir, enum_file, enum_cardinality_overflow, not_enum_column, read,
}
use aresdb.MetaStore.Tables.{write_enum_file}
use aresdb.MetaStore.Enums.{
  cases_of, get_column_by_name, read_enum_file, record_cases, extend_cases, extend_column,
  extend_enum_dict, get_column_by_name, read_enum_file, assign, enum_dict, enum_cardinality_limit,
}
use aresdb.MetaStore.Actions.{bind-ok, bind-err}
use aresdb.MetaStore.Enums.Extend.{
  record_cases-write_ok, Outcome, unchanged, record_cases-Outcome, read_enum_file-cases,
  Steady-get_column_by_name,
}

-- The file system takes all accesses.
abbrev pub NoFailures : (Access → File → Bool) → Type 0
NoFailures fails = (a : Access) (f : File) → fails a f ≡ false

module _ (fails : Access → File → Bool) (table column : String) (cases : List String) where
  extend_cases-over :
      (c : Column) (existing : List String) (s : DiskMetaStore)
      → ltb (enum_cardinality_limit c) (length existing + length cases) ≡ true
      → extend_cases fails table column cases c existing s ≡ (err enum_cardinality_overflow, s)
  unfolding extend_cases
  extend_cases-over c existing s h = rw h refl

  extend_cases-fits :
      (c : Column) (existing : List String) (s : DiskMetaStore)
      → ltb (enum_cardinality_limit c) (length existing + length cases) ≡ false
      → extend_cases fails table column cases c existing s
        ≡ record_cases fails table column
            (assign (length existing) cases (enum_dict 0 existing []))
            s
  unfolding extend_cases
  extend_cases-fits c existing s h = rw h refl

  module _ (s : DiskMetaStore) (c : Column) where
    extend_cases-Outcome :
        get_column_by_name fails table column s ≡ (ok c, s)
        → is_enum_column c ≡ true
        → Outcome fails table column cases s
            (extend_cases fails table column cases c (cases_of table column s) s)
    extend_cases-Outcome exists enum =
        let old = cases_of table column s in
        elim (Bool-cases (ltb (enum_cardinality_limit c) (length old + length cases))) [
          | inl over ↦
              rw (extend_cases-over c old s over)
                (unchanged fails table column cases s enum_cardinality_overflow)
          | inr fits ↦
              rw (extend_cases-fits c old s fits)
                (record_cases-Outcome fails table column cases s c exists enum (ground arith))
        ]

    extend_column-not_enum :
        is_enum_column c ≡ false
        → extend_column fails table column cases c s ≡ (err not_enum_column, s)
    unfolding extend_column
    extend_column-not_enum h = rw h refl

    extend_column-read :
        is_enum_column c ≡ true
        → extend_column fails table column cases c s
          ≡ (read_enum_file fails table column >>= extend_cases fails table column cases c) s
    unfolding extend_column
    extend_column-read h = rw h refl

    extend_column-Outcome :
        get_column_by_name fails table column s ≡ (ok c, s)
        → Outcome fails table column cases s (extend_column fails table column cases c s)
    extend_column-Outcome exists = elim (Bool-cases (is_enum_column c)) [
      | inr other ↦
          rw (extend_column-not_enum other) (unchanged fails table column cases s not_enum_column)
      | inl enum ↦
          let then_extend = extend_cases fails table column cases c in
          elim (read_enum_file-cases fails table column s) [
            | inl fine ↦
                rw
                  (extend_column-read enum
                    ∙ bind-ok (read_enum_file fails table column) then_extend s s
                        (cases_of table column s) fine)
                  (extend_cases-Outcome exists enum)
            | inr refused ↦
                rw
                  (extend_column-read enum
                    ∙ bind-err (read_enum_file fails table column) then_extend s s io_failure
                        refused)
                  (unchanged fails table column cases s io_failure)
          ]
    ]

  extend_enum_dict-bind :
      (s : DiskMetaStore)
      → extend_enum_dict fails table column cases s
        ≡ (get_column_by_name fails table column >>= extend_column fails table column cases) s
  unfolding extend_enum_dict
  extend_enum_dict-bind s = refl

  extend_enum_dict-some_outcome :
      (s : DiskMetaStore)
      → Outcome fails table column cases s (extend_enum_dict fails table column cases s)
  extend_enum_dict-some_outcome s =
      let then_extend = extend_column fails table column cases in
      elim (Steady-get_column_by_name fails table column s) [
        | inl (c, e) ↦
            rw
              (extend_enum_dict-bind s
                ∙ bind-ok (get_column_by_name fails table column) then_extend s s c e)
              (extend_column-Outcome s c e)
        | inr (x, e) ↦
            rw
              (extend_enum_dict-bind s
                ∙ bind-err (get_column_by_name fails table column) then_extend s s x e)
              (unchanged fails table column cases s x)
      ]

  write_enum_file-returns :
      (new : List String) (s : DiskMetaStore)
      → NoFailures fails
      → (write_enum_file fails table column new s).0 ≡ ok tt
  unfolding write_enum_file access make_dir_all
  write_enum_file-returns [] s n = refl
  write_enum_file-returns (c ∷ new) s n =
      rw (n make_dir (enum_file table column), n write (enum_file table column)) refl

  read_enum_file-returns :
      (s : DiskMetaStore)
      → NoFailures fails
      → read_enum_file fails table column s ≡ (ok (cases_of table column s), s)
  unfolding read_enum_file access
  read_enum_file-returns s n = rw (n read (enum_file table column)) refl

  -- The column is a live enum column, up to its extension.
  extend_enum_dict-extend_cases :
      (c : Column) (s : DiskMetaStore)
      → NoFailures fails
      → get_column_by_name fails table column s ≡ (ok c, s)
      → is_enum_column c ≡ true
      → extend_enum_dict fails table column cases s
        ≡ extend_cases fails table column cases c (cases_of table column s) s
  extend_enum_dict-extend_cases c s n exists enum =
      extend_enum_dict-bind s
      ∙ bind-ok (get_column_by_name fails table column) (extend_column fails table column cases) s s
          c exists
      ∙ extend_column-read s c enum
      ∙ bind-ok (read_enum_file fails table column) (extend_cases fails table column cases c) s s
          (cases_of table column s) (read_enum_file-returns s n)

  -- ExtendEnumDict returns an error and leaves the dictionary and the watchers as they were, or
  -- the column is a live enum column, its dictionary gets new cases behind the old ones, up to its
  -- limit, the id returned for each case is the place of the case in it, no case stands in it
  -- twice if none did before, and the watcher, if there is one, is sent the new cases. Where the
  -- file system takes all accesses and the column is a live enum column, it returns ids if the
  -- cases given and those of the dictionary are together within the limit, and the overflow error,
  -- with the store as it was, if they are not.
  pub extend_enum_dict-Outcome :
      (s : DiskMetaStore)
      → Outcome fails table column cases s (extend_enum_dict fails table column cases s)
        × ((c : Column)
            → NoFailures fails
            → get_column_by_name fails table column s ≡ (ok c, s)
            → is_enum_column c ≡ true
            → (length (cases_of table column s) + length cases ≤ enum_cardinality_limit c
                → (ids : List ℕ) × ((extend_enum_dict fails table column cases s).0 ≡ ok ids))
              × (enum_cardinality_limit c < length (cases_of table column s) + length cases
                  → extend_enum_dict fails table column cases s
                    ≡ (err enum_cardinality_overflow, s)))
  extend_enum_dict-Outcome s = (
    extend_enum_dict-some_outcome s,
    λ c n exists enum.
        let old = cases_of table column s in
        let assigned = assign (length old) cases (enum_dict 0 old []) in
        let start = extend_enum_dict-extend_cases c s n exists enum in
        let s' = (write_enum_file fails table column assigned.1 s).1 in
        let written : write_enum_file fails table column assigned.1 s ≡ (ok tt, s') =
          ap (λ (x : Result (Unit {0})). (x, s')) (write_enum_file-returns assigned.1 s n) in
        (
          λ fits. (
            assigned.0,
            ap (λ (x : Result (List ℕ) × DiskMetaStore). x.0)
                (start
                  ∙ extend_cases-fits c old s (ground arith)
                  ∙ record_cases-write_ok fails table column assigned s s' written),
          ),
          λ over. start ∙ extend_cases-over c old s (ground arith),
        ),
  )
