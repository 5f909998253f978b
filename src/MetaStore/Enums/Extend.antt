-- ===== src/MetaStore/Enums/Extend.antt =====
-- ExtendEnumDict (metastore/disk_metastore.go): what it returns and what it leaves in the store.
use Prim.Native.String.{String}
use aresdb.Prelude.{
  ℕ, ◌+◌, ◌≤◌, ◌≡◌, ◌⊎◌, inl, inr, refl, sym, ap, ◌∙◌, Bool, true, Option, none, some, List, [],
  ◌∷◌, ◌++◌, arith, length, length-append, Option-cases, Bool-cases,
}
use mathlib.Core.List.{append-nil}
use aresdb.Schema.Table.{Column, Table, is_enum_based_column, is_enum_column}
use aresdb.MetaStore.{
  DiskMetaStore, Action, Access, File, MetaError, io_failure, Result, ok, err, pure, ◌>>=◌, ◌>>◌,
  find, insert, dir_of, access, make_dir_all, write, make_dir, enum_file, table_exists,
  read_schema_file, not_enum_column, column_does_not_exist, read,
}
use aresdb.MetaStore.Columns.{find_column}
use aresdb.MetaStore.Tables.{write_enum_file}
use aresdb.MetaStore.Enums.{
  cases_in, cases_of, sent_in, send_cases, get_column_by_name, read_enum_file, record_cases,
  enum_based_column, sent_to, get_column_by_name, read_enum_file, assign, enum_dict,
  enum_cardinality_limit, push_enum_cases,
}
use aresdb.MetaStore.Enums.Assign.{Assigned, assign-Assigned, IsDict-existing}
use aresdb.MetaStore.Actions.{
  Steady-table_exists, Steady-read_schema_file, bind-ok, bind-err, find-insert_self, Steady,
  Steady-bind, dir_of-insert,
}

-- The dictionary of a column becomes `cases`, and the watchers are as before.
pub record HasCases (table column : String) (cases : List String) (s s' : DiskMetaStore)
    : Type 0 where
  pub stored : cases_of table column s' ≡ cases
  pub watchers : s'.enum_watchers ≡ s.enum_watchers

module _ (fails : Access → File → Bool) (table column : String) where
  -- The directory has been made.
  abbrev touched : DiskMetaStore → DiskMetaStore
  touched s = record s { tables = insert table (dir_of table s) s.tables }

  -- An append to the file of a column is whole, or leaves the dictionary as it was.
  write_enum_file-HasCases :
      (cases : List String) (s : DiskMetaStore)
      → let (r, s') = write_enum_file fails table column cases s in
        ((r ≡ ok tt) × HasCases table column (cases_of table column s ++ cases) s s')
        ⊎ ((r ≡ err io_failure) × HasCases table column (cases_of table column s) s s')
  unfolding write_enum_file access make_dir_all
  write_enum_file-HasCases [] s =
      inl (refl, record { stored = sym (append-nil _); watchers = refl })
  write_enum_file-HasCases (c ∷ cases) s =
      elim (Bool-cases (fails make_dir (enum_file table column))) [
        | inl refused ↦ rw refused (inr (refl, record { stored = refl; watchers = refl }))
        | inr made ↦ elim (Bool-cases (fails write (enum_file table column))) [
          | inl refused ↦
              rw (made, refused)
                (inr (
                  refl,
                  record {
                    stored = ap (cases_in column) (dir_of-insert table (dir_of table s) s);
                    watchers = refl;
                  },
                ))
          | inr written ↦
              rw (made, written)
                (inl (
                  refl,
                  record {
                    stored =
                        ap (cases_in column) (dir_of-insert table _ (touched s))
                        ∙ rw
                            (
                              find-insert_self column
                                  (cases_of table column (touched s) ++ c ∷ cases)
                                  (dir_of table (touched s)).enums,
                              cases_in,
                            )
                            (ap (λ (cs : List String). cs ++ c ∷ cases)
                              (ap (cases_in column) (dir_of-insert table (dir_of table s) s)));
                    watchers = refl;
                  },
                ))
        ]
      ]

  Steady-enum_based_column :
      (schema : Table) (s : DiskMetaStore) → Steady (enum_based_column column schema) s
  unfolding enum_based_column
  Steady-enum_based_column schema s = elim (Option-cases (find_column column 0 schema.columns)) [
    | inl e ↦ inr (column_does_not_exist, rw (e, enum_based_column) refl)
    | inr ((id, c), e) ↦ elim (Bool-cases (is_enum_based_column c)) [
      | inl based ↦ inl (c, rw (e, enum_based_column) (rw based refl))
      | inr other ↦ inr (not_enum_column, rw (e, enum_based_column) (rw other refl))
    ]
  ]

  pub Steady-get_column_by_name :
      (s : DiskMetaStore) → Steady (get_column_by_name fails table column) s
  unfolding get_column_by_name
  Steady-get_column_by_name s =
      Steady-bind (table_exists fails table)
        (λ _. read_schema_file fails table >>= enum_based_column column) s
        (Steady-table_exists fails table s)
        (λ _.
          Steady-bind (read_schema_file fails table) (enum_based_column column) s
            (Steady-read_schema_file fails table s) (λ schema. Steady-enum_based_column schema s))

  -- The file of the column is read, or the read is refused.
  pub read_enum_file-cases :
      (s : DiskMetaStore)
      → (read_enum_file fails table column s ≡ (ok (cases_of table column s), s))
        ⊎ (read_enum_file fails table column s ≡ (err io_failure, s))
  unfolding read_enum_file access
  read_enum_file-cases s = elim (Bool-cases (fails read (enum_file table column))) [
    | inl refused ↦ inr (rw refused refl)
    | inr fine ↦ inl (rw fine refl)
  ]

  -- What ExtendEnumDict does where it succeeds: the column is a live enum column, the dictionary gets
  -- new cases at its end, and the watcher is sent them.
  pub record Extended (cases : List String) (s : DiskMetaStore) (ids : List ℕ) (s' : DiskMetaStore)
      : Type 0 where
    pub enum_column : Column
    pub exists : get_column_by_name fails table column s ≡ (ok enum_column, s)
    pub is_enum : is_enum_column enum_column ≡ true
    pub new : List String
    pub stored : cases_of table column s' ≡ cases_of table column s ++ new
    pub places : Assigned (cases_of table column s) cases (ids, new)
    pub bounded : length (cases_of table column s ++ new) ≤ enum_cardinality_limit enum_column
    pub sent :
        sent_to table column s'
        ≡ (elim (sent_to table column s) [ none ↦ none | some old ↦ some (old ++ new) ])

  pub sent_in-found :
      (columns : List (String × List String))
      (watchers : List (String × List (String × List String)))
      → find table watchers ≡ some columns
      → sent_in table column watchers ≡ find column columns
  sent_in-found columns watchers e =
      ap
        (λ (o : Option (List (String × List String))). elim o as (λ _. Option (List String)) [
          | none ↦ none
          | some columns ↦ find column columns
        ])
        e

  sent_in-send_cases :
      (cases : List String) (watchers : List (String × List (String × List String)))
      → sent_in table column (send_cases table column cases watchers)
        ≡ (elim (sent_in table column watchers) [ none ↦ none | some old ↦ some (old ++ cases) ])
  unfolding send_cases
  sent_in-send_cases cases watchers = elim (Option-cases (find table watchers)) [
    | inl e ↦ rw (e, send_cases) (rw (e, sent_in) refl)
    | inr (columns, e) ↦ elim (Option-cases (find column columns)) [
      | inl e' ↦ rw (e, send_cases) (rw (e', send_cases) (rw (e, sent_in) (rw e' refl)))
      | inr (sent, e') ↦
          let columns' = insert column (sent ++ cases) columns in
          rw (e, send_cases)
            (rw e' (
              sent_in-found columns' (insert table columns' watchers)
                (find-insert_self table columns' watchers)
              ∙ find-insert_self column (sent ++ cases) columns))
    ]
  ]

  -- An outcome of ExtendEnumDict: the dictionary is extended, or is as it was.
  abbrev pub Outcome : List String → DiskMetaStore → Result (List ℕ) × DiskMetaStore → Type 0
  Outcome cases s (r, s') =
      ((ids : List ℕ) × (r ≡ ok ids) × Extended cases s ids s')
      ⊎ ((e : MetaError) × (r ≡ err e)
          × (cases_of table column s' ≡ cases_of table column s)
          × (s'.enum_watchers ≡ s.enum_watchers))

  pub unchanged :
      (cases : List String) (s : DiskMetaStore) (e : MetaError) → Outcome cases s (err e, s)
  unchanged cases s e = inr (e, refl, refl, refl)

  abbrev sending : List ℕ × List String → Unit {0} → Action (List ℕ)
  sending assigned _ = push_enum_cases table column assigned.1 >> pure assigned.0

  pub record_cases-write_ok :
      (assigned : List ℕ × List String) (s s' : DiskMetaStore)
      → write_enum_file fails table column assigned.1 s ≡ (ok tt, s')
      → record_cases fails table column assigned s ≡ (
        ok assigned.0,
        record s' { enum_watchers = send_cases table column assigned.1 s'.enum_watchers },
      )
  unfolding record_cases push_enum_cases
  record_cases-write_ok assigned s s' e =
      bind-ok (write_enum_file fails table column assigned.1) (sending assigned) s s' tt e

  record_cases-write_err :
      (assigned : List ℕ × List String) (s s' : DiskMetaStore) (x : MetaError)
      → write_enum_file fails table column assigned.1 s ≡ (err x, s')
      → record_cases fails table column assigned s ≡ (err x, s')
  unfolding record_cases push_enum_cases
  record_cases-write_err assigned s s' x e =
      bind-err (write_enum_file fails table column assigned.1) (sending assigned) s s' x e

  module _ (cases : List String) (s : DiskMetaStore) (c : Column) where
    pub record_cases-Outcome :
        get_column_by_name fails table column s ≡ (ok c, s)
        → is_enum_column c ≡ true
        → length (cases_of table column s) + length cases ≤ enum_cardinality_limit c
        → Outcome cases s (
            record_cases fails table column
              (assign
                (length (cases_of table column s))
                cases
                (enum_dict 0 (cases_of table column s) []))
              s)
    record_cases-Outcome exists enum fits =
        let old = cases_of table column s in
        let assigned = assign (length old) cases (enum_dict 0 old []) in
        let places = assign-Assigned cases old (enum_dict 0 old []) (IsDict-existing old) in
        let s' = (write_enum_file fails table column assigned.1 s).1 in
        elim (write_enum_file-HasCases assigned.1 s) [
          | inl (r, h) ↦
              rw (record_cases-write_ok assigned s s' (ap (λ (x : Result (Unit {0})). (x, s')) r)) (
                inl (
                  assigned.0,
                  refl,
                  record {
                    enum_column = c;
                    exists = exists;
                    is_enum = enum;
                    new = assigned.1;
                    stored = h.stored;
                    places = places;
                    bounded = omega (arith, length-append old assigned.1, places.few);
                    sent =
                        ap
                          (λ (w : List (String × List (String × List String))).
                            sent_in table column (send_cases table column assigned.1 w))
                          h.watchers
                        ∙ sent_in-send_cases assigned.1 s.enum_watchers;
                  },
                ))
          | inr (r, h) ↦
              rw
                (record_cases-write_err assigned s s' io_failure
                  (ap (λ (x : Result (Unit {0})). (x, s')) r))
                (inr (io_failure, refl, h.stored, h.watchers))
        ]
