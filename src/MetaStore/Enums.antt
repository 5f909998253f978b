-- ===== src/MetaStore/Enums.antt =====
-- metastore/disk_metastore.go: GetEnumDict, WatchEnumDictEvents and ExtendEnumDict.
use Prim.Native.String.{String}
use text.Mathlib.Text.{◌==◌ as str_eq}
use aresdb.Prelude.{
  ℕ, zero, suc, ◌+◌, ◌^◌, Bool, true, false, not, ◌&&◌, ltb, Option, none, some, List, [], ◌∷◌,
  ◌++◌, if◌then◌else◌, length, drop,
}
use aresdb.Schema.Table.{Table, Column, is_enum_column, is_enum_based_column}
use aresdb.MetaStore.{
  DiskMetaStore, TableDir, Action, Access, File, Result, ok, err, raise, raise_if, pure, ◌>>=◌,
  ◌>>◌, read, enum_file, column_does_not_exist, not_enum_column, watcher_already_exist,
  enum_cardinality_overflow, find, insert, dir_of, access, table_exists, read_schema_file,
}
use aresdb.MetaStore.Tables.{write_enum_file}
use aresdb.MetaStore.Columns.{find_column}
pub mod Assign
pub mod Extend
pub mod Outcomes
pub mod Watch

-- The cases in the file of a column; a file that does not exist has none.
abbrev pub cases_in : String → TableDir → List String
cases_in column d = elim (find column d.enums) [ none ↦ [] | some cases ↦ cases ]

abbrev pub cases_of : String → String → DiskMetaStore → List String
cases_of table column s = cases_in column (dir_of table s)

-- The cases that the watcher of a column has been sent, none if it has no watcher.
abbrev pub sent_in :
    String → String → List (String × List (String × List String)) → Option (List String)
sent_in table column watchers = elim (find table watchers) [
  | none ↦ none
  | some columns ↦ find column columns
]

abbrev pub sent_to : String → String → DiskMetaStore → Option (List String)
sent_to table column s = sent_in table column s.enum_watchers

-- The id of a case, in the map that the loop of ExtendEnumDict builds.
unfoldable pub enum_id : List (String × ℕ) → String → Option ℕ
enum_id dict c = find c dict

-- enumDict at first: `id` is that of the first case given.
unfoldable pub enum_dict : ℕ → List String → List (String × ℕ) → List (String × ℕ)
enum_dict id [] dict = dict
enum_dict id (c ∷ cs) dict = enum_dict (suc id) cs (insert c id dict)

-- The loop of ExtendEnumDict: the ids of the cases given, and the cases that are new.
unfoldable pub assign : ℕ → List String → List (String × ℕ) → List ℕ × List String
unfolding enum_id
assign new_id [] dict = ([], [])
assign new_id (c ∷ cs) dict =
    let known = assign new_id cs dict in
    let new = assign (suc new_id) cs (insert c new_id dict) in
    elim (enum_id dict c) [ some id ↦ (id ∷ known.0, known.1) | none ↦ (new_id ∷ new.0, c ∷ new.1) ]

-- The limit of ExtendEnumDict.
unfoldable pub enum_cardinality_limit : Column → ℕ
enum_cardinality_limit c = if str_eq c.type "BigEnum" then 2 ^ 16 else 2 ^ 8

-- The deferred push to the watcher of a column, among all that are sent to watchers.
unfoldable pub send_cases :
    String
    → String
    → List String
    → List (String × List (String × List String))
    → List (String × List (String × List String))
send_cases table column cases watchers = elim (find table watchers) [
  | none ↦ watchers
  | some columns ↦ elim (find column columns) [
    | none ↦ watchers
    | some sent ↦ insert table (insert column (sent ++ cases) columns) watchers
  ]
]

unfoldable pub push_enum_cases : String → String → List String → Action (Unit {0})
unfolding send_cases
push_enum_cases table column cases s =
    (ok tt, record s { enum_watchers = send_cases table column cases s.enum_watchers })

unfoldable pub enum_based_column : String → Table → Action Column
unfolding find_column is_enum_based_column
enum_based_column column schema = elim (find_column column 0 schema.columns) [
  | none ↦ raise column_does_not_exist
  | some (id, c) ↦ if is_enum_based_column c then pure c else raise not_enum_column
]

unfoldable pub check_unwatched : String → String → Action (Unit {0})
check_unwatched table column s = elim (sent_to table column s) [
  | none ↦ (ok tt, s)
  | some _ ↦ (err watcher_already_exist, s)
]

-- The new watcher is sent the cases from `start_case` on.
unfoldable pub start_watch : String → String → ℕ → List String → Action (Unit {0})
start_watch table column start_case cases s = (
  ok tt,
  record s {
    enum_watchers =
        insert table
          (insert column (drop start_case cases)
            (elim (find table s.enum_watchers) [ none ↦ [] | some columns ↦ columns ]))
          s.enum_watchers;
  },
)

module _ (fails : Access → File → Bool) where
  unfoldable pub get_column_by_name : String → String → Action Column
  unfolding table_exists read_schema_file enum_based_column
  get_column_by_name table column = do
    table_exists fails table
    schema ← read_schema_file fails table
    enum_based_column column schema

  unfoldable pub enum_column_exists : String → String → Action (Unit {0})
  unfolding get_column_by_name is_enum_column
  enum_column_exists table column = do
    c ← get_column_by_name table column
    raise_if (not (is_enum_column c)) not_enum_column

  unfoldable pub read_enum_file : String → String → Action (List String)
  unfolding access
  read_enum_file table column = do
    access fails read (enum_file table column)
    (λ s. (ok (cases_of table column s), s))

  unfoldable pub get_enum_dict : String → String → Action (List String)
  unfolding enum_column_exists read_enum_file
  get_enum_dict table column = do enum_column_exists table column; read_enum_file table column

  unfoldable pub watch_enum_dict_events : String → String → ℕ → Action (Unit {0})
  unfolding enum_column_exists check_unwatched read_enum_file start_watch
  watch_enum_dict_events table column start_case = do
    enum_column_exists table column
    check_unwatched table column
    cases ← read_enum_file table column
    start_watch table column start_case cases

  -- The end of ExtendEnumDict: the new cases are written, and the watcher is sent them.
  unfoldable pub record_cases : String → String → List ℕ × List String → Action (List ℕ)
  unfolding write_enum_file push_enum_cases
  record_cases table column assigned = do
    write_enum_file fails table column assigned.1
    push_enum_cases table column assigned.1
    pure assigned.0

  unfoldable pub extend_cases :
      String → String → List String → Column → List String → Action (List ℕ)
  unfolding enum_dict assign enum_cardinality_limit record_cases
  extend_cases table column cases c existing = do
    raise_if (ltb (enum_cardinality_limit c) (length existing + length cases))
        enum_cardinality_overflow
    record_cases table column (assign (length existing) cases (enum_dict 0 existing []))

  unfoldable pub extend_column : String → String → List String → Column → Action (List ℕ)
  unfolding is_enum_column read_enum_file extend_cases
  extend_column table column cases c = do
    raise_if (not (is_enum_column c)) not_enum_column
    existing ← read_enum_file table column
    extend_cases table column cases c existing

  unfoldable pub extend_enum_dict : String → String → List String → Action (List ℕ)
  unfolding get_column_by_name extend_column
  extend_enum_dict table column cases = do
    c ← get_column_by_name table column
    extend_column table column cases c
