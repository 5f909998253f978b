-- ===== src/MetaStore/Columns.antt =====
-- metastore/disk_metastore.go: AddColumn, UpdateColumn and DeleteColumn.
use Prim.Native.String.{String}
use text.Mathlib.Text.{◌==◌ as str_eq}
use aresdb.Prelude.{
  ℕ, suc, Bool, true, false, not, ◌&&◌, ◌||◌, ◌==◌, Option, none, some, List, [], ◌∷◌, ◌++◌,
  if◌then◌else◌, length, set,
}
use aresdb.Schema.Table.{Table, ColumnConfig, Column, is_enum_based_column}
use aresdb.Schema.Validator.{Parsers}
use aresdb.Schema.Update.{validate}
use aresdb.MetaStore.{
  Action, Access, File, ok, raise, pure, ◌>>=◌, ◌>>◌, remove, enum_file, column_does_not_exist,
  delete_time_column, delete_primary_key_column, invalid_schema, find, insert, erase, update_dir,
  table_exists, read_schema_file, write_schema_file, push_schema_change,
}
use aresdb.MetaStore.Tables.{write_default}

-- The first column of the name that is not deleted, with its id; `id` is that of the first column
-- given.
unfoldable pub find_column : String → ℕ → List Column → Option (ℕ × Column)
find_column name id [] = none
find_column name id (c ∷ cs) =
    let rest = find_column name (suc id) cs in
    if str_eq c.name name && not c.deleted then some (id, c) else rest

-- utils.IndexOfInt(ids, id) >= 0.
unfoldable pub contains_int : List ℕ → ℕ → Bool
contains_int [] id = false
contains_int (x ∷ xs) id = let rest = contains_int xs id in x == id || rest

-- The table with a further column.
unfoldable pub with_column : Table → Column → Bool → Table
with_column table c append_to_sort_order = record table {
  columns = table.columns ++ c ∷ [];
  archiving_sort_columns =
      if append_to_sort_order
      then table.archiving_sort_columns ++ length table.columns ∷ []
      else table.archiving_sort_columns;
}

module _ (fails : Access → File → Bool) where
  -- The new schema of a table, which the watcher is sent.
  unfoldable pub save_schema : Table → Action (Unit {0})
  unfolding write_schema_file push_schema_change
  save_schema table = do write_schema_file fails table; push_schema_change table

  unfoldable pub save_column : Table → String → Column → Action (Unit {0})
  unfolding write_schema_file write_default push_schema_change
  save_column table name c = do
    write_schema_file fails table
    write_default fails name c
    push_schema_change table

  -- addColumn, and the push of AddColumn.
  unfoldable pub add_column_to : Parsers → Column → Bool → Table → Action (Unit {0})
  unfolding with_column save_column
  add_column_to go c append_to_sort_order table =
      elim (validate go (some table) (with_column table c append_to_sort_order)) [
        | none ↦ save_column (with_column table c append_to_sort_order) table.name c
        | some e ↦ raise (invalid_schema e)
      ]

  -- The schema of a table that exists goes to the rest of an operation.
  unfoldable pub with_table : String → (Table → Action (Unit {0})) → Action (Unit {0})
  unfolding table_exists read_schema_file
  with_table name change = do
    table_exists fails name
    table ← read_schema_file fails name
    change table

  unfoldable pub add_column : Parsers → String → Column → Bool → Action (Unit {0})
  unfolding with_table add_column_to
  add_column go name c append_to_sort_order =
      with_table name (add_column_to go c append_to_sort_order)

  unfoldable pub update_column_of : String → ColumnConfig → Table → Action (Unit {0})
  unfolding find_column save_schema
  update_column_of column config table = elim (find_column column 0 table.columns) [
    | none ↦ raise column_does_not_exist
    | some (id, c) ↦
        save_schema (record table { columns = set table.columns id (record c { config = config }) })
  ]

  unfoldable pub update_column : String → String → ColumnConfig → Action (Unit {0})
  unfolding with_table update_column_of
  update_column name column config = with_table name (update_column_of column config)

  -- removeEnumColumn. That the file could not be removed is passed over.
  unfoldable pub remove_enum_column : String → String → Action (Unit {0})
  unfolding update_dir
  remove_enum_column table column s =
      let watchers : List (String × List (String × List String)) =
        elim (find table s.enum_watchers) [
          | none ↦ s.enum_watchers
          | some columns ↦ insert table (erase column columns) s.enum_watchers
        ] in
      let closed = record s { enum_watchers = watchers } in
      if fails remove (enum_file table column)
      then (ok tt, closed)
      else update_dir table (λ d. record d { enums = erase column d.enums }) closed

  unfoldable pub save_deletion : Table → Column → Action (Unit {0})
  unfolding write_schema_file remove_enum_column push_schema_change is_enum_based_column
  save_deletion table c = do
    write_schema_file fails table
    (if is_enum_based_column c then remove_enum_column table.name c.name else pure tt)
    push_schema_change table

  unfoldable pub delete_column_of : String → Table → Action (Unit {0})
  unfolding find_column contains_int save_deletion
  delete_column_of column table = elim (find_column column 0 table.columns) [
    | none ↦ raise column_does_not_exist
    | some (id, c) ↦
        if table.is_fact_table && id == 0
        then raise delete_time_column
        else if contains_int table.primary_key_columns id
        then raise delete_primary_key_column
        else save_deletion
            (record table { columns = set table.columns id (record c { deleted = true }) }) c
  ]

  unfoldable pub delete_column : String → String → Action (Unit {0})
  unfolding with_table delete_column_of
  delete_column name column = with_table name (delete_column_of column)
