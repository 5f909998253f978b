-- ===== src/MetaStore/Tables.antt =====
-- metastore/disk_metastore.go: CreateTable, UpdateTableConfig, UpdateTable and DeleteTable.
use Prim.Native.String.{String}
use text.Mathlib.Text.{◌==◌ as str_eq}
use aresdb.Prelude.{
  Bool, true, false, ◌||◌, none, some, List, [], ◌∷◌, ◌++◌, if◌then◌else◌, length, drop,
}
use aresdb.Schema.Table.{Table, TableConfig, Column, is_enum_column}
use aresdb.Schema.Validator.{Parsers}
use aresdb.Schema.Update.{validate}
use aresdb.MetaStore.{
  DiskMetaStore, Action, Access, File, ok, err, raise, raise_if, pure, ◌>>=◌, ◌>>◌, write, remove,
  table_dir, enum_file, table_already_exist, table_does_not_exist, invalid_schema, table_list, find,
  insert, erase, update_dir, access, make_dir_all, list_tables, table_exists, read_schema_file,
  write_schema_file, push_schema_change, push_shard_ownership_change,
}

-- utils.IndexOfStr(names, name) >= 0.
unfoldable pub contains : List String → String → Bool
contains [] name = false
contains (x ∷ xs) name = let rest = contains xs name in str_eq x name || rest

-- The slice without its element at the first index of the name.
unfoldable pub remove_first : String → List String → List String
remove_first name [] = []
remove_first name (x ∷ xs) =
    let rest = remove_first name xs in if str_eq x name then xs else x ∷ rest

unfoldable pub push_table_list : List String → DiskMetaStore → DiskMetaStore
push_table_list names s =
    if s.table_list_watcher then record s { events = s.events ++ table_list names ∷ [] } else s

module _ (fails : Access → File → Bool) where
  -- writeEnumFile, which appends.
  unfoldable pub write_enum_file : String → String → List String → Action (Unit {0})
  unfolding make_dir_all access update_dir
  write_enum_file table column cases =
      if (elim cases [ [] ↦ true | _ ∷ _ ↦ false ]) then pure tt else do
        make_dir_all fails table (enum_file table column)
        access fails write (enum_file table column)
        update_dir table (λ d. record d {
          enums =
              insert column ((elim (find column d.enums) [ none ↦ [] | some old ↦ old ]) ++ cases)
                d.enums;
        })

  -- The enum case of the default value of a new column.
  unfoldable pub write_default : String → Column → Action (Unit {0})
  unfolding write_enum_file is_enum_column
  write_default table c = elim c.default_value [
    | none ↦ pure tt
    | some v ↦ if is_enum_column c then write_enum_file table c.name (v ∷ []) else pure tt
  ]

  unfoldable pub write_defaults : String → List Column → Action (Unit {0})
  unfolding write_default
  write_defaults table [] = pure tt
  write_defaults table (c ∷ cs) = do write_default table c; write_defaults table cs

  -- removeTable, which also closes the watchers of the table's enum columns.
  unfoldable pub remove_table : String → Action (Unit {0})
  unfolding access
  remove_table table = do
    access fails remove (table_dir table)
    (λ s. (
      ok tt,
      record s { tables = erase table s.tables; enum_watchers = erase table s.enum_watchers },
    ))

  -- CreateTable after its checks.
  unfoldable pub install_table : Table → Action (Unit {0})
  unfolding make_dir_all write_schema_file write_defaults push_schema_change
      push_shard_ownership_change
  install_table table = do
    make_dir_all fails table.name (table_dir table.name)
    write_schema_file fails table
    write_defaults table.name table.columns
    push_schema_change table
    push_shard_ownership_change table.name

  module _ (go : Parsers) where
    unfoldable pub create_unlisted : Table → List String → Action (Unit {0})
    unfolding contains install_table
    create_unlisted table existing = do
      raise_if (contains existing table.name) table_already_exist
      elim (validate go none table) [
        | none ↦ install_table table
        | some e ↦ raise (invalid_schema e)
      ]

    unfoldable pub create_table : Table → Action (Unit {0})
    unfolding list_tables create_unlisted
    create_table table = do existing ← list_tables fails; create_unlisted table existing

  unfoldable pub update_table_config : String → TableConfig → Action (Unit {0})
  unfolding table_exists read_schema_file write_schema_file push_schema_change
  update_table_config name config = do
    table_exists fails name
    table ← read_schema_file fails name
    write_schema_file fails (record table { config = config })
    push_schema_change (record table { config = config })

  unfoldable pub update_table : Table → Action (Unit {0})
  unfolding read_schema_file write_schema_file write_defaults push_schema_change
  update_table table = do
    existing ← read_schema_file fails table.name
    write_schema_file fails table
    write_defaults table.name (drop (length existing.columns) table.columns)
    push_schema_change table

  -- The deferred push of DeleteTable sends the list that it has by then, after an error too.
  unfoldable pub delete_table : String → Action (Unit {0})
  unfolding list_tables contains remove_first remove_table push_table_list
  delete_table name s = elim (list_tables fails s).0 [
    | err e ↦ (err e, push_table_list [] s)
    | ok existing ↦
        if contains existing name
        then elim (remove_table name s).0 [
          | err e ↦ (err e, push_table_list existing s)
          | ok _ ↦ (ok tt, push_table_list (remove_first name existing) (remove_table name s).1)
        ]
        else (err table_does_not_exist, push_table_list existing s)
  ]
