-- ===== src/MetaStore/Refused.antt =====
-- metastore/disk_metastore.go: a schema change that is refused for another reason than the file
-- system leaves the store as it was.
use Prim.Native.String.{String}
use aresdb.Prelude.{
  ◌≡◌, ◌≢◌, inl, inr, refl, Bool, true, none, some, List, ◌&&◌, ◌==◌, set, Option-cases, Bool-cases,
  if◌then◌else◌,
}
use aresdb.Schema.Table.{Table, Column, ColumnConfig, is_enum_based_column}
use aresdb.Schema.Validator.{Parsers}
use aresdb.Schema.Update.{validate}
use aresdb.MetaStore.{
  DiskMetaStore, Action, Access, File, MetaError, io_failure, Result, err, raise, pure, ◌>>=◌, ◌>>◌,
  make_dir_all, write_schema_file, push_schema_change, push_shard_ownership_change, remove,
  enum_file, table_dir, list_tables, table_exists, read_schema_file, invalid_schema,
  table_already_exist, column_does_not_exist, delete_time_column, delete_primary_key_column,
}
use aresdb.MetaStore.Tables.{
  contains, write_default, write_defaults, install_table, create_unlisted, create_table,
}
use aresdb.MetaStore.Columns.{
  find_column, contains_int, with_column, save_schema, save_column, add_column_to, with_table,
  add_column, update_column_of, update_column, remove_enum_column, save_deletion, delete_column_of,
  delete_column,
}
use aresdb.MetaStore.Actions.{
  Steady, bind-ok, bind-err, Steady-list_tables, Steady-table_exists, Steady-read_schema_file,
}
use aresdb.MetaStore.Failures.{
  OnlyIo, err-ne-ok, OnlyIo-then, OnlyIo-if, OnlyIo-pure, OnlyIo-push, OnlyIo-push_ownership,
  OnlyIo-make_dir_all, OnlyIo-write_schema_file, OnlyIo-write_default, OnlyIo-write_defaults,
}

-- An error that is not of the file system leaves the store as it was.
abbrev pub LeavesStore : {A : Type 0} → DiskMetaStore → Result A × DiskMetaStore → Type 0
LeavesStore s (r, s') = (e : MetaError) → r ≡ err e → e ≢ io_failure → s' ≡ s

LeavesStore-OnlyIo : (m : Action (Unit {0})) (s : DiskMetaStore) → OnlyIo m → LeavesStore s (m s)
LeavesStore-OnlyIo m s om e h other = absurd (other (om s e h))

LeavesStore-bind :
    {A : Type 0} (m : Action A) (f : A → Action (Unit {0})) (s : DiskMetaStore)
    → Steady m s
    → ((a : A) → LeavesStore s (f a s))
    → LeavesStore s ((m >>= f) s)
LeavesStore-bind m f s (inl (a, e)) h = rw (bind-ok m f s s a e) (h a)
LeavesStore-bind m f s (inr (x, e)) h = rw (bind-err m f s s x e) (λ e' h' other. refl)

raised : (x : MetaError) (s : DiskMetaStore) → LeavesStore s (raise {A = Unit {0}} x s)
raised x s e h other = refl

module _ (fails : Access → File → Bool) where
  OnlyIo-install_table : (table : Table) → OnlyIo (install_table fails table)
  unfolding install_table
  OnlyIo-install_table table =
      let push = push_schema_change table >> push_shard_ownership_change table.name in
      let defaults = write_defaults fails table.name table.columns in
      OnlyIo-then (make_dir_all fails table.name (table_dir table.name))
        (write_schema_file fails table >> (defaults >> push))
        (OnlyIo-make_dir_all fails table.name (table_dir table.name))
        (OnlyIo-then (write_schema_file fails table) (defaults >> push)
          (OnlyIo-write_schema_file fails table)
          (OnlyIo-then defaults push (OnlyIo-write_defaults fails table.name table.columns) (
            OnlyIo-then (push_schema_change table) (push_shard_ownership_change table.name)
              (OnlyIo-push table) (OnlyIo-push_ownership table.name))))

  OnlyIo-save_schema : (table : Table) → OnlyIo (save_schema fails table)
  unfolding save_schema
  OnlyIo-save_schema table =
      OnlyIo-then (write_schema_file fails table) (push_schema_change table)
        (OnlyIo-write_schema_file fails table) (OnlyIo-push table)

  OnlyIo-save_column :
      (table : Table) (name : String) (c : Column) → OnlyIo (save_column fails table name c)
  unfolding save_column
  OnlyIo-save_column table name c =
      OnlyIo-then (write_schema_file fails table)
        (write_default fails name c >> push_schema_change table)
        (OnlyIo-write_schema_file fails table)
        (OnlyIo-then (write_default fails name c) (push_schema_change table)
          (OnlyIo-write_default fails name c) (OnlyIo-push table))

  OnlyIo-remove_enum_column :
      (table column : String) → OnlyIo (remove_enum_column fails table column)
  unfolding remove_enum_column
  OnlyIo-remove_enum_column table column s e h =
      elim (Bool-cases (fails remove (enum_file table column))) [
        | inl refused ↦ absurd (err-ne-ok e tt (rw refused at h))
        | inr removed ↦ absurd (err-ne-ok e tt (rw removed at h))
      ]

  OnlyIo-save_deletion : (table : Table) (c : Column) → OnlyIo (save_deletion fails table c)
  unfolding save_deletion
  OnlyIo-save_deletion table c =
      let close =
        if is_enum_based_column c then remove_enum_column fails table.name c.name else pure tt in
      OnlyIo-then (write_schema_file fails table) (close >> push_schema_change table)
        (OnlyIo-write_schema_file fails table)
        (OnlyIo-then close (push_schema_change table)
          (OnlyIo-if (is_enum_based_column c) (remove_enum_column fails table.name c.name) (pure tt)
            (OnlyIo-remove_enum_column table.name c.name) OnlyIo-pure)
          (OnlyIo-push table))

  module _ (go : Parsers) (s : DiskMetaStore) where
    create_unlisted-LeavesStore :
        (table : Table) (existing : List String)
        → LeavesStore s (create_unlisted fails go table existing s)
    unfolding create_unlisted
    create_unlisted-LeavesStore table existing = elim (Bool-cases (contains existing table.name)) [
      | inl known ↦ rw known (raised table_already_exist s)
      | inr new ↦ elim (Option-cases (validate go none table)) [
        | inl valid ↦ rw new (
            rw valid
              (LeavesStore-OnlyIo (install_table fails table) s (OnlyIo-install_table table)))
        | inr (e, invalid) ↦ rw new (rw invalid (raised (invalid_schema e) s))
      ]
    ]

    create_table-LeavesStore : (table : Table) → LeavesStore s (create_table fails go table s)
    unfolding create_table
    create_table-LeavesStore table =
        LeavesStore-bind (list_tables fails) (create_unlisted fails go table) s
          (Steady-list_tables fails s) (create_unlisted-LeavesStore table)

    with_table-LeavesStore :
        (name : String) (change : Table → Action (Unit {0}))
        → ((table : Table) → LeavesStore s (change table s))
        → LeavesStore s (with_table fails name change s)
    unfolding with_table
    with_table-LeavesStore name change h =
        LeavesStore-bind (table_exists fails name) (λ _. read_schema_file fails name >>= change) s
          (Steady-table_exists fails name s)
          (λ _.
            LeavesStore-bind (read_schema_file fails name) change s
              (Steady-read_schema_file fails name s) h)

    add_column_to-LeavesStore :
        (c : Column) (sorted : Bool) (table : Table)
        → LeavesStore s (add_column_to fails go c sorted table s)
    unfolding add_column_to
    add_column_to-LeavesStore c sorted table =
        elim (Option-cases (validate go (some table) (with_column table c sorted))) [
          | inl valid ↦
              rw (valid, add_column_to)
                (LeavesStore-OnlyIo (save_column fails (with_column table c sorted) table.name c) s
                  (OnlyIo-save_column (with_column table c sorted) table.name c))
          | inr (e, invalid) ↦ rw (invalid, add_column_to) (raised (invalid_schema e) s)
        ]

    update_column_of-LeavesStore :
        (column : String) (config : ColumnConfig) (table : Table)
        → LeavesStore s (update_column_of fails column config table s)
    unfolding update_column_of
    update_column_of-LeavesStore column config table =
        elim (Option-cases (find_column column 0 table.columns)) [
          | inl missing ↦ rw (missing, update_column_of) (raised column_does_not_exist s)
          | inr ((id, c), there) ↦
              let changed = record table {
                columns = set table.columns id (record c { config = config });
              } in
              rw (there, update_column_of)
                (LeavesStore-OnlyIo (save_schema fails changed) s (OnlyIo-save_schema changed))
        ]

    delete_column_of-LeavesStore :
        (column : String) (table : Table) → LeavesStore s (delete_column_of fails column table s)
    unfolding delete_column_of
    delete_column_of-LeavesStore column table =
        elim (Option-cases (find_column column 0 table.columns)) [
          | inl missing ↦ rw (missing, delete_column_of) (raised column_does_not_exist s)
          | inr ((id, c), there) ↦
              let changed = record table {
                columns = set table.columns id (record c { deleted = true });
              } in
              elim (Bool-cases (table.is_fact_table && id == 0)) [
                | inl time ↦ rw (there, delete_column_of) (rw time (raised delete_time_column s))
                | inr other ↦ elim (Bool-cases (contains_int table.primary_key_columns id)) [
                  | inl key ↦
                      rw (there, delete_column_of)
                        (rw (other, key) (raised delete_primary_key_column s))
                  | inr free ↦
                      rw (there, delete_column_of)
                        (rw (other, free)
                          (LeavesStore-OnlyIo (save_deletion fails changed c) s
                            (OnlyIo-save_deletion changed c)))
                ]
              ]
        ]

-- CreateTable, AddColumn, UpdateColumn and DeleteColumn leave the whole store as it was if they
-- return an error other than a failure of the file system: a name that is taken or missing, a
-- schema that the validator refuses, the time column or a primary key column to delete.
pub schema_changes-LeavesStore :
    (fails : Access → File → Bool) (go : Parsers) (s : DiskMetaStore)
    → ((table : Table) → LeavesStore s (create_table fails go table s))
      × ((name : String) (c : Column) (sorted : Bool)
          → LeavesStore s (add_column fails go name c sorted s))
      × ((name column : String) (config : ColumnConfig)
          → LeavesStore s (update_column fails name column config s))
      × ((name column : String) → LeavesStore s (delete_column fails name column s))
unfolding add_column update_column delete_column
schema_changes-LeavesStore fails go s = (
  create_table-LeavesStore fails go s,
  λ name c sorted.
      with_table-LeavesStore fails go s name (add_column_to fails go c sorted)
        (add_column_to-LeavesStore fails go s c sorted),
  λ name column config.
      with_table-LeavesStore fails go s name (update_column_of fails column config)
        (update_column_of-LeavesStore fails go s column config),
  λ name column.
      with_table-LeavesStore fails go s name (delete_column_of fails column)
        (delete_column_of-LeavesStore fails go s column),
)
