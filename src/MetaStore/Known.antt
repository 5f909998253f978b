-- ===== src/MetaStore/Known.antt =====
-- metastore/disk_metastore.go: the checks at the head of an operation on a table that exists, where
-- the file system takes all accesses.
use Prim.Native.String.{String}
use aresdb.Prelude.{◌≡◌, refl, ◌∙◌, Bool, some}
use aresdb.Schema.Table.{Table}
use aresdb.MetaStore.{
  DiskMetaStore, Access, File, Action, ok, ◌>>=◌, dir_of, stat, read, schema_file, table_exists,
  read_schema_file,
}
use aresdb.MetaStore.Actions.{bind-ok}
use aresdb.MetaStore.Columns.{with_table}
use aresdb.MetaStore.Enums.Outcomes.{NoFailures}

module _ (fails : Access → File → Bool) (clear : NoFailures fails) where
  pub table_exists-known :
      (name : String) (t : Table) (s : DiskMetaStore)
      → (dir_of name s).schema ≡ some t
      → table_exists fails name s ≡ (ok tt, s)
  unfolding table_exists
  table_exists-known name t s h = rw (clear stat (schema_file name)) (rw h refl)

  read_schema_file-known :
      (name : String) (t : Table) (s : DiskMetaStore)
      → (dir_of name s).schema ≡ some t
      → read_schema_file fails name s ≡ (ok t, s)
  unfolding read_schema_file
  read_schema_file-known name t s h = rw (clear read (schema_file name)) (rw h refl)

  pub with_table-known :
      (name : String) (change : Table → Action (Unit {0})) (t : Table) (s : DiskMetaStore)
      → (dir_of name s).schema ≡ some t
      → with_table fails name change s ≡ change t s
  unfolding with_table
  with_table-known name change t s h =
      bind-ok (table_exists fails name) (λ _. read_schema_file fails name >>= change) s s tt
        (table_exists-known name t s h)
      ∙ bind-ok (read_schema_file fails name) change s s t (read_schema_file-known name t s h)
