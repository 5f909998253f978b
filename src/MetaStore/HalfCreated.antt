-- ===== src/MetaStore/HalfCreated.antt =====
-- CreateTable (metastore/disk_metastore.go) where the schema file cannot be written.
use Prim.Native.String.{String}
use text.Mathlib.Text.{◌==◌ as str_eq}
use text.Mathlib.TextEquality.{eq_iff}
use aresdb.Prelude.{
  ◌≡◌, inl, inr, refl, ap, ◌∙◌, Bool, true, false, none, List, [], ◌∷◌, map, Bool-cases,
}
use mathlib.Core.Option.{some-ne-none}
use aresdb.Schema.Table.{Table}
use aresdb.Schema.Validator.{Parsers}
use aresdb.Schema.Update.{validate}
use aresdb.MetaStore.{
  DiskMetaStore, TableDir, Access, File, io_failure, ok, err, find, insert, dir_of, empty_dir, read,
  stat, write, make_dir, base_dir, table_dir, schema_file, list_tables, get_table, table_exists,
  read_schema_file, table_already_exist, table_does_not_exist,
}
use aresdb.MetaStore.Tables.{contains, install_table, create_unlisted, create_table}
use aresdb.MetaStore.Actions.{bind-ok, bind-err, dir_of-insert}

abbrev names : DiskMetaStore → List String
names s = map (λ (e : String × TableDir). e.0) s.tables

contains-insert :
    (k : String) (d : TableDir) (t : List (String × TableDir))
    → contains (map (λ (e : String × TableDir). e.0) (insert k d t)) k ≡ true
unfolding contains
contains-insert k d [] = rw ((eq_iff k k).1 refl) refl
contains-insert k d ((j, w) ∷ t) = elim (Bool-cases (str_eq j k)) [
  | inl same ↦ rw same (rw same refl)
  | inr other ↦ rw other (rw other (contains-insert k d t))
]

contains-none :
    (k : String) (t : List (String × TableDir))
    → find k t ≡ none
    → contains (map (λ (e : String × TableDir). e.0) t) k ≡ false
unfolding contains
contains-none k [] h = refl
contains-none k ((j, w) ∷ t) h = elim (Bool-cases (str_eq j k)) [
  | inl same ↦ absurd (some-ne-none _ (rw same at h))
  | inr other ↦ rw other (contains-none k t (rw other at h))
]

list_tables-names :
    (fails : Access → File → Bool) (s : DiskMetaStore)
    → fails read base_dir ≡ false
    → list_tables fails s ≡ (ok (names s), s)
unfolding list_tables
list_tables-names fails s h = rw h refl

module _ (go : Parsers) (table : Table) (s : DiskMetaStore) where
  -- The store with an empty directory for the table.
  abbrev half : DiskMetaStore
  half = record s { tables = insert table.name (dir_of table.name s) s.tables }

  install-refused :
      (fails : Access → File → Bool)
      → fails make_dir (table_dir table.name) ≡ false
      → fails write (schema_file table.name) ≡ true
      → install_table fails table s ≡ (err io_failure, half)
  unfolding install_table
  install-refused fails made refused = rw (made, refused) refl

  create_unlisted-known :
      (fails : Access → File → Bool) (existing : List String)
      → contains existing table.name ≡ true
      → create_unlisted fails go table existing s ≡ (err table_already_exist, s)
  unfolding create_unlisted
  create_unlisted-known fails existing known = rw known refl

  create_unlisted-new :
      (fails : Access → File → Bool) (existing : List String)
      → contains existing table.name ≡ false
      → validate go none table ≡ none
      → create_unlisted fails go table existing s ≡ install_table fails table s
  unfolding create_unlisted
  create_unlisted-new fails existing new valid = rw new (rw valid refl)

  create_table-listed :
      (fails : Access → File → Bool)
      → fails read base_dir ≡ false
      → create_table fails go table s ≡ create_unlisted fails go table (names s) s
  unfolding create_table
  create_table-listed fails listed =
      bind-ok (list_tables fails) (create_unlisted fails go table) s s (names s)
        (list_tables-names fails s listed)

table_exists-none :
    (fails : Access → File → Bool) (name : String) (s : DiskMetaStore)
    → fails stat (schema_file name) ≡ false
    → (dir_of name s).schema ≡ none
    → table_exists fails name s ≡ (err table_does_not_exist, s)
unfolding table_exists
table_exists-none fails name s found missing = rw found (rw missing refl)

-- A table without a schema does not exist.
get_table-none :
    (fails : Access → File → Bool) (name : String) (s : DiskMetaStore)
    → fails stat (schema_file name) ≡ false
    → (dir_of name s).schema ≡ none
    → get_table fails name s ≡ (err table_does_not_exist, s)
unfolding get_table
get_table-none fails name s found missing =
    bind-err (table_exists fails name) (λ _. read_schema_file fails name) s s table_does_not_exist
      (table_exists-none fails name s found missing)

dir_of-none :
    (name : String) (s : DiskMetaStore) → find name s.tables ≡ none → dir_of name s ≡ empty_dir
dir_of-none name s h = rw (h, dir_of) refl

-- A new table of a valid schema is created while its directory can be made and its schema file
-- cannot be written. The call fails, and leaves the directory: a later CreateTable of the table,
-- with the file system working again, fails with ErrTableAlreadyExist, while GetTable fails with
-- ErrTableDoesNotExist.
pub create_table-half_created :
    (go : Parsers) (table : Table) (s : DiskMetaStore) (fails later : Access → File → Bool)
    → find table.name s.tables ≡ none
    → validate go none table ≡ none
    → fails read base_dir ≡ false
    → fails make_dir (table_dir table.name) ≡ false
    → fails write (schema_file table.name) ≡ true
    → later read base_dir ≡ false
    → later stat (schema_file table.name) ≡ false
    → let (r, s') = create_table fails go table s in
      (r ≡ err io_failure)
      × (create_table later go table s' ≡ (err table_already_exist, s'))
      × (get_table later table.name s' ≡ (err table_does_not_exist, s'))
create_table-half_created go table s fails later new valid listed made refused listed' found =
    let first =
      create_table-listed go table s fails listed
      ∙ create_unlisted-new go table s fails (names s) (contains-none table.name s.tables new) valid
      ∙ install-refused go table s fails made refused in
    let s' = half go table s in
    let no_schema : (dir_of table.name s').schema ≡ none =
      ap (λ (d : TableDir). d.schema)
        (dir_of-insert table.name (dir_of table.name s) s ∙ dir_of-none table.name s new) in
    rw first (
      refl,
      create_table-listed go table s' later listed'
          ∙ create_unlisted-known go table s' later (names s')
              (contains-insert table.name (dir_of table.name s) s.tables),
      get_table-none later table.name s' found no_schema,
    )
