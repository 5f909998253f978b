-- ===== src/MetaStore/SortColumn.antt =====
-- DeleteColumn (metastore/disk_metastore.go) on a column that the table is sorted by in its archive.
use Prim.Native.String.{String}
use text.Mathlib.Text.{◌==◌ as str_eq}
use mathlib.Core.Bool.{false≢true}
use mathlib.Core.Option.{none-ne-some, some_inj}
use aresdb.Prelude.{
  ℕ, zero, suc, ◌+◌, ◌<◌, ◌≡◌, inl, inr, refl, sym, ap, ◌∙◌, Bool, true, false, not, ◌&&◌, ◌==◌,
  some, List, [], ◌∷◌, ◌++◌, arith, length, get_elem?, set, get_elem?-set_self, Option-cases,
  Bool-cases, if◌then◌else◌,
}
use aresdb.Schema.Table.{Table, Column, SchemaError, is_enum_based_column}
use aresdb.Schema.Validator.{Parsers}
use aresdb.Schema.Update.{validate}
use aresdb.Schema.Update.Compatible.{Usable, validate_schema_update_iff}
use aresdb.MetaStore.{
  DiskMetaStore, TableDir, Access, File, Action, Result, ok, err, erase, dir_of, pure, ◌>>◌, access,
  remove, write, enum_file, schema_file, write_schema_file, push_schema_change, invalid_schema,
  update_dir,
}
use aresdb.MetaStore.Known.{with_table-known}
use aresdb.MetaStore.Actions.{bind-ok, dir_of-insert}
use aresdb.MetaStore.Columns.{
  find_column, contains_int, with_column, add_column_to, add_column, remove_enum_column,
  save_deletion, delete_column_of, delete_column,
}
use aresdb.MetaStore.Enums.Outcomes.{NoFailures}

Usable-live :
    (columns : List Column) (ids : List ℕ) (i x : ℕ)
    → Usable columns ids
    → get_elem? ids i ≡ some x
    → (c : Column) × (get_elem? columns x ≡ some c) × (c.deleted ≡ false)
Usable-live columns [] i x h e = absurd (none-ne-some _ e)
Usable-live columns (y ∷ ids) zero x (h, rest) e = rw (← (some_inj.0 e)) h
Usable-live columns (y ∷ ids) (suc i) x (h, rest) e = Usable-live columns ids i x rest e

get_elem?-front :
    {A : Type 0} (xs ys : List A) (i : ℕ) (x : A)
    → get_elem? xs i ≡ some x
    → get_elem? (xs ++ ys) i ≡ some x
get_elem?-front [] ys i x e = absurd (none-ne-some _ e)
get_elem?-front (a ∷ xs) ys zero x e = e
get_elem?-front (a ∷ xs) ys (suc i) x e = get_elem?-front xs ys i x e

find_column-in_range :
    (name : String) (k : ℕ) (cs : List Column) (id : ℕ) (c : Column)
    → find_column name k cs ≡ some (id, c)
    → (j : ℕ) × (id ≡ k + j) × (j < length cs)
unfolding find_column
find_column-in_range name k [] id c h = absurd (none-ne-some _ h)
find_column-in_range name k (x ∷ cs) id c h =
    elim (Bool-cases (str_eq x.name name && not x.deleted)) [
      | inl here ↦
          (0, omega (arith, ap (λ (p : ℕ × Column). p.0) (some_inj.0 (rw here at h))), omega arith)
      | inr other ↦
          let (j, e, b) = find_column-in_range name (suc k) cs id c (rw other at h) in
          (suc j, omega arith, omega arith)
    ]

-- The schema with a column marked as deleted.
abbrev without : Table → ℕ → Column → Table
without t id c = record t { columns = set t.columns id (record c { deleted = true }) }

-- A table that is sorted by a deleted column takes no further column.
sorted_by_deleted :
    (go : Parsers) (t : Table) (id i : ℕ) (c new : Column) (sorted : Bool)
    → get_elem? t.columns id ≡ some c
    → c.deleted ≡ true
    → get_elem? t.archiving_sort_columns i ≡ some id
    → (e : SchemaError) × (validate go (some t) (with_column t new sorted) ≡ some e)
unfolding validate with_column
sorted_by_deleted go t id i c new sorted there gone at =
    elim (Option-cases (validate go (some t) (with_column t new sorted))) [
      | inr (e, h) ↦ (e, h)
      | inl h ↦
          let table = with_column t new sorted in
          let usable = ((validate_schema_update_iff go table t).0 h).2 in
          let sorts : get_elem? table.archiving_sort_columns i ≡ some id =
            elim (Bool-cases sorted) [
              | inl more ↦
                  rw more (get_elem?-front t.archiving_sort_columns (length t.columns ∷ []) i id at)
              | inr same ↦ rw same at
            ] in
          let (d, e, live) =
            Usable-live table.columns table.archiving_sort_columns i id usable sorts in
          let same = some_inj.0 (sym (get_elem?-front t.columns (new ∷ []) id c there) ∙ e) in
          absurd (false≢true (sym live ∙ sym (ap (λ (x : Column). x.deleted) same) ∙ gone))
    ]

-- The table is stored with this schema.
abbrev Stored : Table → DiskMetaStore → Type 0
Stored t s = (dir_of t.name s).schema ≡ some t

-- The operation succeeds, and then the table is stored with this schema.
abbrev Leaves : Table → Action (Unit {0}) → DiskMetaStore → Type 0
Leaves t m s = let (r, s') = m s in (r ≡ ok tt) × Stored t s'

Leaves-then :
    (t : Table) (m k : Action (Unit {0})) (s : DiskMetaStore)
    → Leaves t m s
    → ((s' : DiskMetaStore) → Stored t s' → Leaves t k s')
    → Leaves t (m >> k) s
Leaves-then t m k s (done, stored) rest =
    let first : m s ≡ (ok tt, (m s).1) = ap (λ (r : Result (Unit {0})). (r, (m s).1)) done in
    rw (bind-ok m (λ _. k) s (m s).1 tt first) (rest (m s).1 stored)

Leaves-push : (t u : Table) (s : DiskMetaStore) → Stored t s → Leaves t (push_schema_change u) s
unfolding push_schema_change
Leaves-push t u s h = elim (Bool-cases s.table_schema_watcher) [
  | inl watched ↦ rw watched (refl, h)
  | inr alone ↦ rw alone (refl, h)
]

module _ (fails : Access → File → Bool) (clear : NoFailures fails) where
  Leaves-remove_enum_column :
      (t : Table) (column : String) (s : DiskMetaStore)
      → Stored t s
      → Leaves t (remove_enum_column fails t.name column) s
  unfolding remove_enum_column update_dir
  Leaves-remove_enum_column t column s h =
      let d = dir_of t.name s in
      let files = record d { enums = erase column d.enums } in
      rw (clear remove (enum_file t.name column))
        (refl, ap (λ (x : TableDir). x.schema) (dir_of-insert t.name files s) ∙ h)

  Leaves-write_schema_file :
      (t : Table) (s : DiskMetaStore) → Leaves t (write_schema_file fails t) s
  unfolding write_schema_file access update_dir
  Leaves-write_schema_file t s =
      let files = record (dir_of t.name s) { schema = some t } in
      rw (clear write (schema_file t.name))
        (refl, ap (λ (x : TableDir). x.schema) (dir_of-insert t.name files s))

  Leaves-save_deletion :
      (t : Table) (c : Column) (s : DiskMetaStore) → Leaves t (save_deletion fails t c) s
  unfolding save_deletion
  Leaves-save_deletion t c s =
      let enums : Action (Unit {0}) =
        if is_enum_based_column c then remove_enum_column fails t.name c.name else pure tt in
      Leaves-then t (write_schema_file fails t) (enums >> push_schema_change t) s
        (Leaves-write_schema_file t s)
        (λ s1 h1.
          Leaves-then t enums (push_schema_change t) s1
            (elim (Bool-cases (is_enum_based_column c)) [
              | inl enum ↦ rw enum (Leaves-remove_enum_column t c.name s1 h1)
              | inr plain ↦ rw plain (refl, h1)
            ])
            (λ s2 h2. Leaves-push t t s2 h2))

  Leaves-delete_column :
      (t : Table) (column : String) (id : ℕ) (c : Column) (s : DiskMetaStore)
      → Stored t s
      → find_column column 0 t.columns ≡ some (id, c)
      → (t.is_fact_table && id == 0) ≡ false
      → contains_int t.primary_key_columns id ≡ false
      → Leaves (without t id c) (delete_column fails t.name column) s
  unfolding delete_column delete_column_of
  Leaves-delete_column t column id c s stored there other free =
      rw (with_table-known fails clear t.name (delete_column_of fails column) t s stored) (
        rw (there, delete_column_of) (rw (other, free) (Leaves-save_deletion (without t id c) c s)))

  add_column-refused :
      (go : Parsers) (t : Table) (new : Column) (sorted : Bool) (e : SchemaError)
      (s : DiskMetaStore)
      → Stored t s
      → validate go (some t) (with_column t new sorted) ≡ some e
      → add_column fails go t.name new sorted s ≡ (err (invalid_schema e), s)
  unfolding add_column add_column_to
  add_column-refused go t new sorted e s stored h =
      rw (with_table-known fails clear t.name (add_column_to fails go new sorted) t s stored)
        (rw (h, add_column_to) refl)

-- DeleteColumn of a column that the archive is sorted by, which is neither the time column of a
-- fact table nor in the primary key, succeeds while the file system works. In the store that it
-- leaves, AddColumn fails for every new column with an error of the validator.
pub delete_column-blocks_add :
    (go : Parsers) (fails : Access → File → Bool) (t : Table) (column : String) (id i : ℕ)
    (c : Column) (s : DiskMetaStore)
    → NoFailures fails
    → (dir_of t.name s).schema ≡ some t
    → find_column column 0 t.columns ≡ some (id, c)
    → (t.is_fact_table && id == 0) ≡ false
    → contains_int t.primary_key_columns id ≡ false
    → get_elem? t.archiving_sort_columns i ≡ some id
    → let (r, s') = delete_column fails t.name column s in
      (r ≡ ok tt)
      × ((new : Column) (sorted : Bool)
          → (e : SchemaError) × (add_column fails go t.name new sorted s'
              ≡ (err (invalid_schema e), s')))
delete_column-blocks_add go fails t column id i c s clear stored there other free sorts =
    let (done, stored') =
      Leaves-delete_column fails clear t column id c s stored there other free in
    let (j, same, bound) = find_column-in_range column 0 t.columns id c there in
    let gone = record c { deleted = true } in
    (
      done,
      λ new sorted.
          let (e, h) =
            sorted_by_deleted go (without t id c) id i gone new sorted
              (get_elem?-set_self t.columns id gone (omega arith)) refl sorts in
          (e, add_column-refused fails clear go (without t id c) new sorted e _ stored' h),
    )
