-- ===== src/Tests/MetaStores.antt =====
-- A metastore with one table, and the theorems on metastore/disk_metastore.go applied to it.
use Prim.Native.String.{String}
use aresdb.Prelude.{
  ℕ, zero, suc, ◌+◌, ◌<◌, ◌≤◌, ◌≡◌, ◌⊎◌, refl, ap, Bool, true, false, none, some, List, [], ◌∷◌,
  arith, length, get_elem?,
}
use mathlib.Core.Option.{some_inj, none-ne-some}
use aresdb.Prelude.Int.{pos}
use aresdb.Tests.Schemas.{parsers, column, table, time_column, trip_column, trips}
use aresdb.Schema.Table.{Table, Column, ColumnConfig, is_enum_column}
use aresdb.Schema.Update.{validate}
use aresdb.MetaStore.{
  DiskMetaStore, BatchVersion, Access, File, ok, err, io_failure, write, schema_file,
  new_disk_meta_store, TableDir, empty_dir, get_table, table_already_exist, table_does_not_exist,
  enum_cardinality_overflow,
}
use aresdb.MetaStore.Tables.{create_table}
use aresdb.MetaStore.Columns.{find_column, contains_int, add_column, update_column, delete_column}
use aresdb.MetaStore.Enums.{
  cases_of, get_column_by_name, extend_enum_dict, watch_enum_dict_events, enum_cardinality_limit,
}
use aresdb.MetaStore.Enums.Extend.{Outcome}
use aresdb.MetaStore.Enums.Outcomes.{NoFailures, extend_enum_dict-Outcome}
use aresdb.MetaStore.Enums.Watch.{WatchedFrom, extend_all, watch-extend_all}
use aresdb.MetaStore.Refused.{LeavesStore, schema_changes-LeavesStore}
use aresdb.MetaStore.HalfCreated.{create_table-half_created}
use aresdb.MetaStore.SortColumn.{delete_column-blocks_add}
use aresdb.Schema.Table.{SchemaError}
use aresdb.MetaStore.{invalid_schema}
use aresdb.MetaStore.Batches.{latest}
use aresdb.MetaStore.Batches.Version.{IsSorted, IsLatest, latest-IsLatest}

abbrev entry : ℕ → BatchVersion
entry v = record { batch_version = v; seq_num = 0; batch_size = 10 }

abbrev entries : List BatchVersion
entries = entry 4 ∷ entry 7 ∷ []

empty-IsSorted : IsSorted []
empty-IsSorted i j v w h a b = absurd (none-ne-some _ a)

IsSorted-cons :
    (x : BatchVersion) (vs : List BatchVersion)
    → ((j : ℕ) (w : BatchVersion) → get_elem? vs j ≡ some w → x.batch_version ≤ w.batch_version)
    → IsSorted vs
    → IsSorted (x ∷ vs)
IsSorted-cons x vs first rest zero zero v w h a b = omega (
  arith,
  ap (λ (u : BatchVersion). u.batch_version) (some_inj.0 a),
  ap (λ (u : BatchVersion). u.batch_version) (some_inj.0 b),
)
IsSorted-cons x vs first rest zero (suc j) v w h a b =
    omega (arith, ap (λ (u : BatchVersion). u.batch_version) (some_inj.0 a), first j w b)
IsSorted-cons x vs first rest (suc i) zero v w h a b = absurd (omega arith)
IsSorted-cons x vs first rest (suc i) (suc j) v w h a b = rest i j v w (omega arith) a b

last_entry : (j : ℕ) (w : BatchVersion) → get_elem? (entry 7 ∷ []) j ≡ some w → 4 ≤ w.batch_version
last_entry zero w h = omega (arith, ap (λ (u : BatchVersion). u.batch_version) (some_inj.0 h))
last_entry (suc j) w h = absurd (none-ne-some _ h)

entries-IsSorted : IsSorted entries
entries-IsSorted =
    IsSorted-cons (entry 4) (entry 7 ∷ []) last_entry
      (IsSorted-cons (entry 7) [] (λ j w h. absurd (none-ne-some _ h)) empty-IsSorted)

latest-IsLatest_example :
    IsLatest entries 5 (latest entries 5)
    ⊎ ((latest entries 5 ≡ (0, 0, 0))
        × ((j : ℕ) (w : BatchVersion) → get_elem? entries j ≡ some w → 5 < w.batch_version))
latest-IsLatest_example = latest-IsLatest entries 5 entries-IsSorted

abbrev pub cities : Table
cities = table (time_column ∷ trip_column ∷ column "city" "SmallEnum" none false ∷ []) [] (pos 1)

abbrev pub trips_dir : TableDir
trips_dir = record {
  schema = some cities;
  enums = ("city", "paris" ∷ "rome" ∷ []) ∷ [];
  versions = [];
  redolog_offsets = [];
  snapshots = [];
  commit_offsets = [];
  checkpoint_offsets = [];
  archive_batches = [];
}

-- A store with one table, whose column "city" has two cases.
abbrev pub store : DiskMetaStore
store = record {
  tables = ("trips", trips_dir) ∷ [];
  table_list_watcher = false;
  table_schema_watcher = false;
  shard_ownership_watcher = false;
  enum_watchers = [];
  events = [];
}

abbrev pub fine : Access → File → Bool
fine a f = false

extended :
    (extend_enum_dict fine "trips" "city" ("rome" ∷ "oslo" ∷ "oslo" ∷ []) store).0
    ≡ ok (1 ∷ 2 ∷ 2 ∷ [])
unfolding extend_enum_dict
extended = refl

abbrev new_cases : List String
new_cases = "rome" ∷ "oslo" ∷ []

extend_enum_dict-Outcome_example :
    Outcome fine "trips" "city" new_cases store
      (extend_enum_dict fine "trips" "city" new_cases store)
    × ((c : Column)
        → NoFailures fine
        → get_column_by_name fine "trips" "city" store ≡ (ok c, store)
        → is_enum_column c ≡ true
        → (length (cases_of "trips" "city" store) + length new_cases ≤ enum_cardinality_limit c
            → (ids : List ℕ) × ((extend_enum_dict fine "trips" "city" new_cases store).0 ≡ ok ids))
          × (enum_cardinality_limit c < length (cases_of "trips" "city" store) + length new_cases
              → extend_enum_dict fine "trips" "city" new_cases store
                ≡ (err enum_cardinality_overflow, store)))
extend_enum_dict-Outcome_example = extend_enum_dict-Outcome fine "trips" "city" new_cases store

watch-extend_all_example : WatchedFrom fine "trips" "city" 1 (
    extend_all fine "trips" "city"
      (("oslo" ∷ []) ∷ ("rome" ∷ "lima" ∷ []) ∷ [])
      (watch_enum_dict_events fine "trips" "city" 1 store).1)
unfolding watch_enum_dict_events
watch-extend_all_example =
    watch-extend_all fine "trips" "city" 1 (("oslo" ∷ []) ∷ ("rome" ∷ "lima" ∷ []) ∷ []) store
      (omega arith) refl

schema_changes-LeavesStore_example :
    ((t : Table) → LeavesStore store (create_table fine parsers t store))
    × ((name : String) (c : Column) (sorted : Bool)
        → LeavesStore store (add_column fine parsers name c sorted store))
    × ((name c : String) (config : ColumnConfig)
        → LeavesStore store (update_column fine name c config store))
    × ((name c : String) → LeavesStore store (delete_column fine name c store))
schema_changes-LeavesStore_example = schema_changes-LeavesStore fine parsers store

-- The file system that does not let a schema file be written.
abbrev full_disk : Access → File → Bool
full_disk write (schema_file name) = true
full_disk a f = false

create_table-half_created_example :
    let (r, s') = create_table full_disk parsers trips new_disk_meta_store in
    (r ≡ err io_failure)
    × (create_table fine parsers trips s' ≡ (err table_already_exist, s'))
    × (get_table fine "trips" s' ≡ (err table_does_not_exist, s'))
unfolding new_disk_meta_store validate
create_table-half_created_example =
    create_table-half_created parsers trips new_disk_meta_store full_disk fine refl refl refl refl
      refl refl refl

-- A table that is sorted by the city.
abbrev sorted_cities : Table
sorted_cities = record cities { archiving_sort_columns = 2 ∷ [] }

abbrev sorted_store : DiskMetaStore
sorted_store = record store {
  tables = ("trips", record empty_dir { schema = some sorted_cities }) ∷ [];
}

delete_column-blocks_add_example :
    let (r, s') = delete_column fine "trips" "city" sorted_store in
    (r ≡ ok tt)
    × ((new : Column) (sorted : Bool)
        → (e : SchemaError) × (add_column fine parsers "trips" new sorted s'
            ≡ (err (invalid_schema e), s')))
unfolding find_column contains_int
delete_column-blocks_add_example =
    delete_column-blocks_add parsers fine sorted_cities "city" 2 0
      (column "city" "SmallEnum" none false) sorted_store (λ a f. refl) refl refl refl refl refl
