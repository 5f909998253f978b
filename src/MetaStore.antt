-- ===== src/MetaStore.antt =====
-- metastore/disk_metastore.go: the state of diskMetaStore and its access to files. The files of a
-- table are kept as what they say: encoding/json and the printed numbers read back as they were
-- written, and no enum case holds the delimiter. `fails` says which accesses the file system refuses
-- during an operation; a write that it takes is complete. The operations run one after another,
-- as the locks make them.
use Prim.Native.String.{String}
use text.Mathlib.Text.{◌==◌ as str_eq}
use aresdb.Prelude.{
  ℕ, Bool, true, false, Option, none, some, List, [], ◌∷◌, ◌++◌, map, if◌then◌else◌,
}
use aresdb.Prelude.Int.{ℤ, pos}
use aresdb.Prelude.Dict.{Dict}
use aresdb.Schema.Table.{Table, SchemaError}
pub mod Actions
pub mod Shards
pub mod Tables
pub mod Columns
pub mod Enums
pub mod Batches
pub mod Failures
pub mod Refused
pub mod HalfCreated
pub mod Known
pub mod SortColumn

pub data MetaError : Type 0 where
  table_already_exist table_does_not_exist column_does_not_exist not_enum_column : MetaError
  not_fact_table not_dimension_table watcher_already_exist enum_cardinality_overflow : MetaError
  delete_time_column delete_primary_key_column : MetaError
  invalid_schema : SchemaError → MetaError
  io_failure : MetaError

pub data ShardFile : Type 0 where
  version redolog_offset snapshot commit_offset checkpoint_offset batches : ShardFile

pub data File : Type 0 where
  base_dir : File
  table_dir schema_file : String → File
  enum_file : String → String → File
  shard_file : String → ℕ → ShardFile → File
  batch_file : String → ℕ → ℕ → File

pub data Access : Type 0 where
  stat read write make_dir remove : Access

-- A line of the file of an archive batch: `seq_num` is 0 where the line has none.
pub record BatchVersion : Type 0 where
  pub batch_version : ℕ
  pub seq_num : ℕ
  pub batch_size : ℕ

-- The files of a table. The maps are from shards.
pub record TableDir : Type 0 where
  pub schema : Option Table
  pub enums : List (String × List String)
  pub versions : Dict ℕ
  pub redolog_offsets : Dict (ℤ × ℕ)
  pub snapshots : Dict (ℤ × ℕ × ℤ × ℕ)
  pub commit_offsets : Dict ℕ
  pub checkpoint_offsets : Dict ℕ
  pub archive_batches : Dict (Dict (List BatchVersion))

-- What a watcher is sent.
pub data Event : Type 0 where
  table_list : List String → Event
  table_schema : Table → Event
  shard_ownership : String → Event

-- `enum_watchers` has, for each column of each table that is watched, the cases sent so far.
pub record DiskMetaStore : Type 0 where
  pub tables : List (String × TableDir)
  pub table_list_watcher : Bool
  pub table_schema_watcher : Bool
  pub shard_ownership_watcher : Bool
  pub enum_watchers : List (String × List (String × List String))
  pub events : List Event

pub data Result (A : Type 0) : Type 0 where
  ok : A → Result A
  err : MetaError → Result A

-- An operation: its result, and the store that it leaves.
abbrev pub Action : Type 0 → Type 0
Action A = DiskMetaStore → Result A × DiskMetaStore

module _ {A : Type 0} where
  abbrev pub pure : A → Action A
  pure a s = (ok a, s)

  abbrev pub raise : MetaError → Action A
  raise e s = (err e, s)

infixl 5 ◌>>=◌ ◌>>◌
abbrev pub ◌>>=◌ : {A B : Type 0} → Action A → (A → Action B) → Action B
◌>>=◌ m f s = let (r, s') = m s in elim r [ ok a ↦ f a s' | err e ↦ raise e s' ]

abbrev pub ◌>>◌ : {B : Type 0} → Action (Unit {0}) → Action B → Action B
m >> k = m >>= λ _. k

abbrev pub raise_if : Bool → MetaError → Action (Unit {0})
raise_if b e = if b then raise e else pure tt

-- Maps from texts.
module _ {V : Type 0} where
  abbrev pub find : String → List (String × V) → Option V
  find k [] = none
  find k ((j, v) ∷ d) = let rest = find k d in if str_eq j k then some v else rest

  abbrev pub insert : String → V → List (String × V) → List (String × V)
  insert k v [] = (k, v) ∷ []
  insert k v ((j, w) ∷ d) =
      let rest = insert k v d in if str_eq j k then (j, v) ∷ d else (j, w) ∷ rest

  abbrev pub erase : String → List (String × V) → List (String × V)
  erase k [] = []
  erase k ((j, w) ∷ d) = let rest = erase k d in if str_eq j k then rest else (j, w) ∷ rest

abbrev pub empty_dir : TableDir
empty_dir = record {
  schema = none;
  enums = [];
  versions = [];
  redolog_offsets = [];
  snapshots = [];
  commit_offsets = [];
  checkpoint_offsets = [];
  archive_batches = [];
}

-- The files of a table, none if it has no directory.
abbrev pub dir_of : String → DiskMetaStore → TableDir
dir_of table s = elim (find table s.tables) [ none ↦ empty_dir | some d ↦ d ]

unfoldable pub new_disk_meta_store : DiskMetaStore
new_disk_meta_store = record {
  tables = [];
  table_list_watcher = false;
  table_schema_watcher = false;
  shard_ownership_watcher = false;
  enum_watchers = [];
  events = [];
}

-- A change of the files of a table.
unfoldable pub update_dir : String → (TableDir → TableDir) → Action (Unit {0})
update_dir table f s = (ok tt, record s { tables = insert table (f (dir_of table s)) s.tables })

module _ (fails : Access → File → Bool) where
  unfoldable pub access : Access → File → Action (Unit {0})
  access a file = raise_if (fails a file) io_failure

  -- MkdirAll of a directory below that of the table.
  unfoldable pub make_dir_all : String → File → Action (Unit {0})
  unfolding access update_dir
  make_dir_all table file = do access make_dir file; update_dir table (λ d. d)

  unfoldable pub list_tables : Action (List String)
  unfolding access
  list_tables = do
    access read base_dir
    (λ s. (ok (map (λ (e : String × TableDir). e.0) s.tables), s))

  unfoldable pub table_exists : String → Action (Unit {0})
  unfolding access
  table_exists table = do
    access stat (schema_file table)
    (λ s. elim (dir_of table s).schema [
      | none ↦ (err table_does_not_exist, s)
      | some _ ↦ (ok tt, s)
    ])

  unfoldable pub read_schema_file : String → Action Table
  unfolding access
  read_schema_file table = do
    access read (schema_file table)
    (λ s. elim (dir_of table s).schema [ none ↦ (err io_failure, s) | some t ↦ (ok t, s) ])

  -- The directory of the table is there.
  unfoldable pub write_schema_file : Table → Action (Unit {0})
  unfolding access update_dir
  write_schema_file table = do
    access write (schema_file table.name)
    update_dir table.name (λ d. record d { schema = some table })

  unfoldable pub get_table : String → Action Table
  unfolding table_exists read_schema_file
  get_table name = do table_exists name; read_schema_file name

-- pushSchemaChange and pushShardOwnershipChange, whose watchers have taken the event on return.
unfoldable pub push_schema_change : Table → Action (Unit {0})
push_schema_change table s = (
  ok tt,
  if s.table_schema_watcher then record s { events = s.events ++ table_schema table ∷ [] } else s,
)

unfoldable pub push_shard_ownership_change : String → Action (Unit {0})
push_shard_ownership_change name s = (
  ok tt,
  if s.shard_ownership_watcher
      then record s { events = s.events ++ shard_ownership name ∷ [] }
      else s,
)

unfoldable pub watch_table_list_events : Action (Unit {0})
watch_table_list_events s =
    if s.table_list_watcher
    then (err watcher_already_exist, s)
    else (ok tt, record s { table_list_watcher = true })

unfoldable pub watch_table_schema_events : Action (Unit {0})
watch_table_schema_events s =
    if s.table_schema_watcher
    then (err watcher_already_exist, s)
    else (ok tt, record s { table_schema_watcher = true })

unfoldable pub watch_shard_ownership_events : Action (Unit {0})
watch_shard_ownership_events s =
    if s.shard_ownership_watcher
    then (err watcher_already_exist, s)
    else (ok tt, record s { shard_ownership_watcher = true })
