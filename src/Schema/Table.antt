-- ===== src/Schema/Table.antt =====
-- metastore/common/model.go: tables and columns; metastore/common/errors.go: the errors of their
-- validation. Integers that Go indexes slices with are natural numbers.
use Prim.Native.String.{String}
use text.Mathlib.Text.{◌==◌ as str_eq}
use aresdb.Prelude.{ℕ, Bool, ◌||◌, Option, List, if◌then◌else◌}
use aresdb.Prelude.Int.{ℤ}
use aresdb.Schema.DataType.{DataType, uint32, data_type_from_string}

pub record ColumnConfig : Type 0 where
  pub preloading_days : ℤ
  pub priority : ℤ

pub record Column : Type 0 where
  pub name : String
  pub type : String
  pub deleted : Bool
  pub default_value : Option String
  pub case_insensitive : Bool
  pub disable_auto_expand : Bool
  pub config : ColumnConfig
  -- `HLLConfig.IsHLLColumn`
  pub is_hll_column : Bool

pub record TableConfig : Type 0 where
  pub initial_primary_key_num_buckets : ℤ
  pub batch_size : ℤ
  pub redo_log_rotation_interval : ℤ
  pub max_redo_log_file_size : ℤ
  pub archiving_delay_minutes : ℕ
  pub archiving_interval_minutes : ℕ
  pub backfill_interval_minutes : ℕ
  pub backfill_max_buffer_size : ℤ
  pub backfill_threshold_in_bytes : ℤ
  pub backfill_store_batch_size : ℤ
  pub record_retention_in_days : ℤ
  pub snapshot_threshold : ℤ
  pub snapshot_interval_minutes : ℤ
  pub allow_missing_event_time : Bool

pub record Table : Type 0 where
  pub name : String
  pub columns : List Column
  pub primary_key_columns : List ℕ
  pub is_fact_table : Bool
  pub config : TableConfig
  pub archiving_sort_columns : List ℕ
  pub incarnation : ℤ
  pub version : ℤ

pub data SchemaError : Type 0 where
  duplicated_column_name invalid_data_type missing_time_column : SchemaError
  hll_type_not_allowed time_column_does_not_allow_hll_config : SchemaError
  time_column_does_not_allow_default hll_column_does_not_allow_default_value : SchemaError
  invalid_default_value all_columns_invalid missing_primary_key column_non_exist : SchemaError
  column_deleted duplicated_column invalid_primary_key_data_type invalid_table_config : SchemaError
  invalid_sort_column_data_type schema_update_not_allowed insufficient_column_count : SchemaError
  disallow_missing_event_time reusing_column_id_not_allowed change_primary_key_column : SchemaError
  illegal_change_sort_column : SchemaError

-- memstore/common/data_type.go: an HLL column stores its hash.
unfoldable pub data_type_for_column : Column → DataType
data_type_for_column column =
    if column.is_hll_column then uint32 else data_type_from_string column.type

unfoldable pub is_enum_column : Column → Bool
is_enum_column c = str_eq c.type "BigEnum" || str_eq c.type "SmallEnum"

unfoldable pub is_enum_array_column : Column → Bool
is_enum_array_column c = str_eq c.type "BigEnum[]" || str_eq c.type "SmallEnum[]"

unfoldable pub is_enum_based_column : Column → Bool
unfolding is_enum_column is_enum_array_column
is_enum_based_column c = is_enum_array_column c || is_enum_column c

unfoldable pub enum_cardinality : String → ℕ
enum_cardinality t = if str_eq t "SmallEnum" then 256 else if str_eq t "BigEnum" then 65536 else 0
