-- ===== src/Tests/Schemas.antt =====
-- A fact table and two updates of it, and the theorems on metastore/validator.go applied to them.
use Prim.Native.String.{String}
use text.Mathlib.Text.{◌==◌ as str_eq}
use aresdb.Prelude.{ℕ, ◌≡◌, ◌↔◌, refl, Bool, true, false, Option, none, some, List, [], ◌∷◌, leb}
use aresdb.Prelude.Int.{ℤ, pos}
use aresdb.Schema.Table.{Column, ColumnConfig, Table, TableConfig}
use aresdb.Schema.Validator.{Parsers, validate_individual_schema}
use aresdb.Schema.Valid.Whole.{IsWellFormed, validate_individual_schema-IsWellFormed}
use aresdb.Schema.Update.{validate, validate_schema_update}
use aresdb.Schema.Update.Compatible.{Compatible, Usable, validate_schema_update_iff}
use aresdb.Schema.Update.History.{Accepted-Compatible}

-- Parsers that accept the words that the tables here use.
abbrev pub parsers : Parsers
parsers = record {
  parse_bool = λ s. str_eq s "true";
  parse_int = λ s bits. str_eq s "-1";
  parse_uint = λ s bits. str_eq s "1";
  parse_float = λ s bits. str_eq s "1.5";
  decode_uuid = λ s. false;
  geo_point_from_string = λ s. false;
  array_value_from_string = λ s d. false;
  validate_config = λ c. leb 1 c.archiving_interval_minutes;
}

abbrev pub column_config : ColumnConfig
column_config = record { preloading_days = pos 1; priority = pos 0 }

abbrev pub column : String → String → Option String → Bool → Column
column name type default_value deleted = record {
  name = name;
  type = type;
  deleted = deleted;
  default_value = default_value;
  case_insensitive = false;
  disable_auto_expand = false;
  config = column_config;
  is_hll_column = false;
}

abbrev pub config : TableConfig
config = record {
  initial_primary_key_num_buckets = pos 1000;
  batch_size = pos 2097152;
  redo_log_rotation_interval = pos 10800;
  max_redo_log_file_size = pos 1073741824;
  archiving_delay_minutes = 1440;
  archiving_interval_minutes = 180;
  backfill_interval_minutes = 60;
  backfill_max_buffer_size = pos 4294967296;
  backfill_threshold_in_bytes = pos 2097152;
  backfill_store_batch_size = pos 20000;
  record_retention_in_days = pos 90;
  snapshot_threshold = pos 6291456;
  snapshot_interval_minutes = pos 360;
  allow_missing_event_time = false;
}

abbrev pub time_column : Column
time_column = column "request_at" "Uint32" none false

abbrev pub trip_column : Column
trip_column = column "trip_id" "UUID" none false

abbrev pub table : List Column → List ℕ → ℤ → Table
table columns sort_columns version = record {
  name = "trips";
  columns = columns;
  primary_key_columns = 1 ∷ [];
  is_fact_table = true;
  config = config;
  archiving_sort_columns = sort_columns;
  incarnation = pos 0;
  version = version;
}

abbrev pub trips : Table
trips = table (time_column ∷ trip_column ∷ column "fare" "Int32" (some "-1") false ∷ []) [] (pos 1)

-- Sorted by the trip, without the fare.
abbrev sorted : Table
sorted =
    table (time_column ∷ trip_column ∷ column "fare" "Int32" (some "-1") true ∷ []) (1 ∷ []) (pos 2)

-- With a city.
abbrev with_city : Table
with_city =
    table
      (time_column
        ∷ trip_column
        ∷ column "fare" "Int32" (some "-1") true
        ∷ column "city" "Uint16" none false
        ∷ [])
      (1 ∷ 3 ∷ []) (pos 3)

trips_accepted : validate_individual_schema parsers trips ≡ none
unfolding validate_individual_schema
trips_accepted = refl

sorted_accepted : validate parsers (some trips) sorted ≡ none
unfolding validate
sorted_accepted = refl

with_city_accepted : validate parsers (some sorted) with_city ≡ none
unfolding validate
with_city_accepted = refl

validate_individual_schema-IsWellFormed_example : IsWellFormed parsers trips
validate_individual_schema-IsWellFormed_example =
    validate_individual_schema-IsWellFormed parsers trips trips_accepted

validate_schema_update_iff_example :
    (validate_schema_update parsers sorted trips ≡ none)
    ↔ (validate_individual_schema parsers sorted ≡ none)
      × Compatible trips sorted
      × Usable sorted.columns sorted.archiving_sort_columns
validate_schema_update_iff_example = validate_schema_update_iff parsers sorted trips

Accepted-Compatible_example : Compatible trips with_city
Accepted-Compatible_example =
    Accepted-Compatible parsers trips sorted (with_city ∷ [])
      (sorted_accepted, (with_city_accepted, tt))
