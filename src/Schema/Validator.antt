-- ===== src/Schema/Validator.antt =====
-- metastore/validator.go: the validation of a table, alone and as an update of another. An error is
-- returned at the first check that fails, in the order of the source.
use aresdb.Schema.Checks.{
  Checked, ◌>>◌, reject_if, validate_column_hll_config, contains_name, non_deleted_columns_count,
  check_ids, in_array_range,
}
use Prim.Native.String.{String}
use text.Mathlib.Text.{◌==◌ as str_eq}
use aresdb.Prelude.{
  ℕ, suc, Bool, true, false, not, ◌&&◌, ◌||◌, Option, none, some, List, [], ◌∷◌, ◌==◌,
  if◌then◌else◌, length,
}
use aresdb.Schema.DataType.{
  DataType, unknown, bool, int8, uint8, int16, uint16, int32, uint32, int64, float32, uuid,
  geo_point, small_enum, big_enum, data_type_from_string, is_array_type, get_element_data_type,
}
use aresdb.Schema.Table.{
  Column, Table, TableConfig, duplicated_column_name, invalid_data_type, missing_time_column,
  time_column_does_not_allow_hll_config, time_column_does_not_allow_default,
  hll_column_does_not_allow_default_value, invalid_default_value, all_columns_invalid,
  missing_primary_key, invalid_primary_key_data_type, invalid_table_config,
  invalid_sort_column_data_type,
}

-- What the validator takes of other packages: whether strconv, encoding/hex and the parsers of
-- points and arrays accept a text, and gopkg.in/validator.v2 on the configuration.
pub record Parsers : Type 0 where
  pub parse_bool : String → Bool
  pub parse_int : String → ℕ → Bool
  pub parse_uint : String → ℕ → Bool
  pub parse_float : String → ℕ → Bool
  pub decode_uuid : String → Bool
  pub geo_point_from_string : String → Bool
  pub array_value_from_string : String → DataType → Bool
  pub validate_config : TableConfig → Bool

module _ (go : Parsers) where
  -- The text is accepted by the parser of its type.
  accepted : String → DataType → Bool
  accepted str d =
      if d == bool
      then go.parse_bool str
      else if d == int8
      then go.parse_int str 8
      else if d == uint8 || d == small_enum
      then go.parse_uint str 8
      else if d == int16
      then go.parse_int str 16
      else if d == uint16 || d == big_enum
      then go.parse_uint str 16
      else if d == int32
      then go.parse_int str 32
      else if d == uint32
      then go.parse_uint str 32
      else if d == int64
      then go.parse_int str 64
      else if d == float32
      then go.parse_float str 32
      else if d == uuid
      then go.decode_uuid str
      else if d == geo_point
      then go.geo_point_from_string str
      else if is_array_type d
      then go.array_value_from_string str (get_element_data_type d)
      else false

  -- The error and the field Valid of ValueFromString: `none` is an error.
  unfoldable pub value_from_string : String → DataType → Option Bool
  unfolding accepted is_array_type get_element_data_type
  value_from_string str d =
      if str_eq str "" || str_eq str "null"
      then some false
      else if accepted str d
      then some true
      else none

  unfoldable pub validate_default_value : String → String → Checked
  unfolding value_from_string data_type_from_string
  validate_default_value value data_type =
      let d = data_type_from_string data_type in
      if d == big_enum || d == small_enum
      then none
      else elim (value_from_string value d) [ some true ↦ none | _ ↦ some invalid_default_value ]

  -- The checks of the default value, under `if column.DefaultValue != nil`.
  unfoldable pub check_default : Bool → Column → Checked
  unfolding validate_default_value
  check_default is_time c = elim c.default_value [
    | none ↦ none
    | some v ↦ do
      reject_if is_time time_column_does_not_allow_default
      reject_if c.is_hll_column hll_column_does_not_allow_default_value
      validate_default_value v c.type
  ]

  -- One round of the loop over the columns; `is_time` is `table.IsFactTable && columnID == 0`.
  unfoldable pub check_column : Bool → List String → Column → Checked
  unfolding contains_name data_type_from_string validate_column_hll_config check_default
  check_column is_time seen c = do
    reject_if (contains_name seen c.name) duplicated_column_name
    reject_if (data_type_from_string c.type == unknown) invalid_data_type
    reject_if (is_time && not (data_type_from_string c.type == uint32)) missing_time_column
    validate_column_hll_config c
    reject_if (is_time && c.is_hll_column) time_column_does_not_allow_hll_config
    check_default is_time c

  unfoldable pub check_columns : Bool → ℕ → List String → List Column → Checked
  unfolding check_column
  check_columns is_fact id seen [] = none
  check_columns is_fact id seen (c ∷ cs) = do
    check_column (is_fact && id == 0) seen c
    check_columns is_fact (suc id) (c.name ∷ seen) cs

  unfoldable pub validate_individual_schema : Table → Checked
  unfolding check_columns non_deleted_columns_count check_ids
  validate_individual_schema table = do
    check_columns table.is_fact_table 0 [] table.columns
    reject_if (non_deleted_columns_count table.columns == 0) all_columns_invalid
    reject_if (length table.primary_key_columns == 0) missing_primary_key
    check_ids table.columns is_array_type invalid_primary_key_data_type [] table.primary_key_columns
    reject_if (not (go.validate_config table.config)) invalid_table_config
    if table.is_fact_table
        then check_ids table.columns in_array_range invalid_sort_column_data_type []
            table.archiving_sort_columns
        else none
