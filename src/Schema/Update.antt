-- ===== src/Schema/Update.antt =====
-- metastore/validator.go: validateSchemaUpdate and Validate.
use Prim.Native.String.{String}
use text.Mathlib.Text.{◌==◌ as str_eq}
use aresdb.Prelude.{
  ℕ, ◌<◌, Bool, true, false, not, ◌&&◌, ◌||◌, Option, none, some, List, [], ◌∷◌, ltb, ◌==◌,
  if◌then◌else◌, length, get_elem?, drop,
}
use aresdb.Schema.Table.{
  Column, Table, schema_update_not_allowed, insufficient_column_count, disallow_missing_event_time,
  reusing_column_id_not_allowed, change_primary_key_column, illegal_change_sort_column,
  column_non_exist, column_deleted,
}
use aresdb.Schema.Checks.{Checked, ◌>>◌, reject_if}
use aresdb.Schema.Validator.{Parsers, validate_individual_schema}
pub mod Columns
pub mod Compatible
pub mod History

-- reflect.DeepEqual on two pointers to strings.
unfoldable pub same_default : Option String → Option String → Bool
same_default none none = true
same_default (some a) (some b) = str_eq a b
same_default _ _ = false

abbrev pub same_flag : Bool → Bool → Bool
same_flag true b = b
same_flag false b = not b

-- None of the fields that an update must keep differs.
unfoldable pub same_settings : Column → Column → Bool
unfolding same_default
same_settings old new =
    str_eq old.name new.name
    && str_eq old.type new.type
    && same_default old.default_value new.default_value
    && same_flag old.case_insensitive new.case_insensitive
    && same_flag old.disable_auto_expand new.disable_auto_expand
    && same_flag old.is_hll_column new.is_hll_column

-- One round of the loop over the columns of the old table.
unfoldable pub check_updated_column : Column → Column → Checked
unfolding same_settings
check_updated_column old new = do
  reject_if (old.deleted && not new.deleted) reusing_column_id_not_allowed
  reject_if (not (same_settings old new)) schema_update_not_allowed

-- The guard before the loop rules the last clause out, where Go would panic.
unfoldable pub check_updated_columns : List Column → List Column → Checked
unfolding check_updated_column
check_updated_columns [] new = none
check_updated_columns (o ∷ os) (n ∷ ns) = do check_updated_column o n; check_updated_columns os ns
check_updated_columns (o ∷ os) [] = none

-- reflect.DeepEqual on two slices of ids; it tells nil from an empty slice, and the new table has
-- ids in its primary key.
unfoldable pub same_ids : List ℕ → List ℕ → Bool
same_ids [] [] = true
same_ids (a ∷ as') (b ∷ bs) = a == b && same_ids as' bs
same_ids _ _ = false

-- `i < len(old) && old[i] != id`, for what is left of the old ids.
abbrev pub moves : List ℕ → ℕ → Bool
moves [] id = false
moves (o ∷ os) id = not (o == id)

unfoldable pub check_sort_column : List Column → ℕ → Checked
check_sort_column columns id = elim (get_elem? columns id) [
  | none ↦ some column_non_exist
  | some c ↦ reject_if c.deleted column_deleted
]

unfoldable pub check_sort_columns : List Column → List ℕ → List ℕ → Checked
unfolding check_sort_column
check_sort_columns columns old [] = none
check_sort_columns columns old (id ∷ ids) = do
  reject_if (moves old id) illegal_change_sort_column
  check_sort_column columns id
  check_sort_columns columns (drop 1 old) ids

module _ (go : Parsers) where
  unfoldable pub validate_schema_update : Table → Table → Checked
  unfolding validate_individual_schema check_updated_columns same_ids check_sort_columns
  validate_schema_update new old = do
    validate_individual_schema go new
    reject_if (not (str_eq new.name old.name)) schema_update_not_allowed
    reject_if (not (same_flag new.is_fact_table old.is_fact_table)) schema_update_not_allowed
    reject_if (ltb (length new.columns) (length old.columns)) insufficient_column_count
    reject_if
        (old.is_fact_table
          && old.config.allow_missing_event_time
          && not new.config.allow_missing_event_time)
        disallow_missing_event_time
    check_updated_columns old.columns new.columns
    reject_if (not (same_ids new.primary_key_columns old.primary_key_columns))
        change_primary_key_column
    reject_if (ltb (length new.archiving_sort_columns) (length old.archiving_sort_columns))
        illegal_change_sort_column
    check_sort_columns new.columns old.archiving_sort_columns new.archiving_sort_columns

  unfoldable pub validate : Option Table → Table → Checked
  unfolding validate_schema_update validate_individual_schema
  validate none new = validate_individual_schema go new
  validate (some old) new = validate_schema_update new old
