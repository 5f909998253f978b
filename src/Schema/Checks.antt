-- ===== src/Schema/Checks.antt =====
-- metastore/validator.go: the checks of ids, names and HLL columns, which need no parser.
use Prim.Native.String.{String}
use mathlib.Core.Bool.{false≢true}
use mathlib.Core.Option.{some-ne-none}
use aresdb.Prelude.{◌≡◌, ◌↔◌, refl, sym}
use text.Mathlib.Text.{◌==◌ as str_eq}
use aresdb.Prelude.{
  ℕ, suc, Bool, true, false, not, ◌&&◌, ◌||◌, Option, none, some, List, [], ◌∷◌, leb, ◌==◌,
  if◌then◌else◌, get_elem?,
}
use aresdb.Schema.DataType.{DataType, array_bool, array_int64, data_type_from_string}
use aresdb.Schema.Table.{
  Column, SchemaError, hll_type_not_allowed, column_non_exist, column_deleted, duplicated_column,
}

-- Go's `error`: `none` is nil. A check that fails ends the function.
abbrev pub Checked : Type 0
Checked = Option SchemaError

infixl 5 ◌>>◌
abbrev pub ◌>>◌ : Checked → Checked → Checked
none >> rest = rest
some e >> rest = some e

-- `if b { return e }`
abbrev pub reject_if : Bool → SchemaError → Checked
reject_if true e = some e
reject_if false e = none

unfoldable pub validate_column_hll_config : Column → Checked
validate_column_hll_config c =
    reject_if
      (c.is_hll_column
        && not (str_eq c.type "Uint32")
        && not (str_eq c.type "Int32")
        && not (str_eq c.type "Int64")
        && not (str_eq c.type "UUID"))
      hll_type_not_allowed

-- A read of the map `colNameDedup`.
unfoldable pub contains_name : List String → String → Bool
contains_name [] s = false
contains_name (n ∷ ns) s = str_eq n s || contains_name ns s

-- The slice `colIdDedup`, as the ids that are marked in it.
unfoldable pub contains_id : List ℕ → ℕ → Bool
contains_id [] i = false
contains_id (j ∷ js) i = j == i || contains_id js i

unfoldable pub non_deleted_columns_count : List Column → ℕ
non_deleted_columns_count [] = 0
non_deleted_columns_count (c ∷ cs) =
    let n = non_deleted_columns_count cs in if c.deleted then n else suc n

-- One id of the primary key or of the sort columns; `wrong` are the types that are refused.
unfoldable pub check_id : List Column → (DataType → Bool) → SchemaError → List ℕ → ℕ → Checked
unfolding contains_id data_type_from_string
check_id columns wrong error seen id = elim (get_elem? columns id) [
  | none ↦ some column_non_exist
  | some c ↦ do
    reject_if c.deleted column_deleted
    reject_if (contains_id seen id) duplicated_column
    reject_if (wrong (data_type_from_string c.type)) error
]

unfoldable pub check_ids : List Column → (DataType → Bool) → SchemaError → List ℕ → List ℕ → Checked
unfolding check_id
check_ids columns wrong error seen [] = none
check_ids columns wrong error seen (id ∷ ids) = do
  check_id columns wrong error seen id
  check_ids columns wrong error (id ∷ seen) ids

-- `colDataType >= memCom.ArrayBool && colDataType <= memCom.ArrayInt64`
abbrev pub in_array_range : DataType → Bool
in_array_range d = leb array_bool d && leb d array_int64

-- What it means that a check passes.
pub then-none : (a b : Checked) → (a >> b ≡ none) ↔ (a ≡ none) × (b ≡ none)
then-none none b = (λ h. (refl, h), λ h. h.1)
then-none (some e) b = (λ h. absurd (some-ne-none _ h), λ h. absurd (some-ne-none _ h.0))

pub reject-none : (b : Bool) (e : SchemaError) → (reject_if b e ≡ none) ↔ (b ≡ false)
reject-none true e = (λ h. absurd (some-ne-none _ h), λ h. absurd (false≢true (sym h)))
reject-none false e = (λ h. refl, λ h. refl)
