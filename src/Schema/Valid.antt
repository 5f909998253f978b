-- ===== src/Schema/Valid.antt =====
-- What validateIndividualSchema of metastore/validator.go ensures of a table.
use Prim.Native.String.{String}
use text.Mathlib.Text.{◌==◌ as str_eq}
use text.Mathlib.TextEquality.{eq_iff}
use mathlib.Core.Bool.{false≢true}
use mathlib.Core.Option.{some-ne-none, none-ne-some, some_inj}
use aresdb.Prelude.{
  ℕ, zero, suc, ◌<◌, ◌≡◌, ◌≢◌, refl, sym, ap, ◌∙◌, ◌⊎◌, inl, inr, Bool, true, false, not, ◌&&◌,
  ◌||◌, Option, none, some, List, [], ◌∷◌, arith, ltb, ◌==◌, ==_iff, if◌then◌else◌, Bool-cases,
  Option-cases, length, get_elem?,
}
use aresdb.Schema.DataType.{DataType, unknown, uint32, data_type_from_string, is_array_type}
use aresdb.Schema.Table.{
  Column, Table, SchemaError, duplicated_column_name, invalid_data_type, missing_time_column,
}
use aresdb.Schema.Checks.{
  Checked, ◌>>◌, reject_if, contains_name, contains_id, non_deleted_columns_count, check_id,
  check_ids, in_array_range, validate_column_hll_config, then-none, reject-none,
}
use aresdb.Schema.Validator.{
  Parsers, check_default, check_column, check_columns, validate_individual_schema,
}
pub mod Whole

-- Each element stands at one position.
abbrev pub Distinct : List ℕ → Type 0
Distinct ids = (i j x : ℕ) → get_elem? ids i ≡ some x → get_elem? ids j ≡ some x → i ≡ j

-- The ids lead to columns that are not deleted and whose types are not refused.
abbrev pub LeadsTo : List Column → (DataType → Bool) → List ℕ → Type 0
LeadsTo columns wrong ids =
    (i x : ℕ)
    → get_elem? ids i ≡ some x
    → (c : Column) × (get_elem? columns x ≡ some c)
      × (c.deleted ≡ false)
      × (wrong (data_type_from_string c.type) ≡ false)

-- No two columns have one name.
abbrev pub DistinctNames : List Column → Type 0
DistinctNames columns =
    (i j : ℕ) (c d : Column)
    → get_elem? columns i ≡ some c
    → get_elem? columns j ≡ some d
    → c.name ≡ d.name
    → i ≡ j

not_head : (seen : List ℕ) (y x : ℕ) → contains_id (y ∷ seen) x ≡ false → y ≡ x → ⊥
unfolding contains_id
not_head seen y x h e = ground arith

module _ (columns : List Column) (wrong : DataType → Bool) (error : SchemaError) where
  -- One accepted id.
  check_id-ok :
      (seen : List ℕ) (x : ℕ)
      → check_id columns wrong error seen x ≡ none
      → (contains_id seen x ≡ false)
        × ((c : Column) × (get_elem? columns x ≡ some c)
            × (c.deleted ≡ false)
            × (wrong (data_type_from_string c.type) ≡ false))
  unfolding check_id
  check_id-ok seen x h = elim (Option-cases (get_elem? columns x)) [
    | inl e ↦ absurd (some-ne-none _ (rw (e, check_id) at h))
    | inr (c, e) ↦
        let h' = rw (e, check_id) at h in
        let a = (then-none (reject_if c.deleted _) _).0 h' in
        let b = (then-none (reject_if (contains_id seen x) _) _).0 a.1 in
        ((reject-none _ _).0 b.0, (c, e, (reject-none _ _).0 a.0, (reject-none _ _).0 b.1))
  ]

  -- Accepted ids are new ones.
  check_ids-new :
      (seen ids : List ℕ)
      → check_ids columns wrong error seen ids ≡ none
      → (i x : ℕ) → get_elem? ids i ≡ some x
      → contains_id seen x ≡ false
  unfolding check_ids contains_id
  check_ids-new seen [] h i x e = absurd (none-ne-some _ e)
  check_ids-new seen (y ∷ ys) h zero x e =
      let a = (then-none (check_id columns wrong error seen y) _).0 h in
      rw (← some_inj.0 e) (check_id-ok seen y a.0).0
  check_ids-new seen (y ∷ ys) h (suc i) x e =
      let a = (then-none (check_id columns wrong error seen y) _).0 h in
      let rest = check_ids-new (y ∷ seen) ys a.1 i x e in ground (rest, arith)

  pub check_ids-Distinct :
      (seen ids : List ℕ) → check_ids columns wrong error seen ids ≡ none → Distinct ids
  unfolding check_ids contains_id
  check_ids-Distinct seen [] h i j x e f = absurd (none-ne-some _ e)
  check_ids-Distinct seen (y ∷ ys) h zero zero x e f = refl
  check_ids-Distinct seen (y ∷ ys) h (suc i) (suc j) x e f =
      let a = (then-none (check_id columns wrong error seen y) _).0 h in
      ap suc (check_ids-Distinct (y ∷ seen) ys a.1 i j x e f)
  check_ids-Distinct seen (y ∷ ys) h zero (suc j) x e f =
      let a = (then-none (check_id columns wrong error seen y) _).0 h in
      let new = check_ids-new (y ∷ seen) ys a.1 j x f in
      absurd (not_head seen y x new (some_inj.0 e))
  check_ids-Distinct seen (y ∷ ys) h (suc i) zero x e f =
      let a = (then-none (check_id columns wrong error seen y) _).0 h in
      let new = check_ids-new (y ∷ seen) ys a.1 i x e in
      absurd (not_head seen y x new (some_inj.0 f))

  pub check_ids-LeadsTo :
      (seen ids : List ℕ)
      → check_ids columns wrong error seen ids ≡ none
      → LeadsTo columns wrong ids
  unfolding check_ids
  check_ids-LeadsTo seen [] h i x e = absurd (none-ne-some _ e)
  check_ids-LeadsTo seen (y ∷ ys) h zero x e =
      let a = (then-none (check_id columns wrong error seen y) _).0 h in
      rw (← some_inj.0 e) (check_id-ok seen y a.0).1
  check_ids-LeadsTo seen (y ∷ ys) h (suc i) x e =
      let a = (then-none (check_id columns wrong error seen y) _).0 h in
      check_ids-LeadsTo (y ∷ seen) ys a.1 i x e
