-- ===== src/Schema/Valid/Whole.antt =====
-- validateIndividualSchema of metastore/validator.go accepts only tables that are well formed.
use Prim.Native.String.{String}
use text.Mathlib.TextEquality.{eq_iff}
use mathlib.Core.Path.{subst}
use mathlib.Core.Bool.{false≢true}
use mathlib.Core.Option.{none-ne-some, some_inj}
use aresdb.Prelude.{
  ℕ, zero, suc, ◌<◌, ◌≡◌, ◌≢◌, refl, sym, ap, ◌∙◌, inl, inr, Bool, true, false, not, ◌&&◌, ◌||◌,
  none, some, List, [], ◌∷◌, arith, ◌==◌, ==_iff, Bool-cases, Option-cases, length, get_elem?,
}
use aresdb.Schema.DataType.{unknown, uint32, data_type_from_string, is_array_type}
use aresdb.Schema.Table.{Column, Table}
use aresdb.Schema.Checks.{
  reject_if, contains_name, check_ids, in_array_range, non_deleted_columns_count,
  validate_column_hll_config, then-none, reject-none,
}
use aresdb.Prelude.{◌+◌}
use aresdb.Schema.Validator.{
  Parsers, check_default, check_column, check_columns, validate_individual_schema,
}
use aresdb.Prelude.{◌+◌}
use aresdb.Schema.Valid.{Distinct, LeadsTo, DistinctNames, check_ids-Distinct, check_ids-LeadsTo}

-- What holds of one column; `is_time` if it is the first of a fact table.
pub record ColumnOk (is_time : Bool) (c : Column) : Type 0 where
  pub typed : data_type_from_string c.type ≢ unknown
  pub time : is_time ≡ true → data_type_from_string c.type ≡ uint32
  pub time_hll : is_time ≡ true → c.is_hll_column ≡ false
  pub time_default : is_time ≡ true → c.default_value ≡ none
  pub hll_default : c.is_hll_column ≡ true → c.default_value ≡ none

neither : (a b : Bool) → (a || b) ≡ false → (a ≡ false) × (b ≡ false)
neither a b h = ground arith

unnot : (b : Bool) → not b ≡ false → b ≡ true
unnot b h = ground arith

nonzero : (n : ℕ) → (n == 0) ≡ false → 0 < n
nonzero n h = ground arith

other_name : (seen : List String) (n m : String) → contains_name (n ∷ seen) m ≡ false → n ≡ m → ⊥
unfolding contains_name
other_name seen n m h same = false≢true (sym (neither _ _ h).0 ∙ (eq_iff n m).1 same)

module _ (go : Parsers) where
  default-absent :
      (is_time : Bool) (c : Column)
      → check_default go is_time c ≡ none
      → (is_time ≡ true → c.default_value ≡ none)
        × (c.is_hll_column ≡ true → c.default_value ≡ none)
  unfolding check_default
  default-absent is_time c h = elim (Option-cases c.default_value) [
    | inl e ↦ (λ _. e, λ _. e)
    | inr (v, e) ↦
        let h' = rw (e, check_default) at h in
        let a = (then-none (reject_if is_time _) _).0 h' in
        let b = (then-none (reject_if c.is_hll_column _) _).0 a.1 in
        let no_time = (reject-none is_time _).0 a.0 in
        let no_hll = (reject-none c.is_hll_column _).0 b.0 in
        (λ t. absurd (false≢true (sym no_time ∙ t)), λ t. absurd (false≢true (sym no_hll ∙ t)))
  ]

  both_false : (a b : Bool) → (a && b) ≡ false → a ≡ true → b ≡ false
  both_false a b h e = ground arith

  right_type : (a : Bool) (d t : ℕ) → (a && not (d == t)) ≡ false → a ≡ true → d ≡ t
  right_type a d t h e = ground arith

  check_column-ok :
      (is_time : Bool) (seen : List String) (c : Column)
      → check_column go is_time seen c ≡ none
      → (contains_name seen c.name ≡ false) × ColumnOk is_time c
  unfolding check_column
  check_column-ok is_time seen c h =
      let a = (then-none (reject_if (contains_name seen c.name) _) _).0 h in
      let b = (then-none (reject_if (data_type_from_string c.type == unknown) _) _).0 a.1 in
      let d =
        (then-none (reject_if (is_time && not (data_type_from_string c.type == uint32)) _) _).0
          b.1 in
      let e = (then-none (validate_column_hll_config c) _).0 d.1 in
      let f = (then-none (reject_if (is_time && c.is_hll_column) _) _).0 e.1 in
      let defaults = default-absent is_time c f.1 in
      (
        (reject-none _ _).0 a.0,
        record {
          typed = λ eq. false≢true (
              sym ((reject-none (data_type_from_string c.type == unknown) _).0 b.0)
              ∙ (==_iff _ _).1 eq);
          time = right_type is_time _ _ ((reject-none _ _).0 d.0);
          time_hll = both_false is_time _ ((reject-none _ _).0 f.0);
          time_default = defaults.0;
          hll_default = defaults.1;
        },
      )

  -- The columns from position `id` on.
  check_columns-ok :
      (is_fact : Bool) (id : ℕ) (seen : List String) (cs : List Column)
      → check_columns go is_fact id seen cs ≡ none
      → (i : ℕ) (c : Column) → get_elem? cs i ≡ some c
      → (contains_name seen c.name ≡ false) × ColumnOk (is_fact && (id + i) == 0) c
  unfolding check_columns contains_name
  check_columns-ok is_fact id seen [] h i c e = absurd (none-ne-some _ e)
  check_columns-ok is_fact id seen (x ∷ xs) h zero c e =
      let a = (then-none (check_column go (is_fact && id == 0) seen x) _).0 h in
      let ok = check_column-ok (is_fact && id == 0) seen x a.0 in
      rw (← some_inj.0 e)
        (ok.0, subst (λ (n : ℕ). ColumnOk (is_fact && n == 0) x) (omega arith) ok.1)
  check_columns-ok is_fact id seen (x ∷ xs) h (suc i) c e =
      let a = (then-none (check_column go (is_fact && id == 0) seen x) _).0 h in
      let rest = check_columns-ok is_fact (suc id) (x.name ∷ seen) xs a.1 i c e in
      (
        (neither _ _ rest.0).1,
        subst (λ (n : ℕ). ColumnOk (is_fact && n == 0) c) (omega arith) rest.1,
      )

  check_columns-DistinctNames :
      (is_fact : Bool) (id : ℕ) (seen : List String) (cs : List Column)
      → check_columns go is_fact id seen cs ≡ none
      → DistinctNames cs
  unfolding check_columns contains_name
  check_columns-DistinctNames is_fact id seen [] h i j c d e f same = absurd (none-ne-some _ e)
  check_columns-DistinctNames is_fact id seen (x ∷ xs) h zero zero c d e f same = refl
  check_columns-DistinctNames is_fact id seen (x ∷ xs) h (suc i) (suc j) c d e f same =
      let a = (then-none (check_column go (is_fact && id == 0) seen x) _).0 h in
      ap suc (check_columns-DistinctNames is_fact (suc id) (x.name ∷ seen) xs a.1 i j c d e f same)
  check_columns-DistinctNames is_fact id seen (x ∷ xs) h zero (suc j) c d e f same =
      let a = (then-none (check_column go (is_fact && id == 0) seen x) _).0 h in
      let new = check_columns-ok is_fact (suc id) (x.name ∷ seen) xs a.1 j d f in
      absurd
        (other_name seen x.name d.name new.0 (ap (λ (y : Column). y.name) (some_inj.0 e) ∙ same))
  check_columns-DistinctNames is_fact id seen (x ∷ xs) h (suc i) zero c d e f same =
      let a = (then-none (check_column go (is_fact && id == 0) seen x) _).0 h in
      let new = check_columns-ok is_fact (suc id) (x.name ∷ seen) xs a.1 i c e in
      absurd (
        other_name seen x.name c.name new.0 (ap (λ (y : Column). y.name) (some_inj.0 f) ∙ sym same))

  -- A table that is well formed by itself.
  pub record IsWellFormed (t : Table) : Type 0 where
    pub names : DistinctNames t.columns
    pub columns :
        (i : ℕ) (c : Column)
        → get_elem? t.columns i ≡ some c
        → ColumnOk (t.is_fact_table && i == 0) c
    pub live : (i : ℕ) × ((c : Column) × (get_elem? t.columns i ≡ some c) × (c.deleted ≡ false))
    pub key : 0 < length t.primary_key_columns
    pub key_distinct : Distinct t.primary_key_columns
    pub key_columns : LeadsTo t.columns is_array_type t.primary_key_columns
    pub config : go.validate_config t.config ≡ true
    pub sort_distinct : t.is_fact_table ≡ true → Distinct t.archiving_sort_columns
    pub sort_columns :
        t.is_fact_table ≡ true → LeadsTo t.columns in_array_range t.archiving_sort_columns

  some_live :
      (cs : List Column)
      → (non_deleted_columns_count cs == 0) ≡ false
      → (i : ℕ) × ((c : Column) × (get_elem? cs i ≡ some c) × (c.deleted ≡ false))
  unfolding non_deleted_columns_count
  some_live [] h = absurd (false≢true (sym h))
  some_live (c ∷ cs) h = elim (Bool-cases c.deleted) [
    | inr live ↦ (0, (c, refl, live))
    | inl gone ↦ let (i, rest) = some_live cs (rw gone at h) in (suc i, rest)
  ]

  -- A table that is accepted by itself is well formed: names and the ids of the primary key (and,
  -- in a fact table, the sort columns) are distinct and lead to columns that are not deleted and
  -- whose types are allowed, every column has a known type, the time column is a Uint32 without
  -- default value or HLL, no HLL column has a default value, some column is not deleted, the primary
  -- key is not empty, and the configuration is accepted.
  pub validate_individual_schema-IsWellFormed :
      (t : Table) → validate_individual_schema go t ≡ none → IsWellFormed t
  unfolding validate_individual_schema
  validate_individual_schema-IsWellFormed t h =
      let a = (then-none (check_columns go t.is_fact_table 0 [] t.columns) _).0 h in
      let b = (then-none (reject_if (non_deleted_columns_count t.columns == 0) _) _).0 a.1 in
      let d = (then-none (reject_if (length t.primary_key_columns == 0) _) _).0 b.1 in
      let e = (then-none (check_ids t.columns is_array_type _ [] t.primary_key_columns) _).0 d.1 in
      let f = (then-none (reject_if (not (go.validate_config t.config)) _) _).0 e.1 in
      let no_key = (reject-none (length t.primary_key_columns == 0) _).0 d.0 in
      record {
        names = check_columns-DistinctNames t.is_fact_table 0 [] t.columns a.0;
        columns = λ i c at.
            subst (λ (n : ℕ). ColumnOk (t.is_fact_table && n == 0) c) (omega arith)
              (check_columns-ok t.is_fact_table 0 [] t.columns a.0 i c at).1;
        live = some_live t.columns ((reject-none _ _).0 b.0);
        key = nonzero (length t.primary_key_columns) no_key;
        key_distinct = check_ids-Distinct t.columns is_array_type _ [] t.primary_key_columns e.0;
        key_columns = check_ids-LeadsTo t.columns is_array_type _ [] t.primary_key_columns e.0;
        config = unnot _ ((reject-none _ _).0 f.0);
        sort_distinct = λ fact.
            check_ids-Distinct t.columns in_array_range _ [] t.archiving_sort_columns
              (rw fact at f.1);
        sort_columns = λ fact.
            check_ids-LeadsTo t.columns in_array_range _ [] t.archiving_sort_columns
              (rw fact at f.1);
      }
