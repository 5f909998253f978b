-- ===== src/Schema/Update/Columns.antt =====
-- The loop over the columns in validateSchemaUpdate of metastore/validator.go.
use Prim.Native.String.{String}
use text.Mathlib.TextEquality.{eq_iff}
use mathlib.Core.Bool.{false≢true}
use mathlib.Core.Option.{some-ne-none, none-ne-some, some_inj}
use aresdb.Prelude.{
  ℕ, suc, lt→ltb, ◌≡◌, refl, sym, ap, ◌∙◌, ◌↔◌, Bool, true, false, not, ◌&&◌, Option, none, some,
  List, [], ◌∷◌, arith, ltb, length,
}
use aresdb.Schema.Table.{Column, reusing_column_id_not_allowed, schema_update_not_allowed}
use aresdb.Schema.Checks.{then-none, reject-none, reject_if}
use aresdb.Schema.Update.{
  same_default, same_flag, same_settings, check_updated_column, check_updated_columns, same_ids,
}

pub same_flag-eq : (a b : Bool) → same_flag a b ≡ true → a ≡ b
same_flag-eq a b h = ground arith

pub same_flag_refl : (a b : Bool) → a ≡ b → same_flag a b ≡ true
same_flag_refl a b h = ground arith

same_default-eq : (a b : Option String) → (same_default a b ≡ true) ↔ (a ≡ b)
unfolding same_default
same_default-eq none none = (λ h. refl, λ h. refl)
same_default-eq (some a) (some b) =
    (λ h. ap some ((eq_iff a b).0 h), λ h. (eq_iff a b).1 (some_inj.0 h))
same_default-eq none (some b) = (λ h. absurd (false≢true h), λ h. absurd (none-ne-some _ h))
same_default-eq (some a) none = (λ h. absurd (false≢true h), λ h. absurd (some-ne-none _ h))

pub same_ids-eq : (a b : List ℕ) → same_ids a b ≡ true → a ≡ b
unfolding same_ids
same_ids-eq [] [] h = refl
same_ids-eq (x ∷ xs) (y ∷ ys) h =
    let heads : x ≡ y = ground arith in
    let tails : same_ids xs ys ≡ true = ground arith in rw (heads, same_ids-eq xs ys tails)
same_ids-eq [] (y ∷ ys) h = absurd (false≢true h)
same_ids-eq (x ∷ xs) [] h = absurd (false≢true h)

pub same_ids_refl : (a : List ℕ) → same_ids a a ≡ true
unfolding same_ids
same_ids_refl [] = refl
same_ids_refl (x ∷ xs) = ground (arith, same_ids_refl xs)

-- Two columns with one id, before and after an update.
pub record SameColumn (old new : Column) : Type 0 where
  pub name : old.name ≡ new.name
  pub type : old.type ≡ new.type
  pub default_value : old.default_value ≡ new.default_value
  pub case_insensitive : old.case_insensitive ≡ new.case_insensitive
  pub disable_auto_expand : old.disable_auto_expand ≡ new.disable_auto_expand
  pub is_hll_column : old.is_hll_column ≡ new.is_hll_column
  pub stays_deleted : old.deleted ≡ true → new.deleted ≡ true

-- Every old column has its id still.
abbrev pub Extends : List Column → List Column → Type 0
Extends [] new = Unit {0}
Extends (o ∷ os) (n ∷ ns) = SameColumn o n × Extends os ns
Extends (o ∷ os) [] = ⊥

-- Six tests at once.
all_six :
    (a b c d e f : Bool)
    → ((a && b && c && d && e && f) ≡ true)
      ↔ (a ≡ true) × (b ≡ true) × (c ≡ true) × (d ≡ true) × (e ≡ true) × (f ≡ true)
all_six a b c d e f = (λ h. ground (h, arith), λ h. ground (h, arith))

-- The two tests of a column allow exactly what SameColumn allows.
allowed :
    (d d' kept : Bool)
    → (d && not d' ≡ false) × (not kept ≡ false) ↔ (d ≡ true → d' ≡ true) × (kept ≡ true)
allowed d d' kept = (λ h. ground (h, arith), λ h. ground (h, arith))

check_updated_column_iff : (o n : Column) → (check_updated_column o n ≡ none) ↔ SameColumn o n
unfolding check_updated_column same_settings
check_updated_column_iff o n = (
  λ h.
      let steps =
        (then-none (reject_if (o.deleted && not n.deleted) reusing_column_id_not_allowed)
            (reject_if (not (same_settings o n)) schema_update_not_allowed)).0
          h in
      let tests =
        (allowed o.deleted n.deleted (same_settings o n)).0
          ((reject-none _ _).0 steps.0, (reject-none _ _).0 steps.1) in
      let six = (all_six _ _ _ _ _ _).0 tests.1 in
      record {
        name = (eq_iff _ _).0 six.0;
        type = (eq_iff _ _).0 six.1;
        default_value = (same_default-eq _ _).0 six.2;
        case_insensitive = same_flag-eq _ _ six.3;
        disable_auto_expand = same_flag-eq _ _ six.4;
        is_hll_column = same_flag-eq _ _ six.5;
        stays_deleted = tests.0;
      },
  λ s.
      let tests = (allowed o.deleted n.deleted (same_settings o n)).1 (
        s.stays_deleted,
        (all_six _ _ _ _ _ _).1 (
          (eq_iff _ _).1 s.name,
          (eq_iff _ _).1 s.type,
          (same_default-eq _ _).1 s.default_value,
          same_flag_refl _ _ s.case_insensitive,
          same_flag_refl _ _ s.disable_auto_expand,
          same_flag_refl _ _ s.is_hll_column,
        ),
      ) in
      (then-none _ _).1 ((reject-none _ _).1 tests.0, (reject-none _ _).1 tests.1),
)

pub nothing_short : (k : ℕ) → ltb 0 (suc k) ≡ false → ⊥
nothing_short k h = false≢true (sym h ∙ lt→ltb 0 (suc k) (omega arith))

pub check_updated_columns_iff :
    (os ns : List Column)
    → (ltb (length ns) (length os) ≡ false) × (check_updated_columns os ns ≡ none) ↔ Extends os ns
unfolding check_updated_columns
check_updated_columns_iff [] ns = (λ h. tt, λ h. (ground arith, refl))
check_updated_columns_iff (o ∷ os) [] = (λ h. absurd (nothing_short (length os) h.0), λ h. absurd h)
check_updated_columns_iff (o ∷ os) (n ∷ ns) =
    let ih = check_updated_columns_iff os ns in
    let column = check_updated_column_iff o n in
    (
      λ h. let steps = (then-none _ _).0 h.1 in (column.0 steps.0, ih.0 (ground arith, steps.1)),
      λ h. let rest = ih.1 h.1 in (ground arith, (then-none _ _).1 (column.1 h.0, rest.1)),
    )
