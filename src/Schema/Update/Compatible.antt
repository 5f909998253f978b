-- ===== src/Schema/Update/Compatible.antt =====
-- What an accepted update of a schema keeps: validateSchemaUpdate of metastore/validator.go.
use text.Mathlib.Text.{◌==◌ as str_eq}
use text.Mathlib.TextEquality.{eq_iff}
use mathlib.Core.Option.{some-ne-none, none-ne-some, some_inj}
use aresdb.Prelude.{
  ℕ, suc, inl, inr, ◌≡◌, refl, sym, ap, ◌∙◌, ◌↔◌, Bool, true, false, not, ◌&&◌, none, some, List,
  [], ◌∷◌, ◌++◌, arith, ltb, ◌==◌, Option-cases, length, get_elem?,
}
use aresdb.Schema.Table.{Column, Table, illegal_change_sort_column}
use mathlib.Core.List.{nil≢cons, head-eq_of_cons-eq, tail-eq_of_cons-eq}
use aresdb.Schema.Checks.{then-none, reject-none, ◌>>◌, reject_if}
use aresdb.Schema.Validator.{Parsers, validate_individual_schema}
use aresdb.Schema.Update.{
  same_flag, check_updated_columns, same_ids, moves, check_sort_column, check_sort_columns,
  validate_schema_update,
}
use aresdb.Schema.Update.Columns.{
  same_flag-eq, same_flag_refl, same_ids-eq, same_ids_refl, Extends, nothing_short,
  check_updated_columns_iff,
}

-- What an update keeps, and what it may add.
pub record Compatible (old new : Table) : Type 0 where
  pub name : new.name ≡ old.name
  pub is_fact_table : new.is_fact_table ≡ old.is_fact_table
  pub missing_time :
      old.is_fact_table ≡ true
      → old.config.allow_missing_event_time ≡ true
      → new.config.allow_missing_event_time ≡ true
  pub columns : Extends old.columns new.columns
  pub primary_key : new.primary_key_columns ≡ old.primary_key_columns
  pub sorts : List ℕ
  pub sort_columns : new.archiving_sort_columns ≡ old.archiving_sort_columns ++ sorts

-- The ids exist and are not deleted.
abbrev pub Usable : List Column → List ℕ → Type 0
Usable columns [] = Unit {0}
Usable columns (id ∷ ids) =
    ((c : Column) × (get_elem? columns id ≡ some c) × (c.deleted ≡ false)) × Usable columns ids

check_sort_column_iff :
    (columns : List Column) (id : ℕ)
    → (check_sort_column columns id ≡ none)
      ↔ ((c : Column) × (get_elem? columns id ≡ some c) × (c.deleted ≡ false))
unfolding check_sort_column
check_sort_column_iff columns id = elim (Option-cases (get_elem? columns id)) [
  | inl e ↦ (
    λ h. absurd (some-ne-none _ (rw (e, check_sort_column) at h)),
    λ h. absurd (none-ne-some _ (sym e ∙ h.1)),
  )
  | inr (c, e) ↦ (
    λ h. (c, e, (reject-none _ _).0 (rw (e, check_sort_column) at h)),
    λ h.
        let same = some_inj.0 (sym e ∙ h.1) in
        rw (e, check_sort_column) ((reject-none _ _).1 (ap (λ (x : Column). x.deleted) same ∙ h.2)),
  )
]

never_short : (k : ℕ) → ltb k 0 ≡ false
never_short k = ground arith

ltb-suc : (a b : ℕ) → ltb (suc a) (suc b) ≡ ltb a b
ltb-suc a b = ground arith

not_moved : (o id : ℕ) → not (o == id) ≡ false → o ≡ id
not_moved o id h = ground arith

moved_not : (o id : ℕ) → id ≡ o → not (o == id) ≡ false
moved_not o id h = ground arith

check_sort_columns_iff :
    (columns : List Column) (old ids : List ℕ)
    → (ltb (length ids) (length old) ≡ false) × (check_sort_columns columns old ids ≡ none)
      ↔ Usable columns ids × ((rest : List ℕ) × (ids ≡ old ++ rest))
unfolding check_sort_columns
check_sort_columns_iff columns [] [] = (λ h. (tt, ([], refl)), λ h. (refl, refl))
check_sort_columns_iff columns (o ∷ os) [] =
    (λ h. absurd (nothing_short (length os) h.0), λ h. absurd (nil≢cons h.1.1))
check_sort_columns_iff columns [] (id ∷ ids) =
    let ih = check_sort_columns_iff columns [] ids in
    let one = check_sort_column_iff columns id in
    (
      λ h.
          let steps =
            (then-none (check_sort_column columns id) (check_sort_columns columns [] ids)).0 h.1 in
          let (usable, _) = ih.0 (never_short (length ids), steps.1) in
          ((one.0 steps.0, usable), (id ∷ ids, refl)),
      λ h. (
        never_short (suc (length ids)),
        (then-none _ _).1 (one.1 h.0.0, (ih.1 (h.0.1, (ids, refl))).1),
      ),
    )
check_sort_columns_iff columns (o ∷ os) (id ∷ ids) =
    let ih = check_sort_columns_iff columns os ids in
    let one = check_sort_column_iff columns id in
    let stays = reject_if (moves (o ∷ os) id) illegal_change_sort_column in
    (
      λ h.
          let steps =
            (then-none stays (check_sort_column columns id >> check_sort_columns columns os ids)).0
              h.1 in
          let later =
            (then-none (check_sort_column columns id) (check_sort_columns columns os ids)).0
              steps.1 in
          let (usable, (rest, same)) = ih.0 (sym (ltb-suc _ _) ∙ h.0, later.1) in
          let head : o ≡ id = not_moved o id ((reject-none _ _).0 steps.0) in
          ((one.0 later.0, usable), (rest, rw (head, same))),
      λ h.
          let head : id ≡ o = head-eq_of_cons-eq h.1.1 in
          let rest = ih.1 (h.0.1, (h.1.0, tail-eq_of_cons-eq h.1.1)) in
          (
            ltb-suc _ _ ∙ rest.0,
            (then-none stays (check_sort_column columns id >> check_sort_columns columns os ids)).1
                (
                  (reject-none (moves (o ∷ os) id) _).1 (moved_not o id head),
                  (then-none (check_sort_column columns id) _).1 (one.1 h.0.0, rest.1),
                ),
          ),
    )

unnot : (b : Bool) → not b ≡ false → b ≡ true
unnot b h = ground arith

-- The update would forbid a missing event time that the old table allows.
abbrev revokes : Table → Table → Bool
revokes new old =
    old.is_fact_table
    && old.config.allow_missing_event_time
    && not new.config.allow_missing_event_time

three_tests : (a b c : Bool) → ((a && b && not c) ≡ false) ↔ (a ≡ true → b ≡ true → c ≡ true)
three_tests a b c = (λ h. ground (h, arith), λ h. ground (h, arith))

revokes-false :
    (new old : Table)
    → revokes new old ≡ false
    → old.is_fact_table ≡ true
    → old.config.allow_missing_event_time ≡ true
    → new.config.allow_missing_event_time ≡ true
revokes-false new old = (three_tests _ _ _).0

false-revokes :
    (new old : Table)
    → (old.is_fact_table ≡ true
        → old.config.allow_missing_event_time ≡ true
        → new.config.allow_missing_event_time ≡ true)
    → revokes new old ≡ false
false-revokes new old = (three_tests _ _ _).1

-- An update is accepted exactly when the new table is valid by itself, is compatible with the old
-- one, and sorts by columns that exist and are not deleted.
pub validate_schema_update_iff :
    (go : Parsers) (new old : Table)
    → (validate_schema_update go new old ≡ none)
      ↔ (validate_individual_schema go new ≡ none)
        × Compatible old new
        × Usable new.columns new.archiving_sort_columns
unfolding validate_schema_update
validate_schema_update_iff go new old = (
  λ h.
      let s0 = (then-none (validate_individual_schema go new) _).0 h in
      let s1 = (then-none (reject_if (not (str_eq new.name old.name)) _) _).0 s0.1 in
      let s2 =
        (then-none (reject_if (not (same_flag new.is_fact_table old.is_fact_table)) _) _).0 s1.1 in
      let s3 = (then-none (reject_if (ltb (length new.columns) (length old.columns)) _) _).0 s2.1 in
      let s4 = (then-none (reject_if (revokes new old) _) _).0 s3.1 in
      let s5 = (then-none (check_updated_columns old.columns new.columns) _).0 s4.1 in
      let s6 =
        (then-none (reject_if (not (same_ids new.primary_key_columns old.primary_key_columns)) _)
            _).0
          s5.1 in
      let s7 =
        (then-none
            (reject_if (ltb (length new.archiving_sort_columns) (length old.archiving_sort_columns))
              _)
            _).0
          s6.1 in
      let sorts =
        (check_sort_columns_iff new.columns old.archiving_sort_columns new.archiving_sort_columns).0
          ((reject-none _ _).0 s7.0, s7.1) in
      (
        s0.0,
        record {
          name = (eq_iff _ _).0 (unnot _ ((reject-none _ _).0 s1.0));
          is_fact_table = same_flag-eq _ _ (unnot _ ((reject-none _ _).0 s2.0));
          missing_time = revokes-false new old ((reject-none _ _).0 s4.0);
          columns =
              (check_updated_columns_iff old.columns new.columns).0
                ((reject-none _ _).0 s3.0, s5.0);
          primary_key = same_ids-eq _ _ (unnot _ ((reject-none _ _).0 s6.0));
          sorts = sorts.1.0;
          sort_columns = sorts.1.1;
        },
        sorts.0,
      ),
  λ (valid, c, usable).
      let columns = (check_updated_columns_iff old.columns new.columns).1 c.columns in
      let sorts =
        (check_sort_columns_iff new.columns old.archiving_sort_columns new.archiving_sort_columns).1
          (usable, (c.sorts, c.sort_columns)) in
      let primary : same_ids new.primary_key_columns old.primary_key_columns ≡ true =
        rw c.primary_key (same_ids_refl old.primary_key_columns) in
      rw
        (
          valid,
          (eq_iff _ _).1 c.name,
          same_flag_refl _ _ c.is_fact_table,
          columns.0,
          false-revokes new old c.missing_time,
          columns.1,
          primary,
          sorts.0,
        )
        sorts.1,
)
