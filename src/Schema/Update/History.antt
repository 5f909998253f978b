-- ===== src/Schema/Update/History.antt =====
-- A table over its life: updates that validateSchemaUpdate of metastore/validator.go accepts, one
-- after the other.
use mathlib.Core.List.{append_assoc}
use aresdb.Prelude.{ℕ, ◌≡◌, refl, ap, ◌∙◌, none, some, List, [], ◌∷◌, ◌++◌}
use aresdb.Prelude.Int.{ℤ}
use aresdb.Schema.Table.{Column, Table}
use aresdb.Schema.Validator.{Parsers}
use aresdb.Schema.Update.{validate}
use aresdb.Schema.Update.Columns.{SameColumn, Extends}
use aresdb.Schema.Update.Compatible.{Compatible, validate_schema_update_iff}

-- Each table is accepted as the update of the one before it.
abbrev pub Accepted : Parsers → Table → List Table → Type 0
Accepted go t [] = Unit {0}
Accepted go t (u ∷ us) = (validate go (some t) u ≡ none) × Accepted go u us

abbrev pub last : Table → List Table → Table
last t [] = t
last t (u ∷ us) = last u us

SameColumn-trans : (a b c : Column) → SameColumn a b → SameColumn b c → SameColumn a c
SameColumn-trans a b c s t = record {
  name = s.name ∙ t.name;
  type = s.type ∙ t.type;
  default_value = s.default_value ∙ t.default_value;
  case_insensitive = s.case_insensitive ∙ t.case_insensitive;
  disable_auto_expand = s.disable_auto_expand ∙ t.disable_auto_expand;
  is_hll_column = s.is_hll_column ∙ t.is_hll_column;
  stays_deleted = λ h. t.stays_deleted (s.stays_deleted h);
}

Extends-trans : (a b c : List Column) → Extends a b → Extends b c → Extends a c
Extends-trans [] b c s t = tt
Extends-trans (x ∷ a) (y ∷ b) (z ∷ c) s t =
    (SameColumn-trans x y z s.0 t.0, Extends-trans a b c s.1 t.1)
Extends-trans (x ∷ a) [] c s t = absurd s
Extends-trans (x ∷ a) (y ∷ b) [] s t = absurd t

Compatible-trans : (a b c : Table) → Compatible a b → Compatible b c → Compatible a c
Compatible-trans a b c s t = record {
  name = t.name ∙ s.name;
  is_fact_table = t.is_fact_table ∙ s.is_fact_table;
  missing_time =
      λ fact allowed. t.missing_time (s.is_fact_table ∙ fact) (s.missing_time fact allowed);
  columns = Extends-trans a.columns b.columns c.columns s.columns t.columns;
  primary_key = t.primary_key ∙ s.primary_key;
  sorts = s.sorts ++ t.sorts;
  sort_columns =
      t.sort_columns
      ∙ ap (λ (xs : List ℕ). xs ++ t.sorts) s.sort_columns
      ∙ append_assoc a.archiving_sort_columns s.sorts t.sorts;
}

-- Over any number of accepted updates the table keeps its name, its kind, its primary key, the ids
-- and settings of its columns, the deletions among them, its sort columns as a prefix of the later
-- ones, and the permission of a missing event time.
pub Accepted-Compatible :
    (go : Parsers) (t u : Table) (us : List Table)
    → Accepted go t (u ∷ us)
    → Compatible t (last u us)
unfolding validate
Accepted-Compatible go t u [] h = ((validate_schema_update_iff go u t).0 h.0).1
Accepted-Compatible go t u (v ∷ us) h =
    Compatible-trans t u (last v us) ((validate_schema_update_iff go u t).0 h.0).1
      (Accepted-Compatible go u v us h.1)

-- The verdict on an update does not depend on the versions of the two tables.
pub validate-version :
    (go : Parsers) (old new : Table) (v w : ℤ)
    → validate go (some (record old { version = v })) (record new { version = w })
      ≡ validate go (some old) new
unfolding validate
validate-version go old new v w = refl
