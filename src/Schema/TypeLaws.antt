-- ===== src/Schema/TypeLaws.antt =====
-- Laws of the data types of memstore/common/data_type.go.
use mathlib.Core.Path.{subst}
use mathlib.Core.Option.{some_inj, none-ne-some}
use Prim.Native.String.{String}
use text.Mathlib.Text.{◌==◌ as str_eq}
use text.Mathlib.TextEquality.{eq_iff}
use aresdb.Prelude.{
  ℕ, ◌+◌, ◌/◌, ◌≡◌, ◌≢◌, ◌∙◌, refl, sym, ap, ◌⊎◌, inl, inr, Bool, true, false, none, not, ◌&&◌,
  ◌||◌, some, List, [], ◌∷◌, arith, ◌==◌, ==_iff, Bool-cases, Option-cases,
}
use aresdb.Schema.DataType.{
  DataType, unknown, valid_types, string_to_data_type, data_type_name, data_type_from_string,
  type_in, is_case, new_data_type, is_array_type, get_element_data_type, data_type_bits,
  data_type_bytes,
}

-- A test that every entry of a table passes, passes at each case of the switch.
all_cases : List DataType → (DataType → Bool) → Bool
all_cases [] test = true
all_cases (t ∷ ts) test = test t && all_cases ts test

all_cases_sound :
    (ts : List DataType) (test : DataType → Bool) (d : DataType)
    → all_cases ts test ≡ true
    → is_case ts d ≡ true
    → test d ≡ true
unfolding all_cases is_case
all_cases_sound [] test d all case = cc
all_cases_sound (t ∷ ts) test d all case = elim (Bool-cases (t == d)) [
  | inl e ↦ rw (← (==_iff t d).0 e) (ground arith)
  | inr ne ↦ all_cases_sound ts test d (ground arith) (ground arith)
]

named : DataType → Bool
named d = data_type_from_string (data_type_name d) == d

all_named : all_cases valid_types named ≡ true
unfolding all_cases named data_type_from_string data_type_name
all_named = refl

new_data_type-some :
    (v d : DataType) → new_data_type v ≡ some d → (v ≡ d) × (is_case valid_types d ≡ true)
unfolding new_data_type
new_data_type-some v d h = elim (Bool-cases (is_case valid_types v)) [
  | inl e ↦
      let same : v ≡ d = some_inj.0 (rw e at h) in
      (same, subst (λ x. is_case valid_types x ≡ true) same e)
  | inr e ↦ absurd (none-ne-some _ (rw e at h))
]

-- A value that NewDataType accepts is returned as it is, and the name that DataTypeName gives it
-- leads back to it through StringToDataType.
pub new_data_type-named :
    (v d : DataType)
    → new_data_type v ≡ some d
    → (v ≡ d) × (data_type_from_string (data_type_name d) ≡ d)
unfolding named
new_data_type-named v d h =
    let (same, case) = new_data_type-some v d h in
    (same, (==_iff _ d).0 (all_cases_sound valid_types named d all_named case))

-- An entry of StringToDataType is a case of the switch, and DataTypeName gives its name back.
entry_holds : String → DataType → Bool
entry_holds n t = is_case valid_types t && str_eq (data_type_name t) n

all_entries : List (String × DataType) → Bool
all_entries [] = true
all_entries ((n, t) ∷ ts) = entry_holds n t && all_entries ts

all_entries_hold : all_entries string_to_data_type ≡ true
unfolding all_entries entry_holds is_case data_type_name
all_entries_hold = refl

type_in-entry_holds :
    (ts : List (String × DataType)) (s : String) (t : DataType)
    → all_entries ts ≡ true
    → type_in ts s ≡ some t
    → entry_holds s t ≡ true
unfolding type_in all_entries
type_in-entry_holds [] s t all h = cc
type_in-entry_holds ((n, u) ∷ ts) s t all h = elim (Bool-cases (str_eq n s)) [
  | inl e ↦
      let same : u ≡ t = some_inj.0 (rw e at h) in
      subst (λ m. entry_holds m t ≡ true) ((eq_iff n s).0 e)
        (subst (λ v. entry_holds n v ≡ true) same (ground arith))
  | inr e ↦ type_in-entry_holds ts s t (ground arith) (rw e at h)
]

unknown_refused : new_data_type unknown ≡ none
unfolding new_data_type
unknown_refused = refl

-- A text that is the name of no type that NewDataType accepts reads as Unknown. Any other text
-- reads as a type that NewDataType accepts and whose name in DataTypeName is that text, so that no
-- two texts read as one type.
pub data_type_from_string-new_data_type :
    (s : String)
    → let d = data_type_from_string s in
      (((t : DataType) → new_data_type t ≡ some t → data_type_name t ≢ s) × (d ≡ unknown))
      ⊎ (new_data_type d ≡ some d) × (data_type_name d ≡ s)
unfolding data_type_from_string new_data_type entry_holds
data_type_from_string-new_data_type s = elim (Option-cases (type_in string_to_data_type s)) [
  | inl e ↦
      let reads : data_type_from_string s ≡ unknown = rw (e, data_type_from_string) refl in
      inl (
        λ t accepted name.
            let back : data_type_from_string s ≡ t =
              subst (λ n. data_type_from_string n ≡ t) name (new_data_type-named t t accepted).1 in
            none-ne-some t (
              sym unknown_refused
              ∙ subst (λ u. new_data_type u ≡ some t) (sym back ∙ reads) accepted),
        reads,
      )
  | inr (t, e) ↦
      let holds = type_in-entry_holds string_to_data_type s t all_entries_hold e in
      let case : is_case valid_types t ≡ true = ground arith in
      let name : str_eq (data_type_name t) s ≡ true = ground arith in
      inr (
        rw (e, data_type_from_string)
          (rw (case, new_data_type) refl, (eq_iff (data_type_name t) s).0 name))
]

-- What the layout of the type codes promises of one type.
laid_out : DataType → Bool
laid_out d =
    let e = get_element_data_type d in
    is_case valid_types e
    && not (is_array_type e)
    && data_type_bits e == data_type_bits d
    && (is_array_type d || e == d)

all_laid_out : all_cases valid_types laid_out ≡ true
unfolding all_cases laid_out is_case get_element_data_type is_array_type data_type_bits
all_laid_out = refl

four :
    (a b c d : Bool) → (a && b && c && d) ≡ true → (a ≡ true) × (b ≡ true) × (c ≡ true) × (d ≡ true)
four a b c d h = ground arith

case-new_data_type : (d : DataType) → is_case valid_types d ≡ true → new_data_type d ≡ some d
unfolding new_data_type
case-new_data_type d e = rw (e, new_data_type) refl

bytes-bits :
    (d e : DataType) → data_type_bits d ≡ data_type_bits e → data_type_bytes d ≡ data_type_bytes e
unfolding data_type_bytes
bytes-bits d e h = ap (λ (n : ℕ). (n + 7) / 8) h

-- The element type of a valid type is a valid type of the same width that is no array, and it is
-- the type itself unless that is an array.
pub get_element_data_type-new_data_type :
    (v d : DataType)
    → new_data_type v ≡ some d
    → let e = get_element_data_type d in
      (new_data_type e ≡ some e)
      × (is_array_type e ≡ false)
      × (data_type_bytes e ≡ data_type_bytes d)
      × (is_array_type d ≡ false → e ≡ d)
unfolding laid_out
get_element_data_type-new_data_type v d h =
    let t = all_cases_sound valid_types laid_out d all_laid_out (new_data_type-some v d h).1 in
    let e = get_element_data_type d in
    let f =
      four (is_case valid_types e) (not (is_array_type e)) (data_type_bits e == data_type_bits d)
        (is_array_type d || e == d) t in
    (
      case-new_data_type e f.0,
      ground arith,
      bytes-bits e d ((==_iff _ _).0 f.2),
      λ plain. (==_iff e d).0 (rw plain at f.3),
    )
