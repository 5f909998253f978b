-- ===== src/Tests/Tables.antt =====
-- The theorems on data types and tables applied to concrete ones.
use aresdb.Prelude.{◌≡◌, ◌≢◌, ◌⊎◌, refl, some}
use aresdb.Schema.DataType.{
  DataType, uint32, array_int64, unknown, new_data_type, data_type_name, data_type_from_string,
}
use aresdb.Schema.TypeLaws.{new_data_type-named, data_type_from_string-new_data_type}

accepts_uint32 : new_data_type uint32 ≡ some uint32
unfolding new_data_type
accepts_uint32 = refl

new_data_type-named_example :
    (uint32 ≡ uint32) × (data_type_from_string (data_type_name uint32) ≡ uint32)
new_data_type-named_example = new_data_type-named uint32 uint32 accepts_uint32

data_type_from_string-new_data_type_example :
    let d = data_type_from_string "Int64[]" in
    (((t : DataType) → new_data_type t ≡ some t → data_type_name t ≢ "Int64[]") × (d ≡ unknown))
    ⊎ (new_data_type d ≡ some d) × (data_type_name d ≡ "Int64[]")
data_type_from_string-new_data_type_example = data_type_from_string-new_data_type "Int64[]"

accepts_array : new_data_type array_int64 ≡ some array_int64
unfolding new_data_type
accepts_array = refl
