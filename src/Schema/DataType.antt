-- ===== src/Schema/DataType.antt =====
-- memstore/common/data_type.go, with the names of metastore/common/data_type.go. A DataType is the
-- uint32 of the source, since its functions do arithmetic on it.
use Prim.Native.String.{String}
use Prim.Native.Nat.{bit_and}
use text.Mathlib.Text.{◌==◌ as str_eq}
use aresdb.Prelude.{
  ℕ, ◌+◌, ◌/◌, Bool, false, ◌&&◌, ◌||◌, Option, none, some, List, [], ◌∷◌, ltb, leb, ◌==◌,
  if◌then◌else◌,
}

abbrev pub DataType : Type 0
DataType = ℕ

abbrev pub unknown : DataType
unknown = 0x00000000

abbrev pub bool : DataType
bool = 0x00000001

abbrev pub int8 : DataType
int8 = 0x00010008

abbrev pub uint8 : DataType
uint8 = 0x00020008

abbrev pub int16 : DataType
int16 = 0x00030010

abbrev pub uint16 : DataType
uint16 = 0x00040010

abbrev pub int32 : DataType
int32 = 0x00050020

abbrev pub uint32 : DataType
uint32 = 0x00060020

abbrev pub float32 : DataType
float32 = 0x00070020

abbrev pub small_enum : DataType
small_enum = 0x00080008

abbrev pub big_enum : DataType
big_enum = 0x00090010

abbrev pub uuid : DataType
uuid = 0x000a0080

abbrev pub geo_point : DataType
geo_point = 0x000b0040

abbrev pub geo_shape : DataType
geo_shape = 0x000c0000

abbrev pub int64 : DataType
int64 = 0x000d0040

abbrev pub array_bool : DataType
array_bool = 0x01000001

abbrev pub array_int64 : DataType
array_int64 = 0x010d0040

-- The map `DataTypeName`.
abbrev pub data_type_names : List (DataType × String)
data_type_names =
    (unknown, "Unknown")
    ∷ (bool, "Bool")
    ∷ (int8, "Int8")
    ∷ (uint8, "Uint8")
    ∷ (int16, "Int16")
    ∷ (uint16, "Uint16")
    ∷ (int32, "Int32")
    ∷ (uint32, "Uint32")
    ∷ (float32, "Float32")
    ∷ (small_enum, "SmallEnum")
    ∷ (big_enum, "BigEnum")
    ∷ (uuid, "UUID")
    ∷ (geo_point, "GeoPoint")
    ∷ (geo_shape, "GeoShape")
    ∷ (int64, "Int64")
    ∷ (array_bool, "Bool[]")
    ∷ (0x01010008, "Int8[]")
    ∷ (0x01020008, "Uint8[]")
    ∷ (0x01030010, "Int16[]")
    ∷ (0x01040010, "Uint16[]")
    ∷ (0x01050020, "Int32[]")
    ∷ (0x01060020, "Uint32[]")
    ∷ (0x01070020, "Float32[]")
    ∷ (0x01080008, "SmallEnum[]")
    ∷ (0x01090010, "BigEnum[]")
    ∷ (0x010a0080, "UUID[]")
    ∷ (0x010b0040, "GeoPoint[]")
    ∷ (array_int64, "Int64[]")
    ∷ []

-- The map `StringToDataType`.
abbrev pub string_to_data_type : List (String × DataType)
string_to_data_type =
    ("Bool", bool)
    ∷ ("Int8", int8)
    ∷ ("Uint8", uint8)
    ∷ ("Int16", int16)
    ∷ ("Uint16", uint16)
    ∷ ("Int32", int32)
    ∷ ("Uint32", uint32)
    ∷ ("Float32", float32)
    ∷ ("SmallEnum", small_enum)
    ∷ ("BigEnum", big_enum)
    ∷ ("UUID", uuid)
    ∷ ("GeoPoint", geo_point)
    ∷ ("GeoShape", geo_shape)
    ∷ ("Int64", int64)
    ∷ ("Bool[]", array_bool)
    ∷ ("Int8[]", 0x01010008)
    ∷ ("Uint8[]", 0x01020008)
    ∷ ("Int16[]", 0x01030010)
    ∷ ("Uint16[]", 0x01040010)
    ∷ ("Int32[]", 0x01050020)
    ∷ ("Uint32[]", 0x01060020)
    ∷ ("Float32[]", 0x01070020)
    ∷ ("SmallEnum[]", 0x01080008)
    ∷ ("BigEnum[]", 0x01090010)
    ∷ ("UUID[]", 0x010a0080)
    ∷ ("GeoPoint[]", 0x010b0040)
    ∷ ("Int64[]", array_int64)
    ∷ []

-- The cases of the switch in NewDataType.
abbrev pub valid_types : List DataType
valid_types =
    bool ∷ int8 ∷ uint8 ∷ int16 ∷ uint16 ∷ int32 ∷ uint32 ∷ int64 ∷ float32 ∷ small_enum ∷ big_enum
    ∷ uuid ∷ geo_point ∷ geo_shape ∷ array_bool ∷ 0x01010008 ∷ 0x01020008 ∷ 0x01030010 ∷ 0x01040010
    ∷ 0x01050020 ∷ 0x01060020 ∷ array_int64 ∷ 0x01070020 ∷ 0x01080008 ∷ 0x01090010 ∷ 0x010a0080
    ∷ 0x010b0040 ∷ []

-- A read of the map `DataTypeName`; a missing key reads as the empty string.
unfoldable pub name_in : List (DataType × String) → DataType → String
name_in [] d = ""
name_in ((t, s) ∷ ts) d = if t == d then s else name_in ts d

unfoldable pub data_type_name : DataType → String
unfolding name_in
data_type_name d = name_in data_type_names d

-- A read of the map `StringToDataType`.
unfoldable pub type_in : List (String × DataType) → String → Option DataType
type_in [] s = none
type_in ((n, t) ∷ ts) s = if str_eq n s then some t else type_in ts s

unfoldable pub data_type_from_string : String → DataType
unfolding type_in
data_type_from_string s = elim (type_in string_to_data_type s) [ some t ↦ t | none ↦ unknown ]

-- The switch takes a case.
unfoldable pub is_case : List DataType → DataType → Bool
is_case [] d = false
is_case (t ∷ ts) d = t == d || is_case ts d

-- The error of NewDataType is `none`.
unfoldable pub new_data_type : ℕ → Option DataType
unfolding is_case
new_data_type value = if is_case valid_types value then some value else none

unfoldable pub is_numeric : DataType → Bool
is_numeric d = leb int8 d && leb d float32 || d == int64

unfoldable pub is_array_type : DataType → Bool
is_array_type d = ltb 0 (bit_and d 0x01000000)

unfoldable pub get_element_data_type : DataType → DataType
get_element_data_type d = bit_and d 0x00ffffff

unfoldable pub data_type_bits : DataType → ℕ
data_type_bits d = bit_and 0x0000ffff d

unfoldable pub data_type_bytes : DataType → ℕ
unfolding data_type_bits
data_type_bytes d = (data_type_bits d + 7) / 8

unfoldable pub is_go_type : DataType → Bool
is_go_type d = d == geo_shape

unfoldable pub is_enum_type : DataType → Bool
is_enum_type d = d == small_enum || d == big_enum
