-- ===== src/Gguf/Value.antt =====
-- The metadata values of src/ds3_gguf.c: `read_metadata_value_safe`. A float is its bit pattern.
use qw.Base.{
  ℕ, zero, suc, ◌+◌, ◌*◌, ◌^◌, ◌%◌, Bool, not, List, [], ◌∷◌, get_or, ltb, ◌==◌, if◌then◌else◌,
}
use qw.Base.Int.{ℤ, signed}
use qw.Gguf.Cursor.{
  Mapping, ptr, end_of, load, ds3_le16, ds3_le32, ds3_le64, Parsed, got, null, fault, ◌>>=◌,
  checked, read_u32_safe, read_u64_safe, Str, read_str_safe,
}

-- The union of `ds3_gguf_metadata_kv_t`; `unset` is what `calloc` leaves.
pub data Value : Type 0 where
  u8 : ℕ → Value
  i8 : ℤ → Value
  u16 : ℕ → Value
  i16 : ℤ → Value
  u32 : ℕ → Value
  i32 : ℤ → Value
  f32 : ℕ → Value
  boolean : Bool → Value
  str : Str → Value
  array : ℕ → ℕ → ℕ → Value
  u64 : ℕ → Value
  i64 : ℤ → Value
  f64 : ℕ → Value
  unset : Value

-- `ds3_gguf_metadata_type_t`; a number outside the enum is `unknown`.
pub data MetadataType : Type 0 where
  uint8_type : MetadataType
  int8_type : MetadataType
  uint16_type : MetadataType
  int16_type : MetadataType
  uint32_type : MetadataType
  int32_type : MetadataType
  float32_type : MetadataType
  bool_type : MetadataType
  string_type : MetadataType
  array_type : MetadataType
  uint64_type : MetadataType
  int64_type : MetadataType
  float64_type : MetadataType
  unknown : MetadataType

-- The types in the order of their numbers.
abbrev metadata_types : List MetadataType
metadata_types =
    uint8_type ∷ int8_type ∷ uint16_type ∷ int16_type ∷ uint32_type ∷ int32_type ∷ float32_type
    ∷ bool_type ∷ string_type ∷ array_type ∷ uint64_type ∷ int64_type ∷ float64_type ∷ []

abbrev pub type_of : ℕ → MetadataType
type_of n = get_or metadata_types n unknown

-- The inner switch: the bytes of an element, 0 for strings, for nested arrays and for unknown types.
abbrev pub elem_size : MetadataType → ℕ
elem_size uint8_type = 1
elem_size int8_type = 1
elem_size uint16_type = 2
elem_size int16_type = 2
elem_size uint32_type = 4
elem_size int32_type = 4
elem_size float32_type = 4
elem_size bool_type = 1
elem_size string_type = 0
elem_size array_type = 0
elem_size uint64_type = 8
elem_size int64_type = 8
elem_size float64_type = 8
elem_size unknown = 0

abbrev pub mapped : {A B : Type 0} → (A → B) → Parsed A → Parsed B
mapped f (got a p) = got (f a) p
mapped f null = null
mapped f fault = fault

-- `arr_len` strings are skipped one by one.
unfoldable pub skip_strings : Mapping → ℕ → ℕ → Parsed Unit
unfolding read_str_safe
skip_strings m zero p = got tt p
skip_strings m (suc n) p = do (s, q) ← read_str_safe m p; skip_strings m n q

-- The elements behind the header of an array.
unfoldable pub skip_elements : Mapping → MetadataType → ℕ → ℕ → Parsed Unit
unfolding skip_strings
skip_elements m string_type arr_len p = skip_strings m arr_len p
skip_elements m t arr_len p =
    let skip = arr_len * elem_size t % 2 ^ 64 in
    if elem_size t == 0
    then got tt p
    else if ltb (end_of m) (ptr (p + skip))
    then null
    else got tt (ptr (p + skip))

unfoldable pub read_array : Mapping → ℕ → Parsed Value
unfolding read_u32_safe read_u64_safe skip_elements
read_array m p = do
  (arr_type, q) ← read_u32_safe m p
  (arr_len, r) ← read_u64_safe m q
  mapped (λ u. array arr_type arr_len r) (skip_elements m (type_of arr_type) arr_len r)

-- The switch on the type, behind `if (!p) return NULL`.
unfoldable pub read_metadata_value_safe : Mapping → ℕ → MetadataType → Parsed Value
unfolding ds3_le16 ds3_le32 ds3_le64 read_u32_safe read_u64_safe read_str_safe read_array
read_metadata_value_safe m p uint8_type = mapped u8 (checked m 1 p (load m p))
read_metadata_value_safe m p int8_type = mapped (λ x. i8 (signed 7 x)) (checked m 1 p (load m p))
read_metadata_value_safe m p uint16_type = mapped u16 (checked m 2 p (ds3_le16 m p))
read_metadata_value_safe m p int16_type =
    mapped (λ x. i16 (signed 15 x)) (checked m 2 p (ds3_le16 m p))
read_metadata_value_safe m p uint32_type = mapped u32 (read_u32_safe m p)
read_metadata_value_safe m p int32_type = mapped (λ x. i32 (signed 31 x)) (read_u32_safe m p)
read_metadata_value_safe m p float32_type = mapped f32 (checked m 4 p (ds3_le32 m p))
read_metadata_value_safe m p bool_type =
    mapped (λ x. boolean (not (x == 0))) (checked m 1 p (load m p))
read_metadata_value_safe m p string_type = mapped str (read_str_safe m p)
read_metadata_value_safe m p array_type = read_array m p
read_metadata_value_safe m p uint64_type = mapped u64 (read_u64_safe m p)
read_metadata_value_safe m p int64_type = mapped (λ x. i64 (signed 63 x)) (read_u64_safe m p)
read_metadata_value_safe m p float64_type = mapped f64 (checked m 8 p (ds3_le64 m p))
read_metadata_value_safe m p unknown = if p == 0 then null else got unset p
