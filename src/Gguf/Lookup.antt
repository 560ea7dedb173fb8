-- ===== src/Gguf/Lookup.antt =====
-- The lookups of src/ds3_gguf.c: `ds3_gguf_find_tensor`, `ds3_gguf_find_metadata` and the getters. The
-- handle is not NULL; neither are its arrays, since `ds3_gguf_open` refuses the file otherwise.
pub mod First
use qw.Base.{ℕ, Bool, ◌&&◌, List, [], ◌∷◌, Option, none, some, ◌==◌, if◌then◌else◌}
use qw.Tokenizer.Table.{Bytes}
use qw.Gguf.Cursor.{Str}
use qw.Gguf.Value.{Value, str, u32, f32}
use qw.Gguf.Open.{Kv, Tensor, Gguf, ds3_gguf_strcmp_is_0}

-- The loops over an array that return the first element that a test accepts.
unfoldable pub first_that : {A : Type 0} → (A → Bool) → List A → Option A
first_that test [] = none
first_that test (x ∷ xs) = let rest = first_that test xs in if test x then some x else rest

unfoldable pub ds3_gguf_find_tensor : Gguf → Bytes → Option Tensor
unfolding first_that
ds3_gguf_find_tensor g name = first_that (λ t. ds3_gguf_strcmp_is_0 g.mapping t.name name) g.tensors

unfoldable pub ds3_gguf_find_metadata : Gguf → Bytes → Option Kv
unfolding first_that
ds3_gguf_find_metadata g key =
    first_that (λ kv. ds3_gguf_strcmp_is_0 g.mapping kv.key key) g.metadata

-- The key and the type that a getter asks for.
abbrev pub asked : Gguf → Bytes → ℕ → Kv → Bool
asked g key type kv = ds3_gguf_strcmp_is_0 g.mapping kv.key key && (kv.value_type == type)

abbrev pub u32_of : Value → Option ℕ
u32_of (u32 n) = some n
u32_of v = none

abbrev pub f32_of : Value → Option ℕ
f32_of (f32 bits) = some bits
f32_of v = none

abbrev pub str_of : Value → Option Str
str_of (str s) = some s
str_of v = none

-- What a getter does with the pair that it found; `none` returns false.
abbrev pub value_by : {A : Type 0} → (Value → Option A) → Option Kv → Option A
value_by read none = none
value_by read (some kv) = read kv.value

unfoldable pub ds3_gguf_get_metadata_string : Gguf → Bytes → Option Str
unfolding first_that
ds3_gguf_get_metadata_string g key = value_by str_of (first_that (asked g key 8) g.metadata)

unfoldable pub ds3_gguf_get_metadata_u32 : Gguf → Bytes → Option ℕ
unfolding first_that
ds3_gguf_get_metadata_u32 g key = value_by u32_of (first_that (asked g key 4) g.metadata)

unfoldable pub ds3_gguf_get_metadata_f32 : Gguf → Bytes → Option ℕ
unfolding first_that
ds3_gguf_get_metadata_f32 g key = value_by f32_of (first_that (asked g key 6) g.metadata)
