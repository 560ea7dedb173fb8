-- ===== src/Gguf/Tests.antt =====
-- The theorems on src/ds3_gguf.c at concrete inputs.
use qw.Base.{
  ℕ, zero, suc, none, some, get_elem?, ap, ◌^◌, ◌*◌, ◌%◌, ◌≤◌, ◌<◌, [], ◌∷◌, ◌≡◌, arith, ◌⊎◌,
}
use qw.Tokenizer.Table.{Bytes}
use qw.KvCache.Hash.{little_endian}
use qw.Gguf.Cursor.{Mapping, got, null, str_at, read_str_safe}
use qw.Gguf.Open.{Tensor, Gguf, size_of, data_offset}
use qw.Gguf.Bounds.{IsMapping}
use qw.Gguf.Strings.{read_str_safe_lem, read_str_safe-wraps}
use qw.Gguf.Lookup.{ds3_gguf_find_tensor}
use qw.Gguf.Lookup.First.{Named, FirstNamed, ds3_gguf_find_tensor_first}
use qw.Gguf.Layout.{data_offset_least, size_of_least}

-- The string `hi`, with its length.
abbrev hi_file : Bytes
hi_file = 2 ∷ 0 ∷ 0 ∷ 0 ∷ 0 ∷ 0 ∷ 0 ∷ 0 ∷ 104 ∷ 105 ∷ []

abbrev hi_map : Mapping
hi_map = record { base = 4096; file = hi_file }

hi_map-IsMapping : IsMapping hi_map
hi_map-IsMapping = record { start = omega arith; room = omega arith; octets = omega arith }

-- A length of 2 ^ 64 - 1, and two bytes.
abbrev long_file : Bytes
long_file = 255 ∷ 255 ∷ 255 ∷ 255 ∷ 255 ∷ 255 ∷ 255 ∷ 255 ∷ 104 ∷ 105 ∷ []

abbrev long_map : Mapping
long_map = record { base = 4096; file = long_file }

long_map-IsMapping : IsMapping long_map
long_map-IsMapping = record { start = omega arith; room = omega arith; octets = omega arith }

read_str_safe_lem_example :
    ((10 ≤ 10) × (read_str_safe hi_map 4096 ≡ got (str_at 2 4104) 4106))
    ⊎ ((10 < 10) × (read_str_safe hi_map 4096 ≡ null))
unfolding little_endian
read_str_safe_lem_example = read_str_safe_lem hi_map-IsMapping 0 (omega arith) (omega arith)

read_str_safe-wraps_example :
    (next : ℕ) × (read_str_safe long_map 4096 ≡ got (str_at 18446744073709551615 4104) next)
    × (next < 4104)
    × (10 < 18446744073709551623)
unfolding little_endian
read_str_safe-wraps_example = read_str_safe-wraps long_map-IsMapping 0 (omega arith) (omega arith)

data_offset_least_example :
    (data_offset 32 100 % 32 ≡ 0) × (100 ≤ data_offset 32 100) × (data_offset 32 100 < 132)
data_offset_least_example = data_offset_least 32 100 (omega arith) (omega arith)

-- 33 elements of type Q4_0.
size_of_least_example :
    (blocks : ℕ) × (size_of 33 (18, 32) ≡ blocks * 18) × (33 ≤ blocks * 32) × (blocks * 32 < 65)
size_of_least_example = size_of_least 33 18 32 (omega arith) (omega arith)

abbrev hi_tensor : Tensor
hi_tensor = record {
  name = str_at 2 4104;
  ne = 33 ∷ [];
  type = 2;
  offset = 0;
  size = 36;
  data_ptr = 4128;
}

abbrev hi_gguf : Gguf
hi_gguf = record {
  mapping = hi_map;
  version = 3;
  alignment = 32;
  metadata = [];
  tensors = hi_tensor ∷ [];
  metadata_ptr = 4096;
  tensor_info_ptr = 4096;
  tensor_data_ptr = 4128;
  tensor_data_offset = 32;
}

hi_short : (j : ℕ) (t : Tensor) → get_elem? (hi_tensor ∷ []) j ≡ some t → t.name.len < 2 ^ 32
hi_short zero t at =
    let same : hi_tensor ≡ t = cc in
    let size : 2 ≡ t.name.len = ap (λ (x : Tensor). x.name.len) same in omega arith
hi_short (suc j) t at = cc

-- Looked for under `hi`.
ds3_gguf_find_tensor_first_example :
    ((ds3_gguf_find_tensor hi_gguf (104 ∷ 105 ∷ []) ≡ none)
      × ((j : ℕ) (t : Tensor)
          → get_elem? (hi_tensor ∷ []) j ≡ some t
          → ¬ Named hi_map (104 ∷ 105 ∷ []) t))
    ⊎ ((k : ℕ) × (t : Tensor) × (ds3_gguf_find_tensor hi_gguf (104 ∷ 105 ∷ []) ≡ some t)
        × FirstNamed hi_gguf (104 ∷ 105 ∷ []) k t)
ds3_gguf_find_tensor_first_example =
    ds3_gguf_find_tensor_first hi_gguf (104 ∷ 105 ∷ []) (omega arith, hi_short)
