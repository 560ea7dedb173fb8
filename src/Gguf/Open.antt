-- ===== src/Gguf/Open.antt =====
-- `ds3_gguf_open` of src/ds3_gguf.c, once the file is mapped: the header, the metadata, the tensors.
use qw.Base.{
  ℕ, zero, suc, ◌+◌, ◌-◌, ◌*◌, ◌/◌, ◌%◌, ◌^◌, Bool, ◌&&◌, not, List, [], ◌∷◌, none, some, ltb, ◌==◌,
  if◌then◌else◌, length,
}
use qw.Tokenizer.Table.{Bytes, same_bytes}
use qw.Gguf.Cursor.{
  Mapping, ptr, ds3_le32, bytes_at, Parsed, got, null, fault, ◌>>=◌, read_u32_safe, read_u64_safe,
  Str, read_str_safe,
}
use qw.Gguf.Value.{Value, u32, type_of, read_metadata_value_safe}

-- `ds3_gguf_metadata_kv_t`.
pub record Kv : Type 0 where
  pub key : Str
  pub value_type : ℕ
  pub value : Value

-- `ds3_gguf_tensor_info_t`; `ne` has the `n_dims` dimensions that are read. `size` and `data_ptr` are
-- computed when all tensors are read.
pub record Tensor : Type 0 where
  pub name : Str
  pub ne : List ℕ
  pub type : ℕ
  pub offset : ℕ
  pub size : ℕ
  pub data_ptr : ℕ

-- `ds3_gguf_t`, less the file descriptor; the arrays carry `n_metadata` and `n_tensors`.
pub record Gguf : Type 0 where
  pub mapping : Mapping
  pub version : ℕ
  pub alignment : ℕ
  pub metadata : List Kv
  pub tensors : List Tensor
  pub metadata_ptr : ℕ
  pub tensor_info_ptr : ℕ
  pub tensor_data_ptr : ℕ
  pub tensor_data_offset : ℕ

-- `ds3_gguf_strcmp(s, cstr) == 0`: the difference of the lengths is cast to a 32-bit int.
unfoldable pub ds3_gguf_strcmp_is_0 : Mapping → Str → Bytes → Bool
ds3_gguf_strcmp_is_0 m s cstr =
    if s.len == length cstr
    then same_bytes (bytes_at m s.data_ptr s.len) cstr
    else (s.len + 2 ^ 64 - length cstr) % 2 ^ 32 == 0

-- `general.alignment`.
abbrev pub general_alignment : Bytes
general_alignment =
    103 ∷ 101 ∷ 110 ∷ 101 ∷ 114 ∷ 97 ∷ 108 ∷ 46 ∷ 97 ∷ 108 ∷ 105 ∷ 103 ∷ 110 ∷ 109 ∷ 101 ∷ 110 ∷ 116
    ∷ []

abbrev pub alignment_of : Value → ℕ → ℕ
alignment_of (u32 n) before = n
alignment_of v before = before

-- The override of the alignment by a pair.
abbrev pub aligned_by : Mapping → Kv → ℕ → ℕ
aligned_by m kv before =
    if ds3_gguf_strcmp_is_0 m kv.key general_alignment && kv.value_type == 4
    then alignment_of kv.value before
    else before

abbrev pub read_kv : Mapping → ℕ → Parsed Kv
read_kv m p = do
  (key, q) ← read_str_safe m p
  (value_type, r) ← read_u32_safe m q
  (value, s) ← read_metadata_value_safe m r (type_of value_type)
  got (record { key = key; value_type = value_type; value = value }) s

-- `n` pairs, and the alignment.
unfoldable pub read_metadata : Mapping → ℕ → ℕ → ℕ → Parsed (List Kv × ℕ)
unfolding read_str_safe read_u32_safe read_metadata_value_safe ds3_gguf_strcmp_is_0
read_metadata m zero p alignment = got ([], alignment) p
read_metadata m (suc n) p alignment = do
  (kv, q) ← read_kv m p
  (more, r) ← read_metadata m n q (aligned_by m kv alignment)
  got (kv ∷ more.0, more.1) r

unfoldable pub read_dims : Mapping → ℕ → ℕ → Parsed (List ℕ)
unfolding read_u64_safe
read_dims m zero p = got [] p
read_dims m (suc n) p = do (d, q) ← read_u64_safe m p; (ds, r) ← read_dims m n q; got (d ∷ ds) r

abbrev pub few_dims : ℕ → ℕ → Parsed Unit
few_dims n_dims p = if ltb 4 n_dims then null else got tt p

unfoldable pub read_tensor : Mapping → ℕ → Parsed Tensor
unfolding read_str_safe read_u32_safe read_u64_safe read_dims
read_tensor m p = do
  (name, q) ← read_str_safe m p
  (n_dims, r) ← read_u32_safe m q
  (few, r) ← few_dims n_dims r
  (ne, s) ← read_dims m n_dims r
  (type, t) ← read_u32_safe m s
  (offset, u) ← read_u64_safe m t
  got (record { name = name; ne = ne; type = type; offset = offset; size = 0; data_ptr = 0 }) u

unfoldable pub read_tensors : Mapping → ℕ → ℕ → Parsed (List Tensor)
unfolding read_tensor
read_tensors m zero p = got [] p
read_tensors m (suc n) p = do (t, q) ← read_tensor m p; (ts, r) ← read_tensors m n q; got (t ∷ ts) r

-- The type and block sizes; an unknown type has size 0.
unfoldable pub type_and_block_size : ℕ → ℕ × ℕ
type_and_block_size t =
    if t == 0
    then (4, 1)
    else if t == 1
    then (2, 1)
    else if t == 2
    then (18, 32)
    else if t == 6
    then (22, 32)
    else if t == 8
    then (34, 32)
    else if t == 10
    then (84, 256)
    else if t == 11
    then (110, 256)
    else if t == 12
    then (144, 256)
    else if t == 13
    then (176, 256)
    else if t == 14
    then (210, 256)
    else if t == 15
    then (290, 256)
    else if t == 16
    then (66, 256)
    else if t == 17
    then (74, 256)
    else if t == 18
    then (98, 256)
    else (0, 1)

-- The product of the dimensions, a uint64_t.
unfoldable pub elements_from : ℕ → List ℕ → ℕ
elements_from n [] = n
elements_from n (d ∷ ds) = elements_from (n * d % 2 ^ 64) ds

abbrev pub n_elements : List ℕ → ℕ
n_elements ne = elements_from 1 ne

-- The bytes of `n` elements. The block sizes of the table are not 0.
unfoldable pub size_of : ℕ → ℕ × ℕ → ℕ
size_of n (type_size, block_size) =
    let whole = n / block_size * type_size % 2 ^ 64 in
    if ltb 1 block_size
    then if n % block_size == 0 then whole else (whole + type_size) % 2 ^ 64
    else n * type_size % 2 ^ 64

-- The last loop, on one tensor.
unfoldable pub place_tensor : ℕ → Tensor → Tensor
unfolding size_of elements_from type_and_block_size
place_tensor base t = record t {
  data_ptr = ptr (base + t.offset);
  size = size_of (n_elements t.ne) (type_and_block_size t.type);
}

unfoldable pub place_tensors : ℕ → List Tensor → List Tensor
unfolding place_tensor
place_tensors base [] = []
place_tensors base (t ∷ ts) = place_tensor base t ∷ place_tensors base ts

-- `(alignment - (end % alignment)) % alignment`: the sums are uint64_t.
abbrev pub padding : ℕ → ℕ → ℕ
padding alignment tensor_info_end = (alignment - tensor_info_end % alignment) % alignment

unfoldable pub data_offset : ℕ → ℕ → ℕ
data_offset alignment tensor_info_end =
    (tensor_info_end + padding alignment tensor_info_end) % 2 ^ 64

-- What the call comes to: a handle, NULL, or a crash (a read outside the mapping or a division by 0).
pub data Opened : Type 0 where
  opened : Gguf → Opened
  refused : Opened
  crashed : Opened

-- The end of the call: the padding divides by the alignment.
unfoldable pub lay_out : Mapping → ℕ → ℕ → ℕ → List Kv × ℕ → List Tensor → ℕ → Opened
unfolding place_tensors data_offset
lay_out m version metadata_ptr tensor_info_ptr (kvs, alignment) tensors p =
    let offset = data_offset alignment ((p + 2 ^ 64 - m.base) % 2 ^ 64) in
    if alignment == 0
    then crashed
    else opened (record {
      mapping = m;
      version = version;
      alignment = alignment;
      metadata = kvs;
      tensors = place_tensors (ptr (m.base + offset)) tensors;
      metadata_ptr = metadata_ptr;
      tensor_info_ptr = tensor_info_ptr;
      tensor_data_ptr = ptr (m.base + offset);
      tensor_data_offset = offset;
    })

abbrev pub ended : Parsed Opened → Opened
ended (got o p) = o
ended null = refused
ended fault = crashed

abbrev pub guard : Bool → ℕ → Parsed Unit
guard ok p = if ok then got tt p else null

-- `SIZE_MAX / sizeof`, for the 48 bytes of a pair and the 88 bytes of a tensor.
abbrev pub fits_size : ℕ → ℕ → Bool
fits_size n size = not (ltb (18446744073709551615 / size) n)

-- The magic, read at the start of the mapping.
abbrev pub read_magic : Mapping → Parsed ℕ
read_magic m = elim (ds3_le32 m m.base) [ none ↦ fault | some x ↦ got x (ptr (m.base + 4)) ]

-- `calloc n size` says whether the allocation succeeds; the handle has 104 bytes.
unfoldable pub ds3_gguf_open : (ℕ → ℕ → Bool) → Mapping → Opened
unfolding ds3_le32 read_u32_safe read_u64_safe read_metadata read_tensors lay_out
ds3_gguf_open calloc m = ended do
  (handle, p) ← guard (calloc 1 104) m.base
  (big, p) ← guard (not (ltb (length m.file) 4)) p
  (magic, p) ← read_magic m
  (good, p) ← guard (magic == 1179993927) p
  (version, p) ← read_u32_safe m p
  (new, p) ← guard (not (ltb version 3)) p
  (n_tensors, p) ← read_u64_safe m p
  (n_metadata, p) ← read_u64_safe m p
  (room, p) ← guard (fits_size n_metadata 48 && calloc n_metadata 48) p
  (kvs, q) ← read_metadata m n_metadata p 32
  (room, q) ← guard (fits_size n_tensors 88 && calloc n_tensors 88) q
  (tensors, r) ← read_tensors m n_tensors q
  got (lay_out m version p q kvs tensors r) r
