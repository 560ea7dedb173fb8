-- ===== src/Gguf/Cursor.antt =====
-- The low-level reads of src/ds3_gguf.c. A pointer is its address, a number below 2 ^ 64, NULL is 0,
-- and pointer sums wrap as the addresses do. The mapped file is the only memory that may be read.
use qw.Base.{
  ℕ, ◌+◌, ◌-◌, ◌*◌, ◌^◌, ◌%◌, bit_or, ◌||◌, Option, none, some, ltb, ◌==◌, if◌then◌else◌, length,
  get_elem?, slice,
}
use qw.Tokenizer.Table.{Bytes}

-- `mmap_base` and the bytes of the file.
pub record Mapping : Type 0 where
  pub base : ℕ
  pub file : Bytes

abbrev pub ptr : ℕ → ℕ
ptr a = a % 2 ^ 64

-- One past the last valid byte.
abbrev pub end_of : Mapping → ℕ
end_of m = ptr (m.base + length m.file)

-- A read at an address; `none` is a read outside the mapping.
abbrev pub load : Mapping → ℕ → Option ℕ
load m a = if ltb a m.base then none else get_elem? m.file (a - m.base)

-- `memcpy`-like access to `n` bytes from an address on.
abbrev pub bytes_at : Mapping → ℕ → ℕ → Bytes
bytes_at m a n = slice m.file (a - m.base) (a - m.base + n)

abbrev pub join_bytes : ℕ → Option ℕ → Option ℕ → Option ℕ
join_bytes w none hi = none
join_bytes w (some lo) none = none
join_bytes w (some lo) (some hi) = some (bit_or lo (hi * 2 ^ w))

unfoldable pub ds3_le16 : Mapping → ℕ → Option ℕ
ds3_le16 m p = join_bytes 8 (load m p) (load m (ptr (p + 1)))

unfoldable pub ds3_le32 : Mapping → ℕ → Option ℕ
ds3_le32 m p = join_bytes 16 (ds3_le16 m p) (ds3_le16 m (ptr (p + 2)))

unfoldable pub ds3_le64 : Mapping → ℕ → Option ℕ
ds3_le64 m p = join_bytes 32 (ds3_le32 m p) (ds3_le32 m (ptr (p + 4)))

-- What a read returns: the value with the pointer behind it, NULL, or a read outside the mapping.
pub data Parsed (A : Type 0) : Type 0 where
  got : A → ℕ → Parsed A
  null : Parsed A
  fault : Parsed A

infixl 20 ◌>>=◌
-- The next read, where the one before did not return NULL.
abbrev pub ◌>>=◌ : {A B : Type 0} → Parsed A → (A × ℕ → Parsed B) → Parsed B
got a p >>= f = f (a, p)
null >>= f = null
fault >>= f = fault

-- A value of `n` bytes at `p`, behind the test `!p || p + n > end`.
abbrev pub checked : {A : Type 0} → Mapping → ℕ → ℕ → Option A → Parsed A
checked m n p v =
    if p == 0 || ltb (end_of m) (ptr (p + n))
    then null
    else elim v [ none ↦ fault | some x ↦ got x (ptr (p + n)) ]

unfoldable pub read_u32_safe : Mapping → ℕ → Parsed ℕ
read_u32_safe m p = checked m 4 p (ds3_le32 m p)

unfoldable pub read_u64_safe : Mapping → ℕ → Parsed ℕ
read_u64_safe m p = checked m 8 p (ds3_le64 m p)

-- `ds3_gguf_str_t`: a length and a pointer into the mapping.
pub record Str : Type 0 where
  pub len : ℕ
  pub data_ptr : ℕ

abbrev pub str_at : ℕ → ℕ → Str
str_at len p = record { len = len; data_ptr = p }

unfoldable pub read_str_safe : Mapping → ℕ → Parsed Str
unfolding read_u64_safe
read_str_safe m p = do (len, q) ← read_u64_safe m p; checked m len q (some (str_at len q))

-- The read without a test, for the arrays that the tokenizer goes through.
unfoldable pub ds3_gguf_read_str : Mapping → ℕ → Parsed Str
unfolding ds3_le64
ds3_gguf_read_str m p = elim (ds3_le64 m p) [
  | none ↦ fault
  | some len ↦ got (str_at len (ptr (p + 8))) (ptr (p + 8 + len))
]
