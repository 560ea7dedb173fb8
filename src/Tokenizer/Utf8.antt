-- ===== src/Tokenizer/Utf8.antt =====
-- The UTF-8 helpers and the character classes of src/ds3_tokenizer.c.
-- A text is the list of its bytes. Behind its end stands the NUL of a C string, so `byte_at` is 0
-- there; the functions are called at a position before `len`, and read up to three bytes on only
-- where those stand before `len` too.
pub mod RoundTrip
use qw.Base.{
  ℕ, ◌+◌, ◌-◌, ◌*◌, ◌/◌, ◌%◌, ◌^◌, bit_and, bit_or, Bool, true, false, ◌&&◌, ◌||◌, List, [], ◌∷◌,
  ltb, leb, ◌==◌, if◌then◌else◌, get_or,
}
use qw.Tokenizer.Table.{Bytes}

abbrev pub byte_at : Bytes → ℕ → ℕ
byte_at s i = get_or s i 0

pub utf8_len_from_first_byte : ℕ → ℕ
utf8_len_from_first_byte c =
    if ltb c 0x80
    then 1
    else if bit_and c 0xe0 == 0xc0
    then 2
    else if bit_and c 0xf0 == 0xe0
    then 3
    else if bit_and c 0xf8 == 0xf0
    then 4
    else 1

-- The bytes that the call appends; each goes through a cast to char.
unfoldable pub utf8_put : ℕ → Bytes
utf8_put cp =
    if leb cp 0x7f
    then cp % 256 ∷ []
    else if leb cp 0x7ff
    then bit_or 0xc0 (cp / 2 ^ 6) % 256 ∷ bit_or 0x80 (bit_and cp 0x3f) % 256 ∷ []
    else if leb cp 0xffff
    then bit_or 0xe0 (cp / 2 ^ 12) % 256
      ∷ bit_or 0x80 (bit_and (cp / 2 ^ 6) 0x3f) % 256
      ∷ bit_or 0x80 (bit_and cp 0x3f) % 256
      ∷ []
    else bit_or 0xf0 (cp / 2 ^ 18) % 256
      ∷ bit_or 0x80 (bit_and (cp / 2 ^ 12) 0x3f) % 256
      ∷ bit_or 0x80 (bit_and (cp / 2 ^ 6) 0x3f) % 256
      ∷ bit_or 0x80 (bit_and cp 0x3f) % 256
      ∷ []

-- The length of the character at `pos`, 1 where it would pass the end.
pub char_len : Bytes → ℕ → ℕ → ℕ
unfolding utf8_len_from_first_byte
char_len s len pos =
    let n = utf8_len_from_first_byte (byte_at s pos) in if ltb len (pos + n) then 1 else n

unfoldable pub next_utf8_char : Bytes → ℕ → ℕ → ℕ
unfolding char_len
next_utf8_char s len pos = pos + char_len s len pos

-- `(uint32_t)((uint8_t)s[i] & 0x3f)`
abbrev pub low_six : Bytes → ℕ → ℕ
low_six s i = bit_and (byte_at s i) 0x3f

-- The code point of the character of `n` bytes at `pos`.
pub code_point : Bytes → ℕ → ℕ → ℕ
code_point s pos n =
    let c0 = byte_at s pos in
    if n == 1
    then c0
    else if n == 2
    then bit_or (bit_and c0 0x1f * 2 ^ 6) (low_six s (pos + 1))
    else if n == 3
    then bit_or (bit_or (bit_and c0 0x0f * 2 ^ 12) (low_six s (pos + 1) * 2 ^ 6))
        (low_six s (pos + 2))
    else bit_or
        (bit_or (bit_or (bit_and c0 0x07 * 2 ^ 18) (low_six s (pos + 1) * 2 ^ 12))
          (low_six s (pos + 2) * 2 ^ 6))
        (low_six s (pos + 3))

-- The code point, and the position behind it.
unfoldable pub utf8_decode_one : Bytes → ℕ → ℕ → ℕ × ℕ
unfolding char_len code_point
utf8_decode_one s len pos = let n = char_len s len pos in (code_point s pos n, pos + n)

abbrev within : ℕ → ℕ → ℕ → Bool
within lo hi cp = leb lo cp && leb cp hi

pub is_unicode_letter_cp : ℕ → Bool
is_unicode_letter_cp cp =
    within b'A' b'Z' cp
    || within b'a' b'z' cp
    || within 0x00c0 0x024f cp
    || within 0x0370 0x03ff cp
    || within 0x0400 0x04ff cp
    || within 0x0530 0x05ff cp
    || within 0x0600 0x06ff cp
    || within 0x0900 0x0d7f cp
    || within 0x0e00 0x10ff cp
    || within 0x1100 0x11ff cp
    || within 0x1200 0x137f cp
    || within 0x4e00 0x9fff cp
    || within 0x3400 0x4dbf cp
    || within 0x3040 0x312f cp
    || within 0xac00 0xd7af cp
    || within 0xf900 0xfaff cp
    || within 0xff21 0xff3a cp
    || within 0xff41 0xff5a cp
    || within 0x20000 0x2ebef cp

abbrev ascii_letter : ℕ → Bool
ascii_letter c = within b'A' b'Z' c || within b'a' b'z' c

unfoldable pub is_letter_at : Bytes → ℕ → ℕ → Bool
unfolding is_unicode_letter_cp utf8_decode_one
is_letter_at s len pos =
    let c = byte_at s pos in
    if ltb c 0x80 then ascii_letter c else is_unicode_letter_cp (utf8_decode_one s len pos).0

pub is_unicode_digit_cp : ℕ → Bool
is_unicode_digit_cp cp =
    within b'0' b'9' cp
    || within 0x0660 0x0669 cp
    || within 0x06f0 0x06f9 cp
    || within 0x0966 0x096f cp
    || within 0x09e6 0x09ef cp
    || within 0x0a66 0x0a6f cp
    || within 0x0ae6 0x0aef cp
    || within 0x0b66 0x0b6f cp
    || within 0x0be6 0x0bef cp
    || within 0x0c66 0x0c6f cp
    || within 0x0ce6 0x0cef cp
    || within 0x0d66 0x0d6f cp
    || within 0x0e50 0x0e59 cp
    || within 0x0ed0 0x0ed9 cp
    || within 0x0f20 0x0f29 cp
    || within 0x1040 0x1049 cp
    || within 0x17e0 0x17e9 cp
    || within 0x1810 0x1819 cp
    || within 0xff10 0xff19 cp

unfoldable pub is_digit_at : Bytes → ℕ → ℕ → Bool
unfolding is_unicode_digit_cp utf8_decode_one
is_digit_at s len pos =
    let c = byte_at s pos in
    if ltb c 0x80 then within b'0' b'9' c else is_unicode_digit_cp (utf8_decode_one s len pos).0
