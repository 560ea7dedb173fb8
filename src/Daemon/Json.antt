-- ===== src/Daemon/Json.antt =====
-- The JSON scanner of tools/qwen3-engine-daemon.c. A pointer into a C string is the list of the bytes from
-- there to the NUL, so `**p` at the end is the empty list.
pub mod Escape
pub mod Skip
use qw.Base.{
  ℕ, zero, suc, ◌+◌, ◌-◌, ◌*◌, Bool, true, false, ◌&&◌, ◌||◌, not, List, [], ◌∷◌, ◌++◌, Option,
  none, some, ◌>>=◌, ltb, leb, ◌==◌, if◌then◌else◌,
}
use qw.Tokenizer.Table.{Bytes}
use qw.Tokenizer.Utf8.{utf8_put}

-- `isspace` in the C locale.
abbrev pub isspace : ℕ → Bool
isspace c = c == 32 || (leb 9 c && leb c 13)

unfoldable pub json_ws : Bytes → Bytes
json_ws [] = []
json_ws (c ∷ r) = if isspace c then json_ws r else c ∷ r

-- The text behind the literal, if it starts with it.
unfoldable pub json_lit : Bytes → Bytes → Option Bytes
json_lit [] p = some p
json_lit (l ∷ ls) [] = none
json_lit (l ∷ ls) (c ∷ r) = if c == l then json_lit ls r else none

unfoldable pub json_hex : ℕ → Option ℕ
json_hex c =
    if leb b'0' c && leb c b'9'
    then some (c - b'0')
    else if leb b'a' c && leb c b'f'
    then some (10 + c - b'a')
    else if leb b'A' c && leb c b'F'
    then some (10 + c - b'A')
    else none

-- The four digits; `(cp << 4) | h` is a sum, since `h` is below 16.
abbrev pub four_digits : ℕ → ℕ → ℕ → ℕ → Option ℕ
four_digits a b c d = do
  h3 ← json_hex a
  h2 ← json_hex b
  h1 ← json_hex c
  h0 ← json_hex d
  some (((h3 * 16 + h2) * 16 + h1) * 16 + h0)

-- The code unit at `\uXXXX`; the pointer moves by 6.
unfoldable pub json_u16 : Bytes → Option ℕ
json_u16 (s ∷ u ∷ a ∷ b ∷ c ∷ d ∷ r) =
    if s == b'\\' && (u == b'u') then four_digits a b c d else none
json_u16 p = none

-- `utf8_put` of this file: what is no code point is written as U+FFFD.
unfoldable pub put_code_point : ℕ → Bytes
unfolding utf8_put
put_code_point cp =
    utf8_put (if ltb 1114111 cp || (leb 55296 cp && leb cp 57343) then 65533 else cp)

abbrev pub is_high : ℕ → Bool
is_high cp = leb 55296 cp && leb cp 56319

abbrev pub is_low : ℕ → Bool
is_low cp = leb 56320 cp && leb cp 57343

-- The code point of an escape, and how many bytes it takes, from the units at its place and behind it.
abbrev pub code_of : ℕ → Option ℕ → ℕ × ℕ
code_of cp none = (if is_high cp then 65533 else cp, 6)
code_of cp (some lo) =
    if is_high cp
    then (if is_low lo then (65536 + (cp - 55296) * 1024 + (lo - 56320), 12) else (65533, 6))
    else (cp, 6)

-- The byte of an escape of one character.
unfoldable pub simple_escape : ℕ → Option ℕ
simple_escape c =
    if c == b'"' || c == b'\\' || c == b'/'
    then some c
    else if c == b'b'
    then some 8
    else if c == b'f'
    then some 12
    else if c == b'n'
    then some 10
    else if c == b'r'
    then some 13
    else if c == b't'
    then some 9
    else none

-- What a scanner leaves: its value, if it returned true, and the pointer.
abbrev pub Scan : Type 0 → Type 0
Scan A = Option A × Bytes

abbrev pub prefixed : Bytes → Scan Bytes → Scan Bytes
prefixed out (none, p) = (none, p)
prefixed out (some s, p) = (some (out ++ s), p)

-- The text from `k` bytes ahead.
unfoldable pub ahead : ℕ → Bytes → Bytes
ahead zero p = p
ahead (suc k) [] = []
ahead (suc k) (c ∷ r) = ahead k r

-- What an escape does: `(bytes, n)` are the bytes written and the number of bytes that it takes,
-- where `p` is at the backslash.
unfoldable pub escape_at : Bytes → Option (Bytes × ℕ)
unfolding json_u16 put_code_point simple_escape ahead
escape_at (s ∷ e ∷ r) =
    if e == b'u'
    then (do
      cp ← json_u16 (s ∷ e ∷ r)
      some (
        put_code_point (code_of cp (json_u16 (ahead 6 (s ∷ e ∷ r)))).0,
        (code_of cp (json_u16 (ahead 6 (s ∷ e ∷ r)))).1,
      ))
    else (do c ← simple_escape e; some (c ∷ [], 2))
escape_at p = none

-- Where the pointer stands when an escape is refused: behind its character, or at the backslash. Behind
-- a backslash at the end the code's pointer is past the NUL; every caller returns without reading it.
abbrev pub refused_at : Bytes → Bytes
refused_at (s ∷ e ∷ r) = if e == b'u' then s ∷ e ∷ r else r
refused_at p = []

-- The loop behind the opening quote. An escape that was read takes `skip` bytes more, which are passed over.
unfoldable pub string_from : ℕ → Bytes → Scan Bytes
unfolding escape_at
string_from skip [] = (none, [])
string_from (suc skip) (c ∷ r) = string_from skip r
string_from zero (c ∷ r) =
    let plain = string_from 0 r in
    let escape = escape_at (c ∷ r) in
    if c == b'"'
    then (some [], r)
    else if c == b'\\'
    then elim escape [
      | none ↦ (none, refused_at (c ∷ r))
      | some e ↦ prefixed e.0 (string_from (e.1 - 1) r)
    ]
    else prefixed (c ∷ []) plain

abbrev pub string_at : Bytes → Scan Bytes
string_at [] = (none, [])
string_at (c ∷ r) = let s = string_from 0 r in if c == b'"' then s else (none, c ∷ r)

-- The buffer is a C string: an escape that writes a NUL, `\\u0000`, ends it there for its readers.
unfoldable pub until_nul : Bytes → Bytes
until_nul [] = []
until_nul (c ∷ s) = let rest = until_nul s in if c == 0 then [] else c ∷ rest

abbrev pub as_c_string : Scan Bytes → Scan Bytes
as_c_string (none, p) = (none, p)
as_c_string (some s, p) = (some (until_nul s), p)

unfoldable pub json_string : Bytes → Scan Bytes
unfolding json_ws string_from until_nul
json_string p = as_c_string (string_at (json_ws p))
