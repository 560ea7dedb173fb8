-- ===== src/Daemon/Json/Escape.antt =====
-- `json_escape_to_buf`, and that `json_string` reads back what it writes.
use qw.Base.{
  ℕ, ◌+◌, ◌/◌, ◌%◌, ◌<◌, Bool, true, false, ◌&&◌, ◌||◌, not, [], ◌∷◌, ◌++◌, Option, none, some,
  ◌>>=◌, ltb, ◌==◌, if◌then◌else◌, All, ◌≡◌, refl, ap, ◌∙◌, sym, arith, append_assoc, Bool-cases,
  Option-cases, ==_iff, ltb→lt, inl, inr,
}
use qw.Base.Bits.{all_below, all_below_sound}
use qw.Tokenizer.Table.{Bytes, same_bytes}
use qw.Tokenizer.Table.Probe.{same_bytes-eq}
use qw.Daemon.Json.{
  json_string, string_from, json_ws, escape_at, prefixed, simple_escape, four_digits, json_hex,
  json_u16, put_code_point, code_of, ahead, until_nul, as_c_string,
}

-- A digit of `%04x`.
abbrev pub hex_digit : ℕ → ℕ
hex_digit d = if ltb d 10 then b'0' + d else 87 + d

unfoldable pub letter_of : ℕ → Option ℕ
letter_of c =
    if c == b'"' || c == b'\\'
    then some c
    else if c == 8
    then some b'b'
    else if c == 12
    then some b'f'
    else if c == 10
    then some b'n'
    else if c == 13
    then some b'r'
    else if c == 9
    then some b't'
    else none

-- What is written for a byte, from its letter; `\\u%04x` where there is none below 32.
abbrev pub escape_as : ℕ → Option ℕ → Bytes
escape_as c (some l) = b'\\' ∷ l ∷ []
escape_as c none =
    if ltb c 32
    then b'\\' ∷ b'u' ∷ b'0' ∷ b'0' ∷ hex_digit (c / 16) ∷ hex_digit (c % 16) ∷ []
    else c ∷ []

unfoldable pub escape_byte : ℕ → Bytes
unfolding letter_of
escape_byte c = escape_as c (letter_of c)

unfoldable pub json_escape_to_buf : Bytes → Bytes
json_escape_to_buf [] = []
json_escape_to_buf (c ∷ r) =
    let rest = json_escape_to_buf r in if c == 0 then [] else escape_byte c ++ rest

-- A byte of a C string.
abbrev pub IsChar : ℕ → Type 0
IsChar c = (0 < c) × (c < 256)

abbrev gives : Option ℕ → ℕ → Bool
gives none c = false
gives (some x) c = x == c

-- What the scanner does with a letter that stands for `c`.
letter_fits : ℕ → Option ℕ → Bool
letter_fits c none = ltb c 32 || (not (c == b'"') && not (c == b'\\'))
letter_fits c (some l) = not (l == b'u') && gives (simple_escape l) c

letter_ok : ℕ → Bool
unfolding letter_fits
letter_ok c = letter_fits c (letter_of c)

letters_ok : all_below 256 letter_ok ≡ true
unfolding letter_ok letter_fits simple_escape letter_of
letters_ok = refl

code_ok : ℕ → Bool
code_ok c =
    gives (four_digits b'0' b'0' (hex_digit (c / 16)) (hex_digit (c % 16))) c
    && same_bytes (put_code_point c) (c ∷ [])

codes_ok : all_below 32 code_ok ≡ true
unfolding code_ok put_code_point json_hex same_bytes
codes_ok = refl

gives-eq : (o : Option ℕ) (c : ℕ) → gives o c ≡ true → o ≡ some c
gives-eq none c e = cc
gives-eq (some x) c e = ap some ((==_iff x c).0 e)

and_left : (a b : Bool) → (a && b) ≡ true → a ≡ true
and_left a b e = ground arith

and_right : (a b : Bool) → (a && b) ≡ true → b ≡ true
and_right a b e = ground arith

-- An escape of one letter.
string_from-letter :
    (l c : ℕ) (q : Bytes)
    → (l == b'u') ≡ false
    → simple_escape l ≡ some c
    → string_from 0 (b'\\' ∷ l ∷ q) ≡ prefixed (c ∷ []) (string_from 0 q)
unfolding string_from escape_at
string_from-letter l c q no_u e = rw (no_u, e, ◌>>=◌) refl

code_of-small : (c : ℕ) (o : Option ℕ) → c < 32 → code_of c o ≡ (c, 6)
code_of-small c none h = ground arith
code_of-small c (some lo) h = ground arith

-- An escape by a code point.
string_from-code :
    (a b c : ℕ) (q : Bytes)
    → c < 32
    → four_digits b'0' b'0' a b ≡ some c
    → put_code_point c ≡ c ∷ []
    → string_from 0 (b'\\' ∷ b'u' ∷ b'0' ∷ b'0' ∷ a ∷ b ∷ q) ≡ prefixed (c ∷ []) (string_from 0 q)
unfolding string_from escape_at json_u16 ahead
string_from-code a b c q h e put = rw (e, ◌>>=◌, code_of-small c (json_u16 q) h, put) refl

escape_byte-letter : (c : ℕ) {l : ℕ} → letter_of c ≡ some l → escape_byte c ≡ b'\\' ∷ l ∷ []
unfolding escape_byte
escape_byte-letter c e = ap (escape_as c) e

escape_byte-code :
    (c : ℕ)
    → letter_of c ≡ none
    → ltb c 32 ≡ true
    → escape_byte c ≡ b'\\' ∷ b'u' ∷ b'0' ∷ b'0' ∷ hex_digit (c / 16) ∷ hex_digit (c % 16) ∷ []
unfolding escape_byte
escape_byte-code c e small = ap (escape_as c) e ∙ rw small refl

escape_byte-plain : (c : ℕ) → letter_of c ≡ none → ltb c 32 ≡ false → escape_byte c ≡ c ∷ []
unfolding escape_byte
escape_byte-plain c e large = ap (escape_as c) e ∙ rw large refl

string_from-plain :
    (c : ℕ) (q : Bytes)
    → (c == b'"') ≡ false
    → (c == b'\\') ≡ false
    → string_from 0 (c ∷ q) ≡ prefixed (c ∷ []) (string_from 0 q)
unfolding string_from
string_from-plain c q no_quote no_slash = rw (no_quote, no_slash) refl

string_from-byte :
    (c : ℕ) (q : Bytes)
    → c < 256
    → string_from 0 (escape_byte c ++ q) ≡ prefixed (c ∷ []) (string_from 0 q)
unfolding letter_ok letter_fits code_ok
string_from-byte c q h = elim (Option-cases (letter_of c)) [
  | inl plain ↦ elim (Bool-cases (ltb c 32)) [
    | inl small ↦
        let ok : code_ok c ≡ true = all_below_sound 32 code_ok c codes_ok (ltb→lt c 32 small) in
        let digits = gives-eq _ c (
          and_left (gives (four_digits b'0' b'0' (hex_digit (c / 16)) (hex_digit (c % 16))) c) _
            ok) in
        let put = same_bytes-eq (put_code_point c) (c ∷ []) (
          and_right (gives (four_digits b'0' b'0' (hex_digit (c / 16)) (hex_digit (c % 16))) c) _
            ok) in
        rw (escape_byte-code c plain small) (
          string_from-code (hex_digit (c / 16)) (hex_digit (c % 16)) c q (ltb→lt c 32 small) digits
            put)
    | inr large ↦
        let ok : letter_ok c ≡ true = all_below_sound 256 letter_ok c letters_ok h in
        let ok' : (ltb c 32 || (not (c == b'"') && not (c == b'\\'))) ≡ true =
          ap (letter_fits c) (sym plain) ∙ ok in
        let no_quote : (c == b'"') ≡ false = ground arith in
        let no_slash : (c == b'\\') ≡ false = ground arith in
        rw (escape_byte-plain c plain large) (string_from-plain c q no_quote no_slash)
  ]
  | inr (l, e) ↦
      let ok : letter_ok c ≡ true = all_below_sound 256 letter_ok c letters_ok h in
      let ok' : (not (l == b'u') && gives (simple_escape l) c) ≡ true =
        ap (letter_fits c) (sym e) ∙ ok in
      let no_u : (l == b'u') ≡ false = ground arith in
      rw (escape_byte-letter c e)
        (string_from-letter l c q no_u (gives-eq (simple_escape l) c (and_right _ _ ok')))
]

string_from_text :
    (s rest : Bytes)
    → All IsChar s
    → string_from 0 (json_escape_to_buf s ++ (b'"' ∷ rest)) ≡ (some s, rest)
unfolding json_escape_to_buf string_from
string_from_text [] rest h = refl
string_from_text (c ∷ s) rest h =
    let no_nul : (c == 0) ≡ false = let l = h.0.0 in ground arith in
    rw no_nul (
      ap (string_from 0) (append_assoc (escape_byte c) (json_escape_to_buf s) (b'"' ∷ rest))
      ∙ string_from-byte c (json_escape_to_buf s ++ (b'"' ∷ rest)) h.0.1
      ∙ ap (prefixed (c ∷ [])) (string_from_text s rest h.1))

pub until_nul_char : (s : Bytes) → All IsChar s → until_nul s ≡ s
unfolding until_nul
until_nul_char [] h = refl
until_nul_char (c ∷ s) h =
    let no_nul : (c == 0) ≡ false = let l = h.0.0 in ground arith in
    rw no_nul (ap (λ t. c ∷ t) (until_nul_char s h.1))

-- For every text of bytes that are no NUL, what `json_escape_to_buf` writes between two quotes is read back by
-- `json_string` as that text, whatever comes behind.
pub json_string-json_escape_to_buf :
    (s rest : Bytes)
    → All IsChar s
    → json_string (b'"' ∷ json_escape_to_buf s ++ (b'"' ∷ rest)) ≡ (some s, rest)
unfolding json_string json_ws
json_string-json_escape_to_buf s rest h =
    ap as_c_string (string_from_text s rest h) ∙ ap (λ t. (some t, rest)) (until_nul_char s h)
