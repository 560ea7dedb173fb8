-- ===== src/Tokenizer/Utf8/RoundTrip.antt =====
-- `utf8_decode_one` reads back what `utf8_put` wrote.
use qw.Base.{
  ℕ, suc, ◌+◌, ◌*◌, ◌/◌, ◌%◌, ◌^◌, ◌≤◌, ◌<◌, bit_and, bit_or, true, [], ◌∷◌, ◌++◌, ◌≡◌, refl, ap,
  ◌∙◌, arith, ltb, le→ltb, lt→ltb, ◌==◌, ==_iff, if◌then◌else◌, length,
}
use qw.Base.Bits.{and_mask, shifted_or, all_below, all_below_sound}
use native.Mathlib.Decide.{dec_lt}
use qw.Tokenizer.Table.{Bytes}
use qw.Tokenizer.Utf8.{
  byte_at, utf8_len_from_first_byte, utf8_put, char_len, code_point, utf8_decode_one,
  next_utf8_char,
}

-- The length by the range that the first byte lies in.
abbrev range_len : ℕ → ℕ
range_len c =
    if ltb c 192
    then 1
    else if ltb c 224
    then 2
    else if ltb c 240
    then 3
    else if ltb c 248
    then 4
    else 1

len_table : all_below 256 (λ c. utf8_len_from_first_byte c == range_len c) ≡ true
unfolding utf8_len_from_first_byte
len_table = refl

pub utf8_len-range : (c : ℕ) → c < 256 → utf8_len_from_first_byte c ≡ range_len c
utf8_len-range c h =
    (==_iff _ _).0
      (all_below_sound 256 (λ c. utf8_len_from_first_byte c == range_len c) c len_table h)

-- The bytes that `utf8_put` writes, in plain arithmetic.
abbrev tail_byte : ℕ → ℕ
tail_byte x = 128 + x % 64

tail_byte_lem : (x : ℕ) → bit_or 0x80 (bit_and x 0x3f) % 256 ≡ tail_byte x
tail_byte_lem x =
    let e : bit_or 0x80 (x % 64) ≡ 128 + x % 64 = shifted_or 6 2 (x % 64) (omega arith) in
    rw (and_mask 6 x, e) (omega arith)

head_two : (x : ℕ) → x < 32 → bit_or 0xc0 x % 256 ≡ 192 + x
head_two x h = let e : bit_or 0xc0 x ≡ 192 + x = shifted_or 5 6 x h in rw e (omega arith)

head_three : (x : ℕ) → x < 16 → bit_or 0xe0 x % 256 ≡ 224 + x
head_three x h = let e : bit_or 0xe0 x ≡ 224 + x = shifted_or 4 14 x h in rw e (omega arith)

head_four : (x : ℕ) → x < 8 → bit_or 0xf0 x % 256 ≡ 240 + x
head_four x h = let e : bit_or 0xf0 x ≡ 240 + x = shifted_or 3 30 x h in rw e (omega arith)

abbrev two_bytes : ℕ → Bytes
two_bytes cp = (192 + cp / 64) ∷ tail_byte cp ∷ []

abbrev three_bytes : ℕ → Bytes
three_bytes cp = (224 + cp / 4096) ∷ tail_byte (cp / 64) ∷ tail_byte cp ∷ []

abbrev four_bytes : ℕ → Bytes
four_bytes cp =
    (240 + cp / 262144) ∷ tail_byte (cp / 4096) ∷ tail_byte (cp / 64) ∷ tail_byte cp ∷ []

abbrev encoded : ℕ → Bytes
encoded cp =
    if ltb cp 128
    then cp ∷ []
    else if ltb cp 2048
    then two_bytes cp
    else if ltb cp 65536
    then three_bytes cp
    else four_bytes cp

pub utf8_put-encoded : (cp : ℕ) → cp < 2 ^ 21 → utf8_put cp ≡ encoded cp
unfolding utf8_put
utf8_put-encoded cp h = ground (
  arith,
  head_two (cp / 64),
  head_three (cp / 4096),
  head_four (cp / 262144),
  tail_byte_lem cp,
  tail_byte_lem (cp / 64),
  tail_byte_lem (cp / 4096),
)

low_six_tail : (y : ℕ) → bit_and (tail_byte y) 0x3f ≡ y % 64
low_six_tail y = and_mask 6 (tail_byte y) ∙ omega arith

module _ (s : Bytes) (len pos : ℕ) where
  char_len-one : byte_at s pos < 128 → pos < len → char_len s len pos ≡ 1
  unfolding char_len
  char_len-one h room = ground (arith, utf8_len-range (byte_at s pos))

  char_len-two : (x : ℕ) → byte_at s pos ≡ 192 + x → x < 32 → pos + 2 ≤ len → char_len s len pos ≡ 2
  unfolding char_len
  char_len-two x e h room = ground (arith, utf8_len-range (byte_at s pos))

  char_len-three :
      (x : ℕ) → byte_at s pos ≡ 224 + x → x < 16 → pos + 3 ≤ len → char_len s len pos ≡ 3
  unfolding char_len
  char_len-three x e h room = ground (arith, utf8_len-range (byte_at s pos))

  char_len-four : (x : ℕ) → byte_at s pos ≡ 240 + x → x < 8 → pos + 4 ≤ len → char_len s len pos ≡ 4
  unfolding char_len
  char_len-four x e h room = ground (arith, utf8_len-range (byte_at s pos))

  decode_one :
      (c : ℕ) → byte_at s pos ≡ c → c < 128 → pos < len → utf8_decode_one s len pos ≡ (c, pos + 1)
  unfolding utf8_decode_one code_point
  decode_one c e h room = rw (char_len-one (rw e h) room, e)

  decode_two :
      (x y : ℕ)
      → byte_at s pos ≡ 192 + x
      → byte_at s (pos + 1) ≡ tail_byte y
      → x < 32
      → pos + 2 ≤ len
      → utf8_decode_one s len pos ≡ (x * 2 ^ 6 + y % 64, pos + 2)
  unfolding utf8_decode_one code_point
  decode_two x y e e1 h room =
      let head : bit_and (192 + x) 0x1f ≡ x = and_mask 5 (192 + x) ∙ omega arith in
      rw (char_len-two x e h room, e, e1, head, low_six_tail, shifted_or 6 x (y % 64) (omega arith))

  decode_three :
      (x y z : ℕ)
      → byte_at s pos ≡ 224 + x
      → byte_at s (pos + 1) ≡ tail_byte y
      → byte_at s (pos + 2) ≡ tail_byte z
      → x < 16
      → pos + 3 ≤ len
      → utf8_decode_one s len pos ≡ ((x * 64 + y % 64) * 2 ^ 6 + z % 64, pos + 3)
  unfolding utf8_decode_one code_point
  decode_three x y z e e1 e2 h room =
      let head : bit_and (224 + x) 0x0f ≡ x = and_mask 4 (224 + x) ∙ omega arith in
      let high : bit_or (x * 2 ^ 12) (y % 64 * 2 ^ 6) ≡ (x * 64 + y % 64) * 2 ^ 6 =
        shifted_or 12 x (y % 64 * 2 ^ 6) (omega arith) ∙ omega arith in
      rw (char_len-three x e h room, e, e1, e2, head, low_six_tail y, low_six_tail z, high)
        (ap (λ (n : ℕ). (n, pos + 3)) (shifted_or 6 (x * 64 + y % 64) (z % 64) (omega arith)))

  decode_four :
      (x y z w : ℕ)
      → byte_at s pos ≡ 240 + x
      → byte_at s (pos + 1) ≡ tail_byte y
      → byte_at s (pos + 2) ≡ tail_byte z
      → byte_at s (pos + 3) ≡ tail_byte w
      → x < 8
      → pos + 4 ≤ len
      → utf8_decode_one s len pos ≡ (((x * 64 + y % 64) * 64 + z % 64) * 2 ^ 6 + w % 64, pos + 4)
  unfolding utf8_decode_one code_point
  decode_four x y z w e e1 e2 e3 h room =
      let head : bit_and (240 + x) 0x07 ≡ x = and_mask 3 (240 + x) ∙ omega arith in
      let high : bit_or (x * 2 ^ 18) (y % 64 * 2 ^ 12) ≡ (x * 64 + y % 64) * 2 ^ 12 =
        shifted_or 18 x (y % 64 * 2 ^ 12) (omega arith) ∙ omega arith in
      let higher : bit_or ((x * 64 + y % 64) * 2 ^ 12) (z % 64 * 2 ^ 6)
          ≡ ((x * 64 + y % 64) * 64 + z % 64) * 2 ^ 6 =
        shifted_or 12 (x * 64 + y % 64) (z % 64 * 2 ^ 6) (omega arith) ∙ omega arith in
      rw
        (
          char_len-four x e h room,
          e,
          e1,
          e2,
          e3,
          head,
          low_six_tail y,
          low_six_tail z,
          low_six_tail w,
          high,
          higher,
        )
        (ap (λ (n : ℕ). (n, pos + 4))
          (shifted_or 6 ((x * 64 + y % 64) * 64 + z % 64) (w % 64) (omega arith)))

byte_at-append : (pre ys : Bytes) (i : ℕ) → byte_at (pre ++ ys) (length pre + i) ≡ byte_at ys i
byte_at-append [] ys i = let e : 0 + i ≡ i = omega arith in rw e
byte_at-append (x ∷ xs) ys i =
    let e : suc (length xs) + i ≡ suc (length xs + i) = omega arith in rw e (byte_at-append xs ys i)

pub byte_at-here : (pre ys : Bytes) → byte_at (pre ++ ys) (length pre) ≡ byte_at ys 0
byte_at-here pre ys =
    ap (byte_at (pre ++ ys)) {y = length pre + 0} (omega arith) ∙ byte_at-append pre ys 0

-- The statement of the round trip, for the bytes `ys` in place of those of `utf8_put`.
abbrev ReadsBack : Bytes → Bytes → ℕ → ℕ → Bytes → Type 0
ReadsBack pre rest cp len ys =
    length pre + length ys ≤ len
    → utf8_decode_one (pre ++ (ys ++ rest)) len (length pre) ≡ (cp, length pre + length ys)

module _ (pre rest : Bytes) (cp len : ℕ) where
  at :
      (ys : Bytes) (i : ℕ) → byte_at (pre ++ (ys ++ rest)) (length pre + i) ≡ byte_at (ys ++ rest) i
  at ys i = byte_at-append pre (ys ++ rest) i

  reads_one : cp < 128 → ReadsBack pre rest cp len (cp ∷ [])
  reads_one h room = decode_one _ len (length pre) cp (byte_at-here pre (cp ∷ rest)) h (omega arith)

  reads_two : 128 ≤ cp → cp < 2048 → ReadsBack pre rest cp len (two_bytes cp)
  reads_two lo h room =
      decode_two _ len (length pre) (cp / 64) cp (byte_at-here pre (two_bytes cp ++ rest))
        (at (two_bytes cp) 1) (omega arith) (omega arith)
      ∙ ap (λ (n : ℕ). (n, length pre + 2)) (omega arith)

  reads_three : 2048 ≤ cp → cp < 65536 → ReadsBack pre rest cp len (three_bytes cp)
  reads_three lo h room =
      decode_three _ len (length pre) (cp / 4096) (cp / 64) cp
        (byte_at-here pre (three_bytes cp ++ rest)) (at (three_bytes cp) 1) (at (three_bytes cp) 2)
        (omega arith) (omega arith)
      ∙ ap (λ (n : ℕ). (n, length pre + 3)) (omega arith)

  reads_four : 65536 ≤ cp → cp < 2 ^ 21 → ReadsBack pre rest cp len (four_bytes cp)
  reads_four lo h room =
      decode_four _ len (length pre) (cp / 262144) (cp / 4096) (cp / 64) cp
        (byte_at-here pre (four_bytes cp ++ rest)) (at (four_bytes cp) 1) (at (four_bytes cp) 2)
        (at (four_bytes cp) 3) (omega arith) (omega arith)
      ∙ ap (λ (n : ℕ). (n, length pre + 4)) (omega arith)

  reads_encoded : cp < 2 ^ 21 → ReadsBack pre rest cp len (encoded cp)
  reads_encoded h = elim (dec_lt cp 128) [
    | yes a ↦ rw (lt→ltb cp 128 a) (reads_one a)
    | no a ↦ elim (dec_lt cp 2048) [
      | yes b ↦ rw (le→ltb cp 128 (omega arith), lt→ltb cp 2048 b) (reads_two (omega arith) b)
      | no b ↦ elim (dec_lt cp 65536) [
        | yes c ↦
            rw (le→ltb cp 128 (omega arith), le→ltb cp 2048 (omega arith), lt→ltb cp 65536 c)
              (reads_three (omega arith) c)
        | no c ↦
            rw
              (
                le→ltb cp 128 (omega arith),
                le→ltb cp 2048 (omega arith),
                le→ltb cp 65536 (omega arith),
              )
              (reads_four (omega arith) h)
      ]
    ]
  ]

-- `utf8_decode_one`, at the place where `utf8_put` wrote a code point below 2 ^ 21, whatever stands
-- before and behind, returns that code point and the position behind it, if the bytes that were
-- written end by `len`.
pub utf8_decode_one-utf8_put :
    (pre rest : Bytes) (cp len : ℕ)
    → cp < 2 ^ 21
    → length pre + length (utf8_put cp) ≤ len
    → utf8_decode_one (pre ++ (utf8_put cp ++ rest)) len (length pre)
      ≡ (cp, length pre + length (utf8_put cp))
utf8_decode_one-utf8_put pre rest cp len h =
    rw (utf8_put-encoded cp h) (reads_encoded pre rest cp len h)

-- A character has at least one byte, so each step of a loop over characters advances.
pub char_len-pos : (s : Bytes) (len pos : ℕ) → 1 ≤ char_len s len pos
unfolding char_len utf8_len_from_first_byte
char_len-pos s len pos = ground arith

-- Before `len` the character at a position ends by `len`.
pub char_len-le : (s : Bytes) (len pos : ℕ) → pos < len → pos + char_len s len pos ≤ len
unfolding char_len
char_len-le s len pos h = ground arith

pub utf8_decode_one-next :
    (s : Bytes) (len pos : ℕ) → (utf8_decode_one s len pos).1 ≡ pos + char_len s len pos
unfolding utf8_decode_one
utf8_decode_one-next s len pos = refl

pub next_utf8_char-gt : (s : Bytes) (len pos : ℕ) → pos < next_utf8_char s len pos
unfolding next_utf8_char
next_utf8_char-gt s len pos = omega (arith, char_len-pos s len pos)

pub next_utf8_char-le : (s : Bytes) (len pos : ℕ) → pos < len → next_utf8_char s len pos ≤ len
unfolding next_utf8_char
next_utf8_char-le s len pos h = char_len-le s len pos h
