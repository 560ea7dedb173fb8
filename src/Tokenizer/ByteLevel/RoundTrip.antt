-- ===== src/Tokenizer/ByteLevel/RoundTrip.antt =====
-- `byte_decode` ends on every text, and undoes `byte_encode`.
use qw.Base.{
  ℕ, zero, suc, ◌+◌, ◌*◌, ◌≤◌, ◌<◌, Bool, true, ◌&&◌, [], ◌∷◌, ◌++◌, some, ◌>>=◌, ◌≡◌, refl, ap,
  ◌∙◌, inl, inr, arith, ltb, le→ltb, lt→ltb, ltb→lt, ◌==◌, if◌then◌else◌, length, length-append,
  All, append_assoc, append-nil, Bool-cases,
}
use qw.Base.Bits.{all_below, all_below_sound}
use qw.Tokenizer.Table.{Bytes}
use qw.Tokenizer.Utf8.{utf8_put, utf8_decode_one}
use qw.Tokenizer.Utf8.RoundTrip.{
  utf8_decode_one-utf8_put, utf8_decode_one-next, char_len-pos, char_len-le,
}
use qw.Tokenizer.ByteLevel.{
  gpt2_byte_to_codepoint, codepoint_to_byte, byte_encode, byte_decode, byte_decode_loop,
}

-- What the tables hold for every byte: a code point below 512 that leads back to the byte.
abbrev good_byte : ℕ → Bool
good_byte b =
    ltb (gpt2_byte_to_codepoint b) 512 && (codepoint_to_byte (gpt2_byte_to_codepoint b) == b)

byte_table : all_below 256 good_byte ≡ true
unfolding gpt2_byte_to_codepoint codepoint_to_byte
byte_table = refl

pub byte_tables_inverse :
    (b : ℕ)
    → b < 256
    → (gpt2_byte_to_codepoint b < 512) × (codepoint_to_byte (gpt2_byte_to_codepoint b) ≡ b)
byte_tables_inverse b h = let e = all_below_sound 256 good_byte b byte_table h in ground arith

-- One round of `byte_decode_loop` before the end.
decode_round :
    (fuel : ℕ) (s : Bytes) (pos cp next : ℕ) {out : Bytes}
    → pos < length s
    → cp < 512
    → utf8_decode_one s (length s) pos ≡ (cp, next)
    → byte_decode_loop fuel s next ≡ some out
    → byte_decode_loop (suc fuel) s pos ≡ some (codepoint_to_byte cp ∷ out)
unfolding byte_decode_loop
decode_round fuel s pos cp next inside small here later =
    rw (lt→ltb _ _ inside, here, later, ◌>>=◌, lt→ltb _ _ small)

utf8_put_ne : (cp : ℕ) → 1 ≤ length (utf8_put cp)
unfolding utf8_put
utf8_put_ne cp = ground arith

byte_decode_loop-byte_encode :
    (s pre : Bytes) (fuel : ℕ)
    → All (λ b. b < 256) s
    → length s < fuel
    → byte_decode_loop fuel (pre ++ byte_encode s) (length pre) ≡ some s
unfolding byte_encode
byte_decode_loop-byte_encode s pre zero bytes enough = absurd (omega arith)
byte_decode_loop-byte_encode [] pre (suc fuel) bytes enough =
    unfold byte_decode_loop in rw (append-nil, le→ltb (length pre) (length pre) (omega arith))
byte_decode_loop-byte_encode (b ∷ bs) pre (suc fuel) (hb, hbs) enough =
    let (small, back) = byte_tables_inverse b hb in
    let enc : Bytes = utf8_put (gpt2_byte_to_codepoint b) in
    let e1 : length (pre ++ (enc ++ byte_encode bs))
        ≡ length pre + (length enc + length (byte_encode bs)) =
      length-append pre (enc ++ byte_encode bs)
      ∙ ap (λ (n : ℕ). length pre + n) (length-append enc (byte_encode bs)) in
    let here =
      utf8_decode_one-utf8_put pre (byte_encode bs) (gpt2_byte_to_codepoint b)
        (length (pre ++ (enc ++ byte_encode bs))) (omega arith) (omega arith) in
    let later : byte_decode_loop fuel (pre ++ (enc ++ byte_encode bs)) (length pre + length enc)
        ≡ some bs =
      rw (← append_assoc pre enc (byte_encode bs), ← length-append pre enc)
        (byte_decode_loop-byte_encode bs (pre ++ enc) fuel hbs (omega arith)) in
    decode_round fuel _ (length pre) (gpt2_byte_to_codepoint b) _
      (omega (arith, utf8_put_ne (gpt2_byte_to_codepoint b))) small here later
    ∙ ap (λ (c : ℕ). some (c ∷ bs)) back

length-le-byte_encode : (s : Bytes) → length s ≤ length (byte_encode s)
unfolding byte_encode
length-le-byte_encode [] = omega arith
length-le-byte_encode (b ∷ bs) =
    let enc : Bytes = utf8_put (gpt2_byte_to_codepoint b) in
    omega (
      arith,
      length-append enc (byte_encode bs),
      utf8_put_ne (gpt2_byte_to_codepoint b),
      length-le-byte_encode bs,
    )

-- Decoding the byte-level form of any text of bytes ends and gives the text back.
pub byte_decode-byte_encode :
    (s : Bytes) → All (λ b. b < 256) s → byte_decode (byte_encode s) ≡ some s
unfolding byte_decode
byte_decode-byte_encode s bytes =
    byte_decode_loop-byte_encode s [] (suc (length (byte_encode s))) bytes
      (omega (arith, length-le-byte_encode s))

four_at_most : (cp : ℕ) → length (utf8_put cp) ≤ 4
unfolding utf8_put
four_at_most cp = ground arith

-- The buffer of `4 * in_len + 1` bytes that `byte_encode` allocates holds what it writes.
pub byte_encode-fits : (s : Bytes) → length (byte_encode s) ≤ 4 * length s
unfolding byte_encode
byte_encode-fits [] = omega arith
byte_encode-fits (b ∷ bs) =
    let enc : Bytes = utf8_put (gpt2_byte_to_codepoint b) in
    omega (
      arith,
      length-append enc (byte_encode bs),
      four_at_most (gpt2_byte_to_codepoint b),
      byte_encode-fits bs,
    )

byte_decode_loop-fits :
    (fuel : ℕ) (s : Bytes) (pos : ℕ)
    → pos ≤ length s
    → length s < pos + fuel
    → (out : Bytes) × (byte_decode_loop fuel s pos ≡ some out) × (length out + pos ≤ length s)
unfolding byte_decode_loop
byte_decode_loop-fits zero s pos h enough = absurd (omega arith)
byte_decode_loop-fits (suc fuel) s pos h enough = elim (Bool-cases (ltb pos (length s))) [
  | inr done ↦ ([], rw done, omega arith)
  | inl more ↦
      let next = utf8_decode_one-next s (length s) pos in
      let step = char_len-pos s (length s) pos in
      let inside = char_len-le s (length s) pos (ltb→lt _ _ more) in
      let (out, run, fits) =
        byte_decode_loop-fits fuel s (utf8_decode_one s (length s) pos).1 (omega arith)
          (omega arith) in
      let cp = (utf8_decode_one s (length s) pos).0 in
      (
        (if ltb cp 512 then codepoint_to_byte cp ∷ out else out),
        rw (more, run, ◌>>=◌),
        ground (arith, next, step, inside),
      )
]

-- On any bytes at all `byte_decode` ends, and the buffer of `in_len + 1` bytes holds what it writes.
pub byte_decode_total :
    (s : Bytes) → (out : Bytes) × (byte_decode s ≡ some out) × (length out ≤ length s)
unfolding byte_decode
byte_decode_total s =
    let (out, run, fits) = byte_decode_loop-fits (suc (length s)) s 0 (omega arith) (omega arith) in
    (out, run, omega arith)
