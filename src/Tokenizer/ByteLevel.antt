-- ===== src/Tokenizer/ByteLevel.antt =====
-- The GPT-2 table between bytes and printable code points, and the two functions of
-- src/ds3_tokenizer.c that apply it to a whole text.
pub mod RoundTrip
use qw.Base.{
  ℕ, zero, suc, ◌+◌, ◌%◌, ◌^◌, Bool, true, false, ◌&&◌, ◌||◌, List, [], ◌∷◌, ◌++◌, Option, none,
  some, ◌>>=◌, ltb, leb, if◌then◌else◌, get_or, set, replicate, length,
}
use qw.Tokenizer.Table.{Bytes}
use qw.Tokenizer.Utf8.{utf8_put, utf8_decode_one}

-- `g_byte_to_cp` and `g_cp_to_byte`, static arrays.
pub record ByteTables : Type 0 where
  pub byte_to_cp : List ℕ
  pub cp_to_byte : List ℕ

abbrev printable : ℕ → Bool
printable byte = (leb 33 byte && leb byte 126) || (leb 161 byte && leb byte 172) || leb 174 byte

-- One round of the loop, with the count `n` of bytes that were moved above 255.
fill_byte : ℕ → ℕ × ByteTables → ℕ × ByteTables
fill_byte b (n, t) =
    if printable b
    then (n, record { byte_to_cp = set t.byte_to_cp b b; cp_to_byte = set t.cp_to_byte b b })
    else (
      n + 1,
      record {
        byte_to_cp = set t.byte_to_cp b ((256 + n) % 2 ^ 16);
        cp_to_byte = if ltb (256 + n) 512 then set t.cp_to_byte (256 + n) b else t.cp_to_byte;
      },
    )

fill_bytes : ℕ → ℕ → ℕ × ByteTables → ℕ × ByteTables
fill_bytes zero b s = s
fill_bytes (suc rounds) b s = fill_bytes rounds (b + 1) (fill_byte b s)

-- The tables once `g_byte_tables_ready` is set.
pub init_byte_tables : ByteTables
unfolding fill_bytes fill_byte
init_byte_tables =
    (fill_bytes 256 0 (0, record { byte_to_cp = replicate 256 0; cp_to_byte = replicate 512 0 })).1

unfoldable pub gpt2_byte_to_codepoint : ℕ → ℕ
unfolding init_byte_tables
gpt2_byte_to_codepoint b = get_or init_byte_tables.byte_to_cp b 0

unfoldable pub codepoint_to_byte : ℕ → ℕ
unfolding init_byte_tables
codepoint_to_byte cp = get_or init_byte_tables.cp_to_byte cp 0

unfoldable pub byte_encode : Bytes → Bytes
byte_encode [] = []
byte_encode (b ∷ bs) = utf8_put (gpt2_byte_to_codepoint b) ++ byte_encode bs

-- The while loop, from position `pos` on; `none` means that the fuel ran out.
pub byte_decode_loop : ℕ → Bytes → ℕ → Option Bytes
byte_decode_loop zero in_text pos = none
byte_decode_loop (suc fuel) in_text pos =
    let (cp, next) = utf8_decode_one in_text (length in_text) pos in
    let rest = byte_decode_loop fuel in_text next in
    if ltb pos (length in_text)
    then (do out ← rest; some (if ltb cp 512 then codepoint_to_byte cp ∷ out else out))
    else some []

-- Each round takes a byte at least, so one round more than there are bytes is enough.
unfoldable pub byte_decode : Bytes → Option Bytes
unfolding byte_decode_loop
byte_decode in_text = byte_decode_loop (suc (length in_text)) in_text 0
