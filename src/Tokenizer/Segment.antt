-- ===== src/Tokenizer/Segment.antt =====
-- The pre-tokenizer of src/ds3_tokenizer.c: `match_contraction` and `bpe_tokenize_segment`.
-- Positions are uint64_t below the length of the text, so their sums do not wrap.
pub mod Progress
pub mod Cover
use qw.Base.{
  ℕ, zero, suc, ◌+◌, ◌-◌, Bool, true, false, ◌&&◌, ◌||◌, not, List, [], ◌∷◌, ◌++◌, Option, none,
  some, ◌>>=◌, ltb, leb, ◌==◌, if◌then◌else◌, slice,
}
use qw.Base.Int.{ℤ}
use qw.Tokenizer.Table.{Bytes}
use qw.Tokenizer.Utf8.{byte_at, next_utf8_char, is_letter_at, is_digit_at}
use qw.Tokenizer.Bpe.{Vocab, bpe_encode_piece}

abbrev pub ascii_space : ℕ → Bool
ascii_space c = c == b' ' || c == 9

abbrev pub ascii_newline : ℕ → Bool
ascii_newline c = c == 10 || c == 13

abbrev either : ℕ → ℕ → ℕ → Bool
either lower upper c = c == lower || c == upper

-- The length of the contraction at `pos`, or 0.
unfoldable pub match_contraction : Bytes → ℕ → ℕ → ℕ
match_contraction s len pos =
    let rem = len - pos - 1 in
    let p0 = byte_at s (pos + 1) in
    let p1 = byte_at s (pos + 2) in
    if leb len pos || not (byte_at s pos == 39)
    then 0
    else if leb 2 rem && (either b'r' b'R' p0 && either b'e' b'E' p1)
    then 3
    else if leb 2 rem && (either b'v' b'V' p0 && either b'e' b'E' p1)
    then 3
    else if leb 2 rem && (either b'l' b'L' p0 && either b'l' b'L' p1)
    then 3
    else if leb 1 rem
        && (either b's' b'S' p0
            || either b't' b'T' p0
            || either b'm' b'M' p0
            || either b'd' b'D' p0)
    then 2
    else 0

-- `while (p < len && test p) p = next p`. The fuel is at least the number of bytes left.
unfoldable pub span : (ℕ → Bool) → (ℕ → ℕ) → ℕ → ℕ → ℕ → ℕ
span test next zero len p = p
span test next (suc fuel) len p =
    let rest = span test next fuel len (next p) in if ltb p len && test p then rest else p

module _ (s : Bytes) (len : ℕ) where
  abbrev pub newline_at : ℕ → Bool
  newline_at p = ascii_newline (byte_at s p)

  abbrev pub blank_at : ℕ → Bool
  blank_at p = ascii_space (byte_at s p) || newline_at p

  abbrev pub letter_at : ℕ → Bool
  letter_at p = not (newline_at p) && is_letter_at s len p

  -- Branches 2 and 2': the letters from `p` on.
  unfoldable pub letters_end : ℕ → ℕ
  letters_end p = span letter_at (next_utf8_char s len) (len - p) len p

  -- The content of branch 4: neither white space, nor letter, nor digit.
  abbrev pub other_at : ℕ → Bool
  other_at p =
      not (ascii_space (byte_at s p) || newline_at p || is_letter_at s len p || is_digit_at s len p)

  unfoldable pub others_end : ℕ → ℕ
  others_end p = span other_at (λ q. q + 1) (len - p) len p

  unfoldable pub newlines_end : ℕ → ℕ
  newlines_end p = span newline_at (λ q. q + 1) (len - p) len p

  unfoldable pub blanks_end : ℕ → ℕ
  blanks_end p = span blank_at (λ q. q + 1) (len - p) len p

  -- Branch 5: `for (i = pos; i < p; i++) if (newline) last_nl_end = i + 1`, over `n` positions.
  unfoldable pub last_newline : ℕ → ℕ → ℕ → ℕ
  last_newline zero i last = last
  last_newline (suc n) i last = last_newline n (i + 1) (if newline_at i then i + 1 else last)

  -- Branch 6: `for (end = pos + 1; end <= p; end++)`, over `n` positions, until the `break`.
  unfoldable pub best_blank_end : ℕ → ℕ → ℕ → ℕ
  best_blank_end zero end best = best
  best_blank_end (suc n) end best =
      let rest = best_blank_end n (end + 1) end in
      if leb len end || blank_at end then rest else best

  -- Where branch 4 ends, or `none`.
  unfoldable pub others_branch : ℕ → Option ℕ
  others_branch pos =
      let start = (if byte_at s pos == b' ' then pos + 1 else pos) in
      let p = others_end start in if ltb start p then some (newlines_end p) else none

  -- Branches 5, 6 and 7, and the fallback: the new position, and whether the bytes up to it are
  -- encoded as a piece.
  unfoldable pub blank_branches : ℕ → ℕ × Bool
  blank_branches pos =
      let blank = blanks_end pos in
      let last_nl_end = last_newline (blank - pos) pos 0 in
      let best_end = best_blank_end (blank - pos) (pos + 1) pos in
      if ltb pos last_nl_end
      then (last_nl_end, true)
      else if ltb pos blank && ltb pos best_end
      then (best_end, true)
      else if blank_at pos
      then (blanks_end pos, true)
      else (next_utf8_char s len pos, false)

  -- The test of branch 2': a character that may stand before letters, and a letter behind it.
  abbrev pub before_letters : ℕ → Bool
  before_letters pos =
      let next_pos = next_utf8_char s len pos in
      ltb next_pos len
      && (not (newline_at pos)
          && (not (is_digit_at s len pos)
              && (not (newline_at next_pos) && is_letter_at s len next_pos)))

  -- Branch 4, or what comes behind it.
  unfoldable pub others_or : Option ℕ → ℕ → ℕ × Bool
  others_or (some p) pos = (p, true)
  others_or none pos = blank_branches pos

  -- One round of the loop at `pos`.
  unfoldable pub round : ℕ → ℕ × Bool
  round pos =
      let clen = match_contraction s len pos in
      if ltb 0 clen
      then (pos + clen, true)
      else if letter_at pos
      then (letters_end pos, true)
      else if before_letters pos
      then (letters_end (next_utf8_char s len pos), true)
      else if is_digit_at s len pos
      then (pos + 1, true)
      else others_or (others_branch pos) pos

  -- The pieces of the segment from `pos` on; `none` means that the fuel ran out.
  unfoldable pub pieces_loop : ℕ → ℕ → Option (List Bytes)
  pieces_loop zero pos = none
  pieces_loop (suc fuel) pos =
      let r = round pos in
      let rest = pieces_loop fuel r.0 in
      if ltb pos len
      then (do out ← rest; some (if r.1 then slice s pos r.0 ∷ out else out))
      else some []

-- Every round advances, so one round more than there are bytes is enough.
unfoldable pub segment_pieces : Bytes → ℕ → ℕ → Option (List Bytes)
segment_pieces text seg_start seg_end =
    pieces_loop text seg_end (suc (seg_end - seg_start)) seg_start

unfoldable pub encode_pieces : Vocab → List Bytes → Option (List ℤ)
encode_pieces v [] = some []
encode_pieces v (p ∷ ps) = do
  front ← bpe_encode_piece v p
  back ← encode_pieces v ps
  some (front ++ back)

-- The tokens that the call pushes.
unfoldable pub bpe_tokenize_segment : Vocab → Bytes → ℕ → ℕ → Option (List ℤ)
unfolding encode_pieces
bpe_tokenize_segment v text seg_start seg_end = do
  pieces ← segment_pieces text seg_start seg_end
  encode_pieces v pieces
