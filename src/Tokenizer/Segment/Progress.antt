-- ===== src/Tokenizer/Segment/Progress.antt =====
-- Every round of `bpe_tokenize_segment` emits a piece of at least one byte, inside the segment: the
-- fallback at the end of the loop is never reached.
use qw.Base.{
  ℕ, zero, suc, ◌+◌, ◌-◌, ◌≤◌, ◌<◌, Bool, true, false, ◌&&◌, ◌||◌, not, Option, none, some, ltb,
  ltb→lt, lt→ltb, leb, ◌==◌, if◌then◌else◌, if_both, ◌≡◌, ◌≢◌, refl, arith, Bool-cases, inl, inr,
}
use qw.Tokenizer.Table.{Bytes}
use qw.Tokenizer.Utf8.{byte_at, next_utf8_char, is_digit_at}
use qw.Tokenizer.Utf8.RoundTrip.{next_utf8_char-gt, next_utf8_char-le}
use qw.Tokenizer.Segment.{
  match_contraction, span, letters_end, others_end, newlines_end, blanks_end, last_newline,
  best_blank_end, others_branch, others_or, blank_branches, before_letters, round, newline_at,
  blank_at, letter_at, other_at,
}

-- The loop that advances stays between its start and the end.
module _ (test : ℕ → Bool) (next : ℕ → ℕ) (len : ℕ)
    (grow : (q : ℕ) → q < len → (q < next q) × (next q ≤ len)) where
  span_bounds :
      (fuel p : ℕ) → p ≤ len → (p ≤ span test next fuel len p) × (span test next fuel len p ≤ len)
  unfolding span
  span_bounds zero p h = (omega arith, h)
  span_bounds (suc fuel) p h = elim (Bool-cases (ltb p len)) [
    | inr out ↦ rw out (omega arith, h)
    | inl more ↦ elim (Bool-cases (test p)) [
      | inr no_more ↦ rw (more, no_more) (omega arith, h)
      | inl on ↦
          let (up, inside) = grow p (ltb→lt p len more) in
          let (lo, hi) = span_bounds fuel (next p) inside in rw (more, on) (omega arith, hi)
    ]
  ]

  -- It leaves its start where the test holds there.
  span_advances : (fuel p : ℕ) → 0 < fuel → p < len → test p ≡ true → p < span test next fuel len p
  unfolding span
  span_advances zero p f h t = absurd (omega arith)
  span_advances (suc fuel) p f h t =
      let (up, inside) = grow p h in
      let (lo, hi) = span_bounds fuel (next p) inside in rw (lt→ltb p len h, t) (omega arith)

and_right : (a b : Bool) → (a && b) ≡ true → b ≡ true
and_right a b t = ground arith

-- The lengths 3 and 2 are given only where that many bytes are left.
contraction_fits :
    (b c d e f : Bool) (len pos : ℕ)
    → pos < len
    → pos
        + (if leb len pos || not b
            then 0
            else if leb 2 (len - pos - 1) && c
            then 3
            else if leb 2 (len - pos - 1) && d
            then 3
            else if leb 2 (len - pos - 1) && e
            then 3
            else if leb 1 (len - pos - 1) && f
            then 2
            else 0)
      ≤ len
contraction_fits false c d e f len pos h = ground arith
contraction_fits true c d e f len pos h = ground arith

module _ (s : Bytes) (len : ℕ) where
  match_contraction-le : (pos : ℕ) → pos < len → pos + match_contraction s len pos ≤ len
  unfolding match_contraction
  match_contraction-le pos h = contraction_fits _ _ _ _ _ len pos h

  next_ok : (q : ℕ) → q < len → (q < next_utf8_char s len q) × (next_utf8_char s len q ≤ len)
  next_ok q h = (next_utf8_char-gt s len q, next_utf8_char-le s len q h)

  suc_ok : (q : ℕ) → q < len → (q < q + 1) × (q + 1 ≤ len)
  suc_ok q h = omega arith

  letters_end-gt : (p : ℕ) → p < len → letter_at s len p ≡ true → p < letters_end s len p
  unfolding letters_end
  letters_end-gt p h t = span_advances _ _ len next_ok (len - p) p (omega arith) h t

  letters_end_bounds : (p : ℕ) → p ≤ len → (p ≤ letters_end s len p) × (letters_end s len p ≤ len)
  unfolding letters_end
  letters_end_bounds p h = span_bounds _ _ len next_ok (len - p) p h

  others_end-gt : (p : ℕ) → p < len → other_at s len p ≡ true → p < others_end s len p
  unfolding others_end
  others_end-gt p h t = span_advances _ _ len suc_ok (len - p) p (omega arith) h t

  others_end_bounds : (p : ℕ) → p ≤ len → (p ≤ others_end s len p) × (others_end s len p ≤ len)
  unfolding others_end
  others_end_bounds p h = span_bounds _ _ len suc_ok (len - p) p h

  newlines_end_bounds :
      (p : ℕ) → p ≤ len → (p ≤ newlines_end s len p) × (newlines_end s len p ≤ len)
  unfolding newlines_end
  newlines_end_bounds p h = span_bounds _ _ len suc_ok (len - p) p h

  blanks_end-gt : (p : ℕ) → p < len → blank_at s len p ≡ true → p < blanks_end s len p
  unfolding blanks_end
  blanks_end-gt p h t = span_advances _ _ len suc_ok (len - p) p (omega arith) h t

  blanks_end_bounds : (p : ℕ) → p ≤ len → (p ≤ blanks_end s len p) × (blanks_end s len p ≤ len)
  unfolding blanks_end
  blanks_end_bounds p h = span_bounds _ _ len suc_ok (len - p) p h

  last_newline-le :
      (n i last bound : ℕ) → last ≤ bound → i + n ≤ bound → last_newline s len n i last ≤ bound
  unfolding last_newline
  last_newline-le zero i last bound h k = h
  last_newline-le (suc n) i last bound h k =
      last_newline-le n (i + 1) _ bound
        (if_both (λ x. x ≤ bound) (newline_at s len i) (i + 1) last (λ e. omega arith) (λ e. h))
        (omega arith)

  best_blank_end-le :
      (n end best bound : ℕ)
      → best ≤ bound
      → end + n ≤ bound + 1
      → best_blank_end s len n end best ≤ bound
  unfolding best_blank_end
  best_blank_end-le zero end best bound h k = h
  best_blank_end-le (suc n) end best bound h k =
      if_both (λ x. x ≤ bound) (leb len end || blank_at s len end) _ best
        (λ e. best_blank_end-le n (end + 1) end bound (omega arith) (omega arith)) (λ e. h)

  -- Branch 4, where it is taken.
  others_branch_bounds :
      (pos : ℕ) {p : ℕ} → pos < len → others_branch s len pos ≡ some p → (pos < p) × (p ≤ len)
  unfolding others_branch
  others_branch_bounds pos {p} h e =
      let start : ℕ = (if byte_at s pos == b' ' then pos + 1 else pos) in
      let near : (pos ≤ start) × (start ≤ len) =
        if_both (λ x. (pos ≤ x) × (x ≤ len)) (byte_at s pos == b' ') (pos + 1) pos
          (λ e. (omega arith, omega arith)) (λ e. (omega arith, omega arith)) in
      let (lo, hi) = others_end_bounds start near.1 in
      let (lo', hi') = newlines_end_bounds (others_end s len start) hi in
      elim (Bool-cases (ltb start (others_end s len start))) [
        | inr no_content ↦ let e' : none ≡ some p = rw no_content at e in cc
        | inl content ↦
            let lt = ltb→lt start (others_end s len start) content in
            let e' : some (newlines_end s len (others_end s len start)) ≡ some p =
              rw content at e in
            let p_is : newlines_end s len (others_end s len start) ≡ p = cc in
            (omega arith, omega arith)
      ]

  -- Branch 4 is taken wherever the byte is no white space, no letter and no digit.
  others_branch-ne-none :
      (pos : ℕ)
      → pos < len
      → blank_at s len pos ≡ false
      → letter_at s len pos ≡ false
      → is_digit_at s len pos ≡ false
      → others_branch s len pos ≢ none
  unfolding others_branch
  others_branch-ne-none pos h blank letter digit =
      let not_space : (byte_at s pos == b' ') ≡ false = ground arith in
      let other : other_at s len pos ≡ true = ground arith in
      let content : ltb pos (others_end s len pos) ≡ true =
        lt→ltb pos _ (others_end-gt pos h other) in
      rw (not_space, content) (λ e. cc)

  -- What a round does: it emits the bytes from `pos` up to a later position of the segment.
  pub record Emits (pos : ℕ) (r : ℕ × Bool) : Type 0 where
    pub advances : pos < r.0
    pub inside : r.0 ≤ len
    pub piece : r.1 ≡ true

  blank_branches-Emits :
      (pos : ℕ)
      → pos < len
      → others_branch s len pos ≡ none
      → letter_at s len pos ≡ false
      → is_digit_at s len pos ≡ false
      → Emits pos (blank_branches s len pos)
  unfolding blank_branches
  blank_branches-Emits pos h e letter digit =
      let (lo, hi) = blanks_end_bounds pos (omega arith) in
      let n : ℕ = blanks_end s len pos - pos in
      let nl = last_newline-le n pos 0 (blanks_end s len pos) (omega arith) (omega arith) in
      let bb = best_blank_end-le n (pos + 1) pos (blanks_end s len pos) lo (omega arith) in
      if_both (Emits pos) _ _ _
        (λ t. record { advances = ltb→lt _ _ t; inside = omega arith; piece = refl })
        λ t.
          let p : ℕ = blanks_end s len pos in
          let best : ℕ = best_blank_end s len (blanks_end s len pos - pos) (pos + 1) pos in
          if_both (Emits pos) (ltb pos p && ltb pos best) (best, true) _
            (λ u. record {
              advances = ltb→lt pos best (and_right (ltb pos p) (ltb pos best) u);
              inside = omega arith;
              piece = refl;
            })
            λ u.
              if_both (Emits pos) _ _ _
                (λ v. record { advances = blanks_end-gt pos h v; inside = hi; piece = refl })
                (λ v. absurd (others_branch-ne-none pos h v letter digit e))

  others_or-Emits :
      (pos : ℕ) (o : Option ℕ)
      → pos < len
      → others_branch s len pos ≡ o
      → letter_at s len pos ≡ false
      → is_digit_at s len pos ≡ false
      → Emits pos (others_or s len o pos)
  unfolding others_or
  others_or-Emits pos (some p) h e letter digit =
      let (lo, hi) = others_branch_bounds pos h e in
      record { advances = lo; inside = hi; piece = refl }
  others_or-Emits pos none h e letter digit = blank_branches-Emits pos h e letter digit

  -- Whatever the text, every round of the loop takes at least one byte, ends inside the segment, and
  -- emits the bytes that it takes: the fallback, which would drop a character, is never reached.
  pub round-Emits : (pos : ℕ) → pos < len → Emits pos (round s len pos)
  unfolding round
  round-Emits pos h =
      let c = match_contraction-le pos h in
      let (up, inside) = next_ok pos h in
      if_both (Emits pos) (ltb 0 (match_contraction s len pos)) _ _
        (λ t.
          let t' = ltb→lt 0 (match_contraction s len pos) t in
          record { advances = omega arith; inside = c; piece = refl })
        λ t.
          if_both (Emits pos) (letter_at s len pos) _ _
            (λ l. record {
              advances = letters_end-gt pos h l;
              inside = (letters_end_bounds pos (omega arith)).1;
              piece = refl;
            })
            λ l.
              if_both (Emits pos) (before_letters s len pos) _ _
                (λ u.
                  let (lo, hi) = letters_end_bounds (next_utf8_char s len pos) inside in
                  record { advances = omega arith; inside = hi; piece = refl })
                λ u.
                  if_both (Emits pos) (is_digit_at s len pos) _ _
                    (λ d. record { advances = omega arith; inside = omega arith; piece = refl })
                    (λ d. others_or-Emits pos (others_branch s len pos) h refl l d)
