-- ===== src/Daemon/Prompt/Strip.antt =====
-- What `strip_think_blocks` keeps of an answer.
use qw.Base.{
  ℕ, suc, ◌+◌, ◌-◌, ◌≤◌, ◌<◌, Bool, true, false, ◌&&◌, [], ◌∷◌, ◌++◌, some, leb, ltb, length, drop,
  take, slice, All, ◌≡◌, refl, ap, ◌∙◌, sym, arith, inl, inr, if◌then◌else◌, length-append,
  Bool-cases, ltb→lt, ltb→le,
}
use qw.Tokenizer.Table.{Bytes, same_bytes}
use qw.Tokenizer.Table.Probe.{same_bytes_refl}
use qw.Tokenizer.Encode.{strstr_from, match_at}
use qw.Tokenizer.Encode.Chunks.{strstr_lem, strstr_found}
use qw.Daemon.Texts.{think_end_tag, think_tag}
use qw.Daemon.Prompt.{skip_while, is_break, is_blank, answer_at, strip_think_blocks}

-- A list of bytes that the test accepts, in front of one that starts with another.
abbrev pub StartsOff : (ℕ → Bool) → Bytes → Type 0
StartsOff test [] = Unit
StartsOff test (c ∷ s) = test c ≡ false

skip_while-append :
    (test : ℕ → Bool) (b s : Bytes)
    → All (λ c. test c ≡ true) b
    → StartsOff test s
    → skip_while test (b ++ s) ≡ s
unfolding skip_while
skip_while-append test [] [] h off = refl
skip_while-append test [] (c ∷ s) h off = ap (λ b. if b then skip_while test s else c ∷ s) off
skip_while-append test (c ∷ b) s h off =
    ap (λ x. if x then skip_while test (b ++ s) else c ∷ (b ++ s)) h.0
    ∙ skip_while-append test b s h.1 off

-- No closing tag starts before the end of the reasoning.
abbrev pub NoTag : Bytes → ℕ → Type 0
NoTag text n = (k : ℕ) → k < n → match_at text k think_end_tag ≡ false

strstr_here :
    (text : Bytes) (n : ℕ)
    → match_at text n think_end_tag ≡ true
    → n ≤ length text
    → NoTag text n
    → strstr_from text 0 think_end_tag ≡ some n
strstr_here text n here le before =
    elim (strstr_lem text 0 (suc (length text - 0)) 0 think_end_tag) [
      | inl (e, all) ↦ let bad : true ≡ false = sym here ∙ all n (omega arith) (omega arith) in cc
      | inr (at, e, lo, none_at) ↦
          let found = strstr_found text 0 (suc (length text - 0)) 0 at think_end_tag e in
          elim (Bool-cases (ltb at n)) [
            | inl l ↦ let bad : true ≡ false = sym found ∙ before at (ltb→lt at n l) in cc
            | inr g ↦ elim (Bool-cases (ltb n at)) [
              | inl l ↦
                  let bad : true ≡ false = sym here ∙ none_at n (omega arith) (ltb→lt n at l) in cc
              | inr k ↦ e ∙ ap some (omega (arith, ltb→le at n g, ltb→le n at k))
            ]
          ]
    ]

drop_over : (r s : Bytes) (n : ℕ) → drop (length r + n) (r ++ s) ≡ drop n s
drop_over [] s n = let e : 0 + n ≡ n = omega arith in ap (λ k. drop k s) e
drop_over (c ∷ r) s n =
    let e : suc (length r) + n ≡ suc (length r + n) = omega arith in
    ap (λ k. drop k (c ∷ (r ++ s))) e ∙ drop_over r s n

take_over : (t s : Bytes) → take (length t) (t ++ s) ≡ t
take_over [] s = refl
take_over (c ∷ t) s = ap (λ l. c ∷ l) (take_over t s)

leb_more : (a b c : ℕ) → leb (a + b) (a + (b + c)) ≡ true
leb_more a b c = ground arith

match_here : (r t s : Bytes) → match_at (r ++ (t ++ s)) (length r) t ≡ true
match_here r t s =
    let bound : leb (length r + length t) (length (r ++ (t ++ s))) ≡ true =
      ap (leb (length r + length t))
        (length-append r (t ++ s) ∙ ap (λ n. length r + n) (length-append t s))
      ∙ leb_more (length r) (length t) (length s) in
    let e : length r + length t - length r ≡ length t = omega arith in
    let d : drop (length r) (r ++ (t ++ s)) ≡ t ++ s =
      ap (λ k. drop k (r ++ (t ++ s))) (omega arith) ∙ drop_over r (t ++ s) 0 in
    ap (λ b. b && same_bytes (slice (r ++ (t ++ s)) (length r) (length r + length t)) t) bound
    ∙ ap (λ x. same_bytes x t)
        (ap (λ k. take k (drop (length r) (r ++ (t ++ s)))) e
          ∙ ap (take (length t)) d
          ∙ take_over t s)
    ∙ same_bytes_refl t

-- Reasoning up to its closing tag, line breaks, blanks and the answer: `strip_think_blocks` keeps
-- the answer, where it starts with neither a break nor a blank.
pub strip_think_blocks-answer :
    (r breaks blanks answer : Bytes)
    → NoTag (r ++ (think_end_tag ++ (breaks ++ (blanks ++ answer)))) (length r)
    → All (λ c. is_break c ≡ true) breaks
    → All (λ c. is_blank c ≡ true) blanks
    → StartsOff is_break (blanks ++ answer)
    → StartsOff is_blank answer
    → strip_think_blocks (r ++ (think_end_tag ++ (breaks ++ (blanks ++ answer)))) ≡ answer
unfolding strip_think_blocks
strip_think_blocks-answer r breaks blanks answer before br bl off_break off_blank =
    let text = r ++ (think_end_tag ++ (breaks ++ (blanks ++ answer))) in
    let found =
      strstr_here text (length r) (match_here r think_end_tag (breaks ++ (blanks ++ answer)))
        (omega (arith, length-append r (think_end_tag ++ (breaks ++ (blanks ++ answer))))) before in
    ap
      (λ o.
        skip_while is_blank (skip_while is_break (answer_at text o (strstr_from text 0 think_tag))))
      found
    ∙ ap (λ t. skip_while is_blank (skip_while is_break t))
        (drop_over r (think_end_tag ++ (breaks ++ (blanks ++ answer))) (length think_end_tag))
    ∙ ap (skip_while is_blank) (skip_while-append is_break breaks (blanks ++ answer) br off_break)
    ∙ skip_while-append is_blank blanks answer bl off_blank
