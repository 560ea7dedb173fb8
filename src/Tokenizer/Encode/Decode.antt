-- ===== src/Tokenizer/Encode/Decode.antt =====
-- `ds3_vocab_decode_sequence` against its description: the decoded tokens, one after the other, cut
-- to what fits in front of the NUL.
use qw.Base.{
  ℕ, zero, suc, ◌-◌, ◌≤◌, ◌<◌, true, false, List, [], ◌∷◌, ◌++◌, none, some, ◌>>=◌, leb, length,
  length-append, take, append_assoc, append-nil, ◌≡◌, refl, ap, ◌∙◌, sym, arith, Bool-cases,
  Option-cases, leb→le, inl, inr,
}
use qw.Base.Int.{ℤ}
use qw.Tokenizer.Table.{Bytes}
use qw.Tokenizer.ByteLevel.{byte_decode}
use qw.Tokenizer.ByteLevel.RoundTrip.{byte_decode_total}
use qw.Tokenizer.Bpe.{Vocab}
use qw.Tokenizer.Encode.{
  ds3_vocab_decode, append_fitting, append_token, decode_loop, bytes, ds3_vocab_decode_sequence,
}

-- The text of a token: nothing for an id outside the vocabulary.
pub token_text : Vocab → ℤ → Bytes
token_text v t = elim (ds3_vocab_decode v t) [
  | none ↦ []
  | some raw ↦ elim (byte_decode raw) [ none ↦ [] | some out ↦ out ]
]

-- The texts of the tokens, one after the other.
pub tokens_text : Vocab → List ℤ → Bytes
unfolding token_text
tokens_text v [] = []
tokens_text v (t ∷ ts) = token_text v t ++ tokens_text v ts

take-nil : (n : ℕ) → let none_of : List ℕ = [] in take n none_of ≡ none_of
take-nil zero = refl
take-nil (suc n) = refl

take-append_short : (n : ℕ) (xs ys : Bytes) → n ≤ length xs → take n (xs ++ ys) ≡ take n xs
take-append_short zero xs ys h = refl
take-append_short (suc n) [] ys h = absurd (omega arith)
take-append_short (suc n) (x ∷ xs) ys h = ap (λ l. x ∷ l) (take-append_short n xs ys (omega arith))

take-append_long :
    (n : ℕ) (xs ys : Bytes) → length xs ≤ n → take n (xs ++ ys) ≡ xs ++ take (n - length xs) ys
take-append_long n [] ys h = ap (λ k. take k ys) (omega arith)
take-append_long zero (x ∷ xs) ys h = absurd (omega arith)
take-append_long (suc n) (x ∷ xs) ys h =
    ap (λ l. x ∷ l)
      (take-append_long n xs ys (omega arith) ∙ ap (λ k. xs ++ take k ys) (omega arith))

-- One round: the text of the token, whole or cut, behind what is written.
append_token_lem :
    (v : Vocab) (buf_size : ℕ) (buf : Bytes) (t : ℤ)
    → length buf < buf_size
    → append_token v buf_size buf t ≡ some (append_fitting buf_size buf (token_text v t))
unfolding append_token token_text
append_token_lem v buf_size buf t h = elim (Option-cases (ds3_vocab_decode v t)) [
  | inl missing ↦
      let room : leb (buf_size - length buf) 0 ≡ false = ground arith in
      rw (missing, append_token, token_text, room, append-nil buf) refl
  | inr (raw, e) ↦
      let (out, run, fewer) = byte_decode_total raw in
      rw (e, append_token, token_text, run, ◌>>=◌) refl
]

decode_stop :
    (v : Vocab) (buf_size : ℕ) (t : ℤ) (ts : List ℤ) (buf : Bytes)
    → length buf < buf_size
    → leb (buf_size - length buf) (length (token_text v t)) ≡ true
    → decode_loop v buf_size (t ∷ ts) buf
      ≡ some (buf ++ take (buf_size - length buf - 1) (token_text v t))
unfolding decode_loop
decode_stop v buf_size t ts buf h full = rw (append_token_lem v buf_size buf t h, full, ◌>>=◌)

decode_on :
    (v : Vocab) (buf_size : ℕ) (t : ℤ) (ts : List ℤ) (buf : Bytes)
    → length buf < buf_size
    → leb (buf_size - length buf) (length (token_text v t)) ≡ false
    → decode_loop v buf_size (t ∷ ts) buf ≡ decode_loop v buf_size ts (buf ++ token_text v t)
unfolding decode_loop
decode_on v buf_size t ts buf h full = rw (append_token_lem v buf_size buf t h, full, ◌>>=◌)

decode_loop_lem :
    (v : Vocab) (buf_size : ℕ) (ts : List ℤ) (buf : Bytes)
    → length buf < buf_size
    → decode_loop v buf_size ts buf
      ≡ some (buf ++ take (buf_size - length buf - 1) (tokens_text v ts))
unfolding decode_loop tokens_text
decode_loop_lem v buf_size [] buf h =
    ap some (sym (ap (λ l. buf ++ l) (take-nil (buf_size - length buf - 1)) ∙ append-nil buf))
decode_loop_lem v buf_size (t ∷ ts) buf h =
    elim (Bool-cases (leb (buf_size - length buf) (length (token_text v t)))) [
      | inl full ↦
          let le = leb→le _ _ full in
          decode_stop v buf_size t ts buf h full
          ∙ ap (λ l. some (buf ++ l))
              (sym (
                take-append_short (buf_size - length buf - 1) (token_text v t) (tokens_text v ts)
                  (omega arith)))
      | inr room ↦
          let lt : length (token_text v t) < buf_size - length buf = ground arith in
          let sum = length-append buf (token_text v t) in
          decode_on v buf_size t ts buf h room
          ∙ decode_loop_lem v buf_size ts (buf ++ token_text v t) (omega arith)
          ∙ ap some (
              append_assoc buf (token_text v t) _
              ∙ ap (λ l. buf ++ l)
                  (ap (λ k. token_text v t ++ take k (tokens_text v ts)) (omega arith)
                    ∙ sym (
                        take-append_long (buf_size - length buf - 1) (token_text v t)
                          (tokens_text v ts) (omega arith))))
    ]

-- For every vocabulary, every non-empty list of tokens and every non-empty buffer, the call ends and
-- writes the texts of the tokens, one after the other, cut to one byte less than the buffer holds.
pub ds3_vocab_decode_sequence_lem :
    (v : Vocab) (t : ℤ) (ts : List ℤ) (room : ℕ)
    → ds3_vocab_decode_sequence v (t ∷ ts) (suc room)
      ≡ some (bytes (take room (tokens_text v (t ∷ ts))))
unfolding ds3_vocab_decode_sequence
ds3_vocab_decode_sequence_lem v t ts room =
    let e : decode_loop v (suc room) (t ∷ ts) [] ≡ some (take room (tokens_text v (t ∷ ts))) =
      decode_loop_lem v (suc room) (t ∷ ts) [] (omega arith)
      ∙ ap (λ k. some (take k (tokens_text v (t ∷ ts)))) (omega arith) in
    rw (e, ◌>>=◌) refl
