-- ===== src/Tokenizer/Encode.antt =====
-- The public encoder and decoder of src/ds3_tokenizer.c: `ds3_vocab_encode`, `ds3_vocab_decode`,
-- `ds3_vocab_decode_sequence` and `ds3_chat_format`. A C string is the list of its bytes before the
-- NUL, a `NULL` argument is `none`. The token vector is a list; its length is below 2 ^ 31.
pub mod Chunks
pub mod Decode
use qw.Base.{
  ℕ, zero, suc, ◌+◌, ◌-◌, Bool, true, false, ◌&&◌, List, [], ◌∷◌, ◌++◌, Option, none, some, ◌>>=◌,
  ltb, leb, ◌==◌, if◌then◌else◌, length, slice, take, get_elem?,
}
use qw.Base.Int.{ℤ, pos, negsuc}
use qw.Tokenizer.Table.{Bytes, same_bytes}
use qw.Tokenizer.ByteLevel.{byte_decode}
use qw.Tokenizer.Bpe.{Vocab}
use qw.Tokenizer.Segment.{bpe_tokenize_segment}

-- `pos + pat_len <= len && memcmp(text + pos, pat, pat_len) == 0`.
abbrev pub match_at : Bytes → ℕ → Bytes → Bool
match_at text p pat =
    leb (p + length pat) (length text) && same_bytes (slice text p (p + length pat)) pat

abbrev pub best_added_len : Option (ℕ × ℤ) → ℕ
best_added_len none = 0
best_added_len (some b) = b.0

-- The search for the longest added token at `p`; `best` is its length and id so far.
unfoldable pub best_added : Bytes → ℕ → List (Bytes × ℤ) → Option (ℕ × ℤ) → Option (ℕ × ℤ)
best_added text p [] best = best
best_added text p ((pat, id) ∷ more) best = best_added text p more (
    if ltb 0 (length pat) && match_at text p pat && ltb (best_added_len best) (length pat)
    then some (length pat, id)
    else best)

-- `strstr(text + p, pat)`, over `n` positions.
unfoldable pub strstr : ℕ → Bytes → ℕ → Bytes → Option ℕ
strstr zero text p pat = none
strstr (suc n) text p pat =
    let rest = strstr n text (p + 1) pat in if match_at text p pat then some p else rest

abbrev pub strstr_from : Bytes → ℕ → Bytes → Option ℕ
strstr_from text p pat = strstr (suc (length text - p)) text p pat

unfoldable pub next_added_pos : Bytes → ℕ → List (Bytes × ℤ) → ℕ → ℕ
next_added_pos text p [] next = next
next_added_pos text p ((pat, id) ∷ more) next =
    next_added_pos text p more
      (elim (strstr_from text p pat) [ none ↦ next | some fp ↦ if ltb fp next then fp else next ])

-- The loop of `ds3_vocab_encode` from `p` on; `none` means that the fuel ran out.
unfoldable pub encode_loop : ℕ → Vocab → Bytes → ℕ → Option (List ℤ)
encode_loop zero v text p = none
encode_loop (suc fuel) v text p =
    let next = next_added_pos text p v.added (length text) in
    if ltb p (length text)
    then elim (best_added text p v.added none) [
      | some b ↦ (do rest ← encode_loop fuel v text (p + b.0); some (b.1 ∷ rest))
      | none ↦ (do
        segment ← bpe_tokenize_segment v text p next
        rest ← encode_loop fuel v text next
        some (segment ++ rest))
    ]
    else some []

-- What a call that fills `tokens` returns: -1, or the tokens written, whose number it returns.
pub data Tokens : Type 0 where
  minus_one : Tokens
  tokens : List ℤ → Tokens

-- `out.len < max_tokens ? out.len : max_tokens` tokens are copied.
abbrev pub first_tokens : ℤ → List ℤ → Tokens
first_tokens (negsuc n) out = minus_one
first_tokens (pos zero) out = minus_one
first_tokens (pos (suc n)) out = tokens (take (suc n) out)

-- `max_tokens <= 0`.
abbrev pub no_room : ℤ → Bool
no_room (negsuc n) = true
no_room (pos zero) = true
no_room (pos (suc n)) = false

-- Every round takes a byte at least, so one round more than there are bytes is enough.
unfoldable pub ds3_vocab_encode : Option Vocab → Option Bytes → ℤ → Option Tokens
ds3_vocab_encode none text max_tokens = some minus_one
ds3_vocab_encode (some v) none max_tokens = some minus_one
ds3_vocab_encode (some v) (some text) max_tokens =
    let all = encode_loop (suc (length text)) v text 0 in
    if no_room max_tokens
    then some minus_one
    else (do out ← all; some (first_tokens max_tokens out))

unfoldable pub ds3_vocab_decode : Vocab → ℤ → Option Bytes
ds3_vocab_decode v (negsuc n) = none
ds3_vocab_decode v (pos token_id) = get_elem? v.token token_id

-- One round on the decoded bytes of a token: all of them where they fit in front of the NUL, else
-- what fits, and the loop stops. `buf` is what was written so far.
abbrev pub append_fitting : ℕ → Bytes → Bytes → Bytes × Bool
append_fitting buf_size buf decoded =
    if leb (buf_size - length buf) (length decoded)
    then (buf ++ take (buf_size - length buf - 1) decoded, true)
    else (buf ++ decoded, false)

-- One round of the loop of `ds3_vocab_decode_sequence`: a token without a string is skipped. `none`
-- means that `byte_decode` did not end.
unfoldable pub append_token : Vocab → ℕ → Bytes → ℤ → Option (Bytes × Bool)
append_token v buf_size buf t = elim (ds3_vocab_decode v t) [
  | none ↦ some (buf, false)
  | some raw ↦ (do decoded ← byte_decode raw; some (append_fitting buf_size buf decoded))
]

-- The loop; the result is the string in `buf`, whose length is returned.
unfoldable pub decode_loop : Vocab → ℕ → List ℤ → Bytes → Option Bytes
decode_loop v buf_size [] buf = some buf
decode_loop v buf_size (t ∷ ts) buf = do
  (written, stop) ← append_token v buf_size buf t
  (let rest = decode_loop v buf_size ts written in if stop then some written else rest)

-- -1, or the string written.
pub data Written : Type 0 where
  minus_one_bytes : Written
  bytes : Bytes → Written

unfoldable pub ds3_vocab_decode_sequence : Vocab → List ℤ → ℕ → Option Written
ds3_vocab_decode_sequence v [] buf_size = some minus_one_bytes
ds3_vocab_decode_sequence v (t ∷ ts) zero = some minus_one_bytes
ds3_vocab_decode_sequence v (t ∷ ts) (suc room) = do
  out ← decode_loop v (suc room) (t ∷ ts) []
  some (bytes out)
