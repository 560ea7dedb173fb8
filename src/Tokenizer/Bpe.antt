-- ===== src/Tokenizer/Bpe.antt =====
-- The BPE of one piece in src/ds3_tokenizer.c: `bpe_rank` and `bpe_encode_piece`, and the vocabulary
-- that they read. The array of symbols is a list of byte strings; it is never aliased.
pub mod Merge
pub mod Emit
pub mod Split
use qw.Base.{
  ℕ, zero, suc, ◌+◌, ◌-◌, ◌^◌, Bool, true, false, List, [], ◌∷◌, ◌++◌, Option, none, some, ◌>>=◌,
  ltb, if◌then◌else◌, length, slice,
}
use qw.Base.Int.{ℤ, pos, negsuc}
use qw.Tokenizer.Table.{Bytes, Table, table_find}
use qw.Tokenizer.Utf8.{char_len}
use qw.Tokenizer.ByteLevel.{byte_encode}

-- `ds3_vocab_t`; the arrays carry their lengths `n_vocab` and `n_added`.
pub record Vocab : Type 0 where
  pub token : List Bytes
  pub token_to_id : Table
  pub merge_rank : Table
  pub bos_id : ℤ
  pub eos_id : ℤ
  pub pad_id : ℤ
  pub im_start_id : ℤ
  pub im_end_id : ℤ
  pub think_end_id : ℤ
  pub added : List (Bytes × ℤ)

abbrev pub or_minus_one : Option ℤ → ℤ
or_minus_one none = negsuc 0
or_minus_one (some r) = r

-- The pair is looked up with a space between its parts. `none`: the call does not return.
unfoldable pub bpe_rank : Vocab → Bytes → Bytes → Option ℤ
bpe_rank v a b = do r ← table_find v.merge_rank (a ++ (b' ' ∷ b)); some (or_minus_one r)

-- The UTF-8 characters from `off` on; `none` means that the fuel ran out.
unfoldable pub split_loop : ℕ → Bytes → ℕ → Option (List Bytes)
split_loop zero encoded off = none
split_loop (suc fuel) encoded off =
    let n = char_len encoded (length encoded) off in
    let rest = split_loop fuel encoded (off + n) in
    if ltb off (length encoded)
    then (do syms ← rest; some (slice encoded off (off + n) ∷ syms))
    else some []

-- A character has a byte at least, so one round more than there are bytes is enough.
unfoldable pub split_chars : Bytes → Option (List Bytes)
unfolding split_loop
split_chars encoded = split_loop (suc (length encoded)) encoded 0

-- `best_i` (`none` is -1) and `best_rank`.
pub record Best : Type 0 where
  pub index : Option ℕ
  pub rank : ℕ

abbrev pub int32_max : ℕ
int32_max = 2 ^ 31 - 1

-- `rank >= 0 && rank < best_rank`
unfoldable pub better : ℤ → ℕ → Best → Best
better (pos r) i b = if ltb r b.rank then record { index = some i; rank = r } else b
better (negsuc r) i b = b

-- The search over the pairs, from pair `i` on; `none` where a call of `rank` does not return.
unfoldable pub best_pair : (Bytes → Bytes → Option ℤ) → List Bytes → ℕ → Best → Option Best
unfolding better
best_pair rank [] i b = some b
best_pair rank (x ∷ []) i b = some b
best_pair rank (x ∷ y ∷ r) i b = do k ← rank x y; best_pair rank (y ∷ r) (suc i) (better k i b)

-- Symbol `i` becomes its concatenation with the next, and the later ones move down.
unfoldable pub merge_at : ℕ → List Bytes → List Bytes
merge_at zero (x ∷ y ∷ r) = (x ++ y) ∷ r
merge_at zero r = r
merge_at (suc i) [] = []
merge_at (suc i) (x ∷ r) = x ∷ merge_at i r

abbrev pub no_best : Best
no_best = record { index = none; rank = int32_max }

-- `for (;;)`, until no pair has a rank; `none` where a call of `rank` does not return.
unfoldable pub merge_loop : ℕ → (Bytes → Bytes → Option ℤ) → List Bytes → Option (List Bytes)
merge_loop zero rank syms = none
merge_loop (suc fuel) rank syms = do
  best ← best_pair rank syms 0 no_best
  (elim best.index [ none ↦ some syms | some i ↦ merge_loop fuel rank (merge_at i syms) ])

-- Every round removes a symbol, so one round more than there are symbols is enough.
unfoldable pub merge_all : (Bytes → Bytes → Option ℤ) → List Bytes → Option (List Bytes)
unfolding merge_loop
merge_all rank syms = merge_loop (suc (length syms)) rank syms

abbrev pub pushed : Option ℤ → List ℤ → List ℤ
pushed none rest = rest
pushed (some t) rest = t ∷ rest

-- One token for a symbol that is one, else those of its bytes.
abbrev pub symbol_or_bytes : Option ℤ → Option (List ℤ) → Option (List ℤ)
symbol_or_bytes none by_bytes = by_bytes
symbol_or_bytes (some t) by_bytes = some (t ∷ [])

-- The fallback of the emission: byte by byte, skipping bytes that are no token.
unfoldable pub emit_bytes : (Bytes → Option (Option ℤ)) → Bytes → Option (List ℤ)
emit_bytes id [] = some []
emit_bytes id (b ∷ bs) = do t ← id (b ∷ []); rest ← emit_bytes id bs; some (pushed t rest)

unfoldable pub emit_symbol : (Bytes → Option (Option ℤ)) → Bytes → Option (List ℤ)
unfolding emit_bytes
emit_symbol id sym = do t ← id sym; symbol_or_bytes t (emit_bytes id sym)

unfoldable pub emit : (Bytes → Option (Option ℤ)) → List Bytes → Option (List ℤ)
unfolding emit_symbol
emit id [] = some []
emit id (s ∷ ss) = do front ← emit_symbol id s; back ← emit id ss; some (front ++ back)

-- The tokens that the call pushes; `none` where a lookup does not return.
unfoldable pub bpe_encode_piece : Vocab → Bytes → Option (List ℤ)
bpe_encode_piece v raw = do
  syms ← split_chars (byte_encode raw)
  merged ← merge_all (bpe_rank v) syms
  emit (table_find v.token_to_id) merged
