-- ===== src/Tokenizer/Bpe/Split.antt =====
-- A piece is split into its characters, merged and emitted: nothing of its text is lost on the way.
use qw.Base.{
  ℕ, zero, suc, ◌+◌, ◌≤◌, ◌<◌, true, List, [], ◌∷◌, ◌++◌, Option, some, ◌>>=◌, ltb, length, slice,
  slice-append, slice_whole, slice_empty, ◌≡◌, refl, ap, ◌∙◌, sym, arith, ltb→le, ltb→lt, inl, inr,
  Bool-cases,
}
use mathlib.Core.List.{flatten}
use qw.Base.Int.{ℤ}
use qw.Tokenizer.Table.{Bytes, table_get}
use qw.Tokenizer.Table.Answers.{Answers, value_of, table_find-value}
use qw.Tokenizer.Utf8.{char_len}
use qw.Tokenizer.Utf8.RoundTrip.{char_len-pos, char_len-le}
use qw.Tokenizer.ByteLevel.{byte_encode}
use qw.Tokenizer.Bpe.{Vocab, split_loop, split_chars, or_minus_one, bpe_rank, bpe_encode_piece}
use qw.Tokenizer.Bpe.Emit.{symbol_ids, emit_run}
use qw.Tokenizer.Bpe.Merge.{Settled, Returns, merge_all-Merged}

split_round :
    (fuel : ℕ) (s : Bytes) (off : ℕ) {rest : List Bytes}
    → ltb off (length s) ≡ true
    → split_loop fuel s (off + char_len s (length s) off) ≡ some rest
    → split_loop (suc fuel) s off ≡ some (slice s off (off + char_len s (length s) off) ∷ rest)
unfolding split_loop
split_round fuel s off more later = rw (more, later, ◌>>=◌)

split_loop-flatten :
    (fuel : ℕ) (s : Bytes) (off : ℕ)
    → off ≤ length s
    → length s < off + fuel
    → (syms : List Bytes) × (split_loop fuel s off ≡ some syms)
      × (flatten syms ≡ slice s off (length s))
unfolding split_loop flatten
split_loop-flatten zero s off h enough = absurd (omega arith)
split_loop-flatten (suc fuel) s off h enough = elim (Bool-cases (ltb off (length s))) [
  | inr done ↦
      let e : off ≡ length s = omega (arith, ltb→le _ _ done) in
      ([], rw done, rw e (sym (slice_empty s (length s))))
  | inl more ↦
      let lt = ltb→lt off (length s) more in
      let some_bytes = char_len-pos s (length s) off in
      let inside = char_len-le s (length s) off lt in
      let (rest, run, text) =
        split_loop-flatten fuel s (off + char_len s (length s) off) inside (omega arith) in
      (
        slice s off (off + char_len s (length s) off) ∷ rest,
        split_round fuel s off more run,
        ap (λ l. slice s off (off + char_len s (length s) off) ++ l) text
            ∙ slice-append s off (off + char_len s (length s) off) (length s) (omega arith) inside,
      )
]

-- On any bytes the splitting ends, and the characters make up the bytes.
pub split_chars-flatten :
    (s : Bytes) → (syms : List Bytes) × (split_chars s ≡ some syms) × (flatten syms ≡ s)
unfolding split_chars
split_chars-flatten s =
    let (syms, run, text) = split_loop-flatten (suc (length s)) s 0 (omega arith) (omega arith) in
    (syms, run, text ∙ slice_whole s)

-- The tables of the vocabulary answer every key.
pub record Answering (v : Vocab) : Type 0 where
  pub ids : Answers v.token_to_id
  pub ranks : Answers v.merge_rank

-- What the tables of the vocabulary hold: the id of a token, the rank of a pair.
abbrev pub id_of : Vocab → Bytes → Option ℤ
id_of v token = value_of (table_get v.token_to_id token)

abbrev pub rank_of : Vocab → Bytes → Bytes → ℤ
rank_of v a b = or_minus_one (value_of (table_get v.merge_rank (a ++ (b' ' ∷ b))))

bpe_rank-Returns : {v : Vocab} → Answering v → Returns (bpe_rank v) (rank_of v)
unfolding bpe_rank
bpe_rank-Returns {v} h x y =
    rw (table_find-value v.merge_rank h.ranks (x ++ (b' ' ∷ y)), ◌>>=◌) refl

-- Where the tables of the vocabulary answer every key, `bpe_encode_piece` ends on every piece, and
-- emits, symbol by symbol, the ids of symbols that make up the byte-level form of the piece, of which
-- no two neighbours can be merged; the bytes of a symbol that has no id stand for it.
pub bpe_encode_piece_lem :
    {v : Vocab}
    → Answering v
    → (raw : Bytes)
    → (syms : List Bytes) × (bpe_encode_piece v raw ≡ some (symbol_ids (id_of v) syms))
      × (flatten syms ≡ byte_encode raw)
      × Settled (rank_of v) syms
unfolding bpe_encode_piece
bpe_encode_piece_lem {v} h raw =
    let (chars, split, text) = split_chars-flatten (byte_encode raw) in
    let (out, run, m) = merge_all-Merged (bpe_rank-Returns h) chars in
    (
      out,
      rw (split, ◌>>=◌, run, ◌>>=◌) (emit_run (table_find-value v.token_to_id h.ids) out),
      m.text ∙ text,
      m.settled,
    )
