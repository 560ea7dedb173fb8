-- ===== src/Tokenizer/Segment/Cover.antt =====
-- `bpe_tokenize_segment` ends for every text, and cuts its segment without losing a byte.
use qw.Base.{
  ℕ, zero, suc, ◌+◌, ◌-◌, ◌≤◌, ◌<◌, true, List, [], ◌∷◌, ◌++◌, some, ◌>>=◌, ltb, ltb→lt, ltb→le,
  slice, slice-append, slice_empty, ◌≡◌, refl, ap, ◌∙◌, sym, arith, Bool-cases, inl, inr,
}
use mathlib.Core.List.{flatten}
use qw.Base.Int.{ℤ}
use qw.Tokenizer.Table.{Bytes}
use qw.Tokenizer.Bpe.{Vocab}
use qw.Tokenizer.Bpe.Emit.{symbol_ids}
use qw.Tokenizer.Bpe.Split.{Answering, id_of, bpe_encode_piece_lem}
use qw.Tokenizer.Segment.{round, pieces_loop, segment_pieces, encode_pieces, bpe_tokenize_segment}
use qw.Tokenizer.Segment.Progress.{round-Emits}

module _ (s : Bytes) (len : ℕ) where
  pieces_round :
      (fuel pos : ℕ) {rest : List Bytes}
      → ltb pos len ≡ true
      → (round s len pos).1 ≡ true
      → pieces_loop s len fuel (round s len pos).0 ≡ some rest
      → pieces_loop s len (suc fuel) pos ≡ some (slice s pos (round s len pos).0 ∷ rest)
  unfolding pieces_loop
  pieces_round fuel pos more piece later = rw (more, later, ◌>>=◌, piece)

  pieces_loop-flatten :
      (fuel pos : ℕ)
      → pos ≤ len
      → len < pos + fuel
      → (pieces : List Bytes) × (pieces_loop s len fuel pos ≡ some pieces)
        × (flatten pieces ≡ slice s pos len)
  unfolding pieces_loop flatten
  pieces_loop-flatten zero pos h enough = absurd (omega arith)
  pieces_loop-flatten (suc fuel) pos h enough = elim (Bool-cases (ltb pos len)) [
    | inr done ↦
        let e : pos ≡ len = omega (arith, ltb→le _ _ done) in
        ([], rw done, rw e (sym (slice_empty s len)))
    | inl more ↦
        let r = round-Emits s len pos (ltb→lt pos len more) in
        let up : pos < (round s len pos).0 = r.advances in
        let inside : (round s len pos).0 ≤ len = r.inside in
        let (rest, run, text) = pieces_loop-flatten fuel (round s len pos).0 inside (omega arith) in
        (
          slice s pos (round s len pos).0 ∷ rest,
          pieces_round fuel pos more r.piece run,
          ap (λ l. slice s pos (round s len pos).0 ++ l) text
              ∙ slice-append s pos (round s len pos).0 len (omega arith) inside,
        )
  ]

-- For every text and every segment of it, the pre-tokenizer ends, and the pieces that it encodes,
-- put together, are the bytes of the segment: none is dropped, repeated or moved.
pub segment_pieces-flatten :
    (text : Bytes) (seg_start seg_end : ℕ)
    → seg_start ≤ seg_end
    → (pieces : List Bytes) × (segment_pieces text seg_start seg_end ≡ some pieces)
      × (flatten pieces ≡ slice text seg_start seg_end)
unfolding segment_pieces
segment_pieces-flatten text seg_start seg_end h =
    pieces_loop-flatten text seg_end (suc (seg_end - seg_start)) seg_start h (omega arith)

encode_pieces_total :
    {v : Vocab}
    → Answering v
    → (pieces : List Bytes) → (ids : List ℤ) × (encode_pieces v pieces ≡ some ids)
unfolding encode_pieces
encode_pieces_total h [] = ([], refl)
encode_pieces_total {v} h (p ∷ ps) =
    let (syms, run, rest, settled) = bpe_encode_piece_lem h p in
    let (ids, later) = encode_pieces_total h ps in
    (symbol_ids (id_of v) syms ++ ids, rw (run, ◌>>=◌, later, ◌>>=◌))

-- `bpe_tokenize_segment` ends for every text where the tables of the vocabulary answer every key and
-- the segment does not end before it starts.
pub bpe_tokenize_segment_total :
    {v : Vocab}
    → Answering v
    → (text : Bytes) (seg_start seg_end : ℕ) → seg_start ≤ seg_end
    → (ids : List ℤ) × (bpe_tokenize_segment v text seg_start seg_end ≡ some ids)
unfolding bpe_tokenize_segment
bpe_tokenize_segment_total ok text seg_start seg_end h =
    let (pieces, run, text') = segment_pieces-flatten text seg_start seg_end h in
    let (ids, later) = encode_pieces_total ok pieces in (ids, rw (run, ◌>>=◌, later))
