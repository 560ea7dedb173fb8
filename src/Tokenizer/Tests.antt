-- ===== src/Tokenizer/Tests.antt =====
-- The theorems on src/ds3_tokenizer.c at concrete inputs.
use qw.Base.{
  ℕ, ◌+◌, List, [], ◌∷◌, ◌++◌, none, some, ◌>>=◌, length, replicate, slice, take, ◌≡◌, refl, arith,
  ◌⊎◌,
}
use mathlib.Core.List.{flatten}
use qw.Base.Int.{ℤ, pos, negsuc}
use qw.Tokenizer.Table.{
  Bytes, Table, blank, table_init, table_put, table_get, absent, put_all, next_pow2_loop,
}
use qw.Tokenizer.Table.Answers.{IsTable-Answers}
use qw.Tokenizer.Table.Laws.{IsTable, Wrote, table_put-Wrote}
use qw.Tokenizer.Table.Build.{
  get_elem?-blank, Ready, table_init-Ready, next_pow2_diverges, put_all_lem, last_index,
}
use qw.Tokenizer.Utf8.{utf8_put, utf8_decode_one}
use qw.Tokenizer.Utf8.RoundTrip.{utf8_decode_one-utf8_put}
use qw.Tokenizer.ByteLevel.{byte_encode, byte_decode}
use qw.Tokenizer.ByteLevel.RoundTrip.{byte_decode-byte_encode}
use qw.Tokenizer.Bpe.{Vocab, Best, best_pair, no_best, merge_all, bpe_encode_piece}
use qw.Tokenizer.Bpe.Emit.{symbol_ids}
use qw.Tokenizer.Bpe.Merge.{Settled, IsBest, best_pair_lem, Merged, merge_all-Merged}
use qw.Tokenizer.Bpe.Split.{Answering, id_of, rank_of, bpe_encode_piece_lem}
use qw.Tokenizer.Segment.{segment_pieces}
use qw.Tokenizer.Segment.Cover.{segment_pieces-flatten}
use qw.Tokenizer.Encode.{first_tokens, ds3_vocab_encode, bytes, ds3_vocab_decode_sequence}
use qw.Tokenizer.Encode.Chunks.{Cut, ds3_vocab_encode-Cut}
use qw.Tokenizer.Encode.Decode.{tokens_text, ds3_vocab_decode_sequence_lem}
use qw.Tokenizer.Names.{system_line}
use qw.Tokenizer.Load.{Metadata, loaded, ds3_vocab_load}
use qw.Tokenizer.Load.Total.{Faithful, ds3_vocab_load_lem}
use qw.Tokenizer.Chat.{message, Prompt, ds3_chat_format, ds3_chat_format_lem}

abbrev empty_table : Table
empty_table = record { cap = 4; used = 0; entry = replicate 4 blank }

-- One added token, `<>`.
abbrev tiny : Vocab
tiny = record {
  token = (97 ∷ []) ∷ (98 ∷ []) ∷ [];
  token_to_id = empty_table;
  merge_rank = empty_table;
  bos_id = pos 0;
  eos_id = pos 1;
  pad_id = pos 0;
  im_start_id = pos 2;
  im_end_id = pos 3;
  think_end_id = negsuc 0;
  added = (60 ∷ 62 ∷ [], pos 5) ∷ [];
}

empty_table-IsTable : IsTable empty_table
empty_table-IsTable = record {
  bits = 2;
  size = refl;
  small = omega arith;
  slots = refl;
  counted = refl;
  reach = λ i e at u. let v = get_elem?-blank 4 i at in cc;
}

tiny-Answering : Answering tiny
tiny-Answering = record {
  ids = IsTable-Answers empty_table-IsTable (omega arith);
  ranks = IsTable-Answers empty_table-IsTable (omega arith);
}

-- `a<> b`.
abbrev text : Bytes
text = 97 ∷ 60 ∷ 62 ∷ 32 ∷ 98 ∷ []

absent_key : table_get empty_table (97 ∷ []) ≡ absent
unfolding table_get
absent_key = refl

ds3_vocab_encode-Cut_example :
    (ids : List ℤ) × (ds3_vocab_encode (some tiny) (some text) (pos 4)
      ≡ some (first_tokens (pos 4) ids))
    × Cut tiny text 0 ids
ds3_vocab_encode-Cut_example = ds3_vocab_encode-Cut tiny-Answering text 3 (omega arith, tt)

segment_pieces-flatten_example :
    (pieces : List Bytes) × (segment_pieces text 1 5 ≡ some pieces)
    × (flatten pieces ≡ slice text 1 5)
segment_pieces-flatten_example = segment_pieces-flatten text 1 5 (omega arith)

bpe_encode_piece_lem_example :
    (syms : List Bytes) × (bpe_encode_piece tiny text ≡ some (symbol_ids (id_of tiny) syms))
    × (flatten syms ≡ byte_encode text)
    × Settled (rank_of tiny) syms
bpe_encode_piece_lem_example = bpe_encode_piece_lem tiny-Answering text

abbrev two_symbols : List Bytes
two_symbols = (97 ∷ []) ∷ (98 ∷ []) ∷ []

-- The shorter the first part, the lower the rank.
abbrev some_rank : Bytes → Bytes → ℤ
some_rank x y = pos (length x)

merge_all-Merged_example :
    (out : List Bytes) × (merge_all (λ x y. some (some_rank x y)) two_symbols ≡ some out)
    × Merged some_rank two_symbols out
merge_all-Merged_example = merge_all-Merged (λ x y. refl) two_symbols

best_pair_lem_example :
    (res : Best) × (best_pair (λ x y. some (some_rank x y)) two_symbols 0 no_best ≡ some res)
    × (((res.index ≡ none) × Settled some_rank two_symbols)
        ⊎ ((k : ℕ) × (res.index ≡ some k) × IsBest some_rank two_symbols k))
best_pair_lem_example = best_pair_lem (λ x y. refl) two_symbols

ds3_vocab_decode_sequence_lem_example :
    ds3_vocab_decode_sequence tiny (pos 0 ∷ pos 1 ∷ []) 2
    ≡ some (bytes (take 1 (tokens_text tiny (pos 0 ∷ pos 1 ∷ []))))
ds3_vocab_decode_sequence_lem_example = ds3_vocab_decode_sequence_lem tiny (pos 0) (pos 1 ∷ []) 1

byte_decode-byte_encode_example : byte_decode (byte_encode text) ≡ some text
byte_decode-byte_encode_example = byte_decode-byte_encode text (omega arith)

-- The euro sign between two letters.
utf8_decode_one-utf8_put_example :
    utf8_decode_one ((97 ∷ []) ++ (utf8_put 8364 ++ (98 ∷ []))) 5 1
    ≡ (8364, 1 + length (utf8_put 8364))
unfolding utf8_put
utf8_decode_one-utf8_put_example =
    utf8_decode_one-utf8_put (97 ∷ []) (98 ∷ []) 8364 5 (omega arith) (omega arith)

next_pow2_diverges_example : next_pow2_loop 1000 2147483650 1 ≡ none
next_pow2_diverges_example = next_pow2_diverges 2147483650 (omega arith) 1000

abbrev fresh : (t : Table) × (table_init 1 ≡ some t) × Ready 1 t
fresh = table_init-Ready 1 (omega arith)

table_put-Wrote_example :
    (u : Table) × (table_put fresh.0 (97 ∷ []) (pos 7) ≡ some u) × Wrote fresh.0 (97 ∷ []) (pos 7) u
table_put-Wrote_example =
    table_put-Wrote fresh.2.valid (97 ∷ []) (pos 7) (omega (arith, fresh.2.empty, fresh.2.roomy))

put_all_lem_example :
    (u : Table) × ((table_init 2 >>= λ t. put_all t two_symbols 0) ≡ some u)
    × ((j : Bytes) → table_get u j ≡ last_index j two_symbols 0 absent)
put_all_lem_example = put_all_lem two_symbols 2 (omega arith) (omega arith)

abbrev two_tokens : Metadata
two_tokens = record {
  tokens = some two_symbols;
  merges = some ((97 ∷ 32 ∷ 98 ∷ []) ∷ []);
  bos_token_id = none;
  eos_token_id = some 1;
  padding_token_id = none;
}

ds3_vocab_load_lem_example :
    (v : Vocab) × (ds3_vocab_load two_tokens ≡ loaded v)
    × Faithful two_symbols ((97 ∷ 32 ∷ 98 ∷ []) ∷ []) v
ds3_vocab_load_lem_example =
    ds3_vocab_load_lem two_tokens two_symbols ((97 ∷ 32 ∷ 98 ∷ []) ∷ []) refl refl (omega arith)
      (omega arith)

ds3_chat_format_lem_example :
    (rest : List ℤ) × Prompt tiny text rest
    × (ds3_chat_format (some tiny) none (some text) (pos 9) ≡ some (first_tokens (pos 9) rest))
    × (ds3_chat_format (some tiny) (some []) (some text) (pos 9) ≡ some (first_tokens (pos 9) rest))
    × ((b : ℕ) (bs : Bytes)
        → (front : List ℤ) × (message tiny system_line (b ∷ bs) ≡ some front)
          × (ds3_chat_format (some tiny) (some (b ∷ bs)) (some text) (pos 9)
              ≡ some (first_tokens (pos 9) (front ++ rest))))
ds3_chat_format_lem_example = ds3_chat_format_lem tiny-Answering text 8
