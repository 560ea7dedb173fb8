-- ===== src/Tokenizer/Load.antt =====
-- `ds3_vocab_load` of src/ds3_tokenizer.c, from the strings and numbers that it reads in the GGUF
-- metadata on. The results of `calloc` and `strndup` are not tested where the code does not test them.
pub mod Total
use qw.Base.{
  ℕ, zero, suc, ◌+◌, ◌-◌, ◌%◌, ◌^◌, Bool, true, false, List, [], ◌∷◌, ◌++◌, Option, none, some,
  ◌>>=◌, ltb, ◌==◌, if◌then◌else◌, length, map,
}
use qw.Base.Int.{ℤ, pos, negsuc, to_int32}
use qw.Tokenizer.Table.{Bytes, Table, table_init, put_all, table_find}
use qw.Tokenizer.Bpe.{Vocab, or_minus_one}
use qw.Tokenizer.Names.{added_token_strs, im_start, im_end, end_think}

-- What the metadata holds: the strings of the tokens and of the merges, where the key is there and
-- has that type, and the three numbers.
pub record Metadata : Type 0 where
  pub tokens : Option (List Bytes)
  pub merges : Option (List Bytes)
  pub bos_token_id : Option ℕ
  pub eos_token_id : Option ℕ
  pub padding_token_id : Option ℕ

-- `strndup`: the bytes up to the first NUL.
unfoldable pub strndup : Bytes → Bytes
strndup [] = []
strndup (b ∷ bs) = if b == 0 then [] else b ∷ strndup bs

-- The getter leaves the default where the key is missing; the cast to `int` wraps.
abbrev pub id_or : ℕ → Option ℕ → ℤ
id_or default none = to_int32 default
id_or default (some id) = to_int32 id

-- `none`: the lookup does not return.
unfoldable pub vocab_lookup : Table → Bytes → Option ℤ
vocab_lookup t text = do r ← table_find t text; some (or_minus_one r)

abbrev pub or_if_negative : ℤ → ℤ → ℤ
or_if_negative (pos n) fallback = pos n
or_if_negative (negsuc n) fallback = fallback

-- One round of the loop that fills `added_token` and `added_token_id`: `id >= 0`.
abbrev pub add_found : Bytes → ℤ → List (Bytes × ℤ) → List (Bytes × ℤ)
add_found s (pos id) later = (s, pos id) ∷ later
add_found s (negsuc n) later = later

unfoldable pub found_added : Table → List Bytes → Option (List (Bytes × ℤ))
unfolding vocab_lookup
found_added t [] = some []
found_added t (s ∷ ss) = do
  id ← vocab_lookup t s
  later ← found_added t ss
  some (add_found s id later)

-- What a load comes to: `failed` returns false, `diverged` is a table that never gets ready, or a
-- lookup that does not return.
pub data Loaded : Type 0 where
  loaded : Vocab → Loaded
  failed : Loaded
  diverged : Loaded

-- A table for `n` strings, `(uint32_t)n`, and the strings put into it.
abbrev pub table_of : List Bytes → Option Table
table_of strings = do t ← table_init (length strings % 2 ^ 32); put_all t strings 0

-- The vocabulary, once both tables are filled.
abbrev pub vocab_with : Metadata → List Bytes → Table → Table → ℤ → ℤ → ℤ → List (Bytes × ℤ) → Vocab
vocab_with m strings ids ranks start stop think added = record {
  token = map strndup strings;
  token_to_id = ids;
  merge_rank = ranks;
  bos_id = id_or 151643 m.bos_token_id;
  eos_id = id_or 151645 m.eos_token_id;
  pad_id = id_or 151643 m.padding_token_id;
  im_start_id = or_if_negative start (pos 151644);
  im_end_id = or_if_negative stop (id_or 151645 m.eos_token_id);
  think_end_id = or_if_negative think (negsuc 0);
  added = added;
}

unfoldable pub vocab_of : Metadata → List Bytes → Table → Table → Option Vocab
vocab_of m strings ids ranks = do
  start ← vocab_lookup ids im_start
  stop ← vocab_lookup ids im_end
  think ← vocab_lookup ids end_think
  added ← found_added ids added_token_strs
  some (vocab_with m strings ids ranks start stop think added)

abbrev pub ready : Option Vocab → Loaded
ready none = diverged
ready (some v) = loaded v

abbrev pub finish : Metadata → List Bytes → Table → Option Table → Loaded
finish m strings ids none = diverged
finish m strings ids (some ranks) = ready (vocab_of m strings ids ranks)

-- The merges, once the tokens are loaded.
unfoldable pub load_merges : Metadata → List Bytes → Option Table → Option (List Bytes) → Loaded
load_merges m strings none merges = diverged
load_merges m strings (some ids) none = failed
load_merges m strings (some ids) (some merges) = finish m strings ids (table_of merges)

-- `n_vocab > INT32_MAX` is refused.
unfoldable pub ds3_vocab_load : Metadata → Loaded
ds3_vocab_load m = elim m.tokens [
  | none ↦ failed
  | some strings ↦
      if ltb 2147483647 (length strings)
      then failed
      else load_merges m strings (table_of strings) m.merges
]
