-- ===== src/Tokenizer/Load/Total.antt =====
-- Which metadata `ds3_vocab_load` loads, and what the vocabulary then answers.
use qw.Base.{
  ◌+◌, ◌*◌, ◌≤◌, ◌<◌, ◌^◌, ◌%◌, false, List, [], ◌∷◌, some, ltb, le→ltb, length, All, ◌≡◌, ◌≢◌,
  refl, ap, sym, ◌>>=◌, if_both, if◌then◌else◌, ℕ, ◌∙◌, arith,
}
use qw.Base.Int.{ℤ, pos, negsuc, to_int32}
use qw.Tokenizer.Table.{Bytes, Table, Answer, same_bytes, table_get, found, absent, stuck}
use qw.Tokenizer.Table.Answers.{Answers, value_of, table_find-value}
use qw.Tokenizer.Table.Build.{put_all_lem, last_index}
use qw.Tokenizer.Bpe.{Vocab, or_minus_one}
use qw.Tokenizer.Bpe.Split.{Answering}
use qw.Tokenizer.Encode.Chunks.{NonEmpty}
use qw.Tokenizer.Names.{added_token_strs, im_start, im_end, end_think}
use qw.Tokenizer.Load.{
  Metadata, vocab_lookup, add_found, found_added, finish, loaded, table_of, vocab_of, vocab_with,
  ready, load_merges, ds3_vocab_load,
}

add_found-NonEmpty :
    (s : Bytes) (id : ℤ) (later : List (Bytes × ℤ))
    → 0 < length s
    → All NonEmpty later
    → All NonEmpty (add_found s id later)
add_found-NonEmpty s (pos id) later h k = (h, k)
add_found-NonEmpty s (negsuc n) later h k = k

vocab_lookup_total :
    (t : Table) → Answers t → (text : Bytes) → (id : ℤ) × (vocab_lookup t text ≡ some id)
unfolding vocab_lookup
vocab_lookup_total t ok text =
    (or_minus_one (value_of (table_get t text)), rw (table_find-value t ok text, ◌>>=◌) refl)

found_added-NonEmpty :
    (t : Table) (ss : List Bytes)
    → Answers t
    → All (λ s. 0 < length s) ss
    → (added : List (Bytes × ℤ)) × (found_added t ss ≡ some added) × All NonEmpty added
unfolding found_added
found_added-NonEmpty t [] ok h = ([], refl, tt)
found_added-NonEmpty t (s ∷ ss) ok h =
    let (id, run) = vocab_lookup_total t ok s in
    let (later, runs, full) = found_added-NonEmpty t ss ok h.1 in
    (
      add_found s id later,
      rw (run, ◌>>=◌, runs, ◌>>=◌) refl,
      add_found-NonEmpty s id later h.0 full,
    )

added_token_strs-nonempty : All (λ s. 0 < length s) added_token_strs
added_token_strs-nonempty = omega arith

table_of_run :
    (strings : List Bytes)
    → 2 * length strings + 16 ≤ 2 ^ 31
    → (u : Table) × (table_of strings ≡ some u)
      × ((j : Bytes) → table_get u j ≡ last_index j strings 0 absent)
table_of_run strings h =
    let fits : length strings % 2 ^ 32 ≡ length strings = omega arith in
    rw fits (put_all_lem strings (length strings) (omega arith) h)

-- What a loaded vocabulary answers: each string its last number, in both tables.
pub record Faithful (tokens merges : List Bytes) (v : Vocab) : Type 0 where
  pub ids : (j : Bytes) → table_get v.token_to_id j ≡ last_index j tokens 0 absent
  pub ranks : (j : Bytes) → table_get v.merge_rank j ≡ last_index j merges 0 absent
  pub added_ok : All NonEmpty v.added

last_index-ne-stuck :
    (key : Bytes) (keys : List Bytes) (i : ℕ) (a : Answer)
    → a ≢ stuck
    → last_index key keys i a ≢ stuck
last_index-ne-stuck key [] i a h = h
last_index-ne-stuck key (k ∷ ks) i a h =
    last_index-ne-stuck key ks (i + 1) (if same_bytes k key then found (to_int32 i) else a)
      (if_both (λ b. b ≢ stuck) (same_bytes k key) (found (to_int32 i)) a (λ e q. cc) (λ e. h))

last_index-Answers :
    (t : Table) (keys : List Bytes)
    → ((j : Bytes) → table_get t j ≡ last_index j keys 0 absent)
    → Answers t
last_index-Answers t keys reads j e =
    last_index-ne-stuck j keys 0 absent (λ q. cc) (sym (reads j) ∙ e)

-- The tables of a vocabulary that was loaded answer every key.
pub Faithful-Answering :
    {tokens merges : List Bytes} {v : Vocab} → Faithful tokens merges v → Answering v
Faithful-Answering {tokens} {merges} {v} f = record {
  ids = last_index-Answers v.token_to_id tokens f.ids;
  ranks = last_index-Answers v.merge_rank merges f.ranks;
}

load_merges_run :
    (m : Metadata) (tokens merges : List Bytes) (ids : Table) {ranks : Table} {v : Vocab}
    → table_of merges ≡ some ranks
    → vocab_of m tokens ids ranks ≡ some v
    → load_merges m tokens (some ids) (some merges) ≡ loaded v
unfolding load_merges
load_merges_run m tokens merges ids e q = ap (finish m tokens ids) e ∙ ap ready q

vocab_of_run :
    (m : Metadata) (tokens : List Bytes) (ids ranks : Table)
    → Answers ids
    → (start stop think : ℤ) × (added : List (Bytes × ℤ)) × (vocab_of m tokens ids ranks
        ≡ some (vocab_with m tokens ids ranks start stop think added))
      × All NonEmpty added
unfolding vocab_of
vocab_of_run m tokens ids ranks ok =
    let (start, r0) = vocab_lookup_total ids ok im_start in
    let (stop, r1) = vocab_lookup_total ids ok im_end in
    let (think, r2) = vocab_lookup_total ids ok end_think in
    let (added, r3, full) =
      found_added-NonEmpty ids added_token_strs ok added_token_strs-nonempty in
    (start, stop, think, added, rw (r0, ◌>>=◌, r1, ◌>>=◌, r2, ◌>>=◌, r3, ◌>>=◌) refl, full)

load_run :
    (m : Metadata) (tokens merges : List Bytes) {ids : Table}
    → m.tokens ≡ some tokens
    → m.merges ≡ some merges
    → length tokens ≤ 2147483647
    → table_of tokens ≡ some ids
    → ds3_vocab_load m ≡ load_merges m tokens (some ids) (some merges)
unfolding ds3_vocab_load
load_run m tokens merges t g small run =
    let fits : ltb 2147483647 (length tokens) ≡ false = le→ltb 2147483647 (length tokens) small in
    rw (t, fits, g, run) refl

-- Where the metadata has tokens and merges, at most 2 ^ 30 - 8 of each, the load ends with a
-- vocabulary whose tables answer each string with the number of its last occurrence, and no other
-- string; and none of its added tokens is empty.
pub ds3_vocab_load_lem :
    (m : Metadata) (tokens merges : List Bytes)
    → m.tokens ≡ some tokens
    → m.merges ≡ some merges
    → 2 * length tokens + 16 ≤ 2 ^ 31
    → 2 * length merges + 16 ≤ 2 ^ 31
    → (v : Vocab) × (ds3_vocab_load m ≡ loaded v) × Faithful tokens merges v
ds3_vocab_load_lem m tokens merges t g ht hg =
    let (ids, ri, ai) = table_of_run tokens ht in
    let (ranks, rr, ar) = table_of_run merges hg in
    let (start, stop, think, added, run, full) =
      vocab_of_run m tokens ids ranks (last_index-Answers ids tokens ai) in
    (
      vocab_with m tokens ids ranks start stop think added,
      load_run m tokens merges t g (omega arith) ri ∙ load_merges_run m tokens merges ids rr run,
      record { ids = ai; ranks = ar; added_ok = full },
    )
