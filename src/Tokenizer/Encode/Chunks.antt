-- ===== src/Tokenizer/Encode/Chunks.antt =====
-- `ds3_vocab_encode` cuts its text at the added tokens, and ends where none of them is empty.
use qw.Base.{
  ℕ, zero, suc, ◌+◌, ◌-◌, ◌≤◌, ◌<◌, Bool, true, false, ◌&&◌, List, [], ◌∷◌, ◌++◌, Option, none,
  some, ◌>>=◌, ltb, length, get_elem?, All, ◌≡◌, refl, sym, arith, Bool-cases, ltb→lt, ltb→le, ◌⊎◌,
  inl, inr,
}
use mathlib.Core.Path.{subst}
use qw.Base.Int.{ℤ, pos}
use qw.Tokenizer.Table.{Bytes}
use qw.Tokenizer.Bpe.{Vocab}
use qw.Tokenizer.Bpe.Split.{Answering}
use qw.Tokenizer.Segment.{bpe_tokenize_segment}
use qw.Tokenizer.Segment.Cover.{bpe_tokenize_segment_total}
use qw.Tokenizer.Encode.{
  match_at, best_added, best_added_len, strstr, next_added_pos, encode_loop, first_tokens,
  ds3_vocab_encode,
}

-- The added token `a` stands in the text at `k`.
abbrev pub Occurs : Bytes → ℕ → Bytes × ℤ → Type 0
Occurs text k a = match_at text k a.0 ≡ true

-- No added token starts at one of the positions from `p` to `q`.
abbrev pub Free : Bytes → ℕ → ℕ → Bytes × ℤ → Type 0
Free text p q a = (k : ℕ) → p ≤ k → k < q → match_at text k a.0 ≡ false

-- `a` is among the added tokens, stands at `p`, and none that stands there is longer.
pub record Longest (text : Bytes) (p : ℕ) (added : List (Bytes × ℤ)) (a : Bytes × ℤ) : Type 0 where
  pub index : ℕ
  pub here : get_elem? added index ≡ some a
  pub occurs : Occurs text p a
  pub longest : All (λ b. Occurs text p b → length b.0 ≤ length a.0) added

-- What the search keeps: a length that is at least that of every token seen.
record Searched (text : Bytes) (p : ℕ) (added : List (Bytes × ℤ)) (best out : Option (ℕ × ℤ))
    : Type 0 where
  more : best_added_len best ≤ best_added_len out
  seen : All (λ b. Occurs text p b → length b.0 ≤ best_added_len out) added
  source :
      (out ≡ best)
      ⊎ ((a : Bytes × ℤ) × (i : ℕ) × (get_elem? added i ≡ some a)
          × Occurs text p a
          × (out ≡ some (length a.0, a.1)))

-- A length that was tested and not taken is not larger.
not_longer :
    (text : Bytes) (p n : ℕ) (pat : Bytes)
    → (ltb 0 (length pat) && match_at text p pat && ltb n (length pat)) ≡ false
    → match_at text p pat ≡ true
    → length pat ≤ n
not_longer text p n pat e m =
    let e' : (ltb 0 (length pat) && true && ltb n (length pat)) ≡ false = rw m at e in ground arith

match_of : (a m b : Bool) → (a && m && b) ≡ true → m ≡ true
match_of a m b e = ground arith

test_of : (a m b : Bool) → (a && m && b) ≡ true → b ≡ true
test_of a m b e = ground arith

module _ (text : Bytes) (p : ℕ) where
  best_added-Searched :
      (added : List (Bytes × ℤ)) (best : Option (ℕ × ℤ))
      → Searched text p added best (best_added text p added best)
  unfolding best_added
  best_added-Searched [] best = record { more = omega arith; seen = tt; source = inl refl }
  best_added-Searched ((pat, id) ∷ more) best =
      elim (Bool-cases
        (ltb 0 (length pat) && match_at text p pat && ltb (best_added_len best) (length pat))) [
          | inl t ↦
              let s = best_added-Searched more (some (length pat, id)) in
              let m : length pat ≤ best_added_len (best_added text p more (some (length pat, id))) =
                s.more in
              let m' =
                ltb→lt (best_added_len best) (length pat)
                  (test_of (ltb 0 (length pat)) (match_at text p pat) _ t) in
              rw t (record {
                more = omega arith;
                seen = (λ e. m, s.seen);
                source = elim s.source [
                  | inl same ↦ inr (
                    (pat, id),
                    0,
                    refl,
                    match_of (ltb 0 (length pat)) _ (ltb (best_added_len best) (length pat)) t,
                    same,
                  )
                  | inr (a, i, h, o, e) ↦ inr (a, suc i, h, o, e)
                ];
              })
          | inr t ↦
              let s = best_added-Searched more best in
              let m : best_added_len best ≤ best_added_len (best_added text p more best) = s.more in
              rw t (record {
                more = m;
                seen = (
                  λ e. let l = not_longer text p (best_added_len best) pat t e in omega arith,
                  s.seen,
                );
                source = elim s.source [
                  | inl same ↦ inl same
                  | inr (a, i, h, o, e) ↦ inr (a, suc i, h, o, e)
                ];
              })
        ]

  -- `strstr` finds the first place.
  pub strstr_lem :
      (n q : ℕ) (pat : Bytes)
      → ((strstr n text q pat ≡ none) × ((k : ℕ) → q ≤ k → k < q + n → match_at text k pat ≡ false))
        ⊎ ((fp : ℕ) × (strstr n text q pat ≡ some fp)
            × (q ≤ fp)
            × ((k : ℕ) → q ≤ k → k < fp → match_at text k pat ≡ false))
  unfolding strstr
  strstr_lem zero q pat = inl (refl, λ k a b. absurd (omega arith))
  strstr_lem (suc n) q pat = elim (Bool-cases (match_at text q pat)) [
    | inl m ↦ inr (q, rw m refl, omega arith, λ k a b. absurd (omega arith))
    | inr m ↦ elim (strstr_lem n (q + 1) pat) [
      | inl (e, none_at) ↦ inl (rw m e, λ k a b. from q k (q + 1 + n) m a (omega arith) none_at)
      | inr (fp, e, lo, none_at) ↦ inr (fp, rw m e, omega arith, λ k a b. from q k fp m a b none_at)
    ]
  ]
    where
      from :
          (q k bound : ℕ)
          → match_at text q pat ≡ false
          → q ≤ k
          → k < bound
          → ((j : ℕ) → q + 1 ≤ j → j < bound → match_at text j pat ≡ false)
          → match_at text k pat ≡ false
      from q k bound m a b later = elim (Bool-cases (ltb q k)) [
        | inl l ↦ later k (omega (arith, ltb→lt _ _ l)) b
        | inr g ↦ let e : k ≡ q = omega (arith, ltb→le _ _ g) in rw e m
      ]

  pub strstr_found :
      (n q fp : ℕ) (pat : Bytes) → strstr n text q pat ≡ some fp → match_at text fp pat ≡ true
  unfolding strstr
  strstr_found zero q fp pat e = cc
  strstr_found (suc n) q fp pat e = elim (Bool-cases (match_at text q pat)) [
    | inl m ↦ let e' : some q ≡ some fp = rw m at e in let same : q ≡ fp = cc in rw (sym same) m
    | inr m ↦
        let e' : strstr n text (q + 1) pat ≡ some fp = rw m at e in strstr_found n (q + 1) fp pat e'
  ]

  -- One of the added tokens stands at `r`.
  abbrev Somewhere : List (Bytes × ℤ) → ℕ → Type 0
  Somewhere added r = (i : ℕ) × (a : Bytes × ℤ) × (get_elem? added i ≡ some a) × Occurs text r a

  -- The segment ends where the next added token starts, and behind `p` if none starts there.
  record Ends (added : List (Bytes × ℤ)) (next r : ℕ) : Type 0 where
    before : r ≤ next
    free : All (Free text p r) added
    boundary : (r ≡ next) ⊎ Somewhere added r
    moved : p < next → All (λ a. match_at text p a.0 ≡ false) added → p < r

  next_added_pos-Ends :
      (added : List (Bytes × ℤ)) (next : ℕ)
      → next ≤ length text
      → Ends added next (next_added_pos text p added next)
  unfolding next_added_pos
  next_added_pos-Ends [] next h = record {
    before = omega arith;
    free = tt;
    boundary = inl refl;
    moved = λ l n. l;
  }
  next_added_pos-Ends ((pat, id) ∷ more) next h = elim (strstr_lem (suc (length text - p)) p pat) [
    | inl (e, none_at) ↦
        let s = next_added_pos-Ends more next h in
        let b : next_added_pos text p more next ≤ next = s.before in
        rw e (record {
          before = b;
          free = (λ k lo hi. none_at k lo (omega arith), s.free);
          boundary = further (pat, id) more s.boundary;
          moved = λ l n. s.moved l n.1;
        })
    | inr (fp, e, lo, none_at) ↦ elim (Bool-cases (ltb fp next)) [
      | inl nearer ↦
          let near = ltb→lt fp next nearer in
          let s = next_added_pos-Ends more fp (omega arith) in
          let b : next_added_pos text p more fp ≤ fp = s.before in
          rw (e, nearer)
            (record {
              before = omega arith;
              free = (λ k lo hi. none_at k lo (omega arith), s.free);
              boundary = inr (
                  nearest pat id more (strstr_found (suc (length text - p)) p fp pat e) s.boundary);
              moved = λ l n.
                  s.moved (later fp pat lo (strstr_found (suc (length text - p)) p fp pat e) n.0)
                    n.1;
            })
      | inr farther ↦
          let far = ltb→le fp next farther in
          let s = next_added_pos-Ends more next h in
          let b : next_added_pos text p more next ≤ next = s.before in
          rw (e, farther)
            (record {
              before = b;
              free = (λ k lo hi. none_at k lo (omega arith), s.free);
              boundary = further (pat, id) more s.boundary;
              moved = λ l n. s.moved l n.1;
            })
    ]
  ]
    where
      further :
          (b : Bytes × ℤ) (bs : List (Bytes × ℤ)) {r n : ℕ}
          → (r ≡ n) ⊎ Somewhere bs r
          → (r ≡ n) ⊎ Somewhere (b ∷ bs) r
      further b bs (inl e) = inl e
      further b bs (inr (i, a, at, o)) = inr (suc i, a, at, o)

      nearest :
          (pat : Bytes) (id : ℤ) (bs : List (Bytes × ℤ)) {r fp : ℕ}
          → match_at text fp pat ≡ true
          → (r ≡ fp) ⊎ Somewhere bs r
          → Somewhere ((pat, id) ∷ bs) r
      nearest pat id bs m (inl e) = (0, (pat, id), refl, rw e m)
      nearest pat id bs m (inr (i, a, at, o)) = (suc i, a, at, o)

      later :
          (fp : ℕ) (pat : Bytes)
          → p ≤ fp
          → match_at text fp pat ≡ true
          → match_at text p pat ≡ false
          → p < fp
      later fp pat lo m n = elim (Bool-cases (ltb p fp)) [
        | inl l ↦ ltb→lt _ _ l
        | inr g ↦
            let e : fp ≡ p = omega (arith, ltb→le _ _ g) in
            let m' : match_at text p pat ≡ true = rw e at m in cc
      ]

-- A segment may end at `q`: there the text ends, or one of the added tokens stands.
pub data Boundary (text : Bytes) (added : List (Bytes × ℤ)) (q : ℕ) : Type 0 where
  at_end : q ≡ length text → Boundary text added q
  at_added :
      (i : ℕ) (a : Bytes × ℤ) → get_elem? added i ≡ some a → Occurs text q a → Boundary text added q

-- The cut of the text from a position on, with the tokens that it gives: an added token that is the
-- longest one there, or where none stands a segment, encoded by itself, up to the next place where one
-- stands or the end of the text. So two segments are never adjacent.
pub data Cut (v : Vocab) (text : Bytes) : ℕ → List ℤ → Type 0 where
  stop : {p : ℕ} → p ≡ length text → Cut v text p []
  special :
      {p : ℕ} {rest : List ℤ} (a : Bytes × ℤ)
      → Longest text p v.added a
      → Cut v text (p + length a.0) rest
      → Cut v text p (a.1 ∷ rest)
  plain :
      {p : ℕ} {rest : List ℤ} (q : ℕ) (segment : List ℤ)
      → p < q
      → q ≤ length text
      → All (Free text p q) v.added
      → Boundary text v.added q
      → bpe_tokenize_segment v text p q ≡ some segment
      → Cut v text q rest
      → Cut v text p (segment ++ rest)

abbrev pub NonEmpty : Bytes × ℤ → Type 0
NonEmpty a = 0 < length a.0

-- No added token stands where the search found none.
none-Occurs :
    (text : Bytes) (p : ℕ) (added : List (Bytes × ℤ))
    → All NonEmpty added
    → All (λ b. Occurs text p b → length b.0 ≤ 0) added
    → All (λ b. match_at text p b.0 ≡ false) added
none-Occurs text p [] h s = tt
none-Occurs text p (a ∷ as') h s = (
  elim (Bool-cases (match_at text p a.0)) [
    | inl m ↦ let small = s.0 m in let large = h.0 in absurd (omega arith)
    | inr m ↦ m
  ],
  none-Occurs text p as' h.1 s.1,
)

nonempty_at :
    (added : List (Bytes × ℤ)) (i : ℕ) (a : Bytes × ℤ)
    → All NonEmpty added
    → get_elem? added i ≡ some a
    → 0 < length a.0
nonempty_at [] i a h e = cc
nonempty_at (b ∷ bs) zero a h e = let same : b ≡ a = cc in rw (sym same) h.0
nonempty_at (b ∷ bs) (suc i) a h e = nonempty_at bs i a h.1 e

inside_text :
    (text : Bytes) (p : ℕ) (a : Bytes × ℤ) → Occurs text p a → p + length a.0 ≤ length text
inside_text text p a o = ground arith

Boundary-sum :
    (text : Bytes) (added : List (Bytes × ℤ)) (q : ℕ)
    → (q ≡ length text)
      ⊎ ((i : ℕ) × (a : Bytes × ℤ) × (get_elem? added i ≡ some a) × Occurs text q a)
    → Boundary text added q
Boundary-sum text added q (inl e) = at_end e
Boundary-sum text added q (inr (i, a, at, o)) = at_added i a at o

module _ (v : Vocab) (text : Bytes) where
  special_round :
      (fuel p : ℕ) {b : ℕ × ℤ} {rest : List ℤ}
      → ltb p (length text) ≡ true
      → best_added text p v.added none ≡ some b
      → encode_loop fuel v text (p + b.0) ≡ some rest
      → encode_loop (suc fuel) v text p ≡ some (b.1 ∷ rest)
  unfolding encode_loop
  special_round fuel p more found later = rw (more, found, later, ◌>>=◌)

  plain_round :
      (fuel p : ℕ) {segment rest : List ℤ}
      → ltb p (length text) ≡ true
      → best_added text p v.added none ≡ none
      → bpe_tokenize_segment v text p (next_added_pos text p v.added (length text)) ≡ some segment
      → encode_loop fuel v text (next_added_pos text p v.added (length text)) ≡ some rest
      → encode_loop (suc fuel) v text p ≡ some (segment ++ rest)
  unfolding encode_loop
  plain_round fuel p more missing run later = rw (more, missing, run, ◌>>=◌, later, ◌>>=◌)

  end_round : (fuel p : ℕ) → ltb p (length text) ≡ false → encode_loop (suc fuel) v text p ≡ some []
  unfolding encode_loop
  end_round fuel p done = rw done refl

  encode_loop-Cut :
      (fuel p : ℕ)
      → Answering v
      → All NonEmpty v.added
      → p ≤ length text
      → length text < p + fuel
      → (ids : List ℤ) × (encode_loop fuel v text p ≡ some ids) × Cut v text p ids
  encode_loop-Cut zero p ok h inside enough = absurd (omega arith)
  encode_loop-Cut (suc fuel) p ok h inside enough = elim (Bool-cases (ltb p (length text))) [
    | inr done ↦ ([], end_round fuel p done, stop (omega (arith, ltb→le p (length text) done)))
    | inl more ↦
        let s = best_added-Searched text p v.added none in
        let lt = ltb→lt p (length text) more in
        elim s.source [
          | inl missing ↦
              let seen : All (λ b. Occurs text p b → length b.0 ≤ 0) v.added =
                subst (λ o. All (λ b. Occurs text p b → length b.0 ≤ best_added_len o) v.added)
                  missing s.seen in
              let e = next_added_pos-Ends text p v.added (length text) (omega arith) in
              let up = e.moved lt (none-Occurs text p v.added h seen) in
              let within = e.before in
              let (segment, run) =
                bpe_tokenize_segment_total ok text p (next_added_pos text p v.added (length text))
                  (omega arith) in
              let (rest, later, cut) =
                encode_loop-Cut fuel (next_added_pos text p v.added (length text)) ok h within
                  (omega arith) in
              (
                segment ++ rest,
                plain_round fuel p more missing run later,
                plain _ segment up within e.free (Boundary-sum text v.added _ e.boundary) run cut,
              )
          | inr (a, i, at_i, o, found) ↦
              let size = nonempty_at v.added i a h at_i in
              let seen : All (λ b. Occurs text p b → length b.0 ≤ length a.0) v.added =
                subst (λ o. All (λ b. Occurs text p b → length b.0 ≤ best_added_len o) v.added)
                  found s.seen in
              let fits = inside_text text p a o in
              let (rest, later, cut) =
                encode_loop-Cut fuel (p + length a.0) ok h fits (omega arith) in
              (
                a.1 ∷ rest,
                special_round fuel p more found later,
                special a (record { index = i; here = at_i; occurs = o; longest = seen }) cut,
              )
        ]
  ]

-- Where the tables of the vocabulary answer every key, no added token is empty and `max_tokens` is
-- positive, `ds3_vocab_encode` ends for every text and writes the first `max_tokens` tokens of the cut
-- of the text: wherever added tokens stand at a cut it takes the longest, and in between each segment
-- is encoded whole, from where no added token stands to the next place where one does, or to the end.
pub ds3_vocab_encode-Cut :
    {v : Vocab}
    → Answering v
    → (text : Bytes) (max_tokens : ℕ) → All NonEmpty v.added
    → (ids : List ℤ) × (ds3_vocab_encode (some v) (some text) (pos (suc max_tokens))
        ≡ some (first_tokens (pos (suc max_tokens)) ids))
      × Cut v text 0 ids
unfolding ds3_vocab_encode
ds3_vocab_encode-Cut {v} ok text max_tokens h =
    let (ids, run, cut) =
      encode_loop-Cut v text (suc (length text)) 0 ok h (omega arith) (omega arith) in
    (ids, rw (run, ◌>>=◌), cut)
