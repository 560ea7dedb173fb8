-- ===== src/Tokenizer/Bpe/Merge.antt =====
-- The merge loop ends, keeps the text, and leaves no pair that could be merged.
use qw.Base.{
  ℕ, zero, suc, ◌+◌, ◌≤◌, ◌<◌, List, [], ◌∷◌, ◌++◌, append_assoc, Option, none, some, ltb, length,
  ◌>>=◌, ◌≡◌, refl, ap, ◌∙◌, sym, arith, ltb→le, ltb→lt, inl, inr, ◌⊎◌, Bool-cases,
}
use qw.Base.Int.{ℤ, pos, negsuc}
use mathlib.Core.List.{flatten}
use qw.Tokenizer.Table.{Bytes}
use qw.Tokenizer.Bpe.{Best, better, best_pair, merge_at, merge_loop, merge_all, no_best, int32_max}

-- A rank that the loop can choose.
abbrev pub Ranked : ℤ → Type 0
Ranked (pos r) = r < int32_max
Ranked (negsuc r) = ⊥

-- No pair of neighbours can be merged.
abbrev pub Settled : (Bytes → Bytes → ℤ) → List Bytes → Type 0
Settled rank [] = Unit
Settled rank (x ∷ []) = Unit
Settled rank (x ∷ y ∷ r) = (¬ Ranked (rank x y)) × Settled rank (y ∷ r)

flatten-merge_at : (i : ℕ) (syms : List Bytes) → flatten (merge_at i syms) ≡ flatten syms
unfolding merge_at flatten
flatten-merge_at zero [] = refl
flatten-merge_at zero (x ∷ []) = refl
flatten-merge_at zero (x ∷ y ∷ r) = append_assoc x y (flatten r)
flatten-merge_at (suc i) [] = refl
flatten-merge_at (suc i) (x ∷ r) = ap (λ l. x ++ l) (flatten-merge_at i r)

length-merge_at :
    (i : ℕ) (syms : List Bytes) → suc i < length syms → length (merge_at i syms) + 1 ≡ length syms
unfolding merge_at
length-merge_at zero [] h = absurd (omega arith)
length-merge_at zero (x ∷ []) h = absurd (omega arith)
length-merge_at zero (x ∷ y ∷ r) h = omega arith
length-merge_at (suc i) [] h = absurd (omega arith)
length-merge_at (suc i) (x ∷ r) h = omega (arith, length-merge_at i r (omega arith))

-- The rank of pair number `k`.
abbrev pub rank_at : (Bytes → Bytes → ℤ) → List Bytes → ℕ → Option ℤ
rank_at rank [] k = none
rank_at rank (x ∷ []) k = none
rank_at rank (x ∷ y ∷ r) zero = some (rank x y)
rank_at rank (x ∷ y ∷ r) (suc k) = rank_at rank (y ∷ r) k

-- What the search makes of `b`: it keeps `b`, or takes the leftmost pair of the lowest rank.
pub record Chosen (rank : Bytes → Bytes → ℤ) (syms : List Bytes) (i : ℕ) (b res : Best)
    : Type 0 where
  pub no_higher : res.rank ≤ b.rank
  pub lowest : (k r : ℕ) → rank_at rank syms k ≡ some (pos r) → res.rank ≤ r
  pub which :
      (res ≡ b)
      ⊎ ((k : ℕ) × (res.index ≡ some (i + k))
          × (rank_at rank syms k ≡ some (pos res.rank))
          × (res.rank < b.rank)
          × ((j r : ℕ) → j < k → rank_at rank syms j ≡ some (pos r) → res.rank < r))

-- One pair: it replaces `b` if its rank is lower.
Better : ℤ → ℕ → Best → Best → Type 0
Better z i b c =
    ((c ≡ b) × ((r : ℕ) → z ≡ pos r → b.rank ≤ r))
    ⊎ ((c.index ≡ some i) × (z ≡ pos c.rank) × (c.rank < b.rank))

better-Better : (z : ℤ) (i : ℕ) (b : Best) → Better z i b (better z i b)
unfolding Better better
better-Better (negsuc r) i b = inl (refl, λ k e. cc)
better-Better (pos r) i b = elim (Bool-cases (ltb r b.rank)) [
  | inl lower ↦ rw lower (inr (refl, refl, ltb→lt _ _ lower))
  | inr not_lower ↦ rw not_lower (inl (refl, λ k e. ground (arith, ltb→le r b.rank not_lower)))
]

pos-injective : {a b : ℕ} → pos a ≡ pos b → a ≡ b
pos-injective e = cc

module _ (rank : Bytes → Bytes → ℤ) (x y : Bytes) (r : List Bytes) (i : ℕ) (b c res : Best)
    (one : Better (rank x y) i b c) (h : Chosen rank (y ∷ r) (suc i) c res) where
  -- What the first pair contributes to the three parts of the claim.
  not_above : c.rank ≤ b.rank
  unfolding Better
  not_above = elim one [
    | inl (same, keep) ↦ omega (arith, ap (λ (d : Best). d.rank) same)
    | inr (idx, z, lower) ↦ omega arith
  ]

  first_rank : (n : ℕ) → rank x y ≡ pos n → c.rank ≤ n
  unfolding Better
  first_rank n e = elim one [
    | inl (same, keep) ↦ omega (arith, ap (λ (d : Best). d.rank) same, keep n e)
    | inr (idx, z, lower) ↦ omega (arith, pos-injective (sym z ∙ e))
  ]

  lowest_more : (k n : ℕ) → rank_at rank (x ∷ y ∷ r) k ≡ some (pos n) → res.rank ≤ n
  lowest_more zero n e =
      omega (arith, first_rank n (let e' : rank x y ≡ pos n = cc in e'), h.no_higher)
  lowest_more (suc k) n e = h.lowest k n e

  first_more :
      (k : ℕ)
      → res.rank < c.rank
      → ((j n : ℕ) → j < k → rank_at rank (y ∷ r) j ≡ some (pos n) → res.rank < n)
      → (j n : ℕ) → j < suc k
      → rank_at rank (x ∷ y ∷ r) j ≡ some (pos n)
      → res.rank < n
  first_more k lt first zero n hj e =
      omega (arith, first_rank n (let e' : rank x y ≡ pos n = cc in e'))
  first_more k lt first (suc j) n hj e = first j n (omega arith) e

  which_more :
      (res ≡ b)
      ⊎ ((k : ℕ) × (res.index ≡ some (i + k))
          × (rank_at rank (x ∷ y ∷ r) k ≡ some (pos res.rank))
          × (res.rank < b.rank)
          × ((j n : ℕ) → j < k → rank_at rank (x ∷ y ∷ r) j ≡ some (pos n) → res.rank < n))
  unfolding Better
  which_more = elim h.which [
    | inr (k, idx, at, lt, first) ↦
        inr
          (suc k, idx ∙ ap some (omega arith), at, omega (arith, not_above), first_more k lt first)
    | inl same ↦ elim one [
      | inl (kept, keep) ↦ inl (same ∙ kept)
      | inr (idx, z, lower) ↦
          let e : res.rank ≡ c.rank = ap (λ (d : Best). d.rank) same in
          inr (
            0,
            ap (λ (d : Best). d.index) same ∙ idx ∙ ap some (omega arith),
            ap some (z ∙ ap pos (sym e)),
            omega (arith, e),
            λ j n hj e'. absurd (omega arith),
          )
    ]
  ]

  Chosen-more : Chosen rank (x ∷ y ∷ r) i b res
  Chosen-more = record {
    no_higher = omega (arith, not_above, h.no_higher);
    lowest = lowest_more;
    which = which_more;
  }

-- The search where every call of `rank` returns.
unfoldable best_of : (Bytes → Bytes → ℤ) → List Bytes → ℕ → Best → Best
unfolding better
best_of rank [] i b = b
best_of rank (x ∷ []) i b = b
best_of rank (x ∷ y ∷ r) i b = best_of rank (y ∷ r) (suc i) (better (rank x y) i b)

best_of-Chosen :
    (rank : Bytes → Bytes → ℤ) (syms : List Bytes) (i : ℕ) (b : Best)
    → Chosen rank syms i b (best_of rank syms i b)
unfolding best_of
best_of-Chosen rank [] i b = record {
  no_higher = omega arith;
  lowest = λ k r e. cc;
  which = inl refl;
}
best_of-Chosen rank (x ∷ []) i b = record {
  no_higher = omega arith;
  lowest = λ k r e. cc;
  which = inl refl;
}
best_of-Chosen rank (x ∷ y ∷ r) i b =
    Chosen-more rank x y r i b (better (rank x y) i b) _ (better-Better (rank x y) i b)
      (best_of-Chosen rank (y ∷ r) (suc i) (better (rank x y) i b))

rank_at-lt :
    (rank : Bytes → Bytes → ℤ) (syms : List Bytes) (k : ℕ) {z : ℤ}
    → rank_at rank syms k ≡ some z
    → suc k < length syms
rank_at-lt rank [] k e = cc
rank_at-lt rank (x ∷ []) k e = cc
rank_at-lt rank (x ∷ y ∷ r) zero e = omega arith
rank_at-lt rank (x ∷ y ∷ r) (suc k) e = omega (arith, rank_at-lt rank (y ∷ r) k e)

-- No pair is chosen only where no pair can be merged.
unranked :
    (rank : Bytes → Bytes → ℤ) (syms : List Bytes)
    → ((k r : ℕ) → rank_at rank syms k ≡ some (pos r) → int32_max ≤ r)
    → Settled rank syms
unranked rank [] h = tt
unranked rank (x ∷ []) h = tt
unranked rank (x ∷ y ∷ r) h =
    (no_rank (rank x y) (λ n e. h 0 n (ap some e)), unranked rank (y ∷ r) (λ k. h (suc k)))
  where
    no_rank : (z : ℤ) → ((n : ℕ) → z ≡ pos n → int32_max ≤ n) → ¬ Ranked z
    no_rank (pos n) high low = omega (arith, high n refl)
    no_rank (negsuc n) high low = low

-- The pair `k` is the leftmost one of the lowest rank, and its rank can be chosen.
pub record IsBest (rank : Bytes → Bytes → ℤ) (syms : List Bytes) (k : ℕ) : Type 0 where
  pub rank_of : ℕ
  pub here : rank_at rank syms k ≡ some (pos rank_of)
  pub below_max : rank_of < int32_max
  pub lowest : (j r : ℕ) → rank_at rank syms j ≡ some (pos r) → rank_of ≤ r
  pub leftmost : (j r : ℕ) → j < k → rank_at rank syms j ≡ some (pos r) → rank_of < r

abbrev pub Returns : (Bytes → Bytes → Option ℤ) → (Bytes → Bytes → ℤ) → Type 0
Returns look rank = (x y : Bytes) → look x y ≡ some (rank x y)

best_of_lem :
    (rank : Bytes → Bytes → ℤ) (syms : List Bytes)
    → (((best_of rank syms 0 no_best).index ≡ none) × Settled rank syms)
      ⊎ ((k : ℕ) × ((best_of rank syms 0 no_best).index ≡ some k) × IsBest rank syms k)
best_of_lem rank syms =
    let res = best_of rank syms 0 no_best in
    let h = best_of-Chosen rank syms 0 no_best in
    elim h.which [
      | inl same ↦
          let e : res.rank ≡ int32_max = ap (λ (d : Best). d.rank) same in
          inl (
            ap (λ (d : Best). d.index) same,
            unranked rank syms (λ k r at. omega (arith, h.lowest k r at, e)),
          )
      | inr (k, idx, at, lt, first) ↦ inr (
        k,
        idx ∙ ap some (omega arith),
        record {
          rank_of = res.rank;
          here = at;
          below_max = lt;
          lowest = h.lowest;
          leftmost = first;
        },
      )
    ]

module _ {look : Bytes → Bytes → Option ℤ} {rank : Bytes → Bytes → ℤ}
    (returns : Returns look rank) where
  best_pair-best_of :
      (syms : List Bytes) (i : ℕ) (b : Best)
      → best_pair look syms i b ≡ some (best_of rank syms i b)
  unfolding best_pair best_of
  best_pair-best_of [] i b = refl
  best_pair-best_of (x ∷ []) i b = refl
  best_pair-best_of (x ∷ y ∷ r) i b =
      rw (returns x y, ◌>>=◌) (best_pair-best_of (y ∷ r) (suc i) (better (rank x y) i b))

  -- Where every call of `bpe_rank` returns, the search of one round ends, and answers none only where
  -- no pair of neighbours can be merged, and otherwise the leftmost pair of the lowest rank.
  pub best_pair_lem :
      (syms : List Bytes)
      → (res : Best) × (best_pair look syms 0 no_best ≡ some res)
        × (((res.index ≡ none) × Settled rank syms)
            ⊎ ((k : ℕ) × (res.index ≡ some k) × IsBest rank syms k))
  best_pair_lem syms =
      (best_of rank syms 0 no_best, best_pair-best_of syms 0 no_best, best_of_lem rank syms)

-- What the merge loop makes of the symbols.
pub record Merged (rank : Bytes → Bytes → ℤ) (syms out : List Bytes) : Type 0 where
  pub text : flatten out ≡ flatten syms
  pub settled : Settled rank out
  pub fewer : length out ≤ length syms

merge_round :
    (fuel : ℕ) (look : Bytes → Bytes → Option ℤ) (syms : List Bytes) (k : ℕ) {res : Best}
    → best_pair look syms 0 no_best ≡ some res
    → res.index ≡ some k
    → merge_loop (suc fuel) look syms ≡ merge_loop fuel look (merge_at k syms)
unfolding merge_loop
merge_round fuel look syms k run e = rw (run, ◌>>=◌, e, merge_loop)

merge_end :
    (fuel : ℕ) (look : Bytes → Bytes → Option ℤ) (syms : List Bytes) {res : Best}
    → best_pair look syms 0 no_best ≡ some res
    → res.index ≡ none
    → merge_loop (suc fuel) look syms ≡ some syms
unfolding merge_loop
merge_end fuel look syms run e = rw (run, ◌>>=◌, e, merge_loop)

module _ {look : Bytes → Bytes → Option ℤ} {rank : Bytes → Bytes → ℤ}
    (returns : Returns look rank) where
  merge_loop-Merged :
      (fuel : ℕ) (syms : List Bytes)
      → length syms < fuel
      → (out : List Bytes) × (merge_loop fuel look syms ≡ some out) × Merged rank syms out
  merge_loop-Merged zero syms h = absurd (omega arith)
  merge_loop-Merged (suc fuel) syms h =
      let (res, search, found_or_not) = best_pair_lem returns syms in
      elim found_or_not [
        | inl (done, s) ↦ (
          syms,
          merge_end fuel look syms search done,
          record { text = refl; settled = s; fewer = omega arith },
        )
        | inr (k, found, best) ↦
            let shorter = length-merge_at k syms (rank_at-lt rank syms k best.here) in
            let (out, run, m) = merge_loop-Merged fuel (merge_at k syms) (omega (arith, shorter)) in
            (
              out,
              merge_round fuel look syms k search found ∙ run,
              record {
                text = m.text ∙ flatten-merge_at k syms;
                settled = m.settled;
                fewer = omega (arith, m.fewer, shorter);
              },
            )
      ]

  -- Where every call of `bpe_rank` returns, the merge loop ends on any symbols; the symbols that it
  -- leaves make the same text, are no more than before, and hold no two neighbours that could be merged.
  pub merge_all-Merged :
      (syms : List Bytes)
      → (out : List Bytes) × (merge_all look syms ≡ some out) × Merged rank syms out
  unfolding merge_all
  merge_all-Merged syms = merge_loop-Merged (suc (length syms)) syms (omega arith)
