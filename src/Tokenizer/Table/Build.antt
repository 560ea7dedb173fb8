-- ===== src/Tokenizer/Table/Build.antt =====
-- `table_init`, and the loops of `ds3_vocab_load` that fill a table from a list of strings.
use qw.Base.{
  ℕ, zero, suc, ◌+◌, ◌*◌, ◌%◌, ◌^◌, ◌≤◌, ◌<◌, true, false, List, [], ◌∷◌, none, some, ◌>>=◌, ◌≡◌,
  refl, ap, ◌∙◌, ◌⊎◌, inl, inr, arith, ltb, ltb→lt, ltb→le, lt→ltb, if◌then◌else◌, get_elem?,
  length, replicate, length-replicate, Bool-cases,
}
use native.Mathlib.Nat.{pow-suc, pow-le-pow_right}
use native.Mathlib.Decide.{dec_lt}
use qw.Base.Int.{to_int32}
use qw.Tokenizer.Table.{
  Bytes, Entry, Table, Stop, hit, free, fault, spin, same_bytes, blank, locate, table_get,
  table_init, Answer, found, absent, answer, next_pow2, next_pow2_loop, wanted, mask_of, put_all,
}
use qw.Tokenizer.Table.Probe.{probe-hit}
use qw.Tokenizer.Table.Laws.{IsTable, count_used, table_get-answer, locate-ends, table_put-Wrote}

pow_le : (j k : ℕ) → j ≤ k → 2 ^ j ≤ 2 ^ k
pow_le j k h = pow-le-pow_right (omega arith) h

exponent_lt : (j : ℕ) → 2 ^ j < 2 ^ 31 → j < 31
exponent_lt j h = elim (dec_lt j 31) [
  | yes s ↦ s
  | no g ↦ absurd (omega (arith, pow_le 31 j (omega arith)))
]

doubled :
    (n fuel p q : ℕ)
    → ltb p n ≡ true
    → p * 2 % 2 ^ 32 ≡ q
    → next_pow2_loop (suc fuel) n p ≡ next_pow2_loop fuel n q
unfolding next_pow2_loop
doubled n fuel p q more e = rw (more, e)

next_pow2_loop-ends :
    (n : ℕ)
    → n ≤ 2 ^ 31
    → (fuel j : ℕ) → j ≤ 31
    → 31 < j + fuel
    → (2 ^ j ≡ 1) ⊎ (2 ^ j < 2 * n)
    → (k : ℕ) × (next_pow2_loop fuel n (2 ^ j) ≡ some (2 ^ k))
      × (n ≤ 2 ^ k)
      × (2 ^ k ≤ 2 ^ 31)
      × ((2 ^ k ≡ 1) ⊎ (2 ^ k < 2 * n))
unfolding next_pow2_loop
next_pow2_loop-ends n h zero j hj enough least = absurd (omega arith)
next_pow2_loop-ends n h (suc fuel) j hj enough least = elim (Bool-cases (ltb (2 ^ j) n)) [
  | inr done ↦ (j, rw done, ltb→le _ _ done, pow_le j 31 hj, least)
  | inl more ↦
      let below : 2 ^ j < n = ltb→lt _ _ more in
      let short : j < 31 = exponent_lt j (omega arith) in
      let next : 2 ^ j * 2 % 2 ^ 32 ≡ 2 ^ suc j =
        omega (arith, pow-suc 2 j, pow_le (suc j) 31 short) in
      let (k, run, lo, hi, small) =
        next_pow2_loop-ends n h fuel (suc j) short (omega arith)
          (inr (omega (arith, pow-suc 2 j))) in
      (k, doubled n fuel (2 ^ j) (2 ^ suc j) more next ∙ run, lo, hi, small)
]

-- Up to 2 ^ 31 the fuel of `next_pow2` is enough, and it returns the least power of two that is not
-- below its argument.
pub next_pow2_least :
    (n : ℕ)
    → n ≤ 2 ^ 31
    → (k : ℕ) × (next_pow2 n ≡ some (2 ^ k))
      × (n ≤ 2 ^ k)
      × (2 ^ k ≤ 2 ^ 31)
      × ((2 ^ k ≡ 1) ⊎ (2 ^ k < 2 * n))
unfolding next_pow2
next_pow2_least n h = next_pow2_loop-ends n h 33 0 (omega arith) (omega arith) (inl refl)

loop_runs_on :
    (n : ℕ)
    → 2 ^ 31 < n
    → (fuel p : ℕ) → (p ≡ 0) ⊎ ((j : ℕ) × (j ≤ 31) × (p ≡ 2 ^ j))
    → next_pow2_loop fuel n p ≡ none
unfolding next_pow2_loop
loop_runs_on n h zero p shape = refl
loop_runs_on n h (suc fuel) p (inl z) =
    let small : ltb p n ≡ true = ground arith in
    rw small (loop_runs_on n h fuel _ (inl (omega arith)))
loop_runs_on n h (suc fuel) p (inr (j, hj, e)) =
    let small : ltb p n ≡ true = lt→ltb p n (omega (arith, pow_le j 31 hj)) in
    rw small (
      loop_runs_on n h fuel _ (elim (dec_lt j 31) [
        | yes s ↦ inr (suc j, s, omega (arith, pow-suc 2 j, pow_le (suc j) 31 s))
        | no g ↦
            let top : j ≡ 31 = omega arith in
            let full : p ≡ 2 ^ 31 = e ∙ ap (λ (t : ℕ). 2 ^ t) top in inl (omega arith)
      ]))

-- Above 2 ^ 31 the loop never ends: the doubled number wraps to 0 and stays below the argument.
pub next_pow2_diverges : (n : ℕ) → 2 ^ 31 < n → (fuel : ℕ) → next_pow2_loop fuel n 1 ≡ none
next_pow2_diverges n h fuel = loop_runs_on n h fuel 1 (inr (0, omega arith, refl))

pub get_elem?-blank :
    (n i : ℕ) {e : Entry} → get_elem? (replicate n blank) i ≡ some e → e.used ≡ false
get_elem?-blank zero i h = cc
get_elem?-blank (suc n) zero h = ground arith
get_elem?-blank (suc n) (suc i) h = get_elem?-blank n i h

count_used-blank : (n : ℕ) → count_used (replicate n blank) ≡ 0
count_used-blank zero = refl
count_used-blank (suc n) = omega (arith, count_used-blank n)

-- What `table_init` makes for `expected` strings.
pub record Ready (expected : ℕ) (t : Table) : Type 0 where
  pub valid : IsTable t
  pub empty : t.used ≡ 0
  pub roomy : 2 * expected + 16 ≤ t.cap
  pub blank_all : (i : ℕ) (e : Entry) → get_elem? t.entry i ≡ some e → e.used ≡ false

table_init_run :
    (expected : ℕ) {c : ℕ}
    → next_pow2 (wanted expected) ≡ some c
    → table_init expected ≡ some (record { cap = c; used = 0; entry = replicate c blank })
unfolding table_init
table_init_run expected h = rw (h, ◌>>=◌)

-- Where twice the expected count and 16 fit 2 ^ 31, `table_init` makes a valid empty table that is
-- at most half full when it holds that many strings.
pub table_init-Ready :
    (expected : ℕ)
    → 2 * expected + 16 ≤ 2 ^ 31
    → (t : Table) × (table_init expected ≡ some t) × Ready expected t
table_init-Ready expected h =
    let fits : wanted expected ≡ 2 * expected + 16 = omega arith in
    let (k, run, lo, hi, least) = next_pow2_least (wanted expected) (omega arith) in
    (
      record { cap = 2 ^ k; used = 0; entry = replicate (2 ^ k) blank },
      table_init_run expected run,
      record {
        valid = record {
          bits = k;
          size = refl;
          small = hi;
          slots = length-replicate (2 ^ k) blank;
          counted = count_used-blank (2 ^ k);
          reach = λ i e at u. let v = get_elem?-blank (2 ^ k) i at in cc;
        };
        empty = refl;
        roomy = omega arith;
        blank_all = λ i e at. get_elem?-blank (2 ^ k) i at;
      },
    )

-- A fresh table answers no key.
Ready-absent : {n : ℕ} {t : Table} → Ready n t → (key : Bytes) → table_get t key ≡ absent
unfolding locate
Ready-absent {n} {t} r key = table_get-answer r.valid key ∙ go (locate t key) refl
  where
    go : (s : Stop) → locate t key ≡ s → answer s ≡ absent
    go (hit q e) at =
        let (there, u, same) = probe-hit (mask_of t.cap) t.entry key t.cap _ at in
        let v = r.blank_all q e there in cc
    go (free q) at = refl
    go fault at = absurd ((locate-ends r.valid (omega (arith, r.empty, r.roomy)) key).0 at)
    go spin at = absurd ((locate-ends r.valid (omega (arith, r.empty, r.roomy)) key).1 at)

-- The number of the last of the strings that is the key, counted from `i`; `a` if none is.
abbrev pub last_index : Bytes → List Bytes → ℕ → Answer → Answer
last_index key [] i a = a
last_index key (k ∷ ks) i a =
    last_index key ks (i + 1) (if same_bytes k key then found (to_int32 i) else a)

put_all-answers :
    (keys : List Bytes) (t : Table) (i : ℕ)
    → IsTable t
    → t.used + length keys < t.cap
    → (u : Table) × (put_all t keys i ≡ some u)
      × IsTable u
      × ((j : Bytes) → table_get u j ≡ last_index j keys i (table_get t j))
unfolding put_all
put_all-answers [] t i valid room = (t, refl, valid, λ j. refl)
put_all-answers (key ∷ keys) t i valid room =
    let (u, run, w) = table_put-Wrote valid key (to_int32 i) (omega arith) in
    let (v, more, ok, reads) =
      put_all-answers keys u (i + 1) w.valid (omega (arith, w.cap, w.at_most_one)) in
    (v, rw (run, ◌>>=◌) more, ok, λ j. rw (← w.reads j) (reads j))

-- Filling a table that was made for at least as many strings ends, and it then answers every key
-- with the number of its last occurrence among the strings, and no other key.
pub put_all_lem :
    (keys : List Bytes) (expected : ℕ)
    → length keys ≤ expected
    → 2 * expected + 16 ≤ 2 ^ 31
    → (u : Table) × ((table_init expected >>= λ t. put_all t keys 0) ≡ some u)
      × ((j : Bytes) → table_get u j ≡ last_index j keys 0 absent)
put_all_lem keys expected few h =
    let (t, init, r) = table_init-Ready expected h in
    let (u, run, ok, reads) = put_all-answers keys t 0 r.valid (omega (arith, r.empty, r.roomy)) in
    (u, rw (init, ◌>>=◌) run, λ j. rw (← Ready-absent r j) (reads j))
