-- ===== src/KvCache/Service/Blocks.antt =====
-- The spans of tokens that a write of the service provider makes.
use qw.Base.{
  ℕ, suc, ◌+◌, ◌-◌, ◌*◌, ◌/◌, ◌%◌, ◌^◌, ◌≤◌, ◌<◌, true, if◌then◌else◌, ltb, ltb→lt, ltb→le, lt→ltb,
  le→ltb, ◌≡◌, refl, ap, ◌∙◌, sym, arith, Bool-cases, inl, inr,
}
use mathlib.Core.Path.{subst}
use native.Mathlib.Nat.{le-div_iff_mul-le, lt-div-mul-add, add-mul}
use qw.Base.Int.{pos, bits32, to_int32}
use qw.KvCache.Service.{num_new_blocks, block_start, block_end}

to_int32-small : (x : ℕ) → x < 2 ^ 31 → to_int32 x ≡ pos x
to_int32-small x h =
    let e : x % 2 ^ 32 ≡ x = omega arith in
    let lt : ltb x (2 ^ 31) ≡ true = lt→ltb x (2 ^ 31) h in rw (e, lt) refl

bits32-small : (x : ℕ) → x < 2 ^ 31 → bits32 (pos x) ≡ x
bits32-small x h = omega arith

block_start-small : (c b i : ℕ) → c + i * b < 2 ^ 31 → block_start (pos c) b i ≡ pos (c + i * b)
unfolding block_start
block_start-small c b i h =
    let e : c % 2 ^ 32 ≡ c = omega arith in rw e (to_int32-small (c + i * b) h)

-- The end of a span, without wrap-around.
end_of : ℕ → ℕ → ℕ
end_of n e = if ltb n e then n else e

block_end-small :
    (c n b i : ℕ)
    → c + i * b + b < 2 ^ 31
    → block_end (pos c) b (pos n) i ≡ pos (end_of n (c + i * b + b))
unfolding block_end end_of
block_end-small c n b i h =
    let start = block_start-small c b i (omega arith) in
    let e : (c + i * b) % 2 ^ 32 ≡ c + i * b = omega arith in
    let whole = to_int32-small (c + i * b + b) h in
    elim (Bool-cases (ltb n (c + i * b + b))) [
      | inl lt ↦
          let l = lt→ltb (n + 0) (c + i * b + b + 0) (omega (arith, ltb→lt n (c + i * b + b) lt)) in
          rw (start, e, whole, l, lt) refl
      | inr ge ↦
          let l = le→ltb (n + 0) (c + i * b + b + 0) (omega (arith, ltb→le n (c + i * b + b) ge)) in
          rw (start, e, whole, l, ge) refl
    ]

-- Block `i` of `count` of them holds the tokens from `from` on, up to `to`: it is not empty, ends at
-- `n` at the latest, the next starts where it ends, and the last ends at `n`.
pub record Span (c n b count i : ℕ) : Type 0 where
  pub from : ℕ
  pub to : ℕ
  pub starts : block_start (pos c) b i ≡ pos from
  pub ends : block_end (pos c) b (pos n) i ≡ pos to
  pub nonempty : from < to
  pub within : to ≤ n
  pub next : suc i < count → block_start (pos c) b (suc i) ≡ pos to
  pub last : suc i ≡ count → to ≡ n

-- The blocks that are made of the tokens from `c` to `n`.
pub record Spans (c n b count : ℕ) : Type 0 where
  pub number : num_new_blocks (pos (n - c)) b ≡ pos count
  pub some_block : 0 < count
  pub first : block_start (pos c) b 0 ≡ pos c
  pub block : (i : ℕ) → i < count → Span c n b count i

suc-mul : (i b : ℕ) → suc i * b ≡ i * b + b
suc-mul i b = ap (λ k. k * b) (omega arith) ∙ add-mul i 1 b ∙ ap (λ k. i * b + k) (omega arith)

module _ (c n b : ℕ) (less : c < n) (positive : 0 < b) (small : n + b < 2 ^ 31) where
  span : (i : ℕ) → i < (n - c + b - 1) / b → Span c n b ((n - c + b - 1) / b) i
  unfolding end_of
  span i below =
      let here : suc i * b ≤ n - c + b - 1 = (le-div_iff_mul-le positive).0 (omega arith) in
      let step = suc-mul i b in
      let top = lt-div-mul-add {a = n - c + b - 1} positive in
      record {
        from = c + i * b;
        to = end_of n (c + i * b + b);
        starts = block_start-small c b i (omega arith);
        ends = block_end-small c n b i (omega arith);
        nonempty = ground arith;
        within = ground arith;
        next = λ more.
            let there : suc (suc i) * b ≤ n - c + b - 1 =
              (le-div_iff_mul-le positive).0 (omega arith) in
            let step' = suc-mul (suc i) b in
            let inside : c + i * b + b ≤ n = omega arith in
            let whole : end_of n (c + i * b + b) ≡ c + suc i * b = ground arith in
            block_start-small c b (suc i) (omega arith) ∙ ap pos (sym whole);
        last = λ e.
            let all : n - c + b - 1 < suc i * b + b =
              subst (λ k. n - c + b - 1 < k * b + b) (sym e) top in
            ground arith;
      }
