-- ===== src/KvCache/Local/Cache.antt =====
-- What the calls of the local provider promise each other: a write is read back and looked up, and
-- leaves the other sessions alone.
use qw.Base.{
  ℕ, zero, suc, ◌+◌, ◌≤◌, ◌<◌, ◌==◌, ==_iff, ==_refl, true, false, List, [], ◌∷◌, some,
  if◌then◌else◌, length, get_elem?, ◌≡◌, ◌≢◌, refl, ap, ◌∙◌, sym, arith, Bool-cases, inl, inr,
}
use mathlib.Core.Path.{subst}
use qw.Base.Int.{ℤ, pos, negsuc}
use qw.Tokenizer.Table.{Bytes}
use qw.KvCache.Local.{Session, State, local_find_session, equal_tokens, common_length, local_lookup}

equal_tokens_refl : (t : ℤ) → equal_tokens t t ≡ true
equal_tokens_refl (pos a) = ==_refl a
equal_tokens_refl (negsuc a) = ==_refl a

equal_tokens-eq : (t u : ℤ) → equal_tokens t u ≡ true → t ≡ u
equal_tokens-eq (pos a) (pos b) e = ap pos ((==_iff a b).0 e)
equal_tokens-eq (pos a) (negsuc b) e = cc
equal_tokens-eq (negsuc a) (pos b) e = cc
equal_tokens-eq (negsuc a) (negsuc b) e = ap negsuc ((==_iff a b).0 e)

-- `n` is the length of the longest common prefix of `ts` and the `left` tokens of `cached` from `i` on.
pub record Common (ts : List ℤ) (cached : ℕ → ℤ) (left i n : ℕ) : Type 0 where
  pub within : (n ≤ length ts) × (n ≤ left)
  pub agree : (j : ℕ) → j < n → get_elem? ts j ≡ some (cached (i + j))
  pub longest : n < length ts → n < left → get_elem? ts n ≢ some (cached (i + n))

common_length-Common :
    (ts : List ℤ) (cached : ℕ → ℤ) (left i : ℕ)
    → (n : ℕ) × (common_length ts cached left i ≡ i + n) × Common ts cached left i n
unfolding common_length
common_length-Common [] cached left i = (
  0,
  omega arith,
  record {
    within = omega arith;
    agree = λ j h. absurd (omega arith);
    longest = λ a b. absurd (omega arith);
  },
)
common_length-Common (t ∷ ts) cached zero i = (
  0,
  omega arith,
  record {
    within = omega arith;
    agree = λ j h. absurd (omega arith);
    longest = λ a b. absurd (omega arith);
  },
)
common_length-Common (t ∷ ts) cached (suc left) i = elim (Bool-cases (equal_tokens t (cached i))) [
  | inr differ ↦ (
    0,
    rw differ (omega arith),
    record {
      within = omega arith;
      agree = λ j h. absurd (omega arith);
      longest = λ a b same.
          let z : i + 0 ≡ i = omega arith in
          let e : some t ≡ some (cached (i + 0)) = same in
          let e' : t ≡ cached i = cc in
          let bad : equal_tokens t t ≡ false = ap (equal_tokens t) e' ∙ differ in
          let good = equal_tokens_refl t in cc;
    },
  )
  | inl same ↦
      let (n, run, c) = common_length-Common ts cached left (i + 1) in
      let w = c.within in
      (
        suc n,
        rw (same, run) (omega arith),
        record {
          within = omega arith;
          agree = λ j h. agree_suc c same j h;
          longest = λ a b e.
              c.longest (omega arith) (omega arith) (e ∙ ap (λ k. some (cached k)) (omega arith));
        },
      )
]
  where
    agree_suc :
        {n : ℕ}
        → Common ts cached left (i + 1) n
        → equal_tokens t (cached i) ≡ true
        → (j : ℕ) → j < suc n
        → get_elem? (t ∷ ts) j ≡ some (cached (i + j))
    agree_suc c same zero h = ap some (equal_tokens-eq t (cached i) same ∙ ap cached (omega arith))
    agree_suc c same (suc j) h = c.agree j (omega arith) ∙ ap (λ k. some (cached k)) (omega arith)

-- What `local_lookup` does for a session that is there.
lookup_run :
    (st : State) (id : Bytes) (ts : List ℤ) {i : ℕ} {s : Session}
    → local_find_session st id ≡ some (i, s)
    → local_lookup st id ts
      ≡ (if s.n_tokens == 0 then 0 else common_length ts s.tokens s.n_tokens 0)
unfolding local_lookup
lookup_run st id ts e = rw e refl

-- For a session that is there, `local_lookup` gives the length of the longest common prefix of the
-- tokens asked for and the tokens cached.
pub local_lookup-Common :
    (st : State) (id : Bytes) (ts : List ℤ) (i : ℕ) (s : Session)
    → local_find_session st id ≡ some (i, s)
    → Common ts s.tokens s.n_tokens 0 (local_lookup st id ts)
local_lookup-Common st id ts i s e =
    let (n, run, c) = common_length-Common ts s.tokens s.n_tokens 0 in
    let whole : common_length ts s.tokens s.n_tokens 0 ≡ n = run ∙ omega arith in
    elim (Bool-cases (s.n_tokens == 0)) [
      | inl empty ↦
          let z : s.n_tokens ≡ 0 = (==_iff s.n_tokens 0).0 empty in
          let w = c.within in
          let n0 : n ≡ 0 = omega arith in
          let same : local_lookup st id ts ≡ n = lookup_run st id ts e ∙ rw empty (sym n0) in
          subst (Common ts s.tokens s.n_tokens 0) (sym same) c
      | inr some_tokens ↦
          let same : local_lookup st id ts ≡ n = lookup_run st id ts e ∙ rw some_tokens whole in
          subst (Common ts s.tokens s.n_tokens 0) (sym same) c
    ]
