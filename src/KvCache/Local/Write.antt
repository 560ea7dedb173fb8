-- ===== src/KvCache/Local/Write.antt =====
-- A write of the local provider is read back and looked up, and leaves the other sessions alone.
use qw.Base.{
  ℕ, zero, suc, ◌+◌, ◌*◌, ◌^◌, ◌%◌, ltb, lt→ltb, ◌≤◌, ◌<◌, true, false, List, [], ◌∷◌, none, some,
  le→ltb, length, get_elem?, take, drop, ◌≡◌, ◌≢◌, refl, ap, ◌∙◌, sym, arith, inl, inr,
}
use native.Mathlib.Decide.{dec_lt}
use mathlib.Core.Path.{subst}
use qw.Base.Int.{ℤ, pos, add_int32, mul_int32}
use qw.Tokenizer.Table.{Bytes}
use qw.KvCache.Local.{
  Session, State, has_id, local_find_session, with_slot, local_lookup, copied, bytes_from,
  read_found, local_read, overwrite, written, local_write,
}
use qw.KvCache.Local.Slots.{
  IsFirst, first_slot-set_other, first_slot-set_found, first_slot_lem, has_id-eq, has_id-other,
}
use qw.KvCache.Local.Cache.{Common, local_lookup-Common}

pub sum_small : (a b : ℕ) → a + b < 2 ^ 31 → add_int32 (pos a) (pos b) ≡ pos (a + b)
sum_small a b h =
    let e : (a % 2 ^ 32 + b % 2 ^ 32) % 2 ^ 32 ≡ a + b = omega arith in
    let lt : ltb (a + b) (2 ^ 31) ≡ true = lt→ltb (a + b) (2 ^ 31) h in rw (e, lt) refl

product_small : (a k : ℕ) → a < 2 ^ 32 → a * k < 2 ^ 31 → mul_int32 (pos a) k ≡ pos (a * k)
product_small a k small h =
    let same : a % 2 ^ 32 ≡ a = omega arith in
    let e : a * k % 2 ^ 32 ≡ a * k = omega arith in
    let lt : ltb (a * k) (2 ^ 31) ≡ true = lt→ltb (a * k) (2 ^ 31) h in rw (same, e, lt) refl

bytes_from-suc : (f : ℕ → ℕ) (i n : ℕ) → bytes_from f (suc i) n ≡ bytes_from (λ j. f (suc j)) i n
unfolding bytes_from
bytes_from-suc f i zero = refl
bytes_from-suc f i (suc n) =
    ap (λ l. f (suc i) ∷ l) (ap (λ k. bytes_from f k n) (omega arith) ∙ bytes_from-suc f (i + 1) n)

bytes_from-overwrite :
    (kv : Bytes) (old : ℕ → ℕ) (i n : ℕ)
    → i + n ≤ length kv
    → bytes_from (overwrite kv old) i n ≡ take n (drop i kv)
unfolding bytes_from overwrite
bytes_from-overwrite kv old i zero h = refl
bytes_from-overwrite [] old i (suc n) h = absurd (omega arith)
bytes_from-overwrite (x ∷ xs) old zero (suc n) h =
    ap (λ l. x ∷ l)
      (bytes_from-suc (overwrite (x ∷ xs) old) 0 n
        ∙ bytes_from-overwrite xs (λ j. old (suc j)) 0 n (omega arith))
bytes_from-overwrite (x ∷ xs) old (suc i) (suc n) h =
    bytes_from-suc (overwrite (x ∷ xs) old) i (suc n)
    ∙ bytes_from-overwrite xs (λ j. old (suc j)) i (suc n) (omega arith)

overwrite_at :
    {A : Type 0} (xs : List A) (old : ℕ → A) (i : ℕ)
    → i < length xs
    → get_elem? xs i ≡ some (overwrite xs old i)
unfolding overwrite
overwrite_at [] old i h = absurd (omega arith)
overwrite_at (x ∷ xs) old zero h = refl
overwrite_at (x ∷ xs) old (suc i) h = overwrite_at xs (λ j. old (suc j)) i (omega arith)

pub found_at :
    (st : State) (id : Bytes) {i : ℕ} {s : Session}
    → local_find_session st id ≡ some (i, s)
    → IsFirst (has_id id) st.sessions i s
unfolding local_find_session
found_at st id {i} {s} e = elim (first_slot_lem (has_id id) st.sessions 0) [
  | inl (missing, all) ↦ let bad : none ≡ some (i, s) = sym missing ∙ e in cc
  | inr (k, x, found, f) ↦
      let pair : some (0 + k, x) ≡ some (i, s) = sym found ∙ e in
      let index : 0 + k ≡ i = cc in
      let index' : k ≡ i = omega (arith, index) in
      let same : x ≡ s = cc in
      subst (λ j. IsFirst (has_id id) st.sessions j s) index'
        (subst (IsFirst (has_id id) st.sessions k) same f)
]

-- After a change of the slot of a session that keeps its id, the session is found with the change.
pub find-changed :
    (st : State) (id : Bytes) (s' : Session) {i : ℕ} {s : Session}
    → local_find_session st id ≡ some (i, s)
    → has_id id s' ≡ true
    → local_find_session (with_slot st i s') id ≡ some (i, s')
unfolding local_find_session
find-changed st id s' {i} {s} e ok =
    let z : 0 + i ≡ i = omega arith in
    first_slot-set_found (has_id id) st.sessions 0 i s' (e ∙ ap (λ k. some (k, s)) (sym z)) ok
    ∙ ap (λ k. some (k, s')) z

-- A change of a slot that does not have the id, before and after, is not seen under that id.
pub find-other :
    (st : State) (id : Bytes) (i : ℕ) (s' : Session) {s : Session}
    → get_elem? st.sessions i ≡ some s
    → has_id id s ≡ false
    → has_id id s' ≡ false
    → local_find_session (with_slot st i s') id ≡ local_find_session st id
unfolding local_find_session
find-other st id i s' at e e' = first_slot-set_other (has_id id) st.sessions 0 i s' at e e'

write_run :
    (st : State) (id : Bytes) (tokens : List ℤ) (kv : Bytes) {i : ℕ} {s : Session}
    → local_find_session st id ≡ some (i, s)
    → length tokens ≤ s.capacity_tokens
    → length kv ≤ s.kv_capacity
    → local_write st id tokens kv ≡ (with_slot st i (written s tokens kv), pos 0)
unfolding local_write
write_run st id tokens kv {s = s} e ht hk =
    rw (e, le→ltb s.capacity_tokens (length tokens) ht, le→ltb s.kv_capacity (length kv) hk) refl

-- A read within the tokens of the session, whose bytes are an `int`.
pub read_found-within :
    (per start n i : ℕ) (s : Session)
    → start + n < 2 ^ 31
    → n * per < 2 ^ 31
    → start * per < 2 ^ 64
    → start + n ≤ s.n_tokens
    → start * per + n * per ≤ s.kv_capacity
    → read_found per (pos start) (pos n) (some (i, s))
      ≡ copied (bytes_from s.kv_data (start * per) (n * per))
read_found-within per start n i s small few near h k =
    let sum : add_int32 (pos start) (pos n) ≡ pos (start + n) = sum_small start n small in
    let product : mul_int32 (pos n) per ≡ pos (n * per) = product_small n per (omega arith) few in
    let offset : start * per % 2 ^ 64 ≡ start * per = omega arith in
    let fits : ltb (s.n_tokens + 0) (start + n + 0) ≡ false =
      le→ltb (s.n_tokens + 0) (start + n + 0) (omega arith) in
    rw (sum, fits, product, offset, le→ltb s.kv_capacity (start * per + n * per) k) refl

read_run :
    (st : State) (id : Bytes) (start n : ℕ) {i : ℕ} {s : Session}
    → local_find_session st id ≡ some (i, s)
    → start + n < 2 ^ 31
    → n * st.per_token_kv_bytes < 2 ^ 31
    → start * st.per_token_kv_bytes < 2 ^ 64
    → start + n ≤ s.n_tokens
    → start * st.per_token_kv_bytes + n * st.per_token_kv_bytes ≤ s.kv_capacity
    → local_read st id (pos start) (pos n)
      ≡ copied (bytes_from s.kv_data (start * st.per_token_kv_bytes) (n * st.per_token_kv_bytes))
unfolding local_read
read_run st id start n {i = i} {s = s} e small few near h k =
    rw e (read_found-within st.per_token_kv_bytes start n i s small few near h k)

-- What a write that is accepted leaves behind.
pub record Stored (st u : State) (id : Bytes) (tokens : List ℤ) (kv : Bytes) : Type 0 where
  pub per_token : u.per_token_kv_bytes ≡ st.per_token_kv_bytes
  pub reads :
      (start n : ℕ)
      → start + n ≤ length tokens
      → start * st.per_token_kv_bytes + n * st.per_token_kv_bytes ≤ length kv
      → n * st.per_token_kv_bytes < 2 ^ 31
      → local_read u id (pos start) (pos n)
        ≡ copied (take (n * st.per_token_kv_bytes) (drop (start * st.per_token_kv_bytes) kv))
  pub looked_up : local_lookup u id tokens ≡ length tokens
  pub others :
      (other : Bytes) → other ≢ id → local_find_session u other ≡ local_find_session st other

-- A write to a session that is there, of no more tokens and bytes than it has room for, their numbers
-- being an `int` and a `size_t`, returns 0.
-- Then every span of the tokens whose bytes are fewer than 2 ^ 31 reads back its bytes, the tokens are found whole, and the other
-- sessions are as before.
pub local_write-Stored :
    (st : State) (id : Bytes) (tokens : List ℤ) (kv : Bytes) (i : ℕ) (s : Session)
    → local_find_session st id ≡ some (i, s)
    → length tokens ≤ s.capacity_tokens
    → length kv ≤ s.kv_capacity
    → length tokens < 2 ^ 31
    → length kv < 2 ^ 64
    → (u : State) × (local_write st id tokens kv ≡ (u, pos 0)) × Stored st u id tokens kv
local_write-Stored st id tokens kv i s e ht hk small near =
    let f = found_at st id e in
    let (valid, same) = has_id-eq id s f.ok in
    let ok : has_id id (written s tokens kv) ≡ true = f.ok in
    let u : State = with_slot st i (written s tokens kv) in
    let e' : local_find_session u id ≡ some (i, written s tokens kv) =
      find-changed st id (written s tokens kv) e ok in
    let c : Common tokens (overwrite tokens s.tokens) (length tokens) 0 (local_lookup u id tokens) =
      local_lookup-Common u id tokens i (written s tokens kv) e' in
    (
      u,
      write_run st id tokens kv e ht hk,
      record {
        per_token = refl;
        reads = λ start n h k few.
            read_run u id start n e' (omega arith) few (omega arith) h (omega arith)
            ∙ ap copied (bytes_from-overwrite kv s.kv_data _ _ k);
        looked_up = whole tokens s.tokens (local_lookup u id tokens) c;
        others = λ other ne.
            let differ : s.session_id ≢ other = λ x. ne (sym x ∙ same) in
            find-other st other i (written s tokens kv) f.at (has_id-other other s differ)
              (has_id-other other (written s tokens kv) differ);
      },
    )
  where
    whole :
        (ts : List ℤ) (old : ℕ → ℤ) (n : ℕ)
        → Common ts (overwrite ts old) (length ts) 0 n
        → n ≡ length ts
    whole ts old n c = elim (dec_lt n (length ts)) [
      | yes lt ↦ absurd (
          c.longest lt lt
            (overwrite_at ts old n lt ∙ ap (λ k. some (overwrite ts old k)) (omega arith)))
      | no ge ↦ let w = c.within in omega arith
    ]
