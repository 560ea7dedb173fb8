-- ===== src/Gguf/Lookup/First.antt =====
-- The lookups of src/ds3_gguf.c return the first match.
use qw.Base.{
  ℕ, zero, suc, ◌<◌, Bool, true, false, List, [], ◌∷◌, none, some, length, ◌==◌, ==_iff, ◌^◌, ◌+◌,
  ◌-◌, ◌%◌, get_elem?, ◌≡◌, refl, arith, Bool-cases, ◌⊎◌, inl, inr,
}
use mathlib.Core.Path.{subst}
use qw.Tokenizer.Table.{Bytes, same_bytes}
use qw.Tokenizer.Table.Probe.{same_bytes-eq, same_bytes_refl}
use qw.Gguf.Cursor.{Mapping, bytes_at}
use qw.Gguf.Open.{Tensor, Gguf, ds3_gguf_strcmp_is_0}
use qw.Gguf.Lookup.{first_that, ds3_gguf_find_tensor}

-- The first element that the test accepts stands at `k`.
record FirstAt {A : Type 0} (test : A → Bool) (xs : List A) (k : ℕ) (x : A) : Type 0 where
  pub at : get_elem? xs k ≡ some x
  pub accepted : test x ≡ true
  pub rejected : (j : ℕ) (y : A) → j < k → get_elem? xs j ≡ some y → test y ≡ false

module _ {A : Type 0} (test : A → Bool) where
  rejected_suc :
      {x : A} (xs : List A) {k : ℕ}
      → test x ≡ false
      → ((j : ℕ) (y : A) → j < k → get_elem? xs j ≡ some y → test y ≡ false)
      → (j : ℕ) (y : A) → j < suc k
      → get_elem? (x ∷ xs) j ≡ some y
      → test y ≡ false
  rejected_suc {x} xs e h zero y lt at = let same : x ≡ y = cc in cc
  rejected_suc xs e h (suc j) y lt at = h j y (omega arith) at

  first_that_lem :
      (xs : List A)
      → ((first_that test xs ≡ none) × ((j : ℕ) (y : A) → get_elem? xs j ≡ some y → test y ≡ false))
        ⊎ ((k : ℕ) × (x : A) × (first_that test xs ≡ some x) × FirstAt test xs k x)
  unfolding first_that
  first_that_lem [] = inl (refl, λ j y at. cc)
  first_that_lem (x ∷ xs) = elim (Bool-cases (test x)) [
    | inl e ↦ inr (
      0,
      x,
      rw e refl,
      record { at = refl; accepted = e; rejected = λ j y lt. absurd (omega arith) },
    )
    | inr e ↦ elim (first_that_lem xs) [
      | inl (none_there, all) ↦ inl (rw e none_there, λ j y at. all_suc e all j y at)
      | inr (k, y, found, f) ↦ inr (
        suc k,
        y,
        rw e found,
        record { at = f.at; accepted = f.accepted; rejected = rejected_suc xs e f.rejected },
      )
    ]
  ]
    where
      all_suc :
          test x ≡ false
          → ((j : ℕ) (y : A) → get_elem? xs j ≡ some y → test y ≡ false)
          → (j : ℕ) (y : A) → get_elem? (x ∷ xs) j ≡ some y
          → test y ≡ false
      all_suc e all zero y at = let same : x ≡ y = cc in cc
      all_suc e all (suc j) y at = all j y at

-- The name of the tensor is this string, byte for byte.
abbrev pub Named : Mapping → Bytes → Tensor → Type 0
Named m name t = (t.name.len ≡ length name) × (bytes_at m t.name.data_ptr t.name.len ≡ name)

-- The lengths of the names fit 32 bits, so the cast of their difference loses nothing.
abbrev pub ShortNames : Gguf → Bytes → Type 0
ShortNames g name =
    (length name < 2 ^ 32)
    × ((j : ℕ) (t : Tensor) → get_elem? g.tensors j ≡ some t → t.name.len < 2 ^ 32)

-- The tensor `t` stands at `k` and has the name; no tensor before it has.
pub record FirstNamed (g : Gguf) (name : Bytes) (k : ℕ) (t : Tensor) : Type 0 where
  pub at : get_elem? g.tensors k ≡ some t
  pub named : Named g.mapping name t
  pub before :
      (j : ℕ) (y : Tensor) → j < k → get_elem? g.tensors j ≡ some y → ¬ Named g.mapping name y

module _ (m : Mapping) (name : Bytes) (t : Tensor) where
  strcmp-Named :
      t.name.len < 2 ^ 32
      → length name < 2 ^ 32
      → ds3_gguf_strcmp_is_0 m t.name name ≡ true
      → Named m name t
  unfolding ds3_gguf_strcmp_is_0
  strcmp-Named short short' e = elim (Bool-cases (t.name.len == length name)) [
    | inl same ↦
        let e' : same_bytes (bytes_at m t.name.data_ptr t.name.len) name ≡ true = rw same at e in
        ((==_iff t.name.len (length name)).0 same, same_bytes-eq _ _ e')
    | inr differ ↦
        let e' : ((t.name.len + 2 ^ 64 - length name) % 2 ^ 32 == 0) ≡ true = rw differ at e in
        let zero_cast = (==_iff ((t.name.len + 2 ^ 64 - length name) % 2 ^ 32) 0).0 e' in
        let equal : t.name.len ≡ length name = omega arith in
        let bad : (t.name.len == length name) ≡ true = (==_iff t.name.len (length name)).1 equal in
        cc
  ]

  strcmp-not_Named : ds3_gguf_strcmp_is_0 m t.name name ≡ false → ¬ Named m name t
  unfolding ds3_gguf_strcmp_is_0
  strcmp-not_Named e (size, text) =
      let same = (==_iff t.name.len (length name)).1 size in
      let e' : same_bytes (bytes_at m t.name.data_ptr t.name.len) name ≡ false = rw same at e in
      let bad : same_bytes name name ≡ false = subst (λ b. same_bytes b name ≡ false) text e' in
      let good = same_bytes_refl name in cc

-- Where the lengths of the names fit 32 bits, `ds3_gguf_find_tensor` returns the first tensor whose name
-- is the string asked for, byte for byte, and NULL exactly where no tensor has that name.
pub ds3_gguf_find_tensor_first :
    (g : Gguf) (name : Bytes)
    → ShortNames g name
    → ((ds3_gguf_find_tensor g name ≡ none)
        × ((j : ℕ) (t : Tensor) → get_elem? g.tensors j ≡ some t → ¬ Named g.mapping name t))
      ⊎ ((k : ℕ) × (t : Tensor) × (ds3_gguf_find_tensor g name ≡ some t) × FirstNamed g name k t)
unfolding ds3_gguf_find_tensor
ds3_gguf_find_tensor_first g name short =
    elim (first_that_lem (λ t. ds3_gguf_strcmp_is_0 g.mapping t.name name) g.tensors) [
      | inl (missing, all) ↦ inl (missing, λ j t at. strcmp-not_Named g.mapping name t (all j t at))
      | inr (k, t, found, f) ↦ inr (
        k,
        t,
        found,
        record {
          at = f.at;
          named = strcmp-Named g.mapping name t (short.1 k t f.at) short.0 f.accepted;
          before = λ j y lt at. strcmp-not_Named g.mapping name y (f.rejected j y lt at);
        },
      )
    ]
