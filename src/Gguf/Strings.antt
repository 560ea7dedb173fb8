-- ===== src/Gguf/Strings.antt =====
-- The reads of src/ds3_gguf.c that are tested against the end of the file: which they accept.
use qw.Base.{
  ℕ, ◌+◌, ◌-◌, ◌^◌, ◌≤◌, ◌<◌, true, false, Option, some, ltb, ltb→lt, ltb→le, lt→ltb, le→ltb, ◌==◌,
  length, ◌≡◌, refl, ap, ◌∙◌, arith, ◌⊎◌, inl, inr, Bool-cases,
}
use native.Mathlib.Nat.{mod-eq_of_lt}
use qw.Gguf.Cursor.{
  Mapping, ptr, end_of, ds3_le32, ds3_le64, got, null, ◌>>=◌, checked, read_u32_safe, read_u64_safe,
  str_at, read_str_safe,
}
use qw.Gguf.Bounds.{IsMapping, number_at, number_at-lt, ds3_le32-number, ds3_le64-number}

module _ {m : Mapping} (ok : IsMapping m) where
  end_is : end_of m ≡ m.base + length m.file
  end_is = let r = ok.room in mod-eq_of_lt (omega arith)

  -- The test of a read whose sum does not wrap.
  checked_in :
      {A : Type 0} (n off : ℕ) (x : A)
      → off + n ≤ length m.file
      → checked m n (m.base + off) (some x) ≡ got x (m.base + (off + n))
  checked_in n off x h =
      let r = ok.room in
      let b = ok.start in
      let p : ptr (m.base + off + n) ≡ m.base + (off + n) =
        mod-eq_of_lt (omega arith) ∙ omega arith in
      let e = end_is in
      let inside : ltb (end_of m) (ptr (m.base + off + n)) ≡ false = le→ltb _ _ (omega arith) in
      let there : (m.base + off == 0) ≡ false = ground arith in rw (there, inside, p) refl

  checked_out :
      {A : Type 0} (n off : ℕ) (v : Option A)
      → off ≤ length m.file
      → length m.file < off + n
      → m.base + off + n < 2 ^ 64
      → checked m n (m.base + off) v ≡ null
  checked_out n off v here h small =
      let b = ok.start in
      let p : ptr (m.base + off + n) ≡ m.base + off + n = mod-eq_of_lt small in
      let e = end_is in
      let outside : ltb (end_of m) (ptr (m.base + off + n)) ≡ true = lt→ltb _ _ (omega arith) in
      let there : (m.base + off == 0) ≡ false = ground arith in rw (there, outside) refl

  -- Inside a mapped file, `read_u32_safe` gives the little-endian number of the next four bytes and
  -- moves behind them, or, where four bytes are not left, returns NULL. It reads nothing else.
  pub read_u32_safe_lem :
      (off : ℕ)
      → off ≤ length m.file
      → ((off + 4 ≤ length m.file)
          × (read_u32_safe m (m.base + off) ≡ got (number_at m.file off 4) (m.base + (off + 4))))
        ⊎ ((length m.file < off + 4) × (read_u32_safe m (m.base + off) ≡ null))
  unfolding read_u32_safe
  read_u32_safe_lem off h = elim (Bool-cases (ltb (length m.file) (off + 4))) [
    | inl short ↦
        let lt = ltb→lt (length m.file) (off + 4) short in
        let r = ok.room in
        inr (lt, checked_out 4 off (ds3_le32 m (m.base + off)) h lt (omega arith))
    | inr enough ↦
        let le = ltb→le (length m.file) (off + 4) enough in
        inl
          (le, ap (checked m 4 (m.base + off)) (ds3_le32-number ok off le) ∙ checked_in 4 off _ le)
  ]

  -- Inside a mapped file, `read_u64_safe` gives the little-endian number of the next eight bytes and
  -- moves behind them, or, where eight bytes are not left, returns NULL. It reads nothing else.
  pub read_u64_safe_lem :
      (off : ℕ)
      → off ≤ length m.file
      → ((off + 8 ≤ length m.file)
          × (read_u64_safe m (m.base + off) ≡ got (number_at m.file off 8) (m.base + (off + 8))))
        ⊎ ((length m.file < off + 8) × (read_u64_safe m (m.base + off) ≡ null))
  unfolding read_u64_safe
  read_u64_safe_lem off h = elim (Bool-cases (ltb (length m.file) (off + 8))) [
    | inl short ↦
        let lt = ltb→lt (length m.file) (off + 8) short in
        let r = ok.room in
        inr (lt, checked_out 8 off (ds3_le64 m (m.base + off)) h lt (omega arith))
    | inr enough ↦
        let le = ltb→le (length m.file) (off + 8) enough in
        inl
          (le, ap (checked m 8 (m.base + off)) (ds3_le64-number ok off le) ∙ checked_in 8 off _ le)
  ]

  string_run :
      (off : ℕ)
      → off + 8 ≤ length m.file
      → read_u64_safe m (m.base + off) ≡ got (number_at m.file off 8) (m.base + (off + 8))
      → read_str_safe m (m.base + off)
        ≡ checked m
            (number_at m.file off 8)
            (m.base + (off + 8))
            (some (str_at (number_at m.file off 8) (m.base + (off + 8))))
  unfolding read_str_safe
  string_run off h e = rw (e, ◌>>=◌) refl

  -- Where eight bytes are left, `read_str_safe` takes their number for the length of the string. If the
  -- sum of the pointer and the length does not wrap, it accepts the string exactly when it ends inside
  -- the file, and otherwise returns NULL.
  pub read_str_safe_lem :
      (off : ℕ)
      → off + 8 ≤ length m.file
      → m.base + (off + 8) + number_at m.file off 8 < 2 ^ 64
      → ((off + 8 + number_at m.file off 8 ≤ length m.file)
          × (read_str_safe m (m.base + off)
              ≡ got
                  (str_at (number_at m.file off 8) (m.base + (off + 8)))
                  (m.base + (off + 8 + number_at m.file off 8))))
        ⊎ ((length m.file < off + 8 + number_at m.file off 8)
            × (read_str_safe m (m.base + off) ≡ null))
  read_str_safe_lem off h small =
      let n = number_at m.file off 8 in
      elim (read_u64_safe_lem off (omega arith)) [
        | inr (short, e) ↦ absurd (omega arith)
        | inl (le, e) ↦ elim (Bool-cases (ltb (length m.file) (off + 8 + number_at m.file off 8))) [
          | inl out ↦
              let lt = ltb→lt _ _ out in
              inr (
                lt,
                string_run off h e
                    ∙ checked_out (number_at m.file off 8) (off + 8)
                        (some (str_at (number_at m.file off 8) (m.base + (off + 8)))) h lt small,
              )
          | inr within ↦
              let le' = ltb→le _ _ within in
              inl (
                le',
                string_run off h e
                    ∙ checked_in (number_at m.file off 8) (off + 8)
                        (str_at (number_at m.file off 8) (m.base + (off + 8))) le',
              )
        ]
      ]

  -- Where eight bytes are left, but the sum of the pointer and the length wraps, which a length near 2 ^ 64 in the file makes it
  -- do, `read_str_safe` accepts the string although it ends outside the file, and the pointer
  -- that is returned lies before the string.
  pub read_str_safe-wraps :
      (off : ℕ)
      → off + 8 ≤ length m.file
      → 2 ^ 64 ≤ m.base + (off + 8) + number_at m.file off 8
      → (next : ℕ) × (read_str_safe m (m.base + off)
          ≡ got (str_at (number_at m.file off 8) (m.base + (off + 8))) next)
        × (next < m.base + (off + 8))
        × (length m.file < off + 8 + number_at m.file off 8)
  read_str_safe-wraps off h big =
      let r = ok.room in
      let b = ok.start in
      let top : number_at m.file off 8 < 2 ^ 64 = number_at-lt ok off 8 h in
      let e' = end_is in
      let back : ptr (m.base + (off + 8) + number_at m.file off 8)
          ≡ m.base + (off + 8) + number_at m.file off 8 - 2 ^ 64 =
        omega arith in
      let inside : ltb (end_of m) (ptr (m.base + (off + 8) + number_at m.file off 8)) ≡ false =
        le→ltb _ _ (omega arith) in
      let there : (m.base + (off + 8) == 0) ≡ false = ground arith in
      elim (read_u64_safe_lem off (omega arith)) [
        | inr (short, e) ↦ absurd (omega arith)
        | inl (le, e) ↦ (
          m.base + (off + 8) + number_at m.file off 8 - 2 ^ 64,
          string_run off h e ∙ rw (there, inside, back) refl,
          omega arith,
          omega arith,
        )
      ]
