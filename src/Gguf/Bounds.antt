-- ===== src/Gguf/Bounds.antt =====
-- The reads of src/ds3_gguf.c against the bytes of the file: which bytes a number is made of, and which
-- reads are refused.
use qw.Base.{
  ℕ, zero, suc, ◌+◌, ◌*◌, ◌^◌, ◌≤◌, ◌<◌, bit_or, [], ◌∷◌, ◌++◌, Option, some, le→ltb, length,
  length-take, length-drop, min, get_elem?, take, drop, drop-drop, take-take-drop, All, ◌≡◌, refl,
  ap, ◌∙◌, sym, arith,
}
use native.Mathlib.Nat.{mod-eq_of_lt, mul_comm, mul_assoc, pow-suc}
use qw.Base.Bits.{or_shifted}
use qw.Tokenizer.Table.{Bytes}
use qw.KvCache.Hash.{little_endian}
use qw.Gguf.Cursor.{Mapping, ptr, load, join_bytes, ds3_le16, ds3_le32, ds3_le64}

-- A file that is mapped: its bytes are bytes, and its addresses do not reach the end of the memory.
pub record IsMapping (m : Mapping) : Type 0 where
  pub start : 0 < m.base
  pub room : m.base + length m.file + 8 < 2 ^ 64
  pub octets : All (λ b. b < 256) m.file

-- The number in the `n` bytes at offset `off`.
abbrev pub number_at : Bytes → ℕ → ℕ → ℕ
number_at file off n = little_endian (take n (drop off file))

two_bytes :
    (file : Bytes) (off : ℕ)
    → All (λ b. b < 256) file
    → off + 2 ≤ length file
    → (a : ℕ) × (b : ℕ) × (get_elem? file off ≡ some a)
      × (get_elem? file (off + 1) ≡ some b)
      × (take 2 (drop off file) ≡ a ∷ b ∷ [])
      × (a < 256)
      × (b < 256)
two_bytes [] off ok h = absurd (omega arith)
two_bytes (x ∷ []) zero ok h = absurd (omega arith)
two_bytes (x ∷ y ∷ r) zero ok h = (x, y, refl, refl, refl, ok.0, ok.1.0)
two_bytes (x ∷ xs) (suc off) ok h =
    let (a, b, ga, gb, t, la, lb) = two_bytes xs off ok.1 (omega arith) in
    let e : suc off + 1 ≡ suc (off + 1) = omega arith in
    (a, b, ga, ap (get_elem? (x ∷ xs)) e ∙ gb, t, la, lb)

little_endian-append :
    (xs ys : Bytes)
    → little_endian (xs ++ ys) ≡ little_endian xs + 256 ^ length xs * little_endian ys
unfolding little_endian
little_endian-append [] ys = omega arith
little_endian-append (x ∷ xs) ys =
    let ih = little_endian-append xs ys in
    let p : 256 ^ suc (length xs) ≡ 256 * 256 ^ length xs =
      pow-suc 256 (length xs) ∙ mul_comm (256 ^ length xs) 256 in
    let assoc : 256 * 256 ^ length xs * little_endian ys
        ≡ 256 * (256 ^ length xs * little_endian ys) =
      mul_assoc 256 (256 ^ length xs) (little_endian ys) in
    rw (ih, p) (omega (arith, assoc))

-- The number in twice as many bytes.
number_at-twice :
    (file : Bytes) (off n : ℕ)
    → off + n ≤ length file
    → number_at file off (n + n) ≡ number_at file off n + 256 ^ n * number_at file (off + n) n
number_at-twice file off n h =
    let size : length (take n (drop off file)) ≡ n =
      length-take n (drop off file) ∙ ap (min n) (length-drop off file) ∙ omega arith in
    ap little_endian (sym (take-take-drop n n (drop off file)))
    ∙ little_endian-append (take n (drop off file)) (take n (drop n (drop off file)))
    ∙ ap (λ k. number_at file off n + 256 ^ k * little_endian (take n (drop n (drop off file))))
        size
    ∙ ap (λ l. number_at file off n + 256 ^ n * little_endian (take n l)) (drop-drop n off file)

little_endian-lt : (xs : Bytes) → All (λ b. b < 256) xs → little_endian xs < 256 ^ length xs
unfolding little_endian
little_endian-lt [] ok = omega arith
little_endian-lt (x ∷ xs) ok =
    let ih = little_endian-lt xs ok.1 in
    let b : x < 256 = ok.0 in rw (pow-suc 256 (length xs)) (omega arith)

All-drop : (i : ℕ) (xs : Bytes) → All (λ b. b < 256) xs → All (λ b. b < 256) (drop i xs)
All-drop zero xs h = h
All-drop (suc i) [] h = tt
All-drop (suc i) (x ∷ xs) h = All-drop i xs h.1

All-take : (i : ℕ) (xs : Bytes) → All (λ b. b < 256) xs → All (λ b. b < 256) (take i xs)
All-take zero xs h = tt
All-take (suc i) [] h = tt
All-take (suc i) (x ∷ xs) h = (h.0, All-take i xs h.1)

module _ {m : Mapping} (ok : IsMapping m) where
  load-file : (off : ℕ) → load m (m.base + off) ≡ get_elem? m.file off
  load-file off =
      let in_front = le→ltb (m.base + off) m.base (omega arith) in
      rw in_front (ap (get_elem? m.file) (omega arith))

  pub number_at-lt : (off n : ℕ) → off + n ≤ length m.file → number_at m.file off n < 256 ^ n
  number_at-lt off n h =
      let size : length (take n (drop off m.file)) ≡ n =
        length-take n (drop off m.file) ∙ ap (min n) (length-drop off m.file) ∙ omega arith in
      rw size at
        (little_endian-lt (take n (drop off m.file)) (All-take n _ (All-drop off m.file ok.octets)))

  address : (off k : ℕ) → off + k ≤ length m.file → ptr (m.base + off + k) ≡ m.base + (off + k)
  address off k h = let r = ok.room in mod-eq_of_lt (omega arith) ∙ omega arith

  ds3_le16-number :
      (off : ℕ)
      → off + 2 ≤ length m.file
      → ds3_le16 m (m.base + off) ≡ some (number_at m.file off 2)
  unfolding ds3_le16 little_endian
  ds3_le16-number off h =
      let (a, b, ga, gb, t, la, lb) = two_bytes m.file off ok.octets h in
      let ea : load m (m.base + off) ≡ some a = load-file off ∙ ga in
      let eb : load m (ptr (m.base + off + 1)) ≡ some b =
        ap (load m) (address off 1 (omega arith)) ∙ load-file (off + 1) ∙ gb in
      let joined : bit_or a (b * 2 ^ 8) ≡ little_endian (take 2 (drop off m.file)) =
        or_shifted 8 a b la ∙ sym (ap little_endian t ∙ omega arith) in
      ap (λ o. join_bytes 8 o (load m (ptr (m.base + off + 1)))) ea
      ∙ ap (join_bytes 8 (some a)) eb
      ∙ ap some joined

  -- The second half of a number stands above the first.
  join-twice :
      (off n w : ℕ) {lo hi : Option ℕ}
      → 256 ^ n ≡ 2 ^ w
      → off + (n + n) ≤ length m.file
      → lo ≡ some (number_at m.file off n)
      → hi ≡ some (number_at m.file (off + n) n)
      → join_bytes w lo hi ≡ some (number_at m.file off (n + n))
  join-twice off n w {lo} {hi} scale h el eh =
      let small : number_at m.file off n < 2 ^ w = rw scale at (number_at-lt off n (omega arith)) in
      let twice = number_at-twice m.file off n (omega arith) in
      ap (λ o. join_bytes w o hi) el
      ∙ ap (join_bytes w (some (number_at m.file off n))) eh
      ∙ ap some (
          or_shifted w (number_at m.file off n) (number_at m.file (off + n) n) small
          ∙ ap (λ k. number_at m.file off n + k)
              (mul_comm (number_at m.file (off + n) n) (2 ^ w)
                ∙ ap (λ k. k * number_at m.file (off + n) n) (sym scale))
          ∙ sym twice)

  pub ds3_le32-number :
      (off : ℕ)
      → off + 4 ≤ length m.file
      → ds3_le32 m (m.base + off) ≡ some (number_at m.file off 4)
  unfolding ds3_le32
  ds3_le32-number off h =
      join-twice off 2 16 refl h (ds3_le16-number off (omega arith))
        (ap (ds3_le16 m) (address off 2 (omega arith)) ∙ ds3_le16-number (off + 2) (omega arith))

  pub ds3_le64-number :
      (off : ℕ)
      → off + 8 ≤ length m.file
      → ds3_le64 m (m.base + off) ≡ some (number_at m.file off 8)
  unfolding ds3_le64
  ds3_le64-number off h =
      join-twice off 4 32 refl h (ds3_le32-number off (omega arith))
        (ap (ds3_le32 m) (address off 4 (omega arith)) ∙ ds3_le32-number (off + 4) (omega arith))
