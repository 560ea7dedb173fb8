-- ===== src/Tokenizer/Table/Probe.antt =====
-- The probing loop on an array whose length is a power of two.
use qw.Base.{
  ℕ, zero, suc, ◌+◌, ◌-◌, ◌%◌, ◌^◌, ◌≤◌, ◌<◌, true, false, List, [], ◌∷◌, Option, none, some, ◌≡◌,
  ◌≢◌, refl, ap, ◌∙◌, sym, inl, inr, arith, get_elem?, length, get_elem?-lt, Bool-cases,
}
use native.Mathlib.Nat.{mod-eq_of_lt, mod-lt, mod-add-mod, add-zero}
use native.Mathlib.Decide.{dec_lt}
use qw.Base.Bits.{and_mask}
use qw.Tokenizer.Table.{
  Bytes, Entry, Stop, hit, free, fault, spin, next_slot, look, probe, same_bytes, mask_of,
}

pub same_bytes-eq : (a b : Bytes) → same_bytes a b ≡ true → a ≡ b
unfolding same_bytes
same_bytes-eq [] [] h = refl
same_bytes-eq [] (y ∷ b) h = cc
same_bytes-eq (x ∷ a) [] h = cc
same_bytes-eq (x ∷ a) (y ∷ b) h = ground (arith, same_bytes-eq a b)

pub same_bytes_refl : (a : Bytes) → same_bytes a a ≡ true
unfolding same_bytes
same_bytes_refl [] = refl
same_bytes_refl (x ∷ a) = ground (arith, same_bytes_refl a)

pub same_bytes_ne : (a b : Bytes) → a ≢ b → same_bytes a b ≡ false
same_bytes_ne a b h = elim (Bool-cases (same_bytes a b)) [
  | inl e ↦ absurd (h (same_bytes-eq a b e))
  | inr e ↦ e
]

-- `(i + 1) & mask` goes round the array.
pub next_slot-mod :
    (k i : ℕ) → 2 ^ k ≤ 2 ^ 31 → i < 2 ^ k → next_slot (mask_of (2 ^ k)) i ≡ (i + 1) % 2 ^ k
next_slot-mod k i small h =
    let e : mask_of (2 ^ k) ≡ 2 ^ k - 1 = omega arith in
    let w : (i + 1) % 2 ^ 32 ≡ i + 1 = omega arith in rw (e, w) (and_mask k (i + 1))

-- What one round of the loop does, by what the index holds.
pub data Round (key : Bytes) (i : ℕ) (o : Option Entry) (rest : Stop) : Type 0 where
  outside : o ≡ none → look key i o rest ≡ fault → Round key i o rest
  ends : (e : Entry) → o ≡ some e → e.used ≡ false → look key i o rest ≡ free i → Round key i o rest
  meets :
      (e : Entry)
      → o ≡ some e
      → e.used ≡ true
      → e.key ≡ key
      → look key i o rest ≡ hit i e
      → Round key i o rest
  goes_on :
      (e : Entry)
      → o ≡ some e
      → e.used ≡ true
      → e.key ≢ key
      → look key i o rest ≡ rest
      → Round key i o rest

pub look-Round : (key : Bytes) (i : ℕ) (o : Option Entry) (rest : Stop) → Round key i o rest
unfolding look
look-Round key i none rest = outside refl refl
look-Round key i (some e) rest = elim (Bool-cases e.used) [
  | inr u ↦ ends e refl u (rw u)
  | inl u ↦ elim (Bool-cases (same_bytes e.key key)) [
    | inl s ↦ meets e refl u (same_bytes-eq e.key key s) (rw (u, s))
    | inr s ↦
        let ne : e.key ≢ key = λ same. cc (s, same_bytes_refl e.key, ap (same_bytes e.key) same) in
        goes_on e refl u ne (rw (u, s))
  ]
]

-- The distance from one index forward to another, round the array.
distance : (c i q : ℕ) → i < c → q < c → (d : ℕ) × (d < c) × ((i + d) % c ≡ q)
distance c i q hi hq = elim (dec_lt q i) [
  | no h ↦ let e : i + (q - i) ≡ q = omega arith in (q - i, omega arith, rw e (mod-eq_of_lt hq))
  | yes h ↦
      let e : i + (q + c - i) ≡ q + c = omega arith in (q + c - i, omega arith, rw e (grind arith))
]

module _ (m c : ℕ) (round : (i : ℕ) → i < c → next_slot m i ≡ (i + 1) % c) where
  next-lt : (i : ℕ) → i < c → next_slot m i < c
  next-lt i h = rw (round i h) (mod-lt (i + 1) (omega arith))

  module _ (es : List Entry) (slots : length es ≡ c) where
    -- From an index in range the loop stays in the array.
    pub probe-ne-fault : (f : ℕ) (key : Bytes) (i : ℕ) → i < c → probe f es m key i ≢ fault
    unfolding probe look
    probe-ne-fault zero key i h = λ e. cc
    probe-ne-fault (suc f) key i h =
        let (e, at) = get_elem?-lt es i (omega arith) in
        rw at (ground (arith, probe-ne-fault f key (next_slot m i) (next-lt i h)))

    -- The loop ends if an unused entry is fewer steps ahead than the fuel.
    probe-ne-spin_at :
        (f d : ℕ) (key : Bytes) (i : ℕ) (e : Entry)
        → i < c
        → d < f
        → get_elem? es ((i + d) % c) ≡ some e
        → e.used ≡ false
        → probe f es m key i ≢ spin
    unfolding probe look
    probe-ne-spin_at zero d key i e hi hd at u = absurd (omega arith)
    probe-ne-spin_at (suc f) zero key i e hi hd at u =
        let z : (i + 0) % c ≡ i = rw add-zero (mod-eq_of_lt (omega arith)) in ground (arith, z)
    probe-ne-spin_at (suc f) (suc d) key i e hi hd at u =
        let (x, here) = get_elem?-lt es i (omega arith) in
        let z : (next_slot m i + d) % c ≡ (i + suc d) % c =
          rw (round i hi, mod-add-mod) (ap (λ t. t % c) (omega arith)) in
        let rest : probe f es m key (next_slot m i) ≢ spin =
          probe-ne-spin_at f d key (next_slot m i) e (next-lt i hi) (omega arith) (rw z at) u in
        rw here (ground (arith, rest))

    pub probe-ne-spin :
        (key : Bytes) (i q : ℕ) (e : Entry)
        → i < c
        → get_elem? es q ≡ some e
        → e.used ≡ false
        → q < c
        → probe c es m key i ≢ spin
    probe-ne-spin key i q e hi at u hq =
        let (d, near, z) = distance c i q hi hq in probe-ne-spin_at c d key i e hi near (rw z at) u

-- A hit is at a used entry with the key, a miss at an unused entry.
module _ (m : ℕ) (es : List Entry) (key : Bytes) where
  pub probe-hit :
      (f i : ℕ) {q : ℕ} {e : Entry}
      → probe f es m key i ≡ hit q e
      → (get_elem? es q ≡ some e) × (e.used ≡ true) × (e.key ≡ key)
  unfolding probe
  probe-hit zero i h = cc
  probe-hit (suc f) i h =
      elim (look-Round key i (get_elem? es i) (probe f es m key (next_slot m i))) [
        | outside o l ↦ cc
        | ends x o u l ↦ cc
        | meets x o u s l ↦ ground arith
        | goes_on x o u s l ↦ probe-hit f (next_slot m i) (sym l ∙ h)
      ]

  pub probe-free :
      (f i : ℕ) {q : ℕ}
      → probe f es m key i ≡ free q
      → (e : Entry) × (get_elem? es q ≡ some e) × (e.used ≡ false)
  unfolding probe
  probe-free zero i h = cc
  probe-free (suc f) i {q} h =
      elim (look-Round key i (get_elem? es i) (probe f es m key (next_slot m i))) [
        | outside o l ↦ cc
        | ends x o u l ↦ (x, (let e : q ≡ i = cc in rw e o), u)
        | meets x o u s l ↦ cc
        | goes_on x o u s l ↦ probe-free f (next_slot m i) (sym l ∙ h)
      ]
