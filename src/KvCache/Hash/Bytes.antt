-- ===== src/KvCache/Hash/Bytes.antt =====
-- The bytes that `service_token_hash` hashes are the tokens' own, in memory order.
use qw.Base.{
  ℕ, zero, suc, ◌/◌, ◌%◌, ◌^◌, ◌≤◌, ◌<◌, bit_and, List, [], ◌∷◌, map, length, ltb, drop,
  length-drop, ◌≡◌, refl, ap, ◌∙◌, arith, Bool-cases, ltb→lt, ltb→le, inl, inr,
}
use qw.Base.Bits.{and_mask}
use qw.Base.Int.{ℤ, pos, negsuc}
use qw.KvCache.Hash.{little_endian, to_uint32, token_bytes, tokens_bytes, Lanes, stripes}

to_uint32-lt : (t : ℤ) → to_uint32 t < 2 ^ 32
unfolding to_uint32
to_uint32-lt (pos n) = omega arith
to_uint32-lt (negsuc n) = omega arith

-- The numbers that the bytes stand for, four at a time.
pub words : List ℕ → List ℕ
words (a ∷ b ∷ c ∷ d ∷ r) = little_endian (a ∷ b ∷ c ∷ d ∷ []) ∷ words r
words (a ∷ b ∷ c ∷ []) = []
words (a ∷ b ∷ []) = []
words (a ∷ []) = []
words [] = []

four_bytes :
    (x : ℕ)
    → x < 2 ^ 32
    → little_endian (
        bit_and x 255
        ∷ bit_and (x / 2 ^ 8) 255
        ∷ bit_and (x / 2 ^ 16) 255
        ∷ bit_and (x / 2 ^ 24) 255
        ∷ [])
      ≡ x
unfolding little_endian
four_bytes x h =
    let m0 : bit_and x 255 ≡ x % 2 ^ 8 = and_mask 8 x in
    let m1 : bit_and (x / 2 ^ 8) 255 ≡ x / 2 ^ 8 % 2 ^ 8 = and_mask 8 (x / 2 ^ 8) in
    let m2 : bit_and (x / 2 ^ 16) 255 ≡ x / 2 ^ 16 % 2 ^ 8 = and_mask 8 (x / 2 ^ 16) in
    let m3 : bit_and (x / 2 ^ 24) 255 ≡ x / 2 ^ 24 % 2 ^ 8 = and_mask 8 (x / 2 ^ 24) in
    rw (m0, m1, m2, m3) (omega arith)

-- The bytes that are hashed, read four at a time as little-endian numbers, are the tokens as uint32_t:
-- what `service_lookup` hashes in memory on a little-endian machine.
pub words-tokens_bytes : (ts : List ℤ) → words (tokens_bytes ts) ≡ map to_uint32 ts
unfolding tokens_bytes words token_bytes
words-tokens_bytes [] = refl
words-tokens_bytes (t ∷ ts) =
    ap (λ w. w ∷ words (tokens_bytes ts)) (four_bytes (to_uint32 t) (to_uint32-lt t))
    ∙ ap (λ l. to_uint32 t ∷ l) (words-tokens_bytes ts)

stripes_loop :
    (fuel : ℕ) (bs : List ℕ) (v : Lanes)
    → length bs ≤ fuel
    → length (stripes fuel bs v).1 ≡ length bs % 32
unfolding stripes
stripes_loop zero bs v h = omega arith
stripes_loop (suc fuel) bs v h = elim (Bool-cases (ltb (length bs) 32)) [
  | inl done ↦ let lt = ltb→lt (length bs) 32 done in rw done (omega arith)
  | inr more ↦
      let ge = ltb→le (length bs) 32 more in
      let size = length-drop 32 bs in
      rw more (stripes_loop fuel (drop 32 bs) _ (omega arith) ∙ omega arith)
]

-- The loop over 32 bytes at a time takes all that it can: its fuel does not run out, and as many bytes
-- are left as the length leaves modulo 32.
pub stripes-tail : (bs : List ℕ) (v : Lanes) → length (stripes (length bs) bs v).1 ≡ length bs % 32
stripes-tail bs v = stripes_loop (length bs) bs v (omega arith)
