-- ===== src/KvCache/Hash.antt =====
-- `xxh64` and `service_token_hash` of src/ds3_kv_cache.c, on a little-endian machine. The data is a list
-- of bytes; a loop over it takes bytes off the front.
pub mod Bytes
use qw.Base.{
  ℕ, zero, suc, ◌+◌, ◌-◌, ◌*◌, ◌/◌, ◌%◌, ◌^◌, bit_or, bit_xor, bit_and, Bool, ◌||◌, List, [], ◌∷◌,
  ◌++◌, Option, none, some, ltb, leb, if◌then◌else◌, length, take, drop,
}
use qw.Base.Int.{ℤ, pos, negsuc}

abbrev prime1 : ℕ
prime1 = 11400714785074694791

abbrev prime2 : ℕ
prime2 = 14029467366897019727

abbrev prime3 : ℕ
prime3 = 1609587929392839161

abbrev prime4 : ℕ
prime4 = 9650029242287828579

abbrev prime5 : ℕ
prime5 = 2870177450012600261

abbrev word : ℕ → ℕ
word x = x % 2 ^ 64

-- The rotation counts are between 1 and 63.
unfoldable pub xxh64_rotl : ℕ → ℕ → ℕ
xxh64_rotl x r = bit_or (word (x * 2 ^ r)) (x / 2 ^ (64 - r))

unfoldable pub xxh64_round : ℕ → ℕ → ℕ
xxh64_round acc input = word (xxh64_rotl (word (acc + word (input * prime2))) 31 * prime1)

unfoldable pub xxh64_merge_round : ℕ → ℕ → ℕ
xxh64_merge_round acc val = word (word (bit_xor acc (xxh64_round 0 val) * prime1) + prime4)

-- The number that the bytes stand for, the first byte the lowest: `*(const uint64_t *)p` on 8 bytes.
unfoldable pub little_endian : List ℕ → ℕ
little_endian [] = 0
little_endian (b ∷ bs) = b + 256 * little_endian bs

-- The word of 8 bytes at offset `i`.
abbrev pub u64_at : ℕ → List ℕ → ℕ
u64_at i bs = little_endian (take 8 (drop i bs))

pub record Lanes : Type 0 where
  pub v1 : ℕ
  pub v2 : ℕ
  pub v3 : ℕ
  pub v4 : ℕ

-- `do … while (p <= limit)`: a round for each 32 bytes. The fuel is the number of bytes.
unfoldable pub stripes : ℕ → List ℕ → Lanes → Lanes × List ℕ
stripes zero bs v = (v, bs)
stripes (suc fuel) bs v =
    let next : Lanes = record {
      v1 = xxh64_round v.v1 (u64_at 0 bs);
      v2 = xxh64_round v.v2 (u64_at 8 bs);
      v3 = xxh64_round v.v3 (u64_at 16 bs);
      v4 = xxh64_round v.v4 (u64_at 24 bs);
    } in
    let rest = stripes fuel (drop 32 bs) next in if ltb (length bs) 32 then (v, bs) else rest

unfoldable pub merge_lanes : Lanes → ℕ
merge_lanes v =
    let h =
      word (xxh64_rotl v.v1 1 + xxh64_rotl v.v2 7 + xxh64_rotl v.v3 12 + xxh64_rotl v.v4 18) in
    xxh64_merge_round (xxh64_merge_round (xxh64_merge_round (xxh64_merge_round h v.v1) v.v2) v.v3)
      v.v4

-- `while (p + 8 <= bEnd)`.
unfoldable pub eights : ℕ → List ℕ → ℕ → ℕ × List ℕ
eights zero bs h = (h, bs)
eights (suc fuel) bs h =
    let mixed = bit_xor h (xxh64_round 0 (u64_at 0 bs)) in
    let rest = eights fuel (drop 8 bs) (word (word (xxh64_rotl mixed 27 * prime1) + prime4)) in
    if ltb (length bs) 8 then (h, bs) else rest

-- `if (p + 4 <= bEnd)`.
unfoldable pub four : List ℕ → ℕ → ℕ × List ℕ
four bs h =
    let mixed = bit_xor h (word (little_endian (take 4 bs) * prime1)) in
    if ltb (length bs) 4
    then (h, bs)
    else (word (word (xxh64_rotl mixed 23 * prime2) + prime3), drop 4 bs)

-- `while (p < bEnd)`.
unfoldable pub ones : List ℕ → ℕ → ℕ
ones [] h = h
ones (b ∷ bs) h = ones bs (word (xxh64_rotl (bit_xor h (word (b * prime5))) 11 * prime1))

unfoldable pub avalanche : ℕ → ℕ
avalanche h0 =
    let h1 = word (bit_xor h0 (h0 / 2 ^ 33) * prime2) in
    let h2 = word (bit_xor h1 (h1 / 2 ^ 29) * prime3) in bit_xor h2 (h2 / 2 ^ 32)

-- The four lanes from the seed.
abbrev pub start_lanes : ℕ → Lanes
start_lanes seed = record {
  v1 = word (seed + prime1 + prime2);
  v2 = word (seed + prime2);
  v3 = seed;
  v4 = word (seed + 2 ^ 64 - prime1);
}

-- The hash before the tail, and the bytes of the tail.
unfoldable pub body : List ℕ → ℕ → ℕ × List ℕ
body data_bytes seed =
    let (v, tail) = stripes (length data_bytes) data_bytes (start_lanes seed) in
    if ltb (length data_bytes) 32 then (word (seed + prime5), data_bytes) else (merge_lanes v, tail)

unfoldable pub xxh64 : List ℕ → ℕ → ℕ
xxh64 data_bytes seed =
    let (h, tail) = body data_bytes seed in
    let (h8, tail8) = eights (length tail) tail (word (h + length data_bytes)) in
    let (h4, tail4) = four tail8 h8 in avalanche (ones tail4 h4)

-- `(uint32_t)token`.
unfoldable pub to_uint32 : ℤ → ℕ
to_uint32 (pos n) = n % 2 ^ 32
to_uint32 (negsuc n) = 2 ^ 32 - 1 - n % 2 ^ 32

-- The four bytes of a token, by shifts and masks.
unfoldable pub token_bytes : ℤ → List ℕ
unfolding to_uint32
token_bytes t =
    bit_and (to_uint32 t) 255
    ∷ bit_and (to_uint32 t / 2 ^ 8) 255
    ∷ bit_and (to_uint32 t / 2 ^ 16) 255
    ∷ bit_and (to_uint32 t / 2 ^ 24) 255
    ∷ []

unfoldable pub tokens_bytes : List ℤ → List ℕ
unfolding token_bytes
tokens_bytes [] = []
tokens_bytes (t ∷ ts) = token_bytes t ++ tokens_bytes ts

-- `malloc_ok`: whether the buffer is there, which more than 1024 bytes take from `malloc`.
unfoldable pub service_token_hash : Bool → List ℤ → ℕ
unfolding xxh64 tokens_bytes
service_token_hash malloc_ok tokens =
    if malloc_ok || leb (length tokens * 4) 1024 then xxh64 (tokens_bytes tokens) 0 else 0
