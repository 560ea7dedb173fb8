-- ===== src/Tokenizer/Table.antt =====
-- The hash table from strings to ints of src/ds3_tokenizer.c: open addressing, linear probing.
-- A string (pointer and length) is the list of its bytes, an `int` is a ℤ.
pub mod Probe
pub mod Write
pub mod Laws
pub mod Build
pub mod Answers
use qw.Base.{
  ℕ, zero, suc, ◌+◌, ◌-◌, ◌*◌, ◌%◌, ◌^◌, bit_and, bit_xor, Bool, true, false, ◌&&◌, List, [], ◌∷◌,
  Option, none, some, ◌>>=◌, ltb, ◌==◌, if◌then◌else◌, get_elem?, set, replicate,
}
use qw.Base.Int.{ℤ, pos, to_int32}

abbrev pub Bytes : Type 0
Bytes = List ℕ

pub record Entry : Type 0 where
  pub key : Bytes
  pub value : ℤ
  pub used : Bool

pub record Table : Type 0 where
  pub cap : ℕ
  pub used : ℕ
  pub entry : List Entry

hash_from : ℕ → Bytes → ℕ
hash_from h [] = h
hash_from h (b ∷ bs) = hash_from (bit_xor h b * 1099511628211 % 2 ^ 64) bs

pub hash_bytes : Bytes → ℕ
unfolding hash_from
hash_bytes bs = hash_from 1469598103934665603 bs

-- `while (p < n) p <<= 1` on uint32_t; `none` means that the fuel ran out.
pub next_pow2_loop : ℕ → ℕ → ℕ → Option ℕ
next_pow2_loop zero n p = none
next_pow2_loop (suc fuel) n p =
    let rest = next_pow2_loop fuel n (p * 2 % 2 ^ 32) in if ltb p n then rest else some p

-- 32 doublings reach every uint32_t up to 2 ^ 31; above it the loop does not end.
pub next_pow2 : ℕ → Option ℕ
unfolding next_pow2_loop
next_pow2 n = next_pow2_loop 33 n 1

-- An entry as `calloc` leaves it.
abbrev pub blank : Entry
blank = record { key = []; value = pos 0; used = false }

-- The slot count that `table_init` asks `next_pow2` for, a uint32_t.
abbrev pub wanted : ℕ → ℕ
wanted expected = (expected * 2 + 16) % 2 ^ 32

unfoldable pub table_init : ℕ → Option Table
unfolding next_pow2
table_init expected = do
  cap ← next_pow2 (wanted expected)
  some (record { cap = cap; used = 0; entry = replicate cap blank })

-- The test on lengths and the `memcmp`.
unfoldable pub same_bytes : Bytes → Bytes → Bool
same_bytes [] [] = true
same_bytes [] (b ∷ bs) = false
same_bytes (a ∷ as') [] = false
same_bytes (a ∷ as') (b ∷ bs) = a == b && same_bytes as' bs

-- Where the probing loop of `table_put` and `table_get` stops: at an entry with the key, or at an
-- unused one. `fault` is an index outside the array, `spin` that the fuel ran out.
pub data Stop : Type 0 where
  hit : ℕ → Entry → Stop
  free : ℕ → Stop
  fault : Stop
  spin : Stop

abbrev pub next_slot : ℕ → ℕ → ℕ
next_slot mask i = bit_and ((i + 1) % 2 ^ 32) mask

-- One round of the loop at index `i`, which holds `o`; `rest` is what the next rounds find.
pub look : Bytes → ℕ → Option Entry → Stop → Stop
look key i none rest = fault
look key i (some e) rest =
    if e.used then (if same_bytes e.key key then hit i e else rest) else free i

pub probe : ℕ → List Entry → ℕ → Bytes → ℕ → Stop
probe zero es mask key i = spin
probe (suc fuel) es mask key i =
    let rest = probe fuel es mask key (next_slot mask i) in look key i (get_elem? es i) rest

abbrev pub home : ℕ → Bytes → ℕ
home mask key = bit_and (hash_bytes key) mask % 2 ^ 32

-- `t->cap - 1`, a uint32_t.
abbrev pub mask_of : ℕ → ℕ
mask_of cap = (cap + 2 ^ 32 - 1) % 2 ^ 32

-- A table of `cap` slots needs `cap` rounds at most.
pub locate : Table → Bytes → Stop
unfolding probe look hash_bytes same_bytes
locate t key = probe t.cap t.entry (mask_of t.cap) key (home (mask_of t.cap) key)

abbrev pub filled : Bytes → ℤ → Entry
filled key value = record { key = key; value = value; used = true }

-- What `table_put` does once the loop has stopped.
pub store : Table → Bytes → ℤ → Stop → Option Table
store t key value (hit i e) = some (record t { entry = set t.entry i (record e { value = value }) })
store t key value (free i) =
    some (record t { entry = set t.entry i (filled key value); used = (t.used + 1) % 2 ^ 32 })
store t key value fault = none
store t key value spin = none

-- `none`: the loop does not end, or leaves the array.
unfoldable pub table_put : Table → Bytes → ℤ → Option Table
unfolding locate store
table_put t key value = store t key value (locate t key)

-- The answer of `table_get`: `found v` writes `*value` and returns true.
pub data Answer : Type 0 where
  found : ℤ → Answer
  absent : Answer
  stuck : Answer

abbrev pub answer : Stop → Answer
answer (hit i e) = found e.value
answer (free i) = absent
answer fault = stuck
answer spin = stuck

unfoldable pub table_get : Table → Bytes → Answer
unfolding locate
table_get t key = if t.cap == 0 then absent else answer (locate t key)

-- The loops of `ds3_vocab_load`: string number `i` is put with the value `(int)i`.
unfoldable pub put_all : Table → List Bytes → ℕ → Option Table
unfolding table_put
put_all t [] i = some t
put_all t (key ∷ keys) i = do u ← table_put t key (to_int32 i); put_all u keys (i + 1)

-- `table_get` as a lookup: `none` where the call does not return, else the value, if there is one.
abbrev pub to_lookup : Answer → Option (Option ℤ)
to_lookup (found v) = some (some v)
to_lookup absent = some none
to_lookup stuck = none

abbrev pub table_find : Table → Bytes → Option (Option ℤ)
table_find t key = to_lookup (table_get t key)
