-- ===== src/Daemon/Buf.antt =====
-- The growing buffer `buf_t` of tools/qwen3-engine-daemon.c, with its capacity in a `size_t`.
use qw.Base.{
  ℕ, zero, suc, ◌+◌, ◌-◌, ◌*◌, ◌%◌, ◌^◌, ◌≤◌, ◌<◌, [], ◌++◌, Option, none, some, ltb, leb, ◌==◌,
  if◌then◌else◌, if_both, length, length-append, ◌≡◌, refl, ap, arith, inl, ◌⊎◌, ltb→lt, ltb→le,
  leb→le,
}
use qw.Tokenizer.Table.{Bytes}

-- `buf_t`: the bytes before `len`, and `cap`.
pub record Buf : Type 0 where
  pub text : Bytes
  pub cap : ℕ

abbrev pub size_max : ℕ
size_max = 18446744073709551615

-- The loop that doubles; `none` is no end within the rounds.
unfoldable pub grow : ℕ → ℕ → ℕ → Option ℕ
grow zero cap need = none
grow (suc rounds) cap need =
    let more = grow rounds (cap * 2) need in
    if ltb cap need then (if ltb 9223372036854775807 cap then some need else more) else some cap

abbrev pub with_cap : Buf → Option ℕ → Option Buf
with_cap b none = none
with_cap b (some cap) = some (record b { cap = cap })

-- The first capacity that is tried; the product wraps.
abbrev pub first_cap : ℕ → ℕ
first_cap cap = if cap == 0 then 256 else cap * 2 % 2 ^ 64

-- `none` is `exit(1)`; `realloc` succeeds. From 1 on, 65 rounds double beyond every `size_t`.
unfoldable pub buf_reserve : Buf → ℕ → Option Buf
unfolding grow
buf_reserve b add =
    if ltb (size_max - length b.text - 1) add
    then none
    else if leb (length b.text + add + 1) b.cap
    then some b
    else with_cap b (grow 65 (first_cap b.cap) (length b.text + add + 1))

abbrev pub appended_to : Bytes → Option Buf → Option Buf
appended_to p none = none
appended_to p (some b) = some (record b { text = b.text ++ p })

unfoldable pub buf_append : Buf → Bytes → Option Buf
unfolding buf_reserve
buf_append b p = appended_to p (buf_reserve b (length p))

-- `buf_take`, which leaves the buffer empty.
abbrev pub buf_take : Buf → Bytes × Buf
buf_take b = (b.text, record { text = []; cap = 0 })

-- The bytes and the NUL behind them fit, unless nothing was reserved yet.
abbrev pub IsBuf : Buf → Type 0
IsBuf b = (length b.text < b.cap) ⊎ ((length b.text ≡ 0) × (b.cap ≡ 0))

-- What doubling comes to.
doubled : ℕ → ℕ → ℕ
doubled zero cap = cap
doubled (suc rounds) cap = doubled rounds (cap * 2)

doubled-le : (rounds a b : ℕ) → a ≤ b → doubled rounds a ≤ doubled rounds b
unfolding doubled
doubled-le zero a b h = h
doubled-le (suc rounds) a b h = doubled-le rounds (a * 2) (b * 2) (omega arith)

-- The capacity that the loop finds is enough.
abbrev Enough : ℕ → Option ℕ → Type 0
Enough need none = ⊥
Enough need (some cap) = need ≤ cap

grow-Enough :
    (rounds cap need : ℕ)
    → need ≤ size_max
    → size_max < doubled rounds cap
    → Enough need (grow (suc rounds) cap need)
unfolding grow doubled
grow-Enough zero cap need h big =
    if_both (Enough need) (ltb cap need) _ (some cap)
      (λ e. absurd (omega (arith, ltb→lt cap need e))) (λ e. ltb→le cap need e)
grow-Enough (suc rounds) cap need h big =
    if_both (Enough need) (ltb cap need)
      (if ltb 9223372036854775807 cap then some need else grow (suc rounds) (cap * 2) need)
      (some cap)
      (λ e.
        if_both (Enough need) (ltb 9223372036854775807 cap) (some need)
          (grow (suc rounds) (cap * 2) need) (λ f. omega arith)
          (λ f. grow-Enough rounds (cap * 2) need h big))
      (λ e. ltb→le cap need e)

all_doubled : doubled 64 1 ≡ 18446744073709551616
unfolding doubled
all_doubled = refl

first_cap-pos : (cap : ℕ) → cap < 9223372036854775808 → 1 ≤ first_cap cap
first_cap-pos cap h =
    if_both (λ c. 1 ≤ c) (cap == 0) 256 (cap * 2 % 2 ^ 64) (λ e. omega arith)
      (λ e.
        let pos : 0 < cap = ground arith in
        let same : cap * 2 % 2 ^ 64 ≡ cap * 2 = omega arith in omega arith)

-- The buffer has room for a text of the length.
abbrev Room : Buf → ℕ → Option Buf → Type 0
Room b add none = ⊥
Room b add (some c) = (c.text ≡ b.text) × (length b.text + add + 1 ≤ c.cap)

Room-with_cap :
    (b : Buf) (add : ℕ) (o : Option ℕ)
    → Enough (length b.text + add + 1) o
    → Room b add (with_cap b o)
Room-with_cap b add none h = h
Room-with_cap b add (some cap) h = (refl, h)

buf_reserve-Room :
    (b : Buf) (add : ℕ)
    → b.cap < 9223372036854775808
    → length b.text + add < size_max
    → Room b add (buf_reserve b add)
unfolding buf_reserve
buf_reserve-Room b add small fits =
    if_both (Room b add) (ltb (size_max - length b.text - 1) add) none _
      (λ e. absurd (omega (arith, ltb→lt (size_max - length b.text - 1) add e)))
      (λ e.
        if_both (Room b add) (leb (length b.text + add + 1) b.cap) (some b)
          (with_cap b (grow 65 (first_cap b.cap) (length b.text + add + 1)))
          (λ f. (refl, leb→le (length b.text + add + 1) b.cap f))
          (λ f. Room-with_cap b add (grow 65 (first_cap b.cap) (length b.text + add + 1)) (
            grow-Enough 64 (first_cap b.cap) (length b.text + add + 1) (omega arith) (
              omega (
                arith,
                all_doubled,
                doubled-le 64 1 (first_cap b.cap) (first_cap-pos b.cap small),
              )))))

Room-some :
    (b : Buf) (p : Bytes) (o : Option Buf)
    → Room b (length p) o
    → (c : Buf) × (appended_to p o ≡ some c) × (c.text ≡ b.text ++ p) × IsBuf c
Room-some b p none h = elim h [ ]
Room-some b p (some c) (same, room) = (
  record c { text = c.text ++ p },
  refl,
  ap (λ t. t ++ p) same,
  inl (omega (arith, length-append c.text p, ap length same)),
)

-- A buffer with a capacity below half of the address space takes every text that does not reach its end:
-- the text is appended, and it fits with the NUL behind it.
pub buf_append-IsBuf :
    (b : Buf) (p : Bytes)
    → b.cap < 9223372036854775808
    → length b.text + length p < size_max
    → (c : Buf) × (buf_append b p ≡ some c) × (c.text ≡ b.text ++ p) × IsBuf c
unfolding buf_append
buf_append-IsBuf b p small fits =
    Room-some b p (buf_reserve b (length p)) (buf_reserve-Room b (length p) small fits)
