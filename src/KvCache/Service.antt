-- ===== src/KvCache/Service.antt =====
-- Of the service provider in src/ds3_kv_cache.c: the session cache, and the spans of tokens that
-- `service_write` cuts a prompt into. The calls of the service are not modelled.
pub mod Blocks
use qw.Base.{
  ℕ, zero, suc, ◌+◌, ◌-◌, ◌*◌, ◌/◌, ◌%◌, ◌^◌, Bool, true, false, ◌&&◌, not, List, [], ◌∷◌, Option,
  none, some, ltb, if◌then◌else◌, take, set,
}
use qw.Base.Int.{ℤ, pos, negsuc, ltb_ℤ, bits32, to_int32}
use qw.Tokenizer.Table.{Bytes, same_bytes}

-- `service_session_cache_t`; the blocks are their token counts.
pub record SessionCache : Type 0 where
  pub session_id : Bytes
  pub valid : Bool
  pub cached_len : ℕ
  pub block_tokens : List ℕ

unfoldable pub first_cache : (SessionCache → Bool) → List SessionCache → ℕ → Option ℕ
first_cache test [] i = none
first_cache test (s ∷ ss) i =
    let rest = first_cache test ss (i + 1) in if test s then some i else rest

-- Where the session is, in the array.
unfoldable pub service_find_session_cache : List SessionCache → Bytes → Option ℕ
unfolding first_cache
service_find_session_cache ss session_id =
    first_cache (λ s. s.valid && same_bytes s.session_id session_id) ss 0

abbrev pub new_cache : Bytes → SessionCache
new_cache session_id = record {
  session_id = take 63 session_id;
  valid = true;
  cached_len = 0;
  block_tokens = [];
}

-- The array after the call, and the place in it, NULL being `none`.
unfoldable pub service_alloc_session_cache :
    List SessionCache → Bytes → List SessionCache × Option ℕ
unfolding service_find_session_cache first_cache
service_alloc_session_cache ss session_id = elim (service_find_session_cache ss session_id) [
  | some i ↦ (ss, some i)
  | none ↦ elim (first_cache (λ s. not s.valid) ss 0) [
    | some i ↦ (set ss i (new_cache session_id), some i)
    | none ↦ (ss, none)
  ]
]

-- `cached_len` of `service_write` behind its two tests; the first argument is the length in the session
-- cache, or 0 without one.
abbrev pub clamped : ℤ → ℤ → ℤ
clamped (negsuc k) n_tokens = if ltb_ℤ n_tokens (pos 0) then n_tokens else pos 0
clamped (pos c) n_tokens = if ltb_ℤ n_tokens (pos c) then n_tokens else pos c

-- `(uncached + svc->block_size - 1) / svc->block_size` on uint32_t, as an `int`. The block size is
-- not 0: where it is set, a 0 is replaced.
unfoldable pub num_new_blocks : ℤ → ℕ → ℤ
num_new_blocks uncached block_size =
    to_int32 ((bits32 uncached + block_size + (2 ^ 32 - 1)) % 2 ^ 32 / block_size)

-- `int start = cached_len + i * svc->block_size`, whose sum is a uint32_t.
unfoldable pub block_start : ℤ → ℕ → ℕ → ℤ
block_start cached_len block_size i = to_int32 (bits32 cached_len + i * block_size)

-- `int end = start + svc->block_size`, cut to `n_tokens`.
unfoldable pub block_end : ℤ → ℕ → ℤ → ℕ → ℤ
unfolding block_start
block_end cached_len block_size n_tokens i =
    let end = to_int32 (bits32 (block_start cached_len block_size i) + block_size) in
    if ltb_ℤ n_tokens end then n_tokens else end
