-- ===== src/KvCache/Fallback.antt =====
-- The fallback provider of src/ds3_kv_cache.c, which caches nothing: what its calls return.
use qw.Base.{ℕ, List}
use qw.Base.Int.{ℤ, pos}

-- The return value and `*out_cached_len`.
abbrev pub fallback_lookup : List ℕ → List ℤ → ℤ × ℕ
fallback_lookup session_id tokens = (pos 0, 0)

-- The buffer keeps its bytes.
abbrev pub fallback_read : List ℕ → ℕ → ℕ → List ℕ → ℤ × List ℕ
fallback_read session_id start_pos n_tokens kv_buffer = (pos 0, kv_buffer)

abbrev pub fallback_write : List ℕ → List ℤ → List ℕ → ℤ
fallback_write session_id tokens kv_buffer = pos 0

abbrev pub fallback_create_session : List ℕ → ℤ
fallback_create_session session_id = pos 0

abbrev pub fallback_close_session : List ℕ → ℤ
fallback_close_session session_id = pos 0

abbrev pub fallback_reset_session : List ℕ → ℤ
fallback_reset_session session_id = pos 0
