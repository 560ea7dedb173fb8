-- ===== src/KvCache/Local.antt =====
-- The local provider of src/ds3_kv_cache.c: 16 session slots, each with the tokens of a prefix and their
-- KV bytes. A session id is the list of its bytes before the NUL. The position and the count of a read
-- are `int`, whose sum and product wrap; the token count of a prefix is the length of its list.
pub mod Slots
pub mod Cache
pub mod Write
pub mod Valid
pub mod Keeps
pub mod Reach
use qw.Base.{
  ℕ, zero, suc, ◌+◌, ◌-◌, ◌*◌, ◌/◌, ◌%◌, ◌^◌, ◌==◌, Bool, true, false, ◌&&◌, ◌||◌, not, List, [],
  ◌∷◌, ◌++◌, Option, none, some, ltb, leb, if◌then◌else◌, length, take, drop, set, get_elem?,
  replicate,
}
use qw.Base.Int.{ℤ, pos, negsuc, ltb_ℤ, to_size_t, add_int32, mul_int32}
use qw.Tokenizer.Table.{Bytes, same_bytes}

-- `ds3_kv_local_session_t`. The two buffers are functions from an index, of the capacities given.
pub record Session : Type 0 where
  pub session_id : Bytes
  pub valid : Bool
  pub tokens : ℕ → ℤ
  pub n_tokens : ℕ
  pub capacity_tokens : ℕ
  pub kv_data : ℕ → ℕ
  pub kv_capacity : ℕ

-- `ds3_kv_local_state_t`.
pub record State : Type 0 where
  pub sessions : List Session
  pub per_token_kv_bytes : ℕ

abbrev pub local_tokens : ℕ
local_tokens = 8192

abbrev pub local_kv_bytes : ℕ
local_kv_bytes = 805306368

-- A slot as `calloc` leaves it.
abbrev pub empty_slot : Session
empty_slot = record {
  session_id = [];
  valid = false;
  tokens = λ i. pos 0;
  n_tokens = 0;
  capacity_tokens = 0;
  kv_data = λ i. 0;
  kv_capacity = 0;
}

-- `local_open`, where both allocations succeed.
unfoldable pub local_open : State
local_open = record { sessions = replicate 16 empty_slot; per_token_kv_bytes = 98304 }

-- The first slot that a test accepts, and its index counted from `i`.
unfoldable pub first_slot : (Session → Bool) → List Session → ℕ → Option (ℕ × Session)
first_slot test [] i = none
first_slot test (s ∷ ss) i =
    let rest = first_slot test ss (i + 1) in if test s then some (i, s) else rest

abbrev pub has_id : Bytes → Session → Bool
has_id session_id s = s.valid && same_bytes s.session_id session_id

abbrev pub is_unused : Session → Bool
is_unused s = not s.valid

unfoldable pub local_find_session : State → Bytes → Option (ℕ × Session)
unfolding first_slot
local_find_session st session_id = first_slot (has_id session_id) st.sessions 0

unfoldable pub local_alloc_session : State → Option (ℕ × Session)
unfolding first_slot
local_alloc_session st = first_slot is_unused st.sessions 0

-- A change of the slot that was found, through the pointer to it.
abbrev pub with_slot : State → ℕ → Session → State
with_slot st i s = record st { sessions = set st.sessions i s }

abbrev pub local_release_session : Session → Session
local_release_session s = record s {
  tokens = λ i. pos 0;
  n_tokens = 0;
  capacity_tokens = 0;
  kv_data = λ i. 0;
  kv_capacity = 0;
}

-- The slot of a new session, its buffers allocated.
abbrev pub new_session : Bytes → Session
new_session session_id = record {
  session_id = take 63 session_id;
  valid = true;
  tokens = λ i. pos 0;
  n_tokens = 0;
  capacity_tokens = local_tokens;
  kv_data = λ i. 0;
  kv_capacity = local_kv_bytes;
}

-- `allocated` says whether both `calloc`s succeed.
abbrev pub create_in : Bool → State → Bytes → Option (ℕ × Session) → State × ℤ
create_in allocated st session_id none = (st, negsuc 0)
create_in allocated st session_id (some (i, s)) =
    if allocated then (with_slot st i (new_session session_id), pos 0) else (
      with_slot st i (local_release_session (record s { session_id = take 63 session_id })),
      negsuc 0,
    )

-- A session that is there is emptied; otherwise one is made in the first unused slot.
abbrev pub create_or_empty : Bool → State → Bytes → Option (ℕ × Session) → State × ℤ
create_or_empty allocated st session_id (some (i, s)) =
    (with_slot st i (record s { n_tokens = 0 }), pos 0)
create_or_empty allocated st session_id none =
    create_in allocated st session_id (local_alloc_session st)

unfoldable pub local_create_session : Bool → State → Bytes → State × ℤ
unfolding local_find_session local_alloc_session
local_create_session allocated st session_id =
    create_or_empty allocated st session_id (local_find_session st session_id)

abbrev pub close_found : State → Option (ℕ × Session) → State × ℤ
close_found st none = (st, pos 0)
close_found st (some (i, s)) =
    (with_slot st i (record (local_release_session s) { valid = false }), pos 0)

unfoldable pub local_close_session : State → Bytes → State × ℤ
unfolding local_find_session
local_close_session st session_id = close_found st (local_find_session st session_id)

abbrev pub reset_found : State → Option (ℕ × Session) → State × ℤ
reset_found st none = (st, pos 0)
reset_found st (some (i, s)) = (with_slot st i (record s { n_tokens = 0 }), pos 0)

unfoldable pub local_reset_session : State → Bytes → State × ℤ
unfolding local_find_session
local_reset_session st session_id = reset_found st (local_find_session st session_id)

abbrev pub equal_tokens : ℤ → ℤ → Bool
equal_tokens (pos a) (pos b) = a == b
equal_tokens (pos a) (negsuc b) = false
equal_tokens (negsuc a) (pos b) = false
equal_tokens (negsuc a) (negsuc b) = a == b

-- `while (i < max && tokens[i] == s->tokens[i]) i++`, where `tokens` are those from `i` on, and `left`
-- is `s->n_tokens - i`.
unfoldable pub common_length : List ℤ → (ℕ → ℤ) → ℕ → ℕ → ℕ
common_length [] cached left i = i
common_length (t ∷ ts) cached zero i = i
common_length (t ∷ ts) cached (suc left) i =
    let rest = common_length ts cached left (i + 1) in if equal_tokens t (cached i) then rest else i

abbrev pub lookup_found : List ℤ → Option (ℕ × Session) → ℕ
lookup_found tokens none = 0
lookup_found tokens (some (i, s)) =
    let n = common_length tokens s.tokens s.n_tokens 0 in if s.n_tokens == 0 then 0 else n

-- `*out_cached_len`; the call returns 0.
unfoldable pub local_lookup : State → Bytes → List ℤ → ℕ
unfolding local_find_session common_length
local_lookup st session_id tokens = lookup_found tokens (local_find_session st session_id)

-- What a read comes to: -1, the bytes copied, or a copy from outside `kv_data`.
pub data Read : Type 0 where
  failed : Read
  copied : Bytes → Read
  outside : Read

-- `n` bytes of a buffer from index `i` on.
unfoldable pub bytes_from : (ℕ → ℕ) → ℕ → ℕ → Bytes
bytes_from data_at i zero = []
bytes_from data_at i (suc n) = data_at i ∷ bytes_from data_at (i + 1) n

-- The `memcpy` of a read.
abbrev pub copy_out : Session → ℕ → ℕ → Read
copy_out s offset n =
    if ltb s.kv_capacity (offset + n) then outside else copied (bytes_from s.kv_data offset n)

abbrev pub read_found : ℕ → ℤ → ℤ → Option (ℕ × Session) → Read
read_found per_token start_pos n_tokens none = failed
read_found per_token start_pos n_tokens (some (i, s)) =
    if ltb_ℤ (pos s.n_tokens) (add_int32 start_pos n_tokens)
    then failed
    else copy_out s (to_size_t start_pos * per_token % 2 ^ 64)
        (to_size_t (mul_int32 n_tokens per_token))

unfoldable pub local_read : State → Bytes → ℤ → ℤ → Read
unfolding local_find_session bytes_from
local_read st session_id start_pos n_tokens =
    read_found st.per_token_kv_bytes start_pos n_tokens (local_find_session st session_id)

-- `memcpy` into the front of a buffer.
unfoldable pub overwrite : {A : Type 0} → List A → (ℕ → A) → ℕ → A
overwrite [] old i = old i
overwrite (x ∷ xs) old zero = x
overwrite (x ∷ xs) old (suc i) = overwrite xs (λ j. old (suc j)) i

abbrev pub written : Session → List ℤ → Bytes → Session
written s tokens kv_buffer = record s {
  tokens = overwrite tokens s.tokens;
  kv_data = overwrite kv_buffer s.kv_data;
  n_tokens = length tokens;
}

abbrev pub write_found : State → List ℤ → Bytes → Option (ℕ × Session) → State × ℤ
write_found st tokens kv_buffer none = (st, negsuc 0)
write_found st tokens kv_buffer (some (i, s)) =
    if ltb s.capacity_tokens (length tokens) || ltb s.kv_capacity (length kv_buffer)
    then (st, negsuc 0)
    else (with_slot st i (written s tokens kv_buffer), pos 0)

-- The caller passes as many tokens as `n_tokens` says, and as many bytes as `kv_buffer_bytes`.
unfoldable pub local_write : State → Bytes → List ℤ → Bytes → State × ℤ
unfolding local_find_session overwrite
local_write st session_id tokens kv_buffer =
    write_found st tokens kv_buffer (local_find_session st session_id)
