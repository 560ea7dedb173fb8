-- ===== src/Daemon/Sessions.antt =====
-- The sessions of tools/qwen3-engine-daemon.c: `session_t`, what a daemon holds of `daemon_state_t`, and
-- the operations on the array of sessions. A session that another thread holds the mutex of is `locked`;
-- `pthread_mutex_lock` waits for it, so only `pthread_mutex_trylock` reads the field. Times and counts
-- are numbers. The KV cache behind the sessions is an interface.
pub mod Valid
pub mod Evict
pub mod View
pub mod Reaped
use qw.Base.{
  ℕ, zero, suc, ◌+◌, ◌-◌, ◌*◌, ◌%◌, ◌^◌, Bool, true, false, ◌&&◌, not, List, [], ◌∷◌, ◌++◌, Option,
  none, some, ltb, leb, ◌==◌, if◌then◌else◌, length, get_elem?, set,
}
use qw.Base.First.{first_index, remove_at}
use qw.Base.Int.{ℤ, pos, negsuc, ltb_ℤ, to_int32}
use qw.Tokenizer.Table.{Bytes, same_bytes}
use qw.Daemon.Request.{Msg}

-- The float operations that a session needs.
pub record Floats : Type 1 where
  pub Float : Type 0
  pub is_positive : Float → Bool
  pub point_seven : Float

-- `session_t`, without the pointers that `messages` and its count stand for.
pub record Session (F : Type 0) : Type 0 where
  pub id : Bytes
  pub system_prompt : Bytes
  pub temperature : F
  pub max_tokens : ℕ
  pub n_ctx : ℕ
  pub messages : List Msg
  pub msg_capacity : ℕ
  pub total_generated : ℕ
  pub last_active : ℕ
  pub provider_session_created : Bool
  pub locked : Bool

-- What the daemon calls of a provider; it looks at none of the return codes.
pub record Provider (K : Type 0) : Type 0 where
  pub create_session : K → Bytes → K
  pub close_session : K → Bytes → K
  pub reset_session : K → Bytes → K

-- `daemon_state_t`, its engine, provider and sessions.
pub record Daemon (E K F : Type 0) : Type 0 where
  pub engine : Option E
  pub kv_provider : Option K
  pub sessions : List (Session F)
  pub session_capacity : ℕ
  pub n_ctx : ℕ
  pub total_generated : ℕ
  pub total_prompt_tokens : ℕ
  pub max_sessions : ℕ
  pub session_timeout : ℕ
  pub gpu_layers : ℕ
  pub started_at : ℕ

abbrev pub err_session_limit : ℤ
err_session_limit = negsuc 32006

abbrev pub err_internal : ℤ
err_internal = negsuc 32007

-- What `session_create` returns: the index of the new session, or an error code.
pub data Created : Type 0 where
  created_at : ℕ → Created
  not_created : ℤ → Created

-- The strings that may be NULL.
abbrev pub or_empty : Option Bytes → Bytes
or_empty none = []
or_empty (some s) = s

-- A full array doubles.
abbrev pub grown_capacity : ℕ → ℕ → ℕ
grown_capacity n capacity = if leb capacity n then capacity * 2 else capacity

-- The array doubles from 8.
abbrev pub session_slots : ℕ → ℕ → ℕ
session_slots n capacity =
    if leb capacity n then (if capacity == 0 then 8 else capacity * 2) else capacity

-- The provider is told of a session that it knows.
abbrev pub close_known : {K : Type 0} → Provider K → Option K → Bool → Bytes → Option K
close_known kv none known id = none
close_known kv (some k) true id = some (kv.close_session k id)
close_known kv (some k) false id = some k

-- `(int)(now - s->last_active)`: the difference of two `time_t`, which may be negative, modulo 2 ^ 32.
abbrev pub idle_time : ℕ → ℕ → ℤ
idle_time now last_active =
    to_int32
      (if leb last_active now then now - last_active else 2 ^ 32 - (last_active - now) % 2 ^ 32)

-- A session that nobody holds, and whose idle time, as an `int`, is above the timeout.
abbrev pub is_idle : {F : Type 0} → ℕ → ℕ → Session F → Bool
is_idle now timeout s = not s.locked && ltb_ℤ (pos timeout) (idle_time now s.last_active)

module _ {F : Type 0} where
  abbrev pub id_is : Bytes → Session F → Bool
  id_is id s = same_bytes s.id id

  -- The session, with its index in place of the pointer.
  unfoldable pub session_find : List (Session F) → Bytes → Option (ℕ × Session F)
  session_find ss id = first_index (id_is id) ss 0

  unfoldable pub session_append_message : ℕ → Session F → Msg → Session F
  session_append_message now s m = record s {
    messages =
        s.messages
        ++ (record m { role = some (or_empty m.role); content = some (or_empty m.content) } ∷ []);
    msg_capacity = grown_capacity (length s.messages) s.msg_capacity;
    last_active = now;
  }

  unfoldable pub append_all : ℕ → Session F → List Msg → Session F
  append_all now s [] = s
  append_all now s (m ∷ ms) = append_all now (session_append_message now s m) ms

  unfoldable pub session_replace_history : ℕ → Session F → List Msg → Session F
  unfolding append_all
  session_replace_history now s msgs = record (append_all now (record s { messages = [] }) msgs) {
    last_active = now;
  }

  -- The scan for the oldest session that is not locked: its index and time.
  abbrev pub older : ℕ → Session F → Option (ℕ × ℕ) → Option (ℕ × ℕ)
  older i s none = some (i, s.last_active)
  older i s (some (k, oldest)) =
      if ltb s.last_active oldest then some (i, s.last_active) else some (k, oldest)

  unfoldable pub oldest_from : List (Session F) → ℕ → Option (ℕ × ℕ) → Option (ℕ × ℕ)
  oldest_from [] i best = best
  oldest_from (s ∷ ss) i best = oldest_from ss (i + 1) (if s.locked then best else older i s best)

module _ (f : Floats) where
  abbrev pub new_session : ℕ → ℕ → Bytes → Option Bytes → f.Float → ℕ → Session f.Float
  new_session now n_ctx id system_prompt temperature max_tokens = record {
    id = id;
    system_prompt = or_empty system_prompt;
    temperature = if f.is_positive temperature then temperature else f.point_seven;
    max_tokens = if max_tokens == 0 then 2048 else max_tokens;
    n_ctx = n_ctx;
    messages = [];
    msg_capacity = 16;
    total_generated = 0;
    last_active = now;
    provider_session_created = false;
    locked = false;
  }

module _ {E K F : Type 0} where
  abbrev pub add_session : Daemon E K F → Session F → Daemon E K F
  add_session ds s = record ds {
    sessions = ds.sessions ++ (s ∷ []);
    session_capacity = session_slots (length ds.sessions) ds.session_capacity;
  }

module _ {E K F : Type 0} (kv : Provider K) where
  -- `s` is the session at the index.
  unfoldable pub session_remove_at : Daemon E K F → ℕ → Session F → Daemon E K F
  session_remove_at ds i s = record ds {
    sessions = remove_at ds.sessions i;
    kv_provider = close_known kv ds.kv_provider s.provider_session_created s.id;
  }

  abbrev pub remove_found : Daemon E K F → Option (ℕ × Session F) → Daemon E K F
  remove_found ds none = ds
  remove_found ds (some (i, s)) = session_remove_at ds i s

  unfoldable pub session_close : Daemon E K F → Bytes → Daemon E K F
  unfolding session_find session_remove_at
  session_close ds id = remove_found ds (session_find ds.sessions id)

  -- The eviction, where the limit is reached: `none` if every session is locked.
  abbrev pub evict_at : Daemon E K F → Option (ℕ × ℕ) → Option (Daemon E K F)
  evict_at ds none = none
  evict_at ds (some (i, oldest)) = elim (get_elem? ds.sessions i) [
    | none ↦ some ds
    | some s ↦ some (session_remove_at ds i s)
  ]

  unfoldable pub make_room : Daemon E K F → Option (Daemon E K F)
  unfolding oldest_from session_remove_at
  make_room ds =
      if not (ds.max_sessions == 0) && leb ds.max_sessions (length ds.sessions)
      then evict_at ds (oldest_from ds.sessions 0 none)
      else some ds

  -- Behind the eviction: a session with the id is replaced, and the new one comes last. `allocated` says
  -- whether every allocation succeeds.
  abbrev pub replace_and_add :
      Bool → Daemon E K F → Bytes → (ℕ → Session F) → Daemon E K F × Created
  replace_and_add false ds id made = (session_close ds id, not_created err_internal)
  replace_and_add true ds id made = (
    add_session (session_close ds id) (made ds.n_ctx),
    created_at (length (session_close ds id).sessions),
  )

  abbrev pub create_in :
      Bool → Daemon E K F → Option (Daemon E K F) → Bytes → (ℕ → Session F) → Daemon E K F × Created
  create_in allocated ds none id made = (ds, not_created err_session_limit)
  create_in allocated ds (some room) id made = replace_and_add allocated room id made

  -- `made` is the new session, from the context length of the daemon.
  unfoldable pub session_create :
      Bool → Daemon E K F → Bytes → (ℕ → Session F) → Daemon E K F × Created
  unfolding make_room session_close
  session_create allocated ds id made = create_in allocated ds (make_room ds) id made

  -- The round of `reaper_thread`: a session that is idle too long goes, and the one in its place is next.
  unfoldable pub reap_from : ℕ → ℕ → ℕ → Daemon E K F → Daemon E K F
  unfolding session_remove_at
  reap_from zero i now ds = ds
  reap_from (suc fuel) i now ds = elim (get_elem? ds.sessions i) [
    | none ↦ ds
    | some s ↦ elim (is_idle now ds.session_timeout s) [
      | true ↦ reap_from fuel i now (session_remove_at ds i s)
      | false ↦ reap_from fuel (i + 1) now ds
    ]
  ]

  -- Each turn removes a session or passes over one.
  unfoldable pub reap : ℕ → Daemon E K F → Daemon E K F
  unfolding reap_from
  reap now ds = if ds.session_timeout == 0 then ds else reap_from (length ds.sessions) 0 now ds
