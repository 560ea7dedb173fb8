-- ===== src/Daemon/Handlers.antt =====
-- The request handlers of tools/qwen3-engine-daemon.c and `dispatch_request`, each run to its end: the
-- mutexes that it takes keep the others out. What a handler writes to the socket is the list of bytes in
-- its result. The engine, the floats and the clock's text are interfaces.
pub mod Answers
pub mod Keep
use qw.Base.{
  ℕ, zero, suc, ◌+◌, ◌-◌, ◌<◌, Bool, true, false, ◌&&◌, not, List, [], ◌∷◌, ◌++◌, Option, none,
  some, ◌==◌, ltb, leb, if◌then◌else◌, length, set, get_elem?, ◌≢◌, All,
}
use qw.Base.Int.{ℤ, pos, negsuc}
use qw.Tokenizer.Table.{Bytes, same_bytes}
use qw.Daemon.Json.{json_ws, json_string}
use qw.Daemon.Json.Escape.{json_escape_to_buf}
use qw.Daemon.Json.Skip.{
  Doubles, Separator, closed, comma, neither, separator_of, next_byte, Skip, skipped, refused, spun,
  json_skip_value,
}
use qw.Daemon.Members.{Walk, onward, returned, failed, unended, keyed, unless_closed}
use qw.Daemon.Request.{
  Request, Msg, text_to, params_get_string, params_get_int, params_get_double, params_get_bool,
  parse_message_array, role_key, content_key, tool_call_id_key, tool_name_key,
}
use qw.Daemon.Sessions.{
  Floats, Session, Provider, Daemon, Created, created_at, not_created, err_session_limit,
  session_find, session_append_message, session_replace_history, session_remove_at, session_close,
  session_create, new_session,
}
use qw.Daemon.Prompt.{build_chat_prompt, strip_think_blocks, extract_tool_calls_json}
use qw.Daemon.Response.{decimal, send_result, send_error, OnOneLine}
use qw.Daemon.Texts.{
  user_role, assistant_role, tool_result_role, system_role, user_start, assistant_start, tool_start,
  system_start, im_end, calls_start, calls_end, no_think, think_tag, think_end_tag, call_tag,
  call_end_tag, session_id_key, system_prompt_key, user_prompt_key, context_key, temperature_key,
  max_tokens_key, stream_key, messages_key, preserve_key, model_path_key, n_ctx_key,
  load_model_method, create_session_method, generate_method, append_turn_method,
  replace_history_method, reset_session_method, close_session_method, health_method, stats_method,
  null_id, appended_result, replaced_result, reset_result, closed_result, id_head, id_tail,
  result_head, error_head, message_head, error_tail, missing_session_id, session_not_found,
  missing_role, missing_messages, invalid_messages, missing_model_path, load_failed, limit_reached,
  create_failed, not_loaded, context_overflow, generation_timeout, write_failed_text,
  generation_failed, method_not_found, model_name, loaded_head, n_ctx_field, vocab_size_field,
  gpu_layers_field, session_id_head, created_at_field, text_field, tokens_generated_field,
  tokens_prompt_field, current_tokens_field, max_tokens_field, n_ctx_after, cached_field,
  new_cached_field, tool_calls_field, done_tail, text_head, not_done_tail, empty_array, health_head,
  active_field, total_field, uptime_field, total_prompt_field, stats_head, stats_loaded_field,
  n_layer_field,
}

-- What the handlers take from the machine: the doubles and floats, and the text that `strftime` writes
-- for a time, which has no line break.
pub record Machine : Type 1 where
  pub doubles : Doubles
  pub floats : Floats
  pub to_float : doubles.Double → floats.Float
  pub not_negative : floats.Float → Bool
  pub minus_one : floats.Float
  pub stamp : ℕ → Bytes
  pub stamp_line : (now : ℕ) → OnOneLine (stamp now)

-- What `ds3_engine_generate_ex` comes to: its tokens, -2 at the deadline, or another number below 0.
pub data Generated : Type 0 where
  tokens_of : List ℤ → Generated
  timed_out : Generated
  not_generated : Generated

-- What the daemon calls of src/ds3_engine.c, the engine sharing the KV provider that
-- `ds3_engine_set_kv_provider` gives it. `generate` also gives the
-- tokens that its callback was called with.
pub record Engine (E K F : Type 0) : Type 0 where
  pub ds3_engine_open : Bytes → ℕ → Option E
  pub vocab_size : E → ℕ
  pub tokenize : E → Bytes → ℕ → Option (List ℤ)
  pub generate : E → Option K → Bytes → List ℤ → ℕ → F → E × Option K × List ℤ × Generated
  pub decode : E → List ℤ → Bytes
  pub cached_prefix_len : E → ℕ
  pub new_cached_prefix_len : E → ℕ

-- The codes of the protocol.
abbrev pub invalid_params : ℤ
invalid_params = negsuc 32601

abbrev pub method_missing : ℤ
method_missing = negsuc 32600

abbrev pub no_model : ℤ
no_model = negsuc 32000

abbrev pub no_session : ℤ
no_session = negsuc 32001

-- A string that has to be there and not empty.
abbrev pub require : {A : Type 0} → Option Bytes → A → (Bytes → A) → A
require none missing next = missing
require (some []) missing next = missing
require (some (c ∷ s)) missing next = next (c ∷ s)

abbrev pub found_or : {A S : Type 0} → Option (ℕ × S) → A → (ℕ → S → A) → A
found_or none missing next = missing
found_or (some (i, s)) missing next = next i s

-- `x ? x : y`, for what a getter left.
abbrev pub or_else : {A : Type 0} → Option A → A → A
or_else none y = y
or_else (some x) y = x

abbrev pub or_default : Option ℕ → ℕ → ℕ
or_default none y = y
or_default (some zero) y = y
or_default (some (suc x)) y = suc x

abbrev pub no_message : Msg
no_message = record {
  role = none;
  content = none;
  tool_calls = none;
  tool_call_id = none;
  tool_name = none;
}

abbrev pub is_some : {A : Type 0} → Option A → Bool
is_some none = false
is_some (some x) = true

abbrev pub bool_text : Bool → Bytes
bool_text true = b't' ∷ b'r' ∷ b'u' ∷ b'e' ∷ []
bool_text false = b'f' ∷ b'a' ∷ b'l' ∷ b's' ∷ b'e' ∷ []

module _ {K : Type 0} where
  -- The provider, told of a session.
  abbrev pub with_provider : (K → Bytes → K) → Option K → Bytes → Option K
  with_provider op none id = none
  with_provider op (some k) id = some (op k id)

module _ {E K F : Type 0} where
  -- A change of the session at an index, through the pointer to it.
  abbrev pub session_set : Daemon E K F → ℕ → Session F → Daemon E K F
  session_set ds i s = record ds { sessions = set ds.sessions i s }

module _ {E K F : Type 0} (kv : Provider K) where
  -- `while (ds->n_sessions > 0)`, the first session being removed.
  unfoldable pub close_all : ℕ → Daemon E K F → Daemon E K F
  unfolding session_remove_at
  close_all zero ds = ds
  close_all (suc n) ds = elim (get_elem? ds.sessions 0) [
    | none ↦ ds
    | some s ↦ close_all n (session_remove_at kv ds 0 s)
  ]

-- `handle_replace_history`'s search for its array: the text of the first member called `messages`.
module _ (d : Doubles) where
  abbrev pub raw_value : Bool → Skip → Bytes → Walk Bytes
  raw_value true (skipped r) p = returned (text_to p r) r
  raw_value false (skipped r) p = onward [] r
  raw_value b refused p = failed
  raw_value b spun p = unended

  abbrev pub raw_member : Bytes → Bytes → Walk Bytes
  raw_member key p = raw_value (same_bytes key messages_key) (json_skip_value d p) p

  -- `if (*p == ',') p++`.
  abbrev pub past_comma : Bytes → Bytes
  past_comma [] = []
  past_comma (c ∷ r) = if c == b',' then r else c ∷ r

  abbrev pub and_raw : Walk Bytes → (Bytes → Walk Bytes) → Walk Bytes
  and_raw (onward s r) next = next (past_comma (json_ws r))
  and_raw (returned s r) next = returned s r
  and_raw failed next = failed
  and_raw unended next = unended

  unfoldable pub raw_messages_from : ℕ → Bytes → Walk Bytes
  raw_messages_from zero p = unended
  raw_messages_from (suc fuel) p =
      unless_closed (separator_of b'}' (json_ws p)) failed
        (and_raw (keyed (json_string (json_ws p)) raw_member) (λ r. raw_messages_from fuel r))

  abbrev pub past_brace : Bytes → Bytes
  past_brace [] = []
  past_brace (c ∷ r) = if c == b'{' then r else c ∷ r

  abbrev pub returned_text : Walk Bytes → Option Bytes
  returned_text (returned s r) = some s
  returned_text (onward s r) = none
  returned_text failed = none
  returned_text unended = none

  unfoldable pub raw_messages : Bytes → Option Bytes
  unfolding raw_messages_from
  raw_messages params =
      returned_text (raw_messages_from (suc (length params)) (past_brace (json_ws params)))

module _ (m : Machine) {E K : Type 0} (eng : Engine E K m.floats.Float) (kv : Provider K) where
  abbrev pub State : Type 0
  State = Daemon E K m.floats.Float

  abbrev pub get_string : Bytes → Bytes → Option Bytes
  get_string params key = params_get_string m.doubles params key

  abbrev pub get_int : Bytes → Bytes → Option ℕ
  get_int params key = params_get_int m.doubles params key

  abbrev pub get_bool : Bytes → Bytes → Bool
  get_bool params key = params_get_bool m.doubles params key false

  abbrev as_float : Option m.doubles.Double → m.floats.Float → m.floats.Float
  as_float none x = x
  as_float (some v) x = m.to_float v

  abbrev pub get_float : Bytes → Bytes → m.floats.Float → m.floats.Float
  get_float params key x = as_float (params_get_double m.doubles params key) x

  -- The sessions are closed before the engine, if there is one.
  abbrev pub unload : State → Option E → State
  unload ds none = ds
  unload ds (some e) = record (close_all kv (length ds.sessions) ds) { engine = none }

  abbrev pub loaded : State → Option Bytes → ℕ → Option E → State × Bytes
  loaded ds id n_ctx none = (record ds { engine = none }, send_error id no_model load_failed)
  loaded ds id n_ctx (some e) = (
    record ds { engine = some e; n_ctx = n_ctx },
    send_result id (
        loaded_head
        ++ (model_name
            ++ (n_ctx_field
                ++ (decimal (pos n_ctx)
                    ++ (vocab_size_field
                        ++ (decimal (pos (eng.vocab_size e))
                            ++ (gpu_layers_field
                                ++ (decimal (pos ds.gpu_layers) ++ (b'}' ∷ []))))))))),
  )

  unfoldable pub handle_load_model : State → Option Bytes → Bytes → State × Bytes
  unfolding close_all
  handle_load_model ds id params =
      require (get_string params model_path_key)
        (ds, send_error id invalid_params missing_model_path)
        λ path.
          let n_ctx = or_default (get_int params n_ctx_key) ds.n_ctx in
          loaded (unload ds ds.engine) id n_ctx (eng.ds3_engine_open path n_ctx)

  -- The provider is told of the new session, and the flag is set.
  abbrev pub tell_provider : State → ℕ → Option (Session m.floats.Float) → State
  tell_provider ds i none = ds
  tell_provider ds i (some s) =
      if is_some ds.kv_provider
      then record (session_set ds i (record s { provider_session_created = true })) {
        kv_provider = with_provider kv.create_session ds.kv_provider s.id;
      }
      else ds

  abbrev pub created_answer : Option Bytes → Bytes → ℕ → State → Created → State × Bytes
  created_answer id session_id now ds (not_created code) = (
    ds,
    send_error id code (elim (code) [
      | pos n ↦ create_failed
      | negsuc n ↦ if n == 32006 then limit_reached else create_failed
    ]),
  )
  created_answer id session_id now ds (created_at i) = (
    tell_provider ds i (get_elem? ds.sessions i),
    send_result id (
        session_id_head
        ++ (json_escape_to_buf session_id
            ++ (created_at_field ++ (m.stamp now ++ (b'"' ∷ b'}' ∷ []))))),
  )

  -- The new session, with the defaults of what the parameters leave out.
  abbrev pub session_of : ℕ → Bytes → Bytes → ℕ → Session m.floats.Float
  session_of now params session_id n_ctx =
      new_session m.floats now n_ctx session_id (get_string params system_prompt_key)
        (get_float params temperature_key m.floats.point_seven)
        (or_else (get_int params max_tokens_key) 2048)

  abbrev pub create_from : Bool → State → ℕ → Bytes → Bytes → State × Created
  create_from allocated ds now params session_id =
      session_create kv allocated ds session_id (session_of now params session_id)

  unfoldable pub handle_create_session : Bool → State → ℕ → Option Bytes → Bytes → State × Bytes
  handle_create_session allocated ds now id params =
      require (get_string params session_id_key)
        (ds, send_error id invalid_params missing_session_id)
        λ session_id.
          created_answer id session_id now (create_from allocated ds now params session_id).0
            (create_from allocated ds now params session_id).1

  unfoldable pub handle_append_turn : State → ℕ → Option Bytes → Bytes → State × Bytes
  handle_append_turn ds now id params =
      require (get_string params session_id_key)
        (ds, send_error id invalid_params missing_session_id)
        λ session_id.
          found_or (session_find ds.sessions session_id)
            (ds, send_error id no_session session_not_found)
            λ i s.
              require (get_string params role_key) (ds, send_error id invalid_params missing_role)
                λ role. (
                  session_set ds i (
                      session_append_message now s (record {
                        role = some role;
                        content = get_string params content_key;
                        tool_calls = none;
                        tool_call_id = get_string params tool_call_id_key;
                        tool_name = get_string params tool_name_key;
                      })),
                  send_result id appended_result,
                )

  abbrev pub reset_unless : Bool → Option K → Bytes → Option K
  reset_unless true k session_id = k
  reset_unless false k session_id = with_provider kv.reset_session k session_id

  abbrev pub replaced_by :
      State
      → ℕ
      → Option Bytes
      → Bytes
      → Bool
      → ℕ
      → Session m.floats.Float
      → Option (Option (List Msg))
      → State × Bytes
  replaced_by ds now id session_id preserve i s none =
      (ds, send_error id invalid_params invalid_messages)
  replaced_by ds now id session_id preserve i s (some none) =
      (ds, send_error id invalid_params invalid_messages)
  replaced_by ds now id session_id preserve i s (some (some msgs)) = (
    record (session_set ds i (session_replace_history now s msgs)) {
      kv_provider = reset_unless preserve ds.kv_provider session_id;
    },
    send_result id replaced_result,
  )

  abbrev pub replace_from :
      State
      → ℕ
      → Option Bytes
      → Bytes
      → Bool
      → ℕ
      → Session m.floats.Float
      → Option Bytes
      → State × Bytes
  replace_from ds now id session_id preserve i s none =
      (ds, send_error id invalid_params missing_messages)
  replace_from ds now id session_id preserve i s (some raw) =
      replaced_by ds now id session_id preserve i s (parse_message_array m.doubles raw)

  unfoldable pub handle_replace_history : State → ℕ → Option Bytes → Bytes → State × Bytes
  handle_replace_history ds now id params =
      require (get_string params session_id_key)
        (ds, send_error id invalid_params missing_session_id)
        λ session_id.
          found_or (session_find ds.sessions session_id)
            (ds, send_error id no_session session_not_found)
            λ i s.
              replace_from ds now id session_id (get_bool params preserve_key) i s
                (raw_messages m.doubles params)

  unfoldable pub handle_reset_session : State → Option Bytes → Bytes → State × Bytes
  handle_reset_session ds id params =
      require (get_string params session_id_key)
        (ds, send_error id invalid_params missing_session_id)
        λ session_id.
          found_or (session_find ds.sessions session_id)
            (ds, send_error id no_session session_not_found)
            λ i s. (
              record (session_set ds i (record s { messages = [] })) {
                kv_provider =
                    reset_unless (not s.provider_session_created) ds.kv_provider session_id;
              },
              send_result id reset_result,
            )

  unfoldable pub handle_close_session : State → Option Bytes → Bytes → State × Bytes
  handle_close_session ds id params =
      require (get_string params session_id_key)
        (ds, send_error id invalid_params missing_session_id)
        λ session_id. (session_close kv ds session_id, send_result id closed_result)

  unfoldable pub handle_health : State → ℕ → Option Bytes → State × Bytes
  handle_health ds now id = (
    ds,
    send_result id (
        health_head
        ++ (bool_text (is_some ds.engine)
            ++ (active_field
                ++ (decimal (pos (length ds.sessions))
                    ++ (total_field
                        ++ (decimal (pos ds.total_generated)
                            ++ (uptime_field
                                ++ (decimal (pos (now - ds.started_at)) ++ (b'}' ∷ []))))))))),
  )

  abbrev pub vocab_of : Option E → ℕ
  vocab_of none = 0
  vocab_of (some e) = eng.vocab_size e

  unfoldable pub handle_stats : State → ℕ → Option Bytes → State × Bytes
  handle_stats ds now id = (
    ds,
    send_result id (
        stats_head
        ++ (model_name
            ++ (stats_loaded_field
                ++ (bool_text (is_some ds.engine)
                    ++ (n_ctx_after
                        ++ (decimal (pos ds.n_ctx)
                            ++ (vocab_size_field
                                ++ (decimal (pos (vocab_of ds.engine))
                                    ++ (n_layer_field
                                        ++ (decimal (pos (if is_some ds.engine then 48 else 0))
                                            ++ (gpu_layers_field
                                                ++ (decimal (pos ds.gpu_layers)
                                                    ++ (active_field
                                                        ++ (decimal (pos (length ds.sessions))
                                                            ++ (total_field
                                                            ++ (decimal (pos ds.total_generated)
                                                            ++ (total_prompt_field
                                                            ++ (decimal (pos ds.total_prompt_tokens)
                                                            ++ (uptime_field
                                                            ++ (decimal (pos (now - ds.started_at))
                                                            ++ (b'}' ∷ []))))))))))))))))))))),
  )
