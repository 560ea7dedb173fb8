-- ===== src/Daemon/Generate.antt =====
-- `generate_for_session`, `handle_generate` and `dispatch_request` of tools/qwen3-engine-daemon.c.
pub mod Lines
pub mod Keep
use qw.Base.{
  ℕ, zero, suc, ◌+◌, ◌-◌, Bool, true, false, ◌&&◌, ◌||◌, not, List, [], ◌∷◌, ◌++◌, Option, none,
  some, ◌==◌, ltb, leb, if◌then◌else◌, length, get_elem?,
}
use qw.Base.Int.{ℤ, pos, negsuc}
use qw.Tokenizer.Table.{Bytes, same_bytes}
use qw.Daemon.Json.Escape.{json_escape_to_buf}
use qw.Daemon.Request.{Request, Msg}
use qw.Daemon.Sessions.{Session, Provider, Daemon, session_find, session_append_message}
use qw.Daemon.Prompt.{build_chat_prompt, strip_think_blocks, extract_tool_calls_json}
use qw.Daemon.Response.{decimal, send_result, send_error}
use qw.Daemon.Handlers.{
  Machine, Generated, tokens_of, timed_out, not_generated, Engine, invalid_params, method_missing,
  no_model, no_session, require, found_or, or_else, or_default, no_message, is_some, with_provider,
  session_set, State, get_string, get_int, get_bool, get_float, handle_load_model,
  handle_create_session, handle_append_turn, handle_replace_history, handle_reset_session,
  handle_close_session, handle_health, handle_stats,
}
use qw.Daemon.Texts.{
  user_role, assistant_role, tool_result_role, system_role, user_start, assistant_start, tool_start,
  system_start, im_end, calls_start, calls_end, no_think, think_tag, think_end_tag, call_tag,
  call_end_tag, session_id_key, system_prompt_key, user_prompt_key, context_key, temperature_key,
  max_tokens_key, stream_key, messages_key, preserve_key, model_path_key, n_ctx_key,
  load_model_method, create_session_method, generate_method, append_turn_method,
  replace_history_method, reset_session_method, close_session_method, health_method, stats_method,
  null_id, appended_result, replaced_result, reset_result, closed_result, id_head, id_tail,
  result_head, error_head, message_head, error_tail, missing_session_id, session_not_found,
  missing_role, missing_messages, invalid_messages, missing_model_path, load_failed, limit_reached,
  create_failed, not_loaded, context_overflow, generation_timeout, write_failed_text,
  generation_failed, method_not_found, model_name, loaded_head, n_ctx_field, vocab_size_field,
  gpu_layers_field, session_id_head, created_at_field, text_field, tokens_generated_field,
  tokens_prompt_field, current_tokens_field, max_tokens_field, n_ctx_after, cached_field,
  new_cached_field, tool_calls_field, done_tail, text_head, not_done_tail, empty_array, health_head,
  active_field, total_field, uptime_field, total_prompt_field, stats_head, stats_loaded_field,
  n_layer_field,
}

-- `stream_cb_state_t`, with what was written.
pub record Stream : Type 0 where
  pub count : ℕ
  pub capacity : ℕ
  pub write_failed : Bool
  pub text : Bytes
  pub written : Bytes

-- What `generate_for_session` returns: a code below 0, or the text and the counts.
pub data Answer : Type 0 where
  answer_code : ℤ → Answer
  answered : Bytes → ℕ → ℕ → ℕ → ℕ → Answer

abbrev pub context_overflow_code : ℤ
context_overflow_code = negsuc 32002

abbrev pub timeout_code : ℤ
timeout_code = negsuc 32003

abbrev pub stream_write_code : ℤ
stream_write_code = negsuc 32008

abbrev pub internal_code : ℤ
internal_code = negsuc 32007

-- The messages of a turn.
abbrev pub user_msg : Bytes → Msg
user_msg u = record no_message { role = some user_role; content = some u }

abbrev pub assistant_msg : Bytes → Msg
assistant_msg text = record no_message { role = some assistant_role; content = some text }

-- The requests that are dispatched, compared in this order.
pub data Method : Type 0 where
  load_model create_session generate append_turn replace_history reset_session close_session health
        stats unknown_method :
      Method

abbrev pub method_of : Bytes → Method
method_of s =
    if same_bytes s load_model_method
    then load_model
    else if same_bytes s create_session_method
    then create_session
    else if same_bytes s generate_method
    then generate
    else if same_bytes s append_turn_method
    then append_turn
    else if same_bytes s replace_history_method
    then replace_history
    else if same_bytes s reset_session_method
    then reset_session
    else if same_bytes s close_session_method
    then close_session
    else if same_bytes s health_method
    then health
    else if same_bytes s stats_method
    then stats
    else unknown_method

abbrev pub method_name : Option Bytes → Method
method_name none = unknown_method
method_name (some s) = method_of s

-- `tool_calls_json ? tool_calls_json : "[]"`.
abbrev pub calls_or_empty : Option (Option Bytes) → Bytes
calls_or_empty none = empty_array
calls_or_empty (some none) = empty_array
calls_or_empty (some (some s)) = s

module _ (m : Machine) {E K : Type 0} (eng : Engine E K m.floats.Float) (kv : Provider K) where
  -- One token in a stream; `delivers` says whether a line is written whole, after what was written.
  abbrev pub chunk : Option Bytes → Bytes → Bytes
  chunk id text = send_result id (text_head ++ (json_escape_to_buf text ++ not_done_tail))

  unfoldable pub generate_stream_cb :
      (Bytes → Bytes → Bool) → Option Bytes → E → Stream → ℤ → Stream
  generate_stream_cb delivers id e st token =
      if leb st.capacity st.count || st.write_failed
      then st
      else let text = st.text ++ eng.decode e (token ∷ []) in
        record st {
          count = st.count + 1;
          text = text;
          written = st.written ++ chunk id text;
          write_failed = not (delivers st.written (chunk id text));
        }

  unfoldable pub stream_all : (Bytes → Bytes → Bool) → Option Bytes → E → Stream → List ℤ → Stream
  unfolding generate_stream_cb
  stream_all delivers id e st [] = st
  stream_all delivers id e st (t ∷ ts) =
      stream_all delivers id e (generate_stream_cb delivers id e st t) ts

  abbrev pub empty_stream : ℕ → Stream
  empty_stream capacity = record {
    count = 0;
    capacity = capacity;
    write_failed = false;
    text = [];
    written = [];
  }

  -- Without a stream there is no callback.
  abbrev pub streamed : Bool → (Bytes → Bytes → Bool) → Option Bytes → E → ℕ → List ℤ → Stream
  streamed false delivers id e capacity ts = empty_stream capacity
  streamed true delivers id e capacity ts = stream_all delivers id e (empty_stream capacity) ts

  -- The session that the provider knows from now on.
  abbrev pub known_to : Option K → Session m.floats.Float → Session m.floats.Float
  known_to none s = s
  known_to (some k) s = record s { provider_session_created = true }

  abbrev pub told : Option K → Session m.floats.Float → Option K
  told k s = if s.provider_session_created then k else with_provider kv.create_session k s.id

  -- What comes of the engine's run: a write that failed is reported before the rest.
  abbrev pub finish :
      Daemon E K m.floats.Float
      → ℕ
      → ℕ
      → Session m.floats.Float
      → ℕ
      → Bool
      → E
      → Generated
      → Daemon E K m.floats.Float × Answer
  finish ds now i s n_prompt true e g = (session_set ds i s, answer_code (negsuc 3))
  finish ds now i s n_prompt false e timed_out = (session_set ds i s, answer_code (negsuc 2))
  finish ds now i s n_prompt false e not_generated = (session_set ds i s, answer_code (negsuc 0))
  finish ds now i s n_prompt false e (tokens_of ts) = (
    record (session_set ds i
        (record s { total_generated = s.total_generated + length ts; last_active = now })) {
          total_generated = ds.total_generated + length ts;
          total_prompt_tokens = ds.total_prompt_tokens + n_prompt;
        },
    answered (strip_think_blocks (eng.decode e ts)) n_prompt (length ts) (eng.cached_prefix_len e)
        (eng.new_cached_prefix_len e),
  )

  abbrev pub run :
      (Bytes → Bytes → Bool)
      → Daemon E K m.floats.Float
      → ℕ
      → Option Bytes
      → ℕ
      → Session m.floats.Float
      → ℕ
      → ℕ
      → Bool
      → E × Option K × List ℤ × Generated
      → Daemon E K m.floats.Float × Bytes × Answer
  run delivers ds now id i s n_prompt max_gen stream (e, k, selected, g) =
      let st = streamed stream delivers id e max_gen selected in
      let r =
        finish (record ds { engine = some e; kv_provider = k }) now i s n_prompt st.write_failed e
          g in
      (r.0, st.written, r.1)

  -- Behind the tokenizer: the prompt has to leave room in the context.
  abbrev pub generate_from :
      (Bytes → Bytes → Bool)
      → Daemon E K m.floats.Float
      → ℕ
      → Option Bytes
      → E
      → ℕ
      → Session m.floats.Float
      → m.floats.Float
      → ℕ
      → Bool
      → Option (List ℤ)
      → Daemon E K m.floats.Float × Bytes × Answer
  generate_from delivers ds now id e i s temperature max_tokens stream none =
      (ds, [], answer_code (negsuc 0))
  generate_from delivers ds now id e i s temperature max_tokens stream (some prompt) =
      let max_gen = if max_tokens == 0 then s.max_tokens else max_tokens in
      let temp = if m.not_negative temperature then temperature else s.temperature in
      if leb s.n_ctx (length prompt)
      then (ds, [], answer_code (negsuc 1))
      else run delivers ds now id i (known_to ds.kv_provider s) (length prompt) max_gen stream
          (eng.generate e (told ds.kv_provider s) s.id prompt max_gen temp)

  -- What is written to the stream stands beside the result.
  unfoldable pub generate_for_session :
      (Bytes → Bytes → Bool)
      → Daemon E K m.floats.Float
      → ℕ
      → Option Bytes
      → E
      → ℕ
      → Session m.floats.Float
      → Bytes
      → Option Bytes
      → m.floats.Float
      → ℕ
      → Bool
      → Daemon E K m.floats.Float × Bytes × Answer
  unfolding stream_all
  generate_for_session delivers ds now id e i s user_prompt context temperature max_tokens stream =
      generate_from delivers ds now id e i s temperature max_tokens stream
        (eng.tokenize e (build_chat_prompt s user_prompt context) s.n_ctx)

  -- The result of a generation, as JSON.
  unfoldable pub generated_result :
      Bytes → Session m.floats.Float → Bytes → ℕ → ℕ → ℕ → ℕ → Bool → Bytes
  generated_result session_id s text n_prompt n_gen cached new_cached stream =
      session_id_head
      ++ (json_escape_to_buf session_id
          ++ (text_field
              ++ (json_escape_to_buf text
                  ++ (tokens_generated_field
                      ++ (decimal (pos n_gen)
                          ++ (tokens_prompt_field
                              ++ (decimal (pos n_prompt)
                                  ++ (current_tokens_field
                                      ++ (decimal (pos (n_prompt + n_gen))
                                          ++ (max_tokens_field
                                              ++ (decimal (pos s.max_tokens)
                                                  ++ (n_ctx_after
                                                      ++ (decimal (pos s.n_ctx)
                                                          ++ (cached_field
                                                            ++ (decimal (pos cached)
                                                            ++ (new_cached_field
                                                            ++ (decimal (pos new_cached)
                                                            ++ (tool_calls_field
                                                            ++ (calls_or_empty
                                                            (extract_tool_calls_json text)
                                                            ++ (if stream
                                                            then done_tail
                                                            else (b'}' ∷ [])))))))))))))))))))))

  -- The turns are appended behind the answer: the user's, if there is one, and the assistant's.
  abbrev pub with_turns : ℕ → Bytes → Bytes → Session m.floats.Float → Session m.floats.Float
  with_turns now [] text s = session_append_message now s (assistant_msg text)
  with_turns now (c ∷ u) text s =
      session_append_message now (session_append_message now s (user_msg (c ∷ u)))
        (assistant_msg text)

  abbrev pub append_turns :
      Daemon E K m.floats.Float
      → ℕ
      → ℕ
      → Bytes
      → Bytes
      → Option (Session m.floats.Float)
      → Daemon E K m.floats.Float
  append_turns ds now i user_prompt text none = ds
  append_turns ds now i user_prompt text (some s) =
      session_set ds i (with_turns now user_prompt text s)

  -- The answer to the client, from what `generate_for_session` returned.
  abbrev pub reply :
      ℕ
      → Option Bytes
      → Bytes
      → Bytes
      → ℕ
      → Session m.floats.Float
      → Bool
      → Daemon E K m.floats.Float × Bytes × Answer
      → Daemon E K m.floats.Float × Bytes
  reply now id session_id user_prompt i s stream (ds, out, answer_code (pos n)) =
      (ds, out ++ send_error id internal_code generation_failed)
  reply now id session_id user_prompt i s stream (ds, out, answer_code (negsuc n)) = (
    ds,
    out
        ++ (if n == 1
            then send_error id context_overflow_code context_overflow
            else if n == 2
            then send_error id timeout_code generation_timeout
            else if n == 3
            then send_error id stream_write_code write_failed_text
            else send_error id internal_code generation_failed),
  )
  reply now id session_id user_prompt i s stream
        (ds, out, answered text n_prompt n_gen cached new_cached) =
      (
        append_turns ds now i user_prompt text (get_elem? ds.sessions i),
        out
            ++ send_result id
                (generated_result session_id s text n_prompt n_gen cached new_cached stream),
      )

  abbrev pub or_no_prompt : Option Bytes → Bytes
  or_no_prompt none = []
  or_no_prompt (some u) = u

  abbrev pub with_engine :
      Daemon E K m.floats.Float
      → Option Bytes
      → Option E
      → (E → Daemon E K m.floats.Float × Bytes)
      → Daemon E K m.floats.Float × Bytes
  with_engine ds id none next = (ds, send_error id no_model not_loaded)
  with_engine ds id (some e) next = next e

  unfoldable pub handle_generate :
      (Bytes → Bytes → Bool)
      → Daemon E K m.floats.Float
      → ℕ
      → Option Bytes
      → Bytes
      → Daemon E K m.floats.Float × Bytes
  unfolding generate_for_session
  handle_generate delivers ds now id params =
      require (get_string m eng kv params session_id_key)
        (ds, send_error id invalid_params missing_session_id)
        λ session_id. with_engine ds id ds.engine λ e.
          found_or (session_find ds.sessions session_id)
            (ds, send_error id no_session session_not_found)
            λ i s.
              let user_prompt = or_no_prompt (get_string m eng kv params user_prompt_key) in
              let stream = get_bool m eng kv params stream_key in
              reply now id session_id user_prompt i s stream (
                generate_for_session delivers ds now id e i s user_prompt
                  (get_string m eng kv params context_key)
                  (get_float m eng kv params temperature_key m.minus_one)
                  (or_else (get_int m eng kv params max_tokens_key) 0) stream)

  -- The handlers that read the parameters read through a NULL pointer where there are none: `none`.
  abbrev pub on_params :
      Option Bytes
      → (Bytes → Daemon E K m.floats.Float × Bytes)
      → Option (Daemon E K m.floats.Float × Bytes)
  on_params none handle = none
  on_params (some params) handle = some (handle params)

  abbrev pub handle :
      (Bytes → Bytes → Bool)
      → Bool
      → Daemon E K m.floats.Float
      → ℕ
      → Option Bytes
      → Option Bytes
      → Method
      → Option (Daemon E K m.floats.Float × Bytes)
  handle delivers allocated ds now id params load_model =
      on_params params (handle_load_model m eng kv ds id)
  handle delivers allocated ds now id params create_session =
      on_params params (handle_create_session m eng kv allocated ds now id)
  handle delivers allocated ds now id params generate =
      on_params params (handle_generate delivers ds now id)
  handle delivers allocated ds now id params append_turn =
      on_params params (handle_append_turn m eng kv ds now id)
  handle delivers allocated ds now id params replace_history =
      on_params params (handle_replace_history m eng kv ds now id)
  handle delivers allocated ds now id params reset_session =
      on_params params (handle_reset_session m eng kv ds id)
  handle delivers allocated ds now id params close_session =
      on_params params (handle_close_session m eng kv ds id)
  handle delivers allocated ds now id params health = some (handle_health m eng kv ds now id)
  handle delivers allocated ds now id params stats = some (handle_stats m eng kv ds now id)
  handle delivers allocated ds now id params unknown_method =
      some (ds, send_error id method_missing method_not_found)

  -- A request that was parsed has a method.
  unfoldable pub dispatch_request :
      (Bytes → Bytes → Bool)
      → Bool
      → Daemon E K m.floats.Float
      → ℕ
      → Request
      → Option (Daemon E K m.floats.Float × Bytes)
  unfolding handle_generate
  dispatch_request delivers allocated ds now req =
      handle delivers allocated ds now req.id req.params (method_name req.method)
