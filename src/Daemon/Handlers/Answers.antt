-- ===== src/Daemon/Handlers/Answers.antt =====
-- Every handler but `handle_generate` answers with one line.
use qw.Base.{
  ℕ, ◌-◌, Bool, true, false, List, [], ◌∷◌, ◌++◌, Option, none, some, if◌then◌else◌, length, ◌≡◌,
  refl,
}
use qw.Base.Int.{pos}
use qw.Tokenizer.Table.{Bytes}
use qw.Daemon.Json.Escape.{json_escape_to_buf}
use qw.Daemon.Request.{Msg, parse_message_array, role_key}
use qw.Daemon.Sessions.{Session, Provider, Daemon, Created, created_at, not_created, session_find}
use qw.Daemon.Response.{
  decimal, send_error, is_one_line, OnOneLine, IsLine, OnOneLine-append, OnOneLine-check,
  decimal-OnOneLine, json_escape_to_buf-OnOneLine, send_result-IsLine, send_error-IsLine,
}
use qw.Daemon.Handlers.{
  Machine, Engine, invalid_params, no_model, no_session, require, found_or, or_default, is_some,
  bool_text, get_string, get_int, get_bool, unload, loaded, created_answer, create_from, vocab_of,
  raw_messages, replaced_by, replace_from, handle_load_model, handle_create_session,
  handle_append_turn, handle_replace_history, handle_reset_session, handle_close_session,
  handle_health, handle_stats,
}
use qw.Daemon.Texts.{
  missing_session_id, session_not_found, missing_role, missing_messages, invalid_messages,
  missing_model_path, load_failed, session_id_key, model_path_key, n_ctx_key, loaded_head,
  model_name, n_ctx_field, vocab_size_field, gpu_layers_field, session_id_head, created_at_field,
  health_head, active_field, total_field, uptime_field, stats_head, stats_loaded_field, n_ctx_after,
  n_layer_field, total_prompt_field, appended_result, replaced_result, reset_result, closed_result,
  preserve_key,
}

pub require_both :
    {A : Type 0} (P : A → Type 0) (o : Option Bytes) (missing : A) (next : Bytes → A)
    → P missing
    → ((s : Bytes) → P (next s))
    → P (require o missing next)
require_both P none missing next h k = h
require_both P (some []) missing next h k = h
require_both P (some (c ∷ s)) missing next h k = k (c ∷ s)

pub found_or_both :
    {A S : Type 0} (P : A → Type 0) (o : Option (ℕ × S)) (missing : A) (next : ℕ → S → A)
    → P missing
    → ((i : ℕ) (s : S) → o ≡ some (i, s) → P (next i s))
    → P (found_or o missing next)
found_or_both P none missing next h k = h
found_or_both P (some (i, s)) missing next h k = k i s refl

bool_text-OnOneLine : (b : Bool) → OnOneLine (bool_text b)
unfolding is_one_line
bool_text-OnOneLine true = OnOneLine-check (bool_text true) refl
bool_text-OnOneLine false = OnOneLine-check (bool_text false) refl

-- An answer of one line.
abbrev pub AnswersLine : {A : Type 0} → A × Bytes → Type 0
AnswersLine r = IsLine r.1

module _ (m : Machine) {E K : Type 0} (eng : Engine E K m.floats.Float) (kv : Provider K) where
  loaded-AnswersLine :
      (ds : Daemon E K m.floats.Float) (id : Option Bytes) (n_ctx : ℕ) (e : Option E)
      → AnswersLine (loaded m eng kv ds id n_ctx e)
  unfolding is_one_line
  loaded-AnswersLine ds id n_ctx none = send_error-IsLine id no_model load_failed
  loaded-AnswersLine ds id n_ctx (some e) = send_result-IsLine id _ (
      OnOneLine-append (loaded_head)
        (model_name
          ++ (n_ctx_field
              ++ (decimal (pos n_ctx)
                  ++ (vocab_size_field
                      ++ (decimal (pos (eng.vocab_size e))
                          ++ (gpu_layers_field ++ (decimal (pos ds.gpu_layers) ++ (b'}' ∷ []))))))))
        (OnOneLine-check loaded_head refl)
        (OnOneLine-append (model_name)
          (n_ctx_field
            ++ (decimal (pos n_ctx)
                ++ (vocab_size_field
                    ++ (decimal (pos (eng.vocab_size e))
                        ++ (gpu_layers_field ++ (decimal (pos ds.gpu_layers) ++ (b'}' ∷ [])))))))
          (OnOneLine-check model_name refl)
          (OnOneLine-append (n_ctx_field)
            (decimal (pos n_ctx)
              ++ (vocab_size_field
                  ++ (decimal (pos (eng.vocab_size e))
                      ++ (gpu_layers_field ++ (decimal (pos ds.gpu_layers) ++ (b'}' ∷ []))))))
            (OnOneLine-check n_ctx_field refl)
            (OnOneLine-append (decimal (pos n_ctx))
              (vocab_size_field
                ++ (decimal (pos (eng.vocab_size e))
                    ++ (gpu_layers_field ++ (decimal (pos ds.gpu_layers) ++ (b'}' ∷ [])))))
              (decimal-OnOneLine (pos n_ctx))
              (OnOneLine-append (vocab_size_field)
                (decimal (pos (eng.vocab_size e))
                  ++ (gpu_layers_field ++ (decimal (pos ds.gpu_layers) ++ (b'}' ∷ []))))
                (OnOneLine-check vocab_size_field refl)
                (OnOneLine-append (decimal (pos (eng.vocab_size e)))
                  (gpu_layers_field ++ (decimal (pos ds.gpu_layers) ++ (b'}' ∷ [])))
                  (decimal-OnOneLine (pos (eng.vocab_size e)))
                  (OnOneLine-append (gpu_layers_field) (decimal (pos ds.gpu_layers) ++ (b'}' ∷ []))
                    (OnOneLine-check gpu_layers_field refl)
                    (OnOneLine-append (decimal (pos ds.gpu_layers)) (b'}' ∷ [])
                      (decimal-OnOneLine (pos ds.gpu_layers))
                      (OnOneLine-check (b'}' ∷ []) refl)))))))))

  pub handle_load_model-AnswersLine :
      (ds : Daemon E K m.floats.Float) (id : Option Bytes) (params : Bytes)
      → AnswersLine (handle_load_model m eng kv ds id params)
  unfolding handle_load_model
  handle_load_model-AnswersLine ds id params =
      require_both AnswersLine (get_string m eng kv params model_path_key)
        (ds, send_error id invalid_params missing_model_path) _
        (send_error-IsLine id invalid_params missing_model_path)
        (λ path.
          loaded-AnswersLine (unload m eng kv ds ds.engine) id
            (or_default (get_int m eng kv params n_ctx_key) ds.n_ctx)
            (eng.ds3_engine_open path (or_default (get_int m eng kv params n_ctx_key) ds.n_ctx)))

  created_answer-AnswersLine :
      (id : Option Bytes) (session_id : Bytes) (now : ℕ) (ds : Daemon E K m.floats.Float)
      (c : Created)
      → AnswersLine (created_answer m eng kv id session_id now ds c)
  unfolding is_one_line
  created_answer-AnswersLine id session_id now ds (not_created code) = send_error-IsLine id code _
  created_answer-AnswersLine id session_id now ds (created_at i) = send_result-IsLine id _ (
      OnOneLine-append (session_id_head)
        (json_escape_to_buf session_id ++ (created_at_field ++ (m.stamp now ++ (b'"' ∷ b'}' ∷ []))))
        (OnOneLine-check session_id_head refl)
        (OnOneLine-append (json_escape_to_buf session_id)
          (created_at_field ++ (m.stamp now ++ (b'"' ∷ b'}' ∷ [])))
          (json_escape_to_buf-OnOneLine session_id)
          (OnOneLine-append (created_at_field) (m.stamp now ++ (b'"' ∷ b'}' ∷ []))
            (OnOneLine-check created_at_field refl)
            (OnOneLine-append (m.stamp now) (b'"' ∷ b'}' ∷ []) (m.stamp_line now)
              (OnOneLine-check (b'"' ∷ b'}' ∷ []) refl)))))

  pub handle_create_session-AnswersLine :
      (allocated : Bool) (ds : Daemon E K m.floats.Float) (now : ℕ) (id : Option Bytes)
      (params : Bytes)
      → AnswersLine (handle_create_session m eng kv allocated ds now id params)
  unfolding handle_create_session
  handle_create_session-AnswersLine allocated ds now id params =
      require_both AnswersLine (get_string m eng kv params session_id_key)
        (ds, send_error id invalid_params missing_session_id) _
        (send_error-IsLine id invalid_params missing_session_id)
        (λ session_id.
          created_answer-AnswersLine id session_id now
            (create_from m eng kv allocated ds now params session_id).0
            (create_from m eng kv allocated ds now params session_id).1)

  pub handle_append_turn-AnswersLine :
      (ds : Daemon E K m.floats.Float) (now : ℕ) (id : Option Bytes) (params : Bytes)
      → AnswersLine (handle_append_turn m eng kv ds now id params)
  unfolding handle_append_turn is_one_line
  handle_append_turn-AnswersLine ds now id params =
      require_both AnswersLine (get_string m eng kv params session_id_key)
        (ds, send_error id invalid_params missing_session_id) _
        (send_error-IsLine id invalid_params missing_session_id)
        (λ session_id.
          found_or_both AnswersLine (session_find ds.sessions session_id)
            (ds, send_error id no_session session_not_found) _
            (send_error-IsLine id no_session session_not_found)
            (λ i s e.
              require_both AnswersLine (get_string m eng kv params role_key)
                (ds, send_error id invalid_params missing_role) _
                (send_error-IsLine id invalid_params missing_role)
                (λ role.
                  send_result-IsLine id appended_result (OnOneLine-check appended_result refl))))

  replaced_by-AnswersLine :
      (ds : Daemon E K m.floats.Float) (now : ℕ) (id : Option Bytes) (session_id : Bytes)
      (preserve : Bool) (i : ℕ) (s : Session m.floats.Float) (o : Option (Option (List Msg)))
      → AnswersLine (replaced_by m eng kv ds now id session_id preserve i s o)
  unfolding is_one_line
  replaced_by-AnswersLine ds now id session_id preserve i s none =
      send_error-IsLine id invalid_params invalid_messages
  replaced_by-AnswersLine ds now id session_id preserve i s (some none) =
      send_error-IsLine id invalid_params invalid_messages
  replaced_by-AnswersLine ds now id session_id preserve i s (some (some msgs)) =
      send_result-IsLine id replaced_result (OnOneLine-check replaced_result refl)

  replace_from-AnswersLine :
      (ds : Daemon E K m.floats.Float) (now : ℕ) (id : Option Bytes) (session_id : Bytes)
      (preserve : Bool) (i : ℕ) (s : Session m.floats.Float) (o : Option Bytes)
      → AnswersLine (replace_from m eng kv ds now id session_id preserve i s o)
  replace_from-AnswersLine ds now id session_id preserve i s none =
      send_error-IsLine id invalid_params missing_messages
  replace_from-AnswersLine ds now id session_id preserve i s (some raw) =
      replaced_by-AnswersLine ds now id session_id preserve i s (parse_message_array m.doubles raw)

  pub handle_replace_history-AnswersLine :
      (ds : Daemon E K m.floats.Float) (now : ℕ) (id : Option Bytes) (params : Bytes)
      → AnswersLine (handle_replace_history m eng kv ds now id params)
  unfolding handle_replace_history
  handle_replace_history-AnswersLine ds now id params =
      require_both AnswersLine (get_string m eng kv params session_id_key)
        (ds, send_error id invalid_params missing_session_id) _
        (send_error-IsLine id invalid_params missing_session_id)
        (λ session_id.
          found_or_both AnswersLine (session_find ds.sessions session_id)
            (ds, send_error id no_session session_not_found) _
            (send_error-IsLine id no_session session_not_found)
            (λ i s e.
              replace_from-AnswersLine ds now id session_id (get_bool m eng kv params preserve_key)
                i s (raw_messages m.doubles params)))

  pub handle_reset_session-AnswersLine :
      (ds : Daemon E K m.floats.Float) (id : Option Bytes) (params : Bytes)
      → AnswersLine (handle_reset_session m eng kv ds id params)
  unfolding handle_reset_session is_one_line
  handle_reset_session-AnswersLine ds id params =
      require_both AnswersLine (get_string m eng kv params session_id_key)
        (ds, send_error id invalid_params missing_session_id) _
        (send_error-IsLine id invalid_params missing_session_id)
        (λ session_id.
          found_or_both AnswersLine (session_find ds.sessions session_id)
            (ds, send_error id no_session session_not_found) _
            (send_error-IsLine id no_session session_not_found)
            (λ i s e. send_result-IsLine id reset_result (OnOneLine-check reset_result refl)))

  pub handle_close_session-AnswersLine :
      (ds : Daemon E K m.floats.Float) (id : Option Bytes) (params : Bytes)
      → AnswersLine (handle_close_session m eng kv ds id params)
  unfolding handle_close_session is_one_line
  handle_close_session-AnswersLine ds id params =
      require_both AnswersLine (get_string m eng kv params session_id_key)
        (ds, send_error id invalid_params missing_session_id) _
        (send_error-IsLine id invalid_params missing_session_id)
        (λ session_id. send_result-IsLine id closed_result (OnOneLine-check closed_result refl))

  pub handle_health-AnswersLine :
      (ds : Daemon E K m.floats.Float) (now : ℕ) (id : Option Bytes)
      → AnswersLine (handle_health m eng kv ds now id)
  unfolding handle_health is_one_line
  handle_health-AnswersLine ds now id = send_result-IsLine id _ (
      OnOneLine-append (health_head)
        (bool_text (is_some ds.engine)
          ++ (active_field
              ++ (decimal (pos (length ds.sessions))
                  ++ (total_field
                      ++ (decimal (pos ds.total_generated)
                          ++ (uptime_field
                              ++ (decimal (pos (now - ds.started_at)) ++ (b'}' ∷ []))))))))
        (OnOneLine-check health_head refl)
        (OnOneLine-append (bool_text (is_some ds.engine))
          (active_field
            ++ (decimal (pos (length ds.sessions))
                ++ (total_field
                    ++ (decimal (pos ds.total_generated)
                        ++ (uptime_field
                            ++ (decimal (pos (now - ds.started_at)) ++ (b'}' ∷ [])))))))
          (bool_text-OnOneLine (is_some ds.engine))
          (OnOneLine-append (active_field)
            (decimal (pos (length ds.sessions))
              ++ (total_field
                  ++ (decimal (pos ds.total_generated)
                      ++ (uptime_field ++ (decimal (pos (now - ds.started_at)) ++ (b'}' ∷ []))))))
            (OnOneLine-check active_field refl)
            (OnOneLine-append (decimal (pos (length ds.sessions)))
              (total_field
                ++ (decimal (pos ds.total_generated)
                    ++ (uptime_field ++ (decimal (pos (now - ds.started_at)) ++ (b'}' ∷ [])))))
              (decimal-OnOneLine (pos (length ds.sessions)))
              (OnOneLine-append (total_field)
                (decimal (pos ds.total_generated)
                  ++ (uptime_field ++ (decimal (pos (now - ds.started_at)) ++ (b'}' ∷ []))))
                (OnOneLine-check total_field refl)
                (OnOneLine-append (decimal (pos ds.total_generated))
                  (uptime_field ++ (decimal (pos (now - ds.started_at)) ++ (b'}' ∷ [])))
                  (decimal-OnOneLine (pos ds.total_generated))
                  (OnOneLine-append (uptime_field)
                    (decimal (pos (now - ds.started_at)) ++ (b'}' ∷ []))
                    (OnOneLine-check uptime_field refl)
                    (OnOneLine-append (decimal (pos (now - ds.started_at))) (b'}' ∷ [])
                      (decimal-OnOneLine (pos (now - ds.started_at)))
                      (OnOneLine-check (b'}' ∷ []) refl)))))))))

  pub handle_stats-AnswersLine :
      (ds : Daemon E K m.floats.Float) (now : ℕ) (id : Option Bytes)
      → AnswersLine (handle_stats m eng kv ds now id)
  unfolding handle_stats is_one_line
  handle_stats-AnswersLine ds now id = send_result-IsLine id _ (
      OnOneLine-append (stats_head)
        (model_name
          ++ (stats_loaded_field
              ++ (bool_text (is_some ds.engine)
                  ++ (n_ctx_after
                      ++ (decimal (pos ds.n_ctx)
                          ++ (vocab_size_field
                              ++ (decimal (pos (vocab_of m eng kv ds.engine))
                                  ++ (n_layer_field
                                      ++ (decimal (pos (if is_some ds.engine then 48 else 0))
                                          ++ (gpu_layers_field
                                              ++ (decimal (pos ds.gpu_layers)
                                                  ++ (active_field
                                                      ++ (decimal (pos (length ds.sessions))
                                                          ++ (total_field
                                                            ++ (decimal (pos ds.total_generated)
                                                            ++ (total_prompt_field
                                                            ++ (decimal (pos ds.total_prompt_tokens)
                                                            ++ (uptime_field
                                                            ++ (decimal (pos (now - ds.started_at))
                                                            ++ (b'}' ∷ []))))))))))))))))))))
        (OnOneLine-check stats_head refl)
        (OnOneLine-append (model_name)
          (stats_loaded_field
            ++ (bool_text (is_some ds.engine)
                ++ (n_ctx_after
                    ++ (decimal (pos ds.n_ctx)
                        ++ (vocab_size_field
                            ++ (decimal (pos (vocab_of m eng kv ds.engine))
                                ++ (n_layer_field
                                    ++ (decimal (pos (if is_some ds.engine then 48 else 0))
                                        ++ (gpu_layers_field
                                            ++ (decimal (pos ds.gpu_layers)
                                                ++ (active_field
                                                    ++ (decimal (pos (length ds.sessions))
                                                        ++ (total_field
                                                            ++ (decimal (pos ds.total_generated)
                                                            ++ (total_prompt_field
                                                            ++ (decimal (pos ds.total_prompt_tokens)
                                                            ++ (uptime_field
                                                            ++ (decimal (pos (now - ds.started_at))
                                                            ++ (b'}' ∷ [])))))))))))))))))))
          (OnOneLine-check model_name refl)
          (OnOneLine-append (stats_loaded_field)
            (bool_text (is_some ds.engine)
              ++ (n_ctx_after
                  ++ (decimal (pos ds.n_ctx)
                      ++ (vocab_size_field
                          ++ (decimal (pos (vocab_of m eng kv ds.engine))
                              ++ (n_layer_field
                                  ++ (decimal (pos (if is_some ds.engine then 48 else 0))
                                      ++ (gpu_layers_field
                                          ++ (decimal (pos ds.gpu_layers)
                                              ++ (active_field
                                                  ++ (decimal (pos (length ds.sessions))
                                                      ++ (total_field
                                                          ++ (decimal (pos ds.total_generated)
                                                            ++ (total_prompt_field
                                                            ++ (decimal (pos ds.total_prompt_tokens)
                                                            ++ (uptime_field
                                                            ++ (decimal (pos (now - ds.started_at))
                                                            ++ (b'}' ∷ []))))))))))))))))))
            (OnOneLine-check stats_loaded_field refl)
            (OnOneLine-append (bool_text (is_some ds.engine))
              (n_ctx_after
                ++ (decimal (pos ds.n_ctx)
                    ++ (vocab_size_field
                        ++ (decimal (pos (vocab_of m eng kv ds.engine))
                            ++ (n_layer_field
                                ++ (decimal (pos (if is_some ds.engine then 48 else 0))
                                    ++ (gpu_layers_field
                                        ++ (decimal (pos ds.gpu_layers)
                                            ++ (active_field
                                                ++ (decimal (pos (length ds.sessions))
                                                    ++ (total_field
                                                        ++ (decimal (pos ds.total_generated)
                                                            ++ (total_prompt_field
                                                            ++ (decimal (pos ds.total_prompt_tokens)
                                                            ++ (uptime_field
                                                            ++ (decimal (pos (now - ds.started_at))
                                                            ++ (b'}' ∷ [])))))))))))))))))
              (bool_text-OnOneLine (is_some ds.engine))
              (OnOneLine-append (n_ctx_after)
                (decimal (pos ds.n_ctx)
                  ++ (vocab_size_field
                      ++ (decimal (pos (vocab_of m eng kv ds.engine))
                          ++ (n_layer_field
                              ++ (decimal (pos (if is_some ds.engine then 48 else 0))
                                  ++ (gpu_layers_field
                                      ++ (decimal (pos ds.gpu_layers)
                                          ++ (active_field
                                              ++ (decimal (pos (length ds.sessions))
                                                  ++ (total_field
                                                      ++ (decimal (pos ds.total_generated)
                                                          ++ (total_prompt_field
                                                            ++ (decimal (pos ds.total_prompt_tokens)
                                                            ++ (uptime_field
                                                            ++ (decimal (pos (now - ds.started_at))
                                                            ++ (b'}' ∷ []))))))))))))))))
                (OnOneLine-check n_ctx_after refl)
                (OnOneLine-append (decimal (pos ds.n_ctx))
                  (vocab_size_field
                    ++ (decimal (pos (vocab_of m eng kv ds.engine))
                        ++ (n_layer_field
                            ++ (decimal (pos (if is_some ds.engine then 48 else 0))
                                ++ (gpu_layers_field
                                    ++ (decimal (pos ds.gpu_layers)
                                        ++ (active_field
                                            ++ (decimal (pos (length ds.sessions))
                                                ++ (total_field
                                                    ++ (decimal (pos ds.total_generated)
                                                        ++ (total_prompt_field
                                                            ++ (decimal (pos ds.total_prompt_tokens)
                                                            ++ (uptime_field
                                                            ++ (decimal (pos (now - ds.started_at))
                                                            ++ (b'}' ∷ [])))))))))))))))
                  (decimal-OnOneLine (pos ds.n_ctx))
                  (OnOneLine-append (vocab_size_field)
                    (decimal (pos (vocab_of m eng kv ds.engine))
                      ++ (n_layer_field
                          ++ (decimal (pos (if is_some ds.engine then 48 else 0))
                              ++ (gpu_layers_field
                                  ++ (decimal (pos ds.gpu_layers)
                                      ++ (active_field
                                          ++ (decimal (pos (length ds.sessions))
                                              ++ (total_field
                                                  ++ (decimal (pos ds.total_generated)
                                                      ++ (total_prompt_field
                                                          ++ (decimal (pos ds.total_prompt_tokens)
                                                            ++ (uptime_field
                                                            ++ (decimal (pos (now - ds.started_at))
                                                            ++ (b'}' ∷ []))))))))))))))
                    (OnOneLine-check vocab_size_field refl)
                    (OnOneLine-append (decimal (pos (vocab_of m eng kv ds.engine)))
                      (n_layer_field
                        ++ (decimal (pos (if is_some ds.engine then 48 else 0))
                            ++ (gpu_layers_field
                                ++ (decimal (pos ds.gpu_layers)
                                    ++ (active_field
                                        ++ (decimal (pos (length ds.sessions))
                                            ++ (total_field
                                                ++ (decimal (pos ds.total_generated)
                                                    ++ (total_prompt_field
                                                        ++ (decimal (pos ds.total_prompt_tokens)
                                                            ++ (uptime_field
                                                            ++ (decimal (pos (now - ds.started_at))
                                                            ++ (b'}' ∷ [])))))))))))))
                      (decimal-OnOneLine (pos (vocab_of m eng kv ds.engine)))
                      (OnOneLine-append (n_layer_field)
                        (decimal (pos (if is_some ds.engine then 48 else 0))
                          ++ (gpu_layers_field
                              ++ (decimal (pos ds.gpu_layers)
                                  ++ (active_field
                                      ++ (decimal (pos (length ds.sessions))
                                          ++ (total_field
                                              ++ (decimal (pos ds.total_generated)
                                                  ++ (total_prompt_field
                                                      ++ (decimal (pos ds.total_prompt_tokens)
                                                          ++ (uptime_field
                                                            ++ (decimal (pos (now - ds.started_at))
                                                            ++ (b'}' ∷ []))))))))))))
                        (OnOneLine-check n_layer_field refl)
                        (OnOneLine-append (decimal (pos (if is_some ds.engine then 48 else 0)))
                          (gpu_layers_field
                            ++ (decimal (pos ds.gpu_layers)
                                ++ (active_field
                                    ++ (decimal (pos (length ds.sessions))
                                        ++ (total_field
                                            ++ (decimal (pos ds.total_generated)
                                                ++ (total_prompt_field
                                                    ++ (decimal (pos ds.total_prompt_tokens)
                                                        ++ (uptime_field
                                                            ++ (decimal (pos (now - ds.started_at))
                                                            ++ (b'}' ∷ [])))))))))))
                          (decimal-OnOneLine (pos (if is_some ds.engine then 48 else 0)))
                          (OnOneLine-append (gpu_layers_field)
                            (decimal (pos ds.gpu_layers)
                              ++ (active_field
                                  ++ (decimal (pos (length ds.sessions))
                                      ++ (total_field
                                          ++ (decimal (pos ds.total_generated)
                                              ++ (total_prompt_field
                                                  ++ (decimal (pos ds.total_prompt_tokens)
                                                      ++ (uptime_field
                                                          ++ (decimal (pos (now - ds.started_at))
                                                            ++ (b'}' ∷ []))))))))))
                            (OnOneLine-check gpu_layers_field refl)
                            (OnOneLine-append (decimal (pos ds.gpu_layers))
                              (active_field
                                ++ (decimal (pos (length ds.sessions))
                                    ++ (total_field
                                        ++ (decimal (pos ds.total_generated)
                                            ++ (total_prompt_field
                                                ++ (decimal (pos ds.total_prompt_tokens)
                                                    ++ (uptime_field
                                                        ++ (decimal (pos (now - ds.started_at))
                                                            ++ (b'}' ∷ [])))))))))
                              (decimal-OnOneLine (pos ds.gpu_layers))
                              (OnOneLine-append (active_field)
                                (decimal (pos (length ds.sessions))
                                  ++ (total_field
                                      ++ (decimal (pos ds.total_generated)
                                          ++ (total_prompt_field
                                              ++ (decimal (pos ds.total_prompt_tokens)
                                                  ++ (uptime_field
                                                      ++ (decimal (pos (now - ds.started_at))
                                                          ++ (b'}' ∷ []))))))))
                                (OnOneLine-check active_field refl)
                                (OnOneLine-append (decimal (pos (length ds.sessions)))
                                  (total_field
                                    ++ (decimal (pos ds.total_generated)
                                        ++ (total_prompt_field
                                            ++ (decimal (pos ds.total_prompt_tokens)
                                                ++ (uptime_field
                                                    ++ (decimal (pos (now - ds.started_at))
                                                        ++ (b'}' ∷ [])))))))
                                  (decimal-OnOneLine (pos (length ds.sessions)))
                                  (OnOneLine-append (total_field)
                                    (decimal (pos ds.total_generated)
                                      ++ (total_prompt_field
                                          ++ (decimal (pos ds.total_prompt_tokens)
                                              ++ (uptime_field
                                                  ++ (decimal (pos (now - ds.started_at))
                                                      ++ (b'}' ∷ []))))))
                                    (OnOneLine-check total_field refl)
                                    (OnOneLine-append (decimal (pos ds.total_generated))
                                      (total_prompt_field
                                        ++ (decimal (pos ds.total_prompt_tokens)
                                            ++ (uptime_field
                                                ++ (decimal (pos (now - ds.started_at))
                                                    ++ (b'}' ∷ [])))))
                                      (decimal-OnOneLine (pos ds.total_generated))
                                      (OnOneLine-append (total_prompt_field)
                                        (decimal (pos ds.total_prompt_tokens)
                                          ++ (uptime_field
                                              ++ (decimal (pos (now - ds.started_at))
                                                  ++ (b'}' ∷ []))))
                                        (OnOneLine-check total_prompt_field refl)
                                        (OnOneLine-append (decimal (pos ds.total_prompt_tokens))
                                          (uptime_field
                                            ++ (decimal (pos (now - ds.started_at)) ++ (b'}' ∷ [])))
                                          (decimal-OnOneLine (pos ds.total_prompt_tokens))
                                          (OnOneLine-append (uptime_field)
                                            (decimal (pos (now - ds.started_at)) ++ (b'}' ∷ []))
                                            (OnOneLine-check uptime_field refl)
                                            (OnOneLine-append (decimal (pos (now - ds.started_at)))
                                              (b'}' ∷ [])
                                              (decimal-OnOneLine (pos (now - ds.started_at)))
                                              (OnOneLine-check (b'}' ∷ []) refl)))))))))))))))))))))
