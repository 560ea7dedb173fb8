-- ===== src/Daemon/Generate/Keep.antt =====
-- `dispatch_request` keeps the invariant of the sessions.
use qw.Base.{
  ℕ, ◌+◌, Bool, true, false, List, [], ◌∷◌, Option, none, some, ◌==◌, leb, if◌then◌else◌, if_both,
  length, get_elem?, ◌≡◌, refl,
}
use qw.Base.Int.{ℤ, pos, negsuc}
use qw.Tokenizer.Table.{Bytes}
use qw.Daemon.Request.{Request}
use qw.Daemon.Sessions.{Session, Provider, Daemon, session_find, session_append_message}
use qw.Daemon.Sessions.Valid.{IsDaemon, Fits, session_find-some, session_append_message-Fits}
use qw.Daemon.Prompt.{build_chat_prompt}
use qw.Daemon.Response.{send_error}
use qw.Daemon.Handlers.{
  Machine, Generated, tokens_of, timed_out, not_generated, Engine, invalid_params, no_model,
  no_session, or_else, get_string, get_int, get_bool, get_float, handle_health, handle_stats,
}
use qw.Daemon.Handlers.Answers.{require_both, found_or_both}
use qw.Daemon.Handlers.Keep.{
  KeepsDaemon, session_set-IsDaemon, handle_load_model-KeepsDaemon,
  handle_create_session-KeepsDaemon, handle_append_turn-KeepsDaemon,
  handle_replace_history-KeepsDaemon, handle_reset_session-KeepsDaemon,
  handle_close_session-KeepsDaemon,
}
use qw.Daemon.Generate.{
  Answer, answer_code, answered, Method, load_model, create_session, generate, append_turn,
  replace_history, reset_session, close_session, health, stats, unknown_method, known_to, told,
  finish, run, generate_from, generate_for_session, user_msg, assistant_msg, with_turns,
  append_turns, reply, or_no_prompt, with_engine, handle_generate, on_params, handle, method_name,
  dispatch_request,
}
use qw.Daemon.Texts.{
  missing_session_id, session_not_found, not_loaded, session_id_key, user_prompt_key, context_key,
  temperature_key, max_tokens_key, stream_key,
}

-- Where a request was answered, the daemon is as it should be.
abbrev pub KeepsIfAnswered : {E K F : Type 0} → Option (Daemon E K F × Bytes) → Type 0
KeepsIfAnswered none = Unit
KeepsIfAnswered (some r) = IsDaemon r.0

module _ (m : Machine) {E K : Type 0} (eng : Engine E K m.floats.Float) (kv : Provider K) where
  known_to-same :
      (k : Option K) (s : Session m.floats.Float)
      → Fits s
      → (known_to m eng kv k s).id ≡ s.id × Fits (known_to m eng kv k s)
  known_to-same none s h = (refl, h)
  known_to-same (some k) s h = (refl, h)

  finish-IsDaemon :
      (ds : Daemon E K m.floats.Float) (now i : ℕ) {old : Session m.floats.Float}
      (s : Session m.floats.Float) (n_prompt : ℕ) (failed : Bool) (e : E) (g : Generated)
      → IsDaemon ds
      → get_elem? ds.sessions i ≡ some old
      → s.id ≡ old.id
      → Fits s
      → IsDaemon (finish m eng kv ds now i s n_prompt failed e g).0
  finish-IsDaemon ds now i s n_prompt true e g v at same fits =
      session_set-IsDaemon ds i s v at same fits
  finish-IsDaemon ds now i s n_prompt false e timed_out v at same fits =
      session_set-IsDaemon ds i s v at same fits
  finish-IsDaemon ds now i s n_prompt false e not_generated v at same fits =
      session_set-IsDaemon ds i s v at same fits
  finish-IsDaemon ds now i s n_prompt false e (tokens_of ts) v at same fits =
      let w =
        session_set-IsDaemon ds i
          (record s { total_generated = s.total_generated + length ts; last_active = now }) v at
          same fits in
      record { distinct = w.distinct; fit = w.fit; in_array = w.in_array; in_limit = w.in_limit }

  run-IsDaemon :
      (delivers : Bytes → Bytes → Bool) (ds : Daemon E K m.floats.Float) (now : ℕ)
      (id : Option Bytes) (i : ℕ) {old : Session m.floats.Float} (s : Session m.floats.Float)
      (n_prompt max_gen : ℕ) (stream : Bool) (r : E × Option K × List ℤ × Generated)
      → IsDaemon ds
      → get_elem? ds.sessions i ≡ some old
      → s.id ≡ old.id
      → Fits s
      → IsDaemon (run m eng kv delivers ds now id i s n_prompt max_gen stream r).0
  run-IsDaemon delivers ds now id i s n_prompt max_gen stream (e, k, selected, g) v at same fits =
      finish-IsDaemon (record ds { engine = some e; kv_provider = k }) now i s n_prompt _ e g
        (record {
          distinct = v.distinct;
          fit = v.fit;
          in_array = v.in_array;
          in_limit = v.in_limit;
        })
        at same fits

  generate_from-IsDaemon :
      (delivers : Bytes → Bytes → Bool) (ds : Daemon E K m.floats.Float) (now : ℕ)
      (id : Option Bytes) (e : E) (i : ℕ) (s : Session m.floats.Float)
      (temperature : m.floats.Float) (max_tokens : ℕ) (stream : Bool) (prompt : Option (List ℤ))
      → IsDaemon ds
      → get_elem? ds.sessions i ≡ some s
      → IsDaemon
          (generate_from m eng kv delivers ds now id e i s temperature max_tokens stream prompt).0
  generate_from-IsDaemon delivers ds now id e i s temperature max_tokens stream none v at = v
  generate_from-IsDaemon delivers ds now id e i s temperature max_tokens stream (some prompt) v at =
      let known = known_to-same ds.kv_provider s (v.fit i s at) in
      if_both (λ (r : Daemon E K m.floats.Float × Bytes × Answer). IsDaemon r.0)
        (leb s.n_ctx (length prompt)) (ds, [], answer_code (negsuc 1)) _ (λ t. v)
        (λ t.
          run-IsDaemon delivers ds now id i (known_to m eng kv ds.kv_provider s) (length prompt)
            (if max_tokens == 0 then s.max_tokens else max_tokens) stream
            (eng.generate e (told m eng kv ds.kv_provider s) s.id prompt
              (if max_tokens == 0 then s.max_tokens else max_tokens)
              (if m.not_negative temperature then temperature else s.temperature))
            v at known.0 known.1)

  with_turns-same :
      (now : ℕ) (u text : Bytes) (s : Session m.floats.Float)
      → Fits s
      → (with_turns m eng kv now u text s).id ≡ s.id × Fits (with_turns m eng kv now u text s)
  unfolding session_append_message
  with_turns-same now [] text s h = (refl, session_append_message-Fits now s (assistant_msg text) h)
  with_turns-same now (c ∷ u) text s h = (
    refl,
    session_append_message-Fits now (session_append_message now s (user_msg (c ∷ u)))
        (assistant_msg text) (session_append_message-Fits now s (user_msg (c ∷ u)) h),
  )

  append_turns-IsDaemon :
      (ds : Daemon E K m.floats.Float) (now i : ℕ) (u text : Bytes)
      (o : Option (Session m.floats.Float))
      → get_elem? ds.sessions i ≡ o
      → IsDaemon ds
      → IsDaemon (append_turns m eng kv ds now i u text o)
  append_turns-IsDaemon ds now i u text none e v = v
  append_turns-IsDaemon ds now i u text (some s) e v =
      let both = with_turns-same now u text s (v.fit i s e) in
      session_set-IsDaemon ds i (with_turns m eng kv now u text s) v e both.0 both.1

  reply-KeepsDaemon :
      (now : ℕ) (id : Option Bytes) (session_id u : Bytes) (i : ℕ) (s : Session m.floats.Float)
      (stream : Bool) (r : Daemon E K m.floats.Float × Bytes × Answer)
      → IsDaemon r.0
      → KeepsDaemon (reply m eng kv now id session_id u i s stream r)
  reply-KeepsDaemon now id session_id u i s stream (ds, out, answer_code (pos n)) v = v
  reply-KeepsDaemon now id session_id u i s stream (ds, out, answer_code (negsuc n)) v = v
  reply-KeepsDaemon now id session_id u i s stream
        (ds, out, answered text n_prompt n_gen cached new_cached) v =
      append_turns-IsDaemon ds now i u text (get_elem? ds.sessions i) refl v

  with_engine_both :
      (P : Daemon E K m.floats.Float × Bytes → Type 0) (ds : Daemon E K m.floats.Float)
      (id : Option Bytes) (o : Option E) (next : E → Daemon E K m.floats.Float × Bytes)
      → P (ds, send_error id no_model not_loaded)
      → ((e : E) → P (next e))
      → P (with_engine m eng kv ds id o next)
  with_engine_both P ds id none next h k = h
  with_engine_both P ds id (some e) next h k = k e

  handle_generate-KeepsDaemon :
      (delivers : Bytes → Bytes → Bool) (ds : Daemon E K m.floats.Float) (now : ℕ)
      (id : Option Bytes) (params : Bytes)
      → IsDaemon ds
      → KeepsDaemon (handle_generate m eng kv delivers ds now id params)
  unfolding handle_generate generate_for_session
  handle_generate-KeepsDaemon delivers ds now id params v =
      require_both KeepsDaemon (get_string m eng kv params session_id_key)
        (ds, send_error id invalid_params missing_session_id) _ v
        (λ session_id. with_engine_both KeepsDaemon ds id ds.engine _ v (λ e.
          found_or_both KeepsDaemon (session_find ds.sessions session_id)
            (ds, send_error id no_session session_not_found) _ v
            (λ i s found.
              reply-KeepsDaemon now id session_id
                (or_no_prompt m eng kv (get_string m eng kv params user_prompt_key)) i s
                (get_bool m eng kv params stream_key) _
                (generate_from-IsDaemon delivers ds now id e i s
                  (get_float m eng kv params temperature_key m.minus_one)
                  (or_else (get_int m eng kv params max_tokens_key) 0)
                  (get_bool m eng kv params stream_key)
                  (eng.tokenize e
                    (build_chat_prompt s
                      (or_no_prompt m eng kv (get_string m eng kv params user_prompt_key))
                      (get_string m eng kv params context_key))
                    s.n_ctx)
                  v (session_find-some ds.sessions session_id found).0))))

  on_params-Keeps :
      (params : Option Bytes) (h : Bytes → Daemon E K m.floats.Float × Bytes)
      → ((p : Bytes) → KeepsDaemon (h p))
      → KeepsIfAnswered (on_params m eng kv params h)
  on_params-Keeps none h k = tt
  on_params-Keeps (some p) h k = k p

  handle-Keeps :
      (delivers : Bytes → Bytes → Bool) (allocated : Bool) (ds : Daemon E K m.floats.Float)
      (now : ℕ) (id params : Option Bytes) (k : Method)
      → IsDaemon ds
      → KeepsIfAnswered (handle m eng kv delivers allocated ds now id params k)
  unfolding handle_health handle_stats
  handle-Keeps delivers allocated ds now id params load_model v =
      on_params-Keeps params _ (λ p. handle_load_model-KeepsDaemon m eng kv ds id p v)
  handle-Keeps delivers allocated ds now id params create_session v =
      on_params-Keeps params _
        (λ p. handle_create_session-KeepsDaemon m eng kv allocated ds now id p v)
  handle-Keeps delivers allocated ds now id params generate v =
      on_params-Keeps params _ (λ p. handle_generate-KeepsDaemon delivers ds now id p v)
  handle-Keeps delivers allocated ds now id params append_turn v =
      on_params-Keeps params _ (λ p. handle_append_turn-KeepsDaemon m eng kv ds now id p v)
  handle-Keeps delivers allocated ds now id params replace_history v =
      on_params-Keeps params _ (λ p. handle_replace_history-KeepsDaemon m eng kv ds now id p v)
  handle-Keeps delivers allocated ds now id params reset_session v =
      on_params-Keeps params _ (λ p. handle_reset_session-KeepsDaemon m eng kv ds id p v)
  handle-Keeps delivers allocated ds now id params close_session v =
      on_params-Keeps params _ (λ p. handle_close_session-KeepsDaemon m eng kv ds id p v)
  handle-Keeps delivers allocated ds now id params health v = v
  handle-Keeps delivers allocated ds now id params stats v = v
  handle-Keeps delivers allocated ds now id params unknown_method v = v

  -- Whatever the request is, behind its answer the sessions are as they should be: the ids are distinct,
  -- the sessions fit in their array and below the limit, and the messages of each fit in theirs.
  pub dispatch_request-Keeps :
      (delivers : Bytes → Bytes → Bool) (allocated : Bool) (ds : Daemon E K m.floats.Float)
      (now : ℕ) (req : Request)
      → IsDaemon ds
      → KeepsIfAnswered (dispatch_request m eng kv delivers allocated ds now req)
  unfolding dispatch_request
  dispatch_request-Keeps delivers allocated ds now req v =
      handle-Keeps delivers allocated ds now req.id req.params (method_name req.method) v
