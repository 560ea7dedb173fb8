-- ===== src/Daemon/Generate/Lines.antt =====
-- `dispatch_request` answers every request but `generate` with one line.
use qw.Base.{ℕ, Bool, Option, none, some, ◌≡◌, ◌≢◌, refl, sym}
use mathlib.Core.Path.{subst}
use qw.Tokenizer.Table.{Bytes}
use qw.Daemon.Request.{Request}
use qw.Daemon.Sessions.{Provider, Daemon}
use qw.Daemon.Response.{IsLine, send_error-IsLine}
use qw.Daemon.Handlers.{Machine, Engine, method_missing}
use qw.Daemon.Handlers.Answers.{
  handle_load_model-AnswersLine, handle_create_session-AnswersLine, handle_append_turn-AnswersLine,
  handle_replace_history-AnswersLine, handle_reset_session-AnswersLine,
  handle_close_session-AnswersLine, handle_health-AnswersLine, handle_stats-AnswersLine,
}
use qw.Daemon.Generate.{
  Method, load_model, create_session, generate, append_turn, replace_history, reset_session,
  close_session, health, stats, unknown_method, handle, method_name, dispatch_request,
}
use qw.Daemon.Texts.{method_not_found}

-- The request was answered, with one line.
abbrev pub Answered : {A : Type 0} → Option (A × Bytes) → Type 0
Answered none = ⊥
Answered (some r) = IsLine r.1

module _ (m : Machine) {E K : Type 0} (eng : Engine E K m.floats.Float) (kv : Provider K) where
  handle-Answered :
      (delivers : Bytes → Bytes → Bool) (allocated : Bool) (ds : Daemon E K m.floats.Float)
      (now : ℕ) (id : Option Bytes) (params : Bytes) (k : Method)
      → k ≢ generate
      → Answered (handle m eng kv delivers allocated ds now id (some params) k)
  handle-Answered delivers allocated ds now id params load_model h =
      handle_load_model-AnswersLine m eng kv ds id params
  handle-Answered delivers allocated ds now id params create_session h =
      handle_create_session-AnswersLine m eng kv allocated ds now id params
  handle-Answered delivers allocated ds now id params generate h = absurd (h refl)
  handle-Answered delivers allocated ds now id params append_turn h =
      handle_append_turn-AnswersLine m eng kv ds now id params
  handle-Answered delivers allocated ds now id params replace_history h =
      handle_replace_history-AnswersLine m eng kv ds now id params
  handle-Answered delivers allocated ds now id params reset_session h =
      handle_reset_session-AnswersLine m eng kv ds id params
  handle-Answered delivers allocated ds now id params close_session h =
      handle_close_session-AnswersLine m eng kv ds id params
  handle-Answered delivers allocated ds now id params health h =
      handle_health-AnswersLine m eng kv ds now id
  handle-Answered delivers allocated ds now id params stats h =
      handle_stats-AnswersLine m eng kv ds now id
  handle-Answered delivers allocated ds now id params unknown_method h =
      send_error-IsLine id method_missing method_not_found

  -- Every request with parameters, but a `generate`, is answered by exactly one line: whatever its id,
  -- method and parameters are, the bytes written hold one line break, at their end.
  pub dispatch_request-Answered :
      (delivers : Bytes → Bytes → Bool) (allocated : Bool) (ds : Daemon E K m.floats.Float)
      (now : ℕ) (req : Request) (params : Bytes)
      → req.params ≡ some params
      → method_name req.method ≢ generate
      → Answered (dispatch_request m eng kv delivers allocated ds now req)
  unfolding dispatch_request
  dispatch_request-Answered delivers allocated ds now req params e h =
      subst
        (λ p.
          Answered (handle m eng kv delivers allocated ds now req.id p (method_name req.method)))
        (sym e) (handle-Answered delivers allocated ds now req.id params (method_name req.method) h)
