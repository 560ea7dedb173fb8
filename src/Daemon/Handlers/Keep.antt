-- ===== src/Daemon/Handlers/Keep.antt =====
-- The handlers keep the invariant of the sessions.
use qw.Base.{
  ℕ, zero, suc, ◌<◌, Bool, true, List, [], ◌∷◌, Option, none, some, if_both, length, set, get_elem?,
  ◌≡◌, refl, ap, ◌∙◌, sym, arith, Option-cases, inl, inr, ◌⊎◌, length-set,
}
use mathlib.Core.Path.{subst}
use qw.Base.First.{get_elem?_bound}
use qw.Tokenizer.Table.{Bytes}
use qw.Daemon.Request.{Msg, parse_message_array, role_key}
use qw.Daemon.Sessions.{
  Session, Provider, Daemon, Created, created_at, not_created, session_find, session_append_message,
  append_all, session_replace_history, session_remove_at,
}
use qw.Daemon.Sessions.Valid.{
  IsDaemon, Fits, session_find-some, session_append_message-Fits, session_remove_at-IsDaemon,
  session_close-Closed,
}
use qw.Daemon.Sessions.Evict.{session_create-IsDaemon}
use qw.Daemon.Handlers.{
  Machine, Engine, invalid_params, no_session, or_default, is_some, session_set, close_all,
  get_string, get_int, get_bool, unload, loaded, tell_provider, session_of, create_from,
  created_answer, raw_messages, replaced_by, replace_from, handle_load_model, handle_create_session,
  handle_append_turn, handle_replace_history, handle_reset_session, handle_close_session,
}
use qw.Daemon.Handlers.Answers.{require_both, found_or_both}
use qw.Daemon.Response.{send_error}
use qw.Daemon.Texts.{
  missing_session_id, session_not_found, missing_role, missing_model_path, session_id_key,
  model_path_key, n_ctx_key, preserve_key,
}

module _ {F : Type 0} where
  -- What changes at an index: only that element.
  set_from :
      (ss : List (Session F)) (i j : ℕ) (s : Session F) {a : Session F}
      → i < length ss
      → get_elem? (set ss i s) j ≡ some a
      → ((j ≡ i) × (s ≡ a)) ⊎ (get_elem? ss j ≡ some a)
  set_from [] i j s h at = absurd (omega arith)
  set_from (x ∷ ss) zero zero s h at = inl (refl, cc)
  set_from (x ∷ ss) zero (suc j) s h at = inr at
  set_from (x ∷ ss) (suc i) zero s h at = inr at
  set_from (x ∷ ss) (suc i) (suc j) s h at = elim (set_from ss i j s (omega arith) at) [
    | inl (e, same) ↦ inl (ap suc e, same)
    | inr old ↦ inr old
  ]

module _ {E K F : Type 0} where
  -- A session may change to one with its id whose messages fit.
  pub session_set-IsDaemon :
      (ds : Daemon E K F) (i : ℕ) {s : Session F} (s' : Session F)
      → IsDaemon ds
      → get_elem? ds.sessions i ≡ some s
      → s'.id ≡ s.id
      → Fits s'
      → IsDaemon (session_set ds i s')
  session_set-IsDaemon ds i {s} s' v at e fits =
      let h = get_elem?_bound ds.sessions i at in
      let len = length-set ds.sessions i s' in
      record {
        distinct = λ j k a b aj bk same. elim (set_from ds.sessions i j s' h aj) [
          | inl (je, ja) ↦ elim (set_from ds.sessions i k s' h bk) [
            | inl (ke, kb) ↦ je ∙ sym ke
            | inr old ↦ je ∙ v.distinct i k s b at old (sym e ∙ ap (λ x. x.id) ja ∙ same)
          ]
          | inr old ↦ elim (set_from ds.sessions i k s' h bk) [
            | inl (ke, kb) ↦ v.distinct j i a s old at (same ∙ ap (λ x. x.id) (sym kb) ∙ e) ∙ sym ke
            | inr older ↦ v.distinct j k a b old older same
          ]
        ];
        fit = λ j a aj. elim (set_from ds.sessions i j s' h aj) [
          | inl (je, ja) ↦ subst Fits ja fits
          | inr old ↦ v.fit j a old
        ];
        in_array = omega (arith, v.in_array);
        in_limit = λ l. omega (arith, v.in_limit l);
      }

  -- The provider and the engine are not part of it.
  pub with_kv-IsDaemon :
      (ds : Daemon E K F) (k : Option K) → IsDaemon ds → IsDaemon (record ds { kv_provider = k })
  with_kv-IsDaemon ds k v = record {
    distinct = v.distinct;
    fit = v.fit;
    in_array = v.in_array;
    in_limit = v.in_limit;
  }

  pub with_engine-IsDaemon :
      (ds : Daemon E K F) (e : Option E) → IsDaemon ds → IsDaemon (record ds { engine = e })
  with_engine-IsDaemon ds e v = record {
    distinct = v.distinct;
    fit = v.fit;
    in_array = v.in_array;
    in_limit = v.in_limit;
  }

module _ {F : Type 0} where
  append_all-Fits :
      (now : ℕ) (s : Session F) (ms : List Msg)
      → Fits s
      → (append_all now s ms).id ≡ s.id × Fits (append_all now s ms)
  unfolding append_all session_append_message
  append_all-Fits now s [] h = (refl, h)
  append_all-Fits now s (m ∷ ms) h =
      append_all-Fits now (session_append_message now s m) ms
        (session_append_message-Fits now s m h)

pub appended-IsDaemon :
    {E K F : Type 0} (ds : Daemon E K F) (now : ℕ) (session_id : Bytes) (m : Msg) {i : ℕ}
    {s : Session F}
    → IsDaemon ds
    → session_find ds.sessions session_id ≡ some (i, s)
    → IsDaemon (session_set ds i (session_append_message now s m))
unfolding session_append_message
appended-IsDaemon ds now session_id m {i} {s} v e =
    let at = (session_find-some ds.sessions session_id e).0 in
    session_set-IsDaemon ds i (session_append_message now s m) v at refl
      (session_append_message-Fits now s m (v.fit i s at))

-- The daemon of an answer is as it should be.
abbrev pub KeepsDaemon : {E K F : Type 0} → Daemon E K F × Bytes → Type 0
KeepsDaemon r = IsDaemon r.0

module _ {E K F : Type 0} (kv : Provider K) where
  close_all-IsDaemon : (n : ℕ) (ds : Daemon E K F) → IsDaemon ds → IsDaemon (close_all kv n ds)
  unfolding close_all
  close_all-IsDaemon zero ds v = v
  close_all-IsDaemon (suc n) ds v = elim (Option-cases (get_elem? ds.sessions 0)) [
    | inl e ↦
        subst
          (λ o.
            IsDaemon (elim o [ none ↦ ds | some s ↦ close_all kv n (session_remove_at kv ds 0 s) ]))
          (sym e) v
    | inr (s, e) ↦
        subst
          (λ o.
            IsDaemon (elim o [ none ↦ ds | some s ↦ close_all kv n (session_remove_at kv ds 0 s) ]))
          (sym e)
          (close_all-IsDaemon n (session_remove_at kv ds 0 s)
            (session_remove_at-IsDaemon kv ds 0 e v))
  ]

module _ (m : Machine) {E K : Type 0} (eng : Engine E K m.floats.Float) (kv : Provider K) where
  unload-IsDaemon :
      (ds : Daemon E K m.floats.Float) (e : Option E)
      → IsDaemon ds
      → IsDaemon (unload m eng kv ds e)
  unload-IsDaemon ds none v = v
  unload-IsDaemon ds (some e) v =
      with_engine-IsDaemon (close_all kv (length ds.sessions) ds) none
        (close_all-IsDaemon kv (length ds.sessions) ds v)

  loaded-KeepsDaemon :
      (ds : Daemon E K m.floats.Float) (id : Option Bytes) (n_ctx : ℕ) (e : Option E)
      → IsDaemon ds
      → KeepsDaemon (loaded m eng kv ds id n_ctx e)
  loaded-KeepsDaemon ds id n_ctx none v = with_engine-IsDaemon ds none v
  loaded-KeepsDaemon ds id n_ctx (some e) v = record {
    distinct = v.distinct;
    fit = v.fit;
    in_array = v.in_array;
    in_limit = v.in_limit;
  }

  pub handle_load_model-KeepsDaemon :
      (ds : Daemon E K m.floats.Float) (id : Option Bytes) (params : Bytes)
      → IsDaemon ds
      → KeepsDaemon (handle_load_model m eng kv ds id params)
  unfolding handle_load_model
  handle_load_model-KeepsDaemon ds id params v =
      require_both KeepsDaemon (get_string m eng kv params model_path_key)
        (ds, send_error id invalid_params missing_model_path) _ v
        (λ path.
          loaded-KeepsDaemon (unload m eng kv ds ds.engine) id
            (or_default (get_int m eng kv params n_ctx_key) ds.n_ctx)
            (eng.ds3_engine_open path (or_default (get_int m eng kv params n_ctx_key) ds.n_ctx))
            (unload-IsDaemon ds ds.engine v))

  tell_provider-IsDaemon :
      (ds : Daemon E K m.floats.Float) (i : ℕ) (o : Option (Session m.floats.Float))
      → get_elem? ds.sessions i ≡ o
      → IsDaemon ds
      → IsDaemon (tell_provider m eng kv ds i o)
  tell_provider-IsDaemon ds i none e v = v
  tell_provider-IsDaemon ds i (some s) e v =
      if_both IsDaemon (is_some ds.kv_provider) _ ds
        (λ t. with_kv-IsDaemon (session_set ds i (record s { provider_session_created = true })) _ (
          session_set-IsDaemon ds i (record s { provider_session_created = true }) v e refl
            (v.fit i s e)))
        (λ t. v)

  created_answer-KeepsDaemon :
      (id : Option Bytes) (session_id : Bytes) (now : ℕ) (ds : Daemon E K m.floats.Float)
      (c : Created)
      → IsDaemon ds
      → KeepsDaemon (created_answer m eng kv id session_id now ds c)
  created_answer-KeepsDaemon id session_id now ds (not_created code) v = v
  created_answer-KeepsDaemon id session_id now ds (created_at i) v =
      tell_provider-IsDaemon ds i (get_elem? ds.sessions i) refl v

  pub handle_create_session-KeepsDaemon :
      (allocated : Bool) (ds : Daemon E K m.floats.Float) (now : ℕ) (id : Option Bytes)
      (params : Bytes)
      → IsDaemon ds
      → KeepsDaemon (handle_create_session m eng kv allocated ds now id params)
  unfolding handle_create_session
  handle_create_session-KeepsDaemon allocated ds now id params v =
      require_both KeepsDaemon (get_string m eng kv params session_id_key)
        (ds, send_error id invalid_params missing_session_id) _ v
        (λ session_id.
          created_answer-KeepsDaemon id session_id now
            (create_from m eng kv allocated ds now params session_id).0
            (create_from m eng kv allocated ds now params session_id).1
            (session_create-IsDaemon kv allocated ds session_id
              (session_of m eng kv now params session_id) v
              (λ n. (refl, ((omega arith), (omega arith))))))

  pub handle_append_turn-KeepsDaemon :
      (ds : Daemon E K m.floats.Float) (now : ℕ) (id : Option Bytes) (params : Bytes)
      → IsDaemon ds
      → KeepsDaemon (handle_append_turn m eng kv ds now id params)
  unfolding handle_append_turn
  handle_append_turn-KeepsDaemon ds now id params v =
      require_both KeepsDaemon (get_string m eng kv params session_id_key)
        (ds, send_error id invalid_params missing_session_id) _ v
        (λ session_id.
          found_or_both KeepsDaemon (session_find ds.sessions session_id)
            (ds, send_error id no_session session_not_found) _ v
            (λ i s e.
              require_both KeepsDaemon (get_string m eng kv params role_key)
                (ds, send_error id invalid_params missing_role) _ v
                (λ role. appended-IsDaemon ds now session_id _ v e)))

  replaced_by-KeepsDaemon :
      (ds : Daemon E K m.floats.Float) (now : ℕ) (id : Option Bytes) (session_id : Bytes)
      (preserve : Bool) (i : ℕ) (s : Session m.floats.Float) (o : Option (Option (List Msg)))
      → IsDaemon ds
      → get_elem? ds.sessions i ≡ some s
      → KeepsDaemon (replaced_by m eng kv ds now id session_id preserve i s o)
  unfolding session_replace_history
  replaced_by-KeepsDaemon ds now id session_id preserve i s none v at = v
  replaced_by-KeepsDaemon ds now id session_id preserve i s (some none) v at = v
  replaced_by-KeepsDaemon ds now id session_id preserve i s (some (some msgs)) v at =
      let old = v.fit i s at in
      let all = append_all-Fits now (record s { messages = [] }) msgs ((omega arith), old.1) in
      with_kv-IsDaemon (session_set ds i (session_replace_history now s msgs)) _
        (session_set-IsDaemon ds i (session_replace_history now s msgs) v at all.0 all.1)

  replace_from-KeepsDaemon :
      (ds : Daemon E K m.floats.Float) (now : ℕ) (id : Option Bytes) (session_id : Bytes)
      (preserve : Bool) (i : ℕ) (s : Session m.floats.Float) (o : Option Bytes)
      → IsDaemon ds
      → get_elem? ds.sessions i ≡ some s
      → KeepsDaemon (replace_from m eng kv ds now id session_id preserve i s o)
  replace_from-KeepsDaemon ds now id session_id preserve i s none v at = v
  replace_from-KeepsDaemon ds now id session_id preserve i s (some raw) v at =
      replaced_by-KeepsDaemon ds now id session_id preserve i s (parse_message_array m.doubles raw)
        v at

  pub handle_replace_history-KeepsDaemon :
      (ds : Daemon E K m.floats.Float) (now : ℕ) (id : Option Bytes) (params : Bytes)
      → IsDaemon ds
      → KeepsDaemon (handle_replace_history m eng kv ds now id params)
  unfolding handle_replace_history
  handle_replace_history-KeepsDaemon ds now id params v =
      require_both KeepsDaemon (get_string m eng kv params session_id_key)
        (ds, send_error id invalid_params missing_session_id) _ v
        (λ session_id.
          found_or_both KeepsDaemon (session_find ds.sessions session_id)
            (ds, send_error id no_session session_not_found) _ v
            (λ i s e.
              replace_from-KeepsDaemon ds now id session_id (get_bool m eng kv params preserve_key)
                i s (raw_messages m.doubles params) v
                (session_find-some ds.sessions session_id e).0))

  pub handle_reset_session-KeepsDaemon :
      (ds : Daemon E K m.floats.Float) (id : Option Bytes) (params : Bytes)
      → IsDaemon ds
      → KeepsDaemon (handle_reset_session m eng kv ds id params)
  unfolding handle_reset_session
  handle_reset_session-KeepsDaemon ds id params v =
      require_both KeepsDaemon (get_string m eng kv params session_id_key)
        (ds, send_error id invalid_params missing_session_id) _ v
        (λ session_id.
          found_or_both KeepsDaemon (session_find ds.sessions session_id)
            (ds, send_error id no_session session_not_found) _ v
            (λ i s e.
              let at = (session_find-some ds.sessions session_id e).0 in
              let old = v.fit i s at in
              with_kv-IsDaemon (session_set ds i (record s { messages = [] })) _ (
                session_set-IsDaemon ds i (record s { messages = [] }) v at refl
                  ((omega arith), old.1))))

  pub handle_close_session-KeepsDaemon :
      (ds : Daemon E K m.floats.Float) (id : Option Bytes) (params : Bytes)
      → IsDaemon ds
      → KeepsDaemon (handle_close_session m eng kv ds id params)
  unfolding handle_close_session
  handle_close_session-KeepsDaemon ds id params v =
      require_both KeepsDaemon (get_string m eng kv params session_id_key)
        (ds, send_error id invalid_params missing_session_id) _ v
        (λ session_id. let c = session_close-Closed kv ds session_id v in c.valid)
