-- ===== src/Daemon/Sessions/Reaped.antt =====
-- What a round of the reaper leaves.
use qw.Base.{
  ℕ, zero, suc, ◌+◌, ◌≤◌, ◌<◌, true, false, List, [], ◌∷◌, none, some, ◌==◌, if_both, length,
  get_elem?, ◌≡◌, ap, ◌∙◌, sym, arith, Bool-cases, Option-cases, inl, inr,
}
use mathlib.Core.Path.{subst}
use qw.Base.First.{remove_at, length-remove_at, remove_at_from, remove_at_to, get_elem?_bound}
use qw.Daemon.Sessions.{Session, Provider, Daemon, session_remove_at, is_idle, reap_from, reap}
use qw.Daemon.Sessions.Valid.{IsDaemon, same_get, session_remove_at-IsDaemon}
use qw.Daemon.Sessions.Evict.{near}
use qw.Daemon.Sessions.View.{Within}

past_end :
    {F : Type 0} (ss : List (Session F)) (i j : ℕ) {s : Session F}
    → get_elem? ss i ≡ none
    → get_elem? ss j ≡ some s
    → j < i
past_end [] i j e at = cc
past_end (x ∷ ss) zero j e at = cc
past_end (x ∷ ss) (suc i) zero e at = omega arith
past_end (x ∷ ss) (suc i) (suc j) e at = let h = past_end ss i j e at in omega arith

module _ {E K F : Type 0} (now timeout : ℕ) where
  -- Behind a round over `rs`: the sessions of `ds` that are not idle are there, and no others.
  pub record Reaped (ds rs : Daemon E K F) : Type 0 where
    pub valid : IsDaemon rs
    pub kept :
        (s : Session F)
        → Within s ds.sessions
        → is_idle now timeout s ≡ false
        → Within s rs.sessions
    pub from : (s : Session F) → Within s rs.sessions → Within s ds.sessions
    pub gone : (s : Session F) → Within s rs.sessions → is_idle now timeout s ≡ false

module _ {E K F : Type 0} (kv : Provider K) (now : ℕ) where
  reap_from_end :
      (fuel i : ℕ) (ds : Daemon E K F)
      → get_elem? ds.sessions i ≡ none
      → reap_from kv (suc fuel) i now ds ≡ ds
  unfolding reap_from
  reap_from_end fuel i ds e =
      ap
        (λ o. elim o [
          | none ↦ ds
          | some s ↦ elim (is_idle now ds.session_timeout s) [
            | true ↦ reap_from kv fuel i now (session_remove_at kv ds i s)
            | false ↦ reap_from kv fuel (i + 1) now ds
          ]
        ])
        e

  reap_from_idle :
      (fuel i : ℕ) (ds : Daemon E K F) {s : Session F}
      → get_elem? ds.sessions i ≡ some s
      → is_idle now ds.session_timeout s ≡ true
      → reap_from kv (suc fuel) i now ds ≡ reap_from kv fuel i now (session_remove_at kv ds i s)
  unfolding reap_from
  reap_from_idle fuel i ds {s} e idle =
      ap
        (λ o. elim o [
          | none ↦ ds
          | some s ↦ elim (is_idle now ds.session_timeout s) [
            | true ↦ reap_from kv fuel i now (session_remove_at kv ds i s)
            | false ↦ reap_from kv fuel (i + 1) now ds
          ]
        ])
        e
      ∙ ap
          (λ b. elim b [
            | true ↦ reap_from kv fuel i now (session_remove_at kv ds i s)
            | false ↦ reap_from kv fuel (i + 1) now ds
          ])
          idle

  reap_from_busy :
      (fuel i : ℕ) (ds : Daemon E K F) {s : Session F}
      → get_elem? ds.sessions i ≡ some s
      → is_idle now ds.session_timeout s ≡ false
      → reap_from kv (suc fuel) i now ds ≡ reap_from kv fuel (i + 1) now ds
  unfolding reap_from
  reap_from_busy fuel i ds {s} e busy =
      ap
        (λ o. elim o [
          | none ↦ ds
          | some s ↦ elim (is_idle now ds.session_timeout s) [
            | true ↦ reap_from kv fuel i now (session_remove_at kv ds i s)
            | false ↦ reap_from kv fuel (i + 1) now ds
          ]
        ])
        e
      ∙ ap
          (λ b. elim b [
            | true ↦ reap_from kv fuel i now (session_remove_at kv ds i s)
            | false ↦ reap_from kv fuel (i + 1) now ds
          ])
          busy

  removed_Reaped :
      (ds : Daemon E K F) (i : ℕ) (s : Session F) {rs : Daemon E K F}
      → get_elem? ds.sessions i ≡ some s
      → is_idle now ds.session_timeout s ≡ true
      → Reaped now ds.session_timeout (session_remove_at kv ds i s) rs
      → Reaped now ds.session_timeout ds rs
  unfolding session_remove_at
  removed_Reaped ds i s e idle r =
      let h = get_elem?_bound ds.sessions i e in
      record {
        valid = r.valid;
        kept = λ t (k, at) busy.
            r.kept t
              (remove_at_to ds.sessions i k h
                (λ same.
                  let bad : true ≡ false =
                    sym idle
                    ∙ ap (is_idle now ds.session_timeout) (same_get ds.sessions e at (sym same))
                    ∙ busy in
                  cc)
                at)
              busy;
        from = λ t w.
            let (j, at) = r.from t w in
            let (k, ka, lt, ne, how) = remove_at_from ds.sessions i j h at in (k, ka);
        gone = r.gone;
      }

  removed_done :
      (ds : Daemon E K F) (i j : ℕ) (t : Session F) {s : Session F}
      → get_elem? ds.sessions i ≡ some s
      → get_elem? (remove_at ds.sessions i) j ≡ some t
      → j < i
      → ((j : ℕ) (s : Session F)
          → get_elem? ds.sessions j ≡ some s
          → j < i
          → is_idle now ds.session_timeout s ≡ false)
      → is_idle now ds.session_timeout t ≡ false
  removed_done ds i j t e at lt done =
      let (k, ka, b, ne, how) =
        remove_at_from ds.sessions i j (get_elem?_bound ds.sessions i e) at in
      elim how [
        | inl (same, last) ↦ absurd (omega arith)
        | inr (differ, same) ↦ done j t (ap (get_elem? ds.sessions) (sym same) ∙ ka) lt
      ]

  reap_from-Reaped :
      (fuel i : ℕ) (ds : Daemon E K F)
      → IsDaemon ds
      → length ds.sessions ≤ i + fuel
      → ((j : ℕ) (s : Session F)
          → get_elem? ds.sessions j ≡ some s
          → j < i
          → is_idle now ds.session_timeout s ≡ false)
      → Reaped now ds.session_timeout ds (reap_from kv fuel i now ds)
  unfolding reap_from
  reap_from-Reaped zero i ds v h done = record {
    valid = v;
    kept = λ s w idle. w;
    from = λ s w. w;
    gone = λ s (j, at). done j s at (let b = get_elem?_bound ds.sessions j at in omega arith);
  }
  reap_from-Reaped (suc fuel) i ds v h done = elim (Option-cases (get_elem? ds.sessions i)) [
    | inl e ↦ subst (Reaped now ds.session_timeout ds) (sym (reap_from_end fuel i ds e)) (record {
      valid = v;
      kept = λ s w idle. w;
      from = λ s w. w;
      gone = λ s (j, at). done j s at (past_end ds.sessions i j e at);
    })
    | inr (s, e) ↦ elim (Bool-cases (is_idle now ds.session_timeout s)) [
      | inl idle ↦
          subst (Reaped now ds.session_timeout ds) (sym (reap_from_idle fuel i ds e idle)) (
            removed_Reaped ds i s e idle (
              reap_from-Reaped fuel i (session_remove_at kv ds i s)
                (session_remove_at-IsDaemon kv ds i e v)
                (omega (arith, length-remove_at ds.sessions i (get_elem?_bound ds.sessions i e)))
                (λ j t at lt. removed_done ds i j t e at lt done)))
      | inr busy ↦
          subst (Reaped now ds.session_timeout ds) (sym (reap_from_busy fuel i ds e busy)) (
            reap_from-Reaped fuel (i + 1) ds v (omega arith) (λ j t at lt. elim (near j i lt) [
              | inl same ↦
                  ap (is_idle now ds.session_timeout) (same_get ds.sessions at e same) ∙ busy
              | inr before ↦ done j t at before
            ]))
    ]
  ]

  -- A round of the reaper, with a timeout: of the sessions it keeps those that are not idle, that is the
  -- ones somebody holds and the ones whose idle time, as an `int`, is within the timeout, and only those;
  -- the invariant is kept.
  pub reap-Reaped :
      (ds : Daemon E K F)
      → IsDaemon ds
      → 0 < ds.session_timeout
      → Reaped now ds.session_timeout ds (reap kv now ds)
  unfolding reap
  reap-Reaped ds v timeout =
      if_both (Reaped now ds.session_timeout ds) (ds.session_timeout == 0) ds
        (reap_from kv (length ds.sessions) 0 now ds) (λ e. absurd (ground arith))
        (λ e.
          reap_from-Reaped (length ds.sessions) 0 ds v (omega arith)
            (λ j s at lt. absurd (omega arith)))
