-- ===== src/Daemon/Sessions/Valid.antt =====
-- The invariant of the daemon's sessions, and that its operations keep it.
use qw.Base.{
  ℕ, zero, suc, ◌+◌, ◌≤◌, ◌<◌, List, [], ◌∷◌, ◌++◌, none, some, length, get_elem?, ◌≡◌, ◌≢◌, refl,
  ap, ◌∙◌, sym, arith, Option-cases, inl, inr, ◌⊎◌, length-append,
}
use mathlib.Core.Path.{subst}
use qw.Base.First.{
  first_index-some, first_index-none, remove_at, length-remove_at, remove_at_from, get_elem?_bound,
}
use qw.Tokenizer.Table.{Bytes, same_bytes}
use qw.Tokenizer.Table.Probe.{same_bytes-eq, same_bytes_refl}
use qw.Daemon.Request.{Msg}
use qw.Daemon.Sessions.{
  Session, Provider, Daemon, or_empty, id_is, session_find, session_append_message, grown_capacity,
  session_slots, session_remove_at, remove_found, session_close, add_session,
}

module _ {F : Type 0} where
  -- No two places hold the same id.
  abbrev pub Distinct : List (Session F) → Type 0
  Distinct ss =
      (i j : ℕ) (a b : Session F)
      → get_elem? ss i ≡ some a
      → get_elem? ss j ≡ some b
      → a.id ≡ b.id
      → i ≡ j

  -- The messages fit.
  abbrev pub Fits : Session F → Type 0
  Fits s = (length s.messages ≤ s.msg_capacity) × (0 < s.msg_capacity)

  abbrev pub AllFit : List (Session F) → Type 0
  AllFit ss = (i : ℕ) (s : Session F) → get_elem? ss i ≡ some s → Fits s

module _ {E K F : Type 0} where
  -- The ids are distinct, the sessions fit in their array and below the limit, and their messages fit.
  pub record IsDaemon (ds : Daemon E K F) : Type 0 where
    pub distinct : Distinct ds.sessions
    pub fit : AllFit ds.sessions
    pub in_array : length ds.sessions ≤ ds.session_capacity
    pub in_limit : (0 < ds.max_sessions) → length ds.sessions ≤ ds.max_sessions

grown_capacity-room :
    (n capacity : ℕ)
    → n ≤ capacity
    → 0 < capacity
    → (n + 1 ≤ grown_capacity n capacity) × (0 < grown_capacity n capacity)
grown_capacity-room n capacity h pos = (ground arith, ground arith)

module _ {F : Type 0} where
  pub same_get :
      (ss : List (Session F)) {j i : ℕ} {x s : Session F}
      → get_elem? ss j ≡ some x
      → get_elem? ss i ≡ some s
      → j ≡ i
      → x ≡ s
  same_get ss jx at e = let both : some _ ≡ some _ = sym jx ∙ ap (get_elem? ss) e ∙ at in cc

  pub Distinct-remove_at :
      (ss : List (Session F)) (k : ℕ) → k < length ss → Distinct ss → Distinct (remove_at ss k)
  Distinct-remove_at ss k h d i j a b ai bj same =
      let (p, pa, pi, pk, pw) = remove_at_from ss k i h ai in
      let (q, qb, qj, qk, qw) = remove_at_from ss k j h bj in
      let meet = d p q a b pa qb same in
      elim pw [
        | inl (x, y) ↦ elim qw [ inl (z, w) ↦ omega arith | inr (z, w) ↦ omega arith ]
        | inr (x, y) ↦ elim qw [ inl (z, w) ↦ omega arith | inr (z, w) ↦ omega arith ]
      ]

  AllFit-remove_at :
      (ss : List (Session F)) (k : ℕ) → k < length ss → AllFit ss → AllFit (remove_at ss k)
  AllFit-remove_at ss k h fit i s at =
      let (p, pa, pi, pk, pw) = remove_at_from ss k i h at in fit p s pa

  -- An element of a list with one more at the end.
  pub snoc_from :
      (ss : List (Session F)) (s : Session F) (i : ℕ) {a : Session F}
      → get_elem? (ss ++ (s ∷ [])) i ≡ some a
      → (get_elem? ss i ≡ some a) ⊎ ((i ≡ length ss) × (s ≡ a))
  snoc_from [] s zero e = inr (refl, cc)
  snoc_from [] s (suc i) e = cc
  snoc_from (x ∷ ss) s zero e = inl e
  snoc_from (x ∷ ss) s (suc i) e = elim (snoc_from ss s i e) [
    | inl at ↦ inl at
    | inr (k, same) ↦ inr (ap suc k, same)
  ]

  -- No session has the id.
  abbrev pub Absent : Bytes → List (Session F) → Type 0
  Absent id ss = (i : ℕ) (s : Session F) → get_elem? ss i ≡ some s → s.id ≢ id

  Distinct-snoc :
      (ss : List (Session F)) (s : Session F)
      → Distinct ss
      → Absent s.id ss
      → Distinct (ss ++ (s ∷ []))
  Distinct-snoc ss s d absent i j a b ai bj same = elim (snoc_from ss s i ai) [
    | inl at ↦ elim (snoc_from ss s j bj) [
      | inl bt ↦ d i j a b at bt same
      | inr (k, e) ↦ absurd (absent i a at (same ∙ ap (λ x. x.id) (sym e)))
    ]
    | inr (k, e) ↦ elim (snoc_from ss s j bj) [
      | inl bt ↦ absurd (absent j b bt (sym same ∙ ap (λ x. x.id) (sym e)))
      | inr (l, f) ↦ k ∙ sym l
    ]
  ]

  AllFit-snoc :
      (ss : List (Session F)) (s : Session F) → AllFit ss → Fits s → AllFit (ss ++ (s ∷ []))
  AllFit-snoc ss s fit h i a at = elim (snoc_from ss s i at) [
    | inl e ↦ fit i a e
    | inr (k, e) ↦ subst Fits e h
  ]

  -- What `session_find` finds, and what it says by NULL.
  pub session_find-some :
      (ss : List (Session F)) (id : Bytes) {i : ℕ} {s : Session F}
      → session_find ss id ≡ some (i, s)
      → (get_elem? ss i ≡ some s) × (s.id ≡ id)
  unfolding session_find
  session_find-some ss id {i} {s} e =
      let (j, ej, at, ok) = first_index-some (id_is id) ss 0 e in
      (ap (get_elem? ss) (omega arith) ∙ at, same_bytes-eq s.id id ok)

  pub session_find-none :
      (ss : List (Session F)) (id : Bytes) → session_find ss id ≡ none → Absent id ss
  unfolding session_find
  session_find-none ss id e i s at same =
      let no = first_index-none (id_is id) ss 0 i e at in
      let self = ap (same_bytes s.id) same ∙ no in let yes' = same_bytes_refl s.id in cc

  -- A message fits where the others do.
  pub session_append_message-Fits :
      (now : ℕ) (s : Session F) (m : Msg) → Fits s → Fits (session_append_message now s m)
  unfolding session_append_message
  session_append_message-Fits now s m h =
      let len =
        length-append s.messages
          (record m { role = some (or_empty m.role); content = some (or_empty m.content) } ∷ []) in
      let room = grown_capacity-room (length s.messages) s.msg_capacity h.0 h.1 in
      (omega arith, room.1)

-- One more session fits into the array as it grows.
session_slots-room : (n capacity : ℕ) → n ≤ capacity → n + 1 ≤ session_slots n capacity
session_slots-room n capacity h = ground arith

module _ {E K F : Type 0} where
  pub add_session-IsDaemon :
      (ds : Daemon E K F) (s : Session F)
      → IsDaemon ds
      → Absent s.id ds.sessions
      → Fits s
      → ((0 < ds.max_sessions) → length ds.sessions < ds.max_sessions)
      → IsDaemon (add_session ds s)
  add_session-IsDaemon ds s v absent fits room =
      let len = length-append ds.sessions (s ∷ []) in
      let slots = session_slots-room (length ds.sessions) ds.session_capacity v.in_array in
      record {
        distinct = Distinct-snoc ds.sessions s v.distinct absent;
        fit = AllFit-snoc ds.sessions s v.fit fits;
        in_array = omega arith;
        in_limit = λ l. let a = room l in omega arith;
      }

module _ {E K F : Type 0} (kv : Provider K) where
  pub session_remove_at-IsDaemon :
      (ds : Daemon E K F) (i : ℕ) {s : Session F}
      → get_elem? ds.sessions i ≡ some s
      → IsDaemon ds
      → IsDaemon (session_remove_at kv ds i s)
  unfolding session_remove_at
  session_remove_at-IsDaemon ds i at v =
      let h = get_elem?_bound ds.sessions i at in
      let len = length-remove_at ds.sessions i h in
      record {
        distinct = Distinct-remove_at ds.sessions i h v.distinct;
        fit = AllFit-remove_at ds.sessions i h v.fit;
        in_array = let a = v.in_array in omega arith;
        in_limit = λ l. let a = v.in_limit l in omega arith;
      }

  -- Behind a removal, the other sessions only.
  Absent-removed :
      (ds : Daemon E K F) (i : ℕ) {s : Session F} (id : Bytes)
      → IsDaemon ds
      → get_elem? ds.sessions i ≡ some s
      → s.id ≡ id
      → Absent id (remove_at ds.sessions i)
  Absent-removed ds i {s} id v at e j x jx same =
      let (k, ka, lt, ne, w) =
        remove_at_from ds.sessions i j (get_elem?_bound ds.sessions i at) jx in
      ne (v.distinct k i x s ka at (same ∙ sym e))

  -- Closing leaves no session with the id, the limit as it is, and no more sessions than before.
  pub record Closed (ds : Daemon E K F) (id : Bytes) (rs : Daemon E K F) : Type 0 where
    pub valid : IsDaemon rs
    pub gone : Absent id rs.sessions
    pub same_limit : rs.max_sessions ≡ ds.max_sessions
    pub no_more : length rs.sessions ≤ length ds.sessions

  pub session_close-Closed :
      (ds : Daemon E K F) (id : Bytes) → IsDaemon ds → Closed ds id (session_close kv ds id)
  unfolding session_close session_remove_at
  session_close-Closed ds id v = elim (Option-cases (session_find ds.sessions id)) [
    | inl e ↦
        subst (λ o. Closed ds id (remove_found kv ds o)) (sym e)
          (record {
            valid = v;
            gone = session_find-none ds.sessions id e;
            same_limit = refl;
            no_more = omega arith;
          })
    | inr ((i, s), e) ↦
        let found = session_find-some ds.sessions id e in
        subst (λ o. Closed ds id (remove_found kv ds o)) (sym e)
          (record {
            valid = session_remove_at-IsDaemon ds i found.0 v;
            gone = Absent-removed ds i id v found.0 found.1;
            same_limit = refl;
            no_more =
                omega
                  (arith, length-remove_at ds.sessions i (get_elem?_bound ds.sessions i found.0));
          })
  ]
