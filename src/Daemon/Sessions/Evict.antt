-- ===== src/Daemon/Sessions/Evict.antt =====
-- The eviction of `session_create`, and the invariant behind it and behind the reaper.
use qw.Base.{
  ℕ, suc, ◌+◌, ◌≤◌, ◌<◌, Bool, true, false, ◌&&◌, not, List, [], ◌∷◌, Option, none, some, ltb, leb,
  ◌==◌, if◌then◌else◌, if_both, length, get_elem?, ◌≡◌, refl, ap, ◌∙◌, sym, arith, Bool-cases, inl,
  inr, ◌⊎◌, ltb→lt, ltb→le, ==_iff,
}
use mathlib.Core.Path.{subst}
use qw.Base.First.{get_elem?_bound, length-remove_at}
use qw.Tokenizer.Table.{Bytes}
use qw.Daemon.Sessions.{
  Session, Provider, Daemon, session_remove_at, session_close, evict_at, make_room, older,
  oldest_from, replace_and_add, create_in, session_create,
}
use qw.Daemon.Sessions.Valid.{
  IsDaemon, Fits, same_get, session_remove_at-IsDaemon, session_close-Closed, add_session-IsDaemon,
}

pub near : (j i : ℕ) → j < i + 1 → (j ≡ i) ⊎ (j < i)
near j i h = elim (Bool-cases (j == i)) [
  | inl e ↦ inl ((==_iff j i).0 e)
  | inr e ↦ inr (ground arith)
]

module _ {F : Type 0} where
  -- The session at `k` is the one to evict, of those before `n`: nobody holds it, and none that nobody
  -- holds was active before it. Without one, all of them are held.
  abbrev pub IsOldest : List (Session F) → ℕ → Option (ℕ × ℕ) → Type 0
  IsOldest ss n none = (j : ℕ) (x : Session F) → get_elem? ss j ≡ some x → j < n → x.locked ≡ true
  IsOldest ss n (some (k, t)) =
      ((s : Session F) × (get_elem? ss k ≡ some s) × (s.locked ≡ false) × (s.last_active ≡ t))
      × ((j : ℕ) (x : Session F)
          → get_elem? ss j ≡ some x
          → j < n
          → x.locked ≡ false
          → t ≤ x.last_active)

  IsOldest-locked :
      (ss : List (Session F)) (i : ℕ) {s : Session F} (best : Option (ℕ × ℕ))
      → get_elem? ss i ≡ some s
      → s.locked ≡ true
      → IsOldest ss i best
      → IsOldest ss (i + 1) best
  IsOldest-locked ss i none at l h = λ j x jx lt. elim (near j i lt) [
    | inl e ↦ ap (λ y. y.locked) (same_get ss jx at e) ∙ l
    | inr e ↦ h j x jx e
  ]
  IsOldest-locked ss i (some (k, t)) at l (w, h) = (
    w,
    λ j x jx lt loose. elim (near j i lt) [
      | inl e ↦
          let bad : true ≡ false = sym l ∙ ap (λ y. y.locked) (sym (same_get ss jx at e)) ∙ loose in
          cc
      | inr e ↦ h j x jx e loose
    ],
  )

  IsOldest-older :
      (ss : List (Session F)) (i : ℕ) {s : Session F} (best : Option (ℕ × ℕ))
      → get_elem? ss i ≡ some s
      → s.locked ≡ false
      → IsOldest ss i best
      → IsOldest ss (i + 1) (older i s best)
  IsOldest-older ss i {s} none at l h = (
    (s, at, l, refl),
    λ j x jx lt loose. elim (near j i lt) [
      | inl e ↦ omega (arith, ap (λ y. y.last_active) (same_get ss jx at e))
      | inr e ↦ let bad : true ≡ false = sym (h j x jx e) ∙ loose in cc
    ],
  )
  IsOldest-older ss i {s} (some (k, t)) at l (w, h) =
      if_both (IsOldest ss (i + 1)) (ltb s.last_active t) (some (i, s.last_active)) (some (k, t))
        (λ e. (
          (s, at, l, refl),
          λ j x jx lt loose. elim (near j i lt) [
            | inl same ↦ omega (arith, ap (λ y. y.last_active) (same_get ss jx at same))
            | inr before ↦ omega (arith, h j x jx before loose, ltb→lt s.last_active t e)
          ],
        ))
        (λ e. (
          w,
          λ j x jx lt loose. elim (near j i lt) [
            | inl same ↦
                omega (
                  arith,
                  ap (λ y. y.last_active) (same_get ss jx at same),
                  ltb→le s.last_active t e,
                )
            | inr before ↦ h j x jx before loose
          ],
        ))

  oldest_from-IsOldest :
      (all ss : List (Session F)) (i : ℕ) (best : Option (ℕ × ℕ))
      → ((j : ℕ) → get_elem? ss j ≡ get_elem? all (i + j))
      → IsOldest all i best
      → IsOldest all (i + length ss) (oldest_from ss i best)
  unfolding oldest_from
  oldest_from-IsOldest all [] i best same h = subst (λ n. IsOldest all n best) (omega arith) h
  oldest_from-IsOldest all (s ∷ ss) i best same h =
      let at : get_elem? all i ≡ some s = ap (get_elem? all) (omega arith) ∙ sym (same 0) in
      let rest : (j : ℕ) → get_elem? ss j ≡ get_elem? all (i + 1 + j) =
        λ j. same (suc j) ∙ ap (get_elem? all) (omega arith) in
      subst
        (λ n. IsOldest all n (oldest_from ss (i + 1) (if s.locked then best else older i s best)))
        (omega arith)
        (oldest_from-IsOldest all ss (i + 1) (if s.locked then best else older i s best) rest (
          if_both (IsOldest all (i + 1)) s.locked best (older i s best)
            (λ l. IsOldest-locked all i best at l h) (λ l. IsOldest-older all i best at l h)))

  IsOldest-oldest_from : (ss : List (Session F)) → IsOldest ss (length ss) (oldest_from ss 0 none)
  IsOldest-oldest_from ss =
      subst (λ n. IsOldest ss n (oldest_from ss 0 none)) (omega arith)
        (oldest_from-IsOldest ss ss 0 none (λ j. ap (get_elem? ss) (omega arith))
          (λ j x jx lt. absurd (omega arith)))

module _ {E K F : Type 0} where
  abbrev pub is_full : Daemon E K F → Bool
  is_full ds = not (ds.max_sessions == 0) && leb ds.max_sessions (length ds.sessions)

module _ {E K F : Type 0} (kv : Provider K) where
  -- What the eviction does to a daemon: no session can go, or the oldest that nobody holds goes.
  abbrev pub Evicts : Daemon E K F → Option (Daemon E K F) → Type 0
  Evicts ds r =
      ((r ≡ none) × ((j : ℕ) (x : Session F) → get_elem? ds.sessions j ≡ some x → x.locked ≡ true))
      ⊎ ((k : ℕ) × (s : Session F) × (get_elem? ds.sessions k ≡ some s)
          × (s.locked ≡ false)
          × ((j : ℕ) (x : Session F)
              → get_elem? ds.sessions j ≡ some x
              → x.locked ≡ false
              → s.last_active ≤ x.last_active)
          × (r ≡ some (session_remove_at kv ds k s)))

  evict_at-Evicts :
      (ds : Daemon E K F) (o : Option (ℕ × ℕ))
      → IsOldest ds.sessions (length ds.sessions) o
      → Evicts ds (evict_at kv ds o)
  evict_at-Evicts ds none h = inl (refl, λ j x jx. h j x jx (get_elem?_bound ds.sessions j jx))
  evict_at-Evicts ds (some (k, t)) ((s, at, l, e), h) = inr (
    k,
    s,
    at,
    l,
    (λ j x jx loose. omega (arith, h j x jx (get_elem?_bound ds.sessions j jx) loose)),
    ap (λ o. elim o [ none ↦ some ds | some s ↦ some (session_remove_at kv ds k s) ]) at,
  )

  make_room_full :
      (ds : Daemon E K F)
      → is_full ds ≡ true
      → make_room kv ds ≡ evict_at kv ds (oldest_from ds.sessions 0 none)
  unfolding make_room
  make_room_full ds e =
      ap (λ b. if b then evict_at kv ds (oldest_from ds.sessions 0 none) else some ds) e

  pub make_room_free : (ds : Daemon E K F) → is_full ds ≡ false → make_room kv ds ≡ some ds
  unfolding make_room
  make_room_free ds e =
      ap (λ b. if b then evict_at kv ds (oldest_from ds.sessions 0 none) else some ds) e

  -- A daemon that has reached its limit evicts: where every session is held there is no room, and
  -- otherwise a session goes that nobody holds and that is no younger than the others nobody holds.
  pub make_room-Evicts :
      (ds : Daemon E K F)
      → 0 < ds.max_sessions
      → ds.max_sessions ≤ length ds.sessions
      → Evicts ds (make_room kv ds)
  make_room-Evicts ds some_limit reached =
      subst (Evicts ds) (sym (make_room_full ds (ground arith)))
        (evict_at-Evicts ds (oldest_from ds.sessions 0 none) (IsOldest-oldest_from ds.sessions))

  -- There is room behind the eviction, and the sessions are as they should be.
  abbrev HasRoom : Option (Daemon E K F) → Type 0
  HasRoom none = Unit
  HasRoom (some ds) = IsDaemon ds × ((0 < ds.max_sessions) → length ds.sessions < ds.max_sessions)

  removed_room :
      (ds : Daemon E K F) (k : ℕ) (s : Session F)
      → k < length ds.sessions
      → ((0 < ds.max_sessions) → length ds.sessions ≤ ds.max_sessions)
      → (0 < (session_remove_at kv ds k s).max_sessions)
      → length (session_remove_at kv ds k s).sessions < (session_remove_at kv ds k s).max_sessions
  unfolding session_remove_at
  removed_room ds k s h v l = omega (arith, length-remove_at ds.sessions k h, v l)

  make_room-HasRoom : (ds : Daemon E K F) → IsDaemon ds → HasRoom (make_room kv ds)
  make_room-HasRoom ds v = elim (Bool-cases (is_full ds)) [
    | inl e ↦ elim (make_room-Evicts ds (ground arith) (ground arith)) [
      | inl (r, all) ↦ subst HasRoom (sym r) tt
      | inr (k, s, at, l, least, r) ↦ subst HasRoom (sym r) (
        session_remove_at-IsDaemon kv ds k at v,
        removed_room ds k s (get_elem?_bound ds.sessions k at) v.in_limit,
      )
    ]
    | inr e ↦ subst HasRoom (sym (make_room_free ds e)) (v, λ l. ground arith)
  ]

  pub replace_and_add-IsDaemon :
      (allocated : Bool) (ds : Daemon E K F) (id : Bytes) (made : ℕ → Session F)
      → IsDaemon ds × ((0 < ds.max_sessions) → length ds.sessions < ds.max_sessions)
      → ((n : ℕ) → ((made n).id ≡ id) × Fits (made n))
      → IsDaemon (replace_and_add kv allocated ds id made).0
  replace_and_add-IsDaemon false ds id made (v, room) h =
      let c = session_close-Closed kv ds id v in c.valid
  replace_and_add-IsDaemon true ds id made (v, room) h =
      let c = session_close-Closed kv ds id v in
      add_session-IsDaemon (session_close kv ds id) (made ds.n_ctx) c.valid
        (λ i s at same. c.gone i s at (same ∙ (h ds.n_ctx).0)) (h ds.n_ctx).1
        (λ l. omega (arith, c.same_limit, c.no_more, room (omega (arith, c.same_limit))))

  create_in-IsDaemon :
      (allocated : Bool) (ds : Daemon E K F) (o : Option (Daemon E K F)) (id : Bytes)
      (made : ℕ → Session F)
      → IsDaemon ds
      → HasRoom o
      → ((n : ℕ) → ((made n).id ≡ id) × Fits (made n))
      → IsDaemon (create_in kv allocated ds o id made).0
  create_in-IsDaemon allocated ds none id made v room h = v
  create_in-IsDaemon allocated ds (some rs) id made v room h =
      replace_and_add-IsDaemon allocated rs id made room h

  -- `session_create` keeps the sessions as they should be, whether it evicts, replaces, fails or not: the
  -- ids stay distinct, and the number of sessions stays within the array and the limit.
  pub session_create-IsDaemon :
      (allocated : Bool) (ds : Daemon E K F) (id : Bytes) (made : ℕ → Session F)
      → IsDaemon ds
      → ((n : ℕ) → ((made n).id ≡ id) × Fits (made n))
      → IsDaemon (session_create kv allocated ds id made).0
  unfolding session_create
  session_create-IsDaemon allocated ds id made v h =
      create_in-IsDaemon allocated ds (make_room kv ds) id made v (make_room-HasRoom ds v) h
