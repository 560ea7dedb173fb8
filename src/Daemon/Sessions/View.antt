-- ===== src/Daemon/Sessions/View.antt =====
-- The sessions as a map from ids, and that the array implements it.
use qw.Base.{
  ℕ, zero, suc, ◌<◌, Bool, true, false, List, [], ◌∷◌, ◌++◌, Option, none, some, if◌then◌else◌,
  length, get_elem?, ◌≡◌, ◌≢◌, refl, ap, ◌∙◌, sym, arith, Bool-cases, Option-cases, inl, inr,
}
use qw.Base.First.{remove_at, remove_at_from, remove_at_to, get_elem?_bound}
use qw.Tokenizer.Table.{Bytes, same_bytes}
use qw.Tokenizer.Table.Probe.{same_bytes-eq, same_bytes_refl}
use qw.Daemon.Sessions.{
  Session, Provider, Daemon, session_create, create_in, replace_and_add, session_find,
  session_remove_at, remove_found, session_close,
}
use qw.Daemon.Sessions.Valid.{
  IsDaemon, Fits, Distinct, Absent, same_get, Distinct-remove_at, snoc_from, session_find-some,
  session_find-none, session_close-Closed,
}
use qw.Daemon.Sessions.Evict.{is_full, make_room_free, replace_and_add-IsDaemon}

module _ {F : Type 0} where
  -- What a lookup comes to, without the index.
  abbrev pub content : Option (ℕ × Session F) → Option (Session F)
  content none = none
  content (some (i, s)) = some s

  -- The map: the session of an id.
  unfoldable pub view : List (Session F) → Bytes → Option (Session F)
  unfolding session_find
  view ss id = content (session_find ss id)

  abbrev pub Within : Session F → List (Session F) → Type 0
  Within s ss = (i : ℕ) × (get_elem? ss i ≡ some s)

  pub view-some :
      (ss : List (Session F)) (id : Bytes) {s : Session F}
      → view ss id ≡ some s
      → Within s ss × (s.id ≡ id)
  unfolding view
  view-some ss id {s} e = elim (Option-cases (session_find ss id)) [
    | inl f ↦ let bad : none ≡ some s = sym (ap content f) ∙ e in cc
    | inr ((i, t), f) ↦
        let found = session_find-some ss id f in
        let both : some t ≡ some s = sym (ap content f) ∙ e in
        let same : t ≡ s = cc in ((i, found.0 ∙ both), ap (λ x. x.id) (sym same) ∙ found.1)
  ]

  pub view-none : (ss : List (Session F)) (id : Bytes) → Absent id ss → view ss id ≡ none
  unfolding view
  view-none ss id absent = elim (Option-cases (session_find ss id)) [
    | inl f ↦ ap content f
    | inr ((i, t), f) ↦ let found = session_find-some ss id f in absurd (absent i t found.0 found.1)
  ]

  Absent-view : (ss : List (Session F)) (id : Bytes) → view ss id ≡ none → Absent id ss
  unfolding view
  Absent-view ss id e = elim (Option-cases (session_find ss id)) [
    | inl f ↦ session_find-none ss id f
    | inr ((i, t), f) ↦ let bad : some t ≡ none = sym (ap content f) ∙ e in cc
  ]

  -- Where the ids are distinct, a session is what its id is mapped to.
  pub view-Within :
      (ss : List (Session F)) (id : Bytes) {s : Session F}
      → Distinct ss
      → Within s ss
      → s.id ≡ id
      → view ss id ≡ some s
  unfolding view
  view-Within ss id {s} d (i, at) e = elim (Option-cases (session_find ss id)) [
    | inl f ↦ absurd (session_find-none ss id f i s at e)
    | inr ((j, t), f) ↦
        let found = session_find-some ss id f in
        let same = d i j s t at found.0 (e ∙ sym found.1) in
        ap content f ∙ sym found.0 ∙ ap (get_elem? ss) (sym same) ∙ at
  ]

  -- Two arrays with the same sessions of an id map it to the same.
  pub same_view :
      (ss tt : List (Session F)) (id : Bytes)
      → Distinct tt
      → ((s : Session F) → s.id ≡ id → Within s ss → Within s tt)
      → ((s : Session F) → s.id ≡ id → Within s tt → Within s ss)
      → view tt id ≡ view ss id
  same_view ss tt id d there back = elim (Option-cases (view ss id)) [
    | inl e ↦
        view-none tt id
          (λ i s at same. let (j, w) = back s same (i, at) in Absent-view ss id e j s w same)
        ∙ sym e
    | inr (s, e) ↦
        let (w, same) = view-some ss id e in view-Within tt id d (there s same w) same ∙ sym e
  ]

  view-remove_at_other :
      (ss : List (Session F)) (k : ℕ) (id : Bytes) {s : Session F}
      → Distinct ss
      → get_elem? ss k ≡ some s
      → s.id ≢ id
      → view (remove_at ss k) id ≡ view ss id
  view-remove_at_other ss k id {s} d at ne =
      let h = get_elem?_bound ss k at in
      same_view ss (remove_at ss k) id (Distinct-remove_at ss k h d)
        (λ t e (i, w).
          remove_at_to ss k i h (λ same. ne (ap (λ x. x.id) (same_get ss at w (sym same)) ∙ e)) w)
        (λ t e (i, w). let (p, pa, lt, pk, pw) = remove_at_from ss k i h w in (p, pa))

  get_elem?_snoc :
      (ss : List (Session F)) (s : Session F) → get_elem? (ss ++ (s ∷ [])) (length ss) ≡ some s
  get_elem?_snoc [] s = refl
  get_elem?_snoc (x ∷ ss) s = get_elem?_snoc ss s

  snoc_there :
      (ss : List (Session F)) (s : Session F) (i : ℕ) {a : Session F}
      → get_elem? ss i ≡ some a
      → get_elem? (ss ++ (s ∷ [])) i ≡ some a
  snoc_there [] s i e = cc
  snoc_there (x ∷ ss) s zero e = e
  snoc_there (x ∷ ss) s (suc i) e = snoc_there ss s i e

  -- What the map is at an id when only `id` is put to `o`.
  abbrev pub updated :
      Bytes → Option (Session F) → (Bytes → Option (Session F)) → Bytes → Option (Session F)
  updated id o m id' = if same_bytes id id' then o else m id'

  -- Two maps agree off `id`, and one is `o` there.
  by_id :
      (id : Bytes) (o : Option (Session F)) (m n : Bytes → Option (Session F))
      → n id ≡ o
      → ((id' : Bytes) → id ≢ id' → n id' ≡ m id')
      → (id' : Bytes) → n id' ≡ updated id o m id'
  by_id id o m n e h id' = elim (Bool-cases (same_bytes id id')) [
    | inl same ↦
        ap n (sym (same_bytes-eq id id' same)) ∙ e ∙ sym (ap (λ b. if b then o else m id') same)
    | inr differ ↦
        h id'
          (λ same. let t = sym differ ∙ ap (same_bytes id) (sym same) ∙ same_bytes_refl id in cc)
        ∙ sym (ap (λ b. if b then o else m id') differ)
  ]

  pub view-snoc :
      (ss : List (Session F)) (s : Session F)
      → Distinct (ss ++ (s ∷ []))
      → (id' : Bytes) → view (ss ++ (s ∷ [])) id' ≡ updated s.id (some s) (view ss) id'
  view-snoc ss s d =
      by_id s.id (some s) (view ss) (view (ss ++ (s ∷ [])))
        (view-Within (ss ++ (s ∷ [])) s.id d (length ss, get_elem?_snoc ss s) refl)
        (λ id' ne.
          same_view ss (ss ++ (s ∷ [])) id' d (λ t e (i, w). (i, snoc_there ss s i w))
            (λ t e (i, w). elim (snoc_from ss s i w) [
              | inl at ↦ (i, at)
              | inr (k, same) ↦ absurd (ne (ap (λ x. x.id) same ∙ e))
            ]))

twice :
    {F : Type 0} (id id' : Bytes) (o : Option (Session F)) (m n : Bytes → Option (Session F))
    → m id' ≡ updated id none n id'
    → updated id o m id' ≡ updated id o n id'
twice id id' o m n e = elim (Bool-cases (same_bytes id id')) [
  | inl same ↦ ap (λ b. if b then o else m id') same ∙ sym (ap (λ b. if b then o else n id') same)
  | inr differ ↦
      ap (λ b. if b then o else m id') differ
      ∙ (e ∙ ap (λ b. if b then none else n id') differ)
      ∙ sym (ap (λ b. if b then o else n id') differ)
]

module _ {E K F : Type 0} (kv : Provider K) where
  close_other :
      (ds : Daemon E K F) (id id' : Bytes)
      → IsDaemon ds
      → id ≢ id'
      → view (session_close kv ds id).sessions id' ≡ view ds.sessions id'
  unfolding session_close session_remove_at
  close_other ds id id' v ne = elim (Option-cases (session_find ds.sessions id)) [
    | inl e ↦ ap (λ o. view (remove_found kv ds o).sessions id') e
    | inr ((i, s), e) ↦
        let found = session_find-some ds.sessions id e in
        ap (λ o. view (remove_found kv ds o).sessions id') e
        ∙ view-remove_at_other ds.sessions i id' v.distinct found.0
            (λ same. ne (sym found.1 ∙ same))
  ]

  -- Where the ids are distinct, `session_close` takes the id from the map, and nothing else.
  pub view-session_close :
      (ds : Daemon E K F) (id id' : Bytes)
      → IsDaemon ds
      → view (session_close kv ds id).sessions id' ≡ updated id none (view ds.sessions) id'
  view-session_close ds id id' v =
      by_id id none (view ds.sessions) (view (session_close kv ds id).sessions)
        (let c = session_close-Closed kv ds id v in
          view-none (session_close kv ds id).sessions id c.gone)
        (λ i ne. close_other ds id i v ne) id'

  view-replace_and_add :
      (allocated : Bool) (ds : Daemon E K F) (id id' : Bytes) (made : ℕ → Session F)
      → IsDaemon ds
      → ((0 < ds.max_sessions) → length ds.sessions < ds.max_sessions)
      → ((n : ℕ) → ((made n).id ≡ id) × Fits (made n))
      → view (replace_and_add kv allocated ds id made).0.sessions id'
        ≡ updated id (if allocated then some (made ds.n_ctx) else none) (view ds.sessions) id'
  view-replace_and_add false ds id id' made v room h = view-session_close ds id id' v
  view-replace_and_add true ds id id' made v room h =
      let s = made ds.n_ctx in
      let both = replace_and_add-IsDaemon kv true ds id made (v, room) h in
      view-snoc (session_close kv ds id).sessions s both.distinct id'
      ∙ ap (λ i. updated i (some s) (view (session_close kv ds id).sessions) id') (h ds.n_ctx).0
      ∙ twice id id' (some s) (view (session_close kv ds id).sessions) (view ds.sessions)
          (view-session_close ds id id' v)

  -- Below the limit, `session_create` puts the new session at its id in the map, in place of one that
  -- may be there, and changes nothing else; where memory runs out the id is gone.
  pub view-session_create :
      (allocated : Bool) (ds : Daemon E K F) (id id' : Bytes) (made : ℕ → Session F)
      → IsDaemon ds
      → is_full ds ≡ false
      → ((n : ℕ) → ((made n).id ≡ id) × Fits (made n))
      → view (session_create kv allocated ds id made).0.sessions id'
        ≡ updated id (if allocated then some (made ds.n_ctx) else none) (view ds.sessions) id'
  unfolding session_create
  view-session_create allocated ds id id' made v free h =
      ap (λ o. view (create_in kv allocated ds o id made).0.sessions id')
        (make_room_free kv ds free)
      ∙ view-replace_and_add allocated ds id id' made v (λ l. ground arith) h
