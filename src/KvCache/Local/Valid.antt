-- ===== src/KvCache/Local/Valid.antt =====
-- The invariant of the local provider, and that every call keeps it: the ids of the sessions differ,
-- and what is cached has room in its buffers.
use qw.Base.{
  ℕ, zero, suc, ◌+◌, ◌*◌, ◌≤◌, true, false, List, [], ◌∷◌, none, some, length, length-set, set,
  take, take-length, get_elem?, ◌≡◌, ◌≢◌, refl, ap, ◌∙◌, sym, arith, ◌⊎◌, Bool-cases, inl, inr,
}
use mathlib.Core.Path.{subst}
use qw.Tokenizer.Table.{Bytes, same_bytes}
use qw.Tokenizer.Table.Probe.{same_bytes_refl}
use qw.KvCache.Local.{Session, State, has_id, local_find_session, with_slot, new_session}
use qw.KvCache.Local.Slots.{first_slot-set_new, has_id-other, has_id_self, has_id-unused}
use qw.KvCache.Local.Write.{find-changed, find-other}

-- A session that is in use: its id fits its field, its tokens and their bytes fit the buffers.
pub record HasRoom (per_token : ℕ) (s : Session) : Type 0 where
  pub id : length s.session_id ≤ 63
  pub tokens : s.n_tokens ≤ s.capacity_tokens
  pub bytes : s.capacity_tokens * per_token ≤ s.kv_capacity
  pub few : s.capacity_tokens ≤ 8192

-- Every session in use is the one that its id finds.
pub record IsState (st : State) : Type 0 where
  pub slots : length st.sessions ≡ 16
  pub per_token : st.per_token_kv_bytes ≡ 98304
  pub room :
      (i : ℕ) (s : Session) → get_elem? st.sessions i ≡ some s → s.valid ≡ true → HasRoom 98304 s
  pub found :
      (i : ℕ) (s : Session)
      → get_elem? st.sessions i ≡ some s
      → s.valid ≡ true
      → local_find_session st s.session_id ≡ some (i, s)

-- A slot is in range, and holds one session.
pub slot_of_set :
    (ss : List Session) (i j : ℕ) (s' : Session) {s x : Session}
    → get_elem? ss i ≡ some s
    → get_elem? (set ss i s') j ≡ some x
    → ((j ≡ i) × (x ≡ s')) ⊎ ((j ≢ i) × (get_elem? ss j ≡ some x))
slot_of_set [] i j s' at h = cc
slot_of_set (y ∷ ys) zero zero s' at h = inl (refl, cc)
slot_of_set (y ∷ ys) zero (suc j) s' at h = inr (λ e. absurd (omega arith), h)
slot_of_set (y ∷ ys) (suc i) zero s' at h = inr (λ e. absurd (omega arith), h)
slot_of_set (y ∷ ys) (suc i) (suc j) s' at h = elim (slot_of_set ys i j s' at h) [
  | inl (e, same) ↦ inl (ap suc e, same)
  | inr (ne, at') ↦ inr (λ e. ne (omega arith), at')
]

pub slot_there :
    (ss : List Session) (i : ℕ) (s' : Session) {s : Session}
    → get_elem? ss i ≡ some s
    → get_elem? (set ss i s') i ≡ some s'
slot_there [] i s' at = cc
slot_there (y ∷ ys) zero s' at = refl
slot_there (y ∷ ys) (suc i) s' at = slot_there ys i s' at

module _ {st : State} (valid : IsState st) where
  -- Two slots in use with the same id are the same slot.
  one_slot :
      (i j : ℕ) {s x : Session}
      → get_elem? st.sessions i ≡ some s
      → s.valid ≡ true
      → get_elem? st.sessions j ≡ some x
      → x.valid ≡ true
      → s.session_id ≡ x.session_id
      → i ≡ j
  one_slot i j {s} {x} at v at' v' same =
      let a : local_find_session st s.session_id ≡ some (i, s) = valid.found i s at v in
      let b : local_find_session st x.session_id ≡ some (j, x) = valid.found j x at' v' in
      let e : some (i, s) ≡ some (j, x) = sym a ∙ ap (local_find_session st) same ∙ b in cc

  -- A change of a session in use that keeps its id and its room keeps the invariant.
  pub changed-IsState :
      (i : ℕ) (s s' : Session)
      → get_elem? st.sessions i ≡ some s
      → s.valid ≡ true
      → s'.valid ≡ true
      → s'.session_id ≡ s.session_id
      → HasRoom 98304 s'
      → IsState (with_slot st i s')
  changed-IsState i s s' at v v' same room = record {
    slots = length-set st.sessions i s' ∙ valid.slots;
    per_token = valid.per_token;
    room = λ j x h vx. elim (slot_of_set st.sessions i j s' at h) [
      | inl (e, is) ↦ subst (HasRoom 98304) (sym is) room
      | inr (ne, at') ↦ valid.room j x at' vx
    ];
    found = λ j x h vx. elim (slot_of_set st.sessions i j s' at h) [
      | inl (e, is) ↦
          let f : local_find_session st s.session_id ≡ some (i, s) = valid.found i s at v in
          let ok : has_id s.session_id s' ≡ true =
            subst (λ d. has_id d s' ≡ true) same (has_id_self s' v') in
          let f' : local_find_session (with_slot st i s') s.session_id ≡ some (i, s') =
            find-changed st s.session_id s' f ok in
          ap (local_find_session (with_slot st i s')) (ap (λ z. z.session_id) is ∙ same)
          ∙ f'
          ∙ ap some (ap (λ k. (k, s')) (sym e) ∙ ap (λ z. (j, z)) (sym is))
      | inr (ne, at') ↦
          let differ : s.session_id ≢ x.session_id = λ d. ne (sym (one_slot i j at v at' vx d)) in
          let differ' : s'.session_id ≢ x.session_id = λ d. differ (sym same ∙ d) in
          find-other st x.session_id i s' at (has_id-other x.session_id s differ)
            (has_id-other x.session_id s' differ')
          ∙ valid.found j x at' vx
    ];
  }

  -- A slot that is not in use afterwards does no harm.
  pub closed-IsState :
      (i : ℕ) (s s' : Session)
      → get_elem? st.sessions i ≡ some s
      → s'.valid ≡ false
      → IsState (with_slot st i s')
  closed-IsState i s s' at v' = record {
    slots = length-set st.sessions i s' ∙ valid.slots;
    per_token = valid.per_token;
    room = λ j x h vx. elim (slot_of_set st.sessions i j s' at h) [
      | inl (e, is) ↦ let bad : s'.valid ≡ true = ap (λ z. z.valid) (sym is) ∙ vx in cc
      | inr (ne, at') ↦ valid.room j x at' vx
    ];
    found = λ j x h vx. elim (slot_of_set st.sessions i j s' at h) [
      | inl (e, is) ↦ let bad : s'.valid ≡ true = ap (λ z. z.valid) (sym is) ∙ vx in cc
      | inr (ne, at') ↦ elim (Bool-cases s.valid) [
        | inl v ↦
            let differ : s.session_id ≢ x.session_id = λ d. ne (sym (one_slot i j at v at' vx d)) in
            find-other st x.session_id i s' at (has_id-other x.session_id s differ)
              (has_id-unused x.session_id s' v')
            ∙ valid.found j x at' vx
        | inr v ↦
            find-other st x.session_id i s' at (has_id-unused x.session_id s v)
              (has_id-unused x.session_id s' v')
            ∙ valid.found j x at' vx
      ]
    ];
  }

  -- A new session, under an id that was not there, keeps the invariant.
  pub new-IsState :
      (id : Bytes) (i : ℕ) (s : Session)
      → length id ≤ 63
      → local_find_session st id ≡ none
      → get_elem? st.sessions i ≡ some s
      → s.valid ≡ false
      → IsState (with_slot st i (new_session id))
  unfolding local_find_session
  new-IsState id i s short missing at v =
      let whole : take 63 id ≡ id = take-length 63 id short in
      let ok : has_id id (new_session id) ≡ true =
        ap (λ d. same_bytes d id) whole ∙ same_bytes_refl id in
      record {
        slots = length-set st.sessions i (new_session id) ∙ valid.slots;
        per_token = valid.per_token;
        room = λ j x h vx. elim (slot_of_set st.sessions i j (new_session id) at h) [
          | inl (e, is) ↦
              let r : HasRoom 98304 (new_session id) = record {
                id = omega (arith, ap length whole);
                tokens = omega arith;
                bytes = omega arith;
                few = omega arith;
              } in
              subst (HasRoom 98304) (sym is) r
          | inr (ne, at') ↦ valid.room j x at' vx
        ];
        found = λ j x h vx. elim (slot_of_set st.sessions i j (new_session id) at h) [
          | inl (e, is) ↦
              let f : local_find_session (with_slot st i (new_session id)) id
                  ≡ some (0 + i, new_session id) =
                first_slot-set_new (has_id id) st.sessions 0 i (new_session id) missing at ok in
              let z : 0 + i ≡ j = omega (arith, e) in
              ap (local_find_session (with_slot st i (new_session id)))
                (ap (λ z. z.session_id) is ∙ whole)
              ∙ f
              ∙ ap some (ap (λ k. (k, new_session id)) z ∙ ap (λ y. (j, y)) (sym is))
          | inr (ne, at') ↦
              let differ : id ≢ x.session_id = λ d.
                let a : local_find_session st x.session_id ≡ some (j, x) = valid.found j x at' vx in
                let b : local_find_session st x.session_id ≡ none =
                  ap (local_find_session st) (sym d) ∙ missing in
                cc in
              let differ' : take 63 id ≢ x.session_id = λ d. differ (sym whole ∙ d) in
              find-other st x.session_id i (new_session id) at (has_id-unused x.session_id s v)
                (has_id-other x.session_id (new_session id) differ')
              ∙ valid.found j x at' vx
        ];
      }
