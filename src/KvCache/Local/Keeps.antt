-- ===== src/KvCache/Local/Keeps.antt =====
-- Every call of the local provider keeps its invariant.
use qw.Base.{
  ℕ, ◌+◌, ◌≤◌, Bool, true, false, ◌||◌, not, List, Option, none, some, ltb, length, get_elem?, ◌≡◌,
  refl, ap, ◌∙◌, sym, arith, Bool-cases, inl, inr,
}
use qw.Base.Int.{ℤ}
use qw.Tokenizer.Table.{Bytes}
use qw.KvCache.Local.{
  Session, State, is_unused, local_find_session, local_alloc_session, with_slot, create_in,
  create_or_empty, close_found, reset_found, write_found, written,
}
use qw.KvCache.Local.Slots.{first_slot_lem, has_id-eq}
use qw.KvCache.Local.Write.{found_at}
use qw.KvCache.Local.Valid.{IsState, changed-IsState, closed-IsState, new-IsState}

module _ {st : State} (valid : IsState st) where
  pub unused_slot :
      {i : ℕ} {s : Session}
      → local_alloc_session st ≡ some (i, s)
      → (get_elem? st.sessions i ≡ some s) × (s.valid ≡ false)
  unfolding local_alloc_session
  unused_slot {i} {s} e = elim (first_slot_lem is_unused st.sessions 0) [
    | inl (missing, all) ↦ let bad : none ≡ some (i, s) = sym missing ∙ e in cc
    | inr (k, x, found, f) ↦
        let pair : some (0 + k, x) ≡ some (i, s) = sym found ∙ e in
        let index : 0 + k ≡ i = cc in
        let index' : k ≡ i = omega (arith, index) in
        let same : x ≡ s = cc in
        (
          ap (get_elem? st.sessions) (sym index') ∙ f.at ∙ ap some same,
          ap (λ z. z.valid) (sym same) ∙ off x.valid f.ok,
        )
  ]
    where
      off : (b : Bool) → not b ≡ true → b ≡ false
      off true e = cc
      off false e = refl

  create_in-IsState :
      (allocated : Bool) (id : Bytes) (o : Option (ℕ × Session))
      → length id ≤ 63
      → local_find_session st id ≡ none
      → local_alloc_session st ≡ o
      → IsState (create_in allocated st id o).0
  create_in-IsState allocated id none short missing e = valid
  create_in-IsState true id (some (i, s)) short missing e =
      let (at, v) = unused_slot e in new-IsState valid id i s short missing at v
  create_in-IsState false id (some (i, s)) short missing e =
      let (at, v) = unused_slot e in closed-IsState valid i s _ at v

  reset-IsState :
      (id : Bytes) {i : ℕ} {s : Session}
      → local_find_session st id ≡ some (i, s)
      → IsState (with_slot st i (record s { n_tokens = 0 }))
  reset-IsState id {i} {s} e =
      let f = found_at st id e in
      let (v, same) = has_id-eq id s f.ok in
      let r = valid.room i s f.at v in
      changed-IsState valid i s (record s { n_tokens = 0 }) f.at v v refl
        (record { id = r.id; tokens = omega arith; bytes = r.bytes; few = r.few })

  pub create-IsState :
      (allocated : Bool) (id : Bytes) (o : Option (ℕ × Session))
      → length id ≤ 63
      → local_find_session st id ≡ o
      → IsState (create_or_empty allocated st id o).0
  create-IsState allocated id (some (i, s)) short e = reset-IsState id e
  create-IsState allocated id none short e =
      create_in-IsState allocated id (local_alloc_session st) short e refl

  pub reset_found-IsState :
      (id : Bytes) (o : Option (ℕ × Session))
      → local_find_session st id ≡ o
      → IsState (reset_found st o).0
  reset_found-IsState id none e = valid
  reset_found-IsState id (some (i, s)) e = reset-IsState id e

  pub close_found-IsState :
      (id : Bytes) (o : Option (ℕ × Session))
      → local_find_session st id ≡ o
      → IsState (close_found st o).0
  close_found-IsState id none e = valid
  close_found-IsState id (some (i, s)) e = closed-IsState valid i s _ (found_at st id e).at refl

  pub write_found-IsState :
      (id : Bytes) (tokens : List ℤ) (kv : Bytes) (o : Option (ℕ × Session))
      → local_find_session st id ≡ o
      → IsState (write_found st tokens kv o).0
  write_found-IsState id tokens kv none e = valid
  write_found-IsState id tokens kv (some (i, s)) e =
      elim (Bool-cases (ltb s.capacity_tokens (length tokens) || ltb s.kv_capacity (length kv))) [
        | inl full ↦ rw full valid
        | inr fits ↦
            let f = found_at st id e in
            let (v, same) = has_id-eq id s f.ok in
            let r = valid.room i s f.at v in
            let few : length tokens ≤ s.capacity_tokens = ground arith in
            rw fits (
              changed-IsState valid i s (written s tokens kv) f.at v v refl
                (record { id = r.id; tokens = few; bytes = r.bytes; few = r.few }))
      ]
