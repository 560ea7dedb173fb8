-- ===== src/KvCache/Local/Slots.antt =====
-- The search through the slots in src/ds3_kv_cache.c, and what a change of one slot does to it.
use qw.Base.{
  ℕ, zero, suc, ◌+◌, ◌<◌, Bool, true, false, ◌&&◌, List, [], ◌∷◌, Option, none, some, if◌then◌else◌,
  set, get_elem?, ◌≡◌, ◌≢◌, refl, ap, ◌∙◌, sym, arith, Bool-cases, inl, inr, ◌⊎◌,
}
use qw.Tokenizer.Table.{Bytes}
use qw.Tokenizer.Table.Probe.{same_bytes-eq, same_bytes_refl, same_bytes_ne}
use qw.KvCache.Local.{Session, first_slot, has_id}

-- The slot at index `k` is the first that the test accepts.
pub record IsFirst (test : Session → Bool) (ss : List Session) (k : ℕ) (s : Session) : Type 0 where
  pub at : get_elem? ss k ≡ some s
  pub ok : test s ≡ true
  pub before : (j : ℕ) (x : Session) → get_elem? ss j ≡ some x → test x ≡ true → (j ≡ k) ⊎ (k < j)

module _ (test : Session → Bool) where
  slot_here :
      (s : Session) (ss : List Session) (i : ℕ)
      → test s ≡ true
      → first_slot test (s ∷ ss) i ≡ some (i, s)
  unfolding first_slot
  slot_here s ss i e = rw e refl

  slot_later :
      (s : Session) (ss : List Session) (i : ℕ)
      → test s ≡ false
      → first_slot test (s ∷ ss) i ≡ first_slot test ss (i + 1)
  unfolding first_slot
  slot_later s ss i e = rw e refl

  moved :
      (i k : ℕ) (s : Session) (o : Option (ℕ × Session))
      → o ≡ some (i + 1 + k, s)
      → o ≡ some (i + suc k, s)
  moved i k s o h = h ∙ ap (λ n. some (n, s)) (omega arith)

  -- A slot that the test rejects may change to another that it rejects.
  pub first_slot-set_other :
      (ss : List Session) (i k : ℕ) (s' : Session) {s : Session}
      → get_elem? ss k ≡ some s
      → test s ≡ false
      → test s' ≡ false
      → first_slot test (set ss k s') i ≡ first_slot test ss i
  unfolding first_slot
  first_slot-set_other [] i k s' at e e' = cc
  first_slot-set_other (x ∷ xs) i zero s' {s} at e e' =
      let same : x ≡ s = cc in
      let ex : test x ≡ false = cc in slot_later s' xs i e' ∙ sym (slot_later x xs i ex)
  first_slot-set_other (x ∷ xs) i (suc k) s' at e e' =
      ap (λ r. if test x then some (i, x) else r) (first_slot-set_other xs (i + 1) k s' at e e')

  -- The slot that is found may change to another that the test accepts.
  pub first_slot-set_found :
      (ss : List Session) (i k : ℕ) (s' : Session) {s : Session}
      → first_slot test ss i ≡ some (i + k, s)
      → test s' ≡ true
      → first_slot test (set ss k s') i ≡ some (i + k, s')
  unfolding first_slot
  first_slot-set_found [] i k s' h e' = let e : none ≡ some (i + k, _) = h in cc
  first_slot-set_found (x ∷ xs) i zero s' h e' =
      slot_here s' xs i e' ∙ ap (λ n. some (n, s')) (omega arith)
  first_slot-set_found (x ∷ xs) i (suc k) s' {s} h e' = elim (Bool-cases (test x)) [
    | inl e ↦
        let same : some (i, x) ≡ some (i + suc k, s) = sym (slot_here x xs i e) ∙ h in
        let same' : i ≡ i + suc k = cc in absurd (omega arith)
    | inr e ↦
        let h' : first_slot test xs (i + 1) ≡ some (i + 1 + k, s) =
          sym (slot_later x xs i e) ∙ h ∙ ap (λ n. some (n, s)) (omega arith) in
        slot_later x (set xs k s') i e ∙ moved i k s' _ (first_slot-set_found xs (i + 1) k s' h' e')
  ]

  -- Where the test accepts no slot, a slot that changes to one it accepts is found.
  pub first_slot-set_new :
      (ss : List Session) (i k : ℕ) (s' : Session) {s : Session}
      → first_slot test ss i ≡ none
      → get_elem? ss k ≡ some s
      → test s' ≡ true
      → first_slot test (set ss k s') i ≡ some (i + k, s')
  unfolding first_slot
  first_slot-set_new [] i k s' h at e' = cc
  first_slot-set_new (x ∷ xs) i zero s' h at e' =
      slot_here s' xs i e' ∙ ap (λ n. some (n, s')) (omega arith)
  first_slot-set_new (x ∷ xs) i (suc k) s' h at e' = elim (Bool-cases (test x)) [
    | inl e ↦ let bad : some (i, x) ≡ none = sym (slot_here x xs i e) ∙ h in cc
    | inr e ↦
        slot_later x (set xs k s') i e
        ∙ moved i k s' _ (first_slot-set_new xs (i + 1) k s' (sym (slot_later x xs i e) ∙ h) at e')
  ]

  pub first_slot_lem :
      (ss : List Session) (i : ℕ)
      → ((first_slot test ss i ≡ none)
          × ((j : ℕ) (x : Session) → get_elem? ss j ≡ some x → test x ≡ false))
        ⊎ ((k : ℕ) × (s : Session) × (first_slot test ss i ≡ some (i + k, s)) × IsFirst test ss k s)
  unfolding first_slot
  first_slot_lem [] i = inl (refl, λ j x at. cc)
  first_slot_lem (x ∷ xs) i = elim (Bool-cases (test x)) [
    | inl e ↦ inr (
      0,
      x,
      slot_here x xs i e ∙ ap (λ n. some (n, x)) (omega arith),
      record { at = refl; ok = e; before = λ j y at t. first_or j },
    )
    | inr e ↦ elim (first_slot_lem xs (i + 1)) [
      | inl (h, all) ↦ inl (slot_later x xs i e ∙ h, λ j y at. at_none e all j y at)
      | inr (k, s, h, f) ↦ inr (
        suc k,
        s,
        slot_later x xs i e ∙ moved i k s _ h,
        record { at = f.at; ok = f.ok; before = λ j y at t. before_suc e f j y at t },
      )
    ]
  ]
    where
      first_or : (j : ℕ) → (j ≡ 0) ⊎ (0 < j)
      first_or zero = inl refl
      first_or (suc j) = inr (omega arith)

      at_none :
          test x ≡ false
          → ((j : ℕ) (y : Session) → get_elem? xs j ≡ some y → test y ≡ false)
          → (j : ℕ) (y : Session) → get_elem? (x ∷ xs) j ≡ some y
          → test y ≡ false
      at_none e all zero y at = let same : x ≡ y = cc in cc
      at_none e all (suc j) y at = all j y at

      before_suc :
          {k : ℕ} {s : Session}
          → test x ≡ false
          → IsFirst test xs k s
          → (j : ℕ) (y : Session) → get_elem? (x ∷ xs) j ≡ some y
          → test y ≡ true
          → (j ≡ suc k) ⊎ (suc k < j)
      before_suc e f zero y at t = let same : x ≡ y = cc in let bad : true ≡ false = cc in cc
      before_suc {k} e f (suc j) y at t = elim (f.before j y at t) [
        | inl same ↦ inl (ap suc same)
        | inr lt ↦ inr (omega arith)
      ]

-- The id of the slot that is found is the one looked for.
pub has_id-eq :
    (id : Bytes) (s : Session) → has_id id s ≡ true → (s.valid ≡ true) × (s.session_id ≡ id)
has_id-eq id s h = (left s.valid _ h, same_bytes-eq s.session_id id (right s.valid _ h))
  where
    left : (a b : Bool) → (a && b) ≡ true → a ≡ true
    left a b e = ground arith

    right : (a b : Bool) → (a && b) ≡ true → b ≡ true
    right a b e = ground arith

pub has_id-other : (id : Bytes) (s : Session) → s.session_id ≢ id → has_id id s ≡ false
has_id-other id s ne = ap (λ b. s.valid && b) (same_bytes_ne s.session_id id ne) ∙ off s.valid
  where
    off : (a : Bool) → (a && false) ≡ false
    off true = refl
    off false = refl

pub has_id_self : (s : Session) → s.valid ≡ true → has_id s.session_id s ≡ true
has_id_self s v = rw (v, same_bytes_refl s.session_id) refl

pub has_id-unused : (id : Bytes) (s : Session) → s.valid ≡ false → has_id id s ≡ false
has_id-unused id s v = rw v refl
