-- ===== src/Base/First.antt =====
-- The first element of a list that a test accepts, and removal by the last element.
use qw.Base.{
  ℕ, zero, suc, ◌==◌, ==_iff, ◌+◌, ◌-◌, ◌<◌, Bool, true, false, List, [], ◌∷◌, Option, none, some,
  if◌then◌else◌, length, get_elem?, set, take, ◌≡◌, ◌≢◌, refl, ap, ◌∙◌, sym, arith, Bool-cases, inl,
  inr, ◌⊎◌, get_elem?-set_self, get_elem?-set_ne, get_elem?-lt, length-set, length-take,
}

eq_cases : (a b : ℕ) → (a ≡ b) ⊎ (a ≢ b)
eq_cases a b = elim (Bool-cases (a == b)) [
  | inl e ↦ inl ((==_iff a b).0 e)
  | inr e ↦ inr (λ h. let t = (==_iff a b).1 h in cc)
]

module _ {ℓ} {A : Type ℓ} where
  -- The first element that the test accepts, and its index counted from `i`.
  unfoldable pub first_index : (A → Bool) → List A → ℕ → Option (ℕ × A)
  first_index test [] i = none
  first_index test (x ∷ xs) i =
      let rest = first_index test xs (i + 1) in if test x then some (i, x) else rest

  first_here :
      (test : A → Bool) (x : A) (xs : List A) (i : ℕ)
      → test x ≡ true
      → first_index test (x ∷ xs) i ≡ some (i, x)
  unfolding first_index
  first_here test x xs i e = rw e refl

  first_later :
      (test : A → Bool) (x : A) (xs : List A) (i : ℕ)
      → test x ≡ false
      → first_index test (x ∷ xs) i ≡ first_index test xs (i + 1)
  unfolding first_index
  first_later test x xs i e = rw e refl

  first_some_inv : {p q : ℕ × A} → some p ≡ some q → p ≡ q
  first_some_inv e = cc

  -- What is found is an element that the test accepts, at its index.
  pub first_index-some :
      (test : A → Bool) (xs : List A) (i : ℕ) {k : ℕ} {x : A}
      → first_index test xs i ≡ some (k, x)
      → (j : ℕ) × (k ≡ i + j) × (get_elem? xs j ≡ some x) × (test x ≡ true)
  unfolding first_index
  first_index-some test [] i e = cc
  first_index-some test (y ∷ xs) i {k} {x} e = elim (Bool-cases (test y)) [
    | inl accepted ↦
        let same = first_some_inv (sym (first_here test y xs i accepted) ∙ e) in
        let ei : i ≡ k = ap (λ p. p.0) same in
        let ex : y ≡ x = ap (λ p. p.1) same in
        (0, (omega arith), ap some ex, ap test (sym ex) ∙ accepted)
    | inr rejected ↦
        let (j, ek, at, ok) =
          first_index-some test xs (i + 1) (sym (first_later test y xs i rejected) ∙ e) in
        (suc j, (omega arith), at, ok)
  ]

  -- Where nothing is found, the test rejects every element.
  pub first_index-none :
      (test : A → Bool) (xs : List A) (i j : ℕ) {x : A}
      → first_index test xs i ≡ none
      → get_elem? xs j ≡ some x
      → test x ≡ false
  unfolding first_index
  first_index-none test [] i j e at = cc
  first_index-none test (y ∷ xs) i zero e at = elim (Bool-cases (test y)) [
    | inl accepted ↦ let bad : some (i, y) ≡ none = sym (first_here test y xs i accepted) ∙ e in cc
    | inr rejected ↦ cc
  ]
  first_index-none test (y ∷ xs) i (suc j) e at = elim (Bool-cases (test y)) [
    | inl accepted ↦ let bad : some (i, y) ≡ none = sym (first_here test y xs i accepted) ∙ e in cc
    | inr rejected ↦
        first_index-none test xs (i + 1) j (sym (first_later test y xs i rejected) ∙ e) at
  ]

  get_elem?-take : (n : ℕ) (xs : List A) (j : ℕ) → j < n → get_elem? (take n xs) j ≡ get_elem? xs j
  get_elem?-take zero xs j h = absurd (omega arith)
  get_elem?-take (suc n) [] j h = refl
  get_elem?-take (suc n) (x ∷ xs) zero h = refl
  get_elem?-take (suc n) (x ∷ xs) (suc j) h = get_elem?-take n xs j (omega arith)

  pub get_elem?_bound : (xs : List A) (j : ℕ) {x : A} → get_elem? xs j ≡ some x → j < length xs
  get_elem?_bound [] j e = cc
  get_elem?_bound (y ∷ xs) zero e = omega arith
  get_elem?_bound (y ∷ xs) (suc j) e = let h = get_elem?_bound xs j e in omega arith

  -- The last element takes the place at `i`, and the list is one shorter.
  abbrev pub swap_last : List A → ℕ → Option A → List A
  swap_last xs i none = xs
  swap_last xs i (some last) = take (length xs - 1) (set xs i last)

  unfoldable pub remove_at : List A → ℕ → List A
  remove_at xs i = swap_last xs i (get_elem? xs (length xs - 1))

  pub length-remove_at :
      (xs : List A) (i : ℕ) → i < length xs → length (remove_at xs i) ≡ length xs - 1
  unfolding remove_at
  length-remove_at xs i h =
      let (last, e) = get_elem?-lt xs (length xs - 1) (omega arith) in
      ap (λ o. length (swap_last xs i o)) e
      ∙ length-take (length xs - 1) (set xs i last)
      ∙ omega (arith, length-set xs i last)

  remove_at-get :
      (xs : List A) (i j : ℕ) {last : A}
      → get_elem? xs (length xs - 1) ≡ some last
      → j < length xs - 1
      → get_elem? (remove_at xs i) j ≡ get_elem? (set xs i last) j
  unfolding remove_at
  remove_at-get xs i j {last} e h =
      ap (λ o. get_elem? (swap_last xs i o) j) e
      ∙ get_elem?-take (length xs - 1) (set xs i last) j h

  -- Where an element of the shorter list was: at its place, or at the end.
  pub remove_at_from :
      (xs : List A) (i j : ℕ) {x : A}
      → i < length xs
      → get_elem? (remove_at xs i) j ≡ some x
      → (k : ℕ) × (get_elem? xs k ≡ some x)
        × (j < length xs - 1)
        × (k ≢ i)
        × (((j ≡ i) × (k ≡ length xs - 1)) ⊎ ((j ≢ i) × (k ≡ j)))
  remove_at_from xs i j {x} h at =
      let (last, e) = get_elem?-lt xs (length xs - 1) (omega arith) in
      let lt : j < length xs - 1 =
        let b = get_elem?_bound (remove_at xs i) j at in omega (arith, length-remove_at xs i h) in
      let at' = sym (remove_at-get xs i j e lt) ∙ at in
      elim (eq_cases j i) [
        | inl same ↦
            let self =
              ap (λ n. get_elem? (set xs i last) n) same ∙ get_elem?-set_self xs i last h in
            (length xs - 1, e ∙ sym self ∙ at', lt, (omega arith), inl (same, refl))
        | inr differ ↦ (
          j,
          sym (get_elem?-set_ne xs last (λ s. differ (sym s))) ∙ at',
          lt,
          differ,
          inr (differ, refl),
        )
      ]

  -- Where another element goes.
  pub remove_at_to :
      (xs : List A) (i k : ℕ) {x : A}
      → i < length xs
      → k ≢ i
      → get_elem? xs k ≡ some x
      → (j : ℕ) × (get_elem? (remove_at xs i) j ≡ some x)
  remove_at_to xs i k {x} h differ at =
      let (last, e) = get_elem?-lt xs (length xs - 1) (omega arith) in
      let bound = get_elem?_bound xs k at in
      elim (eq_cases k (length xs - 1)) [
        | inl same ↦
            let at' : some last ≡ some x = sym e ∙ ap (get_elem? xs) (sym same) ∙ at in
            (i, remove_at-get xs i i e (omega arith) ∙ get_elem?-set_self xs i last h ∙ at')
        | inr inner ↦ (
          k,
          remove_at-get xs i k e (omega arith)
              ∙ get_elem?-set_ne xs last (λ s. differ (sym s))
              ∙ at,
        )
      ]
