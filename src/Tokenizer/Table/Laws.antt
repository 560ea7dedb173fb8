-- ===== src/Tokenizer/Table/Laws.antt =====
-- The table as a map: what `table_put` does to every later `table_get`.
use qw.Base.{
  ℕ, zero, suc, ◌+◌, ◌-◌, ◌%◌, ◌^◌, ◌≤◌, ◌<◌, true, false, List, [], ◌∷◌, some, ◌≡◌, ◌≢◌, refl, ap,
  ◌∙◌, sym, inl, inr, arith, ==_refl, if◌then◌else◌, get_elem?, set, length, length-set,
  get_elem?-set_self, get_elem?-set_ne, get_elem?-ge, Bool-cases, bit_and,
}
use native.Mathlib.Nat.{mod-lt, one-le-pow}
use native.Mathlib.Decide.{ℕ_discrete, dec_lt}
use mathlib.Core.Path.{subst}
use qw.Base.Bits.{and_mask}
use qw.Base.Int.{ℤ}
use qw.Tokenizer.Table.{
  Bytes, Entry, Table, Stop, hit, free, fault, spin, next_slot, same_bytes, filled, mask_of, home,
  locate, table_put, table_get, found, absent, answer, store, hash_bytes,
}
use qw.Tokenizer.Table.Probe.{
  next_slot-mod, probe-ne-fault, probe-ne-spin, probe-hit, probe-free, same_bytes_refl,
  same_bytes-eq,
}
use qw.Tokenizer.Table.Write.{probe-fill_ne, probe-fill_self, probe-assign, after}

-- How many entries are in use.
abbrev pub count_used : List Entry → ℕ
count_used [] = 0
count_used (e ∷ es) = (if e.used then 1 else 0) + count_used es

-- `reach`: from its home the loop reaches every used entry by its key, so no key is there twice.
pub record IsTable (t : Table) : Type 0 where
  pub bits : ℕ
  pub size : t.cap ≡ 2 ^ bits
  pub small : t.cap ≤ 2 ^ 31
  pub slots : length t.entry ≡ t.cap
  pub counted : count_used t.entry ≡ t.used
  pub reach :
      (i : ℕ) (e : Entry) → get_elem? t.entry i ≡ some e → e.used ≡ true → locate t e.key ≡ hit i e

-- Where fewer entries are in use than there are, one is free.
free_entry :
    (es : List Entry)
    → count_used es < length es
    → (q : ℕ) × (e : Entry) × (get_elem? es q ≡ some e) × (e.used ≡ false) × (q < length es)
free_entry [] h = absurd (omega arith)
free_entry (e ∷ es) h = elim (Bool-cases e.used) [
  | inr u ↦ (0, e, refl, u, omega arith)
  | inl u ↦
      let less : count_used es < length es = ground arith in
      let (q, x, at, v, lt) = free_entry es less in (suc q, x, at, v, omega arith)
]

count_used-fill :
    (es : List Entry) (p : ℕ) (x v : Entry)
    → get_elem? es p ≡ some x
    → x.used ≡ false
    → v.used ≡ true
    → count_used (set es p v) ≡ count_used es + 1
count_used-fill [] p x v at u w = cc
count_used-fill (e ∷ es) zero x v at u w = ground arith
count_used-fill (e ∷ es) (suc p) x v at u w = omega (arith, count_used-fill es p x v at u w)

count_used-assign :
    (es : List Entry) (p : ℕ) (x v : Entry)
    → get_elem? es p ≡ some x
    → x.used ≡ v.used
    → count_used (set es p v) ≡ count_used es
count_used-assign [] p x v at u = cc
count_used-assign (e ∷ es) zero x v at u = ground arith
count_used-assign (e ∷ es) (suc p) x v at u = omega (arith, count_used-assign es p x v at u)

module _ {t : Table} (valid : IsTable t) where
  round : (i : ℕ) → i < t.cap → next_slot (mask_of t.cap) i ≡ (i + 1) % t.cap
  round i h =
      rw valid.size (next_slot-mod valid.bits i (rw valid.size at valid.small) (rw valid.size at h))

  cap_pos : 0 < t.cap
  cap_pos = omega (arith, valid.size, one-le-pow valid.bits 2)

  home-lt : (key : Bytes) → home (mask_of t.cap) key < t.cap
  home-lt key =
      let m : mask_of t.cap ≡ 2 ^ valid.bits - 1 = omega (arith, valid.size, cap_pos) in
      let b : bit_and (hash_bytes key) (mask_of t.cap) < t.cap =
        rw (m, and_mask)
          (rw valid.size (mod-lt (hash_bytes key) (omega (arith, valid.size, cap_pos)))) in
      omega (arith, b)

  -- With a free entry the loop ends, inside the array.
  pub locate-ends : t.used < t.cap → (key : Bytes) → (locate t key ≢ fault) × (locate t key ≢ spin)
  unfolding locate
  locate-ends room key =
      let (q, e, at, u, lt) = free_entry t.entry (omega (arith, valid.counted, valid.slots)) in
      (
        probe-ne-fault (mask_of t.cap) t.cap round t.entry valid.slots t.cap key _ (home-lt key),
        probe-ne-spin (mask_of t.cap) t.cap round t.entry valid.slots key _ q e (home-lt key) at u
            (omega (arith, valid.slots)),
      )

  pub table_get-answer : (key : Bytes) → table_get t key ≡ answer (locate t key)
  unfolding table_get
  table_get-answer key = let p = cap_pos in ground arith

  index_lt : (i : ℕ) {e : Entry} → get_elem? t.entry i ≡ some e → i < length t.entry
  index_lt i h = elim (dec_lt i (length t.entry)) [
    | yes lt ↦ lt
    | no ge ↦ cc (h, get_elem?-ge t.entry i (omega arith))
  ]

-- What a `table_put` that returned `u` has done to `t`.
pub record Wrote (t : Table) (key : Bytes) (value : ℤ) (u : Table) : Type 0 where
  pub valid : IsTable u
  pub cap : u.cap ≡ t.cap
  pub at_most_one : u.used ≤ t.used + 1
  pub reads :
      (j : Bytes) → table_get u j ≡ (if same_bytes key j then found value else table_get t j)

module _ {t : Table} (valid : IsTable t) (key : Bytes) (value : ℤ) where
  -- The loop found the key: its value is replaced.
  module _ {p : ℕ} {x : Entry} (h : locate t key ≡ hit p x) where
    abbrev assigned : Table
    assigned = record t { entry = set t.entry p (record x { value = value }) }

    place : (get_elem? t.entry p ≡ some x) × (x.used ≡ true) × (x.key ≡ key)
    unfolding locate
    place = probe-hit (mask_of t.cap) t.entry key t.cap _ h

    locate-assigned :
        (j : Bytes) → locate assigned j ≡ after p (record x { value = value }) (locate t j)
    unfolding locate
    locate-assigned j =
        probe-assign (mask_of t.cap) t.entry p (index_lt valid p place.0) x
          (record x { value = value }) place.0 place.1 t.cap _ j place.1 refl

    -- The entry at `p` is now the one with the new value.
    now : get_elem? assigned.entry p ≡ some (record x { value = value })
    now = get_elem?-set_self t.entry p _ (index_lt valid p place.0)

    reach-assigned :
        (i : ℕ) (e : Entry)
        → get_elem? assigned.entry i ≡ some e
        → e.used ≡ true
        → locate assigned e.key ≡ hit i e
    reach-assigned i e at u = elim (ℕ_discrete p i) [
      | yes same ↦
          let new : record x { value = value } ≡ e = cc now in
          let there : locate t x.key ≡ hit p x =
            subst (λ k. locate t k ≡ hit p x) (sym place.2) h in
          subst (λ e'. locate assigned e'.key ≡ hit i e') new
            (rw (locate-assigned, there, ← same, ==_refl))
      | no ne ↦
          let before : locate t e.key ≡ hit i e =
            valid.reach i e (sym (get_elem?-set_ne t.entry _ ne) ∙ at) u in
          rw (locate-assigned, before) (ground arith)
    ]

    assigned-IsTable : IsTable assigned
    assigned-IsTable = record {
      bits = valid.bits;
      size = valid.size;
      small = valid.small;
      slots = length-set t.entry p _ ∙ valid.slots;
      counted = count_used-assign t.entry p x _ place.0 refl ∙ valid.counted;
      reach = reach-assigned;
    }

    -- A loop for another key does not end at `p`.
    unmoved :
        (j : Bytes) (s : Stop)
        → key ≢ j
        → locate t j ≡ s
        → answer (after p (record x { value = value }) s) ≡ answer s
    unfolding locate
    unmoved j (hit q e) ne at = elim (ℕ_discrete p q) [
      | no far ↦ ground arith
      | yes same ↦
          let (found_at, u, its_key) = probe-hit (mask_of t.cap) t.entry j t.cap _ at in
          absurd (
            ne (
              let same_entry : e ≡ x = cc (place.0, found_at, same) in
              sym place.2 ∙ sym (ap (λ (y : Entry). y.key) same_entry) ∙ its_key))
    ]
    unmoved j (free q) ne at = refl
    unmoved j fault ne at = refl
    unmoved j spin ne at = refl

    assigned-Wrote : Wrote t key value assigned
    assigned-Wrote = record {
      valid = assigned-IsTable;
      cap = refl;
      at_most_one = omega arith;
      reads = λ j.
          rw (table_get-answer assigned-IsTable j, table_get-answer valid j, locate-assigned j)
            (elim (Bool-cases (same_bytes key j)) [
              | inl same ↦
                  let e : locate t j ≡ hit p x =
                    subst (λ k. locate t k ≡ hit p x) (same_bytes-eq key j same) h in
                  rw (same, e, ==_refl)
              | inr other ↦ rw other (
                  unmoved j (locate t j)
                    (λ same. cc (other, same_bytes_refl key, ap (same_bytes key) same)) refl)
            ]);
    }

  -- The loop found no key: the free entry is filled.
  module _ (room : t.used + 1 < t.cap) {p : ℕ} (h : locate t key ≡ free p) where
    abbrev added : Table
    added = record t { entry = set t.entry p (filled key value); used = (t.used + 1) % 2 ^ 32 }

    gap : (e : Entry) × (get_elem? t.entry p ≡ some e) × (e.used ≡ false)
    unfolding locate
    gap = probe-free (mask_of t.cap) t.entry key t.cap _ h

    locate-added_self : locate added key ≡ hit p (filled key value)
    unfolding locate
    locate-added_self =
        probe-fill_self (mask_of t.cap) t.entry p (index_lt valid p gap.1) gap.0 (filled key value)
          gap.1 gap.2 t.cap _ refl h

    locate-added_ne : (j : Bytes) → locate t j ≢ free p → locate added j ≡ locate t j
    unfolding locate
    locate-added_ne j ne =
        probe-fill_ne (mask_of t.cap) t.entry p (index_lt valid p gap.1) gap.0 (filled key value)
          gap.1 gap.2 t.cap _ j ne

    filled_there : get_elem? added.entry p ≡ some (filled key value)
    filled_there = get_elem?-set_self t.entry p _ (index_lt valid p gap.1)

    reach-added :
        (i : ℕ) (e : Entry)
        → get_elem? added.entry i ≡ some e
        → e.used ≡ true
        → locate added e.key ≡ hit i e
    reach-added i e at u = elim (ℕ_discrete p i) [
      | yes same ↦
          let new : filled key value ≡ e = cc filled_there in
          subst (λ e'. locate added e'.key ≡ hit i e') new
            (locate-added_self ∙ ap (λ n. hit n (filled key value)) same)
      | no ne ↦
          let before : locate t e.key ≡ hit i e =
            valid.reach i e (sym (get_elem?-set_ne t.entry _ ne) ∙ at) u in
          locate-added_ne e.key (λ q. let bad : hit i e ≡ free p = sym before ∙ q in cc) ∙ before
    ]

    added-IsTable : IsTable added
    added-IsTable = record {
      bits = valid.bits;
      size = valid.size;
      small = valid.small;
      slots = length-set t.entry p _ ∙ valid.slots;
      counted = omega (
        arith,
        count_used-fill t.entry p gap.0 (filled key value) gap.1 gap.2 refl,
        valid.counted,
        valid.small,
      );
      reach = reach-added;
    }

    -- A loop for another key that ended at the gap does not find its key behind it.
    still_absent :
        (j : Bytes) (s : Stop)
        → key ≢ j
        → locate t j ≡ free p
        → locate added j ≡ s
        → answer s ≡ absent
    unfolding locate
    still_absent j (hit q e) ne before now =
        let (there, u, its_key) = probe-hit (mask_of t.cap) added.entry j t.cap _ now in
        elim (ℕ_discrete p q) [
          | yes same ↦
              let new : filled key value ≡ e = cc (filled_there, there, same) in
              absurd (ne (ap (λ (y : Entry). y.key) new ∙ its_key))
          | no far ↦
              let old : locate t e.key ≡ hit q e =
                valid.reach q e (sym (get_elem?-set_ne t.entry _ far) ∙ there) u in
              let bad : hit q e ≡ free p = sym old ∙ ap (locate t) its_key ∙ before in cc
        ]
    still_absent j (free q) ne before now = refl
    still_absent j fault ne before now = absurd ((locate-ends added-IsTable (omega arith) j).0 now)
    still_absent j spin ne before now = absurd ((locate-ends added-IsTable (omega arith) j).1 now)

    answer-added :
        (j : Bytes) (s : Stop) → key ≢ j → locate t j ≡ s → answer (locate added j) ≡ answer s
    answer-added j (free q) ne at = elim (ℕ_discrete p q) [
      | yes same ↦ still_absent j (locate added j) ne (at ∙ ap free (sym same)) refl
      | no far ↦
          let kept : locate added j ≡ locate t j =
            locate-added_ne j (λ e. far (let bad : free q ≡ free p = sym at ∙ e in cc)) in
          ap answer (kept ∙ at)
    ]
    answer-added j (hit q e) ne at =
        ap answer (locate-added_ne j (λ f. let bad : hit q e ≡ free p = sym at ∙ f in cc) ∙ at)
    answer-added j fault ne at =
        ap answer (locate-added_ne j (λ f. let bad : fault ≡ free p = sym at ∙ f in cc) ∙ at)
    answer-added j spin ne at =
        ap answer (locate-added_ne j (λ f. let bad : spin ≡ free p = sym at ∙ f in cc) ∙ at)

    added-Wrote : Wrote t key value added
    added-Wrote = record {
      valid = added-IsTable;
      cap = refl;
      at_most_one = omega arith;
      reads = λ j.
          rw (table_get-answer added-IsTable j, table_get-answer valid j)
            (elim (Bool-cases (same_bytes key j)) [
              | inl same ↦
                  let e : locate added j ≡ hit p (filled key value) =
                    subst (λ k. locate added k ≡ hit p (filled key value))
                      (same_bytes-eq key j same) locate-added_self in
                  rw (same, e)
              | inr other ↦ rw other (
                  answer-added j (locate t j)
                    (λ same. cc (other, same_bytes_refl key, ap (same_bytes key) same)) refl)
            ]);
    }

  put_cases :
      (s : Stop)
      → t.used + 1 < t.cap
      → locate t key ≡ s
      → (u : Table) × (store t key value s ≡ some u) × Wrote t key value u
  unfolding store
  put_cases (hit i e) room at = (assigned at, refl, assigned-Wrote at)
  put_cases (free i) room at = (added room at, refl, added-Wrote room at)
  put_cases fault room at = absurd ((locate-ends valid (omega arith) key).0 at)
  put_cases spin room at = absurd ((locate-ends valid (omega arith) key).1 at)

  -- On a table in which two entries are free, `table_put` ends and returns a table that keeps the
  -- invariant and the capacity, has at most one entry more, answers the value for the key, and
  -- answers every other key as before.
  pub table_put-Wrote :
      t.used + 1 < t.cap → (u : Table) × (table_put t key value ≡ some u) × Wrote t key value u
  unfolding table_put
  table_put-Wrote room = put_cases (locate t key) room refl
