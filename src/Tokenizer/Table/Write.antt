-- ===== src/Tokenizer/Table/Write.antt =====
-- What one write to the array does to the probing loop of every key.
use qw.Base.{
  ℕ, zero, suc, ◌<◌, true, false, List, Option, none, some, ◌≡◌, ◌≢◌, refl, ◌∙◌, sym, arith, ◌==◌,
  if◌then◌else◌, get_elem?, set, length, get_elem?-set_self, get_elem?-set_ne,
}
use native.Mathlib.Decide.{ℕ_discrete}
use qw.Tokenizer.Table.{Bytes, Entry, Stop, hit, free, next_slot, look, probe}
use qw.Tokenizer.Table.Probe.{
  outside, ends, meets, goes_on, look-Round, same_bytes_refl, same_bytes_ne,
}

-- `look` at an entry that is known.
pub look_met :
    (e : Entry) (i : ℕ) (rest : Stop) → e.used ≡ true → look e.key i (some e) rest ≡ hit i e
unfolding look
look_met e i rest u = rw (u, same_bytes_refl e.key)

pub look_passed :
    (e : Entry) (key : Bytes) (i : ℕ) (rest : Stop)
    → e.used ≡ true
    → e.key ≢ key
    → look key i (some e) rest ≡ rest
unfolding look
look_passed e key i rest u ne = rw (u, same_bytes_ne e.key key ne)

-- What the later rounds find counts only where the loop goes on.
look_congr :
    (key : Bytes) (i : ℕ) (o : Option Entry) (r r' : Stop)
    → (look key i o r ≡ r → r' ≡ r)
    → look key i o r' ≡ look key i o r
unfolding look
look_congr key i none r r' h = refl
look_congr key i (some e) r r' h = ground (arith)

-- What a loop reports once the entry at `p` is `v`, from what it reported before.
abbrev pub after : ℕ → Entry → Stop → Stop
after p v (hit q e) = if p == q then hit p v else hit q e
after p v s = s

module _ (m : ℕ) (es : List Entry) (p : ℕ) (inside : p < length es) where
  module _ (x v : Entry) (old : get_elem? es p ≡ some x) (unused : x.used ≡ false) where
    -- A loop that did not end at the slot that is filled is as before.
    pub probe-fill_ne :
        (f i : ℕ) (key : Bytes)
        → probe f es m key i ≢ free p
        → probe f (set es p v) m key i ≡ probe f es m key i
    unfolding probe
    probe-fill_ne zero i key ne = refl
    probe-fill_ne (suc f) i key ne = elim (ℕ_discrete p i) [
      | yes e ↦ absurd (ne (here e))
      | no e ↦ rw (get_elem?-set_ne es v e) (
          look_congr key i (get_elem? es i) _ _
            λ l. probe-fill_ne f (next_slot m i) key (λ q. ne (l ∙ q)))
    ]
      where
        here : p ≡ i → look key i (get_elem? es i) (probe f es m key (next_slot m i)) ≡ free p
        here e = rw (← e, old) (unfold look in rw unused)

    -- A loop that ended at that slot now finds the new key there.
    pub probe-fill_self :
        (f i : ℕ)
        → v.used ≡ true
        → probe f es m v.key i ≡ free p
        → probe f (set es p v) m v.key i ≡ hit p v
    unfolding probe
    probe-fill_self zero i u h = cc
    probe-fill_self (suc f) i u h = elim (ℕ_discrete p i) [
      | yes e ↦ rw (← e, get_elem?-set_self es p v inside) (look_met v p _ u)
      | no e ↦
          rw (get_elem?-set_ne es v e)
            (elim (look-Round v.key i (get_elem? es i) (probe f es m v.key (next_slot m i))) [
              | outside o l ↦ cc
              | ends y o w l ↦ absurd (e (let q : free i ≡ free p = sym l ∙ h in cc))
              | meets y o w s l ↦ cc
              | goes_on y o w s l ↦
                  rw (o, look_passed y v.key i _ w s)
                    (probe-fill_self f (next_slot m i) u (sym l ∙ h))
            ])
    ]

  module _ (x v : Entry) (old : get_elem? es p ≡ some x) (was : x.used ≡ true) where
    look_assigned :
        (key : Bytes) (r' r : Stop)
        → v.used ≡ true
        → v.key ≡ x.key
        → r' ≡ after p v r
        → look key p (some v) r' ≡ after p v (look key p (some x) r)
    unfolding look
    look_assigned key r' r u same h = rw (u, was, same) (ground arith)

    look_here :
        (key : Bytes) (i : ℕ) (r' r : Stop)
        → v.used ≡ true
        → v.key ≡ x.key
        → p ≡ i
        → r' ≡ after p v r
        → look key i (get_elem? (set es p v) i) r' ≡ after p v (look key i (get_elem? es i) r)
    look_here key i r' r u same e h =
        rw (← e, get_elem?-set_self es p v inside, old) (look_assigned key r' r u same h)

    look_other :
        (key : Bytes) (i : ℕ) (o : Option Entry) (r' r : Stop)
        → p ≢ i
        → r' ≡ after p v r
        → look key i o r' ≡ after p v (look key i o r)
    unfolding look
    look_other key i none r' r ne h = refl
    look_other key i (some e) r' r ne h = ground arith

    -- A write to the value of a used entry changes what a loop that ends there reports, no more.
    pub probe-assign :
        (f i : ℕ) (key : Bytes)
        → v.used ≡ true
        → v.key ≡ x.key
        → probe f (set es p v) m key i ≡ after p v (probe f es m key i)
    unfolding probe
    probe-assign zero i key u same = refl
    probe-assign (suc f) i key u same =
        let ih = probe-assign f (next_slot m i) key u same in
        elim (ℕ_discrete p i) [
          | yes e ↦ look_here key i _ _ u same e ih
          | no e ↦ rw (get_elem?-set_ne es v e) (look_other key i (get_elem? es i) _ _ e ih)
        ]
