-- ===== src/Daemon/Json/Skip/Ends.antt =====
-- Skipping a JSON value ends on every text, with the pointer behind what was skipped.
use qw.Base.{
  ℕ, zero, suc, ◌+◌, ◌≤◌, ◌<◌, true, false, [], ◌∷◌, Option, none, some, leb, ◌==◌, if_both, length,
  ◌≡◌, refl, ap, arith, Bool-cases, inl, inr, ◌⊎◌, ◌-◌,
}
use qw.Tokenizer.Table.{Bytes}
use qw.Daemon.Json.{
  Scan, json_ws, json_lit, json_string, as_c_string, string_at, string_from, escape_at, prefixed,
  refused_at,
}
use qw.Daemon.Json.Skip.{
  Doubles, quote, brace, bracket, other, start_of, closed, comma, neither, separator_of, next_byte,
  Skip, skipped, refused, and_skip, skip_string, colon_then, key_then, Mode, a_value, the_elements,
  the_members, json_number, skip_plain, skip, json_skip_value, true_text, false_text, null_text,
}

pub length-json_ws : (p : Bytes) → length (json_ws p) ≤ length p
unfolding json_ws
length-json_ws [] = omega arith
length-json_ws (c ∷ r) =
    let ih = length-json_ws r in
    if_both (λ q. length q ≤ suc (length r)) _ (json_ws r) (c ∷ r) (λ e. omega arith)
      (λ e. omega arith)

pub length-next_byte : (p : Bytes) → length (next_byte p) ≤ length p
length-next_byte [] = omega arith
length-next_byte (c ∷ r) = omega arith

length-json_lit : (l : Bytes) (p r : Bytes) → json_lit l p ≡ some r → length r + length l ≡ length p
unfolding json_lit
length-json_lit [] p r e = let same : p ≡ r = cc in omega (arith, ap length same)
length-json_lit (l ∷ ls) [] r e = cc
length-json_lit (l ∷ ls) (c ∷ p) r e = elim (Bool-cases (c == l)) [
  | inl same ↦
      let e' : json_lit ls p ≡ some r = rw same at e in omega (arith, length-json_lit ls p r e')
  | inr differ ↦ let bad : none ≡ some r = rw differ at e in cc
]

-- A scanned string leaves fewer than `n` bytes.
abbrev pub Leaves : ℕ → Scan Bytes → Type 0
Leaves n x = (s : Bytes) → x.0 ≡ some s → length x.1 < n

Leaves-prefixed : (n : ℕ) (out : Bytes) (x : Scan Bytes) → Leaves n x → Leaves n (prefixed out x)
Leaves-prefixed n out (none, r) h = h
Leaves-prefixed n out (some s, r) h = λ t e. h s refl

string_from-Leaves : (k : ℕ) (p : Bytes) → Leaves (length p) (string_from k p)
unfolding string_from
string_from-Leaves k [] = λ s e. cc
string_from-Leaves (suc k) (c ∷ r) = λ s e. let h = string_from-Leaves k r s e in omega arith
string_from-Leaves zero (c ∷ r) =
    if_both (Leaves (suc (length r))) (c == b'"') (some [], r) _ (λ e s h. omega arith)
      λ e.
        if_both (Leaves (suc (length r))) (c == b'\\') _ _
          (λ e.
            elim (escape_at (c ∷ r))
              as (λ o. Leaves (suc (length r)) (elim o [
                | none ↦ (none, refused_at (c ∷ r))
                | some e ↦ prefixed e.0 (string_from (e.1 - 1) r)
              ])) [
                | none ↦ λ s h. cc
                | some esc ↦
                    Leaves-prefixed (suc (length r)) esc.0 (string_from (esc.1 - 1) r)
                      (λ s h. let lt = string_from-Leaves (esc.1 - 1) r s h in omega arith)
              ])
          (λ e.
            Leaves-prefixed (suc (length r)) (c ∷ []) (string_from 0 r)
              (λ s h. let lt = string_from-Leaves 0 r s h in omega arith))

string_at-Leaves : (p : Bytes) → Leaves (length p) (string_at p)
string_at-Leaves [] = λ s e. cc
string_at-Leaves (c ∷ r) =
    if_both (Leaves (suc (length r))) (c == b'"') (string_from 0 r) (none, c ∷ r)
      (λ e s h. let lt = string_from-Leaves 0 r s h in omega arith) (λ e s h. cc)

Leaves-as_c_string : {n : ℕ} (x : Scan Bytes) → Leaves n x → Leaves n (as_c_string x)
Leaves-as_c_string (none, p) h = λ s e. cc
Leaves-as_c_string (some s, p) h = λ t e. h s refl

pub json_string-Leaves : (p : Bytes) → Leaves (length p) (json_string p)
unfolding json_string
json_string-Leaves p =
    Leaves-as_c_string (string_at (json_ws p))
      λ s e. let lt = string_at-Leaves (json_ws p) s e in let le = length-json_ws p in omega arith

-- The value was skipped with fewer than `n` bytes left, or it was refused.
pub data Done (n : ℕ) : Skip → Type 0 where
  behind : (r : Bytes) → length r < n → Done n (skipped r)
  no_value : Done n refused

Done-le : {n m : ℕ} {s : Skip} → n ≤ m → Done n s → Done m s
Done-le le (behind r lt) = behind r (omega arith)
Done-le le no_value = no_value

Done-and_skip :
    {n m : ℕ} {s : Skip} (next : Bytes → Skip)
    → Done n s
    → ((r : Bytes) → length r < n → Done m (next r))
    → Done m (and_skip s next)
Done-and_skip next (behind r lt) h = h r lt
Done-and_skip next no_value h = no_value

Done-skip_string : (n : ℕ) (x : Scan Bytes) → Leaves n x → Done n (skip_string x)
Done-skip_string n (none, r) h = no_value
Done-skip_string n (some s, r) h = behind r (h s refl)

Done-colon_then :
    (n : ℕ) (p : Bytes) (next : Bytes → Skip)
    → ((r : Bytes) → length r < length p → Done n (next r))
    → Done n (colon_then p next)
Done-colon_then n [] next h = no_value
Done-colon_then n (c ∷ r) next h =
    elim (c == b':') as (λ b. Done n (elim b [ true ↦ next r | false ↦ refused ])) [
      | true ↦ h r (omega arith)
      | false ↦ no_value
    ]

Done-key_then :
    (n m : ℕ) (x : Scan Bytes) (next : Bytes → Skip)
    → Leaves n x
    → ((r : Bytes) → length r < n → Done m (next r))
    → Done m (key_then x next)
Done-key_then n m (none, r) next h g = no_value
Done-key_then n m (some s, r) next h g =
    Done-colon_then m (json_ws r) next
      (λ q lt. let a = h s refl in let b = length-json_ws r in g q (omega arith))

-- A separator is a byte.
separator-pos :
    (close : ℕ) (p : Bytes) → (separator_of close p ≡ neither) ⊎ (length (next_byte p) < length p)
separator-pos close [] = inl refl
separator-pos close (c ∷ r) = inr (omega arith)

start-pos : (p : Bytes) → (start_of p ≡ other) ⊎ (length (next_byte p) < length p)
start-pos [] = inl refl
start-pos (c ∷ r) = inr (omega arith)

Done-lit :
    (n : ℕ) (o : Option Bytes) (rest : Skip)
    → ((r : Bytes) → o ≡ some r → length r < n)
    → Done n rest
    → Done n (elim o [ some r ↦ skipped r | none ↦ rest ])
Done-lit n (some r) rest h g = behind r (h r refl)
Done-lit n none rest h g = g

-- The continuation behind an element: the closing byte, or a comma and the next one.
Done-separator :
    (n close : ℕ) (p : Bytes) (next : Skip)
    → length p < n
    → (length (next_byte p) < length p → Done n next)
    → Done n (elim (separator_of close p) [
      | closed ↦ skipped (next_byte p)
      | comma ↦ next
      | neither ↦ refused
    ])
Done-separator n close p next lt h = elim (separator-pos close p) [
  | inl none_there ↦ rw none_there no_value
  | inr less ↦
      elim (separator_of close p)
        as (λ s.
          Done n (elim s [ closed ↦ skipped (next_byte p) | comma ↦ next | neither ↦ refused ])) [
            | closed ↦ behind (next_byte p) (omega arith)
            | comma ↦ h less
            | neither ↦ no_value
          ]
]

-- Behind an opening bracket.
Done-open :
    (n close : ℕ) (depth : ℕ) (p : Bytes) (next : Skip)
    → length p < n
    → Done n next
    → Done n (elim (leb 256 depth) [
      | true ↦ refused
      | false ↦ elim (separator_of close p) [
        | closed ↦ skipped (next_byte p)
        | comma ↦ next
        | neither ↦ next
      ]
    ])
Done-open n close depth p next lt h =
    let le = length-next_byte p in
    elim (leb 256 depth)
      as (λ b. Done n (elim b [
        | true ↦ refused
        | false ↦ elim (separator_of close p) [
          | closed ↦ skipped (next_byte p)
          | comma ↦ next
          | neither ↦ next
        ]
      ])) [
        | true ↦ no_value
        | false ↦
            elim (separator_of close p)
              as (λ s.
                Done n
                  (elim s [ closed ↦ skipped (next_byte p) | comma ↦ next | neither ↦ next ])) [
                    | closed ↦ behind (next_byte p) (omega arith)
                    | comma ↦ h
                    | neither ↦ h
                  ]
      ]

-- The rounds that a call needs for a text of `n` bytes.
abbrev rounds : Mode → ℕ → ℕ
rounds a_value n = 1 + (n + n)
rounds the_elements n = 2 + (n + n)
rounds the_members n = 1 + (n + n)

module _ (d : Doubles) where
  skip_plain-Done : (q : Bytes) → Done (length q) (skip_plain d q)
  unfolding skip_plain json_number
  skip_plain-Done q =
      Done-lit (length q) (json_lit true_text q) _
        (λ r e. let h = length-json_lit true_text q r e in omega arith)
        (Done-lit (length q) (json_lit false_text q) _
          (λ r e. let h = length-json_lit false_text q r e in omega arith)
          (Done-lit (length q) (json_lit null_text q) _
            (λ r e. let h = length-json_lit null_text q r e in omega arith)
            (number (d.strtod (json_ws q)) refl)))
    where
      number :
          (o : Option (d.Double × Bytes))
          → d.strtod (json_ws q) ≡ o
          → Done (length q) (elim o [ none ↦ refused | some (v, r) ↦ skipped r ])
      number none e = no_value
      number (some (v, r)) e =
          let lt = d.strtod-shorter (json_ws q) v r e in
          let le = length-json_ws q in behind r (omega arith)

  skip-Done :
      (fuel : ℕ) (mode : Mode) (depth : ℕ) (p : Bytes)
      → rounds mode (length p) ≤ fuel
      → Done (length p) (skip d fuel mode depth p)
  unfolding skip
  skip-Done zero a_value depth p h = absurd (omega arith)
  skip-Done zero the_elements depth p h = absurd (omega arith)
  skip-Done zero the_members depth p h = absurd (omega arith)
  skip-Done (suc fuel) a_value depth p h =
      let ws = length-json_ws p in
      let q : Bytes = json_ws p in
      let inner : Bytes = json_ws (next_byte (json_ws p)) in
      let ws' = length-json_ws (next_byte (json_ws p)) in
      (elim (start_of (json_ws p))
          as (λ s.
            ((s ≡ other) ⊎ (length (next_byte (json_ws p)) < length (json_ws p)))
            → Done (length p) (elim s [
              | quote ↦ skip_string (json_string (json_ws p))
              | brace ↦ elim (leb 256 depth) [
                | true ↦ refused
                | false ↦ elim (separator_of b'}' (json_ws (next_byte (json_ws p)))) [
                  | closed ↦ skipped (next_byte (json_ws (next_byte (json_ws p))))
                  | comma ↦ skip d fuel the_members depth (json_ws (next_byte (json_ws p)))
                  | neither ↦ skip d fuel the_members depth (json_ws (next_byte (json_ws p)))
                ]
              ]
              | bracket ↦ elim (leb 256 depth) [
                | true ↦ refused
                | false ↦ elim (separator_of b']' (json_ws (next_byte (json_ws p)))) [
                  | closed ↦ skipped (next_byte (json_ws (next_byte (json_ws p))))
                  | comma ↦ skip d fuel the_elements depth (json_ws (next_byte (json_ws p)))
                  | neither ↦ skip d fuel the_elements depth (json_ws (next_byte (json_ws p)))
                ]
              ]
              | other ↦ skip_plain d (json_ws p)
            ])) [
              | quote ↦ λ f.
                  Done-le ws
                    (Done-skip_string (length (json_ws p)) _ (json_string-Leaves (json_ws p)))
              | brace ↦ λ f. elim f [
                | inl bad ↦ cc
                | inr less ↦
                    Done-open (length p) b'}' depth (json_ws (next_byte (json_ws p))) _
                      (omega arith)
                      (Done-le (omega arith) (
                        skip-Done fuel the_members depth (json_ws (next_byte (json_ws p)))
                          (omega arith)))
              ]
              | bracket ↦ λ f. elim f [
                | inl bad ↦ cc
                | inr less ↦
                    Done-open (length p) b']' depth (json_ws (next_byte (json_ws p))) _
                      (omega arith)
                      (Done-le (omega arith) (
                        skip-Done fuel the_elements depth (json_ws (next_byte (json_ws p)))
                          (omega arith)))
              ]
              | other ↦ λ f. Done-le ws (skip_plain-Done (json_ws p))
            ])
        (start-pos (json_ws p))
  skip-Done (suc fuel) the_elements depth p h =
      Done-and_skip _ (skip-Done fuel a_value (depth + 1) p (omega arith)) λ r lt.
        let ws = length-json_ws r in
        Done-separator (length p) b']' (json_ws r) _ (omega arith) λ less.
          Done-le (omega arith)
            (skip-Done fuel the_elements depth (next_byte (json_ws r)) (omega arith))
  skip-Done (suc fuel) the_members depth p h =
      Done-key_then (length p) (length p) (json_string p) _ (json_string-Leaves p) λ q near.
        Done-and_skip _ (skip-Done fuel a_value (depth + 1) q (omega arith)) λ r lt.
          let ws = length-json_ws r in
          Done-separator (length p) b'}' (json_ws r) _ (omega arith) λ less.
            Done-le (omega arith)
              (skip-Done fuel the_members depth (next_byte (json_ws r)) (omega arith))

  -- On every text `json_skip_value` ends: it refuses, or returns true with fewer bytes left. The
  -- nesting does not run away either, since each level takes a bracket.
  pub json_skip_value-Done : (p : Bytes) → Done (length p) (json_skip_value d p)
  unfolding json_skip_value
  json_skip_value-Done p = skip-Done (suc (suc (length p + length p))) a_value 0 p (omega arith)
