-- ===== src/Daemon/Json/Skip.antt =====
-- The scanners of tools/qwen3-engine-daemon.c for numbers, literals and whole values. `strtod` and what is
-- done with a double are given by an interface; `printed` is `%.0f`.
pub mod Ends
use qw.Base.{
  ℕ, zero, suc, ◌+◌, ◌<◌, Bool, true, false, List, [], ◌∷◌, Option, none, some, leb, ◌==◌,
  if◌then◌else◌, length, ◌≡◌,
}
use qw.Base.Int.{ℤ}
use qw.Tokenizer.Table.{Bytes}
use qw.Daemon.Json.{Scan, json_ws, json_lit, json_string}

-- The doubles. `strtod` answers `none` where it converts nothing; otherwise it returns a pointer behind
-- what it converted, so less of the text is left.
pub record Doubles : Type 1 where
  pub Double : Type 0
  pub strtod : Bytes → Option (Double × Bytes)
  pub strtod-shorter :
      (p : Bytes) (v : Double) (r : Bytes) → strtod p ≡ some (v, r) → length r < length p
  pub is_negative : Double → Bool
  pub exceeds_int_max : Double → Bool
  pub truncated : Double → ℕ
  pub printed : Double → Bytes

-- The literals, as bytes.
abbrev pub true_text : Bytes
true_text = b't' ∷ b'r' ∷ b'u' ∷ b'e' ∷ []

abbrev pub false_text : Bytes
false_text = b'f' ∷ b'a' ∷ b'l' ∷ b's' ∷ b'e' ∷ []

abbrev pub null_text : Bytes
null_text = b'n' ∷ b'u' ∷ b'l' ∷ b'l' ∷ []

-- The first byte of a value, or none of these.
pub data Start : Type 0 where
  quote brace bracket other : Start

abbrev pub start_of : Bytes → Start
start_of [] = other
start_of (c ∷ r) =
    if c == b'"' then quote else if c == b'{' then brace else if c == b'[' then bracket else other

-- The byte behind an element: what closes the value, or a comma.
pub data Separator : Type 0 where
  closed comma neither : Separator

abbrev pub separator_of : ℕ → Bytes → Separator
separator_of close [] = neither
separator_of close (c ∷ r) = if c == close then closed else if c == b',' then comma else neither

-- `p++`.
abbrev pub next_byte : Bytes → Bytes
next_byte [] = []
next_byte (c ∷ r) = r

-- What skipping a value comes to: true with the pointer, false, or no end within the fuel.
pub data Skip : Type 0 where
  skipped : Bytes → Skip
  refused : Skip
  spun : Skip

abbrev pub and_skip : Skip → (Bytes → Skip) → Skip
and_skip (skipped r) next = next r
and_skip refused next = refused
and_skip spun next = spun

abbrev pub skip_string : Scan Bytes → Skip
skip_string (none, r) = refused
skip_string (some s, r) = skipped r

-- `if (**p != ':') return false; (*p)++`, behind the white space.
abbrev pub colon_then : Bytes → (Bytes → Skip) → Skip
colon_then [] next = refused
colon_then (c ∷ r) next = elim (c == b':') [ true ↦ next r | false ↦ refused ]

-- A key, with the colon behind it.
abbrev pub key_then : Scan Bytes → (Bytes → Skip) → Skip
key_then (none, r) next = refused
key_then (some key, r) next = colon_then (json_ws r) next

-- Whether a value, the elements of an array or the members of an object are to be skipped.
pub data Mode : Type 0 where
  a_value the_elements the_members : Mode

module _ (d : Doubles) where
  unfoldable pub json_number : Bytes → Option (d.Double × Bytes)
  unfolding json_ws
  json_number p = d.strtod (json_ws p)

  -- The clamp to 0 and INT_MAX, and the cast.
  unfoldable pub clamped_int : d.Double → ℕ
  clamped_int v =
      if d.is_negative v then 0 else if d.exceeds_int_max v then 2147483647 else d.truncated v

  unfoldable pub json_int : Bytes → Option (ℕ × Bytes)
  unfolding json_number clamped_int
  json_int p = elim (json_number p) [ none ↦ none | some (v, r) ↦ some (clamped_int v, r) ]

  unfoldable pub json_bool : Bytes → Option (Bool × Bytes)
  unfolding json_ws json_lit
  json_bool p = elim (json_lit true_text (json_ws p)) [
    | some r ↦ some (true, r)
    | none ↦ elim (json_lit false_text (json_ws p)) [ some r ↦ some (false, r) | none ↦ none ]
  ]

  -- The end of `json_skip_value_depth`: a literal or a number.
  unfoldable pub skip_plain : Bytes → Skip
  unfolding json_lit json_number
  skip_plain q = elim (json_lit true_text q) [
    | some r ↦ skipped r
    | none ↦ elim (json_lit false_text q) [
      | some r ↦ skipped r
      | none ↦ elim (json_lit null_text q) [
        | some r ↦ skipped r
        | none ↦ elim (json_number q) [ none ↦ refused | some (v, r) ↦ skipped r ]
      ]
    ]
  ]

  -- The three functions, at a depth of nesting. In an array or object the pointer is behind the bracket, or
  -- behind a comma.
  unfoldable pub skip : ℕ → Mode → ℕ → Bytes → Skip
  unfolding skip_plain
  skip zero mode depth p = spun
  skip (suc fuel) a_value depth p = elim (start_of (json_ws p)) [
    | quote ↦ skip_string (json_string (json_ws p))
    | brace ↦ elim (leb 256 depth) [
      | true ↦ refused
      | false ↦ elim (separator_of b'}' (json_ws (next_byte (json_ws p)))) [
        | closed ↦ skipped (next_byte (json_ws (next_byte (json_ws p))))
        | comma ↦ skip fuel the_members depth (json_ws (next_byte (json_ws p)))
        | neither ↦ skip fuel the_members depth (json_ws (next_byte (json_ws p)))
      ]
    ]
    | bracket ↦ elim (leb 256 depth) [
      | true ↦ refused
      | false ↦ elim (separator_of b']' (json_ws (next_byte (json_ws p)))) [
        | closed ↦ skipped (next_byte (json_ws (next_byte (json_ws p))))
        | comma ↦ skip fuel the_elements depth (json_ws (next_byte (json_ws p)))
        | neither ↦ skip fuel the_elements depth (json_ws (next_byte (json_ws p)))
      ]
    ]
    | other ↦ skip_plain (json_ws p)
  ]
  skip (suc fuel) the_elements depth p = and_skip (skip fuel a_value (depth + 1) p) λ r.
      elim (separator_of b']' (json_ws r)) [
        | closed ↦ skipped (next_byte (json_ws r))
        | comma ↦ skip fuel the_elements depth (next_byte (json_ws r))
        | neither ↦ refused
      ]
  skip (suc fuel) the_members depth p = key_then (json_string p) λ q.
      and_skip (skip fuel a_value (depth + 1) q) λ r. elim (separator_of b'}' (json_ws r)) [
        | closed ↦ skipped (next_byte (json_ws r))
        | comma ↦ skip fuel the_members depth (next_byte (json_ws r))
        | neither ↦ refused
      ]

  -- Two rounds for each byte are enough.
  unfoldable pub json_skip_value : Bytes → Skip
  unfolding skip
  json_skip_value p = skip (suc (suc (length p + length p))) a_value 0 p
