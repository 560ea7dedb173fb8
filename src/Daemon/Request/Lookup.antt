-- ===== src/Daemon/Request/Lookup.antt =====
-- `params_get_string` on the objects of strings that a client writes.
use qw.Base.{
  ℕ, zero, suc, ◌<◌, true, false, List, [], ◌∷◌, ◌++◌, Option, none, some, length, length-append,
  All, ◌≡◌, refl, ap, ◌∙◌, sym, arith, Bool-cases, inl, inr, if◌then◌else◌,
}
use qw.Tokenizer.Table.{Bytes, same_bytes}
use qw.Daemon.Json.{json_ws, json_string}
use qw.Daemon.Json.Escape.{IsChar, json_escape_to_buf, json_string-json_escape_to_buf}
use qw.Daemon.Json.Skip.{Doubles, skipped, skip, skip_string, json_skip_value}
use qw.Daemon.Members.{Walk, onward, returned, keyed, and_member, members, and_skipped}
use qw.Daemon.Members.Ends.{not_below}
use qw.Daemon.Request.{if_match, find_member, params_find, params_get_string, starts_string, at_key}

-- A string, written as JSON, and what follows it.
abbrev pub quoted : Bytes → Bytes → Bytes
quoted s rest = b'"' ∷ json_escape_to_buf s ++ (b'"' ∷ rest)

abbrev pub member_text : Bytes × Bytes → Bytes → Bytes
member_text m rest = quoted m.0 (b':' ∷ quoted m.1 rest)

-- The members behind a first one, and the closing brace.
unfoldable pub more_members : List (Bytes × Bytes) → Bytes
more_members [] = b'}' ∷ []
more_members (m ∷ ms) = b',' ∷ member_text m (more_members ms)

abbrev pub members_text : List (Bytes × Bytes) → Bytes
members_text [] = b'}' ∷ []
members_text (m ∷ ms) = member_text m (more_members ms)

-- The object with these members.
unfoldable pub object_text : List (Bytes × Bytes) → Bytes
unfolding more_members
object_text ms = b'{' ∷ members_text ms

-- The value of the first member with the key.
unfoldable pub first_value : Bytes → List (Bytes × Bytes) → Option Bytes
first_value key [] = none
first_value key (m ∷ ms) =
    let rest = first_value key ms in if same_bytes m.0 key then some m.1 else rest

-- Both texts of a member are bytes without a NUL.
abbrev pub IsText : Bytes × Bytes → Type 0
IsText m = All IsChar m.0 × All IsChar m.1

abbrev string_value : Bytes → Option Bytes
string_value q = if starts_string q then (json_string q).0 else none

abbrev got : Walk (Option Bytes) → Option Bytes
got w = at_key w none string_value none

-- Skipping a string that was written as JSON.
pub json_skip_value-quoted :
    (d : Doubles) (s rest : Bytes) → All IsChar s → json_skip_value d (quoted s rest) ≡ skipped rest
unfolding json_skip_value skip json_ws
json_skip_value-quoted d s rest h = ap skip_string (json_string-json_escape_to_buf s rest h)

keyed-quoted :
    {S : Type 0} (key rest : Bytes) (act : Bytes → Bytes → Walk S)
    → All IsChar key
    → keyed (json_string (json_ws (quoted key (b':' ∷ rest)))) act ≡ act key rest
unfolding json_ws
keyed-quoted {S} key rest act h =
    ap (λ x. keyed {S = S} x act) (json_string-json_escape_to_buf key (b':' ∷ rest) h)

module _ (d : Doubles) (key : Bytes) where
  find_member-first :
      (k p : Bytes) → same_bytes k key ≡ true → find_member d key none k p ≡ returned (some p) p
  find_member-first k p e = ap (λ b. if_match d b none p) e

  find_member-other :
      (k v rest : Bytes)
      → All IsChar v
      → same_bytes k key ≡ false
      → find_member d key none k (quoted v rest) ≡ onward none rest
  find_member-other k v rest h e =
      ap (λ b. if_match d b none (quoted v rest)) e
      ∙ ap (λ x. and_skipped x (λ r. onward none r)) (json_skip_value-quoted d v rest h)

  got-behind :
      (fuel : ℕ) (ms : List (Bytes × Bytes)) {o : Option Bytes}
      → got (members (find_member d key) fuel none (members_text ms)) ≡ o
      → first_value key ms ≡ o
      → got
          (and_member (onward none (more_members ms)) (λ t r. members (find_member d key) fuel t r))
        ≡ o
  unfolding json_ws more_members first_value
  got-behind fuel [] h e = e
  got-behind fuel (m ∷ ms) h e = h

  got-members :
      (fuel : ℕ) (ms : List (Bytes × Bytes))
      → All IsText ms
      → length ms < fuel
      → got (members (find_member d key) fuel none (members_text ms)) ≡ first_value key ms
  unfolding members first_value json_ws more_members
  got-members zero ms h lt = elim (not_below (length ms) lt) [ ]
  got-members (suc fuel) [] h lt = refl
  got-members (suc fuel) (m ∷ ms) h lt =
      let value = quoted m.1 (more_members ms) in
      let next : Option Bytes → Bytes → Walk (Option Bytes) =
        λ t r. members (find_member d key) fuel t r in
      let step = keyed-quoted m.0 value (find_member d key none) h.0.0 in
      elim (Bool-cases (same_bytes m.0 key)) [
        | inl e ↦
            ap (λ w. got (and_member w next)) (step ∙ find_member-first m.0 value e)
            ∙ ap (λ x. x.0) (json_string-json_escape_to_buf m.1 (more_members ms) h.0.1)
            ∙ sym (ap (λ b. if b then some m.1 else first_value key ms) e)
        | inr e ↦
            ap (λ w. got (and_member w next))
              (step ∙ find_member-other m.0 m.1 (more_members ms) h.0.1 e)
            ∙ got-behind fuel ms (got-members fuel ms h.1 (omega arith)) refl
            ∙ sym (ap (λ b. if b then some m.1 else first_value key ms) e)
      ]

length-quoted : (s rest : Bytes) → length rest < length (quoted s rest)
length-quoted s rest = omega (arith, length-append (json_escape_to_buf s) (b'"' ∷ rest))

length-more_members : (ms : List (Bytes × Bytes)) → length ms < length (more_members ms)
unfolding more_members
length-more_members [] = omega arith
length-more_members (m ∷ ms) =
    let ih = length-more_members ms in
    let a = length-quoted m.0 (b':' ∷ quoted m.1 (more_members ms)) in
    let b = length-quoted m.1 (more_members ms) in omega arith

length-members_text : (ms : List (Bytes × Bytes)) → length ms < suc (length (members_text ms))
length-members_text [] = omega arith
length-members_text (m ∷ ms) =
    let ih = length-more_members ms in
    let a = length-quoted m.0 (b':' ∷ quoted m.1 (more_members ms)) in
    let b = length-quoted m.1 (more_members ms) in omega arith

-- In an object of members whose keys and values are strings without a NUL, escaped by `json_escape_to_buf` and written
-- without white space, `params_get_string` finds the value of the first member with the key, and
-- nothing where no member has it.
pub params_get_string-object_text :
    (d : Doubles) (ms : List (Bytes × Bytes)) (key : Bytes)
    → All IsText ms
    → params_get_string d (object_text ms) key ≡ first_value key ms
unfolding params_get_string params_find object_text json_ws
params_get_string-object_text d ms key h =
    got-members d key (suc (length (members_text ms))) ms h (length-members_text ms)
