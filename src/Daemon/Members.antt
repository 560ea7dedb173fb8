-- ===== src/Daemon/Members.antt =====
-- The loop over the members of an object that tools/qwen3-engine-daemon.c writes out in `parse_request`,
-- in each `params_get_*` and in `parse_message_array`.
pub mod Ends
use qw.Base.{ℕ, zero, suc, ◌==◌, length, Bool, true, false, List, [], ◌∷◌, Option, none, some}
use qw.Tokenizer.Table.{Bytes}
use qw.Daemon.Json.{Scan, json_ws, json_string}
use qw.Daemon.Json.Skip.{
  Separator, closed, comma, neither, separator_of, next_byte, Skip, skipped, refused, spun,
}

-- What a walk comes to: on with a state and a pointer, a return with them, `return false`, or no end
-- within the fuel.
pub data Walk (S : Type 0) : Type 0 where
  onward : S → Bytes → Walk S
  returned : S → Bytes → Walk S
  failed : Walk S
  unended : Walk S

-- `if (*p != ':') return false; p++`.
abbrev pub colon : {S : Type 0} → Bytes → (Bytes → Walk S) → Walk S
colon [] next = failed
colon (c ∷ r) next = elim (c == b':') [ true ↦ next r | false ↦ failed ]

-- A key and its colon, and what is done with the value.
abbrev pub keyed : {S : Type 0} → Scan Bytes → (Bytes → Bytes → Walk S) → Walk S
keyed (none, r) act = failed
keyed (some key, r) act = colon (json_ws r) (act key)

-- Behind a member: `}` ends the loop, a comma goes on.
abbrev pub behind_member : {S : Type 0} → Separator → S → Bytes → (Bytes → Walk S) → Walk S
behind_member closed s r next = onward s r
behind_member comma s r next = next r
behind_member neither s r next = failed

abbrev pub and_member : {S : Type 0} → Walk S → (S → Bytes → Walk S) → Walk S
and_member (onward s r) next =
    behind_member (separator_of b'}' (json_ws r)) s (next_byte (json_ws r)) (next s)
and_member (returned s r) next = returned s r
and_member failed next = failed
and_member unended next = unended

-- Before a member: `if (*p == '}') { p++; break; }`.
abbrev pub unless_closed : {S : Type 0} → Separator → Walk S → Walk S → Walk S
unless_closed closed stop member = stop
unless_closed comma stop member = member
unless_closed neither stop member = member

-- The loop, where `act` is what is done with a key and the text behind its colon.
unfoldable pub members : {S : Type 0} → (S → Bytes → Bytes → Walk S) → ℕ → S → Bytes → Walk S
members act zero s p = unended
members act (suc fuel) s p =
    unless_closed (separator_of b'}' (json_ws p)) (onward s (next_byte (json_ws p)))
      (and_member (keyed (json_string (json_ws p)) (act s)) (λ t r. members act fuel t r))

-- `json_skip_value` in a walk: the state goes on behind the value.
abbrev pub and_skipped : {S : Type 0} → Skip → (Bytes → Walk S) → Walk S
and_skipped (skipped r) next = next r
and_skipped refused next = failed
and_skipped spun next = unended

-- An object with an opening brace, each member taking a byte at least.
abbrev pub opened : {S : Type 0} → (S → Bytes → Bytes → Walk S) → S → Bytes → Walk S
opened act s [] = failed
opened act s (c ∷ r) = elim (c == b'{') [ true ↦ members act (suc (length r)) s r | false ↦ failed ]
