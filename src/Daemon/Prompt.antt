-- ===== src/Daemon/Prompt.antt =====
-- The prompt and the answer of a generation in tools/qwen3-engine-daemon.c.
pub mod Strip
pub mod Calls
use qw.Base.{
  ℕ, zero, suc, ◌+◌, ◌-◌, Bool, true, false, ◌&&◌, ◌||◌, not, List, [], ◌∷◌, ◌++◌, Option, none,
  some, ◌==◌, ◌%◌, if◌then◌else◌, length, take, drop, slice, ◌>>=◌,
}
use mathlib.Core.List.{reverse}
use qw.Tokenizer.Table.{Bytes, same_bytes}
use qw.Tokenizer.Encode.{strstr_from}
use qw.Daemon.Json.{isspace}
use qw.Daemon.Request.{Msg}
use qw.Daemon.Sessions.{Session, or_empty}
use qw.Daemon.Texts.{
  user_role, assistant_role, tool_result_role, system_role, user_start, assistant_start, tool_start,
  system_start, im_end, calls_start, calls_end, no_think, think_tag, think_end_tag, call_tag,
  call_end_tag,
}

-- The roles that have a template, compared in this order.
pub data Role : Type 0 where
  user assistant tool_result system unwritten : Role

abbrev pub role_of : Bytes → Role
role_of r =
    if same_bytes r user_role
    then user
    else if same_bytes r assistant_role
    then assistant
    else if same_bytes r tool_result_role
    then tool_result
    else if same_bytes r system_role
    then system
    else unwritten

-- The tool calls, unless the string is NULL or empty.
abbrev pub calls_block : Option Bytes → Bytes
calls_block none = []
calls_block (some []) = []
calls_block (some (c ∷ s)) = calls_start ++ ((c ∷ s) ++ calls_end)

-- `[%s] %s: %s`, where both the id and the name are there.
abbrev pub tool_text : Option Bytes → Option Bytes → Bytes → Bytes
tool_text (some call_id) (some name) content =
    (b'[' ∷ []) ++ (call_id ++ ((b']' ∷ b' ' ∷ []) ++ (name ++ ((b':' ∷ b' ' ∷ []) ++ content))))
tool_text (some call_id) none content = content
tool_text none name content = content

abbrev pub role_text : Role → Msg → Bytes
role_text user m = user_start ++ (or_empty m.content ++ im_end)
role_text assistant m =
    assistant_start ++ (or_empty m.content ++ (calls_block m.tool_calls ++ im_end))
role_text tool_result m =
    tool_start ++ (tool_text m.tool_call_id m.tool_name (or_empty m.content) ++ im_end)
role_text system m = system_start ++ (or_empty m.content ++ im_end)
role_text unwritten m = []

-- What is appended; a role is never NULL.
unfoldable pub append_chat_message : Msg → Bytes
append_chat_message m = role_text (role_of (or_empty m.role)) m

unfoldable pub history_text : List Msg → Bytes
history_text [] = []
history_text (m ∷ ms) = append_chat_message m ++ history_text ms

-- The notes of the turn, unless NULL or empty.
abbrev pub context_text : Option Bytes → Bytes
context_text none = []
context_text (some []) = []
context_text (some (c ∷ s)) = b'\n' ∷ b'\n' ∷ c ∷ s

abbrev pub user_turn : Bytes → Bytes
user_turn [] = []
user_turn (c ∷ s) = user_start ++ ((c ∷ s) ++ im_end)

unfoldable pub build_chat_prompt : {F : Type 0} → Session F → Bytes → Option Bytes → Bytes
unfolding history_text
build_chat_prompt s user_prompt context =
    system_start
    ++ (s.system_prompt
        ++ (context_text context
            ++ (im_end
                ++ (history_text s.messages
                    ++ (user_turn user_prompt ++ (assistant_start ++ no_think))))))

-- `while (test(*answer)) answer++`.
unfoldable pub skip_while : (ℕ → Bool) → Bytes → Bytes
skip_while test [] = []
skip_while test (c ∷ s) = let rest = skip_while test s in if test c then rest else c ∷ s

abbrev pub is_break : ℕ → Bool
is_break c = c == b'\r' || c == b'\n'

abbrev pub is_blank : ℕ → Bool
is_blank c = c == b' ' || c == b'\t'

-- Behind the closing tag; without one behind the opening tag; without either the text.
abbrev pub answer_at : Bytes → Option ℕ → Option ℕ → Bytes
answer_at text (some e) s = drop (e + length think_end_tag) text
answer_at text none (some s) = drop (s + length think_tag) text
answer_at text none none = text

unfoldable pub strip_think_blocks : Bytes → Bytes
unfolding skip_while
strip_think_blocks text = skip_while is_blank (
    skip_while is_break
      (answer_at text (strstr_from text 0 think_end_tag) (strstr_from text 0 think_tag)))

-- The check that the braces and brackets of a body balance: the depth, whether a string is open, and the
-- length of a run of backslashes.
pub record Balance : Type 0 where
  pub depth : ℕ
  pub in_string : Bool
  pub backslash_run : ℕ

abbrev pub opens : ℕ → Bool
opens c = c == b'{' || c == b'['

abbrev pub closes : ℕ → Bool
closes c = c == b'}' || c == b']'

-- `depth--`; `none` below 0.
abbrev pub less_deep : Balance → ℕ → Option Balance
less_deep b zero = none
less_deep b (suc depth) = some (record b { depth = depth; backslash_run = 0 })

abbrev pub balance_step : Balance → ℕ → Option Balance
balance_step b c =
    if c == b'\\'
    then some (record b { backslash_run = b.backslash_run + 1 })
    else if c == b'"' && b.backslash_run % 2 == 0
    then some (record b { in_string = not b.in_string; backslash_run = 0 })
    else if not b.in_string && opens c
    then some (record b { depth = b.depth + 1; backslash_run = 0 })
    else if not b.in_string && closes c
    then less_deep b b.depth
    else some (record b { backslash_run = 0 })

unfoldable pub balanced_from : Balance → Bytes → Bool
balanced_from b [] = b.depth == 0
balanced_from b (c ∷ s) = elim (balance_step b c) [
  | none ↦ false
  | some next ↦ balanced_from next s
]

abbrev pub start_balance : Balance
start_balance = record { depth = 0; in_string = false; backslash_run = 0 }

-- A body with its white space trimmed, at both ends.
abbrev pub trimmed : Bytes → Bytes
trimmed body = reverse (skip_while isspace (reverse (skip_while isspace body)))

-- Whether the body looks like JSON.
abbrev pub looks_like_json : Bytes → Bool
looks_like_json [] = false
looks_like_json (c ∷ s) =
    if c == b'{' || c == b'[' then balanced_from start_balance (c ∷ s) else false

-- What is appended for a body: the inside of an array, or the object.
abbrev pub item_text : Bytes → Bytes
item_text [] = []
item_text (c ∷ s) = if c == b'[' then take (length (c ∷ s) - 2) s else c ∷ s

-- The list of the items before, none where `first` holds.
abbrev pub with_item : Option Bytes → Bytes → Option Bytes
with_item none item = some item
with_item (some out) item = some (out ++ (b',' ∷ item))

-- A block is closed, or the scan ends.
abbrev pub to_end : Bytes → (ℕ → Option (List Bytes)) → ℕ → Option ℕ → Option (List Bytes)
to_end text more start none = some []
to_end text more start (some end) = do
  rest ← more (end + length call_end_tag)
  some (trimmed (slice text (start + length call_tag) end) ∷ rest)

abbrev pub from_start : Bytes → (ℕ → Option (List Bytes)) → Option ℕ → Option (List Bytes)
from_start text more none = some []
from_start text more (some start) = to_end text more start (strstr_from text start call_end_tag)

-- The bodies of the blocks from `p` on; the fuel is the length of what is left.
unfoldable pub bodies_from : ℕ → Bytes → ℕ → Option (List Bytes)
bodies_from zero text p = none
bodies_from (suc fuel) text p =
    from_start text (λ q. bodies_from fuel text q) (strstr_from text p call_tag)

unfoldable pub items_of : Option Bytes → List Bytes → Option Bytes
items_of out [] = out
items_of out (b ∷ bs) = items_of (if looks_like_json b then with_item out (item_text b) else out) bs

abbrev pub in_brackets : Option Bytes → Option Bytes
in_brackets none = none
in_brackets (some out) = some ((b'[' ∷ []) ++ (out ++ (b']' ∷ [])))

-- `some none` is NULL; `none` would be no end.
unfoldable pub extract_tool_calls_json : Bytes → Option (Option Bytes)
unfolding bodies_from items_of
extract_tool_calls_json text = do
  bodies ← bodies_from (suc (length text)) text 0
  some (in_brackets (items_of none bodies))
