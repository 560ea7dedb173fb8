-- ===== src/Daemon/Request.antt =====
-- The requests of tools/qwen3-engine-daemon.c: `parse_request`, `params_get_*`, `parse_message_array`.
pub mod Ends
pub mod Lookup
use qw.Base.{
  ℕ, zero, suc, ◌-◌, ◌==◌, Bool, true, false, List, [], ◌∷◌, ◌++◌, Option, none, some,
  if◌then◌else◌, length, take,
}
use qw.Tokenizer.Table.{Bytes, same_bytes}
use qw.Daemon.Json.{Scan, json_ws, json_string}
use qw.Daemon.Json.Skip.{
  Doubles, Separator, closed, comma, neither, separator_of, next_byte, Skip, skipped, refused, spun,
  json_number, json_int, json_bool, json_skip_value,
}
use qw.Daemon.Members.{Walk, onward, returned, failed, unended, and_skipped, opened}

-- The keys, as bytes.
abbrev pub method_key : Bytes
method_key = b'm' ∷ b'e' ∷ b't' ∷ b'h' ∷ b'o' ∷ b'd' ∷ []

abbrev pub id_key : Bytes
id_key = b'i' ∷ b'd' ∷ []

abbrev pub params_key : Bytes
params_key = b'p' ∷ b'a' ∷ b'r' ∷ b'a' ∷ b'm' ∷ b's' ∷ []

abbrev pub role_key : Bytes
role_key = b'r' ∷ b'o' ∷ b'l' ∷ b'e' ∷ []

abbrev pub content_key : Bytes
content_key = b'c' ∷ b'o' ∷ b'n' ∷ b't' ∷ b'e' ∷ b'n' ∷ b't' ∷ []

abbrev pub tool_calls_key : Bytes
tool_calls_key = b't' ∷ b'o' ∷ b'o' ∷ b'l' ∷ b'_' ∷ b'c' ∷ b'a' ∷ b'l' ∷ b'l' ∷ b's' ∷ []

abbrev pub tool_call_id_key : Bytes
tool_call_id_key =
    b't' ∷ b'o' ∷ b'o' ∷ b'l' ∷ b'_' ∷ b'c' ∷ b'a' ∷ b'l' ∷ b'l' ∷ b'_' ∷ b'i' ∷ b'd' ∷ []

abbrev pub tool_name_key : Bytes
tool_name_key = b't' ∷ b'o' ∷ b'o' ∷ b'l' ∷ b'_' ∷ b'n' ∷ b'a' ∷ b'm' ∷ b'e' ∷ []

-- `request_t`: `none` is NULL.
pub record Request : Type 0 where
  pub method : Option Bytes
  pub id : Option Bytes
  pub params : Option Bytes

-- `msg_t`.
pub record Msg : Type 0 where
  pub role : Option Bytes
  pub content : Option Bytes
  pub tool_calls : Option Bytes
  pub tool_call_id : Option Bytes
  pub tool_name : Option Bytes

-- The keys that are looked for, by `strcmp` in this order.
pub data RequestKey : Type 0 where
  the_method the_id the_params unknown : RequestKey

abbrev pub request_key : Bytes → RequestKey
request_key key =
    if same_bytes key method_key
    then the_method
    else if same_bytes key id_key
    then the_id
    else if same_bytes key params_key
    then the_params
    else unknown

pub data MessageKey : Type 0 where
  the_role the_content the_tool_calls the_tool_call_id the_tool_name unread : MessageKey

abbrev pub message_key : Bytes → MessageKey
message_key key =
    if same_bytes key role_key
    then the_role
    else if same_bytes key content_key
    then the_content
    else if same_bytes key tool_calls_key
    then the_tool_calls
    else if same_bytes key tool_call_id_key
    then the_tool_call_id
    else if same_bytes key tool_name_key
    then the_tool_name
    else unread

-- `json_string` into a field; the walk fails where it returns false.
abbrev pub string_into : {S : Type 0} → Scan Bytes → (Bytes → S) → Walk S
string_into (none, r) put = failed
string_into (some s, r) put = onward (put s) r

abbrev pub starts_string : Bytes → Bool
starts_string [] = false
starts_string (c ∷ r) = c == b'"'

-- The text from `start` to the pointer `r` behind a value in it.
abbrev pub text_to : Bytes → Bytes → Bytes
text_to start r = take (length start - length r) start

-- What is found behind a key, where the walk stops at it: the pointer.
abbrev pub at_key : {A : Type 0} → Walk (Option Bytes) → A → (Bytes → A) → A → A
at_key (returned (some q) r) missing found spins = found q
at_key (returned none r) missing found spins = missing
at_key (onward s r) missing found spins = missing
at_key failed missing found spins = missing
at_key unended missing found spins = spins

-- The fields as they are before the first member.
abbrev pub no_msg : Msg
no_msg = record {
  role = none;
  content = none;
  tool_calls = none;
  tool_call_id = none;
  tool_name = none;
}

abbrev pub no_request : Request
no_request = record { method = none; id = none; params = none }

-- `return out->method != NULL`.
abbrev pub with_method : Option Bytes → Request → Option (Option Request)
with_method none q = some none
with_method (some m) q = some (some q)

-- The end of `parse_request`: false is `some none`, and there without a method; `none` is no end.
abbrev pub parsed : Walk Request → Option (Option Request)
parsed (onward q r) = with_method q.method q
parsed (returned q r) = some none
parsed failed = some none
parsed unended = none

-- Behind a message: the end of the array, or the next one.
abbrev pub behind_message :
    Separator → List Msg → Bytes → (List Msg → Bytes → Walk (List Msg)) → Walk (List Msg)
behind_message closed ms r next = onward ms r
behind_message comma ms r next = next ms r
behind_message neither ms r next = failed

abbrev pub and_message :
    Walk Msg → List Msg → (List Msg → Bytes → Walk (List Msg)) → Walk (List Msg)
and_message (onward m r) ms next =
    behind_message (separator_of b']' (json_ws r)) (ms ++ (m ∷ [])) (next_byte (json_ws r)) next
and_message (returned m r) ms next = failed
and_message failed ms next = failed
and_message unended ms next = unended

abbrev pub read_messages : Walk (List Msg) → Option (Option (List Msg))
read_messages (onward ms r) = some (some ms)
read_messages (returned ms r) = some none
read_messages failed = some none
read_messages unended = none

-- `if (*p == ']') return true`, before the first message.
abbrev pub unless_empty : Separator → Walk (List Msg) → Walk (List Msg) → Walk (List Msg)
unless_empty closed empty rest = empty
unless_empty comma empty rest = rest
unless_empty neither empty rest = rest

abbrev pub array_of : Bytes → (Bytes → Walk (List Msg)) → Option (Option (List Msg))
array_of [] rest = some none
array_of (c ∷ p) rest =
    if c == b'['
    then read_messages (
        unless_empty (separator_of b']' (json_ws p)) (onward [] (next_byte (json_ws p)))
          (rest (json_ws p)))
    else some none

module _ (d : Doubles) where
  -- A number is written by `snprintf(..., 32, "%.0f", v)`.
  abbrev pub number_id : Request → Option (d.Double × Bytes) → Walk Request
  number_id q none = failed
  number_id q (some (v, r)) = onward (record q { id = some (take 31 (d.printed v)) }) r

  -- A text, or a number.
  abbrev pub id_member : Bool → Request → Bytes → Walk Request
  id_member true q p = string_into (json_string p) (λ s. record q { id = some s })
  id_member false q p = number_id q (json_number d p)

  -- What is done with a member of a request.
  abbrev pub request_field : RequestKey → Request → Bytes → Walk Request
  request_field the_method q p = string_into (json_string p) (λ s. record q { method = some s })
  request_field the_id q p = id_member (starts_string p) q p
  request_field the_params q p =
      and_skipped (json_skip_value d p) (λ r. onward (record q { params = some (text_to p r) }) r)
  request_field unknown q p = and_skipped (json_skip_value d p) (λ r. onward q r)

  abbrev pub request_member : Request → Bytes → Bytes → Walk Request
  request_member q key p = request_field (request_key key) q p

  unfoldable pub parse_request : Bytes → Option (Option Request)
  parse_request json = parsed (opened request_member no_request (json_ws json))

  -- The members before the key are skipped.
  abbrev pub if_match : Bool → Option Bytes → Bytes → Walk (Option Bytes)
  if_match true seen p = returned (some p) p
  if_match false seen p = and_skipped (json_skip_value d p) (λ r. onward seen r)

  abbrev pub find_member : Bytes → Option Bytes → Bytes → Bytes → Walk (Option Bytes)
  find_member key seen k p = if_match (same_bytes k key) seen p

  -- The walk of each `params_get_*`: it stops behind the colon of the first member with the key.
  unfoldable pub params_find : Bytes → Bytes → Walk (Option Bytes)
  params_find params key = opened (find_member key) none (json_ws params)

  -- `none` is false.
  unfoldable pub params_get_string : Bytes → Bytes → Option Bytes
  params_get_string params key =
      at_key (params_find params key) none
        (λ q. if starts_string q then (json_string q).0 else none) none

  unfoldable pub params_get_int : Bytes → Bytes → Option ℕ
  params_get_int params key =
      at_key (params_find params key) none
        (λ q. elim (json_int d q) [ none ↦ none | some x ↦ some x.0 ]) none

  unfoldable pub params_get_double : Bytes → Bytes → Option d.Double
  params_get_double params key =
      at_key (params_find params key) none
        (λ q. elim (json_number d q) [ none ↦ none | some x ↦ some x.0 ]) none

  -- What `*out` is, which the callers read whatever is returned.
  unfoldable pub params_get_bool : Bytes → Bytes → Bool → Bool
  params_get_bool params key default_val =
      at_key (params_find params key) default_val
        (λ q. elim (json_bool d q) [ none ↦ default_val | some x ↦ x.0 ]) default_val

  -- What is done with a member of a message. The code does not look at what `json_string` returns; its
  -- caller has skipped the text, so the byte behind is then neither a comma nor a brace, and it fails there.
  abbrev pub message_field : MessageKey → Msg → Bytes → Walk Msg
  message_field the_role m p = string_into (json_string p) (λ s. record m { role = some s })
  message_field the_content m p = string_into (json_string p) (λ s. record m { content = some s })
  message_field the_tool_calls m p =
      and_skipped (json_skip_value d p)
        (λ r. onward (record m { tool_calls = some (text_to p r) }) r)
  message_field the_tool_call_id m p =
      string_into (json_string p) (λ s. record m { tool_call_id = some s })
  message_field the_tool_name m p =
      string_into (json_string p) (λ s. record m { tool_name = some s })
  message_field unread m p = and_skipped (json_skip_value d p) (λ r. onward m r)

  abbrev pub message_member : Msg → Bytes → Bytes → Walk Msg
  message_member m key p = message_field (message_key key) m p

  -- The messages behind a bracket or a comma, `ms` being those before them.
  unfoldable pub messages_from : ℕ → List Msg → Bytes → Walk (List Msg)
  messages_from zero ms p = unended
  messages_from (suc fuel) ms p =
      and_message (opened message_member no_msg (json_ws p)) ms (λ ns r. messages_from fuel ns r)

  -- `some none` is false; `none` is no end within the fuel.
  unfoldable pub parse_message_array : Bytes → Option (Option (List Msg))
  parse_message_array json = array_of (json_ws json) (λ p. messages_from (suc (length p)) [] p)
