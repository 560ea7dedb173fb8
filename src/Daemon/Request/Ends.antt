-- ===== src/Daemon/Request/Ends.antt =====
-- The walks over requests, parameters and messages end on every text.
use qw.Base.{
  ℕ, zero, suc, ◌≤◌, ◌<◌, ◌==◌, Bool, true, false, List, [], ◌∷◌, ◌++◌, Option, none, some, if_both,
  length, take, Option-cases, inl, inr, ◌≢◌, refl, arith,
}
use qw.Tokenizer.Table.{Bytes, same_bytes}
use qw.Daemon.Json.{Scan, json_ws, json_string}
use qw.Daemon.Json.Skip.{
  Doubles, Separator, closed, comma, neither, separator_of, next_byte, json_number, json_skip_value,
}
use qw.Daemon.Json.Skip.Ends.{
  Leaves, json_string-Leaves, length-json_ws, length-next_byte, json_skip_value-Done,
}
use qw.Daemon.Members.{Walk, onward, and_skipped}
use qw.Daemon.Members.Ends.{
  Halts, goes, leaves, fails, Acts, Halts-le, opened-Halts, Halts-and_skipped, not_below,
}
use qw.Daemon.Request.{
  Request, Msg, string_into, starts_string, text_to, no_msg, no_request, parsed, number_id,
  request_member, request_field, id_member, RequestKey, the_method, the_id, the_params, unknown,
  request_key, MessageKey, the_role, the_content, the_tool_calls, the_tool_call_id, the_tool_name,
  unread, message_key, message_field, with_method, parse_request, if_match, find_member,
  params_find, message_member, behind_message, and_message, read_messages, unless_empty, array_of,
  messages_from, parse_message_array,
}

Halts-string_into :
    {S : Type 0} (p : Bytes) (put : Bytes → S)
    → Halts (suc (length p)) (string_into (json_string p) put)
Halts-string_into p put = by_scan (json_string p) (json_string-Leaves p)
  where
    by_scan : (x : Scan Bytes) → Leaves (length p) x → Halts (suc (length p)) (string_into x put)
    by_scan (none, r) h = fails
    by_scan (some s, r) h = let lt = h s refl in goes (put s) r (omega arith)

module _ (d : Doubles) where
  Halts-skip :
      {S : Type 0} (p : Bytes) (put : Bytes → S)
      → Halts (suc (length p)) (and_skipped (json_skip_value d p) (λ r. onward (put r) r))
  Halts-skip p put =
      Halts-and_skipped (λ r. onward (put r) r) (json_skip_value-Done d p)
        (λ r lt. goes (put r) r (omega arith))

  Halts-number_id :
      (q : Request) (p : Bytes) → Halts (suc (length p)) (number_id d q (json_number d p))
  unfolding json_number
  Halts-number_id q p = elim (Option-cases (d.strtod (json_ws p))) [
    | inl e ↦ rw e fails
    | inr ((v, r), e) ↦
        let a = d.strtod-shorter (json_ws p) v r e in
        let b = length-json_ws p in
        rw e (goes (record q { id = some (take 31 (d.printed v)) }) r (omega arith))
  ]

  Halts-id_member :
      (b : Bool) (q : Request) (p : Bytes) → Halts (suc (length p)) (id_member d b q p)
  Halts-id_member true q p = Halts-string_into p (λ s. record q { id = some s })
  Halts-id_member false q p = Halts-number_id q p

  Halts-request_field :
      (k : RequestKey) (q : Request) (p : Bytes) → Halts (suc (length p)) (request_field d k q p)
  Halts-request_field the_method q p = Halts-string_into p (λ s. record q { method = some s })
  Halts-request_field the_id q p = Halts-id_member (starts_string p) q p
  Halts-request_field the_params q p = Halts-skip p (λ r. record q { params = some (text_to p r) })
  Halts-request_field unknown q p = Halts-skip p (λ r. q)

  request_member-Acts : Acts (request_member d)
  request_member-Acts q key p = Halts-request_field (request_key key) q p

  Halts-if_match :
      (b : Bool) (seen : Option Bytes) (p : Bytes) → Halts (suc (length p)) (if_match d b seen p)
  Halts-if_match true seen p = leaves (some p) p
  Halts-if_match false seen p = Halts-skip p (λ r. seen)

  find_member-Acts : (key : Bytes) → Acts (find_member d key)
  find_member-Acts key seen k p = Halts-if_match (same_bytes k key) seen p

  Halts-message_field :
      (k : MessageKey) (m : Msg) (p : Bytes) → Halts (suc (length p)) (message_field d k m p)
  Halts-message_field the_role m p = Halts-string_into p (λ s. record m { role = some s })
  Halts-message_field the_content m p = Halts-string_into p (λ s. record m { content = some s })
  Halts-message_field the_tool_calls m p =
      Halts-skip p (λ r. record m { tool_calls = some (text_to p r) })
  Halts-message_field the_tool_call_id m p =
      Halts-string_into p (λ s. record m { tool_call_id = some s })
  Halts-message_field the_tool_name m p = Halts-string_into p (λ s. record m { tool_name = some s })
  Halts-message_field unread m p = Halts-skip p (λ r. m)

  message_member-Acts : Acts (message_member d)
  message_member-Acts m key p = Halts-message_field (message_key key) m p

  -- The loop of every `params_get_*` ends.
  pub params_find-Halts :
      (params key : Bytes) → Halts (length (json_ws params)) (params_find d params key)
  unfolding params_find
  params_find-Halts params key =
      opened-Halts (find_member d key) none (json_ws params) (find_member-Acts key)

  Halts-parsed : (n : ℕ) {w : Walk Request} → Halts n w → parsed w ≢ none
  Halts-parsed n (goes q r h) = by_method q.method q
    where
      by_method : (m : Option Bytes) (q : Request) → with_method m q ≢ none
      by_method none q = λ e. cc
      by_method (some m) q = λ e. cc
  Halts-parsed n (leaves q r) = λ e. cc
  Halts-parsed n fails = λ e. cc

  -- On every text `parse_request` ends, with a request or false.
  pub parse_request_total : (json : Bytes) → parse_request d json ≢ none
  unfolding parse_request
  parse_request_total json =
      Halts-parsed (length (json_ws json))
        (opened-Halts (request_member d) no_request (json_ws json) request_member-Acts)

  Halts-behind_message :
      (n : ℕ) (x : Separator) (ms : List Msg) (r : Bytes)
      (next : List Msg → Bytes → Walk (List Msg))
      → length r < n
      → ((ns : List Msg) → Halts n (next ns r))
      → Halts n (behind_message x ms r next)
  Halts-behind_message n closed ms r next lt h = goes ms r lt
  Halts-behind_message n comma ms r next lt h = h ms
  Halts-behind_message n neither ms r next lt h = fails

  Halts-and_message :
      (n m : ℕ) {w : Walk Msg} (ms : List Msg) (next : List Msg → Bytes → Walk (List Msg))
      → Halts n w
      → n ≤ m
      → ((ns : List Msg) (r : Bytes) → length r < n → Halts m (next ns r))
      → Halts m (and_message w ms next)
  Halts-and_message n m ms next (goes s r lt) le h =
      let a = length-json_ws r in
      let b = length-next_byte (json_ws r) in
      Halts-behind_message m (separator_of b']' (json_ws r)) (ms ++ (s ∷ []))
        (next_byte (json_ws r)) next (omega arith)
        (λ ns. h ns (next_byte (json_ws r)) (omega arith))
  Halts-and_message n m ms next (leaves s r) le h = fails
  Halts-and_message n m ms next fails le h = fails

  Halts-messages_from :
      (fuel : ℕ) (ms : List Msg) (p : Bytes)
      → length p < fuel
      → Halts (length p) (messages_from d fuel ms p)
  unfolding messages_from
  Halts-messages_from zero ms p h = elim (not_below (length p) h) [ ]
  Halts-messages_from (suc fuel) ms p h =
      let a = length-json_ws p in
      Halts-and_message (length (json_ws p)) (length p) ms (λ ns r. messages_from d fuel ns r)
        (opened-Halts (message_member d) no_msg (json_ws p) message_member-Acts) (omega arith)
        (λ ns r lt. Halts-le (omega arith) (Halts-messages_from fuel ns r (omega arith)))

  read_messages-Ends : (n : ℕ) {w : Walk (List Msg)} → Halts n w → read_messages w ≢ none
  read_messages-Ends n (goes ms r lt) = λ e. cc
  read_messages-Ends n (leaves ms r) = λ e. cc
  read_messages-Ends n fails = λ e. cc

  array_of-Ends : (p : Bytes) → array_of p (λ q. messages_from d (suc (length q)) [] q) ≢ none
  array_of-Ends [] = λ e. cc
  array_of-Ends (c ∷ p) =
      if_both (λ o. o ≢ none) (c == b'[')
        (read_messages (
          unless_empty (separator_of b']' (json_ws p)) (onward [] (next_byte (json_ws p)))
            (messages_from d (suc (length (json_ws p))) [] (json_ws p))))
        (some none)
        (λ e.
          read_messages-Ends (suc (length (json_ws p))) (by_end (separator_of b']' (json_ws p))))
        (λ e n. cc)
    where
      by_end :
          (x : Separator)
          → Halts (suc (length (json_ws p))) (
              unless_empty x
                (onward [] (next_byte (json_ws p)))
                (messages_from d (suc (length (json_ws p))) [] (json_ws p)))
      by_end closed =
          let b = length-next_byte (json_ws p) in goes [] (next_byte (json_ws p)) (omega arith)
      by_end comma =
          Halts-le (omega arith)
            (Halts-messages_from (suc (length (json_ws p))) [] (json_ws p) (omega arith))
      by_end neither =
          Halts-le (omega arith)
            (Halts-messages_from (suc (length (json_ws p))) [] (json_ws p) (omega arith))

  -- On every text `parse_message_array` ends, with the messages or false.
  pub parse_message_array_total : (json : Bytes) → parse_message_array d json ≢ none
  unfolding parse_message_array
  parse_message_array_total json = array_of-Ends (json_ws json)
