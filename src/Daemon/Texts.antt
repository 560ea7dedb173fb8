-- ===== src/Daemon/Texts.antt =====
-- The texts of tools/qwen3-engine-daemon.c, as bytes.
use qw.Base.{[], ◌∷◌}
use qw.Tokenizer.Table.{Bytes}

abbrev pub user_role : Bytes
user_role = b'u' ∷ b's' ∷ b'e' ∷ b'r' ∷ []

abbrev pub assistant_role : Bytes
assistant_role = b'a' ∷ b's' ∷ b's' ∷ b'i' ∷ b's' ∷ b't' ∷ b'a' ∷ b'n' ∷ b't' ∷ []

abbrev pub tool_result_role : Bytes
tool_result_role = b't' ∷ b'o' ∷ b'o' ∷ b'l' ∷ b'_' ∷ b'r' ∷ b'e' ∷ b's' ∷ b'u' ∷ b'l' ∷ b't' ∷ []

abbrev pub system_role : Bytes
system_role = b's' ∷ b'y' ∷ b's' ∷ b't' ∷ b'e' ∷ b'm' ∷ []

abbrev pub user_start : Bytes
user_start =
    b'<' ∷ b'|' ∷ b'i' ∷ b'm' ∷ b'_' ∷ b's' ∷ b't' ∷ b'a' ∷ b'r' ∷ b't' ∷ b'|' ∷ b'>' ∷ b'u' ∷ b's'
    ∷ b'e' ∷ b'r' ∷ b'\n' ∷ []

abbrev pub assistant_start : Bytes
assistant_start =
    b'<' ∷ b'|' ∷ b'i' ∷ b'm' ∷ b'_' ∷ b's' ∷ b't' ∷ b'a' ∷ b'r' ∷ b't' ∷ b'|' ∷ b'>' ∷ b'a' ∷ b's'
    ∷ b's' ∷ b'i' ∷ b's' ∷ b't' ∷ b'a' ∷ b'n' ∷ b't' ∷ b'\n' ∷ []

abbrev pub tool_start : Bytes
tool_start =
    b'<' ∷ b'|' ∷ b'i' ∷ b'm' ∷ b'_' ∷ b's' ∷ b't' ∷ b'a' ∷ b'r' ∷ b't' ∷ b'|' ∷ b'>' ∷ b't' ∷ b'o'
    ∷ b'o' ∷ b'l' ∷ b'\n' ∷ []

abbrev pub system_start : Bytes
system_start =
    b'<' ∷ b'|' ∷ b'i' ∷ b'm' ∷ b'_' ∷ b's' ∷ b't' ∷ b'a' ∷ b'r' ∷ b't' ∷ b'|' ∷ b'>' ∷ b's' ∷ b'y'
    ∷ b's' ∷ b't' ∷ b'e' ∷ b'm' ∷ b'\n' ∷ []

abbrev pub im_end : Bytes
im_end = b'<' ∷ b'|' ∷ b'i' ∷ b'm' ∷ b'_' ∷ b'e' ∷ b'n' ∷ b'd' ∷ b'|' ∷ b'>' ∷ b'\n' ∷ []

abbrev pub calls_start : Bytes
calls_start =
    b'\n' ∷ b'<' ∷ b't' ∷ b'o' ∷ b'o' ∷ b'l' ∷ b'_' ∷ b'c' ∷ b'a' ∷ b'l' ∷ b'l' ∷ b'>' ∷ b'\n' ∷ []

abbrev pub calls_end : Bytes
calls_end =
    b'\n' ∷ b'<' ∷ b'/' ∷ b't' ∷ b'o' ∷ b'o' ∷ b'l' ∷ b'_' ∷ b'c' ∷ b'a' ∷ b'l' ∷ b'l' ∷ b'>'
    ∷ b'\n' ∷ []

abbrev pub no_think : Bytes
no_think =
    b'<' ∷ b't' ∷ b'h' ∷ b'i' ∷ b'n' ∷ b'k' ∷ b'>' ∷ b'\n' ∷ b'\n' ∷ b'<' ∷ b'/' ∷ b't' ∷ b'h'
    ∷ b'i' ∷ b'n' ∷ b'k' ∷ b'>' ∷ b'\n' ∷ b'\n' ∷ []

abbrev pub think_tag : Bytes
think_tag = b'<' ∷ b't' ∷ b'h' ∷ b'i' ∷ b'n' ∷ b'k' ∷ b'>' ∷ []

abbrev pub think_end_tag : Bytes
think_end_tag = b'<' ∷ b'/' ∷ b't' ∷ b'h' ∷ b'i' ∷ b'n' ∷ b'k' ∷ b'>' ∷ []

abbrev pub call_tag : Bytes
call_tag = b'<' ∷ b't' ∷ b'o' ∷ b'o' ∷ b'l' ∷ b'_' ∷ b'c' ∷ b'a' ∷ b'l' ∷ b'l' ∷ b'>' ∷ []

abbrev pub call_end_tag : Bytes
call_end_tag =
    b'<' ∷ b'/' ∷ b't' ∷ b'o' ∷ b'o' ∷ b'l' ∷ b'_' ∷ b'c' ∷ b'a' ∷ b'l' ∷ b'l' ∷ b'>' ∷ []

abbrev pub session_id_key : Bytes
session_id_key = b's' ∷ b'e' ∷ b's' ∷ b's' ∷ b'i' ∷ b'o' ∷ b'n' ∷ b'_' ∷ b'i' ∷ b'd' ∷ []

abbrev pub system_prompt_key : Bytes
system_prompt_key =
    b's' ∷ b'y' ∷ b's' ∷ b't' ∷ b'e' ∷ b'm' ∷ b'_' ∷ b'p' ∷ b'r' ∷ b'o' ∷ b'm' ∷ b'p' ∷ b't' ∷ []

abbrev pub user_prompt_key : Bytes
user_prompt_key = b'u' ∷ b's' ∷ b'e' ∷ b'r' ∷ b'_' ∷ b'p' ∷ b'r' ∷ b'o' ∷ b'm' ∷ b'p' ∷ b't' ∷ []

abbrev pub context_key : Bytes
context_key = b'c' ∷ b'o' ∷ b'n' ∷ b't' ∷ b'e' ∷ b'x' ∷ b't' ∷ []

abbrev pub temperature_key : Bytes
temperature_key = b't' ∷ b'e' ∷ b'm' ∷ b'p' ∷ b'e' ∷ b'r' ∷ b'a' ∷ b't' ∷ b'u' ∷ b'r' ∷ b'e' ∷ []

abbrev pub max_tokens_key : Bytes
max_tokens_key = b'm' ∷ b'a' ∷ b'x' ∷ b'_' ∷ b't' ∷ b'o' ∷ b'k' ∷ b'e' ∷ b'n' ∷ b's' ∷ []

abbrev pub stream_key : Bytes
stream_key = b's' ∷ b't' ∷ b'r' ∷ b'e' ∷ b'a' ∷ b'm' ∷ []

abbrev pub messages_key : Bytes
messages_key = b'm' ∷ b'e' ∷ b's' ∷ b's' ∷ b'a' ∷ b'g' ∷ b'e' ∷ b's' ∷ []

abbrev pub preserve_key : Bytes
preserve_key =
    b'p' ∷ b'r' ∷ b'e' ∷ b's' ∷ b'e' ∷ b'r' ∷ b'v' ∷ b'e' ∷ b'_' ∷ b'k' ∷ b'v' ∷ b'_' ∷ b'c' ∷ b'a'
    ∷ b'c' ∷ b'h' ∷ b'e' ∷ []

abbrev pub model_path_key : Bytes
model_path_key = b'm' ∷ b'o' ∷ b'd' ∷ b'e' ∷ b'l' ∷ b'_' ∷ b'p' ∷ b'a' ∷ b't' ∷ b'h' ∷ []

abbrev pub n_ctx_key : Bytes
n_ctx_key = b'n' ∷ b'_' ∷ b'c' ∷ b't' ∷ b'x' ∷ []

abbrev pub load_model_method : Bytes
load_model_method = b'l' ∷ b'o' ∷ b'a' ∷ b'd' ∷ b'_' ∷ b'm' ∷ b'o' ∷ b'd' ∷ b'e' ∷ b'l' ∷ []

abbrev pub create_session_method : Bytes
create_session_method =
    b'c' ∷ b'r' ∷ b'e' ∷ b'a' ∷ b't' ∷ b'e' ∷ b'_' ∷ b's' ∷ b'e' ∷ b's' ∷ b's' ∷ b'i' ∷ b'o' ∷ b'n'
    ∷ []

abbrev pub generate_method : Bytes
generate_method = b'g' ∷ b'e' ∷ b'n' ∷ b'e' ∷ b'r' ∷ b'a' ∷ b't' ∷ b'e' ∷ []

abbrev pub append_turn_method : Bytes
append_turn_method = b'a' ∷ b'p' ∷ b'p' ∷ b'e' ∷ b'n' ∷ b'd' ∷ b'_' ∷ b't' ∷ b'u' ∷ b'r' ∷ b'n' ∷ []

abbrev pub replace_history_method : Bytes
replace_history_method =
    b'r' ∷ b'e' ∷ b'p' ∷ b'l' ∷ b'a' ∷ b'c' ∷ b'e' ∷ b'_' ∷ b'h' ∷ b'i' ∷ b's' ∷ b't' ∷ b'o' ∷ b'r'
    ∷ b'y' ∷ []

abbrev pub reset_session_method : Bytes
reset_session_method =
    b'r' ∷ b'e' ∷ b's' ∷ b'e' ∷ b't' ∷ b'_' ∷ b's' ∷ b'e' ∷ b's' ∷ b's' ∷ b'i' ∷ b'o' ∷ b'n' ∷ []

abbrev pub close_session_method : Bytes
close_session_method =
    b'c' ∷ b'l' ∷ b'o' ∷ b's' ∷ b'e' ∷ b'_' ∷ b's' ∷ b'e' ∷ b's' ∷ b's' ∷ b'i' ∷ b'o' ∷ b'n' ∷ []

abbrev pub health_method : Bytes
health_method = b'h' ∷ b'e' ∷ b'a' ∷ b'l' ∷ b't' ∷ b'h' ∷ []

abbrev pub stats_method : Bytes
stats_method = b's' ∷ b't' ∷ b'a' ∷ b't' ∷ b's' ∷ []

abbrev pub null_id : Bytes
null_id = b'n' ∷ b'u' ∷ b'l' ∷ b'l' ∷ []

abbrev pub appended_result : Bytes
appended_result =
    b'{' ∷ b'"' ∷ b'a' ∷ b'p' ∷ b'p' ∷ b'e' ∷ b'n' ∷ b'd' ∷ b'e' ∷ b'd' ∷ b'"' ∷ b':' ∷ b't' ∷ b'r'
    ∷ b'u' ∷ b'e' ∷ b'}' ∷ []

abbrev pub replaced_result : Bytes
replaced_result =
    b'{' ∷ b'"' ∷ b'r' ∷ b'e' ∷ b'p' ∷ b'l' ∷ b'a' ∷ b'c' ∷ b'e' ∷ b'd' ∷ b'"' ∷ b':' ∷ b't' ∷ b'r'
    ∷ b'u' ∷ b'e' ∷ b'}' ∷ []

abbrev pub reset_result : Bytes
reset_result =
    b'{' ∷ b'"' ∷ b'r' ∷ b'e' ∷ b's' ∷ b'e' ∷ b't' ∷ b'"' ∷ b':' ∷ b't' ∷ b'r' ∷ b'u' ∷ b'e' ∷ b'}'
    ∷ []

abbrev pub closed_result : Bytes
closed_result =
    b'{' ∷ b'"' ∷ b'c' ∷ b'l' ∷ b'o' ∷ b's' ∷ b'e' ∷ b'd' ∷ b'"' ∷ b':' ∷ b't' ∷ b'r' ∷ b'u' ∷ b'e'
    ∷ b'}' ∷ []

abbrev pub id_head : Bytes
id_head = b'"' ∷ b'i' ∷ b'd' ∷ b'"' ∷ b':' ∷ b'"' ∷ []

abbrev pub id_tail : Bytes
id_tail = b'"' ∷ b',' ∷ []

abbrev pub result_head : Bytes
result_head = b'"' ∷ b'r' ∷ b'e' ∷ b's' ∷ b'u' ∷ b'l' ∷ b't' ∷ b'"' ∷ b':' ∷ []

abbrev pub error_head : Bytes
error_head =
    b'"' ∷ b'e' ∷ b'r' ∷ b'r' ∷ b'o' ∷ b'r' ∷ b'"' ∷ b':' ∷ b'{' ∷ b'"' ∷ b'c' ∷ b'o' ∷ b'd' ∷ b'e'
    ∷ b'"' ∷ b':' ∷ []

abbrev pub message_head : Bytes
message_head =
    b',' ∷ b'"' ∷ b'm' ∷ b'e' ∷ b's' ∷ b's' ∷ b'a' ∷ b'g' ∷ b'e' ∷ b'"' ∷ b':' ∷ b'"' ∷ []

abbrev pub error_tail : Bytes
error_tail = b'"' ∷ b'}' ∷ []

abbrev pub missing_session_id : Bytes
missing_session_id =
    b'm' ∷ b'i' ∷ b's' ∷ b's' ∷ b'i' ∷ b'n' ∷ b'g' ∷ b' ' ∷ b's' ∷ b'e' ∷ b's' ∷ b's' ∷ b'i' ∷ b'o'
    ∷ b'n' ∷ b'_' ∷ b'i' ∷ b'd' ∷ []

abbrev pub session_not_found : Bytes
session_not_found =
    b's' ∷ b'e' ∷ b's' ∷ b's' ∷ b'i' ∷ b'o' ∷ b'n' ∷ b' ' ∷ b'n' ∷ b'o' ∷ b't' ∷ b' ' ∷ b'f' ∷ b'o'
    ∷ b'u' ∷ b'n' ∷ b'd' ∷ []

abbrev pub missing_role : Bytes
missing_role =
    b'm' ∷ b'i' ∷ b's' ∷ b's' ∷ b'i' ∷ b'n' ∷ b'g' ∷ b' ' ∷ b'r' ∷ b'o' ∷ b'l' ∷ b'e' ∷ []

abbrev pub missing_messages : Bytes
missing_messages =
    b'm' ∷ b'i' ∷ b's' ∷ b's' ∷ b'i' ∷ b'n' ∷ b'g' ∷ b' ' ∷ b'm' ∷ b'e' ∷ b's' ∷ b's' ∷ b'a' ∷ b'g'
    ∷ b'e' ∷ b's' ∷ []

abbrev pub invalid_messages : Bytes
invalid_messages =
    b'i' ∷ b'n' ∷ b'v' ∷ b'a' ∷ b'l' ∷ b'i' ∷ b'd' ∷ b' ' ∷ b'm' ∷ b'e' ∷ b's' ∷ b's' ∷ b'a' ∷ b'g'
    ∷ b'e' ∷ b's' ∷ []

abbrev pub missing_model_path : Bytes
missing_model_path =
    b'm' ∷ b'i' ∷ b's' ∷ b's' ∷ b'i' ∷ b'n' ∷ b'g' ∷ b' ' ∷ b'm' ∷ b'o' ∷ b'd' ∷ b'e' ∷ b'l' ∷ b'_'
    ∷ b'p' ∷ b'a' ∷ b't' ∷ b'h' ∷ []

abbrev pub load_failed : Bytes
load_failed =
    b'f' ∷ b'a' ∷ b'i' ∷ b'l' ∷ b'e' ∷ b'd' ∷ b' ' ∷ b't' ∷ b'o' ∷ b' ' ∷ b'l' ∷ b'o' ∷ b'a' ∷ b'd'
    ∷ b' ' ∷ b'm' ∷ b'o' ∷ b'd' ∷ b'e' ∷ b'l' ∷ []

abbrev pub limit_reached : Bytes
limit_reached =
    b's' ∷ b'e' ∷ b's' ∷ b's' ∷ b'i' ∷ b'o' ∷ b'n' ∷ b' ' ∷ b'l' ∷ b'i' ∷ b'm' ∷ b'i' ∷ b't' ∷ b' '
    ∷ b'r' ∷ b'e' ∷ b'a' ∷ b'c' ∷ b'h' ∷ b'e' ∷ b'd' ∷ []

abbrev pub create_failed : Bytes
create_failed =
    b'f' ∷ b'a' ∷ b'i' ∷ b'l' ∷ b'e' ∷ b'd' ∷ b' ' ∷ b't' ∷ b'o' ∷ b' ' ∷ b'c' ∷ b'r' ∷ b'e' ∷ b'a'
    ∷ b't' ∷ b'e' ∷ b' ' ∷ b's' ∷ b'e' ∷ b's' ∷ b's' ∷ b'i' ∷ b'o' ∷ b'n' ∷ []

abbrev pub not_loaded : Bytes
not_loaded =
    b'm' ∷ b'o' ∷ b'd' ∷ b'e' ∷ b'l' ∷ b' ' ∷ b'n' ∷ b'o' ∷ b't' ∷ b' ' ∷ b'l' ∷ b'o' ∷ b'a' ∷ b'd'
    ∷ b'e' ∷ b'd' ∷ []

abbrev pub context_overflow : Bytes
context_overflow =
    b'c' ∷ b'o' ∷ b'n' ∷ b't' ∷ b'e' ∷ b'x' ∷ b't' ∷ b' ' ∷ b'o' ∷ b'v' ∷ b'e' ∷ b'r' ∷ b'f' ∷ b'l'
    ∷ b'o' ∷ b'w' ∷ []

abbrev pub generation_timeout : Bytes
generation_timeout =
    b'g' ∷ b'e' ∷ b'n' ∷ b'e' ∷ b'r' ∷ b'a' ∷ b't' ∷ b'i' ∷ b'o' ∷ b'n' ∷ b' ' ∷ b't' ∷ b'i' ∷ b'm'
    ∷ b'e' ∷ b'o' ∷ b'u' ∷ b't' ∷ []

abbrev pub write_failed_text : Bytes
write_failed_text =
    b's' ∷ b't' ∷ b'r' ∷ b'e' ∷ b'a' ∷ b'm' ∷ b' ' ∷ b'w' ∷ b'r' ∷ b'i' ∷ b't' ∷ b'e' ∷ b' ' ∷ b'f'
    ∷ b'a' ∷ b'i' ∷ b'l' ∷ b'e' ∷ b'd' ∷ []

abbrev pub generation_failed : Bytes
generation_failed =
    b'g' ∷ b'e' ∷ b'n' ∷ b'e' ∷ b'r' ∷ b'a' ∷ b't' ∷ b'i' ∷ b'o' ∷ b'n' ∷ b' ' ∷ b'f' ∷ b'a' ∷ b'i'
    ∷ b'l' ∷ b'e' ∷ b'd' ∷ []

abbrev pub method_not_found : Bytes
method_not_found =
    b'm' ∷ b'e' ∷ b't' ∷ b'h' ∷ b'o' ∷ b'd' ∷ b' ' ∷ b'n' ∷ b'o' ∷ b't' ∷ b' ' ∷ b'f' ∷ b'o' ∷ b'u'
    ∷ b'n' ∷ b'd' ∷ []

abbrev pub invalid_request : Bytes
invalid_request =
    b'i' ∷ b'n' ∷ b'v' ∷ b'a' ∷ b'l' ∷ b'i' ∷ b'd' ∷ b' ' ∷ b'r' ∷ b'e' ∷ b'q' ∷ b'u' ∷ b'e' ∷ b's'
    ∷ b't' ∷ []

abbrev pub request_too_large : Bytes
request_too_large =
    b'r' ∷ b'e' ∷ b'q' ∷ b'u' ∷ b'e' ∷ b's' ∷ b't' ∷ b' ' ∷ b't' ∷ b'o' ∷ b'o' ∷ b' ' ∷ b'l' ∷ b'a'
    ∷ b'r' ∷ b'g' ∷ b'e' ∷ []

abbrev pub model_name : Bytes
model_name =
    b'Q' ∷ b'w' ∷ b'e' ∷ b'n' ∷ b'3' ∷ b'-' ∷ b'3' ∷ b'0' ∷ b'B' ∷ b'-' ∷ b'A' ∷ b'3' ∷ b'B' ∷ []

abbrev pub loaded_head : Bytes
loaded_head =
    b'{' ∷ b'"' ∷ b'l' ∷ b'o' ∷ b'a' ∷ b'd' ∷ b'e' ∷ b'd' ∷ b'"' ∷ b':' ∷ b't' ∷ b'r' ∷ b'u' ∷ b'e'
    ∷ b',' ∷ b'"' ∷ b'm' ∷ b'o' ∷ b'd' ∷ b'e' ∷ b'l' ∷ b'_' ∷ b'n' ∷ b'a' ∷ b'm' ∷ b'e' ∷ b'"'
    ∷ b':' ∷ b'"' ∷ []

abbrev pub n_ctx_field : Bytes
n_ctx_field = b'"' ∷ b',' ∷ b'"' ∷ b'n' ∷ b'_' ∷ b'c' ∷ b't' ∷ b'x' ∷ b'"' ∷ b':' ∷ []

abbrev pub vocab_size_field : Bytes
vocab_size_field =
    b',' ∷ b'"' ∷ b'v' ∷ b'o' ∷ b'c' ∷ b'a' ∷ b'b' ∷ b'_' ∷ b's' ∷ b'i' ∷ b'z' ∷ b'e' ∷ b'"' ∷ b':'
    ∷ []

abbrev pub gpu_layers_field : Bytes
gpu_layers_field =
    b',' ∷ b'"' ∷ b'g' ∷ b'p' ∷ b'u' ∷ b'_' ∷ b'l' ∷ b'a' ∷ b'y' ∷ b'e' ∷ b'r' ∷ b's' ∷ b'"' ∷ b':'
    ∷ []

abbrev pub session_id_head : Bytes
session_id_head =
    b'{' ∷ b'"' ∷ b's' ∷ b'e' ∷ b's' ∷ b's' ∷ b'i' ∷ b'o' ∷ b'n' ∷ b'_' ∷ b'i' ∷ b'd' ∷ b'"' ∷ b':'
    ∷ b'"' ∷ []

abbrev pub created_at_field : Bytes
created_at_field =
    b'"' ∷ b',' ∷ b'"' ∷ b'c' ∷ b'r' ∷ b'e' ∷ b'a' ∷ b't' ∷ b'e' ∷ b'd' ∷ b'_' ∷ b'a' ∷ b't' ∷ b'"'
    ∷ b':' ∷ b'"' ∷ []

abbrev pub text_field : Bytes
text_field = b'"' ∷ b',' ∷ b'"' ∷ b't' ∷ b'e' ∷ b'x' ∷ b't' ∷ b'"' ∷ b':' ∷ b'"' ∷ []

abbrev pub tokens_generated_field : Bytes
tokens_generated_field =
    b'"' ∷ b',' ∷ b'"' ∷ b't' ∷ b'o' ∷ b'k' ∷ b'e' ∷ b'n' ∷ b's' ∷ b'_' ∷ b'g' ∷ b'e' ∷ b'n' ∷ b'e'
    ∷ b'r' ∷ b'a' ∷ b't' ∷ b'e' ∷ b'd' ∷ b'"' ∷ b':' ∷ []

abbrev pub tokens_prompt_field : Bytes
tokens_prompt_field =
    b',' ∷ b'"' ∷ b't' ∷ b'o' ∷ b'k' ∷ b'e' ∷ b'n' ∷ b's' ∷ b'_' ∷ b'p' ∷ b'r' ∷ b'o' ∷ b'm' ∷ b'p'
    ∷ b't' ∷ b'"' ∷ b':' ∷ []

abbrev pub current_tokens_field : Bytes
current_tokens_field =
    b',' ∷ b'"' ∷ b'c' ∷ b'u' ∷ b'r' ∷ b'r' ∷ b'e' ∷ b'n' ∷ b't' ∷ b'_' ∷ b't' ∷ b'o' ∷ b'k' ∷ b'e'
    ∷ b'n' ∷ b's' ∷ b'"' ∷ b':' ∷ []

abbrev pub max_tokens_field : Bytes
max_tokens_field =
    b',' ∷ b'"' ∷ b'm' ∷ b'a' ∷ b'x' ∷ b'_' ∷ b't' ∷ b'o' ∷ b'k' ∷ b'e' ∷ b'n' ∷ b's' ∷ b'"' ∷ b':'
    ∷ []

abbrev pub n_ctx_after : Bytes
n_ctx_after = b',' ∷ b'"' ∷ b'n' ∷ b'_' ∷ b'c' ∷ b't' ∷ b'x' ∷ b'"' ∷ b':' ∷ []

abbrev pub cached_field : Bytes
cached_field =
    b',' ∷ b'"' ∷ b'c' ∷ b'a' ∷ b'c' ∷ b'h' ∷ b'e' ∷ b'd' ∷ b'_' ∷ b'p' ∷ b'r' ∷ b'e' ∷ b'f' ∷ b'i'
    ∷ b'x' ∷ b'_' ∷ b'l' ∷ b'e' ∷ b'n' ∷ b'"' ∷ b':' ∷ []

abbrev pub new_cached_field : Bytes
new_cached_field =
    b',' ∷ b'"' ∷ b'n' ∷ b'e' ∷ b'w' ∷ b'_' ∷ b'c' ∷ b'a' ∷ b'c' ∷ b'h' ∷ b'e' ∷ b'd' ∷ b'_' ∷ b'p'
    ∷ b'r' ∷ b'e' ∷ b'f' ∷ b'i' ∷ b'x' ∷ b'_' ∷ b'l' ∷ b'e' ∷ b'n' ∷ b'"' ∷ b':' ∷ []

abbrev pub tool_calls_field : Bytes
tool_calls_field =
    b',' ∷ b'"' ∷ b't' ∷ b'o' ∷ b'o' ∷ b'l' ∷ b'_' ∷ b'c' ∷ b'a' ∷ b'l' ∷ b'l' ∷ b's' ∷ b'"' ∷ b':'
    ∷ []

abbrev pub done_tail : Bytes
done_tail =
    b',' ∷ b'"' ∷ b'd' ∷ b'o' ∷ b'n' ∷ b'e' ∷ b'"' ∷ b':' ∷ b't' ∷ b'r' ∷ b'u' ∷ b'e' ∷ b'}' ∷ []

abbrev pub text_head : Bytes
text_head = b'{' ∷ b'"' ∷ b't' ∷ b'e' ∷ b'x' ∷ b't' ∷ b'"' ∷ b':' ∷ b'"' ∷ []

abbrev pub not_done_tail : Bytes
not_done_tail =
    b'"' ∷ b',' ∷ b'"' ∷ b'd' ∷ b'o' ∷ b'n' ∷ b'e' ∷ b'"' ∷ b':' ∷ b'f' ∷ b'a' ∷ b'l' ∷ b's' ∷ b'e'
    ∷ b'}' ∷ []

abbrev pub empty_array : Bytes
empty_array = b'[' ∷ b']' ∷ []

abbrev pub health_head : Bytes
health_head =
    b'{' ∷ b'"' ∷ b's' ∷ b't' ∷ b'a' ∷ b't' ∷ b'u' ∷ b's' ∷ b'"' ∷ b':' ∷ b'"' ∷ b'o' ∷ b'k' ∷ b'"'
    ∷ b',' ∷ b'"' ∷ b'm' ∷ b'o' ∷ b'd' ∷ b'e' ∷ b'l' ∷ b'_' ∷ b'l' ∷ b'o' ∷ b'a' ∷ b'd' ∷ b'e'
    ∷ b'd' ∷ b'"' ∷ b':' ∷ []

abbrev pub active_field : Bytes
active_field =
    b',' ∷ b'"' ∷ b'a' ∷ b'c' ∷ b't' ∷ b'i' ∷ b'v' ∷ b'e' ∷ b'_' ∷ b's' ∷ b'e' ∷ b's' ∷ b's' ∷ b'i'
    ∷ b'o' ∷ b'n' ∷ b's' ∷ b'"' ∷ b':' ∷ []

abbrev pub total_field : Bytes
total_field =
    b',' ∷ b'"' ∷ b't' ∷ b'o' ∷ b't' ∷ b'a' ∷ b'l' ∷ b'_' ∷ b't' ∷ b'o' ∷ b'k' ∷ b'e' ∷ b'n' ∷ b's'
    ∷ b'_' ∷ b'g' ∷ b'e' ∷ b'n' ∷ b'e' ∷ b'r' ∷ b'a' ∷ b't' ∷ b'e' ∷ b'd' ∷ b'"' ∷ b':' ∷ []

abbrev pub uptime_field : Bytes
uptime_field =
    b',' ∷ b'"' ∷ b'u' ∷ b'p' ∷ b't' ∷ b'i' ∷ b'm' ∷ b'e' ∷ b'_' ∷ b's' ∷ b'e' ∷ b'c' ∷ b'o' ∷ b'n'
    ∷ b'd' ∷ b's' ∷ b'"' ∷ b':' ∷ []

abbrev pub total_prompt_field : Bytes
total_prompt_field =
    b',' ∷ b'"' ∷ b't' ∷ b'o' ∷ b't' ∷ b'a' ∷ b'l' ∷ b'_' ∷ b't' ∷ b'o' ∷ b'k' ∷ b'e' ∷ b'n' ∷ b's'
    ∷ b'_' ∷ b'p' ∷ b'r' ∷ b'o' ∷ b'm' ∷ b'p' ∷ b't' ∷ b'"' ∷ b':' ∷ []

abbrev pub stats_head : Bytes
stats_head =
    b'{' ∷ b'"' ∷ b's' ∷ b't' ∷ b'a' ∷ b't' ∷ b'u' ∷ b's' ∷ b'"' ∷ b':' ∷ b'"' ∷ b'o' ∷ b'k' ∷ b'"'
    ∷ b',' ∷ b'"' ∷ b'm' ∷ b'o' ∷ b'd' ∷ b'e' ∷ b'l' ∷ b'_' ∷ b'n' ∷ b'a' ∷ b'm' ∷ b'e' ∷ b'"'
    ∷ b':' ∷ b'"' ∷ []

abbrev pub stats_loaded_field : Bytes
stats_loaded_field =
    b'"' ∷ b',' ∷ b'"' ∷ b'm' ∷ b'o' ∷ b'd' ∷ b'e' ∷ b'l' ∷ b'_' ∷ b'l' ∷ b'o' ∷ b'a' ∷ b'd' ∷ b'e'
    ∷ b'd' ∷ b'"' ∷ b':' ∷ []

abbrev pub n_layer_field : Bytes
n_layer_field = b',' ∷ b'"' ∷ b'n' ∷ b'_' ∷ b'l' ∷ b'a' ∷ b'y' ∷ b'e' ∷ b'r' ∷ b'"' ∷ b':' ∷ []
