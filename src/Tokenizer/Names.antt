-- ===== src/Tokenizer/Names.antt =====
-- The names of the special and added tokens in src/ds3_tokenizer.c, as bytes.
use qw.Base.{List, [], ◌∷◌}
use qw.Tokenizer.Table.{Bytes}

-- `<|endoftext|>`.
abbrev pub endoftext : Bytes
endoftext = 60 ∷ 124 ∷ 101 ∷ 110 ∷ 100 ∷ 111 ∷ 102 ∷ 116 ∷ 101 ∷ 120 ∷ 116 ∷ 124 ∷ 62 ∷ []

-- `<|im_start|>`.
abbrev pub im_start : Bytes
im_start = 60 ∷ 124 ∷ 105 ∷ 109 ∷ 95 ∷ 115 ∷ 116 ∷ 97 ∷ 114 ∷ 116 ∷ 124 ∷ 62 ∷ []

-- `<|im_end|>`.
abbrev pub im_end : Bytes
im_end = 60 ∷ 124 ∷ 105 ∷ 109 ∷ 95 ∷ 101 ∷ 110 ∷ 100 ∷ 124 ∷ 62 ∷ []

-- `<|object_ref_start|>`.
abbrev pub object_ref_start : Bytes
object_ref_start =
    60 ∷ 124 ∷ 111 ∷ 98 ∷ 106 ∷ 101 ∷ 99 ∷ 116 ∷ 95 ∷ 114 ∷ 101 ∷ 102 ∷ 95 ∷ 115 ∷ 116 ∷ 97 ∷ 114
    ∷ 116 ∷ 124 ∷ 62 ∷ []

-- `<|object_ref_end|>`.
abbrev pub object_ref_end : Bytes
object_ref_end =
    60 ∷ 124 ∷ 111 ∷ 98 ∷ 106 ∷ 101 ∷ 99 ∷ 116 ∷ 95 ∷ 114 ∷ 101 ∷ 102 ∷ 95 ∷ 101 ∷ 110 ∷ 100 ∷ 124
    ∷ 62 ∷ []

-- `<|box_start|>`.
abbrev pub box_start : Bytes
box_start = 60 ∷ 124 ∷ 98 ∷ 111 ∷ 120 ∷ 95 ∷ 115 ∷ 116 ∷ 97 ∷ 114 ∷ 116 ∷ 124 ∷ 62 ∷ []

-- `<|box_end|>`.
abbrev pub box_end : Bytes
box_end = 60 ∷ 124 ∷ 98 ∷ 111 ∷ 120 ∷ 95 ∷ 101 ∷ 110 ∷ 100 ∷ 124 ∷ 62 ∷ []

-- `<|quad_start|>`.
abbrev pub quad_start : Bytes
quad_start = 60 ∷ 124 ∷ 113 ∷ 117 ∷ 97 ∷ 100 ∷ 95 ∷ 115 ∷ 116 ∷ 97 ∷ 114 ∷ 116 ∷ 124 ∷ 62 ∷ []

-- `<|quad_end|>`.
abbrev pub quad_end : Bytes
quad_end = 60 ∷ 124 ∷ 113 ∷ 117 ∷ 97 ∷ 100 ∷ 95 ∷ 101 ∷ 110 ∷ 100 ∷ 124 ∷ 62 ∷ []

-- `<|vision_start|>`.
abbrev pub vision_start : Bytes
vision_start =
    60 ∷ 124 ∷ 118 ∷ 105 ∷ 115 ∷ 105 ∷ 111 ∷ 110 ∷ 95 ∷ 115 ∷ 116 ∷ 97 ∷ 114 ∷ 116 ∷ 124 ∷ 62 ∷ []

-- `<|vision_end|>`.
abbrev pub vision_end : Bytes
vision_end = 60 ∷ 124 ∷ 118 ∷ 105 ∷ 115 ∷ 105 ∷ 111 ∷ 110 ∷ 95 ∷ 101 ∷ 110 ∷ 100 ∷ 124 ∷ 62 ∷ []

-- `<|vision_pad|>`.
abbrev pub vision_pad : Bytes
vision_pad = 60 ∷ 124 ∷ 118 ∷ 105 ∷ 115 ∷ 105 ∷ 111 ∷ 110 ∷ 95 ∷ 112 ∷ 97 ∷ 100 ∷ 124 ∷ 62 ∷ []

-- `<|image_pad|>`.
abbrev pub image_pad : Bytes
image_pad = 60 ∷ 124 ∷ 105 ∷ 109 ∷ 97 ∷ 103 ∷ 101 ∷ 95 ∷ 112 ∷ 97 ∷ 100 ∷ 124 ∷ 62 ∷ []

-- `<|video_pad|>`.
abbrev pub video_pad : Bytes
video_pad = 60 ∷ 124 ∷ 118 ∷ 105 ∷ 100 ∷ 101 ∷ 111 ∷ 95 ∷ 112 ∷ 97 ∷ 100 ∷ 124 ∷ 62 ∷ []

-- `<tool_call>`.
abbrev pub tool_call : Bytes
tool_call = 60 ∷ 116 ∷ 111 ∷ 111 ∷ 108 ∷ 95 ∷ 99 ∷ 97 ∷ 108 ∷ 108 ∷ 62 ∷ []

-- `</tool_call>`.
abbrev pub end_tool_call : Bytes
end_tool_call = 60 ∷ 47 ∷ 116 ∷ 111 ∷ 111 ∷ 108 ∷ 95 ∷ 99 ∷ 97 ∷ 108 ∷ 108 ∷ 62 ∷ []

-- `<|fim_prefix|>`.
abbrev pub fim_prefix : Bytes
fim_prefix = 60 ∷ 124 ∷ 102 ∷ 105 ∷ 109 ∷ 95 ∷ 112 ∷ 114 ∷ 101 ∷ 102 ∷ 105 ∷ 120 ∷ 124 ∷ 62 ∷ []

-- `<|fim_middle|>`.
abbrev pub fim_middle : Bytes
fim_middle = 60 ∷ 124 ∷ 102 ∷ 105 ∷ 109 ∷ 95 ∷ 109 ∷ 105 ∷ 100 ∷ 100 ∷ 108 ∷ 101 ∷ 124 ∷ 62 ∷ []

-- `<|fim_suffix|>`.
abbrev pub fim_suffix : Bytes
fim_suffix = 60 ∷ 124 ∷ 102 ∷ 105 ∷ 109 ∷ 95 ∷ 115 ∷ 117 ∷ 102 ∷ 102 ∷ 105 ∷ 120 ∷ 124 ∷ 62 ∷ []

-- `<|fim_pad|>`.
abbrev pub fim_pad : Bytes
fim_pad = 60 ∷ 124 ∷ 102 ∷ 105 ∷ 109 ∷ 95 ∷ 112 ∷ 97 ∷ 100 ∷ 124 ∷ 62 ∷ []

-- `<|repo_name|>`.
abbrev pub repo_name : Bytes
repo_name = 60 ∷ 124 ∷ 114 ∷ 101 ∷ 112 ∷ 111 ∷ 95 ∷ 110 ∷ 97 ∷ 109 ∷ 101 ∷ 124 ∷ 62 ∷ []

-- `<|file_sep|>`.
abbrev pub file_sep : Bytes
file_sep = 60 ∷ 124 ∷ 102 ∷ 105 ∷ 108 ∷ 101 ∷ 95 ∷ 115 ∷ 101 ∷ 112 ∷ 124 ∷ 62 ∷ []

-- `<tool_response>`.
abbrev pub tool_response : Bytes
tool_response =
    60 ∷ 116 ∷ 111 ∷ 111 ∷ 108 ∷ 95 ∷ 114 ∷ 101 ∷ 115 ∷ 112 ∷ 111 ∷ 110 ∷ 115 ∷ 101 ∷ 62 ∷ []

-- `</tool_response>`.
abbrev pub end_tool_response : Bytes
end_tool_response =
    60 ∷ 47 ∷ 116 ∷ 111 ∷ 111 ∷ 108 ∷ 95 ∷ 114 ∷ 101 ∷ 115 ∷ 112 ∷ 111 ∷ 110 ∷ 115 ∷ 101 ∷ 62 ∷ []

-- `<think>`.
abbrev pub think : Bytes
think = 60 ∷ 116 ∷ 104 ∷ 105 ∷ 110 ∷ 107 ∷ 62 ∷ []

-- `</think>`.
abbrev pub end_think : Bytes
end_think = 60 ∷ 47 ∷ 116 ∷ 104 ∷ 105 ∷ 110 ∷ 107 ∷ 62 ∷ []

-- `'system\n'`, with C's escapes.
abbrev pub system_line : Bytes
system_line = 115 ∷ 121 ∷ 115 ∷ 116 ∷ 101 ∷ 109 ∷ 10 ∷ []

-- `'user\n'`, with C's escapes.
abbrev pub user_line : Bytes
user_line = 117 ∷ 115 ∷ 101 ∷ 114 ∷ 10 ∷ []

-- `'assistant\n'`, with C's escapes.
abbrev pub assistant_line : Bytes
assistant_line = 97 ∷ 115 ∷ 115 ∷ 105 ∷ 115 ∷ 116 ∷ 97 ∷ 110 ∷ 116 ∷ 10 ∷ []

-- `'\n'`, with C's escapes.
abbrev pub newline : Bytes
newline = 10 ∷ []

-- `added_token_strs`, less the NULL at its end.
abbrev pub added_token_strs : List Bytes
added_token_strs =
    endoftext ∷ im_start ∷ im_end ∷ object_ref_start ∷ object_ref_end ∷ box_start ∷ box_end
    ∷ quad_start ∷ quad_end ∷ vision_start ∷ vision_end ∷ vision_pad ∷ image_pad ∷ video_pad
    ∷ tool_call ∷ end_tool_call ∷ fim_prefix ∷ fim_middle ∷ fim_suffix ∷ fim_pad ∷ repo_name
    ∷ file_sep ∷ tool_response ∷ end_tool_response ∷ think ∷ end_think ∷ []
