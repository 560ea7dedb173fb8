-- ===== src/Tokenizer/Chat.antt =====
-- `ds3_chat_format` of src/ds3_tokenizer.c.
use qw.Base.{
  ℕ, suc, List, [], ◌∷◌, ◌++◌, Option, none, some, ◌>>=◌, if◌then◌else◌, length, ◌≡◌, refl, ◌∙◌,
  append_assoc, arith,
}
use qw.Base.Int.{ℤ, pos}
use qw.Tokenizer.Table.{Bytes}
use qw.Tokenizer.Bpe.{Vocab}
use qw.Tokenizer.Bpe.Split.{Answering}
use qw.Tokenizer.Segment.{bpe_tokenize_segment}
use qw.Tokenizer.Segment.Cover.{bpe_tokenize_segment_total}
use qw.Tokenizer.Encode.{Tokens, minus_one, first_tokens, no_room}
use qw.Tokenizer.Names.{system_line, user_line, assistant_line, newline}

abbrev pub bpe_tokenize : Vocab → Bytes → Option (List ℤ)
bpe_tokenize v text = bpe_tokenize_segment v text 0 (length text)

-- `<|im_start|>`, a role line and a text, `<|im_end|>` and a newline.
unfoldable pub message : Vocab → Bytes → Bytes → Option (List ℤ)
message v role text = do
  a ← bpe_tokenize v role
  b ← bpe_tokenize v text
  c ← bpe_tokenize v newline
  some ((v.im_start_id ∷ a ++ b) ++ (v.im_end_id ∷ c))

-- No message where `system` is NULL or empty.
unfoldable pub system_message : Vocab → Option Bytes → Option (List ℤ)
system_message v none = some []
system_message v (some []) = some []
system_message v (some (b ∷ bs)) = message v system_line (b ∷ bs)

unfoldable pub assistant_prefix : Vocab → Option (List ℤ)
assistant_prefix v = do a ← bpe_tokenize v assistant_line; some (v.im_start_id ∷ a)

-- All the tokens pushed.
unfoldable pub chat_tokens : Vocab → Option Bytes → Bytes → Option (List ℤ)
chat_tokens v system user = do
  front ← system_message v system
  middle ← message v user_line user
  back ← assistant_prefix v
  some (front ++ (middle ++ back))

unfoldable pub ds3_chat_format : Option Vocab → Option Bytes → Option Bytes → ℤ → Option Tokens
ds3_chat_format none system user max_tokens = some minus_one
ds3_chat_format (some v) system none max_tokens = some minus_one
ds3_chat_format (some v) system (some user) max_tokens =
    let all = chat_tokens v system user in
    if no_room max_tokens
    then some minus_one
    else (do out ← all; some (first_tokens max_tokens out))

message_total :
    {v : Vocab}
    → Answering v
    → (role text : Bytes) → (ids : List ℤ) × (message v role text ≡ some ids)
unfolding message
message_total {v} ok role text =
    let (a, ra) = bpe_tokenize_segment_total ok role 0 (length role) (omega arith) in
    let (b, rb) = bpe_tokenize_segment_total ok text 0 (length text) (omega arith) in
    let (c, rc) = bpe_tokenize_segment_total ok newline 0 1 (omega arith) in
    ((v.im_start_id ∷ a ++ b) ++ (v.im_end_id ∷ c), rw (ra, ◌>>=◌, rb, ◌>>=◌, rc, ◌>>=◌))

-- The tokens of a prompt: those of the role lines, of the user's text and of the newline, each encoded
-- by itself, in the template of the user's message and the assistant's prefix.
pub record Prompt (v : Vocab) (user : Bytes) (rest : List ℤ) : Type 0 where
  pub role : List ℤ
  pub text : List ℤ
  pub line : List ℤ
  pub assistant : List ℤ
  pub role_is : bpe_tokenize v user_line ≡ some role
  pub text_is : bpe_tokenize v user ≡ some text
  pub line_is : bpe_tokenize v newline ≡ some line
  pub assistant_is : bpe_tokenize v assistant_line ≡ some assistant
  pub template :
      rest ≡ (v.im_start_id ∷ role) ++ (text ++ (v.im_end_id ∷ line ++ (v.im_start_id ∷ assistant)))

Prompt-chat_tokens :
    {v : Vocab}
    → Answering v
    → (user : Bytes)
    → (rest : List ℤ) × Prompt v user rest
      × (chat_tokens v none user ≡ some rest)
      × (chat_tokens v (some []) user ≡ some rest)
      × ((b : ℕ) (bs : Bytes) (front : List ℤ)
          → message v system_line (b ∷ bs) ≡ some front
          → chat_tokens v (some (b ∷ bs)) user ≡ some (front ++ rest))
unfolding chat_tokens system_message assistant_prefix message
Prompt-chat_tokens {v} ok user =
    let (a, ra) = bpe_tokenize_segment_total ok user_line 0 (length user_line) (omega arith) in
    let (b, rb) = bpe_tokenize_segment_total ok user 0 (length user) (omega arith) in
    let (c, rc) = bpe_tokenize_segment_total ok newline 0 1 (omega arith) in
    let (d, rd) =
      bpe_tokenize_segment_total ok assistant_line 0 (length assistant_line) (omega arith) in
    (
      ((v.im_start_id ∷ a ++ b) ++ (v.im_end_id ∷ c)) ++ (v.im_start_id ∷ d),
      record {
        role = a;
        text = b;
        line = c;
        assistant = d;
        role_is = ra;
        text_is = rb;
        line_is = rc;
        assistant_is = rd;
        template =
            append_assoc (v.im_start_id ∷ a ++ b) (v.im_end_id ∷ c) (v.im_start_id ∷ d)
            ∙ append_assoc (v.im_start_id ∷ a) b (v.im_end_id ∷ c ++ (v.im_start_id ∷ d));
      },
      rw (ra, ◌>>=◌, rb, ◌>>=◌, rc, ◌>>=◌, rd, ◌>>=◌) refl,
      rw (ra, ◌>>=◌, rb, ◌>>=◌, rc, ◌>>=◌, rd, ◌>>=◌) refl,
      λ b bs front front_is. rw (front_is, ◌>>=◌, ra, ◌>>=◌, rb, ◌>>=◌, rc, ◌>>=◌, rd, ◌>>=◌) refl,
    )

-- Where the tables of the vocabulary answer every key and `max_tokens` is positive, the prompt ends for
-- every user text. Without a system message, or with an empty one, it is the user's message and the
-- assistant's prefix: `<|im_start|>`, the user line and the text, `<|im_end|>` and a newline, then
-- `<|im_start|>` and the assistant line. A system message goes in front of exactly these tokens.
pub ds3_chat_format_lem :
    {v : Vocab}
    → Answering v
    → (user : Bytes) (max_tokens : ℕ)
    → (rest : List ℤ) × Prompt v user rest
      × (ds3_chat_format (some v) none (some user) (pos (suc max_tokens))
          ≡ some (first_tokens (pos (suc max_tokens)) rest))
      × (ds3_chat_format (some v) (some []) (some user) (pos (suc max_tokens))
          ≡ some (first_tokens (pos (suc max_tokens)) rest))
      × ((b : ℕ) (bs : Bytes)
          → (front : List ℤ) × (message v system_line (b ∷ bs) ≡ some front)
            × (ds3_chat_format (some v) (some (b ∷ bs)) (some user) (pos (suc max_tokens))
                ≡ some (first_tokens (pos (suc max_tokens)) (front ++ rest))))
unfolding ds3_chat_format
ds3_chat_format_lem {v} ok user max_tokens =
    let (rest, p, bare, empty, with_system) = Prompt-chat_tokens ok user in
    (
      rest,
      p,
      rw (bare, ◌>>=◌) refl,
      rw (empty, ◌>>=◌) refl,
      λ b bs.
          let (front, rf) = message_total ok system_line (b ∷ bs) in
          let run : chat_tokens v (some (b ∷ bs)) user ≡ some (front ++ rest) =
            with_system b bs front rf in
          (front, rf, rw (run, ◌>>=◌) refl),
    )
