-- ===== src/Daemon/Response.antt =====
-- The response lines of tools/qwen3-engine-daemon.c.
use qw.Base.{
  ℕ, zero, suc, ◌+◌, ◌/◌, ◌%◌, Bool, true, false, ◌||◌, [], ◌∷◌, ◌++◌, Option, none, some, ltb,
  ◌==◌, if◌then◌else◌, if_both, All, All-append, ◌≡◌, refl, arith, inl, inr, ap, ◌∙◌, Bool-cases,
  sym, ltb→le, ◌≢◌, ◌≤◌,
}
use qw.Base.Int.{ℤ, pos, negsuc}
use qw.Tokenizer.Table.{Bytes}
use qw.Daemon.Json.Escape.{hex_digit, letter_of, escape_as, escape_byte, json_escape_to_buf}
use qw.Daemon.Texts.{id_head, id_tail, result_head, error_head, message_head, error_tail}

-- `%d` of a number, over as many rounds as the number.
unfoldable pub digits : ℕ → ℕ → Bytes
digits zero n = (b'0' + n % 10) ∷ []
digits (suc rounds) n =
    let more = digits rounds (n / 10) in
    if ltb n 10 then (b'0' + n) ∷ [] else more ++ ((b'0' + n % 10) ∷ [])

abbrev pub decimal : ℤ → Bytes
decimal (pos n) = digits n n
decimal (negsuc n) = b'-' ∷ digits (n + 1) (n + 1)

-- The id, unless NULL or empty.
abbrev pub id_text : Option Bytes → Bytes
id_text none = []
id_text (some []) = []
id_text (some (c ∷ s)) = id_head ++ (json_escape_to_buf (c ∷ s) ++ id_tail)

-- A line that `send_response` writes.
abbrev pub response_line : Option Bytes → Bytes → Bytes
response_line id body = (b'{' ∷ []) ++ (id_text id ++ (body ++ (b'}' ∷ [])))

-- `send_response` with `ok`.
unfoldable pub send_result : Option Bytes → Bytes → Bytes
send_result id result = response_line id (result_head ++ result) ++ (b'\n' ∷ [])

-- `send_error`.
unfoldable pub send_error : Option Bytes → ℤ → Bytes → Bytes
send_error id code msg =
    response_line id
      (error_head ++ (decimal code ++ (message_head ++ (json_escape_to_buf msg ++ error_tail))))
    ++ (b'\n' ∷ [])

-- No line break among the bytes.
abbrev pub OnOneLine : Bytes → Type 0
OnOneLine s = All (λ c. c ≢ b'\n') s

-- A line, with its end.
abbrev pub IsLine : Bytes → Type 0
IsLine s = (body : Bytes) × (s ≡ body ++ (b'\n' ∷ [])) × OnOneLine body

pub OnOneLine-append : (a b : Bytes) → OnOneLine a → OnOneLine b → OnOneLine (a ++ b)
OnOneLine-append a b h k = All-append (λ c. c ≢ b'\n') a b h k

hex_digit_ge : (d : ℕ) → 48 ≤ hex_digit d
hex_digit_ge d = ground arith

-- No letter is a line break.
abbrev NoBreak : Option ℕ → Type 0
NoBreak none = Unit
NoBreak (some l) = l ≢ b'\n'

letter_of-NoBreak : (c : ℕ) → NoBreak (letter_of c)
unfolding letter_of
letter_of-NoBreak c =
    if_both NoBreak (c == b'"' || c == b'\\') (some c) _ (λ e. ground arith)
      λ e.
        if_both NoBreak (c == 8) (some b'b') _ (λ e. omega arith)
          λ e.
            if_both NoBreak (c == 12) (some b'f') _ (λ e. omega arith)
              λ e.
                if_both NoBreak (c == 10) (some b'n') _ (λ e. omega arith)
                  λ e.
                    if_both NoBreak (c == 13) (some b'r') _ (λ e. omega arith)
                      λ e. if_both NoBreak (c == 9) (some b't') none (λ e. omega arith) (λ e. tt)

escape_as-OnOneLine : (c : ℕ) (o : Option ℕ) → NoBreak o → OnOneLine (escape_as c o)
escape_as-OnOneLine c (some l) h = (omega arith, (h, tt))
escape_as-OnOneLine c none h =
    let a = hex_digit_ge (c / 16) in
    let b = hex_digit_ge (c % 16) in
    if_both OnOneLine (ltb c 32)
      (b'\\' ∷ b'u' ∷ b'0' ∷ b'0' ∷ hex_digit (c / 16) ∷ hex_digit (c % 16) ∷ []) (c ∷ [])
      (λ e. (
        omega arith,
        (omega arith, (omega arith, (omega arith, (omega arith, (omega arith, tt))))),
      ))
      (λ e. (omega (arith, ltb→le c 32 e), tt))

pub json_escape_to_buf-OnOneLine : (s : Bytes) → OnOneLine (json_escape_to_buf s)
unfolding json_escape_to_buf escape_byte
json_escape_to_buf-OnOneLine [] = tt
json_escape_to_buf-OnOneLine (c ∷ s) =
    if_both OnOneLine (c == 0) [] (escape_byte c ++ json_escape_to_buf s) (λ e. tt)
      (λ e.
        OnOneLine-append (escape_as c (letter_of c)) (json_escape_to_buf s)
          (escape_as-OnOneLine c (letter_of c) (letter_of-NoBreak c))
          (json_escape_to_buf-OnOneLine s))

digits-OnOneLine : (rounds n : ℕ) → OnOneLine (digits rounds n)
unfolding digits
digits-OnOneLine zero n = (omega arith, tt)
digits-OnOneLine (suc rounds) n =
    if_both OnOneLine (ltb n 10) ((b'0' + n) ∷ [])
      (digits rounds (n / 10) ++ ((b'0' + n % 10) ∷ [])) (λ e. (omega arith, tt))
      (λ e.
        OnOneLine-append (digits rounds (n / 10)) ((b'0' + n % 10) ∷ [])
          (digits-OnOneLine rounds (n / 10)) (omega arith, tt))

pub decimal-OnOneLine : (z : ℤ) → OnOneLine (decimal z)
decimal-OnOneLine (pos n) = digits-OnOneLine n n
decimal-OnOneLine (negsuc n) = (omega arith, digits-OnOneLine (n + 1) (n + 1))

unfoldable pub is_one_line : Bytes → Bool
is_one_line [] = true
is_one_line (c ∷ s) = let rest = is_one_line s in if c == b'\n' then false else rest

-- A constant text is checked by computation.
pub OnOneLine-check : (s : Bytes) → is_one_line s ≡ true → OnOneLine s
unfolding is_one_line
OnOneLine-check [] e = tt
OnOneLine-check (c ∷ s) e = elim (Bool-cases (c == b'\n')) [
  | inl same ↦
      let bad : false ≡ true = sym (ap (λ b. if b then false else is_one_line s) same) ∙ e in cc
  | inr differ ↦ (
    (λ same. let t = sym (ap (λ x. x == b'\n') same) ∙ differ in cc),
    OnOneLine-check s (sym (ap (λ b. if b then false else is_one_line s) differ) ∙ e),
  )
]

id_text-OnOneLine : (id : Option Bytes) → OnOneLine (id_text id)
unfolding is_one_line
id_text-OnOneLine none = tt
id_text-OnOneLine (some []) = tt
id_text-OnOneLine (some (c ∷ s)) =
    OnOneLine-append id_head (json_escape_to_buf (c ∷ s) ++ id_tail) (OnOneLine-check id_head refl)
      (OnOneLine-append (json_escape_to_buf (c ∷ s)) id_tail (json_escape_to_buf-OnOneLine (c ∷ s))
        (OnOneLine-check id_tail refl))

response_line-OnOneLine :
    (id : Option Bytes) (body : Bytes) → OnOneLine body → OnOneLine (response_line id body)
response_line-OnOneLine id body h = (
  omega arith,
  OnOneLine-append (id_text id) (body ++ (b'}' ∷ [])) (id_text-OnOneLine id)
      (OnOneLine-append body (b'}' ∷ []) h (omega arith, tt)),
)

-- A result on one line is answered by one line.
pub send_result-IsLine :
    (id : Option Bytes) (result : Bytes) → OnOneLine result → IsLine (send_result id result)
unfolding send_result is_one_line
send_result-IsLine id result h = (
  response_line id (result_head ++ result),
  refl,
  response_line-OnOneLine id (result_head ++ result)
      (OnOneLine-append result_head result (OnOneLine-check result_head refl) h),
)

-- An error is answered by one line, whatever the id and the message are.
pub send_error-IsLine :
    (id : Option Bytes) (code : ℤ) (msg : Bytes) → IsLine (send_error id code msg)
unfolding send_error is_one_line
send_error-IsLine id code msg =
    let tail = json_escape_to_buf msg ++ error_tail in
    let body = error_head ++ (decimal code ++ (message_head ++ tail)) in
    (
      response_line id body,
      refl,
      response_line-OnOneLine id body (
          OnOneLine-append error_head (decimal code ++ (message_head ++ tail))
            (OnOneLine-check error_head refl)
            (OnOneLine-append (decimal code) (message_head ++ tail) (decimal-OnOneLine code) (
              OnOneLine-append message_head tail (OnOneLine-check message_head refl) (
                OnOneLine-append (json_escape_to_buf msg) error_tail
                  (json_escape_to_buf-OnOneLine msg) (OnOneLine-check error_tail refl))))),
    )
