-- ===== src/Daemon/Connection/Lines.antt =====
-- What `read_line` makes of the reads, and what a connection answers to its requests.
use qw.Base.{
  ℕ, suc, ◌+◌, ◌≤◌, Bool, true, false, List, [], ◌∷◌, ◌++◌, Option, none, some, length, All,
  append_assoc, ◌≡◌, refl, ap, ◌∙◌, sym, arith, length-append, le→ltb,
}
use qw.Tokenizer.Table.{Bytes}
use qw.Daemon.Json.Escape.{IsChar}
use qw.Daemon.Request.{parse_request}
use qw.Daemon.Sessions.{Provider, Daemon}
use qw.Daemon.Prompt.{is_break}
use qw.Daemon.Response.{send_error}
use qw.Daemon.Texts.{request_too_large}
use qw.Daemon.Handlers.{Machine, Engine}
use qw.Daemon.Connection.{
  Read, got_bytes, line_read, and_served, has_break, read_line, serve_parsed, too_large_code,
}

-- The bytes of some reads.
abbrev pub joined : List Bytes → Bytes
joined [] = []
joined (s ∷ ss) = s ++ joined ss

abbrev pub arriving : List Bytes → List Read → List Read
arriving [] rs = rs
arriving (s ∷ ss) rs = got_bytes s ∷ arriving ss rs

read_line_more :
    (max_size : ℕ) (line s : Bytes) (rs : List Read)
    → length line + length s ≤ max_size
    → has_break s ≡ false
    → read_line max_size line (got_bytes s ∷ rs) ≡ read_line max_size (line ++ s) rs
unfolding read_line
read_line_more max_size line s rs h e = rw (le→ltb max_size (length line + length s) h, e) refl

read_line_done :
    (max_size : ℕ) (line s : Bytes) (rs : List Read)
    → length line + length s ≤ max_size
    → has_break s ≡ true
    → read_line max_size line (got_bytes s ∷ rs) ≡ line_read (line ++ s) rs
unfolding read_line
read_line_done max_size line s rs h e = rw (le→ltb max_size (length line + length s) h, e) refl

read_line_from :
    (max_size : ℕ) (line : Bytes) (ss : List Bytes) (last : Bytes) (rs : List Read)
    → All (λ s. has_break s ≡ false) ss
    → has_break last ≡ true
    → length line + (length (joined ss) + length last) ≤ max_size
    → read_line max_size line (arriving ss (got_bytes last ∷ rs))
      ≡ line_read (line ++ (joined ss ++ last)) rs
read_line_from max_size line [] last rs h e fits =
    read_line_done max_size line last rs (omega arith) e
read_line_from max_size line (s ∷ ss) last rs h e fits =
    let a = length-append s (joined ss) in
    let b = length-append line s in
    read_line_more max_size line s (arriving ss (got_bytes last ∷ rs)) (omega arith) h.0
    ∙ read_line_from max_size (line ++ s) ss last rs h.1 e (omega arith)
    ∙ ap (λ t. line_read t rs)
        (append_assoc line s (joined ss ++ last)
          ∙ ap (λ t. line ++ t) (sym (append_assoc s (joined ss) last)))

-- However a request is cut into reads, `read_line` returns its bytes put together: the reads up to the
-- first that holds a line break, that one included, where they fit the limit.
pub read_line-joined :
    (max_size : ℕ) (ss : List Bytes) (last : Bytes) (rs : List Read)
    → All (λ s. has_break s ≡ false) ss
    → has_break last ≡ true
    → length (joined ss) + length last ≤ max_size
    → read_line max_size [] (arriving ss (got_bytes last ∷ rs)) ≡ line_read (joined ss ++ last) rs
read_line-joined max_size ss last rs h e fits =
    read_line_from max_size [] ss last rs h e (omega arith)

-- A request as it arrives: reads without a line break, then one with a break, which together are the
-- text and the break behind it. The text is a C string that does not end in a break itself.
pub record Sent (max_size : ℕ) : Type 0 where
  pub reads : List Bytes
  pub last : Bytes
  pub front : Bytes
  pub final : ℕ
  pub whole : joined reads ++ last ≡ (front ++ (final ∷ [])) ++ (b'\n' ∷ [])
  pub unbroken : All (λ s. has_break s ≡ false) reads
  pub broken : has_break last ≡ true
  pub fits : length (joined reads) + length last ≤ max_size
  pub chars : All IsChar (front ++ (final ∷ []))
  pub no_break : is_break final ≡ false

abbrev pub text_of : {max_size : ℕ} → Sent max_size → Bytes
text_of q = q.front ++ (q.final ∷ [])

-- The requests, one behind the other, and then the other reads.
pub all_reads : {max_size : ℕ} → List (Sent max_size) → List Read → List Read
all_reads [] rs = rs
all_reads (q ∷ qs) rs = arriving q.reads (got_bytes q.last ∷ all_reads qs rs)

module _ (m : Machine) {E K : Type 0} (eng : Engine E K m.floats.Float) (kv : Provider K)
    (delivers : Bytes → Bytes → Bool) (clock : ℕ → Bool × ℕ) (max_size : ℕ) where
  -- What the requests are answered, in their order, each in the state that the one before left: the
  -- answer of its handler, or the error for what is no request; then the error for a request that is
  -- too large.
  pub answered :
      Daemon E K m.floats.Float → List (Sent max_size) → Option (Daemon E K m.floats.Float × Bytes)
  answered ds [] = some (ds, send_error none too_large_code request_too_large)
  answered ds (q ∷ qs) =
      and_served
        (serve_parsed m eng kv delivers (clock (suc (suc (length qs)))).0 ds
          (clock (suc (suc (length qs)))).1 (parse_request m.doubles (text_of q)))
        (λ es. answered es qs)
