-- ===== src/Daemon/Connection.antt =====
-- A connection of tools/qwen3-engine-daemon.c: `read_line` over the reads of the socket, and what
-- `handle_connection` does with a line. Polling and
-- the idle timeout are not modelled: the connection is read until it ends, fails or waits.
pub mod Lines
use qw.Base.{
  ℕ, zero, suc, ◌+◌, ◌<◌, Bool, true, false, ◌||◌, List, [], ◌∷◌, ◌++◌, Option, none, some, ltb,
  ◌==◌, if◌then◌else◌, length,
}
use mathlib.Core.List.{reverse}
use qw.Base.Int.{ℤ, pos, negsuc}
use qw.Tokenizer.Table.{Bytes}
use qw.Daemon.Json.{until_nul}
use qw.Daemon.Request.{Request, parse_request}
use qw.Daemon.Sessions.{Provider, Daemon}
use qw.Daemon.Prompt.{skip_while, is_break}
use qw.Daemon.Response.{send_error}
use qw.Daemon.Handlers.{Machine, Engine}
use qw.Daemon.Generate.{dispatch_request}
use qw.Daemon.Texts.{null_id, invalid_request, request_too_large}

-- What `read` returns: bytes, one at least, a signal (with `g_stop` or not), another error, or the end.
pub data Read : Type 0 where
  got_bytes : Bytes → Read
  interrupted : Bool → Read
  read_failed : Read
  at_end : Read

-- What `read_line` returns, and the reads that it left; `waiting` where there are no more reads yet.
pub data Line : Type 0 where
  line_read : Bytes → List Read → Line
  no_line : List Read → Line
  too_large : List Read → Line
  stopped : List Read → Line
  waiting : Line

unfoldable pub has_break : Bytes → Bool
has_break [] = false
has_break (c ∷ s) = let rest = has_break s in if c == b'\n' then true else rest

-- The end of the stream: a line, if there are bytes.
abbrev pub end_of : Bytes → List Read → Line
end_of [] rs = no_line rs
end_of (c ∷ s) rs = line_read (c ∷ s) rs

unfoldable pub read_line : ℕ → Bytes → List Read → Line
unfolding has_break
read_line max_size line [] = waiting
read_line max_size line (got_bytes s ∷ rs) =
    let more = read_line max_size (line ++ s) rs in
    if ltb max_size (length line + length s)
    then too_large rs
    else if has_break s
    then line_read (line ++ s) rs
    else more
read_line max_size line (interrupted stop ∷ rs) =
    let more = read_line max_size line rs in if stop then stopped rs else more
read_line max_size line (read_failed ∷ rs) = stopped rs
read_line max_size line (at_end ∷ rs) = end_of line rs

-- `while (line.len > 0 && (... '\n' || ... '\r')) line.len--`.
abbrev pub without_break : Bytes → Bytes
without_break line = reverse (skip_while is_break (reverse line))

abbrev pub or_null_id : Option Bytes → Bytes
or_null_id none = null_id
or_null_id (some id) = id

abbrev pub invalid_request_code : ℤ
invalid_request_code = negsuc 32599

abbrev pub too_large_code : ℤ
too_large_code = negsuc 32005

-- What was served, and then the rest of the connection.
abbrev pub with_output : {A : Type 0} → Bytes → Option (A × Bytes) → Option (A × Bytes)
with_output out none = none
with_output out (some r) = some (r.0, out ++ r.1)

abbrev pub and_served :
    {A : Type 0} → Option (A × Bytes) → (A → Option (A × Bytes)) → Option (A × Bytes)
and_served none next = none
and_served (some r) next = with_output r.1 (next r.0)

module _ (m : Machine) {E K : Type 0} (eng : Engine E K m.floats.Float) (kv : Provider K) where
  abbrev pub serve_parsed :
      (Bytes → Bytes → Bool)
      → Bool
      → Daemon E K m.floats.Float
      → ℕ
      → Option (Option Request)
      → Option (Daemon E K m.floats.Float × Bytes)
  serve_parsed delivers allocated ds now none =
      some (ds, send_error none invalid_request_code invalid_request)
  serve_parsed delivers allocated ds now (some none) =
      some (ds, send_error none invalid_request_code invalid_request)
  serve_parsed delivers allocated ds now (some (some req)) =
      dispatch_request m eng kv delivers allocated ds now
        (record req { id = some (or_null_id req.id) })

  -- A line without its break; an empty one is passed over.
  abbrev pub serve_text :
      (Bytes → Bytes → Bool)
      → Bool
      → Daemon E K m.floats.Float
      → ℕ
      → Bytes
      → Option (Daemon E K m.floats.Float × Bytes)
  serve_text delivers allocated ds now [] = some (ds, [])
  serve_text delivers allocated ds now (c ∷ line) =
      serve_parsed delivers allocated ds now (parse_request m.doubles (until_nul (c ∷ line)))

  unfoldable pub serve_line :
      (Bytes → Bytes → Bool)
      → Bool
      → Daemon E K m.floats.Float
      → ℕ
      → Bytes
      → Option (Daemon E K m.floats.Float × Bytes)
  serve_line delivers allocated ds now line =
      serve_text delivers allocated ds now (without_break line)

  -- What `read_line` returned decides whether the loop goes on.
  abbrev pub on_line :
      Daemon E K m.floats.Float
      → Line
      → (Bytes → List Read → Option (Daemon E K m.floats.Float × Bytes))
      → Option (Daemon E K m.floats.Float × Bytes)
  on_line ds (line_read line rs) next = next line rs
  on_line ds (no_line rs) next = some (ds, [])
  on_line ds (too_large rs) next = some (ds, send_error none too_large_code request_too_large)
  on_line ds (stopped rs) next = some (ds, [])
  on_line ds waiting next = some (ds, [])

  -- The loop, over as many lines as `rounds`; the clock is read in each.
  unfoldable pub handle_connection :
      (Bytes → Bytes → Bool)
      → (ℕ → Bool × ℕ)
      → ℕ
      → ℕ
      → Daemon E K m.floats.Float
      → List Read
      → Option (Daemon E K m.floats.Float × Bytes)
  unfolding serve_line read_line
  handle_connection delivers clock max_size zero ds rs = some (ds, [])
  handle_connection delivers clock max_size (suc rounds) ds rs =
      on_line ds (read_line max_size [] rs) λ line rest.
        and_served (serve_line delivers (clock rounds).0 ds (clock rounds).1 line)
          λ es. handle_connection delivers clock max_size rounds es rest
