-- ===== src/Daemon/Tests.antt =====
-- The theorems on tools/qwen3-engine-daemon.c at concrete inputs: a daemon over the local KV provider, with
-- an engine that echoes, and numbers in place of the floats.
use qw.Base.{
  ℕ, zero, suc, ◌+◌, ◌-◌, ◌≤◌, ◌<◌, Bool, true, false, ◌&&◌, List, [], ◌∷◌, ◌++◌, Option, none,
  some, ltb, leb, ◌==◌, if◌then◌else◌, map, length, get_elem?, ◌≡◌, refl, ap, ◌∙◌, sym, arith,
}
use qw.Base.Int.{ℤ, pos, negsuc}
use qw.Tokenizer.Table.{Bytes, same_bytes}
use mathlib.Core.Path.{subst}
use qw.Tokenizer.Encode.{match_at}
use qw.KvCache.Local.{local_open, local_create_session, local_close_session, local_reset_session}
use qw.KvCache.Local
use qw.Daemon.Buf.{Buf, buf_append, IsBuf, buf_append-IsBuf}
use qw.Daemon.Connection.{got_bytes, line_read, has_break, read_line}
use qw.Daemon.Connection.Lines.{read_line-joined, Sent}
use qw.Daemon.Json.{json_string}
use qw.Daemon.Json.Escape.{json_escape_to_buf, json_string-json_escape_to_buf}
use qw.Daemon.Json.Skip.{Doubles, json_skip_value}
use qw.Daemon.Json.Skip.Ends.{Done, json_skip_value-Done}
use qw.Daemon.Request.{Request, params_get_string}
use qw.Daemon.Request.Lookup.{object_text, first_value, params_get_string-object_text}
use qw.Daemon.Sessions.{
  Floats, Session, Provider, Daemon, session_create, session_close, make_room, new_session, reap,
}
use qw.Daemon.Sessions.Valid.{IsDaemon}
use qw.Daemon.Sessions.Evict.{Evicts, make_room-Evicts}
use qw.Daemon.Sessions.View.{view, updated, view-session_create, view-session_close}
use qw.Daemon.Sessions.Reaped.{Reaped, reap-Reaped}
use qw.Daemon.Queue.{Queue, enqueue_work}
use qw.Daemon.Queue.Fifo.{Represents, turns, turns-enqueue_work}
use qw.Daemon.Prompt.{strip_think_blocks}
use qw.Daemon.Prompt.Strip.{strip_think_blocks-answer}
use qw.Daemon.Handlers.{Machine, tokens_of, Engine}
use qw.Daemon.Generate.{dispatch_request}
use qw.Daemon.Generate.Lines.{Answered, dispatch_request-Answered}
use qw.Daemon.Generate.Keep.{KeepsIfAnswered, dispatch_request-Keeps}
use qw.Daemon.Texts.{think_end_tag, create_session_method, session_id_key}

-- A double is a digit, or a number.
digit_at : Bytes → Option (ℕ × Bytes)
digit_at [] = none
digit_at (c ∷ r) = if leb 48 c && leb c 57 then some (c - 48, r) else none

digit_at-shorter : (p : Bytes) (v : ℕ) (r : Bytes) → digit_at p ≡ some (v, r) → length r < length p
unfolding digit_at
digit_at-shorter [] v r e = let bad : none ≡ some (v, r) = e in cc
digit_at-shorter (c ∷ q) v r e = by_test (leb 48 c && leb c 57) e
  where
    second : Option (ℕ × Bytes) → Bytes
    second none = []
    second (some x) = x.1

    taken : Bool → Option (ℕ × Bytes)
    taken b = if b then some (c - 48, q) else none

    by_test : (b : Bool) → taken b ≡ some (v, r) → length r < suc (length q)
    by_test true e = let same : q ≡ r = ap second e in omega (arith, ap length same)
    by_test false e = let bad : none ≡ some (v, r) = e in cc

abbrev digits_only : Doubles
digits_only = record {
  Double = ℕ;
  strtod = digit_at;
  strtod-shorter = digit_at-shorter;
  is_negative = λ v. false;
  exceeds_int_max = λ v. ltb 2147483647 v;
  truncated = λ v. v;
  printed = λ v. (48 + v) ∷ [];
}

abbrev number_floats : Floats
number_floats = record { Float = ℕ; is_positive = λ v. ltb 0 v; point_seven = 7 }

abbrev machine : Machine
machine = record {
  doubles = digits_only;
  floats = number_floats;
  to_float = λ v. v;
  not_negative = λ v. ltb 0 v;
  minus_one = 0;
  stamp = λ now. [];
  stamp_line = λ now. tt;
}

abbrev local_kv : Provider Local.State
local_kv = record {
  create_session = λ st id. (local_create_session true st id).0;
  close_session = λ st id. (local_close_session st id).0;
  reset_session = λ st id. (local_reset_session st id).0;
}

abbrev as_byte : ℤ → ℕ
as_byte (pos n) = n
as_byte (negsuc n) = 0

abbrev echo : Engine ℕ Local.State ℕ
echo = record {
  ds3_engine_open = λ path n_ctx. some n_ctx;
  vocab_size = λ e. 256;
  tokenize = λ e text n. some (map (λ c. pos c) text);
  generate = λ e k id prompt max_gen temp. (e, k, prompt, tokens_of prompt);
  decode = λ e ts. map as_byte ts;
  cached_prefix_len = λ e. 0;
  new_cached_prefix_len = λ e. 0;
}

abbrev session_a : Session ℕ
session_a = record (new_session number_floats 3 64 (b'a' ∷ []) none 1 0) {
  provider_session_created = true;
}

abbrev session_b : Session ℕ
session_b = new_session number_floats 9 64 (b'b' ∷ []) none 1 5

abbrev daemon_of : List (Session ℕ) → ℕ → Daemon ℕ Local.State ℕ
daemon_of ss max_sessions = record {
  engine = some 64;
  kv_provider = some local_open;
  sessions = ss;
  session_capacity = 8;
  n_ctx = 64;
  total_generated = 0;
  total_prompt_tokens = 0;
  max_sessions = max_sessions;
  session_timeout = 60;
  gpu_layers = 48;
  started_at = 0;
}

only_first :
    {A : Type 0} (x : A) (i : ℕ) {a : A} → get_elem? (x ∷ []) i ≡ some a → (i ≡ 0) × (x ≡ a)
only_first x zero e = (refl, cc)
only_first x (suc i) e = cc

one-IsDaemon : IsDaemon (daemon_of (session_a ∷ []) 2)
one-IsDaemon = record {
  distinct = λ i j a b ai bj same.
      let p = only_first session_a i ai in let q = only_first session_a j bj in p.0 ∙ sym q.0;
  fit = λ i s at.
      let p = only_first session_a i at in
      subst (λ x. (length x.messages ≤ x.msg_capacity) × (0 < x.msg_capacity)) p.1
        ((omega arith), (omega arith));
  in_array = omega arith;
  in_limit = λ l. omega arith;
}

abbrev create_request : Request
create_request = record {
  method = some create_session_method;
  id = some (b'1' ∷ []);
  params = some (object_text ((session_id_key, b'c' ∷ []) ∷ []));
}

dispatch_request-Keeps_example : KeepsIfAnswered (
    dispatch_request machine echo local_kv
      (λ a b. true)
      true
      (daemon_of (session_a ∷ []) 2)
      9
      create_request)
dispatch_request-Keeps_example =
    dispatch_request-Keeps machine echo local_kv (λ a b. true) true (daemon_of (session_a ∷ []) 2) 9
      create_request one-IsDaemon

dispatch_request-Answered_example : Answered (
    dispatch_request machine echo local_kv
      (λ a b. true)
      true
      (daemon_of (session_a ∷ []) 2)
      9
      create_request)
unfolding same_bytes
dispatch_request-Answered_example =
    dispatch_request-Answered machine echo local_kv (λ a b. true) true
      (daemon_of (session_a ∷ []) 2) 9 create_request
      (object_text ((session_id_key, b'c' ∷ []) ∷ [])) refl (λ e. cc)

view-session_create_example :
    view
      (session_create local_kv true
        (daemon_of (session_a ∷ []) 2)
        (b'b' ∷ [])
        (λ n. session_b)).0.sessions
      (b'b' ∷ [])
    ≡ updated (b'b' ∷ []) (some session_b) (view (session_a ∷ [])) (b'b' ∷ [])
view-session_create_example =
    view-session_create local_kv true (daemon_of (session_a ∷ []) 2) (b'b' ∷ []) (b'b' ∷ [])
      (λ n. session_b) one-IsDaemon refl (λ n. (refl, ((omega arith), (omega arith))))

view-session_close_example :
    view (session_close local_kv (daemon_of (session_a ∷ []) 2) (b'a' ∷ [])).sessions (b'a' ∷ [])
    ≡ updated (b'a' ∷ []) none (view (session_a ∷ [])) (b'a' ∷ [])
view-session_close_example =
    view-session_close local_kv (daemon_of (session_a ∷ []) 2) (b'a' ∷ []) (b'a' ∷ []) one-IsDaemon

make_room-Evicts_example :
    Evicts local_kv
      (daemon_of (session_a ∷ session_b ∷ []) 2)
      (make_room local_kv (daemon_of (session_a ∷ session_b ∷ []) 2))
make_room-Evicts_example =
    make_room-Evicts local_kv (daemon_of (session_a ∷ session_b ∷ []) 2) (omega arith) (omega arith)

-- At time 100, the session that was used at time 3 is idle.
reap-Reaped_example :
    Reaped 100 60 (daemon_of (session_a ∷ []) 2) (reap local_kv 100 (daemon_of (session_a ∷ []) 2))
reap-Reaped_example =
    reap-Reaped local_kv 100 (daemon_of (session_a ∷ []) 2) one-IsDaemon (omega arith)

-- Connection 7 waits, at address 1.
abbrev one_waiting : Queue
one_waiting = record {
  store = λ x. if x == 1 then some (record { fd = 7; next = none }) else none;
  work_head = some 1;
  work_tail = some 1;
  work_count = 1;
  max_work_queue = 4;
}

one_waiting-Represents : Represents one_waiting ((1, 7) ∷ [])
one_waiting-Represents = record {
  linked = (refl, (none, refl, refl));
  apart = (tt, tt);
  tail = refl;
  count = refl;
}

turns-enqueue_work_example : turns 2 (enqueue_work one_waiting 9 (some 2)).0 ≡ 7 ∷ 9 ∷ []
turns-enqueue_work_example =
    turns-enqueue_work one_waiting ((1, 7) ∷ []) 9 2 one_waiting-Represents
      (refl, ((omega arith), tt)) refl

-- `{"a":"\n"}`, with the line break escaped.
params_get_string-object_text_example :
    params_get_string digits_only (object_text ((b'a' ∷ [], 10 ∷ []) ∷ [])) (b'a' ∷ [])
    ≡ some (10 ∷ [])
unfolding first_value same_bytes
params_get_string-object_text_example =
    params_get_string-object_text digits_only ((b'a' ∷ [], 10 ∷ []) ∷ []) (b'a' ∷ [])
      ((((omega arith, omega arith), tt), ((omega arith, omega arith), tt)), tt)

json_string-json_escape_to_buf_example :
    json_string (b'"' ∷ json_escape_to_buf (1 ∷ b'"' ∷ []) ++ (b'"' ∷ b'}' ∷ []))
    ≡ (some (1 ∷ b'"' ∷ []), b'}' ∷ [])
json_string-json_escape_to_buf_example =
    json_string-json_escape_to_buf (1 ∷ b'"' ∷ []) (b'}' ∷ [])
      ((omega arith, omega arith), ((omega arith, omega arith), tt))

json_skip_value-Done_example : Done 3 (json_skip_value digits_only (b'[' ∷ b'1' ∷ b']' ∷ []))
json_skip_value-Done_example = json_skip_value-Done digits_only (b'[' ∷ b'1' ∷ b']' ∷ [])

only_at_one :
    (k : ℕ)
    → k < 1
    → match_at (b'x' ∷ (think_end_tag ++ (b'\n' ∷ b' ' ∷ b'y' ∷ []))) k think_end_tag ≡ false
unfolding same_bytes
only_at_one zero h = refl
only_at_one (suc k) h = absurd (omega arith)

-- `x</think>`, a line break, a blank and `y`.
strip_think_blocks-answer_example :
    strip_think_blocks (b'x' ∷ (think_end_tag ++ (b'\n' ∷ b' ' ∷ b'y' ∷ []))) ≡ b'y' ∷ []
unfolding same_bytes
strip_think_blocks-answer_example =
    strip_think_blocks-answer (b'x' ∷ []) (b'\n' ∷ []) (b' ' ∷ []) (b'y' ∷ []) only_at_one
      (refl, tt) (refl, tt) refl refl

abbrev empty_buf : Buf
empty_buf = record { text = []; cap = 0 }

-- Two bytes into a buffer that has none.
buf_append-IsBuf_example :
    (c : Buf) × (buf_append empty_buf (b'a' ∷ b'b' ∷ []) ≡ some c)
    × (c.text ≡ b'a' ∷ b'b' ∷ [])
    × IsBuf c
buf_append-IsBuf_example = buf_append-IsBuf empty_buf (b'a' ∷ b'b' ∷ []) (omega arith) (omega arith)

-- A request in two reads, the second with a line break.
read_line-joined_example :
    read_line 16 [] (got_bytes (b'{' ∷ []) ∷ got_bytes (b'}' ∷ b'\n' ∷ []) ∷ [])
    ≡ line_read (b'{' ∷ b'}' ∷ b'\n' ∷ []) []
unfolding has_break
read_line-joined_example =
    read_line-joined 16 ((b'{' ∷ []) ∷ []) (b'}' ∷ b'\n' ∷ []) [] (refl, tt) refl (omega arith)

open_brace-unbroken : has_break (b'{' ∷ []) ≡ false
unfolding has_break
open_brace-unbroken = refl

close_brace-broken : has_break (b'}' ∷ b'\n' ∷ []) ≡ true
unfolding has_break
close_brace-broken = refl

-- An object without a method, in two reads.
abbrev braces : Sent 16
braces = record {
  reads = (b'{' ∷ []) ∷ [];
  last = b'}' ∷ b'\n' ∷ [];
  front = b'{' ∷ [];
  final = b'}';
  whole = refl;
  unbroken = (open_brace-unbroken, tt);
  broken = close_brace-broken;
  fits = omega arith;
  chars = ((omega arith, omega arith), ((omega arith, omega arith), tt));
  no_break = refl;
}
