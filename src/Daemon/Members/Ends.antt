-- ===== src/Daemon/Members/Ends.antt =====
-- The loop over the members of an object ends, if what is done with each of them ends.
use qw.Base.{ℕ, zero, suc, ◌≤◌, ◌<◌, ◌==◌, true, false, [], ◌∷◌, none, some, length, refl, arith}
use qw.Tokenizer.Table.{Bytes}
use qw.Daemon.Json.{Scan, json_ws, json_string}
use qw.Daemon.Json.Skip.{Separator, closed, comma, neither, separator_of, next_byte, Skip}
use qw.Daemon.Json.Skip.Ends.{
  Leaves, json_string-Leaves, length-json_ws, length-next_byte, Done, behind, no_value,
}
use qw.Daemon.Members.{
  Walk, onward, returned, failed, colon, keyed, behind_member, and_member, unless_closed, members,
  and_skipped, opened,
}

-- The walk ends, and where it goes on fewer than `n` bytes are left.
pub data Halts {S : Type 0} (n : ℕ) : Walk S → Type 0 where
  goes : (s : S) (r : Bytes) → length r < n → Halts n (onward s r)
  leaves : (s : S) (r : Bytes) → Halts n (returned s r)
  fails : Halts n failed

pub Halts-le : {S : Type 0} {n m : ℕ} {w : Walk S} → n ≤ m → Halts n w → Halts m w
Halts-le le (goes s r h) = goes s r (omega arith)
Halts-le le (leaves s r) = leaves s r
Halts-le le fails = fails

Halts-colon :
    {S : Type 0} (n : ℕ) (p : Bytes) (next : Bytes → Walk S)
    → ((r : Bytes) → length r < length p → Halts n (next r))
    → Halts n (colon p next)
Halts-colon n [] next h = fails
Halts-colon n (c ∷ r) next h =
    elim (c == b':') as (λ b. Halts n (elim b [ true ↦ next r | false ↦ failed ])) [
      | true ↦ h r (omega arith)
      | false ↦ fails
    ]

Halts-keyed :
    {S : Type 0} (n m : ℕ) (x : Scan Bytes) (act : Bytes → Bytes → Walk S)
    → Leaves n x
    → ((key r : Bytes) → length r < n → Halts m (act key r))
    → Halts m (keyed x act)
Halts-keyed n m (none, r) act h g = fails
Halts-keyed n m (some key, r) act h g =
    Halts-colon m (json_ws r) (act key)
      λ q lt. let a = h key refl in let b = length-json_ws r in g key q (omega arith)

Halts-behind :
    {S : Type 0} (n : ℕ) (x : Separator) (s : S) (r : Bytes) (next : Bytes → Walk S)
    → length r < n
    → Halts n (next r)
    → Halts n (behind_member x s r next)
Halts-behind n closed s r next le h = goes s r le
Halts-behind n comma s r next le h = h
Halts-behind n neither s r next le h = fails

Halts-and_member :
    {S : Type 0} (n : ℕ) {w : Walk S} (next : S → Bytes → Walk S)
    → Halts n w
    → ((s : S) (r : Bytes) → length r < n → Halts n (next s r))
    → Halts n (and_member w next)
Halts-and_member n next (goes s r le) h =
    let a = length-json_ws r in
    let b = length-next_byte (json_ws r) in
    Halts-behind n (separator_of b'}' (json_ws r)) s (next_byte (json_ws r)) (next s) (omega arith)
      (h s (next_byte (json_ws r)) (omega arith))
Halts-and_member n next (leaves s r) h = leaves s r
Halts-and_member n next fails h = fails

Halts-unless_closed :
    {S : Type 0} (n : ℕ) (x : Separator) {stop member : Walk S}
    → Halts n stop
    → Halts n member
    → Halts n (unless_closed x stop member)
Halts-unless_closed n closed a b = a
Halts-unless_closed n comma a b = b
Halts-unless_closed n neither a b = b

-- What is done with a member ends and moves the pointer on or leaves it.
abbrev pub Acts : {S : Type 0} → (S → Bytes → Bytes → Walk S) → Type 0
Acts {S} act = (s : S) (key r : Bytes) → Halts (suc (length r)) (act s key r)

pub not_below : (n : ℕ) → n < 0 → ⊥
not_below n h = omega arith

members-Halts :
    {S : Type 0} (act : S → Bytes → Bytes → Walk S) (fuel : ℕ) (s : S) (p : Bytes)
    → Acts act
    → length p < fuel
    → Halts (suc (length p)) (members act fuel s p)
unfolding members
members-Halts act zero s p acts h = elim (not_below (length p) h) [ ]
members-Halts act (suc fuel) s p acts h =
    let a = length-json_ws p in
    let b = length-next_byte (json_ws p) in
    Halts-unless_closed (suc (length p)) (separator_of b'}' (json_ws p))
      (goes s (next_byte (json_ws p)) (omega arith))
      (Halts-le (omega arith) (
        Halts-and_member (length p) (λ t r. members act fuel t r)
          (Halts-keyed (length (json_ws p)) (length p) (json_string (json_ws p)) (act s)
            (json_string-Leaves (json_ws p)) (λ key q lt. Halts-le (omega arith) (acts s key q)))
          (λ t r lt. Halts-le (omega arith) (members-Halts act fuel t r acts (omega arith)))))

pub opened-Halts :
    {S : Type 0} (act : S → Bytes → Bytes → Walk S) (s : S) (p : Bytes)
    → Acts act
    → Halts (length p) (opened act s p)
opened-Halts act s [] acts = fails
opened-Halts act s (c ∷ r) acts =
    elim (c == b'{')
      as (λ b.
        Halts (suc (length r))
          (elim b [ true ↦ members act (suc (length r)) s r | false ↦ failed ])) [
            | true ↦ members-Halts act (suc (length r)) s r acts (omega arith)
            | false ↦ fails
          ]

pub Halts-and_skipped :
    {S : Type 0} {n m : ℕ} {x : Skip} (next : Bytes → Walk S)
    → Done n x
    → ((r : Bytes) → length r < n → Halts m (next r))
    → Halts m (and_skipped x next)
Halts-and_skipped next (behind r lt) h = h r lt
Halts-and_skipped next no_value h = fails
