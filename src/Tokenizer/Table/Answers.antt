-- ===== src/Tokenizer/Table/Answers.antt =====
-- The tables in which every lookup returns: the valid ones with a free entry.
use qw.Base.{◌<◌, Option, none, some, ◌≡◌, ◌≢◌, refl}
use qw.Base.Int.{ℤ}
use qw.Tokenizer.Table.{
  Bytes, Table, Stop, hit, free, fault, spin, locate, Answer, found, absent, stuck, answer,
  to_lookup, table_get, table_find,
}
use qw.Tokenizer.Table.Laws.{IsTable, locate-ends, table_get-answer}

-- No lookup is stuck.
abbrev pub Answers : Table → Type 0
Answers t = (key : Bytes) → table_get t key ≢ stuck

-- A valid table with a free entry answers every key: the probing loop ends inside the array.
pub IsTable-Answers : {t : Table} → IsTable t → t.used < t.cap → Answers t
IsTable-Answers {t} valid room key e =
    go (locate t key) (locate-ends valid room key).0 (locate-ends valid room key).1
      (let e' : answer (locate t key) ≡ stuck = cc (e, table_get-answer valid key) in e')
  where
    go : (s : Stop) → s ≢ fault → s ≢ spin → answer s ≡ stuck → ⊥
    go (hit i e) f g h = let bad : found e.value ≡ stuck = h in cc
    go (free i) f g h = let bad : absent ≡ stuck = h in cc
    go fault f g h = f refl
    go spin f g h = g refl

abbrev pub value_of : Answer → Option ℤ
value_of (found v) = some v
value_of absent = none
value_of stuck = none

to_lookup-value : (a : Answer) → a ≢ stuck → to_lookup a ≡ some (value_of a)
to_lookup-value (found v) h = refl
to_lookup-value absent h = refl
to_lookup-value stuck h = absurd (h refl)

pub table_find-value :
    (t : Table) → Answers t → (key : Bytes) → table_find t key ≡ some (value_of (table_get t key))
table_find-value t h key = to_lookup-value (table_get t key) (h key)
