-- ===== src/KvCache/Local/Reach.antt =====
-- The states that the local provider reaches: the invariant holds, and every read stays in its buffer.
-- An id of 64 bytes or more is cut when it is stored, and then never found.
use qw.Base.{
  ℕ, zero, suc, ◌+◌, ◌*◌, ◌≤◌, ◌<◌, Bool, true, false, List, Option, none, some, ltb, lt→ltb, ◌^◌,
  ◌∙◌, length, length-take, take, replicate, get_elem?, ◌≡◌, ◌≢◌, refl, ap, sym, arith, inl, inr,
}
use native.Mathlib.Decide.{dec_le}
use qw.Base.Int.{ℤ, pos, negsuc, add_int32}
use qw.Tokenizer.Table.{Bytes}
use qw.KvCache.Local.{
  Session, State, empty_slot, has_id, local_open, local_find_session, local_alloc_session,
  with_slot, new_session, local_create_session, local_close_session, local_reset_session,
  local_write, outside, failed, copied, bytes_from, read_found, local_read,
}
use qw.KvCache.Local.Slots.{first_slot_lem, has_id-eq}
use qw.KvCache.Local.Write.{found_at, sum_small, read_found-within}
use qw.KvCache.Local.Valid.{HasRoom, IsState, slot_of_set, slot_there}
use qw.KvCache.Local.Keeps.{
  unused_slot, create-IsState, reset_found-IsState, close_found-IsState, write_found-IsState,
}

-- The calls that change the state; the ids of new sessions have at most 63 bytes.
pub data Step : State → State → Type 0 where
  create :
      {st : State} (allocated : Bool) (id : Bytes)
      → length id ≤ 63
      → Step st (local_create_session allocated st id).0
  close : {st : State} (id : Bytes) → Step st (local_close_session st id).0
  reset : {st : State} (id : Bytes) → Step st (local_reset_session st id).0
  write :
      {st : State} (id : Bytes) (tokens : List ℤ) (kv : Bytes)
      → Step st (local_write st id tokens kv).0

-- The states that calls lead to, from a fresh provider on.
pub data Reach : State → Type 0 where
  opened : Reach local_open
  next : {st u : State} → Reach st → Step st u → Reach u

Step-IsState : {st u : State} → Step st u → IsState st → IsState u
unfolding local_create_session local_close_session local_reset_session local_write
Step-IsState (create {st} allocated id short) v =
    create-IsState v allocated id (local_find_session st id) short refl
Step-IsState (close {st} id) v = close_found-IsState v id (local_find_session st id) refl
Step-IsState (reset {st} id) v = reset_found-IsState v id (local_find_session st id) refl
Step-IsState (write {st} id tokens kv) v =
    write_found-IsState v id tokens kv (local_find_session st id) refl

empty_at : (n i : ℕ) {s : Session} → get_elem? (replicate n empty_slot) i ≡ some s → s.valid ≡ false
empty_at zero i h = cc
empty_at (suc n) zero {s} h = let e : empty_slot ≡ s = cc in ap (λ z. z.valid) (sym e)
empty_at (suc n) (suc i) h = empty_at n i h

local_open-IsState : IsState local_open
unfolding local_open
local_open-IsState = record {
  slots = refl;
  per_token = refl;
  room = λ i s at v. let bad = empty_at 16 i at in cc;
  found = λ i s at v. let bad = empty_at 16 i at in cc;
}

-- Whatever calls are made, with ids of at most 63 bytes for new sessions: there are 16 slots, the id of
-- each session in use finds that session, and its tokens and their bytes fit its buffers.
pub Reach-IsState : {st : State} → Reach st → IsState st
Reach-IsState opened = local_open-IsState
Reach-IsState (next r s) = Step-IsState s (Reach-IsState r)

read_found-inside :
    (per_token start n : ℕ) (i : ℕ) (s : Session)
    → per_token ≡ 98304
    → HasRoom 98304 s
    → start + n < 2 ^ 31
    → read_found per_token (pos start) (pos n) (some (i, s)) ≢ outside
read_found-inside per_token start n i s per room small bad = elim (dec_le (start + n) s.n_tokens) [
  | no out ↦
      let sum : add_int32 (pos start) (pos n) ≡ pos (start + n) = sum_small start n small in
      let over : ltb (s.n_tokens + 0) (start + n + 0) ≡ true =
        lt→ltb (s.n_tokens + 0) (start + n + 0) (omega arith) in
      let bad' : failed ≡ outside = rw (sum, over) at bad in cc
  | yes fits ↦
      let t = room.tokens in
      let b = room.bytes in
      let few = room.few in
      let good =
        read_found-within per_token start n i s small (rw per (omega arith)) (rw per (omega arith))
          fits (rw per (omega arith)) in
      let bad' : copied (bytes_from s.kv_data (start * per_token) (n * per_token)) ≡ outside =
        sym good ∙ bad in
      cc
]

-- In a state that calls lead to, no read of a position and a count that are not negative, with a sum
-- that is an `int`, copies from outside the bytes of its session.
pub local_read-inside :
    {st : State}
    → Reach st
    → (id : Bytes) (start n : ℕ) → start + n < 2 ^ 31
    → local_read st id (pos start) (pos n) ≢ outside
unfolding local_read
local_read-inside {st} r id start n small = go (local_find_session st id) refl
  where
    go :
        (o : Option (ℕ × Session))
        → local_find_session st id ≡ o
        → read_found st.per_token_kv_bytes (pos start) (pos n) o ≢ outside
    go none e bad = cc
    go (some (i, s)) e bad =
        let v = Reach-IsState r in
        let f = found_at st id e in
        let room = v.room i s f.at (has_id-eq id s f.ok).0 in
        read_found-inside st.per_token_kv_bytes start n i s v.per_token room small bad

-- An id that is longer than every id in use finds nothing.
long_id-none :
    (st : State) (id : Bytes)
    → ((i : ℕ) (s : Session)
        → get_elem? st.sessions i ≡ some s
        → s.valid ≡ true
        → length s.session_id < length id)
    → local_find_session st id ≡ none
unfolding local_find_session
long_id-none st id short = elim (first_slot_lem (has_id id) st.sessions 0) [
  | inl (missing, all) ↦ missing
  | inr (k, x, found, f) ↦
      let (v, same) = has_id-eq id x f.ok in
      let lt = short k x f.at v in let e = ap length same in absurd (omega arith)
]

create_long :
    (st : State) (id : Bytes) {i : ℕ} {s : Session}
    → local_find_session st id ≡ none
    → local_alloc_session st ≡ some (i, s)
    → local_create_session true st id ≡ (with_slot st i (new_session id), pos 0)
unfolding local_create_session
create_long st id missing free = rw (missing, free) refl

write_missing :
    (st : State) (id : Bytes) (tokens : List ℤ) (kv : Bytes)
    → local_find_session st id ≡ none
    → local_write st id tokens kv ≡ (st, negsuc 0)
unfolding local_write
write_missing st id tokens kv missing = rw missing refl

-- In a state that calls lead to, with an unused slot, creating a session under an id of 64 bytes or more
-- returns 0 and takes up the slot, but every write to that id then returns -1.
pub long_id-lost :
    {st : State}
    → Reach st
    → (id : Bytes) (i : ℕ) (s : Session) → 64 ≤ length id
    → local_alloc_session st ≡ some (i, s)
    → (u : State) × (local_create_session true st id ≡ (u, pos 0))
      × ((x : Session) × (get_elem? u.sessions i ≡ some x) × (x.valid ≡ true))
      × ((tokens : List ℤ) (kv : Bytes) → local_write u id tokens kv ≡ (u, negsuc 0))
long_id-lost {st} r id i s long free =
    let v = Reach-IsState r in
    let (at, unused) = unused_slot v free in
    let before : local_find_session st id ≡ none =
      long_id-none st id (λ j x h vx. let room = (v.room j x h vx).id in omega arith) in
    let cut : length (take 63 id) < length id = omega (arith, length-take 63 id) in
    let after : local_find_session (with_slot st i (new_session id)) id ≡ none =
      long_id-none (with_slot st i (new_session id)) id (λ j x h vx.
        elim (slot_of_set st.sessions i j (new_session id) at h) [
          | inl (e, is) ↦
              let e' : length x.session_id ≡ length (take 63 id) =
                ap (λ z. length z.session_id) is in
              omega arith
          | inr (ne, at') ↦ let room = (v.room j x at' vx).id in omega arith
        ]) in
    (
      with_slot st i (new_session id),
      create_long st id before free,
      (new_session id, slot_there st.sessions i (new_session id) at, refl),
      λ tokens kv. write_missing (with_slot st i (new_session id)) id tokens kv after,
    )
