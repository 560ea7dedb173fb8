-- ===== src/KvCache/Tests.antt =====
-- The theorems on src/ds3_kv_cache.c at concrete inputs.
use qw.Base.{◌^◌, ◌-◌, true, List, [], ◌∷◌, some, map, get_elem?, replicate, ◌≡◌, ◌≢◌, refl, arith}
use qw.Base.Int.{ℤ, pos, negsuc}
use qw.Tokenizer.Table.{Bytes, same_bytes}
use qw.KvCache.Hash.{Lanes, body, eights, four, ones, avalanche, xxh64, to_uint32, tokens_bytes}
use qw.KvCache.Service.{num_new_blocks, block_start, block_end}
use qw.KvCache.Hash.Bytes.{words, words-tokens_bytes}
use qw.KvCache.Local.{
  Session, State, empty_slot, local_open, local_find_session, local_alloc_session,
  local_create_session, local_lookup, outside, local_read, local_write,
}
use qw.KvCache.Local.Cache.{Common, local_lookup-Common}
use qw.KvCache.Local.Write.{Stored, local_write-Stored}
use qw.KvCache.Local.Valid.{IsState}
use qw.KvCache.Local.Reach.{
  create, Reach, opened, next, Reach-IsState, local_read-inside, long_id-lost,
}

-- The sum with a block size of 2 ^ 32 - 1 wraps, and a block of 2 ^ 31 tokens ends below 0.
wrapped_blocks :
    (num_new_blocks (pos 7) (2 ^ 32 - 1) ≡ pos 0)
    × (block_start (pos 3) (2 ^ 31) 0 ≡ pos 3)
    × (block_end (pos 3) (2 ^ 31) (pos 10) 0 ≡ negsuc 2147483644)
unfolding num_new_blocks block_start block_end
wrapped_blocks = (refl, refl, refl)

-- The published hash of no bytes under seed 0.
xxh64_empty : xxh64 [] 0 ≡ 17241709254077376921
unfolding xxh64 body eights four ones avalanche
xxh64_empty = refl

words-tokens_bytes_example :
    words (tokens_bytes (pos 258 ∷ negsuc 0 ∷ [])) ≡ map to_uint32 (pos 258 ∷ negsuc 0 ∷ [])
words-tokens_bytes_example = words-tokens_bytes (pos 258 ∷ negsuc 0 ∷ [])

abbrev zero_lanes : Lanes
zero_lanes = record { v1 = 0; v2 = 0; v3 = 0; v4 = 0 }

-- A session `a` with one token of two bytes, and room for four.
abbrev session_a : Session
session_a = record {
  session_id = 97 ∷ [];
  valid = true;
  tokens = λ i. pos 3;
  n_tokens = 1;
  capacity_tokens = 4;
  kv_data = λ i. 0;
  kv_capacity = 8;
}

abbrev one_session : State
one_session = record { sessions = session_a ∷ []; per_token_kv_bytes = 2 }

session_a_found : local_find_session one_session (97 ∷ []) ≡ some (0, session_a)
unfolding local_find_session same_bytes
session_a_found = refl

local_write-Stored_example :
    (u : State) × (local_write one_session (97 ∷ []) (pos 1 ∷ pos 2 ∷ []) (1 ∷ 2 ∷ 3 ∷ 4 ∷ [])
      ≡ (u, pos 0))
    × Stored one_session u (97 ∷ []) (pos 1 ∷ pos 2 ∷ []) (1 ∷ 2 ∷ 3 ∷ 4 ∷ [])
local_write-Stored_example =
    local_write-Stored one_session (97 ∷ []) (pos 1 ∷ pos 2 ∷ []) (1 ∷ 2 ∷ 3 ∷ 4 ∷ []) 0 session_a
      session_a_found (omega arith) (omega arith) (omega arith) (omega arith)

local_lookup-Common_example :
    Common
      (pos 3 ∷ pos 4 ∷ [])
      session_a.tokens
      1
      0
      (local_lookup one_session (97 ∷ []) (pos 3 ∷ pos 4 ∷ []))
local_lookup-Common_example =
    local_lookup-Common one_session (97 ∷ []) (pos 3 ∷ pos 4 ∷ []) 0 session_a session_a_found

after_create : Reach (local_create_session true local_open (97 ∷ [])).0
after_create = next opened (create true (97 ∷ []) (omega arith))

Reach-IsState_example : IsState (local_create_session true local_open (97 ∷ [])).0
Reach-IsState_example = Reach-IsState after_create

local_read-inside_example :
    local_read (local_create_session true local_open (97 ∷ [])).0 (97 ∷ []) (pos 0) (pos 1)
    ≢ outside
local_read-inside_example = local_read-inside after_create (97 ∷ []) 0 1 (omega arith)

free_slot : local_alloc_session local_open ≡ some (0, empty_slot)
unfolding local_alloc_session local_open
free_slot = refl

long_id-lost_example :
    (u : State) × (local_create_session true local_open (replicate 64 97) ≡ (u, pos 0))
    × ((x : Session) × (get_elem? u.sessions 0 ≡ some x) × (x.valid ≡ true))
    × ((tokens : List ℤ) (kv : Bytes) → local_write u (replicate 64 97) tokens kv ≡ (u, negsuc 0))
long_id-lost_example = long_id-lost opened (replicate 64 97) 0 empty_slot (omega arith) free_slot
