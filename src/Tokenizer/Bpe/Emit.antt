-- ===== src/Tokenizer/Bpe/Emit.antt =====
-- The tokens that the emission of `bpe_encode_piece` pushes, where every lookup returns.
use qw.Base.{List, [], ◌∷◌, ◌++◌, Option, none, some, ◌>>=◌, ◌≡◌, refl}
use qw.Base.Int.{ℤ}
use qw.Tokenizer.Table.{Bytes}
use qw.Tokenizer.Bpe.{pushed, symbol_or_bytes, emit_bytes, emit_symbol, emit}

-- The ids of the bytes that are tokens.
unfoldable pub byte_ids : (Bytes → Option ℤ) → Bytes → List ℤ
byte_ids id [] = []
byte_ids id (b ∷ bs) = pushed (id (b ∷ [])) (byte_ids id bs)

abbrev pub one_id : Option ℤ → List ℤ → List ℤ
one_id none by_bytes = by_bytes
one_id (some t) by_bytes = t ∷ []

-- The id of each symbol, or of its bytes where the symbol is no token.
unfoldable pub symbol_ids : (Bytes → Option ℤ) → List Bytes → List ℤ
unfolding byte_ids
symbol_ids id [] = []
symbol_ids id (s ∷ ss) = one_id (id s) (byte_ids id s) ++ symbol_ids id ss

module _ {look : Bytes → Option (Option ℤ)} {id : Bytes → Option ℤ}
    (returns : (key : Bytes) → look key ≡ some (id key)) where
  emit_bytes_run : (s : Bytes) → emit_bytes look s ≡ some (byte_ids id s)
  unfolding emit_bytes byte_ids
  emit_bytes_run [] = refl
  emit_bytes_run (b ∷ bs) = rw (returns (b ∷ []), ◌>>=◌, emit_bytes_run bs, ◌>>=◌) refl

  chosen : (o : Option ℤ) (ids : List ℤ) → symbol_or_bytes o (some ids) ≡ some (one_id o ids)
  chosen none ids = refl
  chosen (some t) ids = refl

  emit_symbol_run : (s : Bytes) → emit_symbol look s ≡ some (one_id (id s) (byte_ids id s))
  unfolding emit_symbol
  emit_symbol_run s = rw (returns s, ◌>>=◌, emit_bytes_run s) (chosen (id s) (byte_ids id s))

  pub emit_run : (ss : List Bytes) → emit look ss ≡ some (symbol_ids id ss)
  unfolding emit symbol_ids
  emit_run [] = refl
  emit_run (s ∷ ss) = rw (emit_symbol_run s, ◌>>=◌, emit_run ss, ◌>>=◌) refl
