-- ===== src/Lib.antt =====
-- The tokenizer, the GGUF parser, the in-process KV cache and the daemon of the qw3 inference engine.
--
-- The program reads a model from a GGUF file (src/ds3_gguf.c), builds a vocabulary from its metadata and
-- encodes and decodes text with it (src/ds3_tokenizer.c), and keeps the KV cache of its sessions in a
-- provider (src/ds3_kv_cache.c). The daemon (tools/qwen3-engine-daemon.c) serves requests of one JSON
-- object a line: it keeps conversations as sessions, builds their prompts and asks the engine for answers.
--
-- Base: shared names, Boolean tests on the native numbers, lists, bit operations, signed integers.
-- Tokenizer.Table: `ds3_str_i32_table_t`, `hash_bytes`, `next_pow2`, `table_init`, `table_put`, `table_get`
--   and the loops of `ds3_vocab_load` that fill a table; Probe, Write, Laws and Build prove that a table
--   is a map, and Answers that every lookup in a valid table with a free entry returns. A lookup that does
--   not return is `none`, and so is every call that makes it.
-- Tokenizer.Utf8: the UTF-8 functions and the character classes.
-- Tokenizer.ByteLevel: `init_byte_tables`, `byte_encode`, `byte_decode`.
-- Tokenizer.Bpe: `bpe_rank` and `bpe_encode_piece`: splitting, merging and emitting.
-- Tokenizer.Segment: `match_contraction` and `bpe_tokenize_segment`; a round of the loop is `round`.
-- Tokenizer.Encode: `ds3_vocab_encode`, `ds3_vocab_decode`, `ds3_vocab_decode_sequence`.
-- Tokenizer.Names, Load and Chat: the special tokens, `ds3_vocab_load`, `ds3_chat_format`.
-- Gguf.Cursor, Value, Open, Lookup: the reads, the metadata values, `ds3_gguf_open` and the lookups.
--   Bounds, Strings, Layout and Lookup.First are about them.
-- KvCache.Hash, Fallback, Local: `xxh64` and `service_token_hash`, the fallback and the local provider.
--   Slots, Cache, Write, Valid, Keeps and Reach are about the local one.
-- KvCache.Service: of the service provider, the session cache and the blocks that `service_write` makes.
--
-- Daemon.Json, Members, Request: the JSON scanner, `json_escape_to_buf`, the loop over members, and
--   `parse_request`, `params_get_*`, `parse_message_array`. Json.Skip.Ends, Members.Ends, Request.Ends and
--   Request.Lookup are about them.
-- Daemon.Sessions: the array of sessions, `session_create` with its eviction, `session_close`, the reaper;
--   Valid is the invariant, View the map that the array implements, Evict and Reaped the rest.
-- Daemon.Queue: `enqueue_work` and what a worker takes, over a store of items; Fifo is about them.
-- Daemon.Texts, Prompt, Response: the constant texts, the chat prompt, `strip_think_blocks`,
--   `extract_tool_calls_json`, and `send_response`.
-- Daemon.Handlers, Generate: the handlers, `generate_for_session` and `dispatch_request`, over interfaces
--   for the engine, the KV provider (which the local provider implements) and the floats.
-- Daemon.Buf, Connection: `buf_reserve` and `buf_append`; `read_line` and `handle_connection`.
--
-- State is passed explicitly: an operation takes the record and returns the new one. A string or buffer
-- is the list of its bytes, or a function from an index where its capacity matters. Unsigned sums and
-- products wrap by `% 2 ^ w`; `int` values are a ℤ. NULL and -1 are values of the result. A pointer into
-- the mapped file is its address, and a read outside the mapping is a result of its own.
--
-- Loops that are not over a list take fuel. `next_pow2` has 33 rounds, which reach every power of two of a
-- uint32_t. The probing loop has as many rounds as the table has slots. The loops over a text have one
-- round more than there are bytes, and those over symbols one more than there are symbols. Skipping a JSON
-- value has two rounds for each byte and two more, and the loop over the members one more than bytes. A
-- buffer doubles in 65 rounds, which reach the end of a size_t from a capacity of 1 on.
--
-- Not modelled: the engine, its Metal kernels and floating-point reference, the command line, the sockets,
-- threads, polls and options of the daemon, the messages and the shared memory of the KV cache's service
-- provider, freeing memory, printing, and the failure of an allocation unless the code goes on after it.
-- The tokenizer's `calloc`, `malloc` and `strdup` succeed, and so do those of the daemon's generation.
pub mod Base
pub mod Tokenizer
pub mod Gguf
pub mod KvCache
pub mod Daemon
