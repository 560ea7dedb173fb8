-- ===== src/Tokenizer.antt =====
-- The byte-level BPE tokenizer of src/ds3_tokenizer.c, one module for each part of the file.
pub mod Table
pub mod Utf8
pub mod ByteLevel
pub mod Bpe
pub mod Segment
pub mod Encode
pub mod Names
pub mod Load
pub mod Chat
mod Tests
