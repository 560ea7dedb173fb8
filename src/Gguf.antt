-- ===== src/Gguf.antt =====
-- The GGUF v3 parser of src/ds3_gguf.c and src/ds3_gguf.h, one module for each part of the file.
pub mod Cursor
pub mod Value
pub mod Open
pub mod Lookup
pub mod Bounds
pub mod Strings
pub mod Layout
mod Tests
