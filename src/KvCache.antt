-- ===== src/KvCache.antt =====
-- The KV cache providers of src/ds3_kv_cache.c.
pub mod Hash
pub mod Fallback
pub mod Local
pub mod Service
mod Tests
