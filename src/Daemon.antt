-- ===== src/Daemon.antt =====
-- tools/qwen3-engine-daemon.c: the requests, the sessions and the work queue of the resident daemon.
pub mod Buf
pub mod Json
pub mod Members
pub mod Request
pub mod Sessions
pub mod Queue
pub mod Texts
pub mod Prompt
pub mod Response
pub mod Handlers
pub mod Generate
pub mod Connection
mod Tests
