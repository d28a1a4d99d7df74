-- ===== src/Runtime.antt =====
-- app/runtime: the caches of a loaded model, and the tool calls of a reply.
pub mod KvCache
pub mod Held
pub mod Dropped
pub mod Hybrid
pub mod Slot
pub mod Sound
pub mod Cut
pub mod Match
pub mod Pool
pub mod Acquire
pub mod Reply
pub mod Everywhere
pub mod Choice
pub mod Taking
pub mod Serving
pub mod Eviction
pub mod Busy
pub mod Undisturbed
pub mod Gap
pub mod Scanner
pub mod Whole
pub mod Tests
