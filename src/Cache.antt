-- ===== src/Cache.antt =====
-- The response cache (internal/cache).
pub mod Memory
mod Tests
