-- ===== src/Prefix.antt =====
-- What the workers' caches hold, as they report it (internal/leader).
pub mod Index
mod Tests
