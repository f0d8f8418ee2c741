-- ===== src/Store.antt =====
-- What the leader reads of its store (internal/store).
pub mod Live
mod Tests
