-- ===== src/Router.antt =====
-- Who serves a request: workers, gangs and fallbacks (internal/router).
pub mod Cooldown
pub mod Latency
pub mod Candidates
pub mod Pick
pub mod Gangs
pub mod Fallback
mod Tests
