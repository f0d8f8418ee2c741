-- ===== src/Admission.antt =====
-- The leader's admission gate (internal/leader/admission.go, admission_classes.go).
pub mod Classes
pub mod Flows
pub mod Queues
pub mod Pool
pub mod Gate
pub mod Wait
mod Tests
