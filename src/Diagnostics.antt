-- ===== src/Diagnostics.antt =====
-- The diagnostic sessions of the package diagnostics: the schema, the validation of requests and
-- observations, the state of one session, the session manager, and the verdicts.
pub mod Types
pub mod Check
pub mod Validate
pub mod Admission
pub mod Session
pub mod Verdict
pub mod Manager
pub mod Capacity
pub mod Operations
pub mod Lemmas
pub mod Calls
pub mod Lifecycle
pub mod Signature
mod Tests
