-- ===== src/Reachability.antt =====
-- The package reachability: what the probe agents say of each node, compared with the checker.
pub mod Cells
pub mod Verdict
pub mod Matrix
pub mod Rows
pub mod Preference
mod Tests
