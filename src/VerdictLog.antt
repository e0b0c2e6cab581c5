-- ===== src/VerdictLog.antt =====
-- The package verdictlog: the journal of the verdicts of agent diagnostics.
pub mod Journal
mod Tests
