-- ===== src/Availability.antt =====
-- checker/checker.go and checker/failure.go: the availability of a node as the checker keeps it, with
-- the clocks of its outages and the reason of a failure. The probes themselves are inputs.
pub mod Failure
pub mod Status
pub mod Checker
pub mod Clocks
pub mod Since
pub mod Proven
mod Tests
