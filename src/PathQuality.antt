-- ===== src/PathQuality.antt =====
-- pathquality/report.go: the view of when the path to each node is bad, from the history of its
-- measurements.
pub mod Measurement
pub mod Report
pub mod Counts
pub mod Fleet
pub mod Worst
pub mod Rank
mod Tests
