-- ===== src/Diagnostics/Lemmas.antt =====
-- What holds of the sessions, and of the manager, whichever operations are called.
pub mod Counts
pub mod SessionOk
pub mod Find
pub mod Ids
pub mod Bound
pub mod Refusal
pub mod Found
pub mod Removal
pub mod Created
pub mod Evicted
pub mod Effect
pub mod Refused
pub mod Deletion
