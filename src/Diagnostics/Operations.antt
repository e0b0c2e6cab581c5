-- ===== src/Diagnostics/Operations.antt =====
-- diagnostics/manager.go: the operations of the session manager. Each expires what is due before it
-- looks at a session; on an error the state is otherwise as it was.
mod Creation
mod Registration
mod Transition
mod Acceptance
mod Ending
unfoldable pub use Creation.*
unfoldable pub use Registration.*
unfoldable pub use Transition.*
unfoldable pub use Acceptance.*
unfoldable pub use Ending.*
