-- ===== src/Operations.antt =====
-- internal/tools/operations: the tools that write. Each handler is the whole body of the closure that
-- the Go function returns; `p` is the toolkit's policy.
pub mod Scale
pub mod Undo
pub mod Meta
pub mod Resources
pub mod Manifest
pub mod Delete
pub mod Nodes
pub mod Safety
pub mod Calls
mod Tests
