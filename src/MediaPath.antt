-- ===== src/MediaPath.antt =====
-- internal/core/path.go: a path, the place where a source is published and read.
pub mod Conf
pub mod State
pub mod Step
pub mod Handlers
pub mod Run
pub mod Invariant
pub mod Safety
mod Closed
pub mod Life
pub mod Replies
pub mod Balance
pub mod Waiting
pub mod Limits
pub mod Ownership
mod Examples
