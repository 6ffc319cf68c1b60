-- ===== src/PathManager.antt =====
-- internal/core/path_manager.go, with the search for configurations and the authentication that it
-- calls.
pub mod Conf
pub mod Auth
pub mod State
pub mod Reload
pub mod Handlers
mod Invariant
mod Closing
mod Creating
mod Reloading
mod Reloaded
mod Search
mod Upkeep
mod Running
mod Access
mod Reached
mod Staying
mod Replying
mod Examples
