-- ===== src/MediaPath/Replies.antt =====
-- internal/core/path.go: how often a request is answered. A request is known by its channel.
pub mod Parts
pub mod Handlers
pub mod Life
