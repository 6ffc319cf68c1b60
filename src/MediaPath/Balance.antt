-- ===== src/MediaPath/Balance.antt =====
-- internal/core/path.go: whatever a path opens, it closes.
pub mod Ledger
pub mod Handlers
pub mod Life
