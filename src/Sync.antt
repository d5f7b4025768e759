-- ===== src/Sync.antt =====
-- The sync package: sync/state.go, sync/diff.go, sync/engine.go and sync/monitor.go.
pub mod State
pub mod Diff
pub mod Engine
pub mod OnDisk
pub mod Tombstones
pub mod Monitor
