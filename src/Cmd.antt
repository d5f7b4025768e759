-- ===== src/Cmd.antt =====
-- The two programs, of cmd/server/main.go and cmd/client/main.go.
pub mod SyncOps
pub mod Server
pub mod FileData
pub mod Session
pub mod Serve
pub mod Client
