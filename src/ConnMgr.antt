-- ===== src/ConnMgr.antt =====
-- network/network.go and network/client.go: the connection manager and the life of its clients.
pub mod State
pub mod Operations
pub mod Sync
pub mod Calls
pub mod Lifecycle
pub mod Rekey
pub mod Writing
pub mod StreamWriting
pub mod History
pub mod Closing
