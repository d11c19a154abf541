-- ===== src/Telling.antt =====
-- network/network.go and network/client.go: the calls that prepare a message and write it to peers.
pub mod Tell
pub mod Sync
pub mod Broadcasts
pub mod Reach
pub mod Shutdown
