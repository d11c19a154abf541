-- ===== src/Accepting.antt =====
-- network/network.go: the loops that receive messages and hand them to their clients.
pub mod Loop
pub mod Sync
pub mod Handed
pub mod Known
pub mod Delivered
pub mod Early
pub mod Udp
pub mod Packages
pub mod Forged
