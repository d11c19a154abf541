-- ===== src/Joining.antt =====
-- network/network.go: joining the network, by peers and by proxy servers.
pub mod Connect
pub mod Reached
