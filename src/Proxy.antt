-- ===== src/Proxy.antt =====
-- network/network.go and network/components/proxy: the proxy servers that a node works with.
pub mod Servers
pub mod Connecting
pub mod RoundRobin
