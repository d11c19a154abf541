-- ===== src/Peer.antt =====
-- peer/identity.go: the identity of a node, the XOR distance and its prefix length.
pub mod Identity
mod LeadingZeros
pub mod Distance
pub mod Metric
