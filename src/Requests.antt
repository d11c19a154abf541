-- ===== src/Requests.antt =====
-- network/client.go and network/network.go: requests and their replies, messages that wait for an
-- acknowledgement, and the preparation of what is sent.
pub mod Prepare
pub mod Pending
pub mod Replies
pub mod Acks
pub mod Timeouts
pub mod Bounds
pub mod OverStreams
