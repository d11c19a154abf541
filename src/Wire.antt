-- ===== src/Wire.antt =====
-- network: the frames on a connection, compression, UDP packages and the bytes that are signed.
pub mod Message
pub mod Compress
pub mod Channel
pub mod Result
pub mod Frame
pub mod Receive
pub mod RoundTrip
pub mod Sending
pub mod Udp
pub mod Signing
pub mod Consuming
