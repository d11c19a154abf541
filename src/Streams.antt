-- ===== src/Streams.antt =====
-- network/multiplex.go and `streamSendMessage` of network/stream.go: the streams that share the
-- connection to a peer.
pub mod Multiplex
pub mod Fresh
pub mod Send
pub mod Count
pub mod ByteStream
