-- ===== src/Discovery.antt =====
-- network/components/discovery: the discovery component, and the lookups that it runs.
pub mod Lookup
pub mod Progress
pub mod Responses
pub mod Rounds
pub mod Termination
pub mod FindNode
pub mod Paths
pub mod Ends
pub mod Receive
pub mod Handlers
