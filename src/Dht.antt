-- ===== src/Dht.antt =====
-- dht/routes.go: the routing table.
pub mod Routes
pub mod Bucket
pub mod Invariant
pub mod Lookup
mod Order
mod Widen
pub mod Closest
pub mod Listing
pub mod Random
