-- ===== src/Addresses.antt =====
-- network/address.go and `FilterPeers` of network/utils.go: addresses in their unified form.
pub mod Unify
pub mod Cached
pub mod Filter
