-- ===== src/Lru.antt =====
-- types/lru/cache.go: a cache that evicts the least recently used key.
pub mod Cache
pub mod Bounds
