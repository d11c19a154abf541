-- ===== src/Builder.antt =====
-- network/builder.go: the builder of a network.
pub mod Build
pub mod Result
pub mod Order
