-- ===== src/Tests.antt =====
-- Runs of the model on concrete inputs, and the theorems at such inputs.
pub mod Tables
pub mod PlainCodec
pub mod Frames
pub mod Managers
pub mod Requesting
pub mod Registries
pub mod Searches
pub mod Multiplexed
pub mod Networks
pub mod Receptions
pub mod Measures
