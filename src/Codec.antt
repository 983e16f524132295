-- ===== src/Codec.antt =====
-- src/mixed.rs: Python values packed into bytes, and read back by type tags.
pub mod Bytes
pub mod Value
pub mod Pack
pub mod Unpack
pub mod Tags
pub mod Mixed
pub mod RoundTrip
pub mod Truncation
pub mod Groups
pub mod MixedTrip
pub mod Bounds
pub mod Types
