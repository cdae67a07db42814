-- ===== src/Wire.antt =====
-- The peer wire format.
pub mod Bytes
pub mod Peer
pub mod Layout
pub mod RoundTrip
pub mod Accepts
mod Examples
