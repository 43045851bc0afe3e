-- ===== src/Boundary.antt =====
-- The request boundary, crates/boundary/src: it reads lines, checks them as JSON-RPC requests, and answers
-- them.
pub mod Framing
pub mod Limits
pub mod Envelope
pub mod Messages
pub mod Handler
pub mod Serve
