-- ===== src/Tests.antt =====
-- The theorems at concrete inputs.
pub mod Limiters
pub mod Frames
pub mod Holding
pub mod Owners
pub mod Envelopes
pub mod Requests
pub mod Receiving
pub mod Handshakes
pub mod Mail
pub mod Arrival
pub mod Tables
pub mod Nodes
