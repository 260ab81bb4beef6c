-- ===== src/Wire.antt =====
-- The frame layer and the encrypted transport: internal/network/frame.go and the part of handshake.go
-- that derives the transport keys.
pub mod BigEndian
pub mod Frame
pub mod Channel
