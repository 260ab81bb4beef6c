-- ===== src/Limiter.antt =====
-- The admission limiters of internal/network/listener.go, one module each. A mutex makes every
-- method one atomic step, so a method is a function on the limiter's state, and an interleaving of
-- goroutines is a list of such steps.
pub mod Slots
pub mod Oldest
pub mod Rate
pub mod Handshake
pub mod Connections
pub mod Requests
