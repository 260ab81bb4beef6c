-- ===== src/Peers.antt =====
-- Contacts and the peers' identities and routes, of internal/database.
pub mod Contact
pub mod Directory
pub mod Routes
