-- ===== src/Store/Schema.antt =====
-- The rows, the store, and the hash under which tokens and keys are remembered.
use inkmail.Base.{ℕ, List, [], ◌∷◌, ◌++◌, Bytes, codes, String}
use inkmail.Limits.{Limits}

-- `OpaqueHeldMessage` with its submitter.
pub record Held : Type 0 where
  pub id : Bytes
  pub mailbox_id : Bytes
  pub payload : Bytes
  pub expires_at : ℕ
  pub stored_at : ℕ
  pub submitter_hash : Bytes

pub record Dedup : Type 0 where
  pub envelope_hash : Bytes
  pub mailbox_hash : Bytes
  pub payload_hash : Bytes
  pub submitter_hash : Bytes
  pub expires_at : ℕ

pub record Owner : Type 0 where
  pub mailbox_id : Bytes
  pub owner_key_hash : Bytes

pub record MailboxRoute : Type 0 where
  pub mailbox_id : Bytes
  pub address : Bytes
  pub expires_at : ℕ
  pub last_seen : ℕ

pub record OutboxMessage : Type 0 where
  pub id : Bytes
  pub mailbox_id : Bytes
  pub payload : Bytes
  pub stored_at : ℕ

pub record Store : Type 0 where
  pub limits : Limits
  pub legacy_relay_messages : ℕ
  pub legacy_relay_bytes : ℕ
  pub held : List Held
  pub dedup : List Dedup
  pub owners : List Owner
  pub routes : List MailboxRoute
  pub outbox : List OutboxMessage

-- A database just created.
unfoldable pub empty : Limits → Store
empty limits = record {
  limits = limits;
  legacy_relay_messages = 0;
  legacy_relay_bytes = 0;
  held = [];
  dedup = [];
  owners = [];
  routes = [];
  outbox = [];
}

-- `hashSecurityKey` over SHA-256, which is a parameter.
unfoldable pub hash_security_key : (Bytes → Bytes) → String → Bytes → Bytes
hash_security_key sha256 label key = sha256 (codes label ++ (0 ∷ key))
