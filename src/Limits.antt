-- ===== src/Limits.antt =====
-- internal/resource/limits.go: the resource limits, their defaults and `Validate`. Every field is a
-- natural number; the program's ints may be negative too, and every check refuses those, since
-- each minimum is at least 1. Reading the JSON file (`Load`) is not modelled.
pub mod Accepts
use inkmail.Base.{
  ℕ, ◌*◌, ◌||◌, List, [], ◌∷◌, String, Option, none, some, ltb, if◌then◌else◌, Result, ok, err,
  reject_if, ◌>>◌, ◌>>=◌,
}

pub record Limits : Type 0 where
  pub connections_per_source : ℕ
  pub connections_global : ℕ
  pub concurrent_handshakes : ℕ
  pub concurrent_requests : ℕ
  pub concurrent_requests_per_identity : ℕ
  pub handshake_failures_per_window : ℕ
  pub handshake_failure_window_seconds : ℕ
  pub handshake_cooldown_seconds : ℕ
  pub requests_per_minute : ℕ
  pub request_burst : ℕ
  pub held_messages_per_user : ℕ
  pub held_bytes_per_user : ℕ
  pub held_messages_per_mailbox : ℕ
  pub held_bytes_per_mailbox : ℕ
  pub held_messages_global : ℕ
  pub held_bytes_global : ℕ
  pub replay_records_per_user : ℕ
  pub replay_records_global : ℕ
  pub routes_per_identity : ℕ
  pub mailbox_owners_global : ℕ
  pub outbox_messages : ℕ
  pub outbox_bytes : ℕ
  pub peer_identities_global : ℕ
  pub peer_routes_global : ℕ
  pub peer_routes_per_identity : ℕ

unfoldable pub defaults : Limits
defaults = record {
  connections_per_source = 8;
  connections_global = 256;
  concurrent_handshakes = 64;
  concurrent_requests = 64;
  concurrent_requests_per_identity = 8;
  handshake_failures_per_window = 5;
  handshake_failure_window_seconds = 60;
  handshake_cooldown_seconds = 60;
  requests_per_minute = 600;
  request_burst = 300;
  held_messages_per_user = 256;
  held_bytes_per_user = 32 * 1024 * 1024;
  held_messages_per_mailbox = 512;
  held_bytes_per_mailbox = 64 * 1024 * 1024;
  held_messages_global = 100000;
  held_bytes_global = 8 * 1024 * 1024 * 1024;
  replay_records_per_user = 4096;
  replay_records_global = 1000000;
  routes_per_identity = 32;
  mailbox_owners_global = 100000;
  outbox_messages = 1000;
  outbox_bytes = 128 * 1024 * 1024;
  peer_identities_global = 100000;
  peer_routes_global = 100000;
  peer_routes_per_identity = 8;
}

pub record Check : Type 0 where
  pub name : String
  pub value : ℕ
  pub minimum : ℕ
  pub maximum : ℕ

pub data LimitError : Type 0 where
  out_of_range : String → ℕ → ℕ → LimitError
  source_above_global handshakes_above_global requests_above_global : LimitError
  identity_above_requests : LimitError

abbrev row : String → ℕ → ℕ → ℕ → Check
row name value minimum maximum = record {
  name = name;
  value = value;
  minimum = minimum;
  maximum = maximum;
}

-- The table `checks`.
pub checks : Limits → List Check
checks limits =
    row "connections_per_source" limits.connections_per_source 1 64
    ∷ row "connections_global" limits.connections_global 1 512
    ∷ row "concurrent_handshakes" limits.concurrent_handshakes 1 256
    ∷ row "concurrent_requests" limits.concurrent_requests 1 128
    ∷ row "concurrent_requests_per_identity" limits.concurrent_requests_per_identity 1 32
    ∷ row "handshake_failures_per_window" limits.handshake_failures_per_window 1 100
    ∷ row "handshake_failure_window_seconds" limits.handshake_failure_window_seconds 1 3600
    ∷ row "handshake_cooldown_seconds" limits.handshake_cooldown_seconds 1 3600
    ∷ row "requests_per_minute" limits.requests_per_minute 1 60000
    ∷ row "request_burst" limits.request_burst 272 10000
    ∷ row "held_messages_per_user" limits.held_messages_per_user 1 4096
    ∷ row "held_bytes_per_user" limits.held_bytes_per_user 1 (128 * 1024 * 1024)
    ∷ row "held_messages_per_mailbox" limits.held_messages_per_mailbox 1 8192
    ∷ row "held_bytes_per_mailbox" limits.held_bytes_per_mailbox 1 (512 * 1024 * 1024)
    ∷ row "held_messages_global" limits.held_messages_global 1 1000000
    ∷ row "held_bytes_global" limits.held_bytes_global 1 (8 * 1024 * 1024 * 1024)
    ∷ row "replay_records_per_user" limits.replay_records_per_user 1 100000
    ∷ row "replay_records_global" limits.replay_records_global 1 2000000
    ∷ row "routes_per_identity" limits.routes_per_identity 1 1024
    ∷ row "mailbox_owners_global" limits.mailbox_owners_global 1 500000
    ∷ row "outbox_messages" limits.outbox_messages 1 100000
    ∷ row "outbox_bytes" limits.outbox_bytes 1 (1024 * 1024 * 1024)
    ∷ row "peer_identities_global" limits.peer_identities_global 1 500000
    ∷ row "peer_routes_global" limits.peer_routes_global 1 500000
    ∷ row "peer_routes_per_identity" limits.peer_routes_per_identity 1 64
    ∷ []

-- The loop over the table: the first row out of its range is the error.
pub run_checks : List Check → Result LimitError (Unit {0})
run_checks [] = ok tt
run_checks (c ∷ rest) =
    let later = run_checks rest in
    if ltb c.value c.minimum || ltb c.maximum c.value
    then err (out_of_range c.name c.minimum c.maximum)
    else later

pub validate : Limits → Result LimitError (Unit {0})
validate limits = do
  run_checks (checks limits)
  reject_if (ltb limits.connections_global limits.connections_per_source) source_above_global
  reject_if (ltb limits.connections_global limits.concurrent_handshakes) handshakes_above_global
  reject_if (ltb limits.connections_global limits.concurrent_requests) requests_above_global
  reject_if (ltb limits.concurrent_requests limits.concurrent_requests_per_identity)
      identity_above_requests
  ok tt
