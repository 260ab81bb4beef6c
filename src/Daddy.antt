-- ===== src/Daddy.antt =====
-- The server side of internal/network/daddy.go: the handlers of REGISTER_ROUTE, LOOKUP_ROUTE,
-- HOLD_MESSAGE, FETCH_MESSAGES and DELIVERY_ACK. A handler takes the request's bytes and the time and
-- gives the reply that it sends, or the error that it returns, with the session and the store after it.
-- Sending the reply is Wire's; `encoding/json` and `net.SplitHostPort` are parameters; the counters of
-- `runtimeStats` and the delivery attempt that follows an accepted envelope are not modelled. A
-- registration's expiry is a natural number: a negative one is refused as 0 is.
pub mod Handlers
pub mod Guards
pub mod Holding
pub mod Exchanges
pub mod Registration
use inkmail.Base.{
  ℕ, ◌+◌, Bool, true, false, not, ◌||◌, ◌&&◌, List, [], ◌∷◌, Option, none, some, ltb, leb, ◌==◌,
  if◌then◌else◌, Bytes, codes, same, length, Result, ok, err, reject_if, map_err, ◌>>◌, ◌>>=◌,
}
use inkmail.Session.{Session, validate_mailbox_id, authorize_mailbox_id}
use inkmail.Store.Schema.{Store}
use inkmail.Store.Held.{
  HeldError, user_hold_quota, mailbox_hold_quota, global_hold_quota, user_replay_quota,
  global_replay_quota,
}
use inkmail.Store.Routes.{RouteError, owner_quota, route_quota, different_owner, mailbox_owned_by}
use inkmail.Mailbox.{MailboxEnvelope}

abbrev pub max_route_lifetime : ℕ
max_route_lifetime = 86400

abbrev pub held_message_ttl : ℕ
held_message_ttl = 2592000

abbrev pub max_held_message_batch : ℕ
max_held_message_batch = 256

pub record RouteRegistration : Type 0 where
  pub mailbox_id : Bytes
  pub address : Bytes
  pub expires_at : ℕ

pub record AckBody : Type 0 where
  pub message_id : Bytes
  pub mailbox_id : Bytes
  pub status : Bytes

-- The libraries: parsing and printing the bodies, and splitting an address into host and port.
pub record Libraries : Type 0 where
  pub parse_registration : Bytes → Option RouteRegistration
  pub parse_mailbox : Bytes → Option Bytes
  pub parse_envelope : Bytes → Option MailboxEnvelope
  pub print_envelope : MailboxEnvelope → Bytes
  pub parse_ack : Bytes → Option AckBody
  pub split_host_port : Bytes → Option (Bytes × Bytes)
  pub sha256 : Bytes → Bytes

-- The reasons that a rejection names.
pub data Reason : Type 0 where
  malformed invalid_mailbox mailbox_mismatch owner_required bad_address already_expired : Reason
  quota_exceeded ownership_conflict admission_failed : Reason
  too_large sender_required invalid_envelope : Reason

pub data Reply : Type 0 where
  registered : ℕ → Reply
  not_registered : Reason → Reply
  found : Bytes → ℕ → Reply
  unreachable : Reply
  not_looked_up : Reason → Reply
  held : Bytes → Reply
  already_stored : Bytes → Reply
  not_held : Bytes → Reason → Reply
  delivery : List MailboxEnvelope → Reply
  deleted : Bytes → Bytes → Reply

pub data HandlerError : Type 0 where
  malformed_body no_message_id unauthorized unknown_status not_offered : HandlerError
  list_failed delete_failed : HandlerError

-- What a handler may change.
pub record Node : Type 0 where
  pub session : Session
  pub store : Store

abbrev pub Handled : Type 0
Handled = Result HandlerError Reply × Node

abbrev pub relay : Bytes
relay = codes "relay"

-- `strings.Contains(err.Error(), "quota exceeded")`.
unfoldable pub is_quota : HeldError → Bool
is_quota user_hold_quota = true
is_quota mailbox_hold_quota = true
is_quota global_hold_quota = true
is_quota user_replay_quota = true
is_quota global_replay_quota = true
is_quota _ = false

unfoldable pub safe_route_registration_reason : RouteError → Reason
safe_route_registration_reason owner_quota = quota_exceeded
safe_route_registration_reason route_quota = quota_exceeded
safe_route_registration_reason different_owner = ownership_conflict
safe_route_registration_reason _ = admission_failed

abbrev is_address : Option (Bytes × Bytes) → Bool
is_address none = false
is_address (some (host, port)) = not (same host []) && not (same port [])

module _ (lib : Libraries) where
  unfoldable pub validate_advertised_address : Bytes → Bool
  validate_advertised_address address = is_address (lib.split_host_port address)

  abbrev owner_answer : Result RouteError Bool → Result HandlerError (Unit {0})
  owner_answer (ok true) = ok tt
  owner_answer (ok false) = err unauthorized
  owner_answer (err e) = err unauthorized

  -- A failure leaves the session bound to the mailbox if that step succeeded.
  unfoldable pub authorize_mailbox_owner : Bytes → Node → Result HandlerError (Unit {0}) × Node
  authorize_mailbox_owner mailbox n = elim (authorize_mailbox_id mailbox n.session) [
    | err e ↦ (err unauthorized, n)
    | ok s ↦
        let bound : Node = record n { session = s } in
        if not (length s.peer == 32) || s.peer_anonymous
        then (err unauthorized, bound)
        else (owner_answer (mailbox_owned_by lib.sha256 mailbox s.peer n.store), bound)
  ]
