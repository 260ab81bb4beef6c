-- ===== src/Session.antt =====
-- The session of a ghost connection, `Session` of internal/network/protocol.go, and the identifiers
-- that requests carry. The connection itself is not part of it: Wire models what goes over it. The
-- two ciphers are their keys, `none` before the handshake.
pub mod Scope
use inkmail.Base.{
  ℕ, Bool, true, false, not, ◌&&◌, [], ◌∷◌, Option, none, some, ◌==◌, if◌then◌else◌, Bytes, same,
  trim_space, equal_fold, length, Result, ok, err, reject_if, ◌>>◌, ◌>>=◌,
}
use inkmail.Base.Map
use inkmail.Base.Map.{Map}
use inkmail.Hex.{decode_hex}

pub record Session : Type 0 where
  pub mailbox_id : Bytes
  pub fetched_messages : Map Bytes
  pub peer : Bytes
  pub peer_namespace : Bytes
  pub peer_anonymous : Bool
  pub peer_encryption_key : Bytes
  pub send_aead : Option Bytes
  pub recv_aead : Option Bytes
  pub send_counter : ℕ
  pub recv_counter : ℕ

abbrev has_size : ℕ → Option Bytes → Bool
has_size n none = false
has_size n (some bytes) = length bytes == n

-- `message.ValidateMailboxID`: white space around the 64 digits is allowed.
unfoldable pub validate_mailbox_id : Bytes → Bool
validate_mailbox_id value = has_size 32 (decode_hex (trim_space value))

-- `validateOpaqueToken` of the database: exactly 64 digits.
unfoldable pub validate_opaque_token : Bytes → Bool
validate_opaque_token value = has_size 32 (decode_hex value)

unfoldable pub encrypted : Session → Bool
encrypted s = elim s.send_aead [
  | none ↦ false
  | some k ↦ elim s.recv_aead [ none ↦ false | some k' ↦ true ]
]

unfoldable pub destroy : Session → Session
destroy s = record s { send_aead = none; recv_aead = none; send_counter = 0; recv_counter = 0 }

pub data ScopeError : Type 0 where
  invalid_mailbox_id mailbox_mismatch : ScopeError

-- `authorizeMailboxID`: the first mailbox binds the session, and later ones must be that one.
unfoldable pub authorize_mailbox_id : Bytes → Session → Result ScopeError Session
authorize_mailbox_id mailbox_id s = do
  reject_if (not (validate_mailbox_id mailbox_id)) invalid_mailbox_id
  let trimmed = trim_space mailbox_id
  if same s.mailbox_id []
      then ok (record s { mailbox_id = trimmed })
      else if equal_fold s.mailbox_id trimmed
      then ok s
      else err mailbox_mismatch

unfoldable pub record_fetched_message : Bytes → Bytes → Session → Session
record_fetched_message message_id mailbox_id s = record s {
  fetched_messages = Map.put message_id mailbox_id s.fetched_messages;
}

-- The session's map gives the empty text for a missing key.
unfoldable pub consume_fetched_message : Bytes → Bytes → Session → Session × Bool
consume_fetched_message message_id mailbox_id s =
    if same (Map.get_or [] message_id s.fetched_messages) mailbox_id
    then (record s { fetched_messages = Map.del message_id s.fetched_messages }, true)
    else (s, false)

-- The loop of `sameBytes`, on slices of one length.
every_place : Bytes → Bytes → Bool
every_place [] ys = true
every_place (x ∷ xs) [] = false
every_place (x ∷ xs) (y ∷ ys) = let rest = every_place xs ys in if x == y then rest else false

-- `sameBytes` of the network package and `sameDigest` of the database.
unfoldable pub same_bytes : Bytes → Bytes → Bool
unfolding every_place
same_bytes a b = length a == length b && every_place a b
