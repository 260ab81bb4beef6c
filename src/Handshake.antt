-- ===== src/Handshake.antt =====
-- internal/network/handshake.go, and the exchange of hellos in internal/network/dial.go. X25519, Ed25519,
-- SHA-256, HKDF, encoding/json and fmt's decimal numbers are parameters. The two ciphers of a session are
-- its two keys. A hello's version and time are natural numbers. The system's random source is taken to
-- succeed, and the ephemeral key is an argument.
pub mod Transcript
pub mod Agreement
pub mod BothEnds
use inkmail.Base.{
  ℕ, ◌+◌, ◌-◌, ◌*◌, min, leb, Bool, true, false, not, ◌||◌, List, [], ◌∷◌, ◌++◌, Option, none, some,
  ltb, ◌==◌, if◌then◌else◌, Bytes, codes, same, length, Result, ok, err, reject_if, or_err, map_err,
  ◌>>=◌, ◌>>◌,
}
use inkmail.Base.Int.{unix_limit}
use inkmail.Hex.{encode_hex, decode_hex}
use inkmail.Identity.{Unicode, Identity, validate_namespace}
use inkmail.Session.{Session}

abbrev pub protocol_version : ℕ
protocol_version = 4

abbrev pub handshake_label : Bytes
handshake_label = codes "inkmail-hello-v4"

abbrev pub session_label_initiator : Bytes
session_label_initiator = codes "inkmail-session-initiator"

abbrev pub session_label_responder : Bytes
session_label_responder = codes "inkmail-session-responder"

-- 15 minutes in nanoseconds.
abbrev pub max_clock_skew : ℕ
max_clock_skew = 900000000000

abbrev pub max_duration : ℕ
max_duration = 9223372036854775807

pub record HandshakeHello : Type 0 where
  pub version : ℕ
  pub anonymous : Bool
  pub namespace : Bytes
  pub public_key : Bytes
  pub encryption_key : Bytes
  pub ephemeral_key : Bytes
  pub timestamp : ℕ
  pub signature : Bytes

-- The functions of the libraries. An X25519 public key is any 32 bytes.
pub record Primitives : Type 0 where
  pub unicode : Unicode
  pub decimal : ℕ → Bytes
  pub sha256 : Bytes → Bytes
  pub x25519_public : Bytes → Bytes
  pub ecdh : Bytes → Bytes → Option Bytes
  pub sign : Bytes → Bytes → Bytes
  pub verify : Bytes → Bytes → Bytes → Bool
  pub hkdf : Bytes → Bytes → Bytes → Bytes

pub data HandshakeError : Type 0 where
  unsupported_version invalid_namespace : HandshakeError
  invalid_peer_key invalid_encryption_key invalid_ephemeral_key : HandshakeError
  malformed_signature signature_failed outside_window agreement_failed : HandshakeError

abbrev pub bar : Bytes
bar = codes "|"

-- `%t`
abbrev pub bool_text : Bool → Bytes
bool_text true = codes "true"
bool_text false = codes "false"

abbrev pub sized : ℕ → Option Bytes → HandshakeError → Result HandshakeError Bytes
sized n none e = err e
sized n (some k) e = if length k == n then ok k else err e

-- The test on the time step of `verifyHello`, from the clock in nanoseconds and the hello's seconds.
-- `time.Since` stops at the bounds of a 64-bit duration; the lowest one is its own negation.
unfoldable pub outside_skew : ℕ → ℕ → Bool
outside_skew now seconds =
    let sent = seconds * 1000000000 in
    if leb unix_limit seconds
    then true
    else if leb sent now
    then ltb max_clock_skew (min (now - sent) max_duration)
    else if ltb max_duration (sent - now)
    then false
    else ltb max_clock_skew (sent - now)

pub record Verified : Type 0 where
  pub peer_key : Bytes
  pub encryption_key : Bytes
  pub ephemeral : Bytes

module _ (prim : Primitives) where
  open prim use {unicode, decimal, sha256, x25519_public, ecdh, sign, verify, hkdf}

  -- The part of the transcript in front of the namespace.
  abbrev pub transcript_head : ℕ → Bool → Bytes
  transcript_head version anonymous =
      handshake_label ++ (bar ++ (decimal version ++ (bar ++ (bool_text anonymous ++ bar))))

  unfoldable pub transcript_bytes : HandshakeHello → Bytes
  transcript_bytes h =
      transcript_head h.version h.anonymous
      ++ (h.namespace
          ++ (bar
              ++ (h.public_key
                  ++ (bar
                      ++ (h.encryption_key
                          ++ (bar ++ (h.ephemeral_key ++ (bar ++ decimal h.timestamp))))))))

  abbrev pub unsigned_hello : Identity → Bytes → ℕ → HandshakeHello
  unsigned_hello local ephemeral now = record {
    version = protocol_version;
    anonymous = local.anonymous;
    namespace = local.namespace;
    public_key = encode_hex local.public_key;
    encryption_key = encode_hex local.encryption_public_key;
    ephemeral_key = encode_hex (x25519_public ephemeral);
    timestamp = now;
    signature = [];
  }

  -- `ephemeral` is the private key that is drawn.
  unfoldable pub new_hello : Identity → Bytes → ℕ → HandshakeHello
  unfolding transcript_bytes
  new_hello local ephemeral now =
      let h = unsigned_hello local ephemeral now in
      record h { signature = encode_hex (sign local.private_key (transcript_bytes h)) }

  -- The clock counts nanoseconds.
  unfoldable pub verify_hello : HandshakeHello → ℕ → Result HandshakeError Verified
  unfolding transcript_bytes outside_skew
  verify_hello h now = do
    reject_if (not (h.version == protocol_version)) unsupported_version
    map_err (λ e. invalid_namespace) (validate_namespace unicode h.namespace)
    peer_key ← sized 32 (decode_hex h.public_key) invalid_peer_key
    encryption_key ← sized 32 (decode_hex h.encryption_key) invalid_encryption_key
    ephemeral ← sized 32 (decode_hex h.ephemeral_key) invalid_ephemeral_key
    signature ← or_err (decode_hex h.signature) malformed_signature
    reject_if (not (verify peer_key (transcript_bytes h) signature)) signature_failed
    reject_if (outside_skew now h.timestamp) outside_window
    ok (record { peer_key = peer_key; encryption_key = encryption_key; ephemeral = ephemeral })

  unfoldable pub derive_session_key : Bytes → Bytes → Bytes → Bytes
  derive_session_key shared transcript label = hkdf shared (sha256 transcript) label

  -- The keys of the two directions, with both hellos in the transcript.
  abbrev pub direction_key : Bytes → HandshakeHello → HandshakeHello → Bytes → Bytes
  direction_key shared initiator_hello responder_hello label =
      derive_session_key shared
        (transcript_bytes initiator_hello ++ transcript_bytes responder_hello) label

  unfoldable pub install_session_keys :
      Session
      → Bool
      → Bytes
      → Bytes
      → HandshakeHello
      → HandshakeHello
      → Result HandshakeError Session
  unfolding derive_session_key transcript_bytes
  install_session_keys s initiator ephemeral peer_ephemeral initiator_hello responder_hello = do
    shared ← or_err (ecdh ephemeral peer_ephemeral) agreement_failed
    let initiator_key = direction_key shared initiator_hello responder_hello session_label_initiator
    let responder_key = direction_key shared initiator_hello responder_hello session_label_responder
    ok (record s {
      send_aead = some (if initiator then initiator_key else responder_key);
      recv_aead = some (if initiator then responder_key else initiator_key);
      send_counter = 0;
      recv_counter = 0;
    })

  unfoldable pub finish_handshake :
      Session → Bool → Bytes → HandshakeHello → HandshakeHello → ℕ → Result HandshakeError Session
  unfolding verify_hello install_session_keys
  finish_handshake s initiator ephemeral local_hello peer_hello now = do
    peer ← verify_hello peer_hello now
    installed ←
        install_session_keys s initiator ephemeral peer.ephemeral
          (if initiator then local_hello else peer_hello)
          (if initiator then peer_hello else local_hello)
    ok (record installed {
      peer = peer.peer_key;
      peer_namespace = peer_hello.namespace;
      peer_anonymous = peer_hello.anonymous;
      peer_encryption_key = peer.encryption_key;
    })
