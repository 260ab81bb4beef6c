-- ===== src/Messages.antt =====
-- internal/message/message.go: a signed message, and the envelope in which its subject and body are
-- sealed for the recipient, with decryptEncryptedEnvelope of internal/network/messaging.go. Ed25519,
-- X25519, SHA-256 and encoding/json are the parameter `MessageCrypto`, ChaCha20-Poly1305 is `Aead`. The
-- random ephemeral key and nonce and the time are arguments; a failure of the random source is not
-- modelled. A missing text (`nil`) is the empty one.
pub mod Signing
pub mod Sealing
pub mod Delivery
use inkmail.Base.{
  ℕ, ◌+◌, Bool, true, false, not, ◌||◌, ◌&&◌, List, [], ◌∷◌, ◌++◌, Option, none, some, ltb, ◌==◌,
  if◌then◌else◌, Bytes, codes, same, equal_fold, trim_space, length, take, Result, ok, err,
  reject_if, or_err, map_err, ◌>>=◌, ◌>>◌,
}
use inkmail.Hex.{encode_hex, decode_hex}
use inkmail.Identity.{Unicode, Identity, validate_namespace}
use inkmail.Wire.Channel.{Aead}

abbrev pub max_subject_length : ℕ
max_subject_length = 256

abbrev pub max_body_length : ℕ
max_body_length = 1048576

pub record Message : Type 0 where
  pub id : Bytes
  pub sender_namespace : Bytes
  pub sender_public_key : Bytes
  pub recipient_namespace : Bytes
  pub recipient_public_key : Bytes
  pub subject : Bytes
  pub body : Bytes
  pub created_at : ℕ
  pub signature : Bytes

-- The fields that are signed.
pub record UnsignedMessage : Type 0 where
  pub sender_namespace : Bytes
  pub sender_public_key : Bytes
  pub recipient_namespace : Bytes
  pub recipient_public_key : Bytes
  pub subject : Bytes
  pub body : Bytes
  pub created_at : ℕ

pub record EncryptedMessage : Type 0 where
  pub id : Bytes
  pub sender_namespace : Bytes
  pub sender_public_key : Bytes
  pub recipient_namespace : Bytes
  pub recipient_public_key : Bytes
  pub recipient_encryption_key : Bytes
  pub ephemeral_public_key : Bytes
  pub nonce : Bytes
  pub ciphertext : Bytes
  pub created_at : ℕ
  pub signature : Bytes

pub record UnsignedEncryptedMessage : Type 0 where
  pub id : Bytes
  pub sender_namespace : Bytes
  pub sender_public_key : Bytes
  pub recipient_namespace : Bytes
  pub recipient_public_key : Bytes
  pub recipient_encryption_key : Bytes
  pub ephemeral_public_key : Bytes
  pub nonce : Bytes
  pub ciphertext : Bytes
  pub created_at : ℕ

pub record MessageCrypto : Type 0 where
  pub unicode : Unicode
  pub sha256 : Bytes → Bytes
  pub public_key : Bytes → Bytes
  pub ecdh : Bytes → Bytes → Option Bytes
  pub sign : Bytes → Bytes → Bytes
  pub verify : Bytes → Bytes → Bytes → Bool
  pub marshal : UnsignedMessage → Bytes
  pub marshal_encrypted : UnsignedEncryptedMessage → Bytes

pub data MessageError : Type 0 where
  invalid_sender_namespace invalid_recipient_namespace : MessageError
  invalid_sender_key invalid_recipient_key invalid_encryption_key invalid_ephemeral_key :
      MessageError
  empty_subject subject_too_long empty_body body_too_long : MessageError
  no_id id_mismatch invalid_id invalid_signature : MessageError
  derive_failed invalid_nonce invalid_ciphertext decrypt_failed no_subject : MessageError
  recipient_mismatch : MessageError

-- `hex.DecodeString` with a check on the size.
abbrev pub decoded : ℕ → Bytes → MessageError → Result MessageError Bytes
decoded n text e = do
  bytes ← or_err (decode_hex text) e
  reject_if (not (length bytes == n)) e
  ok bytes

-- `strings.SplitN(s, "\n", 2)`, when it gives two parts.
unfoldable pub split_line : Bytes → Option (Bytes × Bytes)
split_line [] = none
split_line (c ∷ s) =
    let rest = split_line s in
    if c == 10 then some ([], s) else elim rest [ none ↦ none | some (a, b) ↦ some (c ∷ a, b) ]

unfoldable pub sender_key : Message → Result MessageError Bytes
sender_key m = decoded 32 m.sender_public_key invalid_sender_key

unfoldable pub recipient_key : Message → Result MessageError Bytes
recipient_key m = decoded 32 m.recipient_public_key invalid_recipient_key

module _ (crypto : MessageCrypto) where
  open crypto use {unicode, sha256, public_key, ecdh, sign, verify, marshal, marshal_encrypted}

  unfoldable pub signing_bytes : Message → Bytes
  signing_bytes m = marshal (record {
    sender_namespace = m.sender_namespace;
    sender_public_key = m.sender_public_key;
    recipient_namespace = m.recipient_namespace;
    recipient_public_key = m.recipient_public_key;
    subject = m.subject;
    body = m.body;
    created_at = m.created_at;
  })

  unfoldable pub calculate_id : Message → Bytes
  calculate_id m = encode_hex (sha256 (signing_bytes m))

  -- The message before its ID and signature are set.
  abbrev pub draft : Identity → Bytes → Bytes → Bytes → Bytes → ℕ → Message
  draft sender recipient_namespace recipient_key subject body now = record {
    id = [];
    sender_namespace = sender.namespace;
    sender_public_key = encode_hex sender.public_key;
    recipient_namespace = recipient_namespace;
    recipient_public_key = encode_hex recipient_key;
    subject = subject;
    body = body;
    created_at = now;
    signature = [];
  }

  unfoldable pub new : Identity → Bytes → Bytes → Bytes → Bytes → ℕ → Result MessageError Message
  unfolding calculate_id
  new sender recipient_namespace recipient_key raw_subject body now = do
    map_err (λ e. invalid_recipient_namespace) (validate_namespace unicode recipient_namespace)
    reject_if (not (length recipient_key == 32)) invalid_recipient_key
    let subject = trim_space raw_subject
    reject_if (same subject []) empty_subject
    reject_if (ltb max_subject_length (length subject)) subject_too_long
    reject_if (length body == 0) empty_body
    reject_if (ltb max_body_length (length body)) body_too_long
    let m = draft sender recipient_namespace recipient_key subject body now
    ok (record m {
      id = calculate_id m;
      signature = encode_hex (sign sender.private_key (signing_bytes m));
    })

  unfoldable pub verify_id : Message → Result MessageError (Unit {0})
  unfolding calculate_id
  verify_id m = do
    reject_if (same m.id []) no_id
    reject_if (not (same (calculate_id m) m.id)) id_mismatch

  unfoldable pub verify_message : Message → Result MessageError (Unit {0})
  unfolding calculate_id
  verify_message m = do
    reject_if (same m.id []) no_id
    map_err (λ e. invalid_sender_namespace) (validate_namespace unicode m.sender_namespace)
    map_err (λ e. invalid_recipient_namespace) (validate_namespace unicode m.recipient_namespace)
    key ← decoded 32 m.sender_public_key invalid_sender_key
    recipient ← decoded 32 m.recipient_public_key invalid_recipient_key
    reject_if (not (equal_fold m.id (calculate_id m))) id_mismatch
    signature ← decoded 64 m.signature invalid_signature
    reject_if (not (verify key (signing_bytes m) signature)) invalid_signature

  unfoldable pub encrypted_signing_bytes : EncryptedMessage → Bytes
  encrypted_signing_bytes em = marshal_encrypted (record {
    id = em.id;
    sender_namespace = em.sender_namespace;
    sender_public_key = em.sender_public_key;
    recipient_namespace = em.recipient_namespace;
    recipient_public_key = em.recipient_public_key;
    recipient_encryption_key = em.recipient_encryption_key;
    ephemeral_public_key = em.ephemeral_public_key;
    nonce = em.nonce;
    ciphertext = em.ciphertext;
    created_at = em.created_at;
  })

  unfoldable pub calculate_signature : EncryptedMessage → Bytes → Bytes
  unfolding encrypted_signing_bytes
  calculate_signature em private_key = encode_hex (sign private_key (encrypted_signing_bytes em))

  unfoldable pub validate_id : EncryptedMessage → Result MessageError (Unit {0})
  validate_id em = decoded 32 em.id invalid_id >>= λ _. ok tt

  unfoldable pub verify_encrypted : EncryptedMessage → Result MessageError (Unit {0})
  unfolding encrypted_signing_bytes validate_id
  verify_encrypted em = do
    reject_if (same em.id []) no_id
    validate_id em
    map_err (λ e. invalid_sender_namespace) (validate_namespace unicode em.sender_namespace)
    map_err (λ e. invalid_recipient_namespace) (validate_namespace unicode em.recipient_namespace)
    key ← decoded 32 em.sender_public_key invalid_sender_key
    signature ← decoded 64 em.signature invalid_signature
    reject_if (not (verify key (encrypted_signing_bytes em) signature)) invalid_signature

  -- The key of one message.
  unfoldable pub message_key : Bytes → Bytes → Bytes
  message_key shared id = take 32 (sha256 (shared ++ id))

  module _ (aead : Aead) where
    open aead use {seal, unseal}

    -- The envelope before it is signed.
    unfoldable pub unsigned_envelope :
        Message → Bytes → Bytes → Bytes → Bytes → Bytes → EncryptedMessage
    unfolding message_key
    unsigned_envelope m encryption_key recipient_namespace ephemeral nonce shared = record {
      id = m.id;
      sender_namespace = m.sender_namespace;
      sender_public_key = m.sender_public_key;
      recipient_namespace = recipient_namespace;
      recipient_public_key = m.recipient_public_key;
      recipient_encryption_key = encode_hex encryption_key;
      ephemeral_public_key = encode_hex (public_key ephemeral);
      nonce = encode_hex nonce;
      ciphertext =
          encode_hex (seal (message_key shared m.id) nonce (m.subject ++ (10 ∷ m.body)) []);
      created_at = m.created_at;
      signature = [];
    }

    unfoldable pub encrypt_for_recipient :
        Message → Bytes → Bytes → Bytes → Bytes → Bytes → Result MessageError EncryptedMessage
    unfolding unsigned_envelope calculate_signature
    encrypt_for_recipient m encryption_key recipient_namespace private_key ephemeral nonce = do
      reject_if (not (length encryption_key == 32)) invalid_encryption_key
      shared ← or_err (ecdh ephemeral encryption_key) derive_failed
      let em = unsigned_envelope m encryption_key recipient_namespace ephemeral nonce shared
      ok (record em { signature = calculate_signature em private_key })

    unfoldable pub decrypt_from_sender :
        EncryptedMessage → Bytes → Bytes → Result MessageError Message
    decrypt_from_sender em private_key recipient_namespace = do
      verify_encrypted em
      sender ← decoded 32 em.sender_public_key invalid_sender_key
      ephemeral ← decoded 32 em.ephemeral_public_key invalid_ephemeral_key
      nonce ← decoded 12 em.nonce invalid_nonce
      ciphertext ← or_err (decode_hex em.ciphertext) invalid_ciphertext
      reject_if (not (length private_key == 32)) invalid_encryption_key
      shared ← or_err (ecdh private_key ephemeral) derive_failed
      plaintext ← or_err (unseal (message_key shared em.id) nonce ciphertext []) decrypt_failed
      parts ← or_err (split_line plaintext) no_subject
      ok (record {
        id = em.id;
        sender_namespace = em.sender_namespace;
        sender_public_key = em.sender_public_key;
        recipient_namespace = recipient_namespace;
        recipient_public_key = em.recipient_public_key;
        subject = parts.0;
        body = parts.1;
        created_at = em.created_at;
        signature = [];
      })

    -- `decryptEncryptedEnvelope`
    unfoldable pub decrypt_envelope : Identity → EncryptedMessage → Result MessageError Message
    decrypt_envelope local em = do
      verify_encrypted em
      decrypted ← decrypt_from_sender em local.encryption_private_key local.namespace
      reject_if (not (same decrypted.id em.id)) id_mismatch
      verify_id decrypted
      reject_if
          (not (same decrypted.recipient_namespace local.namespace)
            || not (equal_fold decrypted.recipient_public_key (encode_hex local.public_key)))
          recipient_mismatch
      ok decrypted
