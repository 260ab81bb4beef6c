-- ===== src/Mailbox.antt =====
-- internal/message/mailboxenvelope.go: the opaque envelope around a message, its padding, and how it is
-- closed and opened. X25519, SHA-256, ChaCha20-Poly1305 and JSON are not the repository's: they are
-- parameters. So are the random bytes that closing an envelope draws: the ephemeral key, the envelope
-- ID, the nonce and the filler; a failure of the random source is not modelled.
pub mod Padding
pub mod Opening
use inkmail.Base.{
  ℕ, ◌+◌, ◌-◌, ◌*◌, ◌/◌, ◌%◌, ◌≡◌, Bool, true, false, not, ◌||◌, ◌&&◌, List, [], ◌∷◌, ◌++◌, Option,
  none, some, ltb, leb, ◌==◌, if◌then◌else◌, Bytes, codes, same, equal_fold, length, take, drop,
  Result, ok, err, reject_if, or_err, map_err, ◌>>◌, ◌>>=◌,
}
use inkmail.Hex.{encode_hex, decode_hex}
use inkmail.Session.{validate_mailbox_id}
use inkmail.Wire.BigEndian.{put_uint32, uint32}
use inkmail.Wire.Channel.{Aead}

abbrev pub mailbox_padding_size : ℕ
mailbox_padding_size = 65536

abbrev pub max_mailbox_payload : ℕ
max_mailbox_payload = 4194304

abbrev pub mailbox_label : Bytes
mailbox_label = codes "inkmail-opaque-mailbox-v1"

pub record MailboxEnvelope : Type 0 where
  pub id : Bytes
  pub mailbox_id : Bytes
  pub ephemeral_public_key : Bytes
  pub nonce : Bytes
  pub ciphertext : Bytes

pub data MailboxError : Type 0 where
  invalid_envelope_id invalid_mailbox_id invalid_sender_mailbox_id : MailboxError
  invalid_ephemeral_key invalid_ciphertext invalid_key_size invalid_nonce : MailboxError
  invalid_recipient_key derive_failed not_authentic : MailboxError
  payload_too_large invalid_padding invalid_payload_size : MailboxError
  mailbox_mismatch malformed_payload unknown_kind invalid_sender_key : MailboxError

abbrev pub is_key : Option Bytes → Bool
is_key none = false
is_key (some bytes) = length bytes == 32

unfoldable pub validate : MailboxEnvelope → Result MailboxError (Unit {0})
validate e = do
  reject_if (not (validate_mailbox_id e.id)) invalid_envelope_id
  reject_if (not (validate_mailbox_id e.mailbox_id)) invalid_mailbox_id
  reject_if (not (is_key (decode_hex e.ephemeral_public_key))) invalid_ephemeral_key
  reject_if (not (length e.nonce == 12) || ltb (length e.ciphertext) 16) invalid_ciphertext

-- `targetSize`: the next multiple of the padding size that has room for the payload and its length.
unfoldable pub target_size : ℕ → ℕ
target_size n = (n + 4 + mailbox_padding_size - 1) / mailbox_padding_size * mailbox_padding_size

-- `filler n` stands for the n random bytes that are read.
unfoldable pub pad : (ℕ → Bytes) → Bytes → Result MailboxError Bytes
unfolding target_size
pad filler payload =
    if ltb max_mailbox_payload (length payload + 4)
    then err payload_too_large
    else ok (
        payload
        ++ (filler (target_size (length payload) - 4 - length payload)
            ++ put_uint32 (length payload)))

unfoldable pub unpad : Bytes → Result MailboxError Bytes
unpad padded = do
  reject_if
      (ltb (length padded) 4
        || ltb max_mailbox_payload (length padded)
        || not (length padded % mailbox_padding_size == 0))
      invalid_padding
  let payload_size = uint32 (drop (length padded - 4) padded)
  reject_if (payload_size == 0 || ltb (length padded - 4) payload_size) invalid_payload_size
  ok (take payload_size padded)

unfoldable pub mailbox_associated_data : Bytes → Bytes → Bytes
mailbox_associated_data mailbox id = mailbox_label ++ (codes "|" ++ (mailbox ++ (codes "|" ++ id)))

-- `MailboxPayload` over a type for the inner encrypted message.
pub record MailboxPayload (Inner : Type 0) : Type 0 where
  pub kind : Bytes
  pub envelope : Inner
  pub sender_mailbox_id : Bytes
  pub sender_encryption_key : Bytes

-- `json.Marshal` and `json.Unmarshal` at `MailboxPayload`, and the functions of X25519 and SHA-256.
pub record Crypto (Inner : Type 0) : Type 0 where
  pub marshal : MailboxPayload Inner → Bytes
  pub unmarshal : Bytes → Option (MailboxPayload Inner)
  pub public_key : Bytes → Bytes
  pub ecdh : Bytes → Bytes → Option Bytes
  pub sha256 : Bytes → Bytes

-- The random values that are drawn.
pub record Drawn : Type 0 where
  pub ephemeral : Bytes
  pub id : Bytes
  pub nonce : Bytes
  pub filler : ℕ → Bytes

module _ (Inner : Type 0) (aead : Aead) (crypto : Crypto Inner) where
  open aead use {seal, unseal}
  open crypto use {marshal, unmarshal, public_key, ecdh, sha256}

  unfoldable pub derive_mailbox_key : Bytes → Bytes → Bytes → Bytes
  derive_mailbox_key shared mailbox id = sha256 (mailbox_label ++ (shared ++ (mailbox ++ id)))

  -- The envelope around a padded payload.
  unfoldable pub sealed_envelope : Drawn → Bytes → Bytes → Bytes → MailboxEnvelope
  sealed_envelope drawn mailbox shared padded =
      let id = encode_hex drawn.id in
      let key = derive_mailbox_key shared mailbox id in
      record {
        id = id;
        mailbox_id = mailbox;
        ephemeral_public_key = encode_hex (public_key drawn.ephemeral);
        nonce = drawn.nonce;
        ciphertext = seal key drawn.nonce padded (mailbox_associated_data mailbox id);
      }

  -- `wrapForMailbox`. An X25519 public key of 32 bytes is always well formed.
  unfoldable pub wrap_for_mailbox :
      Drawn
      → MailboxPayload Inner
      → Bytes
      → Bytes
      → Bytes
      → Bytes
      → Result MailboxError MailboxEnvelope
  unfolding pad sealed_envelope derive_mailbox_key
  wrap_for_mailbox drawn content mailbox sender_mailbox sender_key recipient_key = do
    reject_if (not (validate_mailbox_id mailbox)) invalid_mailbox_id
    reject_if (not (validate_mailbox_id sender_mailbox)) invalid_sender_mailbox_id
    reject_if (not (length sender_key == 32) || not (length recipient_key == 32)) invalid_key_size
    shared ← or_err (ecdh drawn.ephemeral recipient_key) derive_failed
    padded ← pad drawn.filler (marshal content)
    ok (sealed_envelope drawn mailbox shared padded)

  abbrev pub content : Bytes → Inner → Bytes → Bytes → MailboxPayload Inner
  content kind inner sender_mailbox sender_key = record {
    kind = kind;
    envelope = inner;
    sender_mailbox_id = sender_mailbox;
    sender_encryption_key = encode_hex sender_key;
  }

  -- `WrapForMailbox`.
  unfoldable pub wrap_message :
      Drawn → Inner → Bytes → Bytes → Bytes → Bytes → Result MailboxError MailboxEnvelope
  wrap_message drawn inner mailbox sender_mailbox sender_key recipient_key =
      wrap_for_mailbox drawn (content (codes "message") inner sender_mailbox sender_key) mailbox
        sender_mailbox sender_key recipient_key

  -- `WrapDeliveryReceipt`.
  unfoldable pub wrap_delivery_receipt :
      Drawn → Inner → Bytes → Bytes → Bytes → Bytes → Result MailboxError MailboxEnvelope
  wrap_delivery_receipt drawn inner mailbox sender_mailbox sender_key recipient_key =
      wrap_for_mailbox drawn (content (codes "delivery_receipt") inner sender_mailbox sender_key)
        mailbox sender_mailbox sender_key recipient_key

  -- The checks on the payload that was decrypted.
  unfoldable pub check_payload : Bytes → Result MailboxError (MailboxPayload Inner)
  check_payload bytes = do
    payload ← or_err (unmarshal bytes) malformed_payload
    reject_if
        (not (same payload.kind (codes "message"))
          && not (same payload.kind (codes "delivery_receipt")))
        unknown_kind
    reject_if (not (validate_mailbox_id payload.sender_mailbox_id)) invalid_sender_mailbox_id
    reject_if (not (is_key (decode_hex payload.sender_encryption_key))) invalid_sender_key
    ok payload

  -- `Open`, after `Validate` and the address.
  unfoldable pub open_with :
      Bytes → Bytes → MailboxEnvelope → Result MailboxError (MailboxPayload Inner)
  unfolding unpad derive_mailbox_key check_payload
  open_with private_key ephemeral e = do
    reject_if (not (length e.nonce == 12)) invalid_nonce
    shared ← or_err (ecdh private_key ephemeral) derive_failed
    plaintext ←
        or_err
          (unseal (derive_mailbox_key shared e.mailbox_id e.id) e.nonce e.ciphertext
            (mailbox_associated_data e.mailbox_id e.id))
          not_authentic
    payload ← unpad plaintext
    check_payload payload

  unfoldable pub open_envelope :
      Bytes → Bytes → MailboxEnvelope → Result MailboxError (MailboxPayload Inner)
  unfolding validate open_with
  open_envelope private_key expected e = do
    validate e
    reject_if (not (equal_fold e.mailbox_id expected)) mailbox_mismatch
    reject_if (not (length private_key == 32)) invalid_recipient_key
    ephemeral ← or_err (decode_hex e.ephemeral_public_key) invalid_ephemeral_key
    reject_if (not (length ephemeral == 32)) invalid_ephemeral_key
    open_with private_key ephemeral e
