-- ===== src/Messages/Sealing.antt =====
-- What EncryptForRecipient seals, DecryptFromSender and decryptEncryptedEnvelope give back:
-- internal/message/message.go and internal/network/messaging.go.
use inkmail.Base.{
  ◌≡◌, refl, sym, ap, ◌∙◌, true, false, [], ◌∷◌, ◌++◌, some, ◌==◌, Bytes, IsBytes, same, same_refl,
  equal_fold, length, ok, ◌>>=◌, All,
}
use inkmail.Hex.{encode_hex}
use inkmail.Hex.Laws.{decode_hex-encode_hex}
use inkmail.Identity.{Identity, validate_namespace}
use inkmail.Wire.Channel.{Aead}
use inkmail.Messages.{
  Message, MessageCrypto, MessageError, EncryptedMessage, decoded, split_line, signing_bytes,
  calculate_id, calculate_signature, encrypted_signing_bytes, verify_id, validate_id,
  verify_encrypted, message_key, unsigned_envelope, encrypt_for_recipient, decrypt_from_sender,
  decrypt_envelope,
}
use inkmail.Messages.Signing.{
  Lawful, Signer, decoded-encode_hex, equal_fold_refl, calculate_id-nonempty,
}

-- The text is one line.
abbrev pub OneLine : Bytes → Type 0
OneLine = All (λ c. (c == 10) ≡ false)

pub split_line-append : (a b : Bytes) → OneLine a → split_line (a ++ (10 ∷ b)) ≡ some (a, b)
unfolding split_line
split_line-append [] b h = refl
split_line-append (c ∷ a) b h = rw (h.0, split_line-append a b h.1) refl

module _ (crypto : MessageCrypto) (law : Lawful crypto) (aead : Aead) where
  -- The recipient's keys belong together, and the AEAD seals bytes as bytes.
  pub record Receiver (local : Identity) : Type 0 where
    pub named : validate_namespace crypto.unicode local.namespace ≡ ok tt
    pub key_bytes : IsBytes local.public_key
    pub private_size : length local.encryption_private_key ≡ 32
    pub pair : local.encryption_public_key ≡ crypto.public_key local.encryption_private_key
    pub sealed_bytes :
        (key nonce plain : Bytes) → IsBytes plain → IsBytes (aead.seal key nonce plain [])

  abbrev pub sealed_envelope :
      Message → Identity → Identity → Bytes → Bytes → Bytes → EncryptedMessage
  sealed_envelope m sender local ephemeral nonce shared =
      let em =
        unsigned_envelope crypto aead m local.encryption_public_key local.namespace ephemeral nonce
          shared in
      record em { signature = calculate_signature crypto em sender.private_key }

  pub encrypt_for_recipient-sealed_envelope :
      (m : Message) (sender local : Identity) (ephemeral nonce shared : Bytes)
      → Receiver local
      → crypto.ecdh ephemeral local.encryption_public_key ≡ some shared
      → encrypt_for_recipient crypto aead m local.encryption_public_key local.namespace
          sender.private_key ephemeral nonce
        ≡ ok (sealed_envelope m sender local ephemeral nonce shared)
  unfolding encrypt_for_recipient
  encrypt_for_recipient-sealed_envelope m sender local ephemeral nonce shared r e =
      let size : length local.encryption_public_key ≡ 32 =
        rw (r.pair) (law.public_size local.encryption_private_key) in
      rw (size, e) refl

  -- A message of bytes as `New` leaves it, from a sender to the namespace and key of a recipient.
  pub record Addressed (sender local : Identity) (m : Message) : Type 0 where
    pub id : m.id ≡ calculate_id crypto m
    pub sender_namespace : m.sender_namespace ≡ sender.namespace
    pub sender_public_key : m.sender_public_key ≡ encode_hex sender.public_key
    pub recipient_namespace : m.recipient_namespace ≡ local.namespace
    pub recipient_public_key : m.recipient_public_key ≡ encode_hex local.public_key
    pub plain_bytes : IsBytes (m.subject ++ (10 ∷ m.body))

  verify_encrypted-sealed_envelope :
      (m : Message) (sender local : Identity) (ephemeral nonce shared : Bytes)
      → Signer crypto sender
      → Receiver local
      → Addressed sender local m
      → verify_encrypted crypto (sealed_envelope m sender local ephemeral nonce shared) ≡ ok tt
  unfolding verify_encrypted validate_id calculate_signature unsigned_envelope calculate_id
  verify_encrypted-sealed_envelope m sender local ephemeral nonce shared s r a =
      let unsigned =
        unsigned_envelope crypto aead m local.encryption_public_key local.namespace ephemeral nonce
          shared in
      let message = encrypted_signing_bytes crypto unsigned in
      let hash = crypto.sha256 (signing_bytes crypto m) in
      let signature = crypto.sign sender.private_key message in
      let some_id : same m.id [] ≡ false = rw (a.id) (calculate_id-nonempty crypto law m) in
      let id : decoded 32 m.id MessageError.invalid_id ≡ ok hash =
        ap (λ t. decoded 32 t MessageError.invalid_id) (a.id)
        ∙ decoded-encode_hex 32 hash MessageError.invalid_id
            (law.hash_bytes (signing_bytes crypto m)) (law.hash_size (signing_bytes crypto m)) in
      let named : validate_namespace crypto.unicode m.sender_namespace ≡ ok tt =
        rw (a.sender_namespace) s.named in
      let key : decoded 32 m.sender_public_key MessageError.invalid_sender_key
          ≡ ok sender.public_key =
        ap (λ t. decoded 32 t MessageError.invalid_sender_key) a.sender_public_key
        ∙ decoded-encode_hex 32 sender.public_key MessageError.invalid_sender_key s.key_bytes
            s.key_size in
      simp (
        some_id,
        id,
        named,
        r.named,
        key,
        decoded-encode_hex 64 signature MessageError.invalid_signature (s.signature_bytes message)
            (s.signature_size message),
        s.signs message,
      )

  -- What is decrypted from an envelope whose plain text is split into these parts.
  abbrev pub opened : Message → Identity → Bytes × Bytes → Message
  opened m local parts = record {
    id = m.id;
    sender_namespace = m.sender_namespace;
    sender_public_key = m.sender_public_key;
    recipient_namespace = local.namespace;
    recipient_public_key = m.recipient_public_key;
    subject = parts.0;
    body = parts.1;
    created_at = m.created_at;
    signature = [];
  }

  pub decrypt_from_sender-sealed_envelope :
      (m : Message) (sender local : Identity) (ephemeral nonce shared : Bytes)
      (parts : Bytes × Bytes)
      → Signer crypto sender
      → Receiver local
      → Addressed sender local m
      → IsBytes nonce
      → length nonce ≡ 12
      → crypto.ecdh ephemeral local.encryption_public_key ≡ some shared
      → split_line (m.subject ++ (10 ∷ m.body)) ≡ some parts
      → decrypt_from_sender crypto aead
          (sealed_envelope m sender local ephemeral nonce shared)
          local.encryption_private_key
          local.namespace
        ≡ ok (opened m local parts)
  unfolding decrypt_from_sender unsigned_envelope
  decrypt_from_sender-sealed_envelope m sender local ephemeral nonce shared parts s r a nb ns e
        split =
      let verified = verify_encrypted-sealed_envelope m sender local ephemeral nonce shared s r a in
      let key : decoded 32 m.sender_public_key MessageError.invalid_sender_key
          ≡ ok sender.public_key =
        ap (λ t. decoded 32 t MessageError.invalid_sender_key) a.sender_public_key
        ∙ decoded-encode_hex 32 sender.public_key MessageError.invalid_sender_key s.key_bytes
            s.key_size in
      let plain = m.subject ++ (10 ∷ m.body) in
      let sealed = aead.seal (message_key crypto shared m.id) nonce plain [] in
      let agreed : crypto.ecdh local.encryption_private_key (crypto.public_key ephemeral)
          ≡ some shared =
        law.agree local.encryption_private_key ephemeral
        ∙ ap (crypto.ecdh ephemeral) (sym r.pair)
        ∙ e in
      simp (
        verified,
        key,
        decoded-encode_hex 32 (crypto.public_key ephemeral) MessageError.invalid_ephemeral_key
            (law.public_bytes ephemeral) (law.public_size ephemeral),
        decoded-encode_hex 12 nonce MessageError.invalid_nonce nb ns,
        decode_hex-encode_hex sealed
            (r.sealed_bytes (message_key crypto shared m.id) nonce plain a.plain_bytes),
        r.private_size,
        agreed,
        aead.unseal-seal (message_key crypto shared m.id) nonce plain [],
        split,
      )

  -- The checks on what was decrypted, when its ID is right.
  pub decrypt_envelope-sealed_envelope :
      (m : Message) (sender local : Identity) (ephemeral nonce shared : Bytes)
      (parts : Bytes × Bytes)
      → Signer crypto sender
      → Receiver local
      → Addressed sender local m
      → IsBytes nonce
      → length nonce ≡ 12
      → crypto.ecdh ephemeral local.encryption_public_key ≡ some shared
      → split_line (m.subject ++ (10 ∷ m.body)) ≡ some parts
      → decrypt_envelope crypto aead local (sealed_envelope m sender local ephemeral nonce shared)
        ≡ (verify_id crypto (opened m local parts) >>= λ u. ok (opened m local parts))
  unfolding decrypt_envelope unsigned_envelope
  decrypt_envelope-sealed_envelope m sender local ephemeral nonce shared parts s r a nb ns e split =
      let verified = verify_encrypted-sealed_envelope m sender local ephemeral nonce shared s r a in
      let decrypted =
        decrypt_from_sender-sealed_envelope m sender local ephemeral nonce shared parts s r a nb ns
          e split in
      let recipient : equal_fold m.recipient_public_key (encode_hex local.public_key) ≡ true =
        rw (a.recipient_public_key) (equal_fold_refl (encode_hex local.public_key)) in
      simp (verified, decrypted, same_refl m.id, same_refl local.namespace, recipient)
