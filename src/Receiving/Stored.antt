-- ===== src/Receiving/Stored.antt =====
-- From a message that is made to the table of the recipient: New, EncryptForRecipient and WrapForMailbox, then
-- `receiveMailboxEnvelope` of internal/network/messaging.go.
use inkmail.Base.{
  ◌<◌, ◌^◌, ℕ, ◌+◌, ◌≡◌, ◌≤◌, refl, sym, ap, ◌∙◌, true, [], none, some, Bytes, IsBytes, codes,
  length, trim_space, Result, ok, inl,
}
use inkmail.Base.Utf8.{IsText}
use inkmail.Hex.{decode_hex}
use inkmail.Hex.Laws.{decode_hex-encode_hex, encode_hex-IsText}
use inkmail.Identity.{Identity}
use inkmail.Session.{validate_mailbox_id}
use inkmail.Letters.{status_delivered}
use inkmail.Letters.Storing.{find_letter, get_message, store_message}
use inkmail.Letters.Once.{Printed, get_message-store_message}
use inkmail.Mailbox.{
  MailboxEnvelope, Drawn, content, wrap_message, wrap_for_mailbox, max_mailbox_payload,
}
use inkmail.Mailbox.Opening as Opening
use inkmail.Messages.{
  Message, EncryptedMessage, new, encrypt_for_recipient, calculate_signature,
  encrypted_signing_bytes, unsigned_envelope, calculate_id,
}
use inkmail.Messages.Signing.{Lawful, Signer, equal_fold_refl, new-Made}
use inkmail.Messages.Sealing.{
  OneLine, Receiver, Addressed, sealed_envelope, encrypt_for_recipient-sealed_envelope,
}
use inkmail.Messages.Delivery.{decrypt_envelope-new, new-Addressed}
use inkmail.Meta.{get_meta, mailbox_key, has_size}
use inkmail.Receiving.{Site, World, stored_form, direction_received, receive_mailbox_envelope}
use inkmail.Receiving.Letters.{receive_mailbox_envelope-letters}

ok-injective {ℓ} : {E : Type 0} {A : Type ℓ} (a b : A) → ◌≡◌ {A = Result E A} (ok a) (ok b) → a ≡ b
ok-injective a b h = cc

-- What encoding/json represents as it is: texts in valid UTF-8 and a time of 64 bits.
pub record PlainMessage (em : EncryptedMessage) : Type 0 where
  pub id : IsText em.id
  pub sender_namespace : IsText em.sender_namespace
  pub sender_public_key : IsText em.sender_public_key
  pub recipient_namespace : IsText em.recipient_namespace
  pub recipient_public_key : IsText em.recipient_public_key
  pub recipient_encryption_key : IsText em.recipient_encryption_key
  pub ephemeral_public_key : IsText em.ephemeral_public_key
  pub nonce : IsText em.nonce
  pub ciphertext : IsText em.ciphertext
  pub created_at : em.created_at < 2 ^ 63
  pub signature : IsText em.signature

module _ (w : World) (local : Identity) where
  module _ (law : Lawful w.messages) (m : Message) (sender : Identity)
      (ephemeral nonce shared : Bytes) where
    abbrev sealed : EncryptedMessage
    sealed = sealed_envelope w.messages law w.aead m sender local ephemeral nonce shared

    sealed_envelope-stored_form :
        m.recipient_namespace ≡ local.namespace
        → stored_form sealed (record m { signature = [] })
          ≡ record m { signature = sealed.signature }
    unfolding unsigned_envelope
    sealed_envelope-stored_form n =
        ap (λ (t : Bytes). record m { signature = sealed.signature; recipient_namespace = t })
          (sym n)

    sealed_envelope-PlainMessage :
        Addressed w.messages law w.aead sender local m
        → IsText sender.namespace
        → IsText local.namespace
        → m.created_at < 2 ^ 63
        → PlainMessage sealed
    unfolding unsigned_envelope calculate_signature calculate_id
    sealed_envelope-PlainMessage a sn rn time = record {
      id = rw (a.id) (encode_hex-IsText _);
      sender_namespace = rw (a.sender_namespace) sn;
      sender_public_key = rw (a.sender_public_key) (encode_hex-IsText _);
      recipient_namespace = rn;
      recipient_public_key = rw (a.recipient_public_key) (encode_hex-IsText _);
      recipient_encryption_key = encode_hex-IsText _;
      ephemeral_public_key = encode_hex-IsText _;
      nonce = encode_hex-IsText _;
      ciphertext = encode_hex-IsText _;
      created_at = time;
      signature = encode_hex-IsText _;
    }

    module _ (signer : Signer w.messages sender) (receiver : Receiver w.messages law w.aead local)
        (a : Addressed w.messages law w.aead sender local m) where
      sealed_envelope-Printed :
          length local.public_key ≡ 32 → Printed (record m { signature = sealed.signature })
      unfolding calculate_signature
      sealed_envelope-Printed size =
          let signed_bytes = encrypted_signing_bytes w.messages (
            unsigned_envelope w.messages w.aead m local.encryption_public_key local.namespace
              ephemeral nonce shared) in
          record {
            sender = sender.public_key;
            sender_bytes = signer.key_bytes;
            sender_size = signer.key_size;
            sender_printed = a.sender_public_key;
            recipient = local.public_key;
            recipient_bytes = receiver.key_bytes;
            recipient_size = size;
            recipient_printed = a.recipient_public_key;
            signature = w.messages.sign sender.private_key signed_bytes;
            signature_IsBytes = signer.signature_bytes signed_bytes;
            signature_printed = refl;
          }

      sealed_envelope-sender : decode_hex sealed.sender_public_key ≡ some sender.public_key
      unfolding unsigned_envelope
      sealed_envelope-sender =
          ap decode_hex a.sender_public_key
          ∙ decode_hex-encode_hex sender.public_key signer.key_bytes

  -- A message that `New` makes for the namespace and key of a recipient, with a subject that is one line
  -- after trimming, is sealed and wrapped, and the recipient's `receiveMailboxEnvelope` leaves it in the
  -- table of messages, as received and delivered, with its subject and body, its sender, its time and the
  -- envelope's signature, whatever becomes of the contact and of the receipt. This is for a well-formed
  -- sender, a trimmed subject and a body of bytes, a recipient whose keys belong together and whose mailbox
  -- ID the envelope is addressed to, namespaces and a sender's mailbox ID in valid UTF-8, a time below 2^63,
  -- libraries that keep their promises, key exchanges that succeed, drawn values of the sizes asked for, a
  -- payload that has room in 4 MiB less 4 bytes, and an ID that is not in the table.
  pub receive-new :
      (law : Lawful w.messages) (env_law : Opening.Lawful EncryptedMessage w.envelopes PlainMessage)
      (sender : Identity) (subject body ephemeral nonce shared : Bytes) (sent_at : ℕ) (m : Message)
      (drawn : Drawn) (mailbox sender_mailbox wrap_shared : Bytes) (s : Site)
      → Signer w.messages sender
      → Receiver w.messages law w.aead local
      → IsBytes nonce
      → length nonce ≡ 12
      → w.messages.ecdh ephemeral local.encryption_public_key ≡ some shared
      → OneLine (trim_space subject)
      → IsBytes (trim_space subject)
      → IsBytes body
      → new w.messages sender local.namespace local.public_key subject body sent_at ≡ ok m
      → IsText sender.namespace
      → IsText local.namespace
      → m.created_at < 2 ^ 63
      → Opening.Sized drawn
      → validate_mailbox_id mailbox ≡ true
      → has_size 32 (decode_hex mailbox) ≡ true
      → validate_mailbox_id sender_mailbox ≡ true
      → IsText sender_mailbox
      → IsBytes sender.encryption_public_key
      → length sender.encryption_public_key ≡ 32
      → w.envelopes.public_key local.encryption_private_key ≡ local.encryption_public_key
      → w.envelopes.ecdh drawn.ephemeral (w.envelopes.public_key local.encryption_private_key)
        ≡ some wrap_shared
      → ((em : EncryptedMessage)
          → encrypt_for_recipient w.messages w.aead m local.encryption_public_key local.namespace
              sender.private_key ephemeral nonce
            ≡ ok em
          → length (
                w.envelopes.marshal (
                  content EncryptedMessage w.aead w.envelopes
                    (codes "message")
                    em
                    sender_mailbox
                    sender.encryption_public_key))
              + 4
            ≤ max_mailbox_payload)
      → get_meta mailbox_key s.meta ≡ some mailbox
      → find_letter m.id s.letters ≡ none
      → (em : EncryptedMessage) × (e : MailboxEnvelope) × (encrypt_for_recipient w.messages w.aead m
            local.encryption_public_key local.namespace sender.private_key ephemeral nonce
          ≡ ok em)
        × (wrap_message EncryptedMessage w.aead w.envelopes drawn em mailbox sender_mailbox
              sender.encryption_public_key local.encryption_public_key
            ≡ ok e)
        × (get_message m.id ((receive_mailbox_envelope w local e s).1).letters
            ≡ ok (record {
              message = record m { signature = em.signature };
              direction = direction_received;
              status = status_delivered;
              stored_at = w.now;
            }))
  unfolding wrap_message
  receive-new law env_law sender subject body ephemeral nonce shared sent_at m drawn mailbox
        sender_mailbox wrap_shared s signer receiver nb ns e line sb bb made sn rn time sized valid
        token sender_valid sender_text kb ks pair ws fits meta unknown =
      let (em, encrypted, decrypted) =
        decrypt_envelope-new w.messages law w.aead sender local subject body ephemeral nonce shared
          sent_at m signer receiver nb ns e line sb bb made in
      let sealed = sealed_envelope w.messages law w.aead m sender local ephemeral nonce shared in
      let same_envelope : em ≡ sealed = ok-injective em sealed (
        sym encrypted
        ∙ encrypt_for_recipient-sealed_envelope w.messages law w.aead m sender local ephemeral nonce
            shared receiver e) in
      let a = new-Addressed w.messages law w.aead sender local subject body sent_at m sb bb made in
      let plain : PlainMessage em =
        rw same_envelope
          (sealed_envelope-PlainMessage law m sender ephemeral nonce shared a sn rn time) in
      let (env, wrapped, opened) =
        Opening.open-wrap EncryptedMessage w.envelopes PlainMessage w.aead env_law drawn sized
          (codes "message") em mailbox sender_mailbox sender.encryption_public_key
          local.encryption_private_key mailbox wrap_shared (inl refl) valid sender_valid sender_text
          plain kb ks receiver.private_size (equal_fold_refl mailbox) ws (fits em encrypted) in
      let size =
        (new-Made w.messages sender local.namespace local.public_key subject body sent_at m
          made).recipient_size in
      let form : stored_form em (record m { signature = [] })
          ≡ record m { signature = em.signature } =
        rw same_envelope
          (sealed_envelope-stored_form law m sender ephemeral nonce shared a.recipient_namespace) in
      let printed : Printed (record m { signature = em.signature }) =
        rw same_envelope
          (sealed_envelope-Printed law m sender ephemeral nonce shared signer receiver a size) in
      let key : decode_hex em.sender_public_key ≡ some sender.public_key =
        rw same_envelope
          (sealed_envelope-sender law m sender ephemeral nonce shared signer receiver a) in
      let (ls, stored, found) =
        get_message-store_message (record m { signature = em.signature }) direction_received
          status_delivered w.now s.letters printed unknown in
      let kept =
        receive_mailbox_envelope-letters w local env
          (content EncryptedMessage w.aead w.envelopes (codes "message") em sender_mailbox
            sender.encryption_public_key)
          mailbox sender.public_key (record m { signature = [] }) ls s meta token opened refl
          decrypted key
          (ap (λ (x : Message). store_message x direction_received status_delivered w.now s.letters)
              form
            ∙ stored) in
      (
        em,
        env,
        encrypted,
        ap
              (λ (k : Bytes).
                wrap_for_mailbox EncryptedMessage w.aead w.envelopes drawn
                  (content EncryptedMessage w.aead w.envelopes (codes "message") em sender_mailbox
                    sender.encryption_public_key)
                  mailbox sender_mailbox sender.encryption_public_key k)
              (sym pair)
            ∙ wrapped,
        ap (get_message m.id) kept ∙ found,
      )
