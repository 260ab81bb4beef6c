-- ===== src/Receiving/Letters.antt =====
-- Each step of `receiveMailboxEnvelope`, internal/network/messaging.go, keeps the table of messages once
-- the message is stored.
use inkmail.Base.{◌≡◌, refl, ◌∙◌, true, false, List, some, Bytes, codes, same, Result, ok, err}
use inkmail.Hex.{decode_hex}
use inkmail.Identity.{Identity}
use inkmail.Letters.{Letter, status_delivered}
use inkmail.Letters.Storing.{store_message}
use inkmail.Mailbox.{MailboxEnvelope, MailboxPayload, open_envelope}
use inkmail.Messages.{Message, EncryptedMessage, decrypt_envelope}
use inkmail.Meta.{get_meta, mailbox_key, has_size, checked_mailbox}
use inkmail.Meta.Mailbox.{get_or_create_mailbox_id-found}
use inkmail.Receiving.{
  Site, World, Received, ReceiveError, stepped, stored_form, direction_received,
  receive_encrypted_envelope, send_delivery_receipt, after_stored, receive_payload,
  receive_mailbox_envelope, continued,
}

-- A step whose continuation leaves the letters leaves them.
stepped-letters {ℓ} :
    {E : Type 0} {A : Type ℓ} (r : Result E A) (wrap : E → ReceiveError) (s : Site)
    (k : A → Received) (ls : List Letter)
    → s.letters ≡ ls
    → ((a : A) → ((k a).1).letters ≡ ls)
    → ((stepped r wrap s k).1).letters ≡ ls
unfolding stepped
stepped-letters (ok a) wrap s k ls e h = h a
stepped-letters (err x) wrap s k ls e h = e

continued-letters :
    (r : Received) (k : Site → Received) (ls : List Letter)
    → (r.1).letters ≡ ls
    → ((s : Site) → ((k s).1).letters ≡ s.letters)
    → ((continued r k).1).letters ≡ ls
unfolding continued
continued-letters (ok u, s) k ls e h = h s ∙ e
continued-letters (err x, s) k ls e h = e

stepped-ok {ℓ} :
    {E : Type 0} {A : Type ℓ} (a : A) (wrap : E → ReceiveError) (s : Site) (k : A → Received)
    → stepped (ok a) wrap s k ≡ k a
unfolding stepped
stepped-ok a wrap s k = refl

module _ (w : World) (local : Identity) where
  send_delivery_receipt-letters :
      (original : Message) (payload : MailboxPayload EncryptedMessage) (key encryption_key : Bytes)
      (s : Site)
      → ((send_delivery_receipt w local original payload key encryption_key s).1).letters
        ≡ s.letters
  unfolding send_delivery_receipt
  send_delivery_receipt-letters original payload key encryption_key s =
      stepped-letters _ _ _ _ s.letters refl λ mailbox.
        stepped-letters _ _ _ _ s.letters refl
          λ outer. stepped-letters _ _ _ _ s.letters refl λ store. refl

  after_stored-letters :
      (decrypted : Message) (payload : MailboxPayload EncryptedMessage) (s : Site)
      → ((after_stored w local decrypted payload s).1).letters ≡ s.letters
  unfolding after_stored
  after_stored-letters decrypted payload s = stepped-letters _ _ _ _ s.letters refl λ sender.
      stepped-letters _ _ _ _ s.letters refl λ encryption_key.
        stepped-letters _ _ _ _ s.letters refl λ peers.
          send_delivery_receipt-letters decrypted payload sender encryption_key
            (record s { identities = peers })

  receive_encrypted-letters :
      (em : EncryptedMessage) (decrypted : Message) (sender : Bytes) (ls : List Letter) (s : Site)
      → decrypt_envelope w.messages w.aead local em ≡ ok decrypted
      → decode_hex em.sender_public_key ≡ some sender
      → store_message (stored_form em decrypted) direction_received status_delivered w.now s.letters
        ≡ ok ls
      → ((receive_encrypted_envelope w local em s).1).letters ≡ ls
  unfolding receive_encrypted_envelope
  receive_encrypted-letters em decrypted sender ls s d k e =
      rw (receive_encrypted_envelope, d, stepped-ok, k, stepped-ok, e, stepped-ok)
        (stepped-letters _ _ _ _ ls refl λ peers. refl)

  receive_payload-letters :
      (payload : MailboxPayload EncryptedMessage) (decrypted : Message) (sender : Bytes)
      (ls : List Letter) (s : Site)
      → payload.kind ≡ codes "message"
      → decrypt_envelope w.messages w.aead local payload.envelope ≡ ok decrypted
      → decode_hex payload.envelope.sender_public_key ≡ some sender
      → store_message
          (stored_form payload.envelope decrypted)
          direction_received
          status_delivered
          w.now
          s.letters
        ≡ ok ls
      → ((receive_payload w local payload decrypted s).1).letters ≡ ls
  unfolding receive_payload same
  receive_payload-letters payload decrypted sender ls s kind d k stored =
      let other : same payload.kind (codes "delivery_receipt") ≡ false = rw kind refl in
      rw (receive_payload, other)
        (continued-letters (receive_encrypted_envelope w local payload.envelope s)
          (after_stored w local decrypted payload) ls
          (receive_encrypted-letters payload.envelope decrypted sender ls s d k stored)
          (after_stored-letters decrypted payload))

  -- An envelope that opens to a message leaves it stored, whatever becomes of the contact and of the receipt.
  pub receive_mailbox_envelope-letters :
      (e : MailboxEnvelope) (payload : MailboxPayload EncryptedMessage) (mailbox sender : Bytes)
      (decrypted : Message) (ls : List Letter) (s : Site)
      → get_meta mailbox_key s.meta ≡ some mailbox
      → has_size 32 (decode_hex mailbox) ≡ true
      → open_envelope EncryptedMessage w.aead w.envelopes local.encryption_private_key mailbox e
        ≡ ok payload
      → payload.kind ≡ codes "message"
      → decrypt_envelope w.messages w.aead local payload.envelope ≡ ok decrypted
      → decode_hex payload.envelope.sender_public_key ≡ some sender
      → store_message
          (stored_form payload.envelope decrypted)
          direction_received
          status_delivered
          w.now
          s.letters
        ≡ ok ls
      → ((receive_mailbox_envelope w local e s).1).letters ≡ ls
  unfolding receive_mailbox_envelope
  receive_mailbox_envelope-letters e payload mailbox sender decrypted ls s m size o kind d k
        stored =
      let found = get_or_create_mailbox_id-found w.draws.mailbox s.meta mailbox m in
      let value : checked_mailbox mailbox ≡ ok mailbox = rw size refl in
      rw (receive_mailbox_envelope, found, value, stepped-ok, o, stepped-ok, d, stepped-ok)
        (receive_payload-letters payload decrypted sender ls (record s { meta = s.meta }) kind d k
          stored)
