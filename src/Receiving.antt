-- ===== src/Receiving.antt =====
-- How a node receives mail, internal/network/messaging.go: `handleIncomingMessage`,
-- `receiveMailboxEnvelope`, `receiveEncryptedEnvelope` and `sendDeliveryReceiptToRelays`, over Mailbox,
-- Messages, Letters, Peers, Meta and the outbox. The failures of SQLite are not modelled. JSON, the
-- cryptography, what is drawn at random and what the relays answer are the parameter `World`.
pub mod Letters
pub mod Stored
use inkmail.Base.{
  ℕ, Bool, true, false, not, ◌||◌, List, [], ◌∷◌, Option, none, some, if◌then◌else◌, Bytes, codes,
  same, trim_space, Result, ok, err, or_err, map_err, reject_if, ◌>>=◌, ◌>>◌,
}
use inkmail.Hex.{decode_hex}
use inkmail.Identity.{Identity}
use inkmail.Wire.Channel.{Aead}
use inkmail.Store.Schema.{Store}
use inkmail.Letters.{Letter, Receipt, status_delivered, mark_delivered_from_receipt}
use inkmail.Letters.Storing.{StoreError, store_message}
use inkmail.Mailbox
use inkmail.Mailbox.{
  MailboxEnvelope, MailboxPayload, MailboxError, Crypto, Drawn, open_envelope,
  wrap_delivery_receipt,
}
use inkmail.Messages.{
  Message, EncryptedMessage, MessageCrypto, MessageError, new, encrypt_for_recipient,
  decrypt_envelope,
}
use inkmail.Meta.{Metadata, MetaError, get_or_create_mailbox_id}
use inkmail.Outgoing.{QueueError, queue_and_send}
use inkmail.Peers.Directory.{PeerIdentity, PeerError, record_peer_identity, record_peer_contact}

-- What a node keeps, as far as mail changes it.
pub record Site : Type 0 where
  pub meta : Metadata
  pub letters : List Letter
  pub identities : List PeerIdentity
  pub store : Store

-- The random values that one receipt takes.
pub record ReceiptDraws : Type 0 where
  pub mailbox : Bytes
  pub ephemeral : Bytes
  pub nonce : Bytes
  pub wrapping : Drawn

pub record World : Type 0 where
  pub messages : MessageCrypto
  pub aead : Aead
  pub envelopes : Crypto EncryptedMessage
  pub parse_envelope : Bytes → Option MailboxEnvelope
  pub print_envelope : MailboxEnvelope → Bytes
  pub parse_receipt : Bytes → Option Bytes
  pub print_receipt : Bytes → Bytes
  pub accepts : Bytes → MailboxEnvelope → Bool
  pub daddies : List Bytes
  pub draws : ReceiptDraws
  pub now : ℕ

pub data ReceiveError : Type 0 where
  no_mailbox : MetaError → ReceiveError
  not_opened not_wrapped : MailboxError → ReceiveError
  not_decrypted not_made not_sealed : MessageError → ReceiveError
  not_stored : StoreError → ReceiveError
  not_recorded : PeerError → ReceiveError
  receipt_not_queued : QueueError → ReceiveError
  bad_hex_field invalid_receipt unmatched_receipt : ReceiveError

abbrev pub receipt_subject : Bytes
receipt_subject = codes "InkMail internal delivery receipt v3"

abbrev pub direction_received : Bytes
direction_received = codes "received"

abbrev pub Received : Type 0
Received = Result ReceiveError (Unit {0}) × Site

-- A step that gives a new table or fails; `update` writes the table.
unfoldable pub stepped {ℓ} :
    {E : Type 0} {A : Type ℓ} → Result E A → (E → ReceiveError) → Site → (A → Received) → Received
stepped (ok a) wrap s k = k a
stepped (err e) wrap s k = (err (wrap e), s)

-- What follows a part that may fail.
unfoldable pub continued : Received → (Site → Received) → Received
continued (ok u, s) k = k s
continued (err e, s) k = (err e, s)

-- The message that is stored: what was decrypted, with the envelope's headers and signature.
abbrev pub stored_form : EncryptedMessage → Message → Message
stored_form em decrypted = record {
  id = decrypted.id;
  sender_namespace = em.sender_namespace;
  sender_public_key = em.sender_public_key;
  recipient_namespace = em.recipient_namespace;
  recipient_public_key = em.recipient_public_key;
  subject = decrypted.subject;
  body = decrypted.body;
  created_at = em.created_at;
  signature = em.signature;
}

-- The answer to a MESSAGE request: the envelope is malformed, or whether it is delivered, with its ID.
pub data MessageAck : Type 0 where
  malformed_envelope : MessageAck
  answered : Bytes → Bool → MessageAck

module _ (w : World) (local : Identity) where
  open w use {
    messages, aead, envelopes, parse_envelope, print_envelope, parse_receipt, print_receipt,
    accepts, daddies, draws, now,
  }

  -- The message is stored before the sender is recorded, and stays if that fails.
  unfoldable pub receive_encrypted_envelope : EncryptedMessage → Site → Received
  receive_encrypted_envelope em s =
      stepped (decrypt_envelope messages aead local em) not_decrypted s λ decrypted.
        stepped (or_err (decode_hex em.sender_public_key) bad_hex_field) (λ e. e) s
          λ sender.
            stepped
              (store_message (stored_form em decrypted) direction_received status_delivered now
                s.letters)
              not_stored s
              λ letters.
                let s' : Site = record s { letters = letters } in
                stepped
                  (record_peer_identity s.store.limits.peer_identities_global em.sender_namespace
                    sender none now s.identities)
                  not_recorded s' λ peers. (ok tt, record s' { identities = peers })

  -- The receipt for a message, wrapped for the sender's mailbox.
  unfoldable pub wrapped_receipt :
      Message
      → MailboxPayload EncryptedMessage
      → Bytes
      → Bytes
      → Bytes
      → Result ReceiveError MailboxEnvelope
  wrapped_receipt original payload mailbox sender_key sender_encryption_key = do
    receipt ← map_err not_made (
        new messages local original.sender_namespace sender_key receipt_subject
          (print_receipt original.id) now)
    inner ← map_err not_sealed (
        encrypt_for_recipient messages aead receipt sender_encryption_key original.sender_namespace
          local.private_key draws.ephemeral draws.nonce)
    map_err not_wrapped (
        wrap_delivery_receipt EncryptedMessage aead envelopes draws.wrapping inner
          payload.sender_mailbox_id mailbox local.encryption_public_key sender_encryption_key)

  -- `GetOrCreateMailboxID` is called again; the ID was created before.
  unfoldable pub send_delivery_receipt :
      Message → MailboxPayload EncryptedMessage → Bytes → Bytes → Site → Received
  send_delivery_receipt original payload sender_key sender_encryption_key s =
      let (found, meta) = get_or_create_mailbox_id draws.mailbox s.meta in
      let s' : Site = record s { meta = meta } in
      stepped found no_mailbox s' λ mailbox.
        stepped (wrapped_receipt original payload mailbox sender_key sender_encryption_key) (λ e. e)
          s'
          λ outer.
            stepped
              (queue_and_send accepts parse_envelope daddies print_envelope outer now s'.store)
              receipt_not_queued s' λ store. (ok tt, record s' { store = store })

  -- A delivery receipt settles the message that it names.
  unfoldable pub receive_receipt : Message → Site → Received
  receive_receipt decrypted s = elim (parse_receipt decrypted.body) [
    | none ↦ (err invalid_receipt, s)
    | some id ↦
        if same (trim_space id) []
        then (err invalid_receipt, s)
        else stepped (or_err (decode_hex decrypted.sender_public_key) bad_hex_field) (λ e. e) s
            λ key.
              let (matched, letters) =
                mark_delivered_from_receipt
                  (record {
                    message_id = id;
                    local_namespace = local.namespace;
                    local_public_key = local.public_key;
                    recipient_namespace = decrypted.sender_namespace;
                    recipient_public_key = key;
                  })
                  s.letters in
              if matched
              then (ok tt, record s { letters = letters })
              else (err unmatched_receipt, record s { letters = letters })
  ]

  -- The contact is recorded and the receipt sent after the message is stored.
  unfoldable pub after_stored : Message → MailboxPayload EncryptedMessage → Site → Received
  after_stored decrypted payload s =
      stepped (or_err (decode_hex decrypted.sender_public_key) bad_hex_field) (λ e. e) s
        λ sender.
          stepped (or_err (decode_hex payload.sender_encryption_key) bad_hex_field) (λ e. e) s
            λ encryption_key.
              stepped
                (record_peer_contact s.store.limits.peer_identities_global
                  decrypted.sender_namespace sender encryption_key payload.sender_mailbox_id now
                  s.identities)
                not_recorded s
                λ peers.
                  send_delivery_receipt decrypted payload sender encryption_key
                    (record s { identities = peers })

  -- A message, or a receipt, that was opened and decrypted.
  unfoldable pub receive_payload : MailboxPayload EncryptedMessage → Message → Site → Received
  receive_payload payload decrypted s =
      if same payload.kind (codes "delivery_receipt")
      then receive_receipt decrypted s
      else continued (receive_encrypted_envelope payload.envelope s)
          (after_stored decrypted payload)

  unfoldable pub receive_mailbox_envelope : MailboxEnvelope → Site → Received
  receive_mailbox_envelope e s =
      let (found, meta) = get_or_create_mailbox_id draws.mailbox s.meta in
      let s' : Site = record s { meta = meta } in
      stepped found no_mailbox s' λ mailbox.
        stepped
          (open_envelope EncryptedMessage aead envelopes local.encryption_private_key mailbox e)
          not_opened s'
          λ payload.
            stepped (decrypt_envelope messages aead local payload.envelope) not_decrypted s'
              λ decrypted. receive_payload payload decrypted s'

  unfoldable pub handle_incoming_message : Bytes → Site → MessageAck × Site
  handle_incoming_message body s = elim (parse_envelope body) [
    | none ↦ (malformed_envelope, s)
    | some e ↦ elim (Mailbox.validate e) [
      | err x ↦ (answered e.id false, s)
      | ok u ↦
          let (r, s') = receive_mailbox_envelope e s in
          elim r [ ok u' ↦ (answered e.id true, s') | err x ↦ (answered e.id false, s') ]
    ]
  ]
