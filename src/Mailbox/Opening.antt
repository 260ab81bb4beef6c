-- ===== src/Mailbox/Opening.antt =====
-- What is closed for a mailbox is opened by its owner.
use inkmail.Base.{
  ℕ, ◌+◌, ◌≤◌, ◌<◌, ◌≡◌, true, some, Bytes, IsBytes, codes, same_iff, equal_fold,
  trim_space_no_space, length, ok, arith, refl, inl, inr, ◌∙◌, ◌⊎◌,
}
use inkmail.Base.Utf8.{valid_utf8, valid_from, IsText}
use inkmail.Hex.{encode_hex, decode_hex}
use inkmail.Hex.Laws.{decode_hex-encode_hex, encode_hex_no_space, encode_hex-IsText}
use inkmail.Session.{validate_mailbox_id}
use inkmail.Wire.Channel.{Aead}
use inkmail.Mailbox.{
  MailboxEnvelope, MailboxPayload, Crypto, Drawn, max_mailbox_payload, validate, pad, unpad, is_key,
  content, derive_mailbox_key, mailbox_associated_data, sealed_envelope, wrap_for_mailbox,
  check_payload, open_with, open_envelope,
}
use inkmail.Mailbox.Padding.{unpad-pad}

encode_hex_valid :
    (bs : Bytes) → IsBytes bs → length bs ≡ 32 → validate_mailbox_id (encode_hex bs) ≡ true
unfolding validate_mailbox_id
encode_hex_valid bs b size =
    rw (trim_space_no_space (encode_hex bs) (encode_hex_no_space bs b), decode_hex-encode_hex bs b)
      (ground arith)

kind-IsText :
    (kind : Bytes) → (kind ≡ codes "message") ⊎ (kind ≡ codes "delivery_receipt") → IsText kind
unfolding valid_utf8 valid_from
kind-IsText kind (inl e) = rw e refl
kind-IsText kind (inr e) = rw e refl

-- What is drawn has the sizes that are asked for.
pub record Sized (drawn : Drawn) : Type 0 where
  pub id_bytes : IsBytes drawn.id
  pub id_size : length drawn.id ≡ 32
  pub nonce_size : length drawn.nonce ≡ 12
  pub exact : (n : ℕ) → length (drawn.filler n) ≡ n

-- `Plain` are the inner messages that JSON represents as they are: those whose texts are valid UTF-8 and
-- whose numbers have 64 bits.
module _ (Inner : Type 0) (crypto : Crypto Inner) (Plain : Inner → Type 0) where
  -- What the libraries promise: JSON gives back what it was given, when that is plain and its texts are
  -- valid UTF-8, and is never empty; public keys are 32 bytes, and both sides of an exchange derive the
  -- same secret.
  pub record Lawful : Type 0 where
    pub unmarshal-marshal :
        (p : MailboxPayload Inner)
        → IsText p.kind
        → Plain p.envelope
        → IsText p.sender_mailbox_id
        → IsText p.sender_encryption_key
        → crypto.unmarshal (crypto.marshal p) ≡ some p
    pub nonempty : (p : MailboxPayload Inner) → 0 < length (crypto.marshal p)
    pub key_bytes : (k : Bytes) → IsBytes (crypto.public_key k)
    pub key_size : (k : Bytes) → length (crypto.public_key k) ≡ 32
    pub agree :
        (a b : Bytes) → crypto.ecdh a (crypto.public_key b) ≡ crypto.ecdh b (crypto.public_key a)

  module _ (aead : Aead) (law : Lawful) (drawn : Drawn) (sized : Sized drawn) where
    sealed_envelope_valid :
        (mailbox shared padded : Bytes)
        → validate_mailbox_id mailbox ≡ true
        → validate (sealed_envelope Inner aead crypto drawn mailbox shared padded) ≡ ok tt
    unfolding validate sealed_envelope
    sealed_envelope_valid mailbox shared padded valid =
        let id = encode_hex_valid drawn.id sized.id_bytes sized.id_size in
        let key =
          decode_hex-encode_hex (crypto.public_key drawn.ephemeral)
            (law.key_bytes drawn.ephemeral) in
        let size =
          aead.length-seal
            (derive_mailbox_key Inner aead crypto shared mailbox (encode_hex drawn.id)) drawn.nonce
            padded (mailbox_associated_data mailbox (encode_hex drawn.id)) in
        rw (id, valid, key) (ground (arith, law.key_size drawn.ephemeral, sized.nonce_size, size))

    wrap_ok :
        (content : MailboxPayload Inner)
        (mailbox sender_mailbox sender_key recipient_key shared padded : Bytes)
        → validate_mailbox_id mailbox ≡ true
        → validate_mailbox_id sender_mailbox ≡ true
        → length sender_key ≡ 32
        → length recipient_key ≡ 32
        → crypto.ecdh drawn.ephemeral recipient_key ≡ some shared
        → pad drawn.filler (crypto.marshal content) ≡ ok padded
        → wrap_for_mailbox Inner aead crypto drawn content mailbox sender_mailbox sender_key
            recipient_key
          ≡ ok (sealed_envelope Inner aead crypto drawn mailbox shared padded)
    unfolding wrap_for_mailbox
    wrap_ok content mailbox sender_mailbox sender_key recipient_key shared padded v w ks kr e p =
        rw (v, w, e, p) (ground arith)

    check_payload_ok :
        (payload : MailboxPayload Inner)
        → (payload.kind ≡ codes "message") ⊎ (payload.kind ≡ codes "delivery_receipt")
        → validate_mailbox_id payload.sender_mailbox_id ≡ true
        → is_key (decode_hex payload.sender_encryption_key) ≡ true
        → crypto.unmarshal (crypto.marshal payload) ≡ some payload
        → check_payload Inner aead crypto (crypto.marshal payload) ≡ ok payload
    unfolding check_payload
    check_payload_ok payload kind v k back =
        rw (back, v, k)
          (ground (
            arith,
            kind,
            same_iff payload.kind (codes "message"),
            same_iff payload.kind (codes "delivery_receipt"),
          ))

    open_ok :
        (payload : MailboxPayload Inner) (mailbox shared padded private_key expected : Bytes)
        → validate_mailbox_id mailbox ≡ true
        → equal_fold mailbox expected ≡ true
        → length private_key ≡ 32
        → crypto.ecdh private_key (crypto.public_key drawn.ephemeral) ≡ some shared
        → unpad padded ≡ ok (crypto.marshal payload)
        → check_payload Inner aead crypto (crypto.marshal payload) ≡ ok payload
        → open_envelope Inner aead crypto private_key expected
            (sealed_envelope Inner aead crypto drawn mailbox shared padded)
          ≡ ok payload
    unfolding open_envelope open_with sealed_envelope
    open_ok payload mailbox shared padded private_key expected v f k e u c =
        let valid = sealed_envelope_valid mailbox shared padded v in
        let key =
          decode_hex-encode_hex (crypto.public_key drawn.ephemeral)
            (law.key_bytes drawn.ephemeral) in
        let opened =
          aead.unseal-seal
            (derive_mailbox_key Inner aead crypto shared mailbox (encode_hex drawn.id)) drawn.nonce
            padded (mailbox_associated_data mailbox (encode_hex drawn.id)) in
        rw (valid, f, key, e, opened, u, c)
          (ground (arith, k, law.key_size drawn.ephemeral, sized.nonce_size))

    -- With libraries that keep their promises and drawn values of the sizes asked for: a message that JSON
    -- represents as it is, or such a delivery receipt, for a valid mailbox, from a valid mailbox that is
    -- valid UTF-8 and a 32-byte sender key, whose JSON has room in 4 MiB less 4 bytes and for which the key
    -- exchange succeeds, is closed, and the holder of the recipient's private key, expecting that mailbox
    -- up to the case of the digits, opens it to exactly what was closed.
    pub open-wrap :
        (kind : Bytes) (inner : Inner)
        (mailbox sender_mailbox sender_key private_key expected shared : Bytes)
        → (kind ≡ codes "message") ⊎ (kind ≡ codes "delivery_receipt")
        → validate_mailbox_id mailbox ≡ true
        → validate_mailbox_id sender_mailbox ≡ true
        → IsText sender_mailbox
        → Plain inner
        → IsBytes sender_key
        → length sender_key ≡ 32
        → length private_key ≡ 32
        → equal_fold mailbox expected ≡ true
        → crypto.ecdh drawn.ephemeral (crypto.public_key private_key) ≡ some shared
        → length (crypto.marshal (content Inner aead crypto kind inner sender_mailbox sender_key))
            + 4
          ≤ max_mailbox_payload
        → (e : MailboxEnvelope) × (wrap_for_mailbox Inner aead crypto drawn
              (content Inner aead crypto kind inner sender_mailbox sender_key)
              mailbox
              sender_mailbox
              sender_key
              (crypto.public_key private_key)
            ≡ ok e)
          × (open_envelope Inner aead crypto private_key expected e
              ≡ ok (content Inner aead crypto kind inner sender_mailbox sender_key))
    open-wrap kind inner mailbox sender_mailbox sender_key private_key expected shared k v w text
          plain b ks ps f e fits =
        let payload = content Inner aead crypto kind inner sender_mailbox sender_key in
        let returned =
          law.unmarshal-marshal payload (kind-IsText kind k) plain text
            (encode_hex-IsText sender_key) in
        let (padded, padding, aligned, room, least, back) =
          unpad-pad drawn.filler sized.exact (crypto.marshal payload) (law.nonempty payload) fits in
        let key : is_key (decode_hex payload.sender_encryption_key) ≡ true =
          rw (decode_hex-encode_hex sender_key b) (ground arith) in
        (
          sealed_envelope Inner aead crypto drawn mailbox shared padded,
          wrap_ok payload mailbox sender_mailbox sender_key (crypto.public_key private_key) shared
              padded v w ks (law.key_size private_key) e padding,
          open_ok payload mailbox shared padded private_key expected v f ps
              (law.agree private_key drawn.ephemeral ∙ e) back
              (check_payload_ok payload k w key returned),
        )
