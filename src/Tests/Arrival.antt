-- ===== src/Tests/Arrival.antt =====
-- A message that arrives, from its making to the recipient's table. A payload is printed as its time and
-- then its texts, each with its length in front.
use inkmail.Base.{
  ℕ, zero, suc, ◌+◌, ◌≤◌, ◌≡◌, refl, ap, sym, ◌∙◌, List, [], ◌∷◌, ◌++◌, Option, none, some, Bytes,
  codes, subst, true, ok, Result, arith, length, same, take, drop, take-append, drop-append,
}
use inkmail.Base.Utf8.{valid_utf8, valid_from, IsText}
use inkmail.Hex.{hex_digit, decode_pairs, decode_hex, encode_hex}
use inkmail.Limits.{defaults}
use inkmail.Store.Schema.{empty}
use inkmail.Mailbox.{
  MailboxEnvelope, MailboxPayload, Crypto, content, wrap_message, max_mailbox_payload,
}
use inkmail.Mailbox.Opening as Opening
use inkmail.Messages.{
  Message, calculate_id, signing_bytes, encrypted_signing_bytes, EncryptedMessage,
  encrypt_for_recipient, unsigned_envelope, calculate_signature, message_key,
}
use inkmail.Meta.{has_size, get_meta, mailbox_key}
use inkmail.Letters.{status_delivered}
use inkmail.Letters.Storing.{get_message, find_letter}
use inkmail.Receiving.{Site, World, receive_mailbox_envelope, direction_received}
use inkmail.Receiving.Stored.{PlainMessage, receive-new}
use inkmail.Tests.Holding.{token_a, token_b}
use inkmail.Tests.Frames.{plain_aead}
use inkmail.Tests.Envelopes.{
  token_a-IsText, bytes_of_size, length-bytes_of_size, sized-IsBytes, drawn, sized, valid_token_a,
  valid_token_b,
}
use inkmail.Tests.Mail.{
  crypto, lawful, alice, bob, letter, signer, receiver, nonce-IsBytes, made, trimmed,
}

unfoldable pub texts : List Bytes → Bytes
texts [] = []
texts (t ∷ ts) = length t ∷ (t ++ texts ts)

unfoldable pub read_texts : ℕ → Bytes → List Bytes
read_texts zero s = []
read_texts (suc n) [] = []
read_texts (suc n) (k ∷ s) = take k s ∷ read_texts n (drop k s)

read_texts-texts : (ts : List Bytes) → read_texts (length ts) (texts ts) ≡ ts
unfolding texts read_texts
read_texts-texts [] = refl
read_texts-texts (t ∷ ts) =
    rw
      (
        take-append t (texts ts) (length t) refl,
        drop-append t (texts ts) (length t) refl,
        read_texts-texts ts,
      )
      refl

abbrev parts : MailboxPayload EncryptedMessage → List Bytes
parts p =
    let em = p.envelope in
    p.kind ∷ p.sender_mailbox_id ∷ p.sender_encryption_key ∷ em.id ∷ em.sender_namespace
    ∷ em.sender_public_key ∷ em.recipient_namespace ∷ em.recipient_public_key
    ∷ em.recipient_encryption_key ∷ em.ephemeral_public_key ∷ em.nonce ∷ em.ciphertext
    ∷ em.signature ∷ []

unfoldable pub assemble : ℕ → List Bytes → Option (MailboxPayload EncryptedMessage)
assemble time
      (kind ∷ mailbox ∷ key ∷ id ∷ sn ∷ sk ∷ rn ∷ rk ∷ re ∷ ep ∷ nonce ∷ text ∷ signature ∷ []) =
    some (record {
      kind = kind;
      envelope = record {
        id = id;
        sender_namespace = sn;
        sender_public_key = sk;
        recipient_namespace = rn;
        recipient_public_key = rk;
        recipient_encryption_key = re;
        ephemeral_public_key = ep;
        nonce = nonce;
        ciphertext = text;
        created_at = time;
        signature = signature;
      };
      sender_mailbox_id = mailbox;
      sender_encryption_key = key;
    })
assemble time _ = none

abbrev marshal : MailboxPayload EncryptedMessage → Bytes
marshal p = p.envelope.created_at ∷ texts (parts p)

abbrev unmarshal : Bytes → Option (MailboxPayload EncryptedMessage)
unmarshal [] = none
unmarshal (time ∷ s) = assemble time (read_texts 13 s)

unmarshal-marshal : (p : MailboxPayload EncryptedMessage) → unmarshal (marshal p) ≡ some p
unfolding assemble
unmarshal-marshal p = ap (assemble p.envelope.created_at) (read_texts-texts (parts p))

abbrev envelopes : Crypto EncryptedMessage
envelopes = record {
  marshal = marshal;
  unmarshal = unmarshal;
  public_key = λ k. bytes_of_size 32;
  ecdh = λ a b. some (codes "secret");
  sha256 = λ b. b;
}

envelopes-Lawful : Opening.Lawful EncryptedMessage envelopes PlainMessage
envelopes-Lawful = record {
  unmarshal-marshal = λ p kind inner mailbox key. unmarshal-marshal p;
  nonempty = λ p. omega arith;
  key_bytes = λ k. sized-IsBytes;
  key_size = λ k. length-bytes_of_size 32;
  agree = λ a b. refl;
}

abbrev pub world : World
world = record {
  messages = crypto;
  aead = plain_aead;
  envelopes = envelopes;
  parse_envelope = λ b. none;
  print_envelope = λ e. e.id;
  parse_receipt = λ b. none;
  print_receipt = λ b. b;
  accepts = λ a e. true;
  daddies = [];
  draws = record {
    mailbox = bytes_of_size 32;
    ephemeral = bytes_of_size 32;
    nonce = bytes_of_size 12;
    wrapping = drawn;
  };
  now = 9;
}

abbrev pub site : Site
site = record {
  meta = (codes "mailbox_id", token_b) ∷ [];
  letters = [];
  identities = [];
  store = empty defaults;
}

abbrev ink : Message
ink = letter (codes "ink")

abbrev sealed_ink : EncryptedMessage
sealed_ink =
    let em =
      unsigned_envelope crypto plain_aead ink (bytes_of_size 32) (codes "bob") (bytes_of_size 32)
        (bytes_of_size 12) (codes "secret") in
    record em { signature = calculate_signature crypto em (bytes_of_size 64) }

ink_sealed :
    encrypt_for_recipient crypto plain_aead ink
      (bytes_of_size 32)
      (codes "bob")
      (bytes_of_size 64)
      (bytes_of_size 32)
      (bytes_of_size 12)
    ≡ ok sealed_ink
unfolding encrypt_for_recipient bytes_of_size
ink_sealed = refl

ink_fits :
    length (
        marshal (
          content EncryptedMessage plain_aead envelopes
            (codes "message")
            sealed_ink
            token_a
            (bytes_of_size 32)))
      + 4
    ≤ max_mailbox_payload
unfolding texts unsigned_envelope calculate_signature encrypted_signing_bytes message_key encode_hex
    bytes_of_size same calculate_id signing_bytes
ink_fits = omega arith

ok-injective : {E A : Type 0} (a b : A) → ◌≡◌ {A = Result E A} (ok a) (ok b) → a ≡ b
ok-injective a b e = cc

fits :
    (em : EncryptedMessage)
    → encrypt_for_recipient crypto plain_aead ink
        (bytes_of_size 32)
        (codes "bob")
        (bytes_of_size 64)
        (bytes_of_size 32)
        (bytes_of_size 12)
      ≡ ok em
    → length (
          marshal (
            content EncryptedMessage plain_aead envelopes
              (codes "message")
              em
              token_a
              (bytes_of_size 32)))
        + 4
      ≤ max_mailbox_payload
fits em e =
    subst
      (λ x.
        length (
            marshal (
              content EncryptedMessage plain_aead envelopes (codes "message") x token_a
                (bytes_of_size 32)))
          + 4
        ≤ max_mailbox_payload)
      (ok-injective sealed_ink em (sym ink_sealed ∙ e)) ink_fits

mailbox_found : get_meta mailbox_key site.meta ≡ some token_b
unfolding get_meta same
mailbox_found = refl

mailbox_size : has_size 32 (decode_hex token_b) ≡ true
unfolding decode_hex decode_pairs hex_digit
mailbox_size = refl

none_stored : find_letter ink.id site.letters ≡ none
unfolding find_letter
none_stored = refl

alice-IsText : IsText (codes "alice")
unfolding valid_utf8 valid_from
alice-IsText = refl

bob-IsText : IsText (codes "bob")
unfolding valid_utf8 valid_from
bob-IsText = refl

receive-new_example :
    (em : EncryptedMessage) × (e : MailboxEnvelope) × (encrypt_for_recipient crypto plain_aead ink
        (bytes_of_size 32)
        (codes "bob")
        (bytes_of_size 64)
        (bytes_of_size 32)
        (bytes_of_size 12)
      ≡ ok em)
    × (wrap_message EncryptedMessage plain_aead envelopes drawn em token_b token_a
          (bytes_of_size 32)
          (bytes_of_size 32)
        ≡ ok e)
    × (get_message ink.id ((receive_mailbox_envelope world bob e site).1).letters
        ≡ ok (record {
          message = record ink { signature = em.signature };
          direction = direction_received;
          status = status_delivered;
          stored_at = 9;
        }))
receive-new_example =
    receive-new world bob lawful envelopes-Lawful alice (codes " ink ") (codes "body")
      (bytes_of_size 32) (bytes_of_size 12) (codes "secret") 7 ink drawn token_b token_a
      (codes "secret") site signer receiver nonce-IsBytes (length-bytes_of_size 12) refl
      (rw trimmed (refl, (refl, (refl, tt)))) (rw trimmed (omega arith)) (omega arith) made
      alice-IsText bob-IsText (omega arith) sized valid_token_b mailbox_size valid_token_a
      token_a-IsText sized-IsBytes (length-bytes_of_size 32) refl refl fits mailbox_found
      none_stored
