-- ===== src/Tests/Envelopes.antt =====
-- The session's scope and the mailbox envelope at concrete inputs. The libraries of the tests are functions
-- that keep their promises: all public keys are equal, the exchange always gives one secret, and a
-- payload is printed with the lengths of its parts.
use inkmail.Base.{
  ◌<◌, ℕ, suc, zero, ◌+◌, ◌≤◌, ◌≡◌, refl, true, [], ◌∷◌, ◌++◌, Option, none, some, Bytes, IsBytes,
  codes, ok, arith, length, inr, same, equal_fold, trim_space, trim_left, trim_right, is_space,
  to_lower, take, drop, take-append, drop-append,
}
use inkmail.Base.Utf8.{valid_utf8, valid_from, IsText}
use inkmail.Hex.{hex_digit, decode_pairs, decode_hex, encode_hex}
use inkmail.Session.{validate_mailbox_id}
use inkmail.Mailbox.{
  MailboxEnvelope, MailboxPayload, Crypto, Drawn, content, wrap_for_mailbox, open_envelope,
  max_mailbox_payload,
}
use inkmail.Mailbox.Opening.{Sized, Lawful, open-wrap}
use inkmail.Tests.Holding.{token_a, token_b}
use inkmail.Tests.Frames.{plain_aead}

unfoldable pub bytes_of_size : ℕ → Bytes
bytes_of_size zero = []
bytes_of_size (suc n) = 4 ∷ bytes_of_size n

pub length-bytes_of_size : (n : ℕ) → length (bytes_of_size n) ≡ n
unfolding bytes_of_size
length-bytes_of_size zero = refl
length-bytes_of_size (suc n) = omega (arith, length-bytes_of_size n)

-- The message inside is a number; the lengths of the first two texts stand in front of the texts.
abbrev marshal : MailboxPayload ℕ → Bytes
marshal p =
    p.envelope
    ∷ length p.kind
    ∷ length p.sender_mailbox_id
    ∷ (p.kind ++ (p.sender_mailbox_id ++ p.sender_encryption_key))

abbrev unmarshal : Bytes → Option (MailboxPayload ℕ)
unmarshal (inner ∷ k ∷ m ∷ rest) = some (record {
  kind = take k rest;
  envelope = inner;
  sender_mailbox_id = take m (drop k rest);
  sender_encryption_key = drop m (drop k rest);
})
unmarshal _ = none

unmarshal-marshal : (p : MailboxPayload ℕ) → unmarshal (marshal p) ≡ some p
unmarshal-marshal p =
    rw
      (
        take-append p.kind (p.sender_mailbox_id ++ p.sender_encryption_key) (length p.kind) refl,
        drop-append p.kind (p.sender_mailbox_id ++ p.sender_encryption_key) (length p.kind) refl,
        take-append p.sender_mailbox_id p.sender_encryption_key (length p.sender_mailbox_id) refl,
        drop-append p.sender_mailbox_id p.sender_encryption_key (length p.sender_mailbox_id) refl,
      )
      refl

abbrev crypto : Crypto ℕ
crypto = record {
  marshal = marshal;
  unmarshal = unmarshal;
  public_key = λ k. bytes_of_size 32;
  ecdh = λ a b. some (codes "secret");
  sha256 = λ b. b;
}

pub sized-IsBytes : IsBytes (bytes_of_size 32)
unfolding bytes_of_size
sized-IsBytes = omega arith

abbrev Word : ℕ → Type 0
Word n = n < 9223372036854775808

lawful : Lawful ℕ crypto Word
lawful = record {
  unmarshal-marshal = λ p kind inner mailbox key. unmarshal-marshal p;
  nonempty = λ p. omega arith;
  key_bytes = λ k. sized-IsBytes;
  key_size = λ k. length-bytes_of_size 32;
  agree = λ a b. refl;
}

abbrev pub drawn : Drawn
drawn = record {
  ephemeral = bytes_of_size 32;
  id = bytes_of_size 32;
  nonce = bytes_of_size 12;
  filler = bytes_of_size;
}

pub sized : Sized drawn
sized = record {
  id_bytes = sized-IsBytes;
  id_size = length-bytes_of_size 32;
  nonce_size = length-bytes_of_size 12;
  exact = length-bytes_of_size;
}

pub valid_token_a : validate_mailbox_id token_a ≡ true
unfolding validate_mailbox_id decode_hex decode_pairs hex_digit trim_space trim_left trim_right
    is_space
valid_token_a = refl

pub valid_token_b : validate_mailbox_id token_b ≡ true
unfolding validate_mailbox_id decode_hex decode_pairs hex_digit trim_space trim_left trim_right
    is_space
valid_token_b = refl

pub token_a-IsText : IsText token_a
unfolding valid_utf8 valid_from
token_a-IsText = refl

same_mailbox : equal_fold token_b token_b ≡ true
unfolding equal_fold to_lower same
same_mailbox = refl

abbrev receipt : MailboxPayload ℕ
receipt = content ℕ plain_aead crypto (codes "delivery_receipt") 6 token_a (bytes_of_size 32)

receipt_fits : length (marshal receipt) + 4 ≤ max_mailbox_payload
unfolding encode_hex bytes_of_size
receipt_fits = omega arith

open-wrap_example :
    (e : MailboxEnvelope) × (wrap_for_mailbox ℕ plain_aead crypto drawn receipt token_b token_a
        (bytes_of_size 32)
        (bytes_of_size 32)
      ≡ ok e)
    × (open_envelope ℕ plain_aead crypto (bytes_of_size 32) token_b e ≡ ok receipt)
open-wrap_example =
    open-wrap ℕ crypto Word plain_aead lawful drawn sized (codes "delivery_receipt") 6 token_b
      token_a (bytes_of_size 32) (bytes_of_size 32) token_b (codes "secret") (inr refl)
      valid_token_b valid_token_a token_a-IsText (omega arith) sized-IsBytes
      (length-bytes_of_size 32) (length-bytes_of_size 32) same_mailbox refl receipt_fits
