-- ===== src/Tests/Mail.antt =====
-- A message on its way from one identity to another, at concrete inputs. In the tests every public key,
-- every signature and, but for one text, every hash is a row of equal bytes, and the exchange always
-- gives one secret.
use inkmail.Base.{
  ◌<◌, ◌≡◌, ◌≢◌, refl, true, if◌then◌else◌, [], ◌∷◌, ◌++◌, some, Bytes, IsBytes, All-append, codes,
  ok, err, arith, length, same, contains, has_prefix, trim_space, trim_left, trim_right, is_space,
}
use inkmail.Hex.{encode_hex}
use inkmail.Identity.{Identity, validate_namespace, any_space_or_control}
use inkmail.Messages.{
  Message, MessageCrypto, EncryptedMessage, new, draft, calculate_id, signing_bytes, split_line,
  encrypt_for_recipient, decrypt_envelope, id_mismatch,
}
use inkmail.Messages.Signing.{Lawful, Signer}
use inkmail.Messages.Sealing.{Receiver}
use inkmail.Messages.Delivery.{decrypt_envelope-new, decrypt_envelope-new_two_lines}
use inkmail.Tests.Frames.{plain_aead}
use inkmail.Tests.Envelopes.{bytes_of_size, length-bytes_of_size, sized-IsBytes}
use inkmail.Tests.Handshakes.{unicode, identity, alice_named, bob_named}

-- The text of one byte 1 has a hash of its own.
abbrev hash : Bytes → Bytes
hash m = if same m (1 ∷ []) then 0 ∷ bytes_of_size 31 else bytes_of_size 32

hash-IsBytes : (m : Bytes) → IsBytes (hash m)
unfolding bytes_of_size
hash-IsBytes m = ground arith

length-hash : (m : Bytes) → length (hash m) ≡ 32
length-hash m = ground (arith, length-bytes_of_size 31, length-bytes_of_size 32)

abbrev pub crypto : MessageCrypto
crypto = record {
  unicode = unicode;
  sha256 = hash;
  public_key = λ k. bytes_of_size 32;
  ecdh = λ a b. some (codes "secret");
  sign = λ k m. bytes_of_size 64;
  verify = λ k m s. true;
  marshal = λ u. length (u.subject) ∷ [];
  marshal_encrypted = λ u. [];
}

pub lawful : Lawful crypto
lawful = record {
  hash_bytes = hash-IsBytes;
  hash_size = length-hash;
  public_bytes = λ k. sized-IsBytes;
  public_size = λ k. length-bytes_of_size 32;
  agree = λ a b. refl;
}

abbrev pub alice : Identity
alice = identity (codes "alice")

abbrev pub bob : Identity
bob = identity (codes "bob")

signature-IsBytes : IsBytes (bytes_of_size 64)
unfolding bytes_of_size
signature-IsBytes = omega arith

pub signer : Signer crypto alice
signer = record {
  named = alice_named;
  key_bytes = sized-IsBytes;
  key_size = length-bytes_of_size 32;
  signature_bytes = λ m. signature-IsBytes;
  signature_size = λ m. length-bytes_of_size 64;
  signs = λ m. refl;
}

sealed-IsBytes :
    (key nonce plain : Bytes) → IsBytes plain → IsBytes (plain_aead.seal key nonce plain [])
sealed-IsBytes key nonce plain p = All-append (λ b. b < 256) plain _ p (omega arith)

pub receiver : Receiver crypto lawful plain_aead bob
receiver = record {
  named = bob_named;
  key_bytes = sized-IsBytes;
  private_size = length-bytes_of_size 32;
  pair = refl;
  sealed_bytes = sealed-IsBytes;
}

pub nonce-IsBytes : IsBytes (bytes_of_size 12)
unfolding bytes_of_size
nonce-IsBytes = omega arith

-- What `New` makes of a subject.
abbrev pub letter : Bytes → Message
letter subject =
    let m = draft crypto alice (codes "bob") (bytes_of_size 32) subject (codes "body") 7 in
    record m { id = calculate_id crypto m; signature = encode_hex (bytes_of_size 64) }

pub made :
    new crypto alice (codes "bob") (bytes_of_size 32) (codes " ink ") (codes "body") 7
    ≡ ok (letter (codes "ink"))
unfolding new validate_namespace any_space_or_control same contains has_prefix bytes_of_size
    trim_space trim_left trim_right is_space
made = refl

pub trimmed : trim_space (codes " ink ") ≡ codes "ink"
unfolding trim_space trim_left trim_right is_space
trimmed = refl

decrypt_envelope-new_example :
    (em : EncryptedMessage) × (encrypt_for_recipient crypto plain_aead
        (letter (codes "ink"))
        (bytes_of_size 32)
        (codes "bob")
        (bytes_of_size 64)
        (bytes_of_size 32)
        (bytes_of_size 12)
      ≡ ok em)
    × (decrypt_envelope crypto plain_aead bob em
        ≡ ok (record (letter (codes "ink")) { signature = [] }))
decrypt_envelope-new_example =
    decrypt_envelope-new crypto lawful plain_aead alice bob (codes " ink ") (codes "body")
      (bytes_of_size 32) (bytes_of_size 12) (codes "secret") 7 (letter (codes "ink")) signer
      receiver nonce-IsBytes (length-bytes_of_size 12) refl (rw trimmed (refl, (refl, (refl, tt))))
      (rw trimmed (omega arith)) (omega arith) made

abbrev two_lines : Bytes
two_lines = 97 ∷ 10 ∷ 98 ∷ []

made_two_lines :
    new crypto alice (codes "bob") (bytes_of_size 32) two_lines (codes "body") 7
    ≡ ok (letter two_lines)
unfolding new validate_namespace any_space_or_control same contains has_prefix bytes_of_size
    trim_space trim_left trim_right is_space
made_two_lines = refl

not_trimmed : trim_space two_lines ≡ two_lines
unfolding trim_space trim_left trim_right is_space
not_trimmed = refl

cut : split_line (trim_space two_lines) ≡ some (codes "a", codes "b")
unfolding split_line
cut = rw not_trimmed refl

hash_apart :
    hash (
      signing_bytes crypto (record (letter two_lines) {
        subject = codes "a";
        body = codes "b" ++ (10 ∷ codes "body");
      }))
    ≢ hash (signing_bytes crypto (letter two_lines))
unfolding signing_bytes same bytes_of_size
hash_apart = λ e. ground arith

decrypt_envelope-new_two_lines_example :
    (em : EncryptedMessage) × (encrypt_for_recipient crypto plain_aead
        (letter two_lines)
        (bytes_of_size 32)
        (codes "bob")
        (bytes_of_size 64)
        (bytes_of_size 32)
        (bytes_of_size 12)
      ≡ ok em)
    × (decrypt_envelope crypto plain_aead bob em ≡ err id_mismatch)
decrypt_envelope-new_two_lines_example =
    decrypt_envelope-new_two_lines crypto lawful plain_aead alice bob two_lines (codes "body")
      (bytes_of_size 32) (bytes_of_size 12) (codes "secret") (codes "a") (codes "b") 7
      (letter two_lines) signer receiver nonce-IsBytes (length-bytes_of_size 12) refl cut
      (rw not_trimmed (omega arith)) (omega arith) made_two_lines hash_apart
