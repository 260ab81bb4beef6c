-- ===== src/Messages/Signing.antt =====
-- What New makes and Verify accepts, in internal/message/message.go.
use inkmail.Base.{
  ℕ, ◌≡◌, ◌≤◌, ◌<◌, refl, true, false, not, [], ◌∷◌, ltb, ◌==◌, Bytes, IsBytes, same, same_refl,
  equal_fold, trim_space, length, ok, reject_if-ok, map_err-ok, arith, map, to_lower,
}
use inkmail.Hex.{encode_hex}
use inkmail.Hex.Laws.{decode_hex-encode_hex, length-encode_hex}
use inkmail.Identity.{Identity, validate_namespace}
use inkmail.Messages.{
  Message, MessageCrypto, MessageError, max_subject_length, max_body_length, decoded, signing_bytes,
  calculate_id, draft, new, verify_id, verify_message, invalid_recipient_namespace,
  invalid_recipient_key, empty_subject, subject_too_long, empty_body, body_too_long,
}

-- What SHA-256 and X25519 promise.
pub record Lawful (crypto : MessageCrypto) : Type 0 where
  pub hash_bytes : (m : Bytes) → IsBytes (crypto.sha256 m)
  pub hash_size : (m : Bytes) → length (crypto.sha256 m) ≡ 32
  pub public_bytes : (k : Bytes) → IsBytes (crypto.public_key k)
  pub public_size : (k : Bytes) → length (crypto.public_key k) ≡ 32
  pub agree :
      (a b : Bytes) → crypto.ecdh a (crypto.public_key b) ≡ crypto.ecdh b (crypto.public_key a)

-- A sender whose namespace and keys are well formed, and whose signatures its public key verifies.
pub record Signer (crypto : MessageCrypto) (id : Identity) : Type 0 where
  pub named : validate_namespace crypto.unicode id.namespace ≡ ok tt
  pub key_bytes : IsBytes id.public_key
  pub key_size : length id.public_key ≡ 32
  pub signature_bytes : (m : Bytes) → IsBytes (crypto.sign id.private_key m)
  pub signature_size : (m : Bytes) → length (crypto.sign id.private_key m) ≡ 64
  pub signs : (m : Bytes) → crypto.verify id.public_key m (crypto.sign id.private_key m) ≡ true

pub decoded-encode_hex :
    (n : ℕ) (bs : Bytes) (e : MessageError)
    → IsBytes bs
    → length bs ≡ n
    → decoded n (encode_hex bs) e ≡ ok bs
decoded-encode_hex n bs e b size = rw (decode_hex-encode_hex bs b) (ground arith)

pub equal_fold_refl : (a : Bytes) → equal_fold a a ≡ true
unfolding equal_fold
equal_fold_refl a = same_refl (map to_lower a)

module _ (crypto : MessageCrypto) where
  abbrev signed : Identity → Message → Message
  signed sender m = record m {
    id = calculate_id crypto m;
    signature = encode_hex (crypto.sign sender.private_key (signing_bytes crypto m));
  }

  -- What the checks of `New` give.
  pub record Made (sender : Identity) (recipient_namespace recipient_key subject body : Bytes)
      (now : ℕ) (m : Message) : Type 0 where
    pub recipient_named : validate_namespace crypto.unicode recipient_namespace ≡ ok tt
    pub recipient_size : length recipient_key ≡ 32
    pub nonempty : same subject [] ≡ false
    pub subject_fits : length subject ≤ max_subject_length
    pub body_nonempty : 0 < length body
    pub body_fits : length body ≤ max_body_length
    pub message :
        m ≡ signed sender (draft crypto sender recipient_namespace recipient_key subject body now)

  pub new-Made :
      (sender : Identity) (recipient_namespace recipient_key subject body : Bytes) (now : ℕ)
      (m : Message)
      → new crypto sender recipient_namespace recipient_key subject body now ≡ ok m
      → Made sender recipient_namespace recipient_key (trim_space subject) body now m
  unfolding new
  new-Made sender recipient_namespace recipient_key subject body now m h =
      let (u, named, h1) =
        map_err-ok (λ e. invalid_recipient_namespace)
          (validate_namespace crypto.unicode recipient_namespace) _ m h in
      let (size, h2) =
        reject_if-ok (not (length recipient_key == 32)) invalid_recipient_key _ m h1 in
      let (nonempty, h3) = reject_if-ok (same (trim_space subject) []) empty_subject _ m h2 in
      let (fits, h4) =
        reject_if-ok (ltb max_subject_length (length (trim_space subject))) subject_too_long _ m
          h3 in
      let (body_some, h5) = reject_if-ok (length body == 0) empty_body _ m h4 in
      let (body_fits, h6) = reject_if-ok (ltb max_body_length (length body)) body_too_long _ m h5 in
      record {
        recipient_named = named;
        recipient_size = ground arith;
        nonempty = nonempty;
        subject_fits = ground arith;
        body_nonempty = ground arith;
        body_fits = ground arith;
        message = cc;
      }

  module _ (law : Lawful crypto) where
    pub calculate_id-nonempty : (m : Message) → same (calculate_id crypto m) [] ≡ false
    unfolding calculate_id same
    calculate_id-nonempty m =
        let hash = crypto.sha256 (signing_bytes crypto m) in
        length-nonempty (encode_hex hash)
          (omega (arith, length-encode_hex hash, law.hash_size (signing_bytes crypto m)))
      where
        length-nonempty : (s : Bytes) → 0 < length s → same s [] ≡ false
        length-nonempty [] h = absurd (omega arith)
        length-nonempty (c ∷ s) h = refl

    -- Every message that `New` makes for a well-formed sender and a recipient key of bytes passes
    -- `Verify`, and its ID passes `VerifyID`.
    pub verify_message-new :
        (sender : Identity) (recipient_namespace recipient_key subject body : Bytes) (now : ℕ)
        (m : Message)
        → Signer crypto sender
        → IsBytes recipient_key
        → new crypto sender recipient_namespace recipient_key subject body now ≡ ok m
        → (verify_message crypto m ≡ ok tt) × (verify_id crypto m ≡ ok tt)
    unfolding verify_message verify_id signing_bytes calculate_id
    verify_message-new sender recipient_namespace recipient_key subject body now m s b h =
        let made = new-Made sender recipient_namespace recipient_key subject body now m h in
        let first =
          draft crypto sender recipient_namespace recipient_key (trim_space subject) body now in
        let message = signing_bytes crypto first in
        let signature = crypto.sign sender.private_key message in
        let some_id = calculate_id-nonempty first in
        rw (made.message) (
          simp (
            some_id,
            s.named,
            made.recipient_named,
            decoded-encode_hex 32 sender.public_key MessageError.invalid_sender_key s.key_bytes
                s.key_size,
            decoded-encode_hex 32 recipient_key MessageError.invalid_recipient_key b
                made.recipient_size,
            equal_fold_refl (calculate_id crypto first),
            decoded-encode_hex 64 signature MessageError.invalid_signature
                (s.signature_bytes message) (s.signature_size message),
            s.signs message,
          ),
          simp (some_id, same_refl (calculate_id crypto first)),
        )
