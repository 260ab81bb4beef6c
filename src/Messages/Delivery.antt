-- ===== src/Messages/Delivery.antt =====
-- From New of internal/message/message.go to decryptEncryptedEnvelope of internal/network/messaging.go.
use inkmail.Base.{
  ℕ, ◌≡◌, ◌≢◌, refl, sym, ap, ◌∙◌, true, false, [], ◌∷◌, ◌++◌, some, ◌==◌, Bytes, IsBytes,
  All-append, ◌<◌, same, same_iff, same_refl, trim_space, length, ok, err, ◌>>=◌, arith, Bool-cases,
  Option-cases, inl, inr,
}
use inkmail.Hex.{encode_hex, decode_hex}
use inkmail.Hex.Laws.{decode_hex-encode_hex}
use inkmail.Identity.{Identity}
use inkmail.Wire.Channel.{Aead}
use inkmail.Messages.{
  Message, MessageCrypto, EncryptedMessage, split_line, signing_bytes, calculate_id, new, verify_id,
  encrypt_for_recipient, decrypt_envelope, id_mismatch,
}
use inkmail.Messages.Signing.{Lawful, Signer, new-Made, calculate_id-nonempty}
use inkmail.Messages.Sealing.{
  OneLine, split_line-append, Receiver, Addressed, sealed_envelope, opened,
  encrypt_for_recipient-sealed_envelope, decrypt_envelope-sealed_envelope,
}

split_line-append_split :
    (s a b rest : Bytes) → split_line s ≡ some (a, b) → split_line (s ++ rest) ≡ some (a, b ++ rest)
unfolding split_line
split_line-append_split [] a b rest h = absurd (ground arith)
split_line-append_split (c ∷ s) a b rest h = elim (Bool-cases (c == 10)) [
  | inl e ↦ ground arith
  | inr e ↦ elim (Option-cases (split_line s)) [
    | inl none_left ↦ absurd (ground arith)
    | inr ((x, y), e') ↦ ground (arith, split_line-append_split s x y rest e')
  ]
]

same-false : (a b : Bytes) → a ≢ b → same a b ≡ false
same-false a b h = elim (Bool-cases (same a b)) [
  | inl e ↦ absurd (h ((same_iff a b).0 e))
  | inr e ↦ e
]

encode_hex-injective : (a b : Bytes) → IsBytes a → IsBytes b → encode_hex a ≡ encode_hex b → a ≡ b
encode_hex-injective a b p q e =
    ground (arith, sym (decode_hex-encode_hex a p) ∙ ap decode_hex e ∙ decode_hex-encode_hex b q)

module _ (crypto : MessageCrypto) (law : Lawful crypto) (aead : Aead) where
  pub new-Addressed :
      (sender local : Identity) (subject body : Bytes) (now : ℕ) (m : Message)
      → IsBytes (trim_space subject)
      → IsBytes body
      → new crypto sender local.namespace local.public_key subject body now ≡ ok m
      → Addressed crypto law aead sender local m
  unfolding calculate_id signing_bytes
  new-Addressed sender local subject body now m sb bb h =
      let made = new-Made crypto sender local.namespace local.public_key subject body now m h in
      rw (made.message) (record {
        id = refl;
        sender_namespace = refl;
        sender_public_key = refl;
        recipient_namespace = refl;
        recipient_public_key = refl;
        plain_bytes =
            All-append (λ b. b < 256) (trim_space subject) (10 ∷ body) sb (omega arith, bb);
      })

  -- For a well-formed sender and a recipient whose keys belong together, a nonce of 12 bytes, a subject
  -- and a body of bytes, and a key exchange that succeeds: a message that `New` makes, whose trimmed
  -- subject is one line, is sealed, and the recipient decrypts the envelope to that message, less its
  -- signature.
  pub decrypt_envelope-new :
      (sender local : Identity) (subject body ephemeral nonce shared : Bytes) (now : ℕ)
      (m : Message)
      → Signer crypto sender
      → Receiver crypto law aead local
      → IsBytes nonce
      → length nonce ≡ 12
      → crypto.ecdh ephemeral local.encryption_public_key ≡ some shared
      → OneLine (trim_space subject)
      → IsBytes (trim_space subject)
      → IsBytes body
      → new crypto sender local.namespace local.public_key subject body now ≡ ok m
      → (em : EncryptedMessage) × (encrypt_for_recipient crypto aead m local.encryption_public_key
            local.namespace sender.private_key ephemeral nonce
          ≡ ok em)
        × (decrypt_envelope crypto aead local em ≡ ok (record m { signature = [] }))
  unfolding verify_id calculate_id signing_bytes
  decrypt_envelope-new sender local subject body ephemeral nonce shared now m s r nb ns e line sb bb
        h =
      let a = new-Addressed sender local subject body now m sb bb h in
      let made = new-Made crypto sender local.namespace local.public_key subject body now m h in
      let one_line : OneLine m.subject = rw (made.message) line in
      let split = split_line-append m.subject m.body one_line in
      let named : opened crypto law aead m local (m.subject, m.body) ≡ record m { signature = [] } =
        ap (λ n. record m { signature = []; recipient_namespace = n })
          (sym a.recipient_namespace) in
      let verified : verify_id crypto (record m { signature = [] }) ≡ ok tt =
        let some_id : same m.id [] ≡ false = rw (a.id) (calculate_id-nonempty crypto law m) in
        let own_id : same (calculate_id crypto m) m.id ≡ true =
          rw (a.id) (same_refl (calculate_id crypto m)) in
        simp (some_id, own_id) in
      (
        sealed_envelope crypto law aead m sender local ephemeral nonce shared,
        encrypt_for_recipient-sealed_envelope crypto law aead m sender local ephemeral nonce shared
            r e,
        decrypt_envelope-sealed_envelope crypto law aead m sender local ephemeral nonce shared
              (m.subject, m.body) s r a nb ns e split
            ∙ ap (λ n. verify_id crypto n >>= λ u. ok n) named
            ∙ ap (λ v. v >>= λ u. ok (record m { signature = [] })) verified,
      )

  -- A message that `New` makes is never received if its trimmed subject holds a line break: for a
  -- well-formed sender, a recipient whose keys belong together, a nonce of 12 bytes, a subject and a body
  -- of bytes, and a key exchange that succeeds, it is sealed, and the recipient refuses the envelope,
  -- whose subject is cut at the line break, when SHA-256 tells the cut message from the whole one.
  pub decrypt_envelope-new_two_lines :
      (sender local : Identity) (subject body ephemeral nonce shared first rest : Bytes) (now : ℕ)
      (m : Message)
      → Signer crypto sender
      → Receiver crypto law aead local
      → IsBytes nonce
      → length nonce ≡ 12
      → crypto.ecdh ephemeral local.encryption_public_key ≡ some shared
      → split_line (trim_space subject) ≡ some (first, rest)
      → IsBytes (trim_space subject)
      → IsBytes body
      → new crypto sender local.namespace local.public_key subject body now ≡ ok m
      → crypto.sha256
          (signing_bytes crypto (record m { subject = first; body = rest ++ (10 ∷ m.body) }))
        ≢ crypto.sha256 (signing_bytes crypto m)
      → (em : EncryptedMessage) × (encrypt_for_recipient crypto aead m local.encryption_public_key
            local.namespace sender.private_key ephemeral nonce
          ≡ ok em)
        × (decrypt_envelope crypto aead local em ≡ err id_mismatch)
  unfolding verify_id calculate_id signing_bytes
  decrypt_envelope-new_two_lines sender local subject body ephemeral nonce shared first rest now m s
        r nb ns e line sb bb h apart =
      let a = new-Addressed sender local subject body now m sb bb h in
      let made = new-Made crypto sender local.namespace local.public_key subject body now m h in
      let cut : split_line m.subject ≡ some (first, rest) = rw (made.message) line in
      let split = split_line-append_split m.subject first rest (10 ∷ m.body) cut in
      let read = record m { subject = first; body = rest ++ (10 ∷ m.body); signature = [] } in
      let named : opened crypto law aead m local (first, rest ++ (10 ∷ m.body)) ≡ read =
        ap (λ n. record read { recipient_namespace = n }) (sym a.recipient_namespace) in
      let refused : verify_id crypto read ≡ err id_mismatch =
        let some_id : same m.id [] ≡ false = rw (a.id) (calculate_id-nonempty crypto law m) in
        let other : calculate_id crypto read ≢ m.id = λ eq. apart (
          encode_hex-injective _ _ (law.hash_bytes (signing_bytes crypto read))
            (law.hash_bytes (signing_bytes crypto m)) (eq ∙ a.id)) in
        simp (some_id, same-false (calculate_id crypto read) m.id other) in
      (
        sealed_envelope crypto law aead m sender local ephemeral nonce shared,
        encrypt_for_recipient-sealed_envelope crypto law aead m sender local ephemeral nonce shared
            r e,
        decrypt_envelope-sealed_envelope crypto law aead m sender local ephemeral nonce shared
              (first, rest ++ (10 ∷ m.body)) s r a nb ns e split
            ∙ ap (λ n. verify_id crypto n >>= λ u. ok n) named
            ∙ ap (λ v. v >>= λ u. ok read) refused,
      )
