-- ===== src/Peers/Contact/Printing.antt =====
-- What is printed of a contact bundle is parsed back, internal/database/peer_contact.go.
use inkmail.Base.{
  ℕ, ◌≡◌, refl, Bool, false, ◌&&◌, [], ◌∷◌, ◌++◌, ◌==◌, Bytes, IsBytes, All-append, contains,
  has_prefix, trim_space_no_space, is_space, length, ok, All, arith, ap, ◌∙◌, sym,
}
use inkmail.Hex.{encode_hex, decode_hex}
use inkmail.Hex.Laws.{decode_hex-encode_hex, encode_hex_no_space, encode_hex_no_colon}
use inkmail.Identity.{Unicode, separator, validate_namespace}
use inkmail.Peers.Contact.{
  PeerContact, split_separator, parse_parts, parse_peer_contact, print_contact,
}

-- The text does not end in a colon.
unfoldable pub ends_in_colon : Bytes → Bool
ends_in_colon [] = false
ends_in_colon (c ∷ []) = c == b':'
ends_in_colon (c ∷ d ∷ s) = ends_in_colon (d ∷ s)

split_separator-append :
    (a b : Bytes)
    → contains a separator ≡ false
    → ends_in_colon a ≡ false
    → split_separator (a ++ (separator ++ b)) ≡ a ∷ split_separator b
unfolding split_separator contains has_prefix ends_in_colon
split_separator-append [] b h e = refl
split_separator-append (c ∷ []) b h e = ground arith
split_separator-append (c ∷ d ∷ a) b h e =
    let rest = split_separator-append (d ∷ a) b (ground arith) e in
    let apart : ((c == b':') && (d == b':')) ≡ false = ground arith in rw (apart, rest) refl

-- The text has no colon.
abbrev NoColon : Bytes → Type 0
NoColon = All (λ c. (c == b':') ≡ false)

NoColon-apart : (a : Bytes) → NoColon a → (contains a separator ≡ false) × (ends_in_colon a ≡ false)
unfolding contains has_prefix ends_in_colon
NoColon-apart [] h = (refl, refl)
NoColon-apart (c ∷ []) h = (ground (arith, h.0), h.0)
NoColon-apart (c ∷ d ∷ a) h =
    let rest = NoColon-apart (d ∷ a) h.1 in (ground (arith, h.0, rest.0), rest.1)

split_separator_single : (a : Bytes) → NoColon a → split_separator a ≡ a ∷ []
unfolding split_separator
split_separator_single [] h = refl
split_separator_single (c ∷ []) h = refl
split_separator_single (c ∷ d ∷ a) h =
    let apart : ((c == b':') && (d == b':')) ≡ false = ground (arith, h.0) in
    rw (apart, split_separator_single (d ∷ a) h.1) refl

-- A contact whose parts are what `ParsePeerContact` itself gives, and whose namespace does not end in a
-- colon.
pub record Proper (unicode : Unicode) (c : PeerContact) : Type 0 where
  pub named : validate_namespace unicode c.namespace ≡ ok tt
  pub no_spaces : All (λ b. is_space b ≡ false) c.namespace
  pub no_colon_last : ends_in_colon c.namespace ≡ false
  pub key_bytes : IsBytes c.public_key
  pub key_size : length c.public_key ≡ 32
  pub encryption_bytes : IsBytes c.encryption_public_key
  pub encryption_size : length c.encryption_public_key ≡ 32
  pub mailbox_bytes : Bytes
  pub mailbox_IsBytes : IsBytes mailbox_bytes
  pub mailbox_size : length mailbox_bytes ≡ 32
  pub mailbox : c.mailbox_id ≡ encode_hex mailbox_bytes

validate_namespace-no_separator :
    (unicode : Unicode) (ns : Bytes)
    → validate_namespace unicode ns ≡ ok tt
    → contains ns separator ≡ false
unfolding validate_namespace
validate_namespace-no_separator unicode ns h = ground arith

parse_parts_ok :
    (unicode : Unicode) (c : PeerContact) (p : Proper unicode c)
    → parse_parts unicode (
        c.namespace
        ∷ encode_hex c.public_key
        ∷ encode_hex c.encryption_public_key
        ∷ c.mailbox_id
        ∷ [])
      ≡ ok c
unfolding parse_parts
parse_parts_ok unicode c p =
    let same_namespace = trim_space_no_space c.namespace p.no_spaces in
    let key = decode_hex-encode_hex c.public_key p.key_bytes in
    let encryption = decode_hex-encode_hex c.encryption_public_key p.encryption_bytes in
    let mailbox =
      ap decode_hex p.mailbox ∙ decode_hex-encode_hex p.mailbox_bytes p.mailbox_IsBytes in
    simp
      (
        same_namespace, p.named, key, encryption, mailbox, p.key_size, p.encryption_size,
        p.mailbox_size,
      )
      (ap (λ m. ok (record c { mailbox_id = m })) (sym p.mailbox))

module _ (unicode : Unicode) (c : PeerContact) (p : Proper unicode c) where
  key_text_apart : NoColon (encode_hex c.public_key)
  key_text_apart = encode_hex_no_colon c.public_key p.key_bytes

  encryption_text_apart : NoColon (encode_hex c.encryption_public_key)
  encryption_text_apart = encode_hex_no_colon c.encryption_public_key p.encryption_bytes

  mailbox_apart : NoColon c.mailbox_id
  mailbox_apart = rw (p.mailbox) (encode_hex_no_colon p.mailbox_bytes p.mailbox_IsBytes)

  print_contact_no_space : All (λ b. is_space b ≡ false) (print_contact c)
  unfolding print_contact is_space
  print_contact_no_space =
      let NoSpace = λ (b : ℕ). is_space b ≡ false in
      let mailbox : All NoSpace c.mailbox_id =
        rw (p.mailbox) (encode_hex_no_space p.mailbox_bytes p.mailbox_IsBytes) in
      All-append NoSpace c.namespace _ p.no_spaces (
        refl,
        (
          refl,
          All-append NoSpace (encode_hex c.public_key) _
              (encode_hex_no_space c.public_key p.key_bytes)
              (
                refl,
                (
                  refl,
                  All-append NoSpace (encode_hex c.encryption_public_key) _
                      (encode_hex_no_space c.encryption_public_key p.encryption_bytes)
                      (refl, (refl, mailbox)),
                ),
              ),
        ),
      )

  split-print_contact :
      split_separator (print_contact c)
      ≡ c.namespace
        ∷ encode_hex c.public_key
        ∷ encode_hex c.encryption_public_key
        ∷ c.mailbox_id
        ∷ []
  unfolding print_contact
  split-print_contact =
      let first = validate_namespace-no_separator unicode c.namespace p.named in
      let second = NoColon-apart (encode_hex c.public_key) key_text_apart in
      let third = NoColon-apart (encode_hex c.encryption_public_key) encryption_text_apart in
      split_separator-append c.namespace _ first p.no_colon_last
      ∙ ap (λ r. c.namespace ∷ r)
          (split_separator-append (encode_hex c.public_key) _ second.0 second.1
            ∙ ap (λ r. encode_hex c.public_key ∷ r)
                (split_separator-append (encode_hex c.encryption_public_key) _ third.0 third.1
                  ∙ ap (λ r. encode_hex c.encryption_public_key ∷ r)
                      (split_separator_single c.mailbox_id mailbox_apart)))

  -- A contact with a valid namespace that has no ASCII white space and does not end in a colon, 32-byte keys
  -- and a mailbox printed from 32 bytes is parsed back from its printed form.
  pub parse_peer_contact-print_contact : parse_peer_contact unicode (print_contact c) ≡ ok c
  unfolding parse_peer_contact
  parse_peer_contact-print_contact =
      rw (trim_space_no_space (print_contact c) print_contact_no_space, split-print_contact)
        (parse_parts_ok unicode c p)
