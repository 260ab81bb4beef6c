-- ===== src/Peers/Contact.antt =====
-- The contact bundle of internal/database/peer_contact.go and the peer ID of internal/database/peers.go.
pub mod Printing
use inkmail.Base.{
  ℕ, ◌≡◌, refl, Bool, false, ◌&&◌, List, [], ◌∷◌, ◌++◌, Option, none, some, ◌==◌, if◌then◌else◌,
  Bytes, IsBytes, same, contains, has_prefix, trim_space, trim_space_no_space, is_space, to_lower,
  map, length, Result, ok, err, reject_if, or_err, map_err, ◌>>=◌, ◌>>◌, All, arith, ap, ◌∙◌, sym,
}
use inkmail.Hex.{encode_hex, decode_hex}
use inkmail.Hex.Laws.{decode_hex-encode_hex, encode_hex_no_space, encode_hex_no_colon}
use inkmail.Identity.{Unicode, separator, validate_namespace}

pub record PeerContact : Type 0 where
  pub namespace : Bytes
  pub public_key : Bytes
  pub encryption_public_key : Bytes
  pub mailbox_id : Bytes

pub data ContactError : Type 0 where
  not_four_parts not_two_parts invalid_namespace : ContactError
  invalid_public_key invalid_encryption_key invalid_mailbox empty_peer_id no_public_key
        short_fingerprint :
      ContactError

-- A character in front of the first part.
abbrev pub in_front : ℕ → List Bytes → List Bytes
in_front c [] = (c ∷ []) ∷ []
in_front c (p ∷ ps) = (c ∷ p) ∷ ps

-- `strings.Split(s, "::")`.
unfoldable pub split_separator : Bytes → List Bytes
split_separator [] = [] ∷ []
split_separator (c ∷ []) = (c ∷ []) ∷ []
split_separator (c ∷ d ∷ s) =
    let rest = split_separator s in
    let later = split_separator (d ∷ s) in
    if c == b':' && d == b':' then [] ∷ rest else in_front c later

abbrev pub key_of_size : ℕ → Option Bytes → ContactError → Result ContactError Bytes
key_of_size n none e = err e
key_of_size n (some k) e = if length k == n then ok k else err e

module _ (unicode : Unicode) where
  abbrev pub checked_namespace : Bytes → Result ContactError (Unit {0})
  checked_namespace ns = map_err (λ e. invalid_namespace) (validate_namespace unicode ns)

  unfoldable pub parse_parts : List Bytes → Result ContactError PeerContact
  parse_parts (ns ∷ k ∷ e ∷ m ∷ []) = do
    checked_namespace (trim_space ns)
    key ← key_of_size 32 (decode_hex k) invalid_public_key
    encryption_key ← key_of_size 32 (decode_hex e) invalid_encryption_key
    mailbox ← key_of_size 32 (decode_hex m) invalid_mailbox
    ok (record {
      namespace = trim_space ns;
      public_key = key;
      encryption_public_key = encryption_key;
      mailbox_id = encode_hex mailbox;
    })
  parse_parts _ = err not_four_parts

  unfoldable pub parse_peer_contact : Bytes → Result ContactError PeerContact
  unfolding parse_parts split_separator
  parse_peer_contact raw = parse_parts (split_separator (trim_space raw))

  -- The last checks of `ParsePeerID`.
  unfoldable pub check_peer_key : Bytes → Bytes → Result ContactError (Bytes × Bytes)
  check_peer_key ns key_hex = do
    checked_namespace ns
    reject_if (same key_hex []) no_public_key
    key ← or_err (decode_hex key_hex) invalid_public_key
    if length key == 32
        then ok (ns, key)
        else if length key == 8
        then err short_fingerprint
        else err invalid_public_key

  unfoldable pub parse_peer_parts : List Bytes → Result ContactError (Bytes × Bytes)
  unfolding check_peer_key
  parse_peer_parts (ns ∷ k ∷ []) = check_peer_key (trim_space ns) (trim_space (map to_lower k))
  parse_peer_parts _ = err not_two_parts

  unfoldable pub parse_peer_id : Bytes → Result ContactError (Bytes × Bytes)
  unfolding parse_peer_parts split_separator
  parse_peer_id raw =
      if same (trim_space raw) []
      then err empty_peer_id
      else parse_peer_parts (split_separator (trim_space raw))

-- `PeerContact.String`.
unfoldable pub print_contact : PeerContact → Bytes
print_contact c =
    c.namespace
    ++ (separator
        ++ (encode_hex c.public_key
            ++ (separator ++ (encode_hex c.encryption_public_key ++ (separator ++ c.mailbox_id)))))
