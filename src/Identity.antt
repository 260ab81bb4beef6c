-- ===== src/Identity.antt =====
-- internal/identity/identity.go: namespaces, fingerprints and addresses. Reading and writing the key
-- files is not modelled. How Go decodes the runes of a text, and which of them are white space or
-- control characters, is the parameter `Unicode`.
use inkmail.Base.{
  ℕ, Bool, true, false, ◌||◌, List, [], ◌∷◌, ◌++◌, none, some, ltb, ◌==◌, if◌then◌else◌, Bytes,
  codes, same, contains, length, take, Result, ok, reject_if, or_err, ◌>>=◌, ◌>>◌,
}
use inkmail.Hex.{encode_hex, decode_hex}

pub record Unicode : Type 0 where
  pub runes : Bytes → List ℕ
  pub is_space : ℕ → Bool
  pub is_control : ℕ → Bool

pub record Identity : Type 0 where
  pub namespace : Bytes
  pub public_key : Bytes
  pub private_key : Bytes
  pub anonymous : Bool
  pub encryption_public_key : Bytes
  pub encryption_private_key : Bytes

pub data NamespaceError : Type 0 where
  empty_namespace namespace_too_long has_separator has_space_or_control : NamespaceError

abbrev pub separator : Bytes
separator = codes "::"

module _ (unicode : Unicode) where
  -- The loop over the characters.
  unfoldable pub any_space_or_control : List ℕ → Bool
  any_space_or_control [] = false
  any_space_or_control (r ∷ rs) =
      if unicode.is_space r || unicode.is_control r then true else any_space_or_control rs

  unfoldable pub validate_namespace : Bytes → Result NamespaceError (Unit {0})
  unfolding any_space_or_control
  validate_namespace namespace = do
    reject_if (same namespace []) empty_namespace
    reject_if (ltb 64 (length namespace)) namespace_too_long
    reject_if (contains namespace separator) has_separator
    reject_if (any_space_or_control (unicode.runes namespace)) has_space_or_control

unfoldable pub fingerprint : Bytes → Bytes
fingerprint key = if ltb (length key) 8 then encode_hex key else encode_hex (take 8 key)

unfoldable pub fingerprint_from_hex : Bytes → Bytes
unfolding fingerprint
fingerprint_from_hex text = elim (decode_hex text) [ none ↦ text | some key ↦ fingerprint key ]

unfoldable pub address : Identity → Bytes
address id = id.namespace ++ (separator ++ fingerprint id.public_key)

unfoldable pub address_full : Identity → Bytes
address_full id = id.namespace ++ (separator ++ encode_hex id.public_key)

pub data KeyError : Type 0 where
  not_hexadecimal wrong_size : KeyError

unfoldable pub decode_encryption_public_key : Bytes → Result KeyError Bytes
decode_encryption_public_key text = do
  key ← or_err (decode_hex text) not_hexadecimal
  reject_if (if length key == 32 then false else true) wrong_size
  ok key
