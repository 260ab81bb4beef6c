-- ===== src/Relays/Addresses.antt =====
-- `DaddyAddresses` of internal/network/relays.go: the relays of the environment or of the file, in dial
-- order, then the configured Daddy, then the built-in one. A file that is missing or wrong gives no
-- relays.
use inkmail.Base.{
  ℕ, ◌≡◌, ◌≢◌, true, false, not, ◌||◌, List, [], ◌∷◌, ◌++◌, Option, if◌then◌else◌, Bytes, same,
  trim_space, Result, ok, err,
}
use inkmail.Daddy.{Libraries}
use inkmail.Meta.{Metadata, daddy_address_from_db}
use inkmail.Base.Decimal.{member}
use inkmail.Relays.{Relay, RelayError, default_daddy_address}
use inkmail.Relays.Parse.{parse_env_relays, load_relays_file}
use inkmail.Relays.Order.{select_relays}

-- The variables INKMAIL_RELAYS and INKMAIL_DADDY, and the file.
pub record Settings : Type 0 where
  pub env_relays : Bytes
  pub env_daddy : Bytes
  pub file : Option Bytes

abbrev pub or_none : Result RelayError (List Relay) → List Relay
or_none (ok rs) = rs
or_none (err e) = []

-- An address that is not blank and not there yet is added at the end.
unfoldable pub add_address : Bytes → List Bytes → List Bytes
add_address a as_ = if same a [] || member a as_ then as_ else as_ ++ (a ∷ [])

unfoldable pub add_relays : List Relay → List Bytes → List Bytes
unfolding add_address
add_relays [] as_ = as_
add_relays (r ∷ rs) as_ = add_relays rs (add_address (trim_space r.address) as_)

abbrev pub or_default : List Bytes → List Bytes
or_default [] = default_daddy_address ∷ []
or_default (a ∷ as_) = a ∷ as_

module _ (lib : Libraries) (draw : ℕ → ℕ → ℕ) where
  unfoldable pub configured_relays : Settings → List Relay
  configured_relays s =
      if not (same (trim_space s.env_relays) [])
      then parse_env_relays lib (trim_space s.env_relays)
      else if not (same (trim_space s.env_daddy) [])
      then parse_env_relays lib (trim_space s.env_daddy)
      else or_none (load_relays_file lib s.file)

  unfoldable pub daddy_addresses : Settings → Metadata → List Bytes
  unfolding configured_relays add_relays
  daddy_addresses s t =
      let found = add_relays (select_relays draw (configured_relays s)) [] in
      or_default (add_address (trim_space (daddy_address_from_db t)) found)

-- The list has no blank address and none twice.
abbrev pub Clean : List Bytes → Type 0
Clean [] = Unit
Clean (a ∷ as_) = (a ≢ []) × (member a as_ ≡ false) × Clean as_

abbrev pub Listed : List Bytes → Relay → Type 0
Listed as_ r = trim_space r.address ≢ [] → member (trim_space r.address) as_ ≡ true
