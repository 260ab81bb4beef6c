-- ===== src/Relays/Parse.antt =====
-- `ParseRelays`, `LoadRelaysFile` and `parseEnvRelays` of internal/network/relays.go. The program keeps
-- the index of the relay that options belong to; it is always the last one, here the head of the list,
-- whose newest relay is first.
use inkmail.Base.{
  ℕ, Bool, false, not, ◌||◌, ◌&&◌, List, [], ◌∷◌, Option, none, some, leb, ◌==◌, if◌then◌else◌,
  Bytes, codes, same, has_prefix, trim_space, to_lower, map, length, Result, ok, err, is_ok, ◌>>=◌,
  ◌>>◌,
}
use mathlib.Core.List.{reverse}
use inkmail.Daddy.{Libraries}
use inkmail.Relays.{
  Relay, RelayError, invalid_priority, line_too_long, default_relay_priority, atoi, fields, lines,
  section_name, split_key_value, validate_relay_address,
}

abbrev pub max_line : ℕ
max_line = 1048576

unfoldable pub ends_with : ℕ → Bytes → Bool
ends_with c [] = false
ends_with c (d ∷ []) = d == c
ends_with c (d ∷ e ∷ s) = ends_with c (e ∷ s)

unfoldable pub without_last : Bytes → Bytes
without_last [] = []
without_last (c ∷ []) = []
without_last (c ∷ d ∷ s) = c ∷ without_last (d ∷ s)

abbrev pub tail_of : Bytes → Bytes
tail_of [] = []
tail_of (c ∷ s) = s

unfoldable pub is_section : Bytes → Bool
unfolding ends_with
is_section line = has_prefix line (codes "[") && ends_with b']' line

abbrev pub section_relay : Bytes → Relay
section_relay line = record {
  name = section_name (trim_space (without_last (tail_of line)));
  address = [];
  priority = default_relay_priority;
}

abbrev pub bare_relay : Bytes → Relay
bare_relay address = record { name = address; address = address; priority = default_relay_priority }

-- The switch on the key of an option of the newest relay.
unfoldable pub apply_option : Bytes → Bytes → List Relay → Result RelayError (List Relay)
apply_option key value [] = ok []
apply_option key value (r ∷ rs) =
    if same (map to_lower key) (codes "address")
    then ok (record r { address = value } ∷ rs)
    else if same (map to_lower key) (codes "priority")
    then elim (atoi (trim_space value)) [
      | none ↦ err invalid_priority
      | some n ↦ ok (record r { priority = n } ∷ rs)
    ]
    else ok (r ∷ rs)

abbrev pub is_skipped : Bytes → Bool
is_skipped line = same line [] || has_prefix line (codes "#") || has_prefix line (codes ";")

module _ (lib : Libraries) where
  abbrev pub add_bare : Bytes → List Relay → Result RelayError (List Relay)
  add_bare line rs = validate_relay_address lib line >> ok (bare_relay (trim_space line) ∷ rs)

  -- The body of the loop, on the trimmed line.
  unfoldable pub parse_line : Bytes → List Relay → Result RelayError (List Relay)
  unfolding is_section without_last apply_option
  parse_line line rs =
      if is_skipped line
      then ok rs
      else if is_section line
      then ok (section_relay line ∷ rs)
      else elim (split_key_value line) [
        | some (key, value) ↦ apply_option key value rs
        | none ↦ add_bare line rs
      ]

  unfoldable pub parse_lines : List Bytes → List Relay → Result RelayError (List Relay)
  unfolding parse_line
  parse_lines [] rs = ok rs
  parse_lines (line ∷ ls) rs =
      if leb max_line (length line)
      then err line_too_long
      else parse_line (trim_space line) rs >>= λ rs'. parse_lines ls rs'

  abbrev pub named : Relay → Relay
  named r = if same (trim_space r.name) [] then record r { name = r.address } else r

  abbrev pub trimmed : Relay → Relay
  trimmed r = record r { address = trim_space r.address }

  -- The second loop: relays with no address are dropped, and the others checked and named.
  unfoldable pub clean : List Relay → Result RelayError (List Relay)
  clean [] = ok []
  clean (r ∷ rs) =
      let rest = clean rs in
      if same (trim_space r.address) [] then rest else do
        validate_relay_address lib (trim_space r.address)
        kept ← rest
        ok (named (trimmed r) ∷ kept)

  unfoldable pub parse_relays : Bytes → Result RelayError (List Relay)
  unfolding parse_lines clean
  parse_relays content = parse_lines (lines content) [] >>= λ rs. clean (reverse rs)

  -- A missing file has no relays.
  unfoldable pub load_relays_file : Option Bytes → Result RelayError (List Relay)
  unfolding parse_relays
  load_relays_file none = ok []
  load_relays_file (some content) = parse_relays content

  abbrev pub comma_to_space : ℕ → ℕ
  comma_to_space c = if c == b',' then 32 else c

  unfoldable pub valid_relays : List Bytes → List Relay
  valid_relays [] = []
  valid_relays (a ∷ as_) =
      let rest = valid_relays as_ in
      if same (trim_space a) [] || not (is_ok (validate_relay_address lib (trim_space a)))
      then rest
      else bare_relay (trim_space a) ∷ rest

  unfoldable pub parse_env_relays : Bytes → List Relay
  unfolding valid_relays
  parse_env_relays raw = valid_relays (fields (map comma_to_space raw))
