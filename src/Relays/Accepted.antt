-- ===== src/Relays/Accepted.antt =====
-- What `ParseRelays` of internal/network/relays.go accepts.
use inkmail.Base.{
  ℕ, ◌≡◌, ◌≢◌, sym, Bool, false, List, [], ◌∷◌, none, if◌then◌else◌, Bytes, same, is_space,
  trim_left, trim_right, push_unless_space, trim_space, ◌==◌, leb, length, All, arith, Bool-cases,
  Option-cases, inl, inr, ok, err, ◌>>=◌, ◌>>◌, bind-ok, reject_if-ok, ap, ◌∙◌,
}
use mathlib.Core.List.{reverse}
use inkmail.Daddy.{Libraries, validate_advertised_address}
use inkmail.Relays.{
  Relay, RelayError, lines, cut, split_key_value, validate_relay_address, empty_address,
}
use inkmail.Relays.Parse.{
  is_section, is_skipped, apply_option, parse_line, parse_lines, add_bare, clean, named, trimmed,
  parse_relays, max_line,
}

abbrev pub NoColon : Bytes → Type 0
NoColon = All (λ c. (c == b':') ≡ false)

cut-none : (s : Bytes) → cut b':' s ≡ none → NoColon s
unfolding cut
cut-none [] h = tt
cut-none (c ∷ s) h = elim (Bool-cases (c == b':')) [
  | inl e ↦ absurd (ground arith)
  | inr e ↦ elim (Option-cases (cut b':' s)) [
    | inl rest ↦ (e, cut-none s rest)
    | inr ((a, b), rest) ↦ absurd (ground arith)
  ]
]

NoColon-trim_left : (s : Bytes) → NoColon s → NoColon (trim_left s)
unfolding trim_left
NoColon-trim_left [] h = tt
NoColon-trim_left (c ∷ s) h = elim (Bool-cases (is_space c)) [
  | inl e ↦ rw (e, trim_left) (NoColon-trim_left s h.1)
  | inr e ↦ rw (e, trim_left) h
]

NoColon-push :
    (c : ℕ) (s : Bytes) → (c == b':') ≡ false → NoColon s → NoColon (push_unless_space c s)
NoColon-push c [] h k = elim (Bool-cases (is_space c)) [ inl e ↦ rw e tt | inr e ↦ rw e (h, tt) ]
NoColon-push c (d ∷ s) h k = (h, k)

NoColon-trim_right : (s : Bytes) → NoColon s → NoColon (trim_right s)
unfolding trim_right
NoColon-trim_right [] h = tt
NoColon-trim_right (c ∷ s) h = NoColon-push c (trim_right s) h.0 (NoColon-trim_right s h.1)

NoColon-trim_space : (s : Bytes) → NoColon s → NoColon (trim_space s)
unfolding trim_space
NoColon-trim_space s h = NoColon-trim_left (trim_right s) (NoColon-trim_right s h)

module _ (lib : Libraries) where
  -- A relay that can be dialled: a valid address, and a name.
  pub record Usable (r : Relay) : Type 0 where
    pub address : validate_relay_address lib r.address ≡ ok tt
    pub name : same (trim_space r.name) [] ≡ false

  validate_relay_address-nonempty :
      (a : Bytes) → validate_relay_address lib a ≡ ok tt → same (trim_space a) [] ≡ false
  unfolding validate_relay_address
  validate_relay_address-nonempty a h =
      (reject_if-ok (same (trim_space a) []) empty_address _ tt h).0

  named-Usable :
      (r : Relay)
      → validate_relay_address lib (trim_space r.address) ≡ ok tt
      → Usable (named lib (trimmed lib r))
  named-Usable r h = elim (Bool-cases (same (trim_space r.name) [])) [
    | inl e ↦
        rw e
          (record { address = h; name = validate_relay_address-nonempty (trim_space r.address) h })
    | inr e ↦ rw e (record { address = h; name = e })
  ]

  clean-Usable : (rs qs : List Relay) → clean lib rs ≡ ok qs → All Usable qs
  unfolding clean
  clean-Usable [] qs h = let e : qs ≡ [] = ground arith in rw e tt
  clean-Usable (r ∷ rs) qs h = elim (Bool-cases (same (trim_space r.address) [])) [
    | inl e ↦ clean-Usable rs qs (ground arith)
    | inr e ↦
        let (u, valid, h1) = bind-ok (validate_relay_address lib (trim_space r.address)) _ qs (
          ap
            (λ (b : Bool).
              if b
              then clean lib rs
              else (validate_relay_address lib (trim_space r.address)
                  >> (clean lib rs >>= λ kept. ok (named lib (trimmed lib r) ∷ kept))))
            (sym e)
          ∙ h) in
        let (kept, rest, h2) = bind-ok (clean lib rs) _ qs h1 in
        let eq : named lib (trimmed lib r) ∷ kept ≡ qs = ground arith in
        rw (sym eq) (named-Usable r valid, clean-Usable rs kept rest)
  ]

  -- Every relay that is read from a relay file has an address that can be dialled and a name that is not blank.
  pub parse_relays-Usable :
      (content : Bytes) (rs : List Relay) → parse_relays lib content ≡ ok rs → All Usable rs
  unfolding parse_relays
  parse_relays-Usable content rs h =
      let (found, parsed, cleaned) = bind-ok (parse_lines lib (lines content) []) _ rs h in
      clean-Usable (reverse found) rs cleaned

  module _ (no_port : (a : Bytes) → NoColon a → lib.split_host_port a ≡ none) where
    -- A line without a section stands for no relay.
    add_bare-refused :
        (line : Bytes) (rs qs : List Relay) → NoColon line → add_bare lib line rs ≢ ok qs
    unfolding validate_relay_address validate_advertised_address
    add_bare-refused line rs qs h e =
        let refused = no_port (trim_space line) (NoColon-trim_space line h) in
        let (u, validated, e0) = bind-ok (validate_relay_address lib line) _ qs e in
        let (some_text, e1) =
          reject_if-ok (same (trim_space line) []) empty_address _ tt validated in
        absurd (ground arith)

    parse_line-none :
        (line : Bytes) (rs : List Relay)
        → is_section line ≡ false
        → parse_line lib line [] ≡ ok rs
        → rs ≡ []
    unfolding parse_line split_key_value apply_option
    parse_line-none line rs h e = elim (Bool-cases (is_skipped line)) [
      | inl s ↦ ground arith
      | inr s ↦ elim (Option-cases (cut b'=' line)) [
        | inl no_equals ↦ elim (Option-cases (cut b':' line)) [
          | inl no_colon ↦
              absurd (add_bare-refused line [] rs (cut-none line no_colon) (ground arith))
          | inr (p, colon) ↦ ground arith
        ]
        | inr (p, equals) ↦ ground arith
      ]
    ]

    parse_lines-none :
        (ls : List Bytes) (rs : List Relay)
        → All (λ line. is_section (trim_space line) ≡ false) ls
        → parse_lines lib ls [] ≡ ok rs
        → rs ≡ []
    unfolding parse_lines
    parse_lines-none [] rs h e = ground arith
    parse_lines-none (line ∷ ls) rs h e = elim (Bool-cases (leb max_line (length line))) [
      | inl long ↦ absurd (ground arith)
      | inr fits ↦
          let (next, first, rest) = bind-ok (parse_line lib (trim_space line) []) _ rs (
            ap
              (λ (b : Bool).
                if b
                then err RelayError.line_too_long
                else (parse_line lib (trim_space line) [] >>= λ n. parse_lines lib ls n))
              (sym fits)
            ∙ e) in
          let empty = parse_line-none (trim_space line) next h.0 first in
          parse_lines-none ls rs h.1 (ap (parse_lines lib ls) (sym empty) ∙ rest)
    ]

    -- When an address without a colon has no port: a relay file that has no section, and is read without
    -- an error, gives no relay at all, so that no bare line is ever taken for one.
    pub parse_relays-bare :
        (content : Bytes) (rs : List Relay)
        → All (λ line. is_section (trim_space line) ≡ false) (lines content)
        → parse_relays lib content ≡ ok rs
        → rs ≡ []
    unfolding parse_relays clean
    parse_relays-bare content rs h e =
        let (found, parsed, cleaned) = bind-ok (parse_lines lib (lines content) []) _ rs e in
        let empty = parse_lines-none (lines content) found h parsed in
        let back = ap (λ (t : List Relay). clean lib (reverse t)) (sym empty) ∙ cleaned in
        ground arith
