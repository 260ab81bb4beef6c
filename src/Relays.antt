-- ===== src/Relays.antt =====
-- The relay list, internal/network/relays.go. Reading the file and the environment is not modelled: their
-- contents are arguments. White space is that of ASCII. `net.SplitHostPort` is a parameter, through
-- Daddy's `Libraries`.
pub mod Parse
pub mod Order
pub mod Select
pub mod Bands
pub mod Accepted
pub mod Addresses
use inkmail.Base.{
  ℕ, zero, suc, ◌+◌, ◌-◌, ◌*◌, Bool, true, false, not, ◌||◌, ◌&&◌, List, [], ◌∷◌, ◌++◌, Option,
  none, some, ltb, leb, ◌==◌, if◌then◌else◌, Bytes, codes, same, is_space, trim_space, Result, ok,
  err, reject_if, ◌>>=◌, ◌>>◌,
}
use inkmail.Base.Int.{ℤ, pos, negsuc, negate}
use inkmail.Daddy.{Libraries, validate_advertised_address}
use inkmail.Base.Decimal.{is_int, decimal_value}

pub record Relay : Type 0 where
  pub name : Bytes
  pub address : Bytes
  pub priority : ℤ

pub data RelayError : Type 0 where
  invalid_priority empty_address invalid_address line_too_long : RelayError

abbrev pub default_relay_priority : ℤ
default_relay_priority = pos 100

abbrev pub default_daddy_address : Bytes
default_daddy_address = codes "129.150.63.22:25565"

-- The number that `strconv.Atoi` reads.
unfoldable pub int_value : Bytes → ℤ
int_value [] = pos 0
int_value (c ∷ s) =
    if c == b'-'
    then negate (decimal_value 0 s)
    else if c == b'+'
    then pos (decimal_value 0 s)
    else pos (decimal_value 0 (c ∷ s))

unfoldable pub atoi : Bytes → Option ℤ
unfolding int_value
atoi s = if is_int s then some (int_value s) else none

-- A character in front of the first part.
abbrev pub in_front : ℕ → List Bytes → List Bytes
in_front c [] = (c ∷ []) ∷ []
in_front c (p ∷ ps) = (c ∷ p) ∷ ps

-- The parts between the characters that pass a test.
unfoldable pub split_on : (ℕ → Bool) → Bytes → List Bytes
split_on test [] = [] ∷ []
split_on test (c ∷ s) = let rest = split_on test s in if test c then [] ∷ rest else in_front c rest

unfoldable pub nonempty_parts : List Bytes → List Bytes
nonempty_parts [] = []
nonempty_parts (p ∷ ps) = let rest = nonempty_parts ps in if same p [] then rest else p ∷ rest

-- `strings.Fields`
unfoldable pub fields : Bytes → List Bytes
unfolding split_on nonempty_parts is_space
fields s = nonempty_parts (split_on is_space s)

-- The lines of the text. (`Scan` gives no last line if it is empty, and takes a carriage return off: the parser
-- skips empty lines and trims every line.)
unfoldable pub lines : Bytes → List Bytes
unfolding split_on
lines s = split_on (λ c. c == 10) s

abbrev pub is_quote : ℕ → Bool
is_quote c = c == b'\'' || c == b'"'

unfoldable pub trim_quotes_left : Bytes → Bytes
trim_quotes_left [] = []
trim_quotes_left (c ∷ s) = let rest = trim_quotes_left s in if is_quote c then rest else c ∷ s

abbrev pub push_unless_quote : ℕ → Bytes → Bytes
push_unless_quote c [] = if is_quote c then [] else c ∷ []
push_unless_quote c (d ∷ s) = c ∷ d ∷ s

unfoldable pub trim_quotes_right : Bytes → Bytes
trim_quotes_right [] = []
trim_quotes_right (c ∷ s) = push_unless_quote c (trim_quotes_right s)

-- `strings.Trim(s, "'\"")`
unfoldable pub trim_quotes : Bytes → Bytes
unfolding trim_quotes_left trim_quotes_right
trim_quotes s = trim_quotes_left (trim_quotes_right s)

-- `strings.Join(parts, " ")`
unfoldable pub join_space : List Bytes → Bytes
join_space [] = []
join_space (p ∷ []) = p
join_space (p ∷ q ∷ ps) = p ++ (32 ∷ join_space (q ∷ ps))

abbrev pub name_of_fields : List Bytes → Bytes
name_of_fields [] = []
name_of_fields (f ∷ []) = trim_quotes f
name_of_fields (f ∷ g ∷ fs) = trim_quotes (join_space (g ∷ fs))

unfoldable pub section_name : Bytes → Bytes
unfolding fields trim_quotes join_space
section_name inner = name_of_fields (fields inner)

-- The text before the first such character, and after it.
unfoldable pub cut : ℕ → Bytes → Option (Bytes × Bytes)
cut sep [] = none
cut sep (c ∷ s) =
    let rest = cut sep s in
    if c == sep then some ([], s) else elim rest [ none ↦ none | some (a, b) ↦ some (c ∷ a, b) ]

abbrev pub trimmed_pair : Bytes × Bytes → Bytes × Bytes
trimmed_pair (a, b) = (trim_space a, trim_space b)

unfoldable pub split_key_value : Bytes → Option (Bytes × Bytes)
unfolding cut
split_key_value line = elim (cut b'=' line) [
  | some p ↦ some (trimmed_pair p)
  | none ↦ elim (cut b':' line) [ some p ↦ some (trimmed_pair p) | none ↦ none ]
]

module _ (lib : Libraries) where
  unfoldable pub validate_relay_address : Bytes → Result RelayError (Unit {0})
  validate_relay_address address = do
    reject_if (same (trim_space address) []) empty_address
    reject_if (not (validate_advertised_address lib (trim_space address))) invalid_address
