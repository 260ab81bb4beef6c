-- ===== src/Hex.antt =====
-- The hexadecimal codec of internal/database/database.go: `encodeHex`, `decodeHex`, `hexDigit`.
-- `hex.EncodeToString` and `hex.DecodeString` of Go's library, which other packages call, accept
-- and give the same texts.
pub mod Laws
use Prim.Native.Nat.{bit_or}
use inkmail.Base.{
  ℕ, zero, suc, ◌+◌, ◌-◌, ◌*◌, ◌/◌, ◌%◌, List, [], ◌∷◌, Option, none, some, ◌&&◌, leb, ◌==◌,
  if◌then◌else◌, Bytes, codes, length,
}

-- The digit's value and whether it is one; `none` is the Go pair `0, false`.
unfoldable pub hex_digit : ℕ → Option ℕ
hex_digit value =
    if leb b'0' value && leb value b'9'
    then some (value - b'0')
    else if leb b'a' value && leb value b'f'
    then some (value - b'a' + 10)
    else if leb b'A' value && leb value b'F'
    then some (value - b'A' + 10)
    else none

abbrev hex_chars : Bytes
hex_chars = codes "0123456789abcdef"

abbrev byte_at : Bytes → ℕ → ℕ
byte_at [] i = 0
byte_at (x ∷ xs) zero = x
byte_at (x ∷ xs) (suc i) = byte_at xs i

unfoldable pub encode_hex : Bytes → Bytes
encode_hex [] = []
encode_hex (b ∷ bs) = byte_at hex_chars (b / 16) ∷ byte_at hex_chars (b % 16) ∷ encode_hex bs

-- `high<<4 | low`, on bytes.
abbrev join_nibbles : ℕ → ℕ → ℕ
join_nibbles high low = bit_or (high * 16 % 256) low

abbrev decode_pair : ℕ → ℕ → Option ℕ
decode_pair h l = elim (hex_digit h) [
  | none ↦ none
  | some high ↦ elim (hex_digit l) [ none ↦ none | some low ↦ some (join_nibbles high low) ]
]

abbrev push_byte : Option ℕ → Option Bytes → Option Bytes
push_byte none rest = none
push_byte (some b) none = none
push_byte (some b) (some bs) = some (b ∷ bs)

-- The loop over `output`.
unfoldable pub decode_pairs : Bytes → Option Bytes
decode_pairs [] = some []
decode_pairs (h ∷ []) = none
decode_pairs (h ∷ l ∷ rest) = push_byte (decode_pair h l) (decode_pairs rest)

unfoldable pub decode_hex : Bytes → Option Bytes
unfolding decode_pairs hex_digit
decode_hex value = if length value % 2 == 0 then decode_pairs value else none
