-- ===== src/Hex/Laws.antt =====
-- What the hexadecimal codec gives back and what it accepts.
use inkmail.Base.{
  ℕ, zero, suc, ◌*◌, ◌/◌, ◌%◌, ◌<◌, ◌≡◌, ◌≢◌, ◌↔◌, refl, ap, Bool, true, false, not, is_space, [],
  ◌∷◌, Option, none, some, ◌&&◌, ◌==◌, ==_iff, arith, Bytes, IsBytes, All, length, Option-cases,
  inl, inr, ◌∙◌,
}
use inkmail.Base.Utf8.{IsText, ascii-IsText}
use inkmail.Hex.{
  hex_digit, hex_chars, byte_at, encode_hex, join_nibbles, decode_pair, push_byte, decode_pairs,
  decode_hex,
}

-- A test that holds of all the numbers below a bound, found by running it on each.
passes : (ℕ → Bool) → ℕ → Bool
passes test zero = true
passes test (suc bound) = passes test bound && test bound

passes-at :
    (test : ℕ → Bool) {bound : ℕ} (byte : ℕ)
    → byte < bound
    → passes test bound ≡ true
    → test byte ≡ true
unfolding passes
passes-at test {bound = zero} byte below all = absurd (omega arith)
passes-at test {bound = suc bound} byte below all =
    ground (arith, passes-at test {bound = bound} byte)

abbrev value_or : ℕ → Option ℕ → ℕ
value_or d none = d
value_or d (some b) = b

value_or-some : (d : ℕ) (o : Option ℕ) → value_or d o ≢ d → o ≡ some (value_or d o)
value_or-some d none h = absurd (h refl)
value_or-some d (some b) h = refl

abbrev pair_back : ℕ → ℕ
pair_back b = value_or 999 (decode_pair (byte_at hex_chars (b / 16)) (byte_at hex_chars (b % 16)))

pair_table : passes (λ b. pair_back b == b) 256 ≡ true
unfolding passes hex_digit
pair_table = refl

pair_roundtrip :
    (b : ℕ)
    → b < 256
    → decode_pair (byte_at hex_chars (b / 16)) (byte_at hex_chars (b % 16)) ≡ some b
pair_roundtrip b h =
    let back : pair_back b ≡ b = (==_iff _ b).0 (passes-at _ {bound = 256} b h pair_table) in
    value_or-some 999 _ (omega arith) ∙ ap some back

pairs_roundtrip : (bs : Bytes) → IsBytes bs → decode_pairs (encode_hex bs) ≡ some bs
unfolding decode_pairs encode_hex
pairs_roundtrip [] h = refl
pairs_roundtrip (b ∷ bs) h = rw (pair_roundtrip b h.0, pairs_roundtrip bs h.1)

-- The text has two digits for each byte.
pub length-encode_hex : (bs : Bytes) → length (encode_hex bs) ≡ 2 * length bs
unfolding encode_hex
length-encode_hex [] = omega arith
length-encode_hex (b ∷ bs) = omega (arith, length-encode_hex bs)

-- Decoding the encoding of bytes gives those bytes.
pub decode_hex-encode_hex : (bs : Bytes) → IsBytes bs → decode_hex (encode_hex bs) ≡ some bs
unfolding decode_hex
decode_hex-encode_hex bs h = ground (arith, length-encode_hex bs, pairs_roundtrip bs h)

push_byte-some :
    (b : Option ℕ) (r : Option Bytes) {bs : Bytes}
    → push_byte b r ≡ some bs
    → (x : ℕ) × (rest : Bytes) × (b ≡ some x) × (r ≡ some rest) × (bs ≡ x ∷ rest)
push_byte-some none r h = absurd (ground arith)
push_byte-some (some x) none h = absurd (ground arith)
push_byte-some (some x) (some rest) h = (x, rest, refl, refl, ground arith)

length-decode_pairs : (s bs : Bytes) → decode_pairs s ≡ some bs → length s ≡ 2 * length bs
unfolding decode_pairs
length-decode_pairs [] bs h = ground arith
length-decode_pairs (c ∷ []) bs h = absurd (ground arith)
length-decode_pairs (c ∷ d ∷ s) bs h =
    let (x, rest, e, r, eq) = push_byte-some (decode_pair c d) (decode_pairs s) h in
    rw eq (omega (arith, length-decode_pairs s rest r))

-- What is decoded has half the length of the text.
pub length-decode_hex : (s bs : Bytes) → decode_hex s ≡ some bs → length s ≡ 2 * length bs
unfolding decode_hex
length-decode_hex s bs h = ground (arith, length-decode_pairs s bs)

abbrev pub IsHexDigit : ℕ → Type 0
IsHexDigit c = hex_digit c ≢ none

decode_pair-some : (c d : ℕ) → IsHexDigit c → IsHexDigit d → (b : ℕ) × (decode_pair c d ≡ some b)
decode_pair-some c d hc hd = elim (Option-cases (hex_digit c)) [
  | inl e ↦ absurd (hc e)
  | inr (x, e) ↦ elim (Option-cases (hex_digit d)) [
    | inl f ↦ absurd (hd f)
    | inr (y, f) ↦ (join_nibbles x y, ground arith)
  ]
]

decode_pairs_accepts :
    (n : ℕ) (s : Bytes)
    → length s ≡ 2 * n
    → All IsHexDigit s
    → (bs : Bytes) × (decode_pairs s ≡ some bs)
unfolding decode_pairs
decode_pairs_accepts zero [] e h = ([], refl)
decode_pairs_accepts zero (c ∷ s) e h = absurd (omega arith)
decode_pairs_accepts (suc n) [] e h = absurd (omega arith)
decode_pairs_accepts (suc n) (c ∷ []) e h = absurd (omega arith)
decode_pairs_accepts (suc n) (c ∷ d ∷ s) e h =
    let (b, p) = decode_pair-some c d h.0 h.1.0 in
    let (bs, q) = decode_pairs_accepts n s (omega arith) h.1.1 in (b ∷ bs, rw (p, q))

-- Every even number of hexadecimal digits, in either case, is accepted.
pub decode_hex_accepts :
    (n : ℕ) (s : Bytes)
    → length s ≡ 2 * n
    → All IsHexDigit s
    → (bs : Bytes) × (decode_hex s ≡ some bs) × (length bs ≡ n)
unfolding decode_hex
decode_hex_accepts n s e h =
    let (bs, p) = decode_pairs_accepts n s e h in
    (bs, ground arith, omega (arith, length-decode_pairs s bs p))

decode_pairs_digits : (s bs : Bytes) → decode_pairs s ≡ some bs → All IsHexDigit s
unfolding decode_pairs
decode_pairs_digits [] bs h = tt
decode_pairs_digits (c ∷ []) bs h = absurd (ground arith)
decode_pairs_digits (c ∷ d ∷ s) bs h =
    let (x, rest, e, r, eq) = push_byte-some (decode_pair c d) (decode_pairs s) h in
    (ground arith, (ground arith, decode_pairs_digits s rest r))

-- A text is accepted with `n` bytes exactly when it is `2 * n` hexadecimal digits.
pub decode_hex_iff :
    (n : ℕ) (s : Bytes)
    → ((bs : Bytes) × (decode_hex s ≡ some bs) × (length bs ≡ n))
      ↔ ((length s ≡ 2 * n) × All IsHexDigit s)
unfolding decode_hex
decode_hex_iff n s = (
  λ r. (omega (arith, length-decode_hex s r.0 r.1), decode_pairs_digits s r.0 (ground arith)),
  λ h. decode_hex_accepts n s h.0 h.1,
)

abbrev no_space : ℕ → Bool
no_space b =
    not (is_space (byte_at hex_chars (b / 16))) && not (is_space (byte_at hex_chars (b % 16)))

no_space_table : passes no_space 256 ≡ true
unfolding passes is_space
no_space_table = refl

-- The text has no white space.
pub encode_hex_no_space : (bs : Bytes) → IsBytes bs → All (λ c. is_space c ≡ false) (encode_hex bs)
unfolding encode_hex
encode_hex_no_space [] h = tt
encode_hex_no_space (b ∷ bs) h =
    let e : no_space b ≡ true = passes-at no_space {bound = 256} b h.0 no_space_table in
    (ground arith, (ground arith, encode_hex_no_space bs h.1))

abbrev no_colon : ℕ → Bool
no_colon b = not (byte_at hex_chars (b / 16) == b':') && not (byte_at hex_chars (b % 16) == b':')

no_colon_table : passes no_colon 256 ≡ true
unfolding passes
no_colon_table = refl

-- The text has no colon.
pub encode_hex_no_colon : (bs : Bytes) → IsBytes bs → All (λ c. (c == b':') ≡ false) (encode_hex bs)
unfolding encode_hex
encode_hex_no_colon [] h = tt
encode_hex_no_colon (b ∷ bs) h =
    let e : no_colon b ≡ true = passes-at no_colon {bound = 256} b h.0 no_colon_table in
    (ground arith, (ground arith, encode_hex_no_colon bs h.1))

digits_no_bar : (s : Bytes) → All IsHexDigit s → All (λ c. (c == b'|') ≡ false) s
unfolding hex_digit
digits_no_bar [] h = tt
digits_no_bar (c ∷ s) h = (ground (arith, h.0), digits_no_bar s h.1)

-- A text that is decoded has no bar.
pub decode_hex_no_bar : (s bs : Bytes) → decode_hex s ≡ some bs → All (λ c. (c == b'|') ≡ false) s
unfolding decode_hex
decode_hex_no_bar s bs h = digits_no_bar s (decode_pairs_digits s bs (ground arith))

hex_chars_ascii : (s : Bytes) (i : ℕ) → All (λ a. a < 128) s → byte_at s i < 128
hex_chars_ascii [] i h = omega arith
hex_chars_ascii (a ∷ s) zero h = h.0
hex_chars_ascii (a ∷ s) (suc i) h = hex_chars_ascii s i h.1

byte_at-ascii : (i : ℕ) → byte_at hex_chars i < 128
byte_at-ascii i = hex_chars_ascii hex_chars i (omega arith)

encode_hex-ascii : (bs : Bytes) → All (λ a. a < 128) (encode_hex bs)
unfolding encode_hex
encode_hex-ascii [] = tt
encode_hex-ascii (b ∷ bs) = (byte_at-ascii (b / 16), (byte_at-ascii (b % 16), encode_hex-ascii bs))

-- What is printed in hexadecimal is a valid text.
pub encode_hex-IsText : (bs : Bytes) → IsText (encode_hex bs)
encode_hex-IsText bs = ascii-IsText (encode_hex bs) (encode_hex-ascii bs)
