-- ===== src/Base/Decimal.antt =====
-- The order of texts, membership in a list of them, and the numbers that decimal digits show, as
-- `strconv.Atoi` reads them.
use Prim.Native.Nat.{ℕ, ◌+◌, ◌-◌, ◌*◌}
use mathlib.Core.Bool.{Bool, true, false, not, ◌&&◌, ◌||◌}
use mathlib.Core.List.{List, [], ◌∷◌}
use inkmail.Base.Tests.{◌==◌, leb, ltb, if◌then◌else◌}
use inkmail.Base.Text.{Bytes, same}

unfoldable pub all_of : (ℕ → Bool) → Bytes → Bool
all_of test [] = true
all_of test (c ∷ s) = test c && all_of test s

unfoldable pub is_digit : ℕ → Bool
is_digit c = leb b'0' c && leb c b'9'

-- The number that decimal digits show.
unfoldable pub decimal_value : ℕ → Bytes → ℕ
decimal_value acc [] = acc
decimal_value acc (c ∷ s) = decimal_value (acc * 10 + (c - 48)) s

unfoldable pub digits_below : ℕ → Bytes → Bool
unfolding is_digit all_of decimal_value
digits_below bound s = not (same s []) && (all_of is_digit s && ltb (decimal_value 0 s) bound)

-- Whether `strconv.Atoi` reads the text as a 64-bit int.
unfoldable pub is_int : Bytes → Bool
unfolding digits_below
is_int [] = false
is_int (c ∷ s) =
    if c == b'+'
    then digits_below 9223372036854775808 s
    else if c == b'-'
    then digits_below 9223372036854775809 s
    else digits_below 9223372036854775808 (c ∷ s)

unfoldable pub member : Bytes → List Bytes → Bool
member s [] = false
member s (t ∷ ts) = same s t || member s ts

-- The order of SQLite on texts and blobs: byte by byte, a beginning first.
unfoldable pub before : Bytes → Bytes → Bool
before [] [] = false
before [] (d ∷ b) = true
before (c ∷ a) [] = false
before (c ∷ a) (d ∷ b) =
    let rest = before a b in if ltb c d then true else if c == d then rest else false
