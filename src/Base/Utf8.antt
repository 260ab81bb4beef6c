-- ===== src/Base/Utf8.antt =====
-- `utf8.Valid` of Go's library: the texts that encoding/json gives back as they were.
use Prim.Native.Nat.{ℕ, zero, suc, ◌<◌}
use mathlib.Core.Path.{◌≡◌, refl}
use mathlib.Core.Bool.{Bool, true, false, ◌&&◌}
use mathlib.Core.Option.{Option, none, some}
use mathlib.Core.List.{[], ◌∷◌}
use native.Mathlib.Omega.{arith}
use inkmail.Base.Tests.{leb, ltb, ◌==◌, if◌then◌else◌}
use inkmail.Base.Text.{Bytes}
use inkmail.Base.Lists.{All}

-- After the first byte of a character: how many bytes follow, and the bounds of the first of them.
abbrev lead : ℕ → Option (ℕ × ℕ × ℕ)
lead a =
    if ltb a 128
    then some (0, 128, 191)
    else if leb 194 a && leb a 223
    then some (1, 128, 191)
    else if a == 224
    then some (2, 160, 191)
    else if a == 237
    then some (2, 128, 159)
    else if leb 225 a && leb a 239
    then some (2, 128, 191)
    else if a == 240
    then some (3, 144, 191)
    else if leb 241 a && leb a 243
    then some (3, 128, 191)
    else if a == 244
    then some (3, 128, 143)
    else none

-- The rest of a text, of whose current character so many bytes are to follow.
unfoldable pub valid_from : ℕ → ℕ → ℕ → Bytes → Bool
valid_from zero low high [] = true
valid_from zero low high (a ∷ s) = elim (lead a) [
  | none ↦ false
  | some (n, low', high') ↦ valid_from n low' high' s
]
valid_from (suc n) low high [] = false
valid_from (suc n) low high (a ∷ s) =
    let rest = valid_from n 128 191 s in leb low a && leb a high && rest

unfoldable pub valid_utf8 : Bytes → Bool
unfolding valid_from
valid_utf8 s = valid_from 0 128 191 s

abbrev pub IsText : Bytes → Type 0
IsText s = valid_utf8 s ≡ true

valid_from-ascii :
    (low high : ℕ) (s : Bytes) → All (λ a. a < 128) s → valid_from 0 low high s ≡ true
unfolding valid_from
valid_from-ascii low high [] h = refl
valid_from-ascii low high (a ∷ s) h =
    let first : ltb a 128 ≡ true = ground (arith, h.0) in
    rw (valid_from, first) (valid_from-ascii 128 191 s h.1)

-- A text of ASCII is valid.
pub ascii-IsText : (s : Bytes) → All (λ a. a < 128) s → IsText s
unfolding valid_utf8
ascii-IsText s h = valid_from-ascii 128 191 s h
