-- ===== src/Wire/BigEndian.antt =====
-- `binary.BigEndian` of Go's library at 32 and 64 bits.
use inkmail.Base.{
  ℕ, ◌+◌, ◌*◌, ◌/◌, ◌%◌, ◌<◌, ◌^◌, ◌≡◌, refl, ap, [], ◌∷◌, ◌++◌, arith, Bytes, IsBytes, length,
}

unfoldable pub put_uint32 : ℕ → Bytes
put_uint32 x = x / 16777216 % 256 ∷ x / 65536 % 256 ∷ x / 256 % 256 ∷ x % 256 ∷ []

-- The value of four bytes; other lengths do not occur.
unfoldable pub uint32 : Bytes → ℕ
uint32 (a ∷ b ∷ c ∷ d ∷ []) = a * 16777216 + b * 65536 + c * 256 + d
uint32 _ = 0

unfoldable pub put_uint64 : ℕ → Bytes
put_uint64 x = put_uint32 (x / 4294967296) ++ put_uint32 (x % 4294967296)

pub uint32-put_uint32 : (x : ℕ) → x < 4294967296 → uint32 (put_uint32 x) ≡ x
unfolding uint32 put_uint32
uint32-put_uint32 x h = omega arith

pub put_uint32-IsBytes : (x : ℕ) → IsBytes (put_uint32 x)
unfolding put_uint32
put_uint32-IsBytes x = omega arith

pub length-put_uint32 : (x : ℕ) → length (put_uint32 x) ≡ 4
unfolding put_uint32
length-put_uint32 x = refl

pub uint32-lt :
    (a b c d : ℕ) → IsBytes (a ∷ b ∷ c ∷ d ∷ []) → uint32 (a ∷ b ∷ c ∷ d ∷ []) < 4294967296
unfolding uint32
uint32-lt a b c d h = omega arith

first_half : Bytes → Bytes
first_half (a ∷ b ∷ c ∷ d ∷ _) = a ∷ b ∷ c ∷ d ∷ []
first_half _ = []

second_half : Bytes → Bytes
second_half (_ ∷ _ ∷ _ ∷ _ ∷ r) = r
second_half _ = []

-- Two 64-bit numbers with the same encoding are equal.
pub put_uint64-injective : (x y : ℕ) → x < 2 ^ 64 → y < 2 ^ 64 → put_uint64 x ≡ put_uint64 y → x ≡ y
unfolding put_uint64 put_uint32 uint32 first_half second_half
put_uint64-injective x y h k e =
    let high : uint32 (put_uint32 (x / 4294967296)) ≡ uint32 (put_uint32 (y / 4294967296)) =
      ap (λ b. uint32 (first_half b)) e in
    let low : uint32 (put_uint32 (x % 4294967296)) ≡ uint32 (put_uint32 (y % 4294967296)) =
      ap (λ b. uint32 (second_half b)) e in
    omega (
      arith,
      uint32-put_uint32 (x / 4294967296),
      uint32-put_uint32 (y / 4294967296),
      uint32-put_uint32 (x % 4294967296),
      uint32-put_uint32 (y % 4294967296),
    )
