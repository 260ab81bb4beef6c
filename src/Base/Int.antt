-- ===== src/Base/Int.antt =====
-- Signed numbers over the native natural numbers: `negsuc n` is -(n + 1).
use Prim.Native.Nat.{ℕ, zero, suc}
use mathlib.Core.Bool.{Bool, true, false}
use inkmail.Base.Tests.{ltb, ◌==◌}

pub data ℤ : Type 0 where
  pos : ℕ → ℤ
  negsuc : ℕ → ℤ

abbrev pub negate : ℕ → ℤ
negate zero = pos zero
negate (suc n) = negsuc n

abbrev pub int_before : ℤ → ℤ → Bool
int_before (pos a) (pos b) = ltb a b
int_before (pos a) (negsuc b) = false
int_before (negsuc a) (pos b) = true
int_before (negsuc a) (negsuc b) = ltb b a

abbrev pub int_same : ℤ → ℤ → Bool
int_same (pos a) (pos b) = a == b
int_same (pos a) (negsuc b) = false
int_same (negsuc a) (pos b) = false
int_same (negsuc a) (negsuc b) = a == b

-- Seconds from which Go's `time.Unix` wraps round to the far past.
abbrev pub unix_limit : ℕ
unix_limit = 9223371974719179008
