-- ===== src/Base/Int.antt =====
-- Signed integers over the native numbers, as wide as they need be, and the cast to 32 bits.
use Prim.Native.Nat.{ℕ, ◌-◌, ◌%◌, ◌^◌}
use mathlib.Core.Bool.{Bool}
use workflowy_mcp.Base.Tests.{leb, ltb, if◌then◌else◌}

-- `negsuc n` is -(n + 1).
pub data ℤ : Type 0 where
  pos : ℕ → ℤ
  negsuc : ℕ → ℤ

-- The integer that a 32-bit pattern stands for.
unfoldable pub signed_32 : ℕ → ℤ
signed_32 m = if ltb m (2 ^ 31) then pos m else negsuc (2 ^ 32 - 1 - m)

-- `as i32`
unfoldable pub as_i32 : ℤ → ℤ
unfolding signed_32
as_i32 (pos n) = signed_32 (n % 2 ^ 32)
as_i32 (negsuc n) = signed_32 (2 ^ 32 - 1 - n % 2 ^ 32)

abbrev pub leb_ℤ : ℤ → ℤ → Bool
leb_ℤ (pos a) (pos b) = leb a b
leb_ℤ (pos a) (negsuc b) = Bool.false
leb_ℤ (negsuc a) (pos b) = Bool.true
leb_ℤ (negsuc a) (negsuc b) = leb b a
