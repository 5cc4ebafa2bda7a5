-- ===== src/Prelude/Int.antt =====
-- Go's signed integers: ℤ over the native numbers, and the wrap-around of int32.
use Prim.Native.Nat.{ℕ, suc, ◌+◌, ◌-◌, ◌%◌, ◌^◌, ◌≤◌, ◌<◌}
use mathlib.Core.Path.{◌≡◌}
use mathlib.Core.Bool.{Bool, true}
use native.Mathlib.Omega.{arith}
use muto.Prelude.Tests.{ltb, leb, if◌then◌else◌}

-- `negsuc n` is -(n + 1).
pub data ℤ : Type 0 where
  pos : ℕ → ℤ
  negsuc : ℕ → ℤ

abbrev pub pos_part : ℤ → ℕ
pos_part (pos n) = n
pos_part (negsuc n) = 0

abbrev pub neg_part : ℤ → ℕ
neg_part (pos n) = 0
neg_part (negsuc n) = suc n

-- a - b, as an integer.
abbrev pub sub_ℕ : ℕ → ℕ → ℤ
sub_ℕ a b = if leb b a then pos (a - b) else negsuc (b - a - 1)

infixl 65 ◌+ℤ◌ ◌-ℤ◌
infix 50 ◌≤ℤ◌
unfoldable pub ◌+ℤ◌ : ℤ → ℤ → ℤ
a +ℤ b = sub_ℕ (pos_part a + pos_part b) (neg_part a + neg_part b)

unfoldable pub ◌-ℤ◌ : ℤ → ℤ → ℤ
a -ℤ b = sub_ℕ (pos_part a + neg_part b) (neg_part a + pos_part b)

abbrev pub ◌≤ℤ◌ : ℤ → ℤ → Type 0
a ≤ℤ b = pos_part a + neg_part b ≤ pos_part b + neg_part a

abbrev pub ltb_ℤ : ℤ → ℤ → Bool
ltb_ℤ a b = ltb (pos_part a + neg_part b) (pos_part b + neg_part a)

abbrev pub leb_ℤ : ℤ → ℤ → Bool
leb_ℤ a b = leb (pos_part a + neg_part b) (pos_part b + neg_part a)

abbrev pub eqb_ℤ : ℤ → ℤ → Bool
eqb_ℤ a b = if leb_ℤ a b then leb_ℤ b a else leb_ℤ a b

-- The Go conversion `int32(n)`: the value of the same residue modulo 2^32 in -2^31 .. 2^31 - 1.
unfoldable pub int32 : ℤ → ℤ
int32 (pos n) = let r = n % 2 ^ 32 in if ltb r (2 ^ 31) then pos r else sub_ℕ r (2 ^ 32)
int32 (negsuc n) = let r = n % 2 ^ 32 in if ltb r (2 ^ 31) then negsuc r else pos (2 ^ 32 - 1 - r)

abbrev pub IsInt32 : ℤ → Type 0
IsInt32 (pos n) = n < 2 ^ 31
IsInt32 (negsuc n) = n < 2 ^ 31

pub int32-IsInt32 : (a : ℤ) → IsInt32 (int32 a)
unfolding int32
int32-IsInt32 (pos n) = ground arith
int32-IsInt32 (negsuc n) = ground arith

-- A value in range is converted to itself.
pub int32_exact : (a : ℤ) → IsInt32 a → int32 a ≡ a
unfolding int32
int32_exact (pos n) h = ground arith
int32_exact (negsuc n) h = ground arith

pub +ℤ_assoc : (a b c : ℤ) → a +ℤ b +ℤ c ≡ a +ℤ (b +ℤ c)
unfolding ◌+ℤ◌
+ℤ_assoc a b c = ground arith

pub +ℤ_zero : (a : ℤ) → a +ℤ pos 0 ≡ a
unfolding ◌+ℤ◌
+ℤ_zero a = ground arith

pub -ℤ_positive : (a b : ℤ) → ltb_ℤ a b ≡ true → ltb_ℤ (pos 0) (b -ℤ a) ≡ true
unfolding ◌-ℤ◌
-ℤ_positive a b h = ground arith
