-- ===== src/Prelude/Int.antt =====
-- Signed integers over the native numbers, under the library's names, and C's 32-bit `int`.
use Prim.Native.Nat.{ℕ, suc, ◌+◌, ◌-◌, ◌*◌, ◌/◌, ◌%◌, ◌^◌}
use mathlib.Core.Bool.{Bool, false}
use mathlib.Core.Option.{Option, none, some}
use network_course.Prelude.Tests.{ltb, leb, ◌==◌, if◌then◌else◌}

-- `negsuc n` is -(n + 1).
pub data ℤ : Type 0 where
  pos : ℕ → ℤ
  negsuc : ℕ → ℤ

abbrev pub pos_part : ℤ → ℕ
pos_part (pos n) = n
pos_part (negsuc n) = 0

abbrev pub neg_part : ℤ → ℕ
neg_part (pos n) = 0
neg_part (negsuc n) = suc n

-- a - b, as an integer.
abbrev pub sub_ℕ : ℕ → ℕ → ℤ
sub_ℕ a b = if leb b a then pos (a - b) else negsuc (b - a - 1)

infixl 65 ◌+ℤ◌ ◌-ℤ◌
infixl 70 ◌*ℤ◌ ◌/ℤ◌
unfoldable pub ◌+ℤ◌ : ℤ → ℤ → ℤ
a +ℤ b = sub_ℕ (pos_part a + pos_part b) (neg_part a + neg_part b)

unfoldable pub ◌-ℤ◌ : ℤ → ℤ → ℤ
a -ℤ b = sub_ℕ (pos_part a + neg_part b) (neg_part a + pos_part b)

unfoldable pub ◌*ℤ◌ : ℤ → ℤ → ℤ
a *ℤ b =
    sub_ℕ (pos_part a * pos_part b + neg_part a * neg_part b)
      (pos_part a * neg_part b + neg_part a * pos_part b)

-- C's `/`, which rounds towards zero; the divisor is not zero where it is used.
unfoldable pub ◌/ℤ◌ : ℤ → ℤ → ℤ
pos a /ℤ pos b = pos (a / b)
pos a /ℤ negsuc b = sub_ℕ 0 (a / suc b)
negsuc a /ℤ pos b = sub_ℕ 0 (suc a / b)
negsuc a /ℤ negsuc b = pos (suc a / suc b)

infix 50 ◌==ℤ◌
abbrev pub ◌==ℤ◌ : ℤ → ℤ → Bool
pos a ==ℤ pos b = a == b
pos a ==ℤ negsuc b = false
negsuc a ==ℤ pos b = false
negsuc a ==ℤ negsuc b = a == b

-- The value as an `int`, if it is one: C leaves an overflow undefined.
unfoldable pub to_int : ℤ → Option ℤ
to_int (pos n) = if ltb n (2 ^ 31) then some (pos n) else none
to_int (negsuc n) = if ltb n (2 ^ 31) then some (negsuc n) else none

-- The value as a `long`, likewise.
unfoldable pub to_long : ℤ → Option ℤ
to_long (pos n) = if ltb n (2 ^ 63) then some (pos n) else none
to_long (negsuc n) = if ltb n (2 ^ 63) then some (negsuc n) else none

-- A `long` that is converted to `int`, which wraps around.
unfoldable pub wrap_int : ℤ → ℤ
wrap_int (pos n) = let r = n % 2 ^ 32 in if ltb r (2 ^ 31) then pos r else negsuc (2 ^ 32 - 1 - r)
wrap_int (negsuc n) =
    let r = n % 2 ^ 32 in if ltb r (2 ^ 31) then negsuc r else pos (2 ^ 32 - 1 - r)

-- `+ - * /` on `int`; `none` is what C leaves undefined.
unfoldable pub add_int : ℤ → ℤ → Option ℤ
add_int a b = to_int (a +ℤ b)

unfoldable pub sub_int : ℤ → ℤ → Option ℤ
sub_int a b = to_int (a -ℤ b)

unfoldable pub mul_int : ℤ → ℤ → Option ℤ
mul_int a b = to_int (a *ℤ b)

unfoldable pub div_int : ℤ → ℤ → Option ℤ
div_int a b = if b ==ℤ pos 0 then none else to_int (a /ℤ b)
