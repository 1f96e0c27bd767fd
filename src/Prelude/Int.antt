-- ===== src/Prelude/Int.antt =====
-- Signed integers over the native numbers, and the values of two's complement.
use Prim.Native.Nat.{ℕ, zero, suc, ◌+◌, ◌-◌, ◌*◌, ◌/◌, ◌%◌, ◌^◌, min}
use mathlib.Core.Bool.{Bool, not, ◌&&◌}
use mathlib.Core.Option.{Option, none, some}
use ads_rs.Prelude.Tests.{ltb, leb, ◌==◌, if◌then◌else◌}

pub data ℤ : Type 0 where
  pos : ℕ → ℤ
  negsuc : ℕ → ℤ

abbrev neg : ℕ → ℤ
neg zero = pos 0
neg (suc n) = negsuc n

-- The value of `bits` bits that hold `n`.
unfoldable pub signed : ℕ → ℕ → ℤ
signed bits n = if ltb n (2 ^ (bits - 1)) then pos n else negsuc (2 ^ bits - 1 - n)

-- `f as i64`, for a float of IEEE 754 with `ebits` bits of exponent and `mbits` of mantissa: the part
-- behind the point is dropped, a value out of range becomes the nearest in range, and no number 0.
unfoldable pub float_as_i64 : ℕ → ℕ → ℕ → ℤ
float_as_i64 ebits mbits n =
    let negative = n / 2 ^ (ebits + mbits) == 1 in
    let exponent = n / 2 ^ mbits % 2 ^ ebits in
    let mantissa = n % 2 ^ mbits in
    let bias = 2 ^ (ebits - 1) - 1 in
    let magnitude =
      if ltb exponent bias then 0 else (2 ^ mbits + mantissa) * 2 ^ (exponent - bias) / 2 ^ mbits in
    if exponent == 2 ^ ebits - 1 && not (mantissa == 0)
    then pos 0
    else if negative
    then neg (min magnitude (2 ^ 63))
    else pos (min magnitude (2 ^ 63 - 1))

-- The difference of two natural numbers.
unfoldable pub sub_ℕ : ℕ → ℕ → ℤ
sub_ℕ a b = if leb b a then pos (a - b) else negsuc (b - a - 1)

infixl 6 ◌+ℤ◌ ◌-ℤ◌
unfoldable pub ◌+ℤ◌ : ℤ → ℤ → ℤ
pos a +ℤ pos b = pos (a + b)
pos a +ℤ negsuc b = sub_ℕ a (suc b)
negsuc a +ℤ pos b = sub_ℕ b (suc a)
negsuc a +ℤ negsuc b = negsuc (a + b + 1)

unfoldable pub ◌-ℤ◌ : ℤ → ℤ → ℤ
x -ℤ pos zero = x
x -ℤ pos (suc b) = x +ℤ negsuc b
x -ℤ negsuc b = x +ℤ pos (suc b)

-- Whether a number is an `i32`.
unfoldable pub is_i32 : ℤ → Bool
is_i32 (pos n) = ltb n (2 ^ 31)
is_i32 (negsuc n) = ltb n (2 ^ 31)

unfoldable pub checked : ℤ → Option ℤ
checked z = if is_i32 z then some z else none
