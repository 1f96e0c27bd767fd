-- ===== src/Strings/Narrow.antt =====
-- strings.rs: `String<LEN>`.
use ads_rs.Prelude.{
  ℕ, ◌-◌, ◌≤◌, ◌≡◌, refl, Bool, Option, none, some, List, ◌++◌, arith, ltb, le→ltb, ◌==◌,
  if◌then◌else◌, length, length-replicate, length-drop, length-append, take, drop, replicate,
}
use ads_rs.Wire.{Bytes}
use ads_rs.NetId.{bytes_eq}
use ads_rs.Client.Structs.{until_zero}
use ads_rs.Text.Utf8.{from_utf8}
use ads_rs.Strings.{ByteString, position_of_zero, copy_from, take-position_of_zero, drop-replicate}

unfoldable pub new : ℕ → ByteString
new len = record { array = replicate len 0 }

unfoldable pub len : ByteString → ℕ
unfolding position_of_zero
len s = position_of_zero s.array

unfoldable pub is_empty : ByteString → Bool
unfolding len
is_empty s = len s == 0

unfoldable pub as_bytes : ByteString → Bytes
unfolding len
as_bytes s = take (len s) s.array

-- The equality of the strings, which compares what stands before the first null byte.
unfoldable pub eq : ByteString → ByteString → Bool
unfolding as_bytes bytes_eq
eq a b = bytes_eq (as_bytes a) (as_bytes b)

-- `TryFrom<&[u8]>`, and `TryFrom<&str>` on the bytes of a text.
unfoldable pub try_from : ℕ → Bytes → Option ByteString
unfolding new copy_from
try_from len arr =
    if ltb len (length arr) then none else some (record { array = copy_from arr (new len).array })

-- The conversion to a text, which may be no UTF-8.
unfoldable pub to_text : ByteString → Option Bytes
unfolding as_bytes
to_text s = from_utf8 (as_bytes s)

-- Bytes are converted to a string of at least as many, whose array has the fixed length and whose
-- contents are the bytes up to the first null byte.
pub as_bytes-try_from :
    (size : ℕ) (arr : List ℕ)
    → length arr ≤ size
    → (s : ByteString) × (try_from size arr ≡ some s)
      × (length s.array ≡ size)
      × (as_bytes s ≡ until_zero arr)
unfolding try_from as_bytes
as_bytes-try_from size arr fits = (
  record { array = arr ++ drop (length arr) (replicate size 0) },
  rw (le→ltb size (length arr) fits) refl,
  omega (
    arith,
    length-append {A = ℕ} arr (drop (length arr) (replicate size 0)),
    length-drop {A = ℕ} (length arr) (replicate size 0),
    length-replicate {A = ℕ} size 0,
  ),
  rw (drop-replicate (length arr) size) (take-position_of_zero arr (size - length arr)),
)
