-- ===== src/Wire/LittleEndian.antt =====
-- The little-endian byte order as a value of the interface that the other modules take.
use ads_rs.Prelude.{
  ℕ, zero, suc, ◌+◌, ◌*◌, ◌/◌, ◌%◌, ◌^◌, ◌<◌, ◌≡◌, refl, ap, [], ◌∷◌, arith, length, All,
}
use native.Mathlib.Nat.{pow-suc}
use ads_rs.Wire.{Bytes, IsByte, ByteOrder}

unfoldable pub le_value : Bytes → ℕ
le_value [] = 0
le_value (b ∷ bs) = b + 256 * le_value bs

unfoldable pub le_bytes : ℕ → ℕ → Bytes
le_bytes zero v = []
le_bytes (suc w) v = v % 256 ∷ le_bytes w (v / 256)

pub length-le_bytes : (w v : ℕ) → length (le_bytes w v) ≡ w
unfolding le_bytes
length-le_bytes zero v = refl
length-le_bytes (suc w) v = ap suc (length-le_bytes w (v / 256))

pub le_value-le_bytes : (w v : ℕ) → v < 256 ^ w → le_value (le_bytes w v) ≡ v
unfolding le_bytes le_value
le_value-le_bytes zero v h = omega arith
le_value-le_bytes (suc w) v h =
    let bound : v < 256 ^ w * 256 = rw pow-suc at h in
    omega (arith, le_value-le_bytes w (v / 256) (omega arith))

pub le_value-lt : (w : ℕ) (bs : Bytes) → length bs ≡ w → All IsByte bs → le_value bs < 256 ^ w
unfolding le_value
le_value-lt zero [] e h = omega arith
le_value-lt zero (b ∷ bs) e h = absurd (omega arith)
le_value-lt (suc w) [] e h = absurd (omega arith)
le_value-lt (suc w) (b ∷ bs) e h = rw pow-suc (omega (arith, le_value-lt w bs (omega arith) h.1))

pub le_bytes-le_value :
    (w : ℕ) (bs : Bytes) → length bs ≡ w → All IsByte bs → le_bytes w (le_value bs) ≡ bs
unfolding le_bytes le_value
le_bytes-le_value zero [] e h = refl
le_bytes-le_value zero (b ∷ bs) e h = absurd (omega arith)
le_bytes-le_value (suc w) [] e h = absurd (omega arith)
le_bytes-le_value (suc w) (b ∷ bs) e h =
    let low : (b + 256 * le_value bs) % 256 ≡ b = omega arith in
    let high : (b + 256 * le_value bs) / 256 ≡ le_value bs = omega arith in
    rw (low, high) (ap (λ t. b ∷ t) (le_bytes-le_value w bs (omega arith) h.1))

abbrev pub little_endian : ByteOrder
little_endian = record {
  read_int = le_value;
  write_int = le_bytes;
  length-write_int = length-le_bytes;
  read_int-write_int = le_value-le_bytes;
  read_int-lt = le_value-lt;
  write_int-read_int = le_bytes-le_value;
}
