-- ===== src/Symbol/Members/Values.antt =====
-- symbol.rs: the values of the variants of an enumeration, for each integer type.
use ads_rs.Prelude.{
  ℕ, ◌+◌, ◌-◌, ◌*◌, ◌^◌, ◌<◌, ◌≤◌, ◌≡◌, refl, sym, ap, ◌∙◌, Bool, true, false, ◌++◌, arith, leb,
  le→leb, ltb, lt→ltb, le→ltb, length, length-append, take-append,
}
use ads_rs.Prelude.Int.{ℤ, pos, negsuc, signed}
use ads_rs.Wire.{Bytes, ByteOrder}
use ads_rs.Errors.{ok, panic}
use ads_rs.Symbol.Members.{enum_value, prefix, on_result, signed_value, unsigned_value}

-- The integer types, by their base type: the bytes of a value, and whether it has a sign.
pub data IntegerType : ℕ → ℕ → Bool → Type 0 where
  sint : IntegerType 16 1 true
  int : IntegerType 2 2 true
  dint : IntegerType 3 4 true
  lint : IntegerType 20 8 true
  usint : IntegerType 17 1 false
  uint : IntegerType 18 2 false
  udint : IntegerType 19 4 false
  ulint : IntegerType 21 8 false

-- The numbers of a type of so many bits, as they are sent.
unfoldable pub bits_of : ℕ → ℤ → ℕ
bits_of bits (pos n) = n
bits_of bits (negsuc n) = 2 ^ bits - 1 - n

abbrev pub Fits : ℕ → Bool → ℤ → Type 0
Fits bits true (pos n) = n < 2 ^ (bits - 1)
Fits bits true (negsuc n) = n < 2 ^ (bits - 1)
Fits bits false (pos n) = n < 2 ^ bits
Fits bits false (negsuc n) = ⊥

-- `as i64`, which keeps the bits of a number of a ULINT that is too large.
abbrev pub as_i64 : ℤ → ℤ
as_i64 (pos n) = signed 64 n
as_i64 (negsuc n) = negsuc n

as_i64_same : (limit : ℕ) (n : ℕ) → limit ≤ 2 ^ 63 → n < limit → as_i64 (pos n) ≡ pos n
unfolding signed
as_i64_same limit n small h = rw (lt→ltb n (2 ^ 63) (omega arith)) refl

as_i64-signed : (bits : ℕ) (z : ℤ) → 2 ^ (bits - 1) ≤ 2 ^ 63 → Fits bits true z → as_i64 z ≡ z
as_i64-signed bits (pos n) small h = as_i64_same (2 ^ (bits - 1)) n small h
as_i64-signed bits (negsuc n) small h = refl

module _ (bits : ℕ) (double : 2 ^ bits ≡ 2 ^ (bits - 1) + 2 ^ (bits - 1)) where
  pub bits_of_lt : (z : ℤ) → Fits bits true z → bits_of bits z < 2 ^ bits
  unfolding bits_of
  bits_of_lt (pos n) h = omega arith
  bits_of_lt (negsuc n) h = omega arith

  -- Two's complement.
  pub signed-bits_of : (z : ℤ) → Fits bits true z → signed bits (bits_of bits z) ≡ z
  unfolding signed bits_of
  signed-bits_of (pos n) h = rw (lt→ltb n (2 ^ (bits - 1)) h) refl
  signed-bits_of (negsuc n) h =
      let low : ltb (2 ^ bits - 1 - n) (2 ^ (bits - 1)) ≡ false =
        le→ltb (2 ^ bits - 1 - n) (2 ^ (bits - 1)) (omega arith) in
      let back : 2 ^ bits - 1 - (2 ^ bits - 1 - n) ≡ n = omega arith in rw (low, back) refl

module _ ⦃bo : ByteOrder⦄ where
  read_prefix : (w v : ℕ) (pad : Bytes) → prefix w (bo.write_int w v ++ pad) ≡ ok (bo.write_int w v)
  unfolding prefix
  read_prefix w v pad =
      rw
        (
          le→leb w (length (bo.write_int w v ++ pad)) (
              omega (arith, length-append {A = ℕ} (bo.write_int w v) pad, bo.length-write_int w v)),
          take-append w (bo.write_int w v) pad (bo.length-write_int w v),
        )
        refl

  signed_prefix :
      (w v : ℕ) (pad : Bytes)
      → v < 256 ^ w
      → signed_value w (bo.write_int w v ++ pad) ≡ ok (signed (8 * w) v)
  unfolding signed_value on_result
  signed_prefix w v pad h = rw (read_prefix w v pad, bo.read_int-write_int w v h) refl

  unsigned_prefix :
      (w v : ℕ) (pad : Bytes)
      → v < 256 ^ w
      → unsigned_value w (bo.write_int w v ++ pad) ≡ ok (pos v)
  unfolding unsigned_value on_result
  unsigned_prefix w v pad h = rw (read_prefix w v pad, bo.read_int-write_int w v h) refl

  signed_written :
      (w : ℕ)
      → 2 ^ (8 * w) ≡ 2 ^ (8 * w - 1) + 2 ^ (8 * w - 1)
      → (z : ℤ) (pad : Bytes) → 2 ^ (8 * w) ≡ 256 ^ w
      → Fits (8 * w) true z
      → signed_value w (bo.write_int w (bits_of (8 * w) z) ++ pad) ≡ ok z
  signed_written w double z pad power h =
      let bound : bits_of (8 * w) z < 256 ^ w =
        omega (arith, bits_of_lt (8 * w) double z h, power) in
      signed_prefix w (bits_of (8 * w) z) pad bound ∙ ap ok (signed-bits_of (8 * w) double z h)

  -- A number that fits an integer type, in the bytes of the type and whatever follows them, makes the
  -- value of a variant of that base type, for any size: the number itself, or, for one of a ULINT from
  -- 2^63 on, that number less 2^64.
  pub enum_value-written :
      (base_type w : ℕ) (has_sign : Bool)
      → IntegerType base_type w has_sign
      → (size : ℕ) (z : ℤ) (pad : Bytes) → Fits (8 * w) has_sign z
      → enum_value base_type size (bo.write_int w (bits_of (8 * w) z) ++ pad) ≡ ok (as_i64 z)
  unfolding enum_value bits_of
  enum_value-written _ _ _ sint size z pad h =
      signed_written 1 (omega arith) z pad (omega arith) h
      ∙ ap ok (sym (as_i64-signed 8 z (omega arith) h))
  enum_value-written _ _ _ int size z pad h =
      signed_written 2 (omega arith) z pad (omega arith) h
      ∙ ap ok (sym (as_i64-signed 16 z (omega arith) h))
  enum_value-written _ _ _ dint size z pad h =
      signed_written 4 (omega arith) z pad (omega arith) h
      ∙ ap ok (sym (as_i64-signed 32 z (omega arith) h))
  enum_value-written _ _ _ lint size z pad h =
      signed_written 8 (omega arith) z pad (omega arith) h
      ∙ ap ok (sym (as_i64-signed 64 z (omega arith) h))
  enum_value-written _ _ _ usint size (pos n) pad h =
      unsigned_prefix 1 n pad h ∙ ap ok (sym (as_i64_same (2 ^ 8) n (omega arith) h))
  enum_value-written _ _ _ uint size (pos n) pad h =
      unsigned_prefix 2 n pad h ∙ ap ok (sym (as_i64_same (2 ^ 16) n (omega arith) h))
  enum_value-written _ _ _ udint size (pos n) pad h =
      unsigned_prefix 4 n pad h ∙ ap ok (sym (as_i64_same (2 ^ 32) n (omega arith) h))
  enum_value-written _ _ _ ulint size (pos n) pad h = signed_prefix 8 n pad h
  enum_value-written _ _ _ usint size (negsuc n) pad h = absurd h
  enum_value-written _ _ _ uint size (negsuc n) pad h = absurd h
  enum_value-written _ _ _ udint size (negsuc n) pad h = absurd h
  enum_value-written _ _ _ ulint size (negsuc n) pad h = absurd h

  prefix_short : (w : ℕ) (raw : Bytes) → length raw < w → prefix w raw ≡ panic
  unfolding prefix
  prefix_short w raw h = let e : leb w (length raw) ≡ false = ground arith in rw e refl

  -- The bytes of a value of an integer type are sliced out of those of a variant.
  pub enum_value-short :
      (base_type w : ℕ) (has_sign : Bool)
      → IntegerType base_type w has_sign
      → (raw : Bytes) → length raw < w
      → enum_value base_type (length raw) raw ≡ panic
  unfolding enum_value signed_value unsigned_value on_result
  enum_value-short _ _ _ sint raw h = rw (prefix_short 1 raw h) refl
  enum_value-short _ _ _ int raw h = rw (prefix_short 2 raw h) refl
  enum_value-short _ _ _ dint raw h = rw (prefix_short 4 raw h) refl
  enum_value-short _ _ _ lint raw h = rw (prefix_short 8 raw h) refl
  enum_value-short _ _ _ usint raw h = rw (prefix_short 1 raw h) refl
  enum_value-short _ _ _ uint raw h = rw (prefix_short 2 raw h) refl
  enum_value-short _ _ _ udint raw h = rw (prefix_short 4 raw h) refl
  enum_value-short _ _ _ ulint raw h = rw (prefix_short 8 raw h) refl
