-- ===== src/Symbol/Members.antt =====
-- symbol.rs: the attributes of a type, and the variants of an enumeration.
pub mod Layout
pub mod Values
pub mod Short
use ads_rs.Prelude.{
  ℕ, ◌*◌, ◌%◌, ◌≡◌, refl, ap, Bool, true, false, String, List, [], ◌∷◌, ◌++◌, arith, ltb, leb, ◌==◌,
  if◌then◌else◌, length, take,
}
use ads_rs.Prelude.Int.{ℤ, pos, negsuc, signed, float_as_i64}
use ads_rs.Wire.{Bytes, ByteOrder, read_exact, read_u8, read_u16}
use ads_rs.Errors.{Result, ok, panic}
use ads_rs.Symbol.{Attribute, EnumInfo}
use ads_rs.Symbol.Cursor.{Cursor, pure, lift, repeat, ◌>>=◌}
use ads_rs.Symbol.Text.{read_str}

-- `&raw[..n]`
prefix : ℕ → Bytes → Result Bytes
prefix n raw = if leb n (length raw) then ok (take n raw) else panic

on_result : {A B : Type 0} → (A → B) → Result A → Result B
on_result f (ok a) = ok (f a)
on_result f (Result.err e) = Result.err e
on_result f panic = panic

module _ ⦃bo : ByteOrder⦄ where
  parse_attribute : Cursor Attribute
  unfolding read_str
  parse_attribute = do
    name_len ← read_u8 "parsing attributes"
    value_len ← read_u8 "parsing attributes"
    name ← read_str name_len
    value ← read_str value_len
    pure (record { name = name; value = value })

  unfoldable pub parse_attributes : Cursor (List Attribute)
  unfolding parse_attribute
  parse_attributes = do count ← read_u16 "parsing attributes"; repeat count parse_attribute

  unsigned_value : ℕ → Bytes → Result ℤ
  unfolding prefix on_result
  unsigned_value bytes raw = on_result (λ a. pos (bo.read_int a)) (prefix bytes raw)

  signed_value : ℕ → Bytes → Result ℤ
  unfolding prefix on_result
  signed_value bytes raw = on_result (λ a. signed (8 * bytes) (bo.read_int a)) (prefix bytes raw)

  float_value : ℕ → ℕ → ℕ → Bytes → Result ℤ
  unfolding prefix on_result
  float_value bytes ebits mbits raw =
      on_result (λ a. float_as_i64 ebits mbits (bo.read_int a)) (prefix bytes raw)

  -- The value of a base type that is none of those with a rule of their own.
  value_by_size : ℕ → Bytes → Result ℤ
  unfolding unsigned_value signed_value
  value_by_size size raw =
      if size == 1
      then unsigned_value 1 raw
      else if size == 2
      then signed_value 2 raw
      else if size == 4
      then signed_value 4 raw
      else if size == 8
      then signed_value 8 raw
      else ok (negsuc 98)

  -- The value of a variant, from the bytes that a value of the type takes. A byte is `raw[0]`.
  unfoldable pub enum_value : ℕ → ℕ → Bytes → Result ℤ
  unfolding unsigned_value signed_value float_value value_by_size
  enum_value base_type size raw =
      if base_type == 2
      then signed_value 2 raw
      else if base_type == 3
      then signed_value 4 raw
      else if base_type == 4
      then float_value 4 8 23 raw
      else if base_type == 5
      then float_value 8 11 52 raw
      else if base_type == 16
      then signed_value 1 raw
      else if base_type == 17
      then unsigned_value 1 raw
      else if base_type == 18
      then unsigned_value 2 raw
      else if base_type == 19
      then unsigned_value 4 raw
      else if base_type == 20
      then signed_value 8 raw
      else if base_type == 21
      then signed_value 8 raw
      else value_by_size size raw

  parse_enum_info : ℕ → ℕ → Cursor EnumInfo
  unfolding read_str enum_value
  parse_enum_info size base_type = do
    name_len ← read_u8 "parsing enum infos"
    name ← read_str name_len
    raw ← read_exact size "parsing enum infos"
    value ← lift (enum_value base_type size raw)
    pure (record { name = name; value = value })

  unfoldable pub parse_enum_infos : ℕ → ℕ → Cursor (List EnumInfo)
  unfolding parse_enum_info
  parse_enum_infos size base_type = do
    count ← read_u16 "parsing enum infos"
    repeat count (parse_enum_info size base_type)
