-- ===== src/Symbol/Text.antt =====
-- symbol.rs: strings and GUIDs in a response.
pub mod Strings
use ads_rs.Prelude.{
  ℕ, zero, suc, ◌+◌, ◌-◌, ◌*◌, ◌/◌, ◌%◌, ◌^◌, ◌≤◌, ◌<◌, ◌≡◌, refl, ap, ◌∙◌, Bool, true, false,
  String, List, [], ◌∷◌, ◌++◌, arith, ltb, leb, ◌==◌, if◌then◌else◌, length, length-append, take,
  take-append, drop, min, append_assoc, lt→ltb, le→ltb,
}
use ads_rs.Wire.{Bytes, ByteOrder, concat, read_exact, read_exact-append, split_at, split_at-append}
use ads_rs.Errors.{Result, ok, err, reply}
use ads_rs.Errors
use ads_rs.Text.Utf8.{is_utf8}
use ads_rs.Text.Lossy.{from_utf8_lossy, from_utf8_lossy_self}
use ads_rs.Symbol.{max_str_len}
use ads_rs.Symbol.Cursor.{Cursor, pure, ◌>>=◌}

-- The declared length may exceed what is left, and then everything that is left is read.
read_rest : ℕ → Cursor Bytes
unfolding from_utf8_lossy
read_rest len ptr =
    (do
      buf ← read_exact (length ptr) "reading string"
      pure (from_utf8_lossy (take (min len (length buf)) buf)))
      ptr

read_field : ℕ → Cursor Bytes
unfolding from_utf8_lossy
read_field len = do field ← split_at (len + 1); pure (from_utf8_lossy (take len field))

unfoldable pub read_str : ℕ → Cursor Bytes
unfolding read_rest read_field
read_str len ptr =
    if ltb max_str_len len
    then err (reply "reading string" "string length exceeds maximum" (len % 2 ^ 32))
    else if ltb (length ptr) (len + 1)
    then read_rest len ptr
    else read_field len ptr

hex_digit : ℕ → ℕ
hex_digit d = if ltb d 10 then b'0' + d else b'a' + (d - 10)

-- `{:0nx}`, for a number of at most `n` digits.
unfoldable pub lower_hex : ℕ → ℕ → Bytes
unfolding hex_digit
lower_hex zero v = []
lower_hex (suc n) v = hex_digit (v / 16 ^ n % 16) ∷ lower_hex n v

-- `{:02x}` of each byte.
hex_bytes : Bytes → Bytes
hex_bytes [] = []
hex_bytes (b ∷ bs) = lower_hex 2 b ++ hex_bytes bs

dash : Bytes
dash = b'-' ∷ []

module _ ⦃bo : ByteOrder⦄ where
  -- The text of the 16 bytes of a GUID.
  unfoldable pub format_guid : Bytes → Bytes
  unfolding hex_bytes dash lower_hex
  format_guid g = concat (
      lower_hex 8 (bo.read_int (take 4 g))
      ∷ dash
      ∷ lower_hex 4 (bo.read_int (take 2 (drop 4 g)))
      ∷ dash
      ∷ lower_hex 4 (bo.read_int (take 2 (drop 6 g)))
      ∷ dash
      ∷ hex_bytes (take 2 (drop 8 g))
      ∷ dash
      ∷ hex_bytes (take 6 (drop 10 g))
      ∷ [])

  unfoldable pub parse_guid : Cursor Bytes
  unfolding format_guid
  parse_guid = do g ← read_exact 16 "parsing GUID"; pure (format_guid g)

unfoldable pub skip_copy_mask : ℕ → Cursor (Unit {0})
skip_copy_mask size = do _mask ← read_exact size "skipping copy mask"; pure tt
