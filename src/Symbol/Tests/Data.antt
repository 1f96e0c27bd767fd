-- ===== src/Symbol/Tests/Data.antt =====
-- Concrete strings, types and tables.
use ads_rs.Prelude.{
  false, length, ◌-◌, some, ℕ, ◌^◌, ◌<◌, ◌≡◌, refl, true, none, [], ◌∷◌, ◌++◌, arith, inl, All,
}
use ads_rs.Prelude.Int.{signed, pos, negsuc}
use ads_rs.Prelude.Int.{◌+ℤ◌, sub_ℕ}
use ads_rs.Wire.{Bytes, write_u16, write_u32}
use ads_rs.Wire.LittleEndian.{le_value, le_bytes}
use ads_rs.Errors.{ok, panic}
use ads_rs.Text.Utf8.{is_utf8}
use ads_rs.Text.Lossy.{from_utf8_lossy}
use ads_rs.Client.Tests.{byte_order}
use ads_rs.Symbol.Cursor.Reads.{entry_bytes}
use ads_rs.Symbol.Members.Layout.{
  VariantLayout, attributes_bytes, attribute_bytes, variants_bytes, variant_bytes,
}
use ads_rs.Symbol.Types.Valid.{IsField, IsPrefix, IsSymbol, IsType, AreParts}
use ads_rs.Symbol.Types.Layout.{
  field_bytes, prefix_bytes, parts_bytes, dimension_bytes, type_bytes, symbol_bytes,
}
use ads_rs.Symbol.Text.{read_str}
use ads_rs.Symbol.Text.Strings.{IsText, read_str_eq}
use ads_rs.Symbol.Members.{enum_value, parse_enum_infos}
use ads_rs.Symbol.Members.Layout.{IsVariant}
use ads_rs.Symbol.Members.Values.{bits_of, int, ulint, enum_value-written}
use ads_rs.Symbol.Members.Short.{parse_enum_infos-short}
use ads_rs.Symbol.Types.{decode_type}
use ads_rs.Symbol.Types.Layout.{
  FieldLayout, PartsLayout, PrefixLayout, SymbolLayout, TypeLayout, symbol_entry, symbol_of_layout,
  type_entry, type_of_layout,
}
use ads_rs.Symbol.Types.RoundTrip.{decode_type-layout}
use ads_rs.Symbol.Table.{TypeMap, decode_symbol_info, entries, get}
use ads_rs.Symbol.Table.RoundTrip.{decode_symbol_info-layout, last_named, table_bytes}
use ads_rs.Symbol.Table.Rounds.{Decoded, entries-Decoded}
use ads_rs.Symbol.Table.Broken.{decode_symbol_info-bad}

-- A byte that starts no character is replaced.
replaced :
    from_utf8_lossy (b'a' ∷ 0xFF ∷ 0xC3 ∷ b'b' ∷ [])
    ≡ b'a' ∷ 0xEF ∷ 0xBF ∷ 0xBD ∷ 0xEF ∷ 0xBF ∷ 0xBD ∷ b'b' ∷ []
unfolding from_utf8_lossy
replaced = refl

read_str_eq_example : read_str 4 (b'a' ∷ b'b' ∷ []) ≡ ok (from_utf8_lossy (b'a' ∷ b'b' ∷ []), [])
read_str_eq_example = read_str_eq 4 (b'a' ∷ b'b' ∷ [])

-- The largest number of a ULINT.
enum_value-written_example :
    enum_value 21 8 (byte_order.write_int 8 (bits_of 64 (pos (2 ^ 64 - 1))) ++ 7 ∷ 7 ∷ [])
    ≡ ok (negsuc 0)
unfolding signed enum_value
enum_value-written_example =
    enum_value-written 21 8 false ulint 8 (pos (2 ^ 64 - 1)) (7 ∷ 7 ∷ []) (omega arith)

-- A variant of one byte, of a type of two.
abbrev narrow : VariantLayout
narrow = record { name = b'A' ∷ []; raw = 5 ∷ []; value = pos 0 }

parse_enum_infos-short_example :
    parse_enum_infos 1 2 ((write_u16 2 ++ variant_bytes narrow) ++ (9 ∷ [])) ≡ panic
unfolding is_utf8
parse_enum_infos-short_example =
    parse_enum_infos-short 2 2 true narrow int (refl, omega arith) (omega arith) (omega arith) 1
      (9 ∷ []) (omega arith)

-- A structure with a field, an attribute and no more.
abbrev start_of : Bytes → ℕ → ℕ → ℕ → PrefixLayout
start_of name size base_type flags = record {
  header = 0 ∷ 0 ∷ 0 ∷ 0 ∷ 0 ∷ 0 ∷ 0 ∷ 0 ∷ [];
  size = size;
  offset = some 0;
  base_type = base_type;
  flags = flags;
  name = name;
  type_name = [];
  comment = [];
  dimensions = (negsuc 0, 3) ∷ [];
}

abbrev zeroes16 : Bytes
zeroes16 = 0 ∷ 0 ∷ 0 ∷ 0 ∷ 0 ∷ 0 ∷ 0 ∷ 0 ∷ 0 ∷ 0 ∷ 0 ∷ 0 ∷ 0 ∷ 0 ∷ 0 ∷ 0 ∷ []

abbrev parts : PartsLayout
parts = record {
  guid = zeroes16;
  mask = 1 ∷ [];
  methods = [];
  attributes = record { name = b'k' ∷ []; value = b'v' ∷ [] } ∷ [];
}

abbrev member : FieldLayout
member = record {
  start = start_of (b'x' ∷ []) 1 17 0x1000;
  sub_items = 0;
  parts = parts;
  trailing = 9 ∷ [];
}

abbrev pub colour : TypeLayout
colour = record {
  start = start_of (b'C' ∷ []) 1 17 0x3080;
  fields = member ∷ [];
  parts = parts;
  variants = record { name = b'r' ∷ []; raw = 5 ∷ []; value = pos 5 } ∷ [];
  trailing = [];
}

abbrev variable : SymbolLayout
variable = record {
  ix_group = 0x4040;
  ix_offset = 8;
  size = 1;
  base_type = 17;
  flags = 0;
  legacy_array_dim = 0;
  len_comment = 0;
  name = b'v' ∷ [];
  typ = b'C' ∷ [];
  trailing = 0 ∷ [];
}

start-IsPrefix :
    (name : Bytes) (size base_type flags : ℕ)
    → IsText name
    → size < 2 ^ 32
    → base_type < 2 ^ 32
    → flags < 2 ^ 32
    → IsPrefix (start_of name size base_type flags)
unfolding is_utf8 ◌+ℤ◌ sub_ℕ
start-IsPrefix name size base_type flags t s b f = record {
  header_whole = refl;
  size_fits = s;
  offset_fits = omega arith;
  base_type_fits = b;
  flags_fits = f;
  name_text = t;
  type_name_text = (refl, omega arith);
  comment_text = (refl, omega arith);
  dimensions_few = omega arith;
  dimensions_valid = ((omega arith, omega arith, omega arith), tt);
}

parts-AreParts : AreParts 1 parts
unfolding is_utf8
parts-AreParts = record {
  guid_whole = refl;
  mask_whole = refl;
  methods_few = omega arith;
  methods_valid = tt;
  attributes_valid =
      ((((refl, omega arith), (refl, omega arith), omega arith, omega arith), tt), omega arith);
}

member-IsField : IsField member
unfolding is_utf8 field_bytes prefix_bytes le_bytes parts_bytes dimension_bytes bits_of
    attributes_bytes attribute_bytes
member-IsField = record {
  start_valid =
      start-IsPrefix (b'x' ∷ []) 1 17 0x1000 (refl, omega arith) (omega arith) (omega arith)
        (omega arith);
  sub_items_few = omega arith;
  parts_valid = parts-AreParts;
  entry_fits = omega arith;
}

variants-IsVariant : All (IsVariant 1 17) colour.variants
unfolding is_utf8 enum_value le_value
variants-IsVariant = (((refl, omega arith), omega arith, refl, refl), tt)

pub colour-IsType : IsType colour
unfolding is_utf8 type_bytes field_bytes prefix_bytes le_bytes parts_bytes dimension_bytes bits_of
    attributes_bytes attribute_bytes variants_bytes variant_bytes entry_bytes
colour-IsType = record {
  start_valid =
      start-IsPrefix (b'C' ∷ []) 1 17 0x3080 (refl, omega arith) (omega arith) (omega arith)
        (omega arith);
  fields_few = omega arith;
  fields_valid = (member-IsField, tt);
  parts_valid = parts-AreParts;
  variants_few = omega arith;
  variants_valid = variants-IsVariant;
  entry_fits = omega arith;
}

variable-IsSymbol : IsSymbol variable
unfolding is_utf8 symbol_bytes le_bytes
variable-IsSymbol = record {
  ix_group_fits = omega arith;
  ix_offset_fits = omega arith;
  size_fits = omega arith;
  base_type_fits = omega arith;
  flags_fits = omega arith;
  legacy_array_dim_fits = omega arith;
  len_comment_fits = omega arith;
  name_text = (refl, omega arith);
  typ_text = (refl, omega arith);
  entry_fits = omega arith;
}

decode_type-layout_example : decode_type (type_entry colour) ≡ ok (type_of_layout colour)
decode_type-layout_example = decode_type-layout colour colour-IsType

decode_symbol_info-layout_example :
    (type_map : TypeMap) × (decode_symbol_info
        (table_bytes symbol_entry (variable ∷ []))
        (table_bytes type_entry (colour ∷ colour ∷ []))
      ≡ ok (symbol_of_layout variable ∷ [], type_map))
    × ((key : Bytes)
        → get key type_map
          ≡ last_named key (type_of_layout colour ∷ type_of_layout colour ∷ []) none)
decode_symbol_info-layout_example =
    decode_symbol_info-layout (variable ∷ []) (colour ∷ colour ∷ []) (variable-IsSymbol, tt)
      (colour-IsType, (colour-IsType, tt))

entries-Decoded_example :
    Decoded "decoding type info" decode_type (table_bytes type_entry (colour ∷ [])) (
      entries
        (length (table_bytes type_entry (colour ∷ [])))
        "decoding type info"
        decode_type
        (table_bytes type_entry (colour ∷ [])))
entries-Decoded_example =
    entries-Decoded "decoding type info" decode_type (length (table_bytes type_entry (colour ∷ [])))
      (table_bytes type_entry (colour ∷ [])) (omega arith)

decode_symbol_info-bad_example :
    decode_symbol_info [] (table_bytes type_entry (colour ∷ []) ++ (write_u32 3 ++ [])) ≡ panic
decode_symbol_info-bad_example =
    decode_symbol_info-bad [] (colour ∷ []) 3 [] (colour-IsType, tt) (omega arith) (omega arith)
      (inl (omega arith))
