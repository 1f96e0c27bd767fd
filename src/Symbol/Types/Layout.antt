-- ===== src/Symbol/Types/Layout.antt =====
-- symbol.rs: symbols, types and fields as they lie in the tables that a device uploads.
use ads_rs.Prelude.{ℕ, Bool, Option, none, some, List, [], ◌∷◌, ◌++◌, map, length, if◌then◌else◌}
use ads_rs.Prelude.Int.{ℤ}
use ads_rs.Wire.{Bytes, ByteOrder, concat, write_u16, write_u32}
use ads_rs.Symbol.{
  Attribute, Field, Symbol, TypeInfo, has_flag, type_flag_attributes, type_flag_copy_mask,
  type_flag_enum_infos, type_flag_guid, type_flag_method_infos,
}
use ads_rs.Symbol.Cursor.Reads.{entry_bytes}
use ads_rs.Symbol.Text.{format_guid}
use ads_rs.Symbol.Text.Strings.{zero_terminated}
use ads_rs.Symbol.Members.Layout.{VariantLayout, attributes_bytes, variant_of, variants_bytes}
use ads_rs.Symbol.Methods.Layout.{MethodLayout, given, method_of, methods_bytes}
use ads_rs.Symbol.Members.Values.{bits_of}
use ads_rs.Symbol.Types.Dimensions.{upper}

-- The start of an entry, with the bytes that are passed over, the offset if the field lies inside
-- its structure, and for each dimension of an array the lower bound and the number of elements.
pub record PrefixLayout : Type 0 where
  pub header : Bytes
  pub size : ℕ
  pub offset : Option ℕ
  pub base_type : ℕ
  pub flags : ℕ
  pub name : Bytes
  pub type_name : Bytes
  pub comment : Bytes
  pub dimensions : List (ℤ × ℕ)

-- The parts that the flags announce.
pub record PartsLayout : Type 0 where
  pub guid : Bytes
  pub mask : Bytes
  pub methods : List MethodLayout
  pub attributes : List Attribute

pub record FieldLayout : Type 0 where
  pub start : PrefixLayout
  pub sub_items : ℕ
  pub parts : PartsLayout
  pub trailing : Bytes

pub record TypeLayout : Type 0 where
  pub start : PrefixLayout
  pub fields : List FieldLayout
  pub parts : PartsLayout
  pub variants : List VariantLayout
  pub trailing : Bytes

pub record SymbolLayout : Type 0 where
  pub ix_group : ℕ
  pub ix_offset : ℕ
  pub size : ℕ
  pub base_type : ℕ
  pub flags : ℕ
  pub legacy_array_dim : ℕ
  pub len_comment : ℕ
  pub name : Bytes
  pub typ : Bytes
  pub trailing : Bytes

abbrev pub optional {ℓ} : {A : Type ℓ} → Bool → A → Option A
optional present x = if present then some x else none

abbrev pub bounds_of : ℤ × ℕ → ℤ × ℤ
bounds_of d = (d.0, upper d.0 d.1)

-- An offset as it is sent: -1 where the field lies elsewhere.
abbrev pub offset_sent : Option ℕ → ℕ
offset_sent none = 0xFFFFFFFF
offset_sent (some offset) = offset

abbrev pub symbol_of_layout : SymbolLayout → Symbol
symbol_of_layout s = record {
  name = s.name;
  ix_group = s.ix_group;
  ix_offset = s.ix_offset;
  typ = s.typ;
  size = s.size;
  base_type = s.base_type;
  flags = s.flags;
}

abbrev pub field_of_layout : FieldLayout → Field
field_of_layout f = record {
  name = f.start.name;
  typ = f.start.type_name;
  offset = f.start.offset;
  size = f.start.size;
  array = map bounds_of f.start.dimensions;
  base_type = f.start.base_type;
  flags = f.start.flags;
  comment = f.start.comment;
  attributes = optional (has_flag f.start.flags type_flag_attributes) f.parts.attributes;
}

module _ ⦃bo : ByteOrder⦄ where
  abbrev pub type_of_layout : TypeLayout → TypeInfo
  type_of_layout t = record {
    name = t.start.name;
    type_name = t.start.type_name;
    comment = t.start.comment;
    size = t.start.size;
    array = map bounds_of t.start.dimensions;
    fields = map field_of_layout t.fields;
    base_type = t.start.base_type;
    flags = t.start.flags;
    guid = optional (has_flag t.start.flags type_flag_guid) (format_guid t.parts.guid);
    methods =
        optional (has_flag t.start.flags type_flag_method_infos) (map method_of t.parts.methods);
    attributes = optional (has_flag t.start.flags type_flag_attributes) t.parts.attributes;
    enum_info = optional (has_flag t.start.flags type_flag_enum_infos) (map variant_of t.variants);
  }

  unfoldable pub dimension_bytes : ℤ × ℕ → Bytes
  dimension_bytes d = concat (write_u32 (bits_of 32 d.0) ∷ write_u32 d.1 ∷ [])

  unfoldable pub prefix_bytes : PrefixLayout → ℕ → Bytes
  prefix_bytes p sub_items = concat (
      write_u32 1
      ∷ p.header
      ∷ write_u32 p.size
      ∷ write_u32 (offset_sent p.offset)
      ∷ write_u32 p.base_type
      ∷ write_u32 p.flags
      ∷ write_u16 (length p.name)
      ∷ write_u16 (length p.type_name)
      ∷ write_u16 (length p.comment)
      ∷ write_u16 (length p.dimensions)
      ∷ write_u16 sub_items
      ∷ zero_terminated p.name
      ∷ zero_terminated p.type_name
      ∷ zero_terminated p.comment
      ∷ concat (map dimension_bytes p.dimensions)
      ∷ [])

  -- The parts that the flags announce, and then others.
  unfoldable pub parts_bytes : ℕ → PartsLayout → Bytes → Bytes
  parts_bytes flags p others = concat (
      given (has_flag flags type_flag_guid) p.guid
      ∷ given (has_flag flags type_flag_copy_mask) p.mask
      ∷ given (has_flag flags type_flag_method_infos) (methods_bytes p.methods)
      ∷ given (has_flag flags type_flag_attributes) (attributes_bytes p.attributes)
      ∷ others
      ∷ [])

  unfoldable pub field_bytes : FieldLayout → Bytes
  field_bytes f = prefix_bytes f.start f.sub_items ++ parts_bytes f.start.flags f.parts []

  abbrev pub field_entry : FieldLayout → Bytes
  field_entry f = field_bytes f ++ f.trailing

  unfoldable pub type_bytes : TypeLayout → Bytes
  type_bytes t = concat (
      prefix_bytes t.start (length t.fields)
      ∷ concat (map (λ f. entry_bytes (field_entry f)) t.fields)
      ∷ parts_bytes t.start.flags t.parts
          (given (has_flag t.start.flags type_flag_enum_infos) (variants_bytes t.variants))
      ∷ [])

  abbrev pub type_entry : TypeLayout → Bytes
  type_entry t = type_bytes t ++ t.trailing

  unfoldable pub symbol_bytes : SymbolLayout → Bytes
  symbol_bytes s = concat (
      write_u32 s.ix_group
      ∷ write_u32 s.ix_offset
      ∷ write_u32 s.size
      ∷ write_u32 s.base_type
      ∷ write_u16 s.flags
      ∷ write_u16 s.legacy_array_dim
      ∷ write_u16 (length s.name)
      ∷ write_u16 (length s.typ)
      ∷ write_u16 s.len_comment
      ∷ zero_terminated s.name
      ∷ zero_terminated s.typ
      ∷ [])

  abbrev pub symbol_entry : SymbolLayout → Bytes
  symbol_entry s = symbol_bytes s ++ s.trailing
