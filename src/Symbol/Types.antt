-- ===== src/Symbol/Types.antt =====
-- symbol.rs: the records of a symbol, and of a type at the top level or as a field of another type.
pub mod Dimensions
pub mod Layout
pub mod Valid
pub mod RoundTrip
use ads_rs.Prelude.{
  ℕ, ◌+◌, ◌-◌, ◌%◌, ◌^◌, ◌≡◌, refl, Bool, true, false, String, Option, none, some, List, [], ◌∷◌,
  ◌++◌, ◌==◌, if◌then◌else◌,
}
use ads_rs.Prelude.Int.{ℤ, signed}
use ads_rs.Wire.{Bytes, ByteOrder, read_exact, read_u16, read_u32}
use ads_rs.Errors.{Result, ok, err, panic, reply, ensure}
use ads_rs.Symbol.{
  Attribute, EnumInfo, Field, RpcMethod, Symbol, TypeInfo, has_flag, type_flag_attributes,
  type_flag_copy_mask, type_flag_enum_infos, type_flag_guid, type_flag_method_infos,
}
use ads_rs.Symbol.Cursor.{Cursor, pure, entry, repeat, value_of, ◌>>=◌, ◌>>◌}
use ads_rs.Symbol.Text.{parse_guid, read_str, skip_copy_mask}
use ads_rs.Symbol.Members.{parse_attributes, parse_enum_infos}
use ads_rs.Symbol.Methods.{parse_method_infos}

-- What `decode_type_info` reads first, for a type and for a field alike.
pub record Prefix : Type 0 where
  pub name : Bytes
  pub type_name : Bytes
  pub comment : Bytes
  pub size : ℕ
  pub offset : ℕ
  pub base_type : ℕ
  pub flags : ℕ
  pub array : List (ℤ × ℤ)
  pub sub_items : ℕ

-- The upper bound `lower + total - 1`, on numbers of 32 bits that are read as unsigned ones.
unfoldable pub array_bounds : ℕ → ℕ → ℤ × ℤ
array_bounds lower total = (signed 32 lower, signed 32 ((lower + total + 2 ^ 32 - 1) % 2 ^ 32))

-- A part that is there if the flags say so.
unfoldable pub when : {A : Type 0} → Bool → Cursor A → Cursor (Option A)
when false part = pure none
when true part = do a ← part; pure (some a)

-- An offset of -1 says that the field lies elsewhere in memory.
unfoldable pub field_offset : ℕ → Option ℕ
field_offset offset = if offset == 0xFFFFFFFF then none else some offset

module _ ⦃bo : ByteOrder⦄ where
  unfoldable pub dimension : Cursor (ℤ × ℤ)
  unfolding array_bounds
  dimension = do
    lower ← read_u32 "decoding type info"
    total ← read_u32 "decoding type info"
    pure (array_bounds lower total)

  unfoldable pub decode_prefix : Cursor Prefix
  unfolding read_str dimension
  decode_prefix = do
    let ctx : String = "decoding type info"
    version ← read_u32 ctx
    ensure (version == 1) (reply ctx "unknown type info version" version)
    _header ← read_exact 8 ctx
    size ← read_u32 ctx
    offset ← read_u32 ctx
    base_type ← read_u32 ctx
    flags ← read_u32 ctx
    len_name ← read_u16 ctx
    len_type ← read_u16 ctx
    len_comment ← read_u16 ctx
    array_dim ← read_u16 ctx
    sub_items ← read_u16 ctx
    name ← read_str len_name
    type_name ← read_str len_type
    comment ← read_str len_comment
    array ← repeat array_dim dimension
    pure (record {
      name = name;
      type_name = type_name;
      comment = comment;
      size = size;
      offset = offset;
      base_type = base_type;
      flags = flags;
      array = array;
      sub_items = sub_items;
    })

  unfoldable pub parse_field_attributes : ℕ → ℕ → Cursor (Option (List Attribute))
  unfolding when
  parse_field_attributes flags size = do
    _guid ← when (has_flag flags type_flag_guid) parse_guid
    _mask ← when (has_flag flags type_flag_copy_mask) (skip_copy_mask size)
    _methods ← when (has_flag flags type_flag_method_infos) parse_method_infos
    when (has_flag flags type_flag_attributes) parse_attributes

  unfoldable pub field_of : Cursor Field
  unfolding field_offset
  field_of = do
    p ← decode_prefix
    attributes ← parse_field_attributes p.flags p.size
    pure (record {
      name = p.name;
      typ = p.type_name;
      offset = field_offset p.offset;
      size = p.size;
      array = p.array;
      base_type = p.base_type;
      flags = p.flags;
      comment = p.comment;
      attributes = attributes;
    })

  -- `decode_type_info` with a parent, which the field is pushed onto.
  unfoldable pub decode_field : Bytes → Result Field
  decode_field ptr = value_of (field_of ptr)

  -- `parse_type_flags`, on a type that has none of the parts yet.
  unfoldable pub parse_type_flags : TypeInfo → Cursor TypeInfo
  parse_type_flags typ = do
    guid ← when (has_flag typ.flags type_flag_guid) parse_guid
    _mask ← when (has_flag typ.flags type_flag_copy_mask) (skip_copy_mask typ.size)
    methods ← when (has_flag typ.flags type_flag_method_infos) parse_method_infos
    attributes ← when (has_flag typ.flags type_flag_attributes) parse_attributes
    enum_info ←
        when (has_flag typ.flags type_flag_enum_infos) (parse_enum_infos typ.size typ.base_type)
    pure (record typ {
      guid = guid;
      methods = methods;
      attributes = attributes;
      enum_info = enum_info;
    })

  unfoldable pub type_of : Cursor TypeInfo
  type_of = do
    p ← decode_prefix
    fields ←
        repeat p.sub_items (entry "decoding type info" "invalid sub-item entry length" decode_field)
    parse_type_flags (record {
      name = p.name;
      type_name = p.type_name;
      comment = p.comment;
      size = p.size;
      array = p.array;
      fields = fields;
      base_type = p.base_type;
      flags = p.flags;
      guid = none;
      methods = none;
      attributes = none;
      enum_info = none;
    })

  -- `decode_type_info` without a parent, which returns the type.
  unfoldable pub decode_type : Bytes → Result TypeInfo
  decode_type ptr = value_of (type_of ptr)

  unfoldable pub symbol_of : Cursor Symbol
  symbol_of = do
    let ctx : String = "decoding symbol info"
    ix_group ← read_u32 ctx
    ix_offset ← read_u32 ctx
    size ← read_u32 ctx
    base_type ← read_u32 ctx
    flags ← read_u16 ctx
    _legacy_array_dim ← read_u16 ctx
    len_name ← read_u16 ctx
    len_type ← read_u16 ctx
    _len_comment ← read_u16 ctx
    name ← read_str len_name
    typ ← read_str len_type
    pure (record {
      name = name;
      ix_group = ix_group;
      ix_offset = ix_offset;
      typ = typ;
      size = size;
      base_type = base_type;
      flags = flags;
    })

  unfoldable pub decode_symbol : Bytes → Result Symbol
  decode_symbol ptr = value_of (symbol_of ptr)
