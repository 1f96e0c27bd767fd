-- ===== src/Symbol/Types/Valid.antt =====
-- symbol.rs: the layouts of symbols, types and fields whose parts are in range.
use ads_rs.Prelude.{Option, none, some, ℕ, ◌+◌, ◌^◌, ◌<◌, ◌≡◌, length, All}
use ads_rs.Wire.{ByteOrder}
use ads_rs.Symbol.Text.Strings.{IsText}
use ads_rs.Symbol.Members.Layout.{IsVariant}
use ads_rs.Symbol.Methods.Layout.{AreAttributes, IsMethod}
use ads_rs.Symbol.Types.Dimensions.{IsDimension}
use ads_rs.Symbol.Types.Layout.{
  PrefixLayout, PartsLayout, FieldLayout, TypeLayout, SymbolLayout, field_entry, type_entry,
  symbol_entry,
}

abbrev pub IsOffset : Option ℕ → Type 0
IsOffset none = Unit {0}
IsOffset (some offset) = offset < 0xFFFFFFFF

pub record IsPrefix (p : PrefixLayout) : Type 0 where
  pub header_whole : length p.header ≡ 8
  pub size_fits : p.size < 2 ^ 32
  pub offset_fits : IsOffset p.offset
  pub base_type_fits : p.base_type < 2 ^ 32
  pub flags_fits : p.flags < 2 ^ 32
  pub name_text : IsText p.name
  pub type_name_text : IsText p.type_name
  pub comment_text : IsText p.comment
  pub dimensions_few : length p.dimensions < 2 ^ 16
  pub dimensions_valid : All IsDimension p.dimensions

module _ ⦃bo : ByteOrder⦄ where
  -- The copy mask has a byte for each byte of a value.
  pub record AreParts (size : ℕ) (p : PartsLayout) : Type 0 where
    pub guid_whole : length p.guid ≡ 16
    pub mask_whole : length p.mask ≡ size
    pub methods_few : length p.methods < 2 ^ 16
    pub methods_valid : All IsMethod p.methods
    pub attributes_valid : AreAttributes p.attributes

  pub record IsField (f : FieldLayout) : Type 0 where
    pub start_valid : IsPrefix f.start
    pub sub_items_few : f.sub_items < 2 ^ 16
    pub parts_valid : AreParts f.start.size f.parts
    pub entry_fits : 4 + length (field_entry f) < 2 ^ 32

  pub record IsType (t : TypeLayout) : Type 0 where
    pub start_valid : IsPrefix t.start
    pub fields_few : length t.fields < 2 ^ 16
    pub fields_valid : All IsField t.fields
    pub parts_valid : AreParts t.start.size t.parts
    pub variants_few : length t.variants < 2 ^ 16
    pub variants_valid : All (IsVariant t.start.size t.start.base_type) t.variants
    pub entry_fits : 4 + length (type_entry t) < 2 ^ 32

  pub record IsSymbol (s : SymbolLayout) : Type 0 where
    pub ix_group_fits : s.ix_group < 2 ^ 32
    pub ix_offset_fits : s.ix_offset < 2 ^ 32
    pub size_fits : s.size < 2 ^ 32
    pub base_type_fits : s.base_type < 2 ^ 32
    pub flags_fits : s.flags < 2 ^ 16
    pub legacy_array_dim_fits : s.legacy_array_dim < 2 ^ 16
    pub len_comment_fits : s.len_comment < 2 ^ 16
    pub name_text : IsText s.name
    pub typ_text : IsText s.typ
    pub entry_fits : 4 + length (symbol_entry s) < 2 ^ 32
