-- ===== src/Symbol/Members/Layout.antt =====
-- symbol.rs: lists of attributes and of enumeration variants as they lie in a response.
use ads_rs.Prelude.{ℕ, ◌^◌, ◌<◌, ◌≡◌, List, [], ◌∷◌, ◌++◌, map, length, All, All-map}
use ads_rs.Prelude.Int.{ℤ}
use ads_rs.Wire.{Bytes, ByteOrder, concat, write_u16}
use ads_rs.Errors.{ok}
use ads_rs.Symbol.{Attribute, EnumInfo}
use ads_rs.Symbol.Cursor.Reads.{
  Reads, pure-Reads, >>=-Reads, repeat-Reads, repeat-Reads_self, read_uint-Reads, read_exact-Reads,
  lift-Reads,
}
use ads_rs.Symbol.Text.Strings.{IsText, zero_terminated, read_str-Reads}
use ads_rs.Symbol.Members.{
  parse_attributes, parse_enum_infos, enum_value, parse_attribute, parse_enum_info,
}

abbrev pub IsAttribute : Attribute → Type 0
IsAttribute a = IsText a.name × IsText a.value × (length a.name < 256) × (length a.value < 256)

module _ ⦃bo : ByteOrder⦄ where
  unfoldable pub attribute_bytes : Attribute → Bytes
  attribute_bytes a = concat (
      bo.write_int 1 (length a.name)
      ∷ bo.write_int 1 (length a.value)
      ∷ zero_terminated a.name
      ∷ zero_terminated a.value
      ∷ [])

  unfoldable pub attributes_bytes : List Attribute → Bytes
  attributes_bytes as' = write_u16 (length as') ++ concat (map attribute_bytes as')

  attribute-Reads : (a : Attribute) → IsAttribute a → Reads parse_attribute (attribute_bytes a) a
  unfolding parse_attribute attribute_bytes
  attribute-Reads a (name, value, short, short') =
      >>=-Reads _ (read_uint-Reads 1 _ (length a.name) short) (
        >>=-Reads _ (read_uint-Reads 1 _ (length a.value) short') (
          >>=-Reads _ (read_str-Reads a.name name)
            (>>=-Reads _ (read_str-Reads a.value value) (pure-Reads a))))

  -- A list of attributes is read back from its layout, whatever follows it.
  pub attributes-Reads :
      (as' : List Attribute)
      → All IsAttribute as'
      → length as' < 2 ^ 16
      → Reads parse_attributes (attributes_bytes as') as'
  unfolding parse_attributes attributes_bytes
  attributes-Reads as' h few =
      >>=-Reads _ (read_uint-Reads 2 _ (length as') few)
        (repeat-Reads_self parse_attribute attribute_bytes as' (All-map attribute-Reads as' h))

-- A variant as it lies in a response, and its value.
pub record VariantLayout : Type 0 where
  pub name : Bytes
  pub raw : Bytes
  pub value : ℤ

abbrev pub variant_of : VariantLayout → EnumInfo
variant_of v = record { name = v.name; value = v.value }

module _ ⦃bo : ByteOrder⦄ where
  abbrev pub IsVariant : ℕ → ℕ → VariantLayout → Type 0
  IsVariant size base_type v =
      IsText v.name
      × (length v.name < 256)
      × (length v.raw ≡ size)
      × (enum_value base_type size v.raw ≡ ok v.value)

  unfoldable pub variant_bytes : VariantLayout → Bytes
  variant_bytes v = concat (bo.write_int 1 (length v.name) ∷ zero_terminated v.name ∷ v.raw ∷ [])

  unfoldable pub variants_bytes : List VariantLayout → Bytes
  variants_bytes vs = write_u16 (length vs) ++ concat (map variant_bytes vs)

  variant-Reads :
      (size base_type : ℕ) (v : VariantLayout)
      → IsVariant size base_type v
      → Reads (parse_enum_info size base_type) (variant_bytes v) (variant_of v)
  unfolding parse_enum_info variant_bytes
  variant-Reads size base_type v (name, short, whole, value) =
      >>=-Reads _ (read_uint-Reads 1 _ (length v.name) short) (
        >>=-Reads _ (read_str-Reads v.name name) (
          >>=-Reads _ (read_exact-Reads size _ v.raw whole)
            (>>=-Reads _ (lift-Reads _ v.value value) (pure-Reads (variant_of v)))))

  -- The variants of an enumeration are read from their layout, whatever follows it.
  pub variants-Reads :
      (size base_type : ℕ) (vs : List VariantLayout)
      → All (IsVariant size base_type) vs
      → length vs < 2 ^ 16
      → Reads (parse_enum_infos size base_type) (variants_bytes vs) (map variant_of vs)
  unfolding parse_enum_infos variants_bytes
  variants-Reads size base_type vs h few =
      >>=-Reads _ (read_uint-Reads 2 _ (length vs) few)
        (repeat-Reads _ variant_bytes variant_of vs (All-map (variant-Reads size base_type) vs h))
