-- ===== src/Symbol/Types/RoundTrip.antt =====
-- symbol.rs: the entries of symbols and types are decoded to what they are the layout of.
use ads_rs.Prelude.{
  ap, ℕ, Option, none, some, ◌==◌, ◌^◌, ◌<◌, ◌≡◌, refl, String, Bool, true, false, [], map, arith,
  length, All-map,
}
use mathlib.Core.Path.{subst}
use ads_rs.Symbol.Cursor.{pure}
use ads_rs.Wire.{Bytes, ByteOrder}
use ads_rs.Errors.{ok, reply}
use ads_rs.Symbol.{
  has_flag, type_flag_enum_infos, type_flag_attributes, type_flag_copy_mask, type_flag_guid,
  type_flag_method_infos,
}
use ads_rs.Symbol.Cursor.{Cursor, entry}
use ads_rs.Symbol.Cursor.Reads.{
  Reads, pure-Reads, append-nil-Reads, last-Reads, >>=-Reads, ensure-Reads, repeat-Reads,
  read_uint-Reads, read_exact-Reads, entry_bytes, entry-Reads, value_of-Reads,
}
use ads_rs.Symbol.Text.{format_guid, parse_guid, skip_copy_mask}
use ads_rs.Symbol.Text.Strings.{read_str-Reads}
use ads_rs.Symbol.Members.Layout.{attributes-Reads, variants-Reads}
use ads_rs.Symbol.Methods.RoundTrip.{methods-Reads, text_length}
use ads_rs.Symbol.Methods.Layout.{given}
use ads_rs.Symbol.Types.{
  Prefix, field_offset, when, dimension, decode_prefix, decode_field, decode_symbol, decode_type,
  field_of, parse_field_attributes, parse_type_flags, symbol_of, type_of,
}
use ads_rs.Symbol.Members.Values.{bits_of, bits_of_lt}
use ads_rs.Symbol.Types.Dimensions.{IsDimension, array_bounds-upper}
use ads_rs.Prelude.Int.{ℤ}
use ads_rs.Symbol.Types.Valid.{IsOffset, AreParts, IsField, IsPrefix, IsSymbol, IsType}
use ads_rs.Symbol.Types.Layout.{
  FieldLayout, PartsLayout, PrefixLayout, SymbolLayout, TypeLayout, bounds_of, offset_sent,
  dimension_bytes, field_bytes, field_entry, field_of_layout, optional, parts_bytes, prefix_bytes,
  symbol_bytes, symbol_entry, symbol_of_layout, type_bytes, type_entry, type_of_layout,
}

when-Reads :
    {A : Type 0} {m : Cursor A} {bytes : Bytes} {a : A} (present : Bool)
    → Reads m bytes a
    → Reads (when present m) (given present bytes) (optional present a)
unfolding when
when-Reads true h = last-Reads _ h refl
when-Reads false h = pure-Reads _

skip_copy_mask-Reads :
    (size : ℕ) (mask : Bytes) → length mask ≡ size → Reads (skip_copy_mask size) mask tt
unfolding skip_copy_mask
skip_copy_mask-Reads size mask h = last-Reads _ (read_exact-Reads size _ mask h) refl

abbrev prefix_of : PrefixLayout → ℕ → Prefix
prefix_of p sub_items = record {
  name = p.name;
  type_name = p.type_name;
  comment = p.comment;
  size = p.size;
  offset = offset_sent p.offset;
  base_type = p.base_type;
  flags = p.flags;
  array = map bounds_of p.dimensions;
  sub_items = sub_items;
}

module _ ⦃bo : ByteOrder⦄ where
  parse_guid-Reads : (guid : Bytes) → length guid ≡ 16 → Reads parse_guid guid (format_guid guid)
  unfolding parse_guid
  parse_guid-Reads guid h = last-Reads _ (read_exact-Reads 16 _ guid h) refl

  dimension-Reads : (d : ℤ × ℕ) → IsDimension d → Reads dimension (dimension_bytes d) (bounds_of d)
  unfolding dimension dimension_bytes
  dimension-Reads d h =
      >>=-Reads _ (read_uint-Reads 4 _ (bits_of 32 d.0) (bits_of_lt 32 (omega arith) d.0 h.0)) (
        last-Reads _ (append-nil-Reads (read_uint-Reads 4 _ d.1 (omega (arith, h.2))))
          (ap pure (array_bounds-upper d.0 d.1 h)))

  offset_sent-lt : (o : Option ℕ) → IsOffset o → offset_sent o < 2 ^ 32
  offset_sent-lt none h = omega arith
  offset_sent-lt (some offset) h = omega (arith, h)

  field_offset-sent : (o : Option ℕ) → IsOffset o → field_offset (offset_sent o) ≡ o
  unfolding field_offset
  field_offset-sent none h = refl
  field_offset-sent (some offset) h =
      let e : (offset == 0xFFFFFFFF) ≡ false = ground (arith, h) in rw e refl

  prefix-Reads :
      (p : PrefixLayout) (sub_items : ℕ)
      → IsPrefix p
      → sub_items < 2 ^ 16
      → Reads decode_prefix (prefix_bytes p sub_items) (prefix_of p sub_items)
  unfolding decode_prefix prefix_bytes
  prefix-Reads p sub_items h few = >>=-Reads _ (read_uint-Reads 4 _ 1 (omega arith)) (
      ensure-Reads true (reply "decoding type info" "unknown type info version" 1) refl (
        >>=-Reads _ (read_exact-Reads 8 _ p.header h.header_whole) (
          >>=-Reads _ (read_uint-Reads 4 _ p.size h.size_fits) (
            >>=-Reads _
              (read_uint-Reads 4 _ (offset_sent p.offset) (offset_sent-lt p.offset h.offset_fits))
              (>>=-Reads _ (read_uint-Reads 4 _ p.base_type h.base_type_fits) (
                >>=-Reads _ (read_uint-Reads 4 _ p.flags h.flags_fits) (
                  >>=-Reads _ (read_uint-Reads 2 _ (length p.name) (text_length p.name h.name_text))
                    (>>=-Reads _
                      (read_uint-Reads 2 _ (length p.type_name)
                        (text_length p.type_name h.type_name_text))
                      (>>=-Reads _
                        (read_uint-Reads 2 _ (length p.comment)
                          (text_length p.comment h.comment_text))
                        (>>=-Reads _ (read_uint-Reads 2 _ (length p.dimensions) h.dimensions_few) (
                          >>=-Reads _ (read_uint-Reads 2 _ sub_items few) (
                            >>=-Reads _ (read_str-Reads p.name h.name_text) (
                              >>=-Reads _ (read_str-Reads p.type_name h.type_name_text) (
                                >>=-Reads _ (read_str-Reads p.comment h.comment_text) (
                                  >>=-Reads _
                                    (repeat-Reads dimension dimension_bytes bounds_of p.dimensions
                                      (All-map dimension-Reads p.dimensions h.dimensions_valid))
                                    (pure-Reads (prefix_of p sub_items)))))))))))))))))

  field_attributes-Reads :
      (flags size : ℕ) (p : PartsLayout)
      → AreParts size p
      → Reads
          (parse_field_attributes flags size)
          (parts_bytes flags p [])
          (optional (has_flag flags type_flag_attributes) p.attributes)
  unfolding parse_field_attributes parts_bytes
  field_attributes-Reads flags size p h =
      >>=-Reads _
        (when-Reads (has_flag flags type_flag_guid) (parse_guid-Reads p.guid h.guid_whole))
        (>>=-Reads _
          (when-Reads (has_flag flags type_flag_copy_mask)
            (skip_copy_mask-Reads size p.mask h.mask_whole))
          (>>=-Reads _
            (when-Reads (has_flag flags type_flag_method_infos)
              (methods-Reads p.methods h.methods_valid h.methods_few))
            (append-nil-Reads (
              when-Reads (has_flag flags type_flag_attributes)
                (attributes-Reads p.attributes h.attributes_valid.0 h.attributes_valid.1)))))

  field-Reads : (f : FieldLayout) → IsField f → Reads field_of (field_bytes f) (field_of_layout f)
  unfolding field_of field_bytes
  field-Reads f h =
      subst (λ o. Reads field_of (field_bytes f) (record (field_of_layout f) { offset = o }))
        (field_offset-sent f.start.offset h.start_valid.offset_fits)
        (>>=-Reads _ (prefix-Reads f.start f.sub_items h.start_valid h.sub_items_few) (
          last-Reads _ (field_attributes-Reads f.start.flags f.start.size f.parts h.parts_valid)
            refl))

  -- An entry of a field is decoded to the field, whatever follows its parts.
  pub decode_field_eq :
      (f : FieldLayout) → IsField f → decode_field (field_entry f) ≡ ok (field_of_layout f)
  unfolding decode_field
  decode_field_eq f h = value_of-Reads (field-Reads f h) f.trailing

  field_entry-Reads :
      (context text : String) (f : FieldLayout)
      → IsField f
      → Reads (entry context text decode_field) (entry_bytes (field_entry f)) (field_of_layout f)
  field_entry-Reads context text f h =
      entry-Reads context text decode_field (field_entry f) h.entry_fits (decode_field_eq f h)

  type-Reads : (t : TypeLayout) → IsType t → Reads type_of (type_bytes t) (type_of_layout t)
  unfolding type_of type_bytes parse_type_flags parts_bytes
  type-Reads t h =
      let flags = t.start.flags in
      let p = t.parts in
      let good = h.parts_valid in
      >>=-Reads _ (prefix-Reads t.start (length t.fields) h.start_valid h.fields_few) (
        >>=-Reads _
          (repeat-Reads _ (λ f. entry_bytes (field_entry f)) field_of_layout t.fields
            (All-map (field_entry-Reads _ _) t.fields h.fields_valid))
          (append-nil-Reads (
            >>=-Reads _
              (when-Reads (has_flag flags type_flag_guid) (parse_guid-Reads p.guid good.guid_whole))
              (>>=-Reads _
                (when-Reads (has_flag flags type_flag_copy_mask)
                  (skip_copy_mask-Reads t.start.size p.mask good.mask_whole))
                (>>=-Reads _
                  (when-Reads (has_flag flags type_flag_method_infos)
                    (methods-Reads p.methods good.methods_valid good.methods_few))
                  (>>=-Reads _
                    (when-Reads (has_flag flags type_flag_attributes) (
                      attributes-Reads p.attributes good.attributes_valid.0
                        good.attributes_valid.1))
                    (>>=-Reads _
                      (when-Reads (has_flag flags type_flag_enum_infos) (
                        variants-Reads t.start.size t.start.base_type t.variants h.variants_valid
                          h.variants_few))
                      (pure-Reads (type_of_layout t)))))))))

  -- If an entry is the layout of a type, whatever follows its parts, then it is decoded to the type
  -- with its fields, the bounds of its dimensions, and exactly those of the GUID, the methods, the
  -- attributes and the variants that its flags announce.
  pub decode_type-layout :
      (t : TypeLayout) → IsType t → decode_type (type_entry t) ≡ ok (type_of_layout t)
  unfolding decode_type
  decode_type-layout t h = value_of-Reads (type-Reads t h) t.trailing

  symbol-Reads :
      (s : SymbolLayout) → IsSymbol s → Reads symbol_of (symbol_bytes s) (symbol_of_layout s)
  unfolding symbol_of symbol_bytes
  symbol-Reads s h = >>=-Reads _ (read_uint-Reads 4 _ s.ix_group h.ix_group_fits) (
      >>=-Reads _ (read_uint-Reads 4 _ s.ix_offset h.ix_offset_fits) (
        >>=-Reads _ (read_uint-Reads 4 _ s.size h.size_fits) (
          >>=-Reads _ (read_uint-Reads 4 _ s.base_type h.base_type_fits) (
            >>=-Reads _ (read_uint-Reads 2 _ s.flags h.flags_fits) (
              >>=-Reads _ (read_uint-Reads 2 _ s.legacy_array_dim h.legacy_array_dim_fits) (
                >>=-Reads _ (read_uint-Reads 2 _ (length s.name) (text_length s.name h.name_text)) (
                  >>=-Reads _ (read_uint-Reads 2 _ (length s.typ) (text_length s.typ h.typ_text)) (
                    >>=-Reads _ (read_uint-Reads 2 _ s.len_comment h.len_comment_fits) (
                      >>=-Reads _ (read_str-Reads s.name h.name_text) (
                        >>=-Reads _ (read_str-Reads s.typ h.typ_text)
                          (pure-Reads (symbol_of_layout s))))))))))))

  -- An entry of a symbol is decoded to the symbol, whatever follows its parts.
  pub decode_symbol-layout :
      (s : SymbolLayout) → IsSymbol s → decode_symbol (symbol_entry s) ≡ ok (symbol_of_layout s)
  unfolding decode_symbol
  decode_symbol-layout s h = value_of-Reads (symbol-Reads s h) s.trailing
