-- ===== src/Symbol/Methods/RoundTrip.antt =====
-- symbol.rs: RPC methods and their parameters are parsed to what they are the layout of.
use ads_rs.Prelude.{
  ◌^◌, ◌<◌, ◌≡◌, Bool, true, false, List, [], map, arith, String, length, All, All-map,
}
use ads_rs.Wire.{Bytes, ByteOrder}
use ads_rs.Errors.{ok}
use ads_rs.Symbol.{Attribute, has_flag, rpc_method_attribute_flag, rpc_param_attribute_flag}
use ads_rs.Symbol.Cursor.{entry}
use ads_rs.Symbol.Cursor.Reads.{
  Reads, pure-Reads, >>=-Reads, repeat-Reads, read_uint-Reads, read_exact-Reads, entry_bytes,
  entry-Reads, value_of-Reads,
}
use ads_rs.Symbol.Text.Strings.{IsText, read_str-Reads}
use ads_rs.Symbol.Members.Layout.{attributes_bytes, attributes-Reads}
use ads_rs.Symbol.Methods.{
  parse_method_infos, parse_rpc_method, parse_rpc_method_parameter, parameter, method,
  attributes_if,
}
use ads_rs.Symbol.Methods.Layout.{
  ParameterLayout, MethodLayout, given, parameter_of, method_of, AreAttributes, parameter_bytes,
  parameter_entry, IsParameter, method_bytes, method_entry, IsMethod, methods_bytes,
}

module _ ⦃bo : ByteOrder⦄ where
  attributes_if-Reads :
      (present : Bool) (as' : List Attribute)
      → AreAttributes as'
      → Reads (attributes_if present) (given present (attributes_bytes as')) (given present as')
  unfolding attributes_if
  attributes_if-Reads true as' h = attributes-Reads as' h.0 h.1
  attributes_if-Reads false as' h = pure-Reads []

  pub text_length : (s : Bytes) → IsText s → length s < 2 ^ 16
  text_length s h = omega (arith, h.1)

  parameter-Reads :
      (p : ParameterLayout) → IsParameter p → Reads parameter (parameter_bytes p) (parameter_of p)
  unfolding parameter parameter_bytes
  parameter-Reads p h = >>=-Reads _ (read_uint-Reads 4 _ p.size h.size_fits) (
      >>=-Reads _ (read_uint-Reads 4 _ p.align_size h.align_size_fits) (
        >>=-Reads _ (read_uint-Reads 4 _ p.ads_data_type h.ads_data_type_fits) (
          >>=-Reads _ (read_uint-Reads 4 _ p.flags h.flags_fits) (
            >>=-Reads _ (read_uint-Reads 4 _ p.reserved h.reserved_fits) (
              >>=-Reads _ (read_exact-Reads 16 _ p.guid h.guid_whole) (
                >>=-Reads _ (read_uint-Reads 2 _ p.length_is_param_index h.index_fits) (
                  >>=-Reads _ (read_uint-Reads 2 _ (length p.name) (text_length p.name h.name_text))
                    (>>=-Reads _ (read_uint-Reads 2 _ (length p.typ) (text_length p.typ h.typ_text))
                      (>>=-Reads _
                        (read_uint-Reads 2 _ (length p.comment)
                          (text_length p.comment h.comment_text))
                        (>>=-Reads _ (read_str-Reads p.name h.name_text) (
                          >>=-Reads _ (read_str-Reads p.typ h.typ_text) (
                            >>=-Reads _ (read_str-Reads p.comment h.comment_text) (
                              >>=-Reads _
                                (attributes_if-Reads (has_flag p.flags rpc_param_attribute_flag)
                                  p.attributes h.attributes_valid)
                                (pure-Reads (parameter_of p)))))))))))))))

  pub parse_parameter_eq :
      (p : ParameterLayout)
      → IsParameter p
      → parse_rpc_method_parameter (parameter_entry p) ≡ ok (parameter_of p)
  unfolding parse_rpc_method_parameter
  parse_parameter_eq p h = value_of-Reads (parameter-Reads p h) p.trailing

  parameter_entry-Reads :
      (context text : String) (p : ParameterLayout)
      → IsParameter p
      → Reads
          (entry context text parse_rpc_method_parameter)
          (entry_bytes (parameter_entry p))
          (parameter_of p)
  parameter_entry-Reads context text p h =
      entry-Reads context text parse_rpc_method_parameter (parameter_entry p) h.entry_fits
        (parse_parameter_eq p h)

  method-Reads : (m : MethodLayout) → IsMethod m → Reads method (method_bytes m) (method_of m)
  unfolding method method_bytes
  method-Reads m h = >>=-Reads _ (read_uint-Reads 4 _ m.version h.version_fits) (
      >>=-Reads _ (read_uint-Reads 4 _ m.v_table_index h.v_table_index_fits) (
        >>=-Reads _ (read_uint-Reads 4 _ m.return_size h.return_size_fits) (
          >>=-Reads _ (read_uint-Reads 4 _ m.return_align_size h.return_align_size_fits) (
            >>=-Reads _ (read_uint-Reads 4 _ m.reserved h.reserved_fits) (
              >>=-Reads _ (read_exact-Reads 16 _ m.guid h.guid_whole) (
                >>=-Reads _ (read_uint-Reads 4 _ m.return_ads_data_type h.return_ads_data_type_fits)
                  (>>=-Reads _ (read_uint-Reads 4 _ m.flags h.flags_fits) (
                    >>=-Reads _
                      (read_uint-Reads 2 _ (length m.name) (text_length m.name h.name_text))
                      (>>=-Reads _
                        (read_uint-Reads 2 _ (length m.return_type)
                          (text_length m.return_type h.return_type_text))
                        (>>=-Reads _
                          (read_uint-Reads 2 _ (length m.comment)
                            (text_length m.comment h.comment_text))
                          (>>=-Reads _ (read_uint-Reads 2 _ (length m.parameters) h.parameters_few)
                            (>>=-Reads _ (read_str-Reads m.name h.name_text) (
                              >>=-Reads _ (read_str-Reads m.return_type h.return_type_text) (
                                >>=-Reads _ (read_str-Reads m.comment h.comment_text) (
                                  >>=-Reads _
                                    (repeat-Reads _ (λ p. entry_bytes (parameter_entry p))
                                      parameter_of m.parameters
                                      (All-map (parameter_entry-Reads _ _) m.parameters
                                        h.parameters_valid))
                                    (>>=-Reads _
                                      (attributes_if-Reads
                                        (has_flag m.flags rpc_method_attribute_flag) m.attributes
                                        h.attributes_valid)
                                      (pure-Reads (method_of m))))))))))))))))))

  -- The entry of a method, whatever follows its parts, is parsed to the method.
  pub parse_rpc_method_eq :
      (m : MethodLayout) → IsMethod m → parse_rpc_method (method_entry m) ≡ ok (method_of m)
  unfolding parse_rpc_method
  parse_rpc_method_eq m h = value_of-Reads (method-Reads m h) m.trailing

  method_entry-Reads :
      (context text : String) (m : MethodLayout)
      → IsMethod m
      → Reads (entry context text parse_rpc_method) (entry_bytes (method_entry m)) (method_of m)
  method_entry-Reads context text m h =
      entry-Reads context text parse_rpc_method (method_entry m) h.entry_fits
        (parse_rpc_method_eq m h)

  pub methods-Reads :
      (ms : List MethodLayout)
      → All IsMethod ms
      → length ms < 2 ^ 16
      → Reads parse_method_infos (methods_bytes ms) (map method_of ms)
  unfolding parse_method_infos methods_bytes
  methods-Reads ms h few = >>=-Reads _ (read_uint-Reads 2 _ (length ms) few) (
      repeat-Reads _ (λ m. entry_bytes (method_entry m)) method_of ms
        (All-map (method_entry-Reads _ _) ms h))
