-- ===== src/Symbol/Methods.antt =====
-- symbol.rs: the RPC methods of a function block.
pub mod Layout
pub mod RoundTrip
use ads_rs.Prelude.{
  ℕ, ◌%◌, ◌≡◌, refl, Bool, true, false, String, List, [], ◌∷◌, ◌++◌, ◌==◌, if◌then◌else◌,
}
use ads_rs.Wire.{Bytes, ByteOrder, read_exact, read_u16, read_u32}
use ads_rs.Errors.{Result, ok, err, panic}
use ads_rs.Symbol.{
  Attribute, RpcMethod, RpcMethodParameter, from_flags, has_flag, rpc_method_attribute_flag,
  rpc_param_attribute_flag,
}
use ads_rs.Symbol.Cursor.{Cursor, pure, entry, repeat, value_of, ◌>>=◌}
use ads_rs.Symbol.Text.{read_str}
use ads_rs.Symbol.Members.{parse_attributes}

module _ ⦃bo : ByteOrder⦄ where
  attributes_if : Bool → Cursor (List Attribute)
  unfolding parse_attributes
  attributes_if present = if present then parse_attributes else pure []

  parameter : Cursor RpcMethodParameter
  unfolding read_str from_flags attributes_if
  parameter = do
    let ctx : String = "parsing RPC method parameter"
    size ← read_u32 ctx
    _align_size ← read_u32 ctx
    _ads_data_type ← read_u32 ctx
    flags ← read_u32 ctx
    _reserved ← read_u32 ctx
    _guid_bytes ← read_exact 16 ctx
    _length_is_param_index ← read_u16 ctx
    name_len ← read_u16 ctx
    type_len ← read_u16 ctx
    comment_len ← read_u16 ctx
    name ← read_str name_len
    typ ← read_str type_len
    comment ← read_str comment_len
    attributes ← attributes_if (has_flag flags rpc_param_attribute_flag)
    pure (record {
      name = name;
      typ = typ;
      size = size;
      variable_kind = from_flags flags;
      comment = comment;
      attributes = attributes;
    })

  unfoldable pub parse_rpc_method_parameter : Bytes → Result RpcMethodParameter
  unfolding parameter
  parse_rpc_method_parameter ptr = value_of (parameter ptr)

  method : Cursor RpcMethod
  unfolding read_str attributes_if parse_rpc_method_parameter
  method = do
    let ctx : String = "parsing RPC method"
    _version ← read_u32 ctx
    _v_table_index ← read_u32 ctx
    return_size ← read_u32 ctx
    _return_align_size ← read_u32 ctx
    _reserved ← read_u32 ctx
    _guid_bytes ← read_exact 16 ctx
    _return_ads_data_type ← read_u32 ctx
    flags ← read_u32 ctx
    name_len ← read_u16 ctx
    return_type_len ← read_u16 ctx
    comment_len ← read_u16 ctx
    param_count ← read_u16 ctx
    name ← read_str name_len
    return_type ← read_str return_type_len
    comment ← read_str comment_len
    parameters ←
        repeat param_count (entry ctx "invalid parameter entry length" parse_rpc_method_parameter)
    attributes ← attributes_if (has_flag flags rpc_method_attribute_flag)
    pure (record {
      name = name;
      return_type = return_type;
      return_size = return_size;
      comment = comment;
      parameters = parameters;
      attributes = attributes;
    })

  unfoldable pub parse_rpc_method : Bytes → Result RpcMethod
  unfolding method
  parse_rpc_method ptr = value_of (method ptr)

  unfoldable pub parse_method_infos : Cursor (List RpcMethod)
  unfolding parse_rpc_method
  parse_method_infos = do
    count ← read_u16 "parsing method infos"
    repeat count (entry "parsing method infos" "invalid method entry length" parse_rpc_method)
