-- ===== src/Symbol/Methods/Layout.antt =====
-- symbol.rs: RPC methods and their parameters as they lie in a response.
use ads_rs.Prelude.{
  ℕ, ◌+◌, ◌^◌, ◌<◌, ◌≡◌, Bool, List, [], ◌∷◌, ◌++◌, map, length, All, if◌then◌else◌,
}
use ads_rs.Wire.{Bytes, ByteOrder, concat, write_u16, write_u32}
use ads_rs.Symbol.{
  Attribute, RpcMethod, RpcMethodParameter, from_flags, has_flag, rpc_method_attribute_flag,
  rpc_param_attribute_flag,
}
use ads_rs.Symbol.Cursor.Reads.{entry_bytes}
use ads_rs.Symbol.Text.Strings.{IsText, zero_terminated}
use ads_rs.Symbol.Members.Layout.{IsAttribute, attributes_bytes}

-- An entry of a parameter, with the parts that are passed over.
pub record ParameterLayout : Type 0 where
  pub size : ℕ
  pub align_size : ℕ
  pub ads_data_type : ℕ
  pub flags : ℕ
  pub reserved : ℕ
  pub guid : Bytes
  pub length_is_param_index : ℕ
  pub name : Bytes
  pub typ : Bytes
  pub comment : Bytes
  pub attributes : List Attribute
  pub trailing : Bytes

pub record MethodLayout : Type 0 where
  pub version : ℕ
  pub v_table_index : ℕ
  pub return_size : ℕ
  pub return_align_size : ℕ
  pub reserved : ℕ
  pub guid : Bytes
  pub return_ads_data_type : ℕ
  pub flags : ℕ
  pub name : Bytes
  pub return_type : Bytes
  pub comment : Bytes
  pub parameters : List ParameterLayout
  pub attributes : List Attribute
  pub trailing : Bytes

abbrev pub given : {A : Type 0} → Bool → List A → List A
given present xs = if present then xs else []

abbrev pub parameter_of : ParameterLayout → RpcMethodParameter
parameter_of p = record {
  name = p.name;
  typ = p.typ;
  size = p.size;
  variable_kind = from_flags p.flags;
  comment = p.comment;
  attributes = given (has_flag p.flags rpc_param_attribute_flag) p.attributes;
}

abbrev pub method_of : MethodLayout → RpcMethod
method_of m = record {
  name = m.name;
  return_type = m.return_type;
  return_size = m.return_size;
  comment = m.comment;
  parameters = map parameter_of m.parameters;
  attributes = given (has_flag m.flags rpc_method_attribute_flag) m.attributes;
}

abbrev pub AreAttributes : List Attribute → Type 0
AreAttributes as' = All IsAttribute as' × (length as' < 2 ^ 16)

module _ ⦃bo : ByteOrder⦄ where
  unfoldable pub parameter_bytes : ParameterLayout → Bytes
  parameter_bytes p = concat (
      write_u32 p.size
      ∷ write_u32 p.align_size
      ∷ write_u32 p.ads_data_type
      ∷ write_u32 p.flags
      ∷ write_u32 p.reserved
      ∷ p.guid
      ∷ write_u16 p.length_is_param_index
      ∷ write_u16 (length p.name)
      ∷ write_u16 (length p.typ)
      ∷ write_u16 (length p.comment)
      ∷ zero_terminated p.name
      ∷ zero_terminated p.typ
      ∷ zero_terminated p.comment
      ∷ given (has_flag p.flags rpc_param_attribute_flag) (attributes_bytes p.attributes)
      ∷ [])

  -- The entry, without its length.
  abbrev pub parameter_entry : ParameterLayout → Bytes
  parameter_entry p = parameter_bytes p ++ p.trailing

  pub record IsParameter (p : ParameterLayout) : Type 0 where
    pub size_fits : p.size < 2 ^ 32
    pub align_size_fits : p.align_size < 2 ^ 32
    pub ads_data_type_fits : p.ads_data_type < 2 ^ 32
    pub flags_fits : p.flags < 2 ^ 32
    pub reserved_fits : p.reserved < 2 ^ 32
    pub guid_whole : length p.guid ≡ 16
    pub index_fits : p.length_is_param_index < 2 ^ 16
    pub name_text : IsText p.name
    pub typ_text : IsText p.typ
    pub comment_text : IsText p.comment
    pub attributes_valid : AreAttributes p.attributes
    pub entry_fits : 4 + length (parameter_entry p) < 2 ^ 32

  unfoldable pub method_bytes : MethodLayout → Bytes
  method_bytes m = concat (
      write_u32 m.version
      ∷ write_u32 m.v_table_index
      ∷ write_u32 m.return_size
      ∷ write_u32 m.return_align_size
      ∷ write_u32 m.reserved
      ∷ m.guid
      ∷ write_u32 m.return_ads_data_type
      ∷ write_u32 m.flags
      ∷ write_u16 (length m.name)
      ∷ write_u16 (length m.return_type)
      ∷ write_u16 (length m.comment)
      ∷ write_u16 (length m.parameters)
      ∷ zero_terminated m.name
      ∷ zero_terminated m.return_type
      ∷ zero_terminated m.comment
      ∷ concat (map (λ p. entry_bytes (parameter_entry p)) m.parameters)
      ∷ given (has_flag m.flags rpc_method_attribute_flag) (attributes_bytes m.attributes)
      ∷ [])

  abbrev pub method_entry : MethodLayout → Bytes
  method_entry m = method_bytes m ++ m.trailing

  pub record IsMethod (m : MethodLayout) : Type 0 where
    pub version_fits : m.version < 2 ^ 32
    pub v_table_index_fits : m.v_table_index < 2 ^ 32
    pub return_size_fits : m.return_size < 2 ^ 32
    pub return_align_size_fits : m.return_align_size < 2 ^ 32
    pub reserved_fits : m.reserved < 2 ^ 32
    pub guid_whole : length m.guid ≡ 16
    pub return_ads_data_type_fits : m.return_ads_data_type < 2 ^ 32
    pub flags_fits : m.flags < 2 ^ 32
    pub name_text : IsText m.name
    pub return_type_text : IsText m.return_type
    pub comment_text : IsText m.comment
    pub parameters_few : length m.parameters < 2 ^ 16
    pub parameters_valid : All IsParameter m.parameters
    pub attributes_valid : AreAttributes m.attributes
    pub entry_fits : 4 + length (method_entry m) < 2 ^ 32

  unfoldable pub methods_bytes : List MethodLayout → Bytes
  methods_bytes ms = write_u16 (length ms) ++ concat (map (λ m. entry_bytes (method_entry m)) ms)
