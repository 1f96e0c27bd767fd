-- ===== src/Symbol.antt =====
-- symbol.rs: symbols, types and their parts, as they are decoded. A text is its bytes.
mod Tests
pub mod Cursor
pub mod Text
pub mod Members
pub mod Methods
pub mod Types
pub mod Table
pub mod Access
use ads_rs.Prelude.{ℕ, Bool, Option, List, ◌/◌, ◌%◌, ◌==◌, if◌then◌else◌}
use ads_rs.Prelude.Int.{ℤ}
use ads_rs.Wire.{Bytes}

-- `Symbol`
pub record Symbol : Type 0 where
  pub name : Bytes
  pub ix_group : ℕ
  pub ix_offset : ℕ
  pub typ : Bytes
  pub size : ℕ
  pub base_type : ℕ
  pub flags : ℕ

pub record Attribute : Type 0 where
  pub name : Bytes
  pub value : Bytes

pub record EnumInfo : Type 0 where
  pub name : Bytes
  pub value : ℤ

-- `RpcMethodParameterVariableKind`
pub data VariableKind : Type 0 where
  input output in_out unknown : VariableKind

pub record RpcMethodParameter : Type 0 where
  pub name : Bytes
  pub typ : Bytes
  pub size : ℕ
  pub variable_kind : VariableKind
  pub comment : Bytes
  pub attributes : List Attribute

pub record RpcMethod : Type 0 where
  pub name : Bytes
  pub return_type : Bytes
  pub return_size : ℕ
  pub comment : Bytes
  pub parameters : List RpcMethodParameter
  pub attributes : List Attribute

pub record Field : Type 0 where
  pub name : Bytes
  pub typ : Bytes
  pub offset : Option ℕ
  pub size : ℕ
  pub array : List (ℤ × ℤ)
  pub base_type : ℕ
  pub flags : ℕ
  pub comment : Bytes
  pub attributes : Option (List Attribute)

-- `Type`
pub record TypeInfo : Type 0 where
  pub name : Bytes
  pub type_name : Bytes
  pub comment : Bytes
  pub size : ℕ
  pub array : List (ℤ × ℤ)
  pub fields : List Field
  pub base_type : ℕ
  pub flags : ℕ
  pub guid : Option Bytes
  pub methods : Option (List RpcMethod)
  pub attributes : Option (List Attribute)
  pub enum_info : Option (List EnumInfo)

abbrev pub type_flag_guid : ℕ
type_flag_guid = 0x80

abbrev pub type_flag_copy_mask : ℕ
type_flag_copy_mask = 0x200

abbrev pub type_flag_method_infos : ℕ
type_flag_method_infos = 0x800

abbrev pub type_flag_attributes : ℕ
type_flag_attributes = 0x1000

abbrev pub type_flag_enum_infos : ℕ
type_flag_enum_infos = 0x2000

abbrev pub rpc_method_attribute_flag : ℕ
rpc_method_attribute_flag = 0x08

abbrev pub rpc_param_attribute_flag : ℕ
rpc_param_attribute_flag = 0x40

abbrev pub max_str_len : ℕ
max_str_len = 8196

-- `flags & mask != 0`, for a mask of one bit.
abbrev pub has_flag : ℕ → ℕ → Bool
has_flag flags mask = flags / mask % 2 == 1

-- `from_flags`, which looks at the two lowest bits.
unfoldable pub from_flags : ℕ → VariableKind
from_flags flags =
    let kind = flags % 4 in
    if kind == 1
    then VariableKind.input
    else if kind == 2
    then VariableKind.output
    else if kind == 3
    then VariableKind.in_out
    else VariableKind.unknown
