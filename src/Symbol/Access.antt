-- ===== src/Symbol/Access.antt =====
-- symbol.rs: handles, and the queries for symbols and types.
pub mod Answers
pub mod Handles
use ads_rs.Prelude.{
  ℕ, ◌%◌, ◌^◌, String, List, [], ◌∷◌, if◌then◌else◌, leb, ltb, length, take, drop, replicate, min,
}
use ads_rs.Wire.{Bytes, ByteOrder, write_u32}
use ads_rs.Errors.{Result, ok, err, panic, reply, ensure, assert}
use ads_rs.Index.{
  get_symhandle_byname, get_syminfo_byname, get_typeinfo_byname_ex, release_symhandle,
  rw_symval_byhandle, sym_dt_upload, sym_upload, sym_upload_info2,
}
use ads_rs.NetId.{AmsAddr}
use ads_rs.Symbol.{Symbol, TypeInfo}
use ads_rs.Symbol.Types.{decode_type}
use ads_rs.Symbol.Table.{TypeMap, decode_symbol_info}
use ads_rs.Client.Action.{ignored, Action, Client, pure, lift, ◌>>=◌, ◌>>◌}
use ads_rs.Client.Device

pub record Handle : Type 0 where
  pub addr : AmsAddr
  pub handle : ℕ

module _ ⦃bo : ByteOrder⦄ where
  unfoldable pub new : AmsAddr → Bytes → Action Handle
  new addr symbol = do
    handle_bytes ← Device.write_read_exact addr get_symhandle_byname 0 symbol (replicate 4 0)
    pure (record { addr = addr; handle = bo.read_int handle_bytes })

  unfoldable pub read : Handle → Bytes → Action Bytes
  read h buf = Device.read_exact h.addr rw_symval_byhandle h.handle buf

  unfoldable pub write : Handle → Bytes → Action (Unit {0})
  write h buf = Device.write h.addr rw_symval_byhandle h.handle buf

  -- The end of a handle. An error is ignored.
  unfoldable pub drop_handle : Handle → Action (Unit {0})
  unfolding ignored
  drop_handle h c = ignored (Device.write h.addr release_symhandle 0 (write_u32 h.handle) c)

  unfoldable pub get_size : AmsAddr → Bytes → Action ℕ
  get_size addr symbol = do
    buf ← Device.write_read_exact addr get_syminfo_byname 0 symbol (replicate 12 0)
    pure (bo.read_int (drop 8 buf))

  unfoldable pub get_location : AmsAddr → Bytes → Action (ℕ × ℕ)
  get_location addr symbol = do
    buf ← Device.write_read_exact addr get_syminfo_byname 0 symbol (replicate 12 0)
    pure (bo.read_int (take 4 buf), bo.read_int (take 4 (drop 4 buf)))

  unfoldable pub get_symbol_info : AmsAddr → Action (List Symbol × TypeMap)
  get_symbol_info addr = do
    read_data ← Device.read_exact addr sym_upload_info2 0 (replicate 64 0)
    let symbol_len = bo.read_int (take 4 (drop 4 read_data))
    let types_len = bo.read_int (take 4 (drop 12 read_data))
    type_data ← Device.read_exact addr sym_dt_upload 0 (replicate types_len 0)
    symbol_data ← Device.read_exact addr sym_upload 0 (replicate symbol_len 0)
    lift (decode_symbol_info symbol_data type_data)

  -- `&data[4..body_end]` panics where the announced length is below four.
  type_in_response : Bytes → Result TypeInfo
  type_in_response buf =
      let entry_length = bo.read_int (take 4 buf) in
      let body_end = min entry_length (length buf) in
      if leb 4 body_end then decode_type (drop 4 (take body_end buf)) else panic

  unfoldable pub get_type_info_by_name : AmsAddr → Bytes → Action TypeInfo
  unfolding type_in_response
  get_type_info_by_name addr type_name = do
    (n, read_data) ← Device.write_read addr get_typeinfo_byname_ex 0 type_name (replicate 4096 0)
    lift (assert (leb n 4096))
    let buf = take n read_data
    lift (
        ensure (leb 4 (length buf))
          (reply "get type info by name" "response too short" (length buf)))
    lift (type_in_response buf)
