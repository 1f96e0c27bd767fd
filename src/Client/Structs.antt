-- ===== src/Client/Structs.antt =====
-- client.rs: the structures of requests and responses other than the header, with their bytes.
use ads_rs.Prelude.{ℕ, [], ◌∷◌, take, drop, replicate, if◌then◌else◌, ◌==◌}
use ads_rs.Wire.{Bytes, ByteOrder, concat, write_u16, write_u32}

pub record IndexLength : Type 0 where
  pub index_group : ℕ
  pub index_offset : ℕ
  pub length_ : ℕ

pub record IndexLengthRw : Type 0 where
  pub index_group : ℕ
  pub index_offset : ℕ
  pub read_length : ℕ
  pub write_length : ℕ

pub record ResultLength : Type 0 where
  pub result : ℕ
  pub length_ : ℕ

pub record WriteControl : Type 0 where
  pub ads_state : ℕ
  pub dev_state : ℕ
  pub data_length : ℕ

pub record AddNotif : Type 0 where
  pub index_group : ℕ
  pub index_offset : ℕ
  pub length_ : ℕ
  pub trans_mode : ℕ
  pub max_delay : ℕ
  pub cycle_time : ℕ

-- `DeviceInfo`; the name is the bytes of `DeviceInfoRaw` before the first zero.
pub record DeviceInfo : Type 0 where
  pub major : ℕ
  pub minor : ℕ
  pub version : ℕ
  pub name : Bytes

-- `iter().take_while(|&&ch| ch > 0)`
unfoldable pub until_zero : Bytes → Bytes
until_zero [] = []
until_zero (b ∷ bs) = let rest = until_zero bs in if b == 0 then [] else b ∷ rest

module _ ⦃bo : ByteOrder⦄ where
  unfoldable pub index_length_bytes : IndexLength → Bytes
  index_length_bytes s =
      concat (write_u32 s.index_group ∷ write_u32 s.index_offset ∷ write_u32 s.length_ ∷ [])

  unfoldable pub index_length_rw_bytes : IndexLengthRw → Bytes
  index_length_rw_bytes s = concat (
      write_u32 s.index_group
      ∷ write_u32 s.index_offset
      ∷ write_u32 s.read_length
      ∷ write_u32 s.write_length
      ∷ [])

  unfoldable pub result_length_bytes : ResultLength → Bytes
  result_length_bytes s = concat (write_u32 s.result ∷ write_u32 s.length_ ∷ [])

  -- The structure that lies in a buffer of eight bytes.
  unfoldable pub result_length_of : Bytes → ResultLength
  result_length_of b = record {
    result = bo.read_int (take 4 b);
    length_ = bo.read_int (take 4 (drop 4 b));
  }

  unfoldable pub write_control_bytes : WriteControl → Bytes
  write_control_bytes s =
      concat (write_u16 s.ads_state ∷ write_u16 s.dev_state ∷ write_u32 s.data_length ∷ [])

  unfoldable pub add_notif_bytes : AddNotif → Bytes
  add_notif_bytes s = concat (
      write_u32 s.index_group
      ∷ write_u32 s.index_offset
      ∷ write_u32 s.length_
      ∷ write_u32 s.trans_mode
      ∷ write_u32 s.max_delay
      ∷ write_u32 s.cycle_time
      ∷ replicate 16 0
      ∷ [])

  -- What `get_info` makes of the 20 bytes of `DeviceInfoRaw`.
  unfoldable pub device_info_of : Bytes → DeviceInfo
  device_info_of b = record {
    major = bo.read_int (take 1 b);
    minor = bo.read_int (take 1 (drop 1 b));
    version = bo.read_int (take 2 (drop 2 b));
    name = until_zero (drop 4 b);
  }
