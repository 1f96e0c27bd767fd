-- ===== src/Client/Device.antt =====
-- client.rs: the operations of `Device` that exchange one request. The address of the device is an
-- argument, and the client is the state of the actions.
pub mod Read
pub mod Handles
pub mod Grants
pub mod Multi
pub mod Answers
pub mod Complete
pub mod Parted
pub mod Short
pub mod Calls
pub mod Sequence
pub mod Sent
use ads_rs.Prelude.{
  ℕ, ◌+◌, ◌%◌, ◌^◌, ◌≡◌, String, Bool, true, false, Option, none, some, List, [], ◌∷◌, ltb, ◌==◌,
  if◌then◌else◌, length, get_elem?, take, drop, replicate,
}
use ads_rs.Wire.{Bytes, ByteOrder, write_u16, write_u32}
use ads_rs.Errors.{Result, ok, err, reply, overflow, ensure}
use ads_rs.NetId.{AmsAddr, Parsed, parsed, invalid}
use ads_rs.Client.Command.{dev_info, read_state}
use ads_rs.Client.Command
use ads_rs.Client.State.{AdsState, number, try_from}
use ads_rs.Client.Structs.{
  IndexLength, IndexLengthRw, WriteControl, AddNotif, DeviceInfo, index_length_bytes,
  index_length_rw_bytes, write_control_bytes, add_notif_bytes, device_info_of,
}
use ads_rs.Client.Action.{Client, Action, pure, lift, insert_key, remove_key, ◌>>=◌, ◌>>◌}
use ads_rs.Client.Exchange.{Output, communicate}
use ads_rs.Notif.Attributes.{Attributes, trans_mode_code, as_millis}

abbrev or_empty : Option Bytes → Bytes
or_empty none = []
or_empty (some b) = b

-- The contents of an output buffer after a request.
abbrev pub buffer : ℕ → List Bytes → Bytes
buffer i bufs = or_empty (get_elem? bufs i)

-- `n.try_into()?` into a `u32`.
abbrev pub fits_u32 : ℕ → Action (Unit {0})
fits_u32 n = lift (ensure (ltb n (2 ^ 32)) overflow)

-- A change of the set of notification handles.
abbrev pub change_handles : (List (AmsAddr × ℕ) → List (AmsAddr × ℕ)) → Action (Unit {0})
change_handles f c = (ok tt, record c { notif_handles = f c.notif_handles })

abbrev zeroes : ℕ → Bytes
zeroes n = replicate n 0

module _ ⦃bo : ByteOrder⦄ where
  unfoldable pub get_info : AmsAddr → Action DeviceInfo
  get_info addr = do
    (_n, out) ← communicate dev_info addr [] (zeroes 20 ∷ [])
    pure (device_info_of (buffer 0 out))

  -- The length that the device announces, and the data buffer. A failing request leaves the buffer.
  unfoldable pub read : AmsAddr → ℕ → ℕ → Bytes → Action (ℕ × Bytes)
  read addr index_group index_offset buf = do
    fits_u32 (length buf)
    let header : IndexLength = record {
      index_group = index_group;
      index_offset = index_offset;
      length_ = length buf;
    }
    (_n, out) ←
        communicate Command.read addr (index_length_bytes header ∷ []) (write_u32 0 ∷ buf ∷ [])
    pure (bo.read_int (buffer 0 out), buffer 1 out)

  unfoldable pub read_exact : AmsAddr → ℕ → ℕ → Bytes → Action Bytes
  read_exact addr index_group index_offset buf = do
    (len, out) ← read addr index_group index_offset buf
    if len == length out
        then pure out
        else lift (err (reply "read data" "got less data than expected" (len % 2 ^ 32)))

  unfoldable pub write : AmsAddr → ℕ → ℕ → Bytes → Action (Unit {0})
  write addr index_group index_offset buf = do
    fits_u32 (length buf)
    let header : IndexLength = record {
      index_group = index_group;
      index_offset = index_offset;
      length_ = length buf;
    }
    (_n, _out) ← communicate Command.write addr (index_length_bytes header ∷ buf ∷ []) []
    pure tt

  unfoldable pub write_read : AmsAddr → ℕ → ℕ → Bytes → Bytes → Action (ℕ × Bytes)
  write_read addr index_group index_offset write_data read_data = do
    fits_u32 (length read_data)
    fits_u32 (length write_data)
    let header : IndexLengthRw = record {
      index_group = index_group;
      index_offset = index_offset;
      read_length = length read_data;
      write_length = length write_data;
    }
    (_n, out) ←
        communicate Command.read_write addr (index_length_rw_bytes header ∷ write_data ∷ [])
          (write_u32 0 ∷ read_data ∷ [])
    pure (bo.read_int (buffer 0 out), buffer 1 out)

  unfoldable pub write_read_exact : AmsAddr → ℕ → ℕ → Bytes → Bytes → Action Bytes
  write_read_exact addr index_group index_offset write_data read_data = do
    (len, out) ← write_read addr index_group index_offset write_data read_data
    if len == length out
        then pure out
        else lift (err (reply "write/read data" "got less data than expected" (len % 2 ^ 32)))

  abbrev or_reply : ℕ → Parsed AdsState → Result AdsState
  or_reply n (parsed s) = ok s
  or_reply n (invalid e) = err (reply "read state" e n)

  unfoldable pub get_state : AmsAddr → Action (AdsState × ℕ)
  get_state addr = do
    (_n, out) ← communicate read_state addr [] (zeroes 4 ∷ [])
    let ads_state = bo.read_int (take 2 (buffer 0 out))
    s ← lift (or_reply ads_state (try_from ads_state))
    pure (s, bo.read_int (take 2 (drop 2 (buffer 0 out))))

  unfoldable pub write_control : AmsAddr → AdsState → ℕ → Action (Unit {0})
  write_control addr ads_state dev_state = do
    let buf : WriteControl = record {
      ads_state = number ads_state;
      dev_state = dev_state;
      data_length = 0;
    }
    (_n, _out) ← communicate Command.write_control addr (write_control_bytes buf ∷ []) []
    pure tt

  unfoldable pub add_notification : AmsAddr → ℕ → ℕ → Attributes → Action ℕ
  add_notification addr index_group index_offset attributes = do
    fits_u32 attributes.length_
    fits_u32 (as_millis attributes.max_delay)
    fits_u32 (as_millis attributes.cycle_time)
    let buf : AddNotif = record {
      index_group = index_group;
      index_offset = index_offset;
      length_ = attributes.length_;
      trans_mode = trans_mode_code attributes.trans_mode;
      max_delay = as_millis attributes.max_delay;
      cycle_time = as_millis attributes.cycle_time;
    }
    (_n, out) ←
        communicate Command.add_notification addr (add_notif_bytes buf ∷ []) (write_u32 0 ∷ [])
    let handle = bo.read_int (buffer 0 out)
    change_handles (insert_key (addr, handle))
    pure handle

  unfoldable pub delete_notification : AmsAddr → ℕ → Action (Unit {0})
  delete_notification addr handle = do
    (_n, _out) ← communicate Command.delete_notification addr (write_u32 handle ∷ []) []
    change_handles (remove_key (addr, handle))
