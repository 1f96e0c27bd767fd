-- ===== src/TaskInfo/Sample.antt =====
-- task_info.rs: the entries of the task array, decoded.
use ads_rs.Prelude.{
  ℕ, zero, suc, ◌+◌, ◌*◌, ◌%◌, ◌^◌, String, Bool, not, Option, none, some, List, [], ◌∷◌, ◌==◌, leb,
  if◌then◌else◌, length, take, drop,
}
use ads_rs.Prelude.Int.{ℤ, signed, ◌+ℤ◌, checked}
use ads_rs.Wire.{Bytes, ByteOrder, read_u8, read_u16, read_u32, read_u64}
use ads_rs.Errors.{Result, ok, err, io, of_kind, reply, unexpected_eof}
use ads_rs.Notif.Attributes.{Duration}
use ads_rs.Text.Lossy.{from_utf8_lossy}
use ads_rs.Symbol.Cursor.{Cursor, pure, lift, value_of, ◌>>=◌}
use ads_rs.Client.Structs.{until_zero}
use ads_rs.TaskInfo.{task_name_size, tick_nanos}

pub record PlcTaskSystemInfo : Type 0 where
  pub index : ℤ
  pub object_id : ℕ
  pub ads_port : ℕ
  pub priority : ℕ
  pub cycle_time : Duration
  pub last_exec_time : Duration
  pub dc_task_time : ℤ
  pub cycle_count : ℕ
  pub first_cycle : Bool
  pub cycle_time_exceeded : Bool
  pub in_call_after_output_update : Bool
  pub rt_violation : Bool
  pub name : Option Bytes

-- The name in an entry: 64 bytes from the offset, up to the first zero.
unfoldable pub task_name : Bytes → Option ℕ → Result (Option Bytes)
task_name entry none = ok none
task_name entry (some offset) =
    if leb (offset + task_name_size) (length entry)
    then ok (some (from_utf8_lossy (until_zero (take task_name_size (drop offset entry)))))
    else err (io "decoding task info" (of_kind unexpected_eof))

module _ ⦃bo : ByteOrder⦄ where
  unfoldable pub entry_of : Bytes → ℤ → Option ℕ → Cursor PlcTaskSystemInfo
  unfolding task_name
  entry_of entry index task_name_offset = do
    let ctx : String = "decoding task info"
    object_id ← read_u32 ctx
    cycle_time ← read_u32 ctx
    priority ← read_u16 ctx
    ads_port ← read_u16 ctx
    cycle_count ← read_u32 ctx
    dc_task_time ← read_u64 ctx
    last_exec_time ← read_u32 ctx
    first_cycle ← read_u8 ctx
    cycle_time_exceeded ← read_u8 ctx
    in_call_after_output_update ← read_u8 ctx
    rt_violation ← read_u8 ctx
    name ← lift (task_name entry task_name_offset)
    pure (record {
      index = index;
      object_id = object_id;
      ads_port = ads_port;
      priority = priority;
      cycle_time = cycle_time * tick_nanos;
      last_exec_time = last_exec_time * tick_nanos;
      dc_task_time = signed 64 dc_task_time;
      cycle_count = cycle_count;
      first_cycle = not (first_cycle == 0);
      cycle_time_exceeded = not (cycle_time_exceeded == 0);
      in_call_after_output_update = not (in_call_after_output_update == 0);
      rt_violation = not (rt_violation == 0);
      name = name;
    })

  unfoldable pub decode_task : Bytes → ℤ → Option ℕ → Result PlcTaskSystemInfo
  unfolding entry_of
  decode_task entry index task_name_offset = value_of (entry_of entry index task_name_offset entry)

-- `bytes.chunks_exact(n)`, for an `n` that is not zero: what is left at the end is dropped.
unfoldable pub chunks : ℕ → ℕ → Bytes → List Bytes
chunks zero n bytes = []
chunks (suc fuel) n bytes =
    let rest = chunks fuel n (drop n bytes) in
    if leb n (length bytes) then take n bytes ∷ rest else []

unfoldable pub or_overflow : ℕ → Option ℤ → Result ℤ
or_overflow slot none = err (reply "decoding task info" "task array index overflow" (slot % 2 ^ 32))
or_overflow slot (some i) = ok i

-- The number of a slot in the array.
unfoldable pub index_of : ℤ → ℕ → Result ℤ
unfolding or_overflow
index_of first_index slot = or_overflow slot (checked (first_index +ℤ signed 32 (slot % 2 ^ 32)))
