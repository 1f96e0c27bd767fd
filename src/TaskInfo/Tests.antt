-- ===== src/TaskInfo/Tests.antt =====
-- A concrete entry type, its reader, and samples.
use ads_rs.Prelude.{ℕ, suc, ◌≤◌, ◌≡◌, ◌↔◌, refl, none, some, [], ◌∷◌, ◌++◌, arith, map, replicate}
use ads_rs.Prelude.Int.{pos, negsuc, is_i32, checked, sub_ℕ, ◌+ℤ◌, ◌-ℤ◌}
use ads_rs.Wire.{Bytes}
use ads_rs.Errors.{ok}
use ads_rs.NetId.{bytes_eq}
use ads_rs.NetId.Tests.{plc_addr}
use ads_rs.Client.State.{codes}
use ads_rs.Client.Command.{code}
use ads_rs.Client.Command
use ads_rs.Client.Action.{Client, received}
use ads_rs.Client.Exchange.Response.{IsAnswer}
use ads_rs.Client.Tests.{byte_order, client_with, header_of}
use ads_rs.Symbol.{Field, TypeInfo}
use ads_rs.Symbol.Access.Answers.{response}
use ads_rs.TaskInfo.{
  Documented, check_fields, count_of, find, is_documented, is_task_name, name_offset, one_more,
  or_invalid, TaskInfoLayout, TaskInfoLocation, TaskInfoReader, max_task_info_size, from_entry_type,
  new, required,
}
use ads_rs.TaskInfo.Layouts.{IsAccepted, from_entry_type_iff}
use ads_rs.TaskInfo.Slots.{IsReader, decode_tasks-at, tasks_at}
use ads_rs.TaskInfo.Slots.Bounds.{index_of-slot}
use ads_rs.TaskInfo.Decode.{decode_tasks}
use ads_rs.TaskInfo.Read.{read}
use ads_rs.TaskInfo.Answers.{decode_tasks-new, tasks_at-read}

abbrev field_of : Documented → Field
field_of (name, offset, size, base_type) = record {
  name = name;
  typ = name;
  offset = some offset;
  size = size;
  array = [];
  base_type = base_type;
  flags = 0;
  comment = [];
  attributes = none;
}

abbrev entry_type : TypeInfo
entry_type = record {
  name = codes "PlcTaskSystemInfo";
  type_name = [];
  comment = [];
  size = 96;
  array = [];
  fields = map field_of required ++ (field_of (codes "TaskName", 32, 64, 30) ∷ []);
  base_type = 65;
  flags = 0;
  guid = none;
  methods = none;
  attributes = none;
  enum_info = none;
}

abbrev layout : TaskInfoLayout
layout = record { entry_size = 96; task_name_offset = some 32 }

accepted : from_entry_type entry_type ≡ ok layout
unfolding from_entry_type required check_fields find bytes_eq is_documented name_offset is_task_name
accepted = refl

from_entry_type_iff_example :
    (from_entry_type entry_type ≡ ok layout) ↔ IsAccepted entry_type layout
from_entry_type_iff_example = from_entry_type_iff entry_type layout

abbrev location : TaskInfoLocation
location = record { index_group = 0x4020; index_offset = 100; size = 192 }

-- Two tasks, of the indices -1 and 0.
abbrev reader : TaskInfoReader
reader = record {
  target = plc_addr;
  symbol_generation = 3;
  task_info = location;
  app_info = none;
  layout = layout;
  first_index = negsuc 0;
}

made : new plc_addr 3 location (negsuc 0, pos 0) layout ≡ ok reader
unfolding new ◌-ℤ◌ ◌+ℤ◌ sub_ℕ is_i32 count_of one_more checked or_invalid
made = refl

decode_tasks-new_example :
    (n : ℕ) × (negsuc 0 +ℤ pos n ≡ pos 0) × (192 ≤ max_task_info_size) × IsReader reader (suc n)
unfolding is_i32 ◌+ℤ◌
decode_tasks-new_example =
    decode_tasks-new entry_type layout plc_addr 3 location (negsuc 0) (pos 0) reader accepted refl
      refl made

reader-IsReader : IsReader reader 2
unfolding is_i32 ◌+ℤ◌ sub_ℕ
reader-IsReader = record {
  entry_long = omega arith;
  name_fits = omega arith;
  size = omega arith;
  indexed = λ slot le.
      index_of-slot (negsuc 0) (pos 0) 1 slot refl refl refl (omega arith) (omega (arith, le));
}

abbrev sample : Bytes
sample = replicate 192 7

decode_tasks-at_example : decode_tasks reader sample ≡ ok (tasks_at reader 0 2 sample)
decode_tasks-at_example = decode_tasks-at reader 2 sample reader-IsReader refl

answer-IsAnswer : IsAnswer Command.read plc_addr 7 (header_of (code Command.read) 5 0 7)
answer-IsAnswer = record {
  from = refl;
  command = refl;
  flags = refl;
  invoke_id = refl;
  no_error = refl;
}

abbrev sampling : Client
sampling = client_with (received (header_of (code Command.read) 5 0 7) (response sample) ∷ [])

tasks_at-read_example :
    (read reader plc_addr 3 sampling).0
    ≡ ok (record { reported_task_count = none; tasks = tasks_at reader 0 2 sample })
tasks_at-read_example =
    tasks_at-read reader 2 sampling sample reader-IsReader (omega arith) refl refl answer-IsAnswer
