-- ===== src/TaskInfo/Slots.antt =====
-- task_info.rs: a reader decodes every array of the size that it was made for.
pub mod Bounds
use ads_rs.Prelude.{
  ℕ, zero, suc, ◌+◌, ◌-◌, ◌*◌, ◌%◌, ◌^◌, ◌≤◌, ◌<◌, ◌≡◌, refl, ap, sym, ◌∙◌, String, Bool, true,
  false, not, Option, none, some, List, [], ◌∷◌, ◌++◌, arith, inl, inr, leb, le→leb, ltb, lt→ltb,
  ◌==◌, ==-self, if◌then◌else◌, Bool-cases, length, length-take, length-drop, take,
  take-append-drop, drop, drop-drop,
}
use ads_rs.Prelude.Int.{ℤ, pos, negsuc, signed, sub_ℕ, ◌+ℤ◌, ◌-ℤ◌, is_i32, checked}
use native.Mathlib.Nat.{suc-mul, zero-mul}
use ads_rs.Wire.{Bytes, ByteOrder, read_uint, read_uint-append}
use ads_rs.Errors.{Result, ok, err, ◌>>=◌}
use ads_rs.Text.Lossy.{from_utf8_lossy}
use ads_rs.Symbol.Cursor.{pure, lift, value_of}
use ads_rs.Symbol.Cursor
use ads_rs.Client.Structs.{until_zero}
use ads_rs.TaskInfo.{TaskInfoLayout, TaskInfoReader, task_name_size, task_prefix_size, tick_nanos}
use ads_rs.TaskInfo.Sample.{
  PlcTaskSystemInfo, chunks, decode_task, entry_of, index_of, or_overflow, task_name,
}
use ads_rs.TaskInfo.Decode.{decode_from, decode_tasks}

abbrev pub NameFits : ℕ → Option ℕ → Type 0
NameFits entry_size none = Unit {0}
NameFits entry_size (some offset) = offset + task_name_size ≤ entry_size

abbrev pub name_at : Bytes → Option ℕ → Option Bytes
name_at entry none = none
name_at entry (some offset) =
    some (from_utf8_lossy (until_zero (take task_name_size (drop offset entry))))

task_name-at :
    (entry : Bytes) (o : Option ℕ)
    → NameFits (length entry) o
    → task_name entry o ≡ ok (name_at entry o)
unfolding task_name
task_name-at entry none h = refl
task_name-at entry (some offset) h = rw (le→leb (offset + task_name_size) (length entry) h) refl

lt→leb : (a b : ℕ) → b < a → leb a b ≡ false
lt→leb a b h = ground arith

not_zero : (n : ℕ) → task_prefix_size ≤ n → not (n == 0) ≡ true
not_zero n h = ground arith

enough : (n size : ℕ) {total : ℕ} → task_prefix_size ≤ size → total ≡ n * size → n ≤ total
enough zero size h e = omega arith
enough (suc n) size {total} h e =
    let e' : total ≡ n * size + size = e ∙ suc-mul n size in omega (arith, enough n size h refl, e')

module _ ⦃bo : ByteOrder⦄ where
  -- The number of `w` bytes at an offset.
  abbrev pub field_at : Bytes → ℕ → ℕ → ℕ
  field_at entry offset w = bo.read_int (take w (drop offset entry))

  -- The task that an entry holds, each field at its documented offset.
  abbrev pub task_at : Bytes → ℤ → Option ℕ → PlcTaskSystemInfo
  task_at entry index o = record {
    index = index;
    object_id = field_at entry 0 4;
    ads_port = field_at entry 10 2;
    priority = field_at entry 8 2;
    cycle_time = field_at entry 4 4 * tick_nanos;
    last_exec_time = field_at entry 24 4 * tick_nanos;
    dc_task_time = signed 64 (field_at entry 16 8);
    cycle_count = field_at entry 12 4;
    first_cycle = not (field_at entry 28 1 == 0);
    cycle_time_exceeded = not (field_at entry 29 1 == 0);
    in_call_after_output_update = not (field_at entry 30 1 == 0);
    rt_violation = not (field_at entry 31 1 == 0);
    name = name_at entry o;
  }

  read_at :
      (context : String) (entry : Bytes) (offset w : ℕ)
      → offset + w ≤ length entry
      → read_uint w context (drop offset entry)
        ≡ ok (field_at entry offset w, drop (offset + w) entry)
  read_at context entry offset w h =
      let ptr = drop offset entry in
      ap (read_uint w context) (sym (take-append-drop w ptr))
      ∙ read_uint-append w context (take w ptr) (drop w ptr)
          (omega (arith, length-take {A = ℕ} w ptr, length-drop {A = ℕ} offset entry))
      ∙ ap (λ t. ok (field_at entry offset w, t)) (drop-drop offset w entry)

  -- An entry that is as long as the documented fields and holds the name is decoded, whatever its
  -- bytes are.
  pub decode_task-at :
      (entry : Bytes) (index : ℤ) (o : Option ℕ)
      → task_prefix_size ≤ length entry
      → NameFits (length entry) o
      → decode_task entry index o ≡ ok (task_at entry index o)
  unfolding decode_task entry_of Cursor.◌>>=◌ lift
  decode_task-at entry index o long fits =
      let ctx : String = "decoding task info" in
      rw
        (
          read_at ctx entry 0 4 (omega arith),
          read_at ctx entry 4 4 (omega arith),
          read_at ctx entry 8 2 (omega arith),
          read_at ctx entry 10 2 (omega arith),
          read_at ctx entry 12 4 (omega arith),
          read_at ctx entry 16 8 (omega arith),
          read_at ctx entry 24 4 (omega arith),
          read_at ctx entry 28 1 (omega arith),
          read_at ctx entry 29 1 (omega arith),
          read_at ctx entry 30 1 (omega arith),
          read_at ctx entry 31 1 (omega arith),
          task_name-at entry o fits,
        )
        refl

  -- The tasks of so many entries, from a slot on.
  abbrev pub tasks_at : TaskInfoReader → ℕ → ℕ → Bytes → List PlcTaskSystemInfo
  tasks_at reader slot zero bytes = []
  tasks_at reader slot (suc n) bytes =
      task_at (take reader.layout.entry_size bytes) (reader.first_index +ℤ pos slot)
        reader.layout.task_name_offset
      ∷ tasks_at reader (suc slot) n (drop reader.layout.entry_size bytes)

  -- What holds of a reader: its array has so many entries, each as long as the documented fields and
  -- with room for the name, and the indices of the array are 32-bit integers.
  pub record IsReader (reader : TaskInfoReader) (count : ℕ) : Type 0 where
    pub entry_long : task_prefix_size ≤ reader.layout.entry_size
    pub name_fits : NameFits reader.layout.entry_size reader.layout.task_name_offset
    pub size : reader.task_info.size ≡ count * reader.layout.entry_size
    pub indexed :
        (slot : ℕ)
        → slot < count
        → index_of reader.first_index slot ≡ ok (reader.first_index +ℤ pos slot)

  decode_from-at :
      (reader : TaskInfoReader) (count slot n fuel : ℕ) (bytes : Bytes)
      → IsReader reader count
      → slot + n ≡ count
      → n ≤ fuel
      → length bytes ≡ n * reader.layout.entry_size
      → decode_from reader slot (chunks fuel reader.layout.entry_size bytes)
        ≡ ok (tasks_at reader slot n bytes)
  unfolding decode_from chunks
  decode_from-at reader count slot zero zero bytes v e f l = refl
  decode_from-at reader count slot zero (suc fuel) bytes v e f l =
      let none_left : leb reader.layout.entry_size (length bytes) ≡ false =
        lt→leb reader.layout.entry_size (length bytes)
          (omega (arith, v.entry_long, l, zero-mul reader.layout.entry_size)) in
      rw none_left refl
  decode_from-at reader count slot (suc n) zero bytes v e f l = absurd (omega arith)
  decode_from-at reader count slot (suc n) (suc fuel) bytes v e f l =
      let size = reader.layout.entry_size in
      let total : length bytes ≡ n * size + size = l ∙ suc-mul n size in
      let entry = take size bytes in
      let whole : length entry ≡ size = omega (arith, length-take {A = ℕ} size bytes, total) in
      let more =
        decode_from-at reader count (suc slot) n fuel (drop size bytes) v (omega (arith, e))
          (omega (arith, f)) (omega (arith, length-drop {A = ℕ} size bytes, total)) in
      rw
        (
          le→leb size (length bytes) (omega (arith, total)),
          v.indexed slot (omega (arith, e)),
          decode_task-at entry (reader.first_index +ℤ pos slot) reader.layout.task_name_offset
              (omega (arith, whole, v.entry_long)) (rw whole v.name_fits),
          more,
        )
        refl

  -- A valid reader decodes any bytes of the size of its array to one task for each entry, in their
  -- order, with the index of its slot and each field at its documented offset.
  pub decode_tasks-at :
      (reader : TaskInfoReader) (count : ℕ) (bytes : Bytes)
      → IsReader reader count
      → length bytes ≡ reader.task_info.size
      → decode_tasks reader bytes ≡ ok (tasks_at reader 0 count bytes)
  unfolding decode_tasks
  decode_tasks-at reader count bytes v whole =
      let size = reader.layout.entry_size in
      rw (whole, ==-self reader.task_info.size, not_zero size v.entry_long)
        (decode_from-at reader count 0 count reader.task_info.size bytes v (omega arith)
          (enough count size v.entry_long v.size) (whole ∙ v.size))

  length-tasks_at :
      (reader : TaskInfoReader) (slot n : ℕ) (bytes : Bytes)
      → length (tasks_at reader slot n bytes) ≡ n
  length-tasks_at reader slot zero bytes = refl
  length-tasks_at reader slot (suc n) bytes =
      ap suc (length-tasks_at reader (suc slot) n (drop reader.layout.entry_size bytes))
