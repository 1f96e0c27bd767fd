-- ===== src/TaskInfo.antt =====
-- task_info.rs: the layout of a task entry and the reader that is made for it.
mod Tests
pub mod Sample
pub mod Decode
pub mod Read
pub mod Layouts
pub mod Slots
pub mod Answers
use ads_rs.Prelude.{
  ℕ, zero, suc, ◌+◌, ◌*◌, ◌^◌, Bool, true, false, not, ◌&&◌, ◌||◌, Option, none, some, List, [],
  ◌∷◌, ltb, leb, ◌==◌, if◌then◌else◌,
}
use ads_rs.Prelude.Int.{ℤ, pos, negsuc, ◌+ℤ◌, ◌-ℤ◌, checked}
use ads_rs.Wire.{Bytes}
use ads_rs.Errors.{Error, Result, ok, err, ensure, task_info_layout, ◌>>=◌, ◌>>◌}
use ads_rs.NetId.{AmsAddr, bytes_eq}
use ads_rs.Client.State.{codes}
use ads_rs.Symbol.{Field, TypeInfo}

abbrev pub task_prefix_size : ℕ
task_prefix_size = 32

abbrev pub task_name_size : ℕ
task_name_size = 64

abbrev pub app_info_task_count_size : ℕ
app_info_task_count_size = 8

abbrev pub tick_nanos : ℕ
tick_nanos = 100

abbrev pub max_task_info_size : ℕ
max_task_info_size = 16 * 1024 * 1024

pub record TaskInfoLocation : Type 0 where
  pub index_group : ℕ
  pub index_offset : ℕ
  pub size : ℕ

pub record TaskInfoLayout : Type 0 where
  pub entry_size : ℕ
  pub task_name_offset : Option ℕ

-- A documented field: its name, offset, size and base type.
abbrev pub Documented : Type 0
Documented = Bytes × ℕ × ℕ × ℕ

unfoldable pub required : List Documented
required =
    (codes "ObjId", 0, 4, 19)
    ∷ (codes "CycleTime", 4, 4, 19)
    ∷ (codes "Priority", 8, 2, 18)
    ∷ (codes "AdsPort", 10, 2, 18)
    ∷ (codes "CycleCount", 12, 4, 19)
    ∷ (codes "DcTaskTime", 16, 8, 20)
    ∷ (codes "LastExecTime", 24, 4, 19)
    ∷ (codes "FirstCycle", 28, 1, 33)
    ∷ (codes "CycleTimeExceeded", 29, 1, 33)
    ∷ (codes "InCallAfterOutputUpdate", 30, 1, 33)
    ∷ (codes "RTViolation", 31, 1, 33)
    ∷ []

-- `fields.iter().find(|field| field.name == name)`
unfoldable pub find : Bytes → List Field → Option Field
find name [] = none
find name (f ∷ fs) = let rest = find name fs in if bytes_eq f.name name then some f else rest

is_offset : ℕ → Option ℕ → Bool
is_offset n none = false
is_offset n (some o) = o == n

is_empty : {A : Type 0} → List A → Bool
is_empty [] = true
is_empty (a ∷ as') = false

unfoldable pub is_documented : Documented → Field → Bool
unfolding is_offset is_empty
is_documented (name, offset, size, base_type) f =
    is_offset offset f.offset && f.size == size && f.base_type == base_type && is_empty f.array

check_field : Documented → Option Field → Result (Unit {0})
check_field d none = err (task_info_layout "a required task field is missing")
check_field d (some f) =
    ensure (is_documented d f)
      (task_info_layout "a required task field has an unsupported type, size, or offset")

unfoldable pub check_fields : List Documented → List Field → Result (Unit {0})
unfolding check_field
check_fields [] fields = ok tt
check_fields (d ∷ ds) fields = do check_field d (find d.0 fields); check_fields ds fields

is_name_offset : ℕ → Option ℕ → Bool
is_name_offset entry_size none = false
is_name_offset entry_size (some o) = leb task_prefix_size o && leb (o + task_name_size) entry_size

unfoldable pub is_task_name : ℕ → Field → Bool
unfolding is_name_offset is_empty
is_task_name entry_size f =
    is_name_offset entry_size f.offset
    && f.size == task_name_size
    && f.base_type == 30
    && is_empty f.array

unfoldable pub name_offset : ℕ → Option Field → Result (Option ℕ)
name_offset entry_size none = ok none
name_offset entry_size (some f) =
    if is_task_name entry_size f
    then ok f.offset
    else err (task_info_layout "TaskName has an unsupported type, size, or offset")

unfoldable pub from_entry_type : TypeInfo → Result TaskInfoLayout
from_entry_type entry = do
  ensure (leb task_prefix_size entry.size)
      (task_info_layout "task entry is shorter than documented prefix")
  check_fields required entry.fields
  offset ← name_offset entry.size (find (codes "TaskName") entry.fields)
  ok (record { entry_size = entry.size; task_name_offset = offset })

pub record TaskInfoReader : Type 0 where
  pub target : AmsAddr
  pub symbol_generation : ℕ
  pub task_info : TaskInfoLocation
  pub app_info : Option TaskInfoLocation
  pub layout : TaskInfoLayout
  pub first_index : ℤ

-- A number that is not negative, and one more, as an `i32` and then a `usize`.
unfoldable pub one_more : Option ℤ → Option ℕ
one_more none = none
one_more (some (negsuc n)) = none
one_more (some (pos n)) = if ltb (n + 1) (2 ^ 31) then some (n + 1) else none

-- The number of elements between the bounds.
unfoldable pub count_of : ℤ × ℤ → Option ℕ
unfolding one_more
count_of bounds = one_more (checked (bounds.1 -ℤ bounds.0))

unfoldable pub or_invalid : Option ℕ → Result ℕ
or_invalid none = err (task_info_layout "task array bounds are invalid")
or_invalid (some n) = ok n

-- `TaskInfoReader::new`
unfoldable pub new : AmsAddr → ℕ → TaskInfoLocation → ℤ × ℤ → TaskInfoLayout → Result TaskInfoReader
unfolding or_invalid
new target symbol_generation task_info array_bounds layout = do
  count ← or_invalid (count_of array_bounds)
  ensure
      (not (task_info.size == 0)
        && leb task_info.size max_task_info_size
        && ltb (count * layout.entry_size) (2 ^ 64)
        && count * layout.entry_size == task_info.size)
      (task_info_layout "task array bounds and symbol size disagree")
  ok (record {
    target = target;
    symbol_generation = symbol_generation;
    task_info = task_info;
    app_info = none;
    layout = layout;
    first_index = array_bounds.0;
  })

unfoldable pub with_app_info : TaskInfoReader → TaskInfoLocation → Result TaskInfoReader
with_app_info reader app_info = do
  ensure (leb app_info_task_count_size app_info.size)
      (task_info_layout "app-info symbol is shorter than TaskCnt")
  ok (record reader { app_info = some app_info })
