-- ===== src/TaskInfo/Read.antt =====
-- task_info.rs: `TaskInfoReader::read`.
use ads_rs.Prelude.{ℕ, Option, none, some, List, ◌==◌, take, drop, replicate}
use ads_rs.Wire.{ByteOrder}
use ads_rs.Errors.{Error, Result, ok, err, panic, ensure, task_info_invalidated, task_info_layout}
use ads_rs.NetId.{AmsAddr, addr_eq}
use ads_rs.Client.Action.{Action, pure, lift, ◌>>=◌, ◌>>◌}
use ads_rs.Client.Device.{read_exact}
use ads_rs.TaskInfo.{TaskInfoLocation, TaskInfoReader, app_info_task_count_size}
use ads_rs.TaskInfo.Decode.{decode_tasks}
use ads_rs.TaskInfo.Sample.{PlcTaskSystemInfo}

pub data ReportedTaskCount : Type 0 where
  available : ℕ → ReportedTaskCount
  unavailable : Error → ReportedTaskCount

pub record PlcTaskInfoSnapshot : Type 0 where
  pub reported_task_count : Option ReportedTaskCount
  pub tasks : List PlcTaskSystemInfo

-- A failure is a value of the snapshot.
abbrev reported : Result ℕ → Result (Option ReportedTaskCount)
reported (ok count) = ok (some (available count))
reported (err e) = ok (some (unavailable e))
reported panic = panic

module _ ⦃bo : ByteOrder⦄ where
  unfoldable pub read_app_task_count : AmsAddr → TaskInfoLocation → Action ℕ
  read_app_task_count addr location = do
    bytes ←
        read_exact addr location.index_group location.index_offset
          (replicate app_info_task_count_size 0)
    pure (bo.read_int (take 4 (drop 4 bytes)))

  unfoldable pub report : AmsAddr → Option TaskInfoLocation → Action (Option ReportedTaskCount)
  report addr none c = (ok none, c)
  report addr (some location) c = let m = read_app_task_count addr location c in (reported m.0, m.1)

  unfoldable pub read : TaskInfoReader → AmsAddr → ℕ → Action PlcTaskInfoSnapshot
  unfolding report
  read reader addr current_generation = do
    lift (ensure (current_generation == reader.symbol_generation) task_info_invalidated)
    lift (
        ensure (addr_eq addr reader.target)
          (task_info_layout "reader was used with a different ADS target"))
    bytes ←
        read_exact addr reader.task_info.index_group reader.task_info.index_offset
          (replicate reader.task_info.size 0)
    tasks ← lift (decode_tasks reader bytes)
    reported_task_count ← report addr reader.app_info
    pure (record { reported_task_count = reported_task_count; tasks = tasks })
