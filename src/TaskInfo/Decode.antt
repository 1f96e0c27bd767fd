-- ===== src/TaskInfo/Decode.antt =====
-- task_info.rs: `TaskInfoReader::decode_tasks`.
use ads_rs.Prelude.{ℕ, suc, ◌%◌, ◌^◌, List, [], ◌∷◌, ◌==◌, not, length}
use ads_rs.Wire.{Bytes, ByteOrder}
use ads_rs.Errors.{Result, ok, reply, ensure, assert, ◌>>=◌, ◌>>◌}
use ads_rs.TaskInfo.{TaskInfoReader}
use ads_rs.TaskInfo.Sample.{PlcTaskSystemInfo, chunks, decode_task, index_of}

module _ ⦃bo : ByteOrder⦄ where
  -- The loop over the entries, from a slot on.
  unfoldable pub decode_from : TaskInfoReader → ℕ → List Bytes → Result (List PlcTaskSystemInfo)
  decode_from reader slot [] = ok []
  decode_from reader slot (entry ∷ entries) = do
    index ← index_of reader.first_index slot
    task ← decode_task entry index reader.layout.task_name_offset
    tasks ← decode_from reader (suc slot) entries
    ok (task ∷ tasks)

  -- An entry size of zero makes `chunks_exact` panic.
  unfoldable pub decode_tasks : TaskInfoReader → Bytes → Result (List PlcTaskSystemInfo)
  decode_tasks reader bytes = do
    ensure (length bytes == reader.task_info.size)
        (reply "decoding task info" "unexpected task-info read length" (length bytes % 2 ^ 32))
    assert (not (reader.layout.entry_size == 0))
    decode_from reader 0 (chunks (length bytes) reader.layout.entry_size bytes)
