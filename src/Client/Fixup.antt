-- ===== src/Client/Fixup.antt =====
-- client.rs: `fixup_write_read_return_buffers`, which moves the data of a sum-up request with short
-- reads to the buffers that it belongs to. The buffers are given with the lengths that their
-- results announce.
pub mod Segments
pub mod Copy
pub mod Table
pub mod Request
pub mod Served
use ads_rs.Prelude.{
  ℕ, zero, suc, ◌+◌, ◌-◌, min, Option, none, some, List, [], ◌∷◌, ◌++◌, ltb, leb, ◌==◌,
  if◌then◌else◌, length, get_elem?, set, take, drop,
}
use ads_rs.Wire.{Bytes, or_panic}
use ads_rs.Errors.{Result, ok, panic, assert, ◌>>=◌, ◌>>◌}

-- A request in the table of offsets: where its buffer and its data start, and the lengths of both.
pub record Offset : Type 0 where
  pub initial : ℕ
  pub actual : ℕ
  pub size : ℕ
  pub returned : ℕ

-- The table, which the scan makes; it asserts that no result is longer than its buffer.
unfoldable pub offsets_of : ℕ → ℕ → List (Bytes × ℕ) → Result (List Offset)
offsets_of init_cum act_cum [] = ok []
offsets_of init_cum act_cum ((rbuf, act) ∷ requests) = do
  assert (leb act (length rbuf))
  more ← offsets_of (init_cum + length rbuf) (act_cum + act) requests
  ok (record { initial = init_cum; actual = act_cum; size = length rbuf; returned = act } ∷ more)

-- `iter().rposition(|r| r.0 < end)`, among the first `k` entries.
unfoldable pub rposition : ℕ → ℕ → List Offset → Option ℕ
rposition end zero offsets = none
rposition end (suc k) offsets =
    let earlier = rposition end k offsets in
    elim (get_elem? offsets k) [
      | none ↦ earlier
      | some r ↦ if ltb r.initial end then some k else earlier
    ]

-- The `n` bytes of buffer `j` before `end` copied to buffer `i` at `dest`. A slice that does not
-- lie in its buffer panics.
unfoldable pub copy_segment : ℕ → ℕ → ℕ → ℕ → ℕ → List Bytes → Result (List Bytes)
copy_segment i j end n dest bufs = do
  from ← or_panic (get_elem? bufs j)
  to ← or_panic (get_elem? bufs i)
  assert (leb end (length from))
  assert (leb (dest + n) (length to))
  let chunk = take n (drop (end - n) from)
  ok (set bufs i (take dest to ++ (chunk ++ drop (dest + n) to)))

-- The inner loop: the last `size` bytes that buffer `i` still lacks are taken from the buffers `j`
-- and below, those of `j` before `j_end`.
unfoldable pub copy_back : ℕ → ℕ → ℕ → ℕ → List Offset → List Bytes → Result (List Bytes)
unfolding copy_segment
copy_back i zero j_end size offsets bufs = do
  let n = min j_end size
  bufs ← copy_segment i 0 j_end n (size - n) bufs
  if size - n == 0 then ok bufs else panic
copy_back i (suc j) j_end size offsets bufs = do
  let n = min j_end size
  bufs ← copy_segment i (suc j) j_end n (size - n) bufs
  o ← or_panic (get_elem? offsets j)
  let more = copy_back i j o.size (size - n) offsets bufs
  if size - n == 0 then ok bufs else more

-- The work for request `i`; none where the loop continues.
unfoldable pub fill_request : ℕ → Offset → List Offset → List Bytes → Result (List Bytes)
unfolding rposition copy_back
fill_request i o offsets bufs = do
  j ← or_panic (rposition (o.actual + o.returned) (suc i) offsets)
  from ← or_panic (get_elem? offsets j)
  copy_back i j (o.actual + o.returned - from.initial) o.returned offsets bufs

-- The outer loop, over the first `k` requests from the last.
unfoldable pub fixup_from : ℕ → List Offset → List Bytes → Result (List Bytes)
unfolding fill_request
fixup_from zero offsets bufs = ok bufs
fixup_from (suc i) offsets bufs = do
  o ← or_panic (get_elem? offsets i)
  let skipped = fixup_from i offsets bufs
  let filled = (do bufs' ← fill_request i o offsets bufs; fixup_from i offsets bufs')
  if o.returned == 0 then skipped else if o.initial == o.actual then ok bufs else filled

abbrev pub buffers : List (Bytes × ℕ) → List Bytes
buffers [] = []
buffers (r ∷ requests) = r.0 ∷ buffers requests

unfoldable pub fixup_write_read_return_buffers : List (Bytes × ℕ) → Result (List Bytes)
unfolding offsets_of fixup_from
fixup_write_read_return_buffers requests = do
  offsets ← offsets_of 0 0 requests
  fixup_from (length offsets) offsets (buffers requests)
