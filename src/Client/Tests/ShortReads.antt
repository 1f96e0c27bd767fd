-- ===== src/Client/Tests/ShortReads.antt =====
-- Short reads of a sum-up request, moved to their buffers.
use ads_rs.Prelude.{◌≡◌, refl, List, [], ◌∷◌, map, arith}
use ads_rs.Errors.{ok, panic}
use ads_rs.Client.State.{codes}
use ads_rs.Client.Fixup.{fixup_write_read_return_buffers}
use ads_rs.Client.Fixup.Table.{Placed, with_lengths}
use ads_rs.Client.Fixup.Request.{served}
use ads_rs.Client.Fixup.Served.{fixup_write_read_return_buffers-served}

-- Buffers of four bytes each, with two, none and three bytes returned.
short_reads_moved :
    fixup_write_read_return_buffers
      ((1 ∷ 2 ∷ 3 ∷ 4 ∷ [], 2) ∷ (5 ∷ 0 ∷ 0 ∷ 0 ∷ [], 0) ∷ (0 ∷ 0 ∷ 0 ∷ 0 ∷ [], 3) ∷ [])
    ≡ ok ((1 ∷ 2 ∷ 3 ∷ 4 ∷ []) ∷ (5 ∷ 0 ∷ 0 ∷ 0 ∷ []) ∷ (3 ∷ 4 ∷ 5 ∷ 0 ∷ []) ∷ [])
unfolding fixup_write_read_return_buffers
short_reads_moved = refl

-- The buffers of the source's own test, `test_fixup_buffers`, and what becomes of them.
fixup_buffers :
    fixup_write_read_return_buffers (
      (codes "12345678AB", 8)
      ∷ (codes "CDEFabc", 6)
      ∷ (codes "dxyUVW", 0)
      ∷ (codes "XYZY", 4)
      ∷ (codes "XW----", 2)
      ∷ (codes "-------------", 9)
      ∷ [])
    ≡ ok (
        codes "12345678AB"
        ∷ codes "ABCDEFc"
        ∷ codes "dxyUVW"
        ∷ codes "abcd"
        ∷ codes "xy----"
        ∷ codes "UVWXYZYXW----"
        ∷ [])
unfolding fixup_write_read_return_buffers
fixup_buffers = refl

-- A result that is longer than its buffer fails the assertion.
long_result_panics : fixup_write_read_return_buffers ((1 ∷ [], 2) ∷ []) ≡ panic
unfolding fixup_write_read_return_buffers
long_result_panics = refl

-- The buffers of the first test, with the data of each request.
abbrev short_reads : List Placed
short_reads =
    record { buffer = 1 ∷ 2 ∷ 3 ∷ 4 ∷ []; content = 1 ∷ 2 ∷ [] }
    ∷ record { buffer = 5 ∷ 0 ∷ 0 ∷ 0 ∷ []; content = [] }
    ∷ record { buffer = 0 ∷ 0 ∷ 0 ∷ 0 ∷ []; content = 3 ∷ 4 ∷ 5 ∷ [] }
    ∷ []

fixup_write_read_return_buffers-served_example :
    fixup_write_read_return_buffers (with_lengths short_reads) ≡ ok (map served short_reads)
fixup_write_read_return_buffers-served_example =
    fixup_write_read_return_buffers-served short_reads (0 ∷ 0 ∷ 0 ∷ 0 ∷ 0 ∷ 0 ∷ 0 ∷ [])
      (omega arith, (omega arith, (omega arith, tt))) refl
