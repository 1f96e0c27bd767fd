-- ===== src/Client/Tests/Packets.antt =====
-- Packets that the reader thread of a concrete client receives.
use ads_rs.Prelude.{◌≤◌, ℕ, ◌^◌, ◌<◌, ◌≡◌, refl, true, [], ◌∷◌, ◌++◌, arith, length}
use ads_rs.Wire.{Bytes, write_u32}
use ads_rs.Wire.LittleEndian.{le_bytes}
use ads_rs.NetId.Tests.{plc_addr}
use ads_rs.Client.Command.{code}
use ads_rs.Client.Command
use ads_rs.Client.Scatter.{scatter}
use ads_rs.Client.Exchange.{communicate}
use ads_rs.Client.Reader.Served.{arrivals_of, communicate-read_one}
use ads_rs.Client.Reader.{Delivery}
use ads_rs.Errors.{ok, panic}
use ads_rs.Client.Header.{as_bytes}
use ads_rs.Client.Action.{mem_id}
use ads_rs.Client.Reader.{Change, inserted, Waiting, read_one, reader_work}
use ads_rs.Client.Reader.Packet.{IsPacket, read_one-short_notification}
use ads_rs.Prelude.{◌+◌, List}
use ads_rs.Client.Reader.Once.{settles, active, settles-reader_work}
use ads_rs.Client.Reader.Finish.{reader_work-fuel}
use ads_rs.Client.Tests.{answering, byte_order, me, header_of, header_of-IsHeader}

abbrev waiting : Waiting
waiting = record { pending = 7 ∷ []; alive = λ id. true }

packet :
    (command n id : ℕ) (payload : Bytes)
    → command < 2 ^ 16
    → n < 2 ^ 31
    → id < 2 ^ 32
    → length payload ≡ n
    → IsPacket (header_of command 5 n id) payload
packet command n id payload p r s size = record {
  header = header_of-IsHeader command 5 n id p (omega arith) r s;
  reserved = refl;
  total = refl;
  size = size;
}

abbrev payload : Bytes
payload = 1 ∷ 2 ∷ 3 ∷ []

read_one-short_notification_example :
    read_one me waiting (as_bytes (header_of 8 5 3 0) ++ (payload ++ [])) ≡ panic
read_one-short_notification_example =
    read_one-short_notification me waiting (header_of 8 5 3 0) payload []
      (packet 8 3 0 payload (omega arith) (omega arith) (omega arith) refl) refl refl (omega arith)

-- Before the second round a request with a number that was in use before is inserted.
abbrev joining : List (List Change)
joining = [] ∷ (inserted 7 ∷ []) ∷ []

reader_work-fuel_example :
    reader_work 4 me joining waiting payload ≡ reader_work 10 me joining waiting payload
reader_work-fuel_example =
    reader_work-fuel 4 10 me joining waiting payload (omega arith) (omega arith)

-- A response to the active request, and then an incomplete packet.
abbrev settling : Bytes
settling = as_bytes (header_of 2 5 3 7) ++ (payload ++ (9 ∷ []))

settles-reader_work_example :
    settles 7 (reader_work 60 me joining waiting settling).0
      + active 7 (reader_work 60 me joining waiting settling).2
    ≤ 2
unfolding mem_id
settles-reader_work_example = settles-reader_work me 7 60 joining waiting settling

communicate-read_one_example :
    (d : Delivery) × (read_one me waiting
        (as_bytes (header_of 2 5 7 7) ++ ((write_u32 0 ++ (1 ∷ 2 ∷ 3 ∷ [])) ++ (9 ∷ [])))
      ≡ ok (d, 9 ∷ []))
    × ((communicate Command.read plc_addr []
          ((0 ∷ []) ∷ [])
          (record answering { arrivals = arrivals_of d })).0
        ≡ ok (3, scatter (1 ∷ 2 ∷ 3 ∷ []) 0 3 ((0 ∷ []) ∷ [])))
unfolding mem_id code le_bytes
communicate-read_one_example =
    communicate-read_one Command.read plc_addr [] (0 ∷ []) [] answering waiting (header_of 2 5 7 7)
      (1 ∷ 2 ∷ 3 ∷ []) (9 ∷ [])
      (packet 2 7 7 (write_u32 0 ++ (1 ∷ 2 ∷ 3 ∷ [])) (omega arith) (omega arith) (omega arith)
        refl)
      refl (λ e. omega arith)
      (record { from = refl; command = refl; flags = refl; invoke_id = refl; no_error = refl }) refl
      refl (omega arith) (omega arith)
