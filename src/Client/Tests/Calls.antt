-- ===== src/Client/Tests/Calls.antt =====
-- A concrete sum-up call whose answer is short.
use ads_rs.Prelude.{◌≡◌, refl, All, List, [], ◌∷◌, ◌++◌, map, arith}
use ads_rs.Wire.{concat, write_u32}
use ads_rs.Errors.{ok}
use ads_rs.NetId.Tests.{plc_addr}
use ads_rs.Client.Action.{received, Client}
use ads_rs.Client.Requests.{WriteReadRequest, write_read_request, write_read_data}
use ads_rs.Client.Device.Multi.{write_read_multi}
use ads_rs.Client.Device.Short.{Called, IsShort, requests_of, contents_of, reply_of}
use ads_rs.Client.Device.Calls.{results_of, write_read_multi-answered}
use ads_rs.Client.Tests.{client_with, byte_order}
use ads_rs.Client.Tests.Devices.{sumup_answer, sumup_answer-IsAnswer}

-- Three calls with buffers of four bytes. The first one returns two bytes, the second one fails, and
-- the third one returns three bytes.
abbrev calls : List Called
calls =
    record {
      request = write_read_request 1 2 (7 ∷ []) (0 ∷ 0 ∷ 0 ∷ 0 ∷ []);
      result = record { result = 0; length_ = 2 };
      content = 1 ∷ 2 ∷ [];
    }
    ∷ record {
      request = write_read_request 1 3 (8 ∷ []) (0 ∷ 0 ∷ 0 ∷ 0 ∷ []);
      result = record { result = 0x703; length_ = 0 };
      content = [];
    }
    ∷ record {
      request = write_read_request 1 4 (9 ∷ []) (0 ∷ 0 ∷ 0 ∷ 0 ∷ []);
      result = record { result = 0; length_ = 3 };
      content = 3 ∷ 4 ∷ 5 ∷ [];
    }
    ∷ []

abbrev calling : Client
calling = client_with (
    received sumup_answer
      (write_u32 0 ++ (write_u32 29 ++ (concat (results_of calls) ++ concat (contents_of calls))))
    ∷ [])

calls-IsShort : All IsShort calls
unfolding write_read_request
calls-IsShort = (
  record { result = omega arith; length_ = omega arith; announces = refl; fits = omega arith },
  (
    record { result = omega arith; length_ = omega arith; announces = refl; fits = omega arith },
    (
      record { result = omega arith; length_ = omega arith; announces = refl; fits = omega arith },
      tt,
    ),
  ),
)

write_read_multi-answered_example :
    (rs : List WriteReadRequest) × ((write_read_multi plc_addr (requests_of calls) calling).0
      ≡ ok rs)
    × (map write_read_data rs ≡ map reply_of calls)
unfolding write_read_request
write_read_multi-answered_example =
    write_read_multi-answered plc_addr calling 29 calls refl sumup_answer-IsAnswer calls-IsShort
      (omega arith) (omega arith)
