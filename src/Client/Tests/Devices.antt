-- ===== src/Client/Tests/Devices.antt =====
-- Operations on a concrete device.
use ads_rs.Prelude.{◌≡◌, refl, true, [], ◌∷◌, arith, if◌then◌else◌}
use ads_rs.Wire.{Bytes, write_u16}
use ads_rs.Errors.{ok, err, panic, reply}
use ads_rs.NetId.Tests.{plc_addr}
use ads_rs.Notif.Attributes.{Attributes, server_cycle}
use ads_rs.Client.Action.{mem_key, key_eq}
use ads_rs.Client.Device.{read_exact, add_notification}
use ads_rs.Client.Device.Read.{read_exact-answered}
use ads_rs.Client.Device.Handles.{mem_key-add_notification}
use ads_rs.Client.Lifecycle.Drop.{drop_client}
use ads_rs.Client.Lifecycle.Dropped.{delete_packet, sent-drop_client}
use ads_rs.Client.Action.{write_failed, device}
use ads_rs.Errors.{of_kind, unexpected_eof}
use ads_rs.Prelude.{take}
use ads_rs.Client.Tests.{me}
use ads_rs.Prelude.{map, All, List, ◌++◌}
use ads_rs.Wire.{write_u32, concat}
use ads_rs.Client.Command.{code}
use ads_rs.Client.Command
use ads_rs.Client.Header.{AdsHeader}
use ads_rs.Client.Action.{received, Client}
use ads_rs.Client.Requests.{read_request}
use ads_rs.Client.Exchange.Response.{IsAnswer}
use ads_rs.Client.Device.Multi.{read_multi}
use ads_rs.Client.Device.Answers.{
  Answered, IsComplete, requests_of, contents_of, results_of, outcome,
}
use ads_rs.Client.Device.Complete.{read_multi-answered}
use ads_rs.Client.Tests.{client_with, header_of}
use ads_rs.Client.Tests.{byte_order, answering, answer-IsAnswer}

-- A buffer of three bytes, of which two are filled.
abbrev buf : Bytes
buf = 9 ∷ 9 ∷ 9 ∷ []

read_exact-answered_example :
    (read_exact plc_addr 1 2 buf answering).0
    ≡ err (reply "read data" "got less data than expected" 2)
read_exact-answered_example =
    read_exact-answered plc_addr 1 2 buf answering 2 (33 ∷ 44 ∷ []) refl answer-IsAnswer
      (omega arith) (omega arith) (omega arith)

abbrev pub attributes : Attributes
attributes = record {
  length_ = 4;
  trans_mode = server_cycle;
  max_delay = 1000000;
  cycle_time = 2000000;
}

mem_key-add_notification_example :
    mem_key (plc_addr, 40) (add_notification plc_addr 1 2 attributes answering).1.notif_handles
    ≡ elim (add_notification plc_addr 1 2 attributes answering).0 [
      | ok handle ↦
          if key_eq (plc_addr, handle) (plc_addr, 40)
          then true
          else mem_key (plc_addr, 40) answering.notif_handles
      | err e ↦ mem_key (plc_addr, 40) answering.notif_handles
      | panic ↦ mem_key (plc_addr, 40) answering.notif_handles
    ]
mem_key-add_notification_example =
    mem_key-add_notification plc_addr 1 2 attributes answering (plc_addr, 40)

-- Of the deletion request five bytes are written.
abbrev dropping : Client
dropping = client_with (write_failed 5 (of_kind unexpected_eof) ∷ [])

sent-drop_client_example :
    ((drop_client true dropping).0 ≡ ok tt)
    × ((drop_client true dropping).1.sent
        ≡ (1 ∷ 0 ∷ 2 ∷ 0 ∷ 0 ∷ 0 ∷ write_u16 58913) ∷ take 5 (delete_packet me plc_addr 40 7) ∷ [])
unfolding device
sent-drop_client_example = sent-drop_client true dropping (tt, tt)

-- Two reads in one request, of one and of two bytes; the second one failed on the device.
abbrev answers : List Answered
answers =
    record {
      request = read_request 1 2 (0 ∷ []);
      result = record { result = 0; length_ = 1 };
      content = 5 ∷ [];
    }
    ∷ record {
      request = read_request 1 3 (0 ∷ 0 ∷ []);
      result = record { result = 0x703; length_ = 2 };
      content = 0 ∷ 0 ∷ [];
    }
    ∷ []

abbrev pub sumup_answer : AdsHeader
sumup_answer = header_of 9 5 27 7

pub sumup_answer-IsAnswer : IsAnswer Command.read_write plc_addr 7 sumup_answer
unfolding code
sumup_answer-IsAnswer = record {
  from = refl;
  command = refl;
  flags = refl;
  invoke_id = refl;
  no_error = refl;
}

abbrev summing : Client
summing = client_with (
    received sumup_answer
      (write_u32 0 ++ (write_u32 19 ++ concat (results_of answers ++ contents_of answers)))
    ∷ [])

answers-IsComplete : All IsComplete answers
unfolding read_request
answers-IsComplete = (
  record { result = omega arith; length_ = omega arith; size = refl },
  (record { result = omega arith; length_ = omega arith; size = refl }, tt),
)

read_multi-answered_example :
    (read_multi plc_addr (requests_of answers) summing).0 ≡ ok (map outcome answers)
unfolding read_request
read_multi-answered_example =
    read_multi-answered plc_addr summing 19 answers refl sumup_answer-IsAnswer answers-IsComplete
      (omega arith) (omega arith)
