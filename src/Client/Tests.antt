-- ===== src/Client/Tests.antt =====
-- A concrete client, a request that it makes, and packets that it receives.
mod Devices
mod Calls
mod Grants
mod Packets
mod ShortReads
use ads_rs.Prelude.{
  ℕ, ◌+◌, ◌%◌, ◌^◌, ◌<◌, ◌≤◌, ◌≡◌, refl, Bool, true, false, Option, some, none, List, [], ◌∷◌, ◌++◌,
  map, arith, length, if◌then◌else◌,
}
use ads_rs.Wire.{Bytes, ByteOrder, concat, write_u32}
use ads_rs.Wire.LittleEndian.{little_endian, le_bytes}
use ads_rs.Errors.{Result, ok, err, overflow, io, of_kind, unexpected_eof}
use ads_rs.NetId.{AmsAddr}
use ads_rs.NetId.Tests.{plc, plc-IsNetId, plc_addr, plc_addr-IsAddr}
use ads_rs.Client.Command.{Command, code}
use ads_rs.Client.Command
use ads_rs.Client.State.{AdsState, try_from, number, try_from_iff}
use ads_rs.Client.Header.{
  AdsHeader, IsHeader, as_bytes, read_fields, read_from_bytes, read_from_bytes-as_bytes,
}
use ads_rs.Client.Scatter.{scatter, overlay, concat-scatter}
use ads_rs.Client.Action.{
  next_arrival, later_arrivals, written, Arrival, Client, received, write_failed, mem_id,
}
use ads_rs.Client.Exchange.{total_length, request_header, accept, communicate}
use ads_rs.Client.Exchange.Request.{sent-communicate, pending-communicate, communicate-overflow}
use ads_rs.Client.Exchange.Response.{IsAnswer, Accepted, accept-Accepted}
use ads_rs.Client.Device.Read.{accept-answer}
use ads_rs.NetId.Stream.{length-write_to}
use ads_rs.NetId.{Parsed, parsed}
use ads_rs.Prelude.{take, ◌↔◌, replicate, length-replicate}

instance abbrev pub byte_order : ByteOrder
byte_order = little_endian

abbrev pub me : AmsAddr
me = record { netid = record { octets = 10 ∷ 0 ∷ 0 ∷ 2 ∷ 1 ∷ 1 ∷ [] }; port = 58913 }

-- A header to the client, with `n` bytes of payload.
abbrev pub header_of : (command flags n id : ℕ) → AdsHeader
header_of command flags n id = record {
  ams_cmd = 0;
  length_ = 32 + n;
  dest_netid = me.netid;
  dest_port = me.port;
  src_netid = plc;
  src_port = 851;
  command = command;
  state_flags = flags;
  data_length = n;
  error_code = 0;
  invoke_id = id;
}

pub header_of-IsHeader :
    (command flags n id : ℕ)
    → command < 2 ^ 16
    → flags < 2 ^ 16
    → n < 2 ^ 31
    → id < 2 ^ 32
    → IsHeader (header_of command flags n id)
header_of-IsHeader command flags n id p q r s = record {
  ams_cmd = omega arith;
  length_ = omega arith;
  dest_netid = record {
    six = refl;
    bytes = (
      omega arith,
      (omega arith, (omega arith, (omega arith, (omega arith, (omega arith, tt))))),
    );
  };
  dest_port = omega arith;
  src_netid = plc-IsNetId;
  src_port = omega arith;
  command = p;
  state_flags = q;
  data_length = omega arith;
  error_code = omega arith;
  invoke_id = s;
}

-- A client with these outcomes to come.
abbrev pub client_with : List Arrival → Client
client_with arrivals = record {
  source = me;
  invoke_id = 7;
  pending = 3 ∷ [];
  notif_handles = (plc_addr, 40) ∷ [];
  sent = [];
  arrivals = arrivals;
}

-- The content of a response: two bytes are announced and sent.
abbrev pub content : Bytes
content = write_u32 2 ++ (33 ∷ 44 ∷ [])

abbrev pub answer : AdsHeader
answer = header_of 2 5 10 7

pub answer-IsAnswer : IsAnswer Command.read plc_addr 7 answer
unfolding code
answer-IsAnswer = record {
  from = refl;
  command = refl;
  flags = refl;
  invoke_id = refl;
  no_error = refl;
}

abbrev pub answering : Client
answering = client_with (received answer (write_u32 0 ++ content) ∷ [])

-- A request whose write fails.
abbrev failing : Client
failing = client_with (write_failed 5 (of_kind unexpected_eof) ∷ [])

sent-communicate_example :
    (packet : Bytes) × ((communicate Command.write plc_addr ((1 ∷ 2 ∷ []) ∷ []) [] failing).1.sent
      ≡ take 5 packet ∷ [])
    × (read_fields packet ≡ ok (request_header me Command.write plc_addr 2 7, 1 ∷ 2 ∷ []))
    × (length packet ≡ 40)
sent-communicate_example =
    sent-communicate Command.write plc_addr ((1 ∷ 2 ∷ []) ∷ []) [] failing (omega arith)
      (record {
        netid = record {
          six = refl;
          bytes = (
            omega arith,
            (omega arith, (omega arith, (omega arith, (omega arith, (omega arith, tt))))),
          );
        };
        port = omega arith;
      })
      plc_addr-IsAddr (omega arith)

pending-communicate_example :
    mem_id 7 (communicate Command.write plc_addr ((1 ∷ []) ∷ []) [] failing).1.pending ≡ true
pending-communicate_example =
    pending-communicate Command.write plc_addr ((1 ∷ []) ∷ []) [] failing (omega arith) 7

zeroes : ℕ → List Bytes
zeroes n = replicate n 0 ∷ []

total_length-zeroes : (n : ℕ) → total_length (zeroes n) ≡ n
unfolding zeroes
total_length-zeroes n = omega (arith, length-replicate {A = ℕ} n 0)

accepted :
    accept Command.read plc_addr 7 (write_u32 0 ∷ []) answer (write_u32 0 ++ content)
    ≡ ok (6, scatter content 0 6 (write_u32 0 ∷ []))
unfolding le_bytes
accepted =
    accept-answer Command.read plc_addr 7 (write_u32 0) [] answer content answer-IsAnswer
      (omega arith)

accept-Accepted_example :
    Accepted Command.read plc_addr 7
      (write_u32 0 ∷ [])
      answer
      (write_u32 0 ++ content)
      6
      (scatter content 0 6 (write_u32 0 ∷ []))
accept-Accepted_example =
    accept-Accepted Command.read plc_addr 7 (write_u32 0 ∷ []) answer (write_u32 0 ++ content)
      accepted
