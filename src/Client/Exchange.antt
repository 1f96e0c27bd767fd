-- ===== src/Client/Exchange.antt =====
-- client.rs: `Client::communicate`.
pub mod Request
pub mod Response
pub mod Safe
use ads_rs.Prelude.{
  ℕ, zero, suc, ◌+◌, ◌%◌, ◌^◌, ◌<◌, ◌≤◌, ◌≡◌, refl, String, Bool, true, false, ◌&&◌, not, Option,
  none, some, List, [], ◌∷◌, ◌++◌, map, ltb, leb, ◌==◌, if◌then◌else◌, length, drop,
}
use ads_rs.Wire.{Bytes, ByteOrder, concat, read_u32, split_at}
use ads_rs.Errors.{
  Error, Result, ok, err, panic, overflow, reply, io, io_sync, of_kind, timed_out, ensure, ◌>>=◌,
  ◌>>◌,
}
use ads_rs.Errors.Codes.{ads_error}
use ads_rs.NetId.{AmsAddr, addr_eq}
use ads_rs.Client.Command.{Command, code, action}
use ads_rs.Client.Header.{AdsHeader, as_bytes}
use ads_rs.Client.Scatter.{scatter}
use ads_rs.Client.Action.{
  Arrival, Client, Action, received, failed, disconnected, write_failed, insert_id, remove_id,
  written, next_arrival, later_arrivals,
}
use ads_rs.Client.Action

abbrev pub total_length : List Bytes → ℕ
total_length [] = 0
total_length (b ∷ bs) = length b + total_length bs

-- The header of a request with `payload_len` bytes of payload.
unfoldable pub request_header : AmsAddr → Command → AmsAddr → ℕ → ℕ → AdsHeader
request_header source cmd target payload_len id = record {
  ams_cmd = 0;
  length_ = 32 + payload_len;
  dest_netid = target.netid;
  dest_port = target.port;
  src_netid = source.netid;
  src_port = source.port;
  command = code cmd;
  state_flags = 4;
  data_length = payload_len % 2 ^ 32;
  error_code = 0;
  invoke_id = id;
}

-- The address that a header names as its source.
abbrev pub source_of : AdsHeader → AmsAddr
source_of h = record { netid = h.src_netid; port = h.src_port }

-- `let result = LE::read_u32(&resp_buf[..4])`, which panics at fewer than four bytes.
module _ ⦃bo : ByteOrder⦄ where
  unfoldable pub result_field : Bytes → Result (ℕ × Bytes)
  result_field resp_buf = do (raw, rest) ← split_at 4 resp_buf; ok (bo.read_int raw, rest)

-- The tests of the header of a response, in their order.
unfoldable pub check_response : Command → AmsAddr → ℕ → AdsHeader → Result (Unit {0})
check_response cmd target id h = do
  ensure (addr_eq (source_of h) target)
      (reply (action cmd) "response wasn't from commanded target" 0)
  ensure (h.command == code cmd) (reply (action cmd) "unexpected command" h.command)
  ensure (h.state_flags == 5) (reply (action cmd) "unexpected state flags" h.state_flags)
  ensure (h.invoke_id == id) (reply (action cmd) "unexpected invoke ID" h.invoke_id)
  if h.error_code == 0 then ok tt else ads_error (action cmd) h.error_code

-- The number of bytes returned, and the output buffers.
abbrev pub Output : Type 0
Output = ℕ × List Bytes

-- The last part, with the bytes of the response behind the result field. The test of the length
-- compares the whole response with the first buffer and four more bytes.
unfoldable pub fill : Command → Bytes → List Bytes → Result Output
fill cmd rest [] = ok (0, [])
fill cmd rest (buf ∷ bufs) = do
  ensure (leb (length buf + 4) (length rest + 4))
      (reply (action cmd) "got less data than expected" ((length rest + 4) % 2 ^ 32))
  ok (length rest, scatter rest 0 (length rest) (buf ∷ bufs))

module _ ⦃bo : ByteOrder⦄ where
  -- What `communicate` makes of a response.
  unfoldable pub accept : Command → AmsAddr → ℕ → List Bytes → AdsHeader → Bytes → Result Output
  accept cmd target id result_bufs h resp_buf = do
    check_response cmd target id h
    (result, rest) ← result_field resp_buf
    if result == 0 then ok tt else ads_error (action cmd) result
    fill cmd rest result_bufs

  abbrev pub wait_context : String
  wait_context = "waiting for response to dispatched request"

  -- The outcome of a request. Where the reader thread answers it, it has taken the request off the map
  -- of active ones, and where it sends an error, at its end, it has taken off all of them. Otherwise
  -- `discard_pending_request` takes the request off; after a failed write nothing does.
  unfoldable pub await :
      Command → AmsAddr → ℕ → List Bytes → Arrival → Client → Result Output × Client
  await cmd target id result_bufs (write_failed n e) c =
      (err (io "dispatching assembled command payload" e), c)
  await cmd target id result_bufs (received h payload) c =
      (accept cmd target id result_bufs h payload, record c { pending = remove_id id c.pending })
  await cmd target id result_bufs (failed e) c = (err e, record c { pending = [] })
  await cmd target id result_bufs disconnected c = (
    err (io_sync wait_context "response channel was closed" id),
    record c { pending = remove_id id c.pending },
  )
  await cmd target id result_bufs Action.timed_out c =
      (err (io wait_context (of_kind timed_out)), record c { pending = remove_id id c.pending })

  -- `Client::communicate`. A request whose length does not fit 32 bits is refused after its invoke
  -- ID has been taken.
  unfoldable pub communicate : Command → AmsAddr → List Bytes → List Bytes → Action Output
  communicate cmd target payload_bufs result_bufs c =
      let id = c.invoke_id in
      let payload_len = total_length payload_bufs in
      let taken : Client = record c { invoke_id = (id + 1) % 2 ^ 32 } in
      let packet =
        as_bytes (request_header c.source cmd target payload_len id) ++ concat payload_bufs in
      let dispatched : Client = record c {
        invoke_id = (id + 1) % 2 ^ 32;
        pending = insert_id id c.pending;
        sent = written (next_arrival c.arrivals) packet ∷ c.sent;
        arrivals = later_arrivals c.arrivals;
      } in
      if ltb (32 + payload_len) (2 ^ 32)
      then await cmd target id result_bufs (next_arrival c.arrivals) dispatched
      else (err overflow, taken)
