-- ===== src/Client/Reader.antt =====
-- client.rs: the reader thread, which takes packets off the connection and distributes them.
pub mod Packet
pub mod Finish
pub mod Owed
pub mod Once
pub mod Served
use ads_rs.Prelude.{
  ℕ, zero, suc, ◌+◌, ◌-◌, ◌^◌, ◌≡◌, refl, String, Bool, true, false, ◌&&◌, ◌||◌, not, List, [], ◌∷◌,
  ◌++◌, map, ltb, leb, ◌==◌, if◌then◌else◌, length, take, drop,
}
use ads_rs.Wire.{Bytes, ByteOrder, read_exact, split_at}
use ads_rs.Errors.{
  io, ads, task_info_layout, task_info_invalidated, overflow, other, Error, Result, ok, err, panic,
  reply, io_sync, clone, ensure, ◌>>=◌, ◌>>◌,
}
use ads_rs.NetId.{AmsAddr, addr_eq}
use ads_rs.Client.Command.{code, notification}
use ads_rs.Client.Header.{AdsHeader, read_from_bytes}
use ads_rs.Client.Action.{mem_id, insert_id, remove_id}
use ads_rs.Notif
use ads_rs.Notif.{Notification}

-- What one round of the loop does besides reading: nothing, or a response that is sent to the
-- thread that made the request, or a notification that is sent to its channel.
pub data Delivery : Type 0 where
  nothing : Delivery
  settle : ℕ → AdsHeader → Bytes → Delivery
  notify : Notification → Delivery

abbrev pub interpret_context : String
interpret_context = "interpreting received AMS packet"

abbrev pub settle_context : String
settle_context = "settling pending request"

-- The address that a header names as its destination.
abbrev pub dest_of : AdsHeader → AmsAddr
dest_of h = record { netid = h.dest_netid; port = h.dest_port }

-- Which requests are active, and whether the thread that made one still waits.
pub record Waiting : Type 0 where
  pub pending : List ℕ
  pub alive : ℕ → Bool

-- What the threads of the client do to the shared map of active requests: a request is inserted, or
-- discarded, or its thread no longer waits.
pub data Change : Type 0 where
  inserted : ℕ → Change
  discarded : ℕ → Change
  abandoned : ℕ → Change

unfoldable pub apply : Change → Waiting → Waiting
apply (inserted id) w = record {
  pending = insert_id id w.pending;
  alive = λ j. if j == id then true else w.alive j;
}
apply (discarded id) w = record w { pending = remove_id id w.pending }
apply (abandoned id) w = record w { alive = λ j. if j == id then false else w.alive j }

abbrev pub apply_all : List Change → Waiting → Waiting
apply_all [] w = w
apply_all (c ∷ cs) w = apply_all cs (apply c w)

-- The changes before this round, and those before the later ones.
abbrev pub now : List (List Change) → List Change
now [] = []
now (cs ∷ css) = cs

abbrev pub later : List (List Change) → List (List Change)
later [] = []
later (cs ∷ css) = css

-- The branch for a packet that is no notification.
unfoldable pub settle_reply : Waiting → AdsHeader → Bytes → Result Delivery
settle_reply w h payload =
    if mem_id h.invoke_id w.pending
    then (if w.alive h.invoke_id
        then ok (settle h.invoke_id h payload)
        else err (io_sync settle_context "channel closed, couldn't dispatch response" h.invoke_id))
    else err (
        reply settle_context "invalid invoke id received from server, aborting connection"
          h.invoke_id)

-- `if let Ok(notif) = …`
abbrev pub of_parsed : Result Notification → Result Delivery
of_parsed (ok n) = ok (notify n)
of_parsed (err e) = ok nothing
of_parsed panic = panic

module _ ⦃bo : ByteOrder⦄ where
  -- The branch for a notification. `LE::read_u32(&payload_buf)` panics at fewer than four bytes, so
  -- the subtraction of four behind it does not wrap.
  unfoldable pub take_notification : AdsHeader → Bytes → Bytes → Result Delivery
  take_notification h head payload = do
    (raw, _rest) ← split_at 4 payload
    let notif_payload_len = bo.read_int raw
    if not (h.state_flags == 4)
          || not (h.error_code == 0)
          || not (notif_payload_len == length payload - 4)
          || ltb notif_payload_len 4
        then ok nothing
        else of_parsed (Notif.new (head ++ payload))

  -- The destination and the command decide what is done with a consistent ADS packet.
  unfoldable pub dispatch : AmsAddr → Waiting → AdsHeader → Bytes → Bytes → Result Delivery
  dispatch source w h head payload =
      if not (addr_eq (dest_of h) source)
      then ok nothing
      else if not (h.command == code notification)
      then settle_reply w h payload
      else take_notification h head payload

  -- The tests behind the payload: the reserved bytes, and the two lengths. The length in the first
  -- header is at least 32 here.
  unfoldable pub interpret : AmsAddr → Waiting → ℕ → ℕ → AdsHeader → Bytes → Bytes → Result Delivery
  interpret source w reserved packet_len h head payload =
      if reserved == 0
      then (if h.data_length == packet_len - 32
          then dispatch source w h head payload
          else err
              (reply interpret_context "AMS/TCP header and AMS header contain inconsistent data" 0))
      else if reserved == 1 || leb 4096 reserved && leb reserved 4098
      then ok nothing
      else err (reply interpret_context "invalid packet" reserved)

  -- A packet whose length covers an AMS header; `start` is its first six bytes.
  unfoldable pub read_packet : AmsAddr → Waiting → ℕ → ℕ → Bytes → Bytes → Result (Delivery × Bytes)
  read_packet source w reserved packet_len start stream = do
    (rest_of_head, stream) ← read_exact 32 "receiving AMS header" stream
    h ← read_from_bytes (start ++ rest_of_head)
    (payload, stream) ← read_exact h.data_length "receiving Ads data payload" stream
    delivery ← interpret source w reserved packet_len h (start ++ rest_of_head) payload
    ok (delivery, stream)

  -- One round of the loop of `reader_work`, on the bytes that the connection has yet to bring.
  unfoldable pub read_one : AmsAddr → Waiting → Bytes → Result (Delivery × Bytes)
  read_one source w stream = do
    (start, stream) ← read_exact 6 "receiving AMS/TCP header" stream
    (raw_reserved, raw_len) ← split_at 2 start
    let packet_len = bo.read_int raw_len
    if ltb packet_len 32
        then (do
          (_discard, stream) ← read_exact packet_len "discarding bad data" stream
          ok (nothing, stream))
        else read_packet source w (bo.read_int raw_reserved) packet_len start stream

  abbrev pub after : Delivery → Waiting → Waiting
  after nothing w = w
  after (settle id h payload) w = record w { pending = remove_id id w.pending }
  after (notify n) w = w

  -- The request that `settle_reply` could not answer is off the map all the same. No other error of
  -- a round is an `IoSync`, whose number is the invoke ID.
  abbrev pub after_error : Error → Waiting → Waiting
  after_error (io_sync context text id) w = record w { pending = remove_id id w.pending }
  after_error (io context e) w = w
  after_error (ads context text n) w = w
  after_error (reply context text n) w = w
  after_error (task_info_layout reason) w = w
  after_error task_info_invalidated w = w
  after_error overflow w = w
  after_error (other text) w = w

  abbrev pub Ending : Type 0
  Ending = List Delivery × Result (Unit {0}) × Waiting

  abbrev pub with_delivery : Delivery → Ending → Ending
  with_delivery d (ds, end, w) = (d ∷ ds, end, w)

  -- A round that fails ends the loop.
  abbrev pub next_round : Result (Delivery × Bytes) → Waiting → (Waiting → Bytes → Ending) → Ending
  next_round (ok (d, rest)) w loop = with_delivery d (loop (after d w) rest)
  next_round (err e) w loop = ([], err e, after_error e w)
  next_round panic w loop = ([], panic, w)

  -- `reader_work` on a connection that brings these bytes and then ends, with the changes that other
  -- threads make before each round looks at the map: what it delivers, how it ends, and the requests
  -- that are then active. Each round takes six bytes at least.
  unfoldable pub reader_work : ℕ → AmsAddr → List (List Change) → Waiting → Bytes → Ending
  unfolding apply
  reader_work zero source changes w stream = ([], panic, w)
  reader_work (suc fuel) source changes w stream =
      let w' = apply_all (now changes) w in
      next_round (read_one source w' stream) w'
        (λ w'' rest. reader_work fuel source (later changes) w'' rest)

-- What the thread that made a request is sent when the connection ends.
pub record Farewell : Type 0 where
  pub id : ℕ
  pub error : Error

abbrev farewell_error : Result (Unit {0}) → Error
farewell_error (ok u) = reply "handling clean shutdown" "pending request at client shutdown" 0
farewell_error (err e) = clone e
farewell_error panic = reply "handling clean shutdown" "pending request at client shutdown" 0

-- The requests whose threads still wait: to the others nothing can be sent.
abbrev pub waiting_ids : (ℕ → Bool) → List ℕ → List ℕ
waiting_ids alive [] = []
waiting_ids alive (id ∷ ids) =
    if alive id then id ∷ waiting_ids alive ids else waiting_ids alive ids

abbrev farewells : Error → Waiting → List Farewell
farewells e w = map (λ id. record { id = id; error = e }) (waiting_ids w.alive w.pending)

-- The end of the thread of `ClientReceiver::start`: every active request is taken off the map and
-- sent the error of the connection. A panic ends the thread before that.
unfoldable pub finish : Result (Unit {0}) → Waiting → List Farewell × Waiting
finish panic w = ([], w)
finish (ok u) w = (farewells (farewell_error (ok u)) w, record w { pending = [] })
finish (err e) w = (farewells (farewell_error (err e)) w, record w { pending = [] })
