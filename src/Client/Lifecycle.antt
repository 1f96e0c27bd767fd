-- ===== src/Client/Lifecycle.antt =====
-- client.rs: the source address that `Client::new` chooses.
pub mod Drop
pub mod Dropped
use ads_rs.Prelude.{
  ℕ, ◌+◌, ◌%◌, ◌^◌, ◌≡◌, refl, ap, ◌∙◌, Bool, true, false, Option, none, some, List, [], ◌∷◌, ◌++◌,
  if◌then◌else◌, length, take, drop,
}
use mathlib.Core.Path.{ap₂}
use ads_rs.Wire.{Bytes, ByteOrder, write_u16, write_u32, read_exact, concat}
use ads_rs.Errors.{Result, ok, panic, reply, ensure, ◌>>=◌, ◌>>◌}
use ads_rs.NetId.{AmsNetId, AmsAddr, new, from_slice, bytes_eq}
use ads_rs.Client.Command
use ads_rs.Client.Header.{as_bytes}

-- `Source`
pub data Source : Type 0 where
  addr : AmsAddr → Source
  auto request : Source

abbrev pub request_port_msg : Bytes
request_port_msg = 0 ∷ 16 ∷ 2 ∷ 0 ∷ 0 ∷ 0 ∷ 0 ∷ 0 ∷ []

abbrev reply_header : Bytes
reply_header = 0 ∷ 16 ∷ 8 ∷ 0 ∷ 0 ∷ 0 ∷ []

-- The source address, whether a port was opened for it, and what was written to the socket.
pub record Chosen : Type 0 where
  pub source : AmsAddr
  pub source_port_opened : Bool
  pub sent : List Bytes

abbrev or_panic_netid : Option AmsNetId → Result AmsNetId
or_panic_netid none = panic
or_panic_netid (some id) = ok id

module _ ⦃bo : ByteOrder⦄ where
  -- The source address of `Client::new`, for the socket's own address if that is an IPv4 one, and
  -- the bytes that the router sends; writing to the socket succeeds here.
  unfoldable pub choose_source : Source → Option (ℕ × ℕ × ℕ × ℕ) → Bytes → Result Chosen
  choose_source (addr id) ip stream =
      ok (record { source = id; source_port_opened = false; sent = [] })
  choose_source auto none stream = ok (record {
    source = record { netid = new 127 0 0 1 1 1; port = 58913 };
    source_port_opened = false;
    sent = [];
  })
  choose_source auto (some (a, b, c, d)) stream = ok (record {
    source = record { netid = new a b c d 1 1; port = 58913 };
    source_port_opened = false;
    sent = [];
  })
  choose_source request ip stream = do
    (answer, _stream) ← read_exact 14 "requesting port from router" stream
    ensure (bytes_eq (take 6 answer) reply_header)
        (reply "requesting port" "unexpected reply header" 0)
    netid ← or_panic_netid (from_slice (take 6 (drop 6 answer)))
    ok (record {
      source = record { netid = netid; port = bo.read_int (drop 12 answer) };
      source_port_opened = true;
      sent = request_port_msg ∷ [];
    })
