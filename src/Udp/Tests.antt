-- ===== src/Udp/Tests.antt =====
-- Concrete UDP messages.
use ads_rs.Prelude.{◌≡◌, refl, true, false, Option, some, none, List, [], ◌∷◌, ◌++◌, arith}
use ads_rs.Wire.{split_at, Bytes, ByteOrder, write_u32, read_uint, read_exact}
use ads_rs.Wire.LittleEndian.{little_endian, le_bytes, le_value}
use ads_rs.Prelude.Split.{split_at?}
use ads_rs.Errors.{ok, panic}
use ads_rs.NetId.{read_from}
use ads_rs.NetId.Tests.{plc, plc-IsNetId, plc_addr, plc_addr-IsAddr}
use ads_rs.Client.State.{codes}
use ads_rs.Udp.{
  Message, identify, Tag, tag_code, service_code, header, new, add_bytes, get_bytes, get_str,
  find_item, slice, parse, parse_internal, check_header, check_ids, read_items,
}
use ads_rs.Udp
use ads_rs.Udp.Builder.{encode_entry, Entry, find_content, add_all, encode}
use ads_rs.Udp.RoundTrip.{parse-add_all, get_bytes-add_bytes}
use ads_rs.Udp.Truncated.{cut_item, parse_internal-cut}
use ads_rs.Udp.Parse.{HasHeader, text_of, parse_internal-safe}
use ads_rs.Udp.Query.{Route, route_message}
use ads_rs.Udp.Query.Packet.{parse-route_message}

instance abbrev byte_order : ByteOrder
byte_order = little_endian

abbrev entries : List Entry
entries = (Tag.computer_name, 80 ∷ 76 ∷ 67 ∷ []) ∷ (Tag.status, 0 ∷ []) ∷ []

parse-add_all_example :
    (m : Message) × (parse (add_all (new identify plc_addr) entries).raw identify false ≡ ok m)
    × ((t : Tag) → get_bytes m t ≡ ok (find_content (tag_code t) entries))
parse-add_all_example =
    parse-add_all identify plc_addr plc_addr-IsAddr entries (omega arith, (omega arith, tt))

get_bytes-add_bytes_example :
    get_bytes (add_bytes (new identify plc_addr) Tag.status (1 ∷ 2 ∷ [])) Tag.status
    ≡ ok (some (2 ∷ 0 ∷ 1 ∷ 2 ∷ []))
unfolding le_bytes
get_bytes-add_bytes_example =
    get_bytes-add_bytes identify plc_addr plc_addr-IsAddr Tag.status (1 ∷ 2 ∷ [])

parse_internal-cut_example :
    parse_internal
      (header (service_code identify) plc_addr 2
        ++ (encode entries ++ cut_item 5 3 (80 ∷ []) (omega arith) (omega arith) (omega arith)))
      (service_code identify)
    ≡ panic
parse_internal-cut_example =
    parse_internal-cut 5 3 (80 ∷ []) (omega arith) (omega arith) (omega arith) identify plc_addr 2
      entries plc_addr-IsAddr (omega arith) (omega arith, (omega arith, tt))

-- A packet with an item of three bytes, and one of none.
abbrev query : Message
query = record {
  items =
      record { tag = tag_code Tag.computer_name; first = 28; last = 31 }
      ∷ record { tag = tag_code Tag.status; first = 35; last = 35 }
      ∷ [];
  raw =
      header (service_code identify) plc_addr 2
      ++ encode ((Tag.computer_name, 80 ∷ 76 ∷ 0 ∷ []) ∷ (Tag.status, []) ∷ []);
}

query-accepted : parse_internal query.raw 1 ≡ ok query
unfolding parse_internal check_header check_ids read_items read_from read_uint read_exact split_at?
    header encode encode_entry split_at le_bytes le_value
query-accepted = refl

parse_internal-safe_example :
    (query.raw ≡ query.raw)
    × ((tail : Bytes) × HasHeader query.raw 1 tail)
    × ((t : Tag) → (o : Option Bytes) × (get_bytes query t ≡ ok o) × (get_str query t ≡ text_of o))
parse_internal-safe_example = parse_internal-safe query.raw 1 query-accepted

abbrev route : Route
route = record {
  netid = plc;
  host = 80 ∷ 67 ∷ [];
  routename = none;
  username = none;
  password = some (120 ∷ []);
  temporary = true;
}

parse-route_message_example :
    (m : Message) × (parse (route_message route).raw Udp.add_route false ≡ ok m)
    × (get_bytes m Tag.net_id ≡ ok (some plc.octets))
    × (get_bytes m Tag.computer_name ≡ ok (some (80 ∷ 67 ∷ 0 ∷ [])))
    × (get_bytes m Tag.user_name ≡ ok (some (codes "Administrator" ++ (0 ∷ []))))
    × (get_bytes m Tag.password ≡ ok (some (120 ∷ 0 ∷ [])))
    × (get_bytes m Tag.route_name ≡ ok (some (80 ∷ 67 ∷ 0 ∷ [])))
    × (get_bytes m Tag.options ≡ ok (some (write_u32 1)))
unfolding le_bytes
parse-route_message_example =
    parse-route_message route plc-IsNetId
      (omega arith, (omega arith, (omega arith, (omega arith, (omega arith, (omega arith, tt))))))

-- The empty item has bytes, but makes no text.
empty_text : get_str query Tag.status ≡ panic
unfolding get_str header encode encode_entry le_bytes find_item slice
empty_text = refl
