-- ===== src/Udp.antt =====
-- udp.rs: messages of the UDP protocol, their construction and their parser.
pub mod Builder
pub mod Items
pub mod RoundTrip
pub mod Truncated
pub mod Parse
pub mod Query
mod Tests
use ads_rs.Prelude.{
  ℕ, zero, suc, ◌+◌, ◌-◌, ◌%◌, ◌^◌, ◌≡◌, refl, String, Bool, true, false, ◌&&◌, not, Option, none,
  some, List, [], ◌∷◌, ◌++◌, arith, leb, ◌==◌, if◌then◌else◌, length, take, drop,
}
use Prim.Native.Nat.{bit_or}
use ads_rs.Wire.{
  Bytes, ByteOrder, concat, read_uint, read_u16, read_u32, write_u16, write_u32, split_at,
}
use ads_rs.Errors.{Error, Result, ok, err, panic, reply, ensure, ◌>>=◌, ◌>>◌}
use ads_rs.NetId.{AmsNetId, AmsAddr, read_from}
use ads_rs.Text.Utf8.{from_utf8}

abbrev pub beckhoff_udp_magic : ℕ
beckhoff_udp_magic = 0x71146603

-- An entry of `items`: a tag, and the range of its data in the packet.
pub record Item : Type 0 where
  pub tag : ℕ
  pub first : ℕ
  pub last : ℕ

pub record Message : Type 0 where
  pub items : List Item
  pub raw : Bytes

pub data ServiceId : Type 0 where
  identify add_route : ServiceId

-- `service as u32`
abbrev pub service_code : ServiceId → ℕ
service_code identify = 1
service_code add_route = 6

pub data Tag : Type 0 where
  status password tc_version os_version computer_name net_id options route_name user_name
        fingerprint :
      Tag

-- `tag as u16`
abbrev pub tag_code : Tag → ℕ
tag_code status = 1
tag_code password = 2
tag_code tc_version = 3
tag_code os_version = 4
tag_code computer_name = 5
tag_code net_id = 7
tag_code options = 9
tag_code route_name = 12
tag_code user_name = 13
tag_code fingerprint = 18

abbrev pub reply_bit : ℕ
reply_bit = 0x80000000

abbrev pub udp_context : String
udp_context = "parsing UDP packet"

-- `&data[i..j]`
unfoldable pub slice : ℕ → ℕ → Bytes → Result Bytes
slice i j raw = if leb i j && leb j (length raw) then ok (take (j - i) (drop i raw)) else panic

-- `items.iter().find(|item| item.0 == tag as u16)`
unfoldable pub find_item : ℕ → List Item → Option Item
find_item tag [] = none
find_item tag (item ∷ items) = if item.tag == tag then some item else find_item tag items

abbrev pub map_item {ℓ} :
    {O : Type ℓ} → Bytes → Option Item → (Bytes → Result (Option O)) → Result (Option O)
map_item raw none f = ok none
map_item raw (some item) f = slice item.first item.last raw >>= f

-- `Message::map_tag`. The function may panic, as that of `get_str` does.
unfoldable pub map_tag {ℓ} :
    {O : Type ℓ} → Message → Tag → (Bytes → Result (Option O)) → Result (Option O)
map_tag m tag f = map_item m.raw (find_item (tag_code tag) m.items) f

unfoldable pub get_bytes : Message → Tag → Result (Option Bytes)
unfolding map_tag
get_bytes m tag = map_tag m tag (λ b. ok (some b))

-- `&b[..b.len() - 1]`, which panics at an empty `b`.
unfoldable pub drop_terminator : Bytes → Result Bytes
drop_terminator [] = panic
drop_terminator (b ∷ bs) = ok (take (length bs) (b ∷ bs))

unfoldable pub get_str : Message → Tag → Result (Option Bytes)
unfolding map_tag drop_terminator
get_str m tag = map_tag m tag (λ b. do text ← drop_terminator b; ok (from_utf8 text))

-- The three tests of `parse_internal`, in their order.
unfoldable pub check_ids : ℕ → ℕ → ℕ → ℕ → Result (Unit {0})
check_ids magic invoke_id rep_service exp_service = do
  ensure (magic == beckhoff_udp_magic) (reply udp_context "invalid magic" magic)
  ensure (invoke_id == 0) (reply udp_context "invalid invoke ID" invoke_id)
  ensure (rep_service == exp_service) (reply udp_context "invalid service ID" rep_service)

module _ ⦃bo : ByteOrder⦄ where
  unfoldable pub header : ℕ → AmsAddr → ℕ → Bytes
  header service source num_items = concat (
      write_u32 beckhoff_udp_magic
      ∷ write_u32 0
      ∷ write_u32 service
      ∷ source.netid.octets
      ∷ write_u16 source.port
      ∷ write_u32 num_items
      ∷ [])

  unfoldable pub new : ServiceId → AmsAddr → Message
  new service source = record { items = []; raw = header (service_code service) source 0 }

  -- `LE::write_u32(&mut self.data[at..], v)`, for a packet that is long enough.
  unfoldable pub put_u32 : ℕ → ℕ → Bytes → Bytes
  put_u32 at v raw = take at raw ++ (write_u32 v ++ drop (at + 4) raw)

  -- The common end of `add_bytes`, `add_str` and `add_u32`: the tag, the length that is declared,
  -- the content, the new item and the number of items. The item's range starts before the length.
  unfoldable pub add : Message → Tag → ℕ → Bytes → Message
  add m tag len content =
      let tagged = m.raw ++ write_u16 (tag_code tag) in
      let full = tagged ++ (write_u16 len ++ content) in
      let items =
        m.items
        ++ (record { tag = tag_code tag; first = length tagged; last = length full } ∷ []) in
      record { items = items; raw = put_u32 20 (length items % 2 ^ 32) full }

  unfoldable pub add_bytes : Message → Tag → Bytes → Message
  unfolding add
  add_bytes m tag content = add m tag (length content % 2 ^ 16) content

  -- The length is computed in 16 bits, with the wrap of a release build.
  unfoldable pub add_str : Message → Tag → Bytes → Message
  unfolding add
  add_str m tag text = add m tag ((length text % 2 ^ 16 + 1) % 2 ^ 16) (text ++ (0 ∷ []))

  unfoldable pub add_u32 : Message → Tag → ℕ → Message
  unfolding add
  add_u32 m tag v = add m tag 4 (write_u32 v)

  -- The loop of `parse_internal`, which ends where no tag can be read. Each round takes four bytes
  -- at least, so the length of the slice and one is fuel enough.
  unfoldable pub read_items : ℕ → ℕ → Bytes → Result (List Item)
  read_items zero pos ptr = panic
  read_items (suc fuel) pos ptr = elim (read_u16 udp_context ptr) [
    | err e ↦ ok []
    | panic ↦ panic
    | ok (tag, ptr) ↦ (do
      (len, ptr) ← read_u16 udp_context ptr
      (_content, ptr) ← split_at len ptr
      items ← read_items fuel (pos + (len + 4)) ptr
      ok (record { tag = tag; first = pos; last = pos + len } ∷ items))
  ]

  -- The header: magic number, invoke ID, service, source, and the slice behind the item count.
  unfoldable pub check_header : Bytes → ℕ → Result Bytes
  check_header raw exp_service = do
    (magic, ptr) ← read_u32 udp_context raw
    (invoke_id, ptr) ← read_u32 udp_context ptr
    (rep_service, ptr) ← read_u32 udp_context ptr
    check_ids magic invoke_id rep_service exp_service
    (_src, ptr) ← read_from udp_context ptr
    (_nitems, ptr) ← read_u32 udp_context ptr
    ok ptr

  unfoldable pub parse_internal : Bytes → ℕ → Result Message
  parse_internal raw exp_service = do
    ptr ← check_header raw exp_service
    items ← read_items (length ptr + 1) 28 ptr
    ok (record { items = items; raw = raw })

  unfoldable pub parse : Bytes → ServiceId → Bool → Result Message
  unfolding parse_internal
  parse raw exp_service is_reply =
      parse_internal raw (bit_or (service_code exp_service) (if is_reply then reply_bit else 0))

  abbrev value_of : Result (ℕ × Bytes) → Option ℕ
  value_of (ok (v, rest)) = some v
  value_of (err e) = none
  value_of panic = none

  unfoldable pub get_u32 : Message → Tag → Result (Option ℕ)
  unfolding map_tag
  get_u32 m tag = map_tag m tag (λ b. ok (value_of (read_u32 udp_context b)))

  -- `AmsAddr::read_from(&mut &data[12..20]).expect("size")`
  unfoldable pub get_source : Message → Result AmsAddr
  get_source m = do
    range ← slice 12 20 m.raw
    elim (read_from udp_context range) [ ok (addr, rest) ↦ ok addr | err e ↦ panic | panic ↦ panic ]
