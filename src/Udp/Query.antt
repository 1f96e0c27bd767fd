-- ===== src/Udp/Query.antt =====
-- udp.rs: the queries that are made of an exchange of messages: adding a route, and asking for the
-- NetID of a system and for information about it.
pub mod Packet
use ads_rs.Prelude.{
  ℕ, zero, suc, ◌+◌, ◌-◌, ◌%◌, ◌^◌, ◌≡◌, refl, String, Bool, true, false, ◌&&◌, not, ◌||◌, Option,
  none, some, List, [], ◌∷◌, ◌++◌, ltb, leb, ◌==◌, if◌then◌else◌, length, take, drop,
}
use Prim.Native.Nat.{bit_or}
use ads_rs.Wire.{Bytes, ByteOrder, read_u16, read_u32, or_panic}
use ads_rs.Errors.{Error, Result, ok, err, panic, reply, ◌>>=◌, ◌>>◌}
use ads_rs.Errors.Codes.{ads_error}
use ads_rs.NetId.{AmsNetId, AmsAddr, default_addr}
use ads_rs.Client.State.{codes}
use ads_rs.Client.Structs.{until_zero}
use ads_rs.Udp.{
  Message, identify, Tag, new, add_bytes, add_str, add_u32, parse_internal, get_bytes, get_str,
  get_u32, get_source, reply_bit, udp_context,
}
use ads_rs.Udp

-- The datagram that answers one that is sent, or the error of the socket.
abbrev pub Network : Type 0
Network = Bytes → Result Bytes

abbrev or_text : Option Bytes → Bytes → Bytes
or_text none default = default
or_text (some text) default = text

-- The arguments of `add_route`.
pub record Route : Type 0 where
  pub netid : AmsNetId
  pub host : Bytes
  pub routename : Option Bytes
  pub username : Option Bytes
  pub password : Option Bytes
  pub temporary : Bool

-- The numbers and the text that an `OSVERSIONINFO` holds; a text is its code points.
pub record OsVersion : Type 0 where
  pub platform : String
  pub major : ℕ
  pub minor : ℕ
  pub build : ℕ
  pub service_pack : List ℕ

pub record SysInfo : Type 0 where
  pub netid : AmsNetId
  pub hostname : Bytes
  pub twincat_version : ℕ × ℕ × ℕ
  pub os_version : OsVersion
  pub fingerprint : Bytes

abbrev pub platform_name : ℕ → String
platform_name n =
    if n == 0
    then "TwinCAT/BSD"
    else if n == 1
    then "TC/RTOS"
    else if n == 2
    then "Windows NT"
    else if n == 3
    then "Windows CE"
    else "Unknown platform"

abbrev plain : String → OsVersion
plain name = record { platform = name; major = 0; minor = 0; build = 0; service_pack = [] }

-- `char::from_u32(ch)` is defined for a 16-bit unit that is no surrogate.
abbrev pub is_char : ℕ → Bool
is_char ch = ltb ch 0xD800 || leb 0xE000 ch

module _ ⦃bo : ByteOrder⦄ where
  -- `Message::send_receive`; the buffer for the reply has 576 bytes.
  unfoldable pub send_receive : Network → Message → Result Message
  send_receive network m = do
    answer ← network m.raw
    parse_internal (take 576 answer) (bit_or (bo.read_int (take 4 (drop 8 m.raw))) reply_bit)

  -- The message of `add_route`.
  unfoldable pub route_message : Route → Message
  route_message r =
      let start = new Udp.add_route (record { netid = r.netid; port = 0 }) in
      let m = add_bytes start Tag.net_id r.netid.octets in
      let m = add_str m Tag.computer_name r.host in
      let m = add_str m Tag.user_name (or_text r.username (codes "Administrator")) in
      let m = add_str m Tag.password (or_text r.password (codes "1")) in
      let m = add_str m Tag.route_name (or_text r.routename r.host) in
      if r.temporary then add_u32 m Tag.options 1 else m

  abbrev pub route_status : Option ℕ → Result (Unit {0})
  route_status none = err (reply "setting route" "no status in reply" 0)
  route_status (some n) = if n == 0 then ok tt else ads_error "setting route" n

  unfoldable pub add_route : Network → Route → Result (Unit {0})
  unfolding route_message send_receive
  add_route network r = do
    answer ← send_receive network (route_message r)
    status ← get_u32 answer Tag.status
    route_status status

  unfoldable pub get_netid : Network → Result AmsNetId
  unfolding send_receive
  get_netid network = do
    answer ← send_receive network (new identify default_addr)
    source ← get_source answer
    ok source.netid

  unfoldable pub twincat_version_of : Bytes → ℕ × ℕ × ℕ
  twincat_version_of tcver =
      if leb 4 (length tcver)
      then (
        bo.read_int (take 1 tcver),
        bo.read_int (take 1 (drop 1 tcver)),
        bo.read_int (take 2 (drop 2 tcver)),
      )
      else (0, 0, 0)

  -- `from_fn(|| read_u16().ok()).take_while(|&ch| ch != 0).filter_map(char::from_u32)`; half of the
  -- length and one is fuel enough.
  unfoldable pub wide_text : ℕ → Bytes → List ℕ
  wide_text zero bytes = []
  wide_text (suc fuel) bytes = elim (read_u16 udp_context bytes) [
    | err e ↦ []
    | panic ↦ []
    | ok (ch, bytes) ↦
        (let rest = wide_text fuel bytes in
          if ch == 0 then [] else if is_char ch then ch ∷ rest else rest)
  ]

  abbrev text_for : ℕ → Bytes → List ℕ
  text_for platform bytes =
      if platform == 1
      then until_zero bytes
      else if platform == 0
      then []
      else wide_text (length bytes + 1) bytes

  abbrev expect {ℓ} : {A : Type ℓ} → Result A → Result A
  expect (ok a) = ok a
  expect (err e) = panic
  expect panic = panic

  -- The decoding of the operating system's version; each read is one that cannot fail.
  unfoldable pub os_version_of : Bytes → Result OsVersion
  os_version_of bytes =
      if leb 22 (length bytes)
      then (do
        (_size, bytes) ← expect (read_u32 udp_context bytes)
        (major, bytes) ← expect (read_u32 udp_context bytes)
        (minor, bytes) ← expect (read_u32 udp_context bytes)
        (build, bytes) ← expect (read_u32 udp_context bytes)
        (platform, bytes) ← expect (read_u32 udp_context bytes)
        ok (record {
          platform = platform_name platform;
          major = major;
          minor = minor;
          build = build;
          service_pack = text_for platform bytes;
        }))
      else ok (plain "Unknown OS info format")

  abbrev os_version_from : Option Bytes → Result OsVersion
  os_version_from none = ok (plain "No OS info")
  os_version_from (some bytes) = os_version_of bytes

  unfoldable pub get_info : Network → Result SysInfo
  unfolding send_receive twincat_version_of os_version_of
  get_info network = do
    answer ← send_receive network (new identify default_addr)
    tcver ← get_bytes answer Tag.tc_version
    os_bytes ← get_bytes answer Tag.os_version
    os_version ← os_version_from os_bytes
    source ← get_source answer
    hostname ← get_str answer Tag.computer_name
    fingerprint ← get_str answer Tag.fingerprint
    ok (record {
      netid = source.netid;
      hostname = or_text hostname (codes "unknown");
      twincat_version = twincat_version_of (or_text tcver []);
      os_version = os_version;
      fingerprint = or_text fingerprint [];
    })
