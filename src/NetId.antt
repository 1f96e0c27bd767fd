-- ===== src/NetId.antt =====
-- netid.rs: the AMS NetID and the AMS address, on the wire and as text.
pub mod Stream
pub mod Equal
pub mod Parse
pub mod Tests
use ads_rs.Prelude.{
  ℕ, zero, suc, ◌+◌, ◌^◌, ◌<◌, ◌≡◌, String, Bool, true, false, ◌&&◌, Option, none, some, List, [],
  ◌∷◌, ◌++◌, map, ltb, ◌==◌, if◌then◌else◌, length, set, replicate, All,
}
use ads_rs.Wire.{Bytes, IsByte, ByteOrder, read_exact, read_u16, write_u16}
use ads_rs.Errors.{Result, ok, err, panic, ◌>>=◌}
use ads_rs.Text.{Itertools, split}
use ads_rs.Text.Decimal.{to_string, parse_uint}

-- `AmsNetId([u8; 6])`
pub record AmsNetId : Type 0 where
  pub octets : Bytes

pub record IsNetId (id : AmsNetId) : Type 0 where
  pub six : length id.octets ≡ 6
  pub bytes : All IsByte id.octets

unfoldable pub new : ℕ → ℕ → ℕ → ℕ → ℕ → ℕ → AmsNetId
new a b c d e f = record { octets = a ∷ b ∷ c ∷ d ∷ e ∷ f ∷ [] }

unfoldable pub local : AmsNetId
local = record { octets = 127 ∷ 0 ∷ 0 ∷ 1 ∷ 1 ∷ 1 ∷ [] }

-- `AmsNetId::default()`
unfoldable pub default : AmsNetId
default = record { octets = replicate 6 0 }

unfoldable pub from_slice : Bytes → Option AmsNetId
from_slice slice = if length slice == 6 then some (record { octets = slice }) else none

-- The four octets of an `Ipv4Addr`, and two more.
unfoldable pub from_ip : ℕ × ℕ × ℕ × ℕ → ℕ → ℕ → AmsNetId
unfolding new
from_ip (a, b, c, d) e f = new a b c d e f

-- `==` on byte arrays.
unfoldable pub bytes_eq : Bytes → Bytes → Bool
bytes_eq [] [] = true
bytes_eq [] (b ∷ bs) = false
bytes_eq (a ∷ as') [] = false
bytes_eq (a ∷ as') (b ∷ bs) = a == b && bytes_eq as' bs

unfoldable pub is_zero : AmsNetId → Bool
unfolding bytes_eq
is_zero id = bytes_eq id.octets (replicate 6 0)

-- `AmsAddr(AmsNetId, AmsPort)`
pub record AmsAddr : Type 0 where
  pub netid : AmsNetId
  pub port : ℕ

pub record IsAddr (addr : AmsAddr) : Type 0 where
  pub netid : IsNetId addr.netid
  pub port : addr.port < 2 ^ 16

unfoldable pub addr_eq : AmsAddr → AmsAddr → Bool
unfolding bytes_eq
addr_eq a b = bytes_eq a.netid.octets b.netid.octets && a.port == b.port

-- `AmsAddr::default()`
unfoldable pub default_addr : AmsAddr
unfolding default
default_addr = record { netid = default; port = 0 }

module _ ⦃bo : ByteOrder⦄ where
  -- What `write_to` appends to the stream.
  unfoldable pub write_to : AmsAddr → Bytes
  write_to addr = addr.netid.octets ++ write_u16 addr.port

  -- `AmsAddr::read_from(&mut ptr).ctx(context)`
  unfoldable pub read_from : String → Bytes → Result (AmsAddr × Bytes)
  read_from context r = do
    (netid, r) ← read_exact 6 context r
    (port, r) ← read_u16 context r
    ok (record { netid = record { octets = netid }; port = port }, r)

-- The result of the `FromStr` implementations, whose errors are texts.
pub data Parsed {ℓ} (A : Type ℓ) : Type ℓ where
  parsed : A → Parsed A
  invalid : String → Parsed A

-- The loop of `AmsNetId::from_str`, at the part of index `i`.
set_parts : ℕ → List Bytes → Bytes → Parsed AmsNetId
set_parts i [] arr = parsed (record { octets = arr })
set_parts i (part ∷ parts) arr = elim (parse_uint 255 part) [
  | none ↦ invalid "invalid NetID string"
  | some byte ↦ elim (ltb i (length arr)) [
    | true ↦ set_parts (i + 1) parts (set arr i byte)
    | false ↦ invalid "invalid NetID string"
  ]
]

unfoldable pub from_str : Bytes → Parsed AmsNetId
unfolding set_parts
from_str s = set_parts 0 (split b'.' s) (replicate 6 1)

abbrev with_port : AmsNetId → Option ℕ → Parsed AmsAddr
with_port netid none = invalid "invalid port number"
with_port netid (some port) = parsed (record { netid = netid; port = port })

abbrev with_netid : Parsed AmsNetId → Bytes → Parsed AmsAddr
with_netid (invalid e) port = invalid e
with_netid (parsed netid) port = with_port netid (parse_uint 65535 port)

abbrev of_pair : Option (Bytes × Bytes) → Parsed AmsAddr
of_pair none = invalid "invalid AMS addr string"
of_pair (some (addr, port)) = with_netid (from_str addr) port

module _ (it : Itertools) where
  -- `Display for AmsNetId`
  unfoldable pub display : AmsNetId → Bytes
  display id = it.format (b'.' ∷ []) (map to_string id.octets)

  -- `FromStr for AmsAddr`
  unfoldable pub addr_from_str : Bytes → Parsed AmsAddr
  addr_from_str s = of_pair (it.collect_tuple (split b':' s))

  -- `Display for AmsAddr`
  unfoldable pub addr_display : AmsAddr → Bytes
  unfolding display
  addr_display addr = display addr.netid ++ (b':' ∷ to_string addr.port)
