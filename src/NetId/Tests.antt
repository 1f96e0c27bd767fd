-- ===== src/NetId/Tests.antt =====
-- Concrete NetIDs and addresses.
use ads_rs.Prelude.{◌≡◌, refl, [], ◌∷◌, arith}
use ads_rs.Wire.{ByteOrder}
use ads_rs.Wire.LittleEndian.{little_endian}
use ads_rs.Text.Join.{joining}
use ads_rs.NetId.{AmsNetId, IsNetId, AmsAddr, IsAddr, parsed, addr_from_str, addr_display}
use ads_rs.NetId.Parse.{addr_from_str-addr_display}

instance abbrev byte_order : ByteOrder
byte_order = little_endian

abbrev pub plc : AmsNetId
plc = record { octets = 5 ∷ 62 ∷ 215 ∷ 36 ∷ 1 ∷ 1 ∷ [] }

pub plc-IsNetId : IsNetId plc
plc-IsNetId = record {
  six = refl;
  bytes =
      (omega arith, (omega arith, (omega arith, (omega arith, (omega arith, (omega arith, tt))))));
}

abbrev pub plc_addr : AmsAddr
plc_addr = record { netid = plc; port = 851 }

pub plc_addr-IsAddr : IsAddr plc_addr
plc_addr-IsAddr = record { netid = plc-IsNetId; port = omega arith }

addr_from_str-addr_display_example :
    addr_from_str joining (addr_display joining plc_addr) ≡ parsed plc_addr
addr_from_str-addr_display_example = addr_from_str-addr_display joining plc_addr plc_addr-IsAddr
