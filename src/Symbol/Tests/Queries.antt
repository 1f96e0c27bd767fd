-- ===== src/Symbol/Tests/Queries.antt =====
-- Concrete queries of a device for symbols, types and handles.
use ads_rs.Prelude.{ℕ, ◌≡◌, refl, [], ◌∷◌, arith, replicate}
use ads_rs.Wire.{Bytes, write_u32}
use ads_rs.Errors.{ok}
use ads_rs.NetId.Tests.{plc_addr}
use ads_rs.Index.{get_symhandle_byname, release_symhandle}
use ads_rs.Client.Command.{code}
use ads_rs.Client.Command
use ads_rs.Client.Action.{Client, received}
use ads_rs.Client.Exchange.Response.{IsAnswer}
use ads_rs.Client.Tests.{byte_order, client_with, header_of, me}
use ads_rs.Symbol.Types.Layout.{type_entry, type_of_layout}
use ads_rs.Symbol.Cursor.Reads.{entry_bytes}
use ads_rs.Wire.LittleEndian.{le_bytes}
use ads_rs.Symbol.Members.Layout.{attributes_bytes, attribute_bytes, variants_bytes, variant_bytes}
use ads_rs.Symbol.Types.Layout.{field_bytes, prefix_bytes, parts_bytes, dimension_bytes, type_bytes}
use ads_rs.Symbol.Members.Values.{bits_of}
use ads_rs.Symbol.Table.{decode_symbol_info}
use ads_rs.Symbol.Table.RoundTrip.{table_bytes}
use ads_rs.Symbol.Access.{drop_handle, get_symbol_info, get_type_info_by_name, new}
use ads_rs.Symbol.Access.Answers.{
  get_symbol_info-answered, get_type_info_by_name-answered, info, response,
}
use ads_rs.Symbol.Access.Handles.{drop_handle-new}
use ads_rs.Client.Device.Sent.{write_packet, write_read_packet}
use ads_rs.Symbol.Tests.Data.{colour, colour-IsType}

answers_as :
    (cmd : Command.Command) (id : ℕ) → IsAnswer cmd plc_addr id (header_of (code cmd) 5 0 id)
answers_as cmd id = record {
  from = refl;
  command = refl;
  flags = refl;
  invoke_id = refl;
  no_error = refl;
}

abbrev symbol_table : Bytes
symbol_table = 1 ∷ 2 ∷ 3 ∷ []

abbrev type_table : Bytes
type_table = table_bytes type_entry (colour ∷ [])

abbrev first_info : Bytes
first_info = info (replicate 4 0) (replicate 4 0) (replicate 48 0) symbol_table type_table

abbrev uploading : Client
uploading = client_with (
    received (header_of (code Command.read) 5 0 7) (response first_info)
    ∷ received (header_of (code Command.read) 5 0 8) (response type_table)
    ∷ received (header_of (code Command.read) 5 0 9) (response symbol_table)
    ∷ [])

get_symbol_info-answered_example :
    (get_symbol_info plc_addr uploading).0 ≡ decode_symbol_info symbol_table type_table
unfolding type_bytes field_bytes prefix_bytes le_bytes parts_bytes dimension_bytes bits_of
    attributes_bytes attribute_bytes variants_bytes variant_bytes entry_bytes
get_symbol_info-answered_example =
    get_symbol_info-answered (replicate 4 0) (replicate 4 0) (replicate 48 0) symbol_table
      type_table plc_addr uploading refl (answers_as Command.read 7) (answers_as Command.read 8)
      (answers_as Command.read 9) refl refl refl (omega arith) (omega arith)

abbrev typed : Client
typed = client_with (
    received (header_of (code Command.read_write) 5 0 7)
      (response (entry_bytes (type_entry colour)))
    ∷ [])

get_type_info_by_name-answered_example :
    (get_type_info_by_name plc_addr (b'C' ∷ []) typed).0 ≡ ok (type_of_layout colour)
unfolding type_bytes field_bytes prefix_bytes le_bytes parts_bytes dimension_bytes bits_of
    attributes_bytes attribute_bytes variants_bytes variant_bytes entry_bytes
get_type_info_by_name-answered_example =
    get_type_info_by_name-answered plc_addr (b'C' ∷ []) colour typed colour-IsType refl
      (answers_as Command.read_write 7) (omega arith) (omega arith)

abbrev handing : Client
handing =
    client_with
      (received (header_of (code Command.read_write) 5 0 7) (response (write_u32 77)) ∷ [])

drop_handle-new_example :
    ((new plc_addr (b'v' ∷ []) handing).0 ≡ ok (record { addr = plc_addr; handle = 77 }))
    × ((drop_handle
          (record { addr = plc_addr; handle = 77 })
          (new plc_addr (b'v' ∷ []) handing).1).1.sent
        ≡ write_packet me plc_addr release_symhandle 0 (write_u32 77) 8
          ∷ write_read_packet me plc_addr get_symhandle_byname 0 (b'v' ∷ []) 4 7
          ∷ [])
drop_handle-new_example =
    drop_handle-new plc_addr (b'v' ∷ []) 77 handing refl (answers_as Command.read_write 7)
      (omega arith) (omega arith)
