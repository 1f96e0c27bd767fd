-- ===== src/Client/Requests.antt =====
-- client.rs: the single requests of a sum-up request, and what they hold after it.
use ads_rs.Prelude.{ℕ, ◌%◌, ◌^◌, leb, ◌==◌, if◌then◌else◌, String, length, take}
use ads_rs.Wire.{Bytes}
use ads_rs.Errors.{Result, ok, assert, ◌>>◌}
use ads_rs.Errors.Codes.{ads_error}
use ads_rs.Notif.Attributes.{Attributes, trans_mode_code, as_millis}
use ads_rs.Client.Structs.{IndexLength, IndexLengthRw, ResultLength, AddNotif}

pub record ReadRequest : Type 0 where
  pub req : IndexLength
  pub res : ResultLength
  pub rbuf : Bytes

pub record WriteRequest : Type 0 where
  pub req : IndexLength
  pub res : ℕ
  pub wbuf : Bytes

pub record WriteReadRequest : Type 0 where
  pub req : IndexLengthRw
  pub res : ResultLength
  pub wbuf : Bytes
  pub rbuf : Bytes

-- `AddNotifRequest`; the length of its result is the handle. Its identifier is only kept.
pub record AddNotifRequest {ℓ} (Key : Type ℓ) : Type ℓ where
  pub req : AddNotif
  pub res : ResultLength
  pub id : Key

pub record DelNotifRequest : Type 0 where
  pub req : ℕ
  pub res : ℕ

abbrev zeroed : ResultLength
zeroed = record { result = 0; length_ = 0 }

unfoldable pub read_request : ℕ → ℕ → Bytes → ReadRequest
read_request index_group index_offset buf = record {
  req = record {
    index_group = index_group;
    index_offset = index_offset;
    length_ = length buf % 2 ^ 32;
  };
  res = zeroed;
  rbuf = buf;
}

unfoldable pub write_request : ℕ → ℕ → Bytes → WriteRequest
write_request index_group index_offset buf = record {
  req = record {
    index_group = index_group;
    index_offset = index_offset;
    length_ = length buf % 2 ^ 32;
  };
  res = 0;
  wbuf = buf;
}

unfoldable pub write_read_request : ℕ → ℕ → Bytes → Bytes → WriteReadRequest
write_read_request index_group index_offset write_buffer read_buffer = record {
  req = record {
    index_group = index_group;
    index_offset = index_offset;
    read_length = length read_buffer % 2 ^ 32;
    write_length = length write_buffer % 2 ^ 32;
  };
  res = zeroed;
  wbuf = write_buffer;
  rbuf = read_buffer;
}

unfoldable pub add_notif_request : ℕ → ℕ → Attributes → AddNotifRequest (Unit {0})
add_notif_request index_group index_offset attributes = record {
  req = record {
    index_group = index_group;
    index_offset = index_offset;
    length_ = attributes.length_ % 2 ^ 32;
    trans_mode = trans_mode_code attributes.trans_mode;
    max_delay = as_millis attributes.max_delay % 2 ^ 32;
    cycle_time = as_millis attributes.cycle_time % 2 ^ 32;
  };
  res = zeroed;
  id = tt;
}

unfoldable pub with_id {ℓ κ} :
    {Key : Type ℓ} {NewId : Type κ} → AddNotifRequest Key → NewId → AddNotifRequest NewId
with_id r new_id = record { req = r.req; res = r.res; id = new_id }

unfoldable pub del_notif_request : ℕ → DelNotifRequest
del_notif_request handle = record { req = handle; res = 0 }

-- The bytes that a result announces, a slice of the buffer.
abbrev announced : String → ResultLength → Bytes → Result Bytes
announced context res rbuf =
    if res.result == 0
    then (do assert (leb res.length_ (length rbuf)); ok (take res.length_ rbuf))
    else ads_error context res.result

-- `ReadRequest::data`
unfoldable pub read_data : ReadRequest → Result Bytes
read_data r = announced "multi-read data" r.res r.rbuf

-- `WriteRequest::ensure`
unfoldable pub write_ensure : WriteRequest → Result (Unit {0})
write_ensure r = if r.res == 0 then ok tt else ads_error "multi-write data" r.res

-- `WriteReadRequest::data`
unfoldable pub write_read_data : WriteReadRequest → Result Bytes
write_read_data r = announced "multi-read/write data" r.res r.rbuf

-- `AddNotifRequest::handle`
unfoldable pub handle_of {ℓ} : {Key : Type ℓ} → AddNotifRequest Key → Result ℕ
handle_of r =
    if r.res.result == 0 then ok r.res.length_ else ads_error "multi-read/write data" r.res.result

-- `AddNotifRequest::into_id_handle`
unfoldable pub into_id_handle {ℓ} : {Key : Type ℓ} → AddNotifRequest Key → Key × Result ℕ
unfolding handle_of
into_id_handle r = (r.id, handle_of r)

-- `DelNotifRequest::ensure`
unfoldable pub del_ensure : DelNotifRequest → Result (Unit {0})
del_ensure r = if r.res == 0 then ok tt else ads_error "multi-read/write data" r.res
