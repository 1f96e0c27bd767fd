-- ===== src/Client/Header.antt =====
-- client.rs: `AdsHeader`, with its bytes.
use ads_rs.Prelude.{
  ℕ, ◌^◌, ◌<◌, ◌≡◌, String, [], ◌∷◌, ◌++◌, append_assoc, append-nil, arith, ◌==◌, if◌then◌else◌,
  length, length-append,
}
use ads_rs.Wire.{
  Bytes, ByteOrder, concat, read_exact, read_exact-append, read_u16, read_u32, read_uint-write_int,
  write_u16, write_u32,
}
use ads_rs.Errors.{Result, ok, err, io, of_kind, invalid_data, ◌>>=◌}
use ads_rs.NetId.{AmsNetId, IsNetId}

pub record AdsHeader : Type 0 where
  pub ams_cmd : ℕ
  pub length_ : ℕ
  pub dest_netid : AmsNetId
  pub dest_port : ℕ
  pub src_netid : AmsNetId
  pub src_port : ℕ
  pub command : ℕ
  pub state_flags : ℕ
  pub data_length : ℕ
  pub error_code : ℕ
  pub invoke_id : ℕ

-- The fields are in the range of their types.
pub record IsHeader (h : AdsHeader) : Type 0 where
  pub ams_cmd : h.ams_cmd < 2 ^ 16
  pub length_ : h.length_ < 2 ^ 32
  pub dest_netid : IsNetId h.dest_netid
  pub dest_port : h.dest_port < 2 ^ 16
  pub src_netid : IsNetId h.src_netid
  pub src_port : h.src_port < 2 ^ 16
  pub command : h.command < 2 ^ 16
  pub state_flags : h.state_flags < 2 ^ 16
  pub data_length : h.data_length < 2 ^ 32
  pub error_code : h.error_code < 2 ^ 32
  pub invoke_id : h.invoke_id < 2 ^ 32

abbrev pub header_context : String
header_context = "decoding AMS header"

module _ ⦃bo : ByteOrder⦄ where
  -- `header.as_bytes()`: the fields in their order, without padding.
  unfoldable pub as_bytes : AdsHeader → Bytes
  as_bytes h = concat (
      write_u16 h.ams_cmd
      ∷ write_u32 h.length_
      ∷ h.dest_netid.octets
      ∷ write_u16 h.dest_port
      ∷ h.src_netid.octets
      ∷ write_u16 h.src_port
      ∷ write_u16 h.command
      ∷ write_u16 h.state_flags
      ∷ write_u32 h.data_length
      ∷ write_u32 h.error_code
      ∷ write_u32 h.invoke_id
      ∷ [])

  -- The fields, and the bytes behind them.
  unfoldable pub read_fields : Bytes → Result (AdsHeader × Bytes)
  read_fields r = do
    (ams_cmd, r) ← read_u16 header_context r
    (len, r) ← read_u32 header_context r
    (dest_netid, r) ← read_exact 6 header_context r
    (dest_port, r) ← read_u16 header_context r
    (src_netid, r) ← read_exact 6 header_context r
    (src_port, r) ← read_u16 header_context r
    (command, r) ← read_u16 header_context r
    (state_flags, r) ← read_u16 header_context r
    (data_length, r) ← read_u32 header_context r
    (error_code, r) ← read_u32 header_context r
    (invoke_id, r) ← read_u32 header_context r
    ok (
      record {
        ams_cmd = ams_cmd;
        length_ = len;
        dest_netid = record { octets = dest_netid };
        dest_port = dest_port;
        src_netid = record { octets = src_netid };
        src_port = src_port;
        command = command;
        state_flags = state_flags;
        data_length = data_length;
        error_code = error_code;
        invoke_id = invoke_id;
      },
      r,
    )

  -- `AdsHeader::read_from_bytes(bytes)`, which refuses any number of bytes but 38.
  unfoldable pub read_from_bytes : Bytes → Result AdsHeader
  unfolding read_fields
  read_from_bytes bytes =
      if length bytes == 38
      then (do (header, _rest) ← read_fields bytes; ok header)
      else err (io header_context (of_kind invalid_data))

  pub read_fields-as_bytes :
      (h : AdsHeader) (rest : Bytes) → IsHeader h → read_fields (as_bytes h ++ rest) ≡ ok (h, rest)
  unfolding read_fields as_bytes
  read_fields-as_bytes h rest v = simp append_assoc (
      rw (
        read_uint-write_int 2 header_context h.ams_cmd _ v.ams_cmd,
        read_uint-write_int 4 header_context h.length_ _ v.length_,
        read_exact-append 6 header_context h.dest_netid.octets _ v.dest_netid.six,
        read_uint-write_int 2 header_context h.dest_port _ v.dest_port,
        read_exact-append 6 header_context h.src_netid.octets _ v.src_netid.six,
        read_uint-write_int 2 header_context h.src_port _ v.src_port,
        read_uint-write_int 2 header_context h.command _ v.command,
        read_uint-write_int 2 header_context h.state_flags _ v.state_flags,
        read_uint-write_int 4 header_context h.data_length _ v.data_length,
        read_uint-write_int 4 header_context h.error_code _ v.error_code,
        read_uint-write_int 4 header_context h.invoke_id _ v.invoke_id,
      ))

  pub length-as_bytes : (h : AdsHeader) → IsHeader h → length (as_bytes h) ≡ 38
  unfolding as_bytes
  length-as_bytes h v =
      simp (length-append, bo.length-write_int) (omega (arith, v.dest_netid.six, v.src_netid.six))

  -- A header is decoded from its bytes.
  pub read_from_bytes-as_bytes : (h : AdsHeader) → IsHeader h → read_from_bytes (as_bytes h) ≡ ok h
  unfolding read_from_bytes
  read_from_bytes-as_bytes h v =
      rw (length-as_bytes h v, ← append-nil (as_bytes h), read_fields-as_bytes h [] v)
