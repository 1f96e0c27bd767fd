-- ===== src/Client/Reader/Packet.antt =====
-- client.rs: what the reader thread does with a packet whose lengths are consistent.
use ads_rs.Prelude.{
  ◌+◌, ◌-◌, ◌<◌, ◌≡◌, ◌≢◌, refl, sym, ap, ◌∙◌, true, false, [], ◌∷◌, ◌++◌, append_assoc, arith, ltb,
  le→ltb, ◌==◌, ==_iff, length, length-append, Bool-cases, inl, inr,
}
use ads_rs.Wire.{
  Bytes, ByteOrder, concat, read_exact-append, split_at, split_at-append, split_at-short, write_u16,
  write_u32,
}
use ads_rs.Errors.{ok, err, panic, reply, ◌>>=◌}
use ads_rs.NetId.{AmsAddr, addr_eq}
use ads_rs.NetId.Equal.{addr_eq_self}
use ads_rs.Client.Command.{code, notification}
use ads_rs.Client.Header.{AdsHeader, IsHeader, as_bytes, length-as_bytes, read_from_bytes-as_bytes}
use ads_rs.Client.Action.{mem_id}
use ads_rs.Client.Reader.{
  settle, nothing, Waiting, dest_of, settle_reply, settle_context, dispatch, take_notification,
  interpret, read_packet, read_one,
}

-- A packet that a device sends: an ADS packet, with consistent lengths, and its payload.
pub record IsPacket (h : AdsHeader) (payload : Bytes) : Type 0 where
  pub header : IsHeader h
  pub reserved : h.ams_cmd ≡ 0
  pub total : h.length_ ≡ 32 + h.data_length
  pub size : length payload ≡ h.data_length

module _ ⦃bo : ByteOrder⦄ where
  start_of : AdsHeader → Bytes
  start_of h = write_u16 h.ams_cmd ++ write_u32 h.length_

  -- The header without its first six bytes.
  tail_of : AdsHeader → Bytes
  tail_of h = concat (
      h.dest_netid.octets
      ∷ write_u16 h.dest_port
      ∷ h.src_netid.octets
      ∷ write_u16 h.src_port
      ∷ write_u16 h.command
      ∷ write_u16 h.state_flags
      ∷ write_u32 h.data_length
      ∷ write_u32 h.error_code
      ∷ write_u32 h.invoke_id
      ∷ [])

  as_bytes-parts : (h : AdsHeader) → start_of h ++ tail_of h ≡ as_bytes h
  unfolding as_bytes start_of tail_of
  as_bytes-parts h = append_assoc (write_u16 h.ams_cmd) (write_u32 h.length_) _

  length-start_of : (h : AdsHeader) → length (start_of h) ≡ 6
  unfolding start_of
  length-start_of h = simp (length-append, bo.length-write_int) refl

  length-tail_of : (h : AdsHeader) → IsHeader h → length (tail_of h) ≡ 32
  length-tail_of h v = omega (
    arith,
    length-start_of h,
    length-append {0} (start_of h) (tail_of h),
    ap length (as_bytes-parts h),
    length-as_bytes h v,
  )

  -- A packet with consistent lengths is read whole, and dispatched.
  read_one-dispatch :
      (source : AmsAddr) (w : Waiting) (h : AdsHeader) (payload rest : Bytes)
      → IsPacket h payload
      → read_one source w (as_bytes h ++ (payload ++ rest))
        ≡ (dispatch source w h (as_bytes h) payload >>= λ d. ok (d, rest))
  unfolding read_one read_packet interpret
  read_one-dispatch source w h payload rest v =
      let l = v.header.length_ in
      let head = as_bytes-parts h in
      let regroup : as_bytes h ++ (payload ++ rest)
          ≡ start_of h ++ (tail_of h ++ (payload ++ rest)) =
        ap (λ t. t ++ (payload ++ rest)) (sym head)
        ∙ append_assoc (start_of h) (tail_of h) (payload ++ rest) in
      let parts : split_at 2 (start_of h) ≡ ok (write_u16 h.ams_cmd, write_u32 h.length_) =
        unfold start_of in
        split_at-append 2 (write_u16 h.ams_cmd) (write_u32 h.length_)
          (bo.length-write_int 2 h.ams_cmd) in
      let long : ltb h.length_ 32 ≡ false = le→ltb h.length_ 32 (omega (arith, v.total)) in
      let consistent : (h.data_length == h.length_ - 32) ≡ true =
        (==_iff h.data_length (h.length_ - 32)).1 (omega (arith, v.total)) in
      let plain : (h.ams_cmd == 0) ≡ true = (==_iff h.ams_cmd 0).1 v.reserved in
      rw (
        regroup,
        read_exact-append 6 "receiving AMS/TCP header" (start_of h) (tail_of h ++ (payload ++ rest))
            (length-start_of h),
        parts,
        bo.read_int-write_int 4 h.length_ l,
        bo.read_int-write_int 2 h.ams_cmd v.header.ams_cmd,
        long,
        read_exact-append 32 "receiving AMS header" (tail_of h) (payload ++ rest)
            (length-tail_of h v.header),
        head,
        read_from_bytes-as_bytes h v.header,
        read_exact-append h.data_length "receiving Ads data payload" payload rest v.size,
        plain,
        consistent,
      )

  addressed :
      (h : AdsHeader) (source : AmsAddr) → dest_of h ≡ source → addr_eq (dest_of h) source ≡ true
  addressed h source e = ap (λ t. addr_eq (dest_of h) t) (sym e) ∙ addr_eq_self (dest_of h)

  no_notification : (h : AdsHeader) → h.command ≢ 8 → (h.command == code notification) ≡ false
  unfolding code
  no_notification h n = elim (Bool-cases (h.command == 8)) [
    | inl same ↦ absurd (n ((==_iff h.command 8).0 same))
    | inr other ↦ other
  ]

  -- A packet that is addressed to the client, is no notification and carries the invoke ID of an
  -- active request whose thread still waits, is handed to that thread, with its header and its
  -- payload; the bytes behind it are left for the next round. This holds whatever its other fields are.
  pub read_one-settles :
      (source : AmsAddr) (w : Waiting) (h : AdsHeader) (payload rest : Bytes)
      → IsPacket h payload
      → dest_of h ≡ source
      → h.command ≢ 8
      → mem_id h.invoke_id w.pending ≡ true
      → w.alive h.invoke_id ≡ true
      → read_one source w (as_bytes h ++ (payload ++ rest))
        ≡ ok (settle h.invoke_id h payload, rest)
  unfolding dispatch settle_reply
  read_one-settles source w h payload rest v to_us reply_like active waits = rw (
    read_one-dispatch source w h payload rest v,
    addressed h source to_us,
    no_notification h reply_like,
    active,
    waits,
  )

  -- A packet that is addressed to the client, is no notification and carries an invoke ID that is
  -- not active, such as the response to a request that has timed out, ends the reader thread with
  -- an error that names the ID.
  pub read_one-unknown_id :
      (source : AmsAddr) (w : Waiting) (h : AdsHeader) (payload rest : Bytes)
      → IsPacket h payload
      → dest_of h ≡ source
      → h.command ≢ 8
      → mem_id h.invoke_id w.pending ≡ false
      → read_one source w (as_bytes h ++ (payload ++ rest))
        ≡ err (
            reply settle_context "invalid invoke id received from server, aborting connection"
              h.invoke_id)
  unfolding dispatch settle_reply
  read_one-unknown_id source w h payload rest v to_us reply_like unknown = rw (
    read_one-dispatch source w h payload rest v,
    addressed h source to_us,
    no_notification h reply_like,
    unknown,
  )

  -- A packet for another address is skipped.
  pub read_one-foreign :
      (source : AmsAddr) (w : Waiting) (h : AdsHeader) (payload rest : Bytes)
      → IsPacket h payload
      → addr_eq (dest_of h) source ≡ false
      → read_one source w (as_bytes h ++ (payload ++ rest)) ≡ ok (nothing, rest)
  unfolding dispatch
  read_one-foreign source w h payload rest v other =
      rw (read_one-dispatch source w h payload rest v, other)

  -- A notification for the client with a payload of fewer than four bytes makes the reader thread
  -- panic.
  pub read_one-short_notification :
      (source : AmsAddr) (w : Waiting) (h : AdsHeader) (payload rest : Bytes)
      → IsPacket h payload
      → dest_of h ≡ source
      → h.command ≡ 8
      → h.data_length < 4
      → read_one source w (as_bytes h ++ (payload ++ rest)) ≡ panic
  unfolding dispatch take_notification
  read_one-short_notification source w h payload rest v to_us notif short = rw (
    read_one-dispatch source w h payload rest v,
    addressed h source to_us,
    (==_iff h.command (code notification)).1 (unfold code in notif),
    split_at-short 4 payload (omega (arith, v.size)),
  )
