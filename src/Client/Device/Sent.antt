-- ===== src/Client/Device/Sent.antt =====
-- client.rs: what the requests of a device write to the socket.
use ads_rs.Prelude.{
  ℕ, Bool-cases, ◌==◌, inl, inr, ◌+◌, ◌^◌, ◌<◌, ◌≡◌, refl, List, [], ◌∷◌, ◌++◌, arith, lt→ltb,
  length,
}
use ads_rs.Wire.{Bytes, ByteOrder, concat, write_u32}
use ads_rs.Errors.{Result-cases, is_ok, is_err, is_panic}
use ads_rs.NetId.{AmsAddr}
use ads_rs.Client.Command.{Command}
use ads_rs.Client.Header.{as_bytes}
use ads_rs.Client.Structs.{IndexLength, IndexLengthRw, index_length_bytes, index_length_rw_bytes}
use ads_rs.Client.Action.{Arrival, Client, written, next_arrival}
use ads_rs.Client.Exchange.{await, communicate, request_header, total_length}
use ads_rs.Client.Device.{buffer, write, write_read_exact, write_read}
use ads_rs.Client.Device.Read.{length-index_length_bytes}
use ads_rs.Client.Device.Complete.{length-index_length_rw_bytes}

module _ ⦃bo : ByteOrder⦄ where
  -- A request as it is written to the socket.
  abbrev pub packet : AmsAddr → Command → AmsAddr → List Bytes → ℕ → Bytes
  packet source cmd target payload id =
      as_bytes (request_header source cmd target (total_length payload) id) ++ concat payload

  -- The client after a request of these bytes, of which a failed write puts a part on the socket.
  pub record Sent (c c' : Client) (bytes : Bytes) : Type 0 where
    pub sent : c'.sent ≡ written (next_arrival c.arrivals) bytes ∷ c.sent
    pub source : c'.source ≡ c.source

  await-Sent :
      (cmd : Command) (target : AmsAddr) (id : ℕ) (bufs : List Bytes) (a : Arrival) (c c₀ : Client)
      (bytes : Bytes)
      → Sent c₀ c bytes
      → Sent c₀ (await cmd target id bufs a c).1 bytes
  unfolding await
  await-Sent cmd target id bufs (Arrival.write_failed n e) c c₀ bytes s = s
  await-Sent cmd target id bufs _ c c₀ bytes s = record { sent = s.sent; source = s.source }

  pub communicate-Sent :
      (cmd : Command) (target : AmsAddr) (payload bufs : List Bytes) (c : Client)
      → 32 + total_length payload < 2 ^ 32
      → Sent c
          (communicate cmd target payload bufs c).1
          (packet c.source cmd target payload c.invoke_id)
  unfolding communicate
  communicate-Sent cmd target payload bufs c fits =
      rw (lt→ltb (32 + total_length payload) (2 ^ 32) fits)
        (await-Sent cmd target c.invoke_id bufs _ _ c _ (record { sent = refl; source = refl }))

  -- The packets of `write` and of `write_read`.
  abbrev pub write_packet : AmsAddr → AmsAddr → ℕ → ℕ → Bytes → ℕ → Bytes
  write_packet source addr group offset buf id =
      packet source Command.write addr
        (index_length_bytes
            (record { index_group = group; index_offset = offset; length_ = length buf })
          ∷ buf
          ∷ [])
        id

  abbrev pub write_read_packet : AmsAddr → AmsAddr → ℕ → ℕ → Bytes → ℕ → ℕ → Bytes
  write_read_packet source addr group offset content read_length id =
      packet source Command.read_write addr
        (index_length_rw_bytes (record {
          index_group = group;
          index_offset = offset;
          read_length = read_length;
          write_length = length content;
        })
          ∷ content
          ∷ [])
        id

  pub write-Sent :
      (addr : AmsAddr) (group offset : ℕ) (buf : Bytes) (c : Client)
      → 44 + length buf < 2 ^ 32
      → Sent c
          (write addr group offset buf c).1
          (write_packet c.source addr group offset buf c.invoke_id)
  unfolding write
  write-Sent addr group offset buf c fits =
      let request : IndexLength = record {
        index_group = group;
        index_offset = offset;
        length_ = length buf;
      } in
      let payload = index_length_bytes request ∷ buf ∷ [] in
      let total : 32 + total_length payload < 2 ^ 32 =
        omega (arith, length-index_length_bytes request) in
      let m = communicate Command.write addr payload [] c in
      let s = communicate-Sent Command.write addr payload [] c total in
      rw (lt→ltb (length buf) (2 ^ 32) (omega arith))
        (elim (Result-cases m.0) [ is_ok a e ↦ rw e s | is_err x e ↦ rw e s | is_panic e ↦ rw e s ])

  pub write_read_exact-Sent :
      (addr : AmsAddr) (group offset : ℕ) (content buf : Bytes) (c : Client)
      → 48 + length content < 2 ^ 32
      → length buf < 2 ^ 32
      → Sent c
          (write_read_exact addr group offset content buf c).1
          (write_read_packet c.source addr group offset content (length buf) c.invoke_id)
  unfolding write_read_exact write_read
  write_read_exact-Sent addr group offset content buf c fits small =
      let request : IndexLengthRw = record {
        index_group = group;
        index_offset = offset;
        read_length = length buf;
        write_length = length content;
      } in
      let payload = index_length_rw_bytes request ∷ content ∷ [] in
      let total : 32 + total_length payload < 2 ^ 32 =
        omega (arith, length-index_length_rw_bytes request) in
      let m = communicate Command.read_write addr payload (write_u32 0 ∷ buf ∷ []) c in
      let s = communicate-Sent Command.read_write addr payload (write_u32 0 ∷ buf ∷ []) c total in
      rw (lt→ltb (length buf) (2 ^ 32) small, lt→ltb (length content) (2 ^ 32) (omega arith))
        (elim (Result-cases m.0) [
          | is_ok a e ↦ elim (Bool-cases (bo.read_int (buffer 0 a.1) == length (buffer 1 a.1))) [
            | inl same ↦ rw (e, same) s
            | inr other ↦ rw (e, other) s
          ]
          | is_err x e ↦ rw e s
          | is_panic e ↦ rw e s
        ])
