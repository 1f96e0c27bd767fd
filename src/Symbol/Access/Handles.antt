-- ===== src/Symbol/Access/Handles.antt =====
-- symbol.rs: the life of a handle.
use ads_rs.Prelude.{ℕ, ◌+◌, ◌%◌, ◌^◌, ◌<◌, ◌≡◌, refl, ap, ◌∙◌, List, ◌∷◌, arith, length, replicate}
use mathlib.Core.Path.{ap₂}
use ads_rs.Wire.{Bytes, ByteOrder, write_u32}
use ads_rs.Errors.{ok}
use ads_rs.NetId.{AmsAddr}
use ads_rs.Index.{get_symhandle_byname, release_symhandle}
use ads_rs.Client.Command.{Command}
use ads_rs.Client.Header.{AdsHeader}
use ads_rs.Client.Action.{Arrival, Client, received, written, next_arrival, ignored-keeps}
use ads_rs.Client.Exchange.Response.{IsAnswer}
use ads_rs.Client.Device.{write, write_read_exact}
use ads_rs.Client.Device.Sequence.{write_read_exact-whole}
use ads_rs.Symbol.Access.{Handle, drop_handle, new}
use ads_rs.Symbol.Access.Answers.{response}
use ads_rs.Client.Device.Sent.{
  Sent, write_packet, write_read_packet, write-Sent, write_read_exact-Sent,
}

module _ ⦃bo : ByteOrder⦄ where
  -- What `drop` of a handle writes to the socket, whatever becomes of it.
  drop_handle-Sent :
      (h : Handle) (c : Client)
      → Sent c
          (drop_handle h c).1
          (write_packet c.source h.addr release_symhandle 0 (write_u32 h.handle) c.invoke_id)
  unfolding drop_handle
  drop_handle-Sent h c =
      let fits = bo.length-write_int 4 h.handle in
      rw (ignored-keeps (write h.addr release_symhandle 0 (write_u32 h.handle) c))
        (write-Sent h.addr release_symhandle 0 (write_u32 h.handle) c (omega (arith, fits)))

  module _ (addr : AmsAddr) (symbol : Bytes) (handle : ℕ) (c : Client) {h : AdsHeader}
      {later : List Arrival}
      (arrivals : c.arrivals ≡ received h (response (write_u32 handle)) ∷ later)
      (answer : IsAnswer Command.read_write addr c.invoke_id h) (fits : 48 + length symbol < 2 ^ 32)
      (valid : handle < 2 ^ 32) where
    -- If a device answers the query for a handle without an error, by a 32-bit number, and the length
    -- of the query fits 32 bits, then `Handle::new` returns the handle with this number. If the handle
    -- is dropped next, the client has written the query for the name and then, with the next invoke
    -- ID, the release of this number, or as many first bytes of the release as went out before its
    -- write failed.
    pub drop_handle-new :
        ((new addr symbol c).0 ≡ ok (record { addr = addr; handle = handle }))
        × ((drop_handle (record { addr = addr; handle = handle }) (new addr symbol c).1).1.sent
            ≡ written (next_arrival later) (
                write_packet c.source addr release_symhandle 0
                  (write_u32 handle)
                  ((c.invoke_id + 1) % 2 ^ 32))
              ∷ write_read_packet c.source addr get_symhandle_byname 0 symbol 4 c.invoke_id
              ∷ c.sent)
    unfolding new
    drop_handle-new =
        let size = bo.length-write_int 4 handle in
        let buf : Bytes = replicate 4 0 in
        let (r, left) =
          write_read_exact-whole addr get_symhandle_byname 0 symbol buf (write_u32 handle) c
            arrivals (omega arith) fits size answer in
        let s = write_read_exact-Sent addr get_symhandle_byname 0 symbol buf c fits (omega arith) in
        let c' = (write_read_exact addr get_symhandle_byname 0 symbol buf c).1 in
        let d = drop_handle-Sent (record { addr = addr; handle = handle }) c' in
        let query = write_read_packet c.source addr get_symhandle_byname 0 symbol 4 c.invoke_id in
        let release : AmsAddr → ℕ → Bytes =
          λ source id. write_packet source addr release_symhandle 0 (write_u32 handle) id in
        rw (r, bo.read_int-write_int 4 handle valid)
          (
            refl,
            d.sent
                ∙ ap₂
                    (λ source id. written (next_arrival c'.arrivals) (release source id) ∷ c'.sent)
                    s.source left.invoke_id
                ∙ ap₂
                    (λ a t.
                      written (next_arrival a) (release c.source ((c.invoke_id + 1) % 2 ^ 32)) ∷ t)
                    left.arrivals
                    (s.sent ∙ ap (λ a. written (next_arrival a) query ∷ c.sent) arrivals),
          )
