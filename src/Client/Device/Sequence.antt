-- ===== src/Client/Device/Sequence.antt =====
-- client.rs: what a request that is answered in full leaves for the requests after it.
use ads_rs.Prelude.{
  ℕ, ◌+◌, ◌%◌, ◌^◌, ◌<◌, ◌≤◌, ◌≡◌, refl, ap, ◌∙◌, List, [], ◌∷◌, ◌++◌, append-nil, arith, lt→ltb,
  ==-self, length, length-append, drop, length-drop,
}
use ads_rs.Wire.{Bytes, ByteOrder, write_u32}
use ads_rs.Errors.{ok}
use ads_rs.NetId.{AmsAddr}
use ads_rs.Client.Command.{Command}
use ads_rs.Client.Header.{AdsHeader}
use ads_rs.Client.Scatter.{eq_nil}
use ads_rs.Client.Structs.{IndexLength, IndexLengthRw, index_length_bytes, index_length_rw_bytes}
use ads_rs.Client.Action.{Arrival, Client, received}
use ads_rs.Client.Exchange.{await, communicate, total_length}
use ads_rs.Client.Exchange.Response.{IsAnswer}
use ads_rs.Client.Device.{read, read_exact, write_read, write_read_exact}
use ads_rs.Client.Device.Read.{
  accept-answer, communicate-received, length-index_length_bytes, scatter-pair,
}
use ads_rs.Client.Device.Complete.{length-index_length_rw_bytes}

module _ ⦃bo : ByteOrder⦄ where
  -- The client after a request that took the first outcome.
  pub record Left (c c' : Client) (later : List Arrival) : Type 0 where
    pub arrivals : c'.arrivals ≡ later
    pub invoke_id : c'.invoke_id ≡ (c.invoke_id + 1) % 2 ^ 32
    pub source : c'.source ≡ c.source

  communicate-Left :
      (cmd : Command) (target : AmsAddr) (payload bufs : List Bytes) (c : Client) {h : AdsHeader}
      {answer : Bytes} {later : List Arrival}
      → 32 + total_length payload < 2 ^ 32
      → c.arrivals ≡ received h answer ∷ later
      → Left c (communicate cmd target payload bufs c).1 later
  unfolding communicate await
  communicate-Left cmd target payload bufs c fits e =
      rw (lt→ltb (32 + total_length payload) (2 ^ 32) fits, e)
        (record { arrivals = refl; invoke_id = refl; source = refl })

  whole : (d buf : Bytes) → length d ≡ length buf → (d ++ drop (length d) buf) ≡ d
  whole d buf same =
      ap (λ t. d ++ t)
        (eq_nil (drop (length d) buf) (omega (arith, length-drop {0} (length d) buf)))
      ∙ append-nil d

  module _ (addr : AmsAddr) (group offset : ℕ) (c : Client) {h : AdsHeader} {later : List Arrival}
      (buf d : Bytes)
      (arrival : c.arrivals ≡ received h (write_u32 0 ++ (write_u32 (length d) ++ d)) ∷ later)
      (small : length buf < 2 ^ 32) (same : length d ≡ length buf) where
    -- A read that is answered by as many bytes as the buffer has.
    pub read_exact-whole :
        IsAnswer Command.read addr c.invoke_id h
        → ((read_exact addr group offset buf c).0 ≡ ok d)
          × Left c (read_exact addr group offset buf c).1 later
    unfolding read_exact read
    read_exact-whole answer =
        let request : IndexLength = record {
          index_group = group;
          index_offset = offset;
          length_ = length buf;
        } in
        let fits : 32 + total_length (index_length_bytes request ∷ []) < 2 ^ 32 =
          omega (arith, length-index_length_bytes request) in
        let result =
          communicate-received Command.read addr (index_length_bytes request ∷ [])
            (write_u32 0 ∷ buf ∷ []) c fits arrival
          ∙ accept-answer Command.read addr c.invoke_id (write_u32 0) (buf ∷ []) h
              (write_u32 (length d) ++ d) answer
              (omega (
                arith,
                bo.length-write_int 4 0,
                bo.length-write_int 4 (length d),
                length-append {0} (write_u32 (length d)) d,
              )) in
        rw
          (
            lt→ltb (length buf) (2 ^ 32) small,
            result,
            scatter-pair (write_u32 (length d)) d buf (bo.length-write_int 4 (length d))
                (omega (arith, same)),
            bo.read_int-write_int 4 (length d) (omega (arith, same)),
            whole d buf same,
            same,
            ==-self (length buf),
          )
          (
            refl,
            communicate-Left Command.read addr (index_length_bytes request ∷ [])
                (write_u32 0 ∷ buf ∷ []) c fits arrival,
          )

  module _ (addr : AmsAddr) (group offset : ℕ) (sent buf d : Bytes) (c : Client) {h : AdsHeader}
      {later : List Arrival} (n : ℕ)
      (arrival : c.arrivals ≡ received h (write_u32 0 ++ (write_u32 n ++ d)) ∷ later)
      (announced : n < 2 ^ 32) (small : length buf < 2 ^ 32) (fits : 48 + length sent < 2 ^ 32)
      (room : length d ≤ length buf) (answer : IsAnswer Command.read_write addr c.invoke_id h) where
    -- A write and read that is answered by no more bytes than the buffer has.
    pub write_read-received :
        ((write_read addr group offset sent buf c).0 ≡ ok (n, d ++ drop (length d) buf))
        × Left c (write_read addr group offset sent buf c).1 later
    unfolding write_read
    write_read-received =
        let request : IndexLengthRw = record {
          index_group = group;
          index_offset = offset;
          read_length = length buf;
          write_length = length sent;
        } in
        let payload = index_length_rw_bytes request ∷ sent ∷ [] in
        let total : 32 + total_length payload < 2 ^ 32 =
          omega (arith, length-index_length_rw_bytes request) in
        let result =
          communicate-received Command.read_write addr payload (write_u32 0 ∷ buf ∷ []) c total
            arrival
          ∙ accept-answer Command.read_write addr c.invoke_id (write_u32 0) (buf ∷ []) h
              (write_u32 n ++ d) answer
              (omega (
                arith,
                bo.length-write_int 4 0,
                bo.length-write_int 4 n,
                length-append {0} (write_u32 n) d,
              )) in
        rw
          (
            lt→ltb (length buf) (2 ^ 32) small,
            lt→ltb (length sent) (2 ^ 32) (omega arith),
            result,
            scatter-pair (write_u32 n) d buf (bo.length-write_int 4 n) room,
            bo.read_int-write_int 4 n announced,
          )
          (
            refl,
            communicate-Left Command.read_write addr payload (write_u32 0 ∷ buf ∷ []) c total
                arrival,
          )

  module _ (addr : AmsAddr) (group offset : ℕ) (sent buf d : Bytes) (c : Client) {h : AdsHeader}
      {later : List Arrival}
      (arrival : c.arrivals ≡ received h (write_u32 0 ++ (write_u32 (length d) ++ d)) ∷ later)
      (small : length buf < 2 ^ 32) (fits : 48 + length sent < 2 ^ 32)
      (same : length d ≡ length buf) (answer : IsAnswer Command.read_write addr c.invoke_id h) where
    -- A write and read that is answered by as many bytes as the buffer has.
    pub write_read_exact-whole :
        ((write_read_exact addr group offset sent buf c).0 ≡ ok d)
        × Left c (write_read_exact addr group offset sent buf c).1 later
    unfolding write_read_exact
    write_read_exact-whole =
        let (result, left) =
          write_read-received addr group offset sent buf d c (length d) arrival
            (omega (arith, same)) small fits (omega arith) answer in
        rw (result, whole d buf same, same, ==-self (length buf)) (refl, left)
