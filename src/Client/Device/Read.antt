-- ===== src/Client/Device/Read.antt =====
-- client.rs: what `read` returns for the response of a device.
use ads_rs.Prelude.{
  ℕ, ◌+◌, ◌-◌, ◌%◌, ◌^◌, ◌<◌, ◌≤◌, ◌≡◌, refl, sym, ap, ◌∙◌, Bool, true, false, List, [], ◌∷◌, ◌++◌,
  append-nil, arith, lt→ltb, le→leb, ◌==◌, ==_iff, if◌then◌else◌, length, length-append, take, drop,
  take-append, drop-append, take-all, length-drop, Bool-cases, inl, inr,
}
use mathlib.Core.Path.{ap₂}
use ads_rs.Wire.{Bytes, ByteOrder, write_u32, split_at-append}
use ads_rs.Errors.{ok, err, reply}
use ads_rs.NetId.{AmsAddr, addr_eq}
use ads_rs.NetId.Equal.{addr_eq_self}
use ads_rs.Client.Command.{Command, code}
use ads_rs.Client.Header.{AdsHeader}
use ads_rs.Client.Scatter.{scatter, scatter-cons, eq_nil}
use ads_rs.Client.Structs.{IndexLength, index_length_bytes}
use ads_rs.Client.Action.{Arrival, Client, received}
use ads_rs.Client.Exchange.{
  source_of, result_field, check_response, fill, accept, await, communicate, total_length,
}
use ads_rs.Client.Exchange.Response.{IsAnswer}
use ads_rs.Client.Device.{read, read_exact}

pub check_response-answer :
    (cmd : Command) (target : AmsAddr) (id : ℕ) (h : AdsHeader)
    → IsAnswer cmd target id h
    → check_response cmd target id h ≡ ok tt
unfolding check_response
check_response-answer cmd target id h v =
    let from : addr_eq (source_of h) target ≡ true =
      ap (λ t. addr_eq (source_of h) t) (sym v.from) ∙ addr_eq_self (source_of h) in
    rw (
      from,
      (==_iff h.command (code cmd)).1 v.command,
      (==_iff h.state_flags 5).1 v.flags,
      (==_iff h.invoke_id id).1 v.invoke_id,
      (==_iff h.error_code 0).1 v.no_error,
    )

same_branches : (t : Bool) → ◌≡◌ {A = List Bytes} (if t then [] else []) []
same_branches true = refl
same_branches false = refl

module _ ⦃bo : ByteOrder⦄ where
  -- An answer whose result field is zero is accepted, and its content distributed.
  pub accept-answer :
      (cmd : Command) (target : AmsAddr) (id : ℕ) (buf : Bytes) (bufs : List Bytes) (h : AdsHeader)
      (content : Bytes)
      → IsAnswer cmd target id h
      → length buf ≤ length content
      → accept cmd target id (buf ∷ bufs) h (write_u32 0 ++ content)
        ≡ ok (length content, scatter content 0 (length content) (buf ∷ bufs))
  unfolding accept result_field fill
  accept-answer cmd target id buf bufs h content v enough = rw (
    check_response-answer cmd target id h v,
    split_at-append 4 (write_u32 0) content (bo.length-write_int 4 0),
    bo.read_int-write_int 4 0 (omega arith),
    le→leb (length buf + 4) (length content + 4) (omega arith),
  )

  pub scatter-pair :
      (head d old : Bytes)
      → length head ≡ 4
      → length d ≤ length old
      → scatter (head ++ d) 0 (length (head ++ d)) (write_u32 0 ∷ old ∷ [])
        ≡ head ∷ (d ++ drop (length d) old) ∷ []
  scatter-pair head d old h fits =
      let resp = head ++ d in
      let total : length resp ≡ 4 + length d =
        length-append {0} head d ∙ ap (λ n. n + length d) h in
      let empty : drop 4 (write_u32 0) ≡ [] =
        eq_nil (drop 4 (write_u32 0))
          (omega (arith, length-drop {0} 4 (write_u32 0), bo.length-write_int 4 0)) in
      let first : (take 4 resp ++ drop 4 (write_u32 0)) ≡ head =
        ap₂ (λ s t. s ++ t) (take-append 4 head d h) empty ∙ append-nil head in
      rw
        (
          scatter-cons resp (write_u32 0) (old ∷ []) 0 (length resp) 4
              (omega (arith, total, bo.length-write_int 4 0)),
          first,
        )
        (elim (Bool-cases (length resp - 4 == 0)) [
          | inl full ↦
              let none_left : d ≡ [] =
                eq_nil d (omega (arith, total, (==_iff (length resp - 4) 0).0 full)) in
              rw full (rw none_left refl)
          | inr more ↦
              rw
                (
                  more,
                  scatter-cons resp old [] 4 (length resp - 4) (length d) (omega (arith, total)),
                  drop-append 4 head d h,
                  take-all (length d) d (omega arith),
                )
                (ap (λ t. head ∷ (d ++ drop (length d) old) ∷ t)
                  (unfold scatter in same_branches _))
        ])

  -- The result of a request that is answered.
  pub communicate-received :
      (cmd : Command) (target : AmsAddr) (payload bufs : List Bytes) (c : Client) {h : AdsHeader}
      {answer : Bytes} {later : List Arrival}
      → 32 + total_length payload < 2 ^ 32
      → c.arrivals ≡ received h answer ∷ later
      → (communicate cmd target payload bufs c).0 ≡ accept cmd target c.invoke_id bufs h answer
  unfolding communicate await
  communicate-received cmd target payload bufs c fits e =
      rw (lt→ltb (32 + total_length payload) (2 ^ 32) fits, e)

  pub length-index_length_bytes : (s : IndexLength) → length (index_length_bytes s) ≡ 12
  unfolding index_length_bytes
  length-index_length_bytes s = simp (length-append, bo.length-write_int) refl

  module _ (addr : AmsAddr) (group offset : ℕ) (buf : Bytes) (c : Client) {h : AdsHeader}
      {later : List Arrival} (n : ℕ) (d : Bytes)
      (arrival : c.arrivals ≡ received h (write_u32 0 ++ (write_u32 n ++ d)) ∷ later)
      (answer : IsAnswer Command.read addr c.invoke_id h) (small : length buf < 2 ^ 32)
      (announced : n < 2 ^ 32) (fits : length d ≤ length buf) where
    -- If a device answers a read request without an error, announces `n` bytes and sends no more
    -- bytes than the buffer has, then `read` returns `n` and the buffer, which starts with the bytes
    -- sent and is unchanged behind them.
    pub read-answered : (read addr group offset buf c).0 ≡ ok (n, d ++ drop (length d) buf)
    unfolding read
    read-answered =
        let request : IndexLength = record {
          index_group = group;
          index_offset = offset;
          length_ = length buf;
        } in
        rw (
          lt→ltb (length buf) (2 ^ 32) small,
          communicate-received Command.read addr (index_length_bytes request ∷ [])
              (write_u32 0 ∷ buf ∷ []) c (omega (arith, length-index_length_bytes request)) arrival,
          accept-answer Command.read addr c.invoke_id (write_u32 0) (buf ∷ []) h (write_u32 n ++ d)
              answer
              (omega (
                arith,
                bo.length-write_int 4 0,
                bo.length-write_int 4 n,
                length-append {0} (write_u32 n) d,
              )),
          scatter-pair (write_u32 n) d buf (bo.length-write_int 4 n) fits,
          bo.read_int-write_int 4 n announced,
        )

    -- If a device answers a read request of a buffer below 4 GiB without an error, announces `n` bytes
    -- and sends no more bytes than the buffer has, then `read_exact` succeeds exactly if `n` is the size
    -- of the buffer, and then returns the bytes sent with the old contents behind them: it does not
    -- notice that fewer bytes came than were announced.
    pub read_exact-answered : (read_exact addr group offset buf c).0 ≡ (
        if n == length buf
        then ok (d ++ drop (length d) buf)
        else err (reply "read data" "got less data than expected" (n % 2 ^ 32)))
    unfolding read_exact
    read_exact-answered =
        let whole : length (d ++ drop (length d) buf) ≡ length buf =
          omega
            (arith, length-append {0} d (drop (length d) buf), length-drop {0} (length d) buf) in
        rw (read-answered, whole)
          (elim (Bool-cases (n == length buf)) [
            | inl same ↦ rw same refl
            | inr other ↦ rw other refl
          ])
