-- ===== src/Client/Device/Complete.antt =====
-- client.rs: a sum-up request that is answered in full.
use ads_rs.Prelude.{
  ap, drop, ℕ, ◌+◌, ◌*◌, ◌^◌, ◌<◌, ◌≡◌, refl, sym, ◌∙◌, All, List, ◌∷◌, ◌++◌, map, arith, lt→ltb,
  length, length-append, take-append, drop-append,
}
use mathlib.Core.Path.{ap₂}
use ads_rs.Wire.{Bytes, ByteOrder, concat, write_u32}
use ads_rs.Errors.{ok}
use ads_rs.NetId.{AmsAddr}
use ads_rs.Index.{sumup_read_ex}
use ads_rs.Client.Command
use ads_rs.Client.Header.{AdsHeader}
use ads_rs.Client.Structs.{
  IndexLengthRw, index_length_bytes, index_length_rw_bytes, result_length_bytes,
}
use ads_rs.Client.Action.{Arrival, Client, received}
use ads_rs.Client.Exchange.{total_length}
use ads_rs.Client.Scatter.{scatter}
use ads_rs.Client.Exchange.Response.{IsAnswer}
use ads_rs.Client.Device.Read.{communicate-received, accept-answer}
use ads_rs.Client.Device.Multi.{sum_lengths, sumup_header, sumup, read_multi}
use ads_rs.Client.Device.Answers.{
  scatter-exact, Answered, IsComplete, requests_of, contents_of, results_of, outcome,
  assign-contents, assign-results, map_appended, same_results, same_contents, total_length-requests,
  length_mapped,
}

pub length-index_length_rw_bytes :
    ⦃bo : ByteOrder⦄ (s : IndexLengthRw) → length (index_length_rw_bytes s) ≡ 16
unfolding index_length_rw_bytes
length-index_length_rw_bytes ⦃bo⦄ s = simp (length-append, bo.length-write_int) refl

module _ ⦃bo : ByteOrder⦄ (addr : AmsAddr) (c : Client) {h : AdsHeader} {later : List Arrival}
    (n : ℕ) where
  -- What a sum-up request returns for any response.
  pub sumup_received :
      (header : IndexLengthRw) (w_buffers r_buffers : List Bytes) (content : Bytes)
      → c.arrivals ≡ received h (write_u32 0 ++ (write_u32 n ++ content)) ∷ later
      → IsAnswer Command.read_write addr c.invoke_id h
      → header.read_length < 2 ^ 32
      → header.write_length < 2 ^ 32
      → 48 + total_length w_buffers < 2 ^ 32
      → (sumup addr header w_buffers r_buffers c).0
        ≡ ok (
            drop 1 (
              scatter
                (write_u32 n ++ content)
                0
                (length (write_u32 n ++ content))
                (write_u32 0 ∷ r_buffers)))
  unfolding sumup
  sumup_received header w_buffers r_buffers content arrival answer r w t = rw (
    lt→ltb header.read_length (2 ^ 32) r,
    lt→ltb header.write_length (2 ^ 32) w,
    communicate-received Command.read_write addr (index_length_rw_bytes header ∷ w_buffers)
        (write_u32 0 ∷ r_buffers) c (omega (arith, length-index_length_rw_bytes header)) arrival,
    accept-answer Command.read_write addr c.invoke_id (write_u32 0) r_buffers h
        (write_u32 n ++ content) answer
        (omega (
          arith,
          bo.length-write_int 4 0,
          bo.length-write_int 4 n,
          length-append {0} (write_u32 n) content,
        )),
  )

  -- What a sum-up request returns for a response that has just the size of its buffers.
  sumup-answered :
      (header : IndexLengthRw) (w_buffers r_buffers parts : List Bytes)
      → c.arrivals ≡ received h (write_u32 0 ++ (write_u32 n ++ concat parts)) ∷ later
      → IsAnswer Command.read_write addr c.invoke_id h
      → header.read_length < 2 ^ 32
      → header.write_length < 2 ^ 32
      → 48 + total_length w_buffers < 2 ^ 32
      → map length parts ≡ map length r_buffers
      → (sumup addr header w_buffers r_buffers c).0 ≡ ok parts
  sumup-answered header w_buffers r_buffers parts arrival answer r w t same =
      let sizes : map length (write_u32 n ∷ parts) ≡ map length (write_u32 0 ∷ r_buffers) =
        ap₂ (λ s t. s ∷ t) (bo.length-write_int 4 n ∙ sym (bo.length-write_int 4 0)) same in
      sumup_received header w_buffers r_buffers (concat parts) arrival answer r w t
      ∙ ap (λ out. ok (drop 1 out))
          (scatter-exact (write_u32 n ∷ parts) (write_u32 0 ∷ r_buffers) sizes)

  -- If a device answers a sum-up read without an error, with a result for each request and data
  -- that fills each buffer, and the lengths of the request fit 32 bits, then `read_multi` succeeds,
  -- and every request holds its own result and its own data.
  pub read_multi-answered :
      (qs : List Answered)
      → c.arrivals
        ≡ received h (write_u32 0 ++ (write_u32 n ++ concat (results_of qs ++ contents_of qs)))
          ∷ later
      → IsAnswer Command.read_write addr c.invoke_id h
      → All IsComplete qs
      → sum_lengths 8 (map (λ r. r.rbuf) (requests_of qs)) < 2 ^ 32
      → 48 + 12 * length qs < 2 ^ 32
      → (read_multi addr (requests_of qs) c).0 ≡ ok (map outcome qs)
  unfolding read_multi
  read_multi-answered qs arrival answer complete r w =
      let rs = requests_of qs in
      let count : length rs ≡ length qs = length_mapped (λ q. q.request) qs in
      let results : length (results_of qs) ≡ length rs =
        length_mapped (λ q. result_length_bytes q.result) qs ∙ sym count in
      let same =
        map_appended length (results_of qs) (contents_of qs)
        ∙ ap₂ (λ s t. s ++ t) (same_results qs) (same_contents qs complete)
        ∙ sym (
            map_appended length (map (λ r. result_length_bytes r.res) rs) (map (λ r. r.rbuf) rs)) in
      rw (
        sumup-answered
            (sumup_header sumup_read_ex (length rs) (sum_lengths 8 (map (λ r. r.rbuf) rs))
              (12 * length rs))
            (map (λ r. index_length_bytes r.req) rs)
            (map (λ r. result_length_bytes r.res) rs ++ map (λ r. r.rbuf) rs)
            (results_of qs ++ contents_of qs) arrival answer r (omega (arith, count))
            (omega (arith, count, total_length-requests rs)) same,
        take-append (length rs) (results_of qs) (contents_of qs) results,
        drop-append (length rs) (results_of qs) (contents_of qs) results,
        assign-results qs complete,
        assign-contents qs,
      )
