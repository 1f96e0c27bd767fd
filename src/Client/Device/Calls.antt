-- ===== src/Client/Device/Calls.antt =====
-- client.rs: `write_read_multi` from the answer of the device to the data that each request gives out.
use ads_rs.Prelude.{
  ℕ, ◌+◌, ◌^◌, ◌<◌, ◌≤◌, ◌≡◌, refl, sym, ap, ◌∙◌, All, List, [], ◌∷◌, ◌++◌, map, arith, length,
  length-append, drop, take-append, drop-append, append_assoc,
}
use mathlib.Core.Path.{ap₂}
use ads_rs.Wire.{Bytes, ByteOrder, concat, write_u32}
use ads_rs.Errors.{ok}
use ads_rs.NetId.{AmsAddr}
use ads_rs.Index.{sumup_readwrite}
use ads_rs.Client.Command
use ads_rs.Client.Header.{AdsHeader}
use ads_rs.Client.Structs.{index_length_rw_bytes, result_length_bytes, result_length_of}
use ads_rs.Client.Requests.{WriteReadRequest, write_read_data}
use ads_rs.Client.Action.{Arrival, Client, received}
use ads_rs.Client.Scatter.{scatter}
use ads_rs.Client.Exchange.{total_length}
use ads_rs.Client.Exchange.Response.{IsAnswer}
use ads_rs.Client.Fixup.{fixup_write_read_return_buffers}
use ads_rs.Client.Fixup.Request.{served}
use ads_rs.Client.Fixup.Served.{fixup_write_read_return_buffers-served}
use ads_rs.Client.Device.Multi.{sum_lengths, sumup_header, write_read_multi, assign}
use ads_rs.Client.Device.Answers.{
  length-result_length_bytes, result_length_of-bytes, length_mapped, lengths_add_up,
}
use ads_rs.Client.Device.Complete.{sumup_received, length-index_length_rw_bytes}
use ads_rs.Client.Device.Parted.{scatter_parted}
use ads_rs.Client.Device.Short.{
  Called, IsShort, requests_of, contents_of, rbufs_of, reply_of, with_rbuf, with_results, spread,
  Sized, buffers-spread, contents-spread, spread-Fits, spread_filled, spread-served,
}

short_contents :
    (qs : List Called)
    → All IsShort qs
    → length (concat (contents_of qs)) ≤ length (concat (rbufs_of qs))
short_contents [] h = omega arith
short_contents (q ∷ qs) h = omega (
  arith,
  h.0.fits,
  short_contents qs h.1,
  length-append {0} q.content (concat (contents_of qs)),
  length-append {0} q.request.rbuf (concat (rbufs_of qs)),
)

total_length-append :
    (as' bs : List Bytes) → total_length (as' ++ bs) ≡ total_length as' + total_length bs
total_length-append [] bs = omega arith
total_length-append (a ∷ as') bs = omega (arith, total_length-append as' bs)

-- The data moved to its requests.
moved_back :
    (qs : List Called) (bufs : List Bytes)
    → Sized qs bufs
    → All IsShort qs
    → concat bufs
      ≡ concat (contents_of qs) ++ drop (length (concat (contents_of qs))) (concat (rbufs_of qs))
    → fixup_write_read_return_buffers
        (map (λ r. (r.rbuf, r.res.length_)) (assign with_rbuf (with_results qs) bufs))
      ≡ ok (map served (spread qs bufs))
moved_back qs bufs sized short joined =
    let junk = drop (length (concat (contents_of qs))) (concat (rbufs_of qs)) in
    ap fixup_write_read_return_buffers (spread_filled qs bufs sized short)
    ∙ fixup_write_read_return_buffers-served (spread qs bufs) junk (spread-Fits qs bufs sized short)
        (ap concat (buffers-spread qs bufs sized)
          ∙ joined
          ∙ ap (λ t. concat t ++ junk) (sym (contents-spread qs bufs sized)))

module _ ⦃bo : ByteOrder⦄ where
  abbrev pub results_of : List Called → List Bytes
  results_of = map (λ q. result_length_bytes q.result)

  same_results :
      (qs : List Called)
      → map length (results_of qs)
        ≡ map length (map (λ r. result_length_bytes r.res) (requests_of qs))
  same_results [] = refl
  same_results (q ∷ qs) =
      ap₂ (λ s t. s ∷ t)
        (length-result_length_bytes q.result ∙ sym (length-result_length_bytes q.request.res))
        (same_results qs)

  assign-results :
      (qs : List Called)
      → All IsShort qs
      → assign (λ r b. record r { res = result_length_of b }) (requests_of qs) (results_of qs)
        ≡ with_results qs
  assign-results [] h = refl
  assign-results (q ∷ qs) h =
      ap₂ (λ s t. record q.request { res = s } ∷ t)
        (result_length_of-bytes q.result h.0.result h.0.length_) (assign-results qs h.1)

  total_length_calls :
      (rs : List WriteReadRequest)
      → total_length (map (λ r. index_length_rw_bytes r.req) rs ++ map (λ r. r.wbuf) rs)
        ≡ sum_lengths 16 (map (λ r. r.wbuf) rs)
  total_length_calls rs =
      total_length-append (map (λ r. index_length_rw_bytes r.req) rs) (map (λ r. r.wbuf) rs)
      ∙ headers_and_data rs
    where
      headers_and_data :
          (rs : List WriteReadRequest)
          → total_length (map (λ r. index_length_rw_bytes r.req) rs)
              + total_length (map (λ r. r.wbuf) rs)
            ≡ sum_lengths 16 (map (λ r. r.wbuf) rs)
      headers_and_data [] = refl
      headers_and_data (r ∷ rs) =
          omega (arith, length-index_length_rw_bytes r.req, headers_and_data rs)

  module _ (addr : AmsAddr) (c : Client) {h : AdsHeader} {later : List Arrival} (n : ℕ) where
    -- If a device answers a sum-up call without an error, with a result for each request that
    -- announces as much data as its buffer can hold, and with the data of all requests in a row,
    -- and the lengths of the request fit 32 bits, then `write_read_multi` succeeds, and every
    -- request gives out its own data, or the error that the device reports for it.
    pub write_read_multi-answered :
        (qs : List Called)
        → c.arrivals
          ≡ received h
              (write_u32 0 ++ (write_u32 n ++ (concat (results_of qs) ++ concat (contents_of qs))))
            ∷ later
        → IsAnswer Command.read_write addr c.invoke_id h
        → All IsShort qs
        → sum_lengths 8 (map (λ r. r.rbuf) (requests_of qs)) < 2 ^ 32
        → 48 + sum_lengths 16 (map (λ r. r.wbuf) (requests_of qs)) < 2 ^ 32
        → (rs : List WriteReadRequest) × ((write_read_multi addr (requests_of qs) c).0 ≡ ok rs)
          × (map write_read_data rs ≡ map reply_of qs)
    unfolding write_read_multi
    write_read_multi-answered qs arrival answer short r w =
        let rs = requests_of qs in
        let old = map (λ r. result_length_bytes r.res) rs in
        let results = results_of qs in
        let row = concat (contents_of qs) in
        let count : length rs ≡ length qs = length_mapped (λ q. q.request) qs in
        let as_many : length results ≡ length rs =
          length_mapped (λ q. result_length_bytes q.result) qs ∙ sym count in
        let sizes : map length (write_u32 n ∷ results) ≡ map length (write_u32 0 ∷ old) =
          ap₂ (λ s t. s ∷ t) (bo.length-write_int 4 n ∙ sym (bo.length-write_int 4 0))
            (same_results qs) in
        let (after, whole, sized, joined) =
          scatter_parted (write_u32 n ∷ results) (write_u32 0 ∷ old) (rbufs_of qs) row sizes
            (lengths_add_up (write_u32 n ∷ results) (write_u32 0 ∷ old) sizes)
            (short_contents qs short) in
        let scattered =
          ap (λ s. scatter s 0 (length s) (write_u32 0 ∷ (old ++ rbufs_of qs)))
            (sym (append_assoc (write_u32 n) (concat results) row))
          ∙ whole in
        let filled = assign with_rbuf (with_results qs) after in
        (
          assign with_rbuf filled (map served (spread qs after)),
          (rw (
            sumup_received addr c n
                (sumup_header sumup_readwrite (length rs) (sum_lengths 8 (rbufs_of qs))
                  (sum_lengths 16 (map (λ r. r.wbuf) rs)))
                (map (λ r. index_length_rw_bytes r.req) rs ++ map (λ r. r.wbuf) rs)
                (old ++ rbufs_of qs) (concat results ++ row) arrival answer r (omega arith)
                (omega (arith, total_length_calls rs)),
            scattered,
            take-append (length rs) results after as_many,
            drop-append (length rs) results after as_many,
            assign-results qs short,
            moved_back qs after sized short joined,
          )),
          spread-served qs after sized short,
        )
