-- ===== src/Client/Device/Multi.antt =====
-- client.rs: the sum-up requests of `Device`, several reads, writes, calls or notification handles
-- in one exchange.
use ads_rs.Prelude.{ℕ, ◌+◌, ◌*◌, ◌%◌, ◌^◌, List, [], ◌∷◌, ◌++◌, map, length, take, drop}
use ads_rs.Index.{sumup_read_ex, sumup_write, sumup_readwrite, sumup_adddevnote, sumup_deldevnote}
use ads_rs.Wire.{Bytes, ByteOrder, write_u32}
use ads_rs.Errors.{Result, ok, err, panic}
use ads_rs.NetId.{AmsAddr}
use ads_rs.Client.Command.{read_write}
use ads_rs.Client.Structs.{
  IndexLengthRw, index_length_bytes, index_length_rw_bytes, result_length_bytes, result_length_of,
  add_notif_bytes,
}
use ads_rs.Client.Requests.{
  ReadRequest, WriteRequest, WriteReadRequest, AddNotifRequest, DelNotifRequest, handle_of,
  del_ensure,
}
use ads_rs.Client.Action.{Action, pure, lift, insert_key, remove_key, ◌>>=◌, ◌>>◌}
use ads_rs.Client.Exchange.{communicate}
use ads_rs.Client.Device.{fits_u32, change_handles}
use ads_rs.Client.Fixup.{fixup_write_read_return_buffers}

-- The sum of the lengths of buffers, each with `extra` bytes more.
abbrev pub sum_lengths : ℕ → List Bytes → ℕ
sum_lengths extra [] = 0
sum_lengths extra (b ∷ bs) = extra + length b + sum_lengths extra bs

abbrev pub sumup_header : ℕ → ℕ → ℕ → ℕ → IndexLengthRw
sumup_header index_group nreq rlen wlen = record {
  index_group = index_group;
  index_offset = nreq % 2 ^ 32;
  read_length = rlen;
  write_length = wlen;
}

-- The outputs assigned to the requests, in their order. There is one for each request.
abbrev pub assign {ℓ} : {R : Type ℓ} → (R → Bytes → R) → List R → List Bytes → List R
assign put [] bufs = []
assign put (r ∷ rs) [] = r ∷ rs
assign put (r ∷ rs) (b ∷ bufs) = put r b ∷ assign put rs bufs

-- The requests for which `wanted` has a handle, and the change for each.
abbrev pub for_each_handle {ℓ} :
    {R : Type ℓ}
    → (R → Result ℕ)
    → (ℕ → List (AmsAddr × ℕ) → List (AmsAddr × ℕ))
    → List R
    → List (AmsAddr × ℕ)
    → List (AmsAddr × ℕ)
for_each_handle wanted change [] handles = handles
for_each_handle wanted change (r ∷ rs) handles =
    for_each_handle wanted change rs (change_if (wanted r) change handles)
  where
    change_if :
        Result ℕ
        → (ℕ → List (AmsAddr × ℕ) → List (AmsAddr × ℕ))
        → List (AmsAddr × ℕ)
        → List (AmsAddr × ℕ)
    change_if (ok h) f hs = f h hs
    change_if (err e) f hs = hs
    change_if panic f hs = hs

-- The handle of a request that has been granted.
abbrev pub deleted : DelNotifRequest → Result ℕ
deleted r = elim (del_ensure r) [ ok u ↦ ok r.req | err e ↦ err e | panic ↦ panic ]

module _ ⦃bo : ByteOrder⦄ where
  -- The request of a sum-up operation: its header, and what is written behind it. The result is the
  -- output buffers behind the announced length.
  unfoldable pub sumup : AmsAddr → IndexLengthRw → List Bytes → List Bytes → Action (List Bytes)
  sumup addr header w_buffers r_buffers = do
    fits_u32 header.read_length
    fits_u32 header.write_length
    (_n, out) ←
        communicate read_write addr (index_length_rw_bytes header ∷ w_buffers)
          (write_u32 0 ∷ r_buffers)
    pure (drop 1 out)

  unfoldable pub read_multi : AmsAddr → List ReadRequest → Action (List ReadRequest)
  unfolding sumup
  read_multi addr requests = do
    let nreq = length requests
    let rlen = sum_lengths 8 (map (λ r. r.rbuf) requests)
    out ←
        sumup addr (sumup_header sumup_read_ex nreq rlen (12 * nreq))
          (map (λ r. index_length_bytes r.req) requests)
          (map (λ r. result_length_bytes r.res) requests ++ map (λ r. r.rbuf) requests)
    let answered = assign (λ r b. record r { res = result_length_of b }) requests (take nreq out)
    pure (assign (λ r b. record r { rbuf = b }) answered (drop nreq out))

  unfoldable pub write_multi : AmsAddr → List WriteRequest → Action (List WriteRequest)
  unfolding sumup
  write_multi addr requests = do
    let nreq = length requests
    let wlen = sum_lengths 12 (map (λ r. r.wbuf) requests)
    out ←
        sumup addr (sumup_header sumup_write nreq (4 * nreq) wlen)
          (map (λ r. index_length_bytes r.req) requests ++ map (λ r. r.wbuf) requests)
          (map (λ r. write_u32 r.res) requests)
    pure (assign (λ r b. record r { res = bo.read_int b }) requests out)

  unfoldable pub write_read_multi : AmsAddr → List WriteReadRequest → Action (List WriteReadRequest)
  unfolding sumup
  write_read_multi addr requests = do
    let nreq = length requests
    let rlen = sum_lengths 8 (map (λ r. r.rbuf) requests)
    let wlen = sum_lengths 16 (map (λ r. r.wbuf) requests)
    out ←
        sumup addr (sumup_header sumup_readwrite nreq rlen wlen)
          (map (λ r. index_length_rw_bytes r.req) requests ++ map (λ r. r.wbuf) requests)
          (map (λ r. result_length_bytes r.res) requests ++ map (λ r. r.rbuf) requests)
    let answered = assign (λ r b. record r { res = result_length_of b }) requests (take nreq out)
    let filled = assign (λ r b. record r { rbuf = b }) answered (drop nreq out)
    rbufs ← lift (fixup_write_read_return_buffers (map (λ r. (r.rbuf, r.res.length_)) filled))
    pure (assign (λ r b. record r { rbuf = b }) filled rbufs)

  unfoldable pub add_notification_multi :
      {Key : Type 0} → AmsAddr → List (AddNotifRequest Key) → Action (List (AddNotifRequest Key))
  unfolding sumup
  add_notification_multi addr requests = do
    let nreq = length requests
    out ←
        sumup addr (sumup_header sumup_adddevnote nreq (8 * nreq) (40 * nreq))
          (map (λ r. add_notif_bytes r.req) requests)
          (map (λ r. result_length_bytes r.res) requests)
    let answered = assign (λ r b. record r { res = result_length_of b }) requests out
    change_handles (for_each_handle handle_of (λ h. insert_key (addr, h)) answered)
    pure answered

  unfoldable pub delete_notification_multi :
      AmsAddr → List DelNotifRequest → Action (List DelNotifRequest)
  unfolding sumup
  delete_notification_multi addr requests = do
    let nreq = length requests
    out ←
        sumup addr (sumup_header sumup_deldevnote nreq (4 * nreq) (4 * nreq))
          (map (λ r. write_u32 r.req) requests) (map (λ r. write_u32 r.res) requests)
    let answered = assign (λ r b. record r { res = bo.read_int b }) requests out
    change_handles (for_each_handle deleted (λ h. remove_key (addr, h)) answered)
    pure answered
