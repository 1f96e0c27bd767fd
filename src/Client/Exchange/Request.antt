-- ===== src/Client/Exchange/Request.antt =====
-- client.rs: what `communicate` writes to the socket, and the active requests that it leaves.
use ads_rs.Prelude.{
  ℕ, ◌+◌, ◌%◌, ◌^◌, ◌<◌, ◌≤◌, ◌≡◌, refl, ◌∙◌, ap, Bool, true, false, List, [], ◌∷◌, ◌++◌, arith,
  lt→ltb, le→ltb, ◌==◌, if◌then◌else◌, length, length-append,
}
use ads_rs.Wire.{Bytes, ByteOrder, concat}
use ads_rs.Errors.{ok, err, overflow}
use ads_rs.NetId.{AmsAddr, IsAddr}
use ads_rs.Client.Command.{Command, code-lt}
use ads_rs.Client.Header.{IsHeader, as_bytes, read_fields, read_fields-as_bytes, length-as_bytes}
use ads_rs.Client.Action.{
  next_arrival, written, Arrival, Client, received, failed, disconnected, write_failed, timed_out,
  insert_id, remove_id, mem_id,
}
use ads_rs.Client.Exchange.{total_length, request_header, await, communicate}

pub mem_id-remove_id :
    (id j : ℕ) (ks : List ℕ) → mem_id j (remove_id id ks) ≡ (if id == j then false else mem_id j ks)
unfolding mem_id remove_id
mem_id-remove_id id j [] = ground arith
mem_id-remove_id id j (k ∷ ks) = ground (arith, mem_id-remove_id id j ks)

pub mem_id-insert_id :
    (id j : ℕ) (ks : List ℕ) → mem_id j (insert_id id ks) ≡ (if id == j then true else mem_id j ks)
unfolding mem_id insert_id
mem_id-insert_id id j [] = ground arith
mem_id-insert_id id j (k ∷ ks) = ground (arith, mem_id-insert_id id j ks)

mem_id-settled :
    (id j : ℕ) (ks : List ℕ)
    → mem_id j (remove_id id (insert_id id ks)) ≡ (if id == j then false else mem_id j ks)
mem_id-settled id j ks =
    ground (arith, mem_id-remove_id id j (insert_id id ks), mem_id-insert_id id j ks)

length-concat : (bs : List Bytes) → length (concat bs) ≡ total_length bs
length-concat [] = refl
length-concat (b ∷ bs) = length-append b (concat bs) ∙ ap (λ n. length b + n) (length-concat bs)

-- Whether a request is active after another has met this: `own` says whether it is that one, and
-- `before` whether it was active.
abbrev pub still_active : Arrival → Bool → Bool → Bool
still_active (write_failed n e) own before = if own then true else before
still_active (failed e) own before = false
still_active (received h p) own before = if own then false else before
still_active disconnected own before = if own then false else before
still_active timed_out own before = if own then false else before

request_header-IsHeader :
    (source target : AmsAddr) (cmd : Command) (payload_len id : ℕ)
    → IsAddr source
    → IsAddr target
    → 32 + payload_len < 2 ^ 32
    → id < 2 ^ 32
    → IsHeader (request_header source cmd target payload_len id)
unfolding request_header
request_header-IsHeader source target cmd payload_len id s t h k = record {
  ams_cmd = omega arith;
  length_ = h;
  dest_netid = t.netid;
  dest_port = t.port;
  src_netid = s.netid;
  src_port = s.port;
  command = code-lt cmd;
  state_flags = omega arith;
  data_length = omega arith;
  error_code = omega arith;
  invoke_id = k;
}

module _ ⦃bo : ByteOrder⦄ (cmd : Command) (target : AmsAddr)
    (payload result_bufs : List Bytes) where
  sent-await :
      (id : ℕ) (a : Arrival) (c : Client) → (await cmd target id result_bufs a c).1.sent ≡ c.sent
  unfolding await
  sent-await id (write_failed n e) c = refl
  sent-await id _ c = refl

  mem_id-await :
      (id j : ℕ) (a : Arrival) (c : Client) (ids : List ℕ)
      → c.pending ≡ insert_id id ids
      → mem_id j (await cmd target id result_bufs a c).1.pending
        ≡ still_active a (id == j) (mem_id j ids)
  unfolding await mem_id
  mem_id-await id j (write_failed n e) c ids p = ap (mem_id j) p ∙ mem_id-insert_id id j ids
  mem_id-await id j (failed e) c ids p = refl
  mem_id-await id j (received h b) c ids p =
      ap (λ t. mem_id j (remove_id id t)) p ∙ mem_id-settled id j ids
  mem_id-await id j disconnected c ids p =
      ap (λ t. mem_id j (remove_id id t)) p ∙ mem_id-settled id j ids
  mem_id-await id j timed_out c ids p =
      ap (λ t. mem_id j (remove_id id t)) p ∙ mem_id-settled id j ids

  module _ (c : Client) (fits : 32 + total_length payload < 2 ^ 32) where
    -- For a request whose length and invoke ID fit 32 bits, from a valid source to a valid target, one
    -- packet is written to the socket, or its first bytes, as many as went out before the write failed. The
    -- packet is decoded to the header of the request and, behind it, the payload buffers joined; and
    -- its length is that of a header and the payload.
    pub sent-communicate :
        IsAddr c.source
        → IsAddr target
        → c.invoke_id < 2 ^ 32
        → (packet : Bytes) × ((communicate cmd target payload result_bufs c).1.sent
            ≡ written (next_arrival c.arrivals) packet ∷ c.sent)
          × (read_fields packet
              ≡ ok (
                request_header c.source cmd target (total_length payload) c.invoke_id,
                concat payload,
              ))
          × (length packet ≡ 38 + total_length payload)
    unfolding communicate
    sent-communicate s t k =
        let h = request_header c.source cmd target (total_length payload) c.invoke_id in
        let valid : IsHeader h =
          request_header-IsHeader c.source target cmd (total_length payload) c.invoke_id s t fits
            k in
        (
          as_bytes h ++ concat payload,
          rw (lt→ltb (32 + total_length payload) (2 ^ 32) fits, sent-await),
          read_fields-as_bytes h (concat payload) valid,
          omega (
            arith,
            length-append {0} (as_bytes h) (concat payload),
            length-as_bytes h valid,
            length-concat payload,
          ),
        )

    -- After such a request its invoke ID is an active request exactly if the write failed. If the
    -- reader thread sent its error, which it does at its end, no request is active; otherwise all
    -- other invoke IDs are active exactly if they were.
    pub pending-communicate :
        (j : ℕ)
        → mem_id j (communicate cmd target payload result_bufs c).1.pending
          ≡ still_active (next_arrival c.arrivals) (c.invoke_id == j) (mem_id j c.pending)
    unfolding communicate
    pending-communicate j =
        rw (lt→ltb (32 + total_length payload) (2 ^ 32) fits)
          (mem_id-await c.invoke_id j (next_arrival c.arrivals) _ c.pending refl)

  -- A request whose length does not fit 32 bits is refused: nothing is written, no request becomes
  -- active, and no outcome is awaited; but its invoke ID is used up.
  pub communicate-overflow :
      (c : Client)
      → 2 ^ 32 ≤ 32 + total_length payload
      → communicate cmd target payload result_bufs c
        ≡ (err overflow, record c { invoke_id = (c.invoke_id + 1) % 2 ^ 32 })
  unfolding communicate
  communicate-overflow c h = rw (le→ltb (32 + total_length payload) (2 ^ 32) h)
