-- ===== src/Client/Lifecycle/Dropped.antt =====
-- client.rs: what a client that is dropped writes to the socket.
use ads_rs.Prelude.{
  ℕ, ◌+◌, ◌%◌, ◌^◌, ◌≡◌, ◌≢◌, refl, sym, ap, ◌∙◌, Bool, true, false, List, [], ◌∷◌, ◌++◌, All,
  if◌then◌else◌, length,
}
use mathlib.Core.Path.{ap₂, subst}
use ads_rs.Wire.{Bytes, ByteOrder, write_u32, concat}
use ads_rs.Errors.{ok, panic, Result-cases, is_ok, is_err, is_panic}
use ads_rs.NetId.{AmsAddr}
use ads_rs.Client.Command.{Command}
use ads_rs.Client.Header.{as_bytes}
use ads_rs.Client.Action.{
  Arrival, Client, HandleKey, device, ignored, written, next_arrival, later_arrivals,
}
use ads_rs.Client.Exchange.{request_header, communicate, await}
use ads_rs.Client.Exchange.Safe.{HasResult, await-ne_panic}
use ads_rs.Client.Device.{delete_notification}
use ads_rs.Client.Lifecycle.Drop.{close_handles, close_port_msg, close_port, drop_client}

module _ ⦃bo : ByteOrder⦄ where
  await-fields :
      (cmd : Command) (target : AmsAddr) (id : ℕ) (bufs : List Bytes) (a : Arrival) (c : Client)
      → ((await cmd target id bufs a c).1.source ≡ c.source)
        × ((await cmd target id bufs a c).1.invoke_id ≡ c.invoke_id)
        × ((await cmd target id bufs a c).1.sent ≡ c.sent)
        × ((await cmd target id bufs a c).1.arrivals ≡ c.arrivals)
  unfolding await
  await-fields cmd target id bufs (Arrival.write_failed n e) c = (refl, refl, refl, refl)
  await-fields cmd target id bufs _ c = (refl, refl, refl, refl)

  -- The packet by which a client with this source address asks for the deletion of a handle.
  abbrev pub delete_packet : AmsAddr → AmsAddr → ℕ → ℕ → Bytes
  delete_packet source target handle id =
      as_bytes (request_header source Command.delete_notification target 4 id)
      ++ concat (write_u32 handle ∷ [])

  -- What a client with this source address and these active handles writes when it is dropped, the
  -- newest first: for each handle one deletion request, with consecutive invoke IDs, or the part of
  -- it that goes out before its write fails.
  abbrev pub delete_packets : Client → List HandleKey → ℕ → List Arrival → List Bytes → List Bytes
  delete_packets c [] id arrivals sent = sent
  delete_packets c ((target, handle) ∷ handles) id arrivals sent =
      delete_packets c handles ((id + 1) % 2 ^ 32) (later_arrivals arrivals) (
        written (next_arrival arrivals) (delete_packet c.source (device c target) handle id) ∷ sent)

  -- What the deletions leave to be met.
  abbrev pub left_over : List HandleKey → List Arrival → List Arrival
  left_over [] arrivals = arrivals
  left_over (k ∷ handles) arrivals = left_over handles (later_arrivals arrivals)

  -- What a single deletion leaves of the client, whatever it meets.
  record Deleted (c c' : Client) (target : AmsAddr) (handle : ℕ) : Type 0 where
    source : c'.source ≡ c.source
    invoke_id : c'.invoke_id ≡ (c.invoke_id + 1) % 2 ^ 32
    arrivals : c'.arrivals ≡ later_arrivals c.arrivals
    sent :
        c'.sent
        ≡ written (next_arrival c.arrivals) (delete_packet c.source target handle c.invoke_id)
          ∷ c.sent

  communicate-Deleted :
      (target : AmsAddr) (handle : ℕ) (c : Client)
      → HasResult (next_arrival c.arrivals)
      → ((communicate Command.delete_notification target (write_u32 handle ∷ []) [] c).0 ≢ panic)
        × Deleted c
            (communicate Command.delete_notification target (write_u32 handle ∷ []) [] c).1
            target
            handle
  unfolding communicate
  communicate-Deleted target handle c enough =
      let size : length (write_u32 handle) ≡ 4 = bo.length-write_int 4 handle in
      let fields =
        await-fields Command.delete_notification target c.invoke_id [] (next_arrival c.arrivals) in
      rw (size) (
        await-ne_panic Command.delete_notification target c.invoke_id (next_arrival c.arrivals) _
            enough,
        record {
          source = (fields _).0;
          invoke_id = (fields _).1;
          sent = (fields _).2;
          arrivals = (fields _).3;
        },
      )

  delete-Deleted :
      (target : AmsAddr) (handle : ℕ) (c : Client)
      → HasResult (next_arrival c.arrivals)
      → ((ignored (delete_notification target handle c)).0 ≡ ok tt)
        × Deleted c (ignored (delete_notification target handle c)).1 target handle
  unfolding delete_notification ignored
  delete-Deleted target handle c enough =
      let m = communicate Command.delete_notification target (write_u32 handle ∷ []) [] c in
      let (safe, d) = communicate-Deleted target handle c enough in
      elim (Result-cases m.0) [
        | is_ok a e ↦ rw e (
          refl,
          record {
            source = d.source;
            invoke_id = d.invoke_id;
            sent = d.sent;
            arrivals = d.arrivals;
          },
        )
        | is_err x e ↦ rw e (refl, d)
        | is_panic e ↦ absurd (safe e)
      ]

  device-source :
      (target : AmsAddr) (c c₀ : Client) → c.source ≡ c₀.source → device c target ≡ device c₀ target
  unfolding device
  device-source target c c₀ same = rw same refl

  All-next : (as' : List Arrival) → All HasResult as' → HasResult (next_arrival as')
  All-next [] h = tt
  All-next (a ∷ as') h = h.0

  All-later : (as' : List Arrival) → All HasResult as' → All HasResult (later_arrivals as')
  All-later [] h = tt
  All-later (a ∷ as') h = h.1

  -- What the loop over the handles leaves of the client.
  record Closed (c₀ c c' : Client) (handles : List HandleKey) : Type 0 where
    source : c'.source ≡ c₀.source
    arrivals : c'.arrivals ≡ left_over handles c.arrivals
    sent : c'.sent ≡ delete_packets c₀ handles c.invoke_id c.arrivals c.sent

  close_handles-Closed :
      (handles : List HandleKey) (c c₀ : Client)
      → c.source ≡ c₀.source
      → All HasResult c.arrivals
      → ((close_handles handles c).0 ≡ ok tt) × Closed c₀ c (close_handles handles c).1 handles
  unfolding close_handles
  close_handles-Closed [] c c₀ same h =
      (refl, record { source = same; arrivals = refl; sent = refl })
  close_handles-Closed ((target, handle) ∷ handles) c c₀ same h =
      let (went_on, d) = delete-Deleted (device c target) handle c (All-next c.arrivals h) in
      let c' = (ignored (delete_notification (device c target) handle c)).1 in
      let moved = device-source target c c₀ same in
      let enough = subst (All HasResult) (sym d.arrivals) (All-later c.arrivals h) in
      let (closed, k) = close_handles-Closed handles c' c₀ (d.source ∙ same) enough in
      rw went_on (
        closed,
        record {
          source = k.source;
          arrivals = k.arrivals ∙ ap (left_over handles) d.arrivals;
          sent =
              k.sent
              ∙ ap₂ (λ i as'. delete_packets c₀ handles i as' c'.sent) d.invoke_id d.arrivals
              ∙ ap
                  (delete_packets c₀ handles ((c.invoke_id + 1) % 2 ^ 32)
                    (later_arrivals c.arrivals))
                  (d.sent
                    ∙ ap₂
                        (λ a t.
                          written (next_arrival c.arrivals) (delete_packet a t handle c.invoke_id)
                          ∷ c.sent)
                        same moved);
        },
      )

  -- If no response that the requests are to meet has fewer than four bytes, then a client that is
  -- dropped ends without a panic. It writes a deletion request for each of its active notification
  -- handles, to the address that the handle stands for and with consecutive invoke IDs, whatever
  -- becomes of the requests before, and then, if its port was opened by the router, the message that
  -- closes the port; of one whose write fails only the first bytes, as many as went out.
  pub sent-drop_client :
      (opened : Bool) (c : Client)
      → All HasResult c.arrivals
      → ((drop_client opened c).0 ≡ ok tt)
        × ((drop_client opened c).1.sent ≡ (
            if opened
            then written
                (next_arrival (left_over c.notif_handles c.arrivals))
                (close_port_msg c.source.port)
              ∷ delete_packets c c.notif_handles c.invoke_id c.arrivals c.sent
            else delete_packets c c.notif_handles c.invoke_id c.arrivals c.sent))
  unfolding drop_client close_port
  sent-drop_client true c h =
      let (closed, k) =
        close_handles-Closed c.notif_handles (record c { notif_handles = [] }) c refl h in
      rw closed (
        refl,
        ap₂
              (λ a s.
                written (next_arrival a) (close_port_msg s.port)
                ∷ (close_handles c.notif_handles (record c { notif_handles = [] })).1.sent)
              k.arrivals k.source
            ∙ ap
                (λ s.
                  written (next_arrival (left_over c.notif_handles c.arrivals))
                    (close_port_msg c.source.port)
                  ∷ s)
                k.sent,
      )
  sent-drop_client false c h =
      let (closed, k) =
        close_handles-Closed c.notif_handles (record c { notif_handles = [] }) c refl h in
      rw closed (refl, k.sent)
