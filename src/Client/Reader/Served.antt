-- ===== src/Client/Reader/Served.antt =====
-- client.rs: the reader thread and the thread that made a request, together.
use ads_rs.Prelude.{
  ◌+◌, ◌^◌, ◌<◌, ◌≤◌, ◌≡◌, ◌≢◌, refl, sym, ap, ◌∙◌, true, List, [], ◌∷◌, ◌++◌, length,
}
use ads_rs.Wire.{Bytes, ByteOrder, write_u32}
use ads_rs.Errors.{ok}
use ads_rs.NetId.{AmsAddr}
use ads_rs.Client.Command.{Command, code}
use ads_rs.Client.Header.{AdsHeader, as_bytes}
use ads_rs.Client.Scatter.{scatter}
use ads_rs.Client.Action.{Arrival, Client, received, mem_id}
use ads_rs.Client.Exchange.{communicate, total_length}
use ads_rs.Client.Exchange.Response.{IsAnswer}
use ads_rs.Client.Device.Read.{accept-answer, communicate-received}
use ads_rs.Client.Reader.{Delivery, Waiting, dest_of, nothing, notify, read_one, settle}
use ads_rs.Client.Reader.Packet.{IsPacket, read_one-settles}

-- What a delivery of the reader thread is to the thread that waits on the channel.
abbrev pub arrivals_of : Delivery → List Arrival
arrivals_of nothing = []
arrivals_of (settle id h payload) = received h payload ∷ []
arrivals_of (notify n) = []

module _ ⦃bo : ByteOrder⦄ (cmd : Command) (target : AmsAddr) (payload : List Bytes) (buf : Bytes)
    (bufs : List Bytes) (c : Client) (w : Waiting) (h : AdsHeader) (content rest : Bytes) where
  -- If the answer to a request, with no error, a zero result field and content that fills the first
  -- output buffer, arrives on the connection while the request is active and its thread waits, then
  -- the reader thread takes it off the connection and makes a delivery, and with this delivery
  -- `communicate` returns the number of content bytes and the buffers with the content distributed.
  pub communicate-read_one :
      IsPacket h (write_u32 0 ++ content)
      → dest_of h ≡ c.source
      → code cmd ≢ 8
      → IsAnswer cmd target c.invoke_id h
      → mem_id c.invoke_id w.pending ≡ true
      → w.alive c.invoke_id ≡ true
      → 32 + total_length payload < 2 ^ 32
      → length buf ≤ length content
      → (d : Delivery) × (read_one c.source w (as_bytes h ++ ((write_u32 0 ++ content) ++ rest))
          ≡ ok (d, rest))
        × ((communicate cmd target payload (buf ∷ bufs) (record c { arrivals = arrivals_of d })).0
            ≡ ok (length content, scatter content 0 (length content) (buf ∷ bufs)))
  communicate-read_one packet to_us reply_like answer active waits fits enough =
      let id = answer.invoke_id in
      let answering : Client = record c { arrivals = received h (write_u32 0 ++ content) ∷ [] } in
      (
        settle h.invoke_id h (write_u32 0 ++ content),
        read_one-settles c.source w h (write_u32 0 ++ content) rest packet to_us
            (λ e. reply_like (sym answer.command ∙ e)) (ap (λ i. mem_id i w.pending) id ∙ active)
            (ap w.alive id ∙ waits),
        communicate-received cmd target payload (buf ∷ bufs) answering fits refl
            ∙ accept-answer cmd target c.invoke_id buf bufs h content answer enough,
      )
