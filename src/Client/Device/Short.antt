-- ===== src/Client/Device/Short.antt =====
-- client.rs: what `write_read_multi` makes of an answer with less data than the buffers hold, from
-- the response to the data that each request gives out.
use ads_rs.Prelude.{
  ◌^◌, ◌<◌, ◌≤◌, ◌≡◌, refl, sym, ap, All, List, [], ◌∷◌, ◌++◌, map, arith, length, ◌==◌,
  if◌then◌else◌, le→leb, length-append, drop, take-append,
}
use mathlib.Core.Path.{ap₂}
use ads_rs.Wire.{Bytes}
use ads_rs.Errors.{Result, ok}
use ads_rs.Errors.Codes.{ads_error}
use ads_rs.Client.Structs.{ResultLength}
use ads_rs.Client.Requests.{WriteReadRequest, write_read_data}
use ads_rs.Client.Fixup.{buffers}
use ads_rs.Client.Fixup.Table.{Placed, Fits, with_lengths, contents}
use ads_rs.Client.Fixup.Request.{served}
use ads_rs.Client.Device.Multi.{assign}

-- A call with the result and the data that the device answers.
pub record Called : Type 0 where
  pub request : WriteReadRequest
  pub result : ResultLength
  pub content : Bytes

-- The result is in range and announces the data, which the request's buffer can hold.
pub record IsShort (q : Called) : Type 0 where
  pub result : q.result.result < 2 ^ 32
  pub length_ : q.result.length_ < 2 ^ 32
  pub announces : q.result.length_ ≡ length q.content
  pub fits : length q.content ≤ length q.request.rbuf

abbrev pub requests_of : List Called → List WriteReadRequest
requests_of = map (λ q. q.request)

abbrev pub contents_of : List Called → List Bytes
contents_of = map (λ q. q.content)

abbrev pub rbufs_of : List Called → List Bytes
rbufs_of qs = map (λ r. r.rbuf) (requests_of qs)

-- What the request gives out: its data, or the error that the device reports for it.
abbrev pub reply_of : Called → Result Bytes
reply_of q =
    if q.result.result == 0 then ok q.content else ads_error "multi-read/write data" q.result.result

abbrev pub with_rbuf : WriteReadRequest → Bytes → WriteReadRequest
with_rbuf r b = record r { rbuf = b }

abbrev pub with_results : List Called → List WriteReadRequest
with_results = map (λ q. record q.request { res = q.result })

-- The calls with the buffers as the response leaves them.
abbrev pub spread : List Called → List Bytes → List Placed
spread [] bufs = []
spread (q ∷ qs) [] = []
spread (q ∷ qs) (b ∷ bufs) = record { buffer = b; content = q.content } ∷ spread qs bufs

abbrev pub Sized : List Called → List Bytes → Type 0
Sized qs bufs = map length bufs ≡ map length (rbufs_of qs)

pub buffers-spread :
    (qs : List Called) (bufs : List Bytes)
    → Sized qs bufs
    → buffers (with_lengths (spread qs bufs)) ≡ bufs
buffers-spread [] [] s = refl
buffers-spread [] (b ∷ bufs) s = cc
buffers-spread (q ∷ qs) [] s = cc
buffers-spread (q ∷ qs) (b ∷ bufs) s =
    let more : map length bufs ≡ map length (rbufs_of qs) = cc in
    ap (λ t. b ∷ t) (buffers-spread qs bufs more)

pub contents-spread :
    (qs : List Called) (bufs : List Bytes)
    → Sized qs bufs
    → contents (spread qs bufs) ≡ contents_of qs
contents-spread [] bufs s = refl
contents-spread (q ∷ qs) [] s = cc
contents-spread (q ∷ qs) (b ∷ bufs) s =
    let more : map length bufs ≡ map length (rbufs_of qs) = cc in
    ap (λ t. q.content ∷ t) (contents-spread qs bufs more)

pub spread-Fits :
    (qs : List Called) (bufs : List Bytes) → Sized qs bufs → All IsShort qs → Fits (spread qs bufs)
spread-Fits [] bufs s h = tt
spread-Fits (q ∷ qs) [] s h = tt
spread-Fits (q ∷ qs) (b ∷ bufs) s h =
    let size : length b ≡ length q.request.rbuf = cc in
    let more : map length bufs ≡ map length (rbufs_of qs) = cc in
    (omega (arith, size, h.0.fits), spread-Fits qs bufs more h.1)

-- What is given to the moving of the data.
pub spread_filled :
    (qs : List Called) (bufs : List Bytes)
    → Sized qs bufs
    → All IsShort qs
    → map (λ r. (r.rbuf, r.res.length_)) (assign with_rbuf (with_results qs) bufs)
      ≡ with_lengths (spread qs bufs)
spread_filled [] bufs s h = refl
spread_filled (q ∷ qs) [] s h = cc
spread_filled (q ∷ qs) (b ∷ bufs) s h =
    let more : map length bufs ≡ map length (rbufs_of qs) = cc in
    ap₂ (λ n t. (b, n) ∷ t) h.0.announces (spread_filled qs bufs more h.1)

-- What a request gives out whose buffer starts with its data.
write_read_data-served :
    (q : Called) (b : Bytes)
    → IsShort q
    → write_read_data (record {
      req = q.request.req;
      res = q.result;
      wbuf = q.request.wbuf;
      rbuf = q.content ++ b;
    })
      ≡ reply_of q
unfolding write_read_data
write_read_data-served q b h =
    let whole = length-append {0} q.content b in
    rw
      (
        le→leb q.result.length_ (length (q.content ++ b)) (omega (arith, whole, h.announces)),
        take-append q.result.length_ q.content b (sym h.announces),
      )
      refl

pub spread-served :
    (qs : List Called) (bufs : List Bytes)
    → Sized qs bufs
    → All IsShort qs
    → map write_read_data
        (assign with_rbuf (assign with_rbuf (with_results qs) bufs) (map served (spread qs bufs)))
      ≡ map reply_of qs
spread-served [] bufs s h = refl
spread-served (q ∷ qs) [] s h = cc
spread-served (q ∷ qs) (b ∷ bufs) s h =
    let more : map length bufs ≡ map length (rbufs_of qs) = cc in
    ap₂ (λ d t. d ∷ t) (write_read_data-served q (drop (length q.content) b) h.0)
      (spread-served qs bufs more h.1)
