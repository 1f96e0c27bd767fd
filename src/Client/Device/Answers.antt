-- ===== src/Client/Device/Answers.antt =====
-- client.rs: what `read_multi` makes of a complete answer to a sum-up request.
use ads_rs.Prelude.{
  ◌*◌, ◌^◌, ◌<◌, ◌≡◌, refl, sym, ap, ◌∙◌, All, List, [], ◌∷◌, ◌++◌, map, arith, length,
  length-append, length-map, take, drop, take-append, drop-append,
}
use mathlib.Core.Path.{ap₂}
use ads_rs.Wire.{Bytes, ByteOrder, concat, write_u32}
use ads_rs.Client.Scatter.{scatter, overlay, concat-scatter}
use ads_rs.Client.Structs.{ResultLength, index_length_bytes, result_length_bytes, result_length_of}
use ads_rs.Client.Requests.{ReadRequest}
use ads_rs.Client.Exchange.{total_length}
use ads_rs.Client.Device.Multi.{assign}

overlay-all : (new old : Bytes) → length new ≡ length old → overlay new old ≡ new
unfolding overlay
overlay-all [] [] h = refl
overlay-all [] (y ∷ old) h = absurd (omega arith)
overlay-all (x ∷ new) [] h = absurd (omega arith)
overlay-all (x ∷ new) (y ∷ old) h = ap (λ t. x ∷ t) (overlay-all new old (omega arith))

-- Buffers of the same lengths that are the same when joined are the same.
pub concat_injective :
    (as' bs : List Bytes) → map length as' ≡ map length bs → concat as' ≡ concat bs → as' ≡ bs
concat_injective [] [] l c = refl
concat_injective [] (b ∷ bs) l c = cc
concat_injective (a ∷ as') [] l c = cc
concat_injective (a ∷ as') (b ∷ bs) l c =
    let size : length a ≡ length b = cc in
    let sizes : map length as' ≡ map length bs = cc in
    let first : a ≡ b =
      sym (take-append (length b) a (concat as') size)
      ∙ ap (λ t. take (length b) t) c
      ∙ take-append (length b) b (concat bs) refl in
    let others : concat as' ≡ concat bs =
      sym (drop-append (length b) a (concat as') size)
      ∙ ap (λ t. drop (length b) t) c
      ∙ drop-append (length b) b (concat bs) refl in
    ap₂ (λ s t. s ∷ t) first (concat_injective as' bs sizes others)

pub lengths_add_up :
    (as' bs : List Bytes)
    → map length as' ≡ map length bs
    → length (concat as') ≡ length (concat bs)
lengths_add_up [] [] h = refl
lengths_add_up [] (b ∷ bs) h = cc
lengths_add_up (a ∷ as') [] h = cc
lengths_add_up (a ∷ as') (b ∷ bs) h =
    let size : length a ≡ length b = cc in
    let sizes : map length as' ≡ map length bs = cc in
    omega (
      arith,
      length-append {0} a (concat as'),
      length-append {0} b (concat bs),
      lengths_add_up as' bs sizes,
    )

-- A response that has just the size of the buffers is cut at their ends.
pub scatter-exact :
    (parts bufs : List Bytes)
    → map length parts ≡ map length bufs
    → scatter (concat parts) 0 (length (concat parts)) bufs ≡ parts
scatter-exact parts bufs same =
    let (joined, sizes) = concat-scatter (concat parts) bufs in
    concat_injective _ parts (sizes ∙ sym same)
      (joined ∙ overlay-all (concat parts) (concat bufs) (lengths_add_up parts bufs same))

-- A request with the result and the data that the device answers.
pub record Answered : Type 0 where
  pub request : ReadRequest
  pub result : ResultLength
  pub content : Bytes

-- The result is in range, and the data fills the request's buffer.
pub record IsComplete (q : Answered) : Type 0 where
  pub result : q.result.result < 2 ^ 32
  pub length_ : q.result.length_ < 2 ^ 32
  pub size : length q.content ≡ length q.request.rbuf

abbrev pub requests_of : List Answered → List ReadRequest
requests_of = map (λ q. q.request)

abbrev pub contents_of : List Answered → List Bytes
contents_of = map (λ q. q.content)

-- The request as it is left.
abbrev pub outcome : Answered → ReadRequest
outcome q = record { req = q.request.req; res = q.result; rbuf = q.content }

pub length_mapped : {A B : Type 0} (f : A → B) (as' : List A) → length (map f as') ≡ length as'
length_mapped f as' = length-map {0, 0} f as'

pub assign-contents :
    (qs : List Answered)
    → assign
        (λ r b. record r { rbuf = b })
        (map (λ q. record q.request { res = q.result }) qs)
        (contents_of qs)
      ≡ map outcome qs
assign-contents [] = refl
assign-contents (q ∷ qs) = ap (λ t. outcome q ∷ t) (assign-contents qs)

pub map_appended :
    {A B : Type 0} (f : A → B) (as' bs : List A) → map f (as' ++ bs) ≡ map f as' ++ map f bs
map_appended f [] bs = refl
map_appended f (a ∷ as') bs = ap (λ t. f a ∷ t) (map_appended f as' bs)

module _ ⦃bo : ByteOrder⦄ where
  abbrev pub results_of : List Answered → List Bytes
  results_of = map (λ q. result_length_bytes q.result)

  pub length-result_length_bytes : (s : ResultLength) → length (result_length_bytes s) ≡ 8
  unfolding result_length_bytes
  length-result_length_bytes s = simp (length-append, bo.length-write_int) refl

  pub result_length_of-bytes :
      (s : ResultLength)
      → s.result < 2 ^ 32
      → s.length_ < 2 ^ 32
      → result_length_of (result_length_bytes s) ≡ s
  unfolding result_length_of result_length_bytes
  result_length_of-bytes s h k = rw (
    take-append 4 (write_u32 s.result) (write_u32 s.length_ ++ []) (bo.length-write_int 4 s.result),
    drop-append 4 (write_u32 s.result) (write_u32 s.length_ ++ []) (bo.length-write_int 4 s.result),
    take-append 4 (write_u32 s.length_) [] (bo.length-write_int 4 s.length_),
    bo.read_int-write_int 4 s.result h,
    bo.read_int-write_int 4 s.length_ k,
  )

  pub assign-results :
      (qs : List Answered)
      → All IsComplete qs
      → assign (λ r b. record r { res = result_length_of b }) (requests_of qs) (results_of qs)
        ≡ map (λ q. record q.request { res = q.result }) qs
  assign-results [] h = refl
  assign-results (q ∷ qs) h =
      ap₂ (λ s t. record q.request { res = s } ∷ t)
        (result_length_of-bytes q.result h.0.result h.0.length_) (assign-results qs h.1)

  -- The output buffers of the request have the sizes of the answer's parts.
  pub same_results :
      (qs : List Answered)
      → map length (results_of qs)
        ≡ map length (map (λ r. result_length_bytes r.res) (requests_of qs))
  same_results [] = refl
  same_results (q ∷ qs) =
      ap₂ (λ s t. s ∷ t)
        (length-result_length_bytes q.result ∙ sym (length-result_length_bytes q.request.res))
        (same_results qs)

  pub same_contents :
      (qs : List Answered)
      → All IsComplete qs
      → map length (contents_of qs) ≡ map length (map (λ r. r.rbuf) (requests_of qs))
  same_contents [] h = refl
  same_contents (q ∷ qs) h = ap₂ (λ s t. s ∷ t) h.0.size (same_contents qs h.1)

  pub total_length-requests :
      (rs : List ReadRequest)
      → total_length (map (λ r. index_length_bytes r.req) rs) ≡ 12 * length rs
  unfolding index_length_bytes
  total_length-requests [] = refl
  total_length-requests (r ∷ rs) =
      simp (length-append, bo.length-write_int) (omega (arith, total_length-requests rs))
