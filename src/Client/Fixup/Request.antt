-- ===== src/Client/Fixup/Request.antt =====
-- client.rs: the work of `fixup_write_read_return_buffers` for one request.
use ads_rs.Prelude.{
  ℕ, zero, suc, ◌+◌, ◌-◌, ◌≤◌, ◌<◌, ◌≡◌, refl, sym, ap, ◌∙◌, some, List, [], ◌∷◌, ◌++◌,
  append_assoc, arith, length, length-append, length-take, get_elem?, set, take, drop, take-append,
}
use native.Mathlib.Nat.{suc-add, zero-add}
use ads_rs.Wire.{Bytes, concat}
use ads_rs.Errors.{ok}
use ads_rs.Client.Fixup.{fill_request, buffers}
use ads_rs.Client.Fixup.Segments.{last, concat-take, last-append_short}
use ads_rs.Client.Fixup.Copy.{HasSizes, before, copy_back-last}
use ads_rs.Client.Fixup.Table.{
  Placed, with_lengths, contents, Fits, room, used, table, entry, get_elem?-table,
  get_elem?-buffers, get_elem?-contents, has_request, room-suc, used-suc, used-room, Fits-get,
  rposition_holds,
}

abbrev pub orig : List Placed → List Bytes
orig ps = buffers (with_lengths ps)

take-take : (bufs : List Bytes) (j k : ℕ) → j ≤ k → take j (take k bufs) ≡ take j bufs
take-take bufs zero k h = refl
take-take bufs (suc j) zero h = absurd (omega arith)
take-take [] (suc j) (suc k) h = refl
take-take (b ∷ bufs) (suc j) (suc k) h = ap (λ t. b ∷ t) (take-take bufs j k (omega arith))

get_elem?-take :
    (bufs : List Bytes) (j k : ℕ) → j < k → get_elem? (take k bufs) j ≡ get_elem? bufs j
get_elem?-take bufs j zero h = absurd (omega arith)
get_elem?-take [] j (suc k) h = refl
get_elem?-take (b ∷ bufs) zero (suc k) h = refl
get_elem?-take (b ∷ bufs) (suc j) (suc k) h = get_elem?-take bufs j k (omega arith)

concat_split :
    (bufs : List Bytes) (k : ℕ) → concat bufs ≡ concat (take k bufs) ++ concat (drop k bufs)
concat_split bufs zero = refl
concat_split [] (suc k) = refl
concat_split (b ∷ bufs) (suc k) =
    ap (λ t. b ++ t) (concat_split bufs k)
    ∙ sym (append_assoc b (concat (take k bufs)) (concat (drop k bufs)))

pub take_inside : (n : ℕ) (s t : Bytes) → n ≤ length s → take n (s ++ t) ≡ take n s
take_inside zero s t h = refl
take_inside (suc n) [] t h = absurd (omega arith)
take_inside (suc n) (b ∷ s) t h = ap (λ r. b ∷ r) (take_inside n s t (omega arith))

take_beyond : (n : ℕ) (s t : Bytes) → take (length s + n) (s ++ t) ≡ s ++ take n t
take_beyond n [] t = rw zero-add refl
take_beyond n (b ∷ s) t = rw suc-add (ap (λ r. b ∷ r) (take_beyond n s t))

-- The bytes before a place in a buffer are the first of all bytes.
concat-before :
    (bufs : List Bytes) (j m : ℕ) {b : Bytes}
    → get_elem? bufs j ≡ some b
    → m ≤ length b
    → take (length (concat (take j bufs)) + m) (concat bufs) ≡ concat (take j bufs) ++ take m b
concat-before [] j m h k = cc
concat-before (a ∷ bufs) zero m {b} h k =
    let e : a ≡ b = cc in rw (e, zero-add) (take_inside m b (concat bufs) k)
concat-before (a ∷ bufs) (suc j) m {b} h k =
    let rest = concat (take j bufs) in
    let place : length (a ++ rest) + m ≡ length a + (length rest + m) =
      omega (arith, length-append {0} a rest) in
    ap (λ n. take n (a ++ concat bufs)) place
    ∙ take_beyond (length rest + m) a (concat bufs)
    ∙ ap (λ t. a ++ t) (concat-before bufs j m h k)
    ∙ sym (append_assoc a rest (take m b))

-- The last bytes of a request's data and of those before it.
last_content :
    (ps : List Placed) (i : ℕ) (junk : Bytes) {p : Placed}
    → get_elem? ps i ≡ some p
    → concat (orig ps) ≡ concat (contents ps) ++ junk
    → last (length p.content) (take (used (suc i) ps) (concat (orig ps))) ≡ p.content
last_content ps i junk {p} h joined =
    let parts = concat_split (contents ps) (suc i) in
    let all : concat (orig ps)
        ≡ concat (take (suc i) (contents ps)) ++ (concat (drop (suc i) (contents ps)) ++ junk) =
      joined
      ∙ ap (λ t. t ++ junk) parts
      ∙ append_assoc (concat (take (suc i) (contents ps))) (concat (drop (suc i) (contents ps)))
          junk in
    let first =
      take-append (used (suc i) ps) (concat (take (suc i) (contents ps)))
        (concat (drop (suc i) (contents ps)) ++ junk) refl in
    let ended = concat-take (contents ps) i (get_elem?-contents ps i h) in
    let none_left : length p.content - length p.content ≡ 0 = omega arith in
    ap (λ t. last (length p.content) (take (used (suc i) ps) t)) all
    ∙ ap (last (length p.content)) (first ∙ ended)
    ∙ last-append_short (length p.content) (concat (take i (contents ps))) p.content (omega arith)
    ∙ ap (λ n. drop n p.content) none_left

-- The first buffers are those that arrived.
abbrev pub Fresh : ℕ → List Placed → List Bytes → Type 0
Fresh i ps bufs = take i bufs ≡ take i (orig ps)

pub Fresh-earlier :
    (i j : ℕ) (ps : List Placed) (bufs : List Bytes) → j ≤ i → Fresh i ps bufs → Fresh j ps bufs
Fresh-earlier i j ps bufs h f =
    sym (take-take bufs j i h) ∙ ap (take j) f ∙ take-take (orig ps) j i h

pub Fresh-get :
    (i j : ℕ) (ps : List Placed) (bufs : List Bytes) {p : Placed}
    → j < i
    → Fresh i ps bufs
    → get_elem? ps j ≡ some p
    → get_elem? bufs j ≡ some p.buffer
Fresh-get i j ps bufs h f at_j =
    sym (get_elem?-take bufs j i h)
    ∙ ap (λ t. get_elem? t j) f
    ∙ get_elem?-take (orig ps) j i h
    ∙ get_elem?-buffers ps j at_j

Fresh-HasSizes :
    (j : ℕ) (ps : List Placed) (bufs : List Bytes)
    → j ≤ length ps
    → Fresh j ps bufs
    → HasSizes j (table 0 0 ps) bufs
Fresh-HasSizes j ps bufs h f k c =
    let (p, at_k) = has_request ps k (omega arith) in
    (
      entry 0 0 k ps p,
      p.buffer,
      get_elem?-table 0 0 k ps at_k,
      Fresh-get j k ps bufs c f at_k,
      refl,
    )

-- What lies before a place in the buffers that arrived.
before-Fresh :
    (j m n : ℕ) (ps : List Placed) (bufs : List Bytes) {q : Placed}
    → get_elem? ps j ≡ some q
    → m ≤ length q.buffer
    → room j ps + m ≡ n
    → Fresh j ps bufs
    → before j m q.buffer bufs ≡ take n (concat (orig ps))
before-Fresh j m n ps bufs {q} at_j h place f =
    ap (λ t. concat t ++ take m q.buffer) f
    ∙ sym (concat-before (orig ps) j m (get_elem?-buffers ps j at_j) h)
    ∙ ap (λ k. take k (concat (orig ps))) place

length-before :
    (j m : ℕ) (ps : List Placed) (bufs : List Bytes) (from : Bytes)
    → m ≤ length from
    → Fresh j ps bufs
    → length (before j m from bufs) ≡ room j ps + m
length-before j m ps bufs from h f =
    let first = ap (λ t. length (concat t)) f in
    omega
      (arith, first, length-append {0} (concat (take j bufs)) (take m from), length-take {0} m from)

-- The buffer of a request when the work is done.
abbrev pub served : Placed → Bytes
served p = p.content ++ drop (length p.content) p.buffer

-- The work for one request.
pub fill_request-served :
    (ps : List Placed) (i : ℕ) (junk : Bytes) (bufs : List Bytes) {p : Placed}
    → Fits ps
    → concat (orig ps) ≡ concat (contents ps) ++ junk
    → get_elem? ps i ≡ some p
    → i < length ps
    → 0 < length p.content
    → Fresh (suc i) ps bufs
    → fill_request i (entry 0 0 i ps p) (table 0 0 ps) bufs ≡ ok (set bufs i (served p))
unfolding fill_request
fill_request-served ps i junk bufs {p} fits joined at_i inside pos f =
    let next = used-suc ps i at_i in
    let more = room-suc ps i at_i in
    let bound = used-room ps (suc i) fits in
    let end = 0 + used i ps + length p.content in
    let found = rposition_holds ps end i inside (omega arith) (omega (arith, next, bound)) in
    let (j, at, j≤i, starts, stops) = found in
    let (q, at_j) = has_request ps j (omega arith) in
    let entry_j = get_elem?-table 0 0 j ps at_j in
    let j_end = end - (0 + room j ps) in
    let earlier = Fresh-earlier (suc i) j ps bufs (omega arith) f in
    let last_byte : j_end ≤ length q.buffer = omega (arith, stops, room-suc ps j at_j) in
    let place : room j ps + j_end ≡ used (suc i) ps = omega (arith, starts, next) in
    let source = before-Fresh j j_end (used (suc i) ps) ps bufs at_j last_byte place earlier in
    let moved = ap (last (length p.content)) source ∙ last_content ps i junk at_i joined in
    let copied =
      copy_back-last i j j_end (length p.content) (table 0 0 ps) bufs j≤i
        (Fresh-get (suc i) i ps bufs (omega arith) f at_i)
        (Fresh-get (suc i) j ps bufs (omega arith) f at_j)
        (Fresh-HasSizes j ps bufs (omega arith) earlier) last_byte (Fits-get ps i fits at_i)
        (omega (arith, length-before j j_end ps bufs q.buffer last_byte earlier, place, next)) in
    rw (at, entry_j, copied, moved) refl
