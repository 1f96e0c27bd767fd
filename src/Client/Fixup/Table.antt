-- ===== src/Client/Fixup/Table.antt =====
-- client.rs: the table of offsets of `fixup_write_read_return_buffers`, and the search in it.
use ads_rs.Prelude.{
  ℕ, zero, suc, ◌+◌, ◌≤◌, ◌<◌, ◌≡◌, refl, ap, ◌∙◌, true, Option, some, List, [], ◌∷◌, arith, inl,
  inr, ltb, if◌then◌else◌, le→leb, Bool-cases, length, length-append, All, get_elem?, take,
}
use mathlib.Core.Path.{ap₂}
use ads_rs.Wire.{Bytes, concat}
use ads_rs.Errors.{ok}
use ads_rs.Client.Fixup.{Offset, offsets_of, rposition, buffers}
use ads_rs.Client.Fixup.Segments.{concat-take}

-- A request: its buffer, as it arrives, and the data that belongs to it.
pub record Placed : Type 0 where
  pub buffer : Bytes
  pub content : Bytes

-- The requests with the lengths that their results announce.
abbrev pub with_lengths : List Placed → List (Bytes × ℕ)
with_lengths [] = []
with_lengths (p ∷ ps) = (p.buffer, length p.content) ∷ with_lengths ps

abbrev pub contents : List Placed → List Bytes
contents [] = []
contents (p ∷ ps) = p.content ∷ contents ps

-- No data is longer than its buffer.
abbrev pub Fits : List Placed → Type 0
Fits ps = All (λ p. length p.content ≤ length p.buffer) ps

-- The bytes of the buffers, and of the data, up to one.
abbrev pub room : ℕ → List Placed → ℕ
room k ps = length (concat (take k (buffers (with_lengths ps))))

abbrev pub used : ℕ → List Placed → ℕ
used k ps = length (concat (take k (contents ps)))

abbrev pub table : ℕ → ℕ → List Placed → List Offset
table init act [] = []
table init act (p ∷ ps) =
    record { initial = init; actual = act; size = length p.buffer; returned = length p.content }
    ∷ table (init + length p.buffer) (act + length p.content) ps

pub offsets_of-table :
    (init act : ℕ) (ps : List Placed)
    → Fits ps
    → offsets_of init act (with_lengths ps) ≡ ok (table init act ps)
unfolding offsets_of
offsets_of-table init act [] fits = refl
offsets_of-table init act (p ∷ ps) fits =
    rw
      (
        le→leb (length p.content) (length p.buffer) fits.0,
        offsets_of-table (init + length p.buffer) (act + length p.content) ps fits.1,
      )
      refl

pub length-table : (init act : ℕ) (ps : List Placed) → length (table init act ps) ≡ length ps
length-table init act [] = refl
length-table init act (p ∷ ps) =
    ap suc (length-table (init + length p.buffer) (act + length p.content) ps)

-- The entry of a request in the table.
abbrev pub entry : ℕ → ℕ → ℕ → List Placed → Placed → Offset
entry init act k ps p = record {
  initial = init + room k ps;
  actual = act + used k ps;
  size = length p.buffer;
  returned = length p.content;
}

abbrev starting : Placed → ℕ → ℕ → Option Offset
starting p i a =
    some record { initial = i; actual = a; size = length p.buffer; returned = length p.content }

pub get_elem?-table :
    (init act k : ℕ) (ps : List Placed) {p : Placed}
    → get_elem? ps k ≡ some p
    → get_elem? (table init act ps) k ≡ some (entry init act k ps p)
get_elem?-table init act k [] h = cc
get_elem?-table init act zero (q ∷ ps) {p} h =
    let e : q ≡ p = cc in rw e (ap₂ (starting p) (omega arith) (omega arith))
get_elem?-table init act (suc k) (q ∷ ps) {p} h =
    let rooms : init + length q.buffer + room k ps ≡ init + room (suc k) (q ∷ ps) =
      omega (arith, length-append {0} q.buffer (concat (take k (buffers (with_lengths ps))))) in
    let uses : act + length q.content + used k ps ≡ act + used (suc k) (q ∷ ps) =
      omega (arith, length-append {0} q.content (concat (take k (contents ps)))) in
    get_elem?-table (init + length q.buffer) (act + length q.content) k ps h
    ∙ ap₂ (starting p) rooms uses

pub get_elem?-buffers :
    (ps : List Placed) (k : ℕ) {p : Placed}
    → get_elem? ps k ≡ some p
    → get_elem? (buffers (with_lengths ps)) k ≡ some p.buffer
get_elem?-buffers [] k h = cc
get_elem?-buffers (q ∷ ps) zero {p} h = let e : q ≡ p = cc in rw e refl
get_elem?-buffers (q ∷ ps) (suc k) h = get_elem?-buffers ps k h

pub get_elem?-contents :
    (ps : List Placed) (k : ℕ) {p : Placed}
    → get_elem? ps k ≡ some p
    → get_elem? (contents ps) k ≡ some p.content
get_elem?-contents [] k h = cc
get_elem?-contents (q ∷ ps) zero {p} h = let e : q ≡ p = cc in rw e refl
get_elem?-contents (q ∷ ps) (suc k) h = get_elem?-contents ps k h

-- There is a request below the number of them.
pub has_request :
    (ps : List Placed) (k : ℕ) → k < length ps → (p : Placed) × (get_elem? ps k ≡ some p)
has_request [] k h = absurd (omega arith)
has_request (p ∷ ps) zero h = (p, refl)
has_request (p ∷ ps) (suc k) h = has_request ps k (omega arith)

-- The bytes up to the next request.
pub room-suc :
    (ps : List Placed) (k : ℕ) {p : Placed}
    → get_elem? ps k ≡ some p
    → room (suc k) ps ≡ room k ps + length p.buffer
room-suc ps k {p} h =
    ap length (concat-take (buffers (with_lengths ps)) k (get_elem?-buffers ps k h))
    ∙ length-append {0} (concat (take k (buffers (with_lengths ps)))) p.buffer

pub used-suc :
    (ps : List Placed) (k : ℕ) {p : Placed}
    → get_elem? ps k ≡ some p
    → used (suc k) ps ≡ used k ps + length p.content
used-suc ps k {p} h =
    ap length (concat-take (contents ps) k (get_elem?-contents ps k h))
    ∙ length-append {0} (concat (take k (contents ps))) p.content

pub Fits-get :
    (ps : List Placed) (k : ℕ) {p : Placed}
    → Fits ps
    → get_elem? ps k ≡ some p
    → length p.content ≤ length p.buffer
Fits-get [] k fits h = cc
Fits-get (q ∷ ps) zero {p} fits h = let e : q ≡ p = cc in rw (← e) fits.0
Fits-get (q ∷ ps) (suc k) fits h = Fits-get ps k fits.1 h

pub used-room : (ps : List Placed) (k : ℕ) → Fits ps → used k ps ≤ room k ps
used-room ps zero fits = omega arith
used-room [] (suc k) fits = omega arith
used-room (p ∷ ps) (suc k) fits = omega (
  arith,
  fits.0,
  used-room ps k fits.1,
  length-append {0} p.content (concat (take k (contents ps))),
  length-append {0} p.buffer (concat (take k (buffers (with_lengths ps)))),
)

rposition-suc :
    (end k : ℕ) (offsets : List Offset) {o : Offset}
    → get_elem? offsets k ≡ some o
    → rposition end (suc k) offsets
      ≡ (if ltb o.initial end then some k else rposition end k offsets)
unfolding rposition
rposition-suc end k offsets h = rw (rposition, h) refl

-- The last request, up to one, whose buffer starts before a place; the place is not after its end.
pub rposition_holds :
    (ps : List Placed) (end k : ℕ)
    → k < length ps
    → 0 < end
    → end ≤ room (suc k) ps
    → (j : ℕ) × (rposition end (suc k) (table 0 0 ps) ≡ some j)
      × (j ≤ k)
      × (room j ps < end)
      × (end ≤ room (suc j) ps)
rposition_holds ps end zero h pos bound =
    let (p, at_k) = has_request ps 0 h in
    let found = rposition-suc end 0 (table 0 0 ps) (get_elem?-table 0 0 0 ps at_k) in
    let before : ltb (0 + room 0 ps) end ≡ true = ground arith in
    (0, (rw (found, before) refl), omega arith, pos, bound)
rposition_holds ps end (suc k) h pos bound =
    let (p, at_k) = has_request ps (suc k) h in
    let found = rposition-suc end (suc k) (table 0 0 ps) (get_elem?-table 0 0 (suc k) ps at_k) in
    elim (Bool-cases (ltb (0 + room (suc k) ps) end)) [
      | inl s ↦ (suc k, (rw (found, s) refl), omega arith, ground arith, bound)
      | inr s ↦
          let earlier = rposition_holds ps end k (omega arith) pos (ground arith) in
          (earlier.0, (rw (found, s) earlier.1), omega (arith, earlier.2), earlier.3, earlier.4)
    ]
