-- ===== src/Client/Fixup/Copy.antt =====
-- client.rs: the inner loop of `fixup_write_read_return_buffers`, which copies the data of one request
-- from the buffers where it lies.
use ads_rs.Prelude.{
  ℕ, zero, suc, ◌+◌, ◌-◌, ◌≤◌, ◌<◌, ◌≡◌, refl, sym, ap, ◌∙◌, false, some, List, ◌++◌, append_assoc,
  arith, inl, inr, leb, le→leb, ◌==◌, Bool-cases, min, length, length-append, length-take,
  get_elem?, set, take, drop, drop-append, take-all,
}
use mathlib.Core.Path.{ap₂}
use native.Mathlib.Nat.{zero-add}
use ads_rs.Wire.{Bytes, concat}
use ads_rs.Errors.{ok}
use ads_rs.Client.Fixup.{Offset, copy_back, copy_segment}
use ads_rs.Client.Fixup.Segments.{
  last, take-set, get_elem?-set_other, get_elem?-set, set-set, concat-take, drop-take,
  last-append_short, last-append_long,
}

copy_segment_eq :
    (i j end n dest : ℕ) (bufs : List Bytes) {from to : Bytes}
    → get_elem? bufs j ≡ some from
    → get_elem? bufs i ≡ some to
    → end ≤ length from
    → dest + n ≤ length to
    → copy_segment i j end n dest bufs
      ≡ ok (set bufs i (take dest to ++ (take n (drop (end - n) from) ++ drop (dest + n) to)))
unfolding copy_segment
copy_segment_eq i j end n dest bufs {from} {to} h k e d =
    rw (h, k, le→leb end (length from) e, le→leb (dest + n) (length to) d) refl

-- The copy to the start of a buffer.
copy_segment_start :
    (i j end n : ℕ) (bufs : List Bytes) {from to : Bytes}
    → get_elem? bufs i ≡ some to
    → get_elem? bufs j ≡ some from
    → end ≤ length from
    → n ≤ length to
    → copy_segment i j end n 0 bufs ≡ ok (set bufs i (take n (drop (end - n) from) ++ drop n to))
copy_segment_start i j end n bufs {from} {to} h k e d =
    copy_segment_eq i j end n 0 bufs k h e (omega arith)
    ∙ ap (λ m. ok (set bufs i (take n (drop (end - n) from) ++ drop m to))) (zero-add n)

-- The table holds the sizes of the buffers.
abbrev pub HasSizes : ℕ → List Offset → List Bytes → Type 0
HasSizes j offsets bufs =
    (k : ℕ)
    → k < j
    → (o : Offset) × (b : Bytes) × (get_elem? offsets k ≡ some o)
      × (get_elem? bufs k ≡ some b)
      × (o.size ≡ length b)

-- The last bytes of what lies before `j_end` in the buffer `from`, the buffers below it included.
abbrev pub before : ℕ → ℕ → Bytes → List Bytes → Bytes
before j j_end from bufs = concat (take j bufs) ++ take j_end from

-- The last bytes that lie in the one buffer.
last-before_short :
    (j j_end size : ℕ) (bufs : List Bytes) (from : Bytes)
    → j_end ≤ length from
    → size ≤ j_end
    → last size (before j j_end from bufs) ≡ take size (drop (j_end - size) from)
last-before_short j j_end size bufs from e s =
    let width : length (take j_end from) ≡ j_end = omega (arith, length-take {0} j_end from) in
    let parted : j_end ≡ j_end - size + size = omega arith in
    let chunk : last size (take j_end from) ≡ take size (drop (j_end - size) from) =
      ap₂ (λ k m. drop (k - size) (take m from)) width parted
      ∙ drop-take (j_end - size) size from in
    last-append_short size (concat (take j bufs)) (take j_end from) (omega (arith, width)) ∙ chunk

-- Where the data that ends in a buffer reaches no further.
copy_back_within :
    (i j j_end size : ℕ) (offsets : List Offset) (bufs : List Bytes) {from to : Bytes}
    → get_elem? bufs i ≡ some to
    → get_elem? bufs j ≡ some from
    → HasSizes j offsets bufs
    → j_end ≤ length from
    → size ≤ length to
    → size ≤ j_end
    → copy_back i j j_end size offsets bufs
      ≡ ok (set bufs i (last size (before j j_end from bufs) ++ drop size to))
unfolding copy_back
copy_back_within i zero j_end size offsets bufs {from} {to} gi gj sizes e t s =
    let n : min j_end size ≡ size = omega arith in
    let left : size - size ≡ 0 = omega arith in
    let copied = copy_segment_start i 0 j_end size bufs gi gj e t in
    rw (last-before_short 0 j_end size bufs from e s, n, left, copied) refl
copy_back_within i (suc j) j_end size offsets bufs {from} {to} gi gj sizes e t s =
    let n : min j_end size ≡ size = omega arith in
    let left : size - size ≡ 0 = omega arith in
    let copied = copy_segment_start i (suc j) j_end size bufs gi gj e t in
    let below = sizes j (omega arith) in
    rw (last-before_short (suc j) j_end size bufs from e s, n, left, copied, below.2) refl

-- A buffer that changes leaves the sizes of those below it.
HasSizes-set :
    (i j : ℕ) (offsets : List Offset) (bufs : List Bytes) (x : Bytes)
    → j ≤ i
    → HasSizes j offsets bufs
    → HasSizes j offsets (set bufs i x)
HasSizes-set i j offsets bufs x h sizes k c =
    let (o, b, os, bs, e) = sizes k c in
    (o, b, os, get_elem?-set_other bufs i k x (omega arith) ∙ bs, e)

-- The bytes that a buffer lacks after one step.
drop_step :
    (size n : ℕ) (from to : Bytes)
    → n ≤ size
    → size ≤ length to
    → n ≤ length from
    → drop (size - n) (take (size - n) to ++ (take n (drop (n - n) from) ++ drop (size - n + n) to))
      ≡ take n from ++ drop size to
drop_step size n from to h t f =
    let none_left : n - n ≡ 0 = omega arith in
    let all : size - n + n ≡ size = omega arith in
    rw (none_left, all)
      (drop-append (size - n) (take (size - n) to) (take n from ++ drop size to)
        (omega (arith, length-take {0} (size - n) to)))

-- The bytes before a place in a buffer are the last of them, those in this buffer, after the rest.
last-before_long :
    (j j_end size : ℕ) (bufs : List Bytes) (from : Bytes) {b : Bytes}
    → get_elem? bufs j ≡ some b
    → j_end ≤ length from
    → j_end ≤ size
    → size ≤ length (before (suc j) j_end from bufs)
    → last size (before (suc j) j_end from bufs)
      ≡ last (size - j_end) (concat (take j bufs) ++ b) ++ take j_end from
last-before_long j j_end size bufs from {b} gb e s h =
    let width : length (take j_end from) ≡ j_end = omega (arith, length-take {0} j_end from) in
    let joined = length-append {0} (concat (take (suc j) bufs)) (take j_end from) in
    let long =
      last-append_long size (concat (take (suc j) bufs)) (take j_end from) (omega (arith, width))
        (omega (arith, joined)) in
    long ∙ ap₂ (λ n t. last (size - n) t ++ take j_end from) width (concat-take bufs j gb)

-- The bytes of a buffer below one that changes, after those before it.
before-set :
    (i j j_end : ℕ) (bufs : List Bytes) (x from : Bytes)
    → j ≤ i
    → length from ≤ j_end
    → before j j_end from (set bufs i x) ≡ concat (take j bufs) ++ from
before-set i j j_end bufs x from h e =
    ap₂ (λ c t. concat c ++ t) (take-set bufs i j x h) (take-all j_end from e)

before_reaches :
    (j j_end size : ℕ) (bufs : List Bytes) (from : Bytes) {b : Bytes}
    → get_elem? bufs j ≡ some b
    → size ≤ length (before (suc j) j_end from bufs)
    → size - j_end ≤ length (concat (take j bufs) ++ b)
before_reaches j j_end size bufs from {b} gb h =
    let joined = length-append {0} (concat (take (suc j) bufs)) (take j_end from) in
    let same = ap length (concat-take bufs j gb) in
    omega (arith, joined, same, length-take {0} j_end from)

-- The inner loop moves the last `size` bytes before a place to the start of buffer `i`.
pub copy_back-last :
    (i j j_end size : ℕ) (offsets : List Offset) (bufs : List Bytes) {from to : Bytes}
    → j ≤ i
    → get_elem? bufs i ≡ some to
    → get_elem? bufs j ≡ some from
    → HasSizes j offsets bufs
    → j_end ≤ length from
    → size ≤ length to
    → size ≤ length (before j j_end from bufs)
    → copy_back i j j_end size offsets bufs
      ≡ ok (set bufs i (last size (before j j_end from bufs) ++ drop size to))
unfolding copy_back
copy_back-last i zero j_end size offsets bufs {from} {to} c gi gj sizes e t h =
    copy_back_within i zero j_end size offsets bufs gi gj sizes e t
      (omega (arith, length-take {0} j_end from))
copy_back-last i (suc j) j_end size offsets bufs {from} {to} c gi gj sizes e t h =
    elim (Bool-cases (leb size j_end)) [
      | inl s ↦ copy_back_within i (suc j) j_end size offsets bufs gi gj sizes e t (ground arith)
      | inr s ↦
          let (o, b, os, bs, size_eq) = sizes j (omega arith) in
          let longer : j_end < size = ground arith in
          let dest = size - j_end in
          let n : min j_end size ≡ j_end = omega arith in
          let more : (size - j_end == 0) ≡ false = ground arith in
          let copied = copy_segment_eq i (suc j) j_end j_end dest bufs gj gi e (omega arith) in
          let to' =
            take dest to ++ (take j_end (drop (j_end - j_end) from) ++ drop (dest + j_end) to) in
          let bufs' = set bufs i to' in
          let below = before-set i j o.size bufs to' b (omega arith) (omega arith) in
          let long = last-before_long j j_end size bufs from bs e (omega arith) h in
          let step = drop_step size j_end from to (omega arith) t e in
          let rest =
            copy_back-last i j o.size dest offsets bufs' (omega arith) (get_elem?-set bufs i to' gi)
              (get_elem?-set_other bufs i j to' (omega arith) ∙ bs)
              (HasSizes-set i j offsets bufs to' (omega arith) (λ k d. sizes k (omega arith)))
              (omega arith)
              (omega (
                arith,
                length-take {0} dest to,
                length-append {0} (take dest to)
                    (take j_end (drop (j_end - j_end) from) ++ drop (dest + j_end) to),
              ))
              (omega (arith, ap length below, before_reaches j j_end size bufs from bs h)) in
          rw (n, copied, os, more, rest, set-set, below, step, long)
            (ap (λ r. ok (set bufs i r))
              (sym (
                append_assoc (last dest (concat (take j bufs) ++ b)) (take j_end from)
                  (drop size to))))
    ]
