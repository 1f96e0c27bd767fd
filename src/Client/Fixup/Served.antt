-- ===== src/Client/Fixup/Served.antt =====
-- client.rs: the loop of `fixup_write_read_return_buffers` over the requests, from the last.
use ads_rs.Prelude.{
  ℕ, zero, suc, ◌+◌, ◌≤◌, ◌≡◌, refl, sym, ap, ◌∙◌, some, List, [], ◌∷◌, ◌++◌, map, append_assoc,
  arith, inl, inr, ◌==◌, Bool-cases, length, length-append, get_elem?, set, take, drop, take-append,
  drop-append, take-append-drop,
}
use mathlib.Core.Path.{ap₂}
use ads_rs.Wire.{Bytes, concat}
use ads_rs.Errors.{ok}
use ads_rs.Client.Fixup.{fixup_from, fixup_write_read_return_buffers, buffers}
use ads_rs.Client.Fixup.Segments.{take-set}
use ads_rs.Client.Fixup.Table.{
  Placed, with_lengths, contents, Fits, room, used, table, get_elem?-table, has_request, used-room,
  offsets_of-table, length-table,
}
use ads_rs.Client.Fixup.Request.{
  orig, take_inside, Fresh, Fresh-get, Fresh-earlier, served, fill_request-served,
}

drop-get :
    (bufs : List Bytes) (i : ℕ) {b : Bytes}
    → get_elem? bufs i ≡ some b
    → drop i bufs ≡ b ∷ drop (suc i) bufs
drop-get [] i h = cc
drop-get (a ∷ bufs) zero {b} h = let e : a ≡ b = cc in ap (λ t. t ∷ bufs) e
drop-get (a ∷ bufs) (suc i) h = drop-get bufs i h

drop-set :
    (bufs : List Bytes) (i : ℕ) (x : Bytes) {b : Bytes}
    → get_elem? bufs i ≡ some b
    → drop i (set bufs i x) ≡ x ∷ drop (suc i) bufs
drop-set [] i x h = cc
drop-set (a ∷ bufs) zero x h = refl
drop-set (a ∷ bufs) (suc i) x h = drop-set bufs i x h

take-served :
    (ps : List Placed) (i : ℕ) (r : List Bytes) {p : Placed}
    → get_elem? ps i ≡ some p
    → take i (map served ps) ++ (served p ∷ r) ≡ take (suc i) (map served ps) ++ r
take-served [] i r h = cc
take-served (q ∷ ps) zero r {p} h = let e : q ≡ p = cc in ap (λ t. served t ∷ r) (sym e)
take-served (q ∷ ps) (suc i) r h = ap (λ t. served q ∷ t) (take-served ps i r h)

served_all :
    (ps : List Placed)
    → take (length ps) (map served ps) ++ drop (length ps) (orig ps) ≡ map served ps
served_all [] = refl
served_all (p ∷ ps) = ap (λ t. served p ∷ t) (served_all ps)

-- A request without data has its buffer as it arrived.
served_none : (c b : Bytes) → length c ≡ 0 → c ++ drop (length c) b ≡ b
served_none [] b h = refl
served_none (x ∷ c) b h = absurd (omega arith)

-- The first buffer starts with its data where all the data is in a row.
served_first :
    (p : Placed) (r d : Bytes)
    → length p.content ≤ length p.buffer
    → p.buffer ++ r ≡ p.content ++ d
    → served p ≡ p.buffer
served_first p r d h joined =
    let n = length p.content in
    let start : p.content ≡ take n p.buffer =
      sym (take-append n p.content d refl)
      ∙ ap (take n) (sym joined)
      ∙ take_inside n p.buffer r h in
    ap (λ t. t ++ drop n p.buffer) start ∙ take-append-drop n p.buffer

-- Where the first buffers are full, and the data of all requests is at hand, the data of these is in
-- its place, and so is that of the next.
settled :
    (ps : List Placed) (i : ℕ) (junk : Bytes)
    → Fits ps
    → concat (orig ps) ≡ concat (contents ps) ++ junk
    → room i ps ≡ used i ps
    → take (suc i) (map served ps) ≡ take (suc i) (orig ps)
settled [] i junk fits joined full = refl
settled (p ∷ ps) zero junk fits joined full =
    let row = joined ∙ append_assoc p.content (concat (contents ps)) junk in
    ap (λ t. t ∷ []) (served_first p (concat (orig ps)) (concat (contents ps) ++ junk) fits.0 row)
settled (p ∷ ps) (suc i) junk fits joined full =
    let row = joined ∙ append_assoc p.content (concat (contents ps)) junk in
    let rooms = length-append {0} p.buffer (concat (take i (orig ps))) in
    let uses = length-append {0} p.content (concat (take i (contents ps))) in
    let below = used-room ps i fits.1 in
    let same : length p.content ≡ length p.buffer =
      omega (arith, rooms, uses, below, full, fits.0) in
    let rest : concat (orig ps) ≡ concat (contents ps) ++ junk =
      sym (drop-append (length p.buffer) p.buffer (concat (orig ps)) refl)
      ∙ ap (drop (length p.buffer)) row
      ∙ drop-append (length p.buffer) p.content (concat (contents ps) ++ junk) same in
    ap₂ (λ t r. t ∷ r) (served_first p (concat (orig ps)) (concat (contents ps) ++ junk) fits.0 row)
      (settled ps i junk fits.1 rest (omega (arith, rooms, uses, below, full, same)))

-- The loop puts the data of the first requests in its place.
fixup_from-served :
    (ps : List Placed) (junk : Bytes) (i : ℕ) (bufs : List Bytes)
    → Fits ps
    → concat (orig ps) ≡ concat (contents ps) ++ junk
    → i ≤ length ps
    → Fresh i ps bufs
    → fixup_from i (table 0 0 ps) bufs ≡ ok (take i (map served ps) ++ drop i bufs)
unfolding fixup_from
fixup_from-served ps junk zero bufs fits joined inside f = refl
fixup_from-served ps junk (suc i) bufs fits joined inside f =
    let (p, at_i) = has_request ps i (omega arith) in
    let row = get_elem?-table 0 0 i ps at_i in
    let here = Fresh-get (suc i) i ps bufs (omega arith) f at_i in
    let skipped =
      fixup_from-served ps junk i bufs fits joined (omega arith)
        (Fresh-earlier (suc i) i ps bufs (omega arith) f) in
    let bufs' = set bufs i (served p) in
    let after = fixup_from-served ps junk i bufs' fits joined (omega arith) (
      take-set bufs i i (served p) (omega arith)
      ∙ Fresh-earlier (suc i) i ps bufs (omega arith) f) in
    let rest = drop (suc i) bufs in
    elim (Bool-cases (length p.content == 0)) [
      | inl none_returned ↦
          rw (row, none_returned, skipped)
            (ap ok (
              ap (λ t. take i (map served ps) ++ t) (drop-get bufs i here)
              ∙ ap (λ b. take i (map served ps) ++ (b ∷ rest))
                  (sym (served_none p.content p.buffer (ground arith)))
              ∙ take-served ps i rest at_i))
      | inr some_returned ↦ elim (Bool-cases (0 + room i ps == 0 + used i ps)) [
        | inl same ↦
            rw (row, some_returned, same)
              (ap ok (
                sym (take-append-drop (suc i) bufs)
                ∙ ap (λ t. t ++ rest) (f ∙ sym (settled ps i junk fits joined (ground arith)))))
        | inr moved ↦
            let filled =
              fill_request-served ps i junk bufs fits joined at_i inside (ground arith) f in
            rw (row, some_returned, moved, filled, after)
              (ap ok (
                ap (λ t. take i (map served ps) ++ t) (drop-set bufs i (served p) here)
                ∙ take-served ps i rest at_i))
      ]
    ]

-- If no request has more data than its buffer holds, and the buffers joined are the data of all
-- requests in a row with any bytes behind, then `fixup_write_read_return_buffers` returns the
-- buffers with each request's own data at the start of its own buffer and the rest of that buffer
-- as it was.
pub fixup_write_read_return_buffers-served :
    (ps : List Placed) (junk : Bytes)
    → Fits ps
    → concat (buffers (with_lengths ps)) ≡ concat (contents ps) ++ junk
    → fixup_write_read_return_buffers (with_lengths ps) ≡ ok (map served ps)
unfolding fixup_write_read_return_buffers
fixup_write_read_return_buffers-served ps junk fits joined =
    let placed = fixup_from-served ps junk (length ps) (orig ps) fits joined (omega arith) refl in
    rw (offsets_of-table 0 0 ps fits, length-table 0 0 ps, placed) (ap ok (served_all ps))
