-- ===== src/Client/Reader/Once.antt =====
-- client.rs: the reader thread answers each request at most once.
use ads_rs.Prelude.{
  ◌≤◌, ℕ, zero, suc, ◌+◌, ◌≡◌, refl, sym, ap, ◌∙◌, true, List, [], ◌∷◌, arith, ◌==◌, ==_iff,
  if◌then◌else◌, Bool-cases, inl, inr,
}
use ads_rs.Wire.{Bytes, ByteOrder}
use ads_rs.Errors.{Error, io, io_sync, Result-cases, is_ok, is_err, is_panic}
use ads_rs.NetId.{AmsAddr}
use ads_rs.Client.Action.{mem_id}
use ads_rs.Client.Exchange.Request.{mem_id-remove_id, mem_id-insert_id}
use ads_rs.Client.Reader.{
  Change, inserted, discarded, abandoned, apply, apply_all, now, later, after_error, Delivery,
  settle, nothing, notify, Waiting, read_one, reader_work, after,
}
use ads_rs.Client.Reader.Owed.{IsOwed, read_one-IsOwed}

-- How often a request is answered.
abbrev pub settles : ℕ → List Delivery → ℕ
settles id [] = 0
settles id (nothing ∷ ds) = settles id ds
settles id (settle j h payload ∷ ds) = (if j == id then 1 else 0) + settles id ds
settles id (notify n ∷ ds) = settles id ds

-- One for an active request, and zero for another.
abbrev pub active : ℕ → Waiting → ℕ
active id w = if mem_id id w.pending then 1 else 0

-- How often a request with this invoke ID is inserted.
abbrev pub insertions : ℕ → List Change → ℕ
insertions id [] = 0
insertions id (inserted j ∷ cs) = (if j == id then 1 else 0) + insertions id cs
insertions id (discarded j ∷ cs) = insertions id cs
insertions id (abandoned j ∷ cs) = insertions id cs

abbrev pub all_insertions : ℕ → List (List Change) → ℕ
all_insertions id [] = 0
all_insertions id (cs ∷ css) = insertions id cs + all_insertions id css

insertions-now :
    (id : ℕ) (css : List (List Change))
    → all_insertions id css ≡ insertions id (now css) + all_insertions id (later css)
insertions-now id [] = refl
insertions-now id (cs ∷ css) = refl

insertions-first :
    (id : ℕ) (c : Change) (cs : List Change)
    → insertions id (c ∷ cs) ≡ insertions id (c ∷ []) + insertions id cs
insertions-first id (inserted j) cs = omega arith
insertions-first id (discarded j) cs = omega arith
insertions-first id (abandoned j) cs = omega arith

module _ ⦃bo : ByteOrder⦄ (source : AmsAddr) where
  -- A delivery and what is active after it account for what was active before.
  settles-after :
      (id : ℕ) (w : Waiting) (d : Delivery) (ds : List Delivery) (n more : ℕ)
      → IsOwed w d
      → settles id ds + n ≤ more + active id (after d w)
      → settles id (d ∷ ds) + n ≤ more + active id w
  settles-after id w nothing ds n more o e = e
  settles-after id w (notify m) ds n more o e = e
  settles-after id w (settle j h p) ds n more (IsOwed.owed known) e =
      let left = mem_id-remove_id j id w.pending in
      elim (Bool-cases (j == id)) [
        | inl same ↦
            let active_before : mem_id id w.pending ≡ true =
              ap (λ t. mem_id t w.pending) (sym ((==_iff j id).0 same)) ∙ known in
            let e' = rw (left, same) at e in rw (same, active_before) (omega (arith, e'))
        | inr other ↦ let e' = rw (left, other) at e in rw other (omega (arith, e'))
      ]

  -- An error leaves no more active requests than there were.
  active-after_error :
      (id : ℕ) (x : Error) (w : Waiting) → 0 + active id (after_error x w) ≤ active id w
  active-after_error id (io_sync context text j) w =
      let left = mem_id-remove_id j id w.pending in
      elim (Bool-cases (j == id)) [
        | inl same ↦ rw (left, same) (omega arith)
        | inr other_one ↦ rw (left, other_one) (omega arith)
      ]
  active-after_error id (io context e) w = omega arith
  active-after_error id _ w = omega arith

  -- Changes by other threads leave no more active requests than are inserted or were there.
  active-apply :
      (id : ℕ) (c : Change) (w : Waiting)
      → active id (apply c w) ≤ insertions id (c ∷ []) + active id w
  unfolding apply
  active-apply id (inserted j) w =
      let added = mem_id-insert_id j id w.pending in
      elim (Bool-cases (j == id)) [
        | inl same ↦ rw (added, same) (omega arith)
        | inr other ↦ rw (added, other) (omega arith)
      ]
  active-apply id (discarded j) w =
      let left = mem_id-remove_id j id w.pending in
      elim (Bool-cases (j == id)) [
        | inl same ↦ rw (left, same) (omega arith)
        | inr other ↦ rw (left, other) (omega arith)
      ]
  active-apply id (abandoned j) w = omega arith

  active-apply_all :
      (id : ℕ) (cs : List Change) (w : Waiting)
      → active id (apply_all cs w) ≤ insertions id cs + active id w
  active-apply_all id [] w = omega arith
  active-apply_all id (c ∷ cs) w =
      omega
        (arith, active-apply_all id cs (apply c w), active-apply id c w, insertions-first id c cs)

  -- Whatever the connection brings and the other threads do: the number of times that the reader
  -- thread answers requests with one invoke ID, with one more if there is an active one at the end,
  -- is at most the number of times that such a request is inserted, with one more if there was an
  -- active one at the start.
  pub settles-reader_work :
      (id fuel : ℕ) (changes : List (List Change)) (w : Waiting) (stream : Bytes)
      → settles id (reader_work fuel source changes w stream).0
          + active id (reader_work fuel source changes w stream).2
        ≤ all_insertions id changes + active id w
  unfolding reader_work
  settles-reader_work id zero changes w stream = omega arith
  settles-reader_work id (suc fuel) changes w stream =
      let w' = apply_all (now changes) w in
      let before = active-apply_all id (now changes) w in
      let counted = insertions-now id changes in
      elim (Result-cases (read_one source w' stream)) [
        | is_ok (d, rest) e ↦
            let more = settles-reader_work id fuel (later changes) (after d w') rest in
            let step =
              settles-after id w' d (reader_work fuel source (later changes) (after d w') rest).0
                (active id (reader_work fuel source (later changes) (after d w') rest).2)
                (all_insertions id (later changes)) (read_one-IsOwed source w' stream e) more in
            rw e (omega (arith, step, before, counted))
        | is_err x e ↦ rw e (omega (arith, active-after_error id x w', before, counted))
        | is_panic e ↦ rw e (omega (arith, before, counted))
      ]
