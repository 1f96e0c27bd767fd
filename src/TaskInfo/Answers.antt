-- ===== src/TaskInfo/Answers.antt =====
-- task_info.rs: readers that are made from an accepted layout, and what they return for the answer of
-- a device.
use ads_rs.Prelude.{
  ℕ, suc, ◌*◌, ◌^◌, ◌≤◌, ◌<◌, ◌≡◌, refl, ap, sym, ◌∙◌, Bool, true, false, not, ◌&&◌, Option, none,
  some, List, ◌∷◌, arith, inl, inr, leb, leb→le, ltb, ◌==◌, ==-self, ==_iff, Option-cases, length,
  replicate, length-replicate,
}
use mathlib.Core.Path.{subst}
use ads_rs.Prelude.Int.{ℤ, pos, ◌+ℤ◌, is_i32}
use ads_rs.Wire.{Bytes, ByteOrder}
use ads_rs.Errors.{
  ok, err, panic, Result-cases, is_ok, is_err, is_panic, ensure-eq_ok, ok-injective, >>=-eq_ok,
}
use ads_rs.NetId.{AmsAddr}
use ads_rs.NetId.Equal.{addr_eq_self}
use ads_rs.Symbol.{TypeInfo}
use ads_rs.Client.Command
use ads_rs.Client.Header.{AdsHeader}
use ads_rs.Client.Action.{Arrival, Client, received}
use ads_rs.Client.Exchange.Response.{IsAnswer}
use ads_rs.Client.Device.{read_exact}
use ads_rs.Client.Device.Sequence.{read_exact-whole}
use ads_rs.Symbol.Access.Answers.{response}
use ads_rs.TaskInfo.{
  TaskInfoLayout, TaskInfoLocation, TaskInfoReader, count_of, from_entry_type, max_task_info_size,
  new, or_invalid,
}
use ads_rs.TaskInfo.Layouts.{HasName, from_entry_type_iff}
use ads_rs.TaskInfo.Slots.{IsReader, NameFits, decode_tasks-at, tasks_at}
use ads_rs.TaskInfo.Slots.Bounds.{count_of_sound, index_of-slot}
use ads_rs.TaskInfo.Read.{available, read, read_app_task_count, report, unavailable}

HasName-NameFits : (entry : TypeInfo) (o : Option ℕ) → HasName entry o → NameFits entry.size o
HasName-NameFits entry none h = tt
HasName-NameFits entry (some offset) h = h.2

both : (a b : Bool) → (a && b) ≡ true → (a ≡ true) × (b ≡ true)
both true b h = (refl, h)
both false b h = cc

or_invalid_sound : (o : Option ℕ) {n : ℕ} → or_invalid o ≡ ok n → o ≡ some n
unfolding or_invalid
or_invalid_sound none h = cc
or_invalid_sound (some n) h = ap some (ok-injective h)

module _ ⦃bo : ByteOrder⦄ where
  -- If an entry type is accepted as a layout, and a reader is made of that layout and of array bounds
  -- that are 32-bit integers, then the array has at least one entry, the last one at the upper bound,
  -- and at most 16 MiB, and the reader is valid for as many entries.
  pub decode_tasks-new :
      (entry : TypeInfo) (layout : TaskInfoLayout) (target : AmsAddr) (generation : ℕ)
      (location : TaskInfoLocation) (first last : ℤ) (reader : TaskInfoReader)
      → from_entry_type entry ≡ ok layout
      → is_i32 first ≡ true
      → is_i32 last ≡ true
      → new target generation location (first, last) layout ≡ ok reader
      → (n : ℕ) × (first +ℤ pos n ≡ last)
        × (location.size ≤ max_task_info_size)
        × IsReader reader (suc n)
  unfolding new
  decode_tasks-new entry layout target generation location first last reader accepted p q made =
      let a = (from_entry_type_iff entry layout).0 accepted in
      let (count, h, made') = >>=-eq_ok (or_invalid (count_of (first, last))) _ made in
      let (n, e, small, end) = count_of_sound first last count (or_invalid_sound _ h) in
      let (tests, made'') = ensure-eq_ok _ _ _ made' in
      let (t1, same) =
        both
          (not (location.size == 0)
            && leb location.size max_task_info_size
            && ltb (count * layout.entry_size) (2 ^ 64))
          (count * layout.entry_size == location.size) tests in
      let (t2, _) =
        both (not (location.size == 0) && leb location.size max_task_info_size)
          (ltb (count * layout.entry_size) (2 ^ 64)) t1 in
      let (_, most) = both (not (location.size == 0)) (leb location.size max_task_info_size) t2 in
      let r = ok-injective made'' in
      (
        n,
        end,
        leb→le location.size max_task_info_size most,
        subst (λ x. IsReader x (suc n)) r
            (record {
              entry_long = omega (arith, a.entry_size, a.whole_prefix);
              name_fits =
                  subst (λ size. NameFits size layout.task_name_offset) (sym a.entry_size)
                    (HasName-NameFits entry layout.task_name_offset a.name);
              size =
                  sym ((==_iff (count * layout.entry_size) location.size).0 same)
                  ∙ ap (λ k. k * layout.entry_size) e;
              indexed = λ slot le.
                  index_of-slot first last n slot p q end (omega (arith, small, e))
                    (omega (arith, le));
            }),
      )

  module _ (reader : TaskInfoReader) (count : ℕ) (c : Client) (bytes : Bytes) {h : AdsHeader}
      {later : List Arrival} (valid : IsReader reader count)
      (small : reader.task_info.size < 2 ^ 32) (whole : length bytes ≡ reader.task_info.size)
      (arrivals : c.arrivals ≡ received h (response bytes) ∷ later)
      (answer : IsAnswer Command.read reader.target c.invoke_id h) where
    abbrev client_after : Client
    client_after =
        (read_exact reader.target reader.task_info.index_group reader.task_info.index_offset
          (replicate reader.task_info.size 0) c).1

    -- If the device of a valid reader answers the read of the task array without an error and in
    -- full, `read` always returns the tasks of the answer, whatever its bytes are: without a task
    -- count if no location of one was given, and otherwise with the count, or with the error that
    -- the request for it met; unless this request panics.
    pub tasks_at-read :
        (read reader reader.target reader.symbol_generation c).0 ≡ elim reader.app_info [
          | none ↦ ok (record { reported_task_count = none; tasks = tasks_at reader 0 count bytes })
          | some location ↦ elim (read_app_task_count reader.target location client_after).0 [
            | ok n ↦ ok (record {
              reported_task_count = some (available n);
              tasks = tasks_at reader 0 count bytes;
            })
            | err e ↦ ok (record {
              reported_task_count = some (unavailable e);
              tasks = tasks_at reader 0 count bytes;
            })
            | panic ↦ panic
          ]
        ]
    unfolding read report
    tasks_at-read =
        let size = reader.task_info.size in
        let zeroes = replicate size 0 in
        let (r, _) =
          read_exact-whole reader.target reader.task_info.index_group reader.task_info.index_offset
            c zeroes bytes arrivals (omega (arith, length-replicate {A = ℕ} size 0))
            (whole ∙ sym (length-replicate size 0)) answer in
        rw
          (
            ==-self reader.symbol_generation,
            addr_eq_self reader.target,
            r,
            decode_tasks-at reader count bytes valid whole,
          )
          (elim (Option-cases reader.app_info) [
            | inl none_given ↦ rw none_given refl
            | inr (location, given) ↦
                let m = read_app_task_count reader.target location client_after in
                elim (Result-cases m.0) [
                  | is_ok n e ↦ rw (given, e) refl
                  | is_err x e ↦ rw (given, e) refl
                  | is_panic e ↦ rw (given, e) refl
                ]
          ])
