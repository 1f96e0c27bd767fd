-- ===== src/Symbol/Table/Rounds.antt =====
-- symbol.rs: the loop over a table ends.
use ads_rs.Prelude.{
  ℕ, zero, suc, ◌+◌, ◌≤◌, ◌≡◌, refl, ap, String, List, [], ◌∷◌, arith, length, length-append,
}
use ads_rs.Wire.{Bytes, ByteOrder, read_uint-bind_eq_ok, split_at-eq_ok}
use ads_rs.Errors.{Error, Result, ok, err, panic, ◌>>=◌, Result-cases, is_ok, is_err, is_panic}
use ads_rs.Symbol.Table.{entries, table_entry}

module _ ⦃bo : ByteOrder⦄ where
  -- A round takes bytes.
  pub table_entry-less :
      (context : String) (ptr : Bytes) {content rest : Bytes}
      → table_entry context ptr ≡ ok (content, rest)
      → length content + length rest + 4 ≡ length ptr
  unfolding table_entry
  table_entry-less context ptr {content} {rest} h =
      let (raw, after, p, q, e) = read_uint-bind_eq_ok 4 context ptr _ h in
      let (k, _) = split_at-eq_ok _ after e in
      omega (
        arith,
        ap length p,
        length-append {A = ℕ} raw after,
        ap length k,
        length-append {A = ℕ} content rest,
        q,
      )

  abbrev with_entry : {A : Type 0} → A → Result (List A) → Result (List A)
  with_entry a (ok as') = ok (a ∷ as')
  with_entry a (err e) = err e
  with_entry a panic = panic

  -- What the loop `while !data_ptr.is_empty()` makes of a table, by a finite number of rounds.
  pub data Decoded {A : Type 0} (context : String) (parse : Bytes → Result A)
      : Bytes → Result (List A) → Type 0 where
    empty : Decoded context parse [] (ok [])
    entry_fails :
        {b : ℕ} {bs : Bytes} {e : Error}
        → table_entry context (b ∷ bs) ≡ err e
        → Decoded context parse (b ∷ bs) (err e)
    entry_panics :
        {b : ℕ} {bs : Bytes}
        → table_entry context (b ∷ bs) ≡ panic
        → Decoded context parse (b ∷ bs) panic
    parse_fails :
        {b : ℕ} {bs content rest : Bytes} {e : Error}
        → table_entry context (b ∷ bs) ≡ ok (content, rest)
        → parse content ≡ err e
        → Decoded context parse (b ∷ bs) (err e)
    parse_panics :
        {b : ℕ} {bs content rest : Bytes}
        → table_entry context (b ∷ bs) ≡ ok (content, rest)
        → parse content ≡ panic
        → Decoded context parse (b ∷ bs) panic
    round :
        {b : ℕ} {bs content rest : Bytes} {a : A} {r : Result (List A)}
        → table_entry context (b ∷ bs) ≡ ok (content, rest)
        → parse content ≡ ok a
        → Decoded context parse rest r
        → Decoded context parse (b ∷ bs) (with_entry a r)

  more : {A : Type 0} (a : A) (r : Result (List A)) → (r >>= λ as'. ok (a ∷ as')) ≡ with_entry a r
  more a (ok as') = refl
  more a (err e) = refl
  more a panic = refl

  -- With as many rounds as the table has bytes, the loop over it ends: its result is that of a finite
  -- sequence of its rounds, which stops at the end of the table, or at the first entry that fails or
  -- panics, and never for want of rounds.
  pub entries-Decoded :
      {A : Type 0} (context : String) (parse : Bytes → Result A) (n : ℕ) (ptr : Bytes)
      → length ptr ≤ n
      → Decoded context parse ptr (entries n context parse ptr)
  unfolding entries
  entries-Decoded context parse n [] h = Decoded.empty
  entries-Decoded context parse zero (b ∷ bs) h = absurd (omega arith)
  entries-Decoded context parse (suc n) (b ∷ bs) h =
      elim (Result-cases (table_entry context (b ∷ bs))) [
        | is_err e q ↦ rw q (Decoded.entry_fails q)
        | is_panic q ↦ rw q (Decoded.entry_panics q)
        | is_ok (content, rest) q ↦
            let less = table_entry-less context (b ∷ bs) q in
            let next = entries-Decoded context parse n rest (omega arith) in
            elim (Result-cases (parse content)) [
              | is_err e p ↦ rw (q, p) (Decoded.parse_fails q p)
              | is_panic p ↦ rw (q, p) (Decoded.parse_panics q p)
              | is_ok a p ↦
                  rw (q, p, more a (entries n context parse rest)) (Decoded.round q p next)
            ]
      ]
