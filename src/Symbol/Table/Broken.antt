-- ===== src/Symbol/Table/Broken.antt =====
-- symbol.rs: tables with an entry whose length is wrong.
use ads_rs.Prelude.{
  ℕ, zero, suc, ◌+◌, ◌-◌, ◌%◌, ◌^◌, ◌<◌, ◌≡◌, ◌⊎◌, inl, inr, refl, ◌∙◌, String, List, [], ◌∷◌, ◌++◌,
  arith, length, All, append_assoc,
}
use ads_rs.Wire.{Bytes, ByteOrder, read_uint-short, read_uint-write_int, split_at-short, write_u32}
use ads_rs.Errors.{Result, panic}
use ads_rs.Symbol.Cursor.Reads.{entry_bytes}
use ads_rs.Symbol.Types.{decode_type}
use ads_rs.Symbol.Types.Valid.{IsType}
use ads_rs.Symbol.Types.Layout.{TypeLayout, type_entry}
use ads_rs.Symbol.Types.RoundTrip.{decode_type-layout}
use ads_rs.Symbol.Table.{decode_symbol_info, entries, table_entry}
use ads_rs.Symbol.Table.RoundTrip.{
  table_bytes, entries-step, table_entry-append, length-entry_bytes,
}

abbrev IsBad : ℕ → Bytes → Type 0
IsBad n rest = (n < 4) ⊎ (4 + length rest < n)

beyond :
    (n : ℕ) (rest : Bytes)
    → n < 2 ^ 32
    → length rest < 2 ^ 63
    → IsBad n rest
    → length rest < (n + 2 ^ 64 - 4) % 2 ^ 64
beyond n rest fits small (inl low) = omega arith
beyond n rest fits small (inr high) = omega arith

module _ ⦃bo : ByteOrder⦄ where
  table_entry-bad :
      (context : String) (n : ℕ) (rest : Bytes)
      → n < 2 ^ 32
      → length rest < 2 ^ 63
      → IsBad n rest
      → table_entry context (write_u32 n ++ rest) ≡ panic
  unfolding table_entry
  table_entry-bad context n rest fits small bad =
      rw
        (
          read_uint-write_int 4 context n rest fits,
          split_at-short ((n + 2 ^ 64 - 4) % 2 ^ 64) rest (beyond n rest fits small bad),
        )
        refl

  entries-panic :
      {A : Type 0} (context : String) (parse : Bytes → Result A) (n : ℕ) (ptr : Bytes)
      → table_entry context ptr ≡ panic
      → entries n context parse ptr ≡ panic
  unfolding entries
  entries-panic context parse n [] h =
      unfold table_entry in
      let h' = rw (read_uint-short 4 context [] (omega arith)) at h in absurd (cc)
  entries-panic context parse zero (b ∷ bs) h = refl
  entries-panic context parse (suc n) (b ∷ bs) h = rw h refl

  -- No rounds are left.
  entries-zero :
      {A : Type 0} (context : String) (parse : Bytes → Result A) (ptr : Bytes)
      → 0 < length ptr
      → entries 0 context parse ptr ≡ panic
  unfolding entries
  entries-zero context parse [] h = absurd (omega arith)
  entries-zero context parse (b ∷ bs) h = refl

  entries-bad :
      (n : ℕ) (types : List TypeLayout) (tail : Bytes)
      → All IsType types
      → table_entry "decoding type info" tail ≡ panic
      → entries n "decoding type info" decode_type (table_bytes type_entry types ++ tail) ≡ panic
  entries-bad n [] tail h bad = entries-panic "decoding type info" decode_type n tail bad
  entries-bad zero (t ∷ types) tail h bad =
      let rest = table_bytes type_entry types ++ tail in
      rw (append_assoc (entry_bytes (type_entry t)) (table_bytes type_entry types) tail) (
        entries-zero "decoding type info" decode_type (entry_bytes (type_entry t) ++ rest)
          (omega (arith, length-entry_bytes (type_entry t) rest)))
  entries-bad (suc n) (t ∷ types) tail h bad =
      let rest = table_bytes type_entry types ++ tail in
      rw (append_assoc (entry_bytes (type_entry t)) (table_bytes type_entry types) tail) (
        entries-step "decoding type info" decode_type n (entry_bytes (type_entry t) ++ rest)
          (table_entry-append "decoding type info" (type_entry t) rest h.0.entry_fits)
          (decode_type-layout t h.0)
        ∙ rw (entries-bad n types tail h.1 bad) refl)

  -- If a table of types has, behind entries that are the layouts of types, an entry whose length is
  -- below four or goes beyond the end of the table, the decoder panics.
  pub decode_symbol_info-bad :
      (symbol_data : Bytes) (types : List TypeLayout) (n : ℕ) (rest : Bytes)
      → All IsType types
      → n < 2 ^ 32
      → length rest < 2 ^ 63
      → IsBad n rest
      → decode_symbol_info symbol_data (table_bytes type_entry types ++ (write_u32 n ++ rest))
        ≡ panic
  unfolding decode_symbol_info
  decode_symbol_info-bad symbol_data types n rest h fits small bad =
      rw
        (entries-bad _ types (write_u32 n ++ rest) h
          (table_entry-bad "decoding type info" n rest fits small bad))
        refl
