-- ===== src/Symbol/Table/RoundTrip.antt =====
-- symbol.rs: the tables of symbols and types are decoded to what they are the layout of.
use ads_rs.Prelude.{
  ℕ, zero, suc, ◌+◌, ◌-◌, ◌%◌, ◌^◌, ◌<◌, ◌≤◌, ◌≡◌, refl, ap, ◌∙◌, String, false, Option, none, some,
  List, [], ◌∷◌, ◌++◌, map, append_assoc, arith, inl, inr, length, length-append, All, All-map,
  Bool-cases, if◌then◌else◌,
}
use ads_rs.Wire.{
  Bytes, ByteOrder, concat, read_uint-short, read_uint-write_int, split_at-append, write_u32,
}
use ads_rs.Errors.{Result, ok, ◌>>=◌}
use ads_rs.NetId.{bytes_eq}
use ads_rs.NetId.Equal.{bytes_eq_sound}
use ads_rs.Symbol.{TypeInfo}
use ads_rs.Symbol.Cursor.Reads.{entry_bytes}
use ads_rs.Symbol.Types.{decode_symbol, decode_type}
use ads_rs.Symbol.Types.Valid.{IsSymbol, IsType}
use ads_rs.Symbol.Types.Layout.{
  SymbolLayout, TypeLayout, symbol_entry, symbol_of_layout, type_entry, type_of_layout,
}
use ads_rs.Symbol.Types.RoundTrip.{decode_symbol-layout, decode_type-layout}
use ads_rs.Symbol.Table.{TypeMap, decode_symbol_info, entries, get, insert, insert_all, table_entry}

-- The last of the types with a name.
unfoldable pub last_named : Bytes → List TypeInfo → Option TypeInfo → Option TypeInfo
last_named key [] before = before
last_named key (t ∷ ts) before = last_named key ts (if bytes_eq t.name key then some t else before)

get-insert :
    (key name : Bytes) (t : TypeInfo) (m : TypeMap)
    → get key (insert name t m) ≡ (if bytes_eq name key then some t else get key m)
unfolding get insert
get-insert key name t [] = refl
get-insert key name t (e ∷ es) = elim (Bool-cases (bytes_eq e.0 name)) [
  | inl same ↦
      rw (same, bytes_eq_sound e.0 name same)
        (elim (Bool-cases (bytes_eq name key)) [
          | inl found ↦ rw found refl
          | inr missed ↦ rw missed refl
        ])
  | inr other ↦ elim (Bool-cases (bytes_eq name key)) [
    | inl found ↦
        let e' : name ≡ key = bytes_eq_sound name key found in
        let missed : bytes_eq e.0 key ≡ false = rw (← e') other in
        rw (other, missed, found, get-insert key name t es) (rw found refl)
    | inr missed ↦ rw (other, missed, get-insert key name t es) (rw missed refl)
  ]
]

get-insert_all :
    (key : Bytes) (ts : List TypeInfo) (m : TypeMap)
    → get key (insert_all ts m) ≡ last_named key ts (get key m)
unfolding insert_all last_named
get-insert_all key [] m = refl
get-insert_all key (t ∷ ts) m =
    get-insert_all key ts (insert t.name t m) ∙ ap (last_named key ts) (get-insert key t.name t m)

module _ ⦃bo : ByteOrder⦄ where
  pub table_entry-append :
      (context : String) (content rest : Bytes)
      → 4 + length content < 2 ^ 32
      → table_entry context (entry_bytes content ++ rest) ≡ ok (content, rest)
  unfolding table_entry entry_bytes
  table_entry-append context content rest h =
      let n = length content in
      let back : (4 + n + 2 ^ 64 - 4) % 2 ^ 64 ≡ n = omega arith in
      rw
        (
          append_assoc (write_u32 (4 + n)) content rest,
          read_uint-write_int 4 context (4 + n) (content ++ rest) h,
          back,
          split_at-append n content rest refl,
        )
        refl

  pub length-entry_bytes :
      (content rest : Bytes)
      → length (entry_bytes content ++ rest) ≡ 4 + length content + length rest
  unfolding entry_bytes
  length-entry_bytes content rest = omega (
    arith,
    length-append {A = ℕ} (write_u32 (4 + length content) ++ content) rest,
    length-append {A = ℕ} (write_u32 (4 + length content)) content,
    bo.length-write_int 4 (4 + length content),
  )

  -- One round.
  pub entries-step :
      {A : Type 0} (context : String) (parse : Bytes → Result A) (n : ℕ) (ptr : Bytes)
      {content rest : Bytes} {a : A}
      → table_entry context ptr ≡ ok (content, rest)
      → parse content ≡ ok a
      → entries (suc n) context parse ptr ≡ (entries n context parse rest >>= λ as'. ok (a ∷ as'))
  unfolding entries table_entry
  entries-step context parse n [] {content} {rest} h k =
      let h' = rw (read_uint-short 4 context [] (omega arith)) at h in absurd (cc)
  entries-step context parse n (b ∷ bs) h k = rw (h, k) refl

  abbrev pub table_bytes : {B : Type 0} → (B → Bytes) → List B → Bytes
  table_bytes content xs = concat (map (λ x. entry_bytes (content x)) xs)

  entries-layout :
      {A B : Type 0} (context : String) (parse : Bytes → Result A) (content : B → Bytes)
      (meaning : B → A) (n : ℕ) (xs : List B)
      → All (λ x. (4 + length (content x) < 2 ^ 32) × (parse (content x) ≡ ok (meaning x))) xs
      → length (table_bytes content xs) ≤ n
      → entries n context parse (table_bytes content xs) ≡ ok (map meaning xs)
  entries-layout context parse content meaning n [] h fuel = unfold entries in refl
  entries-layout context parse content meaning zero (x ∷ xs) h fuel =
      absurd (omega (arith, length-entry_bytes (content x) (table_bytes content xs)))
  entries-layout context parse content meaning (suc n) (x ∷ xs) h fuel =
      let rest = table_bytes content xs in
      let less : length rest ≤ n = omega (arith, length-entry_bytes (content x) rest) in
      entries-step context parse n (entry_bytes (content x) ++ rest)
        (table_entry-append context (content x) rest h.0.0) h.0.1
      ∙ rw (entries-layout context parse content meaning n xs h.1 less) refl

  module _ (symbols : List SymbolLayout) (types : List TypeLayout)
      (symbols_valid : All IsSymbol symbols) (types_valid : All IsType types) where
    -- If two tables are the layouts of symbols and types, they are decoded to these symbols in their
    -- order and to a map in which each name leads to the last of the types with that name, and a
    -- name of no type to nothing.
    pub decode_symbol_info-layout :
        (type_map : TypeMap) × (decode_symbol_info
            (table_bytes symbol_entry symbols)
            (table_bytes type_entry types)
          ≡ ok (map symbol_of_layout symbols, type_map))
        × ((key : Bytes) → get key type_map ≡ last_named key (map type_of_layout types) none)
    unfolding decode_symbol_info
    decode_symbol_info-layout =
        let ts = map type_of_layout types in
        let n = length (table_bytes type_entry types) in
        let k = length (table_bytes symbol_entry symbols) in
        (
          insert_all ts [],
          rw
              (
                entries-layout "decoding type info" decode_type type_entry type_of_layout n types
                    (All-map (λ t h. (h.entry_fits, decode_type-layout t h)) types types_valid)
                    (omega arith),
                entries-layout "decoding symbol info" decode_symbol symbol_entry symbol_of_layout k
                    symbols
                    (All-map (λ s h. (h.entry_fits, decode_symbol-layout s h)) symbols
                      symbols_valid)
                    (omega arith),
              )
              refl,
          λ key. get-insert_all key ts [] ∙ (unfold get in refl),
        )
