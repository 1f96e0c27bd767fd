-- ===== src/Symbol/Table.antt =====
-- symbol.rs: the tables of symbols and types that a device uploads.
pub mod RoundTrip
pub mod Rounds
pub mod Broken
use ads_rs.Prelude.{
  ℕ, zero, suc, ◌+◌, ◌-◌, ◌%◌, ◌^◌, ◌≡◌, refl, Bool, true, false, Option, none, some, String, List,
  [], ◌∷◌, ◌++◌, ◌==◌, if◌then◌else◌, length,
}
use ads_rs.Wire.{Bytes, ByteOrder, read_u32, split_at}
use ads_rs.Errors.{Result, ok, panic, ◌>>=◌}
use ads_rs.NetId.{bytes_eq}
use ads_rs.Symbol.{Symbol, TypeInfo}
use ads_rs.Symbol.Types.{decode_type, decode_symbol}

-- `TypeMap`: the keys are distinct, and their order says nothing.
abbrev pub TypeMap : Type 0
TypeMap = List (Bytes × TypeInfo)

unfoldable pub insert : Bytes → TypeInfo → TypeMap → TypeMap
insert key typ [] = (key, typ) ∷ []
insert key typ (e ∷ es) =
    let rest = insert key typ es in if bytes_eq e.0 key then (key, typ) ∷ es else e ∷ rest

unfoldable pub get : Bytes → TypeMap → Option TypeInfo
get key [] = none
get key (e ∷ es) = let rest = get key es in if bytes_eq e.0 key then some e.1 else rest

unfoldable pub insert_all : List TypeInfo → TypeMap → TypeMap
insert_all [] type_map = type_map
insert_all (t ∷ ts) type_map = insert_all ts (insert t.name t type_map)

module _ ⦃bo : ByteOrder⦄ where
  -- An entry of a table without the four bytes of its length, and what follows it. A length below
  -- four wraps to a number that no slice has.
  unfoldable pub table_entry : String → Bytes → Result (Bytes × Bytes)
  table_entry context ptr = do
    (entry_size, after) ← read_u32 context ptr
    split_at ((entry_size + 2 ^ 64 - 4) % 2 ^ 64) after

  -- `while !data_ptr.is_empty()`
  unfoldable pub entries : {A : Type 0} → ℕ → String → (Bytes → Result A) → Bytes → Result (List A)
  entries rounds context parse [] = ok []
  entries zero context parse (b ∷ bs) = panic
  entries (suc rounds) context parse (b ∷ bs) = do
    (content, rest) ← table_entry context (b ∷ bs)
    a ← parse content
    as' ← entries rounds context parse rest
    ok (a ∷ as')

  unfoldable pub decode_symbol_info : Bytes → Bytes → Result (List Symbol × TypeMap)
  decode_symbol_info symbol_data type_data = do
    types ← entries (length type_data) "decoding type info" decode_type type_data
    symbols ← entries (length symbol_data) "decoding symbol info" decode_symbol symbol_data
    ok (symbols, insert_all types [])
