-- ===== src/Symbol/Cursor.antt =====
-- symbol.rs: how its parsers move a `&mut &[u8]` through a response: steps that take bytes from the
-- front, or fail.
pub mod Reads
use ads_rs.Prelude.{ℕ, zero, suc, ◌+◌, ◌-◌, ◌%◌, ◌^◌, String, List, [], ◌∷◌, ◌++◌, leb, ◌≡◌, refl}
use ads_rs.Wire.{Bytes, ByteOrder, split_at, read_u32}
use ads_rs.Errors.{Error, Result, ok, err, panic, reply, ensure}

abbrev pub Cursor : Type 0 → Type 0
Cursor A = Bytes → Result (A × Bytes)

abbrev pub pure : {A : Type 0} → A → Cursor A
pure a ptr = ok (a, ptr)

lifted : {A : Type 0} → Result A → Bytes → Result (A × Bytes)
lifted (ok a) ptr = ok (a, ptr)
lifted (err e) ptr = err e
lifted panic ptr = panic

-- A result that does not depend on the cursor.
unfoldable pub lift : {A : Type 0} → Result A → Cursor A
unfolding lifted
lift r ptr = lifted r ptr

abbrev go_on : {A B : Type 0} → Result (A × Bytes) → (A → Cursor B) → Result (B × Bytes)
go_on (ok (a, ptr)) f = f a ptr
go_on (err e) f = err e
go_on panic f = panic

-- The value of a parser whose cursor is dropped at the end.
abbrev pub value_of : {A : Type 0} → Result (A × Bytes) → Result A
value_of (ok (a, ptr)) = ok a
value_of (err e) = err e
value_of panic = panic

infixl 5 ◌>>=◌ ◌>>◌
unfoldable pub ◌>>=◌ : {A B : Type 0} → Cursor A → (A → Cursor B) → Cursor B
◌>>=◌ m f ptr = go_on (m ptr) f

unfoldable pub ◌>>◌ : {B : Type 0} → Result (Unit {0}) → Cursor B → Cursor B
m >> k = lift m >>= λ _. k

-- `for _ in 0..count`, with the values pushed onto a list.
unfoldable pub repeat : {A : Type 0} → ℕ → Cursor A → Cursor (List A)
repeat zero m = pure []
repeat (suc n) m = do a ← m; as' ← repeat n m; pure (a ∷ as')

module _ ⦃bo : ByteOrder⦄ where
  -- An entry that starts with its length, these four bytes included, and is parsed by itself.
  unfoldable pub entry : {A : Type 0} → String → String → (Bytes → Result A) → Cursor A
  entry context text parse = do
    entry_len ← read_u32 context
    ensure (leb 4 entry_len) (reply context text entry_len)
    content ← split_at (entry_len - 4)
    lift (parse content)
