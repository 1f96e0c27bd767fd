-- ===== src/Symbol/Cursor/Reads.antt =====
-- symbol.rs: what its parsers read from the front of a response, for the proofs about layouts.
use ads_rs.Prelude.{
  ℕ, ◌+◌, ◌-◌, ◌^◌, ◌<◌, ◌≡◌, refl, sym, String, Bool, true, List, [], ◌∷◌, ◌++◌, map, append_assoc,
  append-nil, arith, le→leb, length, All,
}
use mathlib.Core.Path.{subst}
use ads_rs.Wire.{
  Bytes, ByteOrder, concat, read_exact, read_exact-append, read_uint, read_uint-write_int,
  split_at-append, write_u32,
}
use ads_rs.Errors.{Error, Result, ok, ensure}
use ads_rs.Symbol.Cursor.{Cursor, pure, lift, repeat, entry, value_of, ◌>>=◌, ◌>>◌}

-- The cursor at these bytes passes them and returns the value, whatever follows.
pub record Reads {A : Type 0} (m : Cursor A) (bytes : Bytes) (a : A) : Type 0 where
  pub reads : (rest : Bytes) → m (bytes ++ rest) ≡ ok (a, rest)

back : (n : ℕ) → (4 + n) - 4 ≡ n
back n = omega arith

-- What follows the bytes read does not matter to a parser that drops its cursor.
pub value_of-Reads :
    {A : Type 0} {m : Cursor A} {bytes : Bytes} {a : A}
    → Reads m bytes a
    → (trailing : Bytes) → value_of (m (bytes ++ trailing)) ≡ ok a
value_of-Reads h trailing = rw (h.reads trailing) refl

pub pure-Reads : {A : Type 0} (a : A) → Reads (pure a) [] a
pure-Reads a = record { reads = λ rest. refl }

module _ {A B : Type 0} {m : Cursor A} {b : Bytes} {x : A} {y : B} where
  pub >>=-Reads :
      {c : Bytes} (f : A → Cursor B) → Reads m b x → Reads (f x) c y → Reads (m >>= f) (b ++ c) y
  >>=-Reads {c} f h k = record {
    reads = λ rest. unfold ◌>>=◌ in rw (append_assoc b c rest, h.reads (c ++ rest)) (k.reads rest);
  }

  -- The last part, after which nothing is read.
  pub last-Reads : (f : A → Cursor B) → Reads m b x → f x ≡ pure y → Reads (m >>= f) b y
  last-Reads f h e = record { reads = λ rest. unfold ◌>>=◌ in rw (h.reads rest, e) refl }

pub append-nil-Reads :
    {A : Type 0} {m : Cursor A} {bytes : Bytes} {a : A} → Reads m bytes a → Reads m (bytes ++ []) a
append-nil-Reads {m} {bytes} {a} h = subst (λ b. Reads m b a) (sym (append-nil bytes)) h

pub ensure-Reads :
    {A : Type 0} {m : Cursor A} {bytes : Bytes} {a : A} (t : Bool) (e : Error)
    → t ≡ true
    → Reads m bytes a
    → Reads (ensure t e >> m) bytes a
unfolding lift ◌>>=◌ ◌>>◌
ensure-Reads t e h k = record { reads = λ rest. rw h (k.reads rest) }

pub lift-Reads : {A : Type 0} (r : Result A) (a : A) → r ≡ ok a → Reads (lift r) [] a
unfolding lift
lift-Reads r a h = record { reads = λ rest. rw h refl }

pub read_exact-Reads :
    (n : ℕ) (context : String) (a : Bytes) → length a ≡ n → Reads (read_exact n context) a a
read_exact-Reads n context a h = record { reads = λ rest. read_exact-append n context a rest h }

pub repeat-Reads :
    {A B : Type 0} (m : Cursor A) (encode : B → Bytes) (meaning : B → A) (xs : List B)
    → All (λ x. Reads m (encode x) (meaning x)) xs
    → Reads (repeat (length xs) m) (concat (map encode xs)) (map meaning xs)
unfolding repeat
repeat-Reads m encode meaning [] h = pure-Reads []
repeat-Reads m encode meaning (x ∷ xs) h =
    >>=-Reads _ h.0 (last-Reads _ (repeat-Reads m encode meaning xs h.1) refl)

-- A list whose elements are what is read.
pub repeat-Reads_self :
    {A : Type 0} (m : Cursor A) (encode : A → Bytes) (xs : List A)
    → All (λ x. Reads m (encode x) x) xs
    → Reads (repeat (length xs) m) (concat (map encode xs)) xs
unfolding repeat
repeat-Reads_self m encode [] h = pure-Reads []
repeat-Reads_self m encode (x ∷ xs) h =
    >>=-Reads _ h.0 (last-Reads _ (repeat-Reads_self m encode xs h.1) refl)

module _ ⦃bo : ByteOrder⦄ where
  pub read_uint-Reads :
      (w : ℕ) (context : String) (v : ℕ)
      → v < 256 ^ w
      → Reads (read_uint w context) (bo.write_int w v) v
  read_uint-Reads w context v h = record { reads = λ rest. read_uint-write_int w context v rest h }

  -- An entry with the length in front, which counts its own four bytes.
  unfoldable pub entry_bytes : Bytes → Bytes
  entry_bytes content = write_u32 (4 + length content) ++ content

  pub entry-Reads :
      {A : Type 0} (context text : String) (parse : Bytes → Result A) (content : Bytes) {a : A}
      → 4 + length content < 2 ^ 32
      → parse content ≡ ok a
      → Reads (entry context text parse) (entry_bytes content) a
  unfolding entry_bytes entry lift ◌>>=◌ ◌>>◌
  entry-Reads context text parse content h k = record {
    reads = λ rest.
        rw
          (
            append_assoc (write_u32 (4 + length content)) content rest,
            read_uint-write_int 4 context (4 + length content) (content ++ rest) h,
            le→leb 4 (4 + length content) (omega arith),
            back (length content),
            split_at-append (length content) content rest refl,
            k,
          )
          refl;
  }
