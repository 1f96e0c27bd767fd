-- ===== src/Symbol/Members/Short.antt =====
-- symbol.rs: variants of an enumeration whose size is below that of their integer type.
use ads_rs.Prelude.{[], ℕ, suc, ◌^◌, ◌<◌, ◌≡◌, refl, Bool, ◌++◌, append_assoc, length}
use ads_rs.Wire.{Bytes, ByteOrder, write_u16}
use ads_rs.Errors.{Result, panic}
use ads_rs.Symbol.Cursor.{Cursor, lift, repeat, ◌>>=◌}
use ads_rs.Symbol.Cursor.Reads.{Reads, read_uint-Reads, read_exact-Reads}
use ads_rs.Symbol.Text.Strings.{IsText, read_str-Reads}
use ads_rs.Symbol.Members.{parse_enum_info, parse_enum_infos}
use ads_rs.Symbol.Members.Layout.{VariantLayout, variant_bytes}
use ads_rs.Symbol.Members.Values.{IntegerType, enum_value-short}

-- The cursor at these bytes panics, whatever follows.
record Panics {A : Type 0} (m : Cursor A) (bytes : Bytes) : Type 0 where
  panics : (rest : Bytes) → m (bytes ++ rest) ≡ panic

module _ {A B : Type 0} {m : Cursor A} {b : Bytes} where
  >>=-Panics :
      {x : A} {c : Bytes} (f : A → Cursor B)
      → Reads m b x
      → Panics (f x) c
      → Panics (m >>= f) (b ++ c)
  >>=-Panics {x} {c} f h k = record {
    panics =
        λ rest. unfold ◌>>=◌ in rw (append_assoc b c rest, h.reads (c ++ rest)) (k.panics rest);
  }

  first-Panics : (f : A → Cursor B) → Panics m b → Panics (m >>= f) b
  first-Panics f h = record { panics = λ rest. unfold ◌>>=◌ in rw (h.panics rest) refl }

lift-Panics : {A : Type 0} (r : Result A) → r ≡ panic → Panics (lift r) []
unfolding lift
lift-Panics r h = record { panics = λ rest. rw h refl }

module _ ⦃bo : ByteOrder⦄ (base_type w : ℕ) (has_sign : Bool) (v : VariantLayout)
    (kind : IntegerType base_type w has_sign) (name : IsText v.name) (short : length v.name < 2 ^ 8)
    (less : length v.raw < w) where
  parse_enum_info-Panics : Panics (parse_enum_info (length v.raw) base_type) (variant_bytes v)
  unfolding parse_enum_info variant_bytes
  parse_enum_info-Panics = >>=-Panics _ (read_uint-Reads 1 _ (length v.name) short) (
      >>=-Panics _ (read_str-Reads v.name name) (
        >>=-Panics _ (read_exact-Reads (length v.raw) _ v.raw refl)
          (first-Panics _ (lift-Panics _ (enum_value-short base_type w has_sign kind v.raw less)))))

  -- If the variants of an enumeration of an integer type, ULINT included, are declared with fewer bytes
  -- than the type has, and there is at least one and their number fits 16 bits, and the name of the
  -- first is text whose length fits 8 bits, then `parse_enum_infos` panics, whatever follows the first
  -- variant.
  pub parse_enum_infos-short :
      (count : ℕ) (rest : Bytes)
      → suc count < 2 ^ 16
      → parse_enum_infos
          (length v.raw)
          base_type
          ((write_u16 (suc count) ++ variant_bytes v) ++ rest)
        ≡ panic
  unfolding parse_enum_infos repeat
  parse_enum_infos-short count rest few =
      (>>=-Panics _ (read_uint-Reads 2 _ (suc count) few)
          (first-Panics _ parse_enum_info-Panics)).panics
        rest
