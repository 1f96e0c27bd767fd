-- ===== src/Text/Join.antt =====
-- Joining parts by a separator, and pairs: the interface to `itertools` as a value.
use ads_rs.Prelude.{◌≡◌, refl, Option, none, some, List, [], ◌∷◌, ◌++◌}
use ads_rs.Wire.{Bytes}
use ads_rs.Text.{Itertools}

unfoldable pub join : Bytes → List Bytes → Bytes
join sep [] = []
join sep (a ∷ []) = a
join sep (a ∷ (b ∷ rest)) = a ++ (sep ++ join sep (b ∷ rest))

unfoldable pub pair_of : List Bytes → Option (Bytes × Bytes)
pair_of [] = none
pair_of (a ∷ []) = none
pair_of (a ∷ (b ∷ [])) = some (a, b)
pair_of (a ∷ (b ∷ (c ∷ rest))) = none

pub join-single : (sep a : Bytes) → join sep (a ∷ []) ≡ a
unfolding join
join-single sep a = refl

pub join-cons :
    (sep a b : Bytes) (rest : List Bytes)
    → join sep (a ∷ b ∷ rest) ≡ a ++ (sep ++ join sep (b ∷ rest))
unfolding join
join-cons sep a b rest = refl

pub pair_of-pair : (a b : Bytes) → pair_of (a ∷ b ∷ []) ≡ some (a, b)
unfolding pair_of
pair_of-pair a b = refl

abbrev pub joining : Itertools
joining = record {
  format = join;
  format-single = join-single;
  format-cons = join-cons;
  collect_tuple = pair_of;
  collect_tuple-pair = pair_of-pair;
}
