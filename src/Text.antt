-- ===== src/Text.antt =====
-- Text as a list of code points: the parts of the standard library and of `itertools` that the
-- crate parses and prints addresses with.
pub mod Decimal
pub mod Utf8
pub mod Lossy
pub mod Join
use ads_rs.Prelude.{
  ℕ, ◌+◌, ◌≡◌, ◌≢◌, refl, ap, ◌∙◌, Bool, true, false, Option, some, List, [], ◌∷◌, ◌++◌, arith,
  ◌==◌, if◌then◌else◌, All,
}
use ads_rs.Wire.{Bytes}

-- What the crate uses of `itertools`: `format` joins parts by a separator, and `collect_tuple`, at
-- the type of a pair, takes exactly two parts.
pub record Itertools : Type 0 where
  pub format : Bytes → List Bytes → Bytes
  pub format-single : (sep a : Bytes) → format sep (a ∷ []) ≡ a
  pub format-cons :
      (sep a b : Bytes) (rest : List Bytes)
      → format sep (a ∷ b ∷ rest) ≡ a ++ (sep ++ format sep (b ∷ rest))
  pub collect_tuple : List Bytes → Option (Bytes × Bytes)
  pub collect_tuple-pair : (a b : Bytes) → collect_tuple (a ∷ b ∷ []) ≡ some (a, b)

abbrev push_head : ℕ → List Bytes → List Bytes
push_head c [] = (c ∷ []) ∷ []
push_head c (p ∷ ps) = (c ∷ p) ∷ ps

-- `s.split(sep)` of the standard library, for a separator of one character.
unfoldable pub split : ℕ → Bytes → List Bytes
split sep [] = [] ∷ []
split sep (c ∷ cs) = let rest = split sep cs in if c == sep then [] ∷ rest else push_head c rest

abbrev pub Lacks : ℕ → Bytes → Type 0
Lacks sep = All (λ c. c ≢ sep)

pub split-part : (sep : ℕ) (p : Bytes) → Lacks sep p → split sep p ≡ p ∷ []
unfolding split
split-part sep [] h = refl
split-part sep (c ∷ p) h = rw (split-part sep p h.1) (ground arith)

pub split-append :
    (sep : ℕ) (p rest : Bytes) → Lacks sep p → split sep (p ++ (sep ∷ rest)) ≡ p ∷ split sep rest
unfolding split
split-append sep [] rest h = ground arith
split-append sep (c ∷ p) rest h = rw (split-append sep p rest h.1) (ground arith)

-- Splitting at the separator undoes joining by it.
pub split-format :
    (it : Itertools) (sep : ℕ) (p : Bytes) (ps : List Bytes)
    → All (Lacks sep) (p ∷ ps)
    → split sep (it.format (sep ∷ []) (p ∷ ps)) ≡ p ∷ ps
split-format it sep p [] h = rw it.format-single (split-part sep p h.0)
split-format it sep p (q ∷ ps) h =
    rw it.format-cons (split-append sep p _ h.0 ∙ ap (λ t. p ∷ t) (split-format it sep q ps h.1))
