-- ===== src/Text/Lossy.antt =====
-- `String::from_utf8_lossy` of the standard library: each maximal ill-formed part of a byte string
-- is replaced by U+FFFD.
use ads_rs.Prelude.{
  ℕ, ◌≡◌, refl, sym, ◌∙◌, true, false, Option, none, some, [], ◌∷◌, ◌++◌, append_assoc, append-nil,
  arith, Option-cases, Bool-cases, inl, inr, if◌then◌else◌,
}
use ads_rs.Wire.{Bytes}
use ads_rs.Text.Utf8.{Expect, at_start, first_byte, next_byte, ends_here, accepts, is_utf8}

abbrev replacement : Bytes
replacement = 0xEF ∷ 0xBF ∷ 0xBD ∷ []

-- What is put out, and the begun character: what it expects and the bytes it has.
record Progress : Type 0 where
  out : Bytes
  expect : Expect
  begun : Bytes

-- A character goes out when it is whole.
advance : Expect → Bytes → Progress
unfolding ends_here
advance e begun =
    if ends_here e
    then record { out = begun; expect = at_start; begun = [] }
    else record { out = []; expect = e; begun = begun }

or_replace : Bytes → Option Expect → Progress
or_replace begun none = record { out = replacement; expect = at_start; begun = [] }
or_replace begun (some e) = advance e begun

-- A byte that starts anew.
start : ℕ → Progress
start b = or_replace (b ∷ []) (first_byte b)

-- A byte that does not go on the begun character ends it, and starts anew.
step : Expect → Bytes → ℕ → Progress
step e begun b = elim (next_byte e b) [
  | some e' ↦ advance e' (begun ++ b ∷ [])
  | none ↦ elim (ends_here e) [
    | true ↦ start b
    | false ↦ let p = start b in record p { out = replacement ++ p.out }
  ]
]

lossy : Expect → Bytes → Bytes → Bytes
lossy e begun [] = if ends_here e then begun else replacement
lossy e begun (b ∷ bs) = let p = step e begun b in p.out ++ lossy p.expect p.begun bs

unfoldable pub from_utf8_lossy : Bytes → Bytes
unfolding lossy step start or_replace advance next_byte first_byte ends_here
from_utf8_lossy bytes = lossy at_start [] bytes

between : (e : Expect) (b : ℕ) → ends_here e ≡ true → next_byte e b ≡ first_byte b
unfolding next_byte ends_here
between e b h = ground arith

-- Between two characters it does not matter how the last one ended.
ends_here-accepts :
    (e : Expect) (bs : Bytes) → ends_here e ≡ true → accepts e bs ≡ accepts at_start bs
unfolding accepts next_byte ends_here
ends_here-accepts e [] h = h
ends_here-accepts e (b ∷ bs) h = rw (accepts, between e b h) refl

append_one :
    (begun : Bytes) (b : ℕ) (rest : Bytes) → ((begun ++ b ∷ []) ++ rest) ≡ begun ++ b ∷ rest
append_one begun b rest = append_assoc begun (b ∷ []) rest

lossy_self :
    (e : Expect) (begun bs : Bytes)
    → accepts e bs ≡ true
    → (ends_here e ≡ true → begun ≡ [])
    → lossy e begun bs ≡ begun ++ bs
unfolding lossy accepts step advance
lossy_self e begun [] h k = rw h (sym (append-nil begun))
lossy_self e begun (b ∷ bs) h k = elim (Option-cases (next_byte e b)) [
  | inl n ↦ let h' = rw (accepts, n) at h in cc
  | inr (e', n) ↦
      let h' : accepts e' bs ≡ true = rw (accepts, n) at h in
      elim (Bool-cases (ends_here e')) [
        | inl t ↦
            rw
              (
                lossy,
                step,
                n,
                t,
                lossy_self at_start [] bs (sym (ends_here-accepts e' bs t) ∙ h') (λ _. refl),
              )
              (append_one begun b bs)
        | inr t ↦
            rw (lossy, step, n, t, lossy_self e' (begun ++ b ∷ []) bs h' (λ t'. absurd (cc)))
              (append_one begun b bs)
      ]
]

-- Well-formed bytes are kept.
pub from_utf8_lossy_self : (bytes : Bytes) → is_utf8 bytes ≡ true → from_utf8_lossy bytes ≡ bytes
unfolding is_utf8 from_utf8_lossy
from_utf8_lossy_self bytes h = lossy_self at_start [] bytes h (λ _. refl)
