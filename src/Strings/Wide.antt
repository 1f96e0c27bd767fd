-- ===== src/Strings/Wide.antt =====
-- strings.rs: `WString<LEN>`.
use ads_rs.Prelude.{
  ℕ, zero, suc, ◌-◌, ◌<◌, ◌≤◌, ◌≡◌, refl, sym, ap, append_assoc, ◌∙◌, Bool, true, false, Option,
  none, some, List, [], ◌∷◌, ◌++◌, arith, ltb, le→ltb, lt→ltb, leb, le→leb, if◌then◌else◌, length,
  length-replicate, length-drop, length-append, take, drop, set, replicate, Bool-cases, inl, inr,
}
use ads_rs.NetId.{bytes_eq}
use ads_rs.Client.Structs.{until_zero}
use ads_rs.Strings.{WideString, position_of_zero, copy_from, take-position_of_zero, drop-replicate}

unfoldable pub new : ℕ → WideString
new len = record { units = replicate len 0 }

unfoldable pub len : WideString → ℕ
unfolding position_of_zero
len s = position_of_zero s.units

unfoldable pub as_slice : WideString → List ℕ
unfolding len
as_slice s = take (len s) s.units

unfoldable pub eq : WideString → WideString → Bool
unfolding as_slice bytes_eq
eq a b = bytes_eq (as_slice a) (as_slice b)

-- `TryFrom<&[u16]>`
unfoldable pub try_from_slice : ℕ → List ℕ → Option WideString
unfolding new copy_from
try_from_slice len arr =
    if ltb len (length arr) then none else some (record { units = copy_from arr (new len).units })

-- The loop of `TryFrom<&str>` over the code units of the text, at index `i`.
unfoldable pub store_units : ℕ → List ℕ → List ℕ → Option WideString
store_units i [] units = some (record { units = units })
store_units i (unit ∷ rest) units =
    let more = store_units (suc i) rest (set units i unit) in
    if leb (length units) i then none else more

-- `TryFrom<&str>`, on the code units that `encode_utf16` yields.
unfoldable pub try_from_str : ℕ → List ℕ → Option WideString
unfolding new store_units
try_from_str len units = store_units 0 units (new len).units

lt→leb : (a b : ℕ) → b < a → leb a b ≡ false
lt→leb a b h = ground arith

set-append :
    (done rest : List ℕ) (unit : ℕ)
    → set (done ++ (0 ∷ rest)) (length done) unit ≡ (done ++ (unit ∷ [])) ++ rest
set-append [] rest unit = refl
set-append (d ∷ done) rest unit = ap (λ t. d ∷ t) (set-append done rest unit)

abbrev stored_units : Bool → List ℕ → Option WideString
stored_units true units = none
stored_units false units = some (record { units = units })

-- What the loop is to yield from `done` stored units, `rest` to come and `n` places.
abbrev stored : List ℕ → List ℕ → ℕ → Option WideString
stored done rest n =
    stored_units (ltb n (length rest)) (done ++ (rest ++ replicate (n - length rest) 0))

regroup :
    (done : List ℕ) (unit : ℕ) (rest : List ℕ) (n : ℕ)
    → stored (done ++ (unit ∷ [])) rest n ≡ stored done (unit ∷ rest) (suc n)
regroup done unit rest n =
    let less : ltb (suc n) (suc (length rest)) ≡ ltb n (length rest) = ground arith in
    let left : suc n - suc (length rest) ≡ n - length rest = omega arith in
    rw (less, left)
      (ap (λ t. stored_units (ltb n (length rest)) t)
        (append_assoc done (unit ∷ []) (rest ++ replicate (n - length rest) 0)))

-- What the loop has stored, and what it has left.
store_units-eq :
    (done rest : List ℕ) (n : ℕ)
    → store_units (length done) rest (done ++ replicate n 0) ≡ stored done rest n
unfolding store_units
store_units-eq done [] n = let e : n - 0 ≡ n = omega arith in rw (le→ltb n 0 (omega arith), e) refl
store_units-eq done (unit ∷ rest) zero =
    let full : leb (length (done ++ [])) (length done) ≡ true =
      le→leb (length (done ++ [])) (length done) (omega (arith, length-append {A = ℕ} done [])) in
    rw (full, lt→ltb 0 (suc (length rest)) (omega arith)) refl
store_units-eq done (unit ∷ rest) (suc n) =
    let old : List ℕ = done ++ (0 ∷ replicate n 0) in
    let longer : List ℕ = done ++ (unit ∷ []) in
    let free : leb (length old) (length done) ≡ false =
      lt→leb (length old) (length done)
        (omega (arith, length-append {A = ℕ} done (0 ∷ replicate n 0))) in
    let put : set old (length done) unit ≡ longer ++ replicate n 0 =
      set-append done (replicate n 0) unit in
    let next : suc (length done) ≡ length longer =
      omega (arith, length-append {A = ℕ} done (unit ∷ [])) in
    rw (free, put, next) (store_units-eq longer rest n ∙ regroup done unit rest n)

-- The conversion of a text, unit by unit, is that of its code units as a slice.
pub try_from_str-eq-try_from_slice :
    (size : ℕ) (units : List ℕ) → try_from_str size units ≡ try_from_slice size units
unfolding try_from_str try_from_slice
try_from_str-eq-try_from_slice size units =
    store_units-eq [] units size ∙ (elim (Bool-cases (ltb size (length units))) [
      | inl e ↦ rw e refl
      | inr e ↦ rw e (
          ap (λ t. some (record { units = units ++ t })) (sym (drop-replicate (length units) size)))
    ])

-- Code units are converted to a wide string of at least as many, whose array has the fixed length and whose
-- contents are the units up to the first null.
pub as_slice-try_from_slice :
    (size : ℕ) (arr : List ℕ)
    → length arr ≤ size
    → (s : WideString) × (try_from_slice size arr ≡ some s)
      × (length s.units ≡ size)
      × (as_slice s ≡ until_zero arr)
unfolding try_from_slice as_slice
as_slice-try_from_slice size arr fits = (
  record { units = arr ++ drop (length arr) (replicate size 0) },
  rw (le→ltb size (length arr) fits) refl,
  omega (
    arith,
    length-append {A = ℕ} arr (drop (length arr) (replicate size 0)),
    length-drop {A = ℕ} (length arr) (replicate size 0),
    length-replicate {A = ℕ} size 0,
  ),
  rw (drop-replicate (length arr) size) (take-position_of_zero arr (size - length arr)),
)
