-- ===== src/Text/Decimal.antt =====
-- `Display` and `FromStr` of the unsigned integers of the standard library.
use ads_rs.Prelude.{
  ℕ, zero, suc, ◌+◌, ◌-◌, ◌*◌, ◌/◌, ◌%◌, ◌≤◌, ◌<◌, ◌≡◌, refl, sym, ap, ◌∙◌, Bool, true, false, ◌&&◌,
  Option, none, some, [], ◌∷◌, ◌++◌, append_assoc, append-nil, arith, ltb, leb, ◌==◌, if◌then◌else◌,
  All, All-append, length, length-append,
}
use native.Mathlib.Decide.{dec_lt}
use ads_rs.Wire.{Bytes}

digits_of : ℕ → ℕ → Bytes
digits_of zero n = []
digits_of (suc fuel) n = elim (ltb n 10) [
  | true ↦ (48 + n) ∷ []
  | false ↦ digits_of fuel (n / 10) ++ ((48 + n % 10) ∷ [])
]

-- `n.to_string()`. A number has at most as many digits as its successor says.
unfoldable pub to_string : ℕ → Bytes
unfolding digits_of
to_string n = digits_of (suc n) n

abbrev is_digit : ℕ → Bool
is_digit c = leb 48 c && leb c 57

parse_digits : ℕ → ℕ → Bytes → Option ℕ
parse_digits bound acc [] = some acc
parse_digits bound acc (c ∷ cs) =
    let acc' = acc * 10 + (c - 48) in
    let rest = parse_digits bound acc' cs in
    if is_digit c then (if ltb bound acc' then none else rest) else none

-- `s.parse()` at an unsigned type with the largest value `bound`: an optional plus sign and at
-- least one digit, and no more than `bound`.
unfoldable pub parse_uint : ℕ → Bytes → Option ℕ
unfolding parse_digits
parse_uint bound [] = none
parse_uint bound (c ∷ []) = parse_digits bound 0 (c ∷ [])
parse_uint bound (c ∷ d ∷ cs) =
    if c == b'+' then parse_digits bound 0 (d ∷ cs) else parse_digits bound 0 (c ∷ d ∷ cs)

abbrev pub IsDigit : ℕ → Type 0
IsDigit c = (48 ≤ c) × (c ≤ 57)

digits_of-small : (fuel n : ℕ) → n < 10 → digits_of (suc fuel) n ≡ (48 + n) ∷ []
unfolding digits_of
digits_of-small fuel n h = ground arith

digits_of-large :
    (fuel n : ℕ) → 10 ≤ n → digits_of (suc fuel) n ≡ digits_of fuel (n / 10) ++ ((48 + n % 10) ∷ [])
unfolding digits_of
digits_of-large fuel n h = ground arith

digits_of-IsDigit : (fuel n : ℕ) → All IsDigit (digits_of fuel n)
digits_of-IsDigit zero n = unfold digits_of in tt
digits_of-IsDigit (suc fuel) n = elim (dec_lt n 10) [
  | yes small ↦ rw (digits_of-small fuel n small) ((omega arith, omega arith), tt)
  | no big ↦ rw (digits_of-large fuel n (omega arith)) (
      All-append IsDigit (digits_of fuel (n / 10)) _ (digits_of-IsDigit fuel (n / 10))
        ((omega arith, omega arith), tt))
]

-- A printed number has only digits.
pub to_string-IsDigit : (n : ℕ) → All IsDigit (to_string n)
unfolding to_string
to_string-IsDigit n = digits_of-IsDigit (suc n) n

length-digits_of : (fuel n : ℕ) → 0 < length (digits_of (suc fuel) n)
length-digits_of fuel n = elim (dec_lt n 10) [
  | yes small ↦ rw (digits_of-small fuel n small) (omega arith)
  | no big ↦
      rw (digits_of-large fuel n (omega arith))
        (omega (arith, length-append {0} (digits_of fuel (n / 10)) ((48 + n % 10) ∷ [])))
]

parse_digits-step :
    (bound acc d : ℕ) (rest : Bytes)
    → d < 10
    → acc * 10 + d ≤ bound
    → parse_digits bound acc ((48 + d) ∷ rest) ≡ parse_digits bound (acc * 10 + d) rest
unfolding parse_digits
parse_digits-step bound acc d rest h k =
    let e : 48 + d - 48 ≡ d = omega arith in rw e (ground arith)

parse_digits-digits_of :
    (bound fuel n : ℕ) (rest : Bytes)
    → n < fuel
    → n ≤ bound
    → parse_digits bound 0 (digits_of fuel n ++ rest) ≡ parse_digits bound n rest
parse_digits-digits_of bound zero n rest h k = absurd (omega arith)
parse_digits-digits_of bound (suc fuel) n rest h k = elim (dec_lt n 10) [
  | yes small ↦ rw (digits_of-small fuel n small) (
      parse_digits-step bound 0 n rest small (omega arith)
      ∙ ap (λ t. parse_digits bound t rest) (omega arith))
  | no big ↦
      rw (digits_of-large fuel n (omega arith), append_assoc)
        (parse_digits-digits_of bound fuel (n / 10) _ (omega arith) (omega arith)
          ∙ parse_digits-step bound (n / 10) (n % 10) rest (omega arith) (omega arith)
          ∙ ap (λ t. parse_digits bound t rest) (omega arith))
]

parse_uint-digits :
    (bound : ℕ) (s : Bytes)
    → All IsDigit s
    → 0 < length s
    → parse_uint bound s ≡ parse_digits bound 0 s
unfolding parse_uint
parse_uint-digits bound [] d h = absurd (omega arith)
parse_uint-digits bound (c ∷ []) d h = refl
parse_uint-digits bound (c ∷ e ∷ s) d h = ground arith

parse_digits-to_string :
    (bound n : ℕ) → n ≤ bound → parse_digits bound 0 (to_string n ++ []) ≡ parse_digits bound n []
unfolding to_string
parse_digits-to_string bound n h = parse_digits-digits_of bound (suc n) n [] (omega arith) h

length-to_string : (n : ℕ) → 0 < length (to_string n)
unfolding to_string
length-to_string n = length-digits_of n n

parse_digits-nil : (bound n : ℕ) → parse_digits bound n [] ≡ some n
unfolding parse_digits
parse_digits-nil bound n = refl

-- A number in range that is printed is parsed back.
pub parse_uint-to_string : (bound n : ℕ) → n ≤ bound → parse_uint bound (to_string n) ≡ some n
parse_uint-to_string bound n h =
    parse_uint-digits bound (to_string n) (to_string-IsDigit n) (length-to_string n)
    ∙ ap (parse_digits bound 0) (sym (append-nil (to_string n)))
    ∙ parse_digits-to_string bound n h
    ∙ parse_digits-nil bound n
