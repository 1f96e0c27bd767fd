-- ===== src/Prelude/Split.antt =====
-- A slice split at an index, in its checked form, and what a successful split says.
use ads_rs.Prelude.Tests.{Option-cases}
use ads_rs.Prelude.Lists.{length}
use Prim.Native.Nat.{ℕ, zero, suc, ◌<◌}
use mathlib.Core.Path.{◌≡◌, refl, ap}
use mathlib.Core.Logic.{inl, inr}
use mathlib.Core.List.{List, [], ◌∷◌, ◌++◌}
use mathlib.Core.Option.{Option, none, some}
use native.Mathlib.Omega.{arith}

module _ {ℓ} {A : Type ℓ} where
  abbrev push_front : A → Option (List A × List A) → Option (List A × List A)
  push_front x none = none
  push_front x (some (xs, ys)) = some (x ∷ xs, ys)

  -- The first `n` elements and the others; `none` if there are fewer.
  unfoldable pub split_at? : ℕ → List A → Option (List A × List A)
  split_at? zero xs = some ([], xs)
  split_at? (suc n) [] = none
  split_at? (suc n) (x ∷ xs) = push_front x (split_at? n xs)

  pub split_at?-append :
      (n : ℕ) (xs ys : List A) → length xs ≡ n → split_at? n (xs ++ ys) ≡ some (xs, ys)
  unfolding split_at?
  split_at?-append zero [] ys h = refl
  split_at?-append zero (x ∷ xs) ys h = absurd (omega arith)
  split_at?-append (suc n) [] ys h = absurd (omega arith)
  split_at?-append (suc n) (x ∷ xs) ys h =
      ap (push_front x) (split_at?-append n xs ys (omega arith))

  pub split_at?-short : (n : ℕ) (xs : List A) → length xs < n → split_at? n xs ≡ none
  unfolding split_at?
  split_at?-short zero xs h = absurd (omega arith)
  split_at?-short (suc n) [] h = refl
  split_at?-short (suc n) (x ∷ xs) h = ap (push_front x) (split_at?-short n xs (omega arith))

  pub split_at?-eq_some :
      (n : ℕ) (xs : List A) {a b : List A}
      → split_at? n xs ≡ some (a, b)
      → (xs ≡ a ++ b) × (length a ≡ n)
  unfolding split_at?
  split_at?-eq_some zero xs h = (cc, cc)
  split_at?-eq_some (suc n) [] h = (cc, cc)
  split_at?-eq_some (suc n) (x ∷ xs) {a} {b} h = elim (Option-cases (split_at? n xs)) [
    | inl e ↦
        let k : ◌≡◌ {A = Option (List A × List A)} none (some (a, b)) = rw (e, push_front) at h in
        (cc, cc)
    | inr ((c, d), e) ↦
        let (p, q) = split_at?-eq_some n xs e in
        let k : ◌≡◌ {A = Option (List A × List A)} (some (x ∷ c, d)) (some (a, b)) =
          rw (e, push_front) at h in
        (cc, cc)
  ]

  pub split_at?-eq_none : (n : ℕ) (xs : List A) → split_at? n xs ≡ none → length xs < n
  unfolding split_at?
  split_at?-eq_none zero xs h = absurd (cc)
  split_at?-eq_none (suc n) [] h = omega arith
  split_at?-eq_none (suc n) (x ∷ xs) h = ground (arith, split_at?-eq_none n xs)
