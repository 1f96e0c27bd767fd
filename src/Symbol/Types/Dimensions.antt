-- ===== src/Symbol/Types/Dimensions.antt =====
-- symbol.rs: the bounds of a dimension of an array.
use ads_rs.Prelude.{
  ℕ, suc, ◌+◌, ◌-◌, ◌%◌, ◌^◌, ◌<◌, ◌≡◌, ap, ◌∙◌, true, arith, inl, inr, leb, leb→le, Bool-cases,
}
use mathlib.Core.Path.{ap₂}
use ads_rs.Prelude.Int.{ℤ, pos, negsuc, signed, sub_ℕ, ◌+ℤ◌}
use ads_rs.Symbol.Members.Values.{Fits, bits_of, signed-bits_of}
use ads_rs.Symbol.Types.{array_bounds}

-- The upper bound of so many elements.
abbrev pub upper : ℤ → ℕ → ℤ
upper lower count = lower +ℤ pos count +ℤ negsuc 0

-- The bounds and the number of elements are 32-bit integers.
abbrev pub IsDimension : ℤ × ℕ → Type 0
IsDimension d = Fits 32 true d.0 × Fits 32 true (upper d.0 d.1) × (d.1 < 2 ^ 31)

bits_of-upper :
    (lower : ℤ) (count : ℕ)
    → IsDimension (lower, count)
    → (bits_of 32 lower + count + 2 ^ 32 - 1) % 2 ^ 32 ≡ bits_of 32 (upper lower count)
unfolding bits_of ◌+ℤ◌ sub_ℕ
bits_of-upper (pos a) count (low, high, few) = elim (Bool-cases (leb 1 (a + count))) [
  | inl more ↦ rw more (omega (arith, low, leb→le 1 (a + count) more))
  | inr empty ↦ rw empty (ground (arith, low))
]
bits_of-upper (negsuc a) count (low, high, few) = elim (Bool-cases (leb (suc a) count)) [
  | inl up ↦ rw up (elim (Bool-cases (leb 1 (count - suc a))) [
    | inl more ↦
        rw more (omega (arith, low, leb→le (suc a) count up, leb→le 1 (count - suc a) more))
    | inr zero_ ↦ rw zero_ (ground (arith, low, leb→le (suc a) count up))
  ])
  | inr down ↦ rw down (ground (arith, low))
]

-- A dimension is decoded to its bounds, where they are 32-bit integers.
pub array_bounds-upper :
    (lower : ℤ) (count : ℕ)
    → IsDimension (lower, count)
    → array_bounds (bits_of 32 lower) count ≡ (lower, upper lower count)
unfolding array_bounds
array_bounds-upper lower count h =
    ap₂ (λ s t. (s, t)) (signed-bits_of 32 (omega arith) lower h.0)
      (ap (signed 32) (bits_of-upper lower count h)
        ∙ signed-bits_of 32 (omega arith) (upper lower count) h.1)
