-- ===== src/TaskInfo/Slots/Bounds.antt =====
-- task_info.rs: array bounds as 32-bit integers.
use ads_rs.Prelude.{
  ℕ, zero, suc, ◌+◌, ◌-◌, ◌%◌, ◌^◌, ◌≤◌, ◌<◌, ◌≡◌, refl, ap, ◌∙◌, true, false, some, arith, inl,
  inr, leb, le→leb, leb→le, ltb, lt→ltb, ltb→lt, Bool-cases,
}
use ads_rs.Prelude.Int.{ℤ, pos, negsuc, signed, sub_ℕ, ◌+ℤ◌, ◌-ℤ◌, is_i32, checked}
use ads_rs.Errors.{ok}
use ads_rs.TaskInfo.{count_of, one_more}
use ads_rs.TaskInfo.Sample.{index_of, or_overflow}

-- A number between two others of 32 bits is one.
between :
    (first : ℤ) (k n : ℕ)
    → k ≤ n
    → is_i32 first ≡ true
    → is_i32 (first +ℤ pos n) ≡ true
    → is_i32 (first +ℤ pos k) ≡ true
unfolding is_i32 ◌+ℤ◌ sub_ℕ
between (pos a) k n le h h' = ground arith
between (negsuc a) k n le h h' = ground arith

checked-is_i32 : (z : ℤ) → is_i32 z ≡ true → checked z ≡ some z
unfolding checked
checked-is_i32 z h = rw h refl

signed_slot : (slot : ℕ) → slot < 2 ^ 31 → signed 32 (slot % 2 ^ 32) ≡ pos slot
unfolding signed
signed_slot slot h =
    let e : slot % 2 ^ 32 ≡ slot = omega arith in rw (e, lt→ltb slot (2 ^ 31) h) refl

pos-injective : {a b : ℕ} → pos a ≡ pos b → a ≡ b
pos-injective h = cc

sub_ℕ-eq_pos : (a b n : ℕ) → sub_ℕ a b ≡ pos n → a ≡ b + n
unfolding sub_ℕ
sub_ℕ-eq_pos a b n h = elim (Bool-cases (leb b a)) [
  | inl le ↦
      let h' : pos (a - b) ≡ pos n = rw le at h in omega (arith, leb→le b a le, pos-injective h')
  | inr gt ↦ let h' = rw gt at h in absurd (cc)
]

sub_ℕ-pos : (a b n : ℕ) → a ≡ b + n → sub_ℕ a b ≡ pos n
unfolding sub_ℕ
sub_ℕ-pos a b n h = rw (le→leb b a (omega arith)) (ap pos (omega arith))

sub_ℕ-negsuc : (a b n : ℕ) → b ≡ suc (a + n) → sub_ℕ a b ≡ negsuc n
unfolding sub_ℕ
sub_ℕ-negsuc a b n h = let e : leb b a ≡ false = ground arith in rw e (ap negsuc (omega arith))

plus-minus : (first last : ℤ) (n : ℕ) → last -ℤ first ≡ pos n → first +ℤ pos n ≡ last
unfolding ◌+ℤ◌ ◌-ℤ◌
plus-minus (pos zero) (pos b) n h = ap pos (omega (arith, pos-injective h))
plus-minus (pos (suc a)) (pos b) n h = ap pos (omega (arith, sub_ℕ-eq_pos b (suc a) n h))
plus-minus (pos zero) (negsuc b) n h = absurd (cc)
plus-minus (pos (suc a)) (negsuc b) n h = absurd (cc)
plus-minus (negsuc a) (pos b) n h = sub_ℕ-pos n (suc a) b (omega (arith, pos-injective h))
plus-minus (negsuc a) (negsuc b) n h =
    sub_ℕ-negsuc n (suc a) b (omega (arith, sub_ℕ-eq_pos (suc a) (suc b) n h))

one_more_sound :
    (z : ℤ) (count : ℕ)
    → one_more (checked z) ≡ some count
    → (n : ℕ) × (z ≡ pos n) × (count ≡ suc n) × (count < 2 ^ 31)
unfolding one_more checked is_i32
one_more_sound (pos n) count h = elim (Bool-cases (ltb n (2 ^ 31))) [
  | inr wide ↦ let h' = rw wide at h in absurd (cc)
  | inl fits ↦
      let h1 = rw fits at h in
      elim (Bool-cases (ltb (n + 1) (2 ^ 31))) [
        | inr wide ↦ let h' = rw wide at h1 in absurd (cc)
        | inl small ↦
            let h' : some (n + 1) ≡ some count = rw small at h1 in
            let e : n + 1 ≡ count = cc in
            (n, refl, omega (arith, e), omega (arith, e, ltb→lt (n + 1) (2 ^ 31) small))
      ]
]
one_more_sound (negsuc n) count h = elim (Bool-cases (ltb n (2 ^ 31))) [
  | inr wide ↦ let h' = rw wide at h in absurd (cc)
  | inl fits ↦ let h' = rw fits at h in absurd (cc)
]

-- The number of elements between two bounds is one more than their distance.
pub count_of_sound :
    (first last : ℤ) (count : ℕ)
    → count_of (first, last) ≡ some count
    → (n : ℕ) × (count ≡ suc n) × (count < 2 ^ 31) × (first +ℤ pos n ≡ last)
unfolding count_of
count_of_sound first last count h =
    let (n, e, size, small) = one_more_sound (last -ℤ first) count h in
    (n, size, small, plus-minus first last n e)

-- The slots between two bounds of 32 bits have indices.
pub index_of-slot :
    (first last : ℤ) (n slot : ℕ)
    → is_i32 first ≡ true
    → is_i32 last ≡ true
    → first +ℤ pos n ≡ last
    → n < 2 ^ 31
    → slot ≤ n
    → index_of first slot ≡ ok (first +ℤ pos slot)
unfolding index_of or_overflow
index_of-slot first last n slot p q e small le =
    let inside = between first slot n le p (ap is_i32 e ∙ q) in
    rw (signed_slot slot (omega arith), checked-is_i32 (first +ℤ pos slot) inside) refl
