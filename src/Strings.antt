-- ===== src/Strings.antt =====
-- strings.rs: byte strings and wide strings of a fixed length.
pub mod Narrow
pub mod Wide
mod Tests
use ads_rs.Prelude.{
  arith, ℕ, zero, suc, ◌+◌, ◌-◌, refl, ap, Bool-cases, inl, inr, ◌≡◌, Bool, true, false, Option,
  none, some, List, [], ◌∷◌, ◌++◌, ltb, leb, ◌==◌, if◌then◌else◌, length, take, drop, set,
  replicate,
}
use ads_rs.Wire.{Bytes}
use ads_rs.Client.Structs.{until_zero}
use ads_rs.NetId.{bytes_eq}
use ads_rs.Text.Utf8.{from_utf8}

-- `String<LEN>`, with the bytes of its array; the null byte behind it is never changed.
pub record ByteString : Type 0 where
  pub array : Bytes

-- `WString<LEN>`, with its code units.
pub record WideString : Type 0 where
  pub units : List ℕ

-- `iter().position(|&b| b == 0).unwrap_or(len)`
unfoldable pub position_of_zero : List ℕ → ℕ
position_of_zero [] = 0
position_of_zero (b ∷ bs) = let rest = position_of_zero bs in if b == 0 then 0 else suc rest

-- `slice[..src.len()].copy_from_slice(src)`, for a source that is no longer.
unfoldable pub copy_from : List ℕ → List ℕ → List ℕ
copy_from src slice = src ++ drop (length src) slice

-- What a string of zeroes holds after a text was copied to its start is the text, up to its first
-- null.
pub take-position_of_zero :
    (text : List ℕ) (n : ℕ)
    → take (position_of_zero (text ++ replicate n 0)) (text ++ replicate n 0) ≡ until_zero text
unfolding position_of_zero until_zero
take-position_of_zero [] zero = refl
take-position_of_zero [] (suc n) = refl
take-position_of_zero (b ∷ bs) n = elim (Bool-cases (b == 0)) [
  | inl e ↦ rw e refl
  | inr e ↦ rw e (ap (λ t. b ∷ t) (take-position_of_zero bs n))
]

pub drop-replicate : (k n : ℕ) → drop {A = ℕ} k (replicate n 0) ≡ replicate (n - k) 0
drop-replicate zero n = let e : n - 0 ≡ n = omega arith in rw e refl
drop-replicate (suc k) zero = let e : 0 - suc k ≡ 0 = omega arith in rw e refl
drop-replicate (suc k) (suc n) =
    let e : suc n - suc k ≡ n - k = omega arith in rw e (drop-replicate k n)
