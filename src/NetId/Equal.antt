-- ===== src/NetId/Equal.antt =====
-- netid.rs: `==` on byte arrays and addresses decides equality.
use ads_rs.Prelude.{◌≡◌, refl, true, [], ◌∷◌, ◌==◌, ==-self, ==_iff, Bool-cases, inl, inr}
use mathlib.Core.Path.{ap₂}
use ads_rs.Wire.{Bytes}
use ads_rs.NetId.{AmsAddr, bytes_eq, addr_eq}

pub bytes_eq_self : (a : Bytes) → bytes_eq a a ≡ true
unfolding bytes_eq
bytes_eq_self [] = refl
bytes_eq_self (x ∷ a) = rw (==-self x, bytes_eq_self a)

pub bytes_eq_sound : (a b : Bytes) → bytes_eq a b ≡ true → a ≡ b
unfolding bytes_eq
bytes_eq_sound [] [] h = refl
bytes_eq_sound [] (y ∷ b) h = cc
bytes_eq_sound (x ∷ a) [] h = cc
bytes_eq_sound (x ∷ a) (y ∷ b) h = elim (Bool-cases (x == y)) [
  | inl same ↦
      let k = rw same at h in ap₂ (λ s t. s ∷ t) ((==_iff x y).0 same) (bytes_eq_sound a b k)
  | inr other ↦ let k = rw other at h in cc
]

pub addr_eq_self : (a : AmsAddr) → addr_eq a a ≡ true
unfolding addr_eq
addr_eq_self a = rw (bytes_eq_self a.netid.octets, ==-self a.port)

pub addr_eq_sound : (a b : AmsAddr) → addr_eq a b ≡ true → a ≡ b
unfolding addr_eq
addr_eq_sound a b h = elim (Bool-cases (bytes_eq a.netid.octets b.netid.octets)) [
  | inl same ↦
      let k = rw same at h in
      let e = bytes_eq_sound a.netid.octets b.netid.octets same in
      let f = (==_iff a.port b.port).0 k in
      λ i. record { netid = record { octets = e i }; port = f i }
  | inr other ↦ let k = rw other at h in cc
]
