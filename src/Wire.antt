-- ===== src/Wire.antt =====
-- Little-endian integers and reads from a byte slice: what the crate uses of the `byteorder` and
-- `zerocopy` crates, which enter as a parameter, and of `io::Read` on `&[u8]`.
pub mod LittleEndian
use ads_rs.Prelude.{
  ℕ, zero, suc, ◌+◌, ◌-◌, ◌^◌, ◌≤◌, ◌<◌, ◌≡◌, refl, ap, sym, ◌∙◌, String, Bool, true, false, Option,
  none, some, List, [], ◌∷◌, ◌++◌, inl, inr, arith, length, length-append, take, take-append, All,
  Option-cases, append_assoc, append-nil,
}
use ads_rs.Prelude.Split
use ads_rs.Prelude.Split.{split_at?, split_at?-append, split_at?-eq_some, split_at?-short}
use ads_rs.Errors.{Result, ok, err, panic, io, unexpected_eof, of_kind, ◌>>=◌, >>=-eq_ok}

abbrev pub Bytes : Type 0
Bytes = List ℕ

abbrev pub IsByte : ℕ → Type 0
IsByte b = b < 256

abbrev pub concat : List Bytes → Bytes
concat [] = []
concat (b ∷ bs) = b ++ concat bs

-- Conversion between an unsigned integer of `w` bytes and its little-endian form:
-- `LE::read_u16`, `LE::write_u32` and the like, and the `U16` and `U32` of `zerocopy`.
pub record ByteOrder : Type 0 where
  pub read_int : Bytes → ℕ
  pub write_int : ℕ → ℕ → Bytes
  pub length-write_int : (w v : ℕ) → length (write_int w v) ≡ w
  pub read_int-write_int : (w v : ℕ) → v < 256 ^ w → read_int (write_int w v) ≡ v
  pub read_int-lt : (w : ℕ) (bs : Bytes) → length bs ≡ w → All IsByte bs → read_int bs < 256 ^ w
  pub write_int-read_int :
      (w : ℕ) (bs : Bytes) → length bs ≡ w → All IsByte bs → write_int w (read_int bs) ≡ bs

abbrev eof_error {ℓ} : {A : Type ℓ} → String → Result A
eof_error context = err (io context (of_kind unexpected_eof))

abbrev or_eof {ℓ} : {A : Type ℓ} → String → Option A → Result A
or_eof context none = eof_error context
or_eof context (some x) = ok x

abbrev pub or_panic {ℓ} : {A : Type ℓ} → Option A → Result A
or_panic none = panic
or_panic (some x) = ok x

-- `ptr.read_exact(&mut buf).ctx(context)` on a slice, for a buffer of `n` bytes. The result is the
-- bytes read and the slice that is left.
unfoldable pub read_exact : ℕ → String → Bytes → Result (Bytes × Bytes)
read_exact n context ptr = or_eof context (split_at? n ptr)

-- `slice.split_at(n)`, which panics where the slice is shorter.
unfoldable pub split_at : ℕ → Bytes → Result (Bytes × Bytes)
split_at n ptr = or_panic (split_at? n ptr)

module _ ⦃bo : ByteOrder⦄ where
  -- `ptr.read_u16::<LE>().ctx(context)` and the like, for an integer of `w` bytes.
  unfoldable pub read_uint : ℕ → String → Bytes → Result (ℕ × Bytes)
  unfolding read_exact
  read_uint w context ptr = do (raw, rest) ← read_exact w context ptr; ok (bo.read_int raw, rest)

  abbrev pub read_u8 : String → Bytes → Result (ℕ × Bytes)
  read_u8 = read_uint 1

  abbrev pub read_u16 : String → Bytes → Result (ℕ × Bytes)
  read_u16 = read_uint 2

  abbrev pub read_u32 : String → Bytes → Result (ℕ × Bytes)
  read_u32 = read_uint 4

  abbrev pub read_u64 : String → Bytes → Result (ℕ × Bytes)
  read_u64 = read_uint 8

  abbrev pub write_u16 : ℕ → Bytes
  write_u16 = bo.write_int 2

  abbrev pub write_u32 : ℕ → Bytes
  write_u32 = bo.write_int 4

  abbrev pub write_u64 : ℕ → Bytes
  write_u64 = bo.write_int 8

  -- A value that was written is read back, and what follows it is left.
  pub read_uint-write_int :
      (w : ℕ) (context : String) (v : ℕ) (rest : Bytes)
      → v < 256 ^ w
      → read_uint w context (bo.write_int w v ++ rest) ≡ ok (v, rest)
  unfolding read_uint
  read_uint-write_int w context v rest h = rw (
    split_at?-append w (bo.write_int w v) rest (bo.length-write_int w v),
    bo.read_int-write_int w v h,
  )

  pub read_uint-append :
      (w : ℕ) (context : String) (raw rest : Bytes)
      → length raw ≡ w
      → read_uint w context (raw ++ rest) ≡ ok (bo.read_int raw, rest)
  unfolding read_uint
  read_uint-append w context raw rest h = rw (split_at?-append w raw rest h)

  pub read_uint-eq_ok :
      (w : ℕ) (context : String) (ptr : Bytes) {v : ℕ} {rest : Bytes}
      → read_uint w context ptr ≡ ok (v, rest)
      → (raw : Bytes) × (ptr ≡ raw ++ rest) × (length raw ≡ w) × (v ≡ bo.read_int raw)
  unfolding read_uint
  read_uint-eq_ok w context ptr {v} {rest} h = elim (Option-cases (split_at? w ptr)) [
    | inl e ↦
        let k : ◌≡◌ {A = Result (ℕ × Bytes)} (eof_error context) (ok (v, rest)) = rw e at h in
        absurd (cc)
    | inr ((raw, r), e) ↦
        let k : ◌≡◌ {A = Result (ℕ × Bytes)} (ok (bo.read_int raw, r)) (ok (v, rest)) = rw e at h in
        let (p, q) = split_at?-eq_some w ptr e in (raw, cc, q, cc)
  ]

  -- A chain of reads that succeeds: its first read, and the rest of the chain.
  pub read_uint-bind_eq_ok {ℓ} :
      {B : Type ℓ} (w : ℕ) (context : String) (ptr : Bytes) (f : ℕ × Bytes → Result B) {b : B}
      → (read_uint w context ptr >>= f) ≡ ok b
      → (raw rest : Bytes) × (ptr ≡ raw ++ rest)
        × (length raw ≡ w)
        × (f (bo.read_int raw, rest) ≡ ok b)
  read_uint-bind_eq_ok w context ptr f h =
      let ((v, rest), e, k) = >>=-eq_ok (read_uint w context ptr) f h in
      let (raw, p, q, r) = read_uint-eq_ok w context ptr e in
      (raw, rest, p, q, ap (λ t. f (t, rest)) (sym r) ∙ k)

  pub read_uint-short :
      (w : ℕ) (context : String) (ptr : Bytes)
      → length ptr < w
      → read_uint w context ptr ≡ eof_error context
  unfolding read_uint
  read_uint-short w context ptr h = rw (split_at?-short w ptr h)

pub read_exact-append :
    (n : ℕ) (context : String) (a rest : Bytes)
    → length a ≡ n
    → read_exact n context (a ++ rest) ≡ ok (a, rest)
unfolding read_exact
read_exact-append n context a rest h = rw (split_at?-append n a rest h)

pub read_exact-eq_ok :
    (n : ℕ) (context : String) (ptr : Bytes) {a rest : Bytes}
    → read_exact n context ptr ≡ ok (a, rest)
    → (ptr ≡ a ++ rest) × (length a ≡ n)
unfolding read_exact
read_exact-eq_ok n context ptr {a} {rest} h = elim (Option-cases (split_at? n ptr)) [
  | inl e ↦ let k : eof_error {A = Bytes × Bytes} context ≡ ok (a, rest) = rw e at h in absurd (cc)
  | inr (p, e) ↦
      let k : ok p ≡ ok (a, rest) = rw e at h in
      let e' : split_at? n ptr ≡ some (a, rest) = cc in split_at?-eq_some n ptr e'
]

pub split_at-append :
    (n : ℕ) (a rest : Bytes) → length a ≡ n → split_at n (a ++ rest) ≡ ok (a, rest)
unfolding split_at
split_at-append n a rest h = rw (split_at?-append n a rest h)

pub split_at-eq_ok :
    (n : ℕ) (ptr : Bytes) {a rest : Bytes}
    → split_at n ptr ≡ ok (a, rest)
    → (ptr ≡ a ++ rest) × (length a ≡ n)
unfolding split_at
split_at-eq_ok n ptr {a} {rest} h = elim (Option-cases (split_at? n ptr)) [
  | inl e ↦ let k : ◌≡◌ {A = Result (Bytes × Bytes)} panic (ok (a, rest)) = rw e at h in absurd (cc)
  | inr (p, e) ↦
      let k : ok p ≡ ok (a, rest) = rw e at h in
      let e' : split_at? n ptr ≡ some (a, rest) = cc in split_at?-eq_some n ptr e'
]

pub split_at-short : (n : ℕ) (ptr : Bytes) → length ptr < n → split_at n ptr ≡ panic
unfolding split_at
split_at-short n ptr h = rw (split_at?-short n ptr h)
