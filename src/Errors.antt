-- ===== src/Errors.antt =====
-- errors.rs: the error type, its results, and the attachment of a context to an I/O error.
pub mod Codes
pub mod Search
mod Tests
use ads_rs.Prelude.{ℕ, ◌≡◌, refl, String, Bool, true, false, Option, none, some}

-- The kinds of `std::io::ErrorKind` that the crate makes itself; `os` is any other kind, which a
-- call of the operating system may report.
pub data IoErrorKind : Type 0 where
  unexpected_eof timed_out invalid_data invalid_input not_found other_kind : IoErrorKind
  os : ℕ → IoErrorKind

-- `std::io::Error`: a kind, and the payload of an error made by `io::Error::new`.
pub record IoError : Type 0 where
  pub kind : IoErrorKind
  pub payload : Option String

-- `io::Error::from(kind)`
abbrev pub of_kind : IoErrorKind → IoError
of_kind k = record { kind = k; payload = none }

pub data Error : Type 0 where
  task_info_invalidated : Error
  task_info_layout : String → Error
  io : String → IoError → Error
  ads : String → String → ℕ → Error
  reply : String → String → ℕ → Error
  overflow : Error
  io_sync : String → String → ℕ → Error
  other : String → Error

-- A Rust computation that may fail or panic.
pub data Result {ℓ} (A : Type ℓ) : Type ℓ where
  ok : A → Result A
  err : Error → Result A
  panic : Result A

-- `?` on a result, and the rest of the function.
infixl 5 ◌>>=◌
abbrev pub ◌>>=◌ {ℓ κ} : {A : Type ℓ} {B : Type κ} (r : Result A) (rest : A → Result B) → Result B
panic >>= rest = panic
err problem >>= rest = err problem
ok value >>= rest = rest value

-- An early return of an error.
abbrev pub ensure : Bool → Error → Result (Unit {0})
ensure true e = ok tt
ensure false e = err e

-- An `assert!`, or a bound that indexing checks.
abbrev pub assert : Bool → Result (Unit {0})
assert true = ok tt
assert false = panic

infixl 5 ◌>>◌
abbrev pub ◌>>◌ {κ} : {B : Type κ} (check : Result (Unit {0})) (rest : Result B) → Result B
check >> rest = check >>= λ _. rest

-- `impl Clone for Error`: a clone keeps the kind of an I/O error and drops its payload.
unfoldable pub clone : Error → Error
clone task_info_invalidated = task_info_invalidated
clone (task_info_layout reason) = task_info_layout reason
clone (io ctx e) = io ctx (of_kind e.kind)
clone (ads ctx e i) = ads ctx e i
clone (reply ctx e i) = reply ctx e i
clone overflow = overflow
clone (io_sync ctx e i) = io_sync ctx e i
clone (other ctx) = other ctx

-- `ErrContext::ctx`, on the result of an I/O call.
pub data IoResult {ℓ} (A : Type ℓ) : Type ℓ where
  io_ok : A → IoResult A
  io_err : IoError → IoResult A

abbrev pub ctx {ℓ} : {A : Type ℓ} → String → IoResult A → Result A
ctx context (io_ok a) = ok a
ctx context (io_err e) = err (io context e)

-- Inversion of a successful bind.
pub >>=-eq_ok {ℓ κ} :
    {A : Type ℓ} {B : Type κ} (r : Result A) (rest : A → Result B) {final : B}
    → (r >>= rest) ≡ ok final
    → (value : A) × (r ≡ ok value) × (rest value ≡ ok final)
>>=-eq_ok panic rest h = cc
>>=-eq_ok (err problem) rest h = cc
>>=-eq_ok (ok value) rest h = (value, refl, h)

-- Inversion of a successful guard.
pub ensure-eq_ok {ℓ} :
    {B : Type ℓ} (t : Bool) (e : Error) (m : Result B) {b : B}
    → (ensure t e >> m) ≡ ok b
    → (t ≡ true) × (m ≡ ok b)
ensure-eq_ok true e m h = (refl, h)
ensure-eq_ok false e m h = (cc, cc)

pub ok-injective {ℓ} : {A : Type ℓ} {a b : A} → ok a ≡ ok b → a ≡ b
ok-injective h = cc

pub data Outcome {ℓ} {A : Type ℓ} (r : Result A) : Type ℓ where
  is_ok : (a : A) → r ≡ ok a → Outcome r
  is_err : (e : Error) → r ≡ err e → Outcome r
  is_panic : r ≡ panic → Outcome r

-- To split on a computed result and keep the equation.
pub Result-cases {ℓ} : {A : Type ℓ} (r : Result A) → Outcome r
Result-cases (ok a) = is_ok a refl
Result-cases (err e) = is_err e refl
Result-cases panic = is_panic refl
