-- ===== src/Notif.antt =====
-- notif.rs: the parser of notification messages and the iterator over their samples.
pub mod Attributes
pub mod Layout
pub mod Iterate
pub mod Accepts
mod Tests
use ads_rs.Prelude.{
  ℕ, zero, suc, ◌+◌, ◌≡◌, refl, String, Bool, true, false, Option, none, some, List, [], ◌∷◌, ◌++◌,
  arith, ltb, leb, if◌then◌else◌, length, drop,
}
use ads_rs.Wire.{Bytes, ByteOrder, read_u32, read_u64, split_at}
use ads_rs.Errors.{Result, ok, err, panic, io, unexpected_eof, of_kind, ◌>>=◌}

abbrev pub ads_header_size : ℕ
ads_header_size = 38

abbrev pub parse_context : String
parse_context = "parsing notification"

abbrev pub parse_error {ℓ} : {A : Type ℓ} → Result A
parse_error = err (io parse_context (of_kind unexpected_eof))

pub record Notification : Type 0 where
  pub raw : Bytes
  pub nstamps : ℕ

pub record Sample : Type 0 where
  pub handle : ℕ
  pub timestamp : ℕ
  pub content : Bytes

pub record SampleIter : Type 0 where
  pub rest : Bytes
  pub cur_timestamp : ℕ
  pub stamps_left : ℕ
  pub samples_left : ℕ

abbrev pub is_empty : Bytes → Bool
is_empty [] = true
is_empty (b ∷ bs) = false

-- `.expect("size")` on a read.
abbrev pub expect {ℓ} : {A : Type ℓ} → Result A → Result A
expect (ok a) = ok a
expect (err e) = panic
expect panic = panic

module _ ⦃bo : ByteOrder⦄ where
  -- The inner loop of `Notification::new`, over the samples of a stamp.
  unfoldable pub skip_samples : ℕ → Bytes → Result Bytes
  skip_samples zero ptr = ok ptr
  skip_samples (suc n) ptr = do
    (_handle, ptr) ← read_u32 parse_context ptr
    (len, ptr) ← read_u32 parse_context ptr
    let more = skip_samples n (drop len ptr)
    if leb len (length ptr) then more else parse_error

  -- The outer loop, over the stamps.
  unfoldable pub skip_stamps : ℕ → Bytes → Result Bytes
  skip_stamps zero ptr = ok ptr
  skip_stamps (suc n) ptr = do
    (_timestamp, ptr) ← read_u64 parse_context ptr
    (nsamples, ptr) ← read_u32 parse_context ptr
    ptr ← skip_samples nsamples ptr
    skip_stamps n ptr

  -- `Notification::new` past the check of the length.
  unfoldable pub parse_body : Bytes → Result Notification
  parse_body raw = do
    (nstamps, ptr) ← read_u32 parse_context (drop (ads_header_size + 4) raw)
    ptr ← skip_stamps nstamps ptr
    if is_empty ptr then ok (record { raw = raw; nstamps = nstamps }) else parse_error

  unfoldable pub new : Bytes → Result Notification
  new raw = if ltb (length raw) (ads_header_size + 8) then parse_error else parse_body raw

  -- `SampleIter::next`, with the fields of the iterator apart: the call of itself is for the next
  -- stamp.
  unfoldable pub next_at : ℕ → ℕ → ℕ → Bytes → Result (Option Sample × SampleIter)
  next_at stamps_left (suc samples_left) timestamp rest = do
    (handle, rest) ← expect (read_u32 "size" rest)
    (len, rest) ← expect (read_u32 "size" rest)
    (content, rest) ← split_at len rest
    ok (
      some (record { handle = handle; timestamp = timestamp; content = content }),
      record {
        rest = rest;
        cur_timestamp = timestamp;
        stamps_left = stamps_left;
        samples_left = samples_left;
      },
    )
  next_at (suc stamps_left) zero timestamp rest = do
    (timestamp, rest) ← expect (read_u64 "size" rest)
    (samples_left, rest) ← expect (read_u32 "size" rest)
    next_at stamps_left samples_left timestamp rest
  next_at zero zero timestamp rest =
      ok
        (none, record { rest = rest; cur_timestamp = timestamp; stamps_left = 0; samples_left = 0 })

  unfoldable pub next : SampleIter → Result (Option Sample × SampleIter)
  unfolding next_at
  next it = next_at it.stamps_left it.samples_left it.cur_timestamp it.rest

  -- A loop over the iterator, which takes at most `fuel` samples.
  unfoldable pub collect : ℕ → SampleIter → Result (List Sample)
  collect zero it = ok []
  collect (suc fuel) it = do
    (item, it) ← next it
    elim item [ none ↦ ok [] | some sample ↦ (do samples ← collect fuel it; ok (sample ∷ samples)) ]

-- `Notification::samples`; the slice of a message that `new` accepted is in bounds.
unfoldable pub samples : Notification → SampleIter
samples n = record {
  rest = drop 46 n.raw;
  cur_timestamp = 0;
  stamps_left = n.nstamps;
  samples_left = 0;
}
