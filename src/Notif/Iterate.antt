-- ===== src/Notif/Iterate.antt =====
-- notif.rs: the iterator over an accepted message yields its samples, and does not panic.
use ads_rs.Prelude.{
  ℕ, zero, suc, ◌+◌, ◌<◌, ◌≡◌, refl, ◌∙◌, some, List, ◌∷◌, ◌++◌, arith, length, length-append, drop,
}
use ads_rs.Wire.{Bytes, ByteOrder, read_uint-append, split_at-append}
use ads_rs.Errors.{ok}
use ads_rs.Notif.{Notification, Sample, SampleIter, new, next_at, next, collect, samples}
use ads_rs.Notif.Layout.{SamplesAt, StampsAt, new-IsParsed}

abbrev at_bytes : Bytes → ℕ → ℕ → ℕ → SampleIter
at_bytes rest timestamp stamps_left samples_left = record {
  rest = rest;
  cur_timestamp = timestamp;
  stamps_left = stamps_left;
  samples_left = samples_left;
}

module _ ⦃bo : ByteOrder⦄ where
  next-sample :
      (timestamp k n : ℕ) (handle len content mid : Bytes)
      → length handle ≡ 4
      → length len ≡ 4
      → length content ≡ bo.read_int len
      → next (at_bytes (handle ++ (len ++ (content ++ mid))) timestamp k (suc n))
        ≡ ok (
          some (record { handle = bo.read_int handle; timestamp = timestamp; content = content }),
          at_bytes mid timestamp k n,
        )
  unfolding next
  next-sample timestamp k n handle len content mid lh ll lc = rw (
    read_uint-append 4 "size" handle (len ++ (content ++ mid)) lh,
    read_uint-append 4 "size" len (content ++ mid) ll,
    split_at-append (bo.read_int len) content mid lc,
  )

  next-stamp :
      (timestamp k : ℕ) (stamp count mid : Bytes)
      → length stamp ≡ 8
      → length count ≡ 4
      → next (at_bytes (stamp ++ (count ++ mid)) timestamp (suc k) zero)
        ≡ next (at_bytes mid (bo.read_int stamp) k (bo.read_int count))
  unfolding next
  next-stamp timestamp k stamp count mid ls lc = rw (
    read_uint-append 8 "size" stamp (count ++ mid) ls,
    read_uint-append 4 "size" count mid lc,
    next_at,
  )

  collect-next :
      (fuel : ℕ) (a b : SampleIter) → next a ≡ next b → collect (suc fuel) a ≡ collect (suc fuel) b
  unfolding collect
  collect-next fuel a b h = rw h

  collect-sample :
      (fuel : ℕ) (a b : SampleIter) (s : Sample) (ss : List Sample)
      → next a ≡ ok (some s, b)
      → collect fuel b ≡ ok ss
      → collect (suc fuel) a ≡ ok (s ∷ ss)
  unfolding collect
  collect-sample fuel a b s ss h k = rw (h, k)

  collect-SamplesAt :
      {timestamp : ℕ} {n : ℕ} {bs rest : Bytes} {ss : List Sample} (k : ℕ) (ss' : List Sample)
      → ((fuel : ℕ) → length ss' < fuel → collect fuel (at_bytes rest timestamp k zero) ≡ ok ss')
      → SamplesAt timestamp n bs ss rest
      → (fuel : ℕ) → length ss + length ss' < fuel
      → collect fuel (at_bytes bs timestamp k n) ≡ ok (ss ++ ss')
  collect-SamplesAt k ss' go (SamplesAt.done e) fuel h = rw e (go fuel (omega arith))
  collect-SamplesAt k ss' go (SamplesAt.sample handle len content lh ll lc e s) zero h =
      absurd (omega arith)
  collect-SamplesAt {timestamp} k ss' go
        (SamplesAt.sample {n} {bs} {mid} handle len content lh ll lc e s) (suc fuel) h =
      rw e (
        collect-sample fuel _ _ _ _ (next-sample timestamp k n handle len content mid lh ll lc)
          (collect-SamplesAt k ss' go s fuel (omega arith)))

  collect-StampsAt :
      {n : ℕ} {bs : Bytes} {ss : List Sample}
      → StampsAt n bs ss
      → (timestamp fuel : ℕ) → length ss < fuel
      → collect fuel (at_bytes bs timestamp n zero) ≡ ok ss
  collect-StampsAt (StampsAt.last e) timestamp zero h = absurd (omega arith)
  collect-StampsAt (StampsAt.last e) timestamp (suc fuel) h = unfold collect next in refl
  collect-StampsAt (StampsAt.stamp t c lt lc e s at) timestamp zero h = absurd (omega arith)
  collect-StampsAt (StampsAt.stamp {n} {bs} {mid} {rest} {ss} {ss'} t c lt lc e s at) timestamp
        (suc fuel) h =
      rw e (
        collect-next fuel _ _ (next-stamp timestamp n t c mid lt lc)
        ∙ collect-SamplesAt n ss' (collect-StampsAt at (bo.read_int t)) s (suc fuel)
            (omega (arith, length-append {0} ss ss')))

  -- Iterating over a message that `new` accepted does not panic: with fuel for one sample more
  -- than there are, a loop over `samples` ends, and yields exactly the samples of the stamps that
  -- the message is laid out as.
  pub collect-samples :
      (raw : Bytes) {n : Notification}
      → new raw ≡ ok n
      → (ss : List Sample) × StampsAt n.nstamps (drop 46 raw) ss
        × (collect (length ss + 1) (samples n) ≡ ok ss)
  unfolding samples
  collect-samples raw {n} h =
      let p = new-IsParsed raw h in
      (
        p.content,
        p.stamps,
        rw p.same (collect-StampsAt p.stamps 0 (length p.content + 1) (omega arith)),
      )
