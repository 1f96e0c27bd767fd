-- ===== src/Notif/Accepts.antt =====
-- notif.rs: `Notification::new` accepts every message that has the layout.
use ads_rs.Prelude.{
  ℕ, ◌≡◌, List, [], ◌++◌, arith, le→leb, le→ltb, length, length-append, drop-append,
}
use ads_rs.Wire.{Bytes, ByteOrder, read_uint-append}
use ads_rs.Errors.{ok}
use ads_rs.Notif.{Sample, new, parse_body, parse_context, skip_samples, skip_stamps}
use ads_rs.Notif.Layout.{SamplesAt, StampsAt}

module _ ⦃bo : ByteOrder⦄ where
  skip_samples_complete :
      {timestamp n : ℕ} {bs rest : Bytes} {ss : List Sample}
      → SamplesAt timestamp n bs ss rest
      → skip_samples n bs ≡ ok rest
  unfolding skip_samples
  skip_samples_complete (SamplesAt.done e) = rw e
  skip_samples_complete (SamplesAt.sample {n} {bs} {mid} handle len content lh ll lc e s) =
      rw
        (
          e,
          read_uint-append 4 parse_context handle (len ++ (content ++ mid)) lh,
          read_uint-append 4 parse_context len (content ++ mid) ll,
          le→leb (bo.read_int len) (length (content ++ mid))
              (omega (arith, length-append {0} content mid)),
          drop-append (bo.read_int len) content mid lc,
        )
        (skip_samples_complete s)

  skip_stamps_complete :
      {n : ℕ} {bs : Bytes} {ss : List Sample} → StampsAt n bs ss → skip_stamps n bs ≡ ok []
  unfolding skip_stamps
  skip_stamps_complete (StampsAt.last e) = rw e
  skip_stamps_complete (StampsAt.stamp {n} {bs} {mid} t c lt lc e s at) =
      rw
        (
          e,
          read_uint-append 8 parse_context t (c ++ mid) lt,
          read_uint-append 4 parse_context c mid lc,
          skip_samples_complete s,
        )
        (skip_stamps_complete at)

  -- A message of a header and a length (42 bytes), a number of stamps, and that many stamps with
  -- nothing after them, is accepted, with that number.
  pub new_complete :
      (head count body : Bytes) {ss : List Sample}
      → length head ≡ 42
      → length count ≡ 4
      → StampsAt (bo.read_int count) body ss
      → new (head ++ (count ++ body))
        ≡ ok (record { raw = head ++ (count ++ body); nstamps = bo.read_int count })
  unfolding new parse_body
  new_complete head count body lh lc at = rw (
    le→ltb (length (head ++ (count ++ body))) 46
        (omega (arith, length-append {0} head (count ++ body), length-append {0} count body)),
    drop-append 42 head (count ++ body) lh,
    read_uint-append 4 parse_context count body lc,
    skip_stamps_complete at,
  )
