-- ===== src/Notif/Layout.antt =====
-- notif.rs: the layout that `Notification::new` accepts, as a relation between bytes and samples.
use ads_rs.Prelude.{
  ℕ, zero, suc, ◌≡◌, refl, sym, ap, ◌∙◌, true, List, [], ◌∷◌, ◌++◌, arith, ltb, leb, leb→le, length,
  drop, drop-append, drop-drop, take, take-append, length-take, take-append-drop, Bool-cases, inl,
  inr,
}
use mathlib.Core.Path.{subst}
use ads_rs.Wire.{Bytes, ByteOrder, read_uint-bind_eq_ok}
use ads_rs.Errors.{ok, >>=-eq_ok, ok-injective}
use ads_rs.Notif.{
  Notification, Sample, new, parse_body, parse_context, is_empty, skip_samples, skip_stamps,
}

module _ ⦃bo : ByteOrder⦄ where
  -- `SamplesAt t n bs ss rest`: `bs` is `n` samples of time `t`, which are `ss`, and then `rest`.
  pub data SamplesAt (timestamp : ℕ) : ℕ → Bytes → List Sample → Bytes → Type 0 where
    done : {bs rest : Bytes} → bs ≡ rest → SamplesAt timestamp zero bs [] rest
    sample :
        {n : ℕ} {bs mid rest : Bytes} {ss : List Sample} (handle len content : Bytes)
        → length handle ≡ 4
        → length len ≡ 4
        → length content ≡ bo.read_int len
        → bs ≡ handle ++ (len ++ (content ++ mid))
        → SamplesAt timestamp n mid ss rest
        → SamplesAt timestamp
            (suc n)
            bs
            (record { handle = bo.read_int handle; timestamp = timestamp; content = content } ∷ ss)
            rest

  -- `StampsAt n bs ss`: `bs` is `n` stamps and nothing more, and their samples are `ss`.
  pub data StampsAt : ℕ → Bytes → List Sample → Type 0 where
    last : {bs : Bytes} → bs ≡ [] → StampsAt zero bs []
    stamp :
        {n : ℕ} {bs mid rest : Bytes} {ss ss' : List Sample} (timestamp count : Bytes)
        → length timestamp ≡ 8
        → length count ≡ 4
        → bs ≡ timestamp ++ (count ++ mid)
        → SamplesAt (bo.read_int timestamp) (bo.read_int count) mid ss rest
        → StampsAt n rest ss'
        → StampsAt (suc n) bs (ss ++ ss')

  skip_samples-SamplesAt :
      (timestamp n : ℕ) (bs : Bytes) {rest : Bytes}
      → skip_samples n bs ≡ ok rest
      → (ss : List Sample) × SamplesAt timestamp n bs ss rest
  unfolding skip_samples
  skip_samples-SamplesAt timestamp zero bs h = ([], done (ok-injective h))
  skip_samples-SamplesAt timestamp (suc n) bs h =
      let (handle, p, e, lh, k) = read_uint-bind_eq_ok 4 parse_context bs _ h in
      let (len, q, e', ll, k') = read_uint-bind_eq_ok 4 parse_context p _ k in
      elim (Bool-cases (leb (bo.read_int len) (length q))) [
        | inl fits ↦
            let (ss, s) =
              skip_samples-SamplesAt timestamp n (drop (bo.read_int len) q) (rw fits at k') in
            (
              record {
                handle = bo.read_int handle;
                timestamp = timestamp;
                content = take (bo.read_int len) q;
              }
                  ∷ ss,
              sample handle len (take (bo.read_int len) q) lh ll
                  (omega (
                    arith,
                    length-take {0} (bo.read_int len) q,
                    leb→le (bo.read_int len) (length q) fits,
                  ))
                  (e
                    ∙ ap (λ t. handle ++ t)
                        (e' ∙ ap (λ t. len ++ t) (sym (take-append-drop (bo.read_int len) q))))
                  s,
            )
        | inr short ↦ let k'' = rw short at k' in cc
      ]

  skip_stamps-StampsAt :
      (n : ℕ) (bs : Bytes) → skip_stamps n bs ≡ ok [] → (ss : List Sample) × StampsAt n bs ss
  unfolding skip_stamps
  skip_stamps-StampsAt zero bs h = ([], last (ok-injective h))
  skip_stamps-StampsAt (suc n) bs h =
      let (timestamp, p, e, lt, k) = read_uint-bind_eq_ok 8 parse_context bs _ h in
      let (count, q, e', lc, k') = read_uint-bind_eq_ok 4 parse_context p _ k in
      let (rest, s, k'') = >>=-eq_ok (skip_samples (bo.read_int count) q) _ k' in
      let (ss, at) = skip_samples-SamplesAt (bo.read_int timestamp) (bo.read_int count) q s in
      let (ss', at') = skip_stamps-StampsAt n rest k'' in
      (ss ++ ss', stamp timestamp count lt lc (e ∙ ap (λ t. timestamp ++ t) e') at at')

  is_empty-eq_nil : (bs : Bytes) → is_empty bs ≡ true → bs ≡ []
  is_empty-eq_nil [] h = refl
  is_empty-eq_nil (b ∷ bs) h = cc

  -- A message that `new` accepts is kept as it is, and has at least a header, a length and a
  -- number of stamps; after them it is laid out as that many stamps, and nothing more.
  pub record IsParsed (raw : Bytes) (n : Notification) : Type 0 where
    pub same : n.raw ≡ raw
    pub count : n.nstamps ≡ bo.read_int (take 4 (drop 42 raw))
    pub content : List Sample
    pub stamps : StampsAt n.nstamps (drop 46 raw) content

  parse_body-IsParsed : (raw : Bytes) {n : Notification} → parse_body raw ≡ ok n → IsParsed raw n
  unfolding parse_body
  parse_body-IsParsed raw {n} h =
      let (count, p, e, l, k) = read_uint-bind_eq_ok 4 parse_context (drop 42 raw) _ h in
      let (rest, s, k') = >>=-eq_ok (skip_stamps (bo.read_int count) p) _ k in
      let tail : drop 46 raw ≡ p =
        sym (drop-drop 42 4 raw) ∙ ap (drop 4) e ∙ drop-append 4 count p l in
      let head : take 4 (drop 42 raw) ≡ count = ap (take 4) e ∙ take-append 4 count p l in
      elim (Bool-cases (is_empty rest)) [
        | inl empty ↦
            let k'' = rw empty at k' in
            let same : record { raw = raw; nstamps = bo.read_int count } ≡ n = ok-injective k'' in
            let s' = rw (is_empty-eq_nil rest empty) at s in
            let (ss, at) = skip_stamps-StampsAt (bo.read_int count) p s' in
            subst (IsParsed raw) same (record {
              same = refl;
              count = ap bo.read_int (sym head);
              content = ss;
              stamps = rw tail at;
            })
        | inr more ↦ let k'' = rw more at k' in cc
      ]

  pub new-IsParsed : (raw : Bytes) {n : Notification} → new raw ≡ ok n → IsParsed raw n
  unfolding new
  new-IsParsed raw h = elim (Bool-cases (ltb (length raw) 46)) [
    | inl short ↦ let k = rw short at h in cc
    | inr long ↦ let k = rw long at h in parse_body-IsParsed raw k
  ]
