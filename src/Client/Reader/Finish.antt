-- ===== src/Client/Reader/Finish.antt =====
-- client.rs: the reader thread as a whole, its rounds and its end.
use ads_rs.Prelude.{
  ℕ, zero, suc, ◌+◌, ◌≤◌, ◌<◌, ◌≡◌, List, ap, ◌++◌, arith, ltb, length, length-append, Bool-cases,
  inl, inr,
}
use ads_rs.Wire.{Bytes, ByteOrder, read_exact, read_exact-eq_ok, split_at}
use ads_rs.Errors.{ok, >>=-eq_ok, Result-cases, is_ok, is_err, is_panic, ok-injective}
use ads_rs.NetId.{AmsAddr}
use ads_rs.Client.Header.{read_from_bytes}
use ads_rs.Client.Reader.{
  Change, apply_all, now, later, Delivery, Waiting, interpret, read_packet, read_one, reader_work,
  after, with_delivery,
}

module _ ⦃bo : ByteOrder⦄ where
  read_exact-rest :
      (n : ℕ) (context : _) (stream : Bytes) {a rest : Bytes}
      → read_exact n context stream ≡ ok (a, rest)
      → length stream ≡ n + length rest
  read_exact-rest n context stream {a} {rest} e =
      let (p, q) = read_exact-eq_ok n context stream e in
      omega (arith, ap length p, length-append {0} a rest, q)

  read_packet-rest :
      (source : AmsAddr) (w : Waiting) (reserved len : ℕ) (start stream : Bytes) {d : Delivery}
      {rest : Bytes}
      → read_packet source w reserved len start stream ≡ ok (d, rest)
      → length rest ≤ length stream
  unfolding read_packet
  read_packet-rest source w reserved len start stream {d} {rest} e =
      let ((head, s₁), e₁, k₁) = >>=-eq_ok (read_exact 32 _ stream) _ e in
      let (h, e₂, k₂) = >>=-eq_ok (read_from_bytes (start ++ head)) _ k₁ in
      let ((payload, s₂), e₃, k₃) = >>=-eq_ok (read_exact h.data_length _ s₁) _ k₂ in
      let (d', e₄, k₄) =
        >>=-eq_ok (interpret source w reserved len h (start ++ head) payload) _ k₃ in
      let same : s₂ ≡ rest = ap (λ t. t.1) (ok-injective k₄) in
      omega (
        arith,
        read_exact-rest 32 _ stream e₁,
        read_exact-rest h.data_length _ s₁ e₃,
        ap length same,
      )

  -- A round that goes on takes at least the six bytes of the first header.
  read_one-rest :
      (source : AmsAddr) (w : Waiting) (stream : Bytes) {d : Delivery} {rest : Bytes}
      → read_one source w stream ≡ ok (d, rest)
      → 6 + length rest ≤ length stream
  unfolding read_one
  read_one-rest source w stream {d} {rest} e =
      let ((start, s), e₁, k₁) = >>=-eq_ok (read_exact 6 _ stream) _ e in
      let ((a, b), e₂, k₂) = >>=-eq_ok (split_at 2 start) _ k₁ in
      let first = read_exact-rest 6 _ stream e₁ in
      elim (Bool-cases (ltb (bo.read_int b) 32)) [
        | inl bad ↦
            let k = rw bad at k₂ in
            let ((x, s₂), e₃, k₃) = >>=-eq_ok (read_exact (bo.read_int b) _ s) _ k in
            let same : s₂ ≡ rest = ap (λ t. t.1) (ok-injective k₃) in
            omega (arith, first, read_exact-rest (bo.read_int b) _ s e₃, ap length same)
        | inr long ↦
            let k = rw long at k₂ in
            omega
              (arith, first, read_packet-rest source w (bo.read_int a) (bo.read_int b) start s k)
      ]

  -- The number of rounds allowed does not matter once it exceeds the number of bytes that the
  -- connection brings, whatever other threads do to the map of active requests: the reader thread
  -- ends by an error or a panic of its own.
  pub reader_work-fuel :
      (f g : ℕ) (source : AmsAddr) (changes : List (List Change)) (w : Waiting) (stream : Bytes)
      → length stream < f
      → length stream < g
      → reader_work f source changes w stream ≡ reader_work g source changes w stream
  unfolding reader_work
  reader_work-fuel zero g source changes w stream p q = absurd (omega arith)
  reader_work-fuel (suc f) zero source changes w stream p q = absurd (omega arith)
  reader_work-fuel (suc f) (suc g) source changes w stream p q =
      let w' = apply_all (now changes) w in
      elim (Result-cases (read_one source w' stream)) [
        | is_ok (d, rest) e ↦
            let less = read_one-rest source w' stream e in
            let same =
              reader_work-fuel f g source (later changes) (after d w') rest (omega (arith, less))
                (omega (arith, less)) in
            rw e (ap (λ t. with_delivery d t) same)
        | is_err x e ↦ rw e
        | is_panic e ↦ rw e
      ]
