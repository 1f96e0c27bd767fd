-- ===== src/NetId/Stream.antt =====
-- netid.rs: an address that is written to a stream is read back from it.
use ads_rs.Prelude.{◌≡◌, sym, ap, ◌∙◌, String, ◌++◌, append_assoc, arith, length, length-append}
use ads_rs.Wire.{
  Bytes, ByteOrder, read_exact, read_exact-append, read_exact-eq_ok, read_uint-write_int,
  read_uint-bind_eq_ok, write_u16,
}
use ads_rs.Errors.{ok, >>=-eq_ok, ok-injective}
use ads_rs.NetId.{AmsAddr, IsAddr, write_to, read_from}

module _ ⦃bo : ByteOrder⦄ where
  -- An address that is written to a stream is read back, whatever follows it there, and what
  -- follows is left.
  pub read_from-write_to :
      (context : String) (addr : AmsAddr) (rest : Bytes)
      → IsAddr addr
      → read_from context (write_to addr ++ rest) ≡ ok (addr, rest)
  unfolding read_from write_to
  read_from-write_to context addr rest h = rw (
    append_assoc,
    read_exact-append 6 context addr.netid.octets (write_u16 addr.port ++ rest) h.netid.six,
    read_uint-write_int 2 context addr.port rest h.port,
  )

  pub length-write_to : (addr : AmsAddr) → IsAddr addr → length (write_to addr) ≡ 8
  unfolding write_to
  length-write_to addr h = omega (
    arith,
    length-append {0} addr.netid.octets (write_u16 addr.port),
    h.netid.six,
    bo.length-write_int 2 addr.port,
  )

  pub read_from-eq_ok :
      (context : String) (ptr : Bytes) {addr : AmsAddr} {rest : Bytes}
      → read_from context ptr ≡ ok (addr, rest)
      → (raw : Bytes) × (ptr ≡ raw ++ rest) × (length raw ≡ 8)
  unfolding read_from
  read_from-eq_ok context ptr {addr} {rest} h =
      let ((netid, p), a, k) = >>=-eq_ok (read_exact 6 context ptr) _ h in
      let (e, l) = read_exact-eq_ok 6 context ptr a in
      let (port, q, e', l', k') = read_uint-bind_eq_ok 2 context p _ k in
      let same : q ≡ rest = ap (λ t. t.1) (ok-injective k') in
      (
        netid ++ port,
        e
            ∙ ap (λ t. netid ++ t) (e' ∙ ap (λ t. port ++ t) same)
            ∙ sym (append_assoc netid port rest),
        omega (arith, length-append {0} netid port),
      )
