-- ===== src/Client/Exchange/Response.antt =====
-- client.rs: what a successful `communicate` has checked, and what it returns.
use ads_rs.Prelude.{
  ℕ, ◌+◌, ◌≤◌, ◌≡◌, refl, ◌∙◌, ap, Bool, true, false, List, [], ◌∷◌, ◌++◌, map, arith, leb, leb→le,
  ◌==◌, ==_iff, if◌then◌else◌, length, Bool-cases, inl, inr,
}
use mathlib.Core.Path.{subst}
use ads_rs.Wire.{Bytes, ByteOrder, concat, split_at, split_at-eq_ok}
use ads_rs.Errors.{ok, >>=-eq_ok, ok-injective}
use ads_rs.Errors.Codes.{ads_error}
use ads_rs.Errors.Search.{ads_error-ne_ok}
use ads_rs.NetId.{AmsAddr}
use ads_rs.NetId.Equal.{addr_eq_sound}
use ads_rs.Client.Command.{Command, code, action}
use ads_rs.Client.Header.{AdsHeader}
use ads_rs.Client.Scatter.{overlay, concat-scatter}
use ads_rs.Client.Exchange.{source_of, result_field, check_response, fill, accept}

-- The header of the response is of the commanded target, command and request, a response without
-- an error.
pub record IsAnswer (cmd : Command) (target : AmsAddr) (id : ℕ) (h : AdsHeader) : Type 0 where
  pub from : source_of h ≡ target
  pub command : h.command ≡ code cmd
  pub flags : h.state_flags ≡ 5
  pub invoke_id : h.invoke_id ≡ id
  pub no_error : h.error_code ≡ 0

or_ads_error :
    (t : Bool) (cmd : Command) (e : ℕ) {u : Unit {0}}
    → (if t then ok tt else ads_error (action cmd) e) ≡ ok u
    → t ≡ true
or_ads_error true cmd e h = refl
or_ads_error false cmd e h = absurd (ads_error-ne_ok (action cmd) e h)

check_response-IsAnswer :
    (cmd : Command) (target : AmsAddr) (id : ℕ) (h : AdsHeader) {u : Unit {0}}
    → check_response cmd target id h ≡ ok u
    → IsAnswer cmd target id h
unfolding check_response
check_response-IsAnswer cmd target id h {u} c =
    ground
      (arith, addr_eq_sound (source_of h) target, ads_error-ne_ok (action cmd) h.error_code {a = u})

-- What `communicate` returns for the bytes behind the result field: without output buffers nothing;
-- otherwise their number, which is at least the size of the first buffer, and the buffers filled
-- with them in order, as far as both go.
pub data IsOutput (rest : Bytes) : List Bytes → ℕ → List Bytes → Type 0 where
  unwanted : IsOutput rest [] 0 []
  filled :
      {buf : Bytes} {bufs out : List Bytes} {n : ℕ}
      → n ≡ length rest
      → length buf ≤ n
      → concat out ≡ overlay rest (concat (buf ∷ bufs))
      → map length out ≡ map length (buf ∷ bufs)
      → IsOutput rest (buf ∷ bufs) n out

fill-IsOutput :
    (cmd : Command) (rest : Bytes) (bufs : List Bytes) {n : ℕ} {out : List Bytes}
    → fill cmd rest bufs ≡ ok (n, out)
    → IsOutput rest bufs n out
unfolding fill
fill-IsOutput cmd rest [] {n} {out} h =
    subst (λ o. IsOutput rest [] o.0 o.1) (ok-injective h) IsOutput.unwanted
fill-IsOutput cmd rest (buf ∷ bufs) {n} {out} h =
    elim (Bool-cases (leb (length buf + 4) (length rest + 4))) [
      | inl fits ↦
          let k = rw fits at h in
          let spec = concat-scatter rest (buf ∷ bufs) in
          subst (λ o. IsOutput rest (buf ∷ bufs) o.0 o.1) (ok-injective k)
            (IsOutput.filled refl (omega (arith, leb→le (length buf + 4) (length rest + 4) fits))
              spec.0 spec.1)
      | inr short ↦ let k = rw short at h in cc
    ]

module _ ⦃bo : ByteOrder⦄ where
  -- A response that `communicate` accepts.
  pub record Accepted (cmd : Command) (target : AmsAddr) (id : ℕ) (bufs : List Bytes)
      (h : AdsHeader) (payload : Bytes) (n : ℕ) (out : List Bytes) : Type 0 where
    pub answer : IsAnswer cmd target id h
    pub result : Bytes
    pub content : Bytes
    pub split : payload ≡ result ++ content
    pub result_size : length result ≡ 4
    pub success : bo.read_int result ≡ 0
    pub output : IsOutput content bufs n out

  -- If `communicate` returns successfully for a response, then its header is of the commanded
  -- target, command and invoke ID, with the flags of a response and no error; the payload is a
  -- result field, which is zero, and content; and the number and the buffers returned are those of
  -- the content.
  pub accept-Accepted :
      (cmd : Command) (target : AmsAddr) (id : ℕ) (bufs : List Bytes) (h : AdsHeader)
      (payload : Bytes) {n : ℕ} {out : List Bytes}
      → accept cmd target id bufs h payload ≡ ok (n, out)
      → Accepted cmd target id bufs h payload n out
  unfolding accept result_field
  accept-Accepted cmd target id bufs h payload e =
      let (u, c, k) = >>=-eq_ok (check_response cmd target id h) _ e in
      let ((value, content), r, k') = >>=-eq_ok (result_field payload) _ k in
      let ((result, rest), s, v) = >>=-eq_ok (split_at 4 payload) _ r in
      let (p, q) = split_at-eq_ok 4 payload s in
      let value_eq : bo.read_int result ≡ value = ap (λ t. t.0) (ok-injective v) in
      let rest_eq : rest ≡ content = ap (λ t. t.1) (ok-injective v) in
      let (w, g, f) = >>=-eq_ok (if value == 0 then ok tt else ads_error (action cmd) value) _ k' in
      record {
        answer = check_response-IsAnswer cmd target id h c;
        result = result;
        content = content;
        split = p ∙ ap (λ t. result ++ t) rest_eq;
        result_size = q;
        success = value_eq ∙ (==_iff value 0).0 (or_ads_error (value == 0) cmd value g);
        output = fill-IsOutput cmd content bufs f;
      }
