-- ===== src/Client/Exchange/Safe.antt =====
-- client.rs: a request that wants no data meets no panic where each response has a result field.
use ads_rs.Prelude.{
  ℕ, ◌≤◌, ◌≡◌, ◌≢◌, refl, sym, ap, ◌∙◌, Bool, true, false, [], arith, if◌then◌else◌, length, take,
  drop, take-append-drop, length-take, ◌==◌,
}
use ads_rs.Wire.{Bytes, ByteOrder, split_at, split_at-append}
use ads_rs.Errors.{Result, ok, err, panic, ◌>>=◌}
use ads_rs.Errors.Codes.{ads_error}
use ads_rs.Errors.Search.{ads_error-ne_panic}
use ads_rs.NetId.{AmsAddr}
use ads_rs.Client.Command.{Command, code, action}
use ads_rs.Client.Header.{AdsHeader}
use ads_rs.Client.Action.{Arrival, Client, received}
use ads_rs.Client.Exchange.{await, accept, check_response, result_field, fill}

-- A response has room for its result field.
abbrev pub HasResult : Arrival → Type 0
HasResult (received h payload) = 4 ≤ length payload
HasResult _ = Unit

>>=-eq_panic :
    {A B : Type 0} (r : Result A) (f : A → Result B)
    → (r >>= f) ≡ panic
    → r ≢ panic
    → (a : A) × (r ≡ ok a) × (f a ≡ panic)
>>=-eq_panic (ok a) f h p = (a, refl, h)
>>=-eq_panic (err e) f h p = cc
>>=-eq_panic panic f h p = absurd (p refl)

or_ads_error-ne_panic :
    (t : Bool) (context : _) (code : ℕ)
    → ◌≢◌ {A = Result (Unit {0})} (if t then ok tt else ads_error context code) panic
or_ads_error-ne_panic true context code h = cc
or_ads_error-ne_panic false context code h = ads_error-ne_panic context code h

check_response-ne_panic :
    (cmd : Command) (target : AmsAddr) (id : ℕ) (h : AdsHeader)
    → check_response cmd target id h ≢ panic
unfolding check_response
check_response-ne_panic cmd target id h e =
    let known = ads_error-ne_panic {A = Unit {0}} (action cmd) h.error_code in ground (arith, known)

module _ ⦃bo : ByteOrder⦄ where
  result_field-ne_panic : (payload : Bytes) → 4 ≤ length payload → result_field payload ≢ panic
  unfolding result_field
  result_field-ne_panic payload enough e =
      let parts =
        split_at-append 4 (take 4 payload) (drop 4 payload)
          (omega (arith, length-take {0} 4 payload)) in
      let split = ap (split_at 4) (sym (take-append-drop 4 payload)) ∙ parts in
      let k = rw split at e in cc

  -- A response with a result field makes no panic where no data is wanted.
  accept-ne_panic :
      (cmd : Command) (target : AmsAddr) (id : ℕ) (h : AdsHeader) (payload : Bytes)
      → 4 ≤ length payload
      → accept cmd target id [] h payload ≢ panic
  unfolding accept check_response result_field fill
  accept-ne_panic cmd target id h payload enough e =
      let (u, _, k) =
        >>=-eq_panic (check_response cmd target id h) _ e
          (check_response-ne_panic cmd target id h) in
      let ((value, content), _, k') =
        >>=-eq_panic (result_field payload) _ k (result_field-ne_panic payload enough) in
      let (w, _, f) =
        >>=-eq_panic (if value == 0 then ok tt else ads_error (action cmd) value) _ k'
          (or_ads_error-ne_panic (value == 0) (action cmd) value) in
      cc

  pub await-ne_panic :
      (cmd : Command) (target : AmsAddr) (id : ℕ) (a : Arrival) (c : Client)
      → HasResult a
      → (await cmd target id [] a c).0 ≢ panic
  unfolding await
  await-ne_panic cmd target id (received h payload) c enough =
      accept-ne_panic cmd target id h payload enough
  await-ne_panic cmd target id (Arrival.write_failed n e) c enough = λ h. cc
  await-ne_panic cmd target id (Arrival.failed e) c enough = λ h. cc
  await-ne_panic cmd target id Arrival.disconnected c enough = λ h. cc
  await-ne_panic cmd target id Arrival.timed_out c enough = λ h. cc
