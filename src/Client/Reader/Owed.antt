-- ===== src/Client/Reader/Owed.antt =====
-- client.rs: what a round of the reader thread delivers is owed to an active request.
use ads_rs.Prelude.{
  ℕ, ◌-◌, ◌≡◌, ap, Bool, true, false, not, ◌++◌, ltb, ◌==◌, if◌then◌else◌, Bool-cases, inl, inr,
}
use mathlib.Core.Path.{subst}
use ads_rs.Wire.{Bytes, ByteOrder, read_exact, split_at}
use ads_rs.Errors.{Result, ok, err, panic, >>=-eq_ok, ok-injective}
use ads_rs.NetId.{AmsAddr, addr_eq}
use ads_rs.Notif
use ads_rs.Client.Command.{code, notification}
use ads_rs.Client.Header.{AdsHeader, read_from_bytes}
use ads_rs.Client.Action.{mem_id}
use ads_rs.Client.Reader.{
  Delivery, settle, nothing, notify, Waiting, dest_of, of_parsed, settle_reply, take_notification,
  dispatch, interpret, read_packet, read_one,
}

-- What is delivered answers an active request, if any.
pub data IsOwed (w : Waiting) : Delivery → Type 0 where
  idle : IsOwed w nothing
  noted : {n : Notif.Notification} → IsOwed w (notify n)
  owed : {j : ℕ} {h : AdsHeader} {p : Bytes} → mem_id j w.pending ≡ true → IsOwed w (settle j h p)

settle_reply-IsOwed :
    (w : Waiting) (h : AdsHeader) (payload : Bytes) {d : Delivery}
    → settle_reply w h payload ≡ ok d
    → IsOwed w d
unfolding settle_reply
settle_reply-IsOwed w h payload {d} e = elim (Bool-cases (mem_id h.invoke_id w.pending)) [
  | inl known ↦
      let k = rw known at e in
      elim (Bool-cases (w.alive h.invoke_id)) [
        | inl waits ↦
            let k' = rw waits at k in subst (λ t. IsOwed w t) (ok-injective k') (IsOwed.owed known)
        | inr gone ↦ let k' = rw gone at k in cc
      ]
  | inr unknown ↦ let k = rw unknown at e in cc
]

of_parsed-IsOwed :
    (w : Waiting) (r : Result Notif.Notification) {d : Delivery} → of_parsed r ≡ ok d → IsOwed w d
of_parsed-IsOwed w (ok n) e = subst (λ t. IsOwed w t) (ok-injective e) IsOwed.noted
of_parsed-IsOwed w (err x) e = subst (λ t. IsOwed w t) (ok-injective e) IsOwed.idle
of_parsed-IsOwed w panic e = cc

choice-IsOwed :
    (w : Waiting) (t : Bool) (a b : Result Delivery) {d : Delivery}
    → ((a ≡ ok d) → IsOwed w d)
    → ((b ≡ ok d) → IsOwed w d)
    → (if t then a else b) ≡ ok d
    → IsOwed w d
choice-IsOwed w true a b p q e = p e
choice-IsOwed w false a b p q e = q e

nothing-IsOwed : (w : Waiting) {d : Delivery} → ok nothing ≡ ok d → IsOwed w d
nothing-IsOwed w e = subst (λ t. IsOwed w t) (ok-injective e) IsOwed.idle

module _ ⦃bo : ByteOrder⦄ (source : AmsAddr) where
  take_notification-IsOwed :
      (w : Waiting) (h : AdsHeader) (head payload : Bytes) {d : Delivery}
      → take_notification h head payload ≡ ok d
      → IsOwed w d
  unfolding take_notification
  take_notification-IsOwed w h head payload e =
      let ((raw, rest), s, k) = >>=-eq_ok (split_at 4 payload) _ e in
      choice-IsOwed w _ (ok nothing) (of_parsed (Notif.new (head ++ payload))) (nothing-IsOwed w)
        (of_parsed-IsOwed w (Notif.new (head ++ payload))) k

  interpret-IsOwed :
      (w : Waiting) (reserved len : ℕ) (h : AdsHeader) (head payload : Bytes) {d : Delivery}
      → interpret source w reserved len h head payload ≡ ok d
      → IsOwed w d
  unfolding interpret dispatch
  interpret-IsOwed w reserved len h head payload {d} =
      choice-IsOwed w (reserved == 0) _ _
        (choice-IsOwed w (h.data_length == len - 32) _ (err _)
          (choice-IsOwed w (not (addr_eq (dest_of h) source)) (ok nothing) _ (nothing-IsOwed w) (
            choice-IsOwed w (not (h.command == code notification)) _ _
              (settle_reply-IsOwed w h payload) (take_notification-IsOwed w h head payload)))
          (λ e. cc))
        (choice-IsOwed w _ (ok nothing) (err _) (nothing-IsOwed w) (λ e. cc))

  read_packet-IsOwed :
      (w : Waiting) (reserved len : ℕ) (start stream : Bytes) {d : Delivery} {rest : Bytes}
      → read_packet source w reserved len start stream ≡ ok (d, rest)
      → IsOwed w d
  unfolding read_packet
  read_packet-IsOwed w reserved len start stream e =
      let ((head, s₁), e₁, k₁) = >>=-eq_ok (read_exact 32 _ stream) _ e in
      let (h, e₂, k₂) = >>=-eq_ok (read_from_bytes (start ++ head)) _ k₁ in
      let ((payload, s₂), e₃, k₃) = >>=-eq_ok (read_exact h.data_length _ s₁) _ k₂ in
      let (d', e₄, k₄) =
        >>=-eq_ok (interpret source w reserved len h (start ++ head) payload) _ k₃ in
      subst (λ t. IsOwed w t) (ap (λ t. t.0) (ok-injective k₄))
        (interpret-IsOwed w reserved len h (start ++ head) payload e₄)

  pub read_one-IsOwed :
      (w : Waiting) (stream : Bytes) {d : Delivery} {rest : Bytes}
      → read_one source w stream ≡ ok (d, rest)
      → IsOwed w d
  unfolding read_one
  read_one-IsOwed w stream e =
      let ((start, s), e₁, k₁) = >>=-eq_ok (read_exact 6 _ stream) _ e in
      let ((a, b), e₂, k₂) = >>=-eq_ok (split_at 2 start) _ k₁ in
      elim (Bool-cases (ltb (bo.read_int b) 32)) [
        | inl bad ↦
            let k = rw bad at k₂ in
            let ((x, s₂), e₃, k₃) = >>=-eq_ok (read_exact (bo.read_int b) _ s) _ k in
            subst (λ t. IsOwed w t) (ap (λ t. t.0) (ok-injective k₃)) IsOwed.idle
        | inr long ↦
            let k = rw long at k₂ in read_packet-IsOwed w (bo.read_int a) (bo.read_int b) start s k
      ]
