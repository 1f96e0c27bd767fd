-- ===== src/Client/Device/Handles.antt =====
-- client.rs: the set of active notification handles, which `add_notification` and
-- `delete_notification` keep.
use ads_rs.Prelude.{
  ℕ, ◌+◌, ◌^◌, ◌≡◌, refl, sym, ap, ◌∙◌, true, false, List, [], ◌∷◌, ltb, ==-self, ==_iff,
  if◌then◌else◌, Bool-cases, inl, inr,
}
use mathlib.Core.Path.{ap₂, subst}
use ads_rs.Wire.{Bytes, ByteOrder}
use ads_rs.Errors.{Result, ok, err, panic, Result-cases, is_ok, is_err, is_panic}
use ads_rs.NetId.{AmsAddr, addr_eq}
use ads_rs.NetId.Equal.{addr_eq_self, addr_eq_sound}
use ads_rs.Notif.Attributes.{Attributes, as_millis}
use ads_rs.Client.Command.{Command}
use ads_rs.Client.Action.{
  Arrival, Client, Action, write_failed, HandleKey, key_eq, key_lt, remove_key, insert_key, mem_key,
  ◌>>=◌,
}
use ads_rs.Client.Exchange.{await, communicate, total_length}
use ads_rs.Client.Device.{add_notification, delete_notification, fits_u32}

key_eq_self : (k : HandleKey) → key_eq k k ≡ true
unfolding key_eq
key_eq_self k = rw (addr_eq_self k.0, ==-self k.1)

key_eq_sound : (a b : HandleKey) → key_eq a b ≡ true → a ≡ b
unfolding key_eq
key_eq_sound a b h = elim (Bool-cases (addr_eq a.0 b.0)) [
  | inl same ↦
      let k = rw same at h in
      ap₂ (λ s t. (s, t)) (addr_eq_sound a.0 b.0 same) ((==_iff a.1 b.1).0 k)
  | inr other ↦ let k = rw other at h in cc
]

pub mem_key-remove_key :
    (j k : HandleKey) (ks : List HandleKey)
    → mem_key k (remove_key j ks) ≡ (if key_eq j k then false else mem_key k ks)
unfolding mem_key remove_key
mem_key-remove_key j k [] = elim (Bool-cases (key_eq j k)) [ inl e ↦ rw e refl | inr e ↦ rw e refl ]
mem_key-remove_key j k (x ∷ ks) =
    let more = mem_key-remove_key j k ks in
    elim (Bool-cases (key_eq x j)) [
      | inl gone ↦
          let same = key_eq_sound x j gone in
          rw gone (elim (Bool-cases (key_eq j k)) [
            | inl e ↦ let m = rw e at more in rw e m
            | inr e ↦
                let m = rw e at more in
                let f : key_eq x k ≡ false = ap (λ t. key_eq t k) same ∙ e in rw (e, f) m
          ])
      | inr stays ↦ rw stays (elim (Bool-cases (key_eq x k)) [
        | inl e ↦
            let f : key_eq j k ≡ false = elim (Bool-cases (key_eq j k)) [
              | inl g ↦
                  let s = key_eq_sound x k e ∙ sym (key_eq_sound j k g) in
                  let t : key_eq x j ≡ true = subst (λ z. key_eq x z ≡ true) s (key_eq_self x) in
                  absurd (cc)
              | inr g ↦ g
            ] in
            rw (e, f) refl
        | inr e ↦ rw e more
      ])
    ]

pub mem_key-insert_key :
    (j k : HandleKey) (ks : List HandleKey)
    → mem_key k (insert_key j ks) ≡ (if key_eq j k then true else mem_key k ks)
unfolding mem_key insert_key
mem_key-insert_key j k [] = elim (Bool-cases (key_eq j k)) [ inl e ↦ rw e refl | inr e ↦ rw e refl ]
mem_key-insert_key j k (x ∷ ks) =
    let later = mem_key-insert_key j k ks in
    elim (Bool-cases (key_eq x j)) [
      | inl same ↦
          let eq : key_eq x k ≡ key_eq j k = ap (λ t. key_eq t k) (key_eq_sound x j same) in
          rw (same, eq) (elim (Bool-cases (key_eq j k)) [ inl e ↦ rw e refl | inr e ↦ rw e refl ])
      | inr other ↦ rw other (elim (Bool-cases (key_lt j x)) [
        | inl first ↦ rw first refl
        | inr behind ↦
            rw (behind, later)
              (elim (Bool-cases (key_eq x k)) [
                | inl e ↦
                    rw e (elim (Bool-cases (key_eq j k)) [ inl f ↦ rw f refl | inr f ↦ rw f refl ])
                | inr e ↦ rw e refl
              ])
      ])
    ]

-- What a result makes of the set of handles: a failure leaves it.
abbrev pub changed {ℓ} :
    {A : Type ℓ}
    → (A → List HandleKey → List HandleKey)
    → Result A
    → List HandleKey
    → List HandleKey
changed t (ok a) ks = t a ks
changed t (err e) ks = ks
changed t panic ks = ks

-- The action changes the set of handles as its result says.
abbrev pub Changes : {A : Type 0} → (A → List HandleKey → List HandleKey) → Action A → Type 0
Changes t m = (c : Client) → (m c).1.notif_handles ≡ changed t (m c).0 c.notif_handles

abbrev pub keep : {A : Type 0} → A → List HandleKey → List HandleKey
keep a ks = ks

pub bind-Changes :
    {A B : Type 0} (t : B → List HandleKey → List HandleKey) (m : Action A) (f : A → Action B)
    → Changes keep m
    → ((a : A) → Changes t (f a))
    → Changes t (m >>= f)
bind-Changes t m f p q c =
    let before = p c in
    elim (Result-cases (m c).0) [
      | is_ok a e ↦
          let b : (m c).1.notif_handles ≡ c.notif_handles = rw e at before in
          rw e (q a (m c).1 ∙ ap (λ ks. changed t (f a (m c).1).0 ks) b)
      | is_err x e ↦ rw e (rw e at before)
      | is_panic e ↦ rw e (rw e at before)
    ]

pub fits_u32-Changes : (n : ℕ) → Changes keep (fits_u32 n)
fits_u32-Changes n c = elim (Bool-cases (ltb n (2 ^ 32))) [ inl e ↦ rw e refl | inr e ↦ rw e refl ]

changed-keep : {A : Type 0} (r : Result A) (ks : List HandleKey) → changed keep r ks ≡ ks
changed-keep (ok a) ks = refl
changed-keep (err e) ks = refl
changed-keep panic ks = refl

module _ ⦃bo : ByteOrder⦄ where
  await-notif_handles :
      (cmd : Command) (target : AmsAddr) (id : ℕ) (bufs : List Bytes) (a : Arrival) (c : Client)
      → (await cmd target id bufs a c).1.notif_handles ≡ c.notif_handles
  unfolding await
  await-notif_handles cmd target id bufs (write_failed n e) c = refl
  await-notif_handles cmd target id bufs _ c = refl

  pub communicate-Changes :
      (cmd : Command) (target : AmsAddr) (payload bufs : List Bytes)
      → Changes keep (communicate cmd target payload bufs)
  unfolding communicate
  communicate-Changes cmd target payload bufs c =
      elim (Bool-cases (ltb (32 + total_length payload) (2 ^ 32))) [
        | inl e ↦ rw (e, await-notif_handles) (sym (changed-keep _ c.notif_handles))
        | inr e ↦ rw e refl
      ]

  add_notification-Changes :
      (addr : AmsAddr) (group offset : ℕ) (a : Attributes)
      → Changes (λ h ks. insert_key (addr, h) ks) (add_notification addr group offset a)
  unfolding add_notification
  add_notification-Changes addr group offset a =
      let t : ℕ → List HandleKey → List HandleKey = λ h ks. insert_key (addr, h) ks in
      bind-Changes t _ _ (fits_u32-Changes a.length_) (λ _.
        bind-Changes t _ _ (fits_u32-Changes (as_millis a.max_delay)) (λ _.
          bind-Changes t _ _ (fits_u32-Changes (as_millis a.cycle_time))
            (λ _. bind-Changes t _ _ (communicate-Changes _ addr _ _) (λ out c. refl))))

  delete_notification-Changes :
      (addr : AmsAddr) (handle : ℕ)
      → Changes (λ u ks. remove_key (addr, handle) ks) (delete_notification addr handle)
  unfolding delete_notification
  delete_notification-Changes addr handle =
      bind-Changes (λ u ks. remove_key (addr, handle) ks) _ _ (communicate-Changes _ addr _ _)
        (λ out c. refl)

  -- Whether a key is an active handle after `add_notification`: if that returned a handle, then the
  -- key of the device's address and that handle is one, and every other key is one exactly if it
  -- was; if it failed, nothing has changed.
  pub mem_key-add_notification :
      (addr : AmsAddr) (group offset : ℕ) (a : Attributes) (c : Client) (k : HandleKey)
      → mem_key k (add_notification addr group offset a c).1.notif_handles
        ≡ elim (add_notification addr group offset a c).0 [
          | ok handle ↦ if key_eq (addr, handle) k then true else mem_key k c.notif_handles
          | err e ↦ mem_key k c.notif_handles
          | panic ↦ mem_key k c.notif_handles
        ]
  mem_key-add_notification addr group offset a c k =
      let m = add_notification addr group offset a c in
      let set = add_notification-Changes addr group offset a c in
      elim (Result-cases m.0) [
        | is_ok handle e ↦
            let s : m.1.notif_handles ≡ insert_key (addr, handle) c.notif_handles = rw e at set in
            rw (e, s) (mem_key-insert_key (addr, handle) k c.notif_handles)
        | is_err x e ↦ let s : m.1.notif_handles ≡ c.notif_handles = rw e at set in rw (e, s) refl
        | is_panic e ↦ let s : m.1.notif_handles ≡ c.notif_handles = rw e at set in rw (e, s) refl
      ]

  -- After `delete_notification` the key of the device's address and the handle is no active handle
  -- if it succeeded, and every other key is one exactly if it was; if it failed, nothing has changed.
  pub mem_key-delete_notification :
      (addr : AmsAddr) (handle : ℕ) (c : Client) (k : HandleKey)
      → mem_key k (delete_notification addr handle c).1.notif_handles
        ≡ elim (delete_notification addr handle c).0 [
          | ok u ↦ if key_eq (addr, handle) k then false else mem_key k c.notif_handles
          | err e ↦ mem_key k c.notif_handles
          | panic ↦ mem_key k c.notif_handles
        ]
  mem_key-delete_notification addr handle c k =
      let m = delete_notification addr handle c in
      let set = delete_notification-Changes addr handle c in
      elim (Result-cases m.0) [
        | is_ok u e ↦
            let s : m.1.notif_handles ≡ remove_key (addr, handle) c.notif_handles = rw e at set in
            rw (e, s) (mem_key-remove_key (addr, handle) k c.notif_handles)
        | is_err x e ↦ let s : m.1.notif_handles ≡ c.notif_handles = rw e at set in rw (e, s) refl
        | is_panic e ↦ let s : m.1.notif_handles ≡ c.notif_handles = rw e at set in rw (e, s) refl
      ]
