-- ===== src/Client/Device/Grants.antt =====
-- client.rs: the set of active notification handles, which the sum-up requests
-- `add_notification_multi` and `delete_notification_multi` keep.
use ads_rs.Prelude.{ℕ, ◌*◌, map, length, ◌≡◌, refl, true, false, Bool, List, [], ◌∷◌, if◌then◌else◌}
use ads_rs.Wire.{Bytes, ByteOrder, write_u32}
use ads_rs.Index.{sumup_adddevnote, sumup_deldevnote}
use ads_rs.Client.Structs.{IndexLengthRw, add_notif_bytes, result_length_bytes, result_length_of}
use ads_rs.Errors.{Result, ok, err, panic, Result-cases, is_ok, is_err, is_panic}
use ads_rs.NetId.{AmsAddr}
use ads_rs.Client.Requests.{AddNotifRequest, DelNotifRequest, handle_of}
use ads_rs.Client.Action.{pure, ◌>>◌, Client, HandleKey, key_eq, remove_key, insert_key, mem_key}
use ads_rs.Client.Device.{change_handles}
use ads_rs.Client.Device.Multi.{
  for_each_handle, deleted, assign, sumup_header, sumup, add_notification_multi,
  delete_notification_multi,
}
use ads_rs.Client.Device.Handles.{
  Changes, keep, bind-Changes, fits_u32-Changes, communicate-Changes, mem_key-insert_key,
  mem_key-remove_key,
}

-- Whether a request names a handle that makes the key.
abbrev names_it : AmsAddr → HandleKey → Result ℕ → Bool
names_it addr k (ok h) = key_eq (addr, h) k
names_it addr k (err e) = false
names_it addr k panic = false

-- Whether one of the requests does.
abbrev pub names_key {ℓ} : {R : Type ℓ} → (R → Result ℕ) → AmsAddr → HandleKey → List R → Bool
names_key handle addr k [] = false
names_key handle addr k (r ∷ rs) =
    if names_it addr k (handle r) then true else names_key handle addr k rs

either :
    (a b x y : Bool)
    → (if a then x else (if b then x else y)) ≡ (if (if b then true else a) then x else y)
either true true x y = refl
either true false x y = refl
either false true x y = refl
either false false x y = refl

-- A change for each handle that sets the membership of its own key and of no other.
mem_key-for_each_handle :
    {R : Type 0} (handle : R → Result ℕ) (change : HandleKey → List HandleKey → List HandleKey)
    (value : Bool) (addr : AmsAddr) (k : HandleKey)
    → ((j : HandleKey) (ks : List HandleKey)
        → mem_key k (change j ks) ≡ (if key_eq j k then value else mem_key k ks))
    → (rs : List R) (ks : List HandleKey)
    → mem_key k (for_each_handle handle (λ h. change (addr, h)) rs ks)
      ≡ (if names_key handle addr k rs then value else mem_key k ks)
mem_key-for_each_handle handle change value addr k sets [] ks = refl
mem_key-for_each_handle handle change value addr k sets (r ∷ rs) ks =
    elim (Result-cases (handle r)) [
      | is_ok h e ↦
          let more =
            mem_key-for_each_handle handle change value addr k sets rs (change (addr, h) ks) in
          rw (e, more, sets)
            (either (names_key handle addr k rs) (key_eq (addr, h) k) value (mem_key k ks))
      | is_err x e ↦ rw e (mem_key-for_each_handle handle change value addr k sets rs ks)
      | is_panic e ↦ rw e (mem_key-for_each_handle handle change value addr k sets rs ks)
    ]

module _ ⦃bo : ByteOrder⦄ where
  sumup-Changes :
      (addr : AmsAddr) (header : IndexLengthRw) (ws rs : List Bytes)
      → Changes keep (sumup addr header ws rs)
  unfolding sumup
  sumup-Changes addr header ws rs =
      bind-Changes keep _ _ (fits_u32-Changes header.read_length) (λ _.
        bind-Changes keep _ _ (fits_u32-Changes header.write_length)
          (λ _. bind-Changes keep _ _ (communicate-Changes _ addr _ _) (λ out c. refl)))

  add_notification_multi-Changes :
      {Key : Type 0} (addr : AmsAddr) (requests : List (AddNotifRequest Key))
      → Changes
          (λ rs ks. for_each_handle handle_of (λ h. insert_key (addr, h)) rs ks)
          (add_notification_multi addr requests)
  unfolding add_notification_multi
  add_notification_multi-Changes {Key} addr requests =
      let t : List (AddNotifRequest Key) → List HandleKey → List HandleKey =
        for_each_handle handle_of (λ h. insert_key (addr, h)) in
      let answered : List Bytes → List (AddNotifRequest Key) =
        assign (λ r b. record r { res = result_length_of b }) requests in
      let header =
        sumup_header sumup_adddevnote (length requests) (8 * length requests)
          (40 * length requests) in
      let written = map (λ r. add_notif_bytes r.req) requests in
      let results = map (λ r. result_length_bytes r.res) requests in
      bind-Changes t (sumup addr header written results)
        (λ out. do change_handles (t (answered out)); pure (answered out))
        (sumup-Changes addr header written results) (λ out c. refl)

  delete_notification_multi-Changes :
      (addr : AmsAddr) (requests : List DelNotifRequest)
      → Changes
          (λ rs ks. for_each_handle deleted (λ h. remove_key (addr, h)) rs ks)
          (delete_notification_multi addr requests)
  unfolding delete_notification_multi
  delete_notification_multi-Changes addr requests =
      let t : List DelNotifRequest → List HandleKey → List HandleKey =
        for_each_handle deleted (λ h. remove_key (addr, h)) in
      let answered : List Bytes → List DelNotifRequest =
        assign (λ r b. record r { res = bo.read_int b }) requests in
      let header =
        sumup_header sumup_deldevnote (length requests) (4 * length requests)
          (4 * length requests) in
      let written = map (λ r. write_u32 r.req) requests in
      let results = map (λ r. write_u32 r.res) requests in
      bind-Changes t (sumup addr header written results)
        (λ out. do change_handles (t (answered out)); pure (answered out))
        (sumup-Changes addr header written results) (λ out c. refl)

  -- Whether a key is an active handle after `add_notification_multi`: if that returned the requests,
  -- then it is one if a request was granted a handle that makes this key, and otherwise exactly if
  -- it was before; if it failed, nothing has changed.
  pub mem_key-add_notification_multi :
      {Key : Type 0} (addr : AmsAddr) (requests : List (AddNotifRequest Key)) (c : Client)
      (k : HandleKey)
      → mem_key k (add_notification_multi addr requests c).1.notif_handles
        ≡ elim (add_notification_multi addr requests c).0 [
          | ok rs ↦ if names_key handle_of addr k rs then true else mem_key k c.notif_handles
          | err e ↦ mem_key k c.notif_handles
          | panic ↦ mem_key k c.notif_handles
        ]
  mem_key-add_notification_multi addr requests c k =
      let m = add_notification_multi addr requests c in
      let set = add_notification_multi-Changes addr requests c in
      elim (Result-cases m.0) [
        | is_ok rs e ↦
            let s : m.1.notif_handles
                ≡ for_each_handle handle_of (λ h. insert_key (addr, h)) rs c.notif_handles =
              rw e at set in
            rw (e, s)
              (mem_key-for_each_handle handle_of insert_key true addr k
                (λ j ks. mem_key-insert_key j k ks) rs c.notif_handles)
        | is_err x e ↦ let s : m.1.notif_handles ≡ c.notif_handles = rw e at set in rw (e, s) refl
        | is_panic e ↦ let s : m.1.notif_handles ≡ c.notif_handles = rw e at set in rw (e, s) refl
      ]

  -- Whether a key is an active handle after `delete_notification_multi`: if that returned the
  -- requests, then it is none if the deletion of a handle that makes this key was granted, and
  -- otherwise one exactly if it was before; if it failed, nothing has changed.
  pub mem_key-delete_notification_multi :
      (addr : AmsAddr) (requests : List DelNotifRequest) (c : Client) (k : HandleKey)
      → mem_key k (delete_notification_multi addr requests c).1.notif_handles
        ≡ elim (delete_notification_multi addr requests c).0 [
          | ok rs ↦ if names_key deleted addr k rs then false else mem_key k c.notif_handles
          | err e ↦ mem_key k c.notif_handles
          | panic ↦ mem_key k c.notif_handles
        ]
  mem_key-delete_notification_multi addr requests c k =
      let m = delete_notification_multi addr requests c in
      let set = delete_notification_multi-Changes addr requests c in
      elim (Result-cases m.0) [
        | is_ok rs e ↦
            let s : m.1.notif_handles
                ≡ for_each_handle deleted (λ h. remove_key (addr, h)) rs c.notif_handles =
              rw e at set in
            rw (e, s)
              (mem_key-for_each_handle deleted remove_key false addr k
                (λ j ks. mem_key-remove_key j k ks) rs c.notif_handles)
        | is_err x e ↦ let s : m.1.notif_handles ≡ c.notif_handles = rw e at set in rw (e, s) refl
        | is_panic e ↦ let s : m.1.notif_handles ≡ c.notif_handles = rw e at set in rw (e, s) refl
      ]
