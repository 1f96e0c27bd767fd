-- ===== src/Udp/Query/Packet.antt =====
-- udp.rs: the packet that `add_route` sends.
use ads_rs.Prelude.{
  ℕ, ◌+◌, ◌%◌, ◌^◌, ◌≡◌, refl, ap, ◌∙◌, Bool, true, false, none, some, List, [], ◌∷◌, ◌++◌, arith,
  if◌then◌else◌, length, length-append, Bool-cases, inl, inr,
}
use ads_rs.Wire.{Bytes, ByteOrder, write_u32}
use ads_rs.Errors.{ok}
use ads_rs.NetId.{IsAddr, IsNetId}
use ads_rs.Client.State.{codes}
use ads_rs.Udp.{Message, Tag, tag_code, new, add, add_bytes, add_str, add_u32, get_bytes, parse}
use ads_rs.Udp
use ads_rs.Udp.Builder.{Entry, Fits, find_content, add_all}
use ads_rs.Udp.RoundTrip.{parse-add_all}
use ads_rs.Udp.Query.{Route, route_message, or_text}

terminated : Bytes → Bytes
terminated text = text ++ (0 ∷ [])

-- The entries that stand for the arguments of `add_route`.
abbrev pub route_entries : Route → Bytes → List Entry
route_entries r option =
    (Tag.net_id, r.netid.octets)
    ∷ (Tag.computer_name, r.host ++ (0 ∷ []))
    ∷ (Tag.user_name, or_text r.username (codes "Administrator") ++ (0 ∷ []))
    ∷ (Tag.password, or_text r.password (codes "1") ++ (0 ∷ []))
    ∷ (Tag.route_name, or_text r.routename r.host ++ (0 ∷ []))
    ∷ (if r.temporary then (Tag.options, option) ∷ [] else [])

options_found :
    (t : Bool) (option : Bytes)
    → find_content (tag_code Tag.options) (if t then (Tag.options, option) ∷ [] else [])
      ≡ (if t then some option else none)
unfolding find_content
options_found true option = refl
options_found false option = refl

module _ ⦃bo : ByteOrder⦄ where
  add_str-add_bytes :
      (m : Message) (t : Tag) (text : Bytes) → add_str m t text ≡ add_bytes m t (text ++ (0 ∷ []))
  unfolding add_str add_bytes
  add_str-add_bytes m t text =
      let len : (length text % 2 ^ 16 + 1) % 2 ^ 16 ≡ length (text ++ (0 ∷ [])) % 2 ^ 16 =
        omega (arith, length-append {0} text (0 ∷ [])) in
      ap (λ n. add m t n (text ++ (0 ∷ []))) len

  add_u32-add_bytes : (m : Message) (t : Tag) (v : ℕ) → add_u32 m t v ≡ add_bytes m t (write_u32 v)
  unfolding add_u32 add_bytes
  add_u32-add_bytes m t v =
      let len : 4 ≡ length (write_u32 v) % 2 ^ 16 = omega (arith, bo.length-write_int 4 v) in
      ap (λ n. add m t n (write_u32 v)) len

  route_message-add_all :
      (r : Route)
      → route_message r
        ≡ add_all
            (new Udp.add_route (record { netid = r.netid; port = 0 }))
            (route_entries r (write_u32 1))
  unfolding route_message add_all
  route_message-add_all r = elim (Bool-cases r.temporary) [
    | inl e ↦ rw e (simp (add_str-add_bytes, add_u32-add_bytes) refl)
    | inr e ↦ rw e (simp add_str-add_bytes refl)
  ]

  -- The packet of `add_route`, for a NetID of six bytes and texts that fit their 16-bit lengths with
  -- the zero behind them, is accepted by the parser as a request to add a route. In it are, under
  -- their tags, the NetID, the host, the user name and the password, or what stands for them if none
  -- are given, and the name of the route, which is the host if none is given, each text with a zero
  -- behind it; and the option 1 exactly if the route is temporary.
  pub parse-route_message :
      (r : Route)
      → IsNetId r.netid
      → Fits (route_entries r (write_u32 1))
      → (m : Message) × (parse (route_message r).raw Udp.add_route false ≡ ok m)
        × (get_bytes m Tag.net_id ≡ ok (some r.netid.octets))
        × (get_bytes m Tag.computer_name ≡ ok (some (r.host ++ (0 ∷ []))))
        × (get_bytes m Tag.user_name
            ≡ ok (some (or_text r.username (codes "Administrator") ++ (0 ∷ []))))
        × (get_bytes m Tag.password ≡ ok (some (or_text r.password (codes "1") ++ (0 ∷ []))))
        × (get_bytes m Tag.route_name ≡ ok (some (or_text r.routename r.host ++ (0 ∷ []))))
        × (get_bytes m Tag.options ≡ ok (if r.temporary then some (write_u32 1) else none))
  unfolding find_content
  parse-route_message r six fits =
      let source : IsAddr (record { netid = r.netid; port = 0 }) = record {
        netid = six;
        port = omega arith;
      } in
      let (m, accepted, found) =
        parse-add_all Udp.add_route _ source (route_entries r (write_u32 1)) fits in
      (
        m,
        rw (route_message-add_all r) accepted,
        found Tag.net_id,
        found Tag.computer_name,
        found Tag.user_name,
        found Tag.password,
        found Tag.route_name,
        found Tag.options ∙ ap (λ o. ok o) (options_found r.temporary (write_u32 1)),
      )
