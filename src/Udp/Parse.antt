-- ===== src/Udp/Parse.antt =====
-- udp.rs: what holds of every packet that the parser accepts, and a packet on which it panics.
use ads_rs.Prelude.{
  ℕ, zero, suc, ◌+◌, ◌-◌, ◌≤◌, ◌≡◌, refl, sym, ap, ◌∙◌, Option, none, some, List, [], ◌∷◌, ◌++◌,
  arith, append_assoc, le→leb, ◌==◌, length, length-append, take, drop, All, Bool-cases, inl, inr,
}
use ads_rs.Wire.{
  Bytes, ByteOrder, read_u16, read_uint-eq_ok, read_uint-bind_eq_ok, split_at, split_at-eq_ok,
}
use mathlib.Core.Path.{subst}
use ads_rs.Udp.Items.{read_items-next, read_items-end}
use ads_rs.Errors.{
  Result, ok, panic, ◌>>=◌, >>=-eq_ok, ok-injective, Result-cases, is_ok, is_err, is_panic,
}
use ads_rs.NetId.{read_from}
use ads_rs.NetId.Stream.{read_from-eq_ok}
use ads_rs.Udp.{
  Item, Message, Tag, tag_code, beckhoff_udp_magic, udp_context, slice, find_item, get_bytes,
  read_items, check_ids, check_header, parse_internal, map_item, map_tag, drop_terminator, get_str,
}
use ads_rs.Text.Utf8.{from_utf8}

-- The range of an item lies within a packet of `size` bytes.
abbrev pub InBounds : ℕ → List Item → Type 0
InBounds size = All (λ item. (item.first ≤ item.last) × (item.last ≤ size))

slice-ok :
    (i j : ℕ) (raw : Bytes)
    → i ≤ j
    → j ≤ length raw
    → slice i j raw ≡ ok (take (j - i) (drop i raw))
unfolding slice
slice-ok i j raw h k = rw (le→leb i j h, le→leb j (length raw) k)

-- The text of the bytes found: the last byte, the terminator, is dropped from them, and where there
-- is none the slice panics.
abbrev pub text_of : Option Bytes → Result (Option Bytes)
text_of none = ok none
text_of (some []) = panic
text_of (some (b ∷ bs)) = ok (from_utf8 (take (length bs) (b ∷ bs)))

text_of-some : (b : Bytes) → (drop_terminator b >>= λ text. ok (from_utf8 text)) ≡ text_of (some b)
unfolding drop_terminator
text_of-some [] = refl
text_of-some (b ∷ bs) = refl

map_item-text_of :
    (raw : Bytes) (i : Option Item) (o : Option Bytes)
    → map_item raw i (λ b. ok (some b)) ≡ ok o
    → map_item raw i (λ b. drop_terminator b >>= λ text. ok (from_utf8 text)) ≡ text_of o
unfolding drop_terminator
map_item-text_of raw none o h = let e : none ≡ o = cc in rw (sym e) refl
map_item-text_of raw (some item) o h = elim (Result-cases (slice item.first item.last raw)) [
  | is_ok b e ↦
      let found : some b ≡ o = ok-injective (rw e at h) in rw e (text_of-some b ∙ ap text_of found)
  | is_err x e ↦ let k = rw e at h in cc
  | is_panic e ↦ let k = rw e at h in cc
]

get_str-text_of :
    (m : Message) (t : Tag) (o : Option Bytes) → get_bytes m t ≡ ok o → get_str m t ≡ text_of o
unfolding get_bytes get_str map_tag
get_str-text_of m t o h = map_item-text_of m.raw (find_item (tag_code t) m.items) o h

get_bytes-InBounds :
    (raw : Bytes) (items : List Item) (t : Tag)
    → InBounds (length raw) items
    → (o : Option Bytes) × (get_bytes (record { items = items; raw = raw }) t ≡ ok o)
unfolding get_bytes find_item
get_bytes-InBounds raw [] t h = (none, refl)
get_bytes-InBounds raw (item ∷ items) t h = elim (Bool-cases (item.tag == tag_code t)) [
  | inl same ↦ (
    some (take (item.last - item.first) (drop item.first raw)),
    ground (arith, slice-ok item.first item.last raw),
  )
  | inr other ↦ let (o, e) = get_bytes-InBounds raw items t h.1 in (o, ground arith)
]

check_ids-eq_ok :
    (magic invoke_id rep_service service : ℕ) {u : Unit {0}}
    → check_ids magic invoke_id rep_service service ≡ ok u
    → (magic ≡ beckhoff_udp_magic) × (invoke_id ≡ 0) × (rep_service ≡ service)
unfolding check_ids
check_ids-eq_ok magic invoke_id rep_service service h = ground arith

module _ ⦃bo : ByteOrder⦄ where
  -- A packet starts with the magic number, a zero invoke ID and the service; the first item's tag
  -- is behind 24 bytes.
  pub record HasHeader (raw : Bytes) (service : ℕ) (tail : Bytes) : Type 0 where
    pub magic : Bytes
    pub invoke_id : Bytes
    pub code : Bytes
    pub others : Bytes
    pub split : raw ≡ magic ++ (invoke_id ++ (code ++ (others ++ tail)))
    pub sizes :
        (length magic ≡ 4) × (length invoke_id ≡ 4) × (length code ≡ 4) × (length others ≡ 12)
    pub magic_value : bo.read_int magic ≡ beckhoff_udp_magic
    pub invoke_id_value : bo.read_int invoke_id ≡ 0
    pub service_value : bo.read_int code ≡ service

  check_header-HasHeader :
      (raw : Bytes) (service : ℕ) {tail : Bytes}
      → check_header raw service ≡ ok tail
      → HasHeader raw service tail
  unfolding check_header
  check_header-HasHeader raw service {tail} h =
      let (magic, p, e, l, k) = read_uint-bind_eq_ok 4 udp_context raw _ h in
      let (invoke_id, p', e', l', k') = read_uint-bind_eq_ok 4 udp_context p _ k in
      let (code, q, e'', l'', k'') = read_uint-bind_eq_ok 4 udp_context p' _ k' in
      let (u, c, r) =
        >>=-eq_ok (check_ids (bo.read_int magic) (bo.read_int invoke_id) (bo.read_int code) service)
          _ k'' in
      let (m, i, s) = check_ids-eq_ok _ _ _ _ c in
      let ((src, q'), a, b) = >>=-eq_ok (read_from udp_context q) _ r in
      let (address, c', d) = read_from-eq_ok udp_context q a in
      let (nitems, rest, f, g, w) = read_uint-bind_eq_ok 4 udp_context q' _ b in
      let same : rest ≡ tail = ok-injective w in
      record {
        magic = magic;
        invoke_id = invoke_id;
        code = code;
        others = address ++ nitems;
        split =
            e
            ∙ ap (λ t. magic ++ t)
                (e'
                  ∙ ap (λ t. invoke_id ++ t)
                      (e''
                        ∙ ap (λ t. code ++ t)
                            (c'
                              ∙ ap (λ t. address ++ t) (f ∙ ap (λ t. nitems ++ t) same)
                              ∙ sym (append_assoc address nitems tail))));
        sizes = (l, l', l'', omega (arith, length-append {0} address nitems));
        magic_value = m;
        invoke_id_value = i;
        service_value = s;
      }

  HasHeader-length :
      (raw : Bytes) (service : ℕ) (tail : Bytes)
      → HasHeader raw service tail
      → length raw ≡ 24 + length tail
  HasHeader-length raw service tail h =
      ap length h.split
      ∙ omega (
        arith,
        h.sizes,
        length-append {0} h.magic (h.invoke_id ++ (h.code ++ (h.others ++ tail))),
        length-append {0} h.invoke_id (h.code ++ (h.others ++ tail)),
        length-append {0} h.code (h.others ++ tail),
        length-append {0} h.others tail,
      )

  read_items-panic :
      (fuel pos : ℕ) (ptr : Bytes)
      → read_u16 udp_context ptr ≡ panic
      → read_items (suc fuel) pos ptr ≡ panic
  unfolding read_items
  read_items-panic fuel pos ptr h = rw (h, read_items)

  -- An item ends at the latest where the slice does.
  read_items-InBounds :
      (fuel pos size : ℕ) (ptr : Bytes) {items : List Item}
      → pos + length ptr ≡ size + 4
      → read_items fuel pos ptr ≡ ok items
      → InBounds size items
  read_items-InBounds zero pos size ptr e h = unfold read_items in cc
  read_items-InBounds (suc fuel) pos size ptr {items} e h =
      elim (Result-cases (read_u16 udp_context ptr)) [
        | is_err x c ↦
            let k : ok [] ≡ ok items = sym (read_items-end fuel pos ptr x c) ∙ h in
            subst (InBounds size) (ok-injective k) tt
        | is_panic c ↦
            let k : ◌≡◌ {A = Result (List Item)} panic (ok items) =
              sym (read_items-panic fuel pos ptr c) ∙ h in
            absurd (cc)
        | is_ok (tag, p) c ↦
            let k = sym (read_items-next fuel pos tag ptr p c) ∙ h in
            let (raw, d, l, v) = read_uint-eq_ok 2 udp_context ptr c in
            let (len, q, d', l', k') = read_uint-bind_eq_ok 2 udp_context p _ k in
            let ((content, r), a, k'') = >>=-eq_ok (split_at (bo.read_int len) q) _ k' in
            let (d'', l'') = split_at-eq_ok (bo.read_int len) q a in
            let (rest, b, w) = >>=-eq_ok (read_items fuel (pos + (bo.read_int len + 4)) r) _ k'' in
            let sizes : length ptr ≡ 2 + (2 + (bo.read_int len + length r)) =
              ap length (d ∙ ap (λ t. raw ++ t) (d' ∙ ap (λ t. len ++ t) d''))
              ∙ omega (
                arith,
                length-append {0} raw (len ++ (content ++ r)),
                length-append {0} len (content ++ r),
                length-append {0} content r,
              ) in
            subst (InBounds size) (ok-injective w) (
              (omega arith, omega arith),
              read_items-InBounds fuel (pos + (bo.read_int len + 4)) size r (omega arith) b,
            )
      ]

  -- A packet that the parser accepts is kept, and begins with the magic number, a zero invoke ID
  -- and the expected service, in 24 bytes of header. The range of every item lies in the packet: for
  -- any tag `get_bytes` finds nothing or bytes and does not panic, and `get_str` makes a text of these
  -- bytes but the last, or nothing if that is no UTF-8, and panics exactly if they are none.
  pub parse_internal-safe :
      (raw : Bytes) (service : ℕ) {m : Message}
      → parse_internal raw service ≡ ok m
      → (m.raw ≡ raw)
        × ((tail : Bytes) × HasHeader raw service tail)
        × ((t : Tag) → (o : Option Bytes) × (get_bytes m t ≡ ok o) × (get_str m t ≡ text_of o))
  unfolding parse_internal
  parse_internal-safe raw service {m} h =
      let (tail, c, k) = >>=-eq_ok (check_header raw service) _ h in
      let (items, r, k') = >>=-eq_ok (read_items (length tail + 1) 28 tail) _ k in
      let same : record { items = items; raw = raw } ≡ m = ok-injective k' in
      let header = check_header-HasHeader raw service c in
      let inside =
        read_items-InBounds (length tail + 1) 28 (length raw) tail
          (omega (arith, HasHeader-length raw service tail header)) r in
      (
        ap (λ x. x.raw) (sym same),
        (tail, header),
        λ t.
            let (o, e) =
              subst (λ x. (o : Option Bytes) × (get_bytes x t ≡ ok o)) same
                (get_bytes-InBounds raw items t inside) in
            (o, e, get_str-text_of m t o e),
      )
