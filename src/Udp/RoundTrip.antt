-- ===== src/Udp/RoundTrip.antt =====
-- udp.rs: a message that is built and sent is parsed, and its contents are found by tag.
use ads_rs.Prelude.{
  ℕ, ◌+◌, ◌%◌, ◌^◌, ◌<◌, ◌≡◌, refl, sym, ap, ◌∙◌, false, some, List, [], ◌∷◌, ◌++◌, arith,
  append-nil, append_assoc, ==-self, if◌then◌else◌, length, length-append,
}
use Prim.Native.Nat.{bit_or}
use ads_rs.Wire.{Bytes, ByteOrder, write_u16, write_u32}
use ads_rs.Errors.{ok}
use ads_rs.NetId.{AmsAddr, IsAddr}
use ads_rs.Udp.{
  Item, Message, ServiceId, service_code, Tag, tag_code, reply_bit, get_bytes, header, new, put_u32,
  add_bytes, parse_internal, parse,
}
use ads_rs.Udp.Builder.{
  Entry, Fits, find_content, add_all, encode, address_part, header-eq, length-address_part,
  raw-add_all, raw-put_u32, check_header-header, service_code-lt,
}
use ads_rs.Udp.Items.{
  positions, read_items-encode, length-encode, get_bytes-positions, get_bytes-found, slice-append,
}

request_code :
    (s : ServiceId) → bit_or (service_code s) (if false then reply_bit else 0) ≡ service_code s
request_code ServiceId.identify = refl
request_code ServiceId.add_route = refl

regroup : (h t l c : Bytes) → h ++ ([] ++ (t ++ (l ++ c))) ≡ (h ++ t) ++ ((l ++ c) ++ [])
regroup h t l c = simp (append_assoc, append-nil)

module _ ⦃bo : ByteOrder⦄ (service : ServiceId) (source : AmsAddr) (valid : IsAddr source) where
  length-header : (n : ℕ) → length (header (service_code service) source n) ≡ 24
  length-header n = rw header-eq (
      omega (
        arith,
        length-append {0} (address_part (service_code service) source) (write_u32 n),
        length-address_part (service_code service) source valid,
        bo.length-write_int 4 n,
      ))

  parse_internal-encode :
      (es : List Entry) (n : ℕ)
      → Fits es
      → n < 2 ^ 32
      → parse_internal (header (service_code service) source n ++ encode es) (service_code service)
        ≡ ok (record {
          items = positions 28 es;
          raw = header (service_code service) source n ++ encode es;
        })
  unfolding parse_internal
  parse_internal-encode es n fits h = rw (
    check_header-header (service_code service) source valid n (encode es) (service_code-lt service)
        h,
    read_items-encode es (length (encode es) + 1) 28 fits (omega (arith, length-encode es)),
  )

  -- A message is built from a service, a valid source address and entries, each with a content that
  -- fits a 16-bit length. The parser accepts its packet as a request for that service, and finds
  -- under each tag the content of the first entry with that tag, or nothing if no entry has it.
  pub parse-add_all :
      (es : List Entry)
      → Fits es
      → (m : Message) × (parse (add_all (new service source) es).raw service false ≡ ok m)
        × ((t : Tag) → get_bytes m t ≡ ok (find_content (tag_code t) es))
  unfolding parse new
  parse-add_all es fits =
      let built = add_all (new service source) es in
      let n : ℕ = length built.items % 2 ^ 32 in
      let wire : built.raw ≡ header (service_code service) source n ++ encode es =
        raw-add_all (service_code service) source valid es (new service source) [] fits
          (sym (append-nil (header (service_code service) source 0))) in
      (
        record {
          items = positions 28 es;
          raw = header (service_code service) source n ++ encode es;
        },
        rw (request_code, wire) (parse_internal-encode es n fits (omega arith)),
        λ t.
            get_bytes-positions es t 28 (header (service_code service) source n)
              (omega (arith, length-header n)),
      )

  -- The first entry that is added.
  first_item : Tag → Bytes → Item
  first_item t content = record { tag = tag_code t; first = 26; last = 28 + length content }

  first_packet : Tag → Bytes → Bytes
  first_packet t content =
      (header (service_code service) source 1 ++ write_u16 (tag_code t))
      ++ ((write_u16 (length content % 2 ^ 16) ++ content) ++ [])

  add_bytes-new :
      (t : Tag) (content : Bytes)
      → add_bytes (new service source) t content
        ≡ record { items = first_item t content ∷ []; raw = first_packet t content }
  unfolding add_bytes new first_item first_packet
  add_bytes-new t content =
      let code = service_code service in
      let tag : Bytes = write_u16 (tag_code t) in
      let len : Bytes = write_u16 (length content % 2 ^ 16) in
      let start : length (header code source 0 ++ tag) ≡ 26 = omega (
        arith,
        length-append {0} (header code source 0) tag,
        length-header 0,
        bo.length-write_int 2 (tag_code t),
      ) in
      let stop : length ((header code source 0 ++ tag) ++ (len ++ content)) ≡ 28 + length content =
        omega (
          arith,
          start,
          length-append {0} (header code source 0 ++ tag) (len ++ content),
          length-append {0} len content,
          bo.length-write_int 2 (length content % 2 ^ 16),
        ) in
      let wire : put_u32 20 1 ((header code source 0 ++ tag) ++ (len ++ content))
          ≡ (header code source 1 ++ tag) ++ ((len ++ content) ++ []) =
        ap (λ h. put_u32 20 1 ((h ++ tag) ++ (len ++ content)))
          (sym (append-nil (header code source 0)))
        ∙ raw-put_u32 code source valid 0 1 [] tag len content
        ∙ regroup (header code source 1) tag len content in
      λ i. record {
        items = record { tag = tag_code t; first = start i; last = stop i } ∷ [];
        raw = wire i;
      }

  -- On the side that builds it, the first entry that is added is not found as it was given: what
  -- `get_bytes` returns begins with the two bytes of the length.
  pub get_bytes-add_bytes :
      (t : Tag) (content : Bytes)
      → get_bytes (add_bytes (new service source) t content) t
        ≡ ok (some (write_u16 (length content % 2 ^ 16) ++ content))
  get_bytes-add_bytes t content =
      let len : Bytes = write_u16 (length content % 2 ^ 16) in
      let stop : 26 + length (len ++ content) ≡ 28 + length content =
        omega
          (arith, length-append {0} len content, bo.length-write_int 2 (length content % 2 ^ 16)) in
      rw add_bytes-new (
        unfold first_item first_packet in
        get_bytes-found (first_item t content) [] (first_packet t content) t (len ++ content)
          (==-self (tag_code t))
          (rw (sym stop) (
            slice-append 26 (header (service_code service) source 1 ++ write_u16 (tag_code t))
              (len ++ content) []
              (omega (
                arith,
                length-append {0} (header (service_code service) source 1) (write_u16 (tag_code t)),
                length-header 1,
                bo.length-write_int 2 (tag_code t),
              )))))
