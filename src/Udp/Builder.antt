-- ===== src/Udp/Builder.antt =====
-- udp.rs: what a built message looks like on the wire, and that its header is accepted.
use ads_rs.Prelude.{
  ℕ, ◌%◌, ◌^◌, ◌<◌, ◌≡◌, sym, ap, ◌∙◌, Option, none, some, List, [], ◌∷◌, ◌++◌, arith, append_assoc,
  append-nil, ◌==◌, ==-self, if◌then◌else◌, length, length-append, take-append, drop, drop-append,
  drop-drop, All,
}
use ads_rs.Wire.{Bytes, ByteOrder, read_uint-write_int, write_u16, write_u32}
use ads_rs.Errors.{ok}
use ads_rs.NetId.{AmsAddr, IsAddr, write_to}
use ads_rs.NetId.Stream.{read_from-write_to, length-write_to}
use ads_rs.Udp.{
  Message, ServiceId, service_code, Tag, tag_code, beckhoff_udp_magic, udp_context, header, put_u32,
  add_bytes, check_ids, check_header,
}

abbrev pub Entry : Type 0
Entry = Tag × Bytes

-- Every content fits its 16-bit length.
abbrev pub Fits : List Entry → Type 0
Fits = All (λ e. length e.1 < 2 ^ 16)

-- The content of the first entry with a tag.
unfoldable pub find_content : ℕ → List Entry → Option Bytes
find_content tag [] = none
find_content tag ((t, content) ∷ es) =
    if tag_code t == tag then some content else find_content tag es

pub tag_code-lt : (t : Tag) → tag_code t < 2 ^ 16
tag_code-lt Tag.status = omega arith
tag_code-lt _ = omega arith

pub service_code-lt : (s : ServiceId) → service_code s < 2 ^ 32
service_code-lt ServiceId.identify = omega arith
service_code-lt ServiceId.add_route = omega arith

module _ ⦃bo : ByteOrder⦄ where
  -- `add_bytes` for each entry in turn.
  unfoldable pub add_all : Message → List Entry → Message
  add_all m [] = m
  add_all m ((t, content) ∷ es) = add_all (add_bytes m t content) es

  unfoldable pub encode_entry : Entry → Bytes
  encode_entry (t, content) = write_u16 (tag_code t) ++ (write_u16 (length content) ++ content)

  unfoldable pub encode : List Entry → Bytes
  encode [] = []
  encode (e ∷ es) = encode_entry e ++ encode es

  -- The first twenty bytes of a header.
  unfoldable pub address_part : ℕ → AmsAddr → Bytes
  address_part service source =
      write_u32 beckhoff_udp_magic ++ (write_u32 0 ++ (write_u32 service ++ write_to source))

  pub header-eq :
      (service n : ℕ) (source : AmsAddr)
      → header service source n ≡ address_part service source ++ write_u32 n
  unfolding header address_part write_to
  header-eq service n source = simp (append_assoc, append-nil)

  pub length-address_part :
      (service : ℕ) (source : AmsAddr) → IsAddr source → length (address_part service source) ≡ 20
  unfolding address_part
  length-address_part service source h = omega (
    arith,
    length-append {0} (write_u32 beckhoff_udp_magic)
        (write_u32 0 ++ (write_u32 service ++ write_to source)),
    length-append {0} (write_u32 0) (write_u32 service ++ write_to source),
    length-append {0} (write_u32 service) (write_to source),
    length-write_to source h,
    bo.length-write_int 4 beckhoff_udp_magic,
    bo.length-write_int 4 0,
    bo.length-write_int 4 service,
  )

  pub put_u32-append :
      (pre old rest : Bytes) (v : ℕ)
      → length pre ≡ 20
      → length old ≡ 4
      → put_u32 20 v (pre ++ (old ++ rest)) ≡ pre ++ (write_u32 v ++ rest)
  unfolding put_u32
  put_u32-append pre old rest v lp lo =
      let tail : drop 24 (pre ++ (old ++ rest)) ≡ rest =
        sym (drop-drop 20 4 (pre ++ (old ++ rest)))
        ∙ ap (drop 4) (drop-append 20 pre (old ++ rest) lp)
        ∙ drop-append 4 old rest lo in
      rw (tail, take-append 20 pre (old ++ rest) lp)

  module _ (service : ℕ) (source : AmsAddr) (valid : IsAddr source) where
    pub raw-put_u32 :
        (n v : ℕ) (body a b c : Bytes)
        → put_u32 20 v (((header service source n ++ body) ++ a) ++ (b ++ c))
          ≡ header service source v ++ (body ++ (a ++ (b ++ c)))
    raw-put_u32 n v body a b c =
        simp (header-eq, append_assoc)
          (put_u32-append (address_part service source) (write_u32 n) (body ++ (a ++ (b ++ c))) v
            (length-address_part service source valid) (bo.length-write_int 4 n))

    pub raw-add_bytes :
        (m : Message) (body : Bytes) (e : Entry)
        → length e.1 < 2 ^ 16
        → m.raw ≡ header service source (length m.items % 2 ^ 32) ++ body
        → (add_bytes m e.0 e.1).raw
          ≡ header service source (length (add_bytes m e.0 e.1).items % 2 ^ 32)
            ++ (body ++ encode_entry e)
    unfolding add_bytes encode_entry
    raw-add_bytes m body (t, content) fits h =
        let exact : length content % 2 ^ 16 ≡ length content = omega arith in
        rw (exact, h)
          (raw-put_u32 (length m.items % 2 ^ 32) _ body (write_u16 (tag_code t))
            (write_u16 (length content)) content)

    pub raw-add_all :
        (es : List Entry) (m : Message) (body : Bytes)
        → Fits es
        → m.raw ≡ header service source (length m.items % 2 ^ 32) ++ body
        → (add_all m es).raw
          ≡ header service source (length (add_all m es).items % 2 ^ 32) ++ (body ++ encode es)
    unfolding add_all encode
    raw-add_all [] m body fits h = rw append-nil h
    raw-add_all (e ∷ es) m body fits h =
        raw-add_all es (add_bytes m e.0 e.1) (body ++ encode_entry e) fits.1
          (raw-add_bytes m body e fits.0 h)
        ∙ ap (λ t. header service source (length (add_all m (e ∷ es)).items % 2 ^ 32) ++ t)
            (append_assoc body (encode_entry e) (encode es))

    pub check_header-header :
        (n : ℕ) (rest : Bytes)
        → service < 2 ^ 32
        → n < 2 ^ 32
        → check_header (header service source n ++ rest) service ≡ ok rest
    unfolding check_header check_ids address_part
    check_header-header n rest h k =
        simp (header-eq, append_assoc)
          (rw (
            read_uint-write_int 4 udp_context beckhoff_udp_magic _ (omega arith),
            read_uint-write_int 4 udp_context 0 _ (omega arith),
            read_uint-write_int 4 udp_context service _ h,
            ==-self service,
            read_from-write_to udp_context source _ valid,
            read_uint-write_int 4 udp_context n rest k,
          ))

  pub encode-cons :
      (t : Tag) (content : Bytes) (es : List Entry)
      → encode ((t, content) ∷ es)
        ≡ write_u16 (tag_code t) ++ (write_u16 (length content) ++ (content ++ encode es))
  unfolding encode encode_entry
  encode-cons t content es = simp append_assoc
