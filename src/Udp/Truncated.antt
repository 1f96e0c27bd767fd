-- ===== src/Udp/Truncated.antt =====
-- udp.rs: a packet whose last item is cut off makes the parser panic, where it could fail.
use ads_rs.Prelude.{
  ℕ, zero, suc, ◌+◌, ◌^◌, ◌<◌, ◌≡◌, refl, ◌∙◌, List, [], ◌∷◌, ◌++◌, append_assoc, arith, length,
  length-append,
}
use ads_rs.Wire.{Bytes, ByteOrder, write_u16, read_uint-write_int, split_at-append, split_at-short}
use ads_rs.Errors.{panic}
use ads_rs.NetId.{AmsAddr, IsAddr}
use ads_rs.Udp.{ServiceId, service_code, udp_context, header, tag_code, read_items, parse_internal}
use ads_rs.Udp.Builder.{
  Entry, Fits, encode, encode-cons, tag_code-lt, check_header-header, service_code-lt,
}
use ads_rs.Udp.Items.{read_items-next, length-encode}

module _ ⦃bo : ByteOrder⦄ (tag len : ℕ) (short : Bytes) (tag_fits : tag < 2 ^ 16)
    (len_fits : len < 2 ^ 16) (cut : length short < len) where
  -- An item with fewer bytes than its length says.
  abbrev pub cut_item : Bytes
  cut_item = write_u16 tag ++ (write_u16 len ++ short)

  read_items-cut :
      (es : List Entry) (fuel pos : ℕ)
      → Fits es
      → length es < fuel
      → read_items fuel pos (encode es ++ cut_item) ≡ panic
  read_items-cut es zero pos fits h = absurd (omega arith)
  read_items-cut [] (suc fuel) pos fits h =
      unfold encode in
      read_items-next fuel pos tag cut_item (write_u16 len ++ short)
        (read_uint-write_int 2 udp_context tag (write_u16 len ++ short) tag_fits)
      ∙ rw (read_uint-write_int 2 udp_context len short len_fits, split_at-short len short cut)
  read_items-cut ((t, content) ∷ es) (suc fuel) pos fits h =
      rw (encode-cons, append_assoc, append_assoc, append_assoc)
        (read_items-next fuel pos (tag_code t) _ _
            (read_uint-write_int 2 udp_context (tag_code t) _ (tag_code-lt t))
          ∙ rw (
            read_uint-write_int 2 udp_context (length content) (content ++ (encode es ++ cut_item))
                fits.0,
            split_at-append (length content) content (encode es ++ cut_item) refl,
            read_items-cut es fuel (pos + (length content + 4)) fits.1 (omega arith),
          ))

  -- A packet with a valid header, items that fit, and then an item with fewer bytes than its length
  -- says, makes the parser panic.
  pub parse_internal-cut :
      (service : ServiceId) (source : AmsAddr) (n : ℕ) (es : List Entry)
      → IsAddr source
      → n < 2 ^ 32
      → Fits es
      → parse_internal
          (header (service_code service) source n ++ (encode es ++ cut_item))
          (service_code service)
        ≡ panic
  unfolding parse_internal
  parse_internal-cut service source n es valid h fits = rw (
    check_header-header (service_code service) source valid n (encode es ++ cut_item)
        (service_code-lt service) h,
    read_items-cut es (length (encode es ++ cut_item) + 1) 28 fits
        (omega (arith, length-encode es, length-append {0} (encode es) cut_item)),
  )
