-- ===== src/Udp/Items.antt =====
-- udp.rs: the parser's loop over the items of a built message, and the lookup by tag.
use ads_rs.Prelude.{
  ℕ, zero, suc, ◌+◌, ◌-◌, ◌≤◌, ◌<◌, ◌≡◌, refl, sym, ◌∙◌, true, false, some, List, [], ◌∷◌, ◌++◌,
  arith, append_assoc, le→leb, ◌==◌, if◌then◌else◌, length, length-append, take-append, drop-append,
  Bool-cases, inl, inr,
}
use ads_rs.Wire.{
  Bytes, ByteOrder, read_uint-write_int, read_u16, write_u16, split_at, split_at-append,
  read_uint-short,
}
use ads_rs.Errors.{Error, ok, err, ◌>>=◌}
use ads_rs.Udp.{Item, Tag, tag_code, udp_context, slice, find_item, get_bytes, read_items}
use ads_rs.Udp.Builder.{Entry, Fits, find_content, tag_code-lt, encode, encode-cons}

-- The items that the parser finds for entries that begin at `pos`.
unfoldable pub positions : ℕ → List Entry → List Item
positions pos [] = []
positions pos ((t, content) ∷ es) =
    record { tag = tag_code t; first = pos; last = pos + length content }
    ∷ positions (pos + (length content + 4)) es

module _ ⦃bo : ByteOrder⦄ where
  pub read_items-end :
      (fuel pos : ℕ) (ptr : Bytes) (e : Error)
      → read_u16 udp_context ptr ≡ err e
      → read_items (suc fuel) pos ptr ≡ ok []
  unfolding read_items
  read_items-end fuel pos ptr e h = rw (h, read_items)

  -- One round of the parser's loop.
  pub read_items-next :
      (fuel pos tag : ℕ) (ptr rest : Bytes)
      → read_u16 udp_context ptr ≡ ok (tag, rest)
      → read_items (suc fuel) pos ptr ≡ (do
        (len, ptr) ← read_u16 udp_context rest
        (_content, ptr) ← split_at len ptr
        items ← read_items fuel (pos + (len + 4)) ptr
        ok (record { tag = tag; first = pos; last = pos + len } ∷ items))
  unfolding read_items
  read_items-next fuel pos tag ptr rest h = rw (h, read_items)

  pub read_items-encode :
      (es : List Entry) (fuel pos : ℕ)
      → Fits es
      → length es < fuel
      → read_items fuel pos (encode es) ≡ ok (positions pos es)
  unfolding positions
  read_items-encode es zero pos fits h = absurd (omega arith)
  read_items-encode [] (suc fuel) pos fits h =
      unfold encode in read_items-end fuel pos [] _ (read_uint-short 2 udp_context [] (omega arith))
  read_items-encode ((t, content) ∷ es) (suc fuel) pos fits h = rw encode-cons (
      read_items-next fuel pos (tag_code t) _ _
        (read_uint-write_int 2 udp_context (tag_code t) _ (tag_code-lt t))
      ∙ rw (
        read_uint-write_int 2 udp_context (length content) (content ++ encode es) fits.0,
        split_at-append (length content) content (encode es) refl,
        read_items-encode es fuel (pos + (length content + 4)) fits.1 (omega arith),
      ))

  pub slice-append :
      (i : ℕ) (pre content rest : Bytes)
      → length pre ≡ i
      → slice i (i + length content) (pre ++ (content ++ rest)) ≡ ok content
  unfolding slice
  slice-append i pre content rest h =
      let bound : i + length content ≤ length (pre ++ (content ++ rest)) =
        omega (arith, length-append {0} pre (content ++ rest), length-append {0} content rest) in
      let size : i + length content - i ≡ length content = omega arith in
      rw (
        le→leb i (i + length content) (omega arith),
        le→leb (i + length content) (length (pre ++ (content ++ rest))) bound,
        size,
        drop-append i pre (content ++ rest) h,
        take-append (length content) content rest refl,
      )

  pub get_bytes-found :
      (item : Item) (items : List Item) (raw : Bytes) (t : Tag) (content : Bytes)
      → (item.tag == tag_code t) ≡ true
      → slice item.first item.last raw ≡ ok content
      → get_bytes (record { items = item ∷ items; raw = raw }) t ≡ ok (some content)
  unfolding get_bytes find_item
  get_bytes-found item items raw t content h k = ground arith

  pub get_bytes-skip :
      (item : Item) (items : List Item) (raw : Bytes) (t : Tag)
      → (item.tag == tag_code t) ≡ false
      → get_bytes (record { items = item ∷ items; raw = raw }) t
        ≡ get_bytes (record { items = items; raw = raw }) t
  unfolding get_bytes find_item
  get_bytes-skip item items raw t h = ground arith

  pub find_content-cons :
      (u : Tag) (content : Bytes) (es : List Entry) (tag : ℕ)
      → find_content tag ((u, content) ∷ es)
        ≡ (if tag_code u == tag then some content else find_content tag es)
  unfolding find_content
  find_content-cons u content es tag = refl

  -- What `get_bytes` finds among the parsed items, for a packet that has the entries after `pre`.
  pub get_bytes-positions :
      (es : List Entry) (t : Tag) (pos : ℕ) (pre : Bytes)
      → length pre + 4 ≡ pos
      → get_bytes (record { items = positions pos es; raw = pre ++ encode es }) t
        ≡ ok (find_content (tag_code t) es)
  unfolding positions
  get_bytes-positions [] t pos pre h = unfold get_bytes find_item find_content in refl
  get_bytes-positions ((u, content) ∷ es) t pos pre h =
      let head : Bytes = write_u16 (tag_code u) ++ write_u16 (length content) in
      let size : length head ≡ 4 = omega (
        arith,
        length-append {0} (write_u16 (tag_code u)) (write_u16 (length content)),
        bo.length-write_int 2 (tag_code u),
        bo.length-write_int 2 (length content),
      ) in
      let regroup : pre ++ encode ((u, content) ∷ es) ≡ (pre ++ head) ++ (content ++ encode es) =
        rw encode-cons (simp append_assoc) in
      elim (Bool-cases (tag_code u == tag_code t)) [
        | inl same ↦
            rw (find_content-cons, same, regroup)
              (get_bytes-found _ (positions (pos + (length content + 4)) es) _ t content same (
                slice-append pos (pre ++ head) content (encode es)
                  (omega (arith, length-append {0} pre head))))
        | inr other ↦
            rw (find_content-cons, other, regroup)
              (get_bytes-skip _ (positions (pos + (length content + 4)) es) _ t other
                ∙ rw (sym (append_assoc (pre ++ head) content (encode es))) (
                    get_bytes-positions es t (pos + (length content + 4)) ((pre ++ head) ++ content)
                      (omega (
                        arith,
                        length-append {0} (pre ++ head) content,
                        length-append {0} pre head,
                      ))))
      ]

  pub length-encode : (es : List Entry) → length es ≤ length (encode es)
  length-encode [] = unfold encode in omega arith
  length-encode ((t, content) ∷ es) = rw encode-cons (
      omega (
        arith,
        length-append {0} (write_u16 (tag_code t))
            (write_u16 (length content) ++ (content ++ encode es)),
        length-append {0} (write_u16 (length content)) (content ++ encode es),
        length-append {0} content (encode es),
        bo.length-write_int 2 (tag_code t),
        length-encode es,
      ))
