-- ===== src/Symbol/Access/Answers.antt =====
-- symbol.rs: the queries for symbols and types, when the device answers them.
use ads_rs.Prelude.{
  ℕ, ◌+◌, ◌%◌, ◌^◌, ◌<◌, ◌≤◌, ◌≡◌, refl, sym, ap, ◌∙◌, List, ◌∷◌, ◌++◌, arith, le→leb, min, length,
  length-append, take, take-append, take-all, drop, drop-append, drop-drop, replicate,
  length-replicate,
}
use mathlib.Core.Path.{subst}
use ads_rs.Wire.{Bytes, ByteOrder, write_u32}
use ads_rs.Errors.{ok}
use ads_rs.NetId.{AmsAddr}
use ads_rs.Index.{get_typeinfo_byname_ex, sym_dt_upload, sym_upload, sym_upload_info2}
use ads_rs.Client.Command
use ads_rs.Client.Header.{AdsHeader}
use ads_rs.Client.Action.{Arrival, Client, received}
use ads_rs.Client.Exchange.Response.{IsAnswer}
use ads_rs.Client.Device.{read_exact}
use ads_rs.Client.Device.Sequence.{read_exact-whole, write_read-received}
use ads_rs.Symbol.Cursor.Reads.{entry_bytes}
use ads_rs.Symbol.Types.Valid.{IsType}
use ads_rs.Symbol.Types.Layout.{TypeLayout, type_entry, type_of_layout}
use ads_rs.Symbol.Types.RoundTrip.{decode_type-layout}
use ads_rs.Symbol.Table.{decode_symbol_info}
use ads_rs.Symbol.Access.{get_symbol_info, get_type_info_by_name, type_in_response}

module _ ⦃bo : ByteOrder⦄ where
  -- The response to a read or a write and read, with the data behind its length.
  abbrev pub response : Bytes → Bytes
  response content = write_u32 0 ++ (write_u32 (length content) ++ content)

  length-entry : (content : Bytes) → length (entry_bytes content) ≡ 4 + length content
  unfolding entry_bytes
  length-entry content = omega (
    arith,
    length-append {0} (write_u32 (4 + length content)) content,
    bo.length-write_int 4 (4 + length content),
  )

  announced-entry :
      (content : Bytes)
      → 4 + length content < 2 ^ 32
      → bo.read_int (take 4 (entry_bytes content)) ≡ length (entry_bytes content)
  announced-entry content fits = rw (length-entry content) (
      unfold entry_bytes in
      rw
        (
          take-append 4 (write_u32 (4 + length content)) content
              (bo.length-write_int 4 (4 + length content)),
          bo.read_int-write_int 4 (4 + length content) fits,
        )
        refl)

  body-entry : (content : Bytes) → drop 4 (entry_bytes content) ≡ content
  unfolding entry_bytes
  body-entry content =
      drop-append 4 (write_u32 (4 + length content)) content
        (bo.length-write_int 4 (4 + length content))

  module _ (before between after symbol_data type_data : Bytes) where
    -- The sizes of both tables among what is 64 bytes long.
    abbrev pub info : Bytes
    info =
        before
        ++ (write_u32 (length symbol_data) ++ (between ++ (write_u32 (length type_data) ++ after)))

    length-info : length before ≡ 4 → length between ≡ 4 → length after ≡ 48 → length info ≡ 64
    length-info b m e = simp (length-append, bo.length-write_int) (omega (arith, b, m, e))

    sizes_of_info :
        length before ≡ 4
        → length between ≡ 4
        → length symbol_data < 2 ^ 32
        → length type_data < 2 ^ 32
        → (bo.read_int (take 4 (drop 4 info)) ≡ length symbol_data)
          × (bo.read_int (take 4 (drop 12 info)) ≡ length type_data)
    sizes_of_info b m s t =
        let first = write_u32 (length symbol_data) in
        let second = write_u32 (length type_data) in
        let tail = between ++ (second ++ after) in
        let at_first : drop 4 info ≡ first ++ tail = drop-append 4 before (first ++ tail) b in
        let at_tail : drop 4 (first ++ tail) ≡ tail =
          drop-append 4 first tail (bo.length-write_int 4 (length symbol_data)) in
        let at_second : drop 12 info ≡ second ++ after =
          sym (drop-drop 4 8 info)
          ∙ ap (drop 8) at_first
          ∙ sym (drop-drop 4 4 (first ++ tail))
          ∙ ap (drop 4) at_tail
          ∙ drop-append 4 between (second ++ after) m in
        (
          rw
              (
                at_first,
                take-append 4 first tail (bo.length-write_int 4 (length symbol_data)),
                bo.read_int-write_int 4 (length symbol_data) s,
              )
              refl,
          rw
              (
                at_second,
                take-append 4 second after (bo.length-write_int 4 (length type_data)),
                bo.read_int-write_int 4 (length type_data) t,
              )
              refl,
        )

    -- If a device answers the three reads without an error, the first by 64 bytes that hold the
    -- 32-bit sizes of the tables of symbols and types, and the others by tables of these sizes,
    -- `get_symbol_info` returns what the tables are decoded to, errors included.
    pub get_symbol_info-answered :
        (addr : AmsAddr) (c : Client) {h h' h'' : AdsHeader} {later : List Arrival}
        → c.arrivals
          ≡ received h (response info)
            ∷ received h' (response type_data)
            ∷ received h'' (response symbol_data)
            ∷ later
        → IsAnswer Command.read addr c.invoke_id h
        → IsAnswer Command.read addr ((c.invoke_id + 1) % 2 ^ 32) h'
        → IsAnswer Command.read addr ((c.invoke_id + 2) % 2 ^ 32) h''
        → length before ≡ 4
        → length between ≡ 4
        → length after ≡ 48
        → length symbol_data < 2 ^ 32
        → length type_data < 2 ^ 32
        → (get_symbol_info addr c).0 ≡ decode_symbol_info symbol_data type_data
    unfolding get_symbol_info
    get_symbol_info-answered addr c {h} {h'} {h''} arrivals a a' a'' b m e s t =
        let n = length symbol_data in
        let k = length type_data in
        let (symbols_at, types_at) = sizes_of_info b m s t in
        let (r, left) =
          read_exact-whole addr sym_upload_info2 0 c (replicate 64 0) info arrivals (omega arith)
            (length-info b m e) a in
        let c' = (read_exact addr sym_upload_info2 0 (replicate 64 0) c).1 in
        let (r', left') =
          read_exact-whole addr sym_dt_upload 0 c' (replicate k 0) type_data left.arrivals
            (omega (arith, length-replicate {A = ℕ} k 0)) (sym (length-replicate k 0))
            (subst (λ i. IsAnswer Command.read addr i h') (sym left.invoke_id) a') in
        let c'' = (read_exact addr sym_dt_upload 0 (replicate k 0) c').1 in
        let third : c''.invoke_id ≡ (c.invoke_id + 2) % 2 ^ 32 =
          omega (arith, left.invoke_id, left'.invoke_id) in
        let (r'', _) =
          read_exact-whole addr sym_upload 0 c'' (replicate n 0) symbol_data left'.arrivals
            (omega (arith, length-replicate {A = ℕ} n 0)) (sym (length-replicate n 0))
            (subst (λ i. IsAnswer Command.read addr i h'') (sym third) a'') in
        rw (r, types_at, symbols_at, r', r'') refl

  -- If the length of the query for a type fits 32 bits, and a device answers it without an error, by
  -- the layout of a valid type that is at most 4096 bytes long with its length, then
  -- `get_type_info_by_name` returns the type.
  pub get_type_info_by_name-answered :
      (addr : AmsAddr) (type_name : Bytes) (t : TypeLayout) (c : Client) {h : AdsHeader}
      {later : List Arrival}
      → IsType t
      → c.arrivals ≡ received h (response (entry_bytes (type_entry t))) ∷ later
      → IsAnswer Command.read_write addr c.invoke_id h
      → length (entry_bytes (type_entry t)) ≤ 4096
      → 48 + length type_name < 2 ^ 32
      → (get_type_info_by_name addr type_name c).0 ≡ ok (type_of_layout t)
  unfolding get_type_info_by_name type_in_response
  get_type_info_by_name-answered addr type_name t c {h} {later} valid arrivals a short fits =
      let d = entry_bytes (type_entry t) in
      let entry = type_entry t in
      let (r, _) =
        write_read-received addr get_typeinfo_byname_ex 0 type_name (replicate 4096 0) d c
          (length d) arrivals (omega arith) (omega arith) fits short a in
      let size : length d ≡ 4 + length entry = length-entry entry in
      let cut : take (length d) (d ++ drop (length d) (replicate 4096 0)) ≡ d =
        take-append (length d) d _ refl in
      let announced : bo.read_int (take 4 d) ≡ length d = announced-entry entry valid.entry_fits in
      let least : min (length d) (length d) ≡ length d = omega arith in
      let body : drop 4 d ≡ entry = body-entry entry in
      rw
        (
          r,
          le→leb (length d) 4096 short,
          cut,
          le→leb 4 (length d) (omega (arith, size)),
          announced,
          least,
          le→leb 4 (length d) (omega (arith, size)),
          take-all (length d) d (omega arith),
          body,
          decode_type-layout t valid,
        )
        refl
