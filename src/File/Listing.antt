-- ===== src/File/Listing.antt =====
-- file.rs: the listing of a directory that the device answers entry by entry.
use ads_rs.Prelude.{
  ℕ, zero, suc, ◌+◌, ◌%◌, ◌^◌, ◌<◌, ◌≤◌, ◌≡◌, refl, sym, ap, ◌∙◌, List, [], ◌∷◌, ◌++◌, append_assoc,
  append-nil, arith, lt→ltb, map, length, length-append, take, replicate, length-replicate,
}
use mathlib.Core.Path.{ap₂, subst}
use ads_rs.Wire.{Bytes, ByteOrder, write_u32, split_at-append}
use ads_rs.Errors.{ok, err, ads}
use ads_rs.Errors.Codes.{ads_error, binary_search_by_key, bisect, ads_errors}
use ads_rs.NetId.{AmsAddr}
use ads_rs.Index.{file_browse}
use ads_rs.Client.Command
use ads_rs.Client.Command.{action}
use ads_rs.Client.Header.{AdsHeader}
use ads_rs.Client.Structs.{IndexLengthRw, index_length_rw_bytes}
use ads_rs.Client.Action.{Arrival, Client, received, next_arrival, written}
use ads_rs.Client.Exchange.{accept, result_field, total_length}
use ads_rs.Client.Exchange.Response.{IsAnswer}
use ads_rs.Client.Device.{write_read, write_read_exact}
use ads_rs.Client.Device.Read.{communicate-received, check_response-answer}
use ads_rs.Client.Device.Complete.{length-index_length_rw_bytes}
use ads_rs.Client.Device.Sequence.{write_read_exact-whole}
use ads_rs.Client.Device.Sent.{write_read_packet, write_read_exact-Sent}
use ads_rs.File.{FileEntry, entry_of, list_from, listdir}

-- An answer with an entry.
pub record Found : Type 0 where
  pub header : AdsHeader
  pub entry : Bytes

-- The answers are to the requests from an invoke ID on, the last of which ends the listing.
abbrev pub AreAnswers : AmsAddr → ℕ → List Found → AdsHeader → Type 0
AreAnswers addr id [] last = IsAnswer Command.read_write addr id last
AreAnswers addr id (f ∷ fs) last =
    IsAnswer Command.read_write addr id f.header
    × (length f.entry ≡ 324)
    × AreAnswers addr ((id + 1) % 2 ^ 32) fs last

module _ ⦃bo : ByteOrder⦄ where
  -- The answers: each entry, and then the error of a file that is not found.
  abbrev pub answers : List Found → AdsHeader → Bytes → List Arrival → List Arrival
  answers [] last tail later = received last (write_u32 0x70C ++ tail) ∷ later
  answers (f ∷ fs) last tail later =
      received f.header (write_u32 0 ++ (write_u32 324 ++ f.entry)) ∷ answers fs last tail later

  -- The requests, the newest first: each asks for the entry behind the one before, by the number that
  -- came with it, and only the first one has an argument.
  abbrev pub browse_packets :
      AmsAddr → AmsAddr → List Found → ℕ → Bytes → ℕ → List Bytes → List Bytes
  browse_packets source addr [] offset argument id sent =
      write_read_packet source addr file_browse offset argument 324 id ∷ sent
  browse_packets source addr (f ∷ fs) offset argument id sent =
      browse_packets source addr fs (bo.read_int (take 4 f.entry)) [] ((id + 1) % 2 ^ 32)
        (write_read_packet source addr file_browse offset argument 324 id ∷ sent)

  not_found :
      {A : Type 0}
      → ads_error {A = A} (action Command.read_write) 0x70C
        ≡ err (ads (action Command.read_write) "Not found (files, ...)" 0x70C)
  unfolding ads_error binary_search_by_key bisect ads_errors
  not_found = refl

  module _ (addr : AmsAddr) (last : AdsHeader) (tail : Bytes) (later : List Arrival) where
    -- The request that ends the listing.
    browse-last :
        (offset : ℕ) (argument buf : Bytes) (c : Client)
        → c.arrivals ≡ received last (write_u32 0x70C ++ tail) ∷ later
        → IsAnswer Command.read_write addr c.invoke_id last
        → length buf ≡ 324
        → 48 + length argument < 2 ^ 32
        → (write_read_exact addr file_browse offset argument buf c).0
          ≡ err (ads (action Command.read_write) "Not found (files, ...)" 0x70C)
    unfolding write_read_exact write_read accept result_field
    browse-last offset argument buf c arrival answer size fits =
        let request : IndexLengthRw = record {
          index_group = file_browse;
          index_offset = offset;
          read_length = length buf;
          write_length = length argument;
        } in
        let payload = index_length_rw_bytes request ∷ argument ∷ [] in
        let total : 32 + total_length payload < 2 ^ 32 =
          omega (arith, length-index_length_rw_bytes request) in
        rw (
          lt→ltb (length buf) (2 ^ 32) (omega arith),
          lt→ltb (length argument) (2 ^ 32) (omega arith),
          communicate-received Command.read_write addr payload (write_u32 0 ∷ buf ∷ []) c total
              arrival,
          check_response-answer Command.read_write addr c.invoke_id last answer,
          split_at-append 4 (write_u32 0x70C) tail (bo.length-write_int 4 0x70C),
          bo.read_int-write_int 4 0x70C (omega arith),
          not_found,
        )

    length-answers : (fs : List Found) → length fs ≤ length (answers fs last tail later)
    length-answers [] = omega arith
    length-answers (f ∷ fs) = omega (arith, length-answers fs)

    -- The loop of `listdir`, with more rounds allowed than there are entries.
    browse-listed :
        (fs : List Found) (fuel offset : ℕ) (argument buf : Bytes) (files : List FileEntry)
        (c : Client)
        → length fs < fuel
        → c.arrivals ≡ answers fs last tail later
        → AreAnswers addr c.invoke_id fs last
        → length buf ≡ 324
        → 48 + length argument < 2 ^ 32
        → ((list_from fuel addr offset argument buf files c).0
            ≡ ok (files ++ map (λ f. entry_of f.entry) fs))
          × ((list_from fuel addr offset argument buf files c).1.sent
              ≡ browse_packets c.source addr fs offset argument c.invoke_id c.sent)
    unfolding list_from
    browse-listed fs zero offset argument buf files c few arrival answer size fits =
        absurd (omega arith)
    browse-listed [] (suc fuel) offset argument buf files c few arrival answer size fits =
        let ended = browse-last offset argument buf c arrival answer size fits in
        let s = write_read_exact-Sent addr file_browse offset argument buf c fits (omega arith) in
        rw ended (
          ap ok (sym (append-nil files)),
          s.sent
              ∙ ap
                  (λ a.
                    written (next_arrival a) (
                      write_read_packet c.source addr file_browse offset argument (length buf)
                        c.invoke_id)
                    ∷ c.sent)
                  arrival
              ∙ ap
                  (λ n.
                    write_read_packet c.source addr file_browse offset argument n c.invoke_id
                    ∷ c.sent)
                  size,
        )
    browse-listed (f ∷ fs) (suc fuel) offset argument buf files c few arrival
          (answer, whole, others) size fits =
        let arrival' =
          subst
            (λ n.
              c.arrivals
              ≡ received f.header (write_u32 0 ++ (write_u32 n ++ f.entry))
                ∷ answers fs last tail later)
            (sym whole) arrival in
        let (read, left) =
          write_read_exact-whole addr file_browse offset argument buf f.entry c arrival'
            (omega arith) fits (omega arith) answer in
        let s = write_read_exact-Sent addr file_browse offset argument buf c fits (omega arith) in
        let c' = (write_read_exact addr file_browse offset argument buf c).1 in
        let next = bo.read_int (take 4 f.entry) in
        let later_answers = subst (λ id. AreAnswers addr id fs last) (sym left.invoke_id) others in
        let (listed, sent) =
          browse-listed fs fuel next [] f.entry (files ++ (entry_of f.entry ∷ [])) c' (omega arith)
            left.arrivals later_answers whole (omega arith) in
        let first =
          s.sent
          ∙ ap
              (λ a.
                written (next_arrival a) (
                  write_read_packet c.source addr file_browse offset argument (length buf)
                    c.invoke_id)
                ∷ c.sent)
              arrival
          ∙ ap
              (λ n.
                write_read_packet c.source addr file_browse offset argument n c.invoke_id ∷ c.sent)
              size in
        rw read (
          listed
              ∙ ap ok (append_assoc files (entry_of f.entry ∷ []) (map (λ e. entry_of e.entry) fs)),
          sent
              ∙ ap₂ (λ a i. browse_packets a addr fs next [] i c'.sent) left.source left.invoke_id
              ∙ ap (browse_packets c.source addr fs next [] ((c.invoke_id + 1) % 2 ^ 32)) first,
        )

    -- If the length of the first request for a directory fits 32 bits, and a device answers the
    -- requests by entries of 324 bytes, without an error, and the one after the last entry by the error
    -- of a file that is not found, then `listdir` returns these entries in their order, each with its name, attributes and size. It has asked first for the name of the
    -- directory with the pattern behind it, and then each time by the number in the entry before.
    pub listdir-answered :
        (dirname : Bytes) (fs : List Found) (c : Client)
        → c.arrivals ≡ answers fs last tail later
        → AreAnswers addr c.invoke_id fs last
        → 52 + length dirname < 2 ^ 32
        → ((listdir addr dirname c).0 ≡ ok (map (λ f. entry_of f.entry) fs))
          × ((listdir addr dirname c).1.sent
              ≡ browse_packets c.source addr fs 1
                  (dirname ++ (b'\\' ∷ b'*' ∷ b'.' ∷ b'*' ∷ []))
                  c.invoke_id
                  c.sent)
    unfolding listdir
    listdir-answered dirname fs c arrival answer fits =
        browse-listed fs (length c.arrivals + 1) 1 (dirname ++ (b'\\' ∷ b'*' ∷ b'.' ∷ b'*' ∷ []))
          (replicate 324 0) [] c (omega (arith, ap length arrival, length-answers fs)) arrival
          answer (length-replicate {A = ℕ} 324 0)
          (omega (arith, length-append {0} dirname (b'\\' ∷ b'*' ∷ b'.' ∷ b'*' ∷ [])))
