-- ===== src/File/Tests.antt =====
-- The listing of a directory over a concrete client.
use ads_rs.Prelude.{◌≡◌, refl, [], ◌∷◌, List, map, arith, replicate, ℕ}
use ads_rs.Errors.{ok}
use ads_rs.NetId.Tests.{plc_addr}
use ads_rs.Client.Command.{code}
use ads_rs.Client.Command
use ads_rs.Client.Action.{Client}
use ads_rs.Client.Exchange.Response.{IsAnswer}
use ads_rs.File.{entry_of, listdir}
use ads_rs.File.Listing.{Found, answers, browse_packets, listdir-answered}
use ads_rs.Client.Tests.{byte_order, client_with, header_of, me}

-- Two entries, and the end.
abbrev listed : List Found
listed =
    record { header = header_of 9 5 332 7; entry = 8 ∷ replicate 323 0 }
    ∷ record { header = header_of 9 5 332 8; entry = 9 ∷ replicate 323 0 }
    ∷ []

abbrev listing : Client
listing = client_with (answers listed (header_of 9 5 4 9) [] [])

found_answer : (n id : ℕ) → IsAnswer Command.read_write plc_addr id (header_of 9 5 n id)
unfolding code
found_answer n id = record {
  from = refl;
  command = refl;
  flags = refl;
  invoke_id = refl;
  no_error = refl;
}

listdir-answered_example :
    ((listdir plc_addr (b'D' ∷ []) listing).0 ≡ ok (map (λ f. entry_of f.entry) listed))
    × ((listdir plc_addr (b'D' ∷ []) listing).1.sent
        ≡ browse_packets me plc_addr listed 1 (b'D' ∷ b'\\' ∷ b'*' ∷ b'.' ∷ b'*' ∷ []) 7 [])
listdir-answered_example =
    listdir-answered plc_addr (header_of 9 5 4 9) [] [] (b'D' ∷ []) listed listing refl
      (found_answer 332 7, refl, (found_answer 332 8, refl, found_answer 4 9)) (omega arith)
