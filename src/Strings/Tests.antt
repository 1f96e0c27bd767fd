-- ===== src/Strings/Tests.antt =====
-- Concrete strings.
use ads_rs.Prelude.{ℕ, ◌≡◌, some, List, [], ◌∷◌, arith, length}
use ads_rs.Client.Structs.{until_zero}
use ads_rs.Strings.{ByteString}
use ads_rs.Strings.Narrow.{as_bytes-try_from, as_bytes}
use ads_rs.Strings.Narrow

abbrev text : List ℕ
text = 72 ∷ 105 ∷ 0 ∷ 33 ∷ []

as_bytes-try_from_example :
    (s : ByteString) × (Narrow.try_from 6 text ≡ some s)
    × (length s.array ≡ 6)
    × (as_bytes s ≡ until_zero text)
as_bytes-try_from_example = as_bytes-try_from 6 text (omega arith)
