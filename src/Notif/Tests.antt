-- ===== src/Notif/Tests.antt =====
-- A concrete notification message.
use ads_rs.Prelude.{◌+◌, ◌≡◌, refl, List, [], ◌∷◌, ◌++◌, length, drop, replicate}
use ads_rs.Wire.{Bytes, ByteOrder}
use ads_rs.Wire.LittleEndian.{little_endian, le_value}
use ads_rs.Errors.{ok}
use ads_rs.Notif.{Sample, new, parse_body, skip_samples, skip_stamps, collect, samples}
use ads_rs.Wire.{read_uint, read_exact}
use ads_rs.Prelude.Split.{split_at?}
use ads_rs.Notif.Layout.{StampsAt, SamplesAt}
use ads_rs.Notif.Iterate.{collect-samples}

instance abbrev byte_order : ByteOrder
byte_order = little_endian

abbrev head : Bytes
head = replicate 42 0

abbrev one : Bytes
one = 1 ∷ 0 ∷ 0 ∷ 0 ∷ []

abbrev eight : Bytes
eight = 9 ∷ 0 ∷ 0 ∷ 0 ∷ 0 ∷ 0 ∷ 0 ∷ 0 ∷ []

-- One stamp with one sample of two bytes.
abbrev body : Bytes
body = eight ++ (one ++ ((7 ∷ 0 ∷ 0 ∷ 0 ∷ []) ++ ((2 ∷ 0 ∷ 0 ∷ 0 ∷ []) ++ (21 ∷ 22 ∷ []))))

abbrev message : Bytes
message = head ++ (one ++ body)

abbrev sample : Sample
sample = record { handle = 7; timestamp = 9; content = 21 ∷ 22 ∷ [] }

body-StampsAt : StampsAt 1 body (sample ∷ [])
unfolding le_value
body-StampsAt =
    StampsAt.stamp {n = 0} {ss = sample ∷ []} {ss' = []} eight one refl refl refl
      (SamplesAt.sample (7 ∷ 0 ∷ 0 ∷ 0 ∷ []) (2 ∷ 0 ∷ 0 ∷ 0 ∷ []) (21 ∷ 22 ∷ []) refl refl refl refl
        (SamplesAt.done {rest = []} refl))
      (StampsAt.last refl)

message-accepted : new message ≡ ok (record { raw = message; nstamps = 1 })
unfolding new parse_body skip_stamps skip_samples read_uint read_exact split_at? le_value
message-accepted = refl

collect-samples_example :
    (ss : List Sample) × StampsAt 1 (drop 46 message) ss
    × (collect (length ss + 1) (samples (record { raw = message; nstamps = 1 })) ≡ ok ss)
collect-samples_example = collect-samples message message-accepted
