-- ===== src/Client/State.antt =====
-- client.rs: the states of an ADS device, by number and by name.
use ads_rs.Prelude.{
  ℕ, ◌+◌, ◌≡◌, ◌↔◌, refl, ◌&&◌, String, List, [], ◌∷◌, arith, leb, ◌==◌, if◌then◌else◌, map,
}
use ads_rs.NetId.{Parsed, parsed, invalid}
use ads_rs.NetId.{bytes_eq}
use ads_rs.Wire.{Bytes}
use Prim.Native.Char.{code}

pub data AdsState : Type 0 where
  invalid_state idle reset init start run stop save_cfg load_cfg power_fail power_good error
        shutdown suspend resume config reconfig stopping incompatible exception :
      AdsState

-- `state as u16`
unfoldable pub number : AdsState → ℕ
number invalid_state = 0
number idle = 1
number reset = 2
number init = 3
number start = 4
number run = 5
number stop = 6
number save_cfg = 7
number load_cfg = 8
number power_fail = 9
number power_good = 10
number error = 11
number shutdown = 12
number suspend = 13
number resume = 14
number config = 15
number reconfig = 16
number stopping = 17
number incompatible = 18
number exception = 19

-- The states with the numbers and the names of `TryFrom<u16>` and `FromStr`, in the order of their
-- cases.
abbrev Case : Type 0
Case = ℕ × String × AdsState

cases : List Case
cases =
    (0, "invalid", invalid_state)
    ∷ (1, "idle", idle)
    ∷ (2, "reset", reset)
    ∷ (3, "init", init)
    ∷ (4, "start", start)
    ∷ (5, "run", run)
    ∷ (6, "stop", stop)
    ∷ (7, "savecfg", save_cfg)
    ∷ (8, "loadcfg", load_cfg)
    ∷ (9, "powerfail", power_fail)
    ∷ (10, "powergood", power_good)
    ∷ (11, "error", error)
    ∷ (12, "shutdown", shutdown)
    ∷ (13, "suspend", suspend)
    ∷ (14, "resume", resume)
    ∷ (15, "config", config)
    ∷ (16, "reconfig", reconfig)
    ∷ (17, "stopping", stopping)
    ∷ (18, "incompatible", incompatible)
    ∷ (19, "exception", exception)
    ∷ []

by_number : List Case → ℕ → Parsed AdsState
by_number [] value = invalid "invalid state constant"
by_number ((n, name, state) ∷ rest) value =
    if value == n then parsed state else by_number rest value

-- `AdsState::try_from(value)`
unfoldable pub try_from : ℕ → Parsed AdsState
unfolding by_number cases
try_from value = by_number cases value

abbrev pub codes : String → Bytes
codes String.[] = []
codes (String.◌∷◌ c s) = code c ∷ codes s

-- `to_ascii_lowercase` on a byte.
unfoldable pub lower : ℕ → ℕ
lower c = if leb b'A' c && leb c b'Z' then c + 32 else c

by_name : List Case → Bytes → Parsed AdsState
by_name [] s = invalid "invalid state name"
by_name ((n, name, state) ∷ rest) s =
    if bytes_eq (codes name) s then parsed state else by_name rest s

-- `AdsState::from_str(s)`
unfoldable pub from_str : Bytes → Parsed AdsState
unfolding by_name cases lower bytes_eq
from_str s = by_name cases (map lower s)

try_from-number : (s : AdsState) → try_from (number s) ≡ parsed s
unfolding try_from number
try_from-number invalid_state = refl
try_from-number _ = refl

try_from_sound : (value : ℕ) (s : AdsState) → try_from value ≡ parsed s → number s ≡ value
unfolding try_from number
try_from_sound value s h = ground arith

-- A number is converted to a state exactly if it is the number of that state; so every number from
-- 20 on is refused.
pub try_from_iff : (value : ℕ) (s : AdsState) → (try_from value ≡ parsed s) ↔ (number s ≡ value)
try_from_iff value s = (try_from_sound value s, λ e. rw (← e) (try_from-number s))
