-- ===== src/Text/Utf8.antt =====
-- The test of `str::from_utf8` of the standard library: whether bytes are well-formed UTF-8.
use ads_rs.Prelude.{
  ℕ, zero, suc, Bool, true, false, ◌&&◌, [], ◌∷◌, Option, none, some, leb, if◌then◌else◌,
}
use ads_rs.Wire.{Bytes}

-- What may follow: `more` bytes, the first of them in a range and the others from 0x80 to 0xBF.
pub record Expect : Type 0 where
  pub more : ℕ
  pub low : ℕ
  pub high : ℕ

abbrev pub at_start : Expect
at_start = record { more = 0; low = 0; high = 0 }

abbrev continuations : ℕ → Expect
continuations n = record { more = n; low = 0x80; high = 0xBF }

abbrev within : ℕ → ℕ → ℕ → Bool
within low high b = leb low b && leb b high

unfoldable pub first_byte : ℕ → Option Expect
first_byte b =
    if leb b 0x7F
    then some at_start
    else if within 0xC2 0xDF b
    then some (continuations 1)
    else if within 0xE0 0xE0 b
    then some (record { more = 2; low = 0xA0; high = 0xBF })
    else if within 0xE1 0xEC b
    then some (continuations 2)
    else if within 0xED 0xED b
    then some (record { more = 2; low = 0x80; high = 0x9F })
    else if within 0xEE 0xEF b
    then some (continuations 2)
    else if within 0xF0 0xF0 b
    then some (record { more = 3; low = 0x90; high = 0xBF })
    else if within 0xF1 0xF3 b
    then some (continuations 3)
    else if within 0xF4 0xF4 b
    then some (record { more = 3; low = 0x80; high = 0x8F })
    else none

unfoldable pub next_byte : Expect → ℕ → Option Expect
next_byte e b = elim e.more [
  | zero ↦ first_byte b
  | suc n ↦ if within e.low e.high b then some (continuations n) else none
]

unfoldable pub ends_here : Expect → Bool
ends_here e = elim e.more [ zero ↦ true | suc n ↦ false ]

unfoldable pub accepts : Expect → Bytes → Bool
accepts e [] = ends_here e
accepts e (b ∷ bs) = elim (next_byte e b) [ none ↦ false | some e' ↦ accepts e' bs ]

unfoldable pub is_utf8 : Bytes → Bool
unfolding accepts next_byte first_byte ends_here
is_utf8 = accepts at_start

-- `str::from_utf8(bytes).ok()`; a text is its bytes.
unfoldable pub from_utf8 : Bytes → Option Bytes
unfolding is_utf8
from_utf8 bytes = if is_utf8 bytes then some bytes else none
