-- ===== src/NetId/Parse.antt =====
-- netid.rs: what `from_str` makes of a printed NetID or address.
use mathlib.Core.Path.{ap₂}
use ads_rs.Prelude.{
  ℕ, zero, suc, ◌+◌, ◌-◌, ◌≤◌, ◌<◌, ◌≡◌, ◌≢◌, refl, ap, ◌∙◌, some, List, [], ◌∷◌, ◌++◌, map,
  append_assoc, append-nil, arith, lt→ltb, le→ltb, length, length-append, set, drop, replicate, All,
  All-append,
}
use ads_rs.Wire.{Bytes, IsByte}
use ads_rs.Text.{Itertools, split, split-format, split-append, split-part, Lacks}
use ads_rs.Text.Decimal.{to_string, to_string-IsDigit, parse_uint, parse_uint-to_string, IsDigit}
use ads_rs.NetId.{
  AmsNetId, IsNetId, AmsAddr, IsAddr, parsed, invalid, set_parts, from_str, display, addr_from_str,
  addr_display,
}

-- The bytes given, and the rest of the array.
abbrev overwrite : Bytes → Bytes → Bytes
overwrite [] arr = arr
overwrite (b ∷ bs) [] = []
overwrite (b ∷ bs) (a ∷ arr) = b ∷ overwrite bs arr

digits_lack : (sep : ℕ) (s : Bytes) → sep < 48 → All IsDigit s → Lacks sep s
digits_lack sep [] h d = tt
digits_lack sep (c ∷ s) h d = (λ e. absurd (omega arith), digits_lack sep s h d.1)

printed_lack : (sep : ℕ) (bs : Bytes) → sep < 48 → All (Lacks sep) (map to_string bs)
printed_lack sep [] h = tt
printed_lack sep (b ∷ bs) h =
    (digits_lack sep (to_string b) h (to_string-IsDigit b), printed_lack sep bs h)

set_parts-some :
    (i b : ℕ) (part : Bytes) (parts : List Bytes) (arr : Bytes)
    → parse_uint 255 part ≡ some b
    → i < length arr
    → set_parts i (part ∷ parts) arr ≡ set_parts (i + 1) parts (set arr i b)
unfolding set_parts
set_parts-some i b part parts arr e h = rw (e, lt→ltb i (length arr) h, set_parts)

set_parts-full :
    (i b : ℕ) (part : Bytes) (parts : List Bytes) (arr : Bytes)
    → parse_uint 255 part ≡ some b
    → length arr ≤ i
    → set_parts i (part ∷ parts) arr ≡ invalid "invalid NetID string"
unfolding set_parts
set_parts-full i b part parts arr e h = rw (e, le→ltb i (length arr) h, set_parts)

set-append :
    (pre post : Bytes) (p b : ℕ)
    → set (pre ++ (p ∷ post)) (length pre) b ≡ (pre ++ (b ∷ [])) ++ post
set-append [] post p b = refl
set-append (x ∷ pre) post p b = ap (λ t. x ∷ t) (set-append pre post p b)

length-snoc : (pre : Bytes) (b : ℕ) → length pre + 1 ≡ length (pre ++ (b ∷ []))
length-snoc pre b = omega (arith, length-append {0} pre (b ∷ []))

-- One round of the loop that writes: `pre` is written already.
set_parts-step :
    (pre post : Bytes) (p b : ℕ) (parts : List Bytes)
    → b < 256
    → set_parts (length pre) (to_string b ∷ parts) (pre ++ (p ∷ post))
      ≡ set_parts (length (pre ++ (b ∷ []))) parts ((pre ++ (b ∷ [])) ++ post)
set_parts-step pre post p b parts h =
    set_parts-some (length pre) b (to_string b) parts (pre ++ (p ∷ post))
      (parse_uint-to_string 255 b (omega arith)) (omega (arith, length-append {0} pre (p ∷ post)))
    ∙ ap₂ (λ i t. set_parts i parts t) (length-snoc pre b) (set-append pre post p b)

set_parts-printed :
    (pre bs post : Bytes)
    → All IsByte bs
    → length bs ≤ length post
    → set_parts (length pre) (map to_string bs) (pre ++ post)
      ≡ parsed (record { octets = pre ++ overwrite bs post })
set_parts-printed pre [] post h l = unfold set_parts in refl
set_parts-printed pre (b ∷ bs) [] h l = absurd (omega arith)
set_parts-printed pre (b ∷ bs) (p ∷ post) h l =
    set_parts-step pre post p b (map to_string bs) h.0
    ∙ set_parts-printed (pre ++ (b ∷ [])) bs post h.1 (omega arith)
    ∙ ap (λ t. parsed (record { octets = t })) (append_assoc pre (b ∷ []) (overwrite bs post))

set_parts-excess :
    (pre bs post : Bytes)
    → All IsByte bs
    → length post < length bs
    → set_parts (length pre) (map to_string bs) (pre ++ post) ≡ invalid "invalid NetID string"
set_parts-excess pre [] post h l = absurd (omega arith)
set_parts-excess pre (b ∷ bs) [] h l =
    set_parts-full (length pre) b (to_string b) (map to_string bs) (pre ++ [])
      (parse_uint-to_string 255 b (omega arith)) (omega (arith, length-append {0} pre []))
set_parts-excess pre (b ∷ bs) (p ∷ post) h l =
    set_parts-step pre post p b (map to_string bs) h.0
    ∙ set_parts-excess (pre ++ (b ∷ [])) bs post h.1 (omega arith)

overwrite-eq :
    (bs arr : Bytes) → length bs ≤ length arr → overwrite bs arr ≡ bs ++ drop (length bs) arr
overwrite-eq [] arr h = refl
overwrite-eq (b ∷ bs) [] h = absurd (omega arith)
overwrite-eq (b ∷ bs) (a ∷ arr) h = ap (λ t. b ∷ t) (overwrite-eq bs arr (omega arith))

drop-replicate : (k n a : ℕ) → drop k (replicate n a) ≡ replicate (n - k) a
drop-replicate zero n a = ap (λ t. replicate t a) (omega arith)
drop-replicate (suc k) zero a = let e : 0 - suc k ≡ 0 = omega arith in rw e
drop-replicate (suc k) (suc n) a =
    let e : n - k ≡ suc n - suc k = omega arith in drop-replicate k n a ∙ ap (λ t. replicate t a) e

module _ (it : Itertools) (b : ℕ) (bs : Bytes) (h : All IsByte (b ∷ bs)) where
  split-printed :
      split b'.' (it.format (b'.' ∷ []) (map to_string (b ∷ bs))) ≡ map to_string (b ∷ bs)
  split-printed =
      split-format it b'.' (to_string b) (map to_string bs)
        (printed_lack b'.' (b ∷ bs) (omega arith))

  -- One to six printed bytes, joined by dots, are parsed to the NetID of these bytes, in which the
  -- missing ones at the end are 1.
  pub from_str-printed :
      length (b ∷ bs) ≤ 6
      → from_str (it.format (b'.' ∷ []) (map to_string (b ∷ bs)))
        ≡ parsed (record { octets = (b ∷ bs) ++ replicate (6 - length (b ∷ bs)) 1 })
  unfolding from_str
  from_str-printed l = rw split-printed (
      set_parts-printed [] (b ∷ bs) (replicate 6 1) h l
      ∙ ap (λ t. parsed (record { octets = t }))
          (overwrite-eq (b ∷ bs) (replicate 6 1) l
            ∙ ap (λ t. (b ∷ bs) ++ t) (drop-replicate (length (b ∷ bs)) 6 1)))

  -- More than six printed bytes are refused.
  pub from_str-excess :
      6 < length (b ∷ bs)
      → from_str (it.format (b'.' ∷ []) (map to_string (b ∷ bs))) ≡ invalid "invalid NetID string"
  unfolding from_str
  from_str-excess l = rw split-printed (set_parts-excess [] (b ∷ bs) (replicate 6 1) h l)

from_str-octets :
    (it : Itertools) (bs : Bytes)
    → length bs ≡ 6
    → All IsByte bs
    → from_str (it.format (b'.' ∷ []) (map to_string bs)) ≡ parsed (record { octets = bs })
from_str-octets it [] e h = absurd (omega arith)
from_str-octets it (b ∷ bs) e h =
    let none_left : 6 - length (b ∷ bs) ≡ 0 = omega arith in
    from_str-printed it b bs h (omega arith)
    ∙ ap (λ k. parsed (record { octets = (b ∷ bs) ++ replicate k 1 })) none_left
    ∙ ap (λ t. parsed (record { octets = t })) (append-nil (b ∷ bs))

-- A NetID that is displayed is parsed back.
pub from_str-display :
    (it : Itertools) (id : AmsNetId) → IsNetId id → from_str (display it id) ≡ parsed id
unfolding display
from_str-display it id h = from_str-octets it id.octets h.six h.bytes

-- A separator that is no digit.
digits_lack_above : (sep : ℕ) (s : Bytes) → 57 < sep → All IsDigit s → Lacks sep s
digits_lack_above sep [] h d = tt
digits_lack_above sep (c ∷ s) h d = (λ e. absurd (omega arith), digits_lack_above sep s h d.1)

format-Lacks :
    (it : Itertools) (sep : ℕ) (bs : Bytes)
    → 57 < sep
    → 0 < length bs
    → Lacks sep (it.format (b'.' ∷ []) (map to_string bs))
format-Lacks it sep [] h l = absurd (omega arith)
format-Lacks it sep (b ∷ []) h l =
    rw it.format-single (digits_lack_above sep (to_string b) h (to_string-IsDigit b))
format-Lacks it sep (b ∷ c ∷ bs) h l = rw it.format-cons (
    All-append (λ x. x ≢ sep) (to_string b) _
      (digits_lack_above sep (to_string b) h (to_string-IsDigit b))
      ((λ e. absurd (omega arith)), format-Lacks it sep (c ∷ bs) h (omega arith)))

display-Lacks : (it : Itertools) (id : AmsNetId) → IsNetId id → Lacks b':' (display it id)
unfolding display
display-Lacks it id h = format-Lacks it b':' id.octets (omega arith) (omega (arith, h.six))

split-pair : (p q : Bytes) → Lacks b':' p → Lacks b':' q → split b':' (p ++ (b':' ∷ q)) ≡ p ∷ q ∷ []
split-pair p q h k = split-append b':' p q h ∙ ap (λ t. p ∷ t) (split-part b':' q k)

-- An address that is displayed is parsed back.
pub addr_from_str-addr_display :
    (it : Itertools) (addr : AmsAddr)
    → IsAddr addr
    → addr_from_str it (addr_display it addr) ≡ parsed addr
unfolding addr_from_str addr_display
addr_from_str-addr_display it addr h = rw (
  split-pair (display it addr.netid) (to_string addr.port) (display-Lacks it addr.netid h.netid)
      (digits_lack_above b':' (to_string addr.port) (omega arith) (to_string-IsDigit addr.port)),
  it.collect_tuple-pair,
  from_str-display it addr.netid h.netid,
  parse_uint-to_string 65535 addr.port (omega (arith, h.port)),
)
