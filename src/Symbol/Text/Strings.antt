-- ===== src/Symbol/Text/Strings.antt =====
-- symbol.rs: what `read_str` returns, for every length and input.
use ads_rs.Prelude.{
  ℕ, zero, suc, ◌+◌, ◌%◌, ◌^◌, ◌≤◌, ◌≡◌, refl, ap, sym, ◌∙◌, true, [], ◌∷◌, ◌++◌, append_assoc,
  arith, inl, inr, ltb, le→ltb, ltb→le, ltb→lt, Bool-cases, if◌then◌else◌, length, length-append,
  take, take-append, drop, drop-append, append-nil, length-take, String, take-append-drop, min,
}
use native.Mathlib.Nat.{suc-add}
use ads_rs.Wire.{Bytes, read_exact, read_exact-append, split_at, split_at-append}
use ads_rs.Errors.{ok, err, reply}
use ads_rs.Text.Utf8.{is_utf8}
use ads_rs.Text.Lossy.{from_utf8_lossy, from_utf8_lossy_self}
use ads_rs.Symbol.{max_str_len}
use ads_rs.Symbol.Cursor.{◌>>=◌}
use ads_rs.Symbol.Cursor.Reads.{Reads}
use ads_rs.Symbol.Text.{read_str}

-- A text with its terminating zero.
abbrev pub zero_terminated : Bytes → Bytes
zero_terminated s = s ++ 0 ∷ []

-- A text that is short enough to be read.
abbrev pub IsText : Bytes → Type 0
IsText s = (is_utf8 s ≡ true) × (length s ≤ max_str_len)

take-min : (n : ℕ) (s : Bytes) → take (min n (length s)) s ≡ take n s
take-min zero s = let e : min 0 (length s) ≡ 0 = omega arith in rw e refl
take-min (suc n) [] = let e : min (suc n) 0 ≡ 0 = omega arith in rw e refl
take-min (suc n) (b ∷ s) =
    let e : min (suc n) (suc (length s)) ≡ suc (min n (length s)) = omega arith in
    rw e (ap (λ t. b ∷ t) (take-min n s))

take_less : (n : ℕ) (s : Bytes) → take n (take (n + 1) s) ≡ take n s
take_less zero s = refl
take_less (suc n) [] = rw suc-add refl
take_less (suc n) (b ∷ s) = rw suc-add (ap (λ t. b ∷ t) (take_less n s))

drop-short : (n : ℕ) (s : Bytes) → length s ≤ n → drop n s ≡ []
drop-short zero [] h = refl
drop-short zero (b ∷ s) h = absurd (omega arith)
drop-short (suc n) [] h = refl
drop-short (suc n) (b ∷ s) h = drop-short n s (omega arith)

read_exact_all : (context : String) (s : Bytes) → read_exact (length s) context s ≡ ok (s, [])
read_exact_all context s =
    ap (read_exact (length s) context) (sym (append-nil s))
    ∙ read_exact-append (length s) context s [] refl

split_at_eq : (n : ℕ) (s : Bytes) → n ≤ length s → split_at n s ≡ ok (take n s, drop n s)
split_at_eq n s h =
    ap (split_at n) (sym (take-append-drop n s))
    ∙ split_at-append n (take n s) (drop n s) (omega (arith, length-take n s))

-- `read_str` refuses a length above the limit. Otherwise it passes the declared bytes and one more,
-- or all bytes where there are fewer, and returns the declared bytes that are there as a text.
pub read_str_eq :
    (len : ℕ) (ptr : Bytes)
    → read_str len ptr ≡ (
        if ltb max_str_len len
        then err (reply "reading string" "string length exceeds maximum" (len % 2 ^ 32))
        else ok (from_utf8_lossy (take len ptr), drop (len + 1) ptr))
unfolding read_str ◌>>=◌
read_str_eq len ptr = elim (Bool-cases (ltb max_str_len len)) [
  | inl long ↦ rw long refl
  | inr fits ↦ elim (Bool-cases (ltb (length ptr) (len + 1))) [
    | inl ends ↦
        let less = ltb→lt (length ptr) (len + 1) ends in
        rw
          (
            fits,
            ends,
            read_exact_all "reading string" ptr,
            take-min len ptr,
            drop-short (len + 1) ptr (omega arith),
          )
          refl
    | inr more ↦
        let enough = ltb→le (length ptr) (len + 1) more in
        rw (fits, more, split_at_eq (len + 1) ptr enough, take_less len ptr) refl
  ]
]

read_str-append :
    (s : Bytes) (terminator : ℕ) (rest : Bytes)
    → length s ≤ max_str_len
    → read_str (length s) (s ++ terminator ∷ rest) ≡ ok (from_utf8_lossy s, rest)
read_str-append s terminator rest short =
    let back : drop (length s + 1) (s ++ terminator ∷ rest) ≡ rest =
      rw (← append_assoc s (terminator ∷ []) rest) (
        drop-append (length s + 1) (s ++ terminator ∷ []) rest
          (length-append {0} s (terminator ∷ []))) in
    rw
      (
        read_str_eq (length s) (s ++ terminator ∷ rest),
        le→ltb max_str_len (length s) short,
        take-append (length s) s (terminator ∷ rest) refl,
        back,
      )
      refl

pub read_str-Reads : (s : Bytes) → IsText s → Reads (read_str (length s)) (zero_terminated s) s
read_str-Reads s (good, short) = record {
  reads = λ rest.
      rw (append_assoc s (0 ∷ []) rest, read_str-append s 0 rest short, from_utf8_lossy_self s good)
        refl;
}
