-- ===== src/Errors/Search.antt =====
-- errors.rs: the binary search of `ads_error` finds what a scan of the table finds.
use ads_rs.Prelude.{
  ℕ, zero, suc, ◌+◌, ◌-◌, ◌/◌, ◌≤◌, ◌<◌, ◌≡◌, ◌≢◌, refl, sym, ◌∙◌, String, Bool, true, ◌&&◌, Option,
  none, some, List, [], ◌∷◌, inl, inr, arith, ltb, ◌==◌, if◌then◌else◌, length, get_elem?,
  Bool-cases, Option-cases,
}
use ads_rs.Errors.{Result, panic, ads, ok, err}
use ads_rs.Errors.Codes.{ErrorTable, ads_errors, bisect, binary_search_by_key, ads_error}

-- The first entry with a code.
unfoldable pub find_code : ErrorTable → ℕ → Option (ℕ × String)
find_code [] code = none
find_code (e ∷ es) code = if e.0 == code then some e else find_code es code

-- The codes rise strictly, from above `lo`.
unfoldable pub rising : ℕ → ErrorTable → Bool
rising lo [] = true
rising lo (e ∷ es) = ltb lo e.0 && rising e.0 es

module _ {e : ℕ × String} where
  rising-get_elem? :
      (lo : ℕ) (es : ErrorTable) (i : ℕ) → rising lo es ≡ true → get_elem? es i ≡ some e → lo < e.0
  unfolding rising
  rising-get_elem? lo [] i r h = absurd (cc)
  rising-get_elem? lo (x ∷ es) zero r h = ground arith
  rising-get_elem? lo (x ∷ es) (suc i) r h = ground (arith, rising-get_elem? x.0 es i)

  find_code-get_elem? :
      (lo : ℕ) (es : ErrorTable) (i : ℕ)
      → rising lo es ≡ true
      → get_elem? es i ≡ some e
      → find_code es e.0 ≡ some e
  unfolding rising find_code
  find_code-get_elem? lo [] i r h = cc
  find_code-get_elem? lo (x ∷ es) zero r h = ground arith
  find_code-get_elem? lo (x ∷ es) (suc i) r h =
      ground (arith, rising-get_elem? x.0 es i, find_code-get_elem? x.0 es i)

get_elem?_mono :
    (a b : ℕ × String) (lo : ℕ) (es : ErrorTable) (i j : ℕ)
    → rising lo es ≡ true
    → get_elem? es i ≡ some a
    → get_elem? es j ≡ some b
    → i < j
    → a.0 < b.0
unfolding rising
get_elem?_mono a b lo [] i j r h k l = absurd (cc)
get_elem?_mono a b lo (x ∷ es) i zero r h k l = absurd (omega arith)
get_elem?_mono a b lo (x ∷ es) zero (suc j) r h k l =
    ground (arith, rising-get_elem? {e = b} x.0 es j)
get_elem?_mono a b lo (x ∷ es) (suc i) (suc j) r h k l =
    ground (arith, get_elem?_mono a b x.0 es i j)

find_code-eq_some :
    {e : ℕ × String} (es : ErrorTable) (code : ℕ)
    → find_code es code ≡ some e
    → (i : ℕ) × (get_elem? es i ≡ some e) × (e.0 ≡ code) × (i < length es)
unfolding find_code
find_code-eq_some [] code h = absurd (cc)
find_code-eq_some (x ∷ es) code h = elim (Bool-cases (x.0 == code)) [
  | inl same ↦ (0, ground arith, ground arith, omega arith)
  | inr more ↦
      let (i, g, c, l) = find_code-eq_some es code (rw more at h) in (suc i, g, c, omega arith)
]

get_elem?-lt {ℓ} :
    {A : Type ℓ} (xs : List A) (i : ℕ) → i < length xs → (a : A) × (get_elem? xs i ≡ some a)
get_elem?-lt [] i h = absurd (omega arith)
get_elem?-lt (x ∷ xs) zero h = (x, refl)
get_elem?-lt (x ∷ xs) (suc i) h = get_elem?-lt xs i (omega arith)

same_index :
    {a b : ℕ × String} (i j : ℕ) (es : ErrorTable)
    → get_elem? es i ≡ some a
    → get_elem? es j ≡ some b
    → i ≡ j
    → b ≡ a
same_index i j es g h e = let k = rw e at g in cc

module _ (es : ErrorTable) (sorted : rising 0 es ≡ true) where
  bisect_sound :
      (code : ℕ) (e : ℕ × String) (fuel lo hi : ℕ)
      → bisect es code fuel lo hi ≡ some e
      → find_code es code ≡ some e
  unfolding bisect
  bisect_sound code y zero lo hi h = absurd (cc)
  bisect_sound code y (suc fuel) lo hi h = elim (Option-cases (get_elem? es ((lo + hi) / 2))) [
    | inl e ↦ ground arith
    | inr (x, e) ↦ ground (
      arith,
      bisect_sound code y fuel ((lo + hi) / 2 + 1) hi,
      bisect_sound code y fuel lo ((lo + hi) / 2),
      find_code-get_elem? {e = x} 0 es ((lo + hi) / 2),
    )
  ]

  bisect_complete :
      (code : ℕ) (e : ℕ × String) (i fuel lo hi : ℕ)
      → get_elem? es i ≡ some e
      → e.0 ≡ code
      → lo ≤ i
      → i < hi
      → hi ≤ length es
      → hi - lo < fuel
      → bisect es code fuel lo hi ≡ some e
  unfolding bisect
  bisect_complete code y i zero lo hi g c a b l f = absurd (omega arith)
  bisect_complete code y i (suc fuel) lo hi g c a b l f =
      let (x, e) = get_elem?-lt es ((lo + hi) / 2) (omega arith) in
      ground (
        arith,
        bisect_complete code y i fuel ((lo + hi) / 2 + 1) hi,
        bisect_complete code y i fuel lo ((lo + hi) / 2),
        get_elem?_mono y x 0 es i ((lo + hi) / 2) sorted g e,
        get_elem?_mono x y 0 es ((lo + hi) / 2) i sorted e g,
        same_index i ((lo + hi) / 2) es g e,
      )

  -- On a rising table the binary search is the scan.
  pub binary_search_by_key-eq-find_code :
      (code : ℕ) → binary_search_by_key es code ≡ find_code es code
  unfolding binary_search_by_key
  binary_search_by_key-eq-find_code code = elim (Option-cases (find_code es code)) [
    | inr (e, found) ↦
        let (i, g, c, l) = find_code-eq_some es code found in
        bisect_complete code e i (length es + 1) 0 (length es) g c (omega arith) l (omega arith)
          (omega arith)
        ∙ sym found
    | inl absent ↦ elim (Option-cases (bisect es code (length es + 1) 0 (length es))) [
      | inl nothing ↦ nothing ∙ sym absent
      | inr (e, hit) ↦ hit ∙ sym (bisect_sound code e (length es + 1) 0 (length es) hit)
    ]
  ]

-- The text of a code: the table's, or the one for unknown codes.
abbrev pub text_of : Option (ℕ × String) → String
text_of none = "Unknown error code"
text_of (some e) = e.1

ads_errors-rising : rising 0 ads_errors ≡ true
unfolding rising ads_errors
ads_errors-rising = refl

-- For every code and action, `ads_error` is the error of that action and code whose text is the
-- one that a scan of the table finds, or the text for unknown codes if no entry has the code.
pub ads_error-eq-find_code :
    {A : Type 0} (action : String) (code : ℕ)
    → ads_error {A = A} action code ≡ err (ads action (text_of (find_code ads_errors code)) code)
unfolding ads_error
ads_error-eq-find_code action code =
    ground (arith, binary_search_by_key-eq-find_code ads_errors ads_errors-rising code)

-- `ads_error` is never a success.
pub ads_error-ne_ok :
    {A : Type 0} (action : String) (code : ℕ) {a : A} → ¬ (ads_error action code ≡ ok a)
ads_error-ne_ok action code h = let k = rw ads_error-eq-find_code at h in cc

pub ads_error-ne_panic :
    {A : Type 0} (action : String) (code : ℕ) → ◌≢◌ {A = Result A} (ads_error action code) panic
ads_error-ne_panic action code h = let k = rw ads_error-eq-find_code at h in cc
