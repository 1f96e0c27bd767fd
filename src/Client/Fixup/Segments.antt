-- ===== src/Client/Fixup/Segments.antt =====
-- client.rs: byte strings and their buffers, for `fixup_write_read_return_buffers`.
use ads_rs.Prelude.{
  ℕ, zero, suc, ◌+◌, ◌-◌, ◌≤◌, ◌<◌, ◌≡◌, refl, sym, ap, ◌∙◌, some, List, [], ◌∷◌, ◌++◌,
  append_assoc, append-nil, arith, length, length-append, get_elem?, set, take, drop, drop-append,
  drop-drop,
}
use native.Mathlib.Nat.{suc-add, zero-add}
use ads_rs.Wire.{Bytes, concat}

-- The last bytes of a byte string.
abbrev pub last : ℕ → Bytes → Bytes
last n s = drop (length s - n) s

pub take-set :
    (bufs : List Bytes) (i j : ℕ) (x : Bytes) → j ≤ i → take j (set bufs i x) ≡ take j bufs
take-set bufs i zero x h = refl
take-set [] i (suc j) x h = refl
take-set (b ∷ bufs) zero (suc j) x h = absurd (omega arith)
take-set (b ∷ bufs) (suc i) (suc j) x h = ap (λ t. b ∷ t) (take-set bufs i j x (omega arith))

pub get_elem?-set_other :
    (bufs : List Bytes) (i j : ℕ) (x : Bytes)
    → j < i
    → get_elem? (set bufs i x) j ≡ get_elem? bufs j
get_elem?-set_other [] i j x h = refl
get_elem?-set_other (b ∷ bufs) zero j x h = absurd (omega arith)
get_elem?-set_other (b ∷ bufs) (suc i) zero x h = refl
get_elem?-set_other (b ∷ bufs) (suc i) (suc j) x h = get_elem?-set_other bufs i j x (omega arith)

pub get_elem?-set :
    (bufs : List Bytes) (i : ℕ) (x : Bytes) {y : Bytes}
    → get_elem? bufs i ≡ some y
    → get_elem? (set bufs i x) i ≡ some x
get_elem?-set [] i x h = cc
get_elem?-set (b ∷ bufs) zero x h = refl
get_elem?-set (b ∷ bufs) (suc i) x h = get_elem?-set bufs i x h

pub set-set : (bufs : List Bytes) (i : ℕ) (x y : Bytes) → set (set bufs i x) i y ≡ set bufs i y
set-set [] i x y = refl
set-set (b ∷ bufs) zero x y = refl
set-set (b ∷ bufs) (suc i) x y = ap (λ t. b ∷ t) (set-set bufs i x y)

-- The bytes of the buffers up to one.
pub concat-take :
    (bufs : List Bytes) (j : ℕ) {b : Bytes}
    → get_elem? bufs j ≡ some b
    → concat (take (suc j) bufs) ≡ concat (take j bufs) ++ b
concat-take [] j h = cc
concat-take (a ∷ bufs) zero {b} h = let e : a ≡ b = cc in rw e (append-nil b)
concat-take (a ∷ bufs) (suc j) {b} h =
    ap (λ t. a ++ t) (concat-take bufs j h) ∙ sym (append_assoc a (concat (take j bufs)) b)

pub take-nil : (n : ℕ) → ◌≡◌ {A = Bytes} [] (take n [])
take-nil zero = refl
take-nil (suc n) = refl

pub drop-take : (n m : ℕ) (s : Bytes) → drop n (take (n + m) s) ≡ take m (drop n s)
drop-take zero m s = rw zero-add refl
drop-take (suc n) m [] = rw suc-add (take-nil m)
drop-take (suc n) m (b ∷ s) = rw suc-add (drop-take n m s)

pub drop_inside : (n : ℕ) (s t : Bytes) → n ≤ length s → drop n (s ++ t) ≡ drop n s ++ t
drop_inside zero s t h = refl
drop_inside (suc n) [] t h = absurd (omega arith)
drop_inside (suc n) (b ∷ s) t h = drop_inside n s t (omega arith)

-- The last bytes of a string lie all in its second part, or reach into the first.
pub last-append_short : (n : ℕ) (s t : Bytes) → n ≤ length t → last n (s ++ t) ≡ last n t
last-append_short n s t h =
    let e : length (s ++ t) - n ≡ length s + (length t - n) =
      omega (arith, length-append {0} s t) in
    rw e (
      sym (drop-drop (length s) (length t - n) (s ++ t))
      ∙ ap (drop (length t - n)) (drop-append (length s) s t refl))

pub last-append_long :
    (n : ℕ) (s t : Bytes)
    → length t ≤ n
    → n ≤ length s + length t
    → last n (s ++ t) ≡ last (n - length t) s ++ t
last-append_long n s t h k =
    let e : length (s ++ t) - n ≡ length s - (n - length t) =
      omega (arith, length-append {0} s t) in
    rw e (drop_inside (length s - (n - length t)) s t (omega arith))
