-- ===== src/Client/Device/Parted.antt =====
-- client.rs: what the distribution of a response leaves where it fills the first output buffers and
-- is shorter than the others.
use ads_rs.Prelude.{
  ℕ, ◌≤◌, ◌≡◌, refl, sym, ap, ◌∙◌, List, [], ◌∷◌, ◌++◌, map, arith, length, take, drop, take-append,
  drop-append, append_assoc,
}
use mathlib.Core.Path.{ap₂}
use ads_rs.Wire.{Bytes, concat}
use ads_rs.Client.Scatter.{scatter, overlay, concat-scatter}
use ads_rs.Client.Device.Answers.{map_appended}

overlay_parts :
    (a b t old : Bytes) → length a ≡ length b → overlay (a ++ t) (b ++ old) ≡ a ++ overlay t old
unfolding overlay
overlay_parts [] [] t old h = refl
overlay_parts [] (y ∷ b) t old h = absurd (omega arith)
overlay_parts (x ∷ a) [] t old h = absurd (omega arith)
overlay_parts (x ∷ a) (y ∷ b) t old h = ap (λ s. x ∷ s) (overlay_parts a b t old (omega arith))

overlay_short : (t old : Bytes) → length t ≤ length old → overlay t old ≡ t ++ drop (length t) old
unfolding overlay
overlay_short [] old h = refl
overlay_short (x ∷ t) [] h = absurd (omega arith)
overlay_short (x ∷ t) (y ∷ old) h = ap (λ s. x ∷ s) (overlay_short t old (omega arith))

pub concat-append : (as' bs : List Bytes) → concat (as' ++ bs) ≡ concat as' ++ concat bs
concat-append [] bs = refl
concat-append (a ∷ as') bs =
    ap (λ t. a ++ t) (concat-append as' bs) ∙ sym (append_assoc a (concat as') (concat bs))

-- Buffers that begin with parts when joined, and have their sizes, begin with these parts.
parted :
    (bufs parts : List Bytes) (sizes : List ℕ) (t : Bytes)
    → map length bufs ≡ map length parts ++ sizes
    → concat bufs ≡ concat parts ++ t
    → (others : List Bytes) × (bufs ≡ parts ++ others)
      × (map length others ≡ sizes)
      × (concat others ≡ t)
parted bufs [] sizes t l c = (bufs, refl, l, c)
parted [] (p ∷ parts) sizes t l c = cc
parted (b ∷ bufs) (p ∷ parts) sizes t l c =
    let size : length b ≡ length p = cc in
    let more : map length bufs ≡ map length parts ++ sizes = cc in
    let row = c ∙ append_assoc p (concat parts) t in
    let first : b ≡ p =
      sym (take-append (length p) b (concat bufs) size)
      ∙ ap (take (length p)) row
      ∙ take-append (length p) p (concat parts ++ t) refl in
    let rest : concat bufs ≡ concat parts ++ t =
      sym (drop-append (length p) b (concat bufs) size)
      ∙ ap (drop (length p)) row
      ∙ drop-append (length p) p (concat parts ++ t) refl in
    let (others, whole, sized, joined) = parted bufs parts sizes t more rest in
    (others, ap₂ (λ s u. s ∷ u) first whole, sized, joined)

-- A response whose first parts have the sizes of the first buffers fills these, and the rest of it
-- lies in a row at the start of the others.
pub scatter_parted :
    (parts firsts others : List Bytes) (t : Bytes)
    → map length parts ≡ map length firsts
    → length (concat parts) ≡ length (concat firsts)
    → length t ≤ length (concat others)
    → (after : List Bytes) × (scatter
          (concat parts ++ t)
          0
          (length (concat parts ++ t))
          (firsts ++ others)
        ≡ parts ++ after)
      × (map length after ≡ map length others)
      × (concat after ≡ t ++ drop (length t) (concat others))
scatter_parted parts firsts others t sizes total short =
    let (joined, kept) = concat-scatter (concat parts ++ t) (firsts ++ others) in
    parted (scatter (concat parts ++ t) 0 (length (concat parts ++ t)) (firsts ++ others)) parts
      (map length others) (t ++ drop (length t) (concat others))
      (kept ∙ map_appended length firsts others ∙ ap (λ s. s ++ map length others) (sym sizes))
      (joined
        ∙ ap (overlay (concat parts ++ t)) (concat-append firsts others)
        ∙ overlay_parts (concat parts) (concat firsts) t (concat others) total
        ∙ ap (λ s. concat parts ++ s) (overlay_short t (concat others) short))
