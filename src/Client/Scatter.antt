-- ===== src/Client/Scatter.antt =====
-- client.rs: the end of `communicate`, which distributes a response over the output buffers.
use ads_rs.Prelude.{
  ℕ, suc, ◌+◌, ◌-◌, ◌≡◌, refl, sym, ap, ◌∙◌, min, List, [], ◌∷◌, ◌++◌, arith, map, ◌==◌, ==_iff,
  if◌then◌else◌, length, length-append, take, drop, length-take, length-drop, drop-drop, Bool-cases,
  inl, inr,
}
use mathlib.Core.Path.{ap₂}
use ads_rs.Wire.{Bytes, concat}

-- The loop over the buffers, with `taken` bytes of the response distributed and `rest_len` left.
unfoldable pub scatter : Bytes → ℕ → ℕ → List Bytes → List Bytes
scatter resp taken rest_len [] = []
scatter resp taken rest_len (buf ∷ bufs) =
    let n = min (length buf) rest_len in
    let buf' = take n (drop taken resp) ++ drop n buf in
    let more = scatter resp (taken + n) (rest_len - n) bufs in
    if rest_len - n == 0 then buf' ∷ bufs else buf' ∷ more

-- The first bytes of `old` replaced by those of `new`, as far as both go.
unfoldable pub overlay : Bytes → Bytes → Bytes
overlay [] old = old
overlay (x ∷ new) [] = []
overlay (x ∷ new) (y ∷ old) = x ∷ overlay new old

overlay-nil : (new : Bytes) → overlay new [] ≡ []
unfolding overlay
overlay-nil [] = refl
overlay-nil (x ∷ new) = refl

-- Overlaying a first buffer and what follows it.
overlay-append :
    (new buf rest : Bytes)
    → overlay new (buf ++ rest)
      ≡ (take (min (length buf) (length new)) new ++ drop (min (length buf) (length new)) buf)
        ++ overlay (drop (min (length buf) (length new)) new) rest
unfolding overlay
overlay-append [] buf rest = let e : min (length buf) 0 ≡ 0 = omega arith in rw e
overlay-append (x ∷ new) [] rest = let e : min 0 (suc (length new)) ≡ 0 = omega arith in rw e
overlay-append (x ∷ new) (y ∷ buf) rest =
    let e : min (suc (length buf)) (suc (length new)) ≡ suc (min (length buf) (length new)) =
      omega arith in
    rw e (ap (λ t. x ∷ t) (overlay-append new buf rest))

pub eq_nil : (bs : Bytes) → length bs ≡ 0 → bs ≡ []
eq_nil [] h = refl
eq_nil (b ∷ bs) h = absurd (omega arith)

pub scatter-cons :
    (resp buf : Bytes) (bufs : List Bytes) (taken rest n : ℕ)
    → n ≡ min (length buf) rest
    → scatter resp taken rest (buf ∷ bufs)
      ≡ (take n (drop taken resp) ++ drop n buf)
        ∷ (if rest - n == 0 then bufs else scatter resp (taken + n) (rest - n) bufs)
unfolding scatter
scatter-cons resp buf bufs taken rest n h = rw (sym h) (ground arith)

-- What is distributed, joined, is the undistributed part of the response over the old contents.
concat-scatter_at :
    (resp : Bytes) (taken rest : ℕ) (bufs : List Bytes)
    → taken + rest ≡ length resp
    → concat (scatter resp taken rest bufs) ≡ overlay (drop taken resp) (concat bufs)
concat-scatter_at resp taken rest [] h = unfold scatter in sym (overlay-nil (drop taken resp))
concat-scatter_at resp taken rest (buf ∷ bufs) h =
    let new = drop taken resp in
    let n = min (length buf) rest in
    let size : length new ≡ rest = omega (arith, length-drop {0} taken resp) in
    let rejoin : (take n new ++ drop n buf) ++ overlay (drop n new) (concat bufs)
        ≡ overlay new (buf ++ concat bufs) =
      rw (sym size) (sym (overlay-append new buf (concat bufs))) in
    rw (scatter-cons resp buf bufs taken rest n refl) (elim (Bool-cases (rest - n == 0)) [
      | inl full ↦
          let none_left : drop n new ≡ [] =
            eq_nil (drop n new)
              (omega (arith, length-drop {0} n new, (==_iff (rest - n) 0).0 full)) in
          rw full (
            ap (λ t. (take n new ++ drop n buf) ++ t) (rw none_left (unfold overlay in refl))
            ∙ rejoin)
      | inr more ↦ rw more (
          ap (λ t. (take n new ++ drop n buf) ++ t)
            (concat-scatter_at resp (taken + n) (rest - n) bufs (omega arith)
              ∙ ap (λ t. overlay t (concat bufs)) (sym (drop-drop taken n resp)))
          ∙ rejoin)
    ])

-- The buffers keep their lengths.
pub length-scatter :
    (resp : Bytes) (taken rest : ℕ) (bufs : List Bytes)
    → taken + rest ≡ length resp
    → map length (scatter resp taken rest bufs) ≡ map length bufs
length-scatter resp taken rest [] h = unfold scatter in refl
length-scatter resp taken rest (buf ∷ bufs) h =
    let new = drop taken resp in
    let n = min (length buf) rest in
    let size : length (take n new ++ drop n buf) ≡ length buf = omega (
      arith,
      length-append {0} (take n new) (drop n buf),
      length-take {0} n new,
      length-drop {0} taken resp,
      length-drop {0} n buf,
    ) in
    rw (scatter-cons resp buf bufs taken rest n refl) (elim (Bool-cases (rest - n == 0)) [
      | inl full ↦ rw full (ap (λ t. t ∷ map length bufs) size)
      | inr more ↦
          rw more (
            ap₂ (λ s t. s ∷ t) size (length-scatter resp (taken + n) (rest - n) bufs (omega arith)))
    ])

-- Distributed from the start, the buffers keep their lengths, and joined they are the response over
-- their old contents: the response fills them in order, and what it does not reach is unchanged.
pub concat-scatter :
    (resp : Bytes) (bufs : List Bytes)
    → (concat (scatter resp 0 (length resp) bufs) ≡ overlay resp (concat bufs))
      × (map length (scatter resp 0 (length resp) bufs) ≡ map length bufs)
concat-scatter resp bufs = (
  concat-scatter_at resp 0 (length resp) bufs (omega arith),
  length-scatter resp 0 (length resp) bufs (omega arith),
)
