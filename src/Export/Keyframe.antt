-- ===== src/Export/Keyframe.antt =====
-- How the loops of read_index in src/export/export_color_to_mp4.cpp and export_color_to_images.cpp
-- keep track of the first keyframe.
use kist_data_collector.Common.{
  ℕ, suc, ◌+◌, ◌<◌, ◌≡◌, ◌≢◌, refl, sym, ◌∙◌, List, [], ◌∷◌, ◌&&◌, ◌==◌, if◌then◌else◌, length,
  arith, Bool-cases, inl, inr,
}
use kist_data_collector.Export.Line.{ColorLine}
use kist_data_collector.Export.Reading.{each_row}
use kist_data_collector.Export.ColorIndex.{size_max, is_set}

-- The position of the first line whose key flag is set, counted from `n`.
abbrev pub first_key_of : ℕ → List ColorLine → ℕ
first_key_of n [] = size_max
first_key_of n (r ∷ rs) = let later = first_key_of (suc n) rs in if is_set r.key then n else later

-- The offset of that line.
abbrev pub cut_of : ℕ → List ColorLine → ℕ
cut_of cut [] = cut
cut_of cut (r ∷ rs) = let later = cut_of cut rs in if is_set r.key then r.offset else later

-- How a loop keeps track of the first keyframe.
module _ {X : Type 0} (add : ColorLine → X → X) (count first_key : X → ℕ)
    (counts : (r : ColorLine) (x : X) → count (add r x) ≡ suc (count x))
    (marks : (r : ColorLine) (x : X)
      → first_key (add r x)
        ≡ (if is_set r.key && first_key x == size_max then count x else first_key x)) where
  found :
      (rs : List ColorLine) (x : X)
      → first_key x ≢ size_max
      → first_key (each_row add rs x) ≡ first_key x
  found [] x h = refl
  found (r ∷ rs) x h =
      let kept : first_key (add r x) ≡ first_key x = ground (arith, marks r x, h) in
      found rs (add r x) (λ e. h (sym kept ∙ e)) ∙ kept

  pub first_key-each_row :
      (rs : List ColorLine) (x : X)
      → first_key x ≡ size_max
      → count x + length rs < size_max
      → first_key (each_row add rs x) ≡ first_key_of (count x) rs
  first_key-each_row [] x e h = e
  first_key-each_row (r ∷ rs) x e h = elim (Bool-cases (is_set r.key)) [
    | inl k ↦
        let here : first_key (add r x) ≡ count x = ground (arith, marks r x, e, k) in
        found rs (add r x) (omega (arith, here)) ∙ ground (arith, here, k)
    | inr k ↦
        let none_yet : first_key (add r x) ≡ size_max = ground (arith, marks r x, e, k) in
        first_key-each_row rs (add r x) none_yet (omega (arith, counts r x))
        ∙ ground (arith, counts r x, k)
  ]

  module _ (cut : X → ℕ)
      (cuts : (r : ColorLine) (x : X)
        → cut (add r x)
          ≡ (if is_set r.key && first_key x == size_max then r.offset else cut x)) where
    settled :
        (rs : List ColorLine) (x : X) → first_key x ≢ size_max → cut (each_row add rs x) ≡ cut x
    settled [] x h = refl
    settled (r ∷ rs) x h =
        let kept : first_key (add r x) ≡ first_key x = ground (arith, marks r x, h) in
        settled rs (add r x) (λ e. h (sym kept ∙ e)) ∙ ground (arith, cuts r x, h)

    pub cut-each_row :
        (rs : List ColorLine) (x : X)
        → first_key x ≡ size_max
        → count x + length rs < size_max
        → cut (each_row add rs x) ≡ cut_of (cut x) rs
    cut-each_row [] x e h = refl
    cut-each_row (r ∷ rs) x e h = elim (Bool-cases (is_set r.key)) [
      | inl k ↦
          let here : first_key (add r x) ≡ count x = ground (arith, marks r x, e, k) in
          settled rs (add r x) (omega (arith, here)) ∙ ground (arith, cuts r x, e, k)
      | inr k ↦
          let none_yet : first_key (add r x) ≡ size_max = ground (arith, marks r x, e, k) in
          cut-each_row rs (add r x) none_yet (omega (arith, counts r x))
          ∙ ground (arith, cuts r x, k)
    ]
