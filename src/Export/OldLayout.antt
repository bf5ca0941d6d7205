-- ===== src/Export/OldLayout.antt =====
-- The indices of older recordings (read_index of src/export/export_depth_to_mp4.cpp and
-- export_depth_to_images.cpp): the longer format fails on a line of the shorter layout.
use kist_data_collector.Common.{
  ℕ, suc, ◌≤◌, ◌<◌, ◌≡◌, refl, ap, ◌∙◌, [], ◌∷◌, Option, none, some, arith, inl, inr, Option-cases,
}
use kist_data_collector.Common.Text.{Text, commas, commas-decimal, commas-decimal_ℤ, commas-append}
use kist_data_collector.Common.Int.{ℤ}
use kist_data_collector.Common.Scan.{scan_unsigned, scan_signed}
use kist_data_collector.Common.Scan.Commas.{Eats, scan_unsigned-Eats, scan_signed-Eats}
use kist_data_collector.Outcome.{◌>>=◌}
use kist_data_collector.Schema.{Floats}
use kist_data_collector.Schema.Frames.{DepthFrame}
use kist_data_collector.Export.Line.{literal, field}
use kist_data_collector.Export.DepthLine.{
  FloatScan, or_else, scan_depth_line, scan_old_line, scan_either, old_line, depth_line,
  scan-old_line,
}

literal-commas :
    {A : Type 0} (p : A × Text) {a : A} {rest : Text}
    → literal p ≡ some (a, rest)
    → suc (commas rest) ≤ commas p.1
unfolding literal
literal-commas (b, []) e = ground (arith, e)
literal-commas (b, c ∷ s) e = ground (arith, e)

-- A format with `k` commas fails on a text with fewer.
abbrev Needs : {B : Type 0} → ℕ → (Text → Option B) → Type 0
Needs k g = (s : Text) → commas s < k → g s ≡ none

Needs-field :
    {A B : Type 0} (k : ℕ) (scan : Text → Option (A × Text)) (g : A × Text → Option B)
    → Eats scan
    → ((a : A) → Needs k (λ s. g (a, s)))
    → Needs (suc k) (λ s. field scan s >>= g)
Needs-field k scan g eats next s h = elim (Option-cases (scan s)) [
  | inl e ↦ rw (e) refl
  | inr (p, e) ↦ rw (e) (elim (Option-cases (literal p)) [
    | inl l ↦ rw (l) refl
    | inr (q, l) ↦ rw (l) (next q.0 q.1 (omega (arith, literal-commas p l, eats s p.0 p.1 e)))
  ])
]

module _ (R : Floats) (S : FloatScan R) where
  open S use {scan_float, scan_float-commas}

  float-Eats : Eats scan_float
  float-Eats s x rest e = scan_float-commas s e

  scan_depth_line-Needs : Needs 11 (scan_depth_line R S)
  unfolding scan_depth_line
  scan_depth_line-Needs = Needs-field 10 scan_unsigned _ scan_unsigned-Eats λ seq.
      Needs-field 9 scan_signed _ scan_signed-Eats λ stamp_ns.
        Needs-field 8 scan_signed _ scan_signed-Eats λ recv_ns.
          Needs-field 7 scan_signed _ scan_signed-Eats λ w.
            Needs-field 6 scan_signed _ scan_signed-Eats λ h.
              Needs-field 5 scan_float _ float-Eats λ scale.
                Needs-field 4 scan_float _ float-Eats λ fx.
                  Needs-field 3 scan_float _ float-Eats λ fy.
                    Needs-field 2 scan_float _ float-Eats λ cx.
                      Needs-field 1 scan_float _ float-Eats λ cy.
                        Needs-field 0 scan_unsigned _ scan_unsigned-Eats
                          λ offset s h. absurd (omega arith)

  either_old :
      (line : Text)
      → scan_depth_line R S line ≡ none
      → scan_either R S line ≡ scan_old_line R S line
  unfolding scan_either
  either_old line e = ap (λ o. or_else o (scan_old_line R S line)) e

  -- A line in the layout of the older recordings, without the four intrinsics, is read as the same
  -- row, wherever the float conversion stops.
  pub scan_either-old_line :
      (f : DepthFrame R) (t : ℤ) (offset size : ℕ)
      → scan_either R S (old_line R S f t offset size) ≡ some (depth_line R S f t offset size)
  scan_either-old_line f t offset size =
      either_old (old_line R S f t offset size) (
        scan_depth_line-Needs (old_line R S f t offset size) (
          omega
            (arith, commas-append, commas-decimal, commas-decimal_ℤ, R.commas-g6 f.depth_scale)))
      ∙ scan-old_line R S f t offset size
