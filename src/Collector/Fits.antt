-- ===== src/Collector/Fits.antt =====
-- The loops of DataCollector::print_report (src/system/data_collector.cpp) over vectors that are
-- long enough.
use kist_data_collector.Common.{
  ℕ, suc, ◌≤◌, ◌≡◌, refl, List, [], ◌∷◌, length, Option, none, some, arith,
}
use kist_data_collector.Common.Text.{Text}
use kist_data_collector.Outcome.{◌>>=◌}
use kist_data_collector.Collector.{Parts, CamLast, Last}
use kist_data_collector.Collector.Report.{report_cameras, report_streams}

-- A report was made and leaves that many counters.
unfoldable pub Fits {ℓ κ} : {A : Type ℓ} {B : Type κ} → ℕ → Option (A × List B) → Type 0
Fits n none = ⊥
Fits n (some p) = length p.1 ≡ n

Fits-cons {ℓ κ} :
    {A : Type ℓ} {B : Type κ} (n : ℕ) (o : Option (A × List B)) (f : A → A) (b : B)
    → Fits n o
    → Fits (suc n) (o >>= λ p. some (f p.0, b ∷ p.1))
unfolding Fits
Fits-cons n none f b h = h
Fits-cons n (some p) f b h = omega (arith, h)

pub Fits-get {ℓ κ} :
    {A : Type ℓ} {B : Type κ} (n : ℕ) (o : Option (A × List B))
    → Fits n o
    → (p : A × List B) × (o ≡ some p) × (length p.1 ≡ n)
unfolding Fits
Fits-get n none h = elim h [ ]
Fits-get n (some p) h = (p, refl, h)

module _ (P : Parts) where
  pub report_cameras-Fits :
      (cams : List P.Camera) (ls : List CamLast)
      → length cams ≤ length ls
      → Fits (length ls) (report_cameras P cams ls)
  unfolding report_cameras Fits
  report_cameras-Fits [] ls h = refl
  report_cameras-Fits (cam ∷ cams) [] h = omega arith
  report_cameras-Fits (cam ∷ cams) (l ∷ ls) h =
      Fits-cons (length ls) (report_cameras P cams ls) _ _
        (report_cameras-Fits cams ls (omega arith))

  pub report_streams-Fits :
      (prefix : Text) (ss : List P.Stream) (ls : List Last)
      → length ss ≤ length ls
      → Fits (length ls) (report_streams P prefix ss ls)
  unfolding report_streams Fits
  report_streams-Fits prefix [] ls h = refl
  report_streams-Fits prefix (s ∷ ss) [] h = omega arith
  report_streams-Fits prefix (s ∷ ss) (l ∷ ls) h =
      Fits-cons (length ls) (report_streams P prefix ss ls) _ _
        (report_streams-Fits prefix ss ls (omega arith))
