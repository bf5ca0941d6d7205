-- ===== src/Export/Slices.antt =====
-- The loops of src/export/export_depth_to_mp4.cpp and export_depth_to_images.cpp over the rows of an
-- index: one slice of the blob for each row.
use kist_data_collector.Common.{
  ℕ, suc, ◌+◌, ◌≡◌, sym, ap, ◌∙◌, List, [], ◌∷◌, ◌++◌, append_assoc, append-nil, Bool, true, false,
  ◌||◌, Option, none, some, Option-cases, inl, inr, ◌==◌, leb, if◌then◌else◌, if-holds, arith,
  length, length-append, take, drop, length-take, length-drop,
}
use kist_data_collector.Common.Text.{Text}

-- `seekg` and `read` on the blob; `none` if the stream is not good after them.
unfoldable pub read_at : Text → ℕ → ℕ → Option Text
read_at blob offset size =
    if size == 0 || leb (offset + size) (length blob)
    then some (take size (drop offset blob))
    else none

-- A slice of the blob that is as long as it should be can be read.
pub read_at-slice :
    (blob p : Text) (offset size : ℕ)
    → size ≡ length p
    → take size (drop offset blob) ≡ p
    → read_at blob offset size ≡ some p
unfolding read_at
read_at-slice blob p offset size same cut =
    if-holds (λ o. o ≡ some p) (size == 0 || leb (offset + size) (length blob)) _ _
      (λ _. ap some cut)
      λ h. absurd (
        ground (
          arith,
          h,
          same,
          ap length cut,
          length-take size (drop offset blob),
          length-drop offset blob,
        ))

-- What the loop has written, in order, and `io_ok`.
pub record Exported (A : Type 0) : Type 0 where
  pub written : List A
  pub io_ok : Bool

abbrev pub with_slice : {X : Type 0} → Option Text → X → (Text → X) → X
with_slice none stop go = stop
with_slice (some bytes) stop go = go bytes

-- Each row's slice can be read, and is the given text.
abbrev pub Reads : {Row : Type 0} → (offset size : Row → ℕ) → Text → List Row → List Text → Type 0
Reads offset size blob [] [] = Unit {0}
Reads offset size blob (r ∷ rows) (p ∷ ps) =
    (read_at blob (offset r) (size r) ≡ some p) × Reads offset size blob rows ps
Reads offset size blob _ _ = ⊥

-- What is written for all rows.
abbrev pub outputs : {Row A : Type 0} → (Row → Text → A) → List Row → List Text → List A
outputs out [] ps = []
outputs out (r ∷ rows) [] = []
outputs out (r ∷ rows) (p ∷ ps) = out r p ∷ outputs out rows ps

-- A row has a slice; `out` is what is written for it, `accepts` whether writing it works, and
-- `cancelled i` what `cancel_` is when it is looked at with `i` frames written.
module _ {Row A : Type 0} (offset size : Row → ℕ) (out : Row → Text → A) (accepts : A → Bool)
    (cancelled : ℕ → Bool) (blob : Text) where
  unfoldable pub export_rows : List Row → Exported A → Exported A
  unfolding read_at
  export_rows [] x = x
  export_rows (r ∷ rows) x =
      if cancelled (length x.written)
      then x
      else with_slice (read_at blob (offset r) (size r)) (record x { io_ok = false })
          (λ bytes.
            let later = export_rows rows (record x { written = x.written ++ out r bytes ∷ [] }) in
            if accepts (out r bytes) then later else record x { io_ok = false })

  -- With every slice readable, nothing cancelled and nothing refused, everything is written.
  pub export_rows-all :
      (rows : List Row) (ps : List Text) (x : Exported A)
      → Reads offset size blob rows ps
      → ((a : A) → accepts a ≡ true)
      → ((i : ℕ) → cancelled i ≡ false)
      → export_rows rows x ≡ record x { written = x.written ++ outputs out rows ps }
  unfolding export_rows
  export_rows-all [] [] x v a c = ap (λ w. record x { written = w }) (sym (append-nil x.written))
  export_rows-all [] (p ∷ ps) x v a c = elim v [ ]
  export_rows-all (r ∷ rows) [] x v a c = elim v [ ]
  export_rows-all (r ∷ rows) (p ∷ ps) x (here, later) a c =
      rw (c (length x.written), here, a (out r p))
        (export_rows-all rows ps (record x { written = x.written ++ out r p ∷ [] }) later a c
          ∙ ap (λ w. record x { written = w })
              (append_assoc x.written (out r p ∷ []) (outputs out rows ps)))

  -- What the loop has written when it has written once for each row.
  abbrev Whole : List Row → Exported A → Exported A → Type 0
  Whole rows x y =
      length y.written ≡ length x.written + length rows
      → (ps : List Text) × Reads offset size blob rows ps
        × (y.written ≡ x.written ++ outputs out rows ps)

  pub export_rows-Whole : (rows : List Row) (x : Exported A) → Whole rows x (export_rows rows x)
  unfolding export_rows
  export_rows-Whole [] x = λ h. ([], tt, sym (append-nil x.written))
  export_rows-Whole (r ∷ rows) x =
      if-holds (Whole (r ∷ rows) x) (cancelled (length x.written)) _ _ (λ _. stopped)
        λ _. elim (Option-cases (read_at blob (offset r) (size r))) [
          | inl e ↦ rw (e) stopped
          | inr (bytes, e) ↦ rw (e) (
              if-holds (Whole (r ∷ rows) x) (accepts (out r bytes)) _ _
                (λ _ h.
                  let (ps, reads, same) =
                    export_rows-Whole rows (record x { written = x.written ++ out r bytes ∷ [] })
                      (omega (arith, h, length-append x.written (out r bytes ∷ []))) in
                  (
                    bytes ∷ ps,
                    (e, reads),
                    same ∙ append_assoc x.written (out r bytes ∷ []) (outputs out rows ps),
                  ))
                (λ _. stopped))
        ]
    where
      stopped :
          length x.written ≡ length x.written + suc (length rows)
          → (ps : List Text) × Reads offset size blob (r ∷ rows) ps
            × (x.written ≡ x.written ++ outputs out (r ∷ rows) ps)
      stopped h = absurd (omega (arith, h))
