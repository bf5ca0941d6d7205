-- ===== src/Blob/Index.antt =====
-- What the two files of a BlobRecorder are to hold (include/common/blob_recorder.hpp), as functions
-- of the frames written: the payloads end to end, and for each frame a row with its slice.
use kist_data_collector.Common.{
  ℕ, ◌+◌, ◌<◌, ◌≡◌, refl, sym, ap, ◌∙◌, List, [], ◌∷◌, ◌++◌, append-nil, append_assoc, length, take,
  drop, length-append, take-append, drop-append, arith, subst, u64, u64_mod,
}
use kist_data_collector.Common.Text.{Text}
use kist_data_collector.Common.Int.{ℤ}
use kist_data_collector.Blob.{FrameType}
use kist_data_collector.Blob.Sink.{index_line}

module _ (F : FrameType) where
  abbrev pub Frames : Type 0
  Frames = List (F.Frame × ℤ)

  abbrev pub blob_bytes : Frames → Text
  blob_bytes [] = []
  blob_bytes ((f, t) ∷ xs) = F.payload f ++ blob_bytes xs

  -- The rows from a given offset on.
  abbrev pub index_text : ℕ → Frames → Text
  index_text offset [] = []
  index_text offset ((f, t) ∷ xs) =
      index_line (F.row f t) offset (length (F.payload f))
      ++ index_text (u64 (offset + length (F.payload f))) xs

  abbrev pub offset_after : ℕ → Frames → ℕ
  offset_after offset [] = offset
  offset_after offset ((f, t) ∷ xs) = offset_after (u64 (offset + length (F.payload f))) xs

  -- Cutting the bytes at each row's offset and size gives that row's payload.
  abbrev pub Slices : Text → ℕ → Frames → Type 0
  Slices bytes offset [] = Unit {0}
  Slices bytes offset ((f, t) ∷ xs) =
      (take (length (F.payload f)) (drop offset bytes) ≡ F.payload f)
      × Slices bytes (u64 (offset + length (F.payload f))) xs

  pub blob_bytes-snoc :
      (xs : Frames) (f : F.Frame) (t : ℤ)
      → blob_bytes (xs ++ (f, t) ∷ []) ≡ blob_bytes xs ++ F.payload f
  blob_bytes-snoc [] f t = append-nil (F.payload f)
  blob_bytes-snoc ((g, s) ∷ xs) f t =
      ap (◌++◌ (F.payload g)) (blob_bytes-snoc xs f t)
      ∙ sym (append_assoc (F.payload g) (blob_bytes xs) (F.payload f))

  pub offset_after-snoc :
      (offset : ℕ) (xs : Frames) (f : F.Frame) (t : ℤ)
      → offset_after offset (xs ++ (f, t) ∷ [])
        ≡ u64 (offset_after offset xs + length (F.payload f))
  offset_after-snoc offset [] f t = refl
  offset_after-snoc offset ((g, s) ∷ xs) f t =
      offset_after-snoc (u64 (offset + length (F.payload g))) xs f t

  pub index_text-snoc :
      (offset : ℕ) (xs : Frames) (f : F.Frame) (t : ℤ)
      → index_text offset (xs ++ (f, t) ∷ [])
        ≡ index_text offset xs
          ++ index_line (F.row f t) (offset_after offset xs) (length (F.payload f))
  index_text-snoc offset [] f t = append-nil _
  index_text-snoc offset ((g, s) ∷ xs) f t =
      ap (◌++◌ (index_line (F.row g s) offset (length (F.payload g))))
        (index_text-snoc (u64 (offset + length (F.payload g))) xs f t)
      ∙ sym (append_assoc (index_line (F.row g s) offset (length (F.payload g))) _ _)

  cut :
      (before p after : Text) → take (length p) (drop (length before) (before ++ (p ++ after))) ≡ p
  cut before p after = rw (drop-append before (p ++ after)) (take-append p after)

  -- The rows cut the blob into the payloads, behind any bytes and in front of any bytes, as long as
  -- the offsets do not wrap.
  pub Slices-blob_bytes :
      (before : Text) (xs : Frames) (after : Text)
      → length before + length (blob_bytes xs) < u64_mod
      → Slices (before ++ (blob_bytes xs ++ after)) (length before) xs
  Slices-blob_bytes before [] after h = tt
  Slices-blob_bytes before ((f, t) ∷ xs) after h = (
    subst (λ b. take (length p) (drop (length before) (before ++ b)) ≡ p)
        (sym (append_assoc p (blob_bytes xs) after)) (cut before p (blob_bytes xs ++ after)),
    subst (λ o. Slices (before ++ ((p ++ blob_bytes xs) ++ after)) o xs)
        (omega (arith, length-append before p, length-append p (blob_bytes xs)))
        (subst (λ b. Slices b (length (before ++ p)) xs) regroup
          (Slices-blob_bytes (before ++ p) xs after
            (omega (arith, length-append before p, length-append p (blob_bytes xs))))),
  )
    where
      p : Text
      p = F.payload f

      regroup :
          (before ++ p) ++ (blob_bytes xs ++ after) ≡ before ++ ((p ++ blob_bytes xs) ++ after)
      regroup =
          append_assoc before p (blob_bytes xs ++ after)
          ∙ ap (◌++◌ before) (sym (append_assoc p (blob_bytes xs) after))
