-- ===== src/Export/DepthComplete.antt =====
-- When the runs of src/export/export_depth_to_mp4.cpp and src/export/export_depth_to_images.cpp report
-- success, and what they have then written.
use kist_data_collector.Common.{
  ℕ, ◌≡◌, refl, List, Bool, true, not, ◌||◌, Option, none, some, ◌==◌, ltb, if-holds, length, arith,
}
use kist_data_collector.Common.Text.{Text}
use kist_data_collector.Schema.{Floats}
use kist_data_collector.Export.DepthLine.{FloatScan}
use kist_data_collector.Export.DepthIndex.{
  DepthMp4Row, DepthImageRow, read_depth_mp4_index, read_depth_image_index,
}
use kist_data_collector.Export.DepthRuns.{
  DepthExport, DepthResult, RvlDepthFrame, Png, nothing_yet, mp4_frame, png_of, depth_mp4_rows,
  depth_image_rows, run_depth_mp4, run_depth_images,
}
use kist_data_collector.Export.Slices.{Reads, outputs, export_rows-Whole}

-- Each row has a slice of the blob, and what is written is what the slices call for, in order.
abbrev pub Complete :
    {Row A : Type 0}
    → (offset size : Row → ℕ) → (Row → Text → A)
    → List Row
    → Option Text
    → List A
    → Type 0
Complete offset size out rows o written =
    (blob : Text) × (o ≡ some blob)
    × (slices : List Text) × Reads offset size blob rows slices
    × (written ≡ outputs out rows slices)

module _ (R : Floats) (S : FloatScan R) where
  mp4_rows_ok :
      (e : DepthExport) (rows : List (DepthMp4Row R S)) (o : Option Text)
      → (depth_mp4_rows R S e rows o).ok ≡ true
      → Complete DepthMp4Row.offset DepthMp4Row.size
          (mp4_frame R S)
          rows
          o
          (depth_mp4_rows R S e rows o).written
  unfolding depth_mp4_rows
  mp4_rows_ok e rows none = λ h. ground (arith, h)
  mp4_rows_ok e rows (some blob) =
      if-holds
        (λ (x : DepthResult (RvlDepthFrame R S)).
          x.ok ≡ true
          → Complete DepthMp4Row.offset DepthMp4Row.size (mp4_frame R S) rows (some blob) x.written)
        (ltb (length rows) 2 || not e.opens) _ _ (λ _ h. ground (arith, h))
        λ _ h.
          let (slices, reads, same) =
            export_rows-Whole DepthMp4Row.offset DepthMp4Row.size (mp4_frame R S) (λ f. true)
              e.cancelled blob rows nothing_yet (ground (arith, h)) in
          (blob, refl, slices, reads, same)

  image_rows_ok :
      (imwrite : Png R S → Bool) (e : DepthExport) (rows : List (DepthImageRow R S))
      (o : Option Text)
      → (depth_image_rows R S imwrite e rows o).ok ≡ true
      → Complete DepthImageRow.offset DepthImageRow.size
          (png_of R S)
          rows
          o
          (depth_image_rows R S imwrite e rows o).written
  unfolding depth_image_rows
  image_rows_ok imwrite e rows none = λ h. ground (arith, h)
  image_rows_ok imwrite e rows (some blob) =
      if-holds
        (λ (x : DepthResult (Png R S)).
          x.ok ≡ true
          → Complete DepthImageRow.offset DepthImageRow.size (png_of R S) rows (some blob)
              x.written)
        (length rows == 0) _ _ (λ _ h. ground (arith, h))
        λ _ h.
          let (slices, reads, same) =
            export_rows-Whole DepthImageRow.offset DepthImageRow.size (png_of R S) imwrite
              e.cancelled blob rows nothing_yet (ground (arith, h)) in
          (blob, refl, slices, reads, same)

  -- A run of the depth mp4 exporter that reports success has read every row's slice off the blob, and
  -- given the VideoWriter one frame for each row, in order.
  pub run_depth_mp4_ok :
      (e : DepthExport) (idx : Text)
      → (run_depth_mp4 R S e idx).ok ≡ true
      → Complete DepthMp4Row.offset DepthMp4Row.size
          (mp4_frame R S)
          (read_depth_mp4_index R S idx)
          e.blob
          (run_depth_mp4 R S e idx).written
  unfolding run_depth_mp4
  run_depth_mp4_ok e idx = mp4_rows_ok e (read_depth_mp4_index R S idx) e.blob

  -- A run of the depth image exporter that reports success, whatever the index, has read every row's
  -- slice off the blob and written one png for each row, in order, from that slice and under the
  -- row's sequence number.
  pub run_depth_images_ok :
      (imwrite : Png R S → Bool) (e : DepthExport) (idx : Text)
      → (run_depth_images R S imwrite e idx).ok ≡ true
      → Complete DepthImageRow.offset DepthImageRow.size
          (png_of R S)
          (read_depth_image_index R S idx)
          e.blob
          (run_depth_images R S imwrite e idx).written
  unfolding run_depth_images
  run_depth_images_ok imwrite e idx =
      image_rows_ok imwrite e (read_depth_image_index R S idx) e.blob
