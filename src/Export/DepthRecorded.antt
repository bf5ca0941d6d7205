-- ===== src/Export/DepthRecorded.antt =====
-- The depth exporters (src/export/export_depth_to_mp4.cpp, src/export/export_depth_to_images.cpp) on
-- the files that the camera recorder (src/system/realsense_recorder.cpp) leaves.
use kist_data_collector.Common.{
  ℕ, suc, ◌<◌, ◌≤◌, ◌≡◌, refl, ap, List, [], ◌∷◌, Bool, true, false, not, ◌||◌, some, ltb, ◌==◌,
  if-holds, arith, length,
}
use kist_data_collector.Common.Text.{Text}
use kist_data_collector.Blob.Index.{Slices}
use kist_data_collector.Schema.{Floats}
use kist_data_collector.Fleet.{depth_frames}
use kist_data_collector.Export.DepthLine.{FloatScan}
use kist_data_collector.Export.DepthIndex.{
  DepthMp4Row, DepthImageRow, read_depth_mp4_index, read_depth_image_index,
}
use kist_data_collector.Export.DepthReading.{
  DepthFrames, DepthFits, depth_index_file, Mp4Extracts, ImageExtracts,
  read_depth_indices-index_file,
}
use kist_data_collector.Export.Slices.{export_rows-all, Reads, outputs, read_at-slice}
use kist_data_collector.Export.DepthRuns.{
  DepthExport, DepthResult, RvlDepthFrame, Png, nothing_yet, mp4_frame, png_of, png_name,
  depth_mp4_rows, depth_image_rows, run_depth_mp4, run_depth_images,
}

module _ (R : Floats) (S : FloatScan R) where
  open S use {six_digits}

  abbrev payloads_of : DepthFrames R S → List Text
  payloads_of [] = []
  payloads_of ((f, t) ∷ xs) = f.payload ∷ payloads_of xs

  -- Frame by frame: what the decoder got is what was recorded, with the scale to six digits.
  abbrev pub Decoded : List (RvlDepthFrame R S) → DepthFrames R S → Type 0
  Decoded [] [] = Unit {0}
  Decoded (w ∷ ws) ((f, t) ∷ xs) =
      (w.width ≡ f.width)
      × (w.height ≡ f.height)
      × (w.depth_scale ≡ six_digits f.depth_scale)
      × (w.payload ≡ f.payload)
      × Decoded ws xs
  Decoded _ _ = ⊥

  -- The same, with each file named for its frame's sequence number.
  abbrev pub Named : List (Png R S) → DepthFrames R S → Type 0
  Named [] [] = Unit {0}
  Named (w ∷ ws) ((f, t) ∷ xs) =
      (w.name ≡ png_name R S f.sequence)
      × (w.frame.width ≡ f.width)
      × (w.frame.height ≡ f.height)
      × (w.frame.depth_scale ≡ six_digits f.depth_scale)
      × (w.frame.payload ≡ f.payload)
      × Named ws xs
  Named _ _ = ⊥

  mp4_slices :
      (blob : Text) (rows : List (DepthMp4Row R S)) (xs : DepthFrames R S)
      → Mp4Extracts R S blob rows xs
      → Reads DepthMp4Row.offset DepthMp4Row.size blob rows (payloads_of xs)
        × Decoded (outputs (mp4_frame R S) rows (payloads_of xs)) xs
        × (length (outputs (mp4_frame R S) rows (payloads_of xs)) ≡ length rows)
        × (length rows ≡ length xs)
  mp4_slices blob [] [] v = (tt, tt, refl, refl)
  mp4_slices blob [] (x ∷ xs) v = elim v [ ]
  mp4_slices blob (r ∷ rows) [] v = elim v [ ]
  mp4_slices blob (r ∷ rows) ((f, t) ∷ xs) (_, w, h, s, same, cut, later) =
      let (reads, decoded, all, count) = mp4_slices blob rows xs later in
      (
        (read_at-slice blob f.payload r.offset r.size same cut, reads),
        (w, h, s, refl, decoded),
        ap suc all,
        ap suc count,
      )

  image_slices :
      (blob : Text) (rows : List (DepthImageRow R S)) (xs : DepthFrames R S)
      → ImageExtracts R S blob rows xs
      → Reads DepthImageRow.offset DepthImageRow.size blob rows (payloads_of xs)
        × Named (outputs (png_of R S) rows (payloads_of xs)) xs
        × (length (outputs (png_of R S) rows (payloads_of xs)) ≡ length rows)
        × (length rows ≡ length xs)
  image_slices blob [] [] v = (tt, tt, refl, refl)
  image_slices blob [] (x ∷ xs) v = elim v [ ]
  image_slices blob (r ∷ rows) [] v = elim v [ ]
  image_slices blob (r ∷ rows) ((f, t) ∷ xs) (q, w, h, s, same, cut, later) =
      let (reads, named, all, count) = image_slices blob rows xs later in
      (
        (read_at-slice blob f.payload r.offset r.size same cut, reads),
        (ap (png_name R S) q, w, h, s, refl, named),
        ap suc all,
        ap suc count,
      )

  mp4_rows-recorded :
      (e : DepthExport) (blob : Text) (rows : List (DepthMp4Row R S)) (xs : DepthFrames R S)
      → Mp4Extracts R S blob rows xs
      → 2 ≤ length xs
      → e.opens ≡ true
      → ((i : ℕ) → e.cancelled i ≡ false)
      → e.cancelled_at_end ≡ false
      → ((depth_mp4_rows R S e rows (some blob)).ok ≡ true)
        × Decoded (depth_mp4_rows R S e rows (some blob)).written xs
  unfolding depth_mp4_rows
  mp4_rows-recorded e blob rows xs v two o c end =
      let (reads, decoded, all, count) = mp4_slices blob rows xs v in
      let whole =
        export_rows-all DepthMp4Row.offset DepthMp4Row.size (mp4_frame R S) (λ f. true) e.cancelled
          blob rows (payloads_of xs) nothing_yet reads (λ f. refl) c in
      if-holds (λ (r : DepthResult (RvlDepthFrame R S)). (r.ok ≡ true) × Decoded r.written xs)
        (ltb (length rows) 2 || not e.opens) _ _ (λ h. absurd (ground (arith, h, count, two, o)))
        λ _. rw (whole) (ground (arith, all, end), decoded)

  image_rows-recorded :
      (imwrite : Png R S → Bool) (e : DepthExport) (blob : Text) (rows : List (DepthImageRow R S))
      (xs : DepthFrames R S)
      → ImageExtracts R S blob rows xs
      → 0 < length xs
      → ((p : Png R S) → imwrite p ≡ true)
      → ((i : ℕ) → e.cancelled i ≡ false)
      → e.cancelled_at_end ≡ false
      → ((depth_image_rows R S imwrite e rows (some blob)).ok ≡ true)
        × Named (depth_image_rows R S imwrite e rows (some blob)).written xs
  unfolding depth_image_rows
  image_rows-recorded imwrite e blob rows xs v some_frame a c end =
      let (reads, named, all, count) = image_slices blob rows xs v in
      let whole =
        export_rows-all DepthImageRow.offset DepthImageRow.size (png_of R S) imwrite e.cancelled
          blob rows (payloads_of xs) nothing_yet reads a c in
      if-holds (λ (r : DepthResult (Png R S)). (r.ok ≡ true) × Named r.written xs)
        (length rows == 0) _ _ (λ h. absurd (ground (arith, h, count, some_frame)))
        λ _. rw (whole) (ground (arith, all, end), named)

  -- On the files of a recording, a run of the depth mp4 exporter that nothing cancels succeeds, and
  -- its VideoWriter has got every recorded frame, in order, decoded from its payload, size and scale,
  -- the scale to six digits; provided that the blob and the writer open, that the blob is cut by the
  -- offsets into the payloads, that two frames were recorded and that the frames' fields fit their
  -- types.
  pub run_depth_mp4-recorded :
      (e : DepthExport) (blob : Text) (xs : DepthFrames R S)
      → Slices (depth_frames R) blob 0 xs
      → DepthFits R S xs
      → 2 ≤ length xs
      → e.blob ≡ some blob
      → e.opens ≡ true
      → ((i : ℕ) → e.cancelled i ≡ false)
      → e.cancelled_at_end ≡ false
      → ((run_depth_mp4 R S e (depth_index_file R S xs)).ok ≡ true)
        × Decoded (run_depth_mp4 R S e (depth_index_file R S xs)).written xs
  unfolding run_depth_mp4 depth_mp4_rows
  run_depth_mp4-recorded e blob xs cuts v two b o c end =
      let rows = read_depth_mp4_index R S (depth_index_file R S xs) in
      rw (b) (
        mp4_rows-recorded e blob rows xs (read_depth_indices-index_file R S blob xs cuts v).0 two o
          c end)

  -- On the files of a recording, a run of the depth image exporter that nothing cancels succeeds, and
  -- has written one png for each recorded frame, in order, named for the frame's sequence number and
  -- decoded from its payload, size and scale, the scale to six digits; provided that the blob opens
  -- and is cut by the offsets into the payloads, that OpenCV writes every file, that a frame was
  -- recorded and that the frames' fields fit their types.
  pub run_depth_images-recorded :
      (imwrite : Png R S → Bool) (e : DepthExport) (blob : Text) (xs : DepthFrames R S)
      → Slices (depth_frames R) blob 0 xs
      → DepthFits R S xs
      → 0 < length xs
      → e.blob ≡ some blob
      → ((p : Png R S) → imwrite p ≡ true)
      → ((i : ℕ) → e.cancelled i ≡ false)
      → e.cancelled_at_end ≡ false
      → ((run_depth_images R S imwrite e (depth_index_file R S xs)).ok ≡ true)
        × Named (run_depth_images R S imwrite e (depth_index_file R S xs)).written xs
  unfolding run_depth_images depth_image_rows
  run_depth_images-recorded imwrite e blob xs cuts v some_frame b a c end =
      let rows = read_depth_image_index R S (depth_index_file R S xs) in
      rw (b) (
        image_rows-recorded imwrite e blob rows xs
          (read_depth_indices-index_file R S blob xs cuts v).1 some_frame a c end)
