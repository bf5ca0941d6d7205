-- ===== src/Tests/Depth.antt =====
-- The depth exporters at a recording of two frames, and the older layout of the index.
use kist_data_collector.Common.{
  ℕ, zero, suc, ◌≤◌, ◌≡◌, refl, [], ◌∷◌, true, false, some, Option, drop, arith,
}
use kist_data_collector.Common.Text.{Text, commas}
use kist_data_collector.Common.Int.{pos}
use kist_data_collector.Schema.Frames.{IsDepthFrame}
use kist_data_collector.Export.DepthLine.{FloatScan, scan_either, old_line, depth_line}
use kist_data_collector.Export.OldLayout.{scan_either-old_line}
use kist_data_collector.Export.DepthReading.{DepthFrames, DepthFits, depth_index_file}
use kist_data_collector.Export.DepthComplete.{Complete, run_depth_images_ok}
use kist_data_collector.Export.DepthIndex.{DepthImageRow, read_depth_image_index}
use kist_data_collector.Export.DepthRuns.{DepthExport, png_of, run_depth_images}
use kist_data_collector.Export.DepthRecorded.{Named, run_depth_images-recorded}
use kist_data_collector.Tests.Schema.{halves, depth_frame}

commas-drop : (n : ℕ) (s : Text) → commas (drop n s) ≤ commas s
commas-drop zero s = omega arith
commas-drop (suc n) [] = omega arith
commas-drop (suc n) (c ∷ s) = ground (arith, commas-drop n s)

-- Every number is four characters long.
abbrev pub scan_half : Text → Option (ℕ × Text)
scan_half s = some (0, drop 4 s)

pub scan_half-commas :
    (s : Text) {x : ℕ} {rest : Text} → scan_half s ≡ some (x, rest) → commas rest ≤ commas s
scan_half-commas s {x} {rest} e = ground (arith, e, commas-drop 4 s)

abbrev pub half_scan : FloatScan halves
half_scan = record {
  scan_float = scan_half;
  six_digits = λ x. 0;
  scan-g6 = λ x rest. refl;
  Lacks-g6 = λ x. (refl, (refl, (refl, (refl, tt))));
  scan_float-commas = scan_half-commas;
}

scan_either-old_line_example :
    scan_either halves half_scan (old_line halves half_scan depth_frame (pos 100) 6 2)
    ≡ some (depth_line halves half_scan depth_frame (pos 100) 6 2)
scan_either-old_line_example = scan_either-old_line halves half_scan depth_frame (pos 100) 6 2

abbrev pub depths : DepthFrames halves half_scan
depths = (depth_frame, pos 1000) ∷ (depth_frame, pos 2000) ∷ []

abbrev pub blob : Text
blob = 1 ∷ 2 ∷ 1 ∷ 2 ∷ []

depth_frame-IsDepthFrame : IsDepthFrame halves depth_frame
depth_frame-IsDepthFrame = record {
  sequence_fits = omega arith;
  stamp_fits = omega arith;
  width_fits = omega arith;
  height_fits = omega arith;
}

pub depths-DepthFits : DepthFits halves half_scan depths
depths-DepthFits =
    ((omega arith, depth_frame-IsDepthFrame), ((omega arith, depth_frame-IsDepthFrame), tt))

abbrev pub exporting : DepthExport
exporting = record {
  blob = some blob;
  opens = true;
  cancelled = λ i. false;
  cancelled_at_end = false;
}

run_depth_images-recorded_example :
    ((run_depth_images halves half_scan
        (λ p. true)
        exporting
        (depth_index_file halves half_scan depths)).ok
      ≡ true)
    × Named halves half_scan
        (run_depth_images halves half_scan
          (λ p. true)
          exporting
          (depth_index_file halves half_scan depths)).written
        depths
run_depth_images-recorded_example =
    run_depth_images-recorded halves half_scan (λ p. true) exporting blob depths (refl, (refl, tt))
      depths-DepthFits (omega arith) refl (λ p. refl) (λ i. refl) refl

exports :
    (run_depth_images halves half_scan
      (λ p. true)
      exporting
      (depth_index_file halves half_scan depths)).ok
    ≡ true
exports =
    (run_depth_images-recorded halves half_scan (λ p. true) exporting blob depths (refl, (refl, tt))
      depths-DepthFits (omega arith) refl (λ p. refl) (λ i. refl) refl).0

run_depth_images_ok_example :
    Complete DepthImageRow.offset DepthImageRow.size
      (png_of halves half_scan)
      (read_depth_image_index halves half_scan (depth_index_file halves half_scan depths))
      (some blob)
      (run_depth_images halves half_scan
        (λ p. true)
        exporting
        (depth_index_file halves half_scan depths)).written
run_depth_images_ok_example =
    run_depth_images_ok halves half_scan (λ p. true) exporting
      (depth_index_file halves half_scan depths) exports
