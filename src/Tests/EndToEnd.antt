-- ===== src/Tests/EndToEnd.antt =====
-- A color recording read back, and the conversion of a session with one camera.
use kist_data_collector.Common.{◌≡◌, refl, [], ◌∷◌, ◌++◌, true, false, some, arith}
use kist_data_collector.Common.Text.{newline}
use kist_data_collector.Common.Int.{ℤ, pos}
use kist_data_collector.Stream.{keep}
use kist_data_collector.Pipeline.{Recorder}
use kist_data_collector.Pipeline.Threads.{System}
use kist_data_collector.Blob.{Fates, blob_writer, fresh_blob}
use kist_data_collector.Schema.Frames.{ColorFrame, color_idx_header}
use kist_data_collector.Fleet.{color_frames}
use kist_data_collector.Export.ColorReading.{Fits}
use kist_data_collector.Export.EndToEnd.{CameraDir, Convertible, entries_of, export_main-recorded}
use kist_data_collector.Export.Tools.{export_main}
use kist_data_collector.Tests.Threads.{both_left, ready}
use kist_data_collector.Tests.Schema.{halves}
use kist_data_collector.Tests.Export.{frame, frame-IsColorFrame, frames, frames-Fits, muxing}
use kist_data_collector.Tests.Depth.{half_scan, depths, depths-DepthFits, blob, exporting}

abbrev camera : CameraDir halves half_scan
camera = record {
  color = frames;
  depth = depths;
  depth_blob = blob;
  muxing = muxing true;
  exporting = exporting;
}

camera-Convertible : Convertible halves half_scan camera
camera-Convertible = record {
  color_fits = frames-Fits;
  few = omega arith;
  short = omega arith;
  opens = (refl, refl, refl, refl);
  two_colors = omega arith;
  key = omega arith;
  demuxes = refl;
  goes_on = λ i. refl;
  ends = refl;
  accepts = λ i. refl;
  cut = (refl, (refl, tt));
  depth_fits = depths-DepthFits;
  two_depths = omega arith;
  depth_there = refl;
  writer_opens = refl;
  depth_goes_on = λ i. refl;
  depth_ends = refl;
}

export_main-recorded_example :
    export_main true true (entries_of halves half_scan (camera ∷ [])) ≡ some 0
export_main-recorded_example = export_main-recorded halves half_scan camera [] camera-Convertible tt

abbrev pub kept : Fates
kept = record { on_data = keep; on_index = keep }

abbrev first : ColorFrame × ℤ
first = (frame 7 true (1 ∷ 2 ∷ []), pos 1000)

abbrev second : ColorFrame × ℤ
second = (frame 8 false (3 ∷ []), pos 2000)

-- The recorder behind its first `open`.
abbrev pub opened : Recorder (blob_writer color_frames)
opened = record (ready (fresh_blob color_frames)) {
  out = record (fresh_blob color_frames).out {
    sink = record {
      data_file = record { disk = []; buffer = []; good = true; is_open = true };
      index_file = record {
        disk = [];
        buffer = color_idx_header ++ newline;
        good = true;
        is_open = true;
      };
      offset = 0;
    };
  };
}

abbrev ended : System (blob_writer color_frames)
ended = (both_left opened first second kept).0

two-Fits : Fits (first ∷ second ∷ [])
two-Fits = (
  (omega arith, frame-IsColorFrame 7 true (1 ∷ 2 ∷ []) (omega arith)),
  ((omega arith, frame-IsColorFrame 8 false (3 ∷ []) (omega arith)), tt),
)
