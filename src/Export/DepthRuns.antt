-- ===== src/Export/DepthRuns.antt =====
-- `run` of src/export/export_depth_to_mp4.cpp and src/export/export_depth_to_images.cpp.
use kist_data_collector.Common.{
  ℕ, List, [], ◌++◌, Bool, true, false, not, ◌&&◌, ◌||◌, Option, none, some, ltb, ◌==◌,
  if◌then◌else◌, length,
}
use kist_data_collector.Common.Text.{Text, text, padded}
use kist_data_collector.Common.Int.{ℤ}
use kist_data_collector.Schema.{Floats, snprintf}
use kist_data_collector.Export.DepthLine.{FloatScan}
use kist_data_collector.Export.DepthIndex.{
  DepthMp4Row, DepthImageRow, read_depth_mp4_index, read_depth_image_index,
}
use kist_data_collector.Export.Slices.{Exported, export_rows}

-- The world of one run: the blob (none if it cannot be opened), whether the VideoWriter opens, and
-- what `cancel_` is when it is looked at in front of frame `i` and at the end.
pub record DepthExport : Type 0 where
  pub blob : Option Text
  pub opens : Bool
  pub cancelled : ℕ → Bool
  pub cancelled_at_end : Bool

pub record DepthResult (A : Type 0) : Type 0 where
  pub ok : Bool
  pub written : List A

abbrev pub no_frames : {A : Type 0} → DepthResult A
no_frames = record { ok = false; written = [] }

abbrev pub nothing_yet : {A : Type 0} → Exported A
nothing_yet = record { written = []; io_ok = true }

module _ (R : Floats) (S : FloatScan R) where
  -- The RvlDepthFrame that the decoder gets.
  pub record RvlDepthFrame : Type 0 where
    pub width : ℤ
    pub height : ℤ
    pub depth_scale : R.Float
    pub payload : Text

  abbrev pub mp4_frame : DepthMp4Row R S → Text → RvlDepthFrame
  mp4_frame r bytes = record {
    width = r.width;
    height = r.height;
    depth_scale = r.scale;
    payload = bytes;
  }

  -- `run` behind read_index. The VideoWriter has no result; what the mp4 file shows is a function of
  -- the frames decoded, by the decoder, `colorize` and OpenCV.
  unfoldable pub depth_mp4_rows :
      DepthExport → List (DepthMp4Row R S) → Option Text → DepthResult RvlDepthFrame
  unfolding export_rows
  depth_mp4_rows e rows none = no_frames
  depth_mp4_rows e rows (some blob) =
      let x : Exported RvlDepthFrame =
        export_rows DepthMp4Row.offset DepthMp4Row.size mp4_frame (λ f. true) e.cancelled blob rows
          nothing_yet in
      if ltb (length rows) 2 || not e.opens then no_frames else record {
        ok = length x.written == length rows && not e.cancelled_at_end;
        written = x.written;
      }

  unfoldable pub run_depth_mp4 : DepthExport → Text → DepthResult RvlDepthFrame
  run_depth_mp4 e idx = depth_mp4_rows e (read_depth_mp4_index R S idx) e.blob

  -- "%010llu.png"
  unfoldable pub png_name : ℕ → Text
  unfolding padded snprintf
  png_name seq = snprintf 32 (padded 10 seq ++ text ".png")

  -- A png file: its name, and the frame decoded for it.
  pub record Png : Type 0 where
    pub name : Text
    pub frame : RvlDepthFrame

  abbrev pub png_of : DepthImageRow R S → Text → Png
  png_of r bytes = record {
    name = png_name r.seq;
    frame = record { width = r.width; height = r.height; depth_scale = r.scale; payload = bytes };
  }

  -- `imwrite` says whether OpenCV can write the file.
  unfoldable pub depth_image_rows :
      (imwrite : Png → Bool)
      → DepthExport
      → List (DepthImageRow R S)
      → Option Text
      → DepthResult Png
  unfolding export_rows png_name
  depth_image_rows imwrite e rows none = no_frames
  depth_image_rows imwrite e rows (some blob) =
      let x : Exported Png =
        export_rows DepthImageRow.offset DepthImageRow.size png_of imwrite e.cancelled blob rows
          nothing_yet in
      if length rows == 0 then no_frames else record {
        ok = x.io_ok && (not e.cancelled_at_end && length x.written == length rows);
        written = x.written;
      }

  unfoldable pub run_depth_images : (imwrite : Png → Bool) → DepthExport → Text → DepthResult Png
  run_depth_images imwrite e idx =
      depth_image_rows imwrite e (read_depth_image_index R S idx) e.blob
