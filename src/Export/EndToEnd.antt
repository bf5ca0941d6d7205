-- ===== src/Export/EndToEnd.antt =====
-- The files of the camera recorders (include/common/blob_recorder.hpp) as src/export reads them, and
-- tools/export_session_mp4.cpp on a session: the tool, its workers and the mp4 exporters together.
use kist_data_collector.Common.{
  ℕ, ◌<◌, ◌≤◌, ◌≡◌, refl, sym, ap, ◌∙◌, List, [], ◌∷◌, true, false, some, length, drop, map,
  u64_mod, arith, subst,
}
use kist_data_collector.Common.Text.{Text}
use kist_data_collector.Blob.Index.{blob_bytes, Slices}
use kist_data_collector.Schema.{Floats}
use kist_data_collector.Fleet.{color_frames, depth_frames}
use kist_data_collector.Export.ColorIndex.{size_max, read_mp4_index, read_image_index}
use kist_data_collector.Export.ColorReading.{
  ColorFrames, Fits, index_file, keyframe_at, mp4_row_of, read_mp4_index-index_file,
}
use kist_data_collector.Export.ImageReading.{Extracts, read_image_index-index_file}
use kist_data_collector.Stream.{Fate}
use kist_data_collector.Pipeline.{Recorder}
use kist_data_collector.Pipeline.Threads.{System, Reach, launched, gone}
use kist_data_collector.Blob.{Fates, blob_writer, open_blob, fresh_blob}
use kist_data_collector.Blob.Sink.{close_sink}
use kist_data_collector.Blob.Losses.{blob_recorded}
use kist_data_collector.Schema.Frames.{color_idx_header}
use kist_data_collector.Export.DepthLine.{FloatScan}
use kist_data_collector.Export.DepthReading.{DepthFrames, DepthFits, depth_index_file}
use kist_data_collector.Export.DepthRuns.{DepthExport, run_depth_mp4}
use kist_data_collector.Export.DepthRecorded.{run_depth_mp4-recorded}
use kist_data_collector.Export.Mp4.{Muxing, run_mp4}
use kist_data_collector.Export.Mp4.Recorded.{Opens, payloads_of, run_mp4-recorded}
use kist_data_collector.Export.Tools.{Entry, export_main, all_runs, all_succeed, export_main-exit}

module _ (R : Floats) (S : FloatScan R) where
  -- A camera's directory: the frames recorded, and the world of the two conversions.
  pub record CameraDir : Type 0 where
    pub color : ColorFrames
    pub depth : DepthFrames R S
    pub depth_blob : Text
    pub muxing : Muxing
    pub exporting : DepthExport

  -- An early return leaves `ok_` false, as an incomplete conversion does.
  abbrev pub entry_of : CameraDir → Entry
  entry_of c = record {
    is_directory = true;
    color_inputs = true;
    depth_inputs = true;
    color_run = some (run_mp4 c.muxing (index_file c.color)).ok;
    depth_run = some (run_depth_mp4 R S c.exporting (depth_index_file R S c.depth)).ok;
  }

  abbrev pub entries_of : List CameraDir → List Entry
  entries_of [] = []
  entries_of (c ∷ cameras) = entry_of c ∷ entries_of cameras

  -- Two frames of each stream were recorded and a color keyframe is among them, the fields fit their
  -- types, the depth blob is cut by its index, the files open, the demuxer splits the stream into its
  -- payloads, the muxer refuses none, and nothing cancels.
  pub record Convertible (c : CameraDir) : Type 0 where
    pub color_fits : Fits c.color
    pub few : length c.color < size_max
    pub short : length (blob_bytes color_frames c.color) < u64_mod
    pub opens : Opens c.muxing (blob_bytes color_frames c.color)
    pub two_colors : 2 ≤ length c.color
    pub key : keyframe_at 0 c.color < length c.color
    pub demuxes :
        c.muxing.demux (blob_bytes color_frames (drop (keyframe_at 0 c.color) c.color))
        ≡ payloads_of (drop (keyframe_at 0 c.color) c.color)
    pub goes_on : (i : ℕ) → c.muxing.cancelled i ≡ false
    pub ends : c.muxing.cancelled_at_end ≡ false
    pub accepts : (i : ℕ) → c.muxing.accepts i ≡ true
    pub cut : Slices (depth_frames R) c.depth_blob 0 c.depth
    pub depth_fits : DepthFits R S c.depth
    pub two_depths : 2 ≤ length c.depth
    pub depth_there : c.exporting.blob ≡ some c.depth_blob
    pub writer_opens : c.exporting.opens ≡ true
    pub depth_goes_on : (i : ℕ) → c.exporting.cancelled i ≡ false
    pub depth_ends : c.exporting.cancelled_at_end ≡ false

  abbrev pub AllConvertible : List CameraDir → Type 0
  AllConvertible [] = Unit {0}
  AllConvertible (c ∷ cameras) = Convertible c × AllConvertible cameras

  cameras_succeed :
      (cameras : List CameraDir)
      → AllConvertible cameras
      → all_succeed (all_runs (entries_of cameras)) ≡ true
  cameras_succeed [] v = refl
  cameras_succeed (c ∷ cameras) (v, vs) =
      let (color, _) =
        run_mp4-recorded c.muxing c.color v.color_fits v.few v.short v.opens v.two_colors v.key
          v.demuxes v.goes_on v.ends v.accepts in
      let (depth, _) =
        run_depth_mp4-recorded R S c.exporting c.depth_blob c.depth v.cut v.depth_fits v.two_depths
          v.depth_there v.writer_opens v.depth_goes_on v.depth_ends in
      ground (arith, color, depth, cameras_succeed cameras vs)

  -- The tool ends with exit code 0 on a session with one camera or more, if for each of them two
  -- frames of both streams were recorded, a color keyframe among them, with fields that fit their
  -- types, if the files open and the depth blob is cut by its index into the payloads, the color blob
  -- being shorter than 2^64 bytes and its frames fewer than SIZE_MAX, if the demuxer splits the color
  -- stream into its payloads and the muxer refuses none, and if nothing cancels the conversions.
  pub export_main-recorded :
      (c : CameraDir) (cameras : List CameraDir)
      → Convertible c
      → AllConvertible cameras
      → export_main true true (entries_of (c ∷ cameras)) ≡ some 0
  export_main-recorded c cameras v vs =
      export_main-exit true true (entries_of (c ∷ cameras))
      ∙ ap some (ground (arith, cameras_succeed (c ∷ cameras) (v, vs)))

-- However the callback, the writer thread and the owner took turns: off the files of a color recorder
-- that was opened for the first time and then closed, the mp4 exporter reads exactly the frames that
-- the queue accepted, in order, with their arrival times and keyframe flags, and the image exporter
-- the same frames with their sequence numbers and, for each, the slice of the blob that is its
-- payload; provided that both files were good when they were closed, that the frames' fields fit their
-- types, that the blob is shorter than 2^64 bytes and that there are fewer than SIZE_MAX frames.
pub recording-read :
    (fate : Fate) (capacity : ℕ) {r : Recorder (blob_writer color_frames)} {a p : ColorFrames}
    {s : System (blob_writer color_frames)} (c : Fates)
    → open_blob color_frames true true fate color_idx_header capacity (fresh_blob color_frames)
      ≡ some (r, true)
    → Reach (launched r) a p s
    → s.writer ≡ gone
    → length (blob_bytes color_frames a) < u64_mod
    → (close_sink c.on_data c.on_index s.rec.out.sink).data_file.good ≡ true
    → (close_sink c.on_data c.on_index s.rec.out.sink).index_file.good ≡ true
    → Fits a
    → length a < size_max
    → let sink = close_sink c.on_data c.on_index s.rec.out.sink in
      ((read_mp4_index sink.index_file.disk).rows ≡ map mp4_row_of a)
      × Extracts sink.data_file.disk (read_image_index sink.index_file.disk).rows a
recording-read fate capacity {a = a} {s = s} c e l g short data_good index_good fits few =
    let sink = close_sink c.on_data c.on_index s.rec.out.sink in
    let (blob, index, cuts) =
      blob_recorded color_frames fate color_idx_header capacity c e l g short data_good
        index_good in
    (
      ap (λ b. (read_mp4_index b).rows) index ∙ (read_mp4_index-index_file a fits few).0,
      subst (λ b. Extracts sink.data_file.disk (read_image_index b).rows a) (sym index)
          (read_image_index-index_file sink.data_file.disk a cuts fits few).0,
    )
