-- ===== src/Export/DepthReading.antt =====
-- `read_index` of src/export/export_depth_to_mp4.cpp and export_depth_to_images.cpp on the files that
-- the camera recorder (src/system/realsense_recorder.cpp) leaves.
use kist_data_collector.Common.{
  ℕ, ◌+◌, ◌≡◌, refl, sym, ◌∙◌, List, [], ◌∷◌, ◌++◌, append-nil, append_assoc, length, take, map,
  drop, u64, subst,
}
use kist_data_collector.Common.Text.{Text, newline, decimal, decimal_ℤ}
use kist_data_collector.Common.Int.{ℤ}
use kist_data_collector.Common.Lacks.{Lacks, Lacks-decimal, Lacks-decimal_ℤ, lacks-Lacks}
use kist_data_collector.Blob.Index.{Frames, index_text, Slices}
use kist_data_collector.Schema.{Floats, IsInt64}
use kist_data_collector.Schema.Frames.{
  DepthFrame, IsDepthFrame, depth_row, depth_row-whole, depth_idx_header,
}
use kist_data_collector.Fleet.{depth_frames}
use kist_data_collector.Export.DepthLine.{FloatScan, DepthLine, depth_line, scan_either}
use kist_data_collector.Export.Reading.{
  Readable, AllValid, frame_lines, each_row, read_lines, read_lines-index_text,
}
use kist_data_collector.Export.Line.{next-Lacks}
use kist_data_collector.Export.DepthLine.{scan_either-depth_row}
use kist_data_collector.Export.DepthIndex.{
  DepthMp4Row, DepthImageRow, depth_mp4_row, depth_image_row, push_back, read_depth_mp4_index,
  read_depth_image_index,
}

module _ (R : Floats) (S : FloatScan R) where
  open S use {six_digits, Lacks-g6}

  pub depth_row-Lacks :
      (f : DepthFrame R) (t : ℤ) → IsInt64 t → IsDepthFrame R f → Lacks 10 (depth_row R f t)
  depth_row-Lacks f t fits v = subst (Lacks 10) (sym (depth_row-whole R f t fits v)) (
      next-Lacks (decimal f.sequence) _ (Lacks-decimal 10 f.sequence refl) (
        next-Lacks (decimal_ℤ f.stamp_ns) _ (Lacks-decimal_ℤ f.stamp_ns) (
          next-Lacks (decimal_ℤ t) _ (Lacks-decimal_ℤ t) (
            next-Lacks (decimal_ℤ f.width) _ (Lacks-decimal_ℤ f.width) (
              next-Lacks (decimal_ℤ f.height) _ (Lacks-decimal_ℤ f.height) (
                next-Lacks (R.g6 f.depth_scale) _ (Lacks-g6 f.depth_scale) (
                  next-Lacks (R.g6 f.fx) _ (Lacks-g6 f.fx) (
                    next-Lacks (R.g6 f.fy) _ (Lacks-g6 f.fy)
                      (next-Lacks (R.g6 f.cx) _ (Lacks-g6 f.cx) (Lacks-g6 f.cy))))))))))

  abbrev pub depth_readable : Readable (depth_frames R) (DepthLine R S)
  depth_readable = record {
    scan = scan_either R S;
    line = depth_line R S;
    Valid = λ f t. IsInt64 t × IsDepthFrame R f;
    row-Lacks = λ f t v. depth_row-Lacks f t v.0 v.1;
    scan-row = λ f t offset size v. scan_either-depth_row R S f t offset size v.0 v.1;
  }

  abbrev pub DepthFrames : Type 0
  DepthFrames = Frames (depth_frames R)

  -- The fields fit their types.
  abbrev pub DepthFits : DepthFrames → Type 0
  DepthFits = AllValid depth_readable

  -- depth.idx.csv of the frames `xs`.
  abbrev pub depth_index_file : DepthFrames → Text
  depth_index_file xs = (depth_idx_header ++ newline) ++ index_text (depth_frames R) 0 xs

  rows-each_row :
      {Row : Type 0} (row : DepthLine R S → Row) (rs : List (DepthLine R S)) (ys : List Row)
      → each_row (push_back R S row) rs ys ≡ ys ++ map row rs
  rows-each_row row [] ys = sym (append-nil ys)
  rows-each_row row (r ∷ rs) ys =
      rows-each_row row rs (ys ++ row r ∷ []) ∙ append_assoc ys (row r ∷ []) (map row rs)

  read_rows :
      {Row : Type 0} (row : DepthLine R S → Row) (xs : DepthFrames)
      → DepthFits xs
      → read_lines (scan_either R S) (push_back R S row) (depth_index_file xs) []
        ≡ map row (frame_lines depth_readable 0 xs)
  read_rows row xs v =
      read_lines-index_text depth_readable (push_back R S row) depth_idx_header xs []
        (lacks-Lacks 10 depth_idx_header refl) v
      ∙ rows-each_row row (frame_lines depth_readable 0 xs) []

  -- Row by row: the frame's arrival time and size, its scale to six digits, and a slice of the blob
  -- that is its payload.
  abbrev pub Mp4Extracts : Text → List (DepthMp4Row R S) → DepthFrames → Type 0
  Mp4Extracts blob [] [] = Unit {0}
  Mp4Extracts blob (r ∷ rs) ((f, t) ∷ xs) =
      (r.recv_ns ≡ t)
      × (r.width ≡ f.width)
      × (r.height ≡ f.height)
      × (r.scale ≡ six_digits f.depth_scale)
      × (r.size ≡ length f.payload)
      × (take r.size (drop r.offset blob) ≡ f.payload)
      × Mp4Extracts blob rs xs
  Mp4Extracts blob _ _ = ⊥

  -- The same with the sequence number in place of the arrival time.
  abbrev pub ImageExtracts : Text → List (DepthImageRow R S) → DepthFrames → Type 0
  ImageExtracts blob [] [] = Unit {0}
  ImageExtracts blob (r ∷ rs) ((f, t) ∷ xs) =
      (r.seq ≡ f.sequence)
      × (r.width ≡ f.width)
      × (r.height ≡ f.height)
      × (r.scale ≡ six_digits f.depth_scale)
      × (r.size ≡ length f.payload)
      × (take r.size (drop r.offset blob) ≡ f.payload)
      × ImageExtracts blob rs xs
  ImageExtracts blob _ _ = ⊥

  extracts :
      (blob : Text) (offset : ℕ) (xs : DepthFrames)
      → Slices (depth_frames R) blob offset xs
      → Mp4Extracts blob (map (depth_mp4_row R S) (frame_lines depth_readable offset xs)) xs
        × ImageExtracts blob (map (depth_image_row R S) (frame_lines depth_readable offset xs)) xs
  extracts blob offset [] v = (tt, tt)
  extracts blob offset ((f, t) ∷ xs) (here, later) =
      let (mp4, images) = extracts blob (u64 (offset + length f.payload)) xs later in
      ((refl, refl, refl, refl, refl, here, mp4), (refl, refl, refl, refl, refl, here, images))

  -- Both depth exporters read back from depth.idx.csv one row for each frame recorded, in order, with
  -- its arrival time or sequence number, its width and height, its scale to six digits and the slice
  -- of the blob that is its payload, if the blob is cut by the offsets into the payloads and the
  -- frames' fields fit their types.
  pub read_depth_indices-index_file :
      (blob : Text) (xs : DepthFrames)
      → Slices (depth_frames R) blob 0 xs
      → DepthFits xs
      → Mp4Extracts blob (read_depth_mp4_index R S (depth_index_file xs)) xs
        × ImageExtracts blob (read_depth_image_index R S (depth_index_file xs)) xs
  unfolding read_depth_mp4_index read_depth_image_index
  read_depth_indices-index_file blob xs cuts v =
      let (mp4, images) = extracts blob 0 xs cuts in
      (
        subst (λ rows. Mp4Extracts blob rows xs) (sym (read_rows (depth_mp4_row R S) xs v)) mp4,
        subst (λ rows. ImageExtracts blob rows xs) (sym (read_rows (depth_image_row R S) xs v))
            images,
      )
