-- ===== src/Export/DepthIndex.antt =====
-- `Row` and `read_index` of src/export/export_depth_to_mp4.cpp and export_depth_to_images.cpp.
use kist_data_collector.Common.{ℕ, List, [], ◌∷◌, ◌++◌}
use kist_data_collector.Common.Text.{Text}
use kist_data_collector.Common.Int.{ℤ}
use kist_data_collector.Schema.{Floats}
use kist_data_collector.Export.DepthLine.{FloatScan, DepthLine, scan_either}
use kist_data_collector.Export.Reading.{read_lines}

module _ (R : Floats) (S : FloatScan R) where
  open S use {six_digits, Lacks-g6}

  -- Row of export_depth_to_mp4.cpp
  pub record DepthMp4Row : Type 0 where
    pub recv_ns : ℤ
    pub offset : ℕ
    pub size : ℕ
    pub width : ℤ
    pub height : ℤ
    pub scale : R.Float

  -- Row of export_depth_to_images.cpp
  pub record DepthImageRow : Type 0 where
    pub seq : ℕ
    pub offset : ℕ
    pub size : ℕ
    pub width : ℤ
    pub height : ℤ
    pub scale : R.Float

  abbrev pub depth_mp4_row : DepthLine R S → DepthMp4Row
  depth_mp4_row r = record {
    recv_ns = r.recv_ns;
    offset = r.offset;
    size = r.size;
    width = r.w;
    height = r.h;
    scale = r.scale;
  }

  abbrev pub depth_image_row : DepthLine R S → DepthImageRow
  depth_image_row r = record {
    seq = r.seq;
    offset = r.offset;
    size = r.size;
    width = r.w;
    height = r.h;
    scale = r.scale;
  }

  -- `rows.push_back`
  abbrev pub push_back :
      {Row : Type 0} → (DepthLine R S → Row) → DepthLine R S → List Row → List Row
  push_back row r rows = rows ++ row r ∷ []

  unfoldable pub read_depth_mp4_index : Text → List DepthMp4Row
  unfolding read_lines scan_either
  read_depth_mp4_index idx = read_lines (scan_either R S) (push_back depth_mp4_row) idx []

  unfoldable pub read_depth_image_index : Text → List DepthImageRow
  unfolding read_lines scan_either
  read_depth_image_index idx = read_lines (scan_either R S) (push_back depth_image_row) idx []
