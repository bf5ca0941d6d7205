-- ===== src/Export/ColorIndex.antt =====
-- `Row` and `read_index` of src/export/export_color_to_mp4.cpp and export_color_to_images.cpp.
use kist_data_collector.Common.{
  ℕ, ◌-◌, List, [], ◌∷◌, ◌++◌, Bool, true, not, ◌&&◌, ◌==◌, if◌then◌else◌, length, u64_mod,
}
use kist_data_collector.Common.Text.{Text}
use kist_data_collector.Common.Int.{ℤ, pos, negsuc}
use kist_data_collector.Export.Line.{ColorLine, scan_color_line}
use kist_data_collector.Export.Reading.{read_lines}

abbrev pub size_max : ℕ
size_max = u64_mod - 1

-- An `int` as a condition.
abbrev pub is_set : ℤ → Bool
is_set (pos n) = not (n == 0)
is_set (negsuc n) = true

-- What read_index of export_color_to_mp4.cpp returns, and what it leaves in its two references.
pub record Mp4Row : Type 0 where
  pub recv_ns : ℤ
  pub is_key : ℤ

pub record Mp4Index : Type 0 where
  pub rows : List Mp4Row
  pub first_key : ℕ
  pub cut_offset : ℕ

abbrev pub mp4_row : ColorLine → Mp4Row
mp4_row r = record { recv_ns = r.recv_ns; is_key = r.key }

unfoldable pub add_mp4_row : ColorLine → Mp4Index → Mp4Index
add_mp4_row r x =
    let marked : Mp4Index =
      (if is_set r.key && x.first_key == size_max
        then record x { first_key = length x.rows; cut_offset = r.offset }
        else x) in
    record marked { rows = marked.rows ++ mp4_row r ∷ [] }

-- `cut_offset` starts at 0 in `run`.
unfoldable pub read_mp4_index : Text → Mp4Index
unfolding read_lines add_mp4_row scan_color_line
read_mp4_index idx =
    read_lines scan_color_line add_mp4_row idx
      (record { rows = []; first_key = size_max; cut_offset = 0 })

-- The same of export_color_to_images.cpp.
pub record ImageRow : Type 0 where
  pub seq : ℕ
  pub offset : ℕ
  pub size : ℕ
  pub is_key : ℤ

pub record ImageIndex : Type 0 where
  pub rows : List ImageRow
  pub first_key : ℕ

abbrev pub image_row : ColorLine → ImageRow
image_row r = record { seq = r.seq; offset = r.offset; size = r.size; is_key = r.key }

unfoldable pub add_image_row : ColorLine → ImageIndex → ImageIndex
add_image_row r x = record {
  rows = x.rows ++ image_row r ∷ [];
  first_key = if is_set r.key && x.first_key == size_max then length x.rows else x.first_key;
}

unfoldable pub read_image_index : Text → ImageIndex
unfolding read_lines add_image_row scan_color_line
read_image_index idx =
    read_lines scan_color_line add_image_row idx (record { rows = []; first_key = size_max })
