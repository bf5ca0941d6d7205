-- ===== src/Export/ImageReading.antt =====
-- `read_index` of src/export/export_color_to_images.cpp on the files that the camera recorder
-- (src/system/realsense_recorder.cpp) leaves.
use kist_data_collector.Common.{
  ℕ, suc, ◌+◌, ◌<◌, ◌≡◌, refl, sym, ap, ◌∙◌, List, [], ◌∷◌, ◌++◌, append-nil, append_assoc, ◌&&◌,
  ◌==◌, if◌then◌else◌, length, length-append, take, map, drop, u64, arith, subst,
}
use kist_data_collector.Common.Text.{Text}
use kist_data_collector.Blob.Index.{Slices}
use kist_data_collector.Schema.Frames.{color_idx_header}
use kist_data_collector.Fleet.{color_frames}
use kist_data_collector.Export.Line.{ColorLine}
use kist_data_collector.Export.Reading.{frame_lines, each_row, read_lines-index_text}
use kist_data_collector.Export.ColorIndex.{
  size_max, is_set, ImageRow, image_row, ImageIndex, add_image_row, read_image_index,
}
use kist_data_collector.Export.Keyframe.{first_key-each_row}
use kist_data_collector.Export.ColorReading.{
  color_readable, ColorFrames, Fits, index_file, keyframe_at, length-frame_lines, header-Lacks,
  first_key_of-frames,
}

image_rows-add :
    (r : ColorLine) (x : ImageIndex) → (add_image_row r x).rows ≡ x.rows ++ image_row r ∷ []
unfolding add_image_row
image_rows-add r x = refl

first_key-add :
    (r : ColorLine) (x : ImageIndex)
    → (add_image_row r x).first_key
      ≡ (if is_set r.key && x.first_key == size_max then length x.rows else x.first_key)
unfolding add_image_row
first_key-add r x = refl

count-add : (r : ColorLine) (x : ImageIndex) → length (add_image_row r x).rows ≡ suc (length x.rows)
count-add r x =
    omega (arith, ap length (image_rows-add r x), length-append x.rows (image_row r ∷ []))

image_rows-each_row :
    (rs : List ColorLine) (x : ImageIndex)
    → (each_row add_image_row rs x).rows ≡ x.rows ++ map image_row rs
image_rows-each_row [] x = sym (append-nil x.rows)
image_rows-each_row (r ∷ rs) x =
    image_rows-each_row rs (add_image_row r x)
    ∙ ap (λ ys. ys ++ map image_row rs) (image_rows-add r x)
    ∙ append_assoc x.rows (image_row r ∷ []) (map image_row rs)

abbrev empty_images : ImageIndex
empty_images = record { rows = []; first_key = size_max }

read_images :
    (xs : ColorFrames)
    → Fits xs
    → read_image_index (index_file xs)
      ≡ each_row add_image_row (frame_lines color_readable 0 xs) empty_images
unfolding read_image_index
read_images xs v =
    read_lines-index_text color_readable add_image_row color_idx_header xs empty_images header-Lacks
      v

-- Row by row: the frame's sequence number and keyframe flag, and a slice of the blob that is its
-- payload.
abbrev pub Extracts : Text → List ImageRow → ColorFrames → Type 0
Extracts blob [] [] = Unit {0}
Extracts blob (r ∷ rs) ((f, t) ∷ xs) =
    (r.seq ≡ f.sequence)
    × (is_set r.is_key ≡ f.is_keyframe)
    × (r.size ≡ length f.payload)
    × (take r.size (drop r.offset blob) ≡ f.payload)
    × Extracts blob rs xs
Extracts blob _ _ = ⊥

Extracts-frame_lines :
    (blob : Text) (offset : ℕ) (xs : ColorFrames)
    → Slices color_frames blob offset xs
    → Extracts blob (map image_row (frame_lines color_readable offset xs)) xs
Extracts-frame_lines blob offset [] v = tt
Extracts-frame_lines blob offset ((f, t) ∷ xs) (here, later) = (
  refl,
  ground arith,
  refl,
  here,
  Extracts-frame_lines blob (u64 (offset + length f.payload)) xs later,
)

-- The image exporter reads back from color.idx.csv one row for each frame recorded, in order, with
-- its sequence number, its keyframe flag and the slice of the blob that is its payload, and finds
-- the first keyframe, if the blob is cut by the offsets into the payloads, the frames' fields fit
-- their types and there are fewer than SIZE_MAX frames.
pub read_image_index-index_file :
    (blob : Text) (xs : ColorFrames)
    → Slices color_frames blob 0 xs
    → Fits xs
    → length xs < size_max
    → Extracts blob (read_image_index (index_file xs)).rows xs
      × ((read_image_index (index_file xs)).first_key ≡ keyframe_at 0 xs)
read_image_index-index_file blob xs cuts v few = (
  subst (λ rows. Extracts blob rows xs)
      (sym (
        ap ImageIndex.rows (read_images xs v)
        ∙ image_rows-each_row (frame_lines color_readable 0 xs) empty_images))
      (Extracts-frame_lines blob 0 xs cuts),
  ap ImageIndex.first_key (read_images xs v)
      ∙ first_key-each_row add_image_row (λ x. length x.rows) ImageIndex.first_key count-add
          first_key-add (frame_lines color_readable 0 xs) empty_images refl
          (omega (arith, length-frame_lines 0 xs))
      ∙ first_key_of-frames 0 0 xs,
)
