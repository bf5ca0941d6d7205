-- ===== src/Export/ColorReading.antt =====
-- `read_index` of src/export/export_color_to_mp4.cpp and export_color_to_images.cpp on the files that
-- the camera recorder (src/system/realsense_recorder.cpp) leaves.
use kist_data_collector.Common.{
  ℕ, suc, ◌+◌, ◌<◌, ◌≡◌, refl, sym, ap, ◌∙◌, List, [], ◌∷◌, ◌++◌, append-nil, append_assoc, ◌&&◌,
  ◌==◌, if◌then◌else◌, length, length-append, map, u64, arith, subst,
}
use kist_data_collector.Common.Text.{Text, newline, decimal, decimal_ℤ}
use kist_data_collector.Common.Int.{ℤ, pos}
use kist_data_collector.Common.Lacks.{Lacks, Lacks-decimal, Lacks-decimal_ℤ, lacks-Lacks}
use kist_data_collector.Blob.Index.{Frames, index_text}
use kist_data_collector.Schema.{IsInt64}
use kist_data_collector.Schema.Frames.{
  ColorFrame, IsColorFrame, color_row, color_row-whole, color_idx_header,
}
use kist_data_collector.Fleet.{color_frames}
use kist_data_collector.Export.Line.{
  next-Lacks, ColorLine, color_line, scan_color_line, scan-color_row,
}
use kist_data_collector.Export.Reading.{
  Readable, AllValid, frame_lines, each_row, read_lines-index_text,
}
use kist_data_collector.Export.ColorIndex.{
  size_max, is_set, Mp4Row, mp4_row, Mp4Index, add_mp4_row, read_mp4_index,
}
use kist_data_collector.Export.Keyframe.{first_key_of, first_key-each_row}

pub color_row-Lacks :
    (f : ColorFrame) (t : ℤ) → IsInt64 t → IsColorFrame f → Lacks 10 (color_row f t)
color_row-Lacks f t fits v = subst (Lacks 10) (sym (color_row-whole f t fits v)) (
    next-Lacks (decimal f.sequence) _ (Lacks-decimal 10 f.sequence refl) (
      next-Lacks (decimal_ℤ f.stamp_ns) _ (Lacks-decimal_ℤ f.stamp_ns) (
        next-Lacks (decimal_ℤ t) _ (Lacks-decimal_ℤ t) (
          next-Lacks (decimal_ℤ f.width) _ (Lacks-decimal_ℤ f.width) (
            next-Lacks (decimal_ℤ f.height) _ (Lacks-decimal_ℤ f.height)
              (Lacks-decimal 10 (if f.is_keyframe then 1 else 0) refl))))))

abbrev pub color_readable : Readable color_frames ColorLine
color_readable = record {
  scan = scan_color_line;
  line = color_line;
  Valid = λ f t. IsInt64 t × IsColorFrame f;
  row-Lacks = λ f t v. color_row-Lacks f t v.0 v.1;
  scan-row = λ f t offset size v. scan-color_row f t offset size v.0 v.1;
}

abbrev pub ColorFrames : Type 0
ColorFrames = Frames color_frames

-- The fields fit their types.
abbrev pub Fits : ColorFrames → Type 0
Fits = AllValid color_readable

-- color.idx.csv of the frames `xs`.
abbrev pub index_file : ColorFrames → Text
index_file xs = (color_idx_header ++ newline) ++ index_text color_frames 0 xs

-- The position of the first keyframe, counted from `n`; SIZE_MAX if there is none.
abbrev pub keyframe_at : ℕ → ColorFrames → ℕ
keyframe_at n [] = size_max
keyframe_at n ((f, t) ∷ xs) =
    let later = keyframe_at (suc n) xs in if f.is_keyframe then n else later

pub header-Lacks : Lacks 10 color_idx_header
header-Lacks = lacks-Lacks 10 color_idx_header refl

pub first_key_of-frames :
    (n offset : ℕ) (xs : ColorFrames)
    → first_key_of n (frame_lines color_readable offset xs) ≡ keyframe_at n xs
first_key_of-frames n offset [] = refl
first_key_of-frames n offset ((f, t) ∷ xs) =
    ground (arith, first_key_of-frames (suc n) (u64 (offset + length f.payload)) xs)

pub length-frame_lines :
    (offset : ℕ) (xs : ColorFrames) → length (frame_lines color_readable offset xs) ≡ length xs
length-frame_lines offset [] = refl
length-frame_lines offset ((f, t) ∷ xs) =
    ap suc (length-frame_lines (u64 (offset + length f.payload)) xs)

-- The mp4 exporter's row of a frame.
abbrev pub mp4_row_of : ColorFrame × ℤ → Mp4Row
mp4_row_of (f, t) = record { recv_ns = t; is_key = pos (if f.is_keyframe then 1 else 0) }

mp4_rows-add : (r : ColorLine) (x : Mp4Index) → (add_mp4_row r x).rows ≡ x.rows ++ mp4_row r ∷ []
unfolding add_mp4_row
mp4_rows-add r x = ground arith

pub first_key-add :
    (r : ColorLine) (x : Mp4Index)
    → (add_mp4_row r x).first_key
      ≡ (if is_set r.key && x.first_key == size_max then length x.rows else x.first_key)
unfolding add_mp4_row
first_key-add r x = ground arith

pub cut_offset-add :
    (r : ColorLine) (x : Mp4Index)
    → (add_mp4_row r x).cut_offset
      ≡ (if is_set r.key && x.first_key == size_max then r.offset else x.cut_offset)
unfolding add_mp4_row
cut_offset-add r x = ground arith

pub count-add : (r : ColorLine) (x : Mp4Index) → length (add_mp4_row r x).rows ≡ suc (length x.rows)
count-add r x = omega (arith, ap length (mp4_rows-add r x), length-append x.rows (mp4_row r ∷ []))

mp4_rows-each_row :
    (rs : List ColorLine) (x : Mp4Index)
    → (each_row add_mp4_row rs x).rows ≡ x.rows ++ map mp4_row rs
mp4_rows-each_row [] x = sym (append-nil x.rows)
mp4_rows-each_row (r ∷ rs) x =
    mp4_rows-each_row rs (add_mp4_row r x)
    ∙ ap (λ ys. ys ++ map mp4_row rs) (mp4_rows-add r x)
    ∙ append_assoc x.rows (mp4_row r ∷ []) (map mp4_row rs)

mp4_rows-frames :
    (offset : ℕ) (xs : ColorFrames)
    → map mp4_row (frame_lines color_readable offset xs) ≡ map mp4_row_of xs
mp4_rows-frames offset [] = refl
mp4_rows-frames offset ((f, t) ∷ xs) =
    ap (◌∷◌ (mp4_row_of (f, t))) (mp4_rows-frames (u64 (offset + length f.payload)) xs)

abbrev pub empty_mp4 : Mp4Index
empty_mp4 = record { rows = []; first_key = size_max; cut_offset = 0 }

pub read_mp4 :
    (xs : ColorFrames)
    → Fits xs
    → read_mp4_index (index_file xs)
      ≡ each_row add_mp4_row (frame_lines color_readable 0 xs) empty_mp4
unfolding read_mp4_index
read_mp4 xs v =
    read_lines-index_text color_readable add_mp4_row color_idx_header xs empty_mp4 header-Lacks v

-- The mp4 exporter reads back from color.idx.csv exactly the frames recorded, in order, each with
-- its arrival time and its keyframe flag, and finds the first keyframe, if the frames' fields fit
-- their types and there are fewer than SIZE_MAX frames.
pub read_mp4_index-index_file :
    (xs : ColorFrames)
    → Fits xs
    → length xs < size_max
    → ((read_mp4_index (index_file xs)).rows ≡ map mp4_row_of xs)
      × ((read_mp4_index (index_file xs)).first_key ≡ keyframe_at 0 xs)
read_mp4_index-index_file xs v few = (
  ap Mp4Index.rows (read_mp4 xs v)
      ∙ mp4_rows-each_row (frame_lines color_readable 0 xs) empty_mp4
      ∙ mp4_rows-frames 0 xs,
  ap Mp4Index.first_key (read_mp4 xs v)
      ∙ first_key-each_row add_mp4_row (λ x. length x.rows) Mp4Index.first_key count-add
          first_key-add (frame_lines color_readable 0 xs) empty_mp4 refl
          (omega (arith, length-frame_lines 0 xs))
      ∙ first_key_of-frames 0 0 xs,
)
