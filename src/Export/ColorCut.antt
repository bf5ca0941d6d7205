-- ===== src/Export/ColorCut.antt =====
-- The offset at which src/export/export_color_to_mp4.cpp enters the blob.
use kist_data_collector.Common.{
  ℕ, suc, ◌+◌, ◌-◌, ◌≤◌, ◌<◌, ◌≡◌, ◌≢◌, refl, sym, ap, ◌∙◌, [], ◌∷◌, ◌++◌, append_assoc, length,
  length-append, drop-append, drop, u64, u64_mod, arith, Bool-cases, inl, inr,
}
use kist_data_collector.Common.Text.{Text}
use kist_data_collector.Blob.Index.{blob_bytes}
use kist_data_collector.Fleet.{color_frames}
use kist_data_collector.Export.Reading.{frame_lines}
use kist_data_collector.Export.ColorIndex.{size_max, Mp4Index, add_mp4_row, read_mp4_index}
use kist_data_collector.Export.Keyframe.{cut_of, cut-each_row}
use kist_data_collector.Export.ColorReading.{
  color_readable, ColorFrames, Fits, index_file, keyframe_at, length-frame_lines, first_key-add,
  cut_offset-add, count-add, empty_mp4, read_mp4, read_mp4_index-index_file,
}

minus_zero : (n : ℕ) → n - 0 ≡ n
minus_zero n = omega arith

minus_self : (n : ℕ) → n - n ≡ 0
minus_self n = omega arith

minus_suc : (k n : ℕ) → suc n ≤ k → k - n ≡ suc (k - suc n)
minus_suc k n h = omega arith

-- A cut at the first keyframe's offset leaves the payloads from that frame on.
drop-cut :
    (before : Text) (n cut : ℕ) (xs : ColorFrames)
    → n + length xs < size_max
    → length before + length (blob_bytes color_frames xs) < u64_mod
    → keyframe_at n xs ≢ size_max
    → (n ≤ keyframe_at n xs)
      × (drop
            (cut_of cut (frame_lines color_readable (length before) xs))
            (before ++ blob_bytes color_frames xs)
          ≡ blob_bytes color_frames (drop (keyframe_at n xs - n) xs))
drop-cut before n cut [] few short h = absurd (h refl)
drop-cut before n cut ((f, t) ∷ xs) few short h = elim (Bool-cases f.is_keyframe) [
  | inl k ↦ rw (k, minus_self n) (omega arith, drop-append before _)
  | inr k ↦ rw (k) (
      let (after, rest) =
        drop-cut (before ++ f.payload) (suc n) cut xs (omega arith) (omega (arith, both, whole))
          (ground (arith, h, k)) in
      (
        omega arith,
        rw (minus_suc (keyframe_at (suc n) xs) n after) (
            ap (λ o. drop (cut_of cut (frame_lines color_readable o xs)) bytes) next
            ∙ ap (drop (cut_of cut (frame_lines color_readable (length (before ++ f.payload)) xs)))
                (sym (append_assoc before f.payload (blob_bytes color_frames xs)))
            ∙ rest),
      ))
]
  where
    both : length (before ++ f.payload) ≡ length before + length f.payload
    both = length-append before f.payload

    whole :
        length (f.payload ++ blob_bytes color_frames xs)
        ≡ length f.payload + length (blob_bytes color_frames xs)
    whole = length-append f.payload (blob_bytes color_frames xs)

    bytes : Text
    bytes = before ++ (f.payload ++ blob_bytes color_frames xs)

    next : u64 (length before + length f.payload) ≡ length (before ++ f.payload)
    next = omega (arith, both, whole)

-- If a keyframe was recorded, the mp4 exporter's seek to `cut_offset` leaves exactly the payloads of
-- the frames from the first keyframe on, provided that the frames' fields fit their types, that the
-- blob is shorter than 2^64 bytes and that there are fewer than SIZE_MAX frames.
pub read_mp4_index-cut :
    (xs : ColorFrames)
    → Fits xs
    → length xs < size_max
    → length (blob_bytes color_frames xs) < u64_mod
    → (read_mp4_index (index_file xs)).first_key ≢ size_max
    → drop (read_mp4_index (index_file xs)).cut_offset (blob_bytes color_frames xs)
      ≡ blob_bytes color_frames (drop (read_mp4_index (index_file xs)).first_key xs)
read_mp4_index-cut xs v few short h =
    let (_, first) = read_mp4_index-index_file xs v few in
    let cut : (read_mp4_index (index_file xs)).cut_offset
        ≡ cut_of 0 (frame_lines color_readable 0 xs) =
      ap Mp4Index.cut_offset (read_mp4 xs v)
      ∙ cut-each_row add_mp4_row (λ x. length x.rows) Mp4Index.first_key count-add first_key-add
          Mp4Index.cut_offset cut_offset-add (frame_lines color_readable 0 xs) empty_mp4 refl
          (omega (arith, length-frame_lines 0 xs)) in
    rw (cut, first)
      ((drop-cut [] 0 0 xs (omega arith) (omega arith) (λ e. h (first ∙ e))).1
        ∙ ap (λ n. blob_bytes color_frames (drop n xs)) (minus_zero (keyframe_at 0 xs)))
