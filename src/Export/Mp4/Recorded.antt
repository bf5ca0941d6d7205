-- ===== src/Export/Mp4/Recorded.antt =====
-- `run` of src/export/export_color_to_mp4.cpp on the files that the camera recorder
-- (src/system/realsense_recorder.cpp) leaves, and its early returns.
use kist_data_collector.Common.{
  ℕ, zero, suc, ◌≤◌, ◌<◌, ◌≡◌, ◌≢◌, refl, sym, ap, ◌∙◌, List, [], ◌∷◌, true, false, map, arith,
  length, length-drop, take, drop, some, u64_mod, subst,
}
use kist_data_collector.Common.Text.{Text}
use kist_data_collector.Blob.Index.{blob_bytes}
use kist_data_collector.Fleet.{color_frames}
use kist_data_collector.Export.ColorIndex.{size_max, Mp4Index, read_mp4_index}
use kist_data_collector.Export.ColorReading.{
  ColorFrames, Fits, keyframe_at, index_file, mp4_row_of, read_mp4_index-index_file,
}
use kist_data_collector.Export.ColorCut.{read_mp4_index-cut}
use kist_data_collector.Export.Mp4.{Muxing, remux, with_blob, run_rows, run_mp4}
use kist_data_collector.Export.Mp4.Complete.{payloads, remux_ok, remux_succeeds}

-- The payloads of frames.
abbrev pub payloads_of : ColorFrames → List Text
payloads_of [] = []
payloads_of ((f, t) ∷ xs) = f.payload ∷ payloads_of xs

drop-map : {A B : Type 0} (f : A → B) (n : ℕ) (xs : List A) → drop n (map f xs) ≡ map f (drop n xs)
drop-map f zero xs = refl
drop-map f (suc n) [] = refl
drop-map f (suc n) (x ∷ xs) = drop-map f n xs

length-map : {A B : Type 0} (f : A → B) (xs : List A) → length (map f xs) ≡ length xs
length-map f [] = refl
length-map f (x ∷ xs) = ap suc (length-map f xs)

length-payloads_of : (xs : ColorFrames) → length (payloads_of xs) ≡ length xs
length-payloads_of [] = refl
length-payloads_of ((f, t) ∷ xs) = ap suc (length-payloads_of xs)

take-payloads_of : (xs : ColorFrames) → take (length xs) (payloads_of xs) ≡ payloads_of xs
take-payloads_of [] = refl
take-payloads_of ((f, t) ∷ xs) = ap (◌∷◌ f.payload) (take-payloads_of xs)

remux-frames :
    (e : Muxing) (xs : ColorFrames)
    → 0 < length xs
    → e.demux (blob_bytes color_frames xs) ≡ payloads_of xs
    → ((i : ℕ) → e.cancelled i ≡ false)
    → e.cancelled_at_end ≡ false
    → ((i : ℕ) → e.accepts i ≡ true)
    → ((remux e (blob_bytes color_frames xs) (map mp4_row_of xs)).ok ≡ true)
      × (payloads (remux e (blob_bytes color_frames xs) (map mp4_row_of xs)).sent ≡ payloads_of xs)
remux-frames e xs some_frame demux c end a =
    let rows : length (map mp4_row_of xs) ≡ length xs = length-map mp4_row_of xs in
    let ok : (remux e (blob_bytes color_frames xs) (map mp4_row_of xs)).ok ≡ true =
      remux_succeeds e (blob_bytes color_frames xs) (map mp4_row_of xs) (omega (arith, rows))
        (omega (arith, rows, ap length demux, length-payloads_of xs)) c end a in
    let (_, sent, _) = remux_ok e (blob_bytes color_frames xs) (map mp4_row_of xs) ok in
    (
      ok,
      sent
          ∙ ap (λ n. take n (e.demux (blob_bytes color_frames xs))) rows
          ∙ ap (take (length xs)) demux
          ∙ take-payloads_of xs,
    )

-- The files can be opened, sought and parsed.
abbrev pub Opens : Muxing → Text → Type 0
Opens e blob = (e.blob ≡ some blob) × (e.seeks ≡ true) × (e.parses ≡ true) × (e.out_opens ≡ true)

-- Nothing is returned early.
begins :
    (e : Muxing) (x : Mp4Index)
    → 2 ≤ length x.rows
    → x.first_key ≢ size_max
    → run_rows e x ≡ with_blob e x e.blob
unfolding run_rows
begins e x two key = ground (arith, two, key)

run_rows-remux :
    (e : Muxing) (x : Mp4Index) (blob : Text)
    → Opens e blob
    → 2 ≤ length x.rows
    → x.first_key ≢ size_max
    → run_rows e x ≡ remux e (drop x.cut_offset blob) (drop x.first_key x.rows)
run_rows-remux e x blob (b, s, p, o) two key =
    begins e x two key ∙ ap (with_blob e x) b ∙ rw (s, p, o) refl

-- On the files of a recording that open and parse, with a demuxer that splits the blob from the first
-- keyframe on into its payloads, a run that nothing cancels and whose packets are accepted succeeds,
-- and writes the payloads of the frames from the first keyframe on, each in one packet, in order;
-- provided that two frames were recorded and a keyframe is among them, that the frames' fields fit
-- their types, that the blob is shorter than 2^64 bytes and that there are fewer than SIZE_MAX frames.
pub run_mp4-recorded :
    (e : Muxing) (xs : ColorFrames)
    → Fits xs
    → length xs < size_max
    → length (blob_bytes color_frames xs) < u64_mod
    → Opens e (blob_bytes color_frames xs)
    → 2 ≤ length xs
    → keyframe_at 0 xs < length xs
    → e.demux (blob_bytes color_frames (drop (keyframe_at 0 xs) xs))
      ≡ payloads_of (drop (keyframe_at 0 xs) xs)
    → ((i : ℕ) → e.cancelled i ≡ false)
    → e.cancelled_at_end ≡ false
    → ((i : ℕ) → e.accepts i ≡ true)
    → ((run_mp4 e (index_file xs)).ok ≡ true)
      × (payloads (run_mp4 e (index_file xs)).sent ≡ payloads_of (drop (keyframe_at 0 xs) xs))
unfolding run_mp4
run_mp4-recorded e xs v few short opens two key demux c end a =
    let x = read_mp4_index (index_file xs) in
    let (rows, first) = read_mp4_index-index_file xs v few in
    let key_found : x.first_key ≢ size_max = omega (arith, first) in
    let start : run_rows e x
        ≡ remux e (drop x.cut_offset (blob_bytes color_frames xs)) (drop x.first_key x.rows) =
      run_rows-remux e x (blob_bytes color_frames xs) opens
        (omega (arith, ap length rows, length-map mp4_row_of xs)) key_found in
    subst (λ r. (r.ok ≡ true) × (payloads r.sent ≡ payloads_of (drop (keyframe_at 0 xs) xs)))
      (sym (
        start
        ∙ ap (λ b. remux e b (drop x.first_key x.rows))
            (read_mp4_index-cut xs v few short key_found)
        ∙ ap (remux e (blob_bytes color_frames (drop x.first_key xs)))
            (ap (drop x.first_key) rows ∙ drop-map mp4_row_of x.first_key xs)
        ∙ ap (λ k. remux e (blob_bytes color_frames (drop k xs)) (map mp4_row_of (drop k xs)))
            first))
      (remux-frames e (drop (keyframe_at 0 xs) xs)
        (omega (arith, length-drop (keyframe_at 0 xs) xs)) demux c end a)
