-- ===== src/Export/ImageRecorded.antt =====
-- `run` of src/export/export_color_to_images.cpp on the files that the camera recorder
-- (src/system/realsense_recorder.cpp) leaves.
use kist_data_collector.Common.{
  ℕ, zero, suc, ◌<◌, ◌≡◌, ◌≢◌, refl, sym, ap, ◌∙◌, List, [], ◌∷◌, ◌++◌, append-nil, append_assoc,
  true, false, ◌&&◌, Option, none, some, if-holds, arith, length, drop, subst, ltb, ◌^◌, ◌-◌,
}
use kist_data_collector.Common.Text.{Text}
use kist_data_collector.Blob.Index.{Slices}
use kist_data_collector.Fleet.{color_frames}
use kist_data_collector.Export.ColorIndex.{size_max, ImageRow, ImageIndex, read_image_index}
use kist_data_collector.Export.ColorReading.{ColorFrames, Fits, index_file, keyframe_at}
use kist_data_collector.Export.ImageReading.{Extracts, read_image_index-index_file}
use kist_data_collector.Export.Slices.{read_at-slice}
use kist_data_collector.Export.ImageRun.{
  Decoder, ImageExport, Decoding, ImageResult, jpg_name, save, send_packet, decode_rows,
  with_decoder, decoded, finished, room_of, image_rows, run_images,
}
use kist_data_collector.Common.Int.{pos}
use kist_data_collector.FrameMaps.{to_int}

-- The packets of frames.
abbrev pub packets_of : ColorFrames → List (ℕ × Text)
packets_of [] = []
packets_of ((f, t) ∷ xs) = (f.sequence, f.payload) ∷ packets_of xs

drop-Extracts :
    (blob : Text) (n : ℕ) (rows : List ImageRow) (xs : ColorFrames)
    → Extracts blob rows xs
    → Extracts blob (drop n rows) (drop n xs)
drop-Extracts blob zero rows xs v = v
drop-Extracts blob (suc n) [] [] v = tt
drop-Extracts blob (suc n) [] (x ∷ xs) v = elim v [ ]
drop-Extracts blob (suc n) (r ∷ rows) [] v = elim v [ ]
drop-Extracts blob (suc n) (r ∷ rows) ((f, t) ∷ xs) (_, _, _, _, v) = drop-Extracts blob n rows xs v

length-Extracts :
    (blob : Text) (rows : List ImageRow) (xs : ColorFrames)
    → Extracts blob rows xs
    → length rows ≡ length xs
length-Extracts blob [] [] v = refl
length-Extracts blob [] (x ∷ xs) v = elim v [ ]
length-Extracts blob (r ∷ rows) [] v = elim v [ ]
length-Extracts blob (r ∷ rows) ((f, t) ∷ xs) (_, _, _, _, v) =
    ap suc (length-Extracts blob rows xs v)

-- A size of int is its own conversion.
to_int-small : (n : ℕ) → n < 2 ^ 31 → to_int (pos n) ≡ pos n
unfolding to_int
to_int-small n h = ground (arith, h)

-- av_new_packet takes sizes below INT_MAX less the padding of 64 bytes.
abbrev pub max_packet : ℕ
max_packet = 2 ^ 31 - 1 - 64

-- Every payload fits a packet.
abbrev pub SmallPayloads : ColorFrames → Type 0
SmallPayloads [] = Unit {0}
SmallPayloads ((f, t) ∷ xs) = (length f.payload < max_packet) × SmallPayloads xs

drop-SmallPayloads : (n : ℕ) (xs : ColorFrames) → SmallPayloads xs → SmallPayloads (drop n xs)
drop-SmallPayloads zero xs h = h
drop-SmallPayloads (suc n) [] h = tt
drop-SmallPayloads (suc n) (x ∷ xs) (h, hs) = drop-SmallPayloads n xs hs

module _ (D : Decoder) (e : ImageExport D) (writes : (name : Text) → e.imwrite name ≡ true)
    (allocates : (i n : ℕ) → n < max_packet → e.new_packet i n ≡ true) where
  enough_room : (i n : ℕ) → n < max_packet → ltb (room_of D e i (to_int (pos n))) n ≡ false
  enough_room i n h = rw (to_int-small n (omega (arith, h)), allocates i n h) (ground arith)

  -- Saving gives the decoder nothing, and goes well.
  save-keeps :
      (frames : List (Option ℕ)) (x : Decoding D)
      → ((save D e frames x).packets ≡ x.packets) × ((save D e frames x).io_ok ≡ x.io_ok)
  save-keeps [] x = (refl, refl)
  save-keeps (none ∷ frames) x = save-keeps frames x
  save-keeps (some pts ∷ frames) x =
      let (packets, ok) = save-keeps frames (record x {
        files = x.files ++ jpg_name pts ∷ [];
        io_ok = x.io_ok && e.imwrite (jpg_name pts);
      }) in
      (packets, ok ∙ ground (arith, writes (jpg_name pts)))

  send_packet-adds :
      (r : ImageRow) (bytes : Text) (x : Decoding D)
      → ((send_packet D e r bytes x).packets ≡ x.packets ++ (r.seq, bytes) ∷ [])
        × ((send_packet D e r bytes x).io_ok ≡ x.io_ok)
  send_packet-adds r bytes x =
      let (s, sent) = D.send (some (r.seq, bytes)) x.decoder in
      let y : Decoding D = record x { decoder = s; packets = x.packets ++ (r.seq, bytes) ∷ [] } in
      if-holds
        (λ (z : Decoding D). (z.packets ≡ x.packets ++ (r.seq, bytes) ∷ []) × (z.io_ok ≡ x.io_ok))
        sent _ _
        (λ _. save-keeps (D.receive y.decoder).0 (record y { decoder = (D.receive y.decoder).1 }))
        (λ _. (refl, refl))

  -- What the loop comes to.
  abbrev Decodes : Decoding D → ColorFrames → Option (Decoding D) → Type 0
  Decodes x xs o =
      (y : Decoding D) × (o ≡ some y)
      × (y.packets ≡ x.packets ++ packets_of xs)
      × (y.io_ok ≡ x.io_ok)

  decode_rows-all :
      (blob : Text) (i : ℕ) (rows : List ImageRow) (xs : ColorFrames) (x : Decoding D)
      → Extracts blob rows xs
      → SmallPayloads xs
      → ((i : ℕ) → e.cancelled i ≡ false)
      → Decodes x xs (decode_rows D e blob i rows x)
  unfolding decode_rows
  decode_rows-all blob i [] [] x v small c = (x, refl, sym (append-nil x.packets), refl)
  decode_rows-all blob i [] (y ∷ xs) x v small c = elim v [ ]
  decode_rows-all blob i (r ∷ rows) [] x v small c = elim v [ ]
  decode_rows-all blob i (r ∷ rows) ((f, t) ∷ xs) x (seq, _, size, cut, v) (few, small) c =
      let (packets, ok) = send_packet-adds r f.payload x in
      let (y, same, more, still) =
        decode_rows-all blob (suc i) rows xs (send_packet D e r f.payload x) v small c in
      rw
        (
          c i,
          enough_room i r.size (omega (arith, size, few)),
          read_at-slice blob f.payload r.offset r.size size cut,
        )
        (
          y,
          same,
          more
              ∙ ap (λ ps. ps ++ packets_of xs) packets
              ∙ append_assoc x.packets ((r.seq, f.payload) ∷ []) (packets_of xs)
              ∙ ap (λ n. x.packets ++ (n, f.payload) ∷ packets_of xs) seq,
          still ∙ ok,
        )

  -- A run that succeeds with the packets.
  abbrev pub Succeeds : ColorFrames → Option ImageResult → Type 0
  Succeeds xs o = (z : ImageResult) × (o ≡ some z) × (z.ok ≡ true) × (z.packets ≡ packets_of xs)

  decoded-all :
      (blob : Text) (rows : List ImageRow) (xs : ColorFrames) (s : D.State)
      → Extracts blob rows xs
      → SmallPayloads xs
      → ((i : ℕ) → e.cancelled i ≡ false)
      → e.cancelled_at_end ≡ false
      → Succeeds xs (decoded D e blob rows s)
  decoded-all blob rows xs s v small c end =
      let (x, same, packets, ok) =
        decode_rows-all blob 0 rows xs
          (record { decoder = s; packets = []; files = []; io_ok = true }) v small c in
      let flushed = (D.send none x.decoder).0 in
      let (kept, still) =
        save-keeps (D.receive flushed).0 (record x { decoder = (D.receive flushed).1 }) in
      rw (same) (finished D e x, refl, ground (arith, still, ok, end), kept ∙ packets)

-- Nothing is returned early.
begins :
    (D : Decoder) (e : ImageExport D) (x : ImageIndex)
    → 0 < length x.rows
    → x.first_key ≢ size_max
    → image_rows D e x ≡ with_decoder D e (drop x.first_key x.rows) e.blob e.decoder
unfolding image_rows
begins D e x some_row key = ground (arith, some_row, key)

-- On the files of a recording, with a decoder that opens, packets of such sizes that can be allocated, nothing that
-- cancels and every file writable, a run ends without writing behind a packet, succeeds, and has given
-- the decoder one packet for each frame from the first keyframe on, in order: the frame's payload under
-- its sequence number; provided that a keyframe was recorded, that the blob opens and is cut by the
-- offsets into the payloads, that each payload is shorter than INT_MAX - 64 bytes, that the frames' fields fit
-- their types and that there are fewer than SIZE_MAX frames.
pub run_images-recorded :
    (D : Decoder) (e : ImageExport D) (s : D.State) (blob : Text) (xs : ColorFrames)
    → Slices color_frames blob 0 xs
    → Fits xs
    → SmallPayloads xs
    → length xs < size_max
    → keyframe_at 0 xs < length xs
    → e.blob ≡ some blob
    → e.decoder ≡ some s
    → ((name : Text) → e.imwrite name ≡ true)
    → ((i n : ℕ) → n < max_packet → e.new_packet i n ≡ true)
    → ((i : ℕ) → e.cancelled i ≡ false)
    → e.cancelled_at_end ≡ false
    → (z : ImageResult) × (run_images D e (index_file xs) ≡ some z)
      × (z.ok ≡ true)
      × (z.packets ≡ packets_of (drop (keyframe_at 0 xs) xs))
unfolding run_images
run_images-recorded D e s blob xs cuts v small few key b d writes rooms c end =
    let x = read_image_index (index_file xs) in
    let (rows, first) = read_image_index-index_file blob xs cuts v few in
    subst (Succeeds D e writes rooms (drop (keyframe_at 0 xs) xs))
      (sym (
        begins D e x (omega (arith, length-Extracts blob x.rows xs rows)) (omega (arith, first))
        ∙ ap (λ o. with_decoder D e (drop x.first_key x.rows) o e.decoder) b
        ∙ ap (with_decoder D e (drop x.first_key x.rows) (some blob)) d
        ∙ ap (λ k. decoded D e blob (drop k x.rows) s) first))
      (decoded-all D e writes rooms blob (drop (keyframe_at 0 xs) x.rows)
        (drop (keyframe_at 0 xs) xs) s (drop-Extracts blob (keyframe_at 0 xs) x.rows xs rows)
        (drop-SmallPayloads (keyframe_at 0 xs) xs small) c end)
