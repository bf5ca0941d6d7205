-- ===== src/Export/ImageRun.antt =====
-- `seq_name` and `run` of src/export/export_color_to_images.cpp: the frames of color.h264 from the
-- first keyframe on, decoded into jpg files.
use kist_data_collector.Common.{
  ℕ, suc, List, [], ◌∷◌, ◌++◌, Bool, true, false, not, ◌&&◌, ◌||◌, Option, none, some, ◌==◌,
  if◌then◌else◌, length, drop, ltb,
}
use kist_data_collector.Common.Int.{ℤ, pos, negsuc}
use kist_data_collector.FrameMaps.{to_int}
use kist_data_collector.Outcome.{◌>>=◌}
use kist_data_collector.Common.Text.{Text, text, padded}
use kist_data_collector.Schema.{snprintf}
use kist_data_collector.Export.ColorIndex.{size_max, ImageRow, ImageIndex, read_image_index}
use kist_data_collector.Export.Slices.{read_at, with_slice}

-- `seq_name(seq, "jpg")`
unfoldable pub jpg_name : ℕ → Text
unfolding padded snprintf
jpg_name seq = snprintf 32 (padded 10 seq ++ text ".jpg")

-- libavcodec's decoder: `send` is avcodec_send_packet with the packet's pts and bytes, none for the
-- flush_decoder, and says whether it returned 0; `receive` are the frames that avcodec_receive_frame gives
-- until it fails, each by its pts, none for AV_NOPTS_VALUE.
pub record Decoder : Type 1 where
  pub State : Type 0
  pub send : Option (ℕ × Text) → State → State × Bool
  pub receive : State → List (Option ℕ) × State

-- The world of one run. `decoder` is what avcodec_open2 leaves, none if it fails; `imwrite` says
-- whether OpenCV can write the file of that name; `new_packet i n` whether av_new_packet finds room for
-- the `n` bytes of the `i`-th packet; `cancelled i` is what `cancel_` is in front of the
-- `i`-th packet.
pub record ImageExport (D : Decoder) : Type 0 where
  pub blob : Option Text
  pub decoder : Option D.State
  pub imwrite : Text → Bool
  pub new_packet : ℕ → ℕ → Bool
  pub cancelled : ℕ → Bool
  pub cancelled_at_end : Bool

-- The variables of the loop: the decoder, the packets given to it, the files written, `io_ok`.
pub record Decoding (D : Decoder) : Type 0 where
  pub decoder : D.State
  pub packets : List (ℕ × Text)
  pub files : List Text
  pub io_ok : Bool

pub record ImageResult : Type 0 where
  pub ok : Bool
  pub packets : List (ℕ × Text)
  pub files : List Text

abbrev pub no_images : ImageResult
no_images = record { ok = false; packets = []; files = [] }

module _ (D : Decoder) (e : ImageExport D) where
  -- The body of `drain` for each frame. A file that cannot be written is counted as written, and
  -- clears `io_ok`.
  abbrev pub save : List (Option ℕ) → Decoding D → Decoding D
  save [] x = x
  save (none ∷ frames) x = save frames x
  save (some pts ∷ frames) x = save frames (record x {
    files = x.files ++ jpg_name pts ∷ [];
    io_ok = x.io_ok && e.imwrite (jpg_name pts);
  })

  abbrev pub drain : Decoding D → Decoding D
  drain x = let (frames, s) = D.receive x.decoder in save frames (record x { decoder = s })

  abbrev pub send_packet : ImageRow → Text → Decoding D → Decoding D
  send_packet r bytes x =
      let (s, sent) = D.send (some (r.seq, bytes)) x.decoder in
      let y : Decoding D = record x { decoder = s; packets = x.packets ++ (r.seq, bytes) ∷ [] } in
      if sent then drain y else y

  -- The room behind `pkt->data` after `av_new_packet(pkt, int(size))`; none for a negative size.
  abbrev pub room_of : ℕ → ℤ → ℕ
  room_of i (pos n) = if e.new_packet i n then n else 0
  room_of i (negsuc n) = 0

  -- The loop; the rows are those from `r` on. The result is none where `read` may write behind the
  -- packet's room.
  unfoldable pub decode_rows : Text → ℕ → List ImageRow → Decoding D → Option (Decoding D)
  unfolding read_at jpg_name to_int
  decode_rows blob i [] x = some x
  decode_rows blob i (r ∷ rows) x =
      if e.cancelled i
      then some x
      else if ltb (room_of i (to_int (pos r.size))) r.size
      then none
      else with_slice (read_at blob r.offset r.size) (some (record x { io_ok = false }))
          (λ bytes. decode_rows blob (suc i) rows (send_packet r bytes x))

  abbrev pub flush_decoder : Decoding D → Decoding D
  flush_decoder x = drain (record x { decoder = (D.send none x.decoder).0 })

  abbrev pub finished : Decoding D → ImageResult
  finished y =
      let x = flush_decoder y in
      record { ok = x.io_ok && not e.cancelled_at_end; packets = x.packets; files = x.files }

  abbrev pub decoded : Text → List ImageRow → D.State → Option ImageResult
  decoded blob rows s = do
    y ← decode_rows blob 0 rows (record { decoder = s; packets = []; files = []; io_ok = true })
    some (finished y)

  abbrev pub with_decoder : List ImageRow → Option Text → Option D.State → Option ImageResult
  with_decoder rows none s = some no_images
  with_decoder rows (some blob) none = some no_images
  with_decoder rows (some blob) (some s) = decoded blob rows s

  -- `run` behind read_index.
  unfoldable pub image_rows : ImageIndex → Option ImageResult
  unfolding decode_rows
  image_rows x =
      if length x.rows == 0 || x.first_key == size_max
      then some no_images
      else with_decoder (drop x.first_key x.rows) e.blob e.decoder

  unfoldable pub run_images : Text → Option ImageResult
  run_images idx = image_rows (read_image_index idx)
