-- ===== src/Export/Mp4.antt =====
-- `run` of src/export/export_color_to_mp4.cpp: the frames of color.h264 from the first keyframe on,
-- muxed into an mp4 file with their arrival times.
pub mod Times
pub mod Complete
pub mod Recorded
use kist_data_collector.Common.{
  ℕ, zero, suc, ◌+◌, ◌-◌, ◌/◌, ◌^◌, List, [], ◌∷◌, ◌++◌, Bool, true, false, not, ◌&&◌, ◌||◌, Option,
  none, some, if◌then◌else◌, ◌==◌, ltb, length, drop,
}
use kist_data_collector.Common.Text.{Text}
use kist_data_collector.Common.Int.{ℤ, pos, negsuc, ◌+ℤ◌, ◌-ℤ◌, leb_ℤ}
use kist_data_collector.Export.ColorIndex.{Mp4Row, Mp4Index, size_max, read_mp4_index}

-- Division of an int64_t by 1000, towards 0.
abbrev pub thousandth : ℤ → ℤ
thousandth (pos n) = pos (n / 1000)
thousandth (negsuc n) = pos 0 -ℤ pos (suc n / 1000)

abbrev pub int64_min : ℤ
int64_min = negsuc (2 ^ 63 - 1)

-- A packet handed to the muxer.
pub record Packet : Type 0 where
  pub payload : Text
  pub pts : ℤ
  pub duration : ℤ

-- The world of one run: what libavformat does, and what `cancel_` is when it is looked at before
-- packet `i` and at the end. `demux` are the packets that av_read_frame gives for the bytes from the
-- keyframe on, `rescale` is av_rescale_q from microseconds to the track's 1/90000 s.
pub record Muxing : Type 0 where
  pub blob : Option Text  -- none: the file cannot be opened
  pub seeks : Bool
  pub parses : Bool
  pub demux : Text → List Text
  pub out_opens : Bool
  pub rescale : ℤ → ℤ
  pub accepts : ℕ → Bool  -- av_interleaved_write_frame
  pub cancelled : ℕ → Bool
  pub cancelled_at_end : Bool

-- The variables of the loop.
pub record Mux : Type 0 where
  pub i : ℕ
  pub last_pts : ℤ
  pub write_ok : Bool
  pub sent : List Packet

module _ (e : Muxing) (t0 : ℤ) where
  abbrev pub row_us : Mp4Row → ℤ
  row_us r = thousandth (r.recv_ns -ℤ t0)

  -- The row after this one, if there is one, ends the frame.
  abbrev pub next_us : Mp4Row → List Mp4Row → ℤ
  next_us r [] = row_us r +ℤ pos 33333
  next_us r (n ∷ rows) = row_us n

  abbrev pub stamp : ℤ → ℤ → ℤ
  stamp ts last_pts = if leb_ℤ ts last_pts then last_pts +ℤ pos 1 else ts

  abbrev pub packet_of : Text → Mp4Row → List Mp4Row → ℤ → Packet
  packet_of payload r rows last_pts = record {
    payload = payload;
    pts = stamp (e.rescale (row_us r)) last_pts;
    duration = e.rescale (next_us r rows -ℤ row_us r);
  }

  abbrev pub written : Packet → Mux → Mux
  written p m = record m { i = suc m.i; last_pts = p.pts; sent = m.sent ++ p ∷ [] }

  abbrev pub refused : Packet → Mux → Mux
  refused p m = record m { last_pts = p.pts; write_ok = false }

  -- The loop. The rows are those from `k + i` on, the packets those not yet read.
  unfoldable pub mux_loop : List Text → List Mp4Row → Mux → Mux
  mux_loop [] rows m = m
  mux_loop (payload ∷ packets) [] m = m
  mux_loop (payload ∷ packets) (r ∷ rows) m =
      let p : Packet = packet_of payload r rows m.last_pts in
      let later = mux_loop packets rows (written p m) in
      if e.cancelled m.i then m else if e.accepts m.i then later else refused p m

-- What a run leaves: `ok_`, the packets in the mp4 file, and whether the blob's FILE is still open.
pub record Mp4Result : Type 0 where
  pub ok : Bool
  pub sent : List Packet
  pub blob_open : Bool

-- An early return: `ok_` stays what `start` made it.
abbrev pub failed : Bool → Mp4Result
failed blob_open = record { ok = false; sent = []; blob_open = blob_open }

abbrev pub fresh_mux : Mux
fresh_mux = record { i = 0; last_pts = int64_min; write_ok = true; sent = [] }

-- From the demuxer on, where `rows` are those from `k` on, of which there is one at least.
unfoldable pub remux : Muxing → Text → List Mp4Row → Mp4Result
remux e bytes [] = failed true
remux e bytes (r ∷ rows) =
    let m : Mux = mux_loop e r.recv_ns (e.demux bytes) (r ∷ rows) fresh_mux in
    record {
      ok = m.write_ok && (not e.cancelled_at_end && m.i == length (r ∷ rows));
      sent = m.sent;
      blob_open = false;
    }

abbrev pub with_blob : Muxing → Mp4Index → Option Text → Mp4Result
with_blob e x none = failed false
with_blob e x (some blob) =
    if not e.seeks || not e.parses || not e.out_opens
    then failed true
    else remux e (drop x.cut_offset blob) (drop x.first_key x.rows)

-- `run` behind read_index.
unfoldable pub run_rows : Muxing → Mp4Index → Mp4Result
run_rows e x =
    if ltb (length x.rows) 2 || x.first_key == size_max then failed false else with_blob e x e.blob

unfoldable pub run_mp4 : Muxing → Text → Mp4Result
run_mp4 e idx = run_rows e (read_mp4_index idx)
