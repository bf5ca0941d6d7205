-- ===== src/Tests/Export.antt =====
-- The colour exporters at a recording of three frames, of which the second is a keyframe; their
-- worker thread; and the tools.
use kist_data_collector.Common.{
  suc, ltb, ◌-◌, ◌^◌, ℕ, ◌^◌, ap, Option, ◌≡◌, ◌<◌, refl, List, [], ◌∷◌, Bool, true, false, none,
  some, length, take, drop, arith, ◌↔◌, map,
}
use kist_data_collector.Common.Text.{Text}
use kist_data_collector.Common.Int.{ℤ, negsuc, ◌+ℤ◌, pos, ◌-ℤ◌}
use kist_data_collector.Schema.Frames.{ColorFrame, IsColorFrame}
use kist_data_collector.Export.ColorIndex.{Mp4Row, read_mp4_index}
use kist_data_collector.Export.ColorReading.{
  ColorFrames, Fits, index_file, mp4_row_of, read_mp4_index-index_file,
}
use kist_data_collector.Export.Mp4.{remux, Muxing, mux_loop, run_mp4, fresh_mux, int64_min}
use kist_data_collector.Export.Mp4.Times.{
  Increasing, times, tick, Arrived, mux_loop-Increasing, remux-ticks,
}
use kist_data_collector.Export.Mp4.Complete.{payloads, remux_succeeds, remux_ok}
use kist_data_collector.Export.Mp4.Recorded.{payloads_of, run_mp4-recorded}
use kist_data_collector.Export.ImageRun.{Decoder, ImageExport, ImageResult, run_images}
use kist_data_collector.Export.ImageRecorded.{packets_of, run_images-recorded}
use kist_data_collector.Export.Worker.{
  WorkerReach, WorkerStep, start_worker, fresh_worker, launched_worker, give_up, Worker, ended,
  start-terminates,
}
use kist_data_collector.Export.Tools.{Entry}

abbrev pub frame : ℕ → Bool → Text → ColorFrame
frame seq key bytes = record {
  width = pos 640;
  height = pos 480;
  sequence = seq;
  stamp_ns = pos 50;
  is_keyframe = key;
  frame_id = [];
  payload = bytes;
}

abbrev pub frames : ColorFrames
frames =
    (frame 7 false (1 ∷ 2 ∷ []), pos 1000)
    ∷ (frame 8 true (3 ∷ []), pos 2000000)
    ∷ (frame 9 false (4 ∷ 5 ∷ []), pos 35000000)
    ∷ []

pub frame-IsColorFrame :
    (seq : ℕ) (key : Bool) (bytes : Text) → seq < 2 ^ 64 → IsColorFrame (frame seq key bytes)
frame-IsColorFrame seq key bytes h = record {
  sequence_fits = h;
  stamp_fits = omega arith;
  width_fits = omega arith;
  height_fits = omega arith;
}

pub frames-Fits : Fits frames
frames-Fits = (
  (omega arith, frame-IsColorFrame 7 false (1 ∷ 2 ∷ []) (omega arith)),
  (
    (omega arith, frame-IsColorFrame 8 true (3 ∷ []) (omega arith)),
    ((omega arith, frame-IsColorFrame 9 false (4 ∷ 5 ∷ []) (omega arith)), tt),
  ),
)

-- Microseconds to the nearest tick.
abbrev nearest : ℤ → ℤ
nearest (pos us) = pos (tick us)
nearest (negsuc n) = pos 0 -ℤ pos (tick (suc n))

abbrev pub muxing : Bool → Muxing
muxing out_opens = record {
  blob = some (1 ∷ 2 ∷ 3 ∷ 4 ∷ 5 ∷ []);
  seeks = true;
  parses = true;
  demux = λ bytes. take 1 bytes ∷ drop 1 bytes ∷ [];
  out_opens = out_opens;
  rescale = nearest;
  accepts = λ i. true;
  cancelled = λ i. false;
  cancelled_at_end = false;
}

run_mp4-recorded_example :
    ((run_mp4 (muxing true) (index_file frames)).ok ≡ true)
    × (payloads (run_mp4 (muxing true) (index_file frames)).sent ≡ payloads_of (drop 1 frames))
run_mp4-recorded_example =
    run_mp4-recorded (muxing true) frames frames-Fits (omega arith) (omega arith)
      (refl, refl, refl, refl) (omega arith) (omega arith) refl (λ i. refl) refl (λ i. refl)

frames-read :
    (length (read_mp4_index (index_file frames)).rows ≡ 3)
    × ((read_mp4_index (index_file frames)).first_key ≡ 1)
frames-read =
    let (rows, first) = read_mp4_index-index_file frames frames-Fits (omega arith) in
    (ap length rows, first)

abbrev rows : List Mp4Row
rows = map mp4_row_of (drop 1 frames)

abbrev access_units : List Text
access_units = (3 ∷ []) ∷ (4 ∷ 5 ∷ []) ∷ []

mux_loop-Increasing_example :
    Increasing int64_min
      (times (mux_loop (muxing true) (pos 2000000) access_units rows fresh_mux).sent)
mux_loop-Increasing_example = mux_loop-Increasing (muxing true) (pos 2000000) access_units rows

rows-Arrived : Arrived (pos 2000000) (0 ∷ 33000 ∷ []) rows
unfolding ◌+ℤ◌
rows-Arrived = ((0, omega arith, refl), ((0, omega arith, refl), tt))

remux-ticks_example :
    times (remux (muxing true) (3 ∷ 4 ∷ 5 ∷ []) rows).sent
    ≡ take (length (remux (muxing true) (3 ∷ 4 ∷ 5 ∷ []) rows).sent) (pos 0 ∷ pos 2970 ∷ [])
remux-ticks_example =
    remux-ticks (muxing true) (3 ∷ 4 ∷ 5 ∷ []) (mp4_row_of (frame 8 true (3 ∷ []), pos 2000000))
      (drop 1 rows) (0 ∷ 33000 ∷ []) (λ us. refl) rows-Arrived (omega arith, (omega arith, tt))

remuxes : (remux (muxing true) (3 ∷ 4 ∷ 5 ∷ []) rows).ok ≡ true
remuxes =
    remux_succeeds (muxing true) (3 ∷ 4 ∷ 5 ∷ []) rows (omega arith) (omega arith) (λ i. refl) refl
      (λ i. refl)

remux_ok_example :
    (length (remux (muxing true) (3 ∷ 4 ∷ 5 ∷ []) rows).sent ≡ 2)
    × (payloads (remux (muxing true) (3 ∷ 4 ∷ 5 ∷ []) rows).sent ≡ access_units)
    × ((remux (muxing true) (3 ∷ 4 ∷ 5 ∷ []) rows).blob_open ≡ false)
remux_ok_example = remux_ok (muxing true) (3 ∷ 4 ∷ 5 ∷ []) rows remuxes

abbrev record_packet : Option (ℕ × Text) → List (Option ℕ) → List (Option ℕ)
record_packet none s = none ∷ s
record_packet (some p) s = some p.0 ∷ s

-- A decoder that holds one frame back until it is flushed.
abbrev held_back : Decoder
held_back = record {
  State = List (Option ℕ);
  send = λ p s. (record_packet p s, true);
  receive = λ s. (drop 1 s, take 1 s);
}

abbrev decoding : ImageExport held_back
decoding = record {
  blob = some (1 ∷ 2 ∷ 3 ∷ 4 ∷ 5 ∷ []);
  decoder = some [];
  imwrite = λ name. true;
  new_packet = λ i n. ltb n (2 ^ 31 - 65);
  cancelled = λ i. false;
  cancelled_at_end = false;
}

run_images-recorded_example :
    (z : ImageResult) × (run_images held_back decoding (index_file frames) ≡ some z)
    × (z.ok ≡ true)
    × (z.packets ≡ packets_of (drop 1 frames))
run_images-recorded_example =
    run_images-recorded held_back decoding [] (1 ∷ 2 ∷ 3 ∷ 4 ∷ 5 ∷ []) frames
      (refl, (refl, (refl, tt))) frames-Fits (omega arith, (omega arith, (omega arith, tt)))
      (omega arith) (omega arith) refl refl (λ name. refl) (λ i n h. ground (arith, h)) (λ i. refl)
      refl

-- A run that has ended early and was not waited for.
abbrev left_alone : Worker
left_alone = give_up (launched_worker fresh_worker)

left_alone-WorkerReach : WorkerReach left_alone
unfolding start_worker
left_alone-WorkerReach =
    WorkerReach.then_ (WorkerReach.then_ WorkerReach.fresh (WorkerStep.starts true true refl))
      (WorkerStep.gives_up refl)

start-terminates_example : (start_worker true left_alone ≡ none) ↔ (left_alone.phase ≡ ended)
start-terminates_example = start-terminates left_alone-WorkerReach

-- A plain file, a camera whose depth fails, and a directory without streams.
abbrev entries : List Entry
entries =
    record {
      is_directory = false;
      color_inputs = false;
      depth_inputs = false;
      color_run = none;
      depth_run = none;
    }
    ∷ record {
      is_directory = true;
      color_inputs = true;
      depth_inputs = true;
      color_run = some true;
      depth_run = some false;
    }
    ∷ record {
      is_directory = true;
      color_inputs = false;
      depth_inputs = false;
      color_run = none;
      depth_run = none;
    }
    ∷ []
