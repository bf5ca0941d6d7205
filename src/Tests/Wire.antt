-- ===== src/Tests/Wire.antt =====
-- Two frames of each stream on their way from the wire to the exporters.
use kist_data_collector.Common.{ℕ, refl, List, [], ◌∷◌, ◌++◌, true, false, arith}
use kist_data_collector.Common.Text.{text, newline}
use kist_data_collector.Common.Int.{pos}
use kist_data_collector.Pipeline.{Recorder}
use kist_data_collector.Pipeline.Threads.{System}
use kist_data_collector.Blob.{blob_writer, fresh_blob}
use kist_data_collector.Schema.Frames.{depth_idx_header}
use kist_data_collector.FrameMaps.{ColorMessages, DepthMessages, map_color, map_depth}
use kist_data_collector.Subscriber.{
  Sample, Subscriber, TakeReach, opened, then_, arrives, takes, leaves, signals, joins, sweeps,
  closes, drain_reader, closed,
}
use kist_data_collector.Fleet.{color_frames, depth_frames}
use kist_data_collector.Export.ColorReading.{ColorFrames}
use kist_data_collector.Export.DepthReading.{DepthFrames}
use kist_data_collector.Tests.Threads.{both_left, ready}
use kist_data_collector.Tests.Schema.{halves}
use kist_data_collector.Tests.Depth.{half_scan}
use kist_data_collector.Tests.EndToEnd.{kept}
use kist_data_collector.Tests.EndToEnd as Color

-- A message of its sequence number.
abbrev color_messages : ColorMessages
color_messages = record {
  Msg = ℕ;
  width = λ m. pos 640;
  height = λ m. pos 480;
  seq = λ m. m;
  stamp_ns = λ m. pos 50;
  is_keyframe = λ m. true;
  frame_id = λ m. text "front";
  payload = λ m. 1 ∷ 2 ∷ [];
}

abbrev depth_messages : DepthMessages halves
depth_messages = record {
  Msg = ℕ;
  width = λ m. pos 640;
  height = λ m. pos 480;
  seq = λ m. m;
  stamp_ns = λ m. pos 50;
  depth_scale = λ m. 0;
  fx = λ m. 0;
  fy = λ m. 0;
  cx = λ m. 0;
  cy = λ m. 0;
  frame_id = λ m. text "front";
  payload = λ m. 1 ∷ 2 ∷ [];
}

abbrev sample : ℕ → Sample ℕ
sample n = record { valid = true; msg = n }

abbrev samples : List (Sample ℕ)
samples = sample 7 ∷ record { valid = false; msg = 0 } ∷ sample 8 ∷ []

module _ {Frame : Type 0} (f : ℕ → Frame) where
  abbrev swept : Subscriber f
  swept = record {
    reader = [];
    frames = f 7 ∷ f 8 ∷ [];
    running = false;
    joinable = false;
    stage = closed;
  }

  unfoldable handed_over : TakeReach f samples swept
  unfolding drain_reader
  handed_over =
      then_
        (then_
          (then_
            (then_
              (then_
                (then_
                  (then_
                    (then_ (then_ opened (arrives (sample 7) (λ h. ground (arith, h))))
                      (arrives (record { valid = false; msg = 0 }) (λ h. ground (arith, h))))
                    (takes refl))
                  (signals refl))
                (leaves refl refl))
              (joins refl refl))
            (arrives (sample 8) (λ h. ground (arith, h))))
          (sweeps refl))
        (closes refl)

abbrev colors : ColorFrames
colors = (map_color color_messages 7, pos 1000) ∷ (map_color color_messages 8, pos 2000) ∷ []

abbrev depths : DepthFrames halves half_scan
depths =
    (map_depth halves depth_messages 7, pos 1000)
    ∷ (map_depth halves depth_messages 8, pos 2000)
    ∷ []

abbrev color_ended : System (blob_writer color_frames)
color_ended =
    (both_left Color.opened (map_color color_messages 7, pos 1000)
      (map_color color_messages 8, pos 2000) kept).0

-- The depth recorder behind its first `open`.
abbrev depth_opened : Recorder (blob_writer (depth_frames halves))
depth_opened = record (ready (fresh_blob (depth_frames halves))) {
  out = record (fresh_blob (depth_frames halves)).out {
    sink = record {
      data_file = record { disk = []; buffer = []; good = true; is_open = true };
      index_file = record {
        disk = [];
        buffer = depth_idx_header ++ newline;
        good = true;
        is_open = true;
      };
      offset = 0;
    };
  };
}

abbrev depth_ended : System (blob_writer (depth_frames halves))
depth_ended =
    (both_left depth_opened (map_depth halves depth_messages 7, pos 1000)
      (map_depth halves depth_messages 8, pos 2000) kept).0
