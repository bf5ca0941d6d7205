-- ===== src/Tests/Camera.antt =====
-- The camera recorder's theorems at one whose depth stream failed to start, which then ran.
use kist_data_collector.Common.{ℕ, ◌≡◌, refl, List, [], ◌∷◌, Bool, true, false, some}
use kist_data_collector.Common.Text.{text, decimal}
use kist_data_collector.Common.Int.{pos}
use kist_data_collector.RecordQueue
use kist_data_collector.RecordQueue.{open_queue}
use kist_data_collector.Stream.{keep, close_stream, flush, write}
use kist_data_collector.Pipeline
use kist_data_collector.Pipeline.Serial
use kist_data_collector.Blob.{FrameType, Fates, open_blob, blob_stats, write_frame}
use kist_data_collector.Blob.Sink.{open_sink, close_sink, flush_sink}
use kist_data_collector.Collector.Summary.{IsSettled}
use kist_data_collector.Camera.{
  fresh_camera, Camera, Setting, start_camera, stop_camera, subscribe, push_all,
}
use kist_data_collector.Camera.Life.{
  Reach, made, starts, color_arrives, Reach-start_camera, Reach-stop_camera-IsSettled,
}

-- Frames of a sequence number and bytes.
abbrev frames : FrameType
frames = record {
  Frame = ℕ × List ℕ;
  sequence = λ f. f.0;
  payload = λ f. f.1;
  row = λ f t. decimal f.0;
}

abbrev kept : Fates
kept = record { on_data = keep; on_index = keep }

-- Everything works, but for the depth stream's connection if so said; one colour frame comes late.
abbrev setting : Bool → Setting frames frames
setting depth_connects = record {
  created = true;
  color_data = true;
  color_index = true;
  depth_data = true;
  depth_index = true;
  on_header = keep;
  color_connects = true;
  depth_connects = depth_connects;
  late_color = ((6, 9 ∷ []), pos 300) ∷ [];
  late_depth = [];
  color = record { on_item = λ n. kept; on_flush = kept; on_close = kept };
  depth = record { on_item = λ n. kept; on_flush = kept; on_close = kept };
}

-- The start that fails, and the one behind it.
unfoldable refused :
    (p : Camera frames frames × Bool) × (start_camera frames frames
        (setting false)
        (text "front")
        4
        (fresh_camera frames frames)
      ≡ some p)
unfolding start_camera stop_camera subscribe push_all open_blob open_sink open_queue Serial.close
    Serial.serve Serial.write_batch Pipeline.push RecordQueue.push RecordQueue.close close_sink
    close_stream flush write flush_sink
refused = (_, refl)

unfoldable started :
    (p : Camera frames frames × Bool) × (start_camera frames frames
        (setting true)
        (text "front")
        4
        refused.0.0
      ≡ some p)
unfolding refused start_camera stop_camera subscribe push_all open_blob open_sink open_queue
    Serial.close Serial.serve Serial.write_batch Pipeline.push RecordQueue.push RecordQueue.close
    close_sink close_stream flush write flush_sink write_frame
started = (_, refl)

unfoldable ran : (r : Camera frames frames) × Reach frames frames r
unfolding refused started
ran = (
  _,
  color_arrives (5, 10 ∷ 20 ∷ []) (pos 100)
      (starts (setting true) (text "front") 4 started.1
        (starts (setting false) (text "front") 4 refused.1 made)),
)

Reach-start_camera_example :
    (p : Camera frames frames × Bool) × (start_camera frames frames
        (setting true)
        (text "front")
        4
        ran.0
      ≡ some p)
    × (p.0.color_rec.joinable ≡ p.0.running)
    × (p.0.depth_rec.joinable ≡ p.0.running)
    × (p.0.color_sub ≡ p.0.running)
    × (p.0.depth_sub ≡ p.0.running)
Reach-start_camera_example = Reach-start_camera frames frames (setting true) (text "front") 4 ran.1

Reach-stop_camera-IsSettled_example :
    IsSettled (blob_stats frames (stop_camera frames frames (setting true) ran.0).color_rec)
    × IsSettled (blob_stats frames (stop_camera frames frames (setting true) ran.0).depth_rec)
Reach-stop_camera-IsSettled_example = Reach-stop_camera-IsSettled frames frames (setting true) ran.1
