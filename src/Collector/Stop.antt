-- ===== src/Collector/Stop.antt =====
-- DataCollector::stop and write_result (src/system/data_collector.cpp).
use kist_data_collector.Common.{List, [], ◌∷◌, ◌++◌, false, Option, none, some, if◌then◌else◌}
use kist_data_collector.Common.Text.{Text, text}
use kist_data_collector.Common.Int.{ℤ}
use kist_data_collector.Session.{
  MetaWrite, StreamSummary, session_finalize_meta, session_append_result,
}
use kist_data_collector.Collector.{Parts, Collector}

module _ (P : Parts) where
  open P use {Camera, Stream, stop_camera, stop_stream, color_stats, depth_stats, stats, name, tag}

  unfoldable pub camera_summaries : List Camera → List StreamSummary
  camera_summaries [] = []
  camera_summaries (rec ∷ recs) =
      let rec' = stop_camera rec in
      record { source = name rec'; stream = text "color"; stats = color_stats rec' }
      ∷ record { source = name rec'; stream = text "depth"; stats = depth_stats rec' }
      ∷ camera_summaries recs

  unfoldable pub stream_summaries : Text → Text → List Stream → List StreamSummary
  stream_summaries source prefix [] = []
  stream_summaries source prefix (rec ∷ recs) =
      let rec' = stop_stream rec in
      record { source = source; stream = prefix ++ tag rec'; stats = stats rec' }
      ∷ stream_summaries source prefix recs

  abbrev pub one_summary : Text → Text → Option Stream → List StreamSummary
  one_summary source stream none = []
  one_summary source stream (some rec) =
      record { source = source; stream = stream; stats = stats (stop_stream rec) } ∷ []

  unfoldable pub summary_of : Collector P → List StreamSummary
  summary_of c =
      camera_summaries c.cameras
      ++ one_summary (text "unitree") (text "lowstate") c.lowstate
      ++ stream_summaries (text "dex3") (text "hand_") c.hands
      ++ one_summary (text "uwb") (text "position") c.uwb
      ++ stream_summaries (text "unitree") [] c.body_cmds
      ++ stream_summaries (text "dex3") (text "hand_cmd_") c.hand_cmds
      ++ one_summary (text "gearsonic") (text "motion_token") c.motion_token

  -- The environment is the clock that session_finalize_meta reads, and the file system.
  unfoldable pub stop : MetaWrite → (ended_utc : Text) (ended_ns : ℤ) → Collector P → Collector P
  stop disk ended_utc ended_ns c =
      if c.running
      then record c {
        meta = session_finalize_meta disk ended_utc ended_ns (summary_of c) c.meta;
        cameras = [];
        lowstate = none;
        hands = [];
        uwb = none;
        body_cmds = [];
        hand_cmds = [];
        motion_token = none;
        running = false;
      }
      else c

  unfoldable pub write_result : MetaWrite → Text → Collector P → Collector P
  write_result disk result c = record c {
    meta = session_append_result disk c.session result c.meta;
  }
