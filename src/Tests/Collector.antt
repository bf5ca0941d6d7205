-- ===== src/Tests/Collector.antt =====
-- The collector's theorems at one with a camera, the low state and both hands.
use kist_data_collector.Common.{
  ℕ, ◌+◌, arith, refl, ◌≡◌, List, [], ◌∷◌, true, false, none, some, u64,
}
use kist_data_collector.Common.Text.{text}
use kist_data_collector.Common.Int.{pos}
use kist_data_collector.Settings.{Settings}
use kist_data_collector.Stream.{StreamStats}
use kist_data_collector.Session.{accepted, session_create}
use kist_data_collector.Collector.{Parts, Collector, new_collector}
use kist_data_collector.Collector.Start.{
  Scene, start, nothing_enabled, holds_nothing, start_recorders, announce,
}
use kist_data_collector.Collector.Report.{
  Line, line_of, print_report, report_cameras, report_streams, reported,
}
use kist_data_collector.Collector.Stop.{stop}
use kist_data_collector.Collector.Runs.{Moved, Reach, made, starts, Reach-print_report}
use kist_data_collector.Collector.Rates.{rx_at, AreWords, begin, goes_on, report, Reports-total}
use kist_data_collector.Collector.Windows.{restart_windows, SameWindows}

abbrev pub counted : ℕ → StreamStats
counted n = record {
  received = u64 n;
  written = u64 n;
  dropped = 0;
  write_errors = 0;
  wire_gaps = 0;
  bytes = 0;
}

-- Recorders that have received three records each; UWB and the motion tokens do not start.
abbrev pub parts : Parts
parts = record {
  Camera = ℕ;
  Stream = ℕ;
  start_camera = λ domain name dir capacity reliable. some 3;
  start_lowstate = λ domain iface dir capacity. some 3;
  start_dex3 = λ domain iface dir side capacity. some 3;
  start_uwb = λ domain iface dir capacity. none;
  start_lowcmd = λ domain iface dir capacity topic csv. some 3;
  start_dex3_cmd = λ domain iface dir side capacity. some 3;
  start_motion_token = λ domain iface dir capacity. none;
  stop_camera = λ c. c;
  stop_stream = λ s. s;
  color_stats = counted;
  depth_stats = counted;
  stats = counted;
  name = λ c. text "front";
  tag = λ s. text "left";
}

abbrev pub scene : Scene
scene = record {
  started_ns = pos 100;
  local_stamp = text "20250101_000000";
  created = true;
  started_utc = text "2025-01-01T00:00:00Z";
  found_meta = [];
  meta_write = accepted;
}

abbrev settings : Settings
settings = record {
  domain_id = pos 0;
  dds_uri = [];
  output_dir = text "sessions";
  task = [];
  cameras = text "front" ∷ [];
  camera_queue_capacity = 1024;
  camera_reliable = true;
  lowstate_enabled = true;
  lowstate_queue_capacity = 8192;
  dex3_enabled = true;
  dex3_queue_capacity = 4096;
  uwb_enabled = true;
  uwb_queue_capacity = 256;
  lowcmd_enabled = false;
  lowcmd_queue_capacity = 8192;
  arm_sdk_enabled = false;
  arm_sdk_queue_capacity = 8192;
  dex3_cmd_enabled = false;
  dex3_cmd_queue_capacity = 4096;
  motion_token_enabled = false;
  motion_token_queue_capacity = 4096;
}

abbrev recording : Collector parts
recording = (start parts scene settings (new_collector parts)).0

abbrev was_started : Reach parts recording
was_started = starts scene settings made

Reach-print_report_example :
    (r : List Line × Collector parts) × (print_report parts recording ≡ some r)
Reach-print_report_example = Reach-print_report parts was_started

restart_windows_example :
    SameWindows parts recording
      (start parts scene settings (stop parts accepted [] (pos 200) recording)).0
restart_windows_example = restart_windows parts scene settings accepted [] (pos 200) recording

-- The collector at a UWB that has received so many records.
abbrev at_uwb : ℕ → Collector parts
at_uwb n = record recording { uwb = some n }

unfoldable reported_once :
    (r : List Line × Collector parts) × (print_report parts (at_uwb 3) ≡ some r)
unfolding start new_collector nothing_enabled session_create holds_nothing start_recorders
    print_report report_cameras announce report_streams reported
reported_once = (_, refl)

-- It receives seven more.
abbrev later : Collector parts
later = record reported_once.0.1 { uwb = some 10 }

went_on : Moved parts reported_once.0.1 later
unfolding reported_once
went_on = record {
  same = refl;
  cameras = refl;
  lowstate = refl;
  hands = refl;
  uwb = refl;
  body_cmds = refl;
  hand_cmds = refl;
  motion_token = refl;
  names = refl;
  hand_tags = refl;
  body_cmd_tags = refl;
  hand_cmd_tags = refl;
}

unfoldable reported_again : (r : List Line × Collector parts) × (print_report parts later ≡ some r)
unfolding reported_once print_report report_cameras report_streams reported start new_collector
    nothing_enabled session_create holds_nothing start_recorders announce
reported_again = (_, refl)

words : AreWords parts
words s = omega arith

Reports-total_example : u64 (0 + (3 + 7)) ≡ u64 10
unfolding reported_once reported_again rx_at line_of start new_collector nothing_enabled
    session_create holds_nothing start_recorders announce print_report report_cameras report_streams
    reported
Reports-total_example =
    Reports-total parts {c = at_uwb 3} {d = later} words (omega arith)
      (goes_on went_on (report reported_once.1 begin)) reported_again.1
