-- ===== src/Tests/Fleet.antt =====
-- A world in which everything succeeds, for the collector's own recorders.
use kist_data_collector.Common.{refl, arith, [], ℕ, true}
use kist_data_collector.Common.Text.{Text, text}
use kist_data_collector.Common.Int.{pos}
use kist_data_collector.Stream.{keep}
use kist_data_collector.Blob.{Fates}
use kist_data_collector.Schema.{Floats}
use kist_data_collector.Camera.{Setting}
use kist_data_collector.Recorders.{Disk, connected}
use kist_data_collector.Session.{accepted}
use kist_data_collector.Collector.Start.{Scene}
use kist_data_collector.Fleet.{World, color_frames, depth_frames}

abbrev half : ℕ → Text
half n = text "-0.5"

abbrev pub halves : Floats
halves = record {
  Float = ℕ;
  zero_float = 0;
  g7 = half;
  g6 = half;
  commas-g7 = λ n. refl;
  commas-g6 = λ n. refl;
  length-g7 = λ n. omega arith;
  length-g6 = λ n. omega arith;
}

abbrev kept : Fates
kept = record { on_data = keep; on_index = keep }

abbrev setting : Setting color_frames (depth_frames halves)
setting = record {
  created = true;
  color_data = true;
  color_index = true;
  depth_data = true;
  depth_index = true;
  on_header = keep;
  color_connects = true;
  depth_connects = true;
  late_color = [];
  late_depth = [];
  color = record { on_item = λ n. kept; on_flush = kept; on_close = kept };
  depth = record { on_item = λ n. kept; on_flush = kept; on_close = kept };
}

abbrev disk : Disk
disk = record { opens = true; on_header = keep; on_row = λ n. keep; on_flush = keep }

abbrev pub world : World halves
world = record {
  camera = λ name dir. setting;
  disk = λ path. disk;
  dds = λ stream. connected;
  stem = λ name. text "lowcmd";
  camera_stop = setting;
  disk_stop = disk;
}

abbrev pub scene : Scene
scene = record {
  started_ns = pos 100;
  local_stamp = text "20250101_000000";
  created = true;
  started_utc = text "2025-01-01T00:00:00Z";
  found_meta = [];
  meta_write = accepted;
}
