-- ===== src/Fleet/Settled.antt =====
-- The summary of a session recorded by the collector's own recorders
-- (src/system/data_collector.cpp).
use kist_data_collector.Schema.{Floats}
use kist_data_collector.Camera.Life.{Reach-stop_camera-IsSettled}
use kist_data_collector.Recorders.Life.{Reach-stop-IsSettled}
use kist_data_collector.Collector.{Collector}
use kist_data_collector.Collector.Stop.{summary_of}
use kist_data_collector.Collector.Summary.{IsSettled, AllSettled, summary-AllSettled}
use kist_data_collector.Fleet.{
  World, StreamOf, lowstate, dex3, lowcmd, dex3_cmd, motion_token, uwb, stopped_stream,
  stream_stats, fleet, color_frames, depth_frames,
}
use kist_data_collector.Recorders.{Disk}

module _ (R : Floats) where
  stream-IsSettled : (d : Disk) (s : StreamOf R) → IsSettled (stream_stats R (stopped_stream R d s))
  stream-IsSettled d (lowstate s) = Reach-stop-IsSettled _ d s.past
  stream-IsSettled d (dex3 s) = Reach-stop-IsSettled _ d s.past
  stream-IsSettled d (lowcmd s) = Reach-stop-IsSettled _ d s.past
  stream-IsSettled d (dex3_cmd s) = Reach-stop-IsSettled _ d s.past
  stream-IsSettled d (motion_token s) = Reach-stop-IsSettled _ d s.past
  stream-IsSettled d (uwb s) = Reach-stop-IsSettled _ d s.past

  -- Whatever the environment does, every entry of the summary that a collector with its own
  -- recorders appends to meta.yaml accounts for all that the stream received: dropped, written and
  -- write errors together, modulo 2^64.
  pub fleet-AllSettled :
      (w : World R) (c : Collector (fleet R w)) → AllSettled (summary_of (fleet R w) c)
  unfolding fleet
  fleet-AllSettled w c =
      summary-AllSettled (fleet R w)
        (record {
          color = λ r.
              (Reach-stop_camera-IsSettled color_frames (depth_frames R) w.camera_stop r.past).0;
          depth = λ r.
              (Reach-stop_camera-IsSettled color_frames (depth_frames R) w.camera_stop r.past).1;
          stream = stream-IsSettled w.disk_stop;
        })
        c
