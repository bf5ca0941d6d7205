-- ===== src/Fleet.antt =====
-- The collector with its own recorders: the interface `Parts` of DataCollector
-- (include/system/data_collector.hpp) filled by RealsenseRecorder and the robot stream recorders of
-- src/system/. A recorder comes with how it got where it is.
pub mod Settled
pub mod Named
use kist_data_collector.Common.{ℕ, ◌≡◌, refl, [], ◌++◌, Bool, true, false, Option, none, some}
use kist_data_collector.Common.Text.{Text, text}
use kist_data_collector.Stream.{StreamStats}
use kist_data_collector.Schema.{Floats}
use kist_data_collector.Schema.Frames.{ColorFrame, DepthFrame, color_row, depth_row}
use kist_data_collector.Blob.{FrameType, blob_stats}
use kist_data_collector.Row.{RecordType, row_stats}
use kist_data_collector.Camera.{Camera, Setting, fresh_camera, start_camera, stop_camera}
use kist_data_collector.Camera.Life as CameraLife
use kist_data_collector.Recorders.{SdkRecorder, Disk, Dds, fresh_sdk, start_sdk, stop_sdk}
use kist_data_collector.Recorders.Life as SdkLife
use kist_data_collector.Recorders.Streams.{
  lowstate_records, dex3_records, lowcmd_records, dex3_cmd_records, motion_token_records,
  uwb_records, start_lowstate, start_dex3, start_lowcmd, start_dex3_cmd, start_motion_token,
  start_uwb,
}
use kist_data_collector.Collector.{Parts}

abbrev pub color_frames : FrameType
color_frames = record {
  Frame = ColorFrame;
  sequence = λ f. f.sequence;
  payload = λ f. f.payload;
  row = color_row;
}

module _ (R : Floats) where
  abbrev pub depth_frames : FrameType
  depth_frames = record {
    Frame = DepthFrame R;
    sequence = λ f. f.sequence;
    payload = λ f. f.payload;
    row = depth_row R;
  }

  -- The environment of a session: what happens in the start of the camera of that name in that
  -- directory, to the file of that path, and on the DDS channel of that stream; what happens in the
  -- stops; and the standard library's `stem`.
  pub record World : Type 0 where
    pub camera : Text → Text → Setting color_frames depth_frames
    pub disk : Text → Disk
    pub dds : Text → Dds
    pub stem : Text → Text
    pub camera_stop : Setting color_frames depth_frames
    pub disk_stop : Disk

  pub record CameraOf : Type 0 where
    pub rec : Camera color_frames depth_frames
    pub past : CameraLife.Reach color_frames depth_frames rec

  pub record Sdk (T : RecordType) : Type 0 where
    pub rec : SdkRecorder T
    pub past : SdkLife.Reach T rec

  pub data StreamOf : Type 0 where
    lowstate : Sdk (lowstate_records R) → StreamOf
    dex3 : Sdk (dex3_records R) → StreamOf
    lowcmd : Sdk (lowcmd_records R) → StreamOf
    dex3_cmd : Sdk (dex3_cmd_records R) → StreamOf
    motion_token : Sdk (motion_token_records R) → StreamOf
    uwb : Sdk (uwb_records R) → StreamOf

  -- A recorder is kept if its start returned true.
  abbrev pub kept_camera :
      (e : Setting color_frames depth_frames) (name : Text) (capacity : ℕ)
      (o : Option (Camera color_frames depth_frames × Bool))
      → start_camera color_frames depth_frames e name capacity
          (fresh_camera color_frames depth_frames)
        ≡ o
      → Option CameraOf
  kept_camera e name capacity none h = none
  kept_camera e name capacity (some (r, false)) h = none
  kept_camera e name capacity (some (r, true)) h =
      some (record { rec = r; past = CameraLife.starts e name capacity h CameraLife.made })

  abbrev pub kept_sdk :
      (T : RecordType) (d : Disk) (dds : Dds) (header : Text) (capacity : ℕ) (label : Text)
      (o : Option (SdkRecorder T × Bool))
      → start_sdk T d dds header capacity (record (fresh_sdk T) { label = label }) ≡ o
      → Option (Sdk T)
  kept_sdk T d dds header capacity label none h = none
  kept_sdk T d dds header capacity label (some (r, false)) h = none
  kept_sdk T d dds header capacity label (some (r, true)) h =
      some (record { rec = r; past = SdkLife.starts d dds header capacity label h SdkLife.made })

  abbrev pub wrapped : (T : RecordType) → (Sdk T → StreamOf) → Option (Sdk T) → Option StreamOf
  wrapped T f none = none
  wrapped T f (some s) = some (f s)

  unfoldable lowstate_of : World → Text → ℕ → Option StreamOf
  unfolding start_lowstate
  lowstate_of w dir capacity = wrapped _ lowstate (
      kept_sdk (lowstate_records R) _ _ _ _ []
        (start_lowstate R w.disk (w.dds (text "lowstate")) dir capacity (fresh_sdk _)) refl)

  unfoldable pub dex3_of : World → Text → Text → ℕ → Option StreamOf
  unfolding start_dex3
  dex3_of w dir side capacity = wrapped _ dex3 (
      kept_sdk (dex3_records R) _ _ _ _ side
        (start_dex3 R w.disk (w.dds (text "dex3_" ++ side)) dir capacity side (fresh_sdk _)) refl)

  unfoldable pub lowcmd_of : World → Text → ℕ → Text → Text → Option StreamOf
  unfolding start_lowcmd
  lowcmd_of w dir capacity topic csv = wrapped _ lowcmd (
      kept_sdk (lowcmd_records R) _ _ _ _ (w.stem csv)
        (start_lowcmd R w.disk (w.dds topic) dir capacity w.stem csv (fresh_sdk _)) refl)

  unfoldable pub dex3_cmd_of : World → Text → Text → ℕ → Option StreamOf
  unfolding start_dex3_cmd
  dex3_cmd_of w dir side capacity = wrapped _ dex3_cmd (
      kept_sdk (dex3_cmd_records R) _ _ _ _ side
        (start_dex3_cmd R w.disk (w.dds (text "dex3_cmd_" ++ side)) dir capacity side (fresh_sdk _))
        refl)

  unfoldable motion_token_of : World → Text → ℕ → Option StreamOf
  unfolding start_motion_token
  motion_token_of w dir capacity = wrapped _ motion_token (
      kept_sdk (motion_token_records R) _ _ _ _ []
        (start_motion_token R w.disk (w.dds (text "motion_token")) dir capacity (fresh_sdk _)) refl)

  unfoldable uwb_of : World → Text → ℕ → Option StreamOf
  unfolding start_uwb
  uwb_of w dir capacity = wrapped _ uwb (
      kept_sdk (uwb_records R) _ _ _ _ []
        (start_uwb R w.disk (w.dds (text "uwb")) dir capacity (fresh_sdk _)) refl)

  abbrev pub stopped_sdk : (T : RecordType) → Disk → Sdk T → Sdk T
  stopped_sdk T d s = record { rec = stop_sdk T d s.rec; past = SdkLife.stops d s.past }

  abbrev pub stopped_stream : Disk → StreamOf → StreamOf
  stopped_stream d (lowstate s) = lowstate (stopped_sdk _ d s)
  stopped_stream d (dex3 s) = dex3 (stopped_sdk _ d s)
  stopped_stream d (lowcmd s) = lowcmd (stopped_sdk _ d s)
  stopped_stream d (dex3_cmd s) = dex3_cmd (stopped_sdk _ d s)
  stopped_stream d (motion_token s) = motion_token (stopped_sdk _ d s)
  stopped_stream d (uwb s) = uwb (stopped_sdk _ d s)

  abbrev pub stream_stats : StreamOf → StreamStats
  stream_stats (lowstate s) = row_stats _ s.rec.rec
  stream_stats (dex3 s) = row_stats _ s.rec.rec
  stream_stats (lowcmd s) = row_stats _ s.rec.rec
  stream_stats (dex3_cmd s) = row_stats _ s.rec.rec
  stream_stats (motion_token s) = row_stats _ s.rec.rec
  stream_stats (uwb s) = row_stats _ s.rec.rec

  abbrev pub stream_tag : StreamOf → Text
  stream_tag (lowstate s) = s.rec.label
  stream_tag (dex3 s) = s.rec.label
  stream_tag (lowcmd s) = s.rec.label
  stream_tag (dex3_cmd s) = s.rec.label
  stream_tag (motion_token s) = s.rec.label
  stream_tag (uwb s) = s.rec.label

  -- The recorders, as the collector sees them. Domain and interface only reach DDS.
  unfoldable pub fleet : World → Parts
  unfolding lowstate_of dex3_of lowcmd_of dex3_cmd_of motion_token_of uwb_of
  fleet w = record {
    Camera = CameraOf;
    Stream = StreamOf;
    start_camera =
        λ domain name dir capacity reliable. kept_camera (w.camera name dir) name capacity _ refl;
    start_lowstate = λ domain iface dir capacity. lowstate_of w dir capacity;
    start_dex3 = λ domain iface dir side capacity. dex3_of w dir side capacity;
    start_uwb = λ domain iface dir capacity. uwb_of w dir capacity;
    start_lowcmd = λ domain iface dir capacity topic csv. lowcmd_of w dir capacity topic csv;
    start_dex3_cmd = λ domain iface dir side capacity. dex3_cmd_of w dir side capacity;
    start_motion_token = λ domain iface dir capacity. motion_token_of w dir capacity;
    stop_camera = λ c. record {
      rec = stop_camera color_frames depth_frames w.camera_stop c.rec;
      past = CameraLife.stops w.camera_stop c.past;
    };
    stop_stream = stopped_stream w.disk_stop;
    color_stats = λ c. blob_stats color_frames c.rec.color_rec;
    depth_stats = λ c. blob_stats depth_frames c.rec.depth_rec;
    stats = stream_stats;
    name = λ c. c.rec.name;
    tag = stream_tag;
  }
