-- ===== src/Camera.antt =====
-- src/system/realsense_recorder.cpp with include/realsense_recorder/reliable_subscriber.hpp: one
-- camera, two blob recorders and two subscribers behind one start and stop. Its threads take turns
-- here; the interleavings within a recorder are those of Pipeline/Threads.
mod Whole
pub mod Life
use kist_data_collector.Common.{
  ℕ, List, [], ◌∷◌, Bool, true, false, Option, none, some, if◌then◌else◌,
}
use kist_data_collector.Common.Text.{Text}
use kist_data_collector.Common.Int.{ℤ}
use kist_data_collector.Outcome.{◌>>=◌}
use kist_data_collector.Stream.{Fate}
use kist_data_collector.Pipeline
use kist_data_collector.Pipeline.{Writer, Recorder}
use kist_data_collector.Pipeline.Serial
use kist_data_collector.Pipeline.Serial.{Answers}
use kist_data_collector.Blob.{FrameType, blob_writer, open_blob, fresh_blob}
use kist_data_collector.Schema.Frames.{color_idx_header, depth_idx_header}

-- ReliableSubscriber::start: `ok` says that DDS threw nothing; the state is whether `thread_` is
-- joinable, and `none` is std::terminate.
unfoldable pub subscribe : (ok : Bool) → Bool → Option (Bool × Bool)
subscribe false joinable = some (joinable, false)
subscribe true joinable = if joinable then none else some (true, true)

-- The frames that a subscriber hands over, in order, with their arrival times.
unfoldable pub push_all : (W : Writer) → List (W.Item × ℤ) → Recorder W → Recorder W
push_all W [] r = r
push_all W ((f, t) ∷ xs) r = push_all W xs (Pipeline.push f t r)

-- A subscriber that runs brings its last frames.
abbrev pub swept : (W : Writer) → Bool → List (W.Item × ℤ) → Recorder W → Recorder W
swept W running late r = if running then push_all W late r else r

module _ (C D : FrameType) where
  pub record Camera : Type 0 where
    pub name : Text
    pub color_rec : Recorder (blob_writer C)
    pub depth_rec : Recorder (blob_writer D)
    pub color_sub : Bool
    pub depth_sub : Bool
    pub running : Bool

  -- The environment of one call: which directory and files can be made, what DDS does, and the
  -- frames that the grace period and the subscribers' last sweep still bring.
  pub record Setting : Type 0 where
    pub created : Bool
    pub color_data : Bool
    pub color_index : Bool
    pub depth_data : Bool
    pub depth_index : Bool
    pub on_header : Fate
    pub color_connects : Bool
    pub depth_connects : Bool
    pub late_color : List (C.Frame × ℤ)
    pub late_depth : List (D.Frame × ℤ)
    pub color : Answers (blob_writer C)
    pub depth : Answers (blob_writer D)

  -- The members' initial values.
  abbrev pub fresh_camera : Camera
  fresh_camera = record {
    name = [];
    color_rec = fresh_blob C;
    depth_rec = fresh_blob D;
    color_sub = false;
    depth_sub = false;
    running = false;
  }

  -- Both recorders' `close`.
  abbrev pub close_both : Setting → Camera → Camera
  close_both e r = record r {
    color_rec = Serial.close e.color r.color_rec;
    depth_rec = Serial.close e.depth r.depth_rec;
  }

  unfoldable pub stop_camera : Setting → Camera → Camera
  stop_camera e r = close_both e (record r {
    color_rec = swept (blob_writer C) r.color_sub e.late_color r.color_rec;
    depth_rec = swept (blob_writer D) r.depth_sub e.late_depth r.depth_rec;
    color_sub = false;
    depth_sub = false;
    running = false;
  })

  abbrev pub depth_subscribed : Setting → Camera → Bool × Bool → Camera × Bool
  depth_subscribed e r (joinable, ok) =
      if ok
      then (record r { depth_sub = joinable; running = true }, true)
      else (stop_camera e (record r { depth_sub = joinable }), false)

  abbrev pub color_subscribed : Setting → Camera → Bool × Bool → Option (Camera × Bool)
  color_subscribed e r (joinable, ok) =
      if ok
      then (do
        p ← subscribe e.depth_connects r.depth_sub
        some (depth_subscribed e (record r { color_sub = joinable }) p))
      else some (stop_camera e (record r { color_sub = joinable }), false)

  abbrev pub depth_opened :
      Setting → Camera → Recorder (blob_writer D) × Bool → Option (Camera × Bool)
  depth_opened e r (rec, ok) =
      if ok
      then (do
        p ← subscribe e.color_connects r.color_sub
        color_subscribed e (record r { depth_rec = rec }) p)
      else some (close_both e (record r { depth_rec = rec }), false)

  abbrev pub color_opened :
      Setting → ℕ → Camera → Recorder (blob_writer C) × Bool → Option (Camera × Bool)
  color_opened e queue_capacity r (rec, ok) =
      if ok
      then (do
        p ←
            open_blob D e.depth_data e.depth_index e.on_header depth_idx_header queue_capacity
              r.depth_rec
        depth_opened e (record r { color_rec = rec }) p)
      else some (close_both e (record r { color_rec = rec }), false)

  abbrev pub open_both : Setting → ℕ → Camera → Option (Camera × Bool)
  open_both e queue_capacity r = do
    p ←
        open_blob C e.color_data e.color_index e.on_header color_idx_header queue_capacity
          r.color_rec
    color_opened e queue_capacity r p

  -- `start`; `none` is std::terminate.
  unfoldable pub start_camera : Setting → Text → ℕ → Camera → Option (Camera × Bool)
  start_camera e name queue_capacity r =
      if r.running
      then some (r, true)
      else if e.created
      then open_both e queue_capacity (record r { name = name })
      else some (record r { name = name }, false)
