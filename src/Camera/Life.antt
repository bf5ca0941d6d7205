-- ===== src/Camera/Life.antt =====
-- The life of a camera recorder (src/system/realsense_recorder.cpp): its calls, with frames and
-- turns of the two writers in between.
use kist_data_collector.Common.{
  ℕ, ◌≡◌, refl, sym, ap, ◌∙◌, subst, Bool, true, false, some, some_injective, inr,
}
use kist_data_collector.Common.Text.{Text}
use kist_data_collector.Common.Int.{ℤ}
use kist_data_collector.Outcome.{Holds-get}
use kist_data_collector.Pipeline
use kist_data_collector.Pipeline.{Writer, Recorder}
use kist_data_collector.Pipeline.Serial
use kist_data_collector.Pipeline.Serial.{Answers}
use kist_data_collector.Pipeline.Serial.Steady.{
  serve-IsSteady, push-joinable, push-IsSteady, IsSteady-settled,
}
use kist_data_collector.Camera.Whole.{
  IsWhole, IsSteadyColor, IsSteadyDepth, stop_camera-IsWhole, start_camera-Ends,
}
use kist_data_collector.Blob.{FrameType, blob_writer, blob_stats}
use kist_data_collector.Blob.Losses.{blob_counts}
use kist_data_collector.Collector.Summary.{IsSettled}
use kist_data_collector.Camera.{Camera, Setting, fresh_camera, stop_camera, start_camera}

-- A camera recorder after any calls, frames and turns of its writers.
pub data Reach (C D : FrameType) : Camera C D → Type 0 where
  made : Reach C D (fresh_camera C D)
  starts :
      (e : Setting C D) (name : Text) (capacity : ℕ) {r r' : Camera C D} {ok : Bool}
      → start_camera C D e name capacity r ≡ some (r', ok)
      → Reach C D r
      → Reach C D r'
  stops : (e : Setting C D) {r : Camera C D} → Reach C D r → Reach C D (stop_camera C D e r)
  color_arrives :
      (f : C.Frame) (t : ℤ) {r : Camera C D}
      → Reach C D r
      → Reach C D (record r { color_rec = Pipeline.push f t r.color_rec })
  depth_arrives :
      (f : D.Frame) (t : ℤ) {r : Camera C D}
      → Reach C D r
      → Reach C D (record r { depth_rec = Pipeline.push f t r.depth_rec })
  color_serves :
      (d : Answers (blob_writer C)) {r : Camera C D}
      → r.color_rec.joinable ≡ true
      → Reach C D r
      → Reach C D (record r { color_rec = Serial.serve d r.color_rec })
  depth_serves :
      (d : Answers (blob_writer D)) {r : Camera C D}
      → r.depth_rec.joinable ≡ true
      → Reach C D r
      → Reach C D (record r { depth_rec = Serial.serve d r.depth_rec })

module _ (C D : FrameType) where
  with_color :
      (r : Camera C D) (rec : Recorder (blob_writer C))
      → IsSteadyColor C D rec
      → rec.joinable ≡ r.color_rec.joinable
      → IsWhole C D r
      → IsWhole C D (record r { color_rec = rec })
  with_color r rec v j w = record {
    color = v;
    depth = w.depth;
    color_thread = j ∙ w.color_thread;
    depth_thread = w.depth_thread;
    color_sub = w.color_sub;
    depth_sub = w.depth_sub;
  }

  with_depth :
      (r : Camera C D) (rec : Recorder (blob_writer D))
      → IsSteadyDepth C D rec
      → rec.joinable ≡ r.depth_rec.joinable
      → IsWhole C D r
      → IsWhole C D (record r { depth_rec = rec })
  with_depth r rec v j w = record {
    color = w.color;
    depth = v;
    color_thread = w.color_thread;
    depth_thread = j ∙ w.depth_thread;
    color_sub = w.color_sub;
    depth_sub = w.depth_sub;
  }

  stopped : (e : Setting C D) (r : Camera C D) → (stop_camera C D e r).running ≡ false
  unfolding stop_camera
  stopped e r = refl

  Reach-IsWhole : {r : Camera C D} → Reach C D r → IsWhole C D r
  Reach-IsWhole made = record {
    color = record { balance = refl; counted = refl; silent = λ _. (refl, inr refl) };
    depth = record { balance = refl; counted = refl; silent = λ _. (refl, inr refl) };
    color_thread = refl;
    depth_thread = refl;
    color_sub = refl;
    depth_sub = refl;
  }
  Reach-IsWhole (starts e name capacity {r} h l) =
      let (p, same, w) =
        Holds-get (λ (p : Camera C D × Bool). IsWhole C D p.0) _
          (start_camera-Ends C D e name capacity r (Reach-IsWhole l)) in
      subst (IsWhole C D) (ap (λ (p : Camera C D × Bool). p.0) (some_injective (sym same ∙ h))) w
  Reach-IsWhole (stops e {r} l) =
      let v = Reach-IsWhole l in stop_camera-IsWhole C D e r v.color v.depth
  Reach-IsWhole (color_arrives f t {r} l) =
      let v = Reach-IsWhole l in
      with_color r _ (push-IsSteady (blob_counts C) f t r.color_rec v.color)
        (push-joinable (blob_counts C) f t r.color_rec) v
  Reach-IsWhole (depth_arrives f t {r} l) =
      let v = Reach-IsWhole l in
      with_depth r _ (push-IsSteady (blob_counts D) f t r.depth_rec v.depth)
        (push-joinable (blob_counts D) f t r.depth_rec) v
  Reach-IsWhole (color_serves d {r} j l) =
      let v = Reach-IsWhole l in
      let (w, k) = serve-IsSteady (blob_counts C) d r.color_rec v.color in with_color r _ w k v
  Reach-IsWhole (depth_serves d {r} j l) =
      let v = Reach-IsWhole l in
      let (w, k) = serve-IsSteady (blob_counts D) d r.depth_rec v.depth in with_depth r _ w k v

  -- However often a camera recorder was started and stopped, and whichever of its files,
  -- subscribers and writes failed, the next `start` returns, and both writer threads and both
  -- subscribers are then there exactly if `running_` is true.
  pub Reach-start_camera :
      {r : Camera C D} (e : Setting C D) (name : Text) (capacity : ℕ)
      → Reach C D r
      → (p : Camera C D × Bool) × (start_camera C D e name capacity r ≡ some p)
        × (p.0.color_rec.joinable ≡ p.0.running)
        × (p.0.depth_rec.joinable ≡ p.0.running)
        × (p.0.color_sub ≡ p.0.running)
        × (p.0.depth_sub ≡ p.0.running)
  Reach-start_camera e name capacity l =
      let (p, same, w) =
        Holds-get (λ (p : Camera C D × Bool). IsWhole C D p.0) _
          (start_camera-Ends C D e name capacity _ (Reach-IsWhole l)) in
      (p, same, w.color_thread, w.depth_thread, w.color_sub, w.depth_sub)

  -- However it got where it is, a camera recorder that is stopped has accounted, in both streams,
  -- for every frame that it received since it was made, those of the grace period and of the
  -- subscribers' last sweep included, modulo 2^64: dropped, written, or a write error.
  pub Reach-stop_camera-IsSettled :
      {r : Camera C D} (e : Setting C D)
      → Reach C D r
      → IsSettled (blob_stats C (stop_camera C D e r).color_rec)
        × IsSettled (blob_stats D (stop_camera C D e r).depth_rec)
  unfolding blob_stats
  Reach-stop_camera-IsSettled {r} e l =
      let w = Reach-IsWhole (stops e l) in
      (
        IsSteady-settled (blob_counts C) _ w.color (w.color_thread ∙ stopped e r),
        IsSteady-settled (blob_counts D) _ w.depth (w.depth_thread ∙ stopped e r),
      )
