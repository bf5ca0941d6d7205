-- ===== src/Camera/Whole.antt =====
-- What a start and a stop of a camera recorder leave, whatever fails in between
-- (src/system/realsense_recorder.cpp).
use kist_data_collector.Common.{
  ℕ, ◌≡◌, refl, sym, ◌∙◌, List, [], ◌∷◌, Bool, true, false, Option, arith, if-holds,
}
use kist_data_collector.Common.Text.{Text}
use kist_data_collector.Common.Int.{ℤ}
use kist_data_collector.Outcome.{Holds, Holds-bind}
use kist_data_collector.RecordQueue
use kist_data_collector.Stream.{Fate}
use kist_data_collector.Pipeline
use kist_data_collector.Pipeline.{Writer, Recorder}
use kist_data_collector.Pipeline.Accounting.{Counts}
use kist_data_collector.Pipeline.Serial.Steady.{IsSteady, push-IsSteady, close-IsSteady}
use kist_data_collector.Blob.{FrameType, blob_writer, launch, open_blob}
use kist_data_collector.Blob.Sink.{BlobSink, open_sink}
use kist_data_collector.Blob.Losses.{blob_counts}
use kist_data_collector.Camera.{
  Camera, Setting, subscribe, push_all, swept, close_both, stop_camera, start_camera,
  depth_subscribed, color_subscribed, depth_opened, color_opened, open_both,
}

push_all-IsSteady :
    {W : Writer} (K : Counts W) (xs : List (W.Item × ℤ)) (r : Recorder W)
    → IsSteady K r
    → IsSteady K (push_all W xs r)
unfolding push_all
push_all-IsSteady K [] r v = v
push_all-IsSteady K ((f, t) ∷ xs) r v =
    push_all-IsSteady K xs (Pipeline.push f t r) (push-IsSteady K f t r v)

open_blob-Holds :
    (F : FrameType) (data_ok index_ok : Bool) (fate : Fate) (header : Text) (capacity : ℕ)
    (r : Recorder (blob_writer F))
    → IsSteady (blob_counts F) r
    → r.joinable ≡ false
    → Holds
        (λ p. IsSteady (blob_counts F) p.0 × (p.0.joinable ≡ p.1))
        (open_blob F data_ok index_ok fate header capacity r)
unfolding Holds open_blob RecordQueue.open_queue
open_blob-Holds F data_ok index_ok fate header capacity r v j =
    launched_or_not (open_sink data_ok index_ok fate header r.out.sink)
  where
    launched_or_not :
        (p : BlobSink × Bool)
        → Holds (λ p. IsSteady (blob_counts F) p.0 × (p.0.joinable ≡ p.1)) (launch F capacity r p)
    launched_or_not (sink, false) =
        (record { balance = v.balance; counted = v.counted; silent = v.silent }, j)
    launched_or_not (sink, true) =
        if-holds
          (Holds (λ (p : Recorder (blob_writer F) × Bool).
            IsSteady (blob_counts F) p.0 × (p.0.joinable ≡ p.1)))
          r.joinable _ _ (λ on. ground (arith, on, j))
          (λ _. (
            record {
              balance = omega (arith, v.balance, (v.silent j).0);
              counted = v.counted;
              silent = λ k. ground (arith, k);
            },
            refl,
          ))

swept-IsSteady :
    {W : Writer} (K : Counts W) (on : Bool) (xs : List (W.Item × ℤ)) (r : Recorder W)
    → IsSteady K r
    → IsSteady K (swept W on xs r)
swept-IsSteady K true xs r v = push_all-IsSteady K xs r v
swept-IsSteady K false xs r v = v

subscribe-Holds :
    (ok joinable : Bool) → joinable ≡ false → Holds (λ p. p.0 ≡ p.1) (subscribe ok joinable)
unfolding Holds subscribe
subscribe-Holds false joinable j = j
subscribe-Holds true joinable j =
    if-holds (Holds (λ (p : Bool × Bool). p.0 ≡ p.1)) joinable _ _ (λ on. ground (arith, on, j))
      (λ _. refl)

module _ (C D : FrameType) where
  abbrev pub IsSteadyColor : Recorder (blob_writer C) → Type 0
  IsSteadyColor = IsSteady (blob_counts C)

  abbrev pub IsSteadyDepth : Recorder (blob_writer D) → Type 0
  IsSteadyDepth = IsSteady (blob_counts D)

  -- Both recorders are steady; threads and subscribers are there exactly while it runs.
  pub record IsWhole (r : Camera C D) : Type 0 where
    pub color : IsSteadyColor r.color_rec
    pub depth : IsSteadyDepth r.depth_rec
    pub color_thread : r.color_rec.joinable ≡ r.running
    pub depth_thread : r.depth_rec.joinable ≡ r.running
    pub color_sub : r.color_sub ≡ r.running
    pub depth_sub : r.depth_sub ≡ r.running

  close_both-IsWhole :
      (e : Setting C D) (r : Camera C D)
      → IsSteadyColor r.color_rec
      → IsSteadyDepth r.depth_rec
      → r.running ≡ false
      → r.color_sub ≡ false
      → r.depth_sub ≡ false
      → IsWhole (close_both C D e r)
  close_both-IsWhole e r v w off cs ds =
      let (a, ja) = close-IsSteady (blob_counts C) e.color r.color_rec v in
      let (b, jb) = close-IsSteady (blob_counts D) e.depth r.depth_rec w in
      record {
        color = a;
        depth = b;
        color_thread = ja ∙ sym off;
        depth_thread = jb ∙ sym off;
        color_sub = cs ∙ sym off;
        depth_sub = ds ∙ sym off;
      }

  pub stop_camera-IsWhole :
      (e : Setting C D) (r : Camera C D)
      → IsSteadyColor r.color_rec
      → IsSteadyDepth r.depth_rec
      → IsWhole (stop_camera C D e r)
  unfolding stop_camera
  stop_camera-IsWhole e r v w =
      close_both-IsWhole e _ (swept-IsSteady (blob_counts C) r.color_sub e.late_color r.color_rec v)
        (swept-IsSteady (blob_counts D) r.depth_sub e.late_depth r.depth_rec w) refl refl refl

  -- There is a result, and it is whole.
  abbrev pub Ends : Option (Camera C D × Bool) → Type 0
  Ends = Holds (λ (p : Camera C D × Bool). IsWhole p.0)

  depth_subscribed-IsWhole :
      (e : Setting C D) (r : Camera C D) (p : Bool) (ok : Bool)
      → IsSteadyColor r.color_rec
      → IsSteadyDepth r.depth_rec
      → r.color_rec.joinable ≡ true
      → r.depth_rec.joinable ≡ true
      → r.color_sub ≡ true
      → p ≡ ok
      → IsWhole (depth_subscribed C D e r (p, ok)).0
  depth_subscribed-IsWhole e r p true v w j k s h = record {
    color = v;
    depth = w;
    color_thread = j;
    depth_thread = k;
    color_sub = s;
    depth_sub = h;
  }
  depth_subscribed-IsWhole e r p false v w j k s h = stop_camera-IsWhole e _ v w

  color_subscribed-Ends :
      (e : Setting C D) (r : Camera C D) (p : Bool) (ok : Bool)
      → IsSteadyColor r.color_rec
      → IsSteadyDepth r.depth_rec
      → r.color_rec.joinable ≡ true
      → r.depth_rec.joinable ≡ true
      → r.depth_sub ≡ false
      → p ≡ ok
      → Ends (color_subscribed C D e r (p, ok))
  unfolding Holds
  color_subscribed-Ends e r p true v w j k s h =
      Holds-bind (λ (q : Bool × Bool). q.0 ≡ q.1) (λ (q : Camera C D × Bool). IsWhole q.0) _ _
        (subscribe-Holds e.depth_connects r.depth_sub s)
        (λ q g. depth_subscribed-IsWhole e (record r { color_sub = p }) q.0 q.1 v w j k h g)
  color_subscribed-Ends e r p false v w j k s h = stop_camera-IsWhole e _ v w

  depth_opened-Ends :
      (e : Setting C D) (r : Camera C D) (rec : Recorder (blob_writer D)) (ok : Bool)
      → IsSteadyColor r.color_rec
      → IsSteadyDepth rec
      → r.color_rec.joinable ≡ true
      → rec.joinable ≡ ok
      → r.running ≡ false
      → r.color_sub ≡ false
      → r.depth_sub ≡ false
      → Ends (depth_opened C D e r (rec, ok))
  unfolding Holds
  depth_opened-Ends e r rec true v w j k off cs ds =
      Holds-bind (λ (q : Bool × Bool). q.0 ≡ q.1) (λ (q : Camera C D × Bool). IsWhole q.0) _ _
        (subscribe-Holds e.color_connects r.color_sub cs)
        (λ q g. color_subscribed-Ends e (record r { depth_rec = rec }) q.0 q.1 v w j k ds g)
  depth_opened-Ends e r rec false v w j k off cs ds = close_both-IsWhole e _ v w off cs ds

  color_opened-Ends :
      (e : Setting C D) (capacity : ℕ) (r : Camera C D) (rec : Recorder (blob_writer C)) (ok : Bool)
      → IsSteadyColor rec
      → IsSteadyDepth r.depth_rec
      → rec.joinable ≡ ok
      → r.depth_rec.joinable ≡ false
      → r.running ≡ false
      → r.color_sub ≡ false
      → r.depth_sub ≡ false
      → Ends (color_opened C D e capacity r (rec, ok))
  unfolding Holds
  color_opened-Ends e capacity r rec true v w j k off cs ds =
      Holds-bind (λ (q : Recorder (blob_writer D) × Bool). IsSteadyDepth q.0 × (q.0.joinable ≡ q.1))
        (λ (q : Camera C D × Bool). IsWhole q.0) _ _
        (open_blob-Holds D e.depth_data e.depth_index e.on_header _ capacity r.depth_rec w k)
        (λ q g. depth_opened-Ends e (record r { color_rec = rec }) q.0 q.1 v g.0 j g.1 off cs ds)
  color_opened-Ends e capacity r rec false v w j k off cs ds = close_both-IsWhole e _ v w off cs ds

  open_both-Ends :
      (e : Setting C D) (capacity : ℕ) (r : Camera C D)
      → IsWhole r
      → r.running ≡ false
      → Ends (open_both C D e capacity r)
  open_both-Ends e capacity r v off =
      Holds-bind (λ (q : Recorder (blob_writer C) × Bool). IsSteadyColor q.0 × (q.0.joinable ≡ q.1))
        (λ (q : Camera C D × Bool). IsWhole q.0) _ _
        (open_blob-Holds C e.color_data e.color_index e.on_header _ capacity r.color_rec v.color
          (v.color_thread ∙ off))
        (λ q g.
          color_opened-Ends e capacity r q.0 q.1 g.0 v.depth g.1 (v.depth_thread ∙ off) off
            (v.color_sub ∙ off) (v.depth_sub ∙ off))

  pub start_camera-Ends :
      (e : Setting C D) (name : Text) (capacity : ℕ) (r : Camera C D)
      → IsWhole r
      → Ends (start_camera C D e name capacity r)
  unfolding Holds start_camera
  start_camera-Ends e name capacity r v =
      let w : IsWhole (record r { name = name }) = record {
        color = v.color;
        depth = v.depth;
        color_thread = v.color_thread;
        depth_thread = v.depth_thread;
        color_sub = v.color_sub;
        depth_sub = v.depth_sub;
      } in
      if-holds Ends r.running _ _ (λ _. v)
        (λ off. if-holds Ends e.created _ _ (λ _. open_both-Ends e capacity _ w off) (λ _. w))
