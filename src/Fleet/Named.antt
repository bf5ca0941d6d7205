-- ===== src/Fleet/Named.antt =====
-- The names by which the collector's own recorders go: src/system/realsense_recorder.cpp,
-- dex3_recorder.cpp, dex3_cmd_recorder.cpp, lowcmd_recorder.cpp.
use kist_data_collector.Common.{
  ◌≡◌, refl, sym, ap, ◌∙◌, subst, ℕ, Bool, true, false, Option, none, some, if-holds,
  some_injective,
}
use kist_data_collector.Common.Text.{Text}
use kist_data_collector.Common.Lacks.{Lacks}
use kist_data_collector.Outcome.{Only, Only-any, Only-some, Only-get}
use kist_data_collector.Schema.{Floats}
use kist_data_collector.Row.{RecordType, row_writer}
use kist_data_collector.Pipeline.{Recorder}
use kist_data_collector.Blob.{FrameType, blob_writer}
use kist_data_collector.Camera.{
  Camera, Setting, fresh_camera, start_camera, stop_camera, color_opened, depth_opened,
  color_subscribed, depth_subscribed,
}
use kist_data_collector.Recorders.{
  SdkRecorder, Disk, Dds, no_subscriber, no_channel, connected, fresh_sdk, start_sdk, stop_sdk,
  opened_sdk,
}
use kist_data_collector.Recorders.Streams.{
  dex3_records, lowcmd_records, dex3_cmd_records, start_dex3, start_lowcmd, start_dex3_cmd,
}
use kist_data_collector.Collector.Plain.{NamedParts}
use kist_data_collector.Fleet.{
  World, CameraOf, Sdk, StreamOf, lowstate, dex3, lowcmd, dex3_cmd, motion_token, uwb, kept_camera,
  kept_sdk, wrapped, stream_tag, stopped_stream, lowcmd_of, dex3_of, dex3_cmd_of, fleet,
  color_frames, depth_frames,
}

module _ (C D : FrameType) (e : Setting C D) (name : Text) where
  abbrev Called : Camera C D × Bool → Type 0
  Called p = p.0.name ≡ name

  stop_camera-name : (r : Camera C D) → (stop_camera C D e r).name ≡ r.name
  unfolding stop_camera
  stop_camera-name r = refl

  depth_subscribed-Called :
      (r : Camera C D) (p : Bool × Bool) → r.name ≡ name → Called (depth_subscribed C D e r p)
  unfolding stop_camera
  depth_subscribed-Called r (j, true) h = h
  depth_subscribed-Called r (j, false) h = h

  color_subscribed-Called :
      (r : Camera C D) (p : Bool × Bool) → r.name ≡ name → Only Called (color_subscribed C D e r p)
  unfolding stop_camera
  color_subscribed-Called r (j, true) h =
      Only-any Called _ _
        λ p. Only-some Called _ (depth_subscribed-Called (record r { color_sub = j }) p h)
  color_subscribed-Called r (j, false) h = Only-some Called _ h

  depth_opened-Called :
      (r : Camera C D) (rec : Recorder (blob_writer D)) (ok : Bool)
      → r.name ≡ name
      → Only Called (depth_opened C D e r (rec, ok))
  depth_opened-Called r rec true h =
      Only-any Called _ _ λ p. color_subscribed-Called (record r { depth_rec = rec }) p h
  depth_opened-Called r rec false h = Only-some Called _ h

  color_opened-Called :
      (capacity : ℕ) (r : Camera C D) (rec : Recorder (blob_writer C)) (ok : Bool)
      → r.name ≡ name
      → Only Called (color_opened C D e capacity r (rec, ok))
  color_opened-Called capacity r rec true h =
      Only-any Called _ _ λ (p : Recorder (blob_writer D) × Bool).
        depth_opened-Called (record r { color_rec = rec }) p.0 p.1 h
  color_opened-Called capacity r rec false h = Only-some Called _ h

  -- A camera recorder has the name that it was started with.
  start_camera-name :
      (capacity : ℕ) → Only Called (start_camera C D e name capacity (fresh_camera C D))
  unfolding start_camera
  start_camera-name capacity =
      if-holds (Only Called) e.created _ _
        (λ _. Only-any Called _ _ λ (p : Recorder (blob_writer C) × Bool).
          color_opened-Called capacity (record (fresh_camera C D) { name = name }) p.0 p.1 refl)
        λ _. Only-some Called _ refl

module _ (T : RecordType) (label : Text) where
  abbrev Labelled : SdkRecorder T × Bool → Type 0
  Labelled p = p.0.label ≡ label

  opened_sdk-Labelled :
      (d : Disk) (dds : Dds) (r : SdkRecorder T) (rec : Recorder (row_writer T)) (ok : Bool)
      → r.label ≡ label
      → Labelled (opened_sdk T d dds r (rec, ok))
  opened_sdk-Labelled d no_subscriber r rec true h = h
  opened_sdk-Labelled d no_channel r rec true h = h
  opened_sdk-Labelled d connected r rec true h = h
  opened_sdk-Labelled d dds r rec false h = h

  start_sdk-label :
      (d : Disk) (dds : Dds) (header : Text) (capacity : ℕ)
      → Only Labelled (start_sdk T d dds header capacity (record (fresh_sdk T) { label = label }))
  unfolding start_sdk
  start_sdk-label d dds header capacity = Only-any Labelled _ _ λ p.
      Only-some Labelled _
        (opened_sdk-Labelled d dds (record (fresh_sdk T) { label = label }) p.0 p.1 refl)

module _ (R : Floats) where
  kept_camera-name :
      (e : Setting color_frames (depth_frames R)) (name : Text) (capacity : ℕ)
      (o : Option (Camera color_frames (depth_frames R) × Bool))
      (h : start_camera color_frames
          (depth_frames R)
          e
          name
          capacity
          (fresh_camera color_frames (depth_frames R))
        ≡ o)
      (c : CameraOf R)
      → kept_camera R e name capacity o h ≡ some c
      → c.rec.name ≡ name
  kept_camera-name e name capacity none h c k = absurd (cc k)
  kept_camera-name e name capacity (some (r, false)) h c k = absurd (cc k)
  kept_camera-name e name capacity (some (r, true)) h c k =
      ap (λ (x : CameraOf R). x.rec.name) (sym (some_injective k))
      ∙ Only-get (Called color_frames (depth_frames R) e name) _
          (start_camera-name color_frames (depth_frames R) e name capacity) h

  kept_sdk-label :
      (T : RecordType) (f : Sdk R T → StreamOf R)
      → ((s : Sdk R T) → stream_tag R (f s) ≡ s.rec.label)
      → (d : Disk) (dds : Dds) (header : Text) (capacity : ℕ) (label : Text)
        (o : Option (SdkRecorder T × Bool))
        (h : start_sdk T d dds header capacity (record (fresh_sdk T) { label = label }) ≡ o)
        (s : StreamOf R)
      → wrapped R T f (kept_sdk R T d dds header capacity label o h) ≡ some s
      → stream_tag R s ≡ label
  kept_sdk-label T f tagged d dds header capacity label none h s k = absurd (cc k)
  kept_sdk-label T f tagged d dds header capacity label (some (r, false)) h s k = absurd (cc k)
  kept_sdk-label T f tagged d dds header capacity label (some (r, true)) h s k =
      ap (stream_tag R) (sym (some_injective k))
      ∙ tagged _
      ∙ Only-get (Labelled T label) _ (start_sdk-label T label d dds header capacity) h

  stopped-tag : (d : Disk) (s : StreamOf R) → stream_tag R (stopped_stream R d s) ≡ stream_tag R s
  unfolding stop_sdk
  stopped-tag d (lowstate s) = refl
  stopped-tag d (dex3 s) = refl
  stopped-tag d (lowcmd s) = refl
  stopped-tag d (dex3_cmd s) = refl
  stopped-tag d (motion_token s) = refl
  stopped-tag d (uwb s) = refl

  -- The collector's own recorders go by the names that they are given.
  pub fleet-NamedParts :
      (w : World R) → ((csv : Text) → Lacks 10 csv → Lacks 10 (w.stem csv)) → NamedParts (fleet R w)
  unfolding fleet dex3_of dex3_cmd_of lowcmd_of start_dex3 start_dex3_cmd start_lowcmd
  fleet-NamedParts w stems = record {
    stop_name = λ c. stop_camera-name color_frames (depth_frames R) w.camera_stop c.rec.name c.rec;
    stop_tag = stopped-tag w.disk_stop;
    camera = λ domain name dir capacity reliable c k.
        kept_camera-name (w.camera name dir) name capacity _ refl c k;
    dex3 = λ domain iface dir side capacity s k.
        kept_sdk-label (dex3_records R) dex3 (λ x. refl) _ _ _ _ side _ refl s k;
    dex3_cmd = λ domain iface dir side capacity s k.
        kept_sdk-label (dex3_cmd_records R) dex3_cmd (λ x. refl) _ _ _ _ side _ refl s k;
    lowcmd = λ domain iface dir capacity topic csv s k h.
        subst (Lacks 10)
          (sym
            (kept_sdk-label (lowcmd_records R) lowcmd (λ x. refl) _ _ _ _ (w.stem csv) _ refl s k))
          (stems csv h);
  }
