-- ===== src/Export/Wire.antt =====
-- A camera stream from the wire to the exporters: the take thread of include/realsense_recorder/
-- reliable_subscriber.hpp with the mappings of frame_maps.hpp, the recorder that it feeds
-- (src/system/realsense_recorder.cpp, include/common/blob_recorder.hpp) and the index readers of
-- src/export.
use kist_data_collector.Common.{
  ℕ, suc, ◌<◌, ◌≤◌, ◌≡◌, refl, ap, ◌∙◌, List, [], ◌∷◌, true, some, length, length-append, ◌++◌, map,
  arith, Bool-cases, inl, inr,
}
use kist_data_collector.Common.Text.{Text}
use kist_data_collector.Common.Int.{ℤ}
use kist_data_collector.Stream.{Fate}
use kist_data_collector.Pipeline.{Recorder}
use kist_data_collector.Pipeline.Threads.{System, Reach, launched, idle}
use kist_data_collector.Pipeline.Arrivals.{arrived, Reach-all}
use kist_data_collector.Blob.{FrameType, blob_writer, open_blob, fresh_blob}
use kist_data_collector.Blob.Index.{Frames}
use kist_data_collector.Blob.Losses.{open_blob-Opened}
use kist_data_collector.Schema.{IsInt64}
use kist_data_collector.Subscriber.{
  Sample, Subscriber, TakeReach, frames_of, late_of, TakeReach-frames,
}
use kist_data_collector.Export.ColorIndex.{size_max}

length-map {ℓ κ} :
    {A : Type ℓ} {B : Type κ} (f : A → B) (xs : List A) → length (map f xs) ≡ length xs
length-map f [] = refl
length-map f (x ∷ xs) = ap suc (length-map f xs)

-- Every sample that carries a message carries one of which the predicate holds.
abbrev pub AllMessages : {Msg : Type 0} → (Msg → Type 0) → List (Sample Msg) → Type 0
AllMessages P [] = Unit {0}
AllMessages P (s ∷ samples) = (s.valid ≡ true → P s.msg) × AllMessages P samples

-- The arrival times are int64_t values.
abbrev pub TimesFit : {A : Type 0} → List (A × ℤ) → Type 0
TimesFit [] = Unit {0}
TimesFit ((f, t) ∷ xs) = IsInt64 t × TimesFit xs

module _ {Msg Frame : Type 0} (f : Msg → Frame) where
  length-frames_of : (samples : List (Sample Msg)) → length (frames_of f samples) ≤ length samples
  length-frames_of [] = omega arith
  length-frames_of (s ∷ samples) = elim (Bool-cases s.valid) [
    | inl h ↦ rw (h) (omega (arith, length-frames_of samples))
    | inr h ↦ rw (h) (omega (arith, length-frames_of samples))
  ]

-- What the threads of a subscriber and of the recorder that it feeds have come to: each frame handed over was pushed, and the recorder counted no drop.
module _ {Msg : Type 0} (F : FrameType) (f : Msg → F.Frame) {samples : List (Sample Msg)}
    {sub : Subscriber f} (taken : TakeReach f samples sub) (fate : Fate) (header : Text)
    (capacity : ℕ) {r : Recorder (blob_writer F)} {a p : Frames F} {s : System (blob_writer F)}
    (opened : open_blob F true true fate header capacity (fresh_blob F) ≡ some (r, true))
    (l : Reach (launched r) a p s) (pushed : map (λ x. x.0) (arrived l) ≡ sub.frames)
    (returned : s.producer ≡ idle) (no_drop : s.rec.dropped ≡ 0)
    (few : length samples < size_max) where
  -- The samples that were handed over.
  before : List (Sample Msg)
  before = (TakeReach-frames f taken).0

  samples-before : samples ≡ before ++ late_of f taken
  unfolding before
  samples-before = (TakeReach-frames f taken).1

  few_before : length before < size_max
  few_before = omega (arith, few, ap length samples-before, length-append before (late_of f taken))

  arrived-frames : map (λ x. x.0) (arrived l) ≡ frames_of f before
  unfolding before
  arrived-frames = pushed ∙ (TakeReach-frames f taken).2

  arrived-few : length (arrived l) < size_max
  arrived-few = omega (
    arith,
    length-map (λ x. x.0) (arrived l),
    ap length arrived-frames,
    length-frames_of f before,
    few_before,
  )

  accepted-arrived : a ≡ arrived l
  accepted-arrived =
      Reach-all l returned (open_blob-Opened F fate header capacity (fresh_blob F) opened).dropped
        no_drop (omega (arith, arrived-few))

  accepted-frames : map (λ x. x.0) a ≡ frames_of f before
  accepted-frames = ap (map (λ x. x.0)) accepted-arrived ∙ arrived-frames

  accepted-few : length a < size_max
  accepted-few = omega (arith, ap length accepted-arrived, arrived-few)

  pub accepted :
      (before : List (Sample Msg)) × (samples ≡ before ++ late_of f taken)
      × (map (λ x. x.0) a ≡ frames_of f before)
      × (length a < size_max)
  accepted = (before, samples-before, accepted-frames, accepted-few)
