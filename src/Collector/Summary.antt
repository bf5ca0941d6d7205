-- ===== src/Collector/Summary.antt =====
-- What DataCollector::stop leaves, and the summary it appends to meta.yaml
-- (src/system/data_collector.cpp).
use kist_data_collector.Common.{
  ℕ, ◌+◌, ◌*◌, ◌≡◌, refl, List, [], ◌∷◌, ◌++◌, true, false, Option, none, some, length,
  length-append, arith, if-holds, u64,
}
use kist_data_collector.Common.Text.{Text, text}
use kist_data_collector.Common.Int.{ℤ}
use kist_data_collector.Session.{MetaWrite, StreamSummary}
use kist_data_collector.Stream.{StreamStats}
use kist_data_collector.Collector.{Parts, Collector}
use kist_data_collector.Collector.Start.{holds_nothing}
use kist_data_collector.Collector.Stop.{
  stop, summary_of, camera_summaries, stream_summaries, one_summary,
}
use kist_data_collector.Collector.Runs.{Reach, Reach-running}

-- The counters account for every record received.
abbrev pub IsSettled : StreamStats → Type 0
IsSettled s = s.received ≡ u64 (s.dropped + (s.written + s.write_errors))

-- What the collector relies on: the counters of a recorder that was stopped account for all.
pub record Settling (P : Parts) : Type 0 where
  pub color : (c : P.Camera) → IsSettled (P.color_stats (P.stop_camera c))
  pub depth : (c : P.Camera) → IsSettled (P.depth_stats (P.stop_camera c))
  pub stream : (s : P.Stream) → IsSettled (P.stats (P.stop_stream s))

abbrev pub AllSettled : List StreamSummary → Type 0
AllSettled [] = Unit {0}
AllSettled (s ∷ ss) = IsSettled s.stats × AllSettled ss

AllSettled-append :
    (ss ts : List StreamSummary) → AllSettled ss → AllSettled ts → AllSettled (ss ++ ts)
AllSettled-append [] ts h k = k
AllSettled-append (s ∷ ss) ts h k = (h.0, AllSettled-append ss ts h.1 k)

added {ℓ} :
    {A : Type ℓ} (xs ys : List A) {m n : ℕ}
    → length xs ≡ m
    → length ys ≡ n
    → length (xs ++ ys) ≡ m + n
added xs ys h k = omega (arith, length-append xs ys, h, k)

-- One entry for a single stream that is recorded.
abbrev pub held {ℓ} : {A : Type ℓ} → Option A → ℕ
held none = 0
held (some a) = 1

module _ (P : Parts) where
  one_summary-AllSettled :
      Settling P
      → (source stream : Text) (o : Option P.Stream) → AllSettled (one_summary P source stream o)
  one_summary-AllSettled z source stream none = tt
  one_summary-AllSettled z source stream (some rec) = (z.stream rec, tt)

  streams-AllSettled :
      Settling P
      → (source prefix : Text) (recs : List P.Stream)
      → AllSettled (stream_summaries P source prefix recs)
  unfolding stream_summaries
  streams-AllSettled z source prefix [] = tt
  streams-AllSettled z source prefix (rec ∷ recs) =
      (z.stream rec, streams-AllSettled z source prefix recs)

  cameras-AllSettled : Settling P → (recs : List P.Camera) → AllSettled (camera_summaries P recs)
  unfolding camera_summaries
  cameras-AllSettled z [] = tt
  cameras-AllSettled z (rec ∷ recs) = (z.color rec, (z.depth rec, cameras-AllSettled z recs))

  -- If each recorder accounts for all it received once it is stopped, so does every entry of the
  -- summary that `stop` appends to meta.yaml: received is dropped, written and write errors
  -- together, modulo 2^64.
  pub summary-AllSettled : Settling P → (c : Collector P) → AllSettled (summary_of P c)
  unfolding summary_of
  summary-AllSettled z c =
      AllSettled-append _ _
        (AllSettled-append _ _
          (AllSettled-append _ _
            (AllSettled-append _ _
              (AllSettled-append _ _
                (AllSettled-append _ _ (cameras-AllSettled z c.cameras)
                  (one_summary-AllSettled z (text "unitree") (text "lowstate") c.lowstate))
                (streams-AllSettled z (text "dex3") (text "hand_") c.hands))
              (one_summary-AllSettled z (text "uwb") (text "position") c.uwb))
            (streams-AllSettled z (text "unitree") [] c.body_cmds))
          (streams-AllSettled z (text "dex3") (text "hand_cmd_") c.hand_cmds))
        (one_summary-AllSettled z (text "gearsonic") (text "motion_token") c.motion_token)

  length-one_summary :
      (source stream : Text) (o : Option P.Stream) → length (one_summary P source stream o) ≡ held o
  length-one_summary source stream none = refl
  length-one_summary source stream (some rec) = refl

  length-stream_summaries :
      (source prefix : Text) (recs : List P.Stream)
      → length (stream_summaries P source prefix recs) ≡ length recs
  unfolding stream_summaries
  length-stream_summaries source prefix [] = refl
  length-stream_summaries source prefix (rec ∷ recs) =
      omega (arith, length-stream_summaries source prefix recs)

  length-camera_summaries :
      (recs : List P.Camera) → length (camera_summaries P recs) ≡ 2 * length recs
  unfolding camera_summaries
  length-camera_summaries [] = refl
  length-camera_summaries (rec ∷ recs) = omega (arith, length-camera_summaries recs)

  -- The summary has two entries for each camera and one for each other recorder that runs.
  pub length-summary_of :
      (c : Collector P)
      → length (summary_of P c)
        ≡ 2 * length c.cameras
          + held c.lowstate
          + length c.hands
          + held c.uwb
          + length c.body_cmds
          + length c.hand_cmds
          + held c.motion_token
  unfolding summary_of
  length-summary_of c =
      added _ _
        (added _ _
          (added _ _
            (added _ _
              (added _ _
                (added _ _ (length-camera_summaries c.cameras)
                  (length-one_summary (text "unitree") (text "lowstate") c.lowstate))
                (length-stream_summaries (text "dex3") (text "hand_") c.hands))
              (length-one_summary (text "uwb") (text "position") c.uwb))
            (length-stream_summaries (text "unitree") [] c.body_cmds))
          (length-stream_summaries (text "dex3") (text "hand_cmd_") c.hand_cmds))
        (length-one_summary (text "gearsonic") (text "motion_token") c.motion_token)

  -- However the collector got where it is, `stop` leaves no recorder behind and not running, and
  -- a second `stop` changes nothing.
  pub Reach-stop :
      {c : Collector P} (disk : MetaWrite) (utc : Text) (ns : ℤ)
      → Reach P c
      → ((stop P disk utc ns c).running ≡ false)
        × (holds_nothing P (stop P disk utc ns c) ≡ true)
        × ((disk' : MetaWrite) (utc' : Text) (ns' : ℤ)
            → stop P disk' utc' ns' (stop P disk utc ns c) ≡ stop P disk utc ns c)
  unfolding stop holds_nothing
  Reach-stop {c} disk utc ns l =
      if-holds
        (λ d.
          (d.running ≡ false)
          × (holds_nothing P d ≡ true)
          × ((disk' : MetaWrite) (utc' : Text) (ns' : ℤ) → stop P disk' utc' ns' d ≡ d))
        c.running _ c (λ on. (refl, refl, λ disk' utc' ns'. refl))
        (λ off.
          (off, ground (arith, off, Reach-running P l), λ disk' utc' ns'. ground (arith, off)))
