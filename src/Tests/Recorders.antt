-- ===== src/Tests/Recorders.antt =====
-- The recorders' lives at one that was started, served a message, failed to restart, and stopped.
use kist_data_collector.Common.{ℕ, ◌≡◌, refl, [], ◌∷◌, Bool, true, some}
use kist_data_collector.Common.Text.{text, decimal}
use kist_data_collector.Common.Int.{pos}
use kist_data_collector.RecordQueue
use kist_data_collector.RecordQueue.{open_queue}
use kist_data_collector.Stream.{keep, write, flush, close_stream}
use kist_data_collector.Pipeline
use kist_data_collector.Pipeline.Serial
use kist_data_collector.Row.{RecordType, row_stats, open_rows, write_row, count_row}
use kist_data_collector.Collector.Summary.{IsSettled}
use kist_data_collector.Recorders.{
  SdkRecorder, Disk, connected, no_channel, start_sdk, stop_sdk, deliver,
}
use kist_data_collector.Recorders.Streams.{dex3_records}
use kist_data_collector.Recorders.Callbacks.{
  HandRecorder, HandReach, hand_made, hand_starts, hand_hears, hand_stops, on_hand_state,
  hand_state-first_report,
}
use kist_data_collector.Tests.Schema.{halves, hand_state}
use kist_data_collector.Recorders.Life.{
  Reach, made, starts, delivers, stops, Reach-start, Reach-stop-IsSettled,
}

abbrev rows : RecordType
rows = record { Record = ℕ; row = λ n t. decimal n }

abbrev disk : Disk
disk = record { opens = true; on_header = keep; on_row = λ n. keep; on_flush = keep }

-- It was started, got a message and was stopped, and the next start fails in DDS.
unfoldable failed : (r : SdkRecorder rows) × Reach rows r
unfolding start_sdk open_rows stop_sdk deliver Serial.close Serial.serve Serial.write_batch
    write_row count_row write flush close_stream open_queue Pipeline.push RecordQueue.push
    RecordQueue.close
failed = (
  _,
  starts disk no_channel (text "h") 4 (text "left") refl (
      stops disk
        (delivers 7 (pos 100) (starts disk connected (text "h") 4 (text "left") refl made))),
)

Reach-start_example :
    (p : SdkRecorder rows × Bool) × (start_sdk rows disk connected (text "h") 4 failed.0 ≡ some p)
Reach-start_example = Reach-start rows disk connected (text "h") 4 failed.1

Reach-stop-IsSettled_example : IsSettled (row_stats rows (stop_sdk rows disk failed.0).rec)
Reach-stop-IsSettled_example = Reach-stop-IsSettled rows disk failed.1

abbrev hands : RecordType
hands = dex3_records halves

-- The left hand's recorder was started, got two messages, and was stopped.
unfoldable two_heard :
    (r : HandRecorder hands) × HandReach hands
      (on_hand_state halves)
      ((text "left", hand_state) ∷ (text "left", hand_state) ∷ [])
      r
unfolding start_sdk open_rows open_queue on_hand_state deliver
two_heard = (
  _,
  hand_stops disk (
      hand_hears hand_state (pos 200) (
        hand_hears hand_state (pos 100)
          (hand_starts disk connected (text "h") 4 (text "left") refl hand_made))),
)

hand_state-first_report_example :
    (two_heard.0.printed
      ≡ text "[Dex3Recorder] left: 8 motor(s), 1 press pad(s) (csv schema: 7 motors, 9 pads)\n"
        ∷ [])
    × Reach hands two_heard.0.base
unfolding decimal two_heard on_hand_state
hand_state-first_report_example = hand_state-first_report halves two_heard.1
