-- ===== src/Recorders/Streams.antt =====
-- The classes: src/system/lowstate_recorder.cpp, dex3_recorder.cpp, lowcmd_recorder.cpp,
-- dex3_cmd_recorder.cpp, motion_token_recorder.cpp, uwb_recorder.cpp. Beside the result stands the
-- path that is opened. UwbRecorder's subscriber gives false where the others throw, so a failure to
-- start it is `no_channel`.
use kist_data_collector.Common.{ℕ, ◌++◌, Bool, Option, if◌then◌else◌}
use kist_data_collector.Common.Text.{Text, text}
use kist_data_collector.Row.{RecordType}
use kist_data_collector.Schema.{Floats}
use kist_data_collector.Schema.State.{
  LowState, HandState, lowstate_row, dex3_row, lowstate_header, dex3_header,
}
use kist_data_collector.Schema.Command.{
  LowCmd, HandCmd, lowcmd_row, dex3_cmd_row, lowcmd_header, dex3_cmd_header,
}
use kist_data_collector.Schema.Other.{
  UwbPosition, MotionTokenState, uwb_row, motion_token_row, uwb_csv_header, motion_token_header,
}
use kist_data_collector.Session.{join_path}
use kist_data_collector.Recorders.{Dds, Disk, SdkRecorder, start_sdk}

-- The member is set once the running guard is passed.
abbrev labelled : (T : RecordType) → Text → SdkRecorder T → SdkRecorder T
labelled T label r = if r.running then r else record r { label = label }

module _ (R : Floats) where
  abbrev pub lowstate_records : RecordType
  lowstate_records = record { Record = LowState R; row = lowstate_row R }

  abbrev pub dex3_records : RecordType
  dex3_records = record { Record = HandState R; row = dex3_row R }

  abbrev pub lowcmd_records : RecordType
  lowcmd_records = record { Record = LowCmd R; row = lowcmd_row R }

  abbrev pub dex3_cmd_records : RecordType
  dex3_cmd_records = record { Record = HandCmd R; row = dex3_cmd_row R }

  abbrev pub motion_token_records : RecordType
  motion_token_records = record { Record = MotionTokenState R; row = motion_token_row R }

  abbrev pub uwb_records : RecordType
  uwb_records = record { Record = UwbPosition R; row = uwb_row R }

  module _ (disk : Text → Disk) (dds : Dds) (session_dir : Text) (queue_capacity : ℕ) where
    unfoldable pub start_lowstate :
        SdkRecorder lowstate_records → Option (SdkRecorder lowstate_records × Bool)
    start_lowstate r =
        start_sdk lowstate_records (disk (join_path session_dir (text "lowstate.csv"))) dds
          lowstate_header queue_capacity r

    unfoldable pub start_dex3 :
        Text → SdkRecorder dex3_records → Option (SdkRecorder dex3_records × Bool)
    start_dex3 side r =
        start_sdk dex3_records (disk (join_path session_dir (text "hand_" ++ side ++ text ".csv")))
          dds dex3_header queue_capacity (labelled _ side r)

    -- `stem` is the standard library's `path(csv_name).stem()`.
    unfoldable pub start_lowcmd :
        (stem : Text → Text)
        → Text
        → SdkRecorder lowcmd_records
        → Option (SdkRecorder lowcmd_records × Bool)
    start_lowcmd stem csv_name r =
        start_sdk lowcmd_records (disk (join_path session_dir csv_name)) dds lowcmd_header
          queue_capacity (labelled _ (stem csv_name) r)

    unfoldable pub start_dex3_cmd :
        Text → SdkRecorder dex3_cmd_records → Option (SdkRecorder dex3_cmd_records × Bool)
    start_dex3_cmd side r =
        start_sdk dex3_cmd_records
          (disk (join_path session_dir (text "hand_cmd_" ++ side ++ text ".csv"))) dds
          dex3_cmd_header queue_capacity (labelled _ side r)

    unfoldable pub start_motion_token :
        SdkRecorder motion_token_records → Option (SdkRecorder motion_token_records × Bool)
    start_motion_token r =
        start_sdk motion_token_records (disk (join_path session_dir (text "motion_token.csv"))) dds
          motion_token_header queue_capacity r

    unfoldable pub start_uwb : SdkRecorder uwb_records → Option (SdkRecorder uwb_records × Bool)
    start_uwb r =
        start_sdk uwb_records (disk (join_path session_dir (text "uwb.csv"))) dds uwb_csv_header
          queue_capacity r
