-- ===== src/Tests/Schema.antt =====
-- The schemas' theorems at one record of each type.
use kist_data_collector.Common.{ℕ, zero, suc, refl, List, [], ◌∷◌, true, arith}
use kist_data_collector.Common.Text.{Text, text}
use kist_data_collector.Common.Int.{pos, negsuc}
use kist_data_collector.Schema.{Floats}
use kist_data_collector.Schema.Command.{
  MotorCmd, LowCmd, HandCmd, HasModes, lowcmd_row, lowcmd_header,
}
use kist_data_collector.Schema.State.{
  MotorState, LowState, HandState, lowstate_row, lowstate_header, dex3_row, dex3_header,
}
use kist_data_collector.Schema.Cells.{IsTable}
use kist_data_collector.Schema.Command.Cells.{lowcmd_fields, lowcmd_row-IsTable}
use kist_data_collector.Schema.State.Cells.{lowstate_fields, lowstate_row-IsTable}
use kist_data_collector.Schema.State.Hand.{dex3_fields, dex3_row-IsTable}
use kist_data_collector.Schema.Other.{UwbPosition, MotionTokenState}
use kist_data_collector.Schema.Frames.{ColorFrame, DepthFrame}

-- Every float prints as one half.
abbrev pub half : ℕ → Text
half n = text "-0.5"

abbrev pub halves : Floats
halves = record {
  Float = ℕ;
  zero_float = 0;
  g7 = half;
  g6 = half;
  commas-g7 = λ n. refl;
  commas-g6 = λ n. refl;
  length-g7 = λ n. omega arith;
  length-g6 = λ n. omega arith;
}

abbrev repeat {ℓ} : {A : Type ℓ} → ℕ → A → List A
repeat zero a = []
repeat (suc n) a = a ∷ repeat n a

abbrev motor_cmd : MotorCmd halves
motor_cmd = record { mode = 1; q = 0; dq = 0; tau = 0; kp = 0; kd = 0 }

repeat-HasModes : (n : ℕ) → HasModes halves (repeat n motor_cmd)
repeat-HasModes zero = tt
repeat-HasModes (suc n) = (omega arith, repeat-HasModes n)

abbrev low_cmd : LowCmd halves
low_cmd = record { mode_pr = 0; mode_machine = 5; motor_cmd = repeat 35 motor_cmd }

lowcmd_row-IsTable_example :
    IsTable lowcmd_header
      (lowcmd_row halves low_cmd (pos 100))
      (lowcmd_fields halves low_cmd (pos 100))
lowcmd_row-IsTable_example =
    lowcmd_row-IsTable halves low_cmd (pos 100) (omega arith) (omega arith) (omega arith) refl
      (repeat-HasModes 35)

abbrev hand_cmd : HandCmd halves
hand_cmd = record { motor_cmd = repeat 3 motor_cmd }

abbrev motor_state : MotorState halves
motor_state = record { q = 0; dq = 0; ddq = 0; tau_est = 0 }

abbrev low_state : LowState halves
low_state = record {
  tick = 7;
  mode_machine = 5;
  mode_pr = 0;
  quaternion = repeat 4 0;
  gyroscope = repeat 3 0;
  accelerometer = repeat 3 0;
  rpy = repeat 3 0;
  temperature = negsuc 4;
  motor_state = repeat 35 motor_state;
}

lowstate_row-IsTable_example :
    IsTable lowstate_header
      (lowstate_row halves low_state (pos 100))
      (lowstate_fields halves low_state (pos 100))
lowstate_row-IsTable_example =
    lowstate_row-IsTable halves low_state (pos 100) (omega arith) (record {
      tick_fits = omega arith;
      machine_fits = omega arith;
      pr_fits = omega arith;
      temperature_fits = omega arith;
      quaternion_size = refl;
      gyroscope_size = refl;
      accelerometer_size = refl;
      rpy_size = refl;
      motor_size = refl;
    })

-- One motor too many, and a single pad.
abbrev pub hand_state : HandState halves
hand_state = record { motor_state = repeat 8 motor_state; press_sensor_state = repeat 12 0 ∷ [] }

dex3_row-IsTable_example :
    IsTable dex3_header
      (dex3_row halves hand_state (pos 100))
      (dex3_fields halves hand_state (pos 100))
dex3_row-IsTable_example = dex3_row-IsTable halves hand_state (pos 100) (omega arith)

abbrev color_frame : ColorFrame
color_frame = record {
  width = pos 640;
  height = pos 480;
  sequence = 3;
  stamp_ns = pos 50;
  is_keyframe = true;
  frame_id = [];
  payload = 1 ∷ 2 ∷ [];
}

abbrev pub depth_frame : DepthFrame halves
depth_frame = record {
  width = pos 640;
  height = pos 480;
  sequence = 3;
  stamp_ns = pos 50;
  depth_scale = 0;
  fx = 0;
  fy = 0;
  cx = 0;
  cy = 0;
  frame_id = [];
  payload = 1 ∷ 2 ∷ [];
}

abbrev fix : UwbPosition halves
fix = record { stamp_ns = pos 50; x = 0; y = 0; z = 0 }

abbrev token : MotionTokenState halves
token = record {
  seq = 9;
  stamp_ns = pos 50;
  token_state = repeat 64 0;
  arbiter_mode = 1;
  encoder_mode = 2;
}
