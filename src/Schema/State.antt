-- ===== src/Schema/State.antt =====
-- The state streams: include/unitree_recorder/lowstate_rows.hpp and dex3_rows.hpp.
pub mod Cells
pub mod Columns
pub mod Hand
use kist_data_collector.Common.{
  ℕ, zero, suc, ◌+◌, ◌*◌, ◌^◌, ◌≤◌, ◌<◌, ◌≡◌, refl, List, [], ◌∷◌, ◌++◌, length, arith,
  length-append, ap,
}
use kist_data_collector.Common.Text.{
  Text, text, comma, commas, decimal, decimal_ℤ, padded, commas-append, commas-decimal,
  commas-decimal_ℤ,
}
use kist_data_collector.Common.Int.{ℤ}
use kist_data_collector.Schema.{
  Floats, snprintf, snprintf-lt, IsInt64, length-decimal_ℤ, length-decimal-u8, length-decimal-u32,
}
use kist_data_collector.Schema.Command.{names_from}

abbrev pub lowstate_motors : ℕ
lowstate_motors = 35

abbrev pub dex3_motors : ℕ
dex3_motors = 7

abbrev pub dex3_press_pads : ℕ
dex3_press_pads = 9

abbrev pub dex3_press_channel : ℕ
dex3_press_channel = 12

abbrev lowstate_names : ℕ → Text
lowstate_names i =
    let m : Text = text ",m" ++ padded 2 i in
    snprintf 64
      (m ++ (text "_q" ++ (m ++ (text "_dq" ++ (m ++ (text "_ddq" ++ (m ++ text "_tau")))))))

unfoldable pub lowstate_header : Text
unfolding padded snprintf
lowstate_header =
    text "recv_ns,tick,mode_machine,mode_pr,"
    ++ (text "quat_w,quat_x,quat_y,quat_z,"
        ++ (text "gyro_x,gyro_y,gyro_z,accel_x,accel_y,accel_z,"
            ++ text "rpy_roll,rpy_pitch,rpy_yaw,imu_temp"))
    ++ names_from lowstate_names 0 lowstate_motors

abbrev dex3_motor_names : ℕ → Text
dex3_motor_names i =
    let f : Text = text ",f" ++ decimal i in
    snprintf 64
      (f ++ (text "_q" ++ (f ++ (text "_dq" ++ (f ++ (text "_ddq" ++ (f ++ text "_tau")))))))

abbrev dex3_pad_names : ℕ → Text
dex3_pad_names p =
    names_from (λ c. snprintf 64 (text ",press" ++ (decimal p ++ (text "_" ++ decimal c)))) 0
      dex3_press_channel

unfoldable pub dex3_header : Text
unfolding decimal snprintf
dex3_header =
    text "recv_ns"
    ++ names_from dex3_motor_names 0 dex3_motors
    ++ names_from dex3_pad_names 0 dex3_press_pads

module _ (R : Floats) where
  open R use {Float, zero_float, g7, commas-g7, length-g7}

  -- MotorState_
  pub record MotorState : Type 0 where
    pub q : Float
    pub dq : Float
    pub ddq : Float
    pub tau_est : Float

  -- LowState_ with its IMUState_; the lists are std::arrays.
  pub record LowState : Type 0 where
    pub tick : ℕ  -- uint32_t
    pub mode_machine : ℕ  -- uint8_t
    pub mode_pr : ℕ  -- uint8_t
    pub quaternion : List Float
    pub gyroscope : List Float
    pub accelerometer : List Float
    pub rpy : List Float
    pub temperature : ℤ  -- int16_t
    pub motor_state : List MotorState

  -- HandState_: vectors of any size, a pad being a std::array of 12 pressures.
  pub record HandState : Type 0 where
    pub motor_state : List MotorState
    pub press_sensor_state : List (List Float)

  -- ",%.7g,%.7g,%.7g,%.7g"
  abbrev pub state_cells : MotorState → Text
  state_cells m =
      comma ++ (g7 m.q ++ (comma ++ (g7 m.dq ++ (comma ++ (g7 m.ddq ++ (comma ++ g7 m.tau_est))))))

  -- `for (float v : …) { snprintf(b, sizeof(b), ",%.7g", double(v)); row += b; }`
  abbrev pub float_rows : List Float → Text
  float_rows [] = []
  float_rows (v ∷ vs) = snprintf 128 (comma ++ g7 v) ++ float_rows vs

  abbrev pub state_rows : List MotorState → Text
  state_rows [] = []
  state_rows (m ∷ ms) = snprintf 128 (state_cells m) ++ state_rows ms

  unfoldable pub lowstate_row : LowState → ℤ → Text
  lowstate_row s recv_ns =
      snprintf 128 (
        decimal_ℤ recv_ns
        ++ (comma
            ++ (decimal s.tick
                ++ (comma ++ (decimal s.mode_machine ++ (comma ++ decimal s.mode_pr))))))
      ++ (float_rows s.quaternion
          ++ (float_rows s.gyroscope
              ++ (float_rows s.accelerometer
                  ++ (float_rows s.rpy
                      ++ (snprintf 128 (comma ++ decimal_ℤ s.temperature)
                          ++ state_rows s.motor_state)))))

  -- The motor loop of `dex3_row`: missing motors are zeros, extra ones are dropped.
  abbrev pub hand_rows : ℕ → List MotorState → Text
  hand_rows zero ms = []
  hand_rows (suc left) [] = snprintf 96 (text ",0,0,0,0") ++ hand_rows left []
  hand_rows (suc left) (m ∷ ms) = snprintf 96 (state_cells m) ++ hand_rows left ms

  -- The channels of one pad. A missing pad is given as no channels, and reads 0 in each.
  unfoldable pub channel_rows : ℕ → List Float → Text
  channel_rows zero vs = []
  channel_rows (suc left) [] = snprintf 96 (comma ++ g7 zero_float) ++ channel_rows left []
  channel_rows (suc left) (v ∷ vs) = snprintf 96 (comma ++ g7 v) ++ channel_rows left vs

  unfoldable pub pad_rows : ℕ → List (List Float) → Text
  pad_rows zero ps = []
  pad_rows (suc left) [] = channel_rows dex3_press_channel [] ++ pad_rows left []
  pad_rows (suc left) (p ∷ ps) = channel_rows dex3_press_channel p ++ pad_rows left ps

  unfoldable pub dex3_row : HandState → ℤ → Text
  dex3_row s recv_ns =
      snprintf 96 (decimal_ℤ recv_ns)
      ++ (hand_rows dex3_motors s.motor_state ++ pad_rows dex3_press_pads s.press_sensor_state)

  pub length-state_cells : (m : MotorState) → length (state_cells m) < 96
  length-state_cells m = omega (
    arith,
    length-append {0},
    length-g7 m.q,
    length-g7 m.dq,
    length-g7 m.ddq,
    length-g7 m.tau_est,
  )

  -- The scalar fields fit their types, and the arrays have the sizes of the message type.
  pub record IsLowState (s : LowState) : Type 0 where
    pub tick_fits : s.tick < 2 ^ 32
    pub machine_fits : s.mode_machine < 2 ^ 8
    pub pr_fits : s.mode_pr < 2 ^ 8
    pub temperature_fits : IsInt64 s.temperature
    pub quaternion_size : length s.quaternion ≡ 4
    pub gyroscope_size : length s.gyroscope ≡ 3
    pub accelerometer_size : length s.accelerometer ≡ 3
    pub rpy_size : length s.rpy ≡ 3
    pub motor_size : length s.motor_state ≡ lowstate_motors
