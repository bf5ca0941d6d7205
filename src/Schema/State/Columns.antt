-- ===== src/Schema/State/Columns.antt =====
-- The number of cells in the rows of the state streams: include/unitree_recorder/lowstate_rows.hpp and
-- dex3_rows.hpp.
use kist_data_collector.Common.{
  ℕ, zero, suc, ◌+◌, ◌*◌, ◌≤◌, ◌≡◌, refl, List, [], ◌∷◌, ◌++◌, length, arith, length-append, ap,
}
use kist_data_collector.Common.Text.{
  Text, text, comma, commas, decimal, decimal_ℤ, commas-append, commas-decimal, commas-decimal_ℤ,
}
use kist_data_collector.Common.Int.{ℤ}
use kist_data_collector.Schema.{
  Floats, snprintf, snprintf-lt, IsInt64, length-decimal_ℤ, length-decimal-u8, length-decimal-u32,
}
use kist_data_collector.Schema.State.{
  MotorState, LowState, HandState, IsLowState, lowstate_header, dex3_header, dex3_motors,
  dex3_press_pads, dex3_press_channel, state_cells, float_rows, state_rows, lowstate_row, hand_rows,
  channel_rows, pad_rows, dex3_row, length-state_cells,
}

lowstate_header_columns : commas lowstate_header ≡ 157
unfolding lowstate_header
lowstate_header_columns = refl

dex3_header_columns : commas dex3_header ≡ 136
unfolding dex3_header
dex3_header_columns = refl

module _ (R : Floats) where
  open R use {Float, zero_float, g7, commas-g7, length-g7}

  commas-state_cells :
      (size : ℕ) (m : MotorState R) → 96 ≤ size → commas (snprintf size (state_cells R m)) ≡ 4
  commas-state_cells size m h =
      rw (snprintf-lt size (state_cells R m) (omega (arith, length-state_cells R m))) (
        omega (
          arith,
          commas-append,
          commas-g7 m.q,
          commas-g7 m.dq,
          commas-g7 m.ddq,
          commas-g7 m.tau_est,
        ))

  commas-cell : (size : ℕ) (v : Float) → 96 ≤ size → commas (snprintf size (comma ++ g7 v)) ≡ 1
  commas-cell size v h =
      rw (snprintf-lt size (comma ++ g7 v) (omega (arith, length-g7 v)))
        (omega (arith, commas-g7 v))

  commas-float_rows : (vs : List Float) → commas (float_rows R vs) ≡ length vs
  commas-float_rows [] = refl
  commas-float_rows (v ∷ vs) = omega (
    arith,
    commas-append (snprintf 128 (comma ++ g7 v)) (float_rows R vs),
    commas-cell 128 v,
    commas-float_rows vs,
  )

  commas-state_rows : (ms : List (MotorState R)) → commas (state_rows R ms) ≡ 4 * length ms
  commas-state_rows [] = refl
  commas-state_rows (m ∷ ms) = omega (
    arith,
    commas-append (snprintf 128 (state_cells R m)) (state_rows R ms),
    commas-state_cells 128 m,
    commas-state_rows ms,
  )

  commas-hand_rows : (left : ℕ) (ms : List (MotorState R)) → commas (hand_rows R left ms) ≡ 4 * left
  commas-hand_rows zero ms = refl
  commas-hand_rows (suc left) [] = omega (
    arith,
    commas-append (snprintf 96 (text ",0,0,0,0")) (hand_rows R left []),
    ap commas (snprintf-lt 96 (text ",0,0,0,0") (omega arith)),
    commas-hand_rows left [],
  )
  commas-hand_rows (suc left) (m ∷ ms) = omega (
    arith,
    commas-append (snprintf 96 (state_cells R m)) (hand_rows R left ms),
    commas-state_cells 96 m,
    commas-hand_rows left ms,
  )

  commas-channel_rows : (left : ℕ) (vs : List Float) → commas (channel_rows R left vs) ≡ left
  unfolding channel_rows
  commas-channel_rows zero vs = refl
  commas-channel_rows (suc left) [] = omega (
    arith,
    commas-append (snprintf 96 (comma ++ g7 zero_float)) (channel_rows R left []),
    commas-cell 96 zero_float,
    commas-channel_rows left [],
  )
  commas-channel_rows (suc left) (v ∷ vs) = omega (
    arith,
    commas-append (snprintf 96 (comma ++ g7 v)) (channel_rows R left vs),
    commas-cell 96 v,
    commas-channel_rows left vs,
  )

  commas-pad_rows : (left : ℕ) (ps : List (List Float)) → commas (pad_rows R left ps) ≡ 12 * left
  unfolding pad_rows
  commas-pad_rows zero ps = refl
  commas-pad_rows (suc left) [] = omega (
    arith,
    commas-append (channel_rows R dex3_press_channel []) (pad_rows R left []),
    commas-channel_rows dex3_press_channel [],
    commas-pad_rows left [],
  )
  commas-pad_rows (suc left) (p ∷ ps) = omega (
    arith,
    commas-append (channel_rows R dex3_press_channel p) (pad_rows R left ps),
    commas-channel_rows dex3_press_channel p,
    commas-pad_rows left ps,
  )

  lowstate_front : LowState R → ℤ → Text
  lowstate_front s recv_ns =
      decimal_ℤ recv_ns
      ++ (comma
          ++ (decimal s.tick
              ++ (comma ++ (decimal s.mode_machine ++ (comma ++ decimal s.mode_pr)))))

  commas-lowstate_front :
      (s : LowState R) (recv_ns : ℤ)
      → IsInt64 recv_ns
      → IsLowState R s
      → commas (snprintf 128 (lowstate_front s recv_ns)) ≡ 3
  unfolding lowstate_front
  commas-lowstate_front s recv_ns fits v =
      rw
        (snprintf-lt 128 (lowstate_front s recv_ns) (
          omega (
            arith,
            length-append {0},
            length-decimal_ℤ recv_ns fits,
            length-decimal-u32 s.tick v.tick_fits,
            length-decimal-u8 s.mode_machine v.machine_fits,
            length-decimal-u8 s.mode_pr v.pr_fits,
          )))
        (omega (arith, commas-append, commas-decimal, commas-decimal_ℤ))

  -- Every row of lowstate.csv has as many fields as the header, 158: no buffer cuts a cell.
  pub lowstate_row-columns :
      (s : LowState R) (recv_ns : ℤ)
      → IsInt64 recv_ns
      → IsLowState R s
      → (commas (lowstate_row R s recv_ns) ≡ commas lowstate_header)
        × (commas lowstate_header + 1 ≡ 158)
  unfolding lowstate_row lowstate_front
  lowstate_row-columns s recv_ns fits v = omega (
    arith,
    lowstate_header_columns,
    commas-append,
    commas-lowstate_front s recv_ns fits v,
    commas-float_rows s.quaternion,
    commas-float_rows s.gyroscope,
    commas-float_rows s.accelerometer,
    commas-float_rows s.rpy,
    ap commas (
        snprintf-lt 128 (comma ++ decimal_ℤ s.temperature)
          (omega (arith, length-decimal_ℤ s.temperature v.temperature_fits))),
    commas-decimal_ℤ s.temperature,
    commas-state_rows s.motor_state,
  )

  -- Every row of hand_<side>.csv has as many fields as the header, 137, however many motors and
  -- pressure pads the message carries.
  pub dex3_row-columns :
      (s : HandState R) (recv_ns : ℤ)
      → IsInt64 recv_ns
      → (commas (dex3_row R s recv_ns) ≡ commas dex3_header) × (commas dex3_header + 1 ≡ 137)
  unfolding dex3_row
  dex3_row-columns s recv_ns fits = omega (
    arith,
    dex3_header_columns,
    commas-append,
    ap commas (snprintf-lt 96 (decimal_ℤ recv_ns) (omega (arith, length-decimal_ℤ recv_ns fits))),
    commas-decimal_ℤ recv_ns,
    commas-hand_rows dex3_motors s.motor_state,
    commas-pad_rows dex3_press_pads s.press_sensor_state,
  )
