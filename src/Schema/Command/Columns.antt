-- ===== src/Schema/Command/Columns.antt =====
-- The number of cells in the rows of the command streams: include/unitree_recorder/lowcmd_rows.hpp and
-- dex3_cmd_rows.hpp.
use kist_data_collector.Common.{
  ℕ, zero, suc, ◌+◌, ◌*◌, ◌^◌, ◌<◌, ◌≡◌, refl, List, [], ◌∷◌, ◌++◌, length, arith, length-append,
  ap,
}
use kist_data_collector.Common.Text.{
  Text, text, comma, commas, decimal, decimal_ℤ, commas-append, commas-decimal, commas-decimal_ℤ,
}
use kist_data_collector.Common.Int.{ℤ}
use kist_data_collector.Schema.{
  Floats, snprintf, snprintf-lt, IsInt64, length-decimal_ℤ, length-decimal-u8,
}
use kist_data_collector.Schema.Command.{
  MotorCmd, LowCmd, HandCmd, HasModes, lowcmd_motors, dex3_cmd_motors, lowcmd_header,
  dex3_cmd_header, cmd_cells, cmd_rows, lowcmd_row, hand_cmd_rows, dex3_cmd_row, length-cmd_cells,
}

dex3_cmd_header_columns : commas dex3_cmd_header ≡ 42
unfolding dex3_cmd_header
dex3_cmd_header_columns = refl

lowcmd_header_columns : commas lowcmd_header ≡ 212
unfolding lowcmd_header
lowcmd_header_columns = refl

module _ (R : Floats) where
  open R use {Float, zero_float, g7, commas-g7, length-g7}

  commas-cmd_cells : (m : MotorCmd R) → m.mode < 2 ^ 8 → commas (snprintf 160 (cmd_cells R m)) ≡ 6
  commas-cmd_cells m h = rw (snprintf-lt 160 (cmd_cells R m) (length-cmd_cells R m h)) (
      omega (
        arith,
        commas-append,
        commas-decimal,
        commas-g7 m.q,
        commas-g7 m.dq,
        commas-g7 m.tau,
        commas-g7 m.kp,
        commas-g7 m.kd,
      ))

  commas-cmd_rows :
      (ms : List (MotorCmd R)) → HasModes R ms → commas (cmd_rows R ms) ≡ 6 * length ms
  commas-cmd_rows [] h = refl
  commas-cmd_rows (m ∷ ms) h = omega (
    arith,
    commas-append (snprintf 160 (cmd_cells R m)) (cmd_rows R ms),
    commas-cmd_cells m h.0,
    commas-cmd_rows ms h.1,
  )

  commas-hand_cmd_rows :
      (left : ℕ) (ms : List (MotorCmd R))
      → HasModes R ms
      → commas (hand_cmd_rows R left ms) ≡ 6 * left
  commas-hand_cmd_rows zero ms h = refl
  commas-hand_cmd_rows (suc left) [] h = omega (
    arith,
    commas-append (snprintf 160 (text ",0,0,0,0,0,0")) (hand_cmd_rows R left []),
    ap commas (snprintf-lt 160 (text ",0,0,0,0,0,0") (omega arith)),
    commas-hand_cmd_rows left [] tt,
  )
  commas-hand_cmd_rows (suc left) (m ∷ ms) h = omega (
    arith,
    commas-append (snprintf 160 (cmd_cells R m)) (hand_cmd_rows R left ms),
    commas-cmd_cells m h.0,
    commas-hand_cmd_rows left ms h.1,
  )

  -- Every row of lowcmd.csv and arm_sdk.csv has as many fields as the header, 213: with the 35
  -- motors of the message, uint8_t modes and an int64_t arrival time, no buffer cuts a cell.
  pub lowcmd_row-columns :
      (c : LowCmd R) (recv_ns : ℤ)
      → IsInt64 recv_ns
      → c.mode_pr < 2 ^ 8
      → c.mode_machine < 2 ^ 8
      → length c.motor_cmd ≡ lowcmd_motors
      → HasModes R c.motor_cmd
      → (commas (lowcmd_row R c recv_ns) ≡ commas lowcmd_header) × (commas lowcmd_header + 1 ≡ 213)
  unfolding lowcmd_row
  lowcmd_row-columns c recv_ns fits pr machine motors modes = omega (
    arith,
    lowcmd_header_columns,
    commas-append (snprintf 160 front) (cmd_rows R c.motor_cmd),
    ap commas (snprintf-lt 160 front front_fits),
    commas_front,
    commas-cmd_rows c.motor_cmd modes,
  )
    where
      front : Text
      front =
          decimal_ℤ recv_ns ++ (comma ++ (decimal c.mode_pr ++ (comma ++ decimal c.mode_machine)))

      front_fits : length front < 160
      front_fits = omega (
        arith,
        length-append {0},
        length-decimal_ℤ recv_ns fits,
        length-decimal-u8 c.mode_pr pr,
        length-decimal-u8 c.mode_machine machine,
      )

      commas_front : commas front ≡ 2
      commas_front = omega (arith, commas-append, commas-decimal, commas-decimal_ℤ)

  -- Every row of hand_cmd_<side>.csv has as many fields as the header, 43, however many motors the
  -- message carries.
  pub dex3_cmd_row-columns :
      (c : HandCmd R) (recv_ns : ℤ)
      → IsInt64 recv_ns
      → HasModes R c.motor_cmd
      → (commas (dex3_cmd_row R c recv_ns) ≡ commas dex3_cmd_header)
        × (commas dex3_cmd_header + 1 ≡ 43)
  unfolding dex3_cmd_row
  dex3_cmd_row-columns c recv_ns fits modes = omega (
    arith,
    dex3_cmd_header_columns,
    commas-append (snprintf 160 (decimal_ℤ recv_ns)) (hand_cmd_rows R dex3_cmd_motors c.motor_cmd),
    ap commas (snprintf-lt 160 (decimal_ℤ recv_ns) (omega (arith, length-decimal_ℤ recv_ns fits))),
    commas-decimal_ℤ recv_ns,
    commas-hand_cmd_rows dex3_cmd_motors c.motor_cmd modes,
  )
