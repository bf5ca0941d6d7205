-- ===== src/Schema/Command/Cells.antt =====
-- What stands in which column of lowcmd.csv and of hand_cmd_<side>.csv.
use kist_data_collector.Common.{
  ℕ, zero, suc, ◌+◌, ◌^◌, ◌<◌, ◌≡◌, refl, sym, ap, ◌∙◌, List, [], ◌∷◌, ◌++◌, length, arith,
  length-append, append_assoc, Every,
}
use kist_data_collector.Common.Text.{
  Text, text, comma, decimal, decimal_ℤ, padded, commas-decimal, commas-decimal_ℤ,
}
use kist_data_collector.Common.Int.{ℤ}
use kist_data_collector.Schema.{
  Floats, snprintf, snprintf-lt, IsInt64, length-decimal_ℤ, length-decimal-u8,
}
use kist_data_collector.Schema.Cells.{
  split, behind, split-behind, IsCell, Field, names, cells, IsTable,
}
use kist_data_collector.Schema.Command.{
  MotorCmd, LowCmd, HandCmd, HasModes, lowcmd_motors, lowcmd_header, lowcmd_row, cmd_cells,
  cmd_rows, hand_cmd_rows, dex3_cmd_motors, dex3_cmd_header, dex3_cmd_row, length-cmd_cells,
}

-- The column of a quantity of motor `i` of the body, and of a hand.
abbrev body_column : ℕ → Text → Text
body_column i s = text "m" ++ (padded 2 i ++ s)

abbrev hand_column : ℕ → Text → Text
hand_column i s = text "f" ++ (decimal i ++ s)

abbrev motor_columns : (ℕ → Text → Text) → ℕ → List Text → List Text
motor_columns column i ns =
    column i (text "_mode")
    ∷ column i (text "_q")
    ∷ column i (text "_dq")
    ∷ column i (text "_tau")
    ∷ column i (text "_kp")
    ∷ column i (text "_kd")
    ∷ ns

abbrev motor_names : (ℕ → Text → Text) → ℕ → ℕ → List Text
motor_names column i zero = []
motor_names column i (suc left) = motor_columns column i (motor_names column (i + 1) left)

split-lowcmd_header :
    split lowcmd_header
    ≡ text "recv_ns"
      ∷ text "mode_pr"
      ∷ text "mode_machine"
      ∷ motor_names body_column 0 lowcmd_motors
unfolding split lowcmd_header padded
split-lowcmd_header = refl

split-dex3_cmd_header :
    split dex3_cmd_header ≡ text "recv_ns" ∷ motor_names hand_column 0 dex3_cmd_motors
unfolding split dex3_cmd_header decimal
split-dex3_cmd_header = refl

module _ (R : Floats) where
  open R use {g7, commas-g7}

  abbrev motor_fields : (ℕ → Text → Text) → ℕ → List (MotorCmd R) → List Field
  motor_fields column i [] = []
  motor_fields column i (m ∷ ms) =
      (column i (text "_mode"), decimal m.mode)
      ∷ (column i (text "_q"), g7 m.q)
      ∷ (column i (text "_dq"), g7 m.dq)
      ∷ (column i (text "_tau"), g7 m.tau)
      ∷ (column i (text "_kp"), g7 m.kp)
      ∷ (column i (text "_kd"), g7 m.kd)
      ∷ motor_fields column (i + 1) ms

  -- Every quantity of a command under the name of its column.
  abbrev pub lowcmd_fields : LowCmd R → ℤ → List Field
  lowcmd_fields c recv_ns =
      (text "recv_ns", decimal_ℤ recv_ns)
      ∷ (text "mode_pr", decimal c.mode_pr)
      ∷ (text "mode_machine", decimal c.mode_machine)
      ∷ motor_fields body_column 0 c.motor_cmd

  names-motor_fields :
      (column : ℕ → Text → Text) (i : ℕ) (ms : List (MotorCmd R))
      → names (motor_fields column i ms) ≡ motor_names column i (length ms)
  names-motor_fields column i [] = refl
  names-motor_fields column i (m ∷ ms) =
      ap (motor_columns column i) (names-motor_fields column (i + 1) ms)

  motor-IsCell :
      (m : MotorCmd R) (cs : List Text)
      → Every IsCell cs
      → Every IsCell (decimal m.mode ∷ g7 m.q ∷ g7 m.dq ∷ g7 m.tau ∷ g7 m.kp ∷ g7 m.kd ∷ cs)
  motor-IsCell m cs h = (
    commas-decimal m.mode,
    (commas-g7 m.q, (commas-g7 m.dq, (commas-g7 m.tau, (commas-g7 m.kp, (commas-g7 m.kd, h))))),
  )

  motor_fields-IsCell :
      (column : ℕ → Text → Text) (i : ℕ) (ms : List (MotorCmd R))
      → Every IsCell (cells (motor_fields column i ms))
  motor_fields-IsCell column i [] = tt
  motor_fields-IsCell column i (m ∷ ms) = motor-IsCell m _ (motor_fields-IsCell column (i + 1) ms)

  cmd_rows-behind :
      (column : ℕ → Text → Text) (i : ℕ) (ms : List (MotorCmd R))
      → HasModes R ms
      → cmd_rows R ms ≡ behind (cells (motor_fields column i ms))
  cmd_rows-behind column i [] h = refl
  cmd_rows-behind column i (m ∷ ms) (h, hs) =
      rw
        (
          snprintf-lt 160 (cmd_cells R m) (length-cmd_cells R m h),
          cmd_rows-behind column (i + 1) ms hs,
        )
        (simp append_assoc)

  -- Every row of lowcmd.csv and arm_sdk.csv reads, cut at its commas, as the arrival time, the two
  -- modes and each motor's six quantities in full, each under the name that the header gives it:
  -- with the 35 motors of the message, uint8_t modes and an int64_t arrival time.
  pub lowcmd_row-IsTable :
      (c : LowCmd R) (recv_ns : ℤ)
      → IsInt64 recv_ns
      → c.mode_pr < 2 ^ 8
      → c.mode_machine < 2 ^ 8
      → length c.motor_cmd ≡ lowcmd_motors
      → HasModes R c.motor_cmd
      → IsTable lowcmd_header (lowcmd_row R c recv_ns) (lowcmd_fields c recv_ns)
  unfolding lowcmd_row
  lowcmd_row-IsTable c recv_ns fits pr machine motors modes = (
    split-lowcmd_header
        ∙ ap (λ ns. text "recv_ns" ∷ text "mode_pr" ∷ text "mode_machine" ∷ ns)
            (ap (motor_names body_column 0) (sym motors)
              ∙ sym (names-motor_fields body_column 0 c.motor_cmd)),
    ap split row_cells
        ∙ split-behind (decimal_ℤ recv_ns) _ (commas-decimal_ℤ recv_ns) (
          commas-decimal c.mode_pr,
          (commas-decimal c.mode_machine, motor_fields-IsCell body_column 0 c.motor_cmd),
        ),
  )
    where
      front : Text
      front =
          decimal_ℤ recv_ns ++ (comma ++ (decimal c.mode_pr ++ (comma ++ decimal c.mode_machine)))

      front_fits : length front < 160
      front_fits = omega (
        arith,
        length-append {0},
        length-decimal_ℤ recv_ns fits,
        length-decimal-u8 c.mode_pr pr,
        length-decimal-u8 c.mode_machine machine,
      )

      row_cells :
          snprintf 160 front ++ cmd_rows R c.motor_cmd
          ≡ decimal_ℤ recv_ns
            ++ behind (
                decimal c.mode_pr
                ∷ decimal c.mode_machine
                ∷ cells (motor_fields body_column 0 c.motor_cmd))
      row_cells =
          rw (snprintf-lt 160 front front_fits, cmd_rows-behind body_column 0 c.motor_cmd modes)
            (simp append_assoc)

  -- The first `left` motors of a hand from motor `i` on, zeros for those that the message lacks.
  abbrev hand_fields : ℕ → ℕ → List (MotorCmd R) → List Field
  hand_fields i zero ms = []
  hand_fields i (suc left) [] =
      (hand_column i (text "_mode"), text "0")
      ∷ (hand_column i (text "_q"), text "0")
      ∷ (hand_column i (text "_dq"), text "0")
      ∷ (hand_column i (text "_tau"), text "0")
      ∷ (hand_column i (text "_kp"), text "0")
      ∷ (hand_column i (text "_kd"), text "0")
      ∷ hand_fields (i + 1) left []
  hand_fields i (suc left) (m ∷ ms) =
      motor_fields hand_column i (m ∷ []) ++ hand_fields (i + 1) left ms

  abbrev pub dex3_cmd_fields : HandCmd R → ℤ → List Field
  dex3_cmd_fields c recv_ns =
      (text "recv_ns", decimal_ℤ recv_ns) ∷ hand_fields 0 dex3_cmd_motors c.motor_cmd

  names-hand_fields :
      (i left : ℕ) (ms : List (MotorCmd R))
      → names (hand_fields i left ms) ≡ motor_names hand_column i left
  names-hand_fields i zero ms = refl
  names-hand_fields i (suc left) [] =
      ap (motor_columns hand_column i) (names-hand_fields (i + 1) left [])
  names-hand_fields i (suc left) (m ∷ ms) =
      ap (motor_columns hand_column i) (names-hand_fields (i + 1) left ms)

  hand_fields-IsCell :
      (i left : ℕ) (ms : List (MotorCmd R)) → Every IsCell (cells (hand_fields i left ms))
  hand_fields-IsCell i zero ms = tt
  hand_fields-IsCell i (suc left) [] =
      (refl, (refl, (refl, (refl, (refl, (refl, hand_fields-IsCell (i + 1) left []))))))
  hand_fields-IsCell i (suc left) (m ∷ ms) = motor-IsCell m _ (hand_fields-IsCell (i + 1) left ms)

  hand_cmd_rows-behind :
      (i left : ℕ) (ms : List (MotorCmd R))
      → HasModes R ms
      → hand_cmd_rows R left ms ≡ behind (cells (hand_fields i left ms))
  hand_cmd_rows-behind i zero ms h = refl
  hand_cmd_rows-behind i (suc left) [] h =
      rw (snprintf-lt 160 (text ",0,0,0,0,0,0") (omega arith))
        (ap (λ s. text ",0,0,0,0,0,0" ++ s) (hand_cmd_rows-behind (i + 1) left [] tt))
  hand_cmd_rows-behind i (suc left) (m ∷ ms) (h, hs) =
      rw
        (
          snprintf-lt 160 (cmd_cells R m) (length-cmd_cells R m h),
          hand_cmd_rows-behind (i + 1) left ms hs,
        )
        (simp append_assoc)

  -- Every row of hand_cmd_<side>.csv reads, cut at its commas, as the arrival time and the six
  -- quantities of each of the hand's seven motors, each under the name that the header gives it:
  -- motors beyond the seventh are left out, and those that the message lacks are zeros.
  pub dex3_cmd_row-IsTable :
      (c : HandCmd R) (recv_ns : ℤ)
      → IsInt64 recv_ns
      → HasModes R c.motor_cmd
      → IsTable dex3_cmd_header (dex3_cmd_row R c recv_ns) (dex3_cmd_fields c recv_ns)
  unfolding dex3_cmd_row
  dex3_cmd_row-IsTable c recv_ns fits modes = (
    split-dex3_cmd_header
        ∙ ap (λ ns. text "recv_ns" ∷ ns) (sym (names-hand_fields 0 dex3_cmd_motors c.motor_cmd)),
    rw
        (
          snprintf-lt 160 (decimal_ℤ recv_ns) (omega (arith, length-decimal_ℤ recv_ns fits)),
          hand_cmd_rows-behind 0 dex3_cmd_motors c.motor_cmd modes,
        )
        (split-behind (decimal_ℤ recv_ns) _ (commas-decimal_ℤ recv_ns)
          (hand_fields-IsCell 0 dex3_cmd_motors c.motor_cmd)),
  )
