-- ===== src/Schema/Command.antt =====
-- The command streams: include/unitree_recorder/lowcmd_rows.hpp and dex3_cmd_rows.hpp. A message
-- type of the SDK is a record of the fields that the code reads.
pub mod Cells
pub mod Columns
use kist_data_collector.Common.{
  ℕ, zero, suc, ◌+◌, ◌*◌, ◌^◌, ◌<◌, ◌≡◌, refl, List, [], ◌∷◌, ◌++◌, length, arith, length-append,
  ap,
}
use kist_data_collector.Common.Text.{
  Text, text, comma, commas, decimal, decimal_ℤ, padded, commas-append, commas-decimal,
  commas-decimal_ℤ,
}
use kist_data_collector.Common.Int.{ℤ}
use kist_data_collector.Schema.{
  Floats, snprintf, snprintf-lt, IsInt64, length-decimal_ℤ, length-decimal-u8,
}

abbrev pub lowcmd_motors : ℕ
lowcmd_motors = 35

abbrev pub dex3_cmd_motors : ℕ
dex3_cmd_motors = 7

-- The cells of motor `i` in the header of lowcmd.csv.
abbrev lowcmd_names : ℕ → Text
lowcmd_names i =
    let m : Text = text ",m" ++ padded 2 i in
    snprintf 80 (
      m
      ++ (text "_mode"
          ++ (m
              ++ (text "_q"
                  ++ (m
                      ++ (text "_dq"
                          ++ (m ++ (text "_tau" ++ (m ++ (text "_kp" ++ (m ++ text "_kd")))))))))))

-- A loop over `i` from a start, with the rounds left.
abbrev pub names_from : (ℕ → Text) → ℕ → ℕ → Text
names_from cells i zero = []
names_from cells i (suc left) = cells i ++ names_from cells (i + 1) left

unfoldable pub lowcmd_header : Text
unfolding padded snprintf
lowcmd_header = text "recv_ns,mode_pr,mode_machine" ++ names_from lowcmd_names 0 lowcmd_motors

-- The cells of motor `i` in the header of hand_cmd_<side>.csv.
abbrev hand_cmd_names : ℕ → Text
hand_cmd_names i =
    let f : Text = text ",f" ++ decimal i in
    snprintf 80 (
      f
      ++ (text "_mode"
          ++ (f
              ++ (text "_q"
                  ++ (f
                      ++ (text "_dq"
                          ++ (f ++ (text "_tau" ++ (f ++ (text "_kp" ++ (f ++ text "_kd")))))))))))

unfoldable pub dex3_cmd_header : Text
unfolding decimal snprintf
dex3_cmd_header = text "recv_ns" ++ names_from hand_cmd_names 0 dex3_cmd_motors

module _ (R : Floats) where
  open R use {Float, g7, commas-g7, length-g7}

  -- MotorCmd_
  pub record MotorCmd : Type 0 where
    pub mode : ℕ  -- uint8_t
    pub q : Float
    pub dq : Float
    pub tau : Float
    pub kp : Float
    pub kd : Float

  -- LowCmd_; `motor_cmd` is a std::array of 35.
  pub record LowCmd : Type 0 where
    pub mode_pr : ℕ  -- uint8_t
    pub mode_machine : ℕ  -- uint8_t
    pub motor_cmd : List MotorCmd

  -- HandCmd_; `motor_cmd` is a vector of any size.
  pub record HandCmd : Type 0 where
    pub motor_cmd : List MotorCmd

  -- ",%u,%.7g,%.7g,%.7g,%.7g,%.7g"
  abbrev pub cmd_cells : MotorCmd → Text
  cmd_cells m =
      comma
      ++ (decimal m.mode
          ++ (comma
              ++ (g7 m.q
                  ++ (comma
                      ++ (g7 m.dq
                          ++ (comma
                              ++ (g7 m.tau ++ (comma ++ (g7 m.kp ++ (comma ++ g7 m.kd))))))))))

  abbrev pub cmd_rows : List MotorCmd → Text
  cmd_rows [] = []
  cmd_rows (m ∷ ms) = snprintf 160 (cmd_cells m) ++ cmd_rows ms

  unfoldable pub lowcmd_row : LowCmd → ℤ → Text
  lowcmd_row c recv_ns =
      snprintf 160
        (decimal_ℤ recv_ns ++ (comma ++ (decimal c.mode_pr ++ (comma ++ decimal c.mode_machine))))
      ++ cmd_rows c.motor_cmd

  -- The loop of `dex3_cmd_row`, with the motors left in the message and in the schema: shorter
  -- messages are filled up with zeros, longer ones are cut.
  abbrev pub hand_cmd_rows : ℕ → List MotorCmd → Text
  hand_cmd_rows zero ms = []
  hand_cmd_rows (suc left) [] = snprintf 160 (text ",0,0,0,0,0,0") ++ hand_cmd_rows left []
  hand_cmd_rows (suc left) (m ∷ ms) = snprintf 160 (cmd_cells m) ++ hand_cmd_rows left ms

  unfoldable pub dex3_cmd_row : HandCmd → ℤ → Text
  dex3_cmd_row c recv_ns =
      snprintf 160 (decimal_ℤ recv_ns) ++ hand_cmd_rows dex3_cmd_motors c.motor_cmd

  -- Every `mode` is a uint8_t.
  abbrev pub HasModes : List MotorCmd → Type 0
  HasModes [] = Unit {0}
  HasModes (m ∷ ms) = (m.mode < 2 ^ 8) × HasModes ms

  pub length-cmd_cells : (m : MotorCmd) → m.mode < 2 ^ 8 → length (cmd_cells m) < 160
  length-cmd_cells m h = omega (
    arith,
    length-append {0},
    length-decimal-u8 m.mode h,
    length-g7 m.q,
    length-g7 m.dq,
    length-g7 m.tau,
    length-g7 m.kp,
    length-g7 m.kd,
  )
