-- ===== src/Schema/State/Cells.antt =====
-- What stands in which column of lowstate.csv and of hand_<side>.csv.
use kist_data_collector.Common.{
  ℕ, zero, suc, ◌+◌, ◌≡◌, refl, sym, ap, ◌∙◌, List, [], ◌∷◌, ◌++◌, length, arith, length-append,
  append_assoc, Every,
}
use kist_data_collector.Common.Text.{
  Text, text, comma, decimal, decimal_ℤ, padded, commas-decimal, commas-decimal_ℤ,
}
use kist_data_collector.Common.Int.{ℤ}
use kist_data_collector.Schema.{
  Floats, snprintf, snprintf-lt, IsInt64, length-decimal_ℤ, length-decimal-u8, length-decimal-u32,
}
use kist_data_collector.Schema.Cells.{
  split, behind, split-behind, IsCell, Field, names, cells, IsTable,
}
use kist_data_collector.Schema.State.{
  MotorState, LowState, IsLowState, lowstate_motors, lowstate_header, lowstate_row, state_cells,
  state_rows, float_rows, length-state_cells,
}

-- The column of a quantity of motor `i`.
abbrev body_column : ℕ → Text → Text
body_column i s = text "m" ++ (padded 2 i ++ s)

abbrev motor_columns : ℕ → List Text → List Text
motor_columns i ns =
    body_column i (text "_q")
    ∷ body_column i (text "_dq")
    ∷ body_column i (text "_ddq")
    ∷ body_column i (text "_tau")
    ∷ ns

abbrev motor_names : ℕ → ℕ → List Text
motor_names i zero = []
motor_names i (suc left) = motor_columns i (motor_names (i + 1) left)

abbrev front_names : List Text
front_names = text "recv_ns" ∷ text "tick" ∷ text "mode_machine" ∷ text "mode_pr" ∷ []

abbrev quaternion_names : List Text
quaternion_names = text "quat_w" ∷ text "quat_x" ∷ text "quat_y" ∷ text "quat_z" ∷ []

abbrev gyroscope_names : List Text
gyroscope_names = text "gyro_x" ∷ text "gyro_y" ∷ text "gyro_z" ∷ []

abbrev accelerometer_names : List Text
accelerometer_names = text "accel_x" ∷ text "accel_y" ∷ text "accel_z" ∷ []

abbrev rpy_names : List Text
rpy_names = text "rpy_roll" ∷ text "rpy_pitch" ∷ text "rpy_yaw" ∷ []

split-lowstate_header :
    split lowstate_header
    ≡ front_names
      ++ (quaternion_names
          ++ (gyroscope_names
              ++ (accelerometer_names
                  ++ (rpy_names ++ (text "imu_temp" ∷ motor_names 0 lowstate_motors)))))
unfolding split lowstate_header padded
split-lowstate_header = refl

module _ (R : Floats) where
  open R use {Float, g7, commas-g7}

  -- The floats of an array under their names.
  abbrev float_fields : List Text → List Float → List Field
  float_fields [] vs = []
  float_fields (n ∷ ns) [] = []
  float_fields (n ∷ ns) (v ∷ vs) = (n, g7 v) ∷ float_fields ns vs

  abbrev motor_fields : ℕ → List (MotorState R) → List Field
  motor_fields i [] = []
  motor_fields i (m ∷ ms) =
      (body_column i (text "_q"), g7 m.q)
      ∷ (body_column i (text "_dq"), g7 m.dq)
      ∷ (body_column i (text "_ddq"), g7 m.ddq)
      ∷ (body_column i (text "_tau"), g7 m.tau_est)
      ∷ motor_fields (i + 1) ms

  -- The inertial unit's arrays in front of the other fields.
  abbrev inertial_fields : LowState R → List Field → List Field
  inertial_fields s fs =
      float_fields quaternion_names s.quaternion
      ++ (float_fields gyroscope_names s.gyroscope
          ++ (float_fields accelerometer_names s.accelerometer
              ++ (float_fields rpy_names s.rpy ++ fs)))

  -- Every quantity of a state under the name of its column.
  abbrev pub lowstate_fields : LowState R → ℤ → List Field
  lowstate_fields s recv_ns =
      (text "recv_ns", decimal_ℤ recv_ns)
      ∷ (text "tick", decimal s.tick)
      ∷ (text "mode_machine", decimal s.mode_machine)
      ∷ (text "mode_pr", decimal s.mode_pr)
      ∷ inertial_fields s
          ((text "imu_temp", decimal_ℤ s.temperature) ∷ motor_fields 0 s.motor_state)

  names-float_fields :
      (ns : List Text) (vs : List Float) (fs : List Field)
      → length vs ≡ length ns
      → names (float_fields ns vs ++ fs) ≡ ns ++ names fs
  names-float_fields [] vs fs h = refl
  names-float_fields (n ∷ ns) [] fs h = absurd (omega arith)
  names-float_fields (n ∷ ns) (v ∷ vs) fs h = ap (◌∷◌ n) (names-float_fields ns vs fs (omega arith))

  names-motor_fields :
      (i : ℕ) (ms : List (MotorState R)) → names (motor_fields i ms) ≡ motor_names i (length ms)
  names-motor_fields i [] = refl
  names-motor_fields i (m ∷ ms) = ap (motor_columns i) (names-motor_fields (i + 1) ms)

  float_fields-IsCell :
      (ns : List Text) (vs : List Float) (fs : List Field)
      → Every IsCell (cells fs)
      → Every IsCell (cells (float_fields ns vs ++ fs))
  float_fields-IsCell [] vs fs h = h
  float_fields-IsCell (n ∷ ns) [] fs h = h
  float_fields-IsCell (n ∷ ns) (v ∷ vs) fs h = (commas-g7 v, float_fields-IsCell ns vs fs h)

  motor_fields-IsCell :
      (i : ℕ) (ms : List (MotorState R)) → Every IsCell (cells (motor_fields i ms))
  motor_fields-IsCell i [] = tt
  motor_fields-IsCell i (m ∷ ms) = (
    commas-g7 m.q,
    (commas-g7 m.dq, (commas-g7 m.ddq, (commas-g7 m.tau_est, motor_fields-IsCell (i + 1) ms))),
  )

  float_rows-behind :
      (ns : List Text) (vs : List Float) (fs : List Field)
      → length vs ≡ length ns
      → float_rows R vs ++ behind (cells fs) ≡ behind (cells (float_fields ns vs ++ fs))
  float_rows-behind [] [] fs h = refl
  float_rows-behind [] (v ∷ vs) fs h = absurd (omega arith)
  float_rows-behind (n ∷ ns) [] fs h = absurd (omega arith)
  float_rows-behind (n ∷ ns) (v ∷ vs) fs h =
      rw (snprintf-lt 128 (comma ++ g7 v) (omega (arith, R.length-g7 v))) (
        append_assoc (comma ++ g7 v) (float_rows R vs) (behind (cells fs))
        ∙ ap (λ s. comma ++ (g7 v ++ s)) (float_rows-behind ns vs fs (omega arith)))

  state_rows-behind :
      (i : ℕ) (ms : List (MotorState R)) → state_rows R ms ≡ behind (cells (motor_fields i ms))
  state_rows-behind i [] = refl
  state_rows-behind i (m ∷ ms) =
      rw
        (
          snprintf-lt 128 (state_cells R m) (omega (arith, length-state_cells R m)),
          state_rows-behind (i + 1) ms,
        )
        (simp append_assoc)

  -- The four scalars in front.
  lowstate_front-behind :
      (s : LowState R) (recv_ns : ℤ) (cs : List Text)
      → IsInt64 recv_ns
      → IsLowState R s
      → snprintf 128 (
            decimal_ℤ recv_ns
            ++ (comma
                ++ (decimal s.tick
                    ++ (comma ++ (decimal s.mode_machine ++ (comma ++ decimal s.mode_pr))))))
          ++ behind cs
        ≡ decimal_ℤ recv_ns
          ++ behind (decimal s.tick ∷ decimal s.mode_machine ∷ decimal s.mode_pr ∷ cs)
  lowstate_front-behind s recv_ns cs fits v =
      rw
        (snprintf-lt 128 front (
          omega (
            arith,
            length-append {0},
            length-decimal_ℤ recv_ns fits,
            length-decimal-u32 s.tick v.tick_fits,
            length-decimal-u8 s.mode_machine v.machine_fits,
            length-decimal-u8 s.mode_pr v.pr_fits,
          )))
        (simp append_assoc)
    where
      front : Text
      front =
          decimal_ℤ recv_ns
          ++ (comma
              ++ (decimal s.tick
                  ++ (comma ++ (decimal s.mode_machine ++ (comma ++ decimal s.mode_pr)))))

  inertial-behind :
      (s : LowState R) (fs : List Field)
      → IsLowState R s
      → float_rows R s.quaternion
          ++ (float_rows R s.gyroscope
              ++ (float_rows R s.accelerometer ++ (float_rows R s.rpy ++ behind (cells fs))))
        ≡ behind (cells (inertial_fields s fs))
  inertial-behind s fs v =
      rw
        (
          float_rows-behind rpy_names s.rpy fs v.rpy_size,
          float_rows-behind accelerometer_names s.accelerometer _ v.accelerometer_size,
          float_rows-behind gyroscope_names s.gyroscope _ v.gyroscope_size,
        )
        (float_rows-behind quaternion_names s.quaternion _ v.quaternion_size)

  inertial-IsCell :
      (s : LowState R) (fs : List Field)
      → Every IsCell (cells fs)
      → Every IsCell (cells (inertial_fields s fs))
  inertial-IsCell s fs h = float_fields-IsCell quaternion_names s.quaternion _ (
      float_fields-IsCell gyroscope_names s.gyroscope _ (
        float_fields-IsCell accelerometer_names s.accelerometer _
          (float_fields-IsCell rpy_names s.rpy fs h)))

  names-inertial :
      (s : LowState R) (fs : List Field)
      → IsLowState R s
      → names (inertial_fields s fs)
        ≡ quaternion_names ++ (gyroscope_names ++ (accelerometer_names ++ (rpy_names ++ names fs)))
  names-inertial s fs v =
      rw
        (
          names-float_fields quaternion_names s.quaternion
              (float_fields gyroscope_names s.gyroscope
                ++ (float_fields accelerometer_names s.accelerometer
                    ++ (float_fields rpy_names s.rpy ++ fs)))
              v.quaternion_size,
          names-float_fields gyroscope_names s.gyroscope
              (float_fields accelerometer_names s.accelerometer
                ++ (float_fields rpy_names s.rpy ++ fs))
              v.gyroscope_size,
          names-float_fields accelerometer_names s.accelerometer
              (float_fields rpy_names s.rpy ++ fs) v.accelerometer_size,
        )
        (ap (λ ns. quaternion_names ++ (gyroscope_names ++ (accelerometer_names ++ ns)))
          (names-float_fields rpy_names s.rpy fs v.rpy_size))

  temperature-behind :
      (s : LowState R) (cs : List Text)
      → IsLowState R s
      → snprintf 128 (comma ++ decimal_ℤ s.temperature) ++ behind cs
        ≡ behind (decimal_ℤ s.temperature ∷ cs)
  temperature-behind s cs v =
      ap (λ t. t ++ behind cs)
        (snprintf-lt 128 (comma ++ decimal_ℤ s.temperature)
          (omega (arith, length-decimal_ℤ s.temperature v.temperature_fits)))

  -- Every row of lowstate.csv reads, cut at its commas, as the arrival time, the tick, the two
  -- modes, the readings of the inertial unit and each motor's four quantities in full, each under
  -- the name that the header gives it: with an int64_t arrival time, scalars that fit their types
  -- and arrays of the sizes of the message.
  pub lowstate_row-IsTable :
      (s : LowState R) (recv_ns : ℤ)
      → IsInt64 recv_ns
      → IsLowState R s
      → IsTable lowstate_header (lowstate_row R s recv_ns) (lowstate_fields s recv_ns)
  unfolding lowstate_row
  lowstate_row-IsTable s recv_ns fits v = (
    split-lowstate_header ∙ sym (ap (λ ns. front_names ++ ns) named),
    ap split row_cells
        ∙ split-behind (decimal_ℤ recv_ns) _ (commas-decimal_ℤ recv_ns) (
          commas-decimal s.tick,
          (
            commas-decimal s.mode_machine,
            (
              commas-decimal s.mode_pr,
              inertial-IsCell s last
                  (commas-decimal_ℤ s.temperature, motor_fields-IsCell 0 s.motor_state),
            ),
          ),
        ),
  )
    where
      last : List Field
      last = (text "imu_temp", decimal_ℤ s.temperature) ∷ motor_fields 0 s.motor_state

      named :
          names (inertial_fields s last)
          ≡ quaternion_names
            ++ (gyroscope_names
                ++ (accelerometer_names
                    ++ (rpy_names ++ (text "imu_temp" ∷ motor_names 0 lowstate_motors))))
      named =
          names-inertial s last v
          ∙ ap
              (λ ns.
                quaternion_names
                ++ (gyroscope_names
                    ++ (accelerometer_names ++ (rpy_names ++ (text "imu_temp" ∷ ns)))))
              (names-motor_fields 0 s.motor_state ∙ ap (motor_names 0) v.motor_size)

      row_cells :
          lowstate_row R s recv_ns
          ≡ decimal_ℤ recv_ns
            ++ behind (
                decimal s.tick
                ∷ decimal s.mode_machine
                ∷ decimal s.mode_pr
                ∷ cells (inertial_fields s last))
      row_cells =
          rw
            (
              state_rows-behind 0 s.motor_state,
              temperature-behind s (cells (motor_fields 0 s.motor_state)) v,
              inertial-behind s last v,
            )
            (lowstate_front-behind s recv_ns (cells (inertial_fields s last)) fits v)
