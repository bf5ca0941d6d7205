-- ===== src/Schema/State/Hand.antt =====
-- What stands in which column of hand_<side>.csv.
use kist_data_collector.Common.{
  ℕ, zero, suc, ◌+◌, ◌≡◌, refl, sym, ap, ◌∙◌, List, [], ◌∷◌, ◌++◌, arith, append_assoc, Every,
}
use kist_data_collector.Common.Text.{Text, text, comma, decimal, decimal_ℤ, commas-decimal_ℤ}
use kist_data_collector.Common.Int.{ℤ}
use kist_data_collector.Schema.{Floats, snprintf-lt, IsInt64, length-decimal_ℤ}
use kist_data_collector.Schema.Cells.{
  split, behind, split-behind, IsCell, Field, names, cells, IsTable,
}
use kist_data_collector.Schema.State.{
  MotorState, HandState, dex3_motors, dex3_press_pads, dex3_press_channel, dex3_header, dex3_row,
  state_cells, length-state_cells, hand_rows, channel_rows, pad_rows,
}

abbrev hand_column : ℕ → Text → Text
hand_column i s = text "f" ++ (decimal i ++ s)

abbrev motor_columns : ℕ → List Text → List Text
motor_columns i ns =
    hand_column i (text "_q")
    ∷ hand_column i (text "_dq")
    ∷ hand_column i (text "_ddq")
    ∷ hand_column i (text "_tau")
    ∷ ns

abbrev motor_names : ℕ → ℕ → List Text → List Text
motor_names i zero ns = ns
motor_names i (suc left) ns = motor_columns i (motor_names (i + 1) left ns)

-- Channel `c` of pad `p`.
abbrev channel_column : ℕ → ℕ → Text
channel_column p c = text "press" ++ (decimal p ++ (text "_" ++ decimal c))

abbrev channel_names : ℕ → ℕ → ℕ → List Text → List Text
channel_names p c zero ns = ns
channel_names p c (suc left) ns = channel_column p c ∷ channel_names p (c + 1) left ns

abbrev pad_names : ℕ → ℕ → List Text
pad_names p zero = []
pad_names p (suc left) = channel_names p 0 dex3_press_channel (pad_names (p + 1) left)

split-dex3_header :
    split dex3_header ≡ text "recv_ns" ∷ motor_names 0 dex3_motors (pad_names 0 dex3_press_pads)
unfolding split dex3_header decimal
split-dex3_header = refl

module _ (R : Floats) where
  open R use {Float, zero_float, g7, commas-g7}

  -- The first `left` motors from motor `i` on, in front of the other fields: zeros for those that
  -- the message lacks.
  abbrev motor_fields : ℕ → ℕ → List (MotorState R) → List Field → List Field
  motor_fields i zero ms fs = fs
  motor_fields i (suc left) [] fs =
      (hand_column i (text "_q"), text "0")
      ∷ (hand_column i (text "_dq"), text "0")
      ∷ (hand_column i (text "_ddq"), text "0")
      ∷ (hand_column i (text "_tau"), text "0")
      ∷ motor_fields (i + 1) left [] fs
  motor_fields i (suc left) (m ∷ ms) fs =
      (hand_column i (text "_q"), g7 m.q)
      ∷ (hand_column i (text "_dq"), g7 m.dq)
      ∷ (hand_column i (text "_ddq"), g7 m.ddq)
      ∷ (hand_column i (text "_tau"), g7 m.tau_est)
      ∷ motor_fields (i + 1) left ms fs

  -- The first `left` channels of pad `p` from channel `c` on.
  abbrev channel_fields : ℕ → ℕ → ℕ → List Float → List Field → List Field
  channel_fields p c zero vs fs = fs
  channel_fields p c (suc left) [] fs =
      (channel_column p c, g7 zero_float) ∷ channel_fields p (c + 1) left [] fs
  channel_fields p c (suc left) (v ∷ vs) fs =
      (channel_column p c, g7 v) ∷ channel_fields p (c + 1) left vs fs

  abbrev pad_fields : ℕ → ℕ → List (List Float) → List Field
  pad_fields p zero ps = []
  pad_fields p (suc left) [] = channel_fields p 0 dex3_press_channel [] (pad_fields (p + 1) left [])
  pad_fields p (suc left) (v ∷ ps) =
      channel_fields p 0 dex3_press_channel v (pad_fields (p + 1) left ps)

  -- Every quantity of a hand's state under the name of its column.
  abbrev pub dex3_fields : HandState R → ℤ → List Field
  dex3_fields s recv_ns =
      (text "recv_ns", decimal_ℤ recv_ns)
      ∷ motor_fields 0 dex3_motors s.motor_state (pad_fields 0 dex3_press_pads s.press_sensor_state)

  names-motor_fields :
      (i left : ℕ) (ms : List (MotorState R)) (fs : List Field)
      → names (motor_fields i left ms fs) ≡ motor_names i left (names fs)
  names-motor_fields i zero ms fs = refl
  names-motor_fields i (suc left) [] fs =
      ap (motor_columns i) (names-motor_fields (i + 1) left [] fs)
  names-motor_fields i (suc left) (m ∷ ms) fs =
      ap (motor_columns i) (names-motor_fields (i + 1) left ms fs)

  names-channel_fields :
      (p c left : ℕ) (vs : List Float) (fs : List Field)
      → names (channel_fields p c left vs fs) ≡ channel_names p c left (names fs)
  names-channel_fields p c zero vs fs = refl
  names-channel_fields p c (suc left) [] fs =
      ap (◌∷◌ (channel_column p c)) (names-channel_fields p (c + 1) left [] fs)
  names-channel_fields p c (suc left) (v ∷ vs) fs =
      ap (◌∷◌ (channel_column p c)) (names-channel_fields p (c + 1) left vs fs)

  names-pad_fields :
      (p left : ℕ) (ps : List (List Float)) → names (pad_fields p left ps) ≡ pad_names p left
  names-pad_fields p zero ps = refl
  names-pad_fields p (suc left) [] =
      names-channel_fields p 0 dex3_press_channel [] (pad_fields (p + 1) left [])
      ∙ ap (channel_names p 0 dex3_press_channel) (names-pad_fields (p + 1) left [])
  names-pad_fields p (suc left) (v ∷ ps) =
      names-channel_fields p 0 dex3_press_channel v (pad_fields (p + 1) left ps)
      ∙ ap (channel_names p 0 dex3_press_channel) (names-pad_fields (p + 1) left ps)

  motor_fields-IsCell :
      (i left : ℕ) (ms : List (MotorState R)) (fs : List Field)
      → Every IsCell (cells fs)
      → Every IsCell (cells (motor_fields i left ms fs))
  motor_fields-IsCell i zero ms fs h = h
  motor_fields-IsCell i (suc left) [] fs h =
      (refl, (refl, (refl, (refl, motor_fields-IsCell (i + 1) left [] fs h))))
  motor_fields-IsCell i (suc left) (m ∷ ms) fs h = (
    commas-g7 m.q,
    (
      commas-g7 m.dq,
      (commas-g7 m.ddq, (commas-g7 m.tau_est, motor_fields-IsCell (i + 1) left ms fs h)),
    ),
  )

  channel_fields-IsCell :
      (p c left : ℕ) (vs : List Float) (fs : List Field)
      → Every IsCell (cells fs)
      → Every IsCell (cells (channel_fields p c left vs fs))
  channel_fields-IsCell p c zero vs fs h = h
  channel_fields-IsCell p c (suc left) [] fs h =
      (commas-g7 zero_float, channel_fields-IsCell p (c + 1) left [] fs h)
  channel_fields-IsCell p c (suc left) (v ∷ vs) fs h =
      (commas-g7 v, channel_fields-IsCell p (c + 1) left vs fs h)

  pad_fields-IsCell :
      (p left : ℕ) (ps : List (List Float)) → Every IsCell (cells (pad_fields p left ps))
  pad_fields-IsCell p zero ps = tt
  pad_fields-IsCell p (suc left) [] =
      channel_fields-IsCell p 0 dex3_press_channel [] _ (pad_fields-IsCell (p + 1) left [])
  pad_fields-IsCell p (suc left) (v ∷ ps) =
      channel_fields-IsCell p 0 dex3_press_channel v _ (pad_fields-IsCell (p + 1) left ps)

  hand_rows-behind :
      (i left : ℕ) (ms : List (MotorState R)) (fs : List Field)
      → hand_rows R left ms ++ behind (cells fs) ≡ behind (cells (motor_fields i left ms fs))
  hand_rows-behind i zero ms fs = refl
  hand_rows-behind i (suc left) [] fs =
      ap (λ s. (s ++ hand_rows R left []) ++ behind (cells fs))
        (snprintf-lt 96 (text ",0,0,0,0") (omega arith))
      ∙ ap (λ s. text ",0,0,0,0" ++ s) (hand_rows-behind (i + 1) left [] fs)
  hand_rows-behind i (suc left) (m ∷ ms) fs =
      rw
        (
          snprintf-lt 96 (state_cells R m) (length-state_cells R m),
          sym (hand_rows-behind (i + 1) left ms fs),
        )
        (simp append_assoc)

  channel_rows-behind :
      (p c left : ℕ) (vs : List Float) (fs : List Field)
      → channel_rows R left vs ++ behind (cells fs) ≡ behind (cells (channel_fields p c left vs fs))
  unfolding channel_rows
  channel_rows-behind p c zero vs fs = refl
  channel_rows-behind p c (suc left) [] fs =
      rw
        (
          snprintf-lt 96 (comma ++ g7 zero_float) (omega (arith, R.length-g7 zero_float)),
          sym (channel_rows-behind p (c + 1) left [] fs),
        )
        (simp append_assoc)
  channel_rows-behind p c (suc left) (v ∷ vs) fs =
      rw
        (
          snprintf-lt 96 (comma ++ g7 v) (omega (arith, R.length-g7 v)),
          sym (channel_rows-behind p (c + 1) left vs fs),
        )
        (simp append_assoc)

  pad_rows-behind :
      (p left : ℕ) (ps : List (List Float))
      → pad_rows R left ps ≡ behind (cells (pad_fields p left ps))
  unfolding pad_rows
  pad_rows-behind p zero ps = refl
  pad_rows-behind p (suc left) [] =
      rw (pad_rows-behind (p + 1) left [])
        (channel_rows-behind p 0 dex3_press_channel [] (pad_fields (p + 1) left []))
  pad_rows-behind p (suc left) (v ∷ ps) =
      rw (pad_rows-behind (p + 1) left ps)
        (channel_rows-behind p 0 dex3_press_channel v (pad_fields (p + 1) left ps))

  -- Every row of hand_<side>.csv reads, cut at its commas, as the arrival time, the four quantities
  -- of each of the hand's seven motors and the twelve pressures of each of its nine pads, each
  -- under the name that the header gives it: what the message has beyond them is left out, and what
  -- it lacks is zero.
  pub dex3_row-IsTable :
      (s : HandState R) (recv_ns : ℤ)
      → IsInt64 recv_ns
      → IsTable dex3_header (dex3_row R s recv_ns) (dex3_fields s recv_ns)
  unfolding dex3_row
  dex3_row-IsTable s recv_ns fits = (
    split-dex3_header ∙ sym (ap (λ ns. text "recv_ns" ∷ ns) named),
    rw
        (
          snprintf-lt 96 (decimal_ℤ recv_ns) (omega (arith, length-decimal_ℤ recv_ns fits)),
          pad_rows-behind 0 dex3_press_pads s.press_sensor_state,
          hand_rows-behind 0 dex3_motors s.motor_state pads,
        )
        (split-behind (decimal_ℤ recv_ns) _ (commas-decimal_ℤ recv_ns) (
          motor_fields-IsCell 0 dex3_motors s.motor_state pads
            (pad_fields-IsCell 0 dex3_press_pads s.press_sensor_state))),
  )
    where
      pads : List Field
      pads = pad_fields 0 dex3_press_pads s.press_sensor_state

      named :
          names (motor_fields 0 dex3_motors s.motor_state pads)
          ≡ motor_names 0 dex3_motors (pad_names 0 dex3_press_pads)
      named =
          names-motor_fields 0 dex3_motors s.motor_state pads
          ∙ ap (motor_names 0 dex3_motors) (names-pad_fields 0 dex3_press_pads s.press_sensor_state)
