-- ===== src/Recorders/Callbacks.antt =====
-- The callbacks of the hand recorders, src/system/dex3_recorder.cpp and dex3_cmd_recorder.cpp, which
-- print the sizes of the first message that they ever get.
use kist_data_collector.Common.{
  ℕ, ◌≡◌, refl, sym, subst, List, [], ◌∷◌, ◌++◌, length, arith, Bool, true, false, some,
  if◌then◌else◌,
}
use kist_data_collector.Common.Text.{Text, text, decimal, newline}
use kist_data_collector.Common.Int.{ℤ}
use kist_data_collector.Pipeline.Serial
use kist_data_collector.Row.{RecordType}
use kist_data_collector.Schema.{Floats}
use kist_data_collector.Schema.State.{HandState, dex3_motors, dex3_press_pads}
use kist_data_collector.Schema.Command.{HandCmd, dex3_cmd_motors}
use kist_data_collector.Recorders.{
  SdkRecorder, Disk, Dds, fresh_sdk, answers, start_sdk, stop_sdk, deliver,
}
use kist_data_collector.Recorders.Life.{Reach, made, starts, delivers, serves, stops}
use kist_data_collector.Recorders.Streams.{dex3_records, dex3_cmd_records}

-- A recorder of a hand, with `sizes_logged_`, and what its callback has printed so far.
pub record HandRecorder (T : RecordType) : Type 0 where
  pub base : SdkRecorder T
  pub sizes_logged : Bool
  pub printed : List Text

abbrev pub fresh_hand : (T : RecordType) → HandRecorder T
fresh_hand T = record { base = fresh_sdk T; sizes_logged = false; printed = [] }

-- The callback, where `sizes side m` is the line that it prints for the message `m`.
abbrev on_message :
    (T : RecordType) → (Text → T.Record → Text) → T.Record → ℤ → HandRecorder T → HandRecorder T
on_message T sizes m recv_ns r =
    let r' : HandRecorder T =
      if r.sizes_logged
      then r
      else record r { sizes_logged = true; printed = r.printed ++ (sizes r.base.label m ∷ []) } in
    record r' { base = deliver T m recv_ns r'.base }

module _ (R : Floats) where
  abbrev pub state_sizes : Text → HandState R → Text
  state_sizes side s =
      text "[Dex3Recorder] "
      ++ (side
          ++ (text ": "
              ++ (decimal (length s.motor_state)
                  ++ (text " motor(s), "
                      ++ (decimal (length s.press_sensor_state)
                          ++ (text " press pad(s) (csv schema: "
                              ++ (decimal dex3_motors
                                  ++ (text " motors, "
                                      ++ (decimal dex3_press_pads
                                          ++ (text " pads)" ++ newline))))))))))

  unfoldable pub on_hand_state :
      HandState R → ℤ → HandRecorder (dex3_records R) → HandRecorder (dex3_records R)
  on_hand_state = on_message (dex3_records R) state_sizes

  abbrev pub cmd_sizes : Text → HandCmd R → Text
  cmd_sizes side c =
      text "[Dex3CmdRecorder] "
      ++ (side
          ++ (text ": "
              ++ (decimal (length c.motor_cmd)
                  ++ (text " motor cmd(s) (csv schema: "
                      ++ (decimal dex3_cmd_motors ++ (text " motors)" ++ newline))))))

  unfoldable pub on_hand_cmd :
      HandCmd R → ℤ → HandRecorder (dex3_cmd_records R) → HandRecorder (dex3_cmd_records R)
  on_hand_cmd = on_message (dex3_cmd_records R) cmd_sizes

module _ (T : RecordType) (callback : T.Record → ℤ → HandRecorder T → HandRecorder T) where
  -- A recorder after any calls, messages and turns of its writer. The list holds the messages that
  -- it got, each with the recorder's `side_` at the time.
  pub data HandReach : List (Text × T.Record) → HandRecorder T → Type 0 where
    hand_made : HandReach [] (fresh_hand T)
    hand_starts :
        (d : Disk) (dds : Dds) (header : Text) (capacity : ℕ) (label : Text)
        {heard : List (Text × T.Record)} {r : HandRecorder T} {r' : SdkRecorder T} {ok : Bool}
        → start_sdk T d dds header capacity (record r.base { label = label }) ≡ some (r', ok)
        → HandReach heard r
        → HandReach heard (record r { base = r' })
    hand_hears :
        (m : T.Record) (recv_ns : ℤ) {heard : List (Text × T.Record)} {r : HandRecorder T}
        → HandReach heard r
        → HandReach (heard ++ ((r.base.label, m) ∷ [])) (callback m recv_ns r)
    hand_serves :
        (d : Disk) {heard : List (Text × T.Record)} {r : HandRecorder T}
        → r.base.rec.joinable ≡ true
        → HandReach heard r
        → HandReach heard
            (record r { base = record r.base { rec = Serial.serve (answers T d) r.base.rec } })
    hand_stops :
        (d : Disk) {heard : List (Text × T.Record)} {r : HandRecorder T}
        → HandReach heard r
        → HandReach heard (record r { base = stop_sdk T d r.base })

-- The line for the first message, if there is one.
abbrev pub first_report : {A : Type 0} → (Text → A → Text) → List (Text × A) → List Text
first_report sizes [] = []
first_report sizes ((side, m) ∷ later) = sizes side m ∷ []

abbrev heard_any : {A : Type 0} → List A → Bool
heard_any [] = false
heard_any (m ∷ ms) = true

module _ (T : RecordType) (sizes : Text → T.Record → Text) where
  -- What the flag and the output are after the messages.
  record IsReported (heard : List (Text × T.Record)) (r : HandRecorder T) : Type 0 where
    flag : r.sizes_logged ≡ heard_any heard
    lines : r.printed ≡ first_report sizes heard

  on_message-IsReported :
      (m : T.Record) (recv_ns : ℤ) (heard : List (Text × T.Record)) (r : HandRecorder T)
      → IsReported heard r
      → IsReported (heard ++ ((r.base.label, m) ∷ [])) (on_message T sizes m recv_ns r)
  on_message-IsReported m recv_ns [] r v =
      rw (v.flag, v.lines) (record { flag = refl; lines = refl })
  on_message-IsReported m recv_ns (x ∷ xs) r v =
      rw (v.flag) (record { flag = refl; lines = v.lines })

  HandReach-IsReported :
      {heard : List (Text × T.Record)} {r : HandRecorder T}
      → HandReach T (on_message T sizes) heard r
      → IsReported heard r
  HandReach-IsReported hand_made = record { flag = refl; lines = refl }
  HandReach-IsReported (hand_starts d dds header capacity label {heard} {r} e l) =
      let v = HandReach-IsReported l in record { flag = v.flag; lines = v.lines }
  HandReach-IsReported (hand_hears m t {heard} {r} l) =
      on_message-IsReported m t heard r (HandReach-IsReported l)
  HandReach-IsReported (hand_serves d j l) =
      let v = HandReach-IsReported l in record { flag = v.flag; lines = v.lines }
  HandReach-IsReported (hand_stops d l) =
      let v = HandReach-IsReported l in record { flag = v.flag; lines = v.lines }

  on_message-base :
      (m : T.Record) (recv_ns : ℤ) (r : HandRecorder T)
      → (on_message T sizes m recv_ns r).base ≡ deliver T m recv_ns r.base
  on_message-base m recv_ns r = ground arith

  HandReach-Reach :
      {heard : List (Text × T.Record)} {r : HandRecorder T}
      → HandReach T (on_message T sizes) heard r
      → Reach T r.base
  HandReach-Reach hand_made = made
  HandReach-Reach (hand_starts d dds header capacity label e l) =
      starts d dds header capacity label e (HandReach-Reach l)
  HandReach-Reach (hand_hears m t {heard} {r} l) =
      subst (Reach T) (sym (on_message-base m t r)) (delivers m t (HandReach-Reach l))
  HandReach-Reach (hand_serves d j l) = serves d j (HandReach-Reach l)
  HandReach-Reach (hand_stops d l) = stops d (HandReach-Reach l)

  -- However often a hand's recorder was started and stopped, its output is one line with the sizes
  -- of the first message that it ever got, or nothing if it got none; and the callback is otherwise
  -- that of the other recorders, so that what is proved of their lives holds of it.
  pub HandReach-first_report :
      {heard : List (Text × T.Record)} {r : HandRecorder T}
      → HandReach T (on_message T sizes) heard r
      → (r.printed ≡ first_report sizes heard) × Reach T r.base
  HandReach-first_report l = ((HandReach-IsReported l).lines, HandReach-Reach l)

module _ (R : Floats) where
  -- However often the recorder of a hand's state was started and stopped, its output is one line with
  -- the numbers of motors and pads of the first message that it ever got, or nothing if it got none;
  -- and the callback is otherwise that of the other recorders, so that what is proved of their lives
  -- holds of it.
  pub hand_state-first_report :
      {heard : List (Text × HandState R)} {r : HandRecorder (dex3_records R)}
      → HandReach (dex3_records R) (on_hand_state R) heard r
      → (r.printed ≡ first_report (state_sizes R) heard) × Reach (dex3_records R) r.base
  unfolding on_hand_state
  hand_state-first_report l = HandReach-first_report (dex3_records R) (state_sizes R) l

  -- The same of the recorder of a hand's commands.
  pub hand_cmd-first_report :
      {heard : List (Text × HandCmd R)} {r : HandRecorder (dex3_cmd_records R)}
      → HandReach (dex3_cmd_records R) (on_hand_cmd R) heard r
      → (r.printed ≡ first_report (cmd_sizes R) heard) × Reach (dex3_cmd_records R) r.base
  unfolding on_hand_cmd
  hand_cmd-first_report l = HandReach-first_report (dex3_cmd_records R) (cmd_sizes R) l
