-- ===== src/Session/Notes.antt =====
-- The fixed lines of meta.yaml: session_write_meta of src/common/session.cpp, from `format:` on.
use Prim.Native.Nat.{ℕ, ◌+◌, ◌/◌, ◌%◌}
use Prim.Native.Char.{code}
use Prim.Native.String.{String}
use kist_data_collector.Common.{List, [], ◌∷◌, ◌++◌, ltb, if◌then◌else◌}
use kist_data_collector.Common.Text.{Text}

-- The bytes of a code point below 2^16 in UTF-8.
utf8_bytes : ℕ → Text
utf8_bytes c =
    if ltb c 0x80
    then c ∷ []
    else if ltb c 0x800
    then (0xc0 + c / 64) ∷ (0x80 + c % 64) ∷ []
    else (0xe0 + c / 4096) ∷ (0x80 + c / 64 % 64) ∷ (0x80 + c % 64) ∷ []

-- A literal of the source, which is in UTF-8.
unfoldable pub utf8 : String → Text
unfolding utf8_bytes
utf8 String.[] = []
utf8 (String.◌∷◌ c s) = utf8_bytes (code c) ++ utf8 s

unfoldable pub format_notes : List Text
unfolding utf8
format_notes =
    utf8 "format:"
    ∷ utf8 "  # per camera: <name>/{color.h264,color.idx.csv,depth.rvl,depth.idx.csv}"
    ∷ utf8 "  color: Annex-B H.264 NAL units, frames appended verbatim; idx csv maps"
    ∷ utf8 "         seq/stamp_ns/recv_ns -> byte (offset,size); is_keyframe marks IDR."
    ∷ utf8 "  depth: RVL bitstreams (lossless Z16, kist-ext-sensor-io codec) appended"
    ∷ utf8 "         verbatim; idx csv adds width/height/depth_scale per frame."
    ∷ utf8 "  lowstate.csv: one row per rt/lowstate msg (~1 kHz) — recv_ns, tick"
    ∷ utf8 "         (robot ms counter), mode_machine/mode_pr, IMU (quaternion wxyz,"
    ∷ utf8 "         gyro, accel, rpy, temp), body motors m00..m34 x q/dq/ddq/tau_est."
    ∷ utf8 "  hand_{left,right}.csv: one row per rt/dex3/<side>/state msg — recv_ns,"
    ∷ utf8 "         finger motors f0..f6 x q/dq/ddq/tau_est (f0 = thumb rotation),"
    ∷ utf8 "         press pads press0..8 x 12 pressure channels."
    ∷ utf8 "  uwb.csv: one row per rt/kist/uwb/pose fix — recv_ns, stamp_ns, x, y, z"
    ∷ utf8 "         (UWB local frame, m); time gaps = no fix, not loss."
    ∷ utf8 "  lowcmd.csv / arm_sdk.csv: one row per rt/lowcmd / rt/arm_sdk msg —"
    ∷ utf8 "         recv_ns, mode_pr/mode_machine, body motors m00..m34 x"
    ∷ utf8 "         mode/q/dq/tau/kp/kd (q = absolute joint target); time gaps ="
    ∷ utf8 "         no controller publishing, not loss."
    ∷ utf8 "  hand_cmd_{left,right}.csv: one row per rt/dex3/<side>/cmd msg —"
    ∷ utf8 "         recv_ns, finger motors f0..f6 x mode/q/dq/tau/kp/kd; time"
    ∷ utf8 "         gaps = no commands, not loss."
    ∷ utf8 "  motion_token.csv: one row per rt/kist/motion_token msg (50 Hz) —"
    ∷ utf8 "         recv_ns, stamp_ns (gearsonic tick clock), seq, arbiter_mode"
    ∷ utf8 "         (0 normal/1 teleop/2 vla/3 recovering), encoder_mode, token"
    ∷ utf8 "         t00..t63; seq/time gaps = robot outside CONTROL, not loss."
    ∷ utf8 "         Training export keeps arbiter_mode == 1 (teleop) rows."
    ∷ utf8 "  clocks: stamp_ns = transmitter capture clock (epoch ns);"
    ∷ utf8 "          recv_ns = this host's arrival clock (epoch ns) — the"
    ∷ utf8 "          cross-stream alignment column, shared by every file above."
    ∷ []
