-- ===== src/Schema/Other.antt =====
-- UWB fixes (include/uwb_recorder/uwb_rows.hpp) and motion tokens
-- (include/gearsonic_recorder/motion_token_rows.hpp).
use kist_data_collector.Common.{
  ℕ, ◌+◌, ◌^◌, ◌<◌, ◌≡◌, refl, List, [], ◌∷◌, ◌++◌, length, arith, length-append, ap, ◌∙◌,
}
use kist_data_collector.Common.Text.{
  Text, text, comma, commas, decimal, decimal_ℤ, padded, commas-append, commas-decimal,
  commas-decimal_ℤ,
}
use kist_data_collector.Common.Int.{ℤ}
use kist_data_collector.Schema.{
  Floats, snprintf, snprintf-lt, IsInt64, length-decimal_ℤ, length-decimal-u8, length-decimal-u64,
}
use kist_data_collector.Schema.Command.{names_from}

abbrev pub uwb_csv_header : Text
uwb_csv_header = text "recv_ns,stamp_ns,x,y,z"

abbrev pub motion_token_dim : ℕ
motion_token_dim = 64

unfoldable pub motion_token_header : Text
unfolding padded snprintf
motion_token_header =
    text "recv_ns,stamp_ns,seq,arbiter_mode,encoder_mode"
    ++ names_from (λ i. snprintf 16 (text ",t" ++ padded 2 i)) 0 motion_token_dim

motion_token_header_columns : commas motion_token_header ≡ 68
unfolding motion_token_header
motion_token_header_columns = refl

module _ (R : Floats) where
  open R use {Float, g7, g6, commas-g7, commas-g6, length-g7, length-g6}

  -- UwbPosition
  pub record UwbPosition : Type 0 where
    pub stamp_ns : ℤ  -- int64_t
    pub x : Float
    pub y : Float
    pub z : Float

  -- MotionTokenState; `token_state` is a std::array of 64.
  pub record MotionTokenState : Type 0 where
    pub seq : ℕ  -- unsigned long long
    pub stamp_ns : ℤ  -- long long
    pub token_state : List Float
    pub arbiter_mode : ℕ  -- octet
    pub encoder_mode : ℕ  -- octet

  unfoldable pub uwb_row : UwbPosition → ℤ → Text
  uwb_row fix recv_ns = snprintf 128 (
      decimal_ℤ recv_ns
      ++ (comma
          ++ (decimal_ℤ fix.stamp_ns
              ++ (comma ++ (g7 fix.x ++ (comma ++ (g7 fix.y ++ (comma ++ g7 fix.z))))))))

  abbrev token_rows : List Float → Text
  token_rows [] = []
  token_rows (v ∷ vs) = snprintf 96 (comma ++ g7 v) ++ token_rows vs

  unfoldable pub motion_token_row : MotionTokenState → ℤ → Text
  motion_token_row m recv_ns =
      snprintf 96 (
        decimal_ℤ recv_ns
        ++ (comma
            ++ (decimal_ℤ m.stamp_ns
                ++ (comma
                    ++ (decimal m.seq
                        ++ (comma
                            ++ (decimal m.arbiter_mode ++ (comma ++ decimal m.encoder_mode))))))))
      ++ token_rows m.token_state

  -- The scalar fields fit their types, and the array has its size.
  pub record IsToken (m : MotionTokenState) : Type 0 where
    pub seq_fits : m.seq < 2 ^ 64
    pub stamp_fits : IsInt64 m.stamp_ns
    pub arbiter_fits : m.arbiter_mode < 2 ^ 8
    pub encoder_fits : m.encoder_mode < 2 ^ 8
    pub token_size : length m.token_state ≡ motion_token_dim

  -- Every row of uwb.csv has as many fields as the header, 5.
  pub uwb_row-columns :
      (fix : UwbPosition) (recv_ns : ℤ)
      → IsInt64 recv_ns
      → IsInt64 fix.stamp_ns
      → commas (uwb_row fix recv_ns) ≡ commas uwb_csv_header
  unfolding uwb_row
  uwb_row-columns fix recv_ns fits stamp =
      ap commas (
        snprintf-lt 128 _ (
          omega (
            arith,
            length-append {0},
            length-decimal_ℤ recv_ns fits,
            length-decimal_ℤ fix.stamp_ns stamp,
            length-g7 fix.x,
            length-g7 fix.y,
            length-g7 fix.z,
          )))
      ∙ omega (
        arith,
        commas-append,
        commas-decimal_ℤ,
        commas-g7 fix.x,
        commas-g7 fix.y,
        commas-g7 fix.z,
      )

  commas-token_rows : (vs : List Float) → commas (token_rows vs) ≡ length vs
  commas-token_rows [] = refl
  commas-token_rows (v ∷ vs) = omega (
    arith,
    commas-append (snprintf 96 (comma ++ g7 v)) (token_rows vs),
    ap commas (snprintf-lt 96 (comma ++ g7 v) (omega (arith, length-g7 v))),
    commas-g7 v,
    commas-token_rows vs,
  )

  -- Every row of motion_token.csv has as many fields as the header, 69.
  pub motion_token_row-columns :
      (m : MotionTokenState) (recv_ns : ℤ)
      → IsInt64 recv_ns
      → IsToken m
      → (commas (motion_token_row m recv_ns) ≡ commas motion_token_header)
        × (commas motion_token_header + 1 ≡ 69)
  unfolding motion_token_row
  motion_token_row-columns m recv_ns fits v = omega (
    arith,
    motion_token_header_columns,
    commas-append,
    commas-decimal,
    commas-decimal_ℤ,
    ap commas (
        snprintf-lt 96
          (decimal_ℤ recv_ns
            ++ (comma
                ++ (decimal_ℤ m.stamp_ns
                    ++ (comma
                        ++ (decimal m.seq
                            ++ (comma
                                ++ (decimal m.arbiter_mode
                                    ++ (comma ++ decimal m.encoder_mode))))))))
          (omega (
            arith,
            length-append {0},
            length-decimal_ℤ recv_ns fits,
            length-decimal_ℤ m.stamp_ns v.stamp_fits,
            length-decimal-u64 m.seq v.seq_fits,
            length-decimal-u8 m.arbiter_mode v.arbiter_fits,
            length-decimal-u8 m.encoder_mode v.encoder_fits,
          ))),
    commas-token_rows m.token_state,
  )
