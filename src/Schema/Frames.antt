-- ===== src/Schema/Frames.antt =====
-- The camera indices (include/realsense_recorder/frame_rows.hpp).
use kist_data_collector.Common.{
  ℕ, ◌+◌, ◌^◌, ◌≤◌, ◌<◌, ◌≡◌, List, ◌++◌, length, arith, length-append, ap, Bool, if◌then◌else◌,
}
use kist_data_collector.Common.Text.{
  Text, text, comma, commas, decimal, decimal_ℤ, commas-append, commas-decimal, commas-decimal_ℤ,
}
use kist_data_collector.Common.Int.{ℤ}
use kist_data_collector.Schema.{
  Floats, snprintf, snprintf-lt, IsInt64, length-decimal_ℤ, length-decimal-u8, length-decimal-u64,
}
use kist_data_collector.Blob.Sink.{index_line}

abbrev pub color_idx_header : Text
color_idx_header = text "seq,stamp_ns,recv_ns,width,height,is_keyframe,offset,size"

abbrev pub depth_idx_header : Text
depth_idx_header = text "seq,stamp_ns,recv_ns,width,height,depth_scale,fx,fy,cx,cy,offset,size"

-- H264ColorFrame
pub record ColorFrame : Type 0 where
  pub width : ℤ  -- int
  pub height : ℤ  -- int
  pub sequence : ℕ  -- uint64_t
  pub stamp_ns : ℤ  -- int64_t
  pub is_keyframe : Bool
  pub frame_id : Text
  pub payload : List ℕ

unfoldable pub color_row : ColorFrame → ℤ → Text
color_row f recv_ns = snprintf 160 (
    decimal f.sequence
    ++ (comma
        ++ (decimal_ℤ f.stamp_ns
            ++ (comma
                ++ (decimal_ℤ recv_ns
                    ++ (comma
                        ++ (decimal_ℤ f.width
                            ++ (comma
                                ++ (decimal_ℤ f.height
                                    ++ (comma ++ decimal (if f.is_keyframe then 1 else 0)))))))))))

-- The scalar fields fit 64 bits.
pub record IsColorFrame (f : ColorFrame) : Type 0 where
  pub sequence_fits : f.sequence < 2 ^ 64
  pub stamp_fits : IsInt64 f.stamp_ns
  pub width_fits : IsInt64 f.width
  pub height_fits : IsInt64 f.height

flag_length : (b : Bool) → length (decimal (if b then 1 else 0)) ≤ 3
flag_length b = length-decimal-u8 (if b then 1 else 0) (ground arith)

-- The row before it is cut to its buffer.
abbrev pub color_text : ColorFrame → ℤ → Text
color_text f recv_ns =
    decimal f.sequence
    ++ (comma
        ++ (decimal_ℤ f.stamp_ns
            ++ (comma
                ++ (decimal_ℤ recv_ns
                    ++ (comma
                        ++ (decimal_ℤ f.width
                            ++ (comma
                                ++ (decimal_ℤ f.height
                                    ++ (comma ++ decimal (if f.is_keyframe then 1 else 0))))))))))

-- The buffer cuts nothing off.
pub color_row-whole :
    (f : ColorFrame) (recv_ns : ℤ)
    → IsInt64 recv_ns
    → IsColorFrame f
    → color_row f recv_ns ≡ color_text f recv_ns
unfolding color_row
color_row-whole f recv_ns fits v = snprintf-lt 160 (color_text f recv_ns) (
    omega (
      arith,
      length-append {0},
      length-decimal-u64 f.sequence v.sequence_fits,
      length-decimal_ℤ f.stamp_ns v.stamp_fits,
      length-decimal_ℤ recv_ns fits,
      length-decimal_ℤ f.width v.width_fits,
      length-decimal_ℤ f.height v.height_fits,
      flag_length f.is_keyframe,
    ))

commas-color_text : (f : ColorFrame) (recv_ns : ℤ) → commas (color_text f recv_ns) ≡ 5
commas-color_text f recv_ns = omega (arith, commas-append, commas-decimal, commas-decimal_ℤ)

commas-index_line :
    (prefix : Text) (offset size : ℕ) → commas (index_line prefix offset size) ≡ commas prefix + 2
commas-index_line prefix offset size = omega (arith, commas-append, commas-decimal)

-- Every line that BlobRecorder writes to color.idx.csv, its offset and size included, has as many
-- fields as the header, 8.
pub color_row-columns :
    (f : ColorFrame) (recv_ns : ℤ) (offset size : ℕ)
    → IsInt64 recv_ns
    → IsColorFrame f
    → commas (index_line (color_row f recv_ns) offset size) ≡ commas color_idx_header
color_row-columns f recv_ns offset size fits v = omega (
  arith,
  commas-index_line (color_row f recv_ns) offset size,
  ap commas (color_row-whole f recv_ns fits v),
  commas-color_text f recv_ns,
)

module _ (R : Floats) where
  open R use {Float, g6, commas-g6, length-g6}

  -- RvlDepthFrame
  pub record DepthFrame : Type 0 where
    pub width : ℤ  -- int
    pub height : ℤ  -- int
    pub sequence : ℕ  -- uint64_t
    pub stamp_ns : ℤ  -- int64_t
    pub depth_scale : Float
    pub fx : Float
    pub fy : Float
    pub cx : Float
    pub cy : Float
    pub frame_id : Text
    pub payload : List ℕ

  unfoldable pub depth_row : DepthFrame → ℤ → Text
  depth_row f recv_ns = snprintf 200 (
      decimal f.sequence
      ++ (comma
          ++ (decimal_ℤ f.stamp_ns
              ++ (comma
                  ++ (decimal_ℤ recv_ns
                      ++ (comma
                          ++ (decimal_ℤ f.width
                              ++ (comma
                                  ++ (decimal_ℤ f.height
                                      ++ (comma
                                          ++ (g6 f.depth_scale
                                              ++ (comma
                                                  ++ (g6 f.fx
                                                      ++ (comma
                                                          ++ (g6 f.fy
                                                            ++ (comma
                                                            ++ (g6 f.cx
                                                            ++ (comma ++ g6 f.cy))))))))))))))))))

  -- The scalar fields fit 64 bits.
  pub record IsDepthFrame (f : DepthFrame) : Type 0 where
    pub sequence_fits : f.sequence < 2 ^ 64
    pub stamp_fits : IsInt64 f.stamp_ns
    pub width_fits : IsInt64 f.width
    pub height_fits : IsInt64 f.height

  -- The row before it is cut to its buffer.
  abbrev pub depth_text : DepthFrame → ℤ → Text
  depth_text f recv_ns =
      decimal f.sequence
      ++ (comma
          ++ (decimal_ℤ f.stamp_ns
              ++ (comma
                  ++ (decimal_ℤ recv_ns
                      ++ (comma
                          ++ (decimal_ℤ f.width
                              ++ (comma
                                  ++ (decimal_ℤ f.height
                                      ++ (comma
                                          ++ (g6 f.depth_scale
                                              ++ (comma
                                                  ++ (g6 f.fx
                                                      ++ (comma
                                                          ++ (g6 f.fy
                                                            ++ (comma
                                                            ++ (g6 f.cx
                                                            ++ (comma ++ g6 f.cy)))))))))))))))))

  -- The buffer cuts nothing off.
  pub depth_row-whole :
      (f : DepthFrame) (recv_ns : ℤ)
      → IsInt64 recv_ns
      → IsDepthFrame f
      → depth_row f recv_ns ≡ depth_text f recv_ns
  unfolding depth_row
  depth_row-whole f recv_ns fits v = snprintf-lt 200 (depth_text f recv_ns) (
      omega (
        arith,
        length-append {0},
        length-decimal-u64 f.sequence v.sequence_fits,
        length-decimal_ℤ f.stamp_ns v.stamp_fits,
        length-decimal_ℤ recv_ns fits,
        length-decimal_ℤ f.width v.width_fits,
        length-decimal_ℤ f.height v.height_fits,
        length-g6 f.depth_scale,
        length-g6 f.fx,
        length-g6 f.fy,
        length-g6 f.cx,
        length-g6 f.cy,
      ))

  -- Every line that BlobRecorder writes to depth.idx.csv, its offset and size included, has as many
  -- fields as the header, 12.
  pub depth_row-columns :
      (f : DepthFrame) (recv_ns : ℤ) (offset size : ℕ)
      → IsInt64 recv_ns
      → IsDepthFrame f
      → commas (index_line (depth_row f recv_ns) offset size) ≡ commas depth_idx_header
  depth_row-columns f recv_ns offset size fits v = omega (
    arith,
    commas-index_line (depth_row f recv_ns) offset size,
    ap commas (depth_row-whole f recv_ns fits v),
    commas-append,
    commas-decimal,
    commas-decimal_ℤ,
    commas-g6 f.depth_scale,
    commas-g6 f.fx,
    commas-g6 f.fy,
    commas-g6 f.cx,
    commas-g6 f.cy,
  )
