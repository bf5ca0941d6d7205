-- ===== src/FrameMaps.antt =====
-- include/realsense_recorder/frame_maps.hpp: a message off the wire to the frame that is recorded. The
-- classes of the messages are generated by the build from an IDL file of another repository, so that
-- what the mappings read of a message is an argument.
use kist_data_collector.Common.{
  ℕ, ◌-◌, ◌%◌, ◌^◌, ◌<◌, ◌≡◌, refl, List, Bool, ltb, if◌then◌else◌, arith,
}
use kist_data_collector.Common.Text.{Text}
use kist_data_collector.Common.Int.{ℤ, pos, negsuc}
use kist_data_collector.Schema.{Floats, IsInt64}
use kist_data_collector.Schema.Frames.{ColorFrame, DepthFrame, IsColorFrame, IsDepthFrame}

abbrev pub int_mod : ℕ
int_mod = 2 ^ 32

-- The residue modulo 2^32.
abbrev pub residue : ℤ → ℕ
residue (pos n) = n % int_mod
residue (negsuc n) = int_mod - 1 - n % int_mod

-- `int(x)` of an integer of any type: the value of int that is congruent to it.
unfoldable pub to_int : ℤ → ℤ
to_int x = if ltb (residue x) (2 ^ 31) then pos (residue x) else negsuc (int_mod - 1 - residue x)

-- kist_msgs::CompressedColorFrame: its accessors, whose values are integers of types given there.
pub record ColorMessages : Type 1 where
  pub Msg : Type 0
  pub width : Msg → ℤ
  pub height : Msg → ℤ
  pub seq : Msg → ℕ
  pub stamp_ns : Msg → ℤ
  pub is_keyframe : Msg → Bool
  pub frame_id : Msg → Text
  pub payload : Msg → List ℕ

unfoldable pub map_color : (M : ColorMessages) → M.Msg → ColorFrame
unfolding to_int
map_color M msg = record {
  width = to_int (M.width msg);
  height = to_int (M.height msg);
  sequence = M.seq msg;
  stamp_ns = M.stamp_ns msg;
  is_keyframe = M.is_keyframe msg;
  frame_id = M.frame_id msg;
  payload = M.payload msg;
}

-- kist_msgs::CompressedDepthFrame.
pub record DepthMessages (R : Floats) : Type 1 where
  pub Msg : Type 0
  pub width : Msg → ℤ
  pub height : Msg → ℤ
  pub seq : Msg → ℕ
  pub stamp_ns : Msg → ℤ
  pub depth_scale : Msg → R.Float
  pub fx : Msg → R.Float
  pub fy : Msg → R.Float
  pub cx : Msg → R.Float
  pub cy : Msg → R.Float
  pub frame_id : Msg → Text
  pub payload : Msg → List ℕ

unfoldable pub map_depth : (R : Floats) (M : DepthMessages R) → M.Msg → DepthFrame R
unfolding to_int
map_depth R M msg = record {
  width = to_int (M.width msg);
  height = to_int (M.height msg);
  sequence = M.seq msg;
  stamp_ns = M.stamp_ns msg;
  depth_scale = M.depth_scale msg;
  fx = M.fx msg;
  fy = M.fy msg;
  cx = M.cx msg;
  cy = M.cy msg;
  frame_id = M.frame_id msg;
  payload = M.payload msg;
}

residue-lt : (x : ℤ) → residue x < int_mod
residue-lt (pos n) = omega arith
residue-lt (negsuc n) = omega arith

-- The result fits an int, so also 64 bits.
pub to_int-IsInt64 : (x : ℤ) → IsInt64 (to_int x)
unfolding to_int
to_int-IsInt64 x = ground (arith, residue-lt x)

module _ (M : ColorMessages) where
  -- The sequence number is a uint64_t and the time stamp an int64_t.
  pub record IsColorMessage (msg : M.Msg) : Type 0 where
    pub seq_fits : M.seq msg < 2 ^ 64
    pub stamp_fits : IsInt64 (M.stamp_ns msg)

  -- Whatever width and height a message claims, the frame's fields fit their types.
  pub map_color-IsColorFrame : (msg : M.Msg) → IsColorMessage msg → IsColorFrame (map_color M msg)
  unfolding map_color
  map_color-IsColorFrame msg v = record {
    sequence_fits = v.seq_fits;
    stamp_fits = v.stamp_fits;
    width_fits = to_int-IsInt64 (M.width msg);
    height_fits = to_int-IsInt64 (M.height msg);
  }

module _ (R : Floats) (M : DepthMessages R) where
  pub record IsDepthMessage (msg : M.Msg) : Type 0 where
    pub seq_fits : M.seq msg < 2 ^ 64
    pub stamp_fits : IsInt64 (M.stamp_ns msg)

  pub map_depth-IsDepthFrame :
      (msg : M.Msg) → IsDepthMessage msg → IsDepthFrame R (map_depth R M msg)
  unfolding map_depth
  map_depth-IsDepthFrame msg v = record {
    sequence_fits = v.seq_fits;
    stamp_fits = v.stamp_fits;
    width_fits = to_int-IsInt64 (M.width msg);
    height_fits = to_int-IsInt64 (M.height msg);
  }

wrapped : to_int (pos 4294966656) ≡ negsuc 639
unfolding to_int
wrapped = refl
