-- ===== src/Export/DepthLine.antt =====
-- A line of depth.idx.csv, in the two layouts that src/export/export_depth_to_mp4.cpp and
-- export_depth_to_images.cpp read.
use kist_data_collector.Common.{
  ap, ℕ, ◌≤◌, ◌≡◌, refl, [], ◌∷◌, ◌++◌, Option, none, some, append_assoc, append-nil,
}
use kist_data_collector.Common.Text.{Text, comma, commas, decimal, decimal_ℤ}
use kist_data_collector.Common.Int.{ℤ}
use kist_data_collector.Common.Lacks.{Lacks}
use kist_data_collector.Common.Scan.{scan_unsigned, scan_signed, scan_unsigned-decimal}
use kist_data_collector.Outcome.{◌>>=◌}
use kist_data_collector.Schema.{Floats, IsInt64}
use kist_data_collector.Schema.Frames.{
  DepthFrame, IsDepthFrame, depth_row, depth_text, depth_row-whole,
}
use kist_data_collector.Export.Line.{literal, field, field-decimal, field-decimal_ℤ, row_line}

-- What `%f` reads. The laws are those of sscanf on what `%.6g` prints: it is read up to the comma
-- behind it as the float that those six digits stand for, no digit ends a line, and what a
-- conversion leaves is an end of what it was given.
pub record FloatScan (R : Floats) : Type 0 where
  pub scan_float : Text → Option (R.Float × Text)
  pub six_digits : R.Float → R.Float
  pub scan-g6 :
      (x : R.Float) (rest : Text)
      → scan_float (R.g6 x ++ b',' ∷ rest) ≡ some (six_digits x, b',' ∷ rest)
  pub Lacks-g6 : (x : R.Float) → Lacks 10 (R.g6 x)
  pub scan_float-commas :
      (s : Text) {x : R.Float} {rest : Text}
      → scan_float s ≡ some (x, rest)
      → commas rest ≤ commas s

-- The `else if`.
abbrev pub or_else : {A : Type 0} → Option A → Option A → Option A
or_else none o = o
or_else (some a) o = some a

module _ (R : Floats) (S : FloatScan R) where
  open R use {Float, g6, commas-g6}
  open S use {scan_float, six_digits, scan-g6, scan_float-commas}

  -- The local variables of read_index that the rows are made of.
  pub record DepthLine : Type 0 where
    pub seq : ℕ
    pub recv_ns : ℤ
    pub w : ℤ
    pub h : ℤ
    pub scale : Float
    pub offset : ℕ
    pub size : ℕ

  -- sscanf with "%llu,%lld,%lld,%d,%d,%f,%f,%f,%f,%f,%llu,%llu"; `none` when it does not return 12.
  unfoldable pub scan_depth_line : Text → Option DepthLine
  scan_depth_line line = do
    seq ← field scan_unsigned line
    stamp_ns ← field scan_signed seq.1
    recv_ns ← field scan_signed stamp_ns.1
    w ← field scan_signed recv_ns.1
    h ← field scan_signed w.1
    scale ← field scan_float h.1
    fx ← field scan_float scale.1
    fy ← field scan_float fx.1
    cx ← field scan_float fy.1
    cy ← field scan_float cx.1
    offset ← field scan_unsigned cy.1
    size ← scan_unsigned offset.1
    some (record {
      seq = seq.0;
      recv_ns = recv_ns.0;
      w = w.0;
      h = h.0;
      scale = scale.0;
      offset = offset.0;
      size = size.0;
    })

  -- sscanf with "%llu,%lld,%lld,%d,%d,%f,%llu,%llu"; `none` when it does not return 8.
  unfoldable pub scan_old_line : Text → Option DepthLine
  scan_old_line line = do
    seq ← field scan_unsigned line
    stamp_ns ← field scan_signed seq.1
    recv_ns ← field scan_signed stamp_ns.1
    w ← field scan_signed recv_ns.1
    h ← field scan_signed w.1
    scale ← field scan_float h.1
    offset ← field scan_unsigned scale.1
    size ← scan_unsigned offset.1
    some (record {
      seq = seq.0;
      recv_ns = recv_ns.0;
      w = w.0;
      h = h.0;
      scale = scale.0;
      offset = offset.0;
      size = size.0;
    })

  -- The body of read_index's loop.
  unfoldable pub scan_either : Text → Option DepthLine
  scan_either line = or_else (scan_depth_line line) (scan_old_line line)

  -- What a frame's line is read as.
  abbrev pub depth_line : DepthFrame R → ℤ → ℕ → ℕ → DepthLine
  depth_line f t offset size = record {
    seq = f.sequence;
    recv_ns = t;
    w = f.width;
    h = f.height;
    scale = six_digits f.depth_scale;
    offset = offset;
    size = size;
  }

  field-g6 :
      (x : Float) (rest : Text) → field scan_float (g6 x ++ b',' ∷ rest) ≡ some (six_digits x, rest)
  unfolding literal
  field-g6 x rest = rw (scan-g6 x rest) refl

  scan-depth_row :
      (f : DepthFrame R) (t : ℤ) (offset size : ℕ)
      → IsInt64 t
      → IsDepthFrame R f
      → scan_depth_line (row_line (depth_row R f t) offset size) ≡ some (depth_line f t offset size)
  unfolding scan_depth_line
  scan-depth_row f t offset size fits v =
      rw (depth_row-whole R f t fits v, regroup)
        (rw
          (
            field-decimal f.sequence _,
            field-decimal_ℤ f.stamp_ns _,
            field-decimal_ℤ t _,
            field-decimal_ℤ f.width _,
            field-decimal_ℤ f.height _,
            field-g6 f.depth_scale _,
            field-g6 f.fx _,
            field-g6 f.fy _,
            field-g6 f.cx _,
            field-g6 f.cy _,
            field-decimal offset _,
            scan_unsigned-decimal size [] tt,
          )
          refl)
    where
      regroup :
          row_line (depth_text R f t) offset size
          ≡ decimal f.sequence
            ++ (comma
                ++ (decimal_ℤ f.stamp_ns
                    ++ (comma
                        ++ (decimal_ℤ t
                            ++ (comma
                                ++ (decimal_ℤ f.width
                                    ++ (comma
                                        ++ (decimal_ℤ f.height
                                            ++ (comma
                                                ++ (g6 f.depth_scale
                                                    ++ (comma
                                                        ++ (g6 f.fx
                                                            ++ (comma
                                                            ++ (g6 f.fy
                                                            ++ (comma
                                                            ++ (g6 f.cx
                                                            ++ (comma
                                                            ++ (g6 f.cy
                                                            ++ (comma
                                                            ++ (decimal offset
                                                            ++ (comma
                                                            ++ (decimal size
                                                            ++ []))))))))))))))))))))))
      regroup = simp (append_assoc, append-nil)

  pub scan_either-depth_row :
      (f : DepthFrame R) (t : ℤ) (offset size : ℕ)
      → IsInt64 t
      → IsDepthFrame R f
      → scan_either (row_line (depth_row R f t) offset size) ≡ some (depth_line f t offset size)
  unfolding scan_either
  scan_either-depth_row f t offset size fits v =
      ap (λ o. or_else o (scan_old_line (row_line (depth_row R f t) offset size)))
        (scan-depth_row f t offset size fits v)

  -- The line of an older recording, without the four intrinsics.
  abbrev pub old_line : DepthFrame R → ℤ → ℕ → ℕ → Text
  old_line f t offset size =
      decimal f.sequence
      ++ (comma
          ++ (decimal_ℤ f.stamp_ns
              ++ (comma
                  ++ (decimal_ℤ t
                      ++ (comma
                          ++ (decimal_ℤ f.width
                              ++ (comma
                                  ++ (decimal_ℤ f.height
                                      ++ (comma
                                          ++ (g6 f.depth_scale
                                              ++ (comma
                                                  ++ (decimal offset
                                                      ++ (comma ++ (decimal size ++ []))))))))))))))

  pub scan-old_line :
      (f : DepthFrame R) (t : ℤ) (offset size : ℕ)
      → scan_old_line (old_line f t offset size) ≡ some (depth_line f t offset size)
  unfolding scan_old_line
  scan-old_line f t offset size =
      rw
        (
          field-decimal f.sequence _,
          field-decimal_ℤ f.stamp_ns _,
          field-decimal_ℤ t _,
          field-decimal_ℤ f.width _,
          field-decimal_ℤ f.height _,
          field-g6 f.depth_scale _,
          field-decimal offset _,
          scan_unsigned-decimal size [] tt,
        )
        refl
