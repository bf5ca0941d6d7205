-- ===== src/Export/Line.antt =====
-- A line of color.idx.csv or depth.idx.csv, as the sscanf calls of src/export read it.
use kist_data_collector.Common.{
  ℕ, ◌≡◌, refl, [], ◌∷◌, ◌++◌, Option, none, some, ◌==◌, if◌then◌else◌, append_assoc, append-nil,
}
use kist_data_collector.Common.Text.{Text, comma, decimal, decimal_ℤ}
use kist_data_collector.Common.Int.{ℤ, pos}
use kist_data_collector.Common.Lacks.{Lacks, Lacks-append}
use kist_data_collector.Common.Scan.{
  scan_unsigned, scan_signed, scan_unsigned-decimal, scan_signed-decimal_ℤ,
}
use kist_data_collector.Outcome.{◌>>=◌}
use kist_data_collector.Schema.{IsInt64}
use kist_data_collector.Schema.Frames.{
  ColorFrame, IsColorFrame, color_row, color_text, color_row-whole,
}

-- What a comma in a format matches.
unfoldable pub literal {ℓ} : {A : Type ℓ} → A × Text → Option (A × Text)
literal (a, []) = none
literal (a, c ∷ s) = if c == b',' then some (a, s) else none

-- A conversion and the comma behind it.
abbrev pub field {ℓ} : {A : Type ℓ} → (Text → Option (A × Text)) → Text → Option (A × Text)
field scan s = scan s >>= literal

-- The local variables of read_index in export_color_to_mp4.cpp and export_color_to_images.cpp.
pub record ColorLine : Type 0 where
  pub seq : ℕ
  pub stamp_ns : ℤ
  pub recv_ns : ℤ
  pub w : ℤ
  pub h : ℤ
  pub key : ℤ
  pub offset : ℕ
  pub size : ℕ

-- sscanf with "%llu,%lld,%lld,%d,%d,%d,%llu,%llu"; `none` when it does not return 8.
unfoldable pub scan_color_line : Text → Option ColorLine
scan_color_line line = do
  seq ← field scan_unsigned line
  stamp_ns ← field scan_signed seq.1
  recv_ns ← field scan_signed stamp_ns.1
  w ← field scan_signed recv_ns.1
  h ← field scan_signed w.1
  key ← field scan_signed h.1
  offset ← field scan_unsigned key.1
  size ← scan_unsigned offset.1
  some (record {
    seq = seq.0;
    stamp_ns = stamp_ns.0;
    recv_ns = recv_ns.0;
    w = w.0;
    h = h.0;
    key = key.0;
    offset = offset.0;
    size = size.0;
  })

pub field-decimal :
    (n : ℕ) (rest : Text) → field scan_unsigned (decimal n ++ b',' ∷ rest) ≡ some (n, rest)
unfolding literal
field-decimal n rest = rw (scan_unsigned-decimal n (b',' ∷ rest) refl) refl

pub field-decimal_ℤ :
    (n : ℤ) (rest : Text) → field scan_signed (decimal_ℤ n ++ b',' ∷ rest) ≡ some (n, rest)
unfolding literal
field-decimal_ℤ n rest = rw (scan_signed-decimal_ℤ n (b',' ∷ rest) refl) refl

pub field-flag :
    (n : ℕ) (rest : Text) → field scan_signed (decimal n ++ b',' ∷ rest) ≡ some (pos n, rest)
unfolding decimal_ℤ
field-flag n rest = field-decimal_ℤ (pos n) rest

-- The line that BlobRecorder writes, less its end.
abbrev pub row_line : Text → ℕ → ℕ → Text
row_line row offset size = row ++ comma ++ decimal offset ++ comma ++ decimal size

-- What a frame's line is read as.
abbrev pub color_line : ColorFrame → ℤ → ℕ → ℕ → ColorLine
color_line f t offset size = record {
  seq = f.sequence;
  stamp_ns = f.stamp_ns;
  recv_ns = t;
  w = f.width;
  h = f.height;
  key = pos (if f.is_keyframe then 1 else 0);
  offset = offset;
  size = size;
}

pub scan-color_row :
    (f : ColorFrame) (t : ℤ) (offset size : ℕ)
    → IsInt64 t
    → IsColorFrame f
    → scan_color_line (row_line (color_row f t) offset size) ≡ some (color_line f t offset size)
unfolding scan_color_line
scan-color_row f t offset size fits v =
    rw (color_row-whole f t fits v, regroup)
      (rw
        (
          field-decimal f.sequence _,
          field-decimal_ℤ f.stamp_ns _,
          field-decimal_ℤ t _,
          field-decimal_ℤ f.width _,
          field-decimal_ℤ f.height _,
          field-flag (if f.is_keyframe then 1 else 0) _,
          field-decimal offset _,
          scan_unsigned-decimal size [] tt,
        )
        refl)
  where
    regroup :
        row_line (color_text f t) offset size
        ≡ decimal f.sequence
          ++ (comma
              ++ (decimal_ℤ f.stamp_ns
                  ++ (comma
                      ++ (decimal_ℤ t
                          ++ (comma
                              ++ (decimal_ℤ f.width
                                  ++ (comma
                                      ++ (decimal_ℤ f.height
                                          ++ (comma
                                              ++ (decimal (if f.is_keyframe then 1 else 0)
                                                  ++ (comma
                                                      ++ (decimal offset
                                                          ++ (comma
                                                            ++ (decimal size ++ []))))))))))))))
    regroup = simp (append_assoc, append-nil, append-nil)

-- A column and the comma behind it hold no end of a line.
pub next-Lacks : (s rest : Text) → Lacks 10 s → Lacks 10 rest → Lacks 10 (s ++ (comma ++ rest))
next-Lacks s rest h k = Lacks-append 10 s (comma ++ rest) h (refl, k)
