-- ===== src/Export/Reading.antt =====
-- The loops over std::getline in the four read_index functions of src/export, on the index file that
-- a BlobRecorder (include/common/blob_recorder.hpp) leaves.
use kist_data_collector.Common.{
  ℕ, ◌+◌, ◌≡◌, refl, ap, ◌∙◌, List, [], ◌∷◌, ◌++◌, Option, none, some, append_assoc, length, drop,
  u64,
}
use kist_data_collector.Common.Text.{Text, comma, newline, decimal}
use kist_data_collector.Common.Int.{ℤ}
use kist_data_collector.Common.Lacks.{Lacks, Lacks-append, Lacks-decimal}
use kist_data_collector.Common.Scan.{lines, lines-line}
use kist_data_collector.Blob.{FrameType}
use kist_data_collector.Blob.Index.{Frames, index_text}
use kist_data_collector.Export.Line.{row_line}

module _ {L X : Type 0} where
  -- A line that sscanf does not read is passed over.
  abbrev pub add_line : (L → X → X) → Option L → X → X
  add_line add none x = x
  add_line add (some r) x = add r x

  -- `while (std::getline(idx, line))`
  abbrev pub each_line : (Text → Option L) → (L → X → X) → List Text → X → X
  each_line scan add [] x = x
  each_line scan add (l ∷ ls) x = each_line scan add ls (add_line add (scan l) x)

  -- The header is read first and dropped. A file that cannot be opened has no lines.
  unfoldable pub read_lines : (Text → Option L) → (L → X → X) → Text → X → X
  unfolding lines
  read_lines scan add idx x = each_line scan add (drop 1 (lines idx)) x

  -- The rows one after the other.
  abbrev pub each_row : (L → X → X) → List L → X → X
  each_row add [] x = x
  each_row add (r ∷ rs) x = each_row add rs (add r x)

-- What reading needs of a stream's rows: each is one line, and is read as `line` says.
pub record Readable (F : FrameType) (L : Type 0) : Type 1 where
  pub scan : Text → Option L
  pub line : F.Frame → ℤ → ℕ → ℕ → L
  pub Valid : F.Frame → ℤ → Type 0
  pub row-Lacks : (f : F.Frame) (t : ℤ) → Valid f t → Lacks 10 (F.row f t)
  pub scan-row :
      (f : F.Frame) (t : ℤ) (offset size : ℕ)
      → Valid f t
      → scan (row_line (F.row f t) offset size) ≡ some (line f t offset size)

module _ {F : FrameType} {L : Type 0} (P : Readable F L) where
  abbrev pub AllValid : Frames F → Type 0
  AllValid [] = Unit {0}
  AllValid ((f, t) ∷ xs) = P.Valid f t × AllValid xs

  -- The lines of the frames, from a given offset on.
  abbrev pub frame_lines : ℕ → Frames F → List L
  frame_lines offset [] = []
  frame_lines offset ((f, t) ∷ xs) =
      P.line f t offset (length (F.payload f))
      ∷ frame_lines (u64 (offset + length (F.payload f))) xs

  row_line-Lacks :
      (f : F.Frame) (t : ℤ) (offset size : ℕ)
      → P.Valid f t
      → Lacks 10 (row_line (F.row f t) offset size)
  row_line-Lacks f t offset size v =
      Lacks-append 10 (F.row f t ++ comma ++ decimal offset ++ comma) (decimal size)
        (Lacks-append 10 (F.row f t ++ comma ++ decimal offset) comma
          (Lacks-append 10 (F.row f t ++ comma) (decimal offset)
            (Lacks-append 10 (F.row f t) comma (P.row-Lacks f t v) (refl, tt))
            (Lacks-decimal 10 offset refl))
          (refl, tt))
        (Lacks-decimal 10 size refl)

  each_line-index_text :
      {X : Type 0} (add : L → X → X) (offset : ℕ) (xs : Frames F) (x : X)
      → AllValid xs
      → each_line P.scan add (lines (index_text F offset xs)) x
        ≡ each_row add (frame_lines offset xs) x
  unfolding lines
  each_line-index_text add offset [] x v = refl
  each_line-index_text add offset ((f, t) ∷ xs) x (v, vs) =
      ap (λ b. each_line P.scan add (lines b) x) (append_assoc written newline rest)
      ∙ ap (λ ls. each_line P.scan add ls x)
          (lines-line written rest (row_line-Lacks f t offset size v))
      ∙ ap (λ o. each_line P.scan add (lines rest) (add_line add o x))
          (P.scan-row f t offset size v)
      ∙ each_line-index_text add (u64 (offset + size)) xs (add (P.line f t offset size) x) vs
    where
      size : ℕ
      size = length (F.payload f)

      written : Text
      written = row_line (F.row f t) offset size

      rest : Text
      rest = index_text F (u64 (offset + size)) xs

  -- Reading the index file of a recording adds the frames' rows in order, and nothing else.
  pub read_lines-index_text :
      {X : Type 0} (add : L → X → X) (header : Text) (xs : Frames F) (x : X)
      → Lacks 10 header
      → AllValid xs
      → read_lines P.scan add ((header ++ newline) ++ index_text F 0 xs) x
        ≡ each_row add (frame_lines 0 xs) x
  unfolding read_lines
  read_lines-index_text add header xs x h v =
      ap (λ b. each_line P.scan add (drop 1 (lines b)) x)
        (append_assoc header newline (index_text F 0 xs))
      ∙ ap (λ ls. each_line P.scan add (drop 1 ls) x) (lines-line header (index_text F 0 xs) h)
      ∙ each_line-index_text add 0 xs x v
