-- ===== src/Row/Contents.antt =====
-- The CSV file of a RowRecorder under every interleaving (include/common/row_recorder.hpp).
use kist_data_collector.Common.{
  ℕ, arith, length, ◌≡◌, sym, ap, ◌∙◌, List, [], ◌∷◌, ◌++◌, append-nil, append_assoc, subst,
}
use kist_data_collector.Common.Text.{Text, newline}
use kist_data_collector.Common.Int.{ℤ}
use kist_data_collector.Stream.{OStream, Fate, write}
use kist_data_collector.Stream.File.{File, File-write, File-flush, File-close}
use kist_data_collector.Pipeline.{Recorder}
use kist_data_collector.Pipeline.Threads.{System, Reach, launched}
use kist_data_collector.Pipeline.Output.{Describes, Reach-Holds}
use kist_data_collector.Row.{RecordType, RowOut, write_row, row_writer, count_row}

module _ (T : RecordType) where
  abbrev pub Records : Type 0
  Records = List (T.Record × ℤ)

  -- A line for each record.
  abbrev pub csv_text : Records → Text
  csv_text [] = []
  csv_text ((m, t) ∷ xs) = (T.row m t ++ newline) ++ csv_text xs

  csv_text-snoc :
      (xs : Records) (m : T.Record) (t : ℤ)
      → csv_text (xs ++ (m, t) ∷ []) ≡ csv_text xs ++ (T.row m t ++ newline)
  csv_text-snoc [] m t = append-nil _
  csv_text-snoc ((n, u) ∷ xs) m t =
      ap (◌++◌ (T.row n u ++ newline)) (csv_text-snoc xs m t)
      ∙ sym (append_assoc (T.row n u ++ newline) (csv_text xs) (T.row m t ++ newline))

  count_row-file : (size : ℕ) (file : OStream) (o : RowOut) → (count_row size file o).file ≡ file
  unfolding count_row
  count_row-file size file o = ground arith

  module _ (header : Text) where
    abbrev pub CsvFile : Records → RowOut → Type 0
    CsvFile p o = File (header ++ csv_text p) o.file

    write_row-CsvFile :
        (c : Fate) (p : Records) (x : T.Record × ℤ) (o : RowOut)
        → CsvFile p o
        → CsvFile (p ++ x ∷ []) (write_row T c x o)
    unfolding write_row
    write_row-CsvFile c p (m, t) o v =
        subst (File (header ++ csv_text (p ++ (m, t) ∷ [])))
          (sym (count_row-file (length (T.row m t)) (write c line o.file) o))
          (subst (λ b. File b (write c line o.file))
            (append_assoc header (csv_text p) line ∙ ap (◌++◌ header) (sym (csv_text-snoc p m t)))
            (File-write c _ line o.file v))
      where
        line : Text
        line = T.row m t ++ newline

    CsvFile-Describes : Describes (row_writer T) CsvFile
    CsvFile-Describes = record {
      on_write = write_row-CsvFile;
      on_flush = λ c p o v. File-flush c _ _ v;
      on_close = λ c p o v. File-close c _ _ v;
    }

    pub Reach-CsvFile :
        {r : Recorder (row_writer T)} {a p : Records} {s : System (row_writer T)}
        → CsvFile [] r.out
        → Reach (launched r) a p s
        → CsvFile p s.rec.out
    Reach-CsvFile = Reach-Holds CsvFile CsvFile-Describes
