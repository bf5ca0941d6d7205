-- ===== src/Row/Losses.antt =====
-- What a RowRecorder has written and counted when it is closed (include/common/row_recorder.hpp).
use kist_data_collector.Common.{
  ℕ, ◌+◌, ◌≡◌, refl, sym, ap, ◌∙◌, [], ◌++◌, append-nil, true, arith, subst, u64, some,
}
use kist_data_collector.Common.Text.{Text, newline}
use kist_data_collector.Common.Int.{ℤ}
use kist_data_collector.RecordQueue
use kist_data_collector.Stream.{Fate, write, close_stream, open_stream}
use kist_data_collector.Stream.File.{File, File-write, File-open_stream, File-disk}
use kist_data_collector.Pipeline.{Recorder}
use kist_data_collector.Pipeline.Threads.{System, Reach, launched, gone, idle}
use kist_data_collector.Pipeline.Order.{Reach-complete}
use kist_data_collector.Pipeline.Accounting.{Counts, Reach-settled}
use kist_data_collector.Row.{RecordType, RowOut, write_row, row_writer, open_rows, fresh_rows}
use kist_data_collector.Row.Contents.{Records, csv_text, CsvFile, Reach-CsvFile}

pub row_handled-write :
    (T : RecordType) (c : Fate) (x : T.Record × ℤ) (o : RowOut)
    → u64 ((write_row T c x o).written + (write_row T c x o).write_errors)
      ≡ u64 (o.written + o.write_errors + 1)
unfolding write_row
row_handled-write T c (m, t) o = ground arith

abbrev pub row_counts : (T : RecordType) → Counts (row_writer T)
row_counts T = record {
  handled = λ o. o.written + o.write_errors;
  handled-write = row_handled-write T;
  handled-flush = λ c o. refl;
  handled-close = λ c o. refl;
}

-- What a successful `open` leaves: an empty file but for the header, unless it was still open, an empty queue, a thread; and
-- the counters that were there before.
pub record Opened (T : RecordType) (fate : Fate) (header : Text) (r r' : Recorder (row_writer T))
    : Type 0 where
  pub out :
      r'.out ≡ record r.out { file = write fate (header ++ newline) (open_stream true r.out.file) }
  pub empty : r'.queue.queue ≡ []
  pub received : r'.received ≡ r.received
  pub dropped : r'.dropped ≡ r.dropped

module _ (T : RecordType) (fate : Fate) (header : Text) (capacity : ℕ) where
  pub open_rows-Opened :
      (r : Recorder (row_writer T)) {r' : Recorder (row_writer T)}
      → open_rows T true fate header capacity r ≡ some (r', true)
      → Opened T fate header r r'
  unfolding open_rows RecordQueue.open_queue
  open_rows-Opened r e = ground arith

  Opened-CsvFile :
      (r : Recorder (row_writer T)) {r' : Recorder (row_writer T)}
      → Opened T fate header r r'
      → CsvFile T (header ++ newline) [] r'.out
  Opened-CsvFile r o =
      subst (λ out. CsvFile T (header ++ newline) [] out) (sym o.out)
        (subst (λ b. File b (write fate (header ++ newline) (open_stream true r.out.file)))
          (sym (append-nil (header ++ newline)))
          (File-write fate [] (header ++ newline) _ (File-open_stream r.out.file)))

  -- When a RowRecorder opened for the first time has been closed and its callback has returned,
  -- every record that the sensor delivered is counted once more, modulo 2^64: as dropped, as
  -- written, or as a write error.
  pub rows_settled :
      {r : Recorder (row_writer T)} {a p : Records T} {s : System (row_writer T)}
      → open_rows T true fate header capacity (fresh_rows T) ≡ some (r, true)
      → Reach (launched r) a p s
      → s.writer ≡ gone
      → s.producer ≡ idle
      → s.rec.received ≡ u64 (s.rec.dropped + (s.rec.out.written + s.rec.out.write_errors))
  rows_settled e l g i =
      let o = open_rows-Opened (fresh_rows T) e in
      Reach-settled (row_counts T) (ground (arith, o.out, o.empty, o.received, o.dropped)) l g i

  -- A RowRecorder that was opened and then closed has lost nothing that its queue took, whatever
  -- the interleaving: if its file is good when it is closed, the file on the disk is the header and
  -- one line for each accepted record, in the order of acceptance.
  pub rows_recorded :
      (r : Recorder (row_writer T)) {r' : Recorder (row_writer T)} {a p : Records T}
      {s : System (row_writer T)} (c : Fate)
      → open_rows T true fate header capacity r ≡ some (r', true)
      → Reach (launched r') a p s
      → s.writer ≡ gone
      → (close_stream c s.rec.out.file).good ≡ true
      → (close_stream c s.rec.out.file).disk ≡ (header ++ newline) ++ csv_text T a
  rows_recorded r {r'} {a} {p} {s} c e l g good =
      let o = open_rows-Opened r e in
      let (same, _) = Reach-complete o.empty l g in
      let v = Reach-CsvFile T (header ++ newline) (Opened-CsvFile r o) l in
      File-disk c _ _ v good ∙ ap (λ q. (header ++ newline) ++ csv_text T q) (sym same)
