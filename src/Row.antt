-- ===== src/Row.antt =====
-- include/common/row_recorder.hpp: one record stream to one CSV file.
pub mod Contents
pub mod Losses
use kist_data_collector.Common.{
  not, ℕ, ◌+◌, List, ◌++◌, Bool, true, false, Option, none, some, length, if◌then◌else◌, u64,
}
use kist_data_collector.Common.Text.{Text, newline}
use kist_data_collector.Common.Int.{ℤ}
use kist_data_collector.RecordQueue
use kist_data_collector.Stream.{
  OStream, Fate, StreamStats, unopened, open_stream, write, flush, close_stream,
}
use kist_data_collector.Pipeline.{Writer, Recorder}

-- The template's record type with the function that renders a CSV row.
pub record RecordType : Type 1 where
  pub Record : Type 0
  pub row : Record → ℤ → Text

-- What the writer thread alone changes.
pub record RowOut : Type 0 where
  pub file : OStream
  pub written : ℕ
  pub write_errors : ℕ
  pub bytes : ℕ

-- The counters behind `file_ << row << "\n"`.
unfoldable pub count_row : ℕ → OStream → RowOut → RowOut
count_row size file o =
    if file.good
    then record o { file = file; written = u64 (o.written + 1); bytes = u64 (o.bytes + (size + 1)) }
    else record o { file = file; write_errors = u64 (o.write_errors + 1) }

module _ (T : RecordType) where
  -- One round of the loop in `run`.
  unfoldable pub write_row : Fate → T.Record × ℤ → RowOut → RowOut
  unfolding count_row write
  write_row c (item, recv_ns) o =
      let row = T.row item recv_ns in count_row (length row) (write c (row ++ newline) o.file) o

  abbrev pub row_writer : Writer
  row_writer = record {
    Item = T.Record;
    Out = RowOut;
    Choice = Fate;
    write_item = write_row;
    flush_out = λ c o. record o { file = flush c o.file };
    close_out = λ c o. record o { file = close_stream c o.file };
  }

  -- The members' initial values.
  abbrev pub fresh_rows : Recorder row_writer
  fresh_rows = record {
    queue = RecordQueue.initial;
    out = record { file = unopened; written = 0; write_errors = 0; bytes = 0 };
    received = 0;
    dropped = 0;
    joinable = false;
  }

  -- `open` behind `file_.open`. `none` is std::terminate, which the assignment to a joinable
  -- std::thread calls.
  abbrev pub open_file :
      Fate → Text → ℕ → Recorder row_writer → OStream → Option (Recorder row_writer × Bool)
  open_file fate header queue_capacity r file =
      if not file.is_open
      then some (record r { out = record r.out { file = file } }, false)
      else if r.joinable
      then none
      else some (
        record r {
          out = record r.out { file = write fate (header ++ newline) file };
          queue = RecordQueue.open_queue queue_capacity r.queue;
          joinable = true;
        },
        true,
      )

  -- `open`. The Boolean says whether the file can be opened.
  unfoldable pub open_rows :
      (file_ok : Bool) → Fate → Text → ℕ → Recorder row_writer → Option (Recorder row_writer × Bool)
  open_rows file_ok fate header queue_capacity r =
      open_file fate header queue_capacity r (open_stream file_ok r.out.file)

  -- A row stream carries no publisher sequence, so `wire_gaps` keeps its initial 0.
  unfoldable pub row_stats : Recorder row_writer → StreamStats
  row_stats r = record {
    received = r.received;
    written = r.out.written;
    dropped = r.dropped;
    write_errors = r.out.write_errors;
    wire_gaps = 0;
    bytes = r.out.bytes;
  }
