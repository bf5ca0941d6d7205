-- ===== src/Blob.antt =====
-- include/common/blob_recorder.hpp: one frame stream to a blob file and a CSV index.
pub mod Sink
pub mod Index
pub mod Contents
pub mod Gaps
pub mod Losses
pub mod Faults
use kist_data_collector.Common.{
  ℕ, ◌+◌, List, Bool, true, false, ◌&&◌, Option, none, some, length, ltb, if◌then◌else◌, u64,
  sub_u64,
}
use kist_data_collector.Common.Text.{Text}
use kist_data_collector.Common.Int.{ℤ}
use kist_data_collector.RecordQueue
use kist_data_collector.Stream.{Fate, StreamStats}
use kist_data_collector.Pipeline.{Writer, Recorder}
use Sink.{BlobSink, fresh_sink, open_sink, append, flush_sink, close_sink}

-- The template's frame type. All that the code asks of it is `.sequence` and `.data`; `row` is the
-- function that renders the index columns.
pub record FrameType : Type 1 where
  pub Frame : Type 0
  pub sequence : Frame → ℕ
  pub payload : Frame → List ℕ
  pub row : Frame → ℤ → Text

-- What the writer thread alone changes.
pub record BlobOut : Type 0 where
  pub sink : BlobSink
  pub written : ℕ
  pub write_errors : ℕ
  pub wire_gaps : ℕ
  pub bytes : ℕ
  pub last_seq : ℕ
  pub have_seq : Bool

-- What the file system does with the next call on the blob and on the index.
pub record Fates : Type 0 where
  pub on_data : Fate
  pub on_index : Fate

-- The sequence bookkeeping at the head of the loop in `run`.
unfoldable pub track : ℕ → BlobOut → BlobOut
track seq o = record o {
  wire_gaps =
      if o.have_seq && ltb (u64 (o.last_seq + 1)) seq
      then u64 (o.wire_gaps + sub_u64 (sub_u64 seq o.last_seq) 1)
      else o.wire_gaps;
  last_seq = seq;
  have_seq = true;
}

-- The counters behind `sink_.append`.
unfoldable pub count : ℕ → BlobOut → BlobSink × Bool → BlobOut
count size o (sink, true) = record o {
  sink = sink;
  written = u64 (o.written + 1);
  bytes = u64 (o.bytes + size);
}
count size o (sink, false) = record o { sink = sink; write_errors = u64 (o.write_errors + 1) }

module _ (F : FrameType) where
  -- One round of the loop in `run`.
  unfoldable pub write_frame : Fates → F.Frame × ℤ → BlobOut → BlobOut
  unfolding track count append
  write_frame c (frame, recv_ns) o =
      let payload = F.payload frame in
      count (length payload) (track (F.sequence frame) o)
        (append c.on_data c.on_index payload (F.row frame recv_ns) o.sink)

  abbrev pub blob_writer : Writer
  blob_writer = record {
    Item = F.Frame;
    Out = BlobOut;
    Choice = Fates;
    write_item = write_frame;
    flush_out = λ c o. record o { sink = flush_sink c.on_data c.on_index o.sink };
    close_out = λ c o. record o { sink = close_sink c.on_data c.on_index o.sink };
  }

  -- The members' initial values.
  abbrev pub fresh_blob : Recorder blob_writer
  fresh_blob = record {
    queue = RecordQueue.initial;
    out = record {
      sink = fresh_sink;
      written = 0;
      write_errors = 0;
      wire_gaps = 0;
      bytes = 0;
      last_seq = 0;
      have_seq = false;
    };
    received = 0;
    dropped = 0;
    joinable = false;
  }

  abbrev pub launch :
      ℕ → Recorder blob_writer → BlobSink × Bool → Option (Recorder blob_writer × Bool)
  launch queue_capacity r (sink, false) =
      some (record r { out = record r.out { sink = sink } }, false)
  launch queue_capacity r (sink, true) =
      if r.joinable
      then none
      else some (
        record r {
          out = record r.out { sink = sink };
          queue = RecordQueue.open_queue queue_capacity r.queue;
          joinable = true;
        },
        true,
      )

  -- `open`. The Booleans say which files can be opened. `none` is std::terminate, which the
  -- assignment to a joinable std::thread calls.
  unfoldable pub open_blob :
      (data_ok index_ok : Bool)
      → Fate
      → Text
      → ℕ
      → Recorder blob_writer
      → Option (Recorder blob_writer × Bool)
  unfolding open_sink
  open_blob data_ok index_ok fate header queue_capacity r =
      launch queue_capacity r (open_sink data_ok index_ok fate header r.out.sink)

  unfoldable pub blob_stats : Recorder blob_writer → StreamStats
  blob_stats r = record {
    received = r.received;
    written = r.out.written;
    dropped = r.dropped;
    write_errors = r.out.write_errors;
    wire_gaps = r.out.wire_gaps;
    bytes = r.out.bytes;
  }
