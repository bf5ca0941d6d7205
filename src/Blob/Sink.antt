-- ===== src/Blob/Sink.antt =====
-- BlobSink of include/common/blob_recorder.hpp: an append-only blob file and its CSV index.
use kist_data_collector.Common.{
  ℕ, ◌+◌, List, ◌++◌, Bool, true, false, ◌&&◌, ◌||◌, not, length, if◌then◌else◌, u64,
}
use kist_data_collector.Common.Text.{decimal, newline, comma}
use kist_data_collector.Stream.{OStream, Fate, unopened, open_stream, write, flush, close_stream}

pub record BlobSink : Type 0 where
  pub data_file : OStream
  pub index_file : OStream
  pub offset : ℕ

-- The members' initial values.
abbrev pub fresh_sink : BlobSink
fresh_sink = record { data_file = unopened; index_file = unopened; offset = 0 }

-- `data_ok` and `index_ok`: whether each file can be opened. `offset_` stays what it was.
unfoldable pub open_sink : (data_ok index_ok : Bool) → Fate → List ℕ → BlobSink → BlobSink × Bool
open_sink data_ok index_ok fate header sink =
    let opened : BlobSink = record sink {
      data_file = open_stream data_ok sink.data_file;
      index_file = open_stream index_ok sink.index_file;
    } in
    if not opened.data_file.is_open || not opened.index_file.is_open
    then (opened, false)
    else (record opened { index_file = write fate (header ++ newline) opened.index_file }, true)

-- The row behind the prefix: `,<offset>,<size>` and the end of the line.
abbrev pub index_line : List ℕ → ℕ → ℕ → List ℕ
index_line row_prefix offset size =
    row_prefix ++ comma ++ decimal offset ++ comma ++ decimal size ++ newline

-- What `append` returns stands behind the new sink.
unfoldable pub append : Fate → Fate → List ℕ → List ℕ → BlobSink → BlobSink × Bool
append data_fate index_fate payload row_prefix sink =
    let data_file : OStream = write data_fate payload sink.data_file in
    let index_file : OStream =
      write index_fate (index_line row_prefix sink.offset (length payload)) sink.index_file in
    (
      record {
        data_file = data_file;
        index_file = index_file;
        offset = u64 (sink.offset + length payload);
      },
      data_file.good && index_file.good,
    )

unfoldable pub flush_sink : Fate → Fate → BlobSink → BlobSink
flush_sink data_fate index_fate sink = record sink {
  data_file = flush data_fate sink.data_file;
  index_file = flush index_fate sink.index_file;
}

unfoldable pub close_sink : Fate → Fate → BlobSink → BlobSink
close_sink data_fate index_fate sink = record sink {
  data_file = close_stream data_fate sink.data_file;
  index_file = close_stream index_fate sink.index_file;
}
