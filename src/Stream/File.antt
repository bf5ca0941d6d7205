-- ===== src/Stream/File.antt =====
-- A file that a recorder writes (include/common/blob_recorder.hpp, row_recorder.hpp), seen as the
-- bytes that it is to hold.
use kist_data_collector.Common.{◌≡◌, ap, ◌∙◌, [], ◌++◌, true, arith}
use kist_data_collector.Common.Text.{Text}
use kist_data_collector.Stream.{
  OStream, Fate, contents, open_stream, write, flush, close_stream, contents-write, contents-flush,
  write-good, flush-good, IsFlushed, write-IsFlushed, flush-IsFlushed, close_stream-IsFlushed,
  contents-close_stream,
}

-- A file that holds `bytes` unless the file system refused something.
pub record File (bytes : Text) (s : OStream) : Type 0 where
  pub holds : s.good ≡ true → contents s ≡ bytes
  pub flushed : IsFlushed s

pub File-write :
    (fate : Fate) (bytes more : Text) (s : OStream)
    → File bytes s
    → File (bytes ++ more) (write fate more s)
File-write fate bytes more s v = record {
  holds =
      λ g. contents-write fate more s g ∙ ap (λ b. b ++ more) (v.holds (write-good fate more s g));
  flushed = write-IsFlushed fate more s v.flushed;
}

pub File-flush :
    (fate : Fate) (bytes : Text) (s : OStream) → File bytes s → File bytes (flush fate s)
File-flush fate bytes s v = record {
  holds = λ g. (contents-flush fate s g).0 ∙ v.holds (flush-good fate s g);
  flushed = flush-IsFlushed fate s v.flushed;
}

pub File-close :
    (fate : Fate) (bytes : Text) (s : OStream) → File bytes s → File bytes (close_stream fate s)
File-close fate bytes s v = record {
  holds = λ g.
      let (before, same, _) = contents-close_stream fate s v.flushed g in same ∙ v.holds before;
  flushed = close_stream-IsFlushed fate s v.flushed;
}

-- A stream that `open` leaves good holds nothing: it was closed, and its file has been emptied.
pub File-open_stream : (s : OStream) → File [] (open_stream true s)
File-open_stream s = record {
  holds = λ g. ground (arith, g);
  flushed = λ h g. ground (arith, h, g);
}

-- A file that is good when it has been closed is on the disk.
pub File-disk :
    (fate : Fate) (bytes : Text) (s : OStream)
    → File bytes s
    → (close_stream fate s).good ≡ true
    → (close_stream fate s).disk ≡ bytes
File-disk fate bytes s v g =
    let (before, _, on_disk) = contents-close_stream fate s v.flushed g in on_disk ∙ v.holds before
