-- ===== src/Blob/Losses.antt =====
-- BlobRecorder's counters (include/common/blob_recorder.hpp): each frame written is counted once,
-- and what `write_errors` does not see.
use kist_data_collector.Common.{
  Bool, ℕ, ◌+◌, ◌<◌, ◌≡◌, refl, sym, ap, ◌∙◌, [], ◌++◌, append-nil, true, false, length, arith,
  subst, u64, u64_mod, some,
}
use kist_data_collector.Common.Text.{Text, newline}
use kist_data_collector.Common.Int.{ℤ}
use kist_data_collector.RecordQueue
use kist_data_collector.Stream.{Fate, write, open_stream}
use kist_data_collector.Stream.File.{File, File-write, File-open_stream, File-disk}
use kist_data_collector.Pipeline.{Recorder}
use kist_data_collector.Pipeline.Threads.{System, Reach, launched, gone, idle}
use kist_data_collector.Pipeline.Order.{Reach-complete}
use kist_data_collector.Pipeline.Accounting.{Counts, Reach-settled}
use kist_data_collector.Blob.{
  FrameType, BlobOut, Fates, write_frame, blob_writer, track, count, open_blob, fresh_blob,
}
use kist_data_collector.Blob.Sink.{BlobSink, close_sink}
use kist_data_collector.Blob.Index.{Frames, blob_bytes, index_text, Slices, Slices-blob_bytes}
use kist_data_collector.Blob.Contents.{Files, Reach-Files}

-- `append` returned true or false, and one of the two counters moved.
count_once :
    (size : ℕ) (o : BlobOut) (r : BlobSink × Bool)
    → u64 ((count size o r).written + (count size o r).write_errors)
      ≡ u64 (o.written + o.write_errors + 1)
unfolding count
count_once size o (sink, true) = omega arith
count_once size o (sink, false) = omega arith

pub blob_handled-write :
    (F : FrameType) (c : Fates) (x : F.Frame × ℤ) (o : BlobOut)
    → u64 ((write_frame F c x o).written + (write_frame F c x o).write_errors)
      ≡ u64 (o.written + o.write_errors + 1)
unfolding write_frame
blob_handled-write F c (f, t) o = count_once (length (F.payload f)) (track (F.sequence f) o) _

abbrev pub blob_counts : (F : FrameType) → Counts (blob_writer F)
blob_counts F = record {
  handled = λ o. o.written + o.write_errors;
  handled-write = blob_handled-write F;
  handled-flush = λ c o. refl;
  handled-close = λ c o. refl;
}

-- What a successful `open` leaves: empty files but for the header, unless they were still open, an empty queue, a thread; and
-- the counters and `offset_` that were there before.
pub record Opened (F : FrameType) (fate : Fate) (header : Text) (r r' : Recorder (blob_writer F))
    : Type 0 where
  pub out : r'.out ≡ record r.out {
    sink = record {
      data_file = open_stream true r.out.sink.data_file;
      index_file = write fate (header ++ newline) (open_stream true r.out.sink.index_file);
      offset = r.out.sink.offset;
    };
  }
  pub empty : r'.queue.queue ≡ []
  pub received : r'.received ≡ r.received
  pub dropped : r'.dropped ≡ r.dropped

module _ (F : FrameType) (fate : Fate) (header : Text) (capacity : ℕ) where
  pub open_blob-Opened :
      (r : Recorder (blob_writer F)) {r' : Recorder (blob_writer F)}
      → open_blob F true true fate header capacity r ≡ some (r', true)
      → Opened F fate header r r'
  unfolding open_blob RecordQueue.open_queue
  open_blob-Opened r e = ground arith

  pub Opened-Files :
      (r : Recorder (blob_writer F)) {r' : Recorder (blob_writer F)}
      → Opened F fate header r r'
      → Files F (header ++ newline) r.out.sink.offset [] r'.out.sink
  Opened-Files r o =
      subst (λ out. Files F (header ++ newline) r.out.sink.offset [] (BlobOut.sink out)) (sym o.out)
        (record {
          blob = File-open_stream r.out.sink.data_file;
          index =
              subst
                (λ b.
                  File b (write fate (header ++ newline) (open_stream true r.out.sink.index_file)))
                (sym (append-nil (header ++ newline)))
                (File-write fate [] (header ++ newline) _ (File-open_stream r.out.sink.index_file));
          next_at = refl;
        })

  -- When a BlobRecorder opened for the first time has been closed and its callback has returned,
  -- every frame that the sensor delivered is counted once more, modulo 2^64: as dropped, as
  -- written, or as a write error.
  pub blob_settled :
      {r : Recorder (blob_writer F)} {a p : Frames F} {s : System (blob_writer F)}
      → open_blob F true true fate header capacity (fresh_blob F) ≡ some (r, true)
      → Reach (launched r) a p s
      → s.writer ≡ gone
      → s.producer ≡ idle
      → s.rec.received ≡ u64 (s.rec.dropped + (s.rec.out.written + s.rec.out.write_errors))
  blob_settled e l g i =
      let o = open_blob-Opened (fresh_blob F) e in
      Reach-settled (blob_counts F) (ground (arith, o.out, o.empty, o.received, o.dropped)) l g i

  -- A BlobRecorder opened for the first time and then closed has lost nothing that its queue took,
  -- whatever the interleaving: if both files are good when they are closed, the blob on the disk is
  -- the payloads of all accepted frames end to end, the index is the header and one row for each
  -- frame, in the order of acceptance, and each row's offset and size cut that frame's payload out
  -- of the blob, provided that the blob is shorter than 2^64 bytes.
  pub blob_recorded :
      {r : Recorder (blob_writer F)} {a p : Frames F} {s : System (blob_writer F)} (c : Fates)
      → open_blob F true true fate header capacity (fresh_blob F) ≡ some (r, true)
      → Reach (launched r) a p s
      → s.writer ≡ gone
      → length (blob_bytes F a) < u64_mod
      → (close_sink c.on_data c.on_index s.rec.out.sink).data_file.good ≡ true
      → (close_sink c.on_data c.on_index s.rec.out.sink).index_file.good ≡ true
      → let sink = close_sink c.on_data c.on_index s.rec.out.sink in
        (sink.data_file.disk ≡ blob_bytes F a)
        × (sink.index_file.disk ≡ (header ++ newline) ++ index_text F 0 a)
        × Slices F sink.data_file.disk 0 a
  unfolding close_sink
  blob_recorded {r} {a} {p} {s} c e l g short data_good index_good =
      let o = open_blob-Opened (fresh_blob F) e in
      let (same, _) = Reach-complete o.empty l g in
      let v = Reach-Files F (header ++ newline) 0 (Opened-Files (fresh_blob F) o) l in
      let blob = File-disk c.on_data _ _ v.blob data_good ∙ ap (blob_bytes F) (sym same) in
      (
        blob,
        File-disk c.on_index _ _ v.index index_good
            ∙ ap (λ q. (header ++ newline) ++ index_text F 0 q) (sym same),
        subst (λ b. Slices F b 0 a) (append-nil (blob_bytes F a) ∙ sym blob)
            (Slices-blob_bytes F [] a [] (omega arith)),
      )
