-- ===== src/Blob/Faults.antt =====
-- Where BlobRecorder (include/common/blob_recorder.hpp) falls short of its contract: a failed flush
-- is not counted, and a second `open` keeps the first recording's offset.
use kist_data_collector.Common.{
  ℕ, ◌<◌, ◌≡◌, ap, [], ◌∷◌, ◌++◌, true, length, drop, arith, some, length-take, length-drop,
  append-nil,
}
use kist_data_collector.Common.Text.{Text, newline}
use kist_data_collector.Common.Int.{ℤ}
use kist_data_collector.Stream.{keep, refuse, contents, write, flush}
use kist_data_collector.Pipeline.{Recorder}
use kist_data_collector.Blob.{
  FrameType, BlobOut, Fates, write_frame, blob_writer, open_blob, fresh_blob,
}
use kist_data_collector.Blob.Sink.{BlobSink, flush_sink}
use kist_data_collector.Blob.Index.{Slices}
use kist_data_collector.Blob.Losses.{open_blob-Opened, Opened, Opened-Files}
use kist_data_collector.Blob.Contents.{Files, write_frame-Files}

module _ (F : FrameType) (header : Text) (capacity : ℕ) where
  -- After a first `open`, one frame is buffered and the flush behind the batch is then refused
  -- after `n` of its bytes: the frame counts as written and not as a write error, and only `n`
  -- bytes of it are on the disk.
  pub flush_uncounted :
      {r : Recorder (blob_writer F)} (f : F.Frame) (t : ℤ) (n : ℕ)
      → open_blob F true true keep header capacity (fresh_blob F) ≡ some (r, true)
      → n < length (F.payload f)
      → let buffered = write_frame F (record { on_data = keep; on_index = keep }) (f, t) r.out in
        let o =
          (blob_writer F).flush_out (record { on_data = refuse n; on_index = keep }) buffered in
        (o.written ≡ 1) × (o.write_errors ≡ 0) × (length o.sink.data_file.disk ≡ n)
  unfolding write_frame flush_sink write flush
  flush_uncounted {r} f t n e short =
      rw (Opened.out (open_blob-Opened F keep header capacity (fresh_blob F) e))
        (ground (arith, length-take n (F.payload f)))

  -- A recorder that is opened again, `offset_` not being 0, writes a first row whose slice is not
  -- the first frame of the emptied blob.
  pub reopen_misplaces :
      (r : Recorder (blob_writer F)) {r' : Recorder (blob_writer F)} (c : Fates) (f : F.Frame)
      (t : ℤ)
      → open_blob F true true keep header capacity r ≡ some (r', true)
      → 0 < r.out.sink.offset
      → 0 < length (F.payload f)
      → (write_frame F c (f, t) r'.out).sink.data_file.good ≡ true
      → ¬ Slices F
          (contents (write_frame F c (f, t) r'.out).sink.data_file)
          r'.out.sink.offset
          ((f, t) ∷ [])
  unfolding write_frame
  reopen_misplaces r {r'} c f t e off size good h = omega (
    arith,
    ap (λ out. BlobSink.offset (BlobOut.sink out)) o.out,
    ap length h.0,
    length-take (length (F.payload f)) (drop r'.out.sink.offset bytes),
    length-drop r'.out.sink.offset bytes,
    ap length (v.blob.holds good),
    ap length (append-nil (F.payload f)),
  )
    where
      o : Opened F keep header r r'
      o = open_blob-Opened F keep header capacity r e

      bytes : Text
      bytes = contents (write_frame F c (f, t) r'.out).sink.data_file

      v :
          Files F
            (header ++ newline)
            r.out.sink.offset
            ((f, t) ∷ [])
            (write_frame F c (f, t) r'.out).sink
      v =
          write_frame-Files F (header ++ newline) r.out.sink.offset c [] (f, t) r'.out
            (Opened-Files F keep header capacity r o)
